-- ===== src/Server/Signing/Accounts.antt =====
-- The validators of the configuration have the public keys of their private keys, and every write to
-- the state keeps it so.
use eth2_validator.Base.{◌^◌, ◌<◌, ◌≡◌, refl, List, [], ◌∷◌, String, some}
use eth2_validator.Base.Try.{value, OnValue, OnValue-bind, OnValue-step, All}
use eth2_validator.Duty.{Validator, Metadata}
use eth2_validator.Server.Signing.{Crypto, validator_key, validator_from_priv_key, initial_vals}

module _ (c : Crypto) where
  -- The private key decodes to a key, and the public key is the hex of that key's.
  pub record HasKey (v : Validator) : Type 0 where
    pub key : c.Key
    pub decoded : validator_key c v ≡ value key
    pub named : v.pub_key ≡ c.encode_hex (c.pub_key key)

  -- A validator that is named by its key, with uint64 metadata.
  pub record IsAccount (v : Validator) : Type 0 where
    pub keyed : HasKey v
    pub words :
        (m : Metadata) → v.metadata ≡ some m → (m.index < 2 ^ 64) × (m.activation_epoch < 2 ^ 64)

  validator_from_priv_key-IsAccount : (k : String) → OnValue IsAccount (validator_from_priv_key c k)
  unfolding validator_from_priv_key validator_key
  validator_from_priv_key-IsAccount k = OnValue-step IsAccount (c.decode_hex k) _ λ buf e.
      OnValue-step IsAccount (c.new_key_from_priv buf) _ λ key f. record {
        keyed = record { key = key; decoded = rw e f; named = refl };
        words = λ m g. cc g;
      }

  -- The validators of the configuration are accounts.
  pub initial_vals-IsAccount : (l : List String) → OnValue (All IsAccount) (initial_vals c l)
  unfolding initial_vals
  initial_vals-IsAccount [] = tt
  initial_vals-IsAccount (k ∷ l) =
      OnValue-bind IsAccount (All IsAccount) (validator_from_priv_key c k) _
        (validator_from_priv_key-IsAccount k)
        λ val h.
          OnValue-bind (All IsAccount) (All IsAccount) (initial_vals c l) _
            (initial_vals-IsAccount l) λ rest g. (h, g)
