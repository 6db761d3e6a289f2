-- ===== src/Server/Signing/Signatures.antt =====
-- What Sign returns, for a state whose validators have the keys that they are named by.
use eth2_validator.Base.{ℕ, ◌^◌, ◌<◌, ◌≡◌, ◌⊎◌, inl, inr, true, Option, none, some, arith}
use eth2_validator.Base.Try.{Try, value, error, ◌>>=◌, bind-value}
use eth2_validator.Duty.{Bytes, Fork, phase0, altair, bellatrix, Validator}
use eth2_validator.Scheduler.{fork_at}
use eth2_validator.Scheduler.Input.{Spec, DomainType}
use eth2_validator.State.Store.{Parts, State}
use eth2_validator.State.Store.Restart.{IsParts}
use eth2_validator.State.Store.Validators.{IsKnown, Has, AreWords, get_validator_by_index_lem}
use eth2_validator.Server.Signing.{
  SignError, validator_not_found, Crypto, IsCrypto, fork_version_at, from_lookup, validator_key,
  root_to_sign, found_or_error, sign,
}
use eth2_validator.Server.Signing.Accounts.{HasKey}

abbrev pub version_of : Spec → Fork → Bytes
version_of spec phase0 = spec.genesis_fork_version
version_of spec altair = spec.altair_fork_version
version_of spec bellatrix = spec.bellatrix_fork_version

-- Sign takes the version of the fork that the scheduler gives to the duties of the epoch.
pub fork_version_at-fork_at :
    (spec : Spec) (epoch : ℕ) → fork_version_at spec epoch ≡ version_of spec (fork_at spec epoch)
unfolding fork_version_at fork_at
fork_version_at-fork_at spec epoch = ground arith

module _ (c : Crypto) (p : Parts) (P : IsParts p) (spec : Spec) (genesis_root : Bytes)
    (s : State p) where
  abbrev pub IsHeld : Validator → Type 0
  IsHeld = IsKnown p P.validators_db P.indexers s

  -- A held validator with the index.
  abbrev pub IsAt : ℕ → Validator → Type 0
  IsAt index v = IsHeld v × Has p P.validators_db P.indexers s (λ m. m.index ≡ index) v

  -- Of a call of Sign: no validator has the index, or one that has it signs with its key.
  pub data IsSigned (domain : DomainType) (epoch account_index : ℕ) (root : Bytes)
      : Try SignError Bytes → Type 0 where
    unknown :
        ((v : Validator) → ¬ IsAt account_index v)
        → IsSigned domain epoch account_index root (
            root_to_sign c spec genesis_root domain epoch root >>= λ _.
            error (validator_not_found account_index))
    by :
        {v : Validator}
        → IsAt account_index v
        → (k : HasKey c v)
        → IsSigned domain epoch account_index root
            (root_to_sign c spec genesis_root domain epoch root >>= c.sign k.key)

  -- Where every validator in the state is named by its key and has uint64 metadata, a call of
  -- Sign for a uint64 index either fails since no validator has it, or signs the root, in the
  -- domain, with the key of a validator that has it; where the root has no signing root the call
  -- fails as that does.
  pub sign_correct :
      AreWords p P.validators_db P.indexers s
      → ((v : Validator) → IsHeld v → HasKey c v)
      → (domain : DomainType) (epoch account_index : ℕ) (root : Bytes) → account_index < 2 ^ 64
      → IsSigned domain epoch account_index root
          (sign c p spec genesis_root s domain epoch account_index root)
  unfolding sign from_lookup
  sign_correct words keyed domain epoch account_index root h =
      let (o, e, found) =
        get_validator_by_index_lem p P.validators_db P.indexers s words account_index h in
      rw e (of o found)
    where
      of :
          (o : Option Validator)
          → ((o ≡ none)
              × ((v : Validator)
                  → IsHeld v
                  → ¬ Has p P.validators_db P.indexers s (λ m. m.index ≡ account_index) v))
            ⊎ ((v : Validator) × (o ≡ some v)
                × IsHeld v
                × Has p P.validators_db P.indexers s (λ m. m.index ≡ account_index) v)
          → IsSigned domain epoch account_index root (
              root_to_sign c spec genesis_root domain epoch root >>= λ signed_root.
              found_or_error c account_index o >>= λ v.
              validator_key c v >>= λ key. c.sign key signed_root)
      of o (inl (e, free)) = rw e (unknown λ v (a, b). free v a b)
      of o (inr (v, e, kept, at)) = let k = keyed v kept in rw (e, k.decoded) (by (kept, at) k)

  -- A signature that Sign returns verifies, for the signing root, under the public key that the state
  -- names a validator with the index by.
  pub sign-verify :
      IsCrypto c
      → AreWords p P.validators_db P.indexers s
      → ((v : Validator) → IsHeld v → HasKey c v)
      → (domain : DomainType) (epoch account_index : ℕ) (root signature : Bytes)
      → account_index < 2 ^ 64
      → sign c p spec genesis_root s domain epoch account_index root ≡ value signature
      → (v : Validator) × (pub_key signed_root : Bytes) × IsAt account_index v
        × (v.pub_key ≡ c.encode_hex pub_key)
        × (root_to_sign c spec genesis_root domain epoch root ≡ value signed_root)
        × (c.verify pub_key signed_root signature ≡ true)
  sign-verify C words keyed domain epoch account_index root signature h e =
      of _ (sign_correct words keyed domain epoch account_index root h) e
    where
      of :
          (r : Try SignError Bytes)
          → IsSigned domain epoch account_index root r
          → r ≡ value signature
          → (v : Validator) × (pub_key signed_root : Bytes) × IsAt account_index v
            × (v.pub_key ≡ c.encode_hex pub_key)
            × (root_to_sign c spec genesis_root domain epoch root ≡ value signed_root)
            × (c.verify pub_key signed_root signature ≡ true)
      of r (unknown free) e =
          let (signed_root, f, g) =
            bind-value (root_to_sign c spec genesis_root domain epoch root) _ signature e in
          absurd (cc g)
      of r (by {v = v} at k) e =
          let (signed_root, f, g) =
            bind-value (root_to_sign c spec genesis_root domain epoch root) (c.sign k.key) signature
              e in
          (
            v,
            c.pub_key k.key,
            signed_root,
            at,
            k.named,
            f,
            C.sign-verify k.key signed_root signature g,
          )
