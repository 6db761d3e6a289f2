-- ===== src/Server/Signing.antt =====
-- Sign and validatorFromPrivKey of internal/server/server.go, and Key of a validator
-- (internal/server/proto/types.go). encoding/hex, the BLS library, and ComputeDomain and the hash of
-- SigningData of go-eth-consensus are the record Crypto. `Accounts` is about the keys of the
-- validators that the state holds, `Signatures` about what Sign returns.
pub mod Accounts
pub mod Signatures
use eth2_validator.Base.{
  ℕ, List, [], ◌∷◌, String, Option, none, some, ◌≡◌, Bool, true, leb, if◌then◌else◌,
}
use eth2_validator.Base.Try.{◌>>=◌, Try, value, error, crash}
use eth2_validator.Duty.{Bytes, Validator}
use eth2_validator.Scheduler.Input.{
  Spec, DomainType, domain_beacon_proposer, domain_randao, domain_beacon_attester, domain_deposit,
  domain_voluntary_exit, domain_selection_proof, domain_aggregate_and_proof, domain_sync_committee,
  domain_sync_committee_selection_proof, domain_contribution_and_proof,
}
use eth2_validator.State.Index.{IndexError}
use eth2_validator.State.Store.{Parts, State, get_validator_by_index}

pub data SignError : Type 0 where
  hex_failed key_failed domain_failed hash_failed signing_failed : SignError
  lookup_failed : IndexError → SignError
  validator_not_found : ℕ → SignError

pub record Crypto : Type 1 where
  pub Key : Type 0
  pub decode_hex : String → Try SignError Bytes
  pub encode_hex : Bytes → String
  pub new_key_from_priv : Bytes → Try SignError Key
  pub pub_key : Key → Bytes
  pub sign : Key → Bytes → Try SignError Bytes
  -- Whether a signature is that of a root under a public key.
  pub verify : Bytes → Bytes → Bytes → Bool
  -- ComputeDomain, of a domain, a fork version and the root of the genesis validators.
  pub compute_domain : Bytes → Bytes → Bytes → Try SignError Bytes
  -- The hash of SigningData, of the root of an object and a domain.
  pub signing_root : Bytes → Bytes → Try SignError Bytes

pub record IsCrypto (c : Crypto) : Type 0 where
  pub sign-verify :
      (key : c.Key) (root signature : Bytes)
      → c.sign key root ≡ value signature
      → c.verify (c.pub_key key) root signature ≡ true

unfoldable pub domain_typ_to_domain : DomainType → Bytes
domain_typ_to_domain domain_beacon_proposer = 0 ∷ 0 ∷ 0 ∷ 0 ∷ []
domain_typ_to_domain domain_beacon_attester = 1 ∷ 0 ∷ 0 ∷ 0 ∷ []
domain_typ_to_domain domain_randao = 2 ∷ 0 ∷ 0 ∷ 0 ∷ []
domain_typ_to_domain domain_deposit = 3 ∷ 0 ∷ 0 ∷ 0 ∷ []
domain_typ_to_domain domain_voluntary_exit = 4 ∷ 0 ∷ 0 ∷ 0 ∷ []
domain_typ_to_domain domain_selection_proof = 5 ∷ 0 ∷ 0 ∷ 0 ∷ []
domain_typ_to_domain domain_aggregate_and_proof = 6 ∷ 0 ∷ 0 ∷ 0 ∷ []
domain_typ_to_domain domain_sync_committee = 7 ∷ 0 ∷ 0 ∷ 0 ∷ []
domain_typ_to_domain domain_sync_committee_selection_proof = 8 ∷ 0 ∷ 0 ∷ 0 ∷ []
domain_typ_to_domain domain_contribution_and_proof = 9 ∷ 0 ∷ 0 ∷ 0 ∷ []

-- The version of the fork that an epoch is in.
unfoldable pub fork_version_at : Spec → ℕ → Bytes
fork_version_at spec epoch =
    if leb spec.bellatrix_fork_epoch epoch
    then spec.bellatrix_fork_version
    else if leb spec.altair_fork_epoch epoch
    then spec.altair_fork_version
    else spec.genesis_fork_version

unfoldable pub from_lookup {ℓ} : {A : Type ℓ} → Try IndexError A → Try SignError A
from_lookup (value a) = value a
from_lookup (error e) = error (lookup_failed e)
from_lookup crash = crash

module _ (c : Crypto) where
  unfoldable pub validator_key : Validator → Try SignError c.Key
  validator_key v = do buf ← c.decode_hex v.priv_key; c.new_key_from_priv buf

  unfoldable pub validator_from_priv_key : String → Try SignError Validator
  validator_from_priv_key priv_key = do
    buf ← c.decode_hex priv_key
    key ← c.new_key_from_priv buf
    value (record { pub_key = c.encode_hex (c.pub_key key); priv_key = priv_key; metadata = none })

  -- The validators of the keys in the configuration.
  unfoldable pub initial_vals : List String → Try SignError (List Validator)
  initial_vals [] = value []
  initial_vals (k ∷ l) = do
    val ← validator_from_priv_key k
    rest ← initial_vals l
    value (val ∷ rest)

  -- The root that is signed.
  unfoldable pub root_to_sign : Spec → Bytes → DomainType → ℕ → Bytes → Try SignError Bytes
  root_to_sign spec genesis_root domain epoch root = do
    ddd ← c.compute_domain (domain_typ_to_domain domain) (fork_version_at spec epoch) genesis_root
    c.signing_root root ddd

  abbrev pub found_or_error : ℕ → Option Validator → Try SignError Validator
  found_or_error account_index none = error (validator_not_found account_index)
  found_or_error account_index (some v) = value v

  module _ (p : Parts) (spec : Spec) (genesis_root : Bytes) (s : State p) where
    unfoldable pub sign : DomainType → ℕ → ℕ → Bytes → Try SignError Bytes
    sign domain epoch account_index root = do
      signed_root ← root_to_sign spec genesis_root domain epoch root
      o ← from_lookup (get_validator_by_index p s account_index)
      validator ← found_or_error account_index o
      key ← validator_key validator
      c.sign key signed_root
