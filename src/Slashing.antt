-- ===== src/Slashing.antt =====
-- internal/slashing/format.go. encoding/hex and encoding/json are the record Encoding: the text of a
-- document is made of the documents of its parts. `Accounts` and `Grouped` are about the grouping,
-- `Documents` about the document.
pub mod Accounts
pub mod Each
pub mod Grouped
pub mod Keys
pub mod Documents
use eth2_validator.Base.{
  ℕ, List, [], ◌∷◌, ◌++◌, map, String, Option, none, some, Go, ok, panic, ◌>>=◌, or_panic,
  string_eq, if◌then◌else◌,
}
use eth2_validator.GoMap
use eth2_validator.GoMap.{Map}
use eth2_validator.Duty.{Bytes, Duty, block_proposal, attestation}
use eth2_validator.State.Index.{ascii}
use eth2_validator.State.Keys.{lt_bytes}

pub record AccountDuties : Type 0 where
  pub pub_key : String
  pub signed_blocks : List Duty
  pub signed_attestation : List Duty

-- The documents of signedBlock and signedAttestation.
pub record BlockDocument : Type 0 where
  pub slot : ℕ
  pub signing_root : String

pub record AttestationDocument : Type 0 where
  pub source_epoch : ℕ
  pub target_epoch : ℕ
  pub signing_root : String

pub record AccountDocument : Type 0 where
  pub pub_key : String
  pub signed_blocks : List BlockDocument
  pub signed_attestations : List AttestationDocument

pub record Metadata : Type 0 where
  pub format_version : String
  pub genesis_validators_root : String

pub record Document : Type 0 where
  pub metadata : Metadata
  pub accounts : List AccountDocument

pub record Input : Type 0 where
  pub genesis_validator_root : Bytes
  pub duties : List Duty

unfoldable pub found_or_new : String → Map String AccountDuties → AccountDuties
found_or_new key m = elim (GoMap.lookup key m) [
  | some w ↦ w
  | none ↦ record { pub_key = key; signed_blocks = []; signed_attestation = [] }
]

unfoldable pub add_block : Duty → Map String AccountDuties → Map String AccountDuties
unfolding found_or_new
add_block d m =
    let w = found_or_new d.pub_key m in
    GoMap.insert d.pub_key (record w { signed_blocks = w.signed_blocks ++ d ∷ [] }) m

unfoldable pub add_attestation : Duty → Map String AccountDuties → Map String AccountDuties
unfolding found_or_new
add_attestation d m =
    let w = found_or_new d.pub_key m in
    GoMap.insert d.pub_key (record w { signed_attestation = w.signed_attestation ++ d ∷ [] }) m

-- The loop of Format over the duties. Type panics where there is no job.
unfoldable pub by_account : List Duty → Map String AccountDuties → Go (Map String AccountDuties)
by_account [] m = ok m
by_account (d ∷ l) m = elim d.job [
  | none ↦ panic
  | some block_proposal ↦ by_account l (add_block d m)
  | some (attestation a) ↦ by_account l (add_attestation d m)
  | some _ ↦ by_account l m
]

-- sort.Strings; no account is there twice.
unfoldable pub insert_sorted : String → List String → List String
insert_sorted s [] = s ∷ []
insert_sorted s (t ∷ l) =
    let rest = insert_sorted s l in if lt_bytes (ascii s) (ascii t) then s ∷ t ∷ l else t ∷ rest

unfoldable pub sort : List String → List String
unfolding insert_sorted
sort [] = []
sort (s ∷ l) = insert_sorted s (sort l)

-- The accounts in their order; each is in the map.
unfoldable pub sorted_duties : Map String AccountDuties → List String → Go (List AccountDuties)
sorted_duties m [] = ok []
sorted_duties m (acct ∷ l) = do
  w ← or_panic (GoMap.lookup acct m)
  rest ← sorted_duties m l
  ok (w ∷ rest)

-- A call at each entry, up to the first panic.
unfoldable pub each {ℓ κ} : {A : Type ℓ} {B : Type κ} → (A → Go B) → List A → Go (List B)
each f [] = ok []
each f (x ∷ l) = f x >>= λ y. each f l >>= λ rest. ok (y ∷ rest)

-- "0x" before the hexadecimal digits, and json.Marshal of a document.
pub record Encoding : Type 0 where
  pub hex : Bytes → String
  pub marshal : Document → Option Bytes

module _ (enc : Encoding) where
  -- MarshalJSON, which reads through the pointers of the result.
  unfoldable pub block_document : Duty → Go BlockDocument
  block_document d = do
    r ← or_panic d.result
    b ← or_panic r.block_proposal
    ok (record { slot = d.slot; signing_root = enc.hex b.root })

  unfoldable pub attestation_document : Duty → Go AttestationDocument
  attestation_document d = do
    r ← or_panic d.result
    a ← or_panic r.attestation
    ok (record {
      source_epoch = a.source.epoch;
      target_epoch = a.target.epoch;
      signing_root = enc.hex a.root;
    })

  unfoldable pub account_document : AccountDuties → Go AccountDocument
  account_document w = do
    blocks ← each block_document w.signed_blocks
    attestations ← each attestation_document w.signed_attestation
    ok (record { pub_key = w.pub_key; signed_blocks = blocks; signed_attestations = attestations })

  -- `none` is an error of json.Marshal.
  unfoldable pub format : Input → Go (Option Bytes)
  format input = do
    m ← by_account input.duties []
    accounts ← sorted_duties m (sort (map (λ (k, _). k) m))
    documents ← each account_document accounts
    ok (
        enc.marshal (record {
          metadata = record {
            format_version = "5";
            genesis_validators_root = enc.hex input.genesis_validator_root;
          };
          accounts = documents;
        }))
