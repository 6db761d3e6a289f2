-- ===== src/State/Slash.antt =====
-- The checks of internal/server/state/state.go against slashing. `Entries` is about the entries of
-- the index of block proposals and `Blocks` about the check of a block, `Votes` about the entries of the
-- index of attestations and `Attests` about the check of one.
pub mod Entries
pub mod Blocks
pub mod Votes
pub mod Attests
use eth2_validator.Base.{
  string_eq, ℕ, Bool, [], ◌∷◌, String, Option, none, some, leb, ltb, ◌==◌, if◌then◌else◌,
}
use eth2_validator.Base.Try.{Try, value, error, crash, ◌>>=◌}
use eth2_validator.Bitlist.{equal}
use eth2_validator.Duty.{Bytes, Duty}
use eth2_validator.State.Index.{uint64_arg, string_arg}
use eth2_validator.State.Bolt.{StateError}
use eth2_validator.State.Schema.{block_proposer_index, attest_proposer_index}
use eth2_validator.State.Store.{Parts, State, from_index}

pub data SlashError : Type 0 where
  state_failed : StateError → SlashError
  root_repeated : ℕ → SlashError
  slot_too_low source_too_low target_too_low : SlashError

unfoldable pub from_state {ℓ} : {A : Type ℓ} → Try StateError A → Try SlashError A
from_state (value a) = value a
from_state (error e) = error (state_failed e)
from_state crash = crash

-- A field of a nil pointer.
unfoldable pub deref {ℓ} : {A : Type ℓ} → Option A → Try SlashError A
deref none = crash
deref (some a) = value a

-- blockSlotProposal.Equal, of a duty that exists.
unfoldable pub root_equal : Duty → Bytes → Try SlashError Bool
unfolding deref
root_equal d root = do r ← deref d.result; b ← deref r.block_proposal; value (equal b.root root)

-- attestSlashProposal.Epoch
unfoldable pub checkpoint_epoch : String → Duty → Try SlashError ℕ
unfolding deref
checkpoint_epoch typ d = do
  r ← deref d.result
  a ← deref r.attestation
  value (if typ == "source" then a.source.epoch else a.target.epoch)

-- The tests on what was found.
unfoldable pub check_root : ℕ → Bytes → Option Duty → Try SlashError (Unit {0})
unfolding root_equal
check_root slot root none = value tt
check_root slot root (some d) =
    root_equal d root >>= λ same. if same then value tt else error (root_repeated slot)

unfoldable pub check_slot : ℕ → Option Duty → Try SlashError (Unit {0})
check_slot slot none = value tt
check_slot slot (some d) = if leb slot d.slot then error slot_too_low else value tt

unfoldable pub check_source : ℕ → Option Duty → Try SlashError (Unit {0})
unfolding checkpoint_epoch
check_source source none = value tt
check_source source (some d) =
    checkpoint_epoch "source" d >>= λ e. if ltb source e then error source_too_low else value tt

unfoldable pub check_target : ℕ → Option Duty → Try SlashError (Unit {0})
unfolding checkpoint_epoch
check_target target none = value tt
check_target target (some d) =
    checkpoint_epoch "target" d >>= λ e. if leb target e then error target_too_low else value tt

module _ (p : Parts) (s : State p) where
  unfoldable pub proposal_at_slot : ℕ → ℕ → Try SlashError (Option Duty)
  unfolding from_state from_index
  proposal_at_slot val_id slot = do
    let ix = block_proposer_index p.indexers
    key ← from_state (from_index (ix.from_args (uint64_arg val_id ∷ uint64_arg slot ∷ [])))
    value (p.duties_db.first s.duties ix key)

  unfoldable pub lowest_signed_proposal : ℕ → Try SlashError (Option Duty)
  unfolding from_state from_index
  lowest_signed_proposal val_id = do
    let ix = block_proposer_index p.indexers
    key ← from_state (from_index (ix.prefix_from_args (uint64_arg val_id ∷ [])))
    value (p.duties_db.lower_bound s.duties ix key)

  unfoldable pub slash_block_check : ℕ → ℕ → Bytes → Try SlashError (Unit {0})
  slash_block_check val_id slot root = do
    at_slot ← proposal_at_slot val_id slot
    lowest ← lowest_signed_proposal val_id
    _ ← check_root slot root at_slot
    check_slot slot lowest

  unfoldable pub lowest_signed_epoch : ℕ → String → Try SlashError (Option Duty)
  unfolding from_state from_index
  lowest_signed_epoch val_id typ = do
    let ix = attest_proposer_index p.indexers
    key ← from_state (from_index (ix.prefix_from_args (uint64_arg val_id ∷ string_arg typ ∷ [])))
    value (p.duties_db.lower_bound s.duties ix key)

  unfoldable pub slash_attest_check : ℕ → ℕ → ℕ → Try SlashError (Unit {0})
  slash_attest_check val_id source target = do
    lowest_source ← lowest_signed_epoch val_id "source"
    lowest_target ← lowest_signed_epoch val_id "target"
    _ ← check_source source lowest_source
    check_target target lowest_target
