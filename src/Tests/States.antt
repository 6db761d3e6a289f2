-- ===== src/Tests/States.antt =====
-- States of lists: two duties and two validators, written, read again after a restart and asked for.
use eth2_validator.Base.{
  ◌∙◌, ◌<◌, ◌≤◌, ◌≡◌, ◌↔◌, inl, inr, refl, true, sym, ap, List, [], ◌∷◌, String, Option, none, some,
  arith, if◌then◌else◌,
}
use eth2_validator.Base.Try.{value, error, IsEntryOf}
use eth2_validator.Duty.{Bytes, Duty, new_duty, block_proposal, Result, Validator, Metadata}
use eth2_validator.State.Schema.{duties_schema, validators_schema}
use eth2_validator.State.Store.{
  State, new_state, upsert_duties, duty_by_id, get_validators_active_at,
}
use eth2_validator.State.Store.Restart.{IsDutiesUpsert, upsert_duties_correct}
use eth2_validator.State.Store.Runs.{Reaches, new_state-run}
use eth2_validator.State.Store.Validators.{IsKnown, Has, AreWords, get_validators_active_at_lem}
use eth2_validator.State.Slash.{root_equal, slash_block_check, slot_too_low}
use eth2_validator.State.Slash.Blocks.{
  IsKept, IsBlockOf, slash_block_check_sound, slash_block_check_complete, slash_block_check-foreign,
}
use eth2_validator.State.Slash.Blocks
use eth2_validator.State.Slash.{slash_attest_check, source_too_low, target_too_low}
use eth2_validator.State.Slash.Votes.{Side, source, target, epoch_at}
use eth2_validator.State.Slash.Attests.{IsVoteOf, IsLeastVote, epoch_of, slash_attest_check_correct}
use eth2_validator.State.Slash.Attests
use eth2_validator.Duty.{attestation, AttestationResult}
use eth2_validator.Base.{ltb, leb, ◌^◌}
use eth2_validator.Tests.Signing.{seat}
use eth2_validator.Tests.Tables.{find-IsEntryOf, find-first}
use eth2_validator.Tests.Files.{
  parts, parts-IsParts, byte_keys, empty_state, empty_state-IsConsistent,
}

abbrev pub root : Bytes
root = 7 ∷ []

abbrev pub signed_result : Result
signed_result = record {
  block_proposal = some (record { root = root; signature = [] });
  attestation = none;
  attestation_aggregate = none;
  sync_committee = none;
  sync_committee_aggregate = none;
}

-- The block that validator 5 has signed in slot 9.
abbrev pub block : Duty
block = record new_duty {
  id = "block";
  slot = 9;
  validator_index = 5;
  job = some block_proposal;
  result = some signed_result;
}

abbrev seen : Validator
seen = record {
  pub_key = "a";
  priv_key = "a";
  metadata = some (record { index = 5; activation_epoch = 3 });
}

abbrev fresh : Validator
fresh = record { pub_key = "b"; priv_key = "b"; metadata = none }

abbrev held : State parts
held = record empty_state { duties = block ∷ []; validators = fresh ∷ seen ∷ [] }

upsert_duties_correct_example :
    IsDutiesUpsert parts empty_state (block ∷ []) (upsert_duties parts empty_state (block ∷ []))
upsert_duties_correct_example =
    upsert_duties_correct parts parts-IsParts empty_state (block ∷ []) empty_state-IsConsistent

new_state-run_example :
    (s : State parts) × (new_state parts [] [] ≡ value s)
    × ((t : State parts)
        → Reaches parts s t
        → (t' : State parts) × (new_state parts t.duties_bucket t.validators_bucket ≡ value t')
          × ((k : String) → duty_by_id parts t' k ≡ duty_by_id parts t k)
          × ((k : String)
              → parts.validators_db.by_id t'.validators k
                ≡ parts.validators_db.by_id t.validators k))
new_state-run_example = new_state-run parts parts-IsParts

held-AreWords : AreWords parts parts-IsParts.validators_db parts-IsParts.indexers held
held-AreWords v m kept e =
    elim (find-IsEntryOf (λ x. x.pub_key) (validators_schema byte_keys) (fresh ∷ seen ∷ []) v
      v.pub_key kept) [
        | inl q ↦ absurd (cc (e, ap (λ x. x.metadata) q))
        | inr (inl q) ↦
            let same : ◌≡◌ {A = Metadata} (record { index = 5; activation_epoch = 3 }) m =
              cc (e, ap (λ x. x.metadata) q) in
            rw (sym same) (omega arith, omega arith)
        | inr (inr i) ↦ absurd i
      ]

get_validators_active_at_lem_example :
    (l : List Validator) × (get_validators_active_at parts held 2 ≡ value l)
    × ((v : Validator)
        → IsEntryOf v l ↔ (
            IsKnown parts parts-IsParts.validators_db parts-IsParts.indexers held v
            × Has parts parts-IsParts.validators_db parts-IsParts.indexers held
                (λ m. m.activation_epoch ≤ 2)
                v))
get_validators_active_at_lem_example =
    get_validators_active_at_lem parts parts-IsParts.validators_db parts-IsParts.indexers held
      held-AreWords 2 (omega arith)

kept_block : (d : Duty) → IsKept parts parts-IsParts.duties_db held d → d ≡ block
kept_block d kept =
    elim (find-IsEntryOf (λ x. x.id) (duties_schema byte_keys) (block ∷ []) d d.id kept) [
      | inl q ↦ q
      | inr i ↦ absurd i
    ]

words : Blocks.AreWords parts parts-IsParts.duties_db held
words d kept = rw (kept_block d kept) (omega arith, omega arith)

block-IsBlockOf : IsBlockOf parts parts-IsParts.duties_db held 5 block
block-IsBlockOf = (
  find-first (λ x. x.id) (duties_schema byte_keys) block [],
  record { proposal = refl; result = signed_result; signed = refl; of = refl },
)

accepted : slash_block_check parts held 5 10 root ≡ value tt
accepted =
    slash_block_check_complete parts parts-IsParts.duties_db held words 5 (omega arith) 10 root
      block (omega arith) block-IsBlockOf (omega arith)
      (λ d b e. absurd (omega (arith, ap (λ x. x.slot) (kept_block d b.0), e)))

slash_block_check_complete_example : slash_block_check parts held 5 11 root ≡ value tt
slash_block_check_complete_example =
    slash_block_check_complete parts parts-IsParts.duties_db held words 5 (omega arith) 11 root
      block (omega arith) block-IsBlockOf (omega arith)
      (λ d b e. absurd (omega (arith, ap (λ x. x.slot) (kept_block d b.0), e)))

slash_block_check-foreign_example : slash_block_check parts held 4 9 root ≡ error slot_too_low
slash_block_check-foreign_example =
    slash_block_check-foreign parts parts-IsParts.duties_db held words 4 (omega arith) 9 root 5
      block (omega arith)
      (λ d b. omega (arith, ap (λ x. x.validator_index) (kept_block d b.0), (b.1).of))
      block-IsBlockOf (omega arith) (λ u d b h. omega (arith, ap (λ x. x.slot) (kept_block d b.0)))

slash_block_check_sound_example :
    ((d : Duty) × IsBlockOf parts parts-IsParts.duties_db held 5 d
      × ((e : Duty) → IsBlockOf parts parts-IsParts.duties_db held 5 e → d.slot ≤ e.slot)
      × (d.slot < 10))
    × ((e : Duty)
        → IsBlockOf parts parts-IsParts.duties_db held 5 e
        → e.slot ≡ 10
        → (d : Duty) × IsBlockOf parts parts-IsParts.duties_db held 5 d
          × (d.slot ≡ 10)
          × (root_equal d root ≡ value true))
slash_block_check_sound_example =
    slash_block_check_sound parts parts-IsParts.duties_db held words 5 (omega arith) 10 root block
      (omega arith) block-IsBlockOf accepted

-- A vote of validator 5, from epoch 2 to epoch 3.
abbrev choice : AttestationResult
choice = record {
  root = root;
  source = record { root = []; epoch = 2 };
  target = record { root = []; epoch = 3 };
}

abbrev choice_result : Result
choice_result = record {
  block_proposal = none;
  attestation = some choice;
  attestation_aggregate = none;
  sync_committee = none;
  sync_committee_aggregate = none;
}

abbrev vote : Duty
vote = record new_duty {
  id = "vote";
  validator_index = 5;
  job = some (attestation seat);
  result = some choice_result;
}

abbrev voted : State parts
voted = record empty_state { duties = vote ∷ [] }

vote-IsVoteOf : IsVoteOf parts parts-IsParts.duties_db voted 5 vote
vote-IsVoteOf = record {
  kept = find-first (λ x. x.id) (duties_schema byte_keys) vote [];
  is = record {
    job = seat;
    attests = refl;
    result = choice_result;
    signed = refl;
    vote = choice;
    voted = refl;
    of = refl;
  };
}

vote_words : Attests.AreWords parts parts-IsParts.duties_db voted
vote_words v d b =
    elim (find-IsEntryOf (λ x. x.id) (duties_schema byte_keys) (vote ∷ []) d d.id b.kept) [
      | inl q ↦
          let of : 5 ≡ v = sym (ap (λ x. x.validator_index) q) ∙ (b.is).of in
          (omega (arith, of), epochs (some_inj (sym (b.is).signed ∙ ap (λ x. x.result) q)))
      | inr i ↦ absurd i
    ]
  where
    some_inj : {A : Type 0} {x y : A} → ◌≡◌ {A = Option A} (some x) (some y) → x ≡ y
    some_inj e = cc e

    epochs : (b.is).result ≡ choice_result → (a : Side) → epoch_at a (b.is).vote < 2 ^ 64
    epochs e a =
        let same : (b.is).vote ≡ choice = some_inj (sym (b.is).voted ∙ ap (λ r. r.attestation) e) in
        rw same (small a)
      where
        small : (a : Side) → epoch_at a choice < 2 ^ 64
        small source = omega arith
        small target = omega arith

slash_attest_check_correct_example :
    (d e : Duty) × (low : IsLeastVote parts parts-IsParts.duties_db voted 5 source d)
    × (bottom : IsLeastVote parts parts-IsParts.duties_db voted 5 target e) × (slash_attest_check
          parts voted 5 2 4
        ≡ (if ltb 2 (epoch_of parts parts-IsParts.duties_db voted source low.own)
            then error source_too_low
            else if leb 4 (epoch_of parts parts-IsParts.duties_db voted target bottom.own)
            then error target_too_low
            else value tt))
slash_attest_check_correct_example =
    slash_attest_check_correct parts parts-IsParts.duties_db voted vote_words 5 2 4 vote
      vote-IsVoteOf
