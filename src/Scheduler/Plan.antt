-- ===== src/Scheduler/Plan.antt =====
-- What every duty of a plan is like.
use eth2_validator.Base.{
  ℕ, zero, suc, ◌+◌, ◌-◌, ◌<◌, ◌≡◌, refl, List, [], ◌∷◌, ◌++◌, map, String, Option, none, some, inl,
  inr, ltb, ltb→lt, if◌then◌else◌, Bool-cases,
}
use eth2_validator.Base.Try.{OnValue, OnValue-bind, OnValue-any, All, All-append, All-map}
use eth2_validator.DelayHeap.Nodes.{Time}
use eth2_validator.Duty.{
  Job, block_proposal, attestation, attestation_aggregate, sync_committee, sync_committee_aggregate,
  Duty, pending,
}
use eth2_validator.Scheduler.{
  fork_at, at_slot, delay, aggregation_delay, duty, proposals, attestation_duties, attestations,
  aggregates, committee_at, committee_slots, committees, clean_duties, fill_in, process,
  is_attestator_aggregate, is_sync_committee_aggregator, subcommittees, first_slot, last_slot,
}
use eth2_validator.Scheduler.Input.{
  Spec, AttesterDuty, ProposerDuty, CommitteeSyncDuty, Evaluation, Env, convert_to_int_indices,
}
use eth2_validator.Scheduler.Times.{later}

module _ (env : Env) (config : Spec) (eval : Evaluation) where
  -- When a duty of a job is due: blocks at the start of the slot, the messages of attesters and of
  -- the sync committee a third into it, and their aggregates two thirds into it.
  abbrev pub due_at : ℕ → Option Job → Time
  due_at slot none = 0
  due_at slot (some block_proposal) = at_slot env config eval slot
  due_at slot (some (attestation a)) = later (at_slot env config eval slot) (delay env config eval)
  due_at slot (some (attestation_aggregate p)) =
      later (at_slot env config eval slot) (aggregation_delay env config eval)
  due_at slot (some sync_committee) = later (at_slot env config eval slot) (delay env config eval)
  due_at slot (some (sync_committee_aggregate a)) =
      later (at_slot env config eval slot) (aggregation_delay env config eval)

  -- What holds of a duty from the time when it is appended.
  pub record IsDrafted (d : Duty) : Type 0 where
    pub of_epoch : d.epoch ≡ eval.epoch
    pub timed : d.active_time ≡ due_at d.slot d.job
    pub no_key : d.pub_key ≡ ""
    pub no_result : d.result ≡ none

  -- And what holds of it in a plan that is made at the time `now`.
  pub record IsPlanned (now : Time) (d : Duty) : Type 0 where
    pub drafted : IsDrafted d
    pub in_future : now < d.active_time
    pub forked : d.fork ≡ fork_at config eval.epoch
    pub is_pending : d.state ≡ pending

  duty-IsDrafted :
      (id : String) (slot index : ℕ) (t : Time) (job : Job) (l : List String)
      → t ≡ due_at slot (some job)
      → IsDrafted (duty env config eval id slot t index job l)
  unfolding duty
  duty-IsDrafted id slot index t job l e = record {
    of_epoch = refl;
    timed = e;
    no_key = refl;
    no_result = refl;
  }

  abbrev Drafted : List Duty × ℕ → Type 0
  Drafted r = All IsDrafted r.0

  proposals-Drafted : (l : List ProposerDuty) (n : ℕ) → Drafted (proposals env config eval l n)
  unfolding proposals
  proposals-Drafted [] n = tt
  proposals-Drafted (p ∷ l) n = (
    duty-IsDrafted (env.uuid n) p.slot p.validator_index _ block_proposal [] refl,
    proposals-Drafted l (n + 1),
  )

  attestation_duties-Drafted :
      (a : AttesterDuty) (n : ℕ) → OnValue Drafted (attestation_duties env config eval a n)
  unfolding attestation_duties
  attestation_duties-Drafted a n =
      OnValue-bind (λ _. Unit {0}) Drafted
        (is_attestator_aggregate env config eval a.committee_length a.slot a.validator_index) _
        (OnValue-any _)
        λ (chosen, proof) _. elim (Bool-cases chosen) [
          | inl e ↦ rw e (
            duty-IsDrafted _ a.slot a.validator_index _ (attestation _) [] refl,
            (duty-IsDrafted _ a.slot a.validator_index _ (attestation_aggregate proof) _ refl, tt),
          )
          | inr e ↦ rw e (duty-IsDrafted _ a.slot a.validator_index _ (attestation _) [] refl, tt)
        ]

  attestations-Drafted :
      (l : List AttesterDuty) (n : ℕ) → OnValue Drafted (attestations env config eval l n)
  unfolding attestations
  attestations-Drafted [] n = tt
  attestations-Drafted (a ∷ l) n =
      OnValue-bind Drafted Drafted (attestation_duties env config eval a n) _
        (attestation_duties-Drafted a n)
        λ (duties, n') p.
          OnValue-bind Drafted Drafted (attestations env config eval l n') _
            (attestations-Drafted l n') λ (rest, n'') q. All-append IsDrafted duties rest p q

  aggregates-Drafted :
      (slot index : ℕ) (l : List ℕ) (n : ℕ)
      → OnValue Drafted (aggregates env config eval slot index l n)
  unfolding aggregates
  aggregates-Drafted slot index [] n = tt
  aggregates-Drafted slot index (s ∷ l) n =
      OnValue-bind (λ _. Unit {0}) Drafted
        (is_sync_committee_aggregator env config eval s slot index) _ (OnValue-any _)
        λ (chosen, proof) _.
          OnValue-bind Drafted Drafted
            (aggregates env config eval slot index l (if chosen then n + 1 else n)) _
            (aggregates-Drafted slot index l (if chosen then n + 1 else n))
            λ (rest, n') q. elim (Bool-cases chosen) [
              | inl e ↦ rw e (duty-IsDrafted _ slot index _ (sync_committee_aggregate _) [] refl, q)
              | inr e ↦ rw e q
            ]

  committee_at-Drafted :
      (c : CommitteeSyncDuty) (slot n : ℕ) → OnValue Drafted (committee_at env config eval c slot n)
  unfolding committee_at
  committee_at-Drafted c slot n =
      OnValue-bind (λ _. Unit {0}) Drafted
        (convert_to_int_indices c.validator_sync_committee_indices) _ (OnValue-any _)
        λ indices _.
          OnValue-bind (λ _. Unit {0}) Drafted (subcommittees env config eval indices []) _
            (OnValue-any _)
            λ found _.
              OnValue-bind Drafted Drafted
                (aggregates env config eval slot c.validator_index
                  (env.range (map (λ (k, _). k) found)) (n + 1))
                _ (aggregates-Drafted slot c.validator_index _ (n + 1))
                λ (rest, n') q.
                  (duty-IsDrafted _ slot c.validator_index _ sync_committee [] refl, q)

  committee_slots-Drafted :
      (c : CommitteeSyncDuty) (count slot n : ℕ)
      → OnValue Drafted (committee_slots env config eval c count slot n)
  unfolding committee_slots
  committee_slots-Drafted c zero slot n = tt
  committee_slots-Drafted c (suc count) slot n =
      OnValue-bind Drafted Drafted (committee_at env config eval c slot n) _
        (committee_at-Drafted c slot n)
        λ (duties, n') p.
          OnValue-bind Drafted Drafted (committee_slots env config eval c count (slot + 1) n') _
            (committee_slots-Drafted c count (slot + 1) n')
            λ (rest, n'') q. All-append IsDrafted duties rest p q

  committees-Drafted :
      (l : List CommitteeSyncDuty) (n : ℕ) → OnValue Drafted (committees env config eval l n)
  unfolding committees
  committees-Drafted [] n = tt
  committees-Drafted (c ∷ l) n =
      let count = last_slot env config eval - first_slot env config eval in
      OnValue-bind Drafted Drafted
        (committee_slots env config eval c count (first_slot env config eval) n) _
        (committee_slots-Drafted c count (first_slot env config eval) n)
        λ (duties, n') p.
          OnValue-bind Drafted Drafted (committees env config eval l n') _ (committees-Drafted l n')
            λ (rest, n'') q. All-append IsDrafted duties rest p q

  abbrev IsLive : Time → Duty → Type 0
  IsLive now d = IsDrafted d × (now < d.active_time)

  clean_duties-IsLive :
      (now : Time) (l : List Duty)
      → All IsDrafted l
      → All (IsLive now) (clean_duties env config eval now l)
  unfolding clean_duties
  clean_duties-IsLive now [] p = tt
  clean_duties-IsLive now (d ∷ l) p = elim (Bool-cases (ltb now d.active_time)) [
    | inl e ↦ rw e ((p.0, ltb→lt now d.active_time e), clean_duties-IsLive now l p.1)
    | inr e ↦ rw e (clean_duties-IsLive now l p.1)
  ]

  -- Every duty of a plan that Process makes at the time `now` is of the evaluation's epoch, pending,
  -- without result and of the fork that is active in that epoch; it becomes active after `now`, when
  -- duties of its kind in its slot are due; and its public key is empty.
  pub process-IsPlanned :
      (now : Time) (n : ℕ)
      → OnValue (λ (duties, _). All (IsPlanned now) duties) (process env config eval now n)
  unfolding process
  process-IsPlanned now n =
      let (proposed, n1) = proposals env config eval eval.proposer n in
      OnValue-bind Drafted _ (attestations env config eval eval.attestation n1) _
        (attestations-Drafted eval.attestation n1)
        λ (attested, n2) p.
          OnValue-bind Drafted _ (committees env config eval eval.committee n2) _
            (committees-Drafted eval.committee n2)
            λ (synced, n3) q.
              All-map (IsLive now) (IsPlanned now) (fill_in env config eval) _ (filled now) (
                clean_duties-IsLive now _ (
                  All-append IsDrafted (proposed ++ attested) synced
                    (All-append IsDrafted proposed attested (proposals-Drafted eval.proposer n) p)
                    q))
    where
      filled : (now : Time) (d : Duty) → IsLive now d → IsPlanned now (fill_in env config eval d)
      filled now d (w, f) =
          unfold fill_in in
          record {
            drafted = record {
              of_epoch = w.of_epoch;
              timed = w.timed;
              no_key = w.no_key;
              no_result = w.no_result;
            };
            in_future = f;
            forked = refl;
            is_pending = refl;
          }
