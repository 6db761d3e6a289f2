-- ===== src/DutyLogic/Handle.antt =====
-- What handling a duty does.
use eth2_validator.Base.{◌≡◌, refl, List, [], ◌∷◌, String, Option, none, some, ap, ◌∙◌}
use eth2_validator.Base.Try.{value, error, crash, ◌>>=◌, OnValue, OnValue-step, NeverFails}
use eth2_validator.Bitlist.{BitList}
use eth2_validator.Duty.{
  Bytes, Job, block_proposal, attestation, attestation_aggregate, sync_committee,
  sync_committee_aggregate, Duty, Result, AttestationResult, uint64_ssz,
}
use eth2_validator.Scheduler.Input.{
  DomainType, domain_randao, domain_beacon_proposer, domain_beacon_attester,
  domain_aggregate_and_proof, domain_sync_committee, domain_contribution_and_proof,
}
use eth2_validator.DutyLogic.{
  AttestationData, Block, contribution_and_proof, attestation_data, aggregate_and_proof,
  beacon_block, Message, signed_contribution, sync_committee_message, signed_attestation,
  signed_aggregate, signed_block, Node, no_result, first, deref, aggregation_bits, block_fork,
  Outcome, Outcome, run_sync_committee_aggregate, run_sync_committee, run_single_attestation,
  run_attestation_aggregate, run_block_proposal, run_job, or_crash, handle,
}

module _ (node : Node) (duty : Duty) where
  -- The signature is that of the duty's validator for the root, under the domain, in its epoch.
  abbrev pub IsSigned : DomainType → Bytes → Bytes → Type 0
  IsSigned domain root signature =
      node.sign domain duty.epoch duty.validator_index root ≡ value signature

  -- The one message that a job publishes and the result that it leaves: what is signed is the root
  -- of what is published.
  abbrev pub IsDone : Job → Result × List Message → Type 0
  IsDone block_proposal r =
      (b : Block) × (reveal root s : Bytes) × IsSigned domain_randao (uint64_ssz duty.epoch) reveal
      × (node.get_block (block_fork duty.fork) duty.slot reveal ≡ value b)
      × (node.hash_tree_root (beacon_block b) ≡ value root)
      × IsSigned domain_beacon_proposer root s
      × (r.1 ≡ signed_block b s ∷ [])
      × (r.0 ≡ record no_result {
        block_proposal = some (record { root = b.state_root; signature = s });
      })
  IsDone (attestation a) r =
      (d : AttestationData) × (bits : BitList) × (root s : Bytes) × (node.request_attestation_data
          duty.slot a.committee_index
        ≡ value d)
      × (aggregation_bits a ≡ value bits)
      × (node.hash_tree_root (attestation_data d) ≡ value root)
      × IsSigned domain_beacon_attester root s
      × (r.1 ≡ signed_attestation d bits s ∷ [])
      × (r.0 ≡ record no_result {
        attestation = some (record { root = root; source = d.source; target = d.target });
      })
  IsDone (attestation_aggregate p) r =
      (attested : Duty) × (result : Result) × (voted : AttestationResult) × (id : String) × (a root
        s : Bytes)
      × (first duty.blocked_by ≡ value id)
      × (node.duty_by_id id ≡ value (some attested))
      × (attested.result ≡ some result)
      × (result.attestation ≡ some voted)
      × (node.aggregate_attestation duty.slot (node.to_bytes32 voted.root) ≡ value a)
      × (node.hash_tree_root (aggregate_and_proof duty.validator_index a (node.to_bytes96 p))
          ≡ value root)
      × IsSigned domain_aggregate_and_proof root s
      × (r.1
          ≡ signed_aggregate (aggregate_and_proof duty.validator_index a (node.to_bytes96 p)) s
            ∷ [])
      × (r.0 ≡ record no_result { attestation_aggregate = some tt })
  IsDone sync_committee r =
      (root s : Bytes) × (node.get_head_block_root ≡ value root)
      × IsSigned domain_sync_committee root s
      × (r.1 ≡ sync_committee_message duty.slot root duty.validator_index s ∷ [])
      × (r.0 ≡ record no_result { sync_committee = some tt })
  IsDone (sync_committee_aggregate a) r =
      (head c root s : Bytes) × (node.get_head_block_root ≡ value head)
      × (node.sync_committee_contribution duty.slot a.sub_committee_index head ≡ value c)
      × (node.hash_tree_root
            (contribution_and_proof duty.validator_index c (node.to_bytes96 a.selection_proof))
          ≡ value root)
      × IsSigned domain_contribution_and_proof root s
      × (r.1
          ≡ signed_contribution
              (contribution_and_proof duty.validator_index c (node.to_bytes96 a.selection_proof)) s
            ∷ [])
      × (r.0 ≡ record no_result { sync_committee_aggregate = some tt })

  deref-some {ℓ} : {A : Type ℓ} (x : Option A) (a : A) → deref x ≡ value a → x ≡ some a
  unfolding deref
  deref-some none a e = cc
  deref-some (some b) a e = cc

  run_job-IsDone : (j : Job) → OnValue (IsDone j) (run_job node duty j)
  unfolding run_job run_block_proposal run_single_attestation run_attestation_aggregate
      run_sync_committee run_sync_committee_aggregate
  run_job-IsDone block_proposal =
      OnValue-step (IsDone block_proposal)
        (node.sign domain_randao duty.epoch duty.validator_index (uint64_ssz duty.epoch)) _
        λ reveal d.
          OnValue-step (IsDone block_proposal)
            (node.get_block (block_fork duty.fork) duty.slot reveal) _
            λ b g.
              OnValue-step (IsDone block_proposal) (node.hash_tree_root (beacon_block b)) _
                λ root e.
                  OnValue-step (IsDone block_proposal)
                    (node.sign domain_beacon_proposer duty.epoch duty.validator_index root) _
                    λ s f.
                      OnValue-step (IsDone block_proposal) (node.publish (signed_block b s)) _
                        λ _ _. (b, reveal, root, s, d, g, e, f, refl, refl)
  run_job-IsDone (attestation a) =
      OnValue-step (IsDone (attestation a))
        (node.request_attestation_data duty.slot a.committee_index) _
        λ d c.
          OnValue-step (IsDone (attestation a)) (node.hash_tree_root (attestation_data d)) _
            λ root e.
              OnValue-step (IsDone (attestation a))
                (node.sign domain_beacon_attester duty.epoch duty.validator_index root) _
                λ s f. OnValue-step (IsDone (attestation a)) (aggregation_bits a) _ λ bits g.
                  OnValue-step (IsDone (attestation a)) (node.publish (signed_attestation d bits s))
                    _ λ _ _. (d, bits, root, s, c, g, e, f, refl, refl)
  run_job-IsDone (attestation_aggregate p) =
      OnValue-step (IsDone (attestation_aggregate p)) (first duty.blocked_by) _ λ id e_id.
        OnValue-step (IsDone (attestation_aggregate p)) (node.duty_by_id id) _ λ found e_found.
          OnValue-step (IsDone (attestation_aggregate p)) (deref found) _ λ attested e_attested.
            OnValue-step (IsDone (attestation_aggregate p)) (deref attested.result) _
              λ result e_result.
                OnValue-step (IsDone (attestation_aggregate p)) (deref result.attestation) _
                  λ voted e_voted.
                    OnValue-step (IsDone (attestation_aggregate p))
                      (node.aggregate_attestation duty.slot (node.to_bytes32 voted.root)) _
                      λ a e_a.
                        OnValue-step (IsDone (attestation_aggregate p))
                          (node.hash_tree_root
                            (aggregate_and_proof duty.validator_index a (node.to_bytes96 p)))
                          _
                          λ root e.
                            OnValue-step (IsDone (attestation_aggregate p))
                              (node.sign domain_aggregate_and_proof duty.epoch duty.validator_index
                                root)
                              _
                              λ s f.
                                OnValue-step (IsDone (attestation_aggregate p))
                                  (node.publish (
                                    signed_aggregate
                                      (aggregate_and_proof duty.validator_index a
                                        (node.to_bytes96 p))
                                      s))
                                  _
                                  λ _ _. (
                                    attested,
                                    result,
                                    voted,
                                    id,
                                    a,
                                    root,
                                    s,
                                    e_id,
                                    e_found ∙ ap value (deref-some found attested e_attested),
                                    deref-some attested.result result e_result,
                                    deref-some result.attestation voted e_voted,
                                    e_a,
                                    e,
                                    f,
                                    refl,
                                    refl,
                                  )
  run_job-IsDone sync_committee =
      OnValue-step (IsDone sync_committee) node.get_head_block_root _ λ root e.
        OnValue-step (IsDone sync_committee)
          (node.sign domain_sync_committee duty.epoch duty.validator_index root) _
          λ s f.
            OnValue-step (IsDone sync_committee)
              (node.publish (sync_committee_message duty.slot root duty.validator_index s)) _
              λ _ _. (root, s, e, f, refl, refl)
  run_job-IsDone (sync_committee_aggregate a) =
      OnValue-step (IsDone (sync_committee_aggregate a)) node.get_head_block_root _ λ head h.
        OnValue-step (IsDone (sync_committee_aggregate a))
          (node.sync_committee_contribution duty.slot a.sub_committee_index head) _
          λ c g.
            OnValue-step (IsDone (sync_committee_aggregate a))
              (node.hash_tree_root
                (contribution_and_proof duty.validator_index c (node.to_bytes96 a.selection_proof)))
              _
              λ root e.
                OnValue-step (IsDone (sync_committee_aggregate a))
                  (node.sign domain_contribution_and_proof duty.epoch duty.validator_index root) _
                  λ s f.
                    OnValue-step (IsDone (sync_committee_aggregate a))
                      (node.publish (
                        signed_contribution
                          (contribution_and_proof duty.validator_index c
                            (node.to_bytes96 a.selection_proof))
                          s))
                      _ λ _ _. (head, c, root, s, h, g, e, f, refl, refl)

  or_crash-IsDone :
      (j : Job) (m : Outcome)
      → OnValue (IsDone j) m
      → NeverFails
          (λ (r, msgs). (res : Result) × (r ≡ some res) × IsDone j (res, msgs))
          (or_crash m >>= λ (r, msgs). value (some r, msgs))
  unfolding or_crash
  or_crash-IsDone j (value r) d = (r.0, refl, d)
  or_crash-IsDone j (error x) d = tt
  or_crash-IsDone j crash d = tt

  -- What is left when the duty is handled: with no job, no result and no message; with a job, its
  -- result and its message.
  abbrev pub IsHandled : Option Job → Option Result × List Message → Type 0
  IsHandled none r = (r.0 ≡ none) × (r.1 ≡ [])
  IsHandled (some j) r = (res : Result) × (r.0 ≡ some res) × IsDone j (res, r.1)

  -- Handling a duty never returns an error. When it returns, a duty without a job has left no
  -- result and published nothing. A duty with a job has published one message and left the result of
  -- its kind alone: what is signed is the root of what is published, under the domain of its kind,
  -- for the duty's validator, in the duty's epoch; an aggregate is of the root that the duty it was
  -- blocked by has voted for.
  pub handle-IsHandled : NeverFails (IsHandled duty.job) (handle node duty)
  unfolding handle
  handle-IsHandled =
      elim duty.job
        as (λ x. NeverFails (IsHandled x) (elim x [
          | none ↦ value (none, [])
          | some j ↦ or_crash (run_job node duty j) >>= λ (r, msgs). value (some r, msgs)
        ])) [
          | none ↦ (refl, refl)
          | some j ↦ or_crash-IsDone j (run_job node duty j) (run_job-IsDone j)
        ]
