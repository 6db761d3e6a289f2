-- ===== src/Server/Lifecycle/Round.antt =====
-- What a round of the life cycle leaves of the validators.
use eth2_validator.Base.{
  ◌≡◌, ◌≢◌, ◌⊎◌, inl, inr, refl, ap, ◌∙◌, List, [], ◌∷◌, String, Option, string_eq, Returns,
  returns,
}
use eth2_validator.Base.Try.{Try, value, crash, IsEntryOf, All}
use eth2_validator.Duty.{Validator}
use eth2_validator.State.Bolt.{StateError}
use eth2_validator.State.Schema.{validators_schema}
use eth2_validator.State.Store.{Parts, State, upsert_validator}
use eth2_validator.State.Store.Mirror.{upsert_correct}
use eth2_validator.State.Store.Restart.{IsParts, IsConsistent}
use eth2_validator.State.Store.Validators.{get_validators_pending_lem}
use eth2_validator.Server.Lifecycle.{Query, lifecycle_round}
use eth2_validator.Server.Lifecycle.Answers.{answered, IsWaiting, updated_val-value, last-answered}

module _ (get_validator_by_pub_key : Query) where
  module _ (p : Parts) (P : IsParts p) (s : State p) where
    abbrev pub held : String → Option Validator
    held k = p.validators_db.by_id s.validators k

    pub record IsRound (r : State p × Try StateError (Unit {0})) : Type 0 where
      pub consistent : IsConsistent p r.0
      pub duties_kept : ((r.0).duties ≡ s.duties) × ((r.0).duties_bucket ≡ s.duties_bucket)
      pub outcome :
          ((r.1 ≡ value tt)
            × ((k : String)
                → p.validators_db.by_id (r.0).validators k
                  ≡ answered get_validator_by_pub_key (held k)))
          ⊎ ((r.1 ≢ value tt) × ((k : String) → p.validators_db.by_id (r.0).validators k ≡ held k))

    -- For a consistent state, where no query panics, a round of the life cycle ends. If its write
    -- succeeds, each validator that had no metadata and was answered has the metadata of the
    -- answer, and the others are as they were; if it fails, which the round does not look at,
    -- every validator is as it was. The duties are not touched, and the state is consistent.
    pub lifecycle_round_correct :
        ((k : String) → get_validator_by_pub_key k ≢ crash)
        → IsConsistent p s
        → Returns IsRound (lifecycle_round get_validator_by_pub_key p s)
    unfolding lifecycle_round upsert_validator
    lifecycle_round_correct h c =
        let (waiting, e, members) = get_validators_pending_lem p P.validators_db P.indexers s in
        let (vals, f) = updated_val-value get_validator_by_pub_key waiting h in
        let u =
          upsert_correct p.validators_db p.bolt p.validators_codec (λ v. v.pub_key)
            (validators_schema p.indexers) P.validators_db P.bolt P.validators_codec
            (s.validators, s.validators_bucket) vals c.validators in
        rw (e, lifecycle_round, f)
          (returns (record {
            consistent = record { duties = c.duties; validators = u.mirror };
            duties_kept = (refl, refl);
            outcome = elim u.outcome [
              | inl (done, at) ↦ inl (
                done,
                λ k.
                    at k
                    ∙ last-answered get_validator_by_pub_key held k waiting vals
                        (λ v. P.validators_db.id-by_id s.validators k v)
                        (all_waiting waiting (λ v i. (members v).0 i)) f
                        (λ v q w. (members v).1 (q, w)),
              )
              | inr (failed, same) ↦ inr (failed, λ k. ap (λ t. p.validators_db.by_id t.0 k) same)
            ];
          }))
      where
        all_waiting :
            (l : List Validator)
            → ((v : Validator) → IsEntryOf v l → IsWaiting get_validator_by_pub_key held v)
            → All (IsWaiting get_validator_by_pub_key held) l
        all_waiting [] h = tt
        all_waiting (v ∷ l) h = (h v (inl refl), all_waiting l λ w i. h w (inr i))
