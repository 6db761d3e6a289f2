-- ===== src/State/Store/Restart.antt =====
-- The whole state: what an upsert leaves, and what a restart finds.
use eth2_validator.Base.{◌≡◌, ◌≢◌, ◌⊎◌, inl, inr, refl, ap, List, String, Option}
use eth2_validator.Base.Try.{Try, value}
use eth2_validator.Duty.{Duty, Validator}
use eth2_validator.State.Memdb.{IsMemdb, IsIndexers}
use eth2_validator.State.Schema.{duties_schema, validators_schema}
use eth2_validator.State.Bolt.{StateError, IsBolt, IsCodec}
use eth2_validator.State.Store.{Parts, State, new_state, upsert_duties, duty_by_id}
use eth2_validator.State.Store.Mirror.{IsMirror, latest, upsert_correct, index_object-upsert}

-- What is documented of the parts.
pub record IsParts (p : Parts) : Type 0 where
  pub bolt : IsBolt p.bolt
  pub duties_db : IsMemdb p.duties_db (λ d. d.id) (duties_schema p.indexers)
  pub validators_db : IsMemdb p.validators_db (λ v. v.pub_key) (validators_schema p.indexers)
  pub duties_codec : IsCodec p.duties_codec
  pub validators_codec : IsCodec p.validators_codec
  pub indexers : IsIndexers p.indexers

module _ (p : Parts) where
  -- The latest duty of the list with the id, or else the old one.
  abbrev pub latest_duty : String → List Duty → Option Duty → Option Duty
  latest_duty = latest p.duties_db p.bolt p.duties_codec (λ d. d.id) (duties_schema p.indexers)

  abbrev pub latest_validator : String → List Validator → Option Validator → Option Validator
  latest_validator =
      latest p.validators_db p.bolt p.validators_codec (λ v. v.pub_key)
        (validators_schema p.indexers)

  -- Under every key the tables have what the buckets decode to.
  pub record IsConsistent (s : State p) : Type 0 where
    pub duties :
        IsMirror p.duties_db p.bolt p.duties_codec
          (λ d. d.id)
          (duties_schema p.indexers)
          (s.duties, s.duties_bucket)
    pub validators :
        IsMirror p.validators_db p.bolt p.validators_codec
          (λ v. v.pub_key)
          (validators_schema p.indexers)
          (s.validators, s.validators_bucket)

  pub record IsDutiesUpsert (s : State p) (l : List Duty) (r : State p × Try StateError (Unit {0}))
      : Type 0 where
    pub consistent : IsConsistent r.0
    pub validators_kept : (r.0).validators ≡ s.validators
    pub outcome :
        ((r.1 ≡ value tt)
          × ((k : String) → duty_by_id p r.0 k ≡ latest_duty k l (duty_by_id p s k)))
        ⊎ ((r.1 ≢ value tt) × ((k : String) → duty_by_id p r.0 k ≡ duty_by_id p s k))

  module _ (P : IsParts p) where
    -- Where the parts do what is documented of them and the tables agree with the buckets,
    -- UpsertDuties either succeeds, and DutyByID finds the latest duty of the list under its id
    -- and what it found before under the other ids; or it fails, and DutyByID finds what it found
    -- before. The tables and the buckets agree after it, and the validators are as they were.
    pub upsert_duties_correct :
        (s : State p) (l : List Duty) → IsConsistent s → IsDutiesUpsert s l (upsert_duties p s l)
    unfolding upsert_duties duty_by_id
    upsert_duties_correct s l c =
        let u =
          upsert_correct p.duties_db p.bolt p.duties_codec (λ d. d.id) (duties_schema p.indexers)
            P.duties_db P.bolt P.duties_codec (s.duties, s.duties_bucket) l c.duties in
        record {
          consistent = record { duties = u.mirror; validators = c.validators };
          validators_kept = refl;
          outcome = elim u.outcome [
            | inl done ↦ inl done
            | inr (failed, same) ↦ inr (failed, λ k. ap (λ t. p.duties_db.by_id t.0 k) same)
          ];
        }

    -- A state that NewState reads from the file of a consistent state finds every duty and validator
    -- under its key, and is consistent.
    pub new_state-restart :
        (s : State p)
        → IsConsistent s
        → (s' : State p) × (new_state p s.duties_bucket s.validators_bucket ≡ value s')
          × ((k : String) → duty_by_id p s' k ≡ duty_by_id p s k)
          × ((k : String)
              → p.validators_db.by_id s'.validators k ≡ p.validators_db.by_id s.validators k)
          × IsConsistent s'
    unfolding new_state duty_by_id
    new_state-restart s c =
        let (t, e, same) =
          index_object-upsert p.duties_db p.bolt p.duties_codec (λ d. d.id)
            (duties_schema p.indexers) P.duties_db P.bolt P.duties_codec s.duties s.duties_bucket
            c.duties in
        let (u, f, alike) =
          index_object-upsert p.validators_db p.bolt p.validators_codec (λ v. v.pub_key)
            (validators_schema p.indexers) P.validators_db P.bolt P.validators_codec s.validators
            s.validators_bucket c.validators in
        (
          record {
            duties = t;
            duties_bucket = s.duties_bucket;
            validators = u;
            validators_bucket = s.validators_bucket;
          },
          rw (e, f) refl,
          same,
          alike,
          record {
            duties = λ k. rw (same k) (c.duties k);
            validators = λ k. rw (alike k) (c.validators k);
          },
        )
