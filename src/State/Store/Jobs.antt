-- ===== src/State/Store/Jobs.antt =====
-- A duty that the table took has a job: the index of the types takes no other.
use eth2_validator.Base.{
  ◌≡◌, inl, inr, refl, subst, List, [], ◌∷◌, Option, none, some, Option-cases,
}
use eth2_validator.Base.Try.{IsEntryOf, All}
use eth2_validator.Duty.{Duty}
use eth2_validator.State.Index.{job_from_object}
use eth2_validator.State.Memdb.{Takes}
use eth2_validator.State.Schema.{type_index, duties_schema}
use eth2_validator.State.Store.{Parts, State, duties_list}
use eth2_validator.State.Store.Mirror.{Decodes}
use eth2_validator.State.Store.Restart.{IsParts, IsConsistent}
use eth2_validator.Duty.{HasJob, HaveJobs}

All-entries {ℓ} :
    {A : Type 0} (P : A → Type ℓ) (l : List A) → ((x : A) → IsEntryOf x l → P x) → All P l
All-entries P [] h = tt
All-entries P (x ∷ l) h = (h x (inl refl), All-entries P l (λ y i. h y (inr i)))

module _ (p : Parts) where
  Takes-HasJob : (d : Duty) → Takes d (type_index p.indexers) → HasJob d
  unfolding job_from_object
  Takes-HasJob d t = elim (Option-cases d.job) [
    | inr found ↦ found
    | inl e ↦ (elim t [
      | inl (l, f) ↦ absurd (cc (rw e at f))
      | inr (missing, f) ↦ absurd (cc missing)
    ])
  ]

  Decodes-Takes :
      (d : Duty) (raw : Option p.bolt.Value) (o : Option Duty)
      → Decodes p.duties_db p.bolt p.duties_codec (λ d. d.id) (duties_schema p.indexers) raw o
      → o ≡ some d
      → Takes d (type_index p.indexers)
  Decodes-Takes d none o e h = absurd (cc (e, h))
  Decodes-Takes d (some raw) o (x, decoded, at, taken) h =
      let same : x ≡ d = cc (at, h) in subst (λ y. Takes y (type_index p.indexers)) same taken.1.0

  -- Every duty that DutiesList yields has a job.
  pub duties_list-HaveJobs :
      IsParts p → (s : State p) → IsConsistent p s → HaveJobs (duties_list p s)
  unfolding duties_list
  duties_list-HaveJobs P s c = All-entries HasJob _ λ d i.
      Takes-HasJob d (Decodes-Takes d _ _ (c.duties d.id) ((P.duties_db.all_lem s.duties d).0 i))
