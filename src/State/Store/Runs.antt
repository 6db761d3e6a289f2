-- ===== src/State/Store/Runs.antt =====
-- The states that the process goes through: a new file, and then any writes.
use eth2_validator.Base.{◌≡◌, inl, refl, List, [], ◌∷◌, String}
use eth2_validator.Base.Try.{value, IsEntryOf}
use eth2_validator.Duty.{Duty, Validator}
use eth2_validator.State.Schema.{validators_schema}
use eth2_validator.State.Store.{
  Parts, State, new_state, upsert_duties, upsert_validator, duty_by_id, index_object,
}
use eth2_validator.State.Store.Mirror.{upsert_correct}
use eth2_validator.State.Store.Restart.{
  IsParts, IsConsistent, upsert_duties_correct, new_state-restart,
}

-- A call that writes; UpsertDuty is one of UpsertDuties.
pub data Write : Type 0 where
  duties_written : List Duty → Write
  validators_written : List Validator → Write

module _ (p : Parts) where
  unfoldable pub write : State p → Write → State p
  write s (duties_written l) = (upsert_duties p s l).0
  write s (validators_written l) = (upsert_validator p s l).0

  -- The states after some writes, each of which may fail.
  pub data Reaches (s : State p) : State p → Type 0 where
    start : Reaches s s
    then_write : {t : State p} → Reaches s t → (w : Write) → Reaches s (write t w)

  module _ (P : IsParts p) where
    upsert_validator-IsConsistent :
        (s : State p) (l : List Validator)
        → IsConsistent p s
        → IsConsistent p (upsert_validator p s l).0
    unfolding upsert_validator
    upsert_validator-IsConsistent s l c =
        let u =
          upsert_correct p.validators_db p.bolt p.validators_codec (λ v. v.pub_key)
            (validators_schema p.indexers) P.validators_db P.bolt P.validators_codec
            (s.validators, s.validators_bucket) l c.validators in
        record { duties = c.duties; validators = u.mirror }

    pub Reaches-IsConsistent : (s t : State p) → Reaches s t → IsConsistent p s → IsConsistent p t
    unfolding write
    Reaches-IsConsistent s t start c = c
    Reaches-IsConsistent s t (then_write r (duties_written l)) c =
        (upsert_duties_correct p P _ l (Reaches-IsConsistent s _ r c)).consistent
    Reaches-IsConsistent s t (then_write r (validators_written l)) c =
        upsert_validator-IsConsistent _ l (Reaches-IsConsistent s _ r c)

    no_keys : (l : List String) → ((k : String) → ¬ IsEntryOf k l) → l ≡ []
    no_keys [] h = refl
    no_keys (k ∷ l) h = absurd (h k (inl refl))

    keys-empty : p.bolt.keys p.bolt.empty ≡ []
    keys-empty =
        no_keys (p.bolt.keys p.bolt.empty)
          λ k i. (P.bolt.keys_lem p.bolt.empty k).0 i (P.bolt.get-empty k)

    -- The state of a new file.
    abbrev pub empty_state : State p
    empty_state = record {
      duties = p.duties_db.empty;
      duties_bucket = p.bolt.empty;
      validators = p.validators_db.empty;
      validators_bucket = p.bolt.empty;
    }

    pub empty_state-IsConsistent : IsConsistent p empty_state
    empty_state-IsConsistent = record {
      duties = λ k. rw (P.bolt.get-empty k) (P.duties_db.by_id-empty k);
      validators = λ k. rw (P.bolt.get-empty k) (P.validators_db.by_id-empty k);
    }

    new_state-empty : new_state p p.bolt.empty p.bolt.empty ≡ value empty_state
    unfolding new_state index_object
    new_state-empty = rw keys-empty refl

    -- Where the parts do what is documented of them, NewState succeeds on a new file, and
    -- whatever is written after it, with or without errors, a restart on the file succeeds and
    -- finds every duty and every validator that the state had under its key, and no others.
    pub new_state-run :
        (s : State p) × (new_state p p.bolt.empty p.bolt.empty ≡ value s)
        × ((t : State p)
            → Reaches s t
            → (t' : State p) × (new_state p t.duties_bucket t.validators_bucket ≡ value t')
              × ((k : String) → duty_by_id p t' k ≡ duty_by_id p t k)
              × ((k : String)
                  → p.validators_db.by_id t'.validators k ≡ p.validators_db.by_id t.validators k))
    new_state-run = (
      empty_state,
      new_state-empty,
      λ t r.
          let (t', f, duties, validators, c) =
            new_state-restart p P t
              (Reaches-IsConsistent empty_state t r empty_state-IsConsistent) in
          (t', f, duties, validators),
    )
