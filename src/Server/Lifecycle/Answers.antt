-- ===== src/Server/Lifecycle/Answers.antt =====
-- The writes of a round of the life cycle, and the validators that they leave.
use eth2_validator.Base.{
  ◌≡◌, ◌≢◌, ◌⊎◌, inl, inr, refl, sym, ap, ◌∙◌, Bool, true, false, List, [], ◌∷◌, String, Option,
  none, some, ◌==◌, string_eq, if◌then◌else◌, key_cases, beq_self, Option-cases,
}
use eth2_validator.Base.Try.{Try, value, error, crash, IsEntryOf, All, bind-value}
use eth2_validator.Duty.{Validator, Metadata}
use eth2_validator.Scheduler.Input.{Error}
use eth2_validator.Server.Lifecycle.{Query, ask, kept, updated_val}

module _ (get_validator_by_pub_key : Query) where
  -- The validator after a round, of one without metadata.
  abbrev pub answer : Validator → Try Error Metadata → Validator
  answer v (value m) = record v { metadata = some m }
  answer v (error e) = v
  answer v crash = v

  abbrev pub answered_by : Validator → Option Metadata → Validator
  answered_by v none = answer v (ask get_validator_by_pub_key v)
  answered_by v (some m) = v

  -- What a round leaves of what was held under a key.
  abbrev pub answered : Option Validator → Option Validator
  answered none = none
  answered (some v) = some (answered_by v v.metadata)

  pub updated_val-value :
      (l : List Validator)
      → ((k : String) → get_validator_by_pub_key k ≢ crash)
      → (vals : List Validator) × (updated_val get_validator_by_pub_key l ≡ value vals)
  unfolding updated_val
  updated_val-value [] h = ([], refl)
  updated_val-value (v ∷ l) h =
      let (vals, e) = updated_val-value l h in
      let (vals', f) = of (ask get_validator_by_pub_key v) vals (h _) in (vals', rw e f)
    where
      of :
          (r : Try Error Metadata) (vals : List Validator)
          → r ≢ crash
          → (vals' : List Validator) × (kept get_validator_by_pub_key v r (value vals)
              ≡ value vals')
      of (value m) vals h = (_, refl)
      of (error e) vals h = (_, refl)
      of crash vals h = absurd (h refl)

  -- What a round leaves is what was held, or that with the answer.
  pub answered-some :
      (w v : Validator)
      → answered (some w) ≡ some v
      → (w ≡ v)
        ⊎ ((m : Metadata) × (ask get_validator_by_pub_key w ≡ value m)
            × (record w { metadata = some m } ≡ v))
  answered-some w v e = of w.metadata e
    where
      by :
          (r : Try Error Metadata)
          → ask get_validator_by_pub_key w ≡ r
          → ◌≡◌ {A = Option Validator} (some (answer w r)) (some v)
          → (w ≡ v)
            ⊎ ((m : Metadata) × (ask get_validator_by_pub_key w ≡ value m)
                × (record w { metadata = some m } ≡ v))
      by (value m) q f = inr (m, q, cc f)
      by (error x) q f = inl (cc f)
      by crash q f = inl (cc f)

      of :
          (o : Option Metadata)
          → ◌≡◌ {A = Option Validator} (some (answered_by w o)) (some v)
          → (w ≡ v)
            ⊎ ((m : Metadata) × (ask get_validator_by_pub_key w ≡ value m)
                × (record w { metadata = some m } ≡ v))
      of none f = by (ask get_validator_by_pub_key w) refl f
      of (some m) f = inl (cc f)

  -- The list of the writes is that of the answered ones.
  module _ (held : String → Option Validator) where
    -- The validators are held, and have no metadata.
    abbrev pub IsWaiting : Validator → Type 0
    IsWaiting v = (held v.pub_key ≡ some v) × (v.metadata ≡ none)

    -- The last write under a key.
    abbrev pub last : String → List Validator → Option Validator → Option Validator
    last k [] old = old
    last k (x ∷ l) old = last k l (if x.pub_key == k then some x else old)

    chosen : (b : Bool) (x y : Option Validator) → b ≡ true → (if b then x else y) ≡ x
    chosen b x y e = rw e refl

    passed : (b : Bool) (x y : Option Validator) → b ≡ false → (if b then x else y) ≡ y
    passed b x y e = rw e refl

    abbrev Follows : Validator → String → List Validator → List Validator → Type 0
    Follows v k vals rest =
        (old : Option Validator)
        → (old ≡ held k) ⊎ (old ≡ answered (held k))
        → ((last k vals old ≡ last k rest old) × (v.pub_key ≢ k))
          ⊎ ((last k vals old ≡ last k rest (answered (held k))) × (v.pub_key ≡ k))

    answered-held :
        (v : Validator) (k : String)
        → IsWaiting v
        → v.pub_key ≡ k
        → answered (held k) ≡ some (answer v (ask get_validator_by_pub_key v))
    answered-held v k (h, w) e =
        ap (λ j. answered (held j)) (sym e) ∙ ap answered h ∙ ap (λ o. some (answered_by v o)) w

    kept-step :
        (v : Validator) (k : String) (l vals : List Validator)
        → IsWaiting v
        → updated_val get_validator_by_pub_key (v ∷ l) ≡ value vals
        → (rest : List Validator) × (updated_val get_validator_by_pub_key l ≡ value rest)
          × Follows v k vals rest
    unfolding updated_val
    kept-step v k l vals wait e = of (ask get_validator_by_pub_key v) refl e
      where
        of :
            (r : Try Error Metadata)
            → ask get_validator_by_pub_key v ≡ r
            → kept get_validator_by_pub_key v r (updated_val get_validator_by_pub_key l)
              ≡ value vals
            → (rest : List Validator) × (updated_val get_validator_by_pub_key l ≡ value rest)
              × Follows v k vals rest
        of (value m) q f =
            let (rest, g, u) = bind-value (updated_val get_validator_by_pub_key l) _ vals f in
            let u' : record v { metadata = some m } ∷ rest ≡ vals = cc u in
            (
              rest,
              g,
              λ old o. rw (sym u') (elim (key_cases v.pub_key k) [
                | inl same ↦
                    let test : (v.pub_key == k) ≡ true = rw same (beq_self k) in
                    inr (
                      ap (last k rest) (
                          chosen _ _ _ test
                          ∙ ap (λ r. some (answer v r)) (sym q)
                          ∙ sym (answered-held v k wait same)),
                      same,
                    )
                | inr (apart, other) ↦ inl (ap (last k rest) (passed _ _ _ other), apart)
              ]),
            )
        of (error x) q f = (
          vals,
          f,
          λ old o. elim (key_cases v.pub_key k) [
            | inl same ↦ inr (ap (last k vals) (unanswered old o same), same)
            | inr (apart, other) ↦ inl (refl, apart)
          ],
        )
          where
            unanswered :
                (old : Option Validator)
                → (old ≡ held k) ⊎ (old ≡ answered (held k))
                → v.pub_key ≡ k
                → old ≡ answered (held k)
            unanswered old (inr o) same = o
            unanswered old (inl o) same =
                o
                ∙ ap held (sym same)
                ∙ (wait.0)
                ∙ sym (answered-held v k wait same ∙ ap (λ r. some (answer v r)) q)
        of crash q f = cc

    stays :
        (k : String) (l vals : List Validator)
        → All IsWaiting l
        → updated_val get_validator_by_pub_key l ≡ value vals
        → last k vals (answered (held k)) ≡ answered (held k)
    unfolding updated_val
    stays k [] vals waiting e = let none_left : [] ≡ vals = cc e in rw (sym none_left) refl
    stays k (v ∷ l) vals (wait, waiting) e =
        let (rest, f, follows) = kept-step v k l vals wait e in
        elim (follows (answered (held k)) (inr refl)) [
          | inl (g, _) ↦ g ∙ stays k l rest waiting f
          | inr (g, _) ↦ g ∙ stays k l rest waiting f
        ]

    reached :
        (k : String) (v : Validator) (l vals : List Validator)
        → All IsWaiting l
        → updated_val get_validator_by_pub_key l ≡ value vals
        → IsEntryOf v l
        → v.pub_key ≡ k
        → last k vals (held k) ≡ answered (held k)
    reached k v [] vals waiting e i same = absurd i
    reached k v (w ∷ l) vals (wait, waiting) e i same =
        let (rest, f, follows) = kept-step w k l vals wait e in
        elim (follows (held k) (inl refl)) [
          | inl (g, apart) ↦ g ∙ reached k v l rest waiting f (later i apart) same
          | inr (g, _) ↦ g ∙ stays k l rest waiting f
        ]
      where
        later : IsEntryOf v (w ∷ l) → w.pub_key ≢ k → IsEntryOf v l
        later (inl q) apart = absurd (apart (ap (λ x. x.pub_key) (sym q) ∙ same))
        later (inr i') apart = i'

    -- The writes leave the answered validator.
    pub last-answered :
        (k : String) (l vals : List Validator)
        → ((v : Validator) → held k ≡ some v → v.pub_key ≡ k)
        → All IsWaiting l
        → updated_val get_validator_by_pub_key l ≡ value vals
        → ((v : Validator) → held v.pub_key ≡ some v → v.metadata ≡ none → IsEntryOf v l)
        → last k vals (held k) ≡ answered (held k)
    last-answered k l vals named waiting e complete = elim (Option-cases (held k)) [
      | inl free ↦ unchanged (ap answered free ∙ sym free)
      | inr (v, h) ↦ elim (Option-cases v.metadata) [
        | inl w ↦
            let same = named v h in
            reached k v l vals waiting e (complete v (ap held same ∙ h) w) same
        | inr (m, w) ↦ unchanged (ap answered h ∙ ap (λ o. some (answered_by v o)) w ∙ sym h)
      ]
    ]
      where
        unchanged : answered (held k) ≡ held k → last k vals (held k) ≡ answered (held k)
        unchanged q = ap (last k vals) (sym q) ∙ stays k l vals waiting e
