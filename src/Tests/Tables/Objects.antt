-- ===== src/Tests/Tables/Objects.antt =====
-- A table kept in a list, which does what is asked of go-memdb: an object stands before the older ones, and
-- those under its id are passed over.
use eth2_validator.Base.{
  ◌≡◌, ◌↔◌, ◌⊎◌, inl, inr, refl, sym, ap, ◌∙◌, Bool, true, false, not, ◌&&◌, List, [], ◌∷◌, String,
  Option, none, some, arith, ◌==◌, string_eq, if◌then◌else◌, Bool-cases, key_cases, beq_self, subst,
}
use eth2_validator.Base.Try.{Try, value, error, crash, All, IsEntryOf}
use eth2_validator.Duty.{Bytes}
use eth2_validator.State.Index.{IndexError, bad_typ}
use eth2_validator.State.Memdb.{Index, keys_of, Takes}
use eth2_validator.Tests.Tables.Keys.{any_key, any_key_iff}

module _ {T : Type 0} where
  unfoldable pub filter : (T → Bool) → List T → List T
  filter test [] = []
  filter test (x ∷ l) = let rest = filter test l in if test x then x ∷ rest else rest

  pub filter_iff :
      (test : T → Bool) (l : List T) (x : T)
      → IsEntryOf x (filter test l) ↔ (IsEntryOf x l × (test x ≡ true))
  unfolding filter
  filter_iff test [] x = (λ i. absurd i, λ (i, e). absurd i)
  filter_iff test (y ∷ l) x = elim (Bool-cases (test y)) [
    | inl t ↦ rw t (
      (λ i. elim i [
        | inl e ↦ (inl e, subst (λ z. test z ≡ true) (sym e) t)
        | inr j ↦ let (k, u) = (filter_iff test l x).0 j in (inr k, u)
      ]),
      λ (i, u). elim i [ inl e ↦ inl e | inr j ↦ inr ((filter_iff test l x).1 (j, u)) ],
    )
    | inr f ↦ rw f (
      (λ j. let (k, u) = (filter_iff test l x).0 j in (inr k, u)),
      λ (i, u). elim i [
        | inl e ↦ absurd (ground (arith, subst (λ z. test z ≡ true) e u, f))
        | inr j ↦ (filter_iff test l x).1 (j, u)
      ],
    )
  ]

  unfoldable pub head : List T → Option T
  head [] = none
  head (x ∷ l) = some x

  pub some_inj : {x y : T} → ◌≡◌ {A = Option T} (some x) (some y) → x ≡ y
  some_inj e = cc e

  module _ (id : T → String) where
    unfoldable pub find : List T → String → Option T
    find [] k = none
    find (x ∷ t) k = let rest = find t k in if id x == k then some x else rest

    -- The objects that are not passed over.
    unfoldable pub latest_of : List T → List T
    latest_of [] = []
    latest_of (x ∷ t) = x ∷ filter (λ y. not (id x == id y)) (latest_of t)

    pub id-find : (t : List T) (k : String) (x : T) → find t k ≡ some x → id x ≡ k
    unfolding find
    id-find [] k x e = cc
    id-find (y ∷ t) k x e = elim (key_cases (id y) k) [
      | inl same ↦
          let e' : some y ≡ some x = sym (rw (same, beq_self k) refl) ∙ e in
          ap id (sym (some_inj e')) ∙ same
      | inr (_, other) ↦ let e' : find t k ≡ some x = sym (rw other refl) ∙ e in id-find t k x e'
    ]

    pub latest_of_lem : (t : List T) (x : T) → IsEntryOf x (latest_of t) ↔ (find t (id x) ≡ some x)
    unfolding latest_of find
    latest_of_lem [] x = (λ i. absurd i, λ e. cc)
    latest_of_lem (y ∷ t) x = elim (key_cases (id y) (id x)) [
      | inl same ↦ (
        (λ i. elim i [
          | inl e ↦ rw (same, beq_self (id x)) (ap some (sym e))
          | inr j ↦
              let u = ((filter_iff (λ z. not (id y == id z)) (latest_of t) x).0 j).1 in
              absurd (refused same u)
        ]),
        λ e.
            let e' : some y ≡ some x = sym (rw (same, beq_self (id x)) refl) ∙ e in
            inl (sym (some_inj e')),
      )
      | inr (apart, other) ↦ (
        (λ i. elim i [
          | inl e ↦ absurd (apart (ap id (sym e)))
          | inr j ↦
              rw other (
                (latest_of_lem t x).0
                  ((filter_iff (λ z. not (id y == id z)) (latest_of t) x).0 j).0)
        ]),
        λ e.
            let e' : find t (id x) ≡ some x = sym (rw other refl) ∙ e in
            inr (
              (filter_iff (λ z. not (id y == id z)) (latest_of t) x).1
                ((latest_of_lem t x).1 e', ap not other)),
      )
    ]
      where
        refused : id y ≡ id x → not (id y == id x) ≡ true → ⊥
        refused same u = ground (arith, same, u, beq_self (id x))

    -- What is kept under an index: the objects that have a key which passes the test.
    unfoldable pub selected : List T → Index T → (Bytes → Bool) → List T
    selected t ix test = filter (λ x. any_key test (keys_of ix x)) (latest_of t)

    pub selected_lem :
        (t : List T) (ix : Index T) (test : Bytes → Bool) (x : T)
        → IsEntryOf x (selected t ix test) ↔ (
            (find t (id x) ≡ some x) × ((k : Bytes) × IsEntryOf k (keys_of ix x) × (test k ≡ true)))
    unfolding selected
    selected_lem t ix test x = (
      (λ i.
          let (j, u) = (filter_iff (λ y. any_key test (keys_of ix y)) (latest_of t) x).0 i in
          ((latest_of_lem t x).0 j, (any_key_iff test (keys_of ix x)).0 u)),
      λ (e, u).
          (filter_iff (λ y. any_key test (keys_of ix y)) (latest_of t) x).1
            ((latest_of_lem t x).1 e, (any_key_iff test (keys_of ix x)).1 u),
    )

    unfoldable pub is_taken : Bool → Try IndexError (Option (List Bytes)) → Bool
    is_taken optional (value (some l)) = true
    is_taken optional (value none) = optional
    is_taken optional (error e) = false
    is_taken optional crash = false

    pub is_taken_iff :
        (b : Bool) (r : Try IndexError (Option (List Bytes)))
        → (is_taken b r ≡ true)
          ↔ (((l : List Bytes) × (r ≡ value (some l))) ⊎ ((b ≡ true) × (r ≡ value none)))
    unfolding is_taken
    is_taken_iff b (value (some l)) = (λ e. inl (l, refl), λ i. refl)
    is_taken_iff b (value none) =
        (λ e. inr (e, refl), λ i. elim i [ inl (l, q) ↦ cc | inr (e, q) ↦ e ])
    is_taken_iff b (error q) = (λ e. cc, λ i. elim i [ inl (l, q) ↦ cc | inr (e, q) ↦ cc ])
    is_taken_iff b crash = (λ e. cc, λ i. elim i [ inl (l, q) ↦ cc | inr (e, q) ↦ cc ])

    unfoldable pub all_takes : T → List (Index T) → Bool
    all_takes x [] = true
    all_takes x (ix ∷ l) = is_taken ix.allow_missing (ix.from_object x) && all_takes x l

    pub all_takes_iff : (x : T) (l : List (Index T)) → (all_takes x l ≡ true) ↔ All (Takes x) l
    unfolding all_takes
    all_takes_iff x [] = (λ e. tt, λ i. refl)
    all_takes_iff x (ix ∷ l) =
        let this = is_taken_iff ix.allow_missing (ix.from_object x) in
        let rest = all_takes_iff x l in
        (
          (λ e. (this.0 (ground (arith, e)), rest.0 (ground (arith, e)))),
          λ (i, j). rw (this.1 i, rest.1 j) refl,
        )

    unfoldable pub insert_in : List (Index T) → List T → T → Try IndexError (List T)
    insert_in schema t x = if all_takes x schema then value (x ∷ t) else error bad_typ

    pub insert_in_only :
        (schema : List (Index T)) (t t' : List T) (x : T)
        → insert_in schema t x ≡ value t'
        → All (Takes x) schema × (t' ≡ x ∷ t)
    unfolding insert_in
    insert_in_only schema t t' x e = elim (Bool-cases (all_takes x schema)) [
      | inl y ↦
          let done : insert_in schema t x ≡ value (x ∷ t) = rw y refl in
          ((all_takes_iff x schema).0 y, cc (e, done))
      | inr n ↦
          let failed : insert_in schema t x ≡ error bad_typ = rw n refl in absurd (cc (e, failed))
    ]

    pub insert_in_total :
        (schema : List (Index T)) (t : List T) (x : T)
        → All (Takes x) schema
        → insert_in schema t x ≡ value (x ∷ t)
    unfolding insert_in
    insert_in_total schema t x a = rw ((all_takes_iff x schema).1 a) refl
