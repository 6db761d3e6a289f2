-- ===== src/Tests/Tables/Least.antt =====
-- The first row of an index from a bound on.
use eth2_validator.Base.{
  ◌≡◌, ◌↔◌, ◌⊎◌, inl, inr, refl, sym, ap, true, false, List, [], ◌∷◌, Option, none, some, string_eq,
  if◌then◌else◌, Bool-cases, subst,
}
use eth2_validator.Base.Try.{IsEntryOf}
use eth2_validator.Duty.{Bytes}
use eth2_validator.State.Keys.{lt_bytes}
use eth2_validator.State.Memdb.{Index, keys_of}
use eth2_validator.Tests.Tables.Keys.{lt_bytes_trans, lt_bytes_irrefl}

module _ {T : Type 0} where
  unfoldable pub row : List Bytes → T → List (Bytes × T) → List (Bytes × T)
  row [] x rest = rest
  row (k ∷ l) x rest = (k, x) ∷ row l x rest

  pub row_iff :
      (l : List Bytes) (x : T) (rest : List (Bytes × T)) (k : Bytes) (y : T)
      → IsEntryOf (k, y) (row l x rest) ↔ ((IsEntryOf k l × (y ≡ x)) ⊎ IsEntryOf (k, y) rest)
  unfolding row
  row_iff [] x rest k y = (λ i. inr i, λ i. elim i [ inl (j, e) ↦ absurd j | inr j ↦ j ])
  row_iff (j ∷ l) x rest k y = (
    (λ i. elim i [
      | inl e ↦ inl (inl (ap (λ p. p.0) e), ap (λ p. p.1) e)
      | inr i' ↦ elim ((row_iff l x rest k y).0 i') [ inl (h, e) ↦ inl (inr h, e) | inr h ↦ inr h ]
    ]),
    λ i. elim i [
      | inl (inl h, e) ↦ inl (rw (h, e) refl)
      | inl (inr h, e) ↦ inr ((row_iff l x rest k y).1 (inl (h, e)))
      | inr h ↦ inr ((row_iff l x rest k y).1 (inr h))
    ],
  )

  -- The keys of an index, each with its object.
  unfoldable pub rows : Index T → List T → List (Bytes × T)
  rows ix [] = []
  rows ix (x ∷ l) = row (keys_of ix x) x (rows ix l)

  pub rows_iff :
      (ix : Index T) (l : List T) (k : Bytes) (y : T)
      → IsEntryOf (k, y) (rows ix l) ↔ (IsEntryOf y l × IsEntryOf k (keys_of ix y))
  unfolding rows
  rows_iff ix [] k y = (λ i. absurd i, λ (i, j). absurd i)
  rows_iff ix (x ∷ l) k y = (
    (λ i. elim ((row_iff (keys_of ix x) x (rows ix l) k y).0 i) [
      | inl (h, e) ↦ (inl e, subst (λ z. IsEntryOf k (keys_of ix z)) (sym e) h)
      | inr h ↦ let (a, b) = (rows_iff ix l k y).0 h in (inr a, b)
    ]),
    λ (a, b). (row_iff (keys_of ix x) x (rows ix l) k y).1 (elim a [
      | inl e ↦ inl (subst (λ z. IsEntryOf k (keys_of ix z)) e b, e)
      | inr h ↦ inr ((rows_iff ix l k y).1 (h, b))
    ]),
  )

  unfoldable pub pick : Bytes → T → Option (Bytes × T) → Option (Bytes × T)
  pick k x none = some (k, x)
  pick k x (some (j, y)) = if lt_bytes k j then some (k, x) else some (j, y)

  -- The least key that is not below the bound.
  unfoldable pub least : Bytes → List (Bytes × T) → Option (Bytes × T)
  least bound [] = none
  least bound ((k, x) ∷ l) =
      let rest = least bound l in if lt_bytes k bound then rest else pick k x rest

  unfoldable pub IsLeast : Bytes → List (Bytes × T) → Option (Bytes × T) → Type 0
  IsLeast bound l none = (k : Bytes) (x : T) → IsEntryOf (k, x) l → lt_bytes k bound ≡ true
  IsLeast bound l (some (k, x)) =
      IsEntryOf (k, x) l
      × (lt_bytes k bound ≡ false)
      × ((j : Bytes) (y : T) → IsEntryOf (j, y) l → lt_bytes j bound ≡ false → lt_bytes j k ≡ false)

  pub pick_lem :
      (bound : Bytes) (k : Bytes) (x : T) (l : List (Bytes × T)) (o : Option (Bytes × T))
      → lt_bytes k bound ≡ false
      → IsLeast bound l o
      → IsLeast bound ((k, x) ∷ l) (pick k x o)
  unfolding pick IsLeast
  pick_lem bound k x l none h below = (
    inl refl,
    h,
    λ j y i e. elim i [
      | inl q ↦ subst (λ p. lt_bytes p k ≡ false) (sym (ap (λ p. p.0) q)) (lt_bytes_irrefl k)
      | inr i' ↦ cc (e, below j y i')
    ],
  )
  pick_lem bound k x l (some (j, y)) h (i, g, first) = elim (Bool-cases (lt_bytes k j)) [
    | inl e ↦ rw e (
      inl refl,
      h,
      λ m z u f. elim u [
        | inl q ↦ subst (λ p. lt_bytes p k ≡ false) (sym (ap (λ p. p.0) q)) (lt_bytes_irrefl k)
        | inr u' ↦ elim (Bool-cases (lt_bytes m k)) [
          | inl lower ↦ absurd (cc (lt_bytes_trans m k j lower e, first m z u' f))
          | inr upper ↦ upper
        ]
      ],
    )
    | inr e ↦ rw e (
      inr i,
      g,
      λ m z u f. elim u [
        | inl q ↦ subst (λ p. lt_bytes p j ≡ false) (sym (ap (λ p. p.0) q)) e
        | inr u' ↦ first m z u' f
      ],
    )
  ]

  pub least_lem : (bound : Bytes) (l : List (Bytes × T)) → IsLeast bound l (least bound l)
  unfolding least IsLeast
  least_lem bound [] = λ k x i. absurd i
  least_lem bound ((k, x) ∷ l) = elim (Bool-cases (lt_bytes k bound)) [
    | inl e ↦ rw e (wider (least bound l) (least_lem bound l) e)
    | inr e ↦ rw e (pick_lem bound k x l (least bound l) e (least_lem bound l))
  ]
    where
      wider :
          (o : Option (Bytes × T))
          → IsLeast bound l o
          → lt_bytes k bound ≡ true
          → IsLeast bound ((k, x) ∷ l) o
      wider none below e = λ j y i. elim i [
        | inl q ↦ subst (λ p. lt_bytes p bound ≡ true) (sym (ap (λ p. p.0) q)) e
        | inr i' ↦ below j y i'
      ]
      wider (some (m, z)) (i, g, first) e = (
        inr i,
        g,
        λ j y u f. elim u [
          | inl q ↦ absurd (cc (f, e, ap (λ p. lt_bytes p.0 bound) q))
          | inr u' ↦ first j y u' f
        ],
      )
