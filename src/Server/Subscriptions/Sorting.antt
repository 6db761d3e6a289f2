-- ===== src/Server/Subscriptions/Sorting.antt =====
-- The order of the subscriptions that are sent.
use eth2_validator.Base.{
  ◌≤◌, ◌≡◌, ◌↔◌, ◌⊎◌, inl, inr, List, [], ◌∷◌, arith, Bool-cases, nat_eq, ltb, ltb→lt, ltb-false,
}
use eth2_validator.Base.Try.{IsEntryOf}
use eth2_validator.Server.{SyncSubscription, insert_sorted, sort}

-- No subscription stands before one of a lower validator.
abbrev pub IsSorted : List SyncSubscription → Type 0
IsSorted [] = Unit {0}
IsSorted (s ∷ l) =
    ((t : SyncSubscription) → IsEntryOf t l → s.validator_index ≤ t.validator_index) × IsSorted l

insert_sorted-entries :
    (s : SyncSubscription) (l : List SyncSubscription) (t : SyncSubscription)
    → IsEntryOf t (insert_sorted s l) ↔ ((t ≡ s) ⊎ IsEntryOf t l)
unfolding insert_sorted
insert_sorted-entries s [] t = (λ i. i, λ i. i)
insert_sorted-entries s (u ∷ l) t = elim (Bool-cases (ltb s.validator_index u.validator_index)) [
  | inl e ↦ rw e (λ i. i, λ i. i)
  | inr e ↦
      let rest = insert_sorted-entries s l t in
      rw e (
        (λ i. elim i [
          | inl q ↦ inr (inl q)
          | inr j ↦ elim (rest.0 j) [ inl q ↦ inl q | inr h ↦ inr (inr h) ]
        ]),
        λ i. elim i [
          | inl q ↦ inr (rest.1 (inl q))
          | inr (inl q) ↦ inl q
          | inr (inr h) ↦ inr (rest.1 (inr h))
        ],
      )
]

insert_sorted-IsSorted :
    (s : SyncSubscription) (l : List SyncSubscription) → IsSorted l → IsSorted (insert_sorted s l)
unfolding insert_sorted
insert_sorted-IsSorted s [] h = ((λ t i. absurd i), tt)
insert_sorted-IsSorted s (u ∷ l) (first, h) =
    elim (Bool-cases (ltb s.validator_index u.validator_index)) [
      | inl e ↦
          let lower = ltb→lt s.validator_index u.validator_index e in
          rw e (
            (λ t i. elim i [
              | inl q ↦ rw q (omega (arith, lower))
              | inr j ↦ omega (arith, lower, first t j)
            ]),
            (first, h),
          )
      | inr e ↦ rw e (
        (λ t i. elim ((insert_sorted-entries s l t).0 i) [
          | inl q ↦ rw q (ltb-false s.validator_index u.validator_index e)
          | inr j ↦ first t j
        ]),
        insert_sorted-IsSorted s l h,
      )
    ]

pub sort-entries :
    (l : List SyncSubscription) (t : SyncSubscription) → IsEntryOf t (sort l) ↔ IsEntryOf t l
unfolding sort
sort-entries [] t = (λ i. i, λ i. i)
sort-entries (s ∷ l) t =
    let here = insert_sorted-entries s (sort l) t in
    let rest = sort-entries l t in
    (
      (λ i. elim (here.0 i) [ inl q ↦ inl q | inr j ↦ inr (rest.0 j) ]),
      λ i. elim i [ inl q ↦ here.1 (inl q) | inr j ↦ here.1 (inr (rest.1 j)) ],
    )

pub sort-IsSorted : (l : List SyncSubscription) → IsSorted (sort l)
unfolding sort
sort-IsSorted [] = tt
sort-IsSorted (s ∷ l) = insert_sorted-IsSorted s (sort l) (sort-IsSorted l)
