-- ===== src/Server/Subscriptions/Entries.antt =====
-- What a list of subscriptions asks for, and the entries of the map it is made from.
use eth2_validator.Base.{
  nat_eq, ℕ, ◌≡◌, ◌↔◌, ◌⊎◌, inl, inr, refl, sym, ap, ◌∙◌, subst, List, [], ◌∷◌, ◌++◌, Option, some,
  Bool-cases, key_cases, beq_self, ◌==◌,
}
use eth2_validator.Base.Try.{IsEntryOf}
use eth2_validator.GoMap
use eth2_validator.GoMap.{Map}
use eth2_validator.Duty.{Duty, sync_committee_aggregate, SyncCommitteeAggregate}
use eth2_validator.Server.{SyncSubscription}

-- A sync committee aggregate of the validator in the subcommittee is among the duties.
pub record IsAsked (l : List Duty) (v i : ℕ) : Type 0 where
  pub duty : Duty
  pub aggregate : SyncCommitteeAggregate
  pub listed : IsEntryOf duty l
  pub job : duty.job ≡ some (sync_committee_aggregate aggregate)
  pub by : duty.validator_index ≡ v
  pub to : aggregate.sub_committee_index ≡ i

-- A subscription of the list is the validator's, and has the subcommittee.
pub record IsSubscribed (subs : List SyncSubscription) (v i : ℕ) : Type 0 where
  pub sub : SyncSubscription
  pub listed : IsEntryOf sub subs
  pub by : sub.validator_index ≡ v
  pub to : IsEntryOf i sub.sync_committee_indices

abbrev pub Subs : Type 0
Subs = Map ℕ SyncSubscription

-- Every entry is under its validator, with what was asked.
unfoldable pub IsGrouped : List Duty → Subs → Type 0
IsGrouped l m =
    (k : ℕ) (s : SyncSubscription)
    → IsEntryOf (k, s) m
    → (s.validator_index ≡ k) × ((i : ℕ) → IsEntryOf i s.sync_committee_indices → IsAsked l k i)

pub lookup-entry :
    (m : Subs) (k : ℕ) (s : SyncSubscription) → GoMap.lookup k m ≡ some s → IsEntryOf (k, s) m
unfolding GoMap.lookup
lookup-entry [] k s e = cc
lookup-entry ((j, t) ∷ m) k s e = elim (key_cases j k) [
  | inl same ↦
      let e' : some t ≡ some s = sym (rw (same, beq_self k) refl) ∙ e in
      inl (rw (same, some_inj e') refl)
  | inr (_, other) ↦
      let e' : GoMap.lookup k m ≡ some s = sym (rw other refl) ∙ e in inr (lookup-entry m k s e')
]
  where
    some_inj :
        {x y : SyncSubscription} → ◌≡◌ {A = Option SyncSubscription} (some x) (some y) → x ≡ y
    some_inj q = cc q

pub insert-entry :
    (m : Subs) (k j : ℕ) (s t : SyncSubscription)
    → IsEntryOf (j, t) (GoMap.insert k s m)
    → ((j ≡ k) × (t ≡ s)) ⊎ IsEntryOf (j, t) m
unfolding GoMap.insert
insert-entry [] k j s t (inl q) = inl (ap (λ x. x.0) q, ap (λ x. x.1) q)
insert-entry [] k j s t (inr i) = absurd i
insert-entry ((h, u) ∷ m) k j s t i = elim (Bool-cases (h == k)) [
  | inl e ↦
      let q : GoMap.insert k s ((h, u) ∷ m) ≡ (k, s) ∷ m = rw e refl in
      let i' : IsEntryOf (j, t) ((k, s) ∷ m) = subst (IsEntryOf (j, t)) q i in
      elim i' [ inl q ↦ inl (ap (λ x. x.0) q, ap (λ x. x.1) q) | inr r ↦ inr (inr r) ]
  | inr e ↦
      let q : GoMap.insert k s ((h, u) ∷ m) ≡ (h, u) ∷ GoMap.insert k s m = rw e refl in
      let i' : IsEntryOf (j, t) ((h, u) ∷ GoMap.insert k s m) = subst (IsEntryOf (j, t)) q i in
      elim i' [
        | inl q ↦ inr (inl q)
        | inr r ↦ elim (insert-entry m k j s t r) [ inl q ↦ inl q | inr x ↦ inr (inr x) ]
      ]
]

pub append-entries : (l : List ℕ) (x i : ℕ) → IsEntryOf i (l ++ x ∷ []) ↔ (IsEntryOf i l ⊎ (i ≡ x))
append-entries [] x i = (
  (λ j. elim j [ inl q ↦ inr q | inr r ↦ absurd r ]),
  λ j. elim j [ inl r ↦ absurd r | inr q ↦ inl q ],
)
append-entries (y ∷ l) x i =
    let rest = append-entries l x i in
    (
      (λ j. elim j [
        | inl q ↦ inl (inl q)
        | inr r ↦ elim (rest.0 r) [ inl h ↦ inl (inr h) | inr q ↦ inr q ]
      ]),
      λ j. elim j [
        | inl (inl q) ↦ inl q
        | inl (inr h) ↦ inr (rest.1 (inl h))
        | inr q ↦ inr (rest.1 (inr q))
      ],
    )
