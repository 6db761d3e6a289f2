-- ===== src/Server/Subscriptions.antt =====
-- What SyncCommitteeSubscription asks the beacon node for. `Sorting` is about the order.
pub mod Sorting
pub mod Entries
use eth2_validator.Base.{
  nat_eq, ℕ, ◌≡◌, ◌≢◌, ◌↔◌, ◌⊎◌, inl, inr, refl, sym, ap, ◌∙◌, subst, true, List, [], ◌∷◌, ◌++◌,
  map, Option, some, Go, Returns, returns, Returns-bind, Returns-map, Option-cases, key_cases,
  beq_self, ◌==◌,
}
use eth2_validator.Base.Try.{IsEntryOf}
use eth2_validator.GoMap
use eth2_validator.Duty.{
  Duty, Job, block_proposal, attestation, attestation_aggregate, sync_committee,
  sync_committee_aggregate, SyncCommitteeAggregate,
}
use eth2_validator.Duty.{HaveJobs}
use eth2_validator.Server.{
  SyncSubscription, found_or_new, add_index, group_by_validator, sync_subscriptions,
}
use Sorting.{IsSorted, sort-entries, sort-IsSorted}
use eth2_validator.Server.Subscriptions.Entries.{
  IsAsked, IsSubscribed, Subs, IsGrouped, lookup-entry, insert-entry, append-entries,
}

module _ (all : List Duty) where
  found_or_new_lem :
      (d : Duty) (m : Subs)
      → IsGrouped all m
      → ((found_or_new d m).validator_index ≡ d.validator_index)
        × ((i : ℕ)
            → IsEntryOf i (found_or_new d m).sync_committee_indices
            → IsAsked all d.validator_index i)
  unfolding found_or_new IsGrouped
  found_or_new_lem d m g = elim (Option-cases (GoMap.lookup d.validator_index m)) [
    | inl free ↦ rw (found_or_new, free) (refl, λ i j. absurd j)
    | inr (s, e) ↦
        rw (found_or_new, e) (g d.validator_index s (lookup-entry m d.validator_index s e))
  ]

  add_index-IsGrouped :
      (d : Duty) (a : SyncCommitteeAggregate) (m : Subs)
      → IsEntryOf d all
      → d.job ≡ some (sync_committee_aggregate a)
      → IsGrouped all m
      → IsGrouped all (add_index d a m)
  unfolding add_index IsGrouped
  add_index-IsGrouped d a m listed job g k s i =
      let (named, asked) = found_or_new_lem d m g in
      elim (insert-entry m d.validator_index k _ s i) [
        | inr r ↦ g k s r
        | inl (q, same) ↦
            rw (q, same)
              (
                named,
                λ n j. elim ((append-entries _ a.sub_committee_index n).0 j) [
                  | inl h ↦ asked n h
                  | inr here ↦ record {
                    duty = d;
                    aggregate = a;
                    listed = listed;
                    job = job;
                    by = refl;
                    to = sym here;
                  }
                ],
              )
      ]

  -- The subcommittee is under the validator.
  abbrev Has : Subs → ℕ → ℕ → Type 0
  Has m v i =
      (s : SyncSubscription) × (GoMap.lookup v m ≡ some s) × IsEntryOf i s.sync_committee_indices

  add_index-Has :
      (d : Duty) (a : SyncCommitteeAggregate) (m : Subs) (v i : ℕ)
      → Has m v i ⊎ ((d.validator_index ≡ v) × (a.sub_committee_index ≡ i))
      → Has (add_index d a m) v i
  unfolding add_index
  add_index-Has d a m v i h = elim (key_cases d.validator_index v) [
    | inl same ↦
        let sub = found_or_new d m in
        let new : SyncSubscription = record sub {
          sync_committee_indices = sub.sync_committee_indices ++ a.sub_committee_index ∷ [];
        } in
        let test : (d.validator_index == v) ≡ true = rw same (beq_self v) in
        (
          new,
          GoMap.lookup-insert d.validator_index v new m ∙ (rw test refl),
          (append-entries (found_or_new d m).sync_committee_indices a.sub_committee_index i).1
              (extended same h),
        )
    | inr (apart, other) ↦ elim h [
      | inl (s, e, j) ↦ (s, GoMap.lookup-insert d.validator_index v _ m ∙ (rw other e), j)
      | inr (q, _) ↦ absurd (apart q)
    ]
  ]
    where
      extended :
          d.validator_index ≡ v
          → Has m v i ⊎ ((d.validator_index ≡ v) × (a.sub_committee_index ≡ i))
          → IsEntryOf i (found_or_new d m).sync_committee_indices ⊎ (i ≡ a.sub_committee_index)
      extended same (inr (_, q)) = inr (sym q)
      extended same (inl (s, e, j)) =
          let held : GoMap.lookup d.validator_index m ≡ some s = rw same e in
          let is : found_or_new d m ≡ s = rw (found_or_new, held) refl in
          inl (subst (λ x. IsEntryOf i x.sync_committee_indices) (sym is) j)

  -- What the loop leaves.
  record IsRound (l : List Duty) (m m' : Subs) : Type 0 where
    grouped : IsGrouped all m'
    complete : (v i : ℕ) → Has m v i ⊎ IsAsked l v i → Has m' v i

  skip :
      (d : Duty) (l : List Duty) (m : Subs) (r : Go Subs)
      → ((a : SyncCommitteeAggregate) → d.job ≢ some (sync_committee_aggregate a))
      → Returns (IsRound l m) r
      → Returns (IsRound (d ∷ l) m) r
  skip d l m r other h = Returns-map h λ m' x. record {
    grouped = x.grouped;
    complete = λ v i y. x.complete v i (elim y [ inl z ↦ inl z | inr z ↦ inr (behind v i z) ]);
  }
    where
      behind : (v i : ℕ) → IsAsked (d ∷ l) v i → IsAsked l v i
      behind v i z = elim z.listed [
        | inl q ↦ absurd (other z.aggregate (ap (λ x. x.job) (sym q) ∙ z.job))
        | inr j ↦ record {
          duty = z.duty;
          aggregate = z.aggregate;
          listed = j;
          job = z.job;
          by = z.by;
          to = z.to;
        }
      ]

  add :
      (d : Duty) (a : SyncCommitteeAggregate) (l : List Duty) (m : Subs) (r : Go Subs)
      → d.job ≡ some (sync_committee_aggregate a)
      → Returns (IsRound l (add_index d a m)) r
      → Returns (IsRound (d ∷ l) m) r
  add d a l m r e h = Returns-map h λ m' x. record {
    grouped = x.grouped;
    complete = λ v i y.
        x.complete v i
          (elim y [ inl z ↦ inl (add_index-Has d a m v i (inl z)) | inr z ↦ asked v i z ]);
  }
    where
      one_job :
          {x y : SyncCommitteeAggregate}
          → ◌≡◌ {A = Option Job}
              (some (sync_committee_aggregate x))
              (some (sync_committee_aggregate y))
          → x ≡ y
      one_job q = cc q

      asked : (v i : ℕ) → IsAsked (d ∷ l) v i → Has (add_index d a m) v i ⊎ IsAsked l v i
      asked v i z = elim z.listed [
        | inl q ↦
            let same : a ≡ z.aggregate = one_job (sym e ∙ ap (λ x. x.job) (sym q) ∙ z.job) in
            inl (
              add_index-Has d a m v i (
                inr (
                  ap (λ x. x.validator_index) (sym q) ∙ z.by,
                  ap (λ x. x.sub_committee_index) same ∙ z.to,
                )))
        | inr j ↦ inr (record {
          duty = z.duty;
          aggregate = z.aggregate;
          listed = j;
          job = z.job;
          by = z.by;
          to = z.to;
        })
      ]

  group_by_validator-IsRound :
      (l : List Duty) (m : Subs)
      → HaveJobs l
      → ((d : Duty) → IsEntryOf d l → IsEntryOf d all)
      → IsGrouped all m
      → Returns (IsRound l m) (group_by_validator l m)
  unfolding group_by_validator add_index
  group_by_validator-IsRound [] m jobs part g =
      returns
        (record { grouped = g; complete = λ v i h. elim h [ inl x ↦ x | inr x ↦ absurd x.listed ] })
  group_by_validator-IsRound (d ∷ l) m ((j, e), jobs) part g =
      of j e (group_by_validator-IsRound l m jobs rest g) (λ a q.
        group_by_validator-IsRound l (add_index d a m) jobs rest
          (add_index-IsGrouped d a m (part d (inl refl)) q g))
    where
      rest : (x : Duty) → IsEntryOf x l → IsEntryOf x all
      rest x i = part x (inr i)

      passed :
          group_by_validator (d ∷ l) m ≡ group_by_validator l m
          → ((a : SyncCommitteeAggregate) → d.job ≢ some (sync_committee_aggregate a))
          → Returns (IsRound l m) (group_by_validator l m)
          → Returns (IsRound (d ∷ l) m) (group_by_validator (d ∷ l) m)
      passed run other without =
          subst (Returns (IsRound (d ∷ l) m)) (sym run) (skip d l m _ other without)

      of :
          (j : Job)
          → d.job ≡ some j
          → Returns (IsRound l m) (group_by_validator l m)
          → ((a : SyncCommitteeAggregate)
              → d.job ≡ some (sync_committee_aggregate a)
              → Returns (IsRound l (add_index d a m)) (group_by_validator l (add_index d a m)))
          → Returns (IsRound (d ∷ l) m) (group_by_validator (d ∷ l) m)
      of (sync_committee_aggregate a) e without with_it =
          let run : group_by_validator (d ∷ l) m ≡ group_by_validator l (add_index d a m) =
            rw (group_by_validator, e) refl in
          subst (Returns (IsRound (d ∷ l) m)) (sym run) (add d a l m _ e (with_it a e))
      of block_proposal e without with_it =
          passed (rw (group_by_validator, e) refl) (λ a q. cc (e, q)) without
      of (attestation x) e without with_it =
          passed (rw (group_by_validator, e) refl) (λ a q. cc (e, q)) without
      of (attestation_aggregate x) e without with_it =
          passed (rw (group_by_validator, e) refl) (λ a q. cc (e, q)) without
      of sync_committee e without with_it =
          passed (rw (group_by_validator, e) refl) (λ a q. cc (e, q)) without

  map_entries :
      (m : Subs) (s : SyncSubscription)
      → IsEntryOf s (map (λ (_, sub). sub) m)
      → (k : ℕ) × IsEntryOf (k, s) m
  map_entries [] s i = absurd i
  map_entries ((k, t) ∷ m) s (inl q) = (k, inl (rw q refl))
  map_entries ((k, t) ∷ m) s (inr i) = let (j, h) = map_entries m s i in (j, inr h)

  entries_map :
      (m : Subs) (k : ℕ) (s : SyncSubscription)
      → IsEntryOf (k, s) m
      → IsEntryOf s (map (λ (_, sub). sub) m)
  entries_map [] k s i = absurd i
  entries_map ((j, t) ∷ m) k s (inl q) = inl (ap (λ x. x.1) q)
  entries_map ((j, t) ∷ m) k s (inr i) = inr (entries_map m k s i)

-- Where every duty has a job, a round of the sync committee subscriptions does not panic: what it sends
-- has a subcommittee for a validator just where a sync committee aggregate of the duties asks
-- for it, in the order of the validators.
pub sync_subscriptions_lem :
    (l : List Duty)
    → HaveJobs l
    → Returns
        (λ subs. IsSorted subs × ((v i : ℕ) → IsSubscribed subs v i ↔ IsAsked l v i))
        (sync_subscriptions l)
unfolding sync_subscriptions IsGrouped GoMap.lookup
sync_subscriptions_lem l jobs =
    Returns-bind (group_by_validator-IsRound l l [] jobs (λ d i. i) (λ k s i. absurd i)) λ m r.
      let subs = map (λ (_, sub). sub) m in
      returns (
        sort-IsSorted subs,
        λ v i. (
          (λ x.
              let (k, j) = map_entries l m x.sub ((sort-entries subs x.sub).0 x.listed) in
              let (named, asked) = r.grouped k x.sub j in
              subst (λ w. IsAsked l w i) (sym named ∙ x.by) (asked i x.to)),
          λ x.
              let (s, e, j) = r.complete v i (inr x) in
              let at = lookup-entry m v s e in
              record {
                sub = s;
                listed = (sort-entries subs s).1 (entries_map l m v s at);
                by = (r.grouped v s at).0;
                to = j;
              },
        ),
      )
