-- ===== src/Slashing/Keys.antt =====
-- The keys of the map in their order, with the accounts under them, and the duties of an account.
use eth2_validator.Base.{
  ◌≡◌, ◌≢◌, ◌↔◌, ◌⊎◌, refl, sym, ap, ◌∙◌, inl, inr, Bool, true, false, ◌||◌, List, [], ◌∷◌, map,
  String, none, some, ok, string_eq, if◌then◌else◌, arith, key_cases, Bool-cases, beq_self,
}
use eth2_validator.Base.Try.{IsEntryOf}
use eth2_validator.GoMap
use eth2_validator.GoMap.{Map}
use eth2_validator.Duty.{Duty}
use eth2_validator.State.Index.{ascii}
use eth2_validator.State.Keys.{lt_bytes}
use eth2_validator.Slashing.{AccountDuties, insert_sorted, sort, sorted_duties}
use eth2_validator.Slashing.Grouped.{
  is_proposal, is_attestation, signs, pick, any, account_of, IsGrouped,
}

insert_sorted-entries :
    (k s : String) (l : List String) → IsEntryOf k (insert_sorted s l) ↔ IsEntryOf k (s ∷ l)
unfolding insert_sorted
insert_sorted-entries k s [] = (λ i. i, λ i. i)
insert_sorted-entries k s (t ∷ l) =
    let (to, from) = insert_sorted-entries k s l in
    elim (Bool-cases (lt_bytes (ascii s) (ascii t))) [
      | inl e ↦ rw e (λ i. i, λ i. i)
      | inr e ↦ rw e (
        λ i. elim i [
          | inl p ↦ inr (inl p)
          | inr j ↦ (elim (to j) [ inl p ↦ inl p | inr q ↦ inr (inr q) ])
        ],
        λ i. elim i [
          | inl p ↦ inr (from (inl p))
          | inr j ↦ (elim j [ inl p ↦ inl p | inr q ↦ inr (from (inr q)) ])
        ],
      )
    ]

sort-entries : (k : String) (l : List String) → IsEntryOf k (sort l) ↔ IsEntryOf k l
unfolding sort
sort-entries k [] = (λ i. i, λ i. i)
sort-entries k (s ∷ l) =
    let (to, from) = sort-entries k l in
    let (into, out) = insert_sorted-entries k s (sort l) in
    (
      λ i. elim (into i) [ inl p ↦ inl p | inr j ↦ inr (to j) ],
      λ i. elim i [ inl p ↦ out (inl p) | inr j ↦ out (inr (from j)) ],
    )

abbrev pub keys : Map String AccountDuties → List String
keys m = map (λ (k, _). k) m

keys-lookup :
    (m : Map String AccountDuties) (k : String) → IsEntryOf k (keys m) ↔ (GoMap.lookup k m ≢ none)
unfolding GoMap.lookup
keys-lookup [] k = (λ i. absurd i, λ n. absurd (n refl))
keys-lookup ((j, v) ∷ m) k =
    let (to, from) = keys-lookup m k in
    elim (key_cases j k) [
      | inl same ↦
          let found : GoMap.lookup k ((j, v) ∷ m) ≡ some v = rw (same, beq_self k) refl in
          (λ i e. cc (e, found), λ n. inl (sym same))
      | inr (apart, other) ↦
          rw other
            (λ i. elim i [ inl e ↦ absurd (apart (sym e)) | inr h ↦ to h ], λ n. inr (from n))
    ]

module _ (l : List Duty) (m : Map String AccountDuties) (g : IsGrouped l m) where
  -- The sorted keys are those for which something is signed.
  pub keys-signed : (k : String) → IsEntryOf k (sort (keys m)) ↔ (any (signs k) l ≡ true)
  keys-signed k =
      let (to, from) = keys-lookup m k in
      let (into, out) = sort-entries k (keys m) in
      (
        λ i. elim (Bool-cases (any (signs k) l)) [
          | inl e ↦ e
          | inr e ↦
              absurd
                (to (into i) (g k ∙ ap (λ (c : Bool). if c then some (account_of l k) else none) e))
        ],
        λ e. out (
            from λ f. cc (f, g k ∙ ap (λ (c : Bool). if c then some (account_of l k) else none) e)),
      )

  accounts_found :
      (ks : List String)
      → ((k : String) → IsEntryOf k ks → any (signs k) l ≡ true)
      → sorted_duties m ks ≡ ok (map (account_of l) ks)
  unfolding sorted_duties
  accounts_found [] h = refl
  accounts_found (k ∷ ks) h =
      let at : GoMap.lookup k m ≡ some (account_of l k) =
        g k ∙ ap (λ (c : Bool). if c then some (account_of l k) else none) (h k (inl refl)) in
      rw (at, accounts_found ks (λ j i. h j (inr i))) refl

  pub sorted_accounts : sorted_duties m (sort (keys m)) ≡ ok (map (account_of l) (sort (keys m)))
  sorted_accounts = accounts_found (sort (keys m)) (λ k i. (keys-signed k).0 i)

pub pick-entry :
    (p : Duty → Bool) (l : List Duty) (d : Duty)
    → IsEntryOf d (pick p l) ↔ (IsEntryOf d l × (p d ≡ true))
pick-entry p [] d = (λ i. absurd i, λ (i, e). absurd i)
pick-entry p (x ∷ l) d =
    let (to, from) = pick-entry p l d in
    elim (Bool-cases (p x)) [
      | inl e ↦ rw e (
        λ i. elim i [ inl q ↦ (inl q, ap p q ∙ e) | inr j ↦ (inr (to j).0, (to j).1) ],
        λ (i, h). elim i [ inl q ↦ inl q | inr j ↦ inr (from (j, h)) ],
      )
      | inr e ↦ rw e (
        λ i. (inr (to i).0, (to i).1),
        λ (i, h). elim i [ inl q ↦ absurd (cc (sym h ∙ ap p q ∙ e)) | inr j ↦ from (j, h) ],
      )
    ]

pub if_true : (b c : Bool) → (if b then c else false) ≡ true → b ≡ true
if_true true c e = refl
if_true false c e = absurd (cc e)

pub and_true : (b c : Bool) → b ≡ true → c ≡ true → (if b then c else false) ≡ true
and_true b c e f = rw e f

pub or_cases : (b c : Bool) → (b || c) ≡ true → (b ≡ true) ⊎ (c ≡ true)
or_cases true c e = inl refl
or_cases false c e = inr e

if_same : (b : Bool) → (if b then true else false) ≡ b
if_same true = refl
if_same false = refl

pub signs-own :
    (d : Duty) → (is_proposal d.job || is_attestation d.job) ≡ true → signs d.pub_key d ≡ true
signs-own d e =
    rw (beq_self d.pub_key, if_same (is_proposal d.job), if_same (is_attestation d.job)) e

pub any-entry :
    (p : Duty → Bool) (l : List Duty) (d : Duty) → IsEntryOf d l → p d ≡ true → any p l ≡ true
any-entry p [] d i e = absurd i
any-entry p (x ∷ l) d (inl q) e = rw (ap p (sym q) ∙ e) refl
any-entry p (x ∷ l) d (inr i) e = let f = any-entry p l d i e in ground arith
