-- ===== src/Slashing/Grouped.antt =====
-- The map that Format makes of the duties: under each key an account with the proposals and the
-- attestations for the key.
use mathlib.Core.List.{append-nil, append_assoc}
use eth2_validator.Base.{
  ◌≡◌, refl, sym, ap, ◌∙◌, inl, inr, subst, Bool, true, false, ◌||◌, List, [], ◌∷◌, ◌++◌, String,
  Option, none, some, Returns, returns, Returns-map, ◌==◌, string_eq, if◌then◌else◌, arith,
  key_cases, Bool-cases, beq_self,
}
use eth2_validator.GoMap
use eth2_validator.GoMap.{Map}
use eth2_validator.Duty.{
  Duty, Job, block_proposal, attestation, attestation_aggregate, sync_committee,
  sync_committee_aggregate, HaveJobs,
}
use eth2_validator.Slashing.{AccountDuties, found_or_new, add_block, add_attestation, by_account}
use eth2_validator.Slashing.Accounts.{after, by_account-after}

abbrev pub is_proposal : Option Job → Bool
is_proposal (some block_proposal) = true
is_proposal _ = false

abbrev pub is_attestation : Option Job → Bool
is_attestation (some (attestation a)) = true
is_attestation _ = false

abbrev pub proposes : String → Duty → Bool
proposes key d = if is_proposal d.job then d.pub_key == key else false

abbrev pub attests : String → Duty → Bool
attests key d = if is_attestation d.job then d.pub_key == key else false

abbrev pub signs : String → Duty → Bool
signs key d = proposes key d || attests key d

-- The duties of the list with the property, in their order, and whether there are any.
abbrev pub pick : (Duty → Bool) → List Duty → List Duty
pick p [] = []
pick p (d ∷ l) = let rest = pick p l in if p d then d ∷ rest else rest

abbrev pub any : (Duty → Bool) → List Duty → Bool
any p [] = false
any p (d ∷ l) = p d || any p l

abbrev pub account_of : List Duty → String → AccountDuties
account_of l key = record {
  pub_key = key;
  signed_blocks = pick (proposes key) l;
  signed_attestation = pick (attests key) l;
}

-- The map has the account of every key for which a duty of the list is signed, and no other.
abbrev pub IsGrouped : List Duty → Map String AccountDuties → Type 0
IsGrouped l m =
    (key : String)
    → GoMap.lookup key m ≡ (if any (signs key) l then some (account_of l key) else none)

pick-snoc :
    (p : Duty → Bool) (l : List Duty) (d : Duty)
    → pick p (l ++ d ∷ []) ≡ pick p l ++ (if p d then d ∷ [] else [])
pick-snoc p [] d = refl
pick-snoc p (x ∷ l) d = elim (Bool-cases (p x)) [
  | inl e ↦ rw (e, pick-snoc p l d) refl
  | inr e ↦ rw (e, pick-snoc p l d) refl
]

any-snoc : (p : Duty → Bool) (l : List Duty) (d : Duty) → any p (l ++ d ∷ []) ≡ (any p l || p d)
any-snoc p [] d = ground arith
any-snoc p (x ∷ l) d = let e = any-snoc p l d in ground arith

or_false : (a b : Bool) → (a || b) ≡ false → (a ≡ false) × (b ≡ false)
or_false true b e = absurd (cc e)
or_false false b e = (refl, e)

pick-none :
    (p r : Duty → Bool) (l : List Duty)
    → ((d : Duty) → r d ≡ false → p d ≡ false)
    → any r l ≡ false
    → pick p l ≡ []
pick-none p r [] h e = refl
pick-none p r (d ∷ l) h e =
    let (first, others) = or_false (r d) (any r l) e in rw (h d first) (pick-none p r l h others)

-- Where nothing is signed for the key, its account is empty.
account_of-none :
    (key : String) (l : List Duty)
    → any (signs key) l ≡ false
    → account_of l key ≡ record { pub_key = key; signed_blocks = []; signed_attestation = [] }
account_of-none key l e =
    let no_blocks =
      pick-none (proposes key) (signs key) l
        (λ d f. (or_false (proposes key d) (attests key d) f).0) e in
    let no_votes =
      pick-none (attests key) (signs key) l (λ d f. (or_false (proposes key d) (attests key d) f).1)
        e in
    rw (no_blocks, no_votes) refl

found_or_new-account_of :
    (l : List Duty) (m : Map String AccountDuties) (key : String)
    → IsGrouped l m
    → found_or_new key m ≡ account_of l key
unfolding found_or_new
found_or_new-account_of l m key g = elim (Bool-cases (any (signs key) l)) [
  | inl e ↦ rw (found_or_new, g key, e) refl
  | inr e ↦ rw (found_or_new, g key, e) (sym (account_of-none key l e))
]

-- What the map has under a key after the list.
abbrev entry_of : List Duty → String → Option AccountDuties
entry_of l key = if any (signs key) l then some (account_of l key) else none

-- What one more duty adds to an account.
with_one : List Duty → Duty → String → Bool → Bool → AccountDuties
with_one l d key block vote = record {
  pub_key = key;
  signed_blocks = pick (proposes key) l ++ (if block then d ∷ [] else []);
  signed_attestation = pick (attests key) l ++ (if vote then d ∷ [] else []);
}

account_of-snoc :
    (l : List Duty) (d : Duty) (key : String)
    → account_of (l ++ d ∷ []) key ≡ with_one l d key (proposes key d) (attests key d)
unfolding with_one
account_of-snoc l d key = rw (pick-snoc (proposes key) l d, pick-snoc (attests key) l d) refl

or_true : (a b : Bool) → b ≡ true → (a || b) ≡ true
or_true true b e = refl
or_true false b e = e

or_nothing : (a b : Bool) → b ≡ false → (a || b) ≡ a
or_nothing true b e = refl
or_nothing false b e = e

-- A duty that is signed for the key.
grown :
    (l : List Duty) (d : Duty) (key : String)
    → signs key d ≡ true
    → some (with_one l d key (proposes key d) (attests key d)) ≡ entry_of (l ++ d ∷ []) key
grown l d key e =
    ap some (sym (account_of-snoc l d key))
    ∙ sym (
        ap (λ (c : Bool). if c then some (account_of (l ++ d ∷ []) key) else none)
          (any-snoc (signs key) l d ∙ or_true (any (signs key) l) (signs key d) e))

-- A duty that is not signed for the key leaves its entry.
kept :
    (l : List Duty) (d : Duty) (key : String)
    → signs key d ≡ false
    → entry_of l key ≡ entry_of (l ++ d ∷ []) key
unfolding with_one
kept l d key e =
    let (no_block, no_vote) = or_false (proposes key d) (attests key d) e in
    let same : account_of l key ≡ account_of (l ++ d ∷ []) key = sym (
      account_of-snoc l d key
      ∙ ap (λ b. with_one l d key b (attests key d)) no_block
      ∙ ap (with_one l d key false) no_vote
      ∙ nothing_added) in
    ap (λ a. if any (signs key) l then some a else none) same
    ∙ ap (λ (c : Bool). if c then some (account_of (l ++ d ∷ []) key) else none)
        (sym (any-snoc (signs key) l d ∙ or_nothing (any (signs key) l) (signs key d) e))
  where
    nothing_added : with_one l d key false false ≡ account_of l key
    nothing_added = rw (append-nil (pick (proposes key) l), append-nil (pick (attests key) l)) refl

-- An account that is written back with one more duty.
written :
    (l : List Duty) (m : Map String AccountDuties) (d : Duty) (f : AccountDuties → AccountDuties)
    → IsGrouped l m
    → ((key : String) → signs key d ≡ (d.pub_key == key))
    → f (account_of l d.pub_key)
      ≡ with_one l d d.pub_key (proposes d.pub_key d) (attests d.pub_key d)
    → IsGrouped (l ++ d ∷ []) (GoMap.insert d.pub_key (f (found_or_new d.pub_key m)) m)
written l m d f g signed made key = rw (GoMap.lookup-insert) (elim (key_cases d.pub_key key) [
  | inl same ↦
      subst
        (λ k.
          (if d.pub_key == k then some (f (found_or_new d.pub_key m)) else GoMap.lookup k m)
          ≡ entry_of (l ++ d ∷ []) k)
        same own
  | inr (_, other) ↦ rw other (g key ∙ kept l d key (signed key ∙ other))
])
  where
    own :
        (if d.pub_key == d.pub_key
          then some (f (found_or_new d.pub_key m))
          else GoMap.lookup d.pub_key m)
        ≡ entry_of (l ++ d ∷ []) d.pub_key
    own =
        ap
          (λ (c : Bool).
            if c then some (f (found_or_new d.pub_key m)) else GoMap.lookup d.pub_key m)
          (beq_self d.pub_key)
        ∙ ap (λ w. some (f w)) (found_or_new-account_of l m d.pub_key g)
        ∙ ap some made
        ∙ grown l d d.pub_key (signed d.pub_key ∙ beq_self d.pub_key)

after-IsGrouped :
    (l : List Duty) (m : Map String AccountDuties) (d : Duty) (j : Job)
    → d.job ≡ some j
    → IsGrouped l m
    → IsGrouped (l ++ d ∷ []) (after d (some j) m)
unfolding add_block add_attestation with_one
after-IsGrouped l m d block_proposal e g =
    written l m d (λ w. record w { signed_blocks = w.signed_blocks ++ d ∷ [] }) g
      (λ key. rw e (or_nothing (d.pub_key == key) false refl))
      (rw (e, beq_self d.pub_key) (rw (append-nil (pick (attests d.pub_key) l)) refl))
after-IsGrouped l m d (attestation a) e g =
    written l m d (λ w. record w { signed_attestation = w.signed_attestation ++ d ∷ [] }) g
      (λ key. rw e refl)
      (rw (e, beq_self d.pub_key) (rw (append-nil (pick (proposes d.pub_key) l)) refl))
after-IsGrouped l m d (attestation_aggregate a) e g = λ key. g key ∙ kept l d key (rw e refl)
after-IsGrouped l m d sync_committee e g = λ key. g key ∙ kept l d key (rw e refl)
after-IsGrouped l m d (sync_committee_aggregate a) e g = λ key. g key ∙ kept l d key (rw e refl)

by_account-from :
    (pre l : List Duty) (m : Map String AccountDuties)
    → HaveJobs l
    → IsGrouped pre m
    → Returns (IsGrouped (pre ++ l)) (by_account l m)
by_account-from pre [] m h g =
    unfold by_account in returns (λ key. g key ∙ ap (λ l. entry_of l key) (sym (append-nil pre)))
by_account-from pre (d ∷ l) m ((j, e), h) g = rw (by_account-after d l j m e) (
    Returns-map
      (by_account-from (pre ++ d ∷ []) l (after d (some j) m) h (after-IsGrouped pre m d j e g))
      λ m' g' key. g' key ∙ ap (λ l. entry_of l key) (append_assoc pre (d ∷ []) l))

-- The loop of Format over duties with jobs does not panic, and groups them.
pub by_account-IsGrouped : (l : List Duty) → HaveJobs l → Returns (IsGrouped l) (by_account l [])
unfolding GoMap.lookup
by_account-IsGrouped l h = by_account-from [] l [] h (λ key. refl)
