-- ===== src/Slashing/Accounts.antt =====
-- The blocks that Format lists under an account.
use eth2_validator.Base.{
  ◌≡◌, refl, sym, ap, ◌∙◌, Bool, true, false, List, [], ◌∷◌, ◌++◌, String, Option, none, some,
  Returns, returns, Returns-map, ◌==◌, string_eq, if◌then◌else◌, arith, key_cases, inl, inr,
  Option-cases, beq_self,
}
use mathlib.Core.List.{append-nil, append_assoc}
use eth2_validator.GoMap
use eth2_validator.GoMap.{Map}
use eth2_validator.Duty.{
  Duty, Job, block_proposal, attestation, attestation_aggregate, sync_committee,
  sync_committee_aggregate,
}
use eth2_validator.Duty.{HaveJobs}
use eth2_validator.Slashing.{AccountDuties, found_or_new, add_block, add_attestation, by_account}

-- The blocks under a key.
abbrev pub blocks_of : Option AccountDuties → List Duty
blocks_of none = []
blocks_of (some w) = w.signed_blocks

-- Whether the duty is a block proposal for the key.
abbrev pub proposes : String → Option Job → String → Bool
proposes key (some block_proposal) owner = owner == key
proposes key _ owner = false

-- The block proposals for the key, in their order.
abbrev pub blocks_for : String → List Duty → List Duty
blocks_for key [] = []
blocks_for key (d ∷ l) =
    let rest = blocks_for key l in if proposes key d.job d.pub_key then d ∷ rest else rest

add_block-blocks :
    (d : Duty) (m : Map String AccountDuties) (key : String)
    → blocks_of (GoMap.lookup key (add_block d m))
      ≡ blocks_of (GoMap.lookup key m) ++ (if d.pub_key == key then d ∷ [] else [])
unfolding add_block found_or_new
add_block-blocks d m key = rw (GoMap.lookup-insert) (elim (key_cases d.pub_key key) [
  | inl same ↦ elim (Option-cases (GoMap.lookup d.pub_key m)) [
    | inl e ↦ ground (arith, e, same, beq_self key)
    | inr (w, e) ↦ ground (arith, e, same, beq_self key)
  ]
  | inr (_, other) ↦ rw other (sym (append-nil (blocks_of (GoMap.lookup key m))))
])

add_attestation-blocks :
    (d : Duty) (m : Map String AccountDuties) (key : String)
    → blocks_of (GoMap.lookup key (add_attestation d m)) ≡ blocks_of (GoMap.lookup key m)
unfolding add_attestation found_or_new
add_attestation-blocks d m key = rw (GoMap.lookup-insert) (elim (key_cases d.pub_key key) [
  | inl same ↦ elim (Option-cases (GoMap.lookup d.pub_key m)) [
    | inl e ↦ ground (arith, e, same, beq_self key)
    | inr (w, e) ↦ ground (arith, e, same, beq_self key)
  ]
  | inr (_, other) ↦ rw other refl
])

joined :
    (c : Bool) (d : Duty) (xs rest : List Duty)
    → (xs ++ (if c then d ∷ [] else [])) ++ rest ≡ xs ++ (if c then d ∷ rest else rest)
joined true d xs rest = append_assoc xs (d ∷ []) rest
joined false d xs rest = ap (λ ys. ys ++ rest) (append-nil xs)

unchanged :
    (c : Bool) (d : Duty) (xs : List Duty) → c ≡ false → xs ≡ xs ++ (if c then d ∷ [] else [])
unchanged c d xs e = rw e (sym (append-nil xs))

-- The accounts have the blocks that they had before, and then the proposals of the list.
abbrev pub HasBlocks : List Duty → Map String AccountDuties → Map String AccountDuties → Type 0
HasBlocks l m m' =
    (key : String)
    → blocks_of (GoMap.lookup key m') ≡ blocks_of (GoMap.lookup key m) ++ blocks_for key l

-- The map after one duty has the proposal that the duty is, if it is one.
abbrev HasOne : Duty → Map String AccountDuties → Map String AccountDuties → Type 0
HasOne d m m' =
    (key : String)
    → blocks_of (GoMap.lookup key m')
      ≡ blocks_of (GoMap.lookup key m) ++ (if proposes key d.job d.pub_key then d ∷ [] else [])

one_more :
    (d : Duty) (l : List Duty) (m m1 : Map String AccountDuties)
    → HasOne d m m1
    → Returns (HasBlocks l m1) (by_account l m1)
    → Returns (HasBlocks (d ∷ l) m) (by_account l m1)
one_more d l m m1 added r = Returns-map r λ m' h key.
    h key
    ∙ ap (λ xs. xs ++ blocks_for key l) (added key)
    ∙ joined (proposes key d.job d.pub_key) d (blocks_of (GoMap.lookup key m)) (blocks_for key l)

-- The map after one duty.
abbrev pub after : Duty → Option Job → Map String AccountDuties → Map String AccountDuties
after d (some block_proposal) m = add_block d m
after d (some (attestation a)) m = add_attestation d m
after d _ m = m

after-HasOne :
    (d : Duty) (j : Job) (m : Map String AccountDuties)
    → d.job ≡ some j
    → HasOne d m (after d (some j) m)
after-HasOne d block_proposal m p key =
    add_block-blocks d m key
    ∙ ap
        (λ (o : Option Job).
          blocks_of (GoMap.lookup key m) ++ (if proposes key o d.pub_key then d ∷ [] else []))
        (sym p)
after-HasOne d (attestation a) m p key =
    add_attestation-blocks d m key ∙ unchanged _ d _ (ap (λ o. proposes key o d.pub_key) p)
after-HasOne d (attestation_aggregate a) m p key =
    unchanged _ d _ (ap (λ o. proposes key o d.pub_key) p)
after-HasOne d sync_committee m p key = unchanged _ d _ (ap (λ o. proposes key o d.pub_key) p)
after-HasOne d (sync_committee_aggregate a) m p key =
    unchanged _ d _ (ap (λ o. proposes key o d.pub_key) p)

pub by_account-after :
    (d : Duty) (l : List Duty) (j : Job) (m : Map String AccountDuties)
    → d.job ≡ some j
    → by_account (d ∷ l) m ≡ by_account l (after d (some j) m)
unfolding by_account
by_account-after d l block_proposal m p = simp p
by_account-after d l (attestation a) m p = simp p
by_account-after d l (attestation_aggregate a) m p = rw p refl
by_account-after d l sync_committee m p = rw p refl
by_account-after d l (sync_committee_aggregate a) m p = rw p refl

-- If every duty has a job, the loop of Format over the duties does not panic, and it leaves under
-- each key the blocks that were there, and after them the block proposals for the key among the
-- duties, in their order.
pub by_account-HasBlocks :
    (l : List Duty) (m : Map String AccountDuties)
    → HaveJobs l
    → Returns (HasBlocks l m) (by_account l m)
by_account-HasBlocks [] m h =
    unfold by_account in returns (λ key. sym (append-nil (blocks_of (GoMap.lookup key m))))
by_account-HasBlocks (d ∷ l) m ((j, p), h) = rw (by_account-after d l j m p) (
    one_more d l m (after d (some j) m) (after-HasOne d j m p)
      (by_account-HasBlocks l (after d (some j) m) h))
