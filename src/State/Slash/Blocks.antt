-- ===== src/State/Slash/Blocks.antt =====
-- What SlashBlockCheck says, for a table whose duties have uint64 indices and slots.
use eth2_validator.Base.{
  ℕ, ◌^◌, ◌<◌, ◌≤◌, ◌≡◌, ◌≢◌, refl, sym, ap, ◌∙◌, ◌⊎◌, inl, inr, true, false, [], Option, none,
  some, arith, ltb, if◌then◌else◌, subst, Bool-cases, ltb→lt, ltb-false,
}
use eth2_validator.Base.Try.{value, error, IsEntryOf, bind-value, ◌>>=◌}
use eth2_validator.Duty.{Bytes, Duty}
use eth2_validator.State.Index.{write_uint64, block_from_args, block_prefix_from_args}
use eth2_validator.State.Keys.{lt_bytes}
use eth2_validator.State.Memdb.{
  Index, IsMemdb, Holds, IsFirst, missing, found, IsLowest, above_all, lowest, keys_of,
}
use eth2_validator.State.Schema.{block_proposer_index, duties_schema}
use eth2_validator.State.Store.{Parts, State}
use eth2_validator.State.Slash.{
  slot_too_low, root_equal, check_root, check_slot, proposal_at_slot, lowest_signed_proposal,
  slash_block_check,
}
use eth2_validator.State.Slash.Entries.{
  IsSignedBlock, block_key, keys_of-IsSignedBlock, IsSignedBlock-keys_of, block_key-prefix,
  block_key-lt, block_key_inj,
}

module _ (p : Parts) (L : IsMemdb p.duties_db (λ d. d.id) (duties_schema p.indexers))
    (s : State p) where
  -- The duty is in the table of duties.
  abbrev pub IsKept : Duty → Type 0
  IsKept d = Holds p.duties_db (λ e. e.id) (duties_schema p.indexers) s.duties d

  abbrev pub AreWords : Type 0
  AreWords = (d : Duty) → IsKept d → (d.validator_index < 2 ^ 64) × (d.slot < 2 ^ 64)

  -- A block of the validator that the table holds as signed.
  abbrev pub IsBlockOf : ℕ → Duty → Type 0
  IsBlockOf v d = IsKept d × IsSignedBlock v d

  abbrev ix : Index Duty
  ix = block_proposer_index p.indexers

  -- What the query for a slot finds.
  pub data IsAtSlot (v slot : ℕ) : Option Duty → Type 0 where
    nothing : ((d : Duty) → IsBlockOf v d → d.slot ≢ slot) → IsAtSlot v slot none
    block : {d : Duty} → IsBlockOf v d → d.slot ≡ slot → IsAtSlot v slot (some d)

  -- What the query for the lowest slot finds: the lowest slot of the first validator from `v` on
  -- that has signed a block.
  pub data IsLowestFrom (v : ℕ) : Option Duty → Type 0 where
    nobody : ((w : ℕ) (d : Duty) → IsBlockOf w d → w < v) → IsLowestFrom v none
    block :
        {d : Duty} (w : ℕ)
        → IsBlockOf w d
        → v ≤ w
        → ((u : ℕ) (e : Duty) → IsBlockOf u e → v ≤ u → (w < u) ⊎ ((w ≡ u) × (d.slot ≤ e.slot)))
        → IsLowestFrom v (some d)

  after :
      (u w t r : ℕ)
      → (if ltb u w then true else if ltb w u then false else ltb t r) ≡ false
      → (w < u) ⊎ ((w ≡ u) × (r ≤ t))
  after u w t r h = elim (Bool-cases (ltb w u)) [
    | inl e ↦ inl (ltb→lt w u e)
    | inr e ↦ inr (ground arith)
  ]

  module _ (words : AreWords) (v : ℕ) (hv : v < 2 ^ 64) where
    first-IsAtSlot :
        (slot : ℕ) (o : Option Duty)
        → slot < 2 ^ 64
        → IsFirst p.duties_db
            (λ e. e.id)
            (duties_schema p.indexers)
            s.duties
            ix
            (block_key v slot)
            o
        → IsAtSlot v slot o
    first-IsAtSlot slot none hs (missing free) = nothing λ d (kept, b) e. free d kept (
        subst (λ t. IsEntryOf (block_key v t) (keys_of ix d)) e
          (IsSignedBlock-keys_of p.indexers d v b))
    first-IsAtSlot slot (some d) hs (found kept i) =
        let (b, e) = keys_of-IsSignedBlock p.indexers d (block_key v slot) i in
        let (hw, ht) = words d kept in
        let (same, at) = block_key_inj v d.validator_index slot d.slot hv hw hs ht e in
        block (kept, subst (λ w. IsSignedBlock w d) (sym same) b) (sym at)

    lower-IsLowestFrom :
        (o : Option Duty)
        → IsLowest p.duties_db
            (λ e. e.id)
            (duties_schema p.indexers)
            s.duties
            ix
            (write_uint64 [] v)
            o
        → IsLowestFrom v o
    lower-IsLowestFrom none (above_all all) = nobody λ w d (kept, b).
        let below = all d (block_key w d.slot) kept (IsSignedBlock-keys_of p.indexers d w b) in
        let hw : w < 2 ^ 64 = subst (λ n. n < 2 ^ 64) b.of (words d kept).0 in
        ltb→lt w v (sym (block_key-prefix v w d.slot hv hw) ∙ below)
    lower-IsLowestFrom (some d) (lowest k kept i above least) =
        let (b, e) = keys_of-IsSignedBlock p.indexers d k i in
        let (hw, hs) = words d kept in
        let from : ltb d.validator_index v ≡ false =
          sym (block_key-prefix v d.validator_index d.slot hv hw)
          ∙ ap (λ j. lt_bytes j (write_uint64 [] v)) (sym e)
          ∙ above in
        block d.validator_index (kept, b) (ltb-false d.validator_index v from)
          λ u y (kept', b') hu.
            let hu' : u < 2 ^ 64 = subst (λ n. n < 2 ^ 64) b'.of (words y kept').0 in
            let above' : ltb u v ≡ false = ground arith in
            let order =
              least y (block_key u y.slot) kept' (IsSignedBlock-keys_of p.indexers y u b')
                (block_key-prefix v u y.slot hv hu' ∙ above') in
            after u d.validator_index y.slot d.slot (
              sym (block_key-lt u d.validator_index y.slot d.slot hu' hw (words y kept').1 hs)
              ∙ ap (lt_bytes (block_key u y.slot)) (sym e)
              ∙ order)

    at_slot_lem :
        (slot : ℕ)
        → slot < 2 ^ 64
        → (o : Option Duty) × (proposal_at_slot p s v slot ≡ value o) × IsAtSlot v slot o
    unfolding proposal_at_slot block_from_args block_key
    at_slot_lem slot hs = (
      _,
      refl,
      first-IsAtSlot slot _ hs (L.first_lem s.duties ix (block_key v slot) (inr (inr (inl refl)))),
    )

    lowest_lem : (o : Option Duty) × (lowest_signed_proposal p s v ≡ value o) × IsLowestFrom v o
    unfolding lowest_signed_proposal block_prefix_from_args
    lowest_lem = (
      _,
      refl,
      lower-IsLowestFrom _
          (L.lower_bound_lem s.duties ix (write_uint64 [] v) (inr (inr (inl refl)))),
    )

    -- The check is that of the root of what stands at the slot, and then of the lowest slot.
    check_lem :
        (slot : ℕ) (root : Bytes)
        → slot < 2 ^ 64
        → (o low : Option Duty) × IsAtSlot v slot o
          × IsLowestFrom v low
          × (slash_block_check p s v slot root
              ≡ (check_root slot root o >>= λ _. check_slot slot low))
    unfolding slash_block_check
    check_lem slot root hs =
        let (o, e, at) = at_slot_lem slot hs in
        let (low, f, lowest_is) = lowest_lem in (o, low, at, lowest_is, rw (e, f) refl)

    own_lowest :
        (low : Option Duty) (e0 : Duty)
        → IsLowestFrom v low
        → IsBlockOf v e0
        → (d : Duty) × (low ≡ some d)
          × IsBlockOf v d
          × ((e : Duty) → IsBlockOf v e → d.slot ≤ e.slot)
    own_lowest none e0 (nobody none_from) b0 = absurd (omega (arith, none_from v e0 b0))
    own_lowest (some d) e0 (block w b from least) b0 =
        let own : w ≡ v = elim (least v e0 b0 (omega arith)) [
          | inl h ↦ absurd (omega arith)
          | inr (h, _) ↦ h
        ] in
        (
          d,
          refl,
          subst (λ u. IsBlockOf u d) own b,
          λ e b'. elim (least v e b' (omega arith)) [
            | inl h ↦ absurd (omega arith)
            | inr (_, h) ↦ h
          ],
        )

    check_slot-value :
        (slot : ℕ) (d : Duty) (u : Unit {0}) → check_slot slot (some d) ≡ value u → d.slot < slot
    unfolding check_slot
    check_slot-value slot d u h = ground arith

    check_root-value :
        (slot : ℕ) (root : Bytes) (d : Duty) (u : Unit {0})
        → check_root slot root (some d) ≡ value u
        → root_equal d root ≡ value true
    unfolding check_root
    check_root-value slot root d u h =
        let (same, e, f) = bind-value (root_equal d root) _ u h in
        elim (Bool-cases same) [ inl t ↦ e ∙ ap value t | inr t ↦ cc (f, t) ]

    -- In a table whose duties have uint64 indices and slots, for a uint64 slot and a uint64
    -- validator that has signed a block: a check that accepts a slot and a root tells that the
    -- slot is above the lowest slot of the validator's signed blocks, and that if the validator
    -- has signed a block in that slot, it has signed one there with that root.
    pub slash_block_check_sound :
        (slot : ℕ) (root : Bytes) (e0 : Duty)
        → slot < 2 ^ 64
        → IsBlockOf v e0
        → slash_block_check p s v slot root ≡ value tt
        → ((d : Duty) × IsBlockOf v d
            × ((e : Duty) → IsBlockOf v e → d.slot ≤ e.slot)
            × (d.slot < slot))
          × ((e : Duty)
              → IsBlockOf v e
              → e.slot ≡ slot
              → (d : Duty) × IsBlockOf v d × (d.slot ≡ slot) × (root_equal d root ≡ value true))
    slash_block_check_sound slot root e0 hs b0 accepted =
        let (o, low, at, from, run) = check_lem slot root hs in
        let (u, roots, slots) = bind-value (check_root slot root o) _ tt (sym run ∙ accepted) in
        let (d, is, b, least) = own_lowest low e0 from b0 in
        (
          (d, b, least, check_slot-value slot d tt (ap (check_slot slot) (sym is) ∙ slots)),
          same_root o at u roots,
        )
      where
        same_root :
            (o : Option Duty)
            → IsAtSlot v slot o
            → (u : Unit {0}) → check_root slot root o ≡ value u
            → (e : Duty) → IsBlockOf v e
            → e.slot ≡ slot
            → (d : Duty) × IsBlockOf v d × (d.slot ≡ slot) × (root_equal d root ≡ value true)
        same_root none (nothing free) u h e b q = absurd (free e b q)
        same_root (some d) (block b' q') u h e b q = (d, b', q', check_root-value slot root d u h)

    -- In a table whose duties have uint64 indices and slots, for a uint64 slot and a uint64
    -- validator that has signed a block below the slot: if every block that the validator has
    -- signed in the slot has the root, the check accepts them.
    pub slash_block_check_complete :
        (slot : ℕ) (root : Bytes) (e0 : Duty)
        → slot < 2 ^ 64
        → IsBlockOf v e0
        → e0.slot < slot
        → ((d : Duty) → IsBlockOf v d → d.slot ≡ slot → root_equal d root ≡ value true)
        → slash_block_check p s v slot root ≡ value tt
    slash_block_check_complete slot root e0 hs b0 below same =
        let (o, low, at, from, run) = check_lem slot root hs in
        let (d, is, b, least) = own_lowest low e0 from b0 in
        run
        ∙ ap (λ m. m >>= λ _. check_slot slot low) (roots o at)
        ∙ ap (check_slot slot) is
        ∙ slots d (omega (arith, least e0 b0))
      where
        roots : (o : Option Duty) → IsAtSlot v slot o → check_root slot root o ≡ value tt
        roots none a = unfold check_root in refl
        roots (some d) (block b q) = unfold check_root in rw (same d b q) refl

        slots : (d : Duty) → d.slot < slot → check_slot slot (some d) ≡ value tt
        slots d h = unfold check_slot in ground arith

    -- In a table whose duties have uint64 indices and slots: a uint64 validator that has signed
    -- no block is refused every uint64 slot up to those of the validators with a higher index, if
    -- one of these has signed a block: the lowest slot that is found is not its own.
    pub slash_block_check-foreign :
        (slot : ℕ) (root : Bytes) (w : ℕ) (e0 : Duty)
        → slot < 2 ^ 64
        → ((d : Duty) → ¬ IsBlockOf v d)
        → IsBlockOf w e0
        → v < w
        → ((u : ℕ) (d : Duty) → IsBlockOf u d → v < u → slot ≤ d.slot)
        → slash_block_check p s v slot root ≡ error slot_too_low
    slash_block_check-foreign slot root w e0 hs none_own b0 higher later =
        let (o, low, at, from, run) = check_lem slot root hs in run ∙ refused o low at from
      where
        refused :
            (o low : Option Duty)
            → IsAtSlot v slot o
            → IsLowestFrom v low
            → (check_root slot root o >>= λ _. check_slot slot low) ≡ error slot_too_low
        refused o none at (nobody free) = absurd (omega (arith, free w e0 b0))
        refused (some d) low (block b q) from = absurd (none_own d b)
        refused none (some d) at (block u b le least) =
            let other : v < u = elim (Bool-cases (ltb v u)) [
              | inl h ↦ ltb→lt v u h
              | inr h ↦
                  absurd
                    (none_own d (subst (λ i. IsBlockOf i d) (omega (arith, ltb-false v u h)) b))
            ] in
            unfold check_root check_slot in ground (arith, later u d b other)
