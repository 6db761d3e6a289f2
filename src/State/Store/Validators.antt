-- ===== src/State/Store/Validators.antt =====
-- What the queries for validators return, for a table whose validators have uint64 metadata.
use eth2_validator.Base.{
  ℕ, ◌+◌, ◌%◌, ◌^◌, ◌<◌, ◌≤◌, ◌≡◌, ◌↔◌, ◌⊎◌, refl, sym, ap, ◌∙◌, inl, inr, false, List, [], ◌∷◌,
  ◌++◌, Option, none, some, arith, leb, subst, nat_beq, Bool-cases,
}
use eth2_validator.Base.Try.{value, IsEntryOf}
use eth2_validator.Duty.{Bytes, Validator, Metadata}
use eth2_validator.State.Index.{active_from_object, active_from_args}
use eth2_validator.State.Keys.{lt_bytes}
use eth2_validator.State.Memdb.{
  Index, IsMemdb, Holds, IsFirst, missing, found, keys_of, Indexers, IsIndexers,
}
use eth2_validator.State.Schema.{
  validators_schema, pending_index, validator_index_index, activation_epoch_index, is_set,
  bool_from_args,
}
use eth2_validator.State.Store.{
  Parts, State, get_validators_pending, get_validators_active_at, get_validator_by_index,
}

-- The key of a field of the metadata, where there are any.
abbrev field_keys : (ℕ → Bytes) → (Metadata → ℕ) → Option Metadata → List Bytes
field_keys key field none = []
field_keys key field (some m) = key (field m) ∷ []

pub keys_of-index :
    (ixs : Indexers) (v : Validator)
    → keys_of (validator_index_index ixs) v ≡ field_keys ixs.uint_key (λ m. m.index) v.metadata
unfolding keys_of active_from_object
keys_of-index ixs v = ground arith

pub keys_of-activation :
    (ixs : Indexers) (v : Validator)
    → keys_of (activation_epoch_index ixs) v
      ≡ field_keys ixs.uint_key (λ m. m.activation_epoch) v.metadata
unfolding keys_of active_from_object
keys_of-activation ixs v = ground arith

module _ (p : Parts) (L : IsMemdb p.validators_db (λ v. v.pub_key) (validators_schema p.indexers))
    (I : IsIndexers p.indexers) (s : State p) where
  abbrev pub IsKnown : Validator → Type 0
  IsKnown v = Holds p.validators_db (λ e. e.pub_key) (validators_schema p.indexers) s.validators v

  abbrev pub AreWords : Type 0
  AreWords =
      (v : Validator) (m : Metadata)
      → IsKnown v
      → v.metadata ≡ some m
      → (m.index < 2 ^ 64) × (m.activation_epoch < 2 ^ 64)

  -- The metadata are there, and satisfy `P`.
  abbrev pub Has : (Metadata → Type 0) → Validator → Type 0
  Has P v = (m : Metadata) × (v.metadata ≡ some m) × P m

  uint_key_inj :
      (a b : ℕ) → a < 2 ^ 64 → b < 2 ^ 64 → p.indexers.uint_key a ≡ p.indexers.uint_key b → a ≡ b
  uint_key_inj a b ha hb e =
      let f =
        sym (I.uint_key-order a b ha hb)
        ∙ ap (λ k. lt_bytes k (p.indexers.uint_key b)) e
        ∙ I.uint_key-order b b hb hb in
      let g =
        sym (I.uint_key-order b a hb ha)
        ∙ ap (lt_bytes (p.indexers.uint_key b)) e
        ∙ I.uint_key-order b b hb hb in
      ground (arith, f, g)

  -- GetValidatorsPending returns the validators without metadata, and no others.
  pub get_validators_pending_lem :
      (l : List Validator) × (get_validators_pending p s ≡ value l)
      × ((v : Validator) → IsEntryOf v l ↔ (IsKnown v × (v.metadata ≡ none)))
  unfolding get_validators_pending bool_from_args keys_of
  get_validators_pending_lem = (
    _,
    refl,
    λ v.
        let law =
          L.get_lem s.validators (pending_index p.indexers) (p.indexers.bool_key false) v
            (inr (inl refl)) in
        (
          λ i. let (kept, k) = law.0 i in (kept, unset v.metadata k),
          λ (kept, e). law.1 (kept, rw e (inl refl)),
        ),
  )
    where
      unset :
          (o : Option Metadata)
          → IsEntryOf (p.indexers.bool_key false) (p.indexers.bool_key (is_set o) ∷ [])
          → o ≡ none
      unset none i = refl
      unset (some m) (inl e) = absurd (I.bool_key-ne (sym e))
      unset (some m) (inr i) = absurd i

  module _ (words : AreWords) where
    entry_of :
        (field : Metadata → ℕ) (key : Bytes) (o : Option Metadata)
        → IsEntryOf key (field_keys p.indexers.uint_key field o)
        → (m : Metadata) × (o ≡ some m) × (key ≡ p.indexers.uint_key (field m))
    entry_of field key none i = absurd i
    entry_of field key (some m) (inl e) = (m, refl, e)
    entry_of field key (some m) (inr i) = absurd i

    -- For a table of uint64 metadata and a uint64 index, GetValidatorByIndex returns a validator
    -- whose metadata have the index, or nil where there is none.
    pub get_validator_by_index_lem :
        (index : ℕ)
        → index < 2 ^ 64
        → (o : Option Validator) × (get_validator_by_index p s index ≡ value o)
          × (((o ≡ none) × ((v : Validator) → IsKnown v → ¬ Has (λ m. m.index ≡ index) v))
              ⊎ ((v : Validator) × (o ≡ some v) × IsKnown v × Has (λ m. m.index ≡ index) v))
    unfolding get_validator_by_index active_from_args
    get_validator_by_index_lem index h = (
      _,
      refl,
      answer _ (
          L.first_lem s.validators (validator_index_index p.indexers) (p.indexers.uint_key index)
            (inr (inr (inl refl)))),
    )
      where
        answer :
            (o : Option Validator)
            → IsFirst p.validators_db
                (λ v. v.pub_key)
                (validators_schema p.indexers)
                s.validators
                (validator_index_index p.indexers)
                (p.indexers.uint_key index)
                o
            → ((o ≡ none) × ((v : Validator) → IsKnown v → ¬ Has (λ m. m.index ≡ index) v))
              ⊎ ((v : Validator) × (o ≡ some v) × IsKnown v × Has (λ m. m.index ≡ index) v)
        answer none (missing free) = inl (
          refl,
          λ v kept (m, e, q). free v kept (rw (keys_of-index p.indexers v, e, q) (inl refl)),
        )
        answer (some v) (found kept i) =
            let (m, e, q) =
              entry_of (λ m. m.index) _ v.metadata
                (subst (IsEntryOf (p.indexers.uint_key index)) (keys_of-index p.indexers v) i) in
            inr (v, refl, kept, (m, e, sym (uint_key_inj index m.index h (words v m kept e).0 q)))

    abbrev ix : Index Validator
    ix = activation_epoch_index p.indexers

    activated :
        (v : Validator) (key : Bytes)
        → IsEntryOf key (keys_of ix v)
        → (m : Metadata) × (v.metadata ≡ some m) × (key ≡ p.indexers.uint_key m.activation_epoch)
    activated v key i =
        entry_of (λ m. m.activation_epoch) key v.metadata
          (subst (IsEntryOf key) (keys_of-activation p.indexers v) i)

    stands_at :
        (v : Validator) (m : Metadata) (key : Bytes)
        → v.metadata ≡ some m
        → key ≡ p.indexers.uint_key m.activation_epoch
        → IsEntryOf key (keys_of ix v)
    stands_at v m key e q =
        subst (IsEntryOf key)
          (ap (field_keys p.indexers.uint_key (λ m. m.activation_epoch)) (sym e)
            ∙ sym (keys_of-activation p.indexers v))
          (inl q)

    at_zero :
        (v : Validator)
        → IsEntryOf v (p.validators_db.get s.validators ix (p.indexers.uint_key 0))
          ↔ (IsKnown v × Has (λ m. m.activation_epoch ≤ 0) v)
    at_zero v =
        let law =
          L.get_lem s.validators ix (p.indexers.uint_key 0) v (inr (inr (inr (inl refl)))) in
        (
          (λ i.
              let (kept, k) = law.0 i in
              let (m, e, q) = activated v (p.indexers.uint_key 0) k in
              let same = uint_key_inj 0 m.activation_epoch (omega arith) (words v m kept e).1 q in
              (kept, (m, e, omega arith))),
          λ (kept, (m, e, q)).
              let same : m.activation_epoch ≡ 0 = omega arith in
              law.1
                (kept, stands_at v m (p.indexers.uint_key 0) e (ap p.indexers.uint_key (sym same))),
        )

    up_to :
        (bound : ℕ) (v : Validator)
        → bound < 2 ^ 64
        → IsEntryOf v
            (p.validators_db.reverse_lower_bound s.validators ix (p.indexers.uint_key bound))
          ↔ (IsKnown v × Has (λ m. m.activation_epoch < bound) v)
    up_to bound v h =
        let law =
          L.reverse_lower_bound_lem s.validators ix (p.indexers.uint_key bound) v
            (inr (inr (inr (inl refl)))) refl in
        (
          (λ i.
              let (kept, (k, at, order)) = law.0 i in
              let (m, e, q) = activated v k at in
              let test : leb bound m.activation_epoch ≡ false =
                sym (behind m.activation_epoch kept (words v m kept e).1)
                ∙ ap (λ j. lt_bytes (p.indexers.uint_key bound) (j ++ p.validators_db.id_key v))
                    (sym q)
                ∙ order in
              (kept, (m, e, ground (arith, test)))),
          λ (kept, (m, e, q)). law.1 (
            kept,
            (
              p.indexers.uint_key m.activation_epoch,
              stands_at v m _ e refl,
              behind m.activation_epoch kept (words v m kept e).1 ∙ ground arith,
            ),
          ),
        )
      where
        behind :
            (n : ℕ)
            → IsKnown v
            → n < 2 ^ 64
            → lt_bytes
                (p.indexers.uint_key bound)
                (p.indexers.uint_key n ++ p.validators_db.id_key v)
              ≡ leb bound n
        behind n kept hn =
            I.uint_key-behind bound n (p.validators_db.id_key v) h hn
              (L.id_key-ne s.validators v kept)

    -- For a table of uint64 metadata and an epoch whose successor is a uint64,
    -- GetValidatorsActiveAt returns the validators whose activation epoch is at most the epoch, and
    -- no others: the bound of the query, one after it, stands before the entries of that epoch.
    pub get_validators_active_at_lem :
        (epoch : ℕ)
        → epoch + 1 < 2 ^ 64
        → (l : List Validator) × (get_validators_active_at p s epoch ≡ value l)
          × ((v : Validator)
              → IsEntryOf v l ↔ (IsKnown v × Has (λ m. m.activation_epoch ≤ epoch) v))
    unfolding get_validators_active_at active_from_args
    get_validators_active_at_lem epoch h = (
      _,
      refl,
      λ v. elim (Bool-cases (nat_beq epoch 0)) [
        | inl e ↦
            let none_before : epoch ≡ 0 = ground arith in
            rw e (
              subst
                (λ n.
                  IsEntryOf v (p.validators_db.get s.validators ix (p.indexers.uint_key 0))
                  ↔ (IsKnown v × Has (λ m. m.activation_epoch ≤ n) v))
                (sym none_before) (at_zero v))
        | inr e ↦
            let wrap : (epoch + 1) % 2 ^ 64 ≡ epoch + 1 = omega arith in
            let found = up_to (epoch + 1) v h in
            rw (e, wrap)
              (
                (λ i. let (kept, (m, f, q)) = found.0 i in (kept, (m, f, omega arith))),
                λ (kept, (m, f, q)). found.1 (kept, (m, f, omega arith)),
              )
      ],
    )
