-- ===== src/State/Slash/Entries.antt =====
-- The entries of the index of block proposals: which duties it holds, and in which order.
use eth2_validator.Base.{
  ℕ, ◌^◌, ◌<◌, ◌≡◌, refl, sym, ap, ◌∙◌, inl, inr, true, false, List, [], ◌∷◌, Option, none, some,
  arith, ltb, if◌then◌else◌, subst,
}
use mathlib.Core.List.{append-nil}
use eth2_validator.Base.Try.{IsEntryOf}
use eth2_validator.Duty.{
  Bytes, Duty, Job, block_proposal, attestation, attestation_aggregate, sync_committee,
  sync_committee_aggregate, Result,
}
use eth2_validator.State.Index.{write_uint64, big_endian, block_from_object, block_from_args}
use eth2_validator.State.Keys.{lt_bytes, big_endian_order, block_key-order}
use eth2_validator.State.Memdb.{Indexers, keys_of}
use eth2_validator.State.Schema.{block_proposer_index}

unfoldable pub block_key : ℕ → ℕ → Bytes
block_key v slot = write_uint64 (write_uint64 [] v) slot

-- A block that the validator has signed in the slot.
pub record IsSignedBlock (v : ℕ) (d : Duty) : Type 0 where
  pub proposal : d.job ≡ some block_proposal
  pub result : Result
  pub signed : d.result ≡ some result
  pub of : d.validator_index ≡ v

module _ (ixs : Indexers) where
  -- The keys by the job and the result of the duty.
  abbrev block_keys : Option Job → Option Result → ℕ → ℕ → List Bytes
  block_keys (some block_proposal) (some r) v slot = block_key v slot ∷ []
  block_keys (some block_proposal) none v slot = []
  block_keys (some (attestation a)) r v slot = []
  block_keys (some (attestation_aggregate a)) r v slot = []
  block_keys (some sync_committee) r v slot = []
  block_keys (some (sync_committee_aggregate a)) r v slot = []
  block_keys none r v slot = []

  keys_of-block :
      (d : Duty)
      → keys_of (block_proposer_index ixs) d ≡ block_keys d.job d.result d.validator_index d.slot
  unfolding keys_of block_from_object block_key
  keys_of-block d = ground arith

  keyed :
      (d : Duty) (j : Option Job) (r : Option Result) (key : Bytes)
      → d.job ≡ j
      → d.result ≡ r
      → IsEntryOf key (block_keys j r d.validator_index d.slot)
      → IsSignedBlock d.validator_index d × (key ≡ block_key d.validator_index d.slot)
  keyed d (some block_proposal) (some r) key e f (inl p) =
      (record { proposal = e; result = r; signed = f; of = refl }, p)
  keyed d (some block_proposal) (some r) key e f (inr i) = absurd i
  keyed d (some block_proposal) none key e f i = absurd i
  keyed d (some (attestation a)) r key e f i = absurd i
  keyed d (some (attestation_aggregate a)) r key e f i = absurd i
  keyed d (some sync_committee) r key e f i = absurd i
  keyed d (some (sync_committee_aggregate a)) r key e f i = absurd i
  keyed d none r key e f i = absurd i

  -- A duty stands in the index under a key only if it is a signed block, and the key is its own.
  pub keys_of-IsSignedBlock :
      (d : Duty) (key : Bytes)
      → IsEntryOf key (keys_of (block_proposer_index ixs) d)
      → IsSignedBlock d.validator_index d × (key ≡ block_key d.validator_index d.slot)
  keys_of-IsSignedBlock d key i =
      keyed d d.job d.result key refl refl (subst (IsEntryOf key) (keys_of-block d) i)

  -- And every signed block stands there.
  pub IsSignedBlock-keys_of :
      (d : Duty) (v : ℕ)
      → IsSignedBlock v d
      → IsEntryOf (block_key v d.slot) (keys_of (block_proposer_index ixs) d)
  IsSignedBlock-keys_of d v b =
      subst (IsEntryOf (block_key v d.slot))
        (ap (λ w. block_keys (some block_proposal) (some b.result) w d.slot) (sym b.of)
          ∙ ap (λ r. block_keys (some block_proposal) r d.validator_index d.slot) (sym b.signed)
          ∙ ap (λ j. block_keys j d.result d.validator_index d.slot) (sym b.proposal)
          ∙ sym (keys_of-block d))
        (inl refl)

never_below : (b : Bytes) → lt_bytes b [] ≡ false
unfolding lt_bytes
never_below [] = refl
never_below (x ∷ b) = refl

-- The keys of a validator are not below the prefix of a validator, if it is not before that one.
pub block_key-prefix :
    (v w t : ℕ) → v < 2 ^ 64 → w < 2 ^ 64 → lt_bytes (block_key w t) (write_uint64 [] v) ≡ ltb w v
unfolding block_key write_uint64
block_key-prefix v w t hv hw =
    rw
      (
        sym (append-nil (big_endian 8 v)),
        big_endian_order 8 w v (big_endian 8 t) [] hw hv,
        never_below (big_endian 8 t),
      )
      (ground arith)

pub block_key-lt :
    (v w s t : ℕ)
    → v < 2 ^ 64
    → w < 2 ^ 64
    → s < 2 ^ 64
    → t < 2 ^ 64
    → lt_bytes (block_key v s) (block_key w t)
      ≡ (if ltb v w then true else if ltb w v then false else ltb s t)
unfolding block_key
block_key-lt v w s t hv hw hs ht =
    block_key-order v w s t (block_key v s) (block_key w t) hv hw hs ht
      (unfold block_from_args in refl) (unfold block_from_args in refl)

pub block_key_inj :
    (v w s t : ℕ)
    → v < 2 ^ 64
    → w < 2 ^ 64
    → s < 2 ^ 64
    → t < 2 ^ 64
    → block_key v s ≡ block_key w t
    → (v ≡ w) × (s ≡ t)
block_key_inj v w s t hv hw hs ht e =
    let p =
      sym (block_key-lt v w s t hv hw hs ht)
      ∙ ap (λ k. lt_bytes k (block_key w t)) e
      ∙ block_key-lt w w t t hw hw ht ht in
    let q =
      sym (block_key-lt w v t s hw hv ht hs)
      ∙ ap (λ k. lt_bytes (block_key w t) k) e
      ∙ block_key-lt w w t t hw hw ht ht in
    ground (arith, p, q)
