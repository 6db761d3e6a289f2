-- ===== src/State/Slash/Votes.antt =====
-- The entries of the index of attestations: each vote stands under its source and under its target.
use eth2_validator.Base.{
  ℕ, ◌^◌, ◌<◌, ◌≡◌, refl, sym, ap, ◌∙◌, inl, inr, Bool, true, false, List, [], ◌∷◌, ◌++◌, String,
  Option, none, some, arith, ltb, if◌then◌else◌, subst, string_eq,
}
use mathlib.Core.List.{append-nil, append_assoc}
use eth2_validator.Base.Try.{value, IsEntryOf}
use eth2_validator.Duty.{
  Bytes, Duty, Job, block_proposal, attestation, attestation_aggregate, sync_committee,
  sync_committee_aggregate, Attestation, Result, AttestationResult,
}
use eth2_validator.State.Index.{
  ascii, write_uint64, write_string, big_endian, checkpoint_key, attest_from_object,
}
use eth2_validator.State.Keys.{lt_bytes, big_endian_order}
use eth2_validator.State.Memdb.{Indexers, keys_of}
use eth2_validator.State.Schema.{attest_proposer_index}
use eth2_validator.State.Slash.{deref, checkpoint_epoch}

pub data Side : Type 0 where
  source target : Side

abbrev pub side_name : Side → String
side_name source = "source"
side_name target = "target"

abbrev pub epoch_at : Side → AttestationResult → ℕ
epoch_at source a = a.source.epoch
epoch_at target a = a.target.epoch

unfoldable pub side_prefix : ℕ → Side → Bytes
side_prefix v a = write_string (write_uint64 [] v) (side_name a)

unfoldable pub vote_key : ℕ → Side → ℕ → Bytes
vote_key v a e = write_uint64 (side_prefix v a) e

-- Whether an entry comes before one of the same validator, `rest` telling it where the sides agree.
abbrev pub side_before : Side → Side → Bool → Bool
side_before source source rest = rest
side_before source target rest = true
side_before target source rest = false
side_before target target rest = rest

side_order :
    (a b : Side) (s t : Bytes)
    → lt_bytes ((ascii (side_name a) ++ 0 ∷ []) ++ s) ((ascii (side_name b) ++ 0 ∷ []) ++ t)
      ≡ side_before a b (lt_bytes s t)
unfolding ascii lt_bytes
side_order source source s t = refl
side_order source target s t = refl
side_order target source s t = refl
side_order target target s t = refl

side_prefix-split :
    (v : ℕ) (a : Side) → side_prefix v a ≡ big_endian 8 v ++ (ascii (side_name a) ++ 0 ∷ [])
unfolding side_prefix write_string write_uint64
side_prefix-split v a = append_assoc (big_endian 8 v) (ascii (side_name a)) (0 ∷ [])

key_order :
    (v w : ℕ) (a b : Side) (s t : Bytes)
    → v < 2 ^ 64
    → w < 2 ^ 64
    → lt_bytes (side_prefix v a ++ s) (side_prefix w b ++ t)
      ≡ (if ltb v w then true else if ltb w v then false else side_before a b (lt_bytes s t))
key_order v w a b s t hv hw =
    rw
      (
        side_prefix-split v a,
        side_prefix-split w b,
        append_assoc (big_endian 8 v) (ascii (side_name a) ++ 0 ∷ []) s,
        append_assoc (big_endian 8 w) (ascii (side_name b) ++ 0 ∷ []) t,
        big_endian_order 8 v w ((ascii (side_name a) ++ 0 ∷ []) ++ s)
            ((ascii (side_name b) ++ 0 ∷ []) ++ t) hv hw,
        side_order a b s t,
      )
      refl

-- The keys sort by the validator, then by the side, then by the epoch.
pub vote_key-order :
    (v w : ℕ) (a b : Side) (e f : ℕ)
    → v < 2 ^ 64
    → w < 2 ^ 64
    → e < 2 ^ 64
    → f < 2 ^ 64
    → lt_bytes (vote_key v a e) (vote_key w b f)
      ≡ (if ltb v w then true else if ltb w v then false else side_before a b (ltb e f))
unfolding vote_key write_uint64
vote_key-order v w a b e f hv hw he hf =
    key_order v w a b (big_endian 8 e) (big_endian 8 f) hv hw ∙ rw epochs refl
  where
    epochs : lt_bytes (big_endian 8 e) (big_endian 8 f) ≡ ltb e f
    epochs =
        ap (λ x. lt_bytes x (big_endian 8 f)) (sym (append-nil (big_endian 8 e)))
        ∙ ap (lt_bytes (big_endian 8 e ++ [])) (sym (append-nil (big_endian 8 f)))
        ∙ big_endian_order 8 e f [] [] he hf
        ∙ (unfold lt_bytes in ground arith)

never_below : (b : Bytes) → lt_bytes b [] ≡ false
unfolding lt_bytes
never_below [] = refl
never_below (x ∷ b) = refl

-- And so against the prefix of a validator and a side.
pub vote_key-prefix :
    (v w : ℕ) (a b : Side) (e : ℕ)
    → v < 2 ^ 64
    → w < 2 ^ 64
    → lt_bytes (vote_key v a e) (side_prefix w b)
      ≡ (if ltb v w then true else if ltb w v then false else side_before a b false)
unfolding vote_key write_uint64
vote_key-prefix v w a b e hv hw =
    ap (lt_bytes (side_prefix v a ++ big_endian 8 e)) (sym (append-nil (side_prefix w b)))
    ∙ key_order v w a b (big_endian 8 e) [] hv hw
    ∙ rw (never_below (big_endian 8 e)) refl

-- A vote that the validator has signed.
pub record IsVote (v : ℕ) (d : Duty) : Type 0 where
  pub job : Attestation
  pub attests : d.job ≡ some (attestation job)
  pub result : Result
  pub signed : d.result ≡ some result
  pub vote : AttestationResult
  pub voted : result.attestation ≡ some vote
  pub of : d.validator_index ≡ v

pub checkpoint_epoch-IsVote :
    (v : ℕ) (d : Duty) (b : IsVote v d) (a : Side)
    → checkpoint_epoch (side_name a) d ≡ value (epoch_at a b.vote)
unfolding checkpoint_epoch deref
checkpoint_epoch-IsVote v d b source = rw (checkpoint_epoch, b.signed, b.voted) refl
checkpoint_epoch-IsVote v d b target = rw (checkpoint_epoch, b.signed, b.voted) refl

module _ (ixs : Indexers) where
  abbrev keys_at : Option AttestationResult → ℕ → List Bytes
  keys_at none v = []
  keys_at (some a) v = vote_key v source a.source.epoch ∷ vote_key v target a.target.epoch ∷ []

  -- The keys by the job and the result of the duty.
  abbrev vote_keys : Option Job → Option Result → ℕ → List Bytes
  vote_keys (some (attestation a)) (some r) v = keys_at r.attestation v
  vote_keys (some (attestation a)) none v = []
  vote_keys (some block_proposal) r v = []
  vote_keys (some (attestation_aggregate a)) r v = []
  vote_keys (some sync_committee) r v = []
  vote_keys (some (sync_committee_aggregate a)) r v = []
  vote_keys none r v = []

  keys_of-vote :
      (d : Duty)
      → keys_of (attest_proposer_index ixs) d ≡ vote_keys d.job d.result d.validator_index
  unfolding keys_of attest_from_object vote_key side_prefix checkpoint_key
  keys_of-vote d = ground arith

  -- An entry is that of a vote at one of its sides.
  abbrev IsEntry : Duty → Bytes → Type 0
  IsEntry d key =
      (b : IsVote d.validator_index d) × (a : Side) × (key
        ≡ vote_key d.validator_index a (epoch_at a b.vote))

  keyed :
      (d : Duty) (j : Option Job) (r : Option Result) (key : Bytes)
      → d.job ≡ j
      → d.result ≡ r
      → IsEntryOf key (vote_keys j r d.validator_index)
      → IsEntry d key
  keyed d (some (attestation a)) (some r) key e f i = of r.attestation refl i
    where
      of :
          (o : Option AttestationResult)
          → r.attestation ≡ o
          → IsEntryOf key (keys_at o d.validator_index)
          → IsEntry d key
      of none g i = absurd i
      of (some vote) g i =
          let b : IsVote d.validator_index d = record {
            job = a;
            attests = e;
            result = r;
            signed = f;
            vote = vote;
            voted = g;
            of = refl;
          } in
          elim i [ inl q ↦ (b, source, q) | inr (inl q) ↦ (b, target, q) | inr (inr j) ↦ absurd j ]
  keyed d (some (attestation a)) none key e f i = absurd i
  keyed d (some block_proposal) r key e f i = absurd i
  keyed d (some (attestation_aggregate a)) r key e f i = absurd i
  keyed d (some sync_committee) r key e f i = absurd i
  keyed d (some (sync_committee_aggregate a)) r key e f i = absurd i
  keyed d none r key e f i = absurd i

  pub keys_of-IsEntry :
      (d : Duty) (key : Bytes)
      → IsEntryOf key (keys_of (attest_proposer_index ixs) d)
      → IsEntry d key
  keys_of-IsEntry d key i =
      keyed d d.job d.result key refl refl (subst (IsEntryOf key) (keys_of-vote d) i)

  -- And every vote has both of its entries.
  pub IsVote-keys_of :
      (d : Duty) (v : ℕ) (b : IsVote v d) (a : Side)
      → IsEntryOf (vote_key v a (epoch_at a b.vote)) (keys_of (attest_proposer_index ixs) d)
  IsVote-keys_of d v b a =
      subst (IsEntryOf (vote_key v a (epoch_at a b.vote)))
        (ap (λ w. keys_at (some b.vote) w) (sym b.of)
          ∙ ap (λ o. keys_at o d.validator_index) (sym b.voted)
          ∙ ap (λ r. vote_keys (some (attestation b.job)) r d.validator_index) (sym b.signed)
          ∙ ap (λ j. vote_keys j d.result d.validator_index) (sym b.attests)
          ∙ sym (keys_of-vote d))
        (at_side a)
    where
      at_side : (a : Side) → IsEntryOf (vote_key v a (epoch_at a b.vote)) (keys_at (some b.vote) v)
      at_side source = inl refl
      at_side target = inr (inl refl)
