-- ===== src/State/Slash/Attests.antt =====
-- What SlashAttestCheck says, for a table whose votes have uint64 indices and epochs.
use eth2_validator.Base.{
  ℕ, ◌^◌, ◌<◌, ◌≤◌, ◌≡◌, refl, sym, ap, ◌∙◌, inl, inr, Bool, true, false, Option, none, some, arith,
  ltb, leb, if◌then◌else◌, subst,
}
use eth2_validator.Base.Try.{Try, value, error, ◌>>=◌}
use eth2_validator.Duty.{Duty}
use eth2_validator.State.Index.{attest_prefix_from_args}
use eth2_validator.State.Keys.{lt_bytes}
use eth2_validator.State.Memdb.{Index, IsMemdb, Holds, IsLowest, above_all, lowest}
use eth2_validator.State.Schema.{attest_proposer_index, duties_schema}
use eth2_validator.State.Store.{Parts, State}
use eth2_validator.State.Slash.{
  SlashError, source_too_low, target_too_low, check_source, check_target, lowest_signed_epoch,
  slash_attest_check,
}
use eth2_validator.State.Slash.Votes.{
  Side, source, target, side_name, epoch_at, side_prefix, vote_key, side_before, vote_key-order,
  vote_key-prefix, IsVote, checkpoint_epoch-IsVote, keys_of-IsEntry, IsVote-keys_of,
}

module _ (p : Parts) (L : IsMemdb p.duties_db (λ d. d.id) (duties_schema p.indexers))
    (s : State p) where
  -- A vote of the validator that the table holds as signed.
  pub record IsVoteOf (v : ℕ) (d : Duty) : Type 0 where
    pub kept : Holds p.duties_db (λ e. e.id) (duties_schema p.indexers) s.duties d
    pub is : IsVote v d

  abbrev pub epoch_of : {v : ℕ} {d : Duty} → Side → IsVoteOf v d → ℕ
  epoch_of a b = epoch_at a (b.is).vote

  abbrev pub AreWords : Type 0
  AreWords =
      (v : ℕ) (d : Duty) (b : IsVoteOf v d) → (v < 2 ^ 64) × ((a : Side) → epoch_of a b < 2 ^ 64)

  -- The vote has the least epoch at the side, of those of the validator.
  pub record IsLeastVote (v : ℕ) (a : Side) (d : Duty) : Type 0 where
    pub own : IsVoteOf v d
    pub least : (e : Duty) (b : IsVoteOf v e) → epoch_of a own ≤ epoch_of a b

  abbrev ix : Index Duty
  ix = attest_proposer_index p.indexers

  module _ (words : AreWords) (v : ℕ) where
    -- Between the prefix of the validator and one of its votes there are only its votes at the side.
    between :
        (w e f : ℕ) (a c : Side)
        → (if ltb w v then true else if ltb v w then false else side_before c a false) ≡ false
        → (if ltb v w then true else if ltb w v then false else side_before a c (ltb f e)) ≡ false
        → (w ≡ v) × (c ≡ a) × (e ≤ f)
    between w e f source source h g = (ground arith, refl, ground arith)
    between w e f target target h g = (ground arith, refl, ground arith)
    between w e f source target h g = absurd (ground arith)
    between w e f target source h g = absurd (ground arith)

    own_above :
        (a : Side)
        → (if ltb v v then true else if ltb v v then false else side_before a a false) ≡ false
    own_above source = ground arith
    own_above target = ground arith

    lower-IsLeastVote :
        (a : Side) (e0 : Duty) (o : Option Duty)
        → IsVoteOf v e0
        → IsLowest p.duties_db
            (λ e. e.id)
            (duties_schema p.indexers)
            s.duties
            ix
            (side_prefix v a)
            o
        → (d : Duty) × (o ≡ some d) × IsLeastVote v a d
    lower-IsLeastVote a e0 none b0 (above_all all) =
        let hv = (words v e0 b0).0 in
        let below = all e0 _ b0.kept (IsVote-keys_of p.indexers e0 v b0.is a) in
        absurd (apart (sym (vote_key-prefix v v a a (epoch_of a b0) hv hv ∙ own_above a) ∙ below))
      where
        apart : ◌≡◌ {A = Bool} false true → ⊥
        apart e = cc e
    lower-IsLeastVote a e0 (some d) b0 (lowest k kept i above first) =
        let (b, c, same) = keys_of-IsEntry p.indexers d k i in
        let w : ℕ = d.validator_index in
        let hv = (words v e0 b0).0 in
        let (hw, hb) = words w d (record { kept = kept; is = b }) in
        let near : (y : Duty) (z : IsVoteOf v y)
            → (w ≡ v) × (c ≡ a) × (epoch_at c b.vote ≤ epoch_of a z) =
          λ y z.
            between w (epoch_at c b.vote) (epoch_of a z) a c
              (sym (vote_key-prefix w v c a (epoch_at c b.vote) hw hv)
                ∙ ap (λ x. lt_bytes x (side_prefix v a)) (sym same)
                ∙ above)
              (sym (
                  vote_key-order v w a c (epoch_of a z) (epoch_at c b.vote) hv hw
                    ((words v y z).1 a) (hb c))
                ∙ ap (lt_bytes (vote_key v a (epoch_of a z))) (sym same)
                ∙ first y (vote_key v a (epoch_of a z)) z.kept
                    (IsVote-keys_of p.indexers y v z.is a)
                    (vote_key-prefix v v a a (epoch_of a z) hv hv ∙ own_above a)) in
        let (at, side, _) = near e0 b0 in
        (
          d,
          refl,
          record {
            own = record {
              kept = kept;
              is = record {
                job = b.job;
                attests = b.attests;
                result = b.result;
                signed = b.signed;
                vote = b.vote;
                voted = b.voted;
                of = at;
              };
            };
            least = λ y z. subst (λ x. epoch_at x b.vote ≤ epoch_of a z) side (near y z).2;
          },
        )

    lowest_signed_epoch_lem :
        (a : Side)
        → lowest_signed_epoch p s v (side_name a)
          ≡ value (p.duties_db.lower_bound s.duties ix (side_prefix v a))
    unfolding lowest_signed_epoch attest_prefix_from_args side_prefix
    lowest_signed_epoch_lem source = refl
    lowest_signed_epoch_lem target = refl

    lowest_signed_epoch-IsLeastVote :
        (a : Side) (e0 : Duty)
        → IsVoteOf v e0
        → (d : Duty) × (lowest_signed_epoch p s v (side_name a) ≡ value (some d))
          × IsLeastVote v a d
    lowest_signed_epoch-IsLeastVote a e0 b0 =
        let (d, e, low) =
          lower-IsLeastVote a e0 _ b0
            (L.lower_bound_lem s.duties ix (side_prefix v a) (inr (inr (inr (inl refl))))) in
        (d, lowest_signed_epoch_lem a ∙ ap value e, low)

    -- In a table whose votes have uint64 indices and epochs, where the validator has signed a
    -- vote: the check of a source and a target epoch refuses a source below the least source of
    -- the validator's votes, then a target that is not above the least target of them, and
    -- accepts all else.
    pub slash_attest_check_correct :
        (source_epoch target_epoch : ℕ) (e0 : Duty)
        → IsVoteOf v e0
        → (d e : Duty) × (low : IsLeastVote v source d) × (bottom : IsLeastVote v target e)
          × (slash_attest_check p s v source_epoch target_epoch ≡ (
              if ltb source_epoch (epoch_of source low.own)
              then error source_too_low
              else if leb target_epoch (epoch_of target bottom.own)
              then error target_too_low
              else value tt))
    unfolding slash_attest_check check_source check_target
    slash_attest_check_correct source_epoch target_epoch e0 b0 =
        let (d, f, low) = lowest_signed_epoch-IsLeastVote source e0 b0 in
        let (e, g, bottom) = lowest_signed_epoch-IsLeastVote target e0 b0 in
        (
          d,
          e,
          low,
          bottom,
          rw
              (
                slash_attest_check,
                f,
                g,
                check_source,
                check_target,
                checkpoint_epoch-IsVote v d low.own.is source,
                checkpoint_epoch-IsVote v e bottom.own.is target,
              )
              (refused_or (ltb source_epoch (epoch_of source low.own)) source_too_low _),
        )
      where
        refused_or :
            (b : Bool) (x : SlashError) (m : Try SlashError (Unit {0}))
            → (◌>>=◌ {0, 0} (if b then error x else value tt) (λ (u : Unit {0}). m))
              ≡ (if b then error x else m)
        refused_or true x m = refl
        refused_or false x m = refl
