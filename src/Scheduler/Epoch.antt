-- ===== src/Scheduler/Epoch.antt =====
-- HandleEpoch of internal/scheduler/scheduler.go: what is asked of the beacon node, and the plan of
-- what it answers. The calls of the node and of the state are the record Client.
use eth2_validator.Base.{
  ℕ, ◌≡◌, refl, String, List, [], ◌∷◌, map, Option, none, some, nat_eq, ◌⊎◌, inl, inr, Option-cases,
  key_cases, arith, sym, ◌≢◌, ◌∙◌, ap, false, ◌==◌, beq_self,
}
use eth2_validator.Base.Try.{
  Try, value, error, crash, ◌>>=◌, OnValue, OnValue-step, OnValue-map, All, IsEntryOf,
}
use eth2_validator.GoMap
use eth2_validator.GoMap.{Map}
use eth2_validator.DelayHeap.Nodes.{Time}
use eth2_validator.Duty.{Duty, Validator}
use eth2_validator.Scheduler.{process}
use eth2_validator.Scheduler.Input.{
  Spec, Env, Error, Evaluation, AttesterDuty, ProposerDuty, CommitteeSyncDuty,
}
use eth2_validator.Scheduler.Plan.{IsPlanned, process-IsPlanned}

pub record Client : Type 0 where
  pub validators_active_at : ℕ → Try Error (List Validator)
  pub genesis : Time
  pub attester_duties : ℕ → List String → Try Error (List AttesterDuty)
  pub proposer_duties : ℕ → Try Error (List ProposerDuty)
  pub committee_sync_duties : ℕ → List String → Try Error (List CommitteeSyncDuty)
  -- fmt.Sprintf("%d", n)
  pub decimal : ℕ → String

-- The indices of the validators; one without metadata is a nil pointer that is read.
unfoldable pub indices : List Validator → Try Error (List ℕ)
indices [] = value []
indices (v ∷ l) = elim v.metadata [
  | none ↦ crash
  | some m ↦ indices l >>= λ rest. value (m.index ∷ rest)
]

-- The set of the indices.
unfoldable pub by_index : List ℕ → Map ℕ (Unit {0}) → Map ℕ (Unit {0})
by_index [] m = m
by_index (i ∷ l) m = by_index l (GoMap.insert i tt m)

-- The proposals of the validators in the set.
unfoldable pub own_proposals : Map ℕ (Unit {0}) → List ProposerDuty → List ProposerDuty
own_proposals m [] = []
own_proposals m (p ∷ l) =
    let rest = own_proposals m l in
    elim (GoMap.lookup p.validator_index m) [ some _ ↦ p ∷ rest | none ↦ rest ]

module _ (env : Env) (config : Spec) (client : Client) where
  unfoldable pub handle_epoch : ℕ → Time → ℕ → Try Error (List Duty × ℕ)
  handle_epoch epoch now n = do
    validators ← client.validators_active_at epoch
    active ← indices validators
    let names = map client.decimal active
    attesters ← client.attester_duties epoch names
    proposers ← client.proposer_duties epoch
    committees ← client.committee_sync_duties epoch names
    process env config
        (record {
          epoch = epoch;
          attestation = attesters;
          proposer = own_proposals (by_index active []) proposers;
          committee = committees;
          genesis_time = client.genesis;
        })
        now n

by_index-In :
    (k : ℕ) (l : List ℕ) (m : Map ℕ (Unit {0}))
    → GoMap.lookup k (by_index l m) ≡ some tt
    → IsEntryOf k l ⊎ (GoMap.lookup k m ≡ some tt)
unfolding by_index
by_index-In k [] m e = inr e
by_index-In k (i ∷ l) m e = elim (by_index-In k l (GoMap.insert i tt m) e) [
  | inl p ↦ inl (inr p)
  | inr p ↦ elim (key_cases i k) [
    | inl same ↦ inl (inl (sym same))
    | inr (_, other) ↦ inr (rw (GoMap.lookup-insert, other) at p)
  ]
]

by_index-has :
    (k : ℕ) (l : List ℕ) (m : Map ℕ (Unit {0}))
    → IsEntryOf k l ⊎ (GoMap.lookup k m ≡ some tt)
    → GoMap.lookup k (by_index l m) ≡ some tt
unfolding by_index
by_index-has k [] m (inl i) = absurd i
by_index-has k [] m (inr e) = e
by_index-has k (i ∷ l) m h = elim (key_cases i k) [
  | inl same ↦
      by_index-has k l (GoMap.insert i tt m) (inr (rw (GoMap.lookup-insert, same, beq_self k) refl))
  | inr (apart, other) ↦ by_index-has k l (GoMap.insert i tt m) (kept apart other h)
]
  where
    kept :
        i ≢ k
        → (i == k) ≡ false
        → IsEntryOf k (i ∷ l) ⊎ (GoMap.lookup k m ≡ some tt)
        → IsEntryOf k l ⊎ (GoMap.lookup k (GoMap.insert i tt m) ≡ some tt)
    kept apart other (inl (inl e)) = absurd (apart (sym e))
    kept apart other (inl (inr e)) = inl e
    kept apart other (inr e) = inr (rw (GoMap.lookup-insert, other) e)

-- The proposer is one of the validators.
abbrev pub IsOwn : List ℕ → ProposerDuty → Type 0
IsOwn active p = IsEntryOf p.validator_index active

own :
    (k : ℕ) (active : List ℕ)
    → IsEntryOf k active ⊎ ◌≡◌ {A = Option (Unit {0})} (GoMap.lookup k []) (some tt)
    → IsEntryOf k active
unfolding GoMap.lookup
own k active (inl i) = i
own k active (inr e) = absurd (ground (arith, e))

own_proposals-IsOwn :
    (active : List ℕ) (l : List ProposerDuty)
    → All (IsOwn active) (own_proposals (by_index active []) l)
unfolding own_proposals
own_proposals-IsOwn active [] = tt
own_proposals-IsOwn active (p ∷ l) =
    elim (Option-cases (GoMap.lookup p.validator_index (by_index active []))) [
      | inl e ↦
          let q : own_proposals (by_index active []) (p ∷ l)
              ≡ own_proposals (by_index active []) l =
            rw (own_proposals, e) refl in
          rw q (own_proposals-IsOwn active l)
      | inr (_, e) ↦
          let q : own_proposals (by_index active []) (p ∷ l)
              ≡ p ∷ own_proposals (by_index active []) l =
            rw (own_proposals, e) refl in
          rw q (
            own p.validator_index active (by_index-In p.validator_index active [] e),
            own_proposals-IsOwn active l,
          )
    ]

own_proposals-all :
    (active : List ℕ) (l : List ProposerDuty) (p : ProposerDuty)
    → IsEntryOf p l
    → IsOwn active p
    → IsEntryOf p (own_proposals (by_index active []) l)
unfolding own_proposals
own_proposals-all active [] p i o = absurd i
own_proposals-all active (x ∷ l) p i o =
    elim (Option-cases (GoMap.lookup x.validator_index (by_index active []))) [
      | inl e ↦
          rw (own_proposals, e)
            (elim i [
              | inl same ↦
                  let found = by_index-has p.validator_index active [] (inl o) in
                  absurd (
                    apart (
                      sym found
                      ∙ ap (λ y. GoMap.lookup y.validator_index (by_index active [])) same
                      ∙ e))
              | inr behind ↦ own_proposals-all active l p behind o
            ])
      | inr (_, e) ↦
          rw (own_proposals, e)
            (elim i [
              | inl same ↦ inl same
              | inr behind ↦ inr (own_proposals-all active l p behind o)
            ])
    ]
  where
    apart : ◌≢◌ {A = Option (Unit {0})} (some tt) none
    apart q = cc q

with_run :
    (P : List Duty × ℕ → Type 0) (m : Try Error (List Duty × ℕ))
    → OnValue P m
    → OnValue (λ x. (m ≡ value x) × P x) m
with_run P (value x) h = (refl, h)
with_run P (error e) h = tt
with_run P crash h = tt

module _ (env : Env) (config : Spec) (client : Client) (epoch : ℕ) (now : Time) where
  -- The plan is one of an evaluation of the epoch, of the duties that the beacon node reports.
  pub record IsEpochPlan (duties : List Duty) : Type 0 where
    pub eval : Evaluation
    pub active : List Validator
    pub names : List ℕ
    pub of_epoch : eval.epoch ≡ epoch
    pub since : eval.genesis_time ≡ client.genesis
    pub active_then : client.validators_active_at epoch ≡ value active
    pub named : indices active ≡ value names
    pub attesters : client.attester_duties epoch (map client.decimal names) ≡ value eval.attestation
    pub synced :
        client.committee_sync_duties epoch (map client.decimal names) ≡ value eval.committee
    pub proposers : List ProposerDuty
    pub reported : client.proposer_duties epoch ≡ value proposers
    pub own_only : All (IsOwn names) eval.proposer
    pub own_all :
        (p : ProposerDuty) → IsEntryOf p proposers → IsOwn names p → IsEntryOf p eval.proposer
    pub processed : (n m : ℕ) × (process env config eval now n ≡ value (duties, m))
    pub planned : All (IsPlanned env config eval now) duties

  pub handle_epoch-IsEpochPlan :
      (n : ℕ)
      → OnValue (λ (duties, _). IsEpochPlan duties) (handle_epoch env config client epoch now n)
  unfolding handle_epoch
  handle_epoch-IsEpochPlan n =
      let Plan : List Duty × ℕ → Type 0 = λ (duties, _). IsEpochPlan duties in
      OnValue-step Plan (client.validators_active_at epoch) _ λ active e.
        OnValue-step Plan (indices active) _ λ names f.
          OnValue-step Plan (client.attester_duties epoch (map client.decimal names)) _
            λ attesters g. OnValue-step Plan (client.proposer_duties epoch) _ λ proposers k.
              OnValue-step Plan (client.committee_sync_duties epoch (map client.decimal names)) _
                λ committees h.
                  let eval : Evaluation = record {
                    epoch = epoch;
                    attestation = attesters;
                    proposer = own_proposals (by_index names []) proposers;
                    committee = committees;
                    genesis_time = client.genesis;
                  } in
                  let Kept : List Duty × ℕ → Type 0 =
                    λ (duties, _). All (IsPlanned env config eval now) duties in
                  OnValue-map (λ x. (process env config eval now n ≡ value x) × Kept x) Plan
                    (process env config eval now n)
                    (with_run Kept _ (process-IsPlanned env config eval now n))
                    λ (duties, m) (run, planned). record {
                      eval = eval;
                      active = active;
                      names = names;
                      of_epoch = refl;
                      since = refl;
                      active_then = e;
                      named = f;
                      attesters = g;
                      synced = h;
                      proposers = proposers;
                      reported = k;
                      own_all = own_proposals-all names proposers;
                      processed = (n, m, run);
                      own_only = own_proposals-IsOwn names proposers;
                      planned = planned;
                    }
