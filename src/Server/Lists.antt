-- ===== src/Server/Lists.antt =====
-- What is in the lists that the server reads out of the table of duties.
use eth2_validator.Base.{
  ◌≡◌, ◌≢◌, refl, true, List, [], ◌∷◌, some, ℤ, ok, Returns, returns, Returns-bind, Returns-map,
  ◌↔◌, inl, inr, Bool-cases, sym, ap, ◌>>=◌, ◌∙◌,
}
use eth2_validator.Base.Try.{IsEntryOf}
use eth2_validator.Duty.{
  HaveJobs, Duty, Job, block_proposal, attestation, attestation_aggregate, sync_committee,
  sync_committee_aggregate, Attestation,
}
use eth2_validator.Server.{
  asks_for, list_duties, BeaconCommitteeSubscription, beacon_subscription, beacon_subscriptions,
}

module _ (id : ℤ) where
  kept :
      (d : Duty) (l : List Duty)
      → IsEntryOf d l
      → asks_for id d ≡ true
      → IsEntryOf d (list_duties id l)
  unfolding list_duties
  kept d [] i h = absurd i
  kept d (e ∷ l) (inl p) h = rw (ap (asks_for id) (sym p) ∙ h) (inl p)
  kept d (e ∷ l) (inr i) h = elim (Bool-cases (asks_for id e)) [
    | inl t ↦ rw t (inr (kept d l i h))
    | inr f ↦ rw f (kept d l i h)
  ]

  listed :
      (d : Duty) (l : List Duty)
      → IsEntryOf d (list_duties id l)
      → IsEntryOf d l × (asks_for id d ≡ true)
  unfolding list_duties
  listed d [] i = absurd i
  listed d (e ∷ l) i = elim (Bool-cases (asks_for id e)) [
    | inl t ↦ (elim (rw t at i) [
      | inl p ↦ (inl p, ap (asks_for id) p ∙ t)
      | inr j ↦ (inr (listed d l j).0, (listed d l j).1)
    ])
    | inr f ↦
        let j : IsEntryOf d (list_duties id l) = rw f at i in
        (inr (listed d l j).0, (listed d l j).1)
  ]

  -- ListDuties returns the duties of the table that the request asks for, and no others.
  pub list_duties_lem :
      (d : Duty) (l : List Duty)
      → IsEntryOf d (list_duties id l) ↔ (IsEntryOf d l × (asks_for id d ≡ true))
  list_duties_lem d l = (listed d l, λ (i, h). kept d l i h)

-- The subscriptions have that of every attestation among the duties.
abbrev pub AreSubscribed : List Duty → List BeaconCommitteeSubscription → Type 0
AreSubscribed l subs =
    (d : Duty) (a : Attestation)
    → IsEntryOf d l
    → d.job ≡ some (attestation a)
    → IsEntryOf (beacon_subscription d a) subs

-- A duty that is no attestation changes nothing.
skipped :
    (e : Duty) (l : List Duty) (j : Job) (subs : List BeaconCommitteeSubscription)
    → e.job ≡ some j
    → ((a : Attestation) → j ≢ attestation a)
    → AreSubscribed l subs
    → AreSubscribed (e ∷ l) subs
skipped e l j subs p other h d a (inl q) r = absurd (other a (cc (p, q, r)))
skipped e l j subs p other h d a (inr i) r = h d a i r

-- One more duty, with what the rest of the round returns.
subscribe_one :
    (e : Duty) (l : List Duty) (j : Job)
    → e.job ≡ some j
    → Returns (AreSubscribed l) (beacon_subscriptions l)
    → Returns (AreSubscribed (e ∷ l)) (beacon_subscriptions (e ∷ l))
unfolding beacon_subscriptions
subscribe_one e l (attestation b) p r =
    let q : beacon_subscriptions (e ∷ l)
        ≡ (beacon_subscriptions l >>= λ subs. ok (beacon_subscription e b ∷ subs)) =
      rw p refl in
    rw q (
      Returns-bind r λ subs s.
        returns λ d a. elim [
          | inl same ↦ λ u. inl (subscribed d a same u)
          | inr i ↦ λ u. inr (s d a i u)
        ])
  where
    subscribed :
        (d : Duty) (a : Attestation)
        → d ≡ e
        → d.job ≡ some (attestation a)
        → beacon_subscription d a ≡ beacon_subscription e b
    subscribed d a same u = let v : a ≡ b = cc (p, same, u) in cc (same, v)
subscribe_one e l block_proposal p r =
    let q : beacon_subscriptions (e ∷ l) ≡ beacon_subscriptions l = rw p refl in
    rw q (Returns-map r λ subs. skipped e l block_proposal subs p (λ a q. cc))
subscribe_one e l (attestation_aggregate b) p r =
    let q : beacon_subscriptions (e ∷ l) ≡ beacon_subscriptions l = rw p refl in
    rw q (Returns-map r λ subs. skipped e l (attestation_aggregate b) subs p (λ a q. cc))
subscribe_one e l sync_committee p r =
    let q : beacon_subscriptions (e ∷ l) ≡ beacon_subscriptions l = rw p refl in
    rw q (Returns-map r λ subs. skipped e l sync_committee subs p (λ a q. cc))
subscribe_one e l (sync_committee_aggregate b) p r =
    let q : beacon_subscriptions (e ∷ l) ≡ beacon_subscriptions l = rw p refl in
    rw q (Returns-map r λ subs. skipped e l (sync_committee_aggregate b) subs p (λ a q. cc))

-- If every duty has a job, a round of SyncBeaconCommitteeSubscription does not panic, and it
-- subscribes every attestation among the duties, with its validator, slot and committee.
pub beacon_subscriptions_lem :
    (l : List Duty) → HaveJobs l → Returns (AreSubscribed l) (beacon_subscriptions l)
unfolding beacon_subscriptions
beacon_subscriptions_lem [] h = returns (λ d a i p. absurd i)
beacon_subscriptions_lem (e ∷ l) ((j, p), h) = subscribe_one e l j p (beacon_subscriptions_lem l h)
