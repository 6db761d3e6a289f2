-- ===== src/Server.antt =====
-- internal/server: what the server reads out of the table of duties, for the list command
-- (service.go) and for the subscriptions at the beacon node (sync_beacon_committee_subscription.go,
-- sync_committee_subscription.go). A round of a subscription's loop is a function of the duties that
-- the iterator yields, in its order; what it returns is sent, unless it is empty. `Lists` is about
-- what is in the lists.
pub mod Lists
pub mod Subscriptions
pub mod Signing
pub mod Lifecycle
pub mod Core
pub mod Loops
pub mod Rounds
use eth2_validator.Base.{
  ℕ, ◌+◌, ◌%◌, ◌^◌, Bool, true, List, [], ◌∷◌, ◌++◌, map, none, some, ℤ, pos, negsuc, Go, ok, panic,
  ◌>>=◌, nat_beq, ltb, nat_eq, if◌then◌else◌,
}
use eth2_validator.GoMap
use eth2_validator.GoMap.{Map}
use eth2_validator.Duty.{
  Duty, attestation, sync_committee_aggregate, Attestation, SyncCommitteeAggregate,
}

-- Whether a request for the duties of a validator, or of all for a negative id, asks for this one.
abbrev pub asks_for : ℤ → Duty → Bool
asks_for (pos id) d = nat_beq d.validator_index id
asks_for (negsuc n) d = true

-- The duties of ListDuties.
unfoldable pub list_duties : ℤ → List Duty → List Duty
list_duties id [] = []
list_duties id (d ∷ l) = let rest = list_duties id l in if asks_for id d then d ∷ rest else rest

pub record BeaconCommitteeSubscription : Type 0 where
  pub validator_index : ℕ
  pub slot : ℕ
  pub committee_index : ℕ
  pub committees_at_slot : ℕ

abbrev pub beacon_subscription : Duty → Attestation → BeaconCommitteeSubscription
beacon_subscription d a = record {
  validator_index = d.validator_index;
  slot = d.slot;
  committee_index = a.committee_index;
  committees_at_slot = a.committees_at_slot;
}

-- The loop of SyncBeaconCommitteeSubscription over the duties. Type panics where there is no job.
unfoldable pub beacon_subscriptions : List Duty → Go (List BeaconCommitteeSubscription)
beacon_subscriptions [] = ok []
beacon_subscriptions (d ∷ l) = elim d.job [
  | none ↦ panic
  | some (attestation a) ↦ beacon_subscriptions l >>= λ subs. ok (beacon_subscription d a ∷ subs)
  | some _ ↦ beacon_subscriptions l
]

pub record SyncSubscription : Type 0 where
  pub validator_index : ℕ
  pub sync_committee_indices : List ℕ
  pub until_epoch : ℕ

-- The subscription of a validator, or the new one that is made for it.
unfoldable pub found_or_new : Duty → Map ℕ SyncSubscription → SyncSubscription
found_or_new d m = elim (GoMap.lookup d.validator_index m) [
  | some sub ↦ sub
  | none ↦ record {
    validator_index = d.validator_index;
    sync_committee_indices = [];
    until_epoch = (d.epoch + 1) % 2 ^ 64;
  }
]

unfoldable pub add_index :
    Duty → SyncCommitteeAggregate → Map ℕ SyncSubscription → Map ℕ SyncSubscription
unfolding found_or_new
add_index d a m =
    let sub = found_or_new d m in
    GoMap.insert d.validator_index
      (record sub {
        sync_committee_indices = sub.sync_committee_indices ++ a.sub_committee_index ∷ [];
      })
      m

-- The loop of SyncCommitteeSubscription over the duties.
unfoldable pub group_by_validator : List Duty → Map ℕ SyncSubscription → Go (Map ℕ SyncSubscription)
group_by_validator [] m = ok m
group_by_validator (d ∷ l) m = elim d.job [
  | none ↦ panic
  | some (sync_committee_aggregate a) ↦ group_by_validator l (add_index d a m)
  | some _ ↦ group_by_validator l m
]

-- sort.Slice by the validator; no two entries have the same.
unfoldable pub insert_sorted : SyncSubscription → List SyncSubscription → List SyncSubscription
insert_sorted s [] = s ∷ []
insert_sorted s (t ∷ l) =
    let rest = insert_sorted s l in
    if ltb s.validator_index t.validator_index then s ∷ t ∷ l else t ∷ rest

unfoldable pub sort : List SyncSubscription → List SyncSubscription
sort [] = []
sort (s ∷ l) = insert_sorted s (sort l)

unfoldable pub sync_subscriptions : List Duty → Go (List SyncSubscription)
sync_subscriptions l = group_by_validator l [] >>= λ m. ok (sort (map (λ (_, sub). sub) m))
