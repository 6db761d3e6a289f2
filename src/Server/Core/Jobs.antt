-- ===== src/Server/Core/Jobs.antt =====
-- The duties that the server lists (internal/server/service.go) and subscribes
-- (sync_beacon_committee_subscription.go, sync_committee_subscription.go), and those that the list
-- command exports (internal/slashing/format.go): Type panics for a duty without a job, and the
-- table has none.
use eth2_validator.Base.{ℕ, ℤ, ◌≡◌, ◌↔◌, Bool-cases, inl, inr, List, [], ◌∷◌, String, Returns}
use eth2_validator.Base.Try.{value}
use eth2_validator.DelayHeap.Nodes.{Time}
use eth2_validator.Duty.{Duty, HaveJobs}
use eth2_validator.State.Store.{Parts, duties_list}
use eth2_validator.State.Store.Restart.{IsParts}
use eth2_validator.State.Store.Jobs.{duties_list-HaveJobs}
use eth2_validator.Server.{asks_for, list_duties, beacon_subscriptions, sync_subscriptions}
use eth2_validator.Server.Lists.{AreSubscribed, beacon_subscriptions_lem}
use eth2_validator.Server.Subscriptions.Sorting.{IsSorted}
use eth2_validator.Server.Subscriptions.{sync_subscriptions_lem}
use eth2_validator.Server.Subscriptions.Entries.{IsAsked, IsSubscribed}
use eth2_validator.Server.Lifecycle.{Query}
use eth2_validator.Server.Core.{Setup, Server, new_server}
use eth2_validator.Server.Core.Turns.{Daemon, Turns}
use eth2_validator.Server.Core.Kept.{IsQuery, boot, boot-IsWell}
use eth2_validator.Slashing.{by_account}
use eth2_validator.Slashing.Accounts.{HasBlocks, by_account-HasBlocks}

list_duties-HaveJobs : (id : ℤ) (l : List Duty) → HaveJobs l → HaveJobs (list_duties id l)
unfolding list_duties
list_duties-HaveJobs id [] h = tt
list_duties-HaveJobs id (d ∷ l) h = elim (Bool-cases (asks_for id d)) [
  | inl asked ↦ rw asked (h.0, list_duties-HaveJobs id l h.1)
  | inr other ↦ rw other (list_duties-HaveJobs id l h.1)
]

-- What is done with the duties of the table, where each has a job.
pub record IsServed (l : List Duty) : Type 0 where
  pub typed : HaveJobs l
  pub listed : (id : ℤ) → HaveJobs (list_duties id l)
  pub exported :
      (id : ℤ) → Returns (HasBlocks (list_duties id l) []) (by_account (list_duties id l) [])
  pub beacon : Returns (AreSubscribed l) (beacon_subscriptions l)
  pub sync :
      Returns
        (λ subs. IsSorted subs × ((v i : ℕ) → IsSubscribed subs v i ↔ IsAsked l v i))
        (sync_subscriptions l)

module _ {p : Parts} (setup : Setup p) (query : Query) (priv_keys : List String) (P : IsParts p)
    (Q : IsQuery query) where
  -- Whatever turns the process takes after NewServer on a new file, where the parts and the beacon
  -- node do what is documented of them: every duty in the table has a job, so that Type never
  -- panics on one. Every duty of ListDuties has one, the grouping of Format over that list
  -- returns, and a round of either subscription returns: it has every attestation among the duties,
  -- and just the subcommittees that the sync committee aggregates ask for.
  pub Turns-IsServed :
      (srv : Server p) (now : Time) (d : Daemon setup query priv_keys)
      → new_server setup p.bolt.empty p.bolt.empty priv_keys ≡ value srv
      → Turns setup query priv_keys (boot setup query priv_keys P Q srv now) d
      → IsServed (duties_list p d.server.state)
  Turns-IsServed srv now d e r =
      let w = boot-IsWell setup query priv_keys P Q srv now d e r in
      let l = duties_list p d.server.state in
      let jobs : HaveJobs l = duties_list-HaveJobs p P d.server.state w.consistent in
      record {
        typed = jobs;
        listed = λ id. list_duties-HaveJobs id l jobs;
        exported =
            λ id. by_account-HasBlocks (list_duties id l) [] (list_duties-HaveJobs id l jobs);
        beacon = beacon_subscriptions_lem l jobs;
        sync = sync_subscriptions_lem l jobs;
      }
