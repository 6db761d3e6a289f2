-- ===== src/Tests/Stops.antt =====
-- A manager with one routine that is started, cancelled and returns.
use eth2_validator.Base.{ℕ, ◌↔◌, ◌≡◌, refl, true, [], ◌∷◌, none, some, ok, string_eq, nat_eq}
use eth2_validator.GoMap
use eth2_validator.Routines.{
  World, new_manager, new_world, add, launch_one, launch, start, finish, cancel, waited, Reach,
  here, next, adds, starts, finishes, cancels, canceled, log_of,
}
use eth2_validator.Routines.Waits.{IsOrderly, Reach-stopped}

abbrev begun : World
begun = start (record new_world { manager = add "worker" new_world.manager })

-- The context is 0 and the channel 1.
abbrev ended : World
ended = record begun {
  running = [];
  closed = 1 ∷ [];
  cancelled = 0 ∷ [];
  logs = log_of "worker" (some canceled) ∷ [];
}

cancel_run : cancel begun ≡ ok (record begun { cancelled = 0 ∷ [] })
unfolding cancel start launch launch_one add new_world new_manager GoMap.insert
cancel_run = refl

runs : GoMap.lookup 1 begun.running ≡ some ("worker", 0)
unfolding start launch launch_one add new_world new_manager GoMap.insert GoMap.lookup
runs = refl

finish_run : finish 1 "worker" (some canceled) (record begun { cancelled = 0 ∷ [] }) ≡ ok ended
unfolding finish start launch launch_one add new_world new_manager GoMap.insert GoMap.delete
finish_run = refl

ended-Reach : Reach new_world ended
ended-Reach =
    next (next (next (next here (adds "worker")) starts) (cancels cancel_run))
      (finishes 1 "worker" (some canceled) runs finish_run)

ended-IsOrderly : IsOrderly ended-Reach
unfolding ended-Reach IsOrderly add new_world new_manager
ended-IsOrderly = (tt, refl)

ended-waited : waited ended.manager.instances ended.closed ≡ true
unfolding start launch launch_one add new_world new_manager GoMap.insert
ended-waited = refl

Reach-stopped_example :
    (waited ended.manager.instances ended.closed ≡ true)
    ↔ ((c : ℕ) → GoMap.lookup c ended.running ≡ none)
Reach-stopped_example = Reach-stopped ended ended-Reach ended-IsOrderly
