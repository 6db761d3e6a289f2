-- ===== src/Routines.antt =====
-- internal/routine/routine.go: the manager of the goroutines of the server. A channel and a context
-- are known by numbers, and World has the manager with what the Go runtime keeps for it. `Waits` is
-- about what is running when Stop returns.
pub mod Launch
pub mod Ends
pub mod Waits
use eth2_validator.Base.{
  ℕ, ◌+◌, Bool, true, false, ◌||◌, ◌&&◌, ◌≡◌, List, [], ◌∷◌, String, Option, none, some, Go, ok,
  panic, nat_beq, nat_eq, string_eq, if◌then◌else◌,
}
use eth2_validator.GoMap
use eth2_validator.GoMap.{Map}

-- What a routine is called with is its context alone, so that it is known by its name.
pub record Manager : Type 0 where
  pub instances : Map String ℕ
  pub routines : Map String (Unit {0})
  pub cancel_fn : Option ℕ

-- The error that a routine returns.
pub data RoutineError : Type 0 where
  deadline_exceeded canceled : RoutineError
  failed : String → RoutineError

pub data Log : Type 0 where
  exited_with_error : String → String → Log
  stopped : String → Log

-- `running` has a goroutine under the channel that it closes, with its name and context; `fresh` is
-- above all numbers in use.
pub record World : Type 0 where
  pub manager : Manager
  pub running : Map ℕ (String × ℕ)
  pub closed : List ℕ
  pub cancelled : List ℕ
  pub logs : List Log
  pub fresh : ℕ

unfoldable pub new_manager : Manager
new_manager = record { instances = []; routines = []; cancel_fn = none }

unfoldable pub new_world : World
unfolding new_manager
new_world = record {
  manager = new_manager;
  running = [];
  closed = [];
  cancelled = [];
  logs = [];
  fresh = 0;
}

unfoldable pub add : String → Manager → Manager
add name m = record m { routines = GoMap.insert name tt m.routines }

-- One round of the loop of Start.
unfoldable pub launch_one : ℕ → String → World → World
launch_one ctx name w = record w {
  manager = record (w.manager) { instances = GoMap.insert name w.fresh w.manager.instances };
  running = GoMap.insert w.fresh (name, ctx) w.running;
  fresh = w.fresh + 1;
}

-- The loop, over the map in the order in which it is ranged over.
unfoldable pub launch : ℕ → Map String (Unit {0}) → World → World
launch ctx [] w = w
launch ctx ((name, _) ∷ l) w = launch ctx l (launch_one ctx name w)

unfoldable pub start : World → World
start w =
    launch w.fresh w.manager.routines
      (record w { manager = record (w.manager) { cancel_fn = some w.fresh }; fresh = w.fresh + 1 })

abbrev pub has : ℕ → List ℕ → Bool
has c [] = false
has c (x ∷ l) = nat_beq x c || has c l

abbrev pub log_of : String → Option RoutineError → Log
log_of name none = stopped name
log_of name (some deadline_exceeded) = stopped name
log_of name (some canceled) = stopped name
log_of name (some (failed e)) = exited_with_error name e

-- execute, when its routine returns. To close a channel twice panics.
unfoldable pub finish : ℕ → String → Option RoutineError → World → Go World
finish done name err w =
    if has done w.closed
    then panic
    else ok (record w {
      running = GoMap.delete done w.running;
      closed = done ∷ w.closed;
      logs = log_of name err ∷ w.logs;
    })

-- Stop, up to its loop. To call a function that is nil panics.
unfoldable pub cancel : World → Go World
cancel w = elim w.manager.cancel_fn [
  | none ↦ panic
  | some ctx ↦ ok (record w { cancelled = ctx ∷ w.cancelled })
]

-- Whether the loop of Stop has no channel left to wait for.
abbrev pub waited : Map String ℕ → List ℕ → Bool
waited [] closed = true
waited ((name, c) ∷ m) closed = has c closed && waited m closed

-- The end of Stop.
unfoldable pub forget : World → World
forget w = record w { manager = record (w.manager) { instances = [] } }

-- The calls of the manager, and the ends of the routines, in any order.
pub data Step (w : World) : World → Type 0 where
  adds : (name : String) → Step w (record w { manager = add name w.manager })
  starts : Step w (start w)
  finishes :
      {w' : World} {ctx : ℕ} (done : ℕ) (name : String) (err : Option RoutineError)
      → GoMap.lookup done w.running ≡ some (name, ctx)
      → finish done name err w ≡ ok w'
      → Step w w'
  cancels : {w' : World} → cancel w ≡ ok w' → Step w w'
  stops : waited w.manager.instances w.closed ≡ true → Step w (forget w)

pub data Reach (w : World) : World → Type 0 where
  here : Reach w w
  next : {t u : World} → Reach w t → Step t u → Reach w u
