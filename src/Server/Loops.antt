-- ===== src/Server/Loops.antt =====
-- internal/server/server.go: the loop of watchDuties, the routines that Run starts, Stop, and the list
-- of the validators of service.go. Of chaintime there is whether genesis has passed and the current
-- epoch.
use eth2_validator.Base.{
  ℕ, zero, suc, ◌+◌, ◌%◌, ◌^◌, ◌<◌, ◌≤◌, ◌≡◌, refl, ap, ◌∙◌, Bool, true, false, List, [], ◌∷◌,
  Option, none, some, Go, ok, panic, arith, if◌then◌else◌,
}
use eth2_validator.Array.{length, get_elem?}
use eth2_validator.Routines.{Manager, World, add, start}

-- How a wait ends: the time has come, or the server is stopped.
pub data Wake : Type 0 where
  elapsed shut_down : Wake

-- The epochs that are handed to handleNewEpoch, for the waits that have ended so far.
unfoldable pub epochs_from : ℕ → List Wake → List ℕ
epochs_from epoch [] = epoch ∷ []
epochs_from epoch (elapsed ∷ waits) = epoch ∷ epochs_from ((epoch + 1) % 2 ^ 64) waits
epochs_from epoch (shut_down ∷ waits) = epoch ∷ []

-- With the end of the wait for genesis, and the epoch that is current after it.
unfoldable pub watch_duties : Bool → Wake → ℕ → List Wake → List ℕ
watch_duties true genesis_wait current waits = epochs_from current waits
watch_duties false elapsed current waits = epochs_from current waits
watch_duties false shut_down current waits = []

unfoldable pub setup_routines : Manager → Manager
setup_routines m = add "duty-worker" (add "validator-lifecycle" (add "watch-duties" m))

unfoldable pub run : World → World
run w = start w

-- What Stop closes: the gRPC server, if setupGRPCServer has made one, and shutdownCh.
pub record Shutdown : Type 0 where
  pub grpc_server : Option (Unit {0})
  pub closed : Bool

-- A server that is nil cannot be stopped, and a channel cannot be closed twice.
unfoldable pub stop : Shutdown → Go Shutdown
stop s = elim s.grpc_server [
  | some _ ↦ if s.closed then panic else ok (record s { closed = true })
  | none ↦ panic
]

-- The waits that ended in time, before the first that did not.
abbrev pub epochs_passed : List Wake → ℕ
epochs_passed [] = 0
epochs_passed (elapsed ∷ waits) = suc (epochs_passed waits)
epochs_passed (shut_down ∷ waits) = 0

length-epochs_from :
    (epoch : ℕ) (waits : List Wake) → length (epochs_from epoch waits) ≡ suc (epochs_passed waits)
unfolding epochs_from
length-epochs_from epoch [] = refl
length-epochs_from epoch (elapsed ∷ waits) =
    ap suc (length-epochs_from ((epoch + 1) % 2 ^ 64) waits)
length-epochs_from epoch (shut_down ∷ waits) = refl

nth_epoch :
    (epoch i : ℕ) (waits : List Wake)
    → epoch < 2 ^ 64
    → i ≤ epochs_passed waits
    → get_elem? (epochs_from epoch waits) i ≡ some ((epoch + i) % 2 ^ 64)
unfolding epochs_from
nth_epoch epoch zero [] h p = ap some (omega (arith, h))
nth_epoch epoch (suc i) [] h p = absurd (omega (arith, p))
nth_epoch epoch zero (elapsed ∷ waits) h p = ap some (omega (arith, h))
nth_epoch epoch (suc i) (elapsed ∷ waits) h p =
    nth_epoch ((epoch + 1) % 2 ^ 64) i waits (omega arith) (omega (arith, p))
    ∙ ap some (omega arith)
nth_epoch epoch zero (shut_down ∷ waits) h p = ap some (omega (arith, h))
nth_epoch epoch (suc i) (shut_down ∷ waits) h p = absurd (omega (arith, p))

-- When genesis has passed, watchDuties hands to handleNewEpoch the current epoch and one more for
-- each wait that ended in time, before the server was stopped: they follow each other, without a
-- gap and without one twice, as numbers of 64 bits.
pub watch_duties_lem :
    (genesis_wait : Wake) (current : ℕ) (waits : List Wake)
    → current < 2 ^ 64
    → (length (watch_duties true genesis_wait current waits) ≡ suc (epochs_passed waits))
      × ((i : ℕ)
          → i ≤ epochs_passed waits
          → get_elem? (watch_duties true genesis_wait current waits) i
            ≡ some ((current + i) % 2 ^ 64))
unfolding watch_duties
watch_duties_lem genesis_wait current waits h =
    (length-epochs_from current waits, λ i p. nth_epoch current i waits h p)
