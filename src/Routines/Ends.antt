-- ===== src/Routines/Ends.antt =====
-- Every channel that Stop waits for is closed, or its goroutine is running: the loop of Stop waits
-- for nothing else.
use eth2_validator.Base.{
  ℕ, ◌≡◌, ◌≢◌, ◌⊎◌, refl, subst, inl, inr, true, List, [], ◌∷◌, String, Option, none, ok, nat_beq,
  nat_eq, string_eq, ◌==◌, beq_self, Option-cases, Bool-cases,
}
use eth2_validator.Base.Try.{All}
use eth2_validator.GoMap
use eth2_validator.GoMap.{Map}
use eth2_validator.Routines.{
  RoutineError, World, new_manager, new_world, add, launch_one, launch, start, has, finish, cancel,
  waited, forget, adds, starts, finishes, cancels, stops, Reach, here, next,
}

abbrev Ends : Map ℕ (String × ℕ) → List ℕ → String × ℕ → Type 0
Ends running closed (name, c) = (has c closed ≡ true) ⊎ (GoMap.lookup c running ≢ none)

abbrev IsEnding : World → Type 0
IsEnding w = All (Ends w.running w.closed) w.manager.instances

All-weaken :
    (P Q : String × ℕ → Type 0) (l : Map String ℕ)
    → ((x : String × ℕ) → P x → Q x)
    → All P l
    → All Q l
All-weaken P Q [] h a = tt
All-weaken P Q (x ∷ l) h a = (h x a.0, All-weaken P Q l h a.1)

All-insert :
    (P : String × ℕ → Type 0) (name : String) (c : ℕ) (m : Map String ℕ)
    → P (name, c)
    → All P m
    → All P (GoMap.insert name c m)
unfolding GoMap.insert
All-insert P name c [] p a = (p, tt)
All-insert P name c ((j, x) ∷ m) p a = elim (Bool-cases (j == name)) [
  | inl e ↦ rw e (p, a.1)
  | inr e ↦ rw e (a.0, All-insert P name c m p a.1)
]

launch_one-IsEnding :
    (ctx : ℕ) (name : String) (w : World) → IsEnding w → IsEnding (launch_one ctx name w)
unfolding launch_one
launch_one-IsEnding ctx name w i =
    All-insert (Ends (GoMap.insert w.fresh (name, ctx) w.running) w.closed) name w.fresh
      w.manager.instances (inr λ e. cc (rw (GoMap.lookup-insert, beq_self w.fresh) at e))
      (All-weaken (Ends w.running w.closed)
        (Ends (GoMap.insert w.fresh (name, ctx) w.running) w.closed) w.manager.instances still i)
  where
    still :
        (x : String × ℕ)
        → Ends w.running w.closed x
        → Ends (GoMap.insert w.fresh (name, ctx) w.running) w.closed x
    still (n, c) (inl e) = inl e
    still (n, c) (inr r) = inr λ e. elim (Bool-cases (nat_beq w.fresh c)) [
      | inl same ↦ cc (rw (GoMap.lookup-insert, same) at e)
      | inr other ↦ r (rw (GoMap.lookup-insert, other) at e)
    ]

launch-IsEnding :
    (ctx : ℕ) (l : Map String (Unit {0})) (w : World) → IsEnding w → IsEnding (launch ctx l w)
unfolding launch
launch-IsEnding ctx [] w i = i
launch-IsEnding ctx ((name, u) ∷ l) w i =
    launch-IsEnding ctx l (launch_one ctx name w) (launch_one-IsEnding ctx name w i)

ok_inj : {x y : World} → ok x ≡ ok y → x ≡ y
ok_inj e = cc e

finish-IsEnding :
    (w w' : World) (done : ℕ) (name : String) (err : Option RoutineError)
    → finish done name err w ≡ ok w'
    → IsEnding w
    → IsEnding w'
unfolding finish
finish-IsEnding w w' done name err run i = elim (Bool-cases (has done w.closed)) [
  | inl twice ↦ absurd (cc (rw twice at run))
  | inr once ↦ subst IsEnding (ok_inj (rw once at run)) (
      All-weaken (Ends w.running w.closed) (Ends (GoMap.delete done w.running) (done ∷ w.closed))
        w.manager.instances closed i)
]
  where
    closed :
        (x : String × ℕ)
        → Ends w.running w.closed x
        → Ends (GoMap.delete done w.running) (done ∷ w.closed) x
    closed (n, c) x = elim (Bool-cases (nat_beq done c)) [
      | inl same ↦ inl (rw same refl)
      | inr other ↦ (elim x [
        | inl e ↦ inl (rw other e)
        | inr r ↦ inr λ e. r (rw (GoMap.lookup-delete, other) at e)
      ])
    ]

cancel-IsEnding : (w w' : World) → cancel w ≡ ok w' → IsEnding w → IsEnding w'
unfolding cancel
cancel-IsEnding w w' run i = elim (Option-cases w.manager.cancel_fn) [
  | inl absent ↦ absurd (cc (rw absent at run))
  | inr (ctx, e) ↦ subst IsEnding (ok_inj (rw e at run)) i
]

pub Reach-IsEnding : {w : World} → Reach new_world w → IsEnding w
unfolding new_world new_manager add start forget
Reach-IsEnding here = tt
Reach-IsEnding (next r (adds name)) = Reach-IsEnding r
Reach-IsEnding (next {t} r starts) = launch-IsEnding t.fresh t.manager.routines _ (Reach-IsEnding r)
Reach-IsEnding (next r (finishes done name err runs run)) =
    finish-IsEnding _ _ done name err run (Reach-IsEnding r)
Reach-IsEnding (next r (cancels run)) = cancel-IsEnding _ _ run (Reach-IsEnding r)
Reach-IsEnding (next r (stops e)) = tt

-- Where nothing is running, the loop of Stop has no channel left to wait for.
pub idle-waited :
    (running : Map ℕ (String × ℕ)) (closed : List ℕ) (m : Map String ℕ)
    → All (Ends running closed) m
    → ((c : ℕ) → GoMap.lookup c running ≡ none)
    → waited m closed ≡ true
idle-waited running closed [] a idle = refl
idle-waited running closed ((name, c) ∷ m) (inl e, a) idle =
    rw e (idle-waited running closed m a idle)
idle-waited running closed ((name, c) ∷ m) (inr r, a) idle = absurd (r (idle c))
