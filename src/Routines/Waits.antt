-- ===== src/Routines/Waits.antt =====
-- When the loop of Stop ends, no routine is running, if no Start came while an earlier one was not
-- stopped. A second Start puts its goroutines in the place of those that are tracked.
use eth2_validator.Base.{
  ◌↔◌, ℕ, Bool, true, false, ◌&&◌, ◌≡◌, refl, sym, subst, inl, inr, List, [], ◌∷◌, String, Option,
  none, some, ok, nat_beq, nat_beq_iff, nat_eq, string_eq, ◌==◌, arith, Option-cases, Bool-cases,
}
use eth2_validator.GoMap
use eth2_validator.GoMap.{Map}
use eth2_validator.Routines.{
  RoutineError, World, new_manager, new_world, add, start, has, finish, cancel, waited, forget,
  adds, starts, finishes, cancels, stops, Reach, here, next,
}
use eth2_validator.Routines.Ends.{Reach-IsEnding, idle-waited}
use eth2_validator.Routines.Launch.{
  IsDistinct, insert-IsDistinct, IsRunning, launch-IsRunning, launch-routines,
}

record IsSound (w : World) : Type 0 where
  running : IsRunning w []
  distinct : IsDistinct w.manager.routines

none_found : {A : Type 0} {o : Option A} {a : A} → o ≡ none → o ≡ some a → ⊥
none_found e f = cc (e, f)

start-IsSound : (w : World) → w.manager.instances ≡ [] → IsSound w → IsSound (start w)
unfolding start GoMap.lookup
start-IsSound w none_tracked s = record {
  running = launch-IsRunning w.fresh w.manager.routines _ s.distinct (record {
    tracked = λ c n x e.
        absurd (none_found (rw (none_tracked, GoMap.lookup) refl) (s.running.tracked c n x e).0);
    unclosed = s.running.unclosed;
    begun = λ c n x e. let p = s.running.begun c n x e in omega (arith, p);
    below = λ c e. let p = s.running.below c e in omega (arith, p);
  });
  distinct = subst IsDistinct (sym (launch-routines w.fresh w.manager.routines _)) s.distinct;
}

ok_inj : {x y : World} → ok x ≡ ok y → x ≡ y
ok_inj e = cc e

finish-IsSound :
    (w w' : World) (done : ℕ) (name : String) (ctx : ℕ) (err : Option RoutineError)
    → GoMap.lookup done w.running ≡ some (name, ctx)
    → finish done name err w ≡ ok w'
    → IsSound w
    → IsSound w'
unfolding finish
finish-IsSound w w' done name ctx err runs run s =
    let still = s.running.unclosed done name ctx runs in
    subst IsSound (ok_inj (rw still at run)) (record {
      running = record {
        tracked = λ c n x e. s.running.tracked c n x (kept c n x e).1;
        unclosed = λ c n x e. rw ((kept c n x e).0) (s.running.unclosed c n x (kept c n x e).1);
        begun = λ c n x e. s.running.begun c n x (kept c n x e).1;
        below = λ c e. elim (Bool-cases (nat_beq done c)) [
          | inl same ↦
              let p = s.running.begun done name ctx runs in
              let q = (nat_beq_iff done c).0 same in omega (arith, p, q)
          | inr other ↦ s.running.below c (rw other at e)
        ];
      };
      distinct = s.distinct;
    })
  where
    kept :
        (c : ℕ) (n : String) (x : ℕ)
        → GoMap.lookup c (GoMap.delete done w.running) ≡ some (n, x)
        → (nat_beq done c ≡ false) × (GoMap.lookup c w.running ≡ some (n, x))
    kept c n x e = elim (Bool-cases (nat_beq done c)) [
      | inl same ↦ absurd (cc (rw (GoMap.lookup-delete, same) at e))
      | inr other ↦ (other, rw (GoMap.lookup-delete, other) at e)
    ]

-- Start came only where nothing was tracked.
unfoldable pub IsOrderly : {w : World} → Reach new_world w → Type 0
IsOrderly here = Unit
IsOrderly (next {t} r (starts)) = IsOrderly r × (t.manager.instances ≡ [])
IsOrderly (next r (adds name)) = IsOrderly r
IsOrderly (next r (finishes done name err runs run)) = IsOrderly r
IsOrderly (next r (cancels run)) = IsOrderly r
IsOrderly (next r (stops e)) = IsOrderly r

and_true : (a b : Bool) → (a && b) ≡ true → (a ≡ true) × (b ≡ true)
and_true true b e = (refl, e)
and_true false b e = absurd (cc e)

waited-closed :
    (m : Map String ℕ) (closed : List ℕ) (name : String) (c : ℕ)
    → waited m closed ≡ true
    → GoMap.lookup name m ≡ some c
    → has c closed ≡ true
unfolding GoMap.lookup
waited-closed [] closed name c e f = cc f
waited-closed ((j, x) ∷ m) closed name c e f =
    let (first, others) = and_true (has x closed) (waited m closed) e in
    elim (Bool-cases (j == name)) [
      | inl same ↦ subst (λ y. has y closed ≡ true) (some_inj (rw same at f)) first
      | inr other ↦ waited-closed m closed name c others (rw other at f)
    ]
  where
    some_inj : {y z : ℕ} → ◌≡◌ {A = Option ℕ} (some y) (some z) → y ≡ z
    some_inj q = cc q

new_world-IsSound : IsSound new_world
unfolding new_world new_manager GoMap.lookup
new_world-IsSound = record {
  running = record {
    tracked = λ c n x e. absurd (cc e);
    unclosed = λ c n x e. absurd (cc e);
    begun = λ c n x e. absurd (cc e);
    below = λ c e. absurd (cc e);
  };
  distinct = tt;
}

-- Where every channel that Stop waits for is closed, nothing is running.
waited-idle :
    (w : World)
    → IsSound w
    → waited w.manager.instances w.closed ≡ true
    → (c : ℕ) → GoMap.lookup c w.running ≡ none
waited-idle w s e c = elim (Option-cases (GoMap.lookup c w.running)) [
  | inl idle ↦ idle
  | inr ((name, ctx), runs) ↦
      let closed =
        waited-closed w.manager.instances w.closed name c e (s.running.tracked c name ctx runs).0 in
      absurd (cc (closed, s.running.unclosed c name ctx runs))
]

cancel-IsSound : (w w' : World) → cancel w ≡ ok w' → IsSound w → IsSound w'
unfolding cancel
cancel-IsSound w w' run s = elim (Option-cases w.manager.cancel_fn) [
  | inl absent ↦ absurd (cc (rw absent at run))
  | inr (ctx, e) ↦ subst IsSound (ok_inj (rw e at run)) (record {
    running = record {
      tracked = s.running.tracked;
      unclosed = s.running.unclosed;
      begun = s.running.begun;
      below = s.running.below;
    };
    distinct = s.distinct;
  })
]

forget-IsSound :
    (w : World) → waited w.manager.instances w.closed ≡ true → IsSound w → IsSound (forget w)
unfolding forget
forget-IsSound w e s = record {
  running = record {
    tracked = λ c n x f. absurd (none_found (waited-idle w s e c) f);
    unclosed = s.running.unclosed;
    begun = s.running.begun;
    below = s.running.below;
  };
  distinct = s.distinct;
}

Reach-IsSound : {w : World} (r : Reach new_world w) → IsOrderly r → IsSound w
unfolding IsOrderly add cancel forget
Reach-IsSound here o = new_world-IsSound
Reach-IsSound (next r (adds name)) o =
    let s = Reach-IsSound r o in
    record {
      running = record {
        tracked = s.running.tracked;
        unclosed = s.running.unclosed;
        begun = s.running.begun;
        below = s.running.below;
      };
      distinct = insert-IsDistinct name _ s.distinct;
    }
Reach-IsSound (next r starts) o = start-IsSound _ o.1 (Reach-IsSound r o.0)
Reach-IsSound (next r (finishes done name err runs run)) o =
    finish-IsSound _ _ done name _ err runs run (Reach-IsSound r o)
Reach-IsSound (next r (cancels run)) o = cancel-IsSound _ _ run (Reach-IsSound r o)
Reach-IsSound (next r (stops e)) o = forget-IsSound _ e (Reach-IsSound r o)

-- Whatever routines were added, started and stopped, where each Start came when nothing was tracked,
-- and in whatever order the routines returned, with or without an error: every channel that Stop
-- waits for is closed just when no routine is running.
pub Reach-stopped :
    (w : World) (r : Reach new_world w)
    → IsOrderly r
    → (waited w.manager.instances w.closed ≡ true) ↔ ((c : ℕ) → GoMap.lookup c w.running ≡ none)
Reach-stopped w r o = (
  waited-idle w (Reach-IsSound r o),
  idle-waited w.running w.closed w.manager.instances (Reach-IsEnding r),
)
