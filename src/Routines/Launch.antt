-- ===== src/Routines/Launch.antt =====
-- What the loop of Start keeps: each goroutine is tracked under its name, with an open channel.
use eth2_validator.Base.{
  ℕ, ◌<◌, ◌≢◌, true, false, ◌≡◌, refl, sym, ap, subst, inl, inr, [], ◌∷◌, String, Option, some,
  nat_eq, string_eq, ◌==◌, arith, key_cases, beq_self, Bool-cases,
}
use eth2_validator.GoMap
use eth2_validator.GoMap.{Map}
use eth2_validator.Routines.{World, launch_one, launch, has}

-- The keys of a map, each once.
abbrev pub NotKey : String → Map String (Unit {0}) → Type 0
NotKey k [] = Unit
NotKey k ((j, _) ∷ m) = (j ≢ k) × NotKey k m

abbrev pub IsDistinct : Map String (Unit {0}) → Type 0
IsDistinct [] = Unit
IsDistinct ((j, _) ∷ m) = NotKey j m × IsDistinct m

NotKey-insert :
    (k j : String) (m : Map String (Unit {0})) → j ≢ k → NotKey k m → NotKey k (GoMap.insert j tt m)
unfolding GoMap.insert
NotKey-insert k j [] h n = (h, tt)
NotKey-insert k j ((i, u) ∷ m) h n = elim (Bool-cases (i == j)) [
  | inl e ↦ rw e (h, n.1)
  | inr e ↦ rw e (n.0, NotKey-insert k j m h n.1)
]

pub insert-IsDistinct :
    (j : String) (m : Map String (Unit {0})) → IsDistinct m → IsDistinct (GoMap.insert j tt m)
unfolding GoMap.insert
insert-IsDistinct j [] d = (tt, tt)
insert-IsDistinct j ((i, u) ∷ m) d = elim (key_cases i j) [
  | inl e ↦ rw (e, beq_self j) (subst (λ k. NotKey k m) e d.0, d.1)
  | inr (apart, e) ↦ rw e (NotKey-insert i j m (λ p. apart (sym p)) d.0, insert-IsDistinct j m d.1)
]

-- What runs is under its name among the instances, and its channel is open. The names that Start
-- has still to go through are `rest`.
pub record IsRunning (w : World) (rest : Map String (Unit {0})) : Type 0 where
  pub tracked :
      (c : ℕ) (name : String) (ctx : ℕ)
      → GoMap.lookup c w.running ≡ some (name, ctx)
      → (GoMap.lookup name w.manager.instances ≡ some c) × NotKey name rest
  pub unclosed :
      (c : ℕ) (name : String) (ctx : ℕ)
      → GoMap.lookup c w.running ≡ some (name, ctx)
      → has c w.closed ≡ false
  pub begun :
      (c : ℕ) (name : String) (ctx : ℕ) → GoMap.lookup c w.running ≡ some (name, ctx) → c < w.fresh
  pub below : (c : ℕ) → has c w.closed ≡ true → c < w.fresh

fresh-open :
    (w : World) (rest : Map String (Unit {0})) → IsRunning w rest → has w.fresh w.closed ≡ false
fresh-open w rest i = elim (Bool-cases (has w.fresh w.closed)) [
  | inl e ↦ absurd (omega (arith, i.below w.fresh e))
  | inr e ↦ e
]

launch_one-IsRunning :
    (ctx : ℕ) (name : String) (u : Unit {0}) (rest : Map String (Unit {0})) (w : World)
    → NotKey name rest
    → IsRunning w ((name, u) ∷ rest)
    → IsRunning (launch_one ctx name w) rest
unfolding launch_one
launch_one-IsRunning ctx name u rest w apart i = record {
  tracked = λ c n x e. elim (key_cases w.fresh c) [
    | inl same ↦
        (let f : ◌≡◌ {A = Option (String × ℕ)} (some (name, ctx)) (some (n, x)) =
            rw (GoMap.lookup-insert, same, beq_self c) at e in
          let g : name ≡ n = cc f in
          (
            rw (GoMap.lookup-insert, g, beq_self n) (ap some same),
            subst (λ k. NotKey k rest) g apart,
          ))
    | inr (_, other) ↦
        let (at, (differs, not_left)) = i.tracked c n x (rw (GoMap.lookup-insert, other) at e) in
        (
          elim (key_cases name n) [
            | inl same ↦ absurd (differs same)
            | inr (_, e2) ↦ rw (GoMap.lookup-insert, e2) at
          ],
          not_left,
        )
  ];
  unclosed = λ c n x e. elim (key_cases w.fresh c) [
    | inl same ↦ subst (λ k. has k w.closed ≡ false) same (fresh-open w _ i)
    | inr (_, other) ↦ i.unclosed c n x (rw (GoMap.lookup-insert, other) at e)
  ];
  begun = λ c n x e. elim (key_cases w.fresh c) [
    | inl same ↦ omega (arith, same)
    | inr (_, other) ↦
        let p = i.begun c n x (rw (GoMap.lookup-insert, other) at e) in omega (arith, p)
  ];
  below = λ c e. let p = i.below c e in omega (arith, p);
}

pub launch-IsRunning :
    (ctx : ℕ) (l : Map String (Unit {0})) (w : World)
    → IsDistinct l
    → IsRunning w l
    → IsRunning (launch ctx l w) []
unfolding launch
launch-IsRunning ctx [] w d i = i
launch-IsRunning ctx ((name, u) ∷ l) w d i =
    launch-IsRunning ctx l (launch_one ctx name w) d.1 (launch_one-IsRunning ctx name u l w d.0 i)

pub launch-routines :
    (ctx : ℕ) (l : Map String (Unit {0})) (w : World)
    → (launch ctx l w).manager.routines ≡ w.manager.routines
unfolding launch launch_one
launch-routines ctx [] w = refl
launch-routines ctx ((name, u) ∷ l) w = launch-routines ctx l (launch_one ctx name w)
