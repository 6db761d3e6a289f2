-- ===== src/Base/Tests.antt =====
-- Boolean tests on the native numbers, the conditional, and case splits that keep the equation.
use Prim.Native.Nat.{ℕ, ◌≤◌, ◌<◌, compare, Ordering}
use mathlib.Core.Path.{◌≡◌, refl, subst}
use mathlib.Core.Logic.{◌↔◌, ◌⊎◌, inl, inr}
use mathlib.Core.Bool.{Bool, true, false}
use mathlib.Core.Option.{Option, none, some}
use native.Mathlib.Omega.{arith}

abbrev pub ltb : ℕ → ℕ → Bool
ltb a b = elim (compare a b) [ Ordering.lt ↦ true | _ ↦ false ]

abbrev pub leb : ℕ → ℕ → Bool
leb a b = elim (compare a b) [ Ordering.gt ↦ false | _ ↦ true ]

abbrev pub nat_beq : ℕ → ℕ → Bool
nat_beq a b = elim (compare a b) [ Ordering.eq ↦ true | _ ↦ false ]

infix 1 if◌then◌else◌
abbrev pub if◌then◌else◌ {ℓ} : {A : Type ℓ} → Bool → A → A → A
if true then x else y = x
if false then x else y = y

pub nat_beq_iff : (a b : ℕ) → (nat_beq a b ≡ true) ↔ (a ≡ b)
nat_beq_iff a b = ground arith

pub ltb→lt : (a b : ℕ) → ltb a b ≡ true → a < b
ltb→lt a b h = ground arith

pub lt→ltb : (a b : ℕ) → a < b → ltb a b ≡ true
lt→ltb a b h = ground arith

pub ltb-false : (a b : ℕ) → ltb a b ≡ false → b ≤ a
ltb-false a b h = ground arith

pub Bool-cases : (b : Bool) → (b ≡ true) ⊎ (b ≡ false)
Bool-cases true = inl refl
Bool-cases false = inr refl

pub Option-cases {ℓ} : {A : Type ℓ} (o : Option A) → (o ≡ none) ⊎ ((a : A) × (o ≡ some a))
Option-cases none = inl refl
Option-cases (some a) = inr (a, refl)

-- An `int`: `negsuc n` is -(n + 1).
pub data ℤ : Type 0 where
  pos : ℕ → ℤ
  negsuc : ℕ → ℤ

-- How a Go call ends: with a value, in a run-time panic, or with the model's fuel used up. An
-- `error` that a function returns is part of its value.
pub data Go {ℓ} (A : Type ℓ) : Type ℓ where
  ok : A → Go A
  panic out_of_fuel : Go A

infixl 5 ◌>>=◌
abbrev pub ◌>>=◌ {ℓ κ} : {A : Type ℓ} {B : Type κ} → Go A → (A → Go B) → Go B
ok a >>= f = f a
panic >>= f = panic
out_of_fuel >>= f = out_of_fuel

pub bind_assoc {ℓ κ ν} :
    {A : Type ℓ} {B : Type κ} {C : Type ν} (m : Go A) (f : A → Go B) (g : B → Go C)
    → ((m >>= f) >>= g) ≡ (m >>= λ a. f a >>= g)
bind_assoc (ok a) f g = refl
bind_assoc panic f g = refl
bind_assoc out_of_fuel f g = refl

-- A block that returns has had a value from its first call.
pub bind-ok {ℓ κ} :
    {A : Type ℓ} {B : Type κ} (m : Go A) (f : A → Go B) (b : B)
    → (m >>= f) ≡ ok b
    → (a : A) × (m ≡ ok a) × (f a ≡ ok b)
bind-ok (ok a) f b e = (a, refl, e)
bind-ok panic f b e = cc
bind-ok out_of_fuel f b e = cc

abbrev pub or_panic {ℓ} : {A : Type ℓ} → Option A → Go A
or_panic (some a) = ok a
or_panic none = panic

-- The call returns, with a value that satisfies `P`.
pub data Returns {ℓ κ} {R : Type ℓ} (Q : R → Type κ) : Go R → Type (ℓ ⊔ κ) where
  returns : {r : R} → Q r → Returns Q (ok r)

module _ {ℓ κ} {A : Type ℓ} {P : A → Type κ} where
  pub Returns-bind {ν μ} :
      {C : Type ν} {next : A → Go C} {first : Go A} {Q : C → Type μ}
      → Returns P first
      → ((a : A) → P a → Returns Q (next a))
      → Returns Q (first >>= next)
  Returns-bind (returns holds) rest = rest _ holds

  pub Returns-map {κ'} :
      {Q : A → Type κ'} {r : Go A} → Returns P r → ((a : A) → P a → Q a) → Returns Q r
  Returns-map (returns p) k = returns (k _ p)

  pub Returns-if :
      {yes no : Go A} (test : Bool)
      → (test ≡ true → Returns P yes)
      → (test ≡ false → Returns P no)
      → Returns P (if test then yes else no)
  Returns-if true then_holds else_holds = then_holds refl
  Returns-if false then_holds else_holds = else_holds refl

  pub Returns-inv : {r : Go A} → Returns P r → (a : A) × (r ≡ ok a) × P a
  Returns-inv (returns p) = (_, refl, p)

-- `P` of the value, where there is one.
abbrev AtOk {ℓ κ} : {A : Type ℓ} → (A → Type κ) → Go A → Type κ
AtOk P (ok a) = P a
AtOk P panic = Unit
AtOk P out_of_fuel = Unit

module _ {ℓ κ} {A : Type ℓ} {P : A → Type κ} where
  Returns-AtOk : {r : Go A} → Returns P r → AtOk P r
  Returns-AtOk (returns p) = p

  -- What holds of every returned value holds of the one at hand.
  pub Returns-at : {r : Go A} (a : A) → Returns P r → r ≡ ok a → P a
  Returns-at a x e = subst (AtOk P) e (Returns-AtOk x)
