-- ===== src/Base/Try.antt =====
-- Calls that return a value or an error, or panic.
use mathlib.Core.Path.{◌≡◌, refl}
use mathlib.Core.Logic.{◌⊎◌}
use mathlib.Core.List.{List, [], ◌∷◌, ◌++◌, map}

pub data Try {ℓ} (E : Type 0) (A : Type ℓ) : Type ℓ where
  value : A → Try E A
  error : E → Try E A
  crash : Try E A

infixl 5 ◌>>=◌
abbrev pub ◌>>=◌ {ℓ κ} : {E : Type 0} {A : Type ℓ} {B : Type κ} → Try E A → (A → Try E B) → Try E B
value a >>= f = f a
error e >>= f = error e
crash >>= f = crash

-- If the call returns a value, `P` holds of it.
abbrev pub OnValue {ℓ κ} : {E : Type 0} {A : Type ℓ} → (A → Type κ) → Try E A → Type κ
OnValue P (value a) = P a
OnValue P (error e) = Unit
OnValue P crash = Unit

-- The call returns no error, and if it returns a value, `P` holds of it.
abbrev pub NeverFails {ℓ} : {E : Type 0} {A : Type ℓ} → (A → Type 0) → Try E A → Type 0
NeverFails P (value a) = P a
NeverFails P (error e) = ⊥
NeverFails P crash = Unit

pub OnValue-bind {ℓ κ ν μ} :
    {E : Type 0} {A : Type ℓ} {B : Type κ} (P : A → Type ν) (Q : B → Type μ) (m : Try E A)
    (f : A → Try E B)
    → OnValue P m
    → ((a : A) → P a → OnValue Q (f a))
    → OnValue Q (m >>= f)
OnValue-bind P Q (value a) f p k = k a p
OnValue-bind P Q (error e) f p k = tt
OnValue-bind P Q crash f p k = tt

pub OnValue-map {ℓ κ ν} :
    {E : Type 0} {A : Type ℓ} (P : A → Type κ) (Q : A → Type ν) (m : Try E A)
    → OnValue P m
    → ((a : A) → P a → Q a)
    → OnValue Q m
OnValue-map P Q (value a) p k = k a p
OnValue-map P Q (error e) p k = tt
OnValue-map P Q crash p k = tt

-- A block that returns a value has had one from its first call.
pub bind-value {ℓ κ} :
    {E : Type 0} {A : Type ℓ} {B : Type κ} (m : Try E A) (f : A → Try E B) (b : B)
    → (m >>= f) ≡ value b
    → (a : A) × (m ≡ value a) × (f a ≡ value b)
bind-value (value a) f b e = (a, refl, e)
bind-value (error x) f b e = cc
bind-value crash f b e = cc

pub OnValue-any {ℓ} : {E : Type 0} {A : Type ℓ} (m : Try E A) → OnValue (λ _. Unit {0}) m
OnValue-any (value a) = tt
OnValue-any (error e) = tt
OnValue-any crash = tt

pub OnValue-self {ℓ} : {E : Type 0} {A : Type ℓ} (m : Try E A) → OnValue (λ a. m ≡ value a) m
OnValue-self (value a) = refl
OnValue-self (error e) = tt
OnValue-self crash = tt

-- What holds after the rest of a block holds after the block, given what its first call returns.
pub OnValue-step {ℓ κ μ} :
    {E : Type 0} {A : Type ℓ} {B : Type κ} (Q : B → Type μ) (m : Try E A) (f : A → Try E B)
    → ((a : A) → m ≡ value a → OnValue Q (f a))
    → OnValue Q (m >>= f)
OnValue-step Q m f k = OnValue-bind (λ a. m ≡ value a) Q m f (OnValue-self m) k

-- `x` is an entry of the list.
abbrev pub IsEntryOf : {A : Type 0} → A → List A → Type 0
IsEntryOf x [] = ⊥
IsEntryOf x (y ∷ l) = (x ≡ y) ⊎ IsEntryOf x l

-- `P` holds of every entry.
abbrev pub All {ℓ κ} : {A : Type ℓ} → (A → Type κ) → List A → Type κ
All P [] = Unit
All P (x ∷ l) = P x × All P l

pub All-append {ℓ κ} :
    {A : Type ℓ} (P : A → Type κ) (l m : List A) → All P l → All P m → All P (l ++ m)
All-append P [] m p q = q
All-append P (x ∷ l) m p q = (p.0, All-append P l m p.1 q)

pub All-map {ℓ κ} :
    {A : Type ℓ} (P Q : A → Type κ) (f : A → A) (l : List A)
    → ((x : A) → P x → Q (f x))
    → All P l
    → All Q (map f l)
All-map P Q f [] h p = tt
All-map P Q f (x ∷ l) h p = (h x p.0, All-map P Q f l h p.1)

-- The call returns a value.
abbrev pub IsValue {ℓ} : {E : Type 0} {A : Type ℓ} → Try E A → Type ℓ
IsValue {A = A} m = (a : A) × (m ≡ value a)

pub IsValue-bind {ℓ κ} :
    {E : Type 0} {A : Type ℓ} {B : Type κ} (m : Try E A) (f : A → Try E B)
    → IsValue m
    → ((a : A) → IsValue (f a))
    → IsValue (m >>= f)
IsValue-bind (value a) f v k = k a
IsValue-bind (error x) f (a, e) k = cc e
IsValue-bind crash f (a, e) k = cc e
