-- ===== src/Array.antt =====
-- Lists as Go slices, under native indices. Meant to be used qualified: `Array.set`.
use eth2_validator.Base.{
  ℕ, zero, suc, ◌+◌, ◌<◌, ◌≡◌, refl, ap, List, [], ◌∷◌, ◌++◌, Option, none, some, arith, nat_beq,
  if◌then◌else◌,
}

module _ {ℓ} {A : Type ℓ} where
  abbrev pub replicate : ℕ → A → List A
  replicate zero l = []
  replicate (suc n) l = l ∷ replicate n l

  -- A read with a value for what is out of range.
  unfoldable pub get_or : List A → ℕ → A → A
  get_or [] i d = d
  get_or (z ∷ l) zero d = z
  get_or (z ∷ l) (suc i) d = get_or l i d

  abbrev pub length : List A → ℕ
  length [] = 0
  length (_ ∷ l) = suc (length l)

  abbrev pub set : List A → ℕ → A → List A
  set [] i v = []
  set (z ∷ l) zero v = v ∷ l
  set (z ∷ l) (suc i) v = z ∷ set l i v

  abbrev pub get_elem? : List A → ℕ → Option A
  get_elem? [] i = none
  get_elem? (z ∷ l) zero = some z
  get_elem? (z ∷ l) (suc i) = get_elem? l i

  abbrev pub take : ℕ → List A → List A
  take zero l = []
  take (suc n) [] = []
  take (suc n) (z ∷ l) = z ∷ take n l

  pub length-append : (l b : List A) → length (l ++ b) ≡ length l + length b
  length-append [] b = omega arith
  length-append (z ∷ l) b = omega (arith, length-append l b)

  pub length-set : (l : List A) (i : ℕ) (v : A) → length (set l i v) ≡ length l
  length-set [] i v = refl
  length-set (z ∷ l) zero v = refl
  length-set (z ∷ l) (suc i) v = ap suc (length-set l i v)

  pub length-replicate : (n : ℕ) (l : A) → length (replicate n l) ≡ n
  length-replicate zero l = refl
  length-replicate (suc n) l = ap suc (length-replicate n l)

  pub length-take : (n : ℕ) (l : List A) → n < suc (length l) → length (take n l) ≡ n
  length-take zero l h = refl
  length-take (suc n) [] h = absurd (omega arith)
  length-take (suc n) (z ∷ l) h = ap suc (length-take n l (omega arith))

  module _ (d : A) where
    pub get_elem?-get_or : (l : List A) (i : ℕ) → i < length l → get_elem? l i ≡ some (get_or l i d)
    unfolding get_or
    get_elem?-get_or [] i h = absurd (omega arith)
    get_elem?-get_or (z ∷ l) zero h = refl
    get_elem?-get_or (z ∷ l) (suc i) h = get_elem?-get_or l i (omega arith)

    pub get_or-set :
        (l : List A) (i j : ℕ) (v : A)
        → i < length l
        → get_or (set l i v) j d ≡ (if nat_beq i j then v else get_or l j d)
    unfolding get_or
    get_or-set [] i j v h = absurd (omega arith)
    get_or-set (z ∷ l) zero zero v h = refl
    get_or-set (z ∷ l) (suc i) (suc j) v h = ground (arith, get_or-set l i j v)
    get_or-set (z ∷ l) i j v h = ground arith

    pub get_or-append : (l b : List A) (i : ℕ) → i < length l → get_or (l ++ b) i d ≡ get_or l i d
    unfolding get_or
    get_or-append [] b i h = absurd (omega arith)
    get_or-append (z ∷ l) b zero h = refl
    get_or-append (z ∷ l) b (suc i) h = get_or-append l b i (omega arith)

    pub get_or-append_last : (l : List A) (z : A) → get_or (l ++ z ∷ []) (length l) d ≡ z
    unfolding get_or
    get_or-append_last [] z = refl
    get_or-append_last (y ∷ l) z = get_or-append_last l z

    pub get_or-take : (n : ℕ) (l : List A) (i : ℕ) → i < n → get_or (take n l) i d ≡ get_or l i d
    unfolding get_or
    get_or-take zero l i h = absurd (omega arith)
    get_or-take (suc n) [] i h = refl
    get_or-take (suc n) (z ∷ l) zero h = refl
    get_or-take (suc n) (z ∷ l) (suc i) h = get_or-take n l i (omega arith)
