-- ===== src/GoMap.antt =====
-- Go's `map` as an association list. The order of iteration is that of first insertion where
-- nothing else is said; `GoMap.lookup k m` is `v, ok := m[k]`.
use eth2_validator.Base.{
  ◌≡◌, refl, List, [], ◌∷◌, Option, none, some, arith, Eq, ◌==◌, if◌then◌else◌,
}

abbrev pub Map {ℓ κ} : Type ℓ → Type κ → Type (ℓ ⊔ κ)
Map K V = List (K × V)

module _ {ℓ κ} {K : Type ℓ} {V : Type κ} ⦃e : Eq K⦄ where
  unfoldable pub lookup : K → Map K V → Option V
  lookup k [] = none
  lookup k ((j, v) ∷ m) = if j == k then some v else lookup k m

  -- `m[k] = v`
  unfoldable pub insert : K → V → Map K V → Map K V
  insert key new [] = (key, new) ∷ []
  insert key new ((j, old) ∷ m) = if j == key then (key, new) ∷ m else (j, old) ∷ insert key new m

  -- `delete(m, k)`
  unfoldable pub delete : K → Map K V → Map K V
  delete k [] = []
  delete k ((j, w) ∷ m) = let rest = delete k m in if j == k then rest else (j, w) ∷ rest

  pub lookup-insert :
      (k key : K) (new : V) (m : Map K V)
      → lookup key (insert k new m) ≡ (if k == key then some new else lookup key m)
  unfolding lookup insert
  lookup-insert k key new [] = refl
  lookup-insert k key new ((i, old) ∷ m) =
      ground (arith, e.same_iff i key, e.same_iff i k, e.same_iff k key, lookup-insert k key new m)

  pub lookup-delete :
      (k j : K) (m : Map K V) → lookup j (delete k m) ≡ (if k == j then none else lookup j m)
  unfolding lookup delete
  lookup-delete k j [] = ground arith
  lookup-delete k j ((i, w) ∷ m) =
      ground (arith, e.same_iff k j, e.same_iff i k, e.same_iff i j, lookup-delete k j m)
