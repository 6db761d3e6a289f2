-- ===== src/Slashing/Each.antt =====
-- What a loop returns that calls a function at each entry of a list.
use eth2_validator.Base.{
  suc, ◌≡◌, ◌↔◌, refl, sym, ap, ◌∙◌, inl, inr, List, [], ◌∷◌, Go, ok, Returns, returns,
  Returns-bind, bind-ok,
}
use eth2_validator.Array.{length}
use eth2_validator.Base.Try.{IsEntryOf}
use eth2_validator.Slashing.{each}

-- The results of the calls at the entries.
abbrev pub AreResults : {A B : Type 0} → (A → Go B) → List A → List B → Type 0
AreResults {A} f l ys =
    (length ys ≡ length l) × ((y : _) → IsEntryOf y ys ↔ (x : A) × IsEntryOf x l × (f x ≡ ok y))

pub each-AreResults :
    {A B : Type 0} (f : A → Go B) (l : List A)
    → ((x : A) → IsEntryOf x l → (y : B) × (f x ≡ ok y))
    → Returns (AreResults f l) (each f l)
unfolding each
each-AreResults f [] h = returns (refl, λ y. (λ i. absurd i, λ (x, i, e). absurd i))
each-AreResults {B} f (a ∷ l) h =
    let (b, e) = h a (inl refl) in
    rw (e) (
      Returns-bind (each-AreResults f l (λ x i. h x (inr i))) λ ys (size, at). returns (
        ap suc size,
        λ y. (
          (λ i. elim i [
            | inl p ↦ (a, inl refl, e ∙ ap ok (sym p))
            | inr j ↦ let (x, k, q) = (at y).0 j in (x, inr k, q)
          ]),
          λ (x, i, q). elim i [
            | inl p ↦ inl (ok_inj (sym q ∙ ap f p ∙ e))
            | inr j ↦ inr ((at y).1 (x, j, q))
          ],
        ),
      ))
  where
    ok_inj : {u v : B} → ok u ≡ ok v → u ≡ v
    ok_inj q = cc q

-- If the loop returns, so does the call at every entry.
pub each-entry :
    {A B : Type 0} (f : A → Go B) (l : List A) (ys : List B) (x : A)
    → each f l ≡ ok ys
    → IsEntryOf x l
    → (y : B) × (f x ≡ ok y)
unfolding each
each-entry f [] ys x e i = absurd i
each-entry f (a ∷ l) ys x e i =
    let (b, at, rest) = bind-ok (f a) _ ys e in
    let (zs, run, _) = bind-ok (each f l) _ ys rest in
    elim i [ inl p ↦ (b, ap f p ∙ at) | inr j ↦ each-entry f l zs x run j ]
