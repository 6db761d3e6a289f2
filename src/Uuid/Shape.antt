-- ===== src/Uuid/Shape.antt =====
-- The lengths of an id and of its first part.
use eth2_validator.Base.{
  ℕ, zero, suc, ◌+◌, ◌-◌, ◌*◌, ◌/◌, ◌%◌, ◌≤◌, ◌≡◌, refl, sym, ap, ◌∙◌, inl, inr, false, List, [],
  ◌∷◌, String, some, ok, panic, ltb, ltb→lt, Bool-cases, arith, if◌then◌else◌,
}
use Prim.Native.String.{◌++◌ as ◌<>◌, len, slice}
use text.Mathlib.TextPositions.{len-append, slice-append_left}
use eth2_validator.Array.{get_or, take, length}
use eth2_validator.Base.Try.{All}
use eth2_validator.Duty.{Bytes}
use eth2_validator.Client.{short_id}
use eth2_validator.Uuid.{ldigits, hex, drop, between, id_of, generate, short}

len-get_or : (l : List String) (i : ℕ) → All (λ s. len s ≡ 1) l → len (get_or l i "f") ≡ 1
unfolding get_or
len-get_or [] i a = refl
len-get_or (s ∷ l) zero a = a.0
len-get_or (s ∷ l) (suc i) a = len-get_or l i a.1

one_byte : (i : ℕ) → len (get_or ldigits i "f") ≡ 1
one_byte i = len-get_or ldigits i (
  refl,
  (
    refl,
    (
      refl,
      (
        refl,
        (
          refl,
          (
            refl,
            (refl, (refl, (refl, (refl, (refl, (refl, (refl, (refl, (refl, (refl, tt)))))))))),
          ),
        ),
      ),
    ),
  ),
)

len-hex : (l : Bytes) → len (hex l) ≡ 2 * length l
unfolding hex
len-hex [] = refl
len-hex (b ∷ l) =
    let first = get_or ldigits (b / 16 % 16) "f" in
    let second = get_or ldigits (b % 16) "f" in
    omega (
      arith,
      len-append first (second <> hex l),
      len-append second (hex l),
      one_byte (b / 16 % 16),
      one_byte (b % 16),
      len-hex l,
    )

length-drop : (n : ℕ) (l : Bytes) → length (drop n l) ≡ length l - n
length-drop zero l = omega arith
length-drop (suc n) [] = omega arith
length-drop (suc n) (b ∷ l) = omega (arith, length-drop n l)

length-take : (n : ℕ) (l : Bytes) → n ≤ length l → length (take n l) ≡ n
length-take zero l h = refl
length-take (suc n) [] h = absurd (omega (arith, h))
length-take (suc n) (b ∷ l) h = ap suc (length-take n l (omega (arith, h)))

len-part :
    (i j : ℕ) (buf : Bytes) → i ≤ j → j ≤ length buf → len (hex (between i j buf)) ≡ 2 * (j - i)
len-part i j buf h k =
    let e = length-drop i buf in
    let f = length-take (j - i) (drop i buf) (omega (arith, e, h, k)) in
    omega (arith, f, len-hex (between i j buf))

-- A text and one more character before the rest.
len-dash : (s t : String) → len (s <> "-" <> t) ≡ len s + 1 + len t
len-dash s t = omega (arith, len-append s ("-" <> t), len-append "-" t, one_dash)
  where
    one_dash : len "-" ≡ 1
    one_dash = refl

module _ (buf : Bytes) (full : length buf ≡ 16) where
  len-id_of : len (id_of buf) ≡ 36
  len-id_of =
      let p4 = hex (between 10 16 buf) in
      let p3 = hex (between 8 10 buf) in
      let p2 = hex (between 6 8 buf) in
      let p1 = hex (between 4 6 buf) in
      omega (
        arith,
        full,
        len-dash (hex (between 0 4 buf)) (p1 <> "-" <> p2 <> "-" <> p3 <> "-" <> p4),
        len-dash p1 (p2 <> "-" <> p3 <> "-" <> p4),
        len-dash p2 (p3 <> "-" <> p4),
        len-dash p3 p4,
        len-part 0 4 buf (omega arith) (omega (arith, full)),
        len-part 4 6 buf (omega arith) (omega (arith, full)),
        len-part 6 8 buf (omega arith) (omega (arith, full)),
        len-part 8 10 buf (omega arith) (omega (arith, full)),
        len-part 10 16 buf (omega arith) (omega (arith, full)),
      )

  first_part : slice (id_of buf) 0 8 ≡ hex (between 0 4 buf)
  first_part =
      let first = hex (between 0 4 buf) in
      let e : len first ≡ 8 = omega (arith, len-part 0 4 buf (omega arith) (omega (arith, full))) in
      ap (slice (id_of buf) 0) (sym e) ∙ slice-append_left first _

  long_enough : ltb (len (id_of buf)) 8 ≡ false
  long_enough = elim (Bool-cases (ltb (len (id_of buf)) 8)) [
    | inl e ↦ absurd (omega (arith, ltb→lt (len (id_of buf)) 8 e, len-id_of))
    | inr e ↦ e
  ]

  -- For 16 random bytes, Generate returns an id of 36 bytes. Short does not panic: it returns the
  -- digits of the first four bytes, which is also what the table of the duties has for the id.
  pub generate_correct :
      (id : String) × (generate (some buf) ≡ ok id)
      × (len id ≡ 36)
      × (short (some buf) ≡ ok (hex (between 0 4 buf)))
      × (short_id id ≡ ok (hex (between 0 4 buf)))
  unfolding generate short
  generate_correct = (
    id_of buf,
    refl,
    len-id_of,
    ap (λ c. if c then panic else ok (slice (id_of buf) 0 8)) long_enough ∙ ap ok first_part,
    ap (λ c. if c then panic else ok (slice (id_of buf) 0 8)) long_enough ∙ ap ok first_part,
  )
