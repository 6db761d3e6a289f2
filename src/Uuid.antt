-- ===== src/Uuid.antt =====
-- internal/uuid/uuid.go. The bytes that crypto/rand fills are a parameter. `Shape` is about the
-- lengths, on which the tables of the client commands depend.
pub mod Shape
use eth2_validator.Base.{
  ℕ, zero, suc, ◌-◌, ◌/◌, ◌%◌, List, [], ◌∷◌, String, Option, none, some, Go, ok, panic, ◌>>=◌, ltb,
  if◌then◌else◌,
}
use Prim.Native.String.{◌++◌ as ◌<>◌, len, slice}
use eth2_validator.Array.{get_or, take}
use eth2_validator.Duty.{Bytes}

-- The digits of %x.
abbrev pub ldigits : List String
ldigits =
    "0" ∷ "1" ∷ "2" ∷ "3" ∷ "4" ∷ "5" ∷ "6" ∷ "7" ∷ "8" ∷ "9" ∷ "a" ∷ "b" ∷ "c" ∷ "d" ∷ "e" ∷ "f"
    ∷ []

-- %x of bytes, two digits for each.
unfoldable pub hex : Bytes → String
hex [] = ""
hex (b ∷ l) = get_or ldigits (b / 16 % 16) "f" <> get_or ldigits (b % 16) "f" <> hex l

abbrev pub drop : ℕ → Bytes → Bytes
drop zero l = l
drop (suc n) [] = []
drop (suc n) (b ∷ l) = drop n l

-- buf[i:j]
abbrev pub between : ℕ → ℕ → Bytes → Bytes
between i j buf = take (j - i) (drop i buf)

abbrev pub id_of : Bytes → String
id_of buf =
    hex (between 0 4 buf)
    <> "-"
    <> hex (between 4 6 buf)
    <> "-"
    <> hex (between 6 8 buf)
    <> "-"
    <> hex (between 8 10 buf)
    <> "-"
    <> hex (between 10 16 buf)

-- With what rand.Read leaves in the buffer of 16 bytes, or none for an error.
unfoldable pub generate : Option Bytes → Go String
generate none = panic
generate (some buf) = ok (id_of buf)

unfoldable pub short : Option Bytes → Go String
short read = generate read >>= λ id. if ltb (len id) 8 then panic else ok (slice id 0 8)
