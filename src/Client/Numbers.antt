-- ===== src/Client/Numbers.antt =====
-- %d and strconv.ParseInt, which the client commands use.
use eth2_validator.Base.{
  ℕ, zero, suc, ◌+◌, ◌-◌, ◌*◌, ◌/◌, ◌%◌, ◌^◌, ℤ, pos, negsuc, Bool, true, false, String, Option,
  none, some, string_eq, nat_beq, ltb, leb, ◌&&◌, if◌then◌else◌,
}
use Prim.Native.Char.{Char, code}
use Prim.Native.String.{String as Str, ◌++◌ as ◌<>◌}

-- %d of a number that is not negative.
abbrev pub digit : ℕ → String
digit n =
    if nat_beq n 0
    then "0"
    else if nat_beq n 1
    then "1"
    else if nat_beq n 2
    then "2"
    else if nat_beq n 3
    then "3"
    else if nat_beq n 4
    then "4"
    else if nat_beq n 5
    then "5"
    else if nat_beq n 6
    then "6"
    else if nat_beq n 7
    then "7"
    else if nat_beq n 8
    then "8"
    else "9"

-- With fuel, of which n + 1 is enough.
unfoldable pub digits : ℕ → ℕ → String
digits zero n = ""
digits (suc fuel) n =
    let rest = digits fuel (n / 10) in if ltb n 10 then digit n else rest <> digit (n % 10)

unfoldable pub decimal : ℕ → String
unfolding digits
decimal n = digits (suc n) n

abbrev pub digit_of : Char → Option ℕ
digit_of c = if leb 48 (code c) && leb (code c) 57 then some (code c - 48) else none

-- The digits of a text, behind those of `n`.
unfoldable pub parse_digits : String → ℕ → Option ℕ
parse_digits Str.[] n = some n
parse_digits (Str.◌∷◌ c s) n =
    let rest = λ (d : ℕ). parse_digits s (n * 10 + d) in
    elim (digit_of c) [ none ↦ none | some d ↦ rest d ]

abbrev pub not_empty : String → Option ℕ
not_empty Str.[] = none
not_empty (Str.◌∷◌ c s) = parse_digits (Str.◌∷◌ c s) 0

abbrev pub in_range : Bool → Option ℕ → Option ℤ
in_range negative none = none
in_range false (some n) = if ltb n (2 ^ 63) then some (pos n) else none
in_range true (some zero) = some (pos 0)
in_range true (some (suc n)) = if ltb n (2 ^ 63) then some (negsuc n) else none

-- strconv.ParseInt in base 10 with 64 bits; `none` is an error.
unfoldable pub parse_int : String → Option ℤ
unfolding parse_digits
parse_int Str.[] = none
parse_int (Str.◌∷◌ c s) =
    if nat_beq (code c) 43
    then in_range false (not_empty s)
    else if nat_beq (code c) 45
    then in_range true (not_empty s)
    else in_range false (not_empty (Str.◌∷◌ c s))
