-- ===== src/Client/Rows.antt =====
-- The rows of the tables.
use eth2_validator.Base.{
  ℕ, suc, ◌+◌, ◌<◌, ◌≤◌, ◌≡◌, ◌↔◌, refl, ap, ◌∙◌, inl, inr, true, false, Bool, List, [], ◌∷◌, ◌++◌,
  map, String, none, some, ok, Returns, returns, Returns-bind, Returns-if, Returns-inv,
  Option-cases, ltb, lt→ltb, ltb→lt, arith,
}
use Prim.Native.String.{len}
use eth2_validator.Array.{length}
use eth2_validator.Base.Try.{IsEntryOf}
use eth2_validator.Duty.{Duty, Validator, Metadata, HasJob, type_of}
use eth2_validator.State.Index.{ascii}
use eth2_validator.State.Keys.{lt_bytes}
use eth2_validator.Slashing.Each.{AreResults, each-AreResults}
use eth2_validator.Client.{
  less_duty, short_id, duty_row, metadata_row, active, blanks, fill, validator_rows, Remote,
  duty_rows,
}

-- The validators without metadata, counted.
abbrev pub inactive : List Validator → ℕ
inactive [] = 0
inactive (v ∷ l) = elim v.metadata [ none ↦ suc (inactive l) | some m ↦ inactive l ]

length-active : (l : List Validator) → length l ≡ length (active l) + inactive l
unfolding active
length-active [] = refl
length-active (v ∷ l) =
    let e = length-active l in
    elim (Option-cases v.metadata) [
      | inl absent ↦ rw (absent, active) (omega (arith, e))
      | inr (m, found) ↦ rw (found, active) (omega (arith, e))
    ]

fill-blanks :
    (l : List Metadata) (n : ℕ)
    → fill (blanks (length l + n)) l ≡ ok (map metadata_row l ++ blanks n)
unfolding fill
fill-blanks [] n = ap (λ k. ok (blanks k)) (omega arith)
fill-blanks (m ∷ l) n =
    let e : length (m ∷ l) + n ≡ suc (length l + n) = omega arith in rw (e, fill-blanks l n) refl

-- The table of the validators never panics. It has the head, a row for each validator with
-- metadata in their order, and an empty row for each one without.
pub validator_rows_lem :
    (vals : List Validator)
    → validator_rows vals
      ≡ ok (
          "Validator id|Activation epoch" ∷ map metadata_row (active vals)
          ++ blanks (inactive vals))
unfolding validator_rows
validator_rows_lem vals = rw (length-active vals, fill-blanks (active vals) (inactive vals)) refl

-- Where the public keys and the slots of two duties are in opposite orders, the order of
-- formatDuties puts each before the other.
pub less_duty-both :
    (d0 d1 : Duty)
    → lt_bytes (ascii d0.pub_key) (ascii d1.pub_key) ≡ true
    → lt_bytes (ascii d1.pub_key) (ascii d0.pub_key) ≡ false
    → d1.slot < d0.slot
    → (less_duty d0 d1 ≡ true) × (less_duty d1 d0 ≡ true)
unfolding less_duty
less_duty-both d0 d1 e f h = (rw e refl, rw (f, lt→ltb d1.slot d0.slot h) refl)

-- sort.Slice keeps the entries.
pub record IsSort (remote : Remote) : Type 0 where
  pub size : (less : Duty → Duty → Bool) (l : List Duty) → length (remote.sort less l) ≡ length l
  pub entries :
      (less : Duty → Duty → Bool) (l : List Duty) (d : Duty)
      → IsEntryOf d (remote.sort less l) ↔ IsEntryOf d l

-- A duty with a job and an id of at least eight bytes has a row.
duty_row-ok : (d : Duty) → HasJob d → 8 ≤ len d.id → (text : String) × (duty_row d ≡ ok text)
unfolding duty_row type_of
duty_row-ok d (j, e) h =
    let row : Returns (λ text. Unit {0}) (duty_row d) =
      Returns-bind short λ id _. Returns-bind typed λ typ _. returns tt in
    let (text, made, _) = Returns-inv row in (text, made)
  where
    short : Returns (λ id. Unit {0}) (short_id d.id)
    short =
        Returns-if (ltb (len d.id) 8)
          (λ below. absurd (omega (arith, ltb→lt (len d.id) 8 below, h))) (λ long. returns tt)

    typed : Returns (λ typ. Unit {0}) (type_of d)
    typed = rw e (returns tt)

-- Where sort.Slice keeps the entries, and every duty has a job and an id of at least eight bytes,
-- the table of the duties is made: it has the head and one row for each duty, and the rows are
-- those of the duties.
pub duty_rows_correct :
    (remote : Remote) (l : List Duty)
    → IsSort remote
    → ((d : Duty) → IsEntryOf d l → HasJob d × (8 ≤ len d.id))
    → Returns
        (λ rows.
          (body : List String) × (rows ≡ "ID|Validator|Type|Slot|State" ∷ body)
          × AreResults duty_row l body)
        (duty_rows remote l)
unfolding duty_rows
duty_rows_correct remote l S h =
    Returns-bind
      (each-AreResults duty_row (remote.sort less_duty l)
        λ d i. let (job, long) = h d ((S.entries less_duty l d).0 i) in duty_row-ok d job long)
      λ body (size, at). returns (
        body,
        refl,
        (
          size ∙ S.size less_duty l,
          λ y. (
            (λ i. let (x, k, q) = (at y).0 i in (x, (S.entries less_duty l x).0 k, q)),
            λ (x, i, q). (at y).1 (x, (S.entries less_duty l x).1 i, q),
          ),
        ),
      )
