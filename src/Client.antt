-- ===== src/Client.antt =====
-- internal/cmd: the commands that ask a server for its lists (commands.go, duty_list.go,
-- validator_list.go, validator_duties.go). pflag, the gRPC client, columnize and the operating
-- system are the record Remote. `Rows` is about the tables that are printed.
pub mod Numbers
pub mod Rows
use eth2_validator.Base.{
  string_eq, ℕ, zero, suc, ℤ, negsuc, Bool, true, false, List, [], ◌∷◌, String, Option, none, some,
  Go, ok, panic, out_of_fuel, ◌>>=◌, ◌==◌, nat_beq, ltb, if◌then◌else◌,
}
use Prim.Native.String.{◌++◌ as ◌<>◌, len, slice}
use eth2_validator.Array.{length}
use eth2_validator.Base.Try.{Try, value, error}
use eth2_validator.Duty.{
  Bytes, Duty, Validator, Metadata, State, unknown, pending, complete, failed, canceled, type_of,
  type_text,
}
use eth2_validator.State.Index.{ascii}
use eth2_validator.State.Keys.{lt_bytes}
use eth2_validator.Command.{
  Setting, string_flag, bool_flag, outputs, errors, writes, Run, after, or_exit,
}
use eth2_validator.Slashing.{Encoding, format, each}
use eth2_validator.Client.Numbers.{decimal, parse_int}

-- Duty_State in text.
abbrev pub state_text : State → String
state_text unknown = "UNKNOWN"
state_text pending = "PENDING"
state_text complete = "COMPLETE"
state_text failed = "FAILED"
state_text canceled = "CANCELED"

-- The order that formatDuties gives to sort.Slice.
unfoldable pub less_duty : Duty → Duty → Bool
less_duty d0 d1 =
    if lt_bytes (ascii d0.pub_key) (ascii d1.pub_key)
    then true
    else if ltb d0.slot d1.slot
    then true
    else false

-- d.Id[:8], of an id in ASCII.
abbrev pub short_id : String → Go String
short_id id = if ltb (len id) 8 then panic else ok (slice id 0 8)

unfoldable pub duty_row : Duty → Go String
duty_row d = do
  id ← short_id d.id
  typ ← type_of d
  ok (
      id
      <> "|"
      <> decimal d.validator_index
      <> "|"
      <> type_text typ
      <> "|"
      <> decimal d.slot
      <> "|"
      <> state_text d.state)

abbrev pub metadata_row : Metadata → String
metadata_row m = decimal m.index <> "|" <> decimal m.activation_epoch

-- The validators with metadata, by these.
unfoldable pub active : List Validator → List Metadata
active [] = []
active (v ∷ l) = let rest = active l in elim v.metadata [ none ↦ rest | some m ↦ m ∷ rest ]

-- make([]string, n)
abbrev pub blanks : ℕ → List String
blanks zero = []
blanks (suc n) = "" ∷ blanks n

-- The loop that writes the rows into the slice from its first slot on.
unfoldable pub fill : List String → List Metadata → Go (List String)
fill slots [] = ok slots
fill [] (m ∷ l) = panic
fill (slot ∷ slots) (m ∷ l) = fill slots l >>= λ rest. ok (metadata_row m ∷ rest)

unfoldable pub validator_rows : List Validator → Go (List String)
validator_rows vals = fill (blanks (length vals)) (active vals) >>= λ rows.
    ok ("Validator id|Activation epoch" ∷ rows)

-- An error is its text.
pub record Remote : Type 0 where
  -- Parse of pflag, for the names of the string flags and of the Boolean flags: the settings in
  -- their order, and the arguments that are no flags.
  pub parse : List String → List String → List String → Try String (List Setting × List String)
  pub dial : String → Try String (Unit {0})
  pub list_duties : String → ℤ → Try String (List Duty)
  pub list_validators : String → Try String (List Validator)
  pub get_genesis : String → Try String Bytes
  -- sort.Slice, by an order.
  pub sort : (Duty → Duty → Bool) → List Duty → List Duty
  -- columnize.Format, with <none> for an empty cell.
  pub format_list : List String → String
  pub encoding : Encoding
  pub marshal_error : String
  pub write_file : String → Bytes → Try String (Unit {0})

-- The address of the last flag for it.
unfoldable pub address : List Setting → String → String
address [] addr = addr
address (string_flag name v ∷ l) addr = address l (if name == "address" then v else addr)
address (bool_flag name b ∷ l) addr = address l addr

unfoldable pub exports : List Setting → Bool → Bool
exports [] export = export
exports (string_flag name v ∷ l) export = exports l export
exports (bool_flag name b ∷ l) export = exports l (if name == "export" then b else export)

abbrev pub or_panics : {A : Type 0} → Go A → (A → Run) → Run
or_panics (ok a) rest = rest a
or_panics panic rest = ([], panic)
or_panics out_of_fuel rest = ([], out_of_fuel)

abbrev pub done : Run
done = ([], ok 0)

module _ (remote : Remote) where
  unfoldable pub duty_rows : List Duty → Go (List String)
  duty_rows duties = each duty_row (remote.sort less_duty duties) >>= λ rows.
      ok ("ID|Validator|Type|Slot|State" ∷ rows)

  unfoldable pub format_duties : List Duty → Go String
  format_duties duties =
      let table = duty_rows duties >>= λ rows. ok (remote.format_list rows) in
      if nat_beq (length duties) 0 then ok "No duties found" else table

  unfoldable pub format_validators : List Validator → Go String
  format_validators vals =
      let table = validator_rows vals >>= λ rows. ok (remote.format_list rows) in
      if nat_beq (length vals) 0 then ok "No validators found" else table

  -- Meta.Conn, which gives back the address of the connection.
  unfoldable pub conn : List Setting → (String → Run) → Run
  conn settings rest =
      let addr = address settings "localhost:4002" in
      or_exit (λ e. errors ("failed to connect to server: " <> e)) (remote.dial addr) λ _. rest addr

  unfoldable pub duty_list : List String → Run
  duty_list args = or_exit errors (remote.parse ("address" ∷ []) [] args) λ (settings, _).
      conn settings λ addr.
        or_exit errors (remote.list_duties addr (negsuc 0))
          λ duties. or_panics (format_duties duties) λ text. after (outputs text) done

  unfoldable pub validator_list : List String → Run
  validator_list args = or_exit errors (remote.parse ("address" ∷ []) [] args) λ (settings, _).
      conn settings λ addr.
        or_exit errors (remote.list_validators addr)
          λ vals. or_panics (format_validators vals) λ text. after (outputs text) done

  abbrev pub marshalled : Option Bytes → Try String Bytes
  marshalled none = error remote.marshal_error
  marshalled (some res) = value res

  -- The branch of validator duties that writes the file.
  unfoldable pub export_duties : String → List Duty → Run
  export_duties addr duties = or_exit errors (remote.get_genesis addr) λ root.
      or_panics (format remote.encoding (record { genesis_validator_root = root; duties = duties }))
        λ o. or_exit errors (marshalled o) λ res.
          or_exit errors (remote.write_file "output.json" res) λ _.
            after (writes "output.json" res)
              (after (outputs "Slashing info exported to output.json...") done)

  unfoldable pub show_duties : List Setting → ℤ → Run
  show_duties settings validator_id = conn settings λ addr.
      or_exit errors (remote.list_duties addr validator_id) λ duties.
        let exported = export_duties addr duties in
        let shown = or_panics (format_duties duties) λ text. after (outputs text) done in
        if exports settings false then exported else shown

  abbrev pub with_id : List Setting → Option ℤ → Run
  with_id settings none = (errors "cannot convert arg to int" ∷ [], ok 1)
  with_id settings (some validator_id) = show_duties settings validator_id

  abbrev pub with_args : List Setting → List String → Run
  with_args settings (arg ∷ []) = with_id settings (parse_int arg)
  with_args settings _ = (errors "validator not found in args" ∷ [], ok 1)

  unfoldable pub validator_duties : List String → Run
  validator_duties args =
      or_exit errors (remote.parse ("address" ∷ []) ("export" ∷ []) args)
        λ (settings, rest). with_args settings rest
