-- ===== src/State/Index.antt =====
-- The indexers of internal/server/state/index.go. An argument of a query has a dynamic type, and an
-- error is its kind.
use Prim.Native.String.{String as Str}
use Prim.Native.Char.{code}
use eth2_validator.Base.{
  ℕ, zero, suc, ◌/◌, ◌%◌, Bool, ◌||◌, List, [], ◌∷◌, ◌++◌, String, Option, none, some, ◌==◌,
  string_eq, if◌then◌else◌,
}
use eth2_validator.Base.Try.{Try, value, error, crash}
use eth2_validator.Duty.{
  Bytes, Duty, block_proposal, attestation, Checkpoint, DutyType, job_type, type_text, Metadata,
  Validator,
}

-- The bytes of an ASCII string.
unfoldable pub ascii : Str → Bytes
ascii Str.[] = []
ascii (Str.◌∷◌ c s) = code c ∷ ascii s

-- binary.BigEndian.PutUint64, for `n` bytes.
unfoldable pub big_endian : ℕ → ℕ → Bytes
big_endian zero x = []
big_endian (suc n) x = big_endian n (x / 256) ++ (x % 256) ∷ []

-- The methods of bytesWritter, whose `out` is the list.
unfoldable pub write_uint64 : Bytes → ℕ → Bytes
write_uint64 out i = out ++ big_endian 8 i

unfoldable pub write_string : Bytes → String → Bytes
unfolding ascii
write_string out s = out ++ ascii s ++ 0 ∷ []

pub data Arg : Type 0 where
  uint64_arg : ℕ → Arg
  string_arg : String → Arg
  bool_arg : Bool → Arg
  duty_type_arg : DutyType → Arg

pub data IndexError : Type 0 where
  bad_job bad_arg_count bad_arg_type bad_typ : IndexError

-- IndexJob
unfoldable pub job_from_object : Duty → Try IndexError Bytes
unfolding ascii job_type type_text
job_from_object d = elim d.job [
  | none ↦ error bad_job
  | some j ↦ value (ascii (type_text (job_type j)))
]

-- The assertion of the argument's type panics.
unfoldable pub job_from_args : List Arg → Try IndexError Bytes
unfolding ascii type_text
job_from_args (duty_type_arg typ ∷ []) = value (ascii (type_text typ))
job_from_args (_ ∷ []) = crash
job_from_args _ = error bad_arg_count

-- activeValidatorIndex over a UintFieldIndex of the metadata, of the field `field` with the key
-- `key`. `none` stands for a validator that the index leaves out.
unfoldable pub active_from_object :
    (ℕ → Bytes) → (Metadata → ℕ) → Validator → Try IndexError (Option Bytes)
active_from_object key field v = elim v.metadata [
  | none ↦ value none
  | some m ↦ value (some (key (field m)))
]

unfoldable pub active_from_args : (ℕ → Bytes) → List Arg → Try IndexError Bytes
active_from_args key [] = error bad_arg_count
active_from_args key (uint64_arg n ∷ _) = value (key n)
active_from_args key (_ ∷ _) = error bad_arg_type

-- slashingBlockIndex. `none` stands for a duty that the index leaves out; the type of a duty with no
-- job panics.
unfoldable pub block_from_object : Duty → Try IndexError (Option Bytes)
block_from_object d = elim d.job [
  | none ↦ crash
  | some block_proposal ↦ elim d.result [
    | none ↦ value none
    | some r ↦ value (some (write_uint64 (write_uint64 [] d.validator_index) d.slot))
  ]
  | some _ ↦ value none
]

unfoldable pub block_from_args : List Arg → Try IndexError Bytes
block_from_args (uint64_arg val_id ∷ uint64_arg slot_id ∷ []) =
    value (write_uint64 (write_uint64 [] val_id) slot_id)
block_from_args (_ ∷ _ ∷ []) = error bad_arg_type
block_from_args _ = error bad_arg_count

unfoldable pub block_prefix_from_args : List Arg → Try IndexError Bytes
block_prefix_from_args (uint64_arg val_id ∷ []) = value (write_uint64 [] val_id)
block_prefix_from_args (_ ∷ []) = error bad_arg_type
block_prefix_from_args _ = error bad_arg_count

-- slashingAttestIndex. A result with no attestation is a nil pointer that is read.
unfoldable pub checkpoint_key : Duty → String → Checkpoint → Bytes
checkpoint_key d name c =
    write_uint64 (write_string (write_uint64 [] d.validator_index) name) c.epoch

unfoldable pub attest_from_object : Duty → Try IndexError (Option (List Bytes))
attest_from_object d = elim d.job [
  | none ↦ crash
  | some (attestation _) ↦ elim d.result [
    | none ↦ value none
    | some r ↦ elim r.attestation [
      | none ↦ crash
      | some a ↦
          value
            (some (checkpoint_key d "source" a.source ∷ checkpoint_key d "target" a.target ∷ []))
    ]
  ]
  | some _ ↦ value none
]

-- FromArgs of this index is not written: it panics.
unfoldable pub attest_from_args : List Arg → Try IndexError Bytes
attest_from_args args = crash

unfoldable pub attest_prefix_from_args : List Arg → Try IndexError Bytes
attest_prefix_from_args (uint64_arg val_id ∷ string_arg typ ∷ []) =
    if (typ == "source") || (typ == "target")
    then value (write_string (write_uint64 [] val_id) typ)
    else error bad_typ
attest_prefix_from_args (_ ∷ _ ∷ []) = error bad_arg_type
attest_prefix_from_args _ = error bad_arg_count
