-- ===== src/Tests/Printed.antt =====
-- The tables of two duties and of two validators, and a command that prints one.
use eth2_validator.Base.{
  ◌≤◌, ◌≡◌, inl, inr, refl, subst, sym, List, [], ◌∷◌, ◌++◌, map, String, some, none, ok, negsuc,
  arith, Returns,
}
use Prim.Native.String.{len}
use eth2_validator.Base.Try.{value, IsEntryOf}
use eth2_validator.Duty.{
  Duty, Validator, new_duty, block_proposal, HasJob, type_of, job_type, type_text,
}
use eth2_validator.Slashing.Each.{AreResults}
use eth2_validator.Slashing.{each}
use eth2_validator.Command.{outputs}
use eth2_validator.Client.Numbers.{digits, decimal, parse_int, parse_digits}
use eth2_validator.Client.{
  duty_row, metadata_row, active, blanks, validator_rows, Remote, duty_rows, address, format_duties,
  conn, validator_duties, show_duties, exports,
}
use eth2_validator.Client.Rows.{inactive, validator_rows_lem, IsSort, duty_rows_correct}

abbrev first : Duty
first = record new_duty {
  id = "11111111-1111";
  pub_key = "a";
  slot = 70;
  validator_index = 12;
  job = some block_proposal;
}

abbrev second : Duty
second = record first { id = "22222222-2222"; pub_key = "b"; slot = 69 }

abbrev remote : Remote
remote = record {
  parse = λ texts switches args. value ([], args);
  dial = λ addr. value tt;
  list_duties = λ addr id. value (first ∷ []);
  list_validators = λ addr. value [];
  get_genesis = λ addr. value [];
  sort = λ less l. l;
  format_list = λ rows. elim rows [ [] ↦ "" | head ∷ rest ↦ head ];
  encoding = record { hex = λ bytes. ""; marshal = λ d. some [] };
  marshal_error = "";
  write_file = λ name bytes. value tt;
}

remote-IsSort : IsSort remote
remote-IsSort = record { size = λ less l. refl; entries = λ less l d. (λ i. i, λ i. i) }

row_of_first : duty_row first ≡ ok "11111111|12|block-proposal|70|UNKNOWN"
unfolding duty_row type_of job_type type_text decimal digits new_duty
row_of_first = refl

duty_rows_correct_example :
    Returns
      (λ rows.
        (body : List String) × (rows ≡ "ID|Validator|Type|Slot|State" ∷ body)
        × AreResults duty_row (first ∷ second ∷ []) body)
      (duty_rows remote (first ∷ second ∷ []))
duty_rows_correct_example = duty_rows_correct remote (first ∷ second ∷ []) remote-IsSort ready
  where
    ready : (d : Duty) → IsEntryOf d (first ∷ second ∷ []) → HasJob d × (8 ≤ len d.id)
    ready d (inl e) =
        subst (λ x. HasJob x × (8 ≤ len x.id)) (sym e) ((block_proposal, refl), omega arith)
    ready d (inr (inl e)) =
        subst (λ x. HasJob x × (8 ≤ len x.id)) (sym e) ((block_proposal, refl), omega arith)
    ready d (inr (inr e)) = absurd e

abbrev known : Validator
known = record {
  pub_key = "a";
  priv_key = "";
  metadata = some (record { index = 12; activation_epoch = 3 });
}

abbrev unknown_yet : Validator
unknown_yet = record { pub_key = "b"; priv_key = ""; metadata = none }

validator_rows_lem_example :
    validator_rows (known ∷ unknown_yet ∷ [])
    ≡ ok (
        "Validator id|Activation epoch" ∷ map metadata_row (active (known ∷ unknown_yet ∷ []))
        ++ blanks (inactive (known ∷ unknown_yet ∷ [])))
validator_rows_lem_example = validator_rows_lem (known ∷ unknown_yet ∷ [])

parsed : parse_int "-12" ≡ some (negsuc 11)
unfolding parse_int parse_digits
parsed = refl

-- A command for one validator, without the flag for the export.
printed : validator_duties remote ("12" ∷ []) ≡ (outputs "ID|Validator|Type|Slot|State" ∷ [], ok 0)
unfolding validator_duties show_duties parse_int parse_digits conn address exports format_duties
    duty_rows each duty_row type_of
printed = refl
