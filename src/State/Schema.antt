-- ===== src/State/Schema.antt =====
-- internal/server/state/schema.go: the two tables and their indexes.
use eth2_validator.Base.{
  Bool, true, false, List, [], ◌∷◌, String, Option, none, some, ◌==◌, string_eq, if◌then◌else◌,
}
use eth2_validator.Base.Try.{Try, value, error, ◌>>=◌}
use eth2_validator.Duty.{Bytes, Duty, Validator, Metadata}
use eth2_validator.State.Index.{
  Arg, string_arg, bool_arg, IndexError, bad_arg_count, bad_arg_type, job_from_object,
  job_from_args, active_from_object, active_from_args, block_from_object, block_from_args,
  block_prefix_from_args, attest_from_object, attest_from_args, attest_prefix_from_args,
}
use eth2_validator.State.Memdb.{Index, Indexers}

-- An indexer that gives one key.
abbrev pub single : Option Bytes → Option (List Bytes)
single none = none
single (some k) = some (k ∷ [])

-- A query by prefix at an indexer that has no PrefixFromArgs.
abbrev no_prefix : List Arg → Try IndexError Bytes
no_prefix args = error bad_arg_type

-- FieldSetIndex of the metadata.
abbrev pub is_set : Option Metadata → Bool
is_set none = false
is_set (some m) = true

module _ (ixs : Indexers) where
  unfoldable pub string_from_args : List Arg → Try IndexError Bytes
  string_from_args (string_arg s ∷ []) = value (ixs.string_key s)
  string_from_args (_ ∷ []) = error bad_arg_type
  string_from_args _ = error bad_arg_count

  unfoldable pub bool_from_args : List Arg → Try IndexError Bytes
  bool_from_args (bool_arg b ∷ []) = value (ixs.bool_key b)
  bool_from_args (_ ∷ []) = error bad_arg_type
  bool_from_args _ = error bad_arg_count

  -- StringFieldIndex: the empty string is left out.
  unfoldable pub string_from_object {ℓ} :
      {T : Type ℓ} → (T → String) → T → Try IndexError (Option (List Bytes))
  string_from_object field x =
      if field x == "" then value none else value (some (ixs.string_key (field x) ∷ []))

  abbrev pub duty_id_index : Index Duty
  duty_id_index = record {
    name = "id";
    unique = true;
    allow_missing = false;
    from_object = string_from_object (λ d. d.id);
    from_args = string_from_args;
    prefix_from_args = string_from_args;
  }

  abbrev pub type_index : Index Duty
  type_index = record {
    name = "type";
    unique = false;
    allow_missing = false;
    from_object = λ d. job_from_object d >>= λ k. value (some (k ∷ []));
    from_args = job_from_args;
    prefix_from_args = no_prefix;
  }

  abbrev pub block_proposer_index : Index Duty
  block_proposer_index = record {
    name = "block_proposer";
    unique = false;
    allow_missing = true;
    from_object = λ d. block_from_object d >>= λ o. value (single o);
    from_args = block_from_args;
    prefix_from_args = block_prefix_from_args;
  }

  abbrev pub attest_proposer_index : Index Duty
  attest_proposer_index = record {
    name = "attest_proposer";
    unique = false;
    allow_missing = true;
    from_object = attest_from_object;
    from_args = attest_from_args;
    prefix_from_args = attest_prefix_from_args;
  }

  abbrev pub duties_schema : List (Index Duty)
  duties_schema = duty_id_index ∷ type_index ∷ block_proposer_index ∷ attest_proposer_index ∷ []

  abbrev pub validator_id_index : Index Validator
  validator_id_index = record {
    name = "id";
    unique = true;
    allow_missing = false;
    from_object = string_from_object (λ v. v.pub_key);
    from_args = string_from_args;
    prefix_from_args = string_from_args;
  }

  abbrev pub pending_index : Index Validator
  pending_index = record {
    name = "pending";
    unique = false;
    allow_missing = false;
    from_object = λ v. value (some (ixs.bool_key (is_set v.metadata) ∷ []));
    from_args = bool_from_args;
    prefix_from_args = no_prefix;
  }

  abbrev pub validator_index_index : Index Validator
  validator_index_index = record {
    name = "index";
    unique = false;
    allow_missing = true;
    from_object = λ v. active_from_object ixs.uint_key (λ m. m.index) v >>= λ o. value (single o);
    from_args = active_from_args ixs.uint_key;
    prefix_from_args = no_prefix;
  }

  abbrev pub activation_epoch_index : Index Validator
  activation_epoch_index = record {
    name = "activationEpoch";
    unique = false;
    allow_missing = true;
    from_object =
        λ v. active_from_object ixs.uint_key (λ m. m.activation_epoch) v >>= λ o. value (single o);
    from_args = active_from_args ixs.uint_key;
    prefix_from_args = no_prefix;
  }

  abbrev pub validators_schema : List (Index Validator)
  validators_schema =
      validator_id_index ∷ pending_index ∷ validator_index_index ∷ activation_epoch_index ∷ []
