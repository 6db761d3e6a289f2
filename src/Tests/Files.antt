-- ===== src/Tests/Files.antt =====
-- A state in lists, with what is asked of its parts: a bucket is a map of what was encoded, and the
-- keys of the indexes are bytes in the order of the numbers.
use mathlib.Core.List.{append-nil}
use mathlib.Core.Path.{ap₂}
use eth2_validator.Base.{
  ℕ, ltb, leb, if◌then◌else◌, ◌++◌, ◌≡◌, ◌≢◌, ◌↔◌, inl, inr, refl, sym, ap, ◌∙◌, Bool, true, false,
  List, [], ◌∷◌, String, none, some, arith, string_eq, key_cases, beq_self,
}
use eth2_validator.Base.Try.{value, error, IsEntryOf}
use eth2_validator.GoMap.{Map, lookup, insert, lookup-insert}
use eth2_validator.Duty.{Bytes, Duty, Validator}
use eth2_validator.State.Index.{big_endian, write_string}
use eth2_validator.State.Keys.{lt_bytes, big_endian_order}
use eth2_validator.State.Memdb.{Indexers, IsIndexers}
use eth2_validator.State.Schema.{duties_schema, validators_schema}
use eth2_validator.State.Bolt.{decode_failed, Bolt, IsBolt, Codec, IsCodec}
use eth2_validator.State.Store.{Parts, State}
use eth2_validator.State.Store.Restart.{IsParts, IsConsistent}
use eth2_validator.Tests.Tables.{list_db, list_db-IsMemdb}

-- What stands in a bucket.
pub data Record : Type 0 where
  duty_record : Duty → Record
  validator_record : Validator → Record

abbrev pub keys_of_map : Map String Record → List String
keys_of_map [] = []
keys_of_map ((k, v) ∷ m) = k ∷ keys_of_map m

keys_of_map_lem :
    (m : Map String Record) (k : String) → IsEntryOf k (keys_of_map m) ↔ (lookup k m ≢ none)
unfolding lookup
keys_of_map_lem [] k = (λ i. absurd i, λ n. absurd (n refl))
keys_of_map_lem ((j, v) ∷ m) k = elim (key_cases j k) [
  | inl same ↦
      let done : lookup k ((j, v) ∷ m) ≡ some v = rw (same, beq_self k) refl in
      (λ i e. cc (e, done), λ n. inl (sym same))
  | inr (apart, other) ↦ rw other (
    (λ i. elim i [ inl e ↦ absurd (apart (sym e)) | inr h ↦ (keys_of_map_lem m k).0 h ]),
    λ n. inr ((keys_of_map_lem m k).1 n),
  )
]

abbrev pub file : Bolt
file = record {
  Value = Record;
  Bucket = Map String Record;
  empty = [];
  get = λ b k. lookup k b;
  put = λ b k v. value (insert k v b);
  keys = keys_of_map;
  commit = λ b. value tt;
}

file-IsBolt : IsBolt file
file-IsBolt = record {
  get-empty = λ k. unfold lookup in refl;
  get-put =
      λ b b' k j v e. let e' : insert k v b ≡ b' = cc e in rw (sym e') (lookup-insert k j v b);
  keys_lem = keys_of_map_lem;
}

abbrev pub duties_codec : Codec Record Duty
duties_codec = record {
  marshal = λ d. value (duty_record d);
  unmarshal = λ r. elim r [ duty_record d ↦ value d | validator_record v ↦ error decode_failed ];
}

abbrev pub validators_codec : Codec Record Validator
validators_codec = record {
  marshal = λ v. value (validator_record v);
  unmarshal = λ r. elim r [ duty_record d ↦ error decode_failed | validator_record v ↦ value v ];
}

duties_codec-IsCodec : IsCodec duties_codec
duties_codec-IsCodec = record {
  unmarshal-marshal =
      λ d r e. let q : duty_record d ≡ r = cc e in ap duties_codec.unmarshal (sym q);
}

validators_codec-IsCodec : IsCodec validators_codec
validators_codec-IsCodec = record {
  unmarshal-marshal =
      λ v r e. let q : validator_record v ≡ r = cc e in ap validators_codec.unmarshal (sym q);
}

abbrev bool_byte : Bool → Bytes
bool_byte true = 1 ∷ []
bool_byte false = 0 ∷ []

abbrev pub byte_keys : Indexers
byte_keys = record { string_key = write_string []; bool_key = bool_byte; uint_key = big_endian 8 }

behind :
    (a b : ℕ) (j : Bytes)
    → j ≢ []
    → (if ltb a b then true else if ltb b a then false else lt_bytes [] j) ≡ leb a b
unfolding lt_bytes
behind a b [] h = absurd (h refl)
behind a b (x ∷ j) h = ground arith

byte_keys-IsIndexers : IsIndexers byte_keys
byte_keys-IsIndexers = record {
  bool_key-ne = λ e. cc e;
  uint_key-order = λ a b ha hb.
      ap₂ lt_bytes (sym (append-nil (big_endian 8 a))) (sym (append-nil (big_endian 8 b)))
      ∙ big_endian_order 8 a b [] [] ha hb
      ∙ (unfold lt_bytes in ground arith);
  uint_key-behind = λ a b j ha hb some_bytes.
      ap (λ k. lt_bytes k (big_endian 8 b ++ j)) (sym (append-nil (big_endian 8 a)))
      ∙ big_endian_order 8 a b [] j ha hb
      ∙ behind a b j some_bytes;
}

abbrev pub parts : Parts
parts = record {
  bolt = file;
  duties_db = list_db (λ d. d.id) (duties_schema byte_keys);
  validators_db = list_db (λ v. v.pub_key) (validators_schema byte_keys);
  duties_codec = duties_codec;
  validators_codec = validators_codec;
  indexers = byte_keys;
}

pub parts-IsParts : IsParts parts
parts-IsParts = record {
  bolt = file-IsBolt;
  duties_db = list_db-IsMemdb (λ d. d.id) (duties_schema byte_keys);
  validators_db = list_db-IsMemdb (λ v. v.pub_key) (validators_schema byte_keys);
  duties_codec = duties_codec-IsCodec;
  validators_codec = validators_codec-IsCodec;
  indexers = byte_keys-IsIndexers;
}

-- The state of a new file.
abbrev pub empty_state : State parts
empty_state = record { duties = []; duties_bucket = []; validators = []; validators_bucket = [] }

pub empty_state-IsConsistent : IsConsistent parts empty_state
empty_state-IsConsistent = record {
  duties = λ k. unfold lookup in parts-IsParts.duties_db.by_id-empty k;
  validators = λ k. unfold lookup in parts-IsParts.validators_db.by_id-empty k;
}
