-- ===== src/State/Bolt.antt =====
-- boltdb and the encoding of protobuf: the buckets behind the state, and what is documented of them.
-- The keys of a bucket are texts here, for their bytes, and its values are of a type of the library.
use eth2_validator.Base.{
  ◌≡◌, ◌↔◌, List, String, Option, none, some, ◌==◌, string_eq, if◌then◌else◌, ◌≢◌,
}
use eth2_validator.Base.Try.{Try, value, IsEntryOf}
use eth2_validator.State.Index.{IndexError}

-- The errors of the state, by their origin.
pub data StateError : Type 0 where
  index_failed : IndexError → StateError
  bolt_failed encode_failed decode_failed record_not_found : StateError

-- `commit` is the end of an Update whose function returned no error; at an error nothing is written.
-- `keys` are those that ForEach visits.
pub record Bolt : Type 1 where
  pub Value : Type 0
  pub Bucket : Type 0
  pub empty : Bucket
  pub get : Bucket → String → Option Value
  pub put : Bucket → String → Value → Try StateError Bucket
  pub keys : Bucket → List String
  pub commit : Bucket → Try StateError (Unit {0})

pub record IsBolt (bolt : Bolt) : Type 0 where
  pub get-empty : (k : String) → bolt.get bolt.empty k ≡ none
  pub get-put :
      (b b' : bolt.Bucket) (k j : String) (v : bolt.Value)
      → bolt.put b k v ≡ value b'
      → bolt.get b' j ≡ (if k == j then some v else bolt.get b j)
  pub keys_lem : (b : bolt.Bucket) (k : String) → IsEntryOf k (bolt.keys b) ↔ (bolt.get b k ≢ none)

-- proto.Marshal and proto.Unmarshal.
pub record Codec (V T : Type 0) : Type 0 where
  pub marshal : T → Try StateError V
  pub unmarshal : V → Try StateError T

pub record IsCodec {V T : Type 0} (c : Codec V T) : Type 0 where
  pub unmarshal-marshal : (x : T) (raw : V) → c.marshal x ≡ value raw → c.unmarshal raw ≡ value x
