-- ===== src/State/Memdb.antt =====
-- go-memdb, which the state keeps its tables in: the indexes of a table, the operations on it, and
-- the documented behaviour that the theorems rely on. A transaction of the library is a value here:
-- one that is not committed is dropped.
use eth2_validator.Base.{
  ℕ, ◌<◌, ◌^◌, ◌≡◌, ◌≢◌, ◌↔◌, ◌⊎◌, Bool, true, false, List, [], String, Option, none, some, ltb,
  leb, ◌++◌, ◌==◌, string_eq, if◌then◌else◌,
}
use eth2_validator.Base.Try.{Try, value, error, crash, All, IsEntryOf}
use eth2_validator.Duty.{Bytes}
use eth2_validator.State.Index.{Arg, IndexError}
use eth2_validator.State.Keys.{lt_bytes}

-- IndexSchema. `from_object` gives the keys of an object, or `none` for one that the index leaves
-- out; `prefix_from_args` is used by a query whose index name ends in _prefix.
pub record Index (T : Type 0) : Type 0 where
  pub name : String
  pub unique : Bool
  pub allow_missing : Bool
  pub from_object : T → Try IndexError (Option (List Bytes))
  pub from_args : List Arg → Try IndexError Bytes
  pub prefix_from_args : List Arg → Try IndexError Bytes

abbrev keys_in : Try IndexError (Option (List Bytes)) → List Bytes
keys_in (value (some l)) = l
keys_in (value none) = []
keys_in (error e) = []
keys_in crash = []

module _ {T : Type 0} where
  -- The keys under which an object stands in an index.
  unfoldable pub keys_of : Index T → T → List Bytes
  keys_of ix x = keys_in (ix.from_object x)

  -- The index has keys for the object, or may leave it out and does.
  abbrev pub Takes : T → Index T → Type 0
  Takes x ix =
      ((l : List Bytes) × (ix.from_object x ≡ value (some l)))
      ⊎ ((ix.allow_missing ≡ true) × (ix.from_object x ≡ value none))

-- The operations. An object is stored under the id that its table's "id" index gives it. A query
-- takes the key that FromArgs or PrefixFromArgs makes of its arguments; `lower_bound` is the first
-- Next of the iterator of LowerBound. An index that is not unique has an object under its key with the
-- object's key in the "id" index behind it, `id_key`.
pub record Memdb (T : Type 0) : Type 1 where
  pub Table : Type 0
  pub empty : Table
  pub insert : Table → T → Try IndexError Table
  pub id_key : T → Bytes
  pub by_id : Table → String → Option T
  pub all : Table → List T
  pub first : Table → Index T → Bytes → Option T
  pub get : Table → Index T → Bytes → List T
  pub lower_bound : Table → Index T → Bytes → Option T
  pub reverse_lower_bound : Table → Index T → Bytes → List T

module _ {T : Type 0} (db : Memdb T) (id : T → String) (schema : List (Index T)) where
  -- The object is in the table.
  abbrev pub Holds : db.Table → T → Type 0
  Holds t x = db.by_id t (id x) ≡ some x

  -- An object with that key, or none if there is none.
  pub data IsFirst (t : db.Table) (ix : Index T) (key : Bytes) : Option T → Type 0 where
    missing : ((x : T) → Holds t x → ¬ IsEntryOf key (keys_of ix x)) → IsFirst t ix key none
    found : {x : T} → Holds t x → IsEntryOf key (keys_of ix x) → IsFirst t ix key (some x)

  -- An object with the least key that is not below the bound, or none if there is none.
  pub data IsLowest (t : db.Table) (ix : Index T) (bound : Bytes) : Option T → Type 0 where
    above_all :
        ((x : T) (k : Bytes) → Holds t x → IsEntryOf k (keys_of ix x) → lt_bytes k bound ≡ true)
        → IsLowest t ix bound none
    lowest :
        {x : T} (k : Bytes)
        → Holds t x
        → IsEntryOf k (keys_of ix x)
        → lt_bytes k bound ≡ false
        → ((y : T) (j : Bytes)
            → Holds t y
            → IsEntryOf j (keys_of ix y)
            → lt_bytes j bound ≡ false
            → lt_bytes j k ≡ false)
        → IsLowest t ix bound (some x)

  pub record IsMemdb : Type 0 where
    pub by_id-empty : (k : String) → db.by_id db.empty k ≡ none
    pub by_id-insert :
        (t t' : db.Table) (x : T) (k : String)
        → db.insert t x ≡ value t'
        → db.by_id t' k ≡ (if id x == k then some x else db.by_id t k)
    pub id-by_id : (t : db.Table) (k : String) (x : T) → db.by_id t k ≡ some x → id x ≡ k
    -- Insert fails or not by the object and the indexes alone.
    pub insert_total :
        (t : db.Table) (x : T) → All (Takes x) schema → (t' : db.Table) × (db.insert t x ≡ value t')
    pub insert_only : (t t' : db.Table) (x : T) → db.insert t x ≡ value t' → All (Takes x) schema
    pub all_lem : (t : db.Table) (x : T) → IsEntryOf x (db.all t) ↔ Holds t x
    pub first_lem :
        (t : db.Table) (ix : Index T) (key : Bytes)
        → IsEntryOf ix schema
        → IsFirst t ix key (db.first t ix key)
    pub get_lem :
        (t : db.Table) (ix : Index T) (key : Bytes) (x : T)
        → IsEntryOf ix schema
        → IsEntryOf x (db.get t ix key) ↔ (Holds t x × IsEntryOf key (keys_of ix x))
    pub lower_bound_lem :
        (t : db.Table) (ix : Index T) (bound : Bytes)
        → IsEntryOf ix schema
        → IsLowest t ix bound (db.lower_bound t ix bound)
    pub reverse_lower_bound_lem :
        (t : db.Table) (ix : Index T) (bound : Bytes) (x : T)
        → IsEntryOf ix schema
        → ix.unique ≡ false
        → IsEntryOf x (db.reverse_lower_bound t ix bound) ↔ (
            Holds t x
            × ((k : Bytes) × IsEntryOf k (keys_of ix x)
                × (lt_bytes bound (k ++ db.id_key x) ≡ false)))
    pub id_key-ne : (t : db.Table) (x : T) → Holds t x → db.id_key x ≢ []

-- The indexers of the library: StringFieldIndex, which leaves the empty string out, FieldSetIndex
-- and UintFieldIndex.
pub record Indexers : Type 0 where
  pub string_key : String → Bytes
  pub bool_key : Bool → Bytes
  pub uint_key : ℕ → Bytes

pub record IsIndexers (ixs : Indexers) : Type 0 where
  pub bool_key-ne : ixs.bool_key true ≢ ixs.bool_key false
  pub uint_key-order :
      (a b : ℕ) → a < 2 ^ 64 → b < 2 ^ 64 → lt_bytes (ixs.uint_key a) (ixs.uint_key b) ≡ ltb a b
  -- The keys have one length: with bytes behind it, the key of the same number is above.
  pub uint_key-behind :
      (a b : ℕ) (j : Bytes)
      → a < 2 ^ 64
      → b < 2 ^ 64
      → j ≢ []
      → lt_bytes (ixs.uint_key a) (ixs.uint_key b ++ j) ≡ leb a b
