-- ===== src/State/Store.antt =====
-- internal/server/state/state.go: the tables in memory and the buckets on disk. What the duties and
-- the validators share is about a table of a type `T` and its bucket; a transaction that fails leaves
-- both as they were. `Mirror` is about the two of them.
pub mod Mirror
pub mod Validators
pub mod Restart
pub mod Jobs
pub mod Runs
use eth2_validator.Base.{
  ℕ, ◌+◌, ◌%◌, ◌^◌, false, List, [], ◌∷◌, String, Option, none, some, nat_beq, if◌then◌else◌,
}
use eth2_validator.Base.Try.{Try, value, error, crash, ◌>>=◌}
use eth2_validator.Duty.{Duty, Validator}
use eth2_validator.State.Index.{uint64_arg, bool_arg, IndexError}
use eth2_validator.State.Memdb.{Memdb, Indexers}
use eth2_validator.State.Bolt.{StateError, index_failed, record_not_found, Bolt, Codec}
use eth2_validator.State.Schema.{pending_index, validator_index_index, activation_epoch_index}

-- An error of an indexer, as an error of the state.
unfoldable pub from_index {ℓ} : {A : Type ℓ} → Try IndexError A → Try StateError A
from_index (value a) = value a
from_index (error e) = error (index_failed e)
from_index crash = crash

-- What a transaction leaves: its own state if it ends without an error, else the old one.
unfoldable pub transact {ℓ} : {S : Type ℓ} → S → Try StateError S → S × Try StateError (Unit {0})
transact old (value new) = (new, value tt)
transact old (error e) = (old, error e)
transact old crash = (old, crash)

module _ {T : Type 0} (db : Memdb T) (bolt : Bolt) (codec : Codec bolt.Value T)
    (id : T → String) where
  -- The table and its bucket.
  abbrev pub Stored : Type 0
  Stored = db.Table × bolt.Bucket

  unfoldable pub db_put : bolt.Bucket → String → T → Try StateError bolt.Bucket
  db_put b k msg = do enc ← codec.marshal msg; bolt.put b k enc

  unfoldable pub db_get : bolt.Bucket → String → Try StateError T
  db_get b k = elim (bolt.get b k) [
    | none ↦ error record_not_found
    | some raw ↦ codec.unmarshal raw
  ]

  -- The loop of UpsertDuties and of UpsertValidator.
  unfoldable pub upsert_loop : Stored → List T → Try StateError Stored
  upsert_loop s [] = value s
  upsert_loop (t, b) (x ∷ l) =
      from_index (db.insert t x) >>= λ t'. db_put b (id x) x >>= λ b'. upsert_loop (t', b') l

  unfoldable pub upsert : Stored → List T → Stored × Try StateError (Unit {0})
  upsert s l = transact s (do (t, b) ← upsert_loop s l; _ ← bolt.commit b; value (t, b))

  -- indexObject, for the keys that are left to visit.
  unfoldable pub index_object : bolt.Bucket → List String → db.Table → Try StateError db.Table
  index_object b [] t = value t
  index_object b (k ∷ l) t =
      db_get b k >>= λ elem. from_index (db.insert t elem) >>= λ t'. index_object b l t'

-- The third-party parts of the state.
pub record Parts : Type 1 where
  pub bolt : Bolt
  pub duties_db : Memdb Duty
  pub validators_db : Memdb Validator
  pub duties_codec : Codec bolt.Value Duty
  pub validators_codec : Codec bolt.Value Validator
  pub indexers : Indexers

module _ (p : Parts) where
  pub record State : Type 0 where
    pub duties : p.duties_db.Table
    pub duties_bucket : p.bolt.Bucket
    pub validators : p.validators_db.Table
    pub validators_bucket : p.bolt.Bucket

  -- NewState on the two buckets of the file, which are empty in a new file, and reIndex.
  unfoldable pub new_state : p.bolt.Bucket → p.bolt.Bucket → Try StateError State
  new_state duties_bucket validators_bucket = do
    duties ←
        index_object p.duties_db p.bolt p.duties_codec (λ d. d.id) duties_bucket
          (p.bolt.keys duties_bucket) p.duties_db.empty
    validators ←
        index_object p.validators_db p.bolt p.validators_codec (λ v. v.pub_key) validators_bucket
          (p.bolt.keys validators_bucket) p.validators_db.empty
    value (record {
      duties = duties;
      duties_bucket = duties_bucket;
      validators = validators;
      validators_bucket = validators_bucket;
    })

  unfoldable pub upsert_duties : State → List Duty → State × Try StateError (Unit {0})
  upsert_duties s l =
      let ((t, b), r) =
        upsert p.duties_db p.bolt p.duties_codec (λ d. d.id) (s.duties, s.duties_bucket) l in
      (record s { duties = t; duties_bucket = b }, r)

  unfoldable pub upsert_duty : State → Duty → State × Try StateError (Unit {0})
  upsert_duty s d = upsert_duties s (d ∷ [])

  unfoldable pub upsert_validator : State → List Validator → State × Try StateError (Unit {0})
  upsert_validator s l =
      let ((t, b), r) =
        upsert p.validators_db p.bolt p.validators_codec (λ v. v.pub_key)
          (s.validators, s.validators_bucket) l in
      (record s { validators = t; validators_bucket = b }, r)

  -- A nil duty is `none`.
  unfoldable pub duty_by_id : State → String → Option Duty
  duty_by_id s k = p.duties_db.by_id s.duties k

  -- The duties and the validators that the iterators of DutiesList and ValidatorsList yield.
  unfoldable pub duties_list : State → List Duty
  duties_list s = p.duties_db.all s.duties

  unfoldable pub validators_list : State → List Validator
  validators_list s = p.validators_db.all s.validators

  unfoldable pub get_validators_pending : State → Try IndexError (List Validator)
  get_validators_pending s = do
    key ← (pending_index p.indexers).from_args (bool_arg false ∷ [])
    value (p.validators_db.get s.validators (pending_index p.indexers) key)

  unfoldable pub get_validators_active_at : State → ℕ → Try IndexError (List Validator)
  get_validators_active_at s epoch = do
    let ix = activation_epoch_index p.indexers
    zero_key ← ix.from_args (uint64_arg 0 ∷ [])
    key ← ix.from_args (uint64_arg ((epoch + 1) % 2 ^ 64) ∷ [])
    value (
        if nat_beq epoch 0
        then p.validators_db.get s.validators ix zero_key
        else p.validators_db.reverse_lower_bound s.validators ix key)

  unfoldable pub get_validator_by_index : State → ℕ → Try IndexError (Option Validator)
  get_validator_by_index s index = do
    key ← (validator_index_index p.indexers).from_args (uint64_arg index ∷ [])
    value (p.validators_db.first s.validators (validator_index_index p.indexers) key)
