-- ===== src/Tests/Daemons.antt =====
-- A process with one key in its configuration: it starts on a new file, a round of its life cycle
-- finds the validator at the beacon node, it schedules an epoch, signs, and ends a duty.
use eth2_validator.Base.{
  ◌^◌, ◌<◌, ◌≡◌, ap, ◌∙◌, ◌≢◌, refl, false, sym, subst, true, [], ◌∷◌, ◌++◌, none, some, ok,
  Returns, arith, if◌then◌else◌, Bool,
}
use eth2_validator.Base.Try.{Try, value, error, crash}
use eth2_validator.GoMap
use eth2_validator.Bitlist.{equal}
use eth2_validator.Duty.{Bytes, Validator, Metadata}
use eth2_validator.DutyQueue.{new_eval_queue}
use eth2_validator.Scheduler.Input.{domain_randao}
use eth2_validator.State.Index.{ascii, active_from_object, active_from_args, big_endian}
use eth2_validator.State.Memdb.{keys_of}
use eth2_validator.State.Schema.{string_from_object, bool_from_args}
use eth2_validator.State.Store.{
  State, from_index, transact, db_put, upsert_loop, upsert, index_object, new_state,
  upsert_validator, get_validators_pending, get_validator_by_index,
}
use eth2_validator.Server.Signing.{
  Crypto, IsCrypto, validator_key, validator_from_priv_key, initial_vals, domain_typ_to_domain,
  from_lookup, root_to_sign, sign,
}
use eth2_validator.Server.Signing.Signatures.{IsAt, IsSigned, sign_correct}
use eth2_validator.Server.Lifecycle.Round.{IsRound, lifecycle_round_correct}
use eth2_validator.Scheduler.{process, attestations, committees}
use eth2_validator.State.Keys.{lt_bytes}
use eth2_validator.Scheduler.Epoch.{handle_epoch, indices}
use eth2_validator.Server.Core.{
  scheduler_env, scheduler_client, handle_new_epoch, completed, finish,
}
use eth2_validator.Server.Core.Done.{
  IsFinished, finish_correct, IsScheduled, handle_new_epoch_correct,
}
use eth2_validator.State.Store.{upsert_duty, upsert_duties, get_validators_active_at}
use eth2_validator.State.Index.{job_from_object, block_from_object, attest_from_object}
use eth2_validator.Tests.States.{block}
use eth2_validator.DutyQueue.Loop.{new_loop, passes}
use eth2_validator.Server.Lifecycle.{Query, updated_val, lifecycle_round}
use eth2_validator.Server.Core.{Setup, Server, new_server}
use eth2_validator.Server.Core.Turns.{Daemon, round, moves, Turns, here, next}
use eth2_validator.Server.Core.Kept.{IsQuery, IsWell, boot, boot-IsWell, Turns-sign}
use eth2_validator.Tests.Tables.Keys.{any_key, equal_iff}
use eth2_validator.Tests.Tables.Objects.{
  filter, head, find, latest_of, selected, is_taken, all_takes, insert_in,
}
use eth2_validator.Tests.Files.{validator_record, parts, parts-IsParts, empty_state}
use eth2_validator.Tests.Signing.{env, config, node}
use eth2_validator.Tests.Epochs.{client}

-- A key is the bytes of its text, a signature the root after the key.
abbrev pub crypto : Crypto
crypto = record {
  Key = Bytes;
  decode_hex = λ text. value (ascii text);
  encode_hex = λ bytes. if equal bytes (97 ∷ []) then "a" else "b";
  new_key_from_priv = λ bytes. value bytes;
  pub_key = λ key. key;
  sign = λ key root. value (key ++ root);
  verify = λ key root signature. equal signature (key ++ root);
  compute_domain = λ domain version root. value domain;
  signing_root = λ root domain. value root;
}

crypto-IsCrypto : IsCrypto crypto
crypto-IsCrypto = record {
  sign-verify = λ key root signature e.
      let same : key ++ root ≡ signature = cc e in (equal_iff signature (key ++ root)).1 (sym same);
}

abbrev pub setup : Setup parts
setup = record {
  crypto = crypto;
  spec = config;
  genesis_root = [];
  genesis_seconds = 1;
  env = env;
  client = client;
  node = node;
}

-- The beacon node knows every validator as the fifth, from epoch 3 on.
abbrev pub query : Query
query k = value (record { index = 5; activation_epoch = 3 })

pub query-IsQuery : IsQuery query
query-IsQuery = record {
  calm = λ k e. cc e;
  words = λ k m e.
      let same : ◌≡◌ {A = Metadata} (record { index = 5; activation_epoch = 3 }) m = cc e in
      subst (λ x. (x.index < 2 ^ 64) × (x.activation_epoch < 2 ^ 64)) same
        (omega arith, omega arith);
}

abbrev waiting : Validator
waiting = record { pub_key = "a"; priv_key = "a"; metadata = none }

abbrev pub started : Server parts
started = record {
  state = record empty_state {
    validators = waiting ∷ [];
    validators_bucket = ("a", validator_record waiting) ∷ [];
  };
  eval_queue = new_eval_queue;
  ids = 0;
  written = [];
}

pub new_server-started : new_server setup [] [] ("a" ∷ []) ≡ value started
unfolding new_server new_state index_object initial_vals validator_from_priv_key upsert_validator
    upsert upsert_loop transact from_index db_put insert_in all_takes is_taken string_from_object
    active_from_object GoMap.insert ascii equal
new_server-started = refl

abbrev found : Validator
found = record waiting { metadata = some (record { index = 5; activation_epoch = 3 }) }

abbrev pub after_round : State parts
after_round = record empty_state {
  validators = found ∷ waiting ∷ [];
  validators_bucket = ("a", validator_record found) ∷ [];
}

lifecycle_round-found : lifecycle_round query parts started.state ≡ ok (after_round, value tt)
unfolding lifecycle_round get_validators_pending bool_from_args selected filter any_key latest_of
    keys_of updated_val upsert_validator upsert upsert_loop transact from_index db_put insert_in
    all_takes is_taken string_from_object active_from_object GoMap.insert ascii equal find
lifecycle_round-found = refl

abbrev pub ready : Daemon setup query ("a" ∷ [])
ready = record {
  server = record started { state = after_round };
  loop = new_loop;
  now = 8;
  acked = [];
}

-- A round of the life cycle, and then a time passes.
pub ready-Turns :
    Turns setup query
      ("a" ∷ [])
      (boot setup query ("a" ∷ []) parts-IsParts query-IsQuery started 7)
      ready
ready-Turns = next (next here (round lifecycle_round-found)) (moves (passes 8 (omega arith)))

sign-found :
    sign crypto parts config [] after_round domain_randao 4 5 (1 ∷ []) ≡ value (97 ∷ 1 ∷ [])
unfolding sign root_to_sign domain_typ_to_domain get_validator_by_index active_from_args
    active_from_object from_lookup validator_key head selected filter any_key latest_of keys_of
    equal ascii big_endian
sign-found = refl

well : IsWell setup query ("a" ∷ []) ready
well =
    boot-IsWell setup query ("a" ∷ []) parts-IsParts query-IsQuery started 7 ready
      new_server-started ready-Turns

boot-IsWell_example : IsWell setup query ("a" ∷ []) ready
boot-IsWell_example =
    boot-IsWell setup query ("a" ∷ []) parts-IsParts query-IsQuery started 7 ready
      new_server-started ready-Turns

Turns-sign_example :
    (v : Validator) × (pub_key signed_root : Bytes) × IsAt crypto parts parts-IsParts config []
      after_round 5 v
    × (v.pub_key ≡ crypto.encode_hex pub_key)
    × (root_to_sign crypto config [] domain_randao 4 (1 ∷ []) ≡ value signed_root)
    × (crypto.verify pub_key signed_root (97 ∷ 1 ∷ []) ≡ true)
Turns-sign_example =
    Turns-sign setup query ("a" ∷ []) parts-IsParts query-IsQuery started 7 ready new_server-started
      ready-Turns crypto-IsCrypto domain_randao 4 5 (1 ∷ []) (97 ∷ 1 ∷ []) (omega arith) sign-found

sign_correct_example :
    IsSigned crypto parts parts-IsParts config [] after_round domain_randao 4 5
      (1 ∷ [])
      (sign crypto parts config [] after_round domain_randao 4 5 (1 ∷ []))
sign_correct_example =
    sign_correct crypto parts parts-IsParts config [] after_round
      (λ v m kept g. (well.accounts v.pub_key v kept).words m g)
      (λ v kept. (well.accounts v.pub_key v kept).keyed) domain_randao 4 5 (1 ∷ []) (omega arith)

lifecycle_round_correct_example :
    Returns
      (IsRound query parts parts-IsParts after_round)
      (lifecycle_round query parts after_round)
lifecycle_round_correct_example =
    lifecycle_round_correct query parts parts-IsParts after_round query-IsQuery.calm well.consistent

finish_correct_example :
    Returns
      (IsFinished parts-IsParts setup ready.server []
        (record { early = false; now = 8 })
        block
        block.result)
      (finish setup ready.server block block.result)
unfolding upsert_duty upsert_duties upsert upsert_loop transact from_index db_put insert_in
    all_takes is_taken string_from_object job_from_object block_from_object attest_from_object
    GoMap.insert
finish_correct_example =
    finish_correct parts-IsParts setup ready.server [] (record { early = false; now = 8 }) block
      block.result well.sound.safe well.consistent stores
  where
    stores :
        (upsert_duty parts after_round (completed setup ready.server block block.result)).1
        ≡ value tt
    stores = refl

is_crash : {E A : Type 0} → Try E A → Bool
is_crash (value a) = false
is_crash (error e) = false
is_crash crash = true

epoch_calm :
    is_crash (
      handle_epoch
        (scheduler_env setup ready.server)
        config
        (scheduler_client setup ready.server)
        3
        8
        0)
    ≡ false
unfolding is_crash handle_epoch get_validators_active_at active_from_args indices selected filter
    latest_of any_key keys_of active_from_object lt_bytes big_endian process attestations committees
epoch_calm = refl

handle_new_epoch_correct_example :
    Returns
      (IsScheduled parts-IsParts setup ready.server [] false 8 3)
      (handle_new_epoch setup ready.server 0 8 3)
unfolding is_crash
handle_new_epoch_correct_example =
    handle_new_epoch_correct parts-IsParts setup ready.server [] false 0 8 3 well.sound.safe
      well.consistent (λ e. apart (sym epoch_calm ∙ ap is_crash e))
  where
    apart : ◌≢◌ {A = Bool} false true
    apart e = cc e
