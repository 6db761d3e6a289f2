-- ===== src/Command/Keys.antt =====
-- The keys of the key file, and what NewServer (internal/server/server.go) makes of them.
use eth2_validator.Base.{◌≡◌, ◌≢◌, refl, false, List, [], ◌∷◌, ◌++◌, String, ◌==◌, string_eq}
use Prim.Native.String.{◌++◌ as ◌<>◌}
use eth2_validator.Base.Try.{Try, value, error, crash, bind-value}
use eth2_validator.Duty.{Validator}
use eth2_validator.State.Store.{Parts, new_state}
use eth2_validator.Server.Signing.{Crypto, validator_from_priv_key, initial_vals}
use eth2_validator.Server.Core.{Setup, Server, new_server, failing, state_failed, key_rejected}
use eth2_validator.Command.{
  Config, ServerConfig, default_server_config, Host, build_validator_config,
}

-- strings.Split: a separator at the end has the empty text behind it.
pub record IsSplit (host : Host) : Type 0 where
  pub split_last :
      (text : String) → host.split (text <> "\n") "\n" ≡ host.split text "\n" ++ "" ∷ []

-- The BLS library takes no key of no bytes.
pub record IsStrict (c : Crypto) : Type 0 where
  pub decode_empty : c.decode_hex "" ≡ value []
  pub key_empty : (key : c.Key) → c.new_key_from_priv [] ≢ value key

module _ (c : Crypto) (I : IsStrict c) where
  empty_key : (v : Validator) → validator_from_priv_key c "" ≢ value v
  unfolding validator_from_priv_key
  empty_key v e =
      let (key, f, _) = bind-value (c.new_key_from_priv []) _ v (rw I.decode_empty at e) in
      I.key_empty key f

  initial_vals-empty :
      (keys : List String) (vals : List Validator) → initial_vals c (keys ++ "" ∷ []) ≢ value vals
  unfolding initial_vals
  initial_vals-empty [] vals e =
      let (v, f, _) = bind-value (validator_from_priv_key c "") _ vals e in empty_key v f
  initial_vals-empty (k ∷ keys) vals e =
      let (v, f, g) = bind-value (validator_from_priv_key c k) _ vals e in
      let (rest, h, _) = bind-value (initial_vals c (keys ++ "" ∷ [])) _ vals g in
      initial_vals-empty keys rest h

failing-value :
    {E F : Type 0} {A : Type 0} (f : E → F) (m : Try E A) (a : A)
    → failing f m ≡ value a
    → m ≡ value a
failing-value f (value b) a e = cc e
failing-value f (error x) a e = cc e
failing-value f crash a e = cc e

module _ {p : Parts} (setup : Setup p) (I : IsStrict setup.crypto) where
  new_server-empty :
      (b c : p.bolt.Bucket) (keys : List String) (srv : Server p)
      → new_server setup b c (keys ++ "" ∷ []) ≢ value srv
  unfolding new_server
  new_server-empty b c keys srv e =
      let (s, _, f) = bind-value (failing state_failed (new_state p b c)) _ srv e in
      let (vals, g, _) =
        bind-value (failing key_rejected (initial_vals setup.crypto (keys ++ "" ∷ []))) _ srv f in
      initial_vals-empty setup.crypto I keys vals (failing-value key_rejected _ vals g)

  -- A key file that ends with a line end, as text files do, makes the last key empty. Where the
  -- BLS library takes no empty key, NewServer then never succeeds.
  pub key_file-newline :
      (host : Host) (S : IsSplit host) (conf : Config host.Keymanager) (text : String)
      (b c : p.bolt.Bucket)
      → (conf.priv_key == "") ≡ false
      → host.read_file conf.priv_key ≡ value (text <> "\n")
      → (cc : ServerConfig) × (build_validator_config host conf ≡ value cc)
        × ((srv : Server p) → new_server setup b c cc.priv_key ≢ value srv)
  unfolding build_validator_config
  key_file-newline host S conf text b c named read = (
    record default_server_config {
      endpoint = conf.endpoint;
      telemetry_oltp_exporter = conf.otel_endpoint;
      priv_key = host.split text "\n" ++ "" ∷ [];
    },
    rw (named, read, S.split_last text) refl,
    new_server-empty b c (host.split text "\n"),
  )
