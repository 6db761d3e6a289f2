-- ===== src/Command.antt =====
-- internal/cmd/server: config.go and command.go, with internal/server/config.go. What the command
-- takes from pflag, HCL, mergo, the operating system and NewServer is the record Host. `Flags` and
-- `Layers` are about the configuration that readConfig returns, `Keys` about the keys of the key file, `Exit`
-- about the exit code.
pub mod Flags
pub mod Layers
pub mod Keys
pub mod Exit
use eth2_validator.Base.{
  ℕ, Bool, false, List, [], ◌∷◌, String, Go, ok, panic, ◌==◌, string_eq, if◌then◌else◌,
}
use eth2_validator.Base.Try.{Try, value, error, crash, ◌>>=◌}
use eth2_validator.Duty.{Bytes}
use Prim.Native.Char.{code}
use Prim.Native.String.{◌++◌ as ◌<>◌}

-- Config of config.go. Nothing reads the field for the key manager.
pub record Config (Keymanager : Type 0) : Type 0 where
  pub deposit_address : String
  pub endpoint : String
  pub log_level : String
  pub debug : Bool
  pub priv_key : String
  pub data_dir : String
  pub beacon_chain : String
  pub keymanager : Keymanager
  pub otel_endpoint : String

-- Config of internal/server/config.go.
pub record ServerConfig : Type 0 where
  pub deposit_address : String
  pub endpoint : String
  pub grpc_addr : String
  pub priv_key : List String
  pub telemetry_oltp_exporter : String

abbrev pub default_server_config : ServerConfig
default_server_config = record {
  deposit_address = "";
  endpoint = "";
  grpc_addr = "localhost:4002";
  priv_key = [];
  telemetry_oltp_exporter = "";
}

-- A flag on the command line: its name and what it is set to.
pub data Setting : Type 0 where
  string_flag : String → String → Setting
  bool_flag : String → Bool → Setting

-- What ends the wait of handleSignals after the first signal.
pub data Ending : Type 0 where
  second_signal timed_out graceful : Ending

-- An error is its text.
pub record Host : Type 1 where
  pub Keymanager : Type 0
  pub no_keymanager : Keymanager
  -- Parse of pflag, for the names of the string flags and of the Boolean flags: the settings of the
  -- arguments in their order.
  pub parse : List String → List String → List String → Try String (List Setting)
  pub read_file : String → Try String String
  -- strings.Split
  pub split : String → String → List String
  -- Decode of HCL, into an empty Config.
  pub decode : String → Try String (Config Keymanager)
  -- Merge of mergo with WithOverride.
  pub merge : Config Keymanager → Config Keymanager → Try String (Config Keymanager)
  pub listen_debugger : Try String (Unit {0})
  pub setup_telemetry : Try String (Unit {0})
  pub new_server : ServerConfig → Try String (Unit {0})
  pub signal : String
  pub ending : Ending

-- What the command does that can be seen.
pub data Action : Type 0 where
  outputs errors starts_http : String → Action
  writes : String → Bytes → Action
  starts_validator : ServerConfig → Action
  runs_client stops_client : Action

abbrev pub string_flags : List String
string_flags =
    "config" ∷ "log-level" ∷ "data-dir" ∷ "beacon-chain" ∷ "endpoint" ∷ "priv-key" ∷ "otel-endpoint"
    ∷ []

-- What is seen of a command, and its exit code.
abbrev pub Run : Type 0
Run = List Action × Go ℕ

abbrev pub after : Action → Run → Run
after a (actions, code) = (a ∷ actions, code)

-- An error is reported, and the command exits with 1.
abbrev pub or_exit : {A : Type 0} → (String → Action) → Try String A → (A → Run) → Run
or_exit report (value a) rest = rest a
or_exit report (error e) rest = (report e ∷ [], ok 1)
or_exit report crash rest = ([], panic)

abbrev pub exit_code : Ending → ℕ
exit_code second_signal = 1
exit_code timed_out = 1
exit_code graceful = 0

module _ (host : Host) where
  abbrev pub Conf : Type 0
  Conf = Config host.Keymanager

  abbrev pub empty_config : Conf
  empty_config = record {
    deposit_address = "";
    endpoint = "";
    log_level = "";
    debug = false;
    priv_key = "";
    data_dir = "";
    beacon_chain = "";
    keymanager = host.no_keymanager;
    otel_endpoint = "";
  }

  abbrev pub default_config : Conf
  default_config = record empty_config { log_level = "INFO" }

  unfoldable pub load_config : String → Try String Conf
  load_config path = do text ← host.read_file path; host.decode text

  -- Config.Merge
  unfoldable pub merge_all : Conf → List Conf → Try String Conf
  merge_all c [] = value c
  merge_all c (i ∷ l) = do c' ← host.merge c i; merge_all c' l

  -- A setting, written to configFilePath and cliConfig.
  unfoldable pub set_flag : String × Conf → Setting → String × Conf
  set_flag (path, c) (string_flag name v) =
      if name == "config"
      then (v, c)
      else if name == "log-level"
      then (path, record c { log_level = v })
      else if name == "data-dir"
      then (path, record c { data_dir = v })
      else if name == "beacon-chain"
      then (path, record c { beacon_chain = v })
      else if name == "endpoint"
      then (path, record c { endpoint = v })
      else if name == "priv-key"
      then (path, record c { priv_key = v })
      else if name == "otel-endpoint"
      then (path, record c { otel_endpoint = v })
      else (path, c)
  set_flag (path, c) (bool_flag name b) =
      if name == "debug" then (path, record c { debug = b }) else (path, c)

  unfoldable pub set_flags : String × Conf → List Setting → String × Conf
  set_flags t [] = t
  set_flags t (s ∷ l) = set_flags (set_flag t s) l

  -- The part of readConfig that reads the file, if there is one.
  unfoldable pub file_config : String → Try String Conf
  file_config path =
      let merged = load_config path >>= λ file. merge_all default_config (file ∷ []) in
      if path == "" then value default_config else merged

  unfoldable pub read_config : List String → Try String Conf
  read_config args = do
    settings ← host.parse string_flags ("debug" ∷ []) args
    let (path, cli) = set_flags ("", empty_config) settings
    config ← file_config path
    merge_all config (cli ∷ [])

  unfoldable pub build_validator_config : Conf → Try String ServerConfig
  build_validator_config c =
      let cc = record default_server_config {
        endpoint = c.endpoint;
        telemetry_oltp_exporter = c.otel_endpoint;
      } in
      let with_keys =
        host.read_file c.priv_key >>= λ buf. value (record cc { priv_key = host.split buf "\n" }) in
      if c.priv_key == "" then value cc else with_keys

  unfoldable pub handle_signals : Run
  handle_signals = (
    outputs ("Caught signal: " <> host.signal)
        ∷ outputs "Gracefully shutting down agent..."
        ∷ stops_client
        ∷ [],
    ok (exit_code host.ending),
  )

  -- Run, from the configuration of the validator on.
  unfoldable pub start : ServerConfig → Run
  start client_config = or_exit errors host.setup_telemetry λ _.
      after (starts_http "localhost:4123") (
        after (starts_validator client_config) (
          or_exit (λ e. outputs ("failed to start validator: " <> e))
            (host.new_server client_config) λ _. after runs_client handle_signals))

  -- The gops agent, if it is asked for.
  unfoldable pub debugger : Conf → Try String (Unit {0})
  debugger config = if config.debug then host.listen_debugger else value tt

  unfoldable pub run : List String → Run
  run args =
      or_exit (λ e. outputs ("failed to read config: " <> e)) (read_config args)
        λ config.
          or_exit (λ e. outputs ("failed to start gops debugger: " <> e)) (debugger config)
            λ _.
              or_exit (λ e. outputs ("failed to build validator config: " <> e))
                (build_validator_config config) start
