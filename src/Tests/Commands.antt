-- ===== src/Tests/Commands.antt =====
-- A server command with a flag, a configuration file, and a key file that ends with a line end.
use text.Mathlib.TextLemmas.{cons-append}
use Prim.Native.Char.{code}
use Prim.Native.String.{String as Str, ◌++◌ as ◌<>◌}
use eth2_validator.Base.{
  inl, inr, Bool-cases, nat_beq, ◌++◌, ◌≡◌, ◌≢◌, ◌↔◌, refl, false, ◌||◌, List, [], ◌∷◌, String, ok,
  string_eq, ◌==◌, if◌then◌else◌,
}
use eth2_validator.Base.Try.{value, error}
use eth2_validator.State.Index.{ascii}
use eth2_validator.Server.Signing.{key_failed, Crypto}
use eth2_validator.Server.Core.{Setup, Server, new_server}
use eth2_validator.Command.{
  Config, ServerConfig, default_server_config, string_flag, Host, graceful, load_config, merge_all,
  set_flag, set_flags, file_config, read_config, build_validator_config, debugger, run,
}
use eth2_validator.Command.Layers.{over, IsMergo, IsRead, read_config_correct}
use eth2_validator.Command.Keys.{IsSplit, IsStrict, key_file-newline}
use eth2_validator.Command.Exit.{IsServed, run-IsServed}
use eth2_validator.Tests.Files.{parts}
use eth2_validator.Tests.Daemons.{crypto, setup}

-- The first line of a text, and the others.
unfoldable lines : String → String × List String
lines Str.[] = ("", [])
lines (Str.◌∷◌ c s) =
    let (line, rest) = lines s in
    if nat_beq (code c) 10 then ("", line ∷ rest) else (Str.◌∷◌ c line, rest)

unfoldable split_lines : String → List String
unfolding lines
split_lines text = let (line, rest) = lines text in line ∷ rest

lines-newline : (text : String) → lines (text <> "\n") ≡ ((lines text).0, (lines text).1 ++ "" ∷ [])
unfolding lines
lines-newline Str.[] = refl
lines-newline (Str.◌∷◌ c s) =
    rw (cons-append c s "\n", lines, lines-newline s)
      (elim (Bool-cases (nat_beq (code c) 10)) [ inl e ↦ rw e refl | inr e ↦ rw e refl ])

abbrev Conf : Type 0
Conf = Config (Unit {0})

abbrev put_over : Conf → Conf → Conf
put_over c i = record {
  deposit_address = over c.deposit_address i.deposit_address;
  endpoint = over c.endpoint i.endpoint;
  log_level = over c.log_level i.log_level;
  debug = i.debug || c.debug;
  priv_key = over c.priv_key i.priv_key;
  data_dir = over c.data_dir i.data_dir;
  beacon_chain = over c.beacon_chain i.beacon_chain;
  keymanager = i.keymanager;
  otel_endpoint = over c.otel_endpoint i.otel_endpoint;
}

abbrev in_file : Conf
in_file = record {
  deposit_address = "";
  endpoint = "file";
  log_level = "DEBUG";
  debug = false;
  priv_key = "keys";
  data_dir = "";
  beacon_chain = "";
  keymanager = tt;
  otel_endpoint = "";
}

-- The arguments are the file and the endpoint.
abbrev host : Host
host = record {
  Keymanager = Unit {0};
  no_keymanager = tt;
  parse = λ texts switches args. elim args [
    | path ∷ rest ↦ value (string_flag "config" path ∷ string_flag "endpoint" "flag" ∷ [])
    | [] ↦ error "no arguments"
  ];
  read_file = λ path. value (if path == "keys" then "a\n" else path);
  split = λ text sep. split_lines text;
  decode = λ text. value in_file;
  merge = λ c i. value (put_over c i);
  listen_debugger = value tt;
  setup_telemetry = value tt;
  new_server = λ cc. value tt;
  signal = "interrupt";
  ending = graceful;
}

host-IsSplit : IsSplit host
unfolding split_lines
host-IsSplit = record { split_last = λ text. rw (lines-newline text) refl }

host-IsMergo : IsMergo host
host-IsMergo = record {
  merged = λ c i. (
    put_over c i,
    refl,
    record {
      deposit_address = refl;
      endpoint = refl;
      log_level = refl;
      debug = refl;
      priv_key = refl;
      data_dir = refl;
      beacon_chain = refl;
      otel_endpoint = refl;
    },
  );
}

-- The endpoint of the flag, and all else of the file.
read : read_config host ("path" ∷ []) ≡ value (record in_file { endpoint = "flag" })
unfolding read_config file_config load_config merge_all set_flag set_flags
read = refl

read_config_correct_example :
    IsRead host
      (value (string_flag "config" "path" ∷ string_flag "endpoint" "flag" ∷ []))
      (read_config host ("path" ∷ []))
read_config_correct_example = read_config_correct host host-IsMergo ("path" ∷ [])

two_lines : split_lines "a\nb\n" ≡ "a" ∷ "b" ∷ "" ∷ []
unfolding split_lines lines
two_lines = refl

abbrev served : IsServed host ("path" ∷ [])
unfolding read_config file_config load_config merge_all set_flag set_flags build_validator_config
    split_lines lines debugger
served = record {
  config = record in_file { endpoint = "flag" };
  client_config = record default_server_config { endpoint = "flag"; priv_key = "a" ∷ "" ∷ [] };
  read = refl;
  watched = refl;
  built = refl;
  measured = refl;
  served = refl;
  ended = refl;
}

exits_with_0 : (run host ("path" ∷ [])).1 ≡ ok 0
exits_with_0 = (run-IsServed host ("path" ∷ [])).1 served

-- A run of no arguments ends with the error.
exits_with_1 : (run host []).1 ≡ ok 1
unfolding run read_config
exits_with_1 = refl

abbrev strict : Crypto
strict = record crypto {
  new_key_from_priv = λ bytes. elim bytes [ [] ↦ error key_failed | b ∷ l ↦ value (b ∷ l) ];
}

strict-IsStrict : IsStrict strict
unfolding ascii
strict-IsStrict = record { decode_empty = refl; key_empty = λ key e. cc e }

abbrev strict_setup : Setup parts
strict_setup = record setup { crypto = strict }

key_file-newline_example :
    (cc : ServerConfig) × (build_validator_config host in_file ≡ value cc)
    × ((srv : Server parts) → new_server strict_setup [] [] cc.priv_key ≢ value srv)
key_file-newline_example =
    key_file-newline strict_setup strict-IsStrict host host-IsSplit in_file "a" [] [] refl refl

run-IsServed_example : ((run host ("path" ∷ [])).1 ≡ ok 0) ↔ IsServed host ("path" ∷ [])
run-IsServed_example = run-IsServed host ("path" ∷ [])
