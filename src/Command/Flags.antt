-- ===== src/Command/Flags.antt =====
-- What the flags of readConfig leave: for each name the last setting.
use eth2_validator.Base.{
  ◌≡◌, refl, sym, ap, ◌∙◌, subst, inl, inr, Bool, false, List, [], ◌∷◌, String, ◌==◌, string_eq,
  if◌then◌else◌, key_cases, Bool-cases,
}
use eth2_validator.Command.{Config, Setting, string_flag, bool_flag, Host, set_flag, set_flags}

-- What the last flag with the name sets.
abbrev pub last_string : String → List Setting → String → String
last_string name [] old = old
last_string name (string_flag n v ∷ l) old = last_string name l (if n == name then v else old)
last_string name (bool_flag n b ∷ l) old = last_string name l old

abbrev pub last_bool : String → List Setting → Bool → Bool
last_bool name [] old = old
last_bool name (string_flag n v ∷ l) old = last_bool name l old
last_bool name (bool_flag n b ∷ l) old = last_bool name l (if n == name then b else old)

-- The names of the string flags, and any other.
data Named : String → Type 0 where
  config : Named "config"
  log_level : Named "log-level"
  data_dir : Named "data-dir"
  beacon_chain : Named "beacon-chain"
  endpoint : Named "endpoint"
  priv_key : Named "priv-key"
  otel_endpoint : Named "otel-endpoint"
  other :
      {n : String}
      → (n == "config") ≡ false
      → (n == "log-level") ≡ false
      → (n == "data-dir") ≡ false
      → (n == "beacon-chain") ≡ false
      → (n == "endpoint") ≡ false
      → (n == "priv-key") ≡ false
      → (n == "otel-endpoint") ≡ false
      → Named n

name_cases : (n : String) → Named n
name_cases n = elim (key_cases n "config") [
  | inl e ↦ subst Named (sym e) config
  | inr (_, a) ↦ elim (key_cases n "log-level") [
    | inl e ↦ subst Named (sym e) log_level
    | inr (_, b) ↦ elim (key_cases n "data-dir") [
      | inl e ↦ subst Named (sym e) data_dir
      | inr (_, c) ↦ elim (key_cases n "beacon-chain") [
        | inl e ↦ subst Named (sym e) beacon_chain
        | inr (_, d) ↦ elim (key_cases n "endpoint") [
          | inl e ↦ subst Named (sym e) endpoint
          | inr (_, f) ↦ elim (key_cases n "priv-key") [
            | inl e ↦ subst Named (sym e) priv_key
            | inr (_, g) ↦ elim (key_cases n "otel-endpoint") [
              | inl e ↦ subst Named (sym e) otel_endpoint
              | inr (_, h) ↦ other a b c d f g h
            ]
          ]
        ]
      ]
    ]
  ]
]

module _ (host : Host) where
  abbrev Conf : Type 0
  Conf = Config host.Keymanager

  -- The path of the file and the configuration that the settings leave.
  abbrev pub last_set : List Setting → String × Conf → String × Conf
  last_set l (path, c) = (
    last_string "config" l path,
    record c {
      log_level = last_string "log-level" l c.log_level;
      data_dir = last_string "data-dir" l c.data_dir;
      debug = last_bool "debug" l c.debug;
      beacon_chain = last_string "beacon-chain" l c.beacon_chain;
      endpoint = last_string "endpoint" l c.endpoint;
      priv_key = last_string "priv-key" l c.priv_key;
      otel_endpoint = last_string "otel-endpoint" l c.otel_endpoint;
    },
  )

  set_string :
      (n v : String) (t : String × Conf)
      → Named n
      → set_flag host t (string_flag n v) ≡ last_set (string_flag n v ∷ []) t
  unfolding set_flag
  set_string n v t config = refl
  set_string n v t log_level = refl
  set_string n v t data_dir = refl
  set_string n v t beacon_chain = refl
  set_string n v t endpoint = refl
  set_string n v t priv_key = refl
  set_string n v t otel_endpoint = refl
  set_string n v t (other a b c d f g h) = rw (a, b, c, d, f, g, h) refl

  set_one : (s : Setting) (t : String × Conf) → set_flag host t s ≡ last_set (s ∷ []) t
  unfolding set_flag
  set_one (string_flag n v) t = set_string n v t (name_cases n)
  set_one (bool_flag n b) t = elim (Bool-cases (n == "debug")) [
    | inl e ↦ rw e refl
    | inr e ↦ rw e refl
  ]

  last_set-cons :
      (s : Setting) (l : List Setting) (t : String × Conf)
      → last_set l (last_set (s ∷ []) t) ≡ last_set (s ∷ l) t
  last_set-cons (string_flag n v) l t = refl
  last_set-cons (bool_flag n b) l t = refl

  pub set_flags_lem : (l : List Setting) (t : String × Conf) → set_flags host t l ≡ last_set l t
  unfolding set_flags
  set_flags_lem [] t = refl
  set_flags_lem (s ∷ l) t =
      set_flags_lem l (set_flag host t s) ∙ ap (last_set l) (set_one s t) ∙ last_set-cons s l t
