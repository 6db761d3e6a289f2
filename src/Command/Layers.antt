-- ===== src/Command/Layers.antt =====
-- The configuration that readConfig returns: each setting is that of the last flag for it, or else
-- that of the file, or else the default.
use eth2_validator.Base.{
  ◌≡◌, refl, sym, ap, ◌∙◌, subst, inl, inr, Bool, true, false, ◌||◌, List, [], ◌∷◌, String, ◌==◌,
  string_eq, if◌then◌else◌, Bool-cases,
}
use eth2_validator.Base.Try.{Try, value, error, crash, ◌>>=◌}
use eth2_validator.Command.{
  Config, Setting, Host, string_flags, default_config, empty_config, load_config, merge_all,
  set_flags, file_config, read_config,
}
use eth2_validator.Command.Flags.{last_string, last_bool, last_set, set_flags_lem}

-- A value is put over another, unless it is the zero value.
abbrev pub over : String → String → String
over old new = if new == "" then old else new

-- What Merge of mergo leaves, with WithOverride.
pub record IsMerged {K : Type 0} (c i r : Config K) : Type 0 where
  pub deposit_address : r.deposit_address ≡ over c.deposit_address i.deposit_address
  pub endpoint : r.endpoint ≡ over c.endpoint i.endpoint
  pub log_level : r.log_level ≡ over c.log_level i.log_level
  pub debug : r.debug ≡ (i.debug || c.debug)
  pub priv_key : r.priv_key ≡ over c.priv_key i.priv_key
  pub data_dir : r.data_dir ≡ over c.data_dir i.data_dir
  pub beacon_chain : r.beacon_chain ≡ over c.beacon_chain i.beacon_chain
  pub otel_endpoint : r.otel_endpoint ≡ over c.otel_endpoint i.otel_endpoint

-- Two configurations can always be merged.
pub record IsMergo (host : Host) : Type 0 where
  pub merged :
      (c i : Config host.Keymanager)
      → (r : Config host.Keymanager) × (host.merge c i ≡ value r) × IsMerged c i r

-- The value of a flag, or else of the file, or else the default.
abbrev pub layered : String → List Setting → String → String → String
layered name settings file default = over (over default file) (last_string name settings "")

pub record IsLayered {K : Type 0} (settings : List Setting) (file c : Config K) : Type 0 where
  pub endpoint : c.endpoint ≡ layered "endpoint" settings file.endpoint ""
  pub log_level : c.log_level ≡ layered "log-level" settings file.log_level "INFO"
  pub debug : c.debug ≡ (last_bool "debug" settings false || file.debug)
  pub priv_key : c.priv_key ≡ layered "priv-key" settings file.priv_key ""
  pub data_dir : c.data_dir ≡ layered "data-dir" settings file.data_dir ""
  pub beacon_chain : c.beacon_chain ≡ layered "beacon-chain" settings file.beacon_chain ""
  pub otel_endpoint : c.otel_endpoint ≡ layered "otel-endpoint" settings file.otel_endpoint ""
  pub deposit_address : c.deposit_address ≡ over "" file.deposit_address

or_false : (b : Bool) → (b || false) ≡ b
or_false true = refl
or_false false = refl

-- With what the file gives: an error of it, or all that is layered.
abbrev pub WithFile :
    {K : Type 0} → List Setting → Try String (Config K) → Try String (Config K) → Type 0
WithFile {K} settings (value file) r = (c : Config K) × (r ≡ value c) × IsLayered settings file c
WithFile settings (error e) r = r ≡ error e
WithFile settings crash r = r ≡ crash

module _ (host : Host) where
  -- What the file gives, if one is named.
  abbrev pub file_of : String → Try String (Config host.Keymanager)
  file_of path =
      let loaded = load_config host path in if path == "" then value (empty_config host) else loaded

  -- With what the flags are parsed to.
  abbrev pub IsRead : Try String (List Setting) → Try String (Config host.Keymanager) → Type 0
  IsRead (value settings) r = WithFile settings (file_of (last_string "config" settings "")) r
  IsRead (error e) r = r ≡ error e
  IsRead crash r = r ≡ crash

  module _ (M : IsMergo host) where
    cli : List Setting → Config host.Keymanager
    cli settings = (last_set host settings ("", empty_config host)).1

    merge_one :
        (c i : Config host.Keymanager)
        → (r : Config host.Keymanager) × (merge_all host c (i ∷ []) ≡ value r) × IsMerged c i r
    unfolding merge_all
    merge_one c i = let (r, e, m) = M.merged c i in (r, rw e refl, m)

    -- The file over the defaults, and the flags over that.
    two_merges :
        (settings : List Setting) (file : Config host.Keymanager)
        → WithFile settings (value file) (
            merge_all host (default_config host) (file ∷ []) >>= λ c.
            merge_all host c (cli settings ∷ []))
    unfolding cli
    two_merges settings file =
        let (c, e, m) = merge_one (default_config host) file in
        let (d, f, n) = merge_one c (cli settings) in
        (
          d,
          rw (e, f) refl,
          record {
            endpoint = n.endpoint ∙ ap (λ x. over x (cli settings).endpoint) m.endpoint;
            log_level = n.log_level ∙ ap (λ x. over x (cli settings).log_level) m.log_level;
            debug =
                n.debug
                ∙ ap (λ x. last_bool "debug" settings false || x) (m.debug ∙ or_false file.debug);
            priv_key = n.priv_key ∙ ap (λ x. over x (cli settings).priv_key) m.priv_key;
            data_dir = n.data_dir ∙ ap (λ x. over x (cli settings).data_dir) m.data_dir;
            beacon_chain =
                n.beacon_chain ∙ ap (λ x. over x (cli settings).beacon_chain) m.beacon_chain;
            otel_endpoint =
                n.otel_endpoint ∙ ap (λ x. over x (cli settings).otel_endpoint) m.otel_endpoint;
            deposit_address = n.deposit_address ∙ m.deposit_address;
          },
        )

    flags_alone :
        (settings : List Setting)
        → WithFile settings
            (value (empty_config host))
            (merge_all host (default_config host) (cli settings ∷ []))
    unfolding cli
    flags_alone settings =
        let (d, f, n) = merge_one (default_config host) (cli settings) in
        (
          d,
          f,
          record {
            endpoint = n.endpoint;
            log_level = n.log_level;
            debug = n.debug;
            priv_key = n.priv_key;
            data_dir = n.data_dir;
            beacon_chain = n.beacon_chain;
            otel_endpoint = n.otel_endpoint;
            deposit_address = n.deposit_address;
          },
        )

    with_flags :
        (settings : List Setting) (file : Try String (Config host.Keymanager))
        → WithFile settings file (
            file >>= λ c0. merge_all host (default_config host) (c0 ∷ []) >>= λ c.
            merge_all host c (cli settings ∷ []))
    with_flags settings (value file) = two_merges settings file
    with_flags settings (error e) = refl
    with_flags settings crash = refl

    bind_assoc :
        (m : Try String (Config host.Keymanager))
        (f g : Config host.Keymanager → Try String (Config host.Keymanager))
        → ((m >>= f) >>= g) ≡ (m >>= λ a. f a >>= g)
    bind_assoc (value a) f g = refl
    bind_assoc (error e) f g = refl
    bind_assoc crash f g = refl

    named_file :
        (path : String) (settings : List Setting)
        → WithFile settings
            (file_of path)
            (file_config host path >>= λ c. merge_all host c (cli settings ∷ []))
    unfolding file_config
    named_file path settings = elim (Bool-cases (path == "")) [
      | inl none_named ↦ rw none_named (flags_alone settings)
      | inr named ↦ rw named (
          subst (WithFile settings (load_config host path))
            (sym (bind_assoc (load_config host path) _ _))
            (with_flags settings (load_config host path)))
    ]

    -- Where mergo puts the values that are not zero over those that are there: readConfig returns
    -- the error of the flags, or of the file that they name; and else a configuration in which each
    -- setting is that of the last flag for it, or if there is none or it is zero that of the file,
    -- or else the default.
    pub read_config_correct :
        (args : List String)
        → IsRead (host.parse string_flags ("debug" ∷ []) args) (read_config host args)
    unfolding read_config cli
    read_config_correct args = parsed (host.parse string_flags ("debug" ∷ []) args)
      where
        parsed :
            (m : Try String (List Setting))
            → IsRead m (
                m >>= λ settings.
                let (path, c) = set_flags host ("", empty_config host) settings in
                file_config host path >>= λ config. merge_all host config (c ∷ []))
        parsed (value settings) =
            rw (set_flags_lem host settings ("", empty_config host))
              (named_file (last_string "config" settings "") settings)
        parsed (error e) = refl
        parsed crash = refl
