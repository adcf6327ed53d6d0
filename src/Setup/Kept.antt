-- ===== src/Setup/Kept.antt =====
-- src/setup.rs: what a setup keeps of the configuration that is there.
use wakezilla.Prelude.{
  Result, ok, err, ℕ, String, ◌≡◌, refl, sym, ap, ◌∙◌, true, Option, none, some, if◌then◌else◌,
  str_eq,
}
use wakezilla.ShutdownAuth.{Crypto, KeyError, validate_key}
use wakezilla.Config.{
  default_machines_db_path, default_access_history_path, SecurityConfig, Config, ServerConfig,
  data_path,
}
use wakezilla.Service.{Mode, proxy, client}
use wakezilla.Setup.Apply.{
  SetupError, Host, with_port, with_storage, absolute, absolute_storage, existing_config,
  accept_key, with_key, with_absolute_storage, planned_config,
}

-- The key of a client is replaced by the one that is given.
unfoldable pub kept_security : Mode → Option String → SecurityConfig → SecurityConfig
kept_security client (some key) old = record { client_shutdown_key = some key }
kept_security client none old = old
kept_security proxy key old = old

accept_key-keeps :
    (key : String) (cfg made : Config) (r : Result (Unit {0}) KeyError)
    → accept_key key cfg r ≡ ok made
    → made ≡ record cfg { security = record { client_shutdown_key = some key } }
unfolding accept_key
accept_key-keeps key cfg made (ok valid) h = sym (cc)
accept_key-keeps key cfg made (err e) h = cc

with_key-keeps :
    (crypto : Crypto) (mode : Mode) (key : Option String) (cfg made : Config)
    → with_key crypto mode key cfg ≡ ok made
    → made ≡ record cfg { security = kept_security mode key cfg.security }
unfolding with_key kept_security
with_key-keeps crypto client (some key) cfg made h =
    accept_key-keeps key cfg made (validate_key crypto key) h
with_key-keeps crypto client none cfg made h = sym (cc)
with_key-keeps crypto proxy key cfg made h = sym (cc)

existing_config-loaded :
    (host : Host) (mode : Mode) (port : ℕ) (old : Config)
    → host.path_exists ≡ true
    → host.load_from ≡ some old
    → existing_config host mode port ≡ old
unfolding existing_config
existing_config-loaded host mode port old exists loaded = simp (exists, loaded)

with_absolute_storage-ok :
    (r : Result Config SetupError) (made : Config)
    → with_absolute_storage r ≡ ok made
    → (cfg : Config) × (r ≡ ok cfg) × (made ≡ absolute_storage cfg)
unfolding with_absolute_storage
with_absolute_storage-ok (ok cfg) made h = (cfg, refl, sym (cc))
with_absolute_storage-ok (err e) made h = cc

-- The port of a proxy is its server's, and that of a client its client's.
unfoldable pub kept_server : Mode → ℕ → ServerConfig → ServerConfig
kept_server proxy port old = record old { proxy_port = port }
kept_server client port old = record old { client_port = port }

-- A path of storage other than the default one is kept.
abbrev pub kept_path : (path default : String) → String
kept_path path default = if str_eq path default then data_path default else path

-- The configuration that a setup makes of the one that it loads.
abbrev pub kept_config : Mode → ℕ → Option String → Config → Config
kept_config mode port key old = record old {
  server = kept_server mode port old.server;
  storage = record (old.storage) {
    machines_db_path = kept_path old.storage.machines_db_path default_machines_db_path;
    access_history_path = kept_path old.storage.access_history_path default_access_history_path;
  };
  security = kept_security mode key old.security;
}

absolute_storage-kept :
    (mode : Mode) (port : ℕ) (key : Option String) (old : Config)
    → absolute_storage (record (with_port mode port old) {
      security = kept_security mode key (with_port mode port old).security;
    })
      ≡ kept_config mode port key old
unfolding absolute_storage with_storage with_port kept_security kept_server absolute
absolute_storage-kept proxy port key old = refl
absolute_storage-kept client port none old = refl
absolute_storage-kept client port (some key) old = refl

-- A setup over a configuration that it loads keeps all of it but the port of its mode, the key that a
-- client is given, and default paths of storage, which become absolute.
pub planned_config-keeps :
    (host : Host) (mode : Mode) (port : ℕ) (key : Option String) (old made : Config)
    → host.path_exists ≡ true
    → host.load_from ≡ some old
    → planned_config host mode port key ≡ ok made
    → made ≡ kept_config mode port key old
unfolding planned_config
planned_config-keeps host mode port key old made exists loaded h =
    let (cfg, keyed, same) = with_absolute_storage-ok _ made h in
    let base : with_port mode port (existing_config host mode port) ≡ with_port mode port old =
      ap (with_port mode port) (existing_config-loaded host mode port old exists loaded) in
    let kept = with_key-keeps host.crypto mode key _ cfg keyed in
    same
    ∙ ap absolute_storage kept
    ∙ ap
        (λ (c : Config).
          absolute_storage (record c { security = kept_security mode key c.security }))
        base
    ∙ absolute_storage-kept mode port key old
