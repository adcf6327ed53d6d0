-- ===== src/Config.antt =====
-- src/config.rs: the configuration, its defaults, its paths on Linux and the write of a secret file.
-- The TOML library and the crate config are arguments.
pub mod Secret
use wakezilla.Prelude.{
  if◌then◌else◌, unwrap_or, take, starts_with, ◌^^◌, Result, ok, err, ℕ, ◌*◌, String, Bool, Option,
  none, some, List, [],
}
use wakezilla.Net.{Ipv4, parse_ipv4}

abbrev pub default_machines_db_path : String
default_machines_db_path = "machines.json"

abbrev pub default_access_history_path : String
default_access_history_path = "access_history.json"

abbrev pub default_proxy_port : ℕ
default_proxy_port = 3000

abbrev pub default_client_port : ℕ
default_client_port = 3001

abbrev pub default_health_timeout_secs : ℕ
default_health_timeout_secs = 5

abbrev pub default_wol_port : ℕ
default_wol_port = 9

abbrev pub default_broadcast_ip : String
default_broadcast_ip = "255.255.255.255"

abbrev pub default_wol_packet_count : ℕ
default_wol_packet_count = 3

abbrev pub default_wol_packet_sleeptime_ms : ℕ
default_wol_packet_sleeptime_ms = 50

abbrev pub default_wol_wait_secs : ℕ
default_wol_wait_secs = 90

abbrev pub default_wol_poll_interval_ms : ℕ
default_wol_poll_interval_ms = 1000

abbrev pub default_wol_connect_timeout_ms : ℕ
default_wol_connect_timeout_ms = 700

abbrev pub default_network_scan_duration_secs : ℕ
default_network_scan_duration_secs = 5

abbrev pub default_network_read_timeout_secs : ℕ
default_network_read_timeout_secs = 2

abbrev pub default_max_access_records : ℕ
default_max_access_records = 2000

abbrev pub default_health_check_interval_ms : ℕ
default_health_check_interval_ms = 30000

abbrev pub default_proxy_connect_timeout_ms : ℕ
default_proxy_connect_timeout_ms = 1000

abbrev pub default_proxy_wol_wait_secs : ℕ
default_proxy_wol_wait_secs = 60

abbrev pub default_system_shutdown_sleep_secs : ℕ
default_system_shutdown_sleep_secs = 5

abbrev pub default_rate_limit_sample_interval_secs : ℕ
default_rate_limit_sample_interval_secs = 1

pub record ServerConfig : Type 0 where
  pub proxy_port : ℕ
  pub client_port : ℕ
  pub health_timeout_secs : ℕ

abbrev pub default_server : ServerConfig
default_server = record {
  proxy_port = default_proxy_port;
  client_port = default_client_port;
  health_timeout_secs = default_health_timeout_secs;
}

pub record WolConfig : Type 0 where
  pub default_port : ℕ
  pub default_broadcast_ip : String
  pub default_packet_count : ℕ
  pub packet_sleeptime_ms : ℕ
  pub default_wait_secs : ℕ
  pub default_poll_interval_ms : ℕ
  pub default_connect_timeout_ms : ℕ

abbrev pub default_wol : WolConfig
default_wol = record {
  default_port = default_wol_port;
  default_broadcast_ip = "255.255.255.255";
  default_packet_count = default_wol_packet_count;
  packet_sleeptime_ms = default_wol_packet_sleeptime_ms;
  default_wait_secs = default_wol_wait_secs;
  default_poll_interval_ms = default_wol_poll_interval_ms;
  default_connect_timeout_ms = default_wol_connect_timeout_ms;
}

pub record NetworkConfig : Type 0 where
  pub scan_duration_secs : ℕ
  pub read_timeout_secs : ℕ

abbrev pub default_network : NetworkConfig
default_network = record {
  scan_duration_secs = default_network_scan_duration_secs;
  read_timeout_secs = default_network_read_timeout_secs;
}

pub record StorageConfig : Type 0 where
  pub machines_db_path : String
  pub access_history_path : String
  pub max_access_records : ℕ

abbrev pub default_storage : StorageConfig
default_storage = record {
  machines_db_path = default_machines_db_path;
  access_history_path = default_access_history_path;
  max_access_records = default_max_access_records;
}

pub record HealthConfig : Type 0 where
  pub check_interval_ms : ℕ
  pub proxy_connect_timeout_ms : ℕ
  pub proxy_wol_wait_secs : ℕ
  pub system_shutdown_sleep_secs : ℕ
  pub rate_limit_sample_interval_secs : ℕ

abbrev pub default_health : HealthConfig
default_health = record {
  check_interval_ms = default_health_check_interval_ms;
  proxy_connect_timeout_ms = default_proxy_connect_timeout_ms;
  proxy_wol_wait_secs = default_proxy_wol_wait_secs;
  system_shutdown_sleep_secs = default_system_shutdown_sleep_secs;
  rate_limit_sample_interval_secs = default_rate_limit_sample_interval_secs;
}

pub record SecurityConfig : Type 0 where
  pub client_shutdown_key : Option String

pub record Config : Type 0 where
  pub server : ServerConfig
  pub wol : WolConfig
  pub network : NetworkConfig
  pub storage : StorageConfig
  pub health : HealthConfig
  pub security : SecurityConfig

abbrev pub default_config : Config
default_config = record {
  server = default_server;
  wol = default_wol;
  network = default_network;
  storage = default_storage;
  health = default_health;
  security = record { client_shutdown_key = none };
}

abbrev pub config_dir : String
config_dir = "/etc/wakezilla"

abbrev pub data_dir : String
data_dir = "/var/lib/wakezilla"

-- PathBuf::join
unfoldable pub join : String → String → String
join dir name = if starts_with name "/" then name else dir ^^ "/" ^^ name

unfoldable pub data_path : (file_name : String) → String
unfolding join
data_path file_name = join data_dir file_name

abbrev pub config_path : String
config_path = "/etc/wakezilla/config.toml"

-- Config::load, where `load_from` reads the file and the environment.
unfoldable pub load : {E : Type 0} → (load_from : String → Result Config E) → Config
load load_from = elim (load_from config_path) [ ok config ↦ config | err e ↦ default_config ]

-- Config::get_default_broadcast_addr
unfoldable pub get_default_broadcast_addr : Config → Ipv4
unfolding parse_ipv4
get_default_broadcast_addr config =
    unwrap_or (parse_ipv4 config.wol.default_broadcast_ip)
      (record { a = 255; b = 255; c = 255; d = 255 })

-- Duration::from_secs, in milliseconds.
abbrev pub from_secs : ℕ → ℕ
from_secs s = s * 1000

-- Durations in milliseconds.
unfoldable pub proxy_connect_timeout : Config → ℕ
proxy_connect_timeout config = config.health.proxy_connect_timeout_ms

unfoldable pub wol_packet_sleeptime : Config → ℕ
wol_packet_sleeptime config = config.wol.packet_sleeptime_ms

unfoldable pub network_scan_duration : Config → ℕ
network_scan_duration config = from_secs config.network.scan_duration_secs

unfoldable pub network_read_timeout : Config → ℕ
network_read_timeout config = from_secs config.network.read_timeout_secs

unfoldable pub health_check_interval : Config → ℕ
health_check_interval config = config.health.check_interval_ms

unfoldable pub system_shutdown_sleep_duration : Config → ℕ
system_shutdown_sleep_duration config = from_secs config.health.system_shutdown_sleep_secs

-- A path that may hold a secret. The kernel knows its mode as a number.
pub data Entry : Type 0 where
  absent : Entry
  regular : (mode : ℕ) (contents : List ℕ) → Entry
  symlink : (target : String) → Entry

-- What the system answers while a secret file is written. `created_mode` is the mode that a new file
-- gets from 0600 and the umask, and `write_all` the number of bytes written before an error.
pub record Writing : Type 0 where
  pub create_dir_all : Bool
  pub opens : Bool
  pub created_mode : ℕ
  pub set_permissions : Bool
  pub write_all : Option ℕ
  pub sync_all : Bool

pub data WriteError : Type 0 where
  no_directory not_opened not_protected not_written not_synced not_serialised : WriteError

-- open with create, write, truncate, mode 0600 and O_NOFOLLOW.
unfoldable pub open_secret : Writing → Entry → Result Entry WriteError
open_secret w absent = if w.opens then ok (regular w.created_mode []) else err not_opened
open_secret w (regular mode contents) = if w.opens then ok (regular mode []) else err not_opened
open_secret w (symlink target) = err not_opened

-- set_permissions, write_all and sync_all on the open file.
unfoldable pub write_opened : Writing → Entry → List ℕ → Entry × Result (Unit {0}) WriteError
write_opened w opened contents =
    if w.set_permissions
    then elim w.write_all [
      | none ↦ (regular 0o600 contents, if w.sync_all then ok tt else err not_synced)
      | some n ↦ (regular 0o600 (take n contents), err not_written)
    ]
    else (opened, err not_protected)

unfoldable pub after_open :
    Writing → Entry → List ℕ → Result Entry WriteError → Entry × Result (Unit {0}) WriteError
unfolding write_opened
after_open w entry contents (ok opened) = write_opened w opened contents
after_open w entry contents (err e) = (entry, err e)

-- write_secret_file
unfoldable pub write_secret_file : Writing → Entry → List ℕ → Entry × Result (Unit {0}) WriteError
unfolding open_secret after_open
write_secret_file w entry contents =
    if w.create_dir_all
    then after_open w entry contents (open_secret w entry)
    else (entry, err no_directory)

unfoldable pub save_text : Writing → Entry → Option (List ℕ) → Entry × Result (Unit {0}) WriteError
unfolding write_secret_file
save_text w entry none = (entry, err not_serialised)
save_text w entry (some contents) = write_secret_file w entry contents

-- Config::save_to
unfoldable pub save_to :
    (to_string_pretty : Config → Option (List ℕ))
    → Writing
    → Entry
    → Config
    → Entry × Result (Unit {0}) WriteError
unfolding save_text
save_to to_string_pretty w entry config = save_text w entry (to_string_pretty config)
