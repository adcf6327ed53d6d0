-- ===== src/Cli.antt =====
-- src/cli.rs: the arguments that change what the program does, and the command that sends a magic
-- packet. The parsing of the command line is the crate clap's.
pub mod Send
use wakezilla.Prelude.{
  if◌then◌else◌, unwrap_or, Result, ok, err, ℕ, String, Bool, true, false, Option, none, some, List,
  [], ◌∷◌,
}
use wakezilla.Net.{Ipv4}
use wakezilla.Wol.{
  MacError, parse_mac, SendError, Udp, Datagram, send_packets, Host, Polling, check_host,
}
use wakezilla.Config.{Config, get_default_broadcast_addr}
use wakezilla.Setup.{SetupArgs}

-- `--port` of the proxy server.
pub record ServeArgs : Type 0 where
  pub port : Option ℕ

-- ServeArgs::apply_to_config
unfoldable pub apply_to_config : ServeArgs → Config → Config
apply_to_config args config = elim args.port [
  | none ↦ config
  | some port ↦ record config { server = record (config.server) { proxy_port = port } }
]

pub record SendArgs : Type 0 where
  pub mac : String
  pub broadcast : Option Ipv4
  pub port : ℕ
  pub count : ℕ
  pub check_ip : Option String
  pub check_tcp_port : ℕ
  pub wait_secs : ℕ
  pub interval_ms : ℕ
  pub connect_timeout_ms : ℕ

pub data Commands : Type 0 where
  send : SendArgs → Commands
  proxy_server : ServeArgs → Commands
  client_server : (port : ℕ) → Commands
  tui : (api_url : String) → Commands
  tray uninstall : Commands
  setup : SetupArgs → Commands
  service : (mode : Option String) → Commands
  update : (version : Option String) → Commands
  windows_service : (mode : String) → Commands

pub record Cli : Type 0 where
  pub no_update_check : Bool
  pub command : Commands

unfoldable pub checks_for_updates : Commands → Bool
checks_for_updates (setup args) = false
checks_for_updates uninstall = false
checks_for_updates (update version) = false
checks_for_updates tray = false
checks_for_updates (windows_service mode) = false
checks_for_updates (send args) = true
checks_for_updates (proxy_server args) = true
checks_for_updates (client_server port) = true
checks_for_updates (tui api_url) = true
checks_for_updates (service mode) = true

unfoldable pub should_check_for_updates : Cli → Bool
unfolding checks_for_updates
should_check_for_updates cli = if cli.no_update_check then false else checks_for_updates cli.command

unfoldable pub send_broadcast_addr : SendArgs → Config → Ipv4
unfolding get_default_broadcast_addr
send_broadcast_addr args config = unwrap_or args.broadcast (get_default_broadcast_addr config)

abbrev pub octets : Ipv4 → List ℕ
octets ip = ip.a ∷ ip.b ∷ ip.c ∷ ip.d ∷ []

pub data CommandError : Type 0 where
  invalid_mac not_sent not_reachable : CommandError

unfoldable pub polling_of : SendArgs → (ip : String) → Polling
polling_of args ip = record {
  ip = ip;
  check_tcp_port = args.check_tcp_port;
  wait_secs = args.wait_secs;
  interval_ms = args.interval_ms;
  connect_timeout_ms = args.connect_timeout_ms;
}

-- The check after the packets are sent. The waiting loop takes fuel, and `none` means that it ran out.
unfoldable pub check_after :
    (fuel : ℕ)
    → Host
    → (started : ℕ) → SendArgs
    → Option String
    → Option (Result (Unit {0}) CommandError)
unfolding check_host polling_of
check_after fuel host started args none = some (ok tt)
check_after fuel host started args (some ip) =
    elim (check_host fuel host started (polling_of args ip)) [
      | none ↦ none
      | some reachable ↦ some (if reachable then ok tt else err not_reachable)
    ]

unfoldable pub after_sending :
    (fuel : ℕ)
    → Host
    → (started : ℕ) → SendArgs
    → List Datagram × Result (Unit {0}) SendError
    → List Datagram × Option (Result (Unit {0}) CommandError)
unfolding check_after
after_sending fuel host started args (sent, ok done) =
    (sent, check_after fuel host started args args.check_ip)
after_sending fuel host started args (sent, err e) = (sent, some (err not_sent))

unfoldable pub send_to_mac :
    Udp
    → (fuel : ℕ) → Host
    → (started : ℕ) → SendArgs
    → Config
    → Result (List ℕ) MacError
    → List Datagram × Option (Result (Unit {0}) CommandError)
unfolding send_packets after_sending send_broadcast_addr
send_to_mac udp fuel host started args config (ok mac) =
    after_sending fuel host started args
      (send_packets udp mac (octets (send_broadcast_addr args config)) args.port args.count)
send_to_mac udp fuel host started args config (err e) = ([], some (err invalid_mac))

-- handle_send_command
unfoldable pub handle_send_command :
    Udp
    → (fuel : ℕ) → Host
    → (started : ℕ) → SendArgs
    → Config
    → List Datagram × Option (Result (Unit {0}) CommandError)
unfolding parse_mac send_to_mac
handle_send_command udp fuel host started args config =
    send_to_mac udp fuel host started args config (parse_mac args.mac)
