-- ===== src/ProxyServer/Hosts.antt =====
-- src/proxy_server.rs: the handlers that reach a machine over the network, and those that read what
-- is known of it.
use wakezilla.Prelude.{
  ◌==◌, if◌then◌else◌, unwrap_or, find, ◌^^◌, is_blank, ok, err, show, ℕ, String, Bool, false, not,
  Option, none, some, List, [], map, ℤ,
}
use wakezilla.Net.{ipv4_to_string}
use wakezilla.Machine.{PortForward}
use wakezilla.ShutdownAuth.{Crypto}
use wakezilla.AccessLog.{service_key, AccessLog, get}
use wakezilla.Wol.{parse_mac, Udp, Datagram, send_packets}
use wakezilla.AppState.{AppState}
use wakezilla.Forward.{Outgoing, Http, TurnOffError, turn_off_remote_machine}
use wakezilla.ProxyServer.Setup.{has_mac}

pub data Reply : Type 0 where
  sent_turn_off no_turn_off_port machine_not_found invalid_mac sent_wol failed_wol : Reply
  failed_turn_off : TurnOffError → Reply

unfoldable pub code_of : Reply → ℕ
code_of sent_turn_off = 200
code_of sent_wol = 200
code_of no_turn_off_port = 400
code_of invalid_mac = 400
code_of machine_not_found = 404
code_of failed_wol = 500
code_of (failed_turn_off e) = 502

unfoldable pub execute_remote_turn_off :
    Crypto
    → Http
    → (nonce_bytes : List ℕ) → (now : ℕ) → AppState
    → (mac : String) → List Outgoing × Reply
execute_remote_turn_off c http nonce_bytes now state mac =
    elim (find (has_mac mac) state.machines) [
      | none ↦ ([], machine_not_found)
      | some machine ↦ elim machine.turn_off_port [
        | none ↦ ([], no_turn_off_port)
        | some port ↦
            let (requests, result) =
              turn_off_remote_machine c http nonce_bytes now (ipv4_to_string machine.ip) port
                machine.shutdown_auth_key in
            (requests, elim result [ ok _ ↦ sent_turn_off | err e ↦ failed_turn_off e ])
      ]
    ]

-- config.wol and `get_default_broadcast_addr`
pub record WolConfig : Type 0 where
  pub default_port : ℕ
  pub default_packet_count : ℕ
  pub broadcast : List ℕ

unfoldable pub execute_wake : Udp → WolConfig → (mac_input : String) → List Datagram × Reply
execute_wake udp config mac_input = elim (parse_mac mac_input) [
  | err _ ↦ ([], invalid_mac)
  | ok mac ↦
      let (sent, result) =
        send_packets udp mac config.broadcast config.default_port config.default_packet_count in
      (sent, elim result [ ok _ ↦ sent_wol | err _ ↦ failed_wol ])
]

pub data IsOn : Type 0 where
  not_found no_client : IsOn
  answered : Bool → IsOn

abbrev pub is_ok : Option ℕ → Bool
is_ok none = false
is_ok (some status) = status == 200

unfoldable pub is_machine_on_api : Http → AppState → (mac : String) → IsOn
is_machine_on_api http state mac = elim (find (has_mac mac) state.machines) [
  | none ↦ not_found
  | some machine ↦
      let port = unwrap_or machine.turn_off_port 3001 in
      let url = "http://" ^^ (ipv4_to_string machine.ip ^^ (":" ^^ (show port ^^ "/health"))) in
      if not http.builds
      then no_client
      else answered (is_ok (http.send (record { method = "GET"; url = url; headers = none })))
]

pub record ServiceAccessHistory : Type 0 where
  pub name : Option String
  pub local_port : ℕ
  pub target_port : ℕ
  pub timestamps : List ℤ

unfoldable pub service_history : AccessLog → (mac : String) → PortForward → ServiceAccessHistory
service_history log mac pf = record {
  name = if is_blank pf.name then none else some pf.name;
  local_port = pf.local_port;
  target_port = pf.target_port;
  timestamps = get log (service_key mac pf.local_port);
}

unfoldable pub get_access_history_api :
    AccessLog → AppState → (mac : String) → Option (List ServiceAccessHistory)
unfolding service_history
get_access_history_api log state mac = elim (find (has_mac mac) state.machines) [
  | none ↦ none
  | some machine ↦ some (map (service_history log machine.mac) machine.port_forwards)
]
