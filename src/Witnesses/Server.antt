-- ===== src/Witnesses/Server.antt =====
-- Runs of the handlers of src/proxy_server.rs, of src/web.rs and of the limiter of src/forward.rs.
use wakezilla.Prelude.{
  if◌then◌else◌, filter, find, All, str_eq, is_ascii_hexdigit, is_whitespace, is_blank, codes_eq,
  lookup, ok, ℕ, ◌≤◌, ◌≡◌, refl, true, false, not, none, some, List, [], ◌∷◌, map, arith,
}
use wakezilla.Common
use wakezilla.Net.{ipv4_eq, parse_ipv4}
use wakezilla.Machine.{
  Machine, is_match, api_port_forward_to_internal, machine_to_api_machine, api_machine_to_internal,
}
use wakezilla.Machine.MacFormat.{is_match-IsMac}
use wakezilla.Machine.Conversion.{unnamed_if_blank, api_machine_to_internal-machine_to_api_machine}
use wakezilla.Limiter.{TurnOffLimiter}
use wakezilla.Limiter.Once.{count, Event, run, count-run-le_one, request, initialize, second}
use wakezilla.AppState.{load_machines_from_path}
use wakezilla.ProxyServer.Validation.{bad_turn_off_port, is_replaced, validate_machine_config}
use wakezilla.ProxyServer.Setup.{apply_shutdown_security, has_mac, rotate_shutdown_key}
use wakezilla.ProxyServer.Machines.{Env, delete_machine_api}
use wakezilla.ProxyServer.Valid.{HasClientPort, IsMachine, Compatible, IsValid}
use wakezilla.ProxyServer.Accepted.{validate_machine_config-Compatible}
use wakezilla.ProxyServer.Invariant.{handle, handle-IsValid, add, rotate}
use wakezilla.ProxyServer.Effects.{load_machines_from_path-handle, handle-failed}
use wakezilla.ProxyServer.Keys.{KeepsVerified, apply_shutdown_security-KeepsVerified}
use wakezilla.ProxyServer.Startup.{
  start_state, forwarders_of, start_state-forwarders_of, empty_state,
}
use wakezilla.ProxyServer.Deletion.{delete_machine_api-gone}
use wakezilla.Witnesses.Fixtures.{machine_one, payload_two, state_one, env_written, env_failed}

client_port : HasClientPort machine_one.turn_off_port machine_one.can_be_turned_off
client_port = λ e. absurd (omega (arith, e))

state_one-IsValid : IsValid state_one.machines
unfolding is_match is_ascii_hexdigit is_blank is_whitespace bad_turn_off_port
state_one-IsValid =
    ((is_match-IsMac "00:11:22:AA:BB:CC" refl, refl, client_port, (refl, refl, refl, tt)), tt, tt)

handle-IsValid_example : IsValid (handle env_written (add payload_two) state_one).machines
handle-IsValid_example = handle-IsValid env_written (add payload_two) state_one state_one-IsValid

abbrev rotated : List Machine
rotated = record machine_one { shutdown_auth_key = some "new"; shutdown_auth_verified = false } ∷ []

abbrev env_json : Env
env_json = record env_written {
  json = record {
    to_string = λ _. "two";
    from_str = λ text. if str_eq text "one" then some (machine_one ∷ []) else some rotated;
  };
}

load_machines_from_path-handle_example :
    load_machines_from_path env_json.json (handle env_json (rotate "00:11:22:AA:BB:CC") state_one)
    ≡ ok (handle env_json (rotate "00:11:22:AA:BB:CC") state_one).machines
unfolding handle rotate_shutdown_key load_machines_from_path
load_machines_from_path-handle_example =
    load_machines_from_path-handle env_json (rotate "00:11:22:AA:BB:CC") state_one refl refl refl

handle-failed_example :
    ((handle env_failed (add payload_two) state_one).machines ≡ state_one.machines)
    × ((handle env_failed (add payload_two) state_one).turn_off_limiter
        ≡ state_one.turn_off_limiter)
    × ((handle env_failed (add payload_two) state_one).proxies ≡ state_one.proxies)
    × ((handle env_failed (add payload_two) state_one).spawned ≡ state_one.spawned)
handle-failed_example = handle-failed env_failed (add payload_two) state_one none refl

abbrev api_two : Common.Machine
api_two = record {
  name = "two";
  machine_type = Common.server;
  mac = "00:11:22:AA:BB:CD";
  ip = "10.0.0.2";
  description = none;
  turn_off_port = some 3001;
  can_be_turned_off = true;
  inactivity_period = 60;
  port_forwards = record { name = some "web"; local_port = 8080; target_port = 80 } ∷ [];
}

abbrev machine_two : Machine
machine_two = record {
  mac = "00:11:22:AA:BB:CD";
  ip = record { a = 10; b = 0; c = 0; d = 2 };
  name = "two";
  machine_type = Common.server;
  description = none;
  turn_off_port = some 3001;
  can_be_turned_off = true;
  shutdown_auth_key = some "new";
  shutdown_auth_verified = false;
  inactivity_period = 60;
  port_forwards = record { name = "web"; local_port = 8080; target_port = 80 } ∷ [];
}

validate_machine_config-Compatible_example :
    IsMachine machine_two
    × All (Compatible machine_two) (filter (λ m. not (is_replaced none m)) state_one.machines)
unfolding validate_machine_config is_replaced codes_eq is_ascii_hexdigit parse_ipv4 is_blank
    api_port_forward_to_internal
validate_machine_config-Compatible_example =
    validate_machine_config-Compatible api_two state_one.machines none machine_two refl
      (refl, refl, refl, refl, refl)

apply_shutdown_security-KeepsVerified_example :
    KeepsVerified machine_one machine_one
      (apply_shutdown_security "new" (some machine_one) machine_one)
unfolding apply_shutdown_security ipv4_eq
apply_shutdown_security-KeepsVerified_example =
    apply_shutdown_security-KeepsVerified "new" machine_one machine_one refl

abbrev deletion : Common.DeleteMachinePayload
deletion = record { mac = "00:11:22:AA:BB:CC" }

delete_machine_api-gone_example :
    (find (has_mac deletion.mac) (delete_machine_api env_written deletion state_one).0.machines
      ≡ none)
    × (lookup deletion.mac (delete_machine_api env_written deletion state_one).0.turn_off_limiter
        ≡ none)
    × (lookup "00:11:22:AA:BB:CC-2222-22"
          (delete_machine_api env_written deletion state_one).0.proxies
        ≡ none)
delete_machine_api-gone_example =
    delete_machine_api-gone env_written deletion state_one machine_one "00:11:22:AA:BB:CC-2222-22"
      refl refl refl

abbrev events : List (Event × ℕ)
events =
    (initialize machine_one 3001, 0)
    ∷ (second, 600001)
    ∷ (second, 601001)
    ∷ (request "00:11:22:AA:BB:CC", 602000)
    ∷ (second, 1300000)
    ∷ []

-- Two ticks long after the last connection, with one of another machine between them.
abbrev idle : List (Event × ℕ)
idle = (second, 9000000) ∷ (request "other", 9000500) ∷ (second, 9001000) ∷ []

count-run-le_one_example : count "00:11:22:AA:BB:CC" (run (run [] events).0 idle).1 ≤ 1
count-run-le_one_example = count-run-le_one events idle "00:11:22:AA:BB:CC" refl

abbrev one_timer : TurnOffLimiter
one_timer =
    (
      "00:11:22:AA:BB:CC",
      record {
        ip = record { a = 10; b = 0; c = 0; d = 1 };
        window = 600000;
        turn_off_port = 3001;
        shutdown_auth_key = none;
        triggered = false;
        last_request = 0;
      },
    )
    ∷ []

api_machine_to_internal-machine_to_api_machine_example :
    api_machine_to_internal (machine_to_api_machine machine_two)
    ≡ ok (record machine_two {
      shutdown_auth_key = none;
      shutdown_auth_verified = false;
      port_forwards = map unnamed_if_blank machine_two.port_forwards;
    })
api_machine_to_internal-machine_to_api_machine_example =
    api_machine_to_internal-machine_to_api_machine machine_two
      (omega arith, omega arith, omega arith, omega arith)

start_state-forwarders_of_example :
    ((start_state env_json.json 5 (some "one")).machines ≡ machine_one ∷ [])
    × ((start_state env_json.json 5 (some "one")).spawned ≡ forwarders_of (machine_one ∷ []))
    × ((start_state env_json.json 5 (some "one")).monitor_handle ≡ some 0)
unfolding load_machines_from_path empty_state
start_state-forwarders_of_example =
    start_state-forwarders_of env_json.json 5 (some "one") (machine_one ∷ []) refl
