-- ===== src/ProxyServer/Machines.antt =====
-- src/proxy_server.rs: the handlers that read and change the list of machines. A handler holds the
-- lock of the list for as long as it runs. The bodies of the answers are constructors.
use mathlib.Core.List.{reverse}
use wakezilla.Prelude.{
  if◌then◌else◌, is_some, unwrap_or, get_elem?, set, filter, find, position, starts_with, ◌^^◌,
  is_blank, HashMap, insert, retain, Result, ◌>>=◌, ok_or, ok, err, ℕ, String, not, Option, none,
  some, List, [], ◌∷◌, ◌++◌, map,
}
use wakezilla.Common
use wakezilla.Net.{is_ip_addr}
use wakezilla.Limiter.{TurnOffLimiter, remove_machine}
use wakezilla.Machine.{
  Machine, is_match, get_default_inactivity_period, machine_to_api_machine, api_machine_to_internal,
  ConversionError, invalid_ipv4_address,
}
use wakezilla.Common.{MachineType, MachinePayload, DeleteMachinePayload, server}
use wakezilla.AppState.{
  Forwarder, AppState, MachinesJson, Write, save_machines, start_proxy_if_configured,
  restart_global_monitor,
}
use wakezilla.ProxyServer.Validation.{Errors, flag, validate_machine_config, result_of}
use wakezilla.ProxyServer.Setup.{shutdown_port, apply_shutdown_security, has_mac}

pub data Body : Type 0 where
  errors : Errors → Body
  error : String → Body
  status : String → Body

pub record Response : Type 0 where
  pub code : ℕ
  pub body : Body

-- What a handler obtains from outside: the new key, the time, and how the write ends.
pub record Env : Type 0 where
  pub json : MachinesJson
  pub generated_key : String
  pub now : ℕ
  pub write : Write

abbrev pub bad_request : Errors → Response
bad_request e = record { code = 400; body = errors e }

abbrev pub failed_to_save : Response
failed_to_save = record { code = 500; body = error "Failed to save machines" }

unfoldable pub machine_of_payload : MachinePayload → Common.MachineType → Common.Machine
machine_of_payload payload default_type = record {
  name = payload.name;
  machine_type = unwrap_or payload.machine_type default_type;
  mac = payload.mac;
  ip = payload.ip;
  description = payload.description;
  turn_off_port = payload.turn_off_port;
  can_be_turned_off = payload.can_be_turned_off;
  inactivity_period = unwrap_or payload.inactivity_period get_default_inactivity_period;
  port_forwards = unwrap_or payload.port_forwards [];
}

unfoldable pub payload_errors : MachinePayload → Errors
payload_errors payload = flag (not (is_match payload.mac)) "mac" "Invalid MAC address" (
    flag (not (is_ip_addr payload.ip)) "ip" "Invalid IP address"
      (flag (is_blank payload.name) "name" "Name is required" []))

unfoldable pub conversion_errors : ConversionError → Errors
conversion_errors (invalid_ipv4_address ip) = insert "ip" (("Invalid IPv4 address: " ^^ ip) ∷ []) []

-- *machines = updated, where the save succeeds
unfoldable pub commit :
    Env
    → List Machine
    → AppState
    → (continue : AppState → AppState × Response) → AppState × Response
commit env updated state continue =
    let (state', result) = save_machines env.json env.write updated state in
    elim result [
      | err _ ↦ (state', failed_to_save)
      | ok _ ↦ continue (record state' { machines = updated })
    ]

unfoldable pub new_key : Env → Machine → Machine
new_key env machine =
    if is_some (shutdown_port machine)
    then record machine { shutdown_auth_key = some env.generated_key }
    else machine

abbrev pub validated :
    Result (Unit {0}) Errors → AppState → (continue : AppState × Response) → AppState × Response
validated (err e) state continue = (state, bad_request e)
validated (ok _) state continue = continue

-- *machines = updated has been done: what follows it in `add_machine_api`.
unfoldable pub after_add : Env → (new_machine : Machine) → AppState → AppState × Response
after_add env new_machine state = (
  start_proxy_if_configured new_machine env.now state,
  record { code = 201; body = status "Machine added" },
)

unfoldable pub add_converted : Env → Common.Machine → Machine → AppState → AppState × Response
unfolding commit after_add
add_converted env api_machine new_machine state =
    validated (validate_machine_config api_machine state.machines none) state
      (commit env (state.machines ++ (new_machine ∷ [])) state (after_add env new_machine))

abbrev pub internal_or :
    Result Machine ConversionError
    → AppState
    → (continue : Machine → AppState × Response) → AppState × Response
internal_or (err e) state continue = (state, bad_request (conversion_errors e))
internal_or (ok machine) state continue = continue machine

unfoldable pub add_machine_api : Env → MachinePayload → AppState → AppState × Response
unfolding payload_errors new_key add_converted machine_of_payload
add_machine_api env payload state =
    let api_machine = machine_of_payload payload server in
    validated (result_of (payload_errors payload)) state (
      internal_or (api_machine_to_internal api_machine) state
        (λ machine. add_converted env api_machine (new_key env machine) state))

unfoldable pub show_machines_api : AppState → List Common.Machine
show_machines_api state = map machine_to_api_machine (reverse state.machines)

unfoldable pub get_machine_details_api : AppState → (mac : String) → Result Common.Machine Response
get_machine_details_api state mac = do
  machine ←
      ok_or (find (has_mac mac) state.machines)
        (record { code = 404; body = error "Machine not found" })
  ok (machine_to_api_machine machine)

-- The keys of the forwarders that an edit stops start with the machine's address.
unfoldable pub stop_proxies : (prefix : String) → HashMap Forwarder → HashMap Forwarder
stop_proxies prefix proxies = retain (λ key _. not (starts_with key prefix)) proxies

-- What follows in `update_machine_api`; `old.mac` is the address in the request, by which the machine
-- was found.
unfoldable pub after_update : Env → (old new : Machine) → AppState → AppState × Response
unfolding stop_proxies
after_update env old new state =
    let stopped = record state {
      turn_off_limiter = remove_machine state.turn_off_limiter old.mac;
      proxies = stop_proxies old.mac state.proxies;
    } in
    (
      restart_global_monitor (start_proxy_if_configured new env.now stopped),
      record { code = 200; body = status "Machine updated" },
    )

unfoldable pub replace_machine :
    Env → (index : ℕ) → (old new : Machine) → AppState → AppState × Response
unfolding commit after_update
replace_machine env index old new state =
    commit env (set state.machines index new) state (after_update env old new)

unfoldable pub update_converted :
    Env
    → (mac : String) → (index : ℕ) → (old : Machine) → Common.Machine
    → AppState
    → AppState × Response
unfolding replace_machine
update_converted env mac index old api_machine state =
    validated (validate_machine_config api_machine state.machines (some mac)) state (
      internal_or (api_machine_to_internal api_machine) state (λ new.
        replace_machine env index old (apply_shutdown_security env.generated_key (some old) new)
          state))

-- `machines[index]` is in range, since `position` found it.
unfoldable pub update_machine_api :
    Env → (mac : String) → MachinePayload → AppState → AppState × Response
unfolding update_converted machine_of_payload
update_machine_api env mac payload state =
    let not_found : Response = record { code = 404; body = error "Machine not found" } in
    elim (position (has_mac mac) state.machines) [
      | none ↦ (state, not_found)
      | some index ↦ elim (get_elem? state.machines index) [
        | none ↦ (state, not_found)
        | some old ↦
            update_converted env mac index old (machine_of_payload payload old.machine_type) state
      ]
    ]

abbrev pub remove_timer : Option Machine → TurnOffLimiter → TurnOffLimiter
remove_timer none limiter = limiter
remove_timer (some machine) limiter = remove_machine limiter machine.mac

unfoldable pub after_delete :
    (mac : String) → (removed : Option Machine) → AppState → AppState × Response
unfolding stop_proxies
after_delete mac removed state = (
  record state {
    turn_off_limiter = remove_timer removed state.turn_off_limiter;
    proxies = stop_proxies (mac ^^ "-") state.proxies;
  },
  record { code = 200; body = status "Machine deleted" },
)

unfoldable pub delete_machine_api : Env → DeleteMachinePayload → AppState → AppState × Response
unfolding commit after_delete
delete_machine_api env payload state =
    commit env (filter (λ machine. not (has_mac payload.mac machine)) state.machines) state
      (after_delete payload.mac (find (has_mac payload.mac) state.machines))
