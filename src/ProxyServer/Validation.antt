-- ===== src/ProxyServer/Validation.antt =====
-- `validate_machine_config` of src/proxy_server.rs: what a machine must satisfy to be added to the
-- list, or to replace one of it.
use wakezilla.Prelude.{
  ◌==◌, if◌then◌else◌, is_none, any, filter, str_eq, codes, to_ascii_lowercase, is_blank, codes_eq,
  HashMap, insert, Result, ok, err, ℕ, String, Bool, true, false, not, ◌||◌, Option, none, some,
  List, [], ◌∷◌, map,
}
use wakezilla.Common
use wakezilla.Net.{parse_ipv4}
use wakezilla.Machine.{PortForward, Machine, is_match}

abbrev pub Errors : Type 0
Errors = HashMap (List String)

unfoldable pub flag : Bool → (field message : String) → Errors → Errors
flag b field message errors = if b then insert field (message ∷ []) errors else errors

-- HashSet::contains
unfoldable pub contains : ℕ → List ℕ → Bool
contains p [] = false
contains p (q ∷ ports) = p == q || contains p ports

abbrev pub replace_dash : ℕ → ℕ
replace_dash c = if c == b'-' then b':' else c

unfoldable pub normalized : String → List ℕ
unfolding to_ascii_lowercase
normalized mac = map (λ c. to_ascii_lowercase (replace_dash c)) (codes mac)

-- a.replace('-', ":").eq_ignore_ascii_case(&b.replace('-', ":"))
unfoldable pub same_mac : String → String → Bool
unfolding normalized
same_mac a b = codes_eq (normalized a) (normalized b)

unfoldable pub bad_turn_off_port : Option ℕ → Bool → Bool
bad_turn_off_port none can_be_turned_off = can_be_turned_off
bad_turn_off_port (some port) can_be_turned_off = port == 0

abbrev pub services_message : String
services_message = "Use valid, unique local ports and valid target ports"

-- The loop over the services. A port enters the set only where both ports are not zero.
unfoldable pub check_services :
    List Common.PortForward → (ports : List ℕ) → Errors → List ℕ × Errors
unfolding contains flag
check_services [] ports errors = (ports, errors)
check_services (service ∷ services) ports errors =
    if service.local_port == 0 || service.target_port == 0
    then check_services services ports (flag true "port_forwards" services_message errors)
    else check_services services
        (if contains service.local_port ports then ports else service.local_port ∷ ports)
        (flag (contains service.local_port ports) "port_forwards" services_message errors)

unfoldable pub uses_port : (ports : List ℕ) → List PortForward → Bool
uses_port ports services = any (λ service. contains service.local_port ports) services

unfoldable pub check_existing : List Machine → (mac : String) → (ports : List ℕ) → Errors → Errors
unfolding same_mac uses_port flag
check_existing [] mac ports errors = errors
check_existing (existing ∷ machines) mac ports errors = check_existing machines mac ports (
    flag (uses_port ports existing.port_forwards) "port_forwards"
      "A local port is already assigned to another machine"
      (flag (same_mac existing.mac mac) "mac" "This MAC address is already registered" errors))

unfoldable pub is_replaced : Option String → Machine → Bool
is_replaced none existing = false
is_replaced (some mac) existing = str_eq existing.mac mac

unfoldable pub check_fields : Common.Machine → Errors → Errors
unfolding flag is_match bad_turn_off_port
check_fields machine errors =
    flag (bad_turn_off_port machine.turn_off_port machine.can_be_turned_off) "turn_off_port"
      "A client port between 1 and 65535 is required"
      (flag (not (is_match machine.mac)) "mac" "Invalid MAC address" (
        flag (is_none (parse_ipv4 machine.ip)) "ip" "Invalid IPv4 address"
          (flag (is_blank machine.name) "name" "Name is required" errors)))

abbrev pub result_of : Errors → Result (Unit {0}) Errors
result_of [] = ok tt
result_of (e ∷ errors) = err (e ∷ errors)

unfoldable pub validate_machine_config :
    Common.Machine → List Machine → (replacing : Option String) → Result (Unit {0}) Errors
unfolding check_fields check_services check_existing
validate_machine_config machine machines replacing =
    let (ports, errors) = check_services machine.port_forwards [] (check_fields machine []) in
    let others = filter (λ existing. not (is_replaced replacing existing)) machines in
    result_of (check_existing others machine.mac ports errors)
