-- ===== src/Machine.antt =====
-- src/web.rs: the machines that the server keeps, the checks of their fields, and the conversions
-- from and to the types of the API. A machine is stored as JSON; the JSON library is an argument of
-- the operations that use it.
pub mod Conversion
pub mod MacFormat
use wakezilla.Prelude.{
  ◌==◌, if◌then◌else◌, unwrap_or, codes, is_ascii_hexdigit, is_blank, Result, ◌>>=◌, ◌>>◌, ok_or,
  ok, err, ℕ, zero, suc, String, Bool, false, ◌&&◌, ◌||◌, Option, none, some, List, [], ◌∷◌, map,
}
use wakezilla.Common
use wakezilla.Common.{MachineType}
use wakezilla.Net.{Ipv4, ipv4_to_string, parse_ipv4, is_ip_addr}

pub record PortForward : Type 0 where
  pub name : String
  pub local_port : ℕ
  pub target_port : ℕ

pub record Machine : Type 0 where
  pub mac : String
  pub ip : Ipv4
  pub name : String
  pub machine_type : MachineType
  pub description : Option String
  pub turn_off_port : Option ℕ
  pub can_be_turned_off : Bool
  pub shutdown_auth_key : Option String
  pub shutdown_auth_verified : Bool
  pub inactivity_period : ℕ
  pub port_forwards : List PortForward

pub data ValidationError : Type 0 where
  invalid_ip_address invalid_mac_address : ValidationError

unfoldable pub validate_ip : String → Result (Unit {0}) ValidationError
validate_ip ip = if is_ip_addr ip then ok tt else err invalid_ip_address

abbrev is_separator : ℕ → Bool
is_separator c = c == b':' || c == b'-'

-- `([0-9A-Fa-f]{2}[:-]){n}([0-9A-Fa-f]{2})$`
matches_groups : ℕ → List ℕ → Bool
matches_groups zero (hi ∷ lo ∷ []) = is_ascii_hexdigit hi && is_ascii_hexdigit lo
matches_groups (suc n) (hi ∷ lo ∷ sep ∷ rest) =
    (is_ascii_hexdigit hi && (is_ascii_hexdigit lo && is_separator sep)) && matches_groups n rest
matches_groups _ _ = false

-- MAC_REGEX
unfoldable pub is_match : String → Bool
unfolding matches_groups
is_match mac = matches_groups 5 (codes mac)

unfoldable pub validate_mac : String → Result (Unit {0}) ValidationError
unfolding is_match
validate_mac mac = if is_match mac then ok tt else err invalid_mac_address

abbrev pub get_default_inactivity_period : ℕ
get_default_inactivity_period = 60

unfoldable pub api_port_forward_to_internal : Common.PortForward → PortForward
api_port_forward_to_internal pf = record {
  name = unwrap_or pf.name "";
  local_port = pf.local_port;
  target_port = pf.target_port;
}

unfoldable pub internal_port_forward_to_api : PortForward → Common.PortForward
internal_port_forward_to_api pf = record {
  name = if is_blank pf.name then none else some pf.name;
  local_port = pf.local_port;
  target_port = pf.target_port;
}

unfoldable pub machine_to_api_machine : Machine → Common.Machine
machine_to_api_machine machine = record {
  name = machine.name;
  machine_type = machine.machine_type;
  mac = machine.mac;
  ip = ipv4_to_string machine.ip;
  description = machine.description;
  turn_off_port = machine.turn_off_port;
  can_be_turned_off = machine.can_be_turned_off;
  inactivity_period = machine.inactivity_period;
  port_forwards = map internal_port_forward_to_api machine.port_forwards;
}

pub data ConversionError : Type 0 where
  invalid_ipv4_address : String → ConversionError

unfoldable pub api_machine_to_internal : Common.Machine → Result Machine ConversionError
api_machine_to_internal api = do
  ip ← ok_or (parse_ipv4 api.ip) (invalid_ipv4_address api.ip)
  ok (record {
    mac = api.mac;
    ip = ip;
    name = api.name;
    machine_type = api.machine_type;
    description = api.description;
    turn_off_port = api.turn_off_port;
    can_be_turned_off = api.can_be_turned_off;
    shutdown_auth_key = none;
    shutdown_auth_verified = false;
    inactivity_period = api.inactivity_period;
    port_forwards = map api_port_forward_to_internal api.port_forwards;
  })
