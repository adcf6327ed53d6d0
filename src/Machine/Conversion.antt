-- ===== src/Machine/Conversion.antt =====
-- A machine that goes out to a client and comes back.
use wakezilla.Prelude.{
  if◌then◌else◌, Bool-cases, is_blank, ok, ◌<◌, ◌≡◌, refl, inl, inr, false, none, List, [], ◌∷◌,
  map,
}
use wakezilla.Net.RoundTrip.{parse_ipv4-ipv4_to_string}
use wakezilla.Machine.{
  PortForward, Machine, api_port_forward_to_internal, internal_port_forward_to_api,
  machine_to_api_machine, api_machine_to_internal,
}

-- A service whose name is blank comes back with the empty name.
abbrev pub unnamed_if_blank : PortForward → PortForward
unnamed_if_blank pf = record pf { name = if is_blank pf.name then "" else pf.name }

port_forward_round_trip :
    (pf : PortForward)
    → api_port_forward_to_internal (internal_port_forward_to_api pf) ≡ unnamed_if_blank pf
unfolding api_port_forward_to_internal internal_port_forward_to_api
port_forward_round_trip pf = elim (Bool-cases (is_blank pf.name)) [
  | inl blank ↦ rw blank
  | inr named ↦ rw named
]

port_forwards_round_trip :
    (pfs : List PortForward)
    → map api_port_forward_to_internal (map internal_port_forward_to_api pfs)
      ≡ map unnamed_if_blank pfs
port_forwards_round_trip [] = refl
port_forwards_round_trip (pf ∷ pfs) = rw (port_forward_round_trip pf, port_forwards_round_trip pfs)

-- A machine with an address of four bytes that is shown to a client and sent back is the same
-- machine, but for its key and its verification, which no client sees, and for blank service names,
-- which become empty.
pub api_machine_to_internal-machine_to_api_machine :
    (m : Machine)
    → (m.ip.a < 256) × (m.ip.b < 256) × (m.ip.c < 256) × (m.ip.d < 256)
    → api_machine_to_internal (machine_to_api_machine m)
      ≡ ok (record m {
        shutdown_auth_key = none;
        shutdown_auth_verified = false;
        port_forwards = map unnamed_if_blank m.port_forwards;
      })
unfolding api_machine_to_internal machine_to_api_machine
api_machine_to_internal-machine_to_api_machine m h =
    rw (parse_ipv4-ipv4_to_string m.ip h, port_forwards_round_trip)
