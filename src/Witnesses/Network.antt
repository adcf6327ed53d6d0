-- ===== src/Witnesses/Network.antt =====
-- Runs of src/wol.rs, of the addresses of src/web.rs and of one connection of a forwarder.
use wakezilla.Prelude.{
  ltb, leb, if◌then◌else◌, All, is_ascii_hexdigit, ok, ℕ, String, ◌≡◌, refl, true, some, List, [],
  ◌∷◌, arith,
}
use wakezilla.Net.{Ipv4}
use wakezilla.Limiter.{update_last_request}
use wakezilla.Wol.{parse_mac, build_magic_packet, Udp, send_packets, connected, refused, timed_out}
use wakezilla.Wol.Mac.{IsByte, parse_mac-format_mac}
use wakezilla.Wol.Sending.{Outcome, send_packets-Outcome}
use wakezilla.ProxyServer.Hosts.{WolConfig}
use wakezilla.Forward.Connection.{Ended, Network, Target, serve_connection}
use wakezilla.Forward.Termination.{serve_connection-ends}

abbrev mac_text : String
mac_text = "00:11:22:AA:BB:CC"

abbrev mac_bytes : List ℕ
mac_bytes = 0x00 ∷ 0x11 ∷ 0x22 ∷ 0xAA ∷ 0xBB ∷ 0xCC ∷ []

mac_bytes-IsByte : All IsByte mac_bytes
mac_bytes-IsByte =
    (omega arith, (omega arith, (omega arith, (omega arith, (omega arith, (omega arith, tt))))))

parse_mac-format_mac_example : parse_mac "00-11-22-aa-bb-cc" ≡ ok mac_bytes
unfolding is_ascii_hexdigit
parse_mac-format_mac_example =
    parse_mac-format_mac "00-11-22-aa-bb-cc" b'-' mac_bytes refl refl mac_bytes-IsByte refl

abbrev socket : Udp
socket = record { binds = true; sets_broadcast = true; sends = λ i. ltb i 2 }

send_packets-Outcome_example :
    Outcome socket
      (record {
        payload = build_magic_packet mac_bytes;
        broadcast = 255 ∷ 255 ∷ 255 ∷ 255 ∷ [];
        port = 9;
      })
      3
      0
      (send_packets socket mac_bytes (255 ∷ 255 ∷ 255 ∷ 255 ∷ []) 9 3)
send_packets-Outcome_example =
    send_packets-Outcome socket mac_bytes (255 ∷ 255 ∷ 255 ∷ 255 ∷ []) 9 3 refl refl

abbrev address : Ipv4
address = record { a = 192; b = 168; c = 1; d = 10 }

abbrev sleeping : Network
sleeping = record {
  first = refused;
  udp = record { binds = true; sets_broadcast = true; sends = λ _. true };
  started = 7;
  lag = 1;
  waiting = record { attempt = λ i. if leb i 4 then timed_out else connected; takes = λ i. 1000 };
  stream = connected;
  copies = some true;
}

abbrev target : Target
target = record {
  mac = mac_text;
  broadcast = 255 ∷ 255 ∷ 255 ∷ 255 ∷ [];
  wol_port = 9;
  wol_count = 3;
}

serve_connection-ends_example :
    ((serve_connection 32 sleeping target [] 7).0 ≡ update_last_request [] mac_text 7)
    × ((e : Ended) × ((serve_connection 32 sleeping target [] 7).1.1 ≡ some e))
serve_connection-ends_example = serve_connection-ends sleeping target [] 7

abbrev working_socket : Udp
working_socket = record { binds = true; sets_broadcast = true; sends = λ _. true }

abbrev config : WolConfig
config = record {
  default_port = 9;
  default_packet_count = 3;
  broadcast = 255 ∷ 255 ∷ 255 ∷ 255 ∷ [];
}
