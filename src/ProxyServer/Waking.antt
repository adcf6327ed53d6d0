-- ===== src/ProxyServer/Waking.antt =====
-- What `execute_wake` of src/proxy_server.rs sends.
use wakezilla.Prelude.{
  replicate, all, Result-cases, ok, ℕ, String, ◌≡◌, refl, ◌≢◌, ◌⊎◌, inl, inr, true, List, [], arith,
}
use wakezilla.Wol.{parse_mac, build_magic_packet, Udp, Datagram}
use wakezilla.Wol.Sending.{send_packets-Outcome, all_sent, failed_at}
use wakezilla.ProxyServer.Hosts.{code_of, WolConfig, execute_wake}

abbrev pub wake_datagram : WolConfig → (mac : List ℕ) → Datagram
wake_datagram config mac = record {
  payload = build_magic_packet mac;
  broadcast = config.broadcast;
  port = config.default_port;
}

-- On a socket that works, a wake-up request with an address that is read sends the magic packet of
-- that address as often as the configuration says and is answered with 200; one with another address
-- sends nothing and is answered with 400.
pub execute_wake-sends :
    (udp : Udp) (config : WolConfig) (mac_input : String)
    → udp.binds ≡ true
    → udp.sets_broadcast ≡ true
    → ((j : ℕ) → udp.sends j ≡ true)
    → ((mac : List ℕ) × (parse_mac mac_input ≡ ok mac)
        × ((execute_wake udp config mac_input).0
            ≡ replicate config.default_packet_count (wake_datagram config mac))
        × (code_of (execute_wake udp config mac_input).1 ≡ 200))
      ⊎ (((mac : List ℕ) → parse_mac mac_input ≢ ok mac)
          × ((execute_wake udp config mac_input).0 ≡ [])
          × (code_of (execute_wake udp config mac_input).1 ≡ 400))
unfolding execute_wake code_of
execute_wake-sends udp config mac_input b s works = elim (Result-cases (parse_mac mac_input)) [
  | inr (e, bad) ↦
      inr (λ mac good. ground arith, rw (bad, execute_wake) refl, rw (bad, execute_wake) refl)
  | inl (mac, good) ↦
      elim (send_packets-Outcome udp mac config.broadcast config.default_port
        config.default_packet_count b s) [
          | all_sent all e ↦
              inl (mac, good, rw (good, execute_wake, e) refl, rw (good, execute_wake, e) refl)
          | failed_at k lt before fails e ↦ absurd (ground (arith, works k, fails))
        ]
]
