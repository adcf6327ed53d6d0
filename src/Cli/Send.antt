-- ===== src/Cli/Send.antt =====
-- src/cli.rs: what the command that sends a magic packet reports.
use wakezilla.Prelude.{ℕ, ◌+◌, ◌*◌, ◌<◌, String, ◌≡◌, Option, some, List}
use wakezilla.Wol.{build_magic_packet, Datagram, Host, connected}
use wakezilla.Config.{Config}
use wakezilla.Cli.{SendArgs, send_broadcast_addr, octets}

-- The datagram that the command sends to a machine.
abbrev pub command_datagram : SendArgs → Config → (mac : List ℕ) → Datagram
command_datagram args config mac = record {
  payload = build_magic_packet mac;
  broadcast = octets (send_broadcast_addr args config);
  port = args.port;
}

-- An attempt at the host and port to check has connected, within the timeout, and each attempt before
-- it ended before the deadline.
abbrev pub Answered : Host → (started : ℕ) → SendArgs → Option String → Type 0
Answered host started args check_ip =
    (ip : String) × (check_ip ≡ some ip)
    × ((k : ℕ) × (host.attempt ip args.check_tcp_port args.connect_timeout_ms k ≡ connected)
        × ((j : ℕ) → j < k → host.now args.interval_ms j < started + 1000 * args.wait_secs))
