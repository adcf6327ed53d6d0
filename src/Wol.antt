-- ===== src/Wol.antt =====
-- src/wol.rs: magic packets, the addresses that they carry, and waiting for a host. Sockets and
-- clocks are arguments: what the calls return, in the order in which they are made.
pub mod Mac
pub mod Sending
pub mod Waiting
use wakezilla.Prelude.{
  leb, ◌==◌, if◌then◌else◌, length, take, drop, replicate, filter, codes, is_ascii_hexdigit, Result,
  ok, err, ℕ, zero, suc, ◌+◌, ◌-◌, ◌*◌, String, Bool, true, false, not, Option, none, some, List,
  [], ◌∷◌, ◌++◌,
}

pub data MacError : Type 0 where
  expected_12_digits : (got : ℕ) → MacError

unfoldable pub hex_value : ℕ → ℕ
hex_value c = if leb c b'9' then c - b'0' else if leb c b'F' then c - b'A' + 10 else c - b'a' + 10

-- Two digits at a time, as `u8::from_str_radix` reads them.
parse_pairs : List ℕ → List ℕ
parse_pairs (hi ∷ lo ∷ rest) = (16 * hex_value hi + hex_value lo) ∷ parse_pairs rest
parse_pairs _ = []

unfoldable pub hex_digits : String → List ℕ
hex_digits s = filter is_ascii_hexdigit (codes s)

unfoldable pub parse_mac : String → Result (List ℕ) MacError
unfolding parse_pairs hex_value hex_digits is_ascii_hexdigit
parse_mac s =
    let hex = hex_digits s in
    if length hex == 12 then ok (parse_pairs hex) else err (expected_12_digits (length hex))

-- `dst[start..start + src.len()].copy_from_slice(src)`
unfoldable pub copy_at : ℕ → List ℕ → List ℕ → List ℕ
copy_at start src dst = take start dst ++ (src ++ drop (start + length src) dst)

-- for i in 0..n
copy_repetitions : ℕ → ℕ → List ℕ → List ℕ → List ℕ
copy_repetitions zero i mac pkt = pkt
copy_repetitions (suc n) i mac pkt = copy_repetitions n (i + 1) mac (copy_at (6 + i * 6) mac pkt)

unfoldable pub build_magic_packet : List ℕ → List ℕ
unfolding copy_repetitions copy_at
build_magic_packet mac = copy_repetitions 16 0 mac (copy_at 0 (replicate 6 0xFF) (replicate 102 0))

pub data SendError : Type 0 where
  bind enable_broadcast send : SendError

-- What the UDP socket answers; `sends i` is the answer to the i-th `send_to`.
pub record Udp : Type 0 where
  pub binds : Bool
  pub sets_broadcast : Bool
  pub sends : ℕ → Bool

pub record Datagram : Type 0 where
  pub payload : List ℕ
  pub broadcast : List ℕ
  pub port : ℕ

-- The rounds left, the number of the next one, and the result with what has been sent.
send_rounds : ℕ → ℕ → Udp → Datagram → List Datagram × Result (Unit {0}) SendError
send_rounds zero i udp d = ([], ok tt)
send_rounds (suc n) i udp d =
    let (sent, result) = send_rounds n (i + 1) udp d in
    if udp.sends i then (d ∷ sent, result) else ([], err send)

unfoldable pub send_packets :
    Udp
    → (mac : List ℕ) → (broadcast : List ℕ) → (port count : ℕ)
    → List Datagram × Result (Unit {0}) SendError
unfolding send_rounds
send_packets udp mac broadcast port count =
    let d : Datagram = record {
      payload = build_magic_packet mac;
      broadcast = broadcast;
      port = port;
    } in
    if not udp.binds
    then ([], err bind)
    else if not udp.sets_broadcast
    then ([], err enable_broadcast)
    else send_rounds count 0 udp d

-- tokio::time::timeout(timeout, TcpStream::connect(addr)): the outcome of one attempt.
pub data Connect : Type 0 where
  connected refused timed_out : Connect

unfoldable pub tcp_check : Connect → Bool
tcp_check connected = true
tcp_check refused = false
tcp_check timed_out = false

-- What the network answers to the i-th attempt to connect to an address and port within a timeout in
-- milliseconds, and the clock when the i-th failed attempt has ended, where the loop sleeps for an
-- interval between two attempts.
pub record Host : Type 0 where
  pub attempt : (ip : String) (port connect_timeout_ms : ℕ) → ℕ → Connect
  pub now : (interval_ms : ℕ) → ℕ → ℕ

-- The target of a loop that waits, with its timeout and interval.
pub record Polling : Type 0 where
  pub ip : String
  pub check_tcp_port : ℕ
  pub wait_secs : ℕ
  pub interval_ms : ℕ
  pub connect_timeout_ms : ℕ

unfoldable pub attempt_of : Host → Polling → ℕ → Connect
attempt_of host p i = host.attempt p.ip p.check_tcp_port p.connect_timeout_ms i

-- The loop of `check_host` from its i-th round, `none` where the fuel runs out.
unfoldable pub poll : (fuel i : ℕ) → Host → Polling → (deadline : ℕ) → Option Bool
unfolding tcp_check attempt_of
poll zero i host p deadline = none
poll (suc fuel) i host p deadline =
    let again = poll fuel (i + 1) host p deadline in
    if tcp_check (attempt_of host p i)
    then some true
    else if leb deadline (host.now p.interval_ms i)
    then some false
    else again

unfoldable pub check_host : (fuel : ℕ) → Host → (started : ℕ) → Polling → Option Bool
unfolding poll
check_host fuel host started p = poll fuel 0 host p (started + 1000 * p.wait_secs)
