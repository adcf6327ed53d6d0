-- ===== src/Forward/Connection.antt =====
-- `proxy_internal` of src/forward.rs: the loop that accepts connections, and the task that wakes the
-- machine, waits for it and copies the bytes.
use wakezilla.Prelude.{
  ltb, if◌then◌else◌, ok, err, ℤ, ℕ, zero, suc, ◌+◌, String, Bool, true, false, not, Option, none,
  some, List, [], ◌∷◌,
}
use wakezilla.AccessLog.{service_key, AccessLog, record_access}
use wakezilla.Limiter.{TurnOffLimiter, update_last_request}
use wakezilla.Wol.{
  parse_mac, Udp, Datagram, send_packets, Connect, tcp_check, connected, refused, timed_out,
}

-- The i-th attempt in the loop that waits, and how many milliseconds its round takes besides the sleep.
pub record Waiting : Type 0 where
  pub attempt : ℕ → Connect
  pub takes : ℕ → ℕ

-- while Instant::now() < deadline, from its i-th round at the time `now`, `none` where the fuel runs
-- out. A round that fails sleeps for two seconds.
unfoldable pub wait_host : (fuel i : ℕ) → Waiting → (now deadline : ℕ) → Option Bool
unfolding tcp_check
wait_host zero i w now deadline = none
wait_host (suc fuel) i w now deadline =
    let again = wait_host fuel (i + 1) w (now + w.takes i + 2000) deadline in
    if not (ltb now deadline)
    then some false
    else if tcp_check (w.attempt i)
    then some true
    else again

-- How a task ends. `copying` is a task that copies bytes for as long as both sides keep the connection.
pub data Ended : Type 0 where
  bad_mac send_failed host_down connect_failed connect_timed_out completed copy_failed copying :
      Ended

-- What the network answers to one connection. `copies` tells whether copy_bidirectional succeeds, and
-- is `none` while it has not returned. `lag` is what passes between the computation of the deadline and the first
-- test.
pub record Network : Type 0 where
  pub first : Connect
  pub udp : Udp
  pub started : ℕ
  pub lag : ℕ
  pub waiting : Waiting
  pub stream : Connect
  pub copies : Option Bool

pub record Target : Type 0 where
  pub mac : String
  pub broadcast : List ℕ
  pub wol_port : ℕ
  pub wol_count : ℕ

unfoldable pub forward_stream : Connect → (copies : Option Bool) → Ended
forward_stream connected none = copying
forward_stream connected (some done) = if done then completed else copy_failed
forward_stream refused copies = connect_failed
forward_stream timed_out copies = connect_timed_out

unfoldable pub after_wait : Option Bool → Network → Option Ended
unfolding forward_stream
after_wait none net = none
after_wait (some false) net = some host_down
after_wait (some true) net = some (forward_stream net.stream net.copies)

-- The datagrams that are sent, and how the task ends.
unfoldable pub wake_and_forward : (fuel : ℕ) → Network → Target → List Datagram × Option Ended
unfolding wait_host after_wait
wake_and_forward fuel net target = elim (parse_mac target.mac) [
  | err _ ↦ ([], some bad_mac)
  | ok mac ↦
      let (sent, result) =
        send_packets net.udp mac target.broadcast target.wol_port target.wol_count in
      elim result [
        | err _ ↦ (sent, some send_failed)
        | ok _ ↦ (
          sent,
          after_wait (wait_host fuel 0 net.waiting (net.started + net.lag) (net.started + 60000))
              net,
        )
      ]
]

-- The task of a connection that is accepted at `now`: the timer of the machine is reset first.
unfoldable pub serve_connection :
    (fuel : ℕ)
    → Network
    → Target
    → TurnOffLimiter
    → (now : ℕ) → TurnOffLimiter × (List Datagram × Option Ended)
unfolding update_last_request wake_and_forward forward_stream tcp_check
serve_connection fuel net target limiter now = (
  update_last_request limiter target.mac now,
  if tcp_check net.first
      then ([], some (forward_stream net.stream net.copies))
      else wake_and_forward fuel net target,
)

-- What `select!` reports to the loop. `changed none` is a sender that is gone.
pub data Selected : Type 0 where
  changed : Option Bool → Selected
  accepted : (millis : ℤ) → Selected
  accept_failed : Selected

pub data Stopped : Type 0 where
  cancelled accept_error running bind_error : Stopped

unfoldable pub is_cancel : Option Bool → Bool
is_cancel none = true
is_cancel (some running_flag) = not running_flag

-- The loop over what is reported: the log, the number of connections handed to a task, and whether
-- the loop has ended.
unfoldable pub accept_loop :
    (service_key : String) → AccessLog → List Selected → AccessLog × (ℕ × Stopped)
unfolding is_cancel
accept_loop key log [] = (log, (0, running))
accept_loop key log (accept_failed ∷ events) = (log, (0, accept_error))
accept_loop key log (changed flag ∷ events) =
    let rest = accept_loop key log events in if is_cancel flag then (log, (0, cancelled)) else rest
accept_loop key log (accepted millis ∷ events) =
    let (log', (tasks, stopped)) = accept_loop key (record_access log key millis) events in
    (log', (suc tasks, stopped))

-- proxy_internal. The listener is bound under the address of the local port before the loop.
unfoldable pub proxy_internal :
    (binds : Bool) (mac : String) (local_port : ℕ)
    → AccessLog
    → List Selected
    → AccessLog × (ℕ × Stopped)
unfolding service_key accept_loop
proxy_internal binds mac local_port log events =
    if binds then accept_loop (service_key mac local_port) log events else (log, (0, bind_error))
