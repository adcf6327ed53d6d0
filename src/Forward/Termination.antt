-- ===== src/Forward/Termination.antt =====
-- One connection of a forwarder: its task ends, and what it sends.
use wakezilla.Prelude.{
  ltb, Bool-cases, Result-cases, ℕ, suc, ◌+◌, ◌*◌, ◌<◌, ◌≡◌, refl, inl, inr, Bool, true, false,
  some, arith, zero,
}
use wakezilla.Limiter.{TurnOffLimiter, update_last_request}
use wakezilla.Wol.{parse_mac, send_packets, tcp_check}
use wakezilla.Forward.Connection.{
  Waiting, wait_host, Ended, Network, Target, forward_stream, after_wait, wake_and_forward,
  serve_connection, bad_mac, send_failed, host_down,
}

wait_host-ends :
    (fuel i : ℕ) (w : Waiting) (now deadline : ℕ)
    → deadline < now + 2000 * fuel
    → (up : Bool) × (wait_host (suc fuel) i w now deadline ≡ some up)
unfolding wait_host
wait_host-ends zero i w now deadline room = elim (Bool-cases (ltb now deadline)) [
  | inr over ↦ (false, rw over refl)
  | inl early ↦ absurd (ground arith)
]
wait_host-ends (suc fuel) i w now deadline room = elim (Bool-cases (ltb now deadline)) [
  | inr over ↦ (false, rw over refl)
  | inl early ↦ elim (Bool-cases (tcp_check (w.attempt i))) [
    | inl up ↦ (true, rw (early, wait_host, up) refl)
    | inr down ↦
        let (up, e) =
          wait_host-ends fuel (i + 1) w (now + w.takes i + 2000) deadline (omega arith) in
        (up, rw (early, wait_host, down, e) refl)
  ]
]

wake_and_forward-ends :
    (net : Network) (target : Target) → (e : Ended) × ((wake_and_forward 32 net target).1 ≡ some e)
unfolding wake_and_forward after_wait
wake_and_forward-ends net target = elim (Result-cases (parse_mac target.mac)) [
  | inr (e, bad) ↦ (bad_mac, rw (bad, wake_and_forward) refl)
  | inl (mac, good) ↦
      let d = send_packets net.udp mac target.broadcast target.wol_port target.wol_count in
      elim (Result-cases d.1) [
        | inr (e, fails) ↦ (send_failed, rw (good, wake_and_forward, fails) refl)
        | inl (u, works) ↦
            let (up, ends) =
              wait_host-ends 31 0 net.waiting (net.started + net.lag) (net.started + 60000)
                (omega arith) in
            elim (Bool-cases up) [
              | inl woken ↦ (
                forward_stream net.stream net.copies,
                rw (good, wake_and_forward, works, ends, woken) refl,
              )
              | inr asleep ↦ (host_down, rw (good, wake_and_forward, works, ends, asleep) refl)
            ]
      ]
]

-- 32 rounds of the waiting loop are enough, since it sleeps for two seconds in each and its deadline
-- is a minute away: the task of every connection resets the timer of its machine, and ends or comes
-- to copying bytes.
pub serve_connection-ends :
    (net : Network) (target : Target) (limiter : TurnOffLimiter) (now : ℕ)
    → ((serve_connection 32 net target limiter now).0 ≡ update_last_request limiter target.mac now)
      × ((e : Ended) × ((serve_connection 32 net target limiter now).1.1 ≡ some e))
unfolding serve_connection
serve_connection-ends net target limiter now = elim (Bool-cases (tcp_check net.first)) [
  | inl up ↦ (refl, (forward_stream net.stream net.copies, rw (up, serve_connection) refl))
  | inr down ↦ (refl, rw (down, serve_connection) (wake_and_forward-ends net target))
]
