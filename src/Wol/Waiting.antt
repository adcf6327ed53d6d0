-- ===== src/Wol/Waiting.antt =====
-- Waiting for a host ends, and tells what the last attempt found.
use wakezilla.Prelude.{
  leb, leb→le, Bool-cases, ℕ, zero, suc, ◌+◌, ◌*◌, ◌≤◌, ◌<◌, ◌≡◌, refl, ◌⊎◌, inl, inr, true, false,
  some, arith,
}
use native.Mathlib.Decide.{dec_lt}
use wakezilla.Wol.{
  Connect, tcp_check, Host, Polling, attempt_of, poll, check_host, connected, refused, timed_out,
}

-- The k-th attempt is the first that connects or ends at or past the deadline.
pub record Decides (host : Host) (p : Polling) (deadline i k : ℕ) : Type 0 where
  pub from_start : i ≤ k
  pub before :
      (j : ℕ)
      → i ≤ j
      → j < k
      → (tcp_check (attempt_of host p j) ≡ false) × (host.now p.interval_ms j < deadline)
  pub ends : (tcp_check (attempt_of host p k) ≡ true) ⊎ (deadline ≤ host.now p.interval_ms k)

poll-Decides :
    (fuel i n : ℕ) (host : Host) (p : Polling) (deadline : ℕ)
    → deadline ≤ host.now p.interval_ms n
    → i ≤ n
    → n < i + fuel
    → (k : ℕ) × (k ≤ n)
      × Decides host p deadline i k
      × (poll fuel i host p deadline ≡ some (tcp_check (attempt_of host p k)))
unfolding poll
poll-Decides zero i n host p deadline late le lt = absurd (omega arith)
poll-Decides (suc fuel) i n host p deadline late le lt =
    elim (Bool-cases (tcp_check (attempt_of host p i))) [
      | inl up ↦ (i, le, stops (inl up), rw up)
      | inr down ↦ elim (Bool-cases (leb deadline (host.now p.interval_ms i))) [
        | inl over ↦ (i, le, stops (inr (leb→le _ _ over)), rw (down, over))
        | inr early ↦
            let (k, k_le, d, e) =
              poll-Decides fuel (i + 1) n host p deadline late (ground arith) (omega arith) in
            (k, k_le, goes_on k down (ground arith) d, rw (down, early, e))
      ]
    ]
  where
    stops :
        (tcp_check (attempt_of host p i) ≡ true) ⊎ (deadline ≤ host.now p.interval_ms i)
        → Decides host p deadline i i
    stops end = record {
      from_start = omega arith;
      before = λ j a b. absurd (omega arith);
      ends = end;
    }

    goes_on :
        (k : ℕ)
        → tcp_check (attempt_of host p i) ≡ false
        → host.now p.interval_ms i < deadline
        → Decides host p deadline (i + 1) k
        → Decides host p deadline i k
    goes_on k down early d = record {
      from_start = omega (arith, d.from_start);
      before = λ j a b. elim (dec_lt i j) [
        | yes q ↦ d.before j (omega arith) b
        | no q ↦ let e : j ≡ i = omega arith in rw e (down, early)
      ];
      ends = d.ends;
    }

-- If some attempt ends at or past the deadline, `check_host` returns within as many rounds: at the
-- first attempt that connects or ends at or past the deadline, and it returns whether that one
-- connected.
pub check_host-Decides :
    (fuel n : ℕ) (host : Host) (started : ℕ) (p : Polling)
    → started + 1000 * p.wait_secs ≤ host.now p.interval_ms n
    → n < fuel
    → (k : ℕ) × (k ≤ n)
      × Decides host p (started + 1000 * p.wait_secs) 0 k
      × (check_host fuel host started p ≡ some (tcp_check (attempt_of host p k)))
unfolding check_host
check_host-Decides fuel n host started p late lt =
    poll-Decides fuel 0 n host p (started + 1000 * p.wait_secs) late (omega arith) (omega arith)

-- An attempt at the target connects, and each attempt before it ended before the deadline.
pub record Reaches (host : Host) (p : Polling) (deadline i : ℕ) : Type 0 where
  pub round : ℕ
  pub from_start : i ≤ round
  pub connects : host.attempt p.ip p.check_tcp_port p.connect_timeout_ms round ≡ connected
  pub before : (j : ℕ) → i ≤ j → j < round → host.now p.interval_ms j < deadline

tcp_check-connected : (c : Connect) → tcp_check c ≡ true → c ≡ connected
unfolding tcp_check
tcp_check-connected connected h = refl
tcp_check-connected refused h = cc
tcp_check-connected timed_out h = cc

-- A loop that reports a connection has made one.
pub poll-Reaches :
    (fuel i : ℕ) (host : Host) (p : Polling) (deadline : ℕ)
    → poll fuel i host p deadline ≡ some true
    → Reaches host p deadline i
unfolding poll attempt_of
poll-Reaches zero i host p deadline h = cc
poll-Reaches (suc fuel) i host p deadline h = elim (Bool-cases (tcp_check (attempt_of host p i))) [
  | inl up ↦ record {
    round = i;
    from_start = omega arith;
    connects = tcp_check-connected _ up;
    before = λ j a b. absurd (omega arith);
  }
  | inr down ↦ elim (Bool-cases (leb deadline (host.now p.interval_ms i))) [
    | inl over ↦ absurd (ground (arith, rw (down, over) at h))
    | inr early ↦
        let r = poll-Reaches fuel (i + 1) host p deadline (rw (down, early) at h) in
        record {
          round = r.round;
          from_start = omega (arith, r.from_start);
          connects = r.connects;
          before = λ j a b. elim (dec_lt i j) [
            | yes q ↦ r.before j (omega arith) b
            | no q ↦ let e : j ≡ i = omega arith in rw e (ground arith)
          ];
        }
  ]
]
