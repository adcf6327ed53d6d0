-- ===== src/Wol/Sending.antt =====
-- The magic packet, and what `send_packets` sends.
use wakezilla.Prelude.{
  Bool-cases, length, replicate, Result, ok, err, ℕ, zero, suc, ◌+◌, ◌<◌, ◌≡◌, refl, inl, inr, true,
  false, List, [], ◌∷◌, ◌++◌, arith,
}
use wakezilla.Wol.{send_rounds, build_magic_packet, SendError, Udp, Datagram, send_packets, send}

-- n copies of a text, one after another.
abbrev pub repeat {ℓ} : {A : Type ℓ} → ℕ → List A → List A
repeat zero xs = []
repeat (suc n) xs = xs ++ repeat n xs

-- For a six-byte address the packet is six bytes 0xFF and sixteen copies of the address: 102 bytes.
pub build_magic_packet_lem :
    (mac : List ℕ)
    → length mac ≡ 6
    → (build_magic_packet mac ≡ replicate 6 0xFF ++ repeat 16 mac)
      × (length (build_magic_packet mac) ≡ 102)
unfolding build_magic_packet
build_magic_packet_lem (a ∷ b ∷ c ∷ d ∷ e ∷ f ∷ []) h = (refl, refl)
build_magic_packet_lem [] h = absurd (omega arith)
build_magic_packet_lem (a ∷ []) h = absurd (omega arith)
build_magic_packet_lem (a ∷ b ∷ []) h = absurd (omega arith)
build_magic_packet_lem (a ∷ b ∷ c ∷ []) h = absurd (omega arith)
build_magic_packet_lem (a ∷ b ∷ c ∷ d ∷ []) h = absurd (omega arith)
build_magic_packet_lem (a ∷ b ∷ c ∷ d ∷ e ∷ []) h = absurd (omega arith)
build_magic_packet_lem (a ∷ b ∷ c ∷ d ∷ e ∷ f ∷ g ∷ r) h = absurd (omega arith)

-- The i-th and the next n - 1 calls of `send_to`: all succeed, or the k-th of them is the first that
-- fails.
pub data Outcome (udp : Udp) (d : Datagram) (n i : ℕ)
    (r : List Datagram × Result (Unit {0}) SendError) : Type 0 where
  all_sent :
      ((j : ℕ) → j < n → udp.sends (i + j) ≡ true)
      → r ≡ (replicate n d, ok tt)
      → Outcome udp d n i r
  failed_at :
      (k : ℕ)
      → k < n
      → ((j : ℕ) → j < k → udp.sends (i + j) ≡ true)
      → udp.sends (i + k) ≡ false
      → r ≡ (replicate k d, err send)
      → Outcome udp d n i r

send_rounds-Outcome :
    (udp : Udp) (d : Datagram) (n i : ℕ) → Outcome udp d n i (send_rounds n i udp d)
unfolding send_rounds
send_rounds-Outcome udp d zero i = all_sent (λ j h. elim h [ ]) refl
send_rounds-Outcome udp d (suc n) i = elim (Bool-cases (udp.sends i)) [
  | inr fails ↦
      failed_at 0 (omega arith) (λ j h. elim h [ ])
        (let e : i + 0 ≡ i = omega arith in rw (e, fails)) (rw fails)
  | inl works ↦ go works (send_rounds-Outcome udp d n (i + 1))
]
  where
    later :
        (P : ℕ → Type 0)
        → udp.sends i ≡ true
        → ((j : ℕ) → P j → udp.sends (i + 1 + j) ≡ true)
        → (j : ℕ) → ((m : ℕ) → j ≡ suc m → P m)
        → udp.sends (i + j) ≡ true
    later P works h zero p = let e : i + 0 ≡ i = omega arith in rw (e, works)
    later P works h (suc m) p = let e : i + suc m ≡ i + 1 + m = omega arith in rw e (h m (p m refl))

    go :
        udp.sends i ≡ true
        → Outcome udp d n (i + 1) (send_rounds n (i + 1) udp d)
        → Outcome udp d (suc n) i (send_rounds (suc n) i udp d)
    go works (all_sent h e) =
        all_sent (λ j lt. later (λ m. m < n) works h j (λ m q. omega arith)) (rw works (rw e))
    go works (failed_at k lt h f e) =
        failed_at (suc k) (omega arith) (λ j lt'. later (λ m. m < k) works h j (λ m q. omega arith))
          (let q : i + suc k ≡ i + 1 + k = omega arith in rw (q, f)) (rw works (rw e))

-- On a socket that is bound and may broadcast, `send_packets` sends the magic packet of the address
-- to the given address and port `count` times, or up to the first call of `send_to` that fails, and
-- it reports an error exactly in the second case.
pub send_packets-Outcome :
    (udp : Udp) (mac broadcast : List ℕ) (port count : ℕ)
    → udp.binds ≡ true
    → udp.sets_broadcast ≡ true
    → Outcome udp
        (record { payload = build_magic_packet mac; broadcast = broadcast; port = port })
        count
        0
        (send_packets udp mac broadcast port count)
unfolding send_packets
send_packets-Outcome udp mac broadcast port count b s =
    simp (b, s) (send_rounds-Outcome udp _ count 0)
