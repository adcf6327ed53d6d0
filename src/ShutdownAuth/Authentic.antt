-- ===== src/ShutdownAuth/Authentic.antt =====
-- src/shutdown_auth.rs: what an accepted request proves, without the steps of the guard.
use wakezilla.Prelude.{
  leb, ◌==◌, ==_iff, Bool-cases, Option-cases, length, eq_refl, codes_eq, eq_of_codes_eq, lookup,
  lookup-insert, lookup-retain, Result-cases, ok, parse_uint, ℕ, ◌+◌, ◌-◌, ◌≤◌, ◌<◌, String, ◌≡◌,
  sym, ap, ◌∙◌, ◌⊎◌, inl, inr, none, some, List, arith,
}
use wakezilla.ShutdownAuth.{
  max_clock_skew, u64_max, Crypto, SignedRequestHeaders, decode_key, canonical_request, ReplayGuard,
  abs_diff, prune, check_signature, accept, verify,
}
use wakezilla.ShutdownAuth.Replay.{verify_sound}

-- The time of the request is within a minute of the clock, its nonce is not one that the guard has
-- and still retains, its signature is that of this request under the key, and the guard then has
-- the nonce with the time of the clock.
pub record IsAuthentic (c : Crypto) (g g' : ReplayGuard) (key method path : String)
    (headers : SignedRequestHeaders) (now : ℕ) : Type 0 where
  pub timestamp : ℕ
  pub parsed : parse_uint u64_max headers.timestamp ≡ some timestamp
  pub not_old : now ≤ timestamp + 60
  pub not_early : timestamp ≤ now + 60
  pub unseen :
      (lookup headers.nonce g.seen ≡ none)
      ⊎ ((t : ℕ) × (lookup headers.nonce g.seen ≡ some t) × (t + g.retention < now))
  pub bytes : List ℕ
  pub decoded : c.decode key ≡ some bytes
  pub long : length bytes ≡ 32
  pub signed :
      c.decode headers.signature
      ≡ some (c.hmac bytes (canonical_request method path headers.timestamp headers.nonce))
  pub remembered : lookup headers.nonce g'.seen ≡ some now

prune-unseen :
    (g : ReplayGuard) (nonce : String) (now : ℕ)
    → lookup nonce (prune g now).seen ≡ none
    → (lookup nonce g.seen ≡ none)
      ⊎ ((t : ℕ) × (lookup nonce g.seen ≡ some t) × (t + g.retention < now))
unfolding prune
prune-unseen g nonce now h = elim (Option-cases (lookup nonce g.seen)) [
  | inl absent ↦ inl absent
  | inr (t, seen) ↦ elim (Bool-cases (leb (now - t) g.retention)) [
    | inl recent ↦ absurd (
        cc (
          h,
          lookup-retain (λ _ accepted_at. leb (now - accepted_at) g.retention) nonce t g.seen seen
              recent,
        ))
    | inr over ↦ inr (t, seen, ground arith)
  ]
]

accept-remembers :
    (g : ReplayGuard) (nonce : String) (now : ℕ) → lookup nonce (accept g nonce now).seen ≡ some now
unfolding accept
accept-remembers g nonce now = rw lookup-insert (rw eq_refl)

decode_key-ok :
    (c : Crypto) (key : String) (bytes : List ℕ)
    → decode_key c key ≡ ok bytes
    → (c.decode key ≡ some bytes) × (length bytes ≡ 32)
unfolding decode_key
decode_key-ok c key bytes h = elim (Option-cases (c.decode key)) [
  | inl bad ↦ absurd (ground (arith, rw (bad, decode_key) at h))
  | inr (decoded, e) ↦ elim (Bool-cases (length decoded == 32)) [
    | inr short ↦ absurd (ground (arith, rw (e, decode_key, short) at h))
    | inl whole ↦
        let same : decoded ≡ bytes = ground (arith, rw (e, decode_key, whole) at h) in
        (e ∙ ap some same, ap length (sym same) ∙ (==_iff _ _).0 whole)
  ]
]

-- The signature that is given is the one of the request.
abbrev Signs : Crypto → (key method path : String) → SignedRequestHeaders → Type 0
Signs c key method path headers =
    (bytes : List ℕ) × (decode_key c key ≡ ok bytes)
    × (c.decode headers.signature
        ≡ some (c.hmac bytes (canonical_request method path headers.timestamp headers.nonce)))

check_signature-Signs :
    (c : Crypto) (key method path : String) (headers : SignedRequestHeaders)
    → check_signature c key method path headers ≡ ok tt
    → Signs c key method path headers
unfolding check_signature
check_signature-Signs c key method path headers h = elim (Result-cases (decode_key c key)) [
  | inr (e, bad) ↦ absurd (ground (arith, rw (bad, check_signature) at h))
  | inl (bytes, good) ↦ elim (Option-cases (c.decode headers.signature)) [
    | inl bad ↦ absurd (ground (arith, rw (good, check_signature, bad) at h))
    | inr (given, e) ↦
        let own = c.hmac bytes (canonical_request method path headers.timestamp headers.nonce) in
        elim (Bool-cases (codes_eq own given)) [
          | inr other ↦ absurd (ground (arith, rw (good, check_signature, e, other) at h))
          | inl same ↦ (bytes, good, e ∙ ap some (sym (eq_of_codes_eq _ _ same)))
        ]
  ]
]

near_clock :
    (now timestamp : ℕ)
    → abs_diff now timestamp ≤ max_clock_skew
    → (now ≤ timestamp + 60) × (timestamp ≤ now + 60)
unfolding abs_diff
near_clock now timestamp h = ground arith

-- A request is accepted only with a timestamp within 60 seconds of the clock, with a nonce that the
-- guard does not have or had for longer than it retains nonces, and with the HMAC of the request
-- under the 32 bytes of the key. The guard then has the nonce with the time of the clock.
pub verify-IsAuthentic :
    (c : Crypto) (g g' : ReplayGuard) (key method path : String) (headers : SignedRequestHeaders)
    (now : ℕ)
    → verify c g key method path headers now ≡ (g', ok tt)
    → IsAuthentic c g g' key method path headers now
verify-IsAuthentic c g g' key method path headers now h =
    let a = verify_sound c g g' key method path headers now h in
    let (bytes, key_read, signed) = check_signature-Signs c key method path headers a.checked in
    let (decoded, long) = decode_key-ok c key bytes key_read in
    let (not_old, not_early) = near_clock now a.timestamp a.near in
    record {
      timestamp = a.timestamp;
      parsed = a.parsed;
      not_old = not_old;
      not_early = not_early;
      unseen = prune-unseen g headers.nonce now a.fresh;
      bytes = bytes;
      decoded = decoded;
      long = long;
      signed = signed;
      remembered =
          ap (λ (x : ReplayGuard). lookup headers.nonce x.seen) a.stored
          ∙ accept-remembers (prune g now) headers.nonce now;
    }
