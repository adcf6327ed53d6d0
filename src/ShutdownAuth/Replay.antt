-- ===== src/ShutdownAuth/Replay.antt =====
-- A nonce is accepted once while the guard has room.
use wakezilla.Prelude.{
  ltb, Bool-cases, Option-cases, lookup, ok, parse_uint, ℕ, ◌≤◌, String, ◌≡◌, inl, inr, none, some,
  arith, leb, length, All, All-map, eq_iff, eq_refl, lookup-insert, length-insert_le,
  length-retain_le, lookup-retain, Result, err, suc, ◌+◌, ◌-◌, refl, ◌≢◌, false, List, [], ◌∷◌,
}
use wakezilla.ShutdownAuth.{
  max_clock_skew, u64_max, Crypto, SignedRequestHeaders, ReplayGuard, abs_diff, prune,
  check_signature, accept, verify, VerifyError, remove_oldest, verdict,
}

-- Why a request was accepted.
pub record WasAccepted (c : Crypto) (g g' : ReplayGuard) (key method path : String)
    (headers : SignedRequestHeaders) (now : ℕ) : Type 0 where
  pub timestamp : ℕ
  pub parsed : parse_uint u64_max headers.timestamp ≡ some timestamp
  pub near : abs_diff now timestamp ≤ max_clock_skew
  pub fresh : lookup headers.nonce (prune g now).seen ≡ none
  pub checked : check_signature c key method path headers ≡ ok tt
  pub stored : g' ≡ accept (prune g now) headers.nonce now

-- The tests that an accepted request passed.
pub verify_sound :
    (c : Crypto) (g g' : ReplayGuard) (key method path : String) (headers : SignedRequestHeaders)
    (now : ℕ)
    → verify c g key method path headers now ≡ (g', ok tt)
    → WasAccepted c g g' key method path headers now
unfolding verify
verify_sound c g g' key method path headers now h =
    elim (Option-cases (parse_uint u64_max headers.timestamp)) [
      | inl bad ↦ absurd (ground arith)
      | inr (t, good) ↦ elim (Bool-cases (ltb max_clock_skew (abs_diff now t))) [
        | inl far ↦ absurd (ground arith)
        | inr near ↦ elim (Option-cases (lookup headers.nonce (prune g now).seen)) [
          | inr (v, old) ↦ absurd (ground arith)
          | inl fresh ↦ record {
            timestamp = t;
            parsed = good;
            near = ground arith;
            fresh = fresh;
            checked = ground arith;
            stored = ground arith;
          }
        ]
      ]
    ]

-- A request that reaches the guard of a client whose key is fixed.
pub record Attempt : Type 0 where
  pub method : String
  pub path : String
  pub headers : SignedRequestHeaders
  pub now : ℕ

unfoldable pub run : Crypto → (key : String) → ReplayGuard → List Attempt → ReplayGuard
run c key g [] = g
run c key g (a ∷ attempts) = run c key (verify c g key a.method a.path a.headers a.now).0 attempts

-- The guard remembers `nonce` as accepted at `t`, and has room for `n` more.
record Remembers (nonce : String) (t n retention : ℕ) (g : ReplayGuard) : Type 0 where
  entry : lookup nonce g.seen ≡ some t
  room : length g.seen + n ≤ g.capacity
  kept : g.retention ≡ retention

module _ (nonce : String) (t retention : ℕ) where
  prune-Remembers :
      (n : ℕ) (g : ReplayGuard) (now : ℕ)
      → now ≤ t + retention
      → Remembers nonce t n retention g
      → Remembers nonce t n retention (prune g now)
  unfolding prune
  prune-Remembers n g now recent r = record {
    entry =
        lookup-retain (λ _ accepted_at. leb (now - accepted_at) g.retention) nonce t g.seen r.entry
          (ground (arith, r.kept));
    room = omega (
      arith,
      r.room,
      length-retain_le (λ _ accepted_at. leb (now - accepted_at) g.retention) g.seen,
    );
    kept = r.kept;
  }

  accept-Remembers :
      (n : ℕ) (g : ReplayGuard) (other : String) (now : ℕ)
      → lookup other g.seen ≡ none
      → Remembers nonce t (suc n) retention g
      → Remembers nonce t n retention (accept g other now)
  unfolding accept
  accept-Remembers n g other now fresh r =
      let space : leb g.capacity (length g.seen) ≡ false = ground (arith, r.room) in
      rw space (record {
        entry = rw lookup-insert (ground (arith, eq_iff other nonce, r.entry));
        room = omega (arith, r.room, length-insert_le other now g.seen);
        kept = r.kept;
      })

  weaken :
      (n : ℕ) (g : ReplayGuard)
      → Remembers nonce t (suc n) retention g
      → Remembers nonce t n retention g
  weaken n g r = record { entry = r.entry; room = omega (arith, r.room); kept = r.kept }

  verdict-Remembers :
      (c : Crypto) (n : ℕ) (g : ReplayGuard) (other : String) (now : ℕ)
      (r : Result (Unit {0}) VerifyError)
      → lookup other g.seen ≡ none
      → Remembers nonce t (suc n) retention g
      → Remembers nonce t n retention (verdict r g (accept g other now)).0
  verdict-Remembers c n g other now (err e) fresh m = weaken n g m
  verdict-Remembers c n g other now (ok x) fresh m = accept-Remembers n g other now fresh m

  verify-Remembers :
      (c : Crypto) (key : String) (n : ℕ) (g : ReplayGuard) (a : Attempt)
      → a.now ≤ t + retention
      → Remembers nonce t (suc n) retention g
      → Remembers nonce t n retention (verify c g key a.method a.path a.headers a.now).0
  unfolding verify
  verify-Remembers c key n g a recent r =
      let p = prune-Remembers (suc n) g a.now recent r in
      elim (Option-cases (parse_uint u64_max a.headers.timestamp)) [
        | inl bad ↦ rw (bad, verify) (weaken n g r)
        | inr (ts, good) ↦ elim (Bool-cases (ltb max_clock_skew (abs_diff a.now ts))) [
          | inl far ↦ rw (good, verify, far) (weaken n g r)
          | inr near ↦ elim (Option-cases (lookup a.headers.nonce (prune g a.now).seen)) [
            | inr (v, old) ↦ rw (good, verify, near, old) (weaken n (prune g a.now) p)
            | inl fresh ↦
                rw (good, verify, near, fresh)
                  (verdict-Remembers c n (prune g a.now) a.headers.nonce a.now
                    (check_signature c key a.method a.path a.headers) fresh p)
          ]
        ]
      ]

  run-Remembers :
      (c : Crypto) (key : String) (g : ReplayGuard) (attempts : List Attempt)
      → All (λ a. a.now ≤ t + retention) attempts
      → Remembers nonce t (length attempts) retention g
      → Remembers nonce t 0 retention (run c key g attempts)
  unfolding run
  run-Remembers c key g [] recent r = r
  run-Remembers c key g (a ∷ attempts) (first, later) r =
      run-Remembers c key (verify c g key a.method a.path a.headers a.now).0 attempts later
        (verify-Remembers c key (length attempts) g a first r)

-- While the nonce is remembered and recent, it is refused.
refuses_remembered :
    (c : Crypto) (key method path : String) (headers : SignedRequestHeaders) (t retention now : ℕ)
    (g g' : ReplayGuard)
    → now ≤ t + retention
    → Remembers headers.nonce t 0 retention g
    → verify c g key method path headers now ≢ (g', ok tt)
refuses_remembered c key method path headers t retention now g g' recent r h =
    let a = verify_sound c g g' key method path headers now h in
    let p = prune-Remembers headers.nonce t retention 0 g now recent r in cc (a.fresh, p.entry)

accept-starts :
    (g : ReplayGuard) (nonce : String) (now n : ℕ)
    → length (accept g nonce now).seen + n ≤ (accept g nonce now).capacity
    → Remembers nonce now n (accept g nonce now).retention (accept g nonce now)
unfolding accept
accept-starts g nonce now n room = record {
  entry = rw lookup-insert (rw eq_refl);
  room = room;
  kept = refl;
}

retention-accept-prune :
    (g : ReplayGuard) (nonce : String) (now : ℕ)
    → (accept (prune g now) nonce now).retention ≡ g.retention
unfolding accept prune remove_oldest
retention-accept-prune g nonce now = ground arith

near_twice :
    (now now' timestamp : ℕ)
    → abs_diff now timestamp ≤ max_clock_skew
    → abs_diff now' timestamp ≤ max_clock_skew
    → now' ≤ now + 120
unfolding abs_diff
near_twice now now' timestamp h k = ground arith

-- Headers that were accepted once are never accepted again, for whatever method and path, after any
-- requests that the guard has seen in between at times up to the second one: for a guard that
-- retains nonces for at least 120 seconds, as long as it has room for the nonces of the requests in
-- between.
pub accepted_once :
    (c : Crypto) (key method path method' path' : String) (headers : SignedRequestHeaders)
    (now now' : ℕ) (before g after : ReplayGuard) (attempts : List Attempt)
    → verify c before key method path headers now ≡ (g, ok tt)
    → 120 ≤ before.retention
    → length g.seen + length attempts ≤ g.capacity
    → All (λ a. a.now ≤ now') attempts
    → verify c (run c key g attempts) key method' path' headers now' ≢ (after, ok tt)
accepted_once c key method path method' path' headers now now' before g after attempts h long room
      order h' =
    let a = verify_sound c before g key method path headers now h in
    let b = verify_sound c (run c key g attempts) after key method' path' headers now' h' in
    let same : a.timestamp ≡ b.timestamp = ground (arith, a.parsed, b.parsed) in
    let soon : now' ≤ now + 120 = near_twice now now' b.timestamp (rw same at a.near) b.near in
    let kept : g.retention ≡ before.retention =
      rw a.stored (retention-accept-prune before headers.nonce now) in
    let start : Remembers headers.nonce now (length attempts) g.retention g = rw a.stored (
      accept-starts (prune before now) headers.nonce now (length attempts) (rw a.stored at room)) in
    let recent : All (λ a. a.now ≤ now + g.retention) attempts =
      All-map (λ a. a.now ≤ now') (λ a. a.now ≤ now + g.retention) (λ a le. omega arith) attempts
        order in
    refuses_remembered c key method' path' headers now g.retention now' (run c key g attempts) after
      (omega arith) (run-Remembers headers.nonce now g.retention c key g attempts recent start) h'
