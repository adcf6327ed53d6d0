-- ===== src/ClientServer/Authentication.antt =====
-- When a client turns its machine off.
use wakezilla.Prelude.{
  ok, err, ℕ, ◌+◌, String, ◌≡◌, ◌≢◌, ◌⊎◌, some, arith, length, Result-cases, ◌≤◌, inl, inr, Option,
  List, Option-cases, Result, refl, ◌∙◌, [], ◌∷◌, lookup, ap, none, subst,
}
use wakezilla.ShutdownAuth.{Crypto, SignedRequestHeaders, verify, ReplayGuard}
use wakezilla.ShutdownAuth.Capacity.{IsValid, verify-IsValid, capacity-verify}
use wakezilla.ClientServer.{
  ClientState, HeaderMap, status_ok, unauthorized, signed_headers, authenticate, turn_off_machine,
  Endpoint, handle_at, build_router, Request, serve, turn_off_if, health, secure_health, turn_off,
  header_value,
}

signed_headers-err :
    (headers : HeaderMap) (status : ℕ) → signed_headers headers ≡ err status → status ≡ unauthorized
unfolding signed_headers
signed_headers-err headers status h = ground arith

-- The request carries these values in the three headers.
abbrev pub Carries : HeaderMap → SignedRequestHeaders → Type 0
Carries headers signed =
    (lookup "x-wakezilla-timestamp" headers ≡ some (some signed.timestamp))
    × (lookup "x-wakezilla-nonce" headers ≡ some (some signed.nonce))
    × (lookup "x-wakezilla-signature" headers ≡ some (some signed.signature))

header_value-some :
    (headers : HeaderMap) (name value : String)
    → header_value headers name ≡ ok value
    → lookup name headers ≡ some (some value)
unfolding header_value
header_value-some headers name value h = elim (Option-cases (lookup name headers)) [
  | inl absent ↦ absurd (ground (arith, rw (absent, header_value) at h))
  | inr (none, e) ↦ absurd (ground (arith, rw (e, header_value) at h))
  | inr (some v, e) ↦
      let q : v ≡ value = ground (arith, rw (e, header_value) at h) in
      rw e (ap (λ x. some (some x)) q)
]

some-header_value :
    (headers : HeaderMap) (name value : String)
    → lookup name headers ≡ some (some value)
    → header_value headers name ≡ ok value
unfolding header_value
some-header_value headers name value h = rw (h, header_value) refl

signed_headers-Carries :
    (headers : HeaderMap) (signed : SignedRequestHeaders)
    → signed_headers headers ≡ ok signed
    → Carries headers signed
unfolding signed_headers
signed_headers-Carries headers signed h =
    elim (Result-cases (header_value headers "x-wakezilla-timestamp")) [
      | inr (e, bad) ↦ absurd (ground (arith, rw (bad, signed_headers) at h))
      | inl (t, timestamp) ↦ elim (Result-cases (header_value headers "x-wakezilla-nonce")) [
        | inr (e, bad) ↦ absurd (ground (arith, rw (timestamp, signed_headers, bad) at h))
        | inl (n, nonce) ↦ elim (Result-cases (header_value headers "x-wakezilla-signature")) [
          | inr (e, bad) ↦ absurd (ground (arith, rw (timestamp, signed_headers, nonce, bad) at h))
          | inl (s, sign) ↦
              let q = rw (timestamp, signed_headers, nonce, sign) at h in
              let made : SignedRequestHeaders = record {
                timestamp = t;
                nonce = n;
                signature = s;
              } in
              let e : made ≡ signed = cc in
              subst (Carries headers) e (
                header_value-some headers _ t timestamp,
                header_value-some headers _ n nonce,
                header_value-some headers _ s sign,
              )
        ]
      ]
    ]

Carries-signed_headers :
    (headers : HeaderMap) (signed : SignedRequestHeaders)
    → Carries headers signed
    → signed_headers headers ≡ ok signed
unfolding signed_headers
Carries-signed_headers headers signed (t, n, s) =
    simp
      (
        some-header_value headers _ _ t,
        some-header_value headers _ _ n,
        some-header_value headers _ _ s,
      )
      refl

-- A client with a key calls for the shutdown exactly when the request carries the three headers and
-- the guard accepts them for `POST /machines/turn-off`. It then replies 200; otherwise it replies
-- 401 and has not shut down.
pub turn_off_machine_iff :
    (c : Crypto) (state : ClientState) (key : String) (headers : HeaderMap) (now : ℕ)
    → state.shutdown_key ≡ some key
    → ((signed : SignedRequestHeaders) × Carries headers signed
        × ((verify c state.replay_guard key "POST" "/machines/turn-off" signed now).1 ≡ ok tt)
        × ((turn_off_machine c state headers now).0.shutdowns ≡ state.shutdowns + 1)
        × ((turn_off_machine c state headers now).1 ≡ status_ok))
      ⊎ (((signed : SignedRequestHeaders)
            → Carries headers signed
            → (verify c state.replay_guard key "POST" "/machines/turn-off" signed now).1 ≢ ok tt)
          × ((turn_off_machine c state headers now).0.shutdowns ≡ state.shutdowns)
          × ((turn_off_machine c state headers now).1 ≡ unauthorized))
unfolding turn_off_machine authenticate
turn_off_machine_iff c state key headers now has = elim (Result-cases (signed_headers headers)) [
  | inr (status, bad) ↦
      let e = signed_headers-err headers status bad in
      inr (
        λ signed carried _.
            let good = Carries-signed_headers headers signed carried in ground arith,
        ground arith,
        ground arith,
      )
  | inl (signed, good) ↦
      elim (Result-cases
        (verify c state.replay_guard key "POST" "/machines/turn-off" signed now).1) [
          | inl (_, accepted) ↦ inl (
            signed,
            signed_headers-Carries headers signed good,
            accepted,
            ground arith,
            ground arith,
          )
          | inr (e, refused) ↦ inr (
            λ other carried p.
                let good' = Carries-signed_headers headers other carried in ground arith,
            ground arith,
            ground arith,
          )
        ]
]

-- The guard that every client starts with, after any number of requests.
abbrev IsDefault : ReplayGuard → Type 0
IsDefault g = IsValid g × (g.capacity ≡ 4096)

verify-IsDefault :
    (c : Crypto) (g : ReplayGuard) (key method path : String) (headers : SignedRequestHeaders)
    (now : ℕ)
    → IsDefault g
    → IsDefault (verify c g key method path headers now).0
verify-IsDefault c g key method path headers now (v, k) = (
  verify-IsValid c g key method path headers now v,
  capacity-verify c g key method path headers now ∙ k,
)

authenticate-IsDefault :
    (c : Crypto) (state : ClientState) (method path : String) (headers : HeaderMap) (now : ℕ)
    → IsDefault state.replay_guard
    → IsDefault (authenticate c state method path headers now).0.replay_guard
unfolding authenticate
authenticate-IsDefault c state method path headers now h = elim (Option-cases state.shutdown_key) [
  | inl no_key ↦ rw (no_key, authenticate) h
  | inr (key, has) ↦ elim (Result-cases (signed_headers headers)) [
    | inr (status, bad) ↦ rw (has, authenticate, bad) h
    | inl (signed, good) ↦
        rw (has, authenticate, good)
          (verify-IsDefault c state.replay_guard key method path signed now h)
  ]
]

replay_guard-turn_off_if :
    (x : ClientState × Result (Unit {0}) ℕ) → (turn_off_if x).0.replay_guard ≡ x.0.replay_guard
replay_guard-turn_off_if (state, ok _) = refl
replay_guard-turn_off_if (state, err status) = refl

handle_at-IsDefault :
    (e : Endpoint) (c : Crypto) (state : ClientState) (headers : HeaderMap) (now : ℕ)
    → IsDefault state.replay_guard
    → IsDefault (handle_at e c state headers now).0.replay_guard
unfolding handle_at
handle_at-IsDefault health c state headers now h = h
handle_at-IsDefault secure_health c state headers now h =
    authenticate-IsDefault c state "GET" "/health/secure" headers now h
handle_at-IsDefault turn_off c state headers now h = elim (Option-cases state.shutdown_key) [
  | inl no_key ↦ rw (no_key, turn_off_machine) h
  | inr (key, has) ↦
      rw (has, turn_off_machine, replay_guard-turn_off_if)
        (authenticate-IsDefault c state "POST" "/machines/turn-off" headers now h)
]

serve-IsDefault :
    (c : Crypto) (state : ClientState) (requests : List Request)
    → IsDefault state.replay_guard
    → IsDefault (serve c state requests).replay_guard
unfolding serve
serve-IsDefault c state [] h = h
serve-IsDefault c state (r ∷ requests) h =
    serve-IsDefault c (handle_at r.endpoint c state r.headers r.now).0 requests
      (handle_at-IsDefault r.endpoint c state r.headers r.now h)

-- However many requests a client serves, with whatever headers, its guard never holds more than
-- 4096 nonces.
pub serve_bounded :
    (c : Crypto) (shutdown_key : Option String) (requests : List Request)
    → length (serve c (build_router shutdown_key) requests).replay_guard.seen ≤ 4096
serve_bounded c shutdown_key requests =
    let (v, k) =
      serve-IsDefault c (build_router shutdown_key) requests (unfold build_router in omega arith) in
    omega (arith, v.bounded, k)
