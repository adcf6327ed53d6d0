-- ===== src/ClientServer.antt =====
-- src/client_server.rs: the HTTP server of a machine that can be turned off remotely. The state is
-- the one that the handlers share, with a count of the calls of `system::shutdown_machine`. A
-- header's value is `none` where `to_str` refuses it. Bodies of responses are left out.
pub mod Authentication
use wakezilla.Prelude.{
  if◌then◌else◌, str_eq, HashMap, lookup, Result, ◌>>=◌, ◌>>◌, ok, err, ℕ, ◌+◌, String, ◌&&◌,
  Option, none, some, List, [], ◌∷◌,
}
use wakezilla.ShutdownAuth.{
  Crypto, SignedRequestHeaders, signature, ReplayGuard, default_guard, verify,
}

pub record ClientState : Type 0 where
  pub shutdown_key : Option String
  pub replay_guard : ReplayGuard
  pub shutdowns : ℕ

abbrev pub HeaderMap : Type 0
HeaderMap = HashMap (Option String)

abbrev pub status_ok : ℕ
status_ok = 200

abbrev pub unauthorized : ℕ
unauthorized = 401

unfoldable pub header_value : HeaderMap → String → Result String ℕ
header_value headers name = elim (lookup name headers) [
  | some (some value) ↦ ok value
  | some none ↦ err unauthorized
  | none ↦ err unauthorized
]

unfoldable pub signed_headers : HeaderMap → Result SignedRequestHeaders ℕ
unfolding header_value
signed_headers headers = do
  timestamp ← header_value headers "x-wakezilla-timestamp"
  nonce ← header_value headers "x-wakezilla-nonce"
  signature ← header_value headers "x-wakezilla-signature"
  ok (record { timestamp = timestamp; nonce = nonce; signature = signature })

abbrev pub map_err {ℓ} : {A : Type ℓ} {E F : Type 0} → (E → F) → Result A E → Result A F
map_err f (ok a) = ok a
map_err f (err e) = err (f e)

-- `now` is the value of `unix_timestamp`.
unfoldable pub authenticate :
    Crypto
    → ClientState
    → (method path : String) → HeaderMap
    → (now : ℕ) → ClientState × Result (Unit {0}) ℕ
authenticate c state method path headers now = elim state.shutdown_key [
  | none ↦ (state, err unauthorized)
  | some key ↦ elim (signed_headers headers) [
    | err status ↦ (state, err status)
    | ok signed ↦
        let (guard, result) = verify c state.replay_guard key method path signed now in
        (record state { replay_guard = guard }, map_err (λ _. unauthorized) result)
  ]
]

abbrev pub status_of : Result (Unit {0}) ℕ → ℕ
status_of (ok _) = status_ok
status_of (err status) = status

unfoldable pub health_check : ClientState → ClientState × ℕ
health_check state = (state, status_ok)

unfoldable pub secure_health_check : Crypto → ClientState → HeaderMap → (now : ℕ) → ClientState × ℕ
secure_health_check c state headers now =
    let (state', result) = authenticate c state "GET" "/health/secure" headers now in
    (state', status_of result)

-- system::shutdown_machine
abbrev pub shutdown_machine : ClientState → ClientState
shutdown_machine state = record state { shutdowns = state.shutdowns + 1 }

abbrev pub turn_off_if : ClientState × Result (Unit {0}) ℕ → ClientState × ℕ
turn_off_if (state, ok _) = (shutdown_machine state, status_ok)
turn_off_if (state, err status) = (state, status)

unfoldable pub turn_off_machine : Crypto → ClientState → HeaderMap → (now : ℕ) → ClientState × ℕ
turn_off_machine c state headers now = elim state.shutdown_key [
  | none ↦ (shutdown_machine state, status_ok)
  | some _ ↦ turn_off_if (authenticate c state "POST" "/machines/turn-off" headers now)
]

pub data Endpoint : Type 0 where
  health secure_health turn_off : Endpoint

-- The routes of `build_router`, and the state that it starts with.
unfoldable pub route : (method path : String) → Option Endpoint
route method path =
    if str_eq method "GET" && str_eq path "/health"
    then some health
    else if str_eq method "GET" && str_eq path "/health/secure"
    then some secure_health
    else if str_eq method "POST" && str_eq path "/machines/turn-off"
    then some turn_off
    else none

unfoldable pub build_router : Option String → ClientState
unfolding default_guard
build_router shutdown_key = record {
  shutdown_key = shutdown_key;
  replay_guard = default_guard;
  shutdowns = 0;
}

pub record Request : Type 0 where
  pub endpoint : Endpoint
  pub headers : HeaderMap
  pub now : ℕ

unfoldable pub handle_at : Endpoint → Crypto → ClientState → HeaderMap → ℕ → ClientState × ℕ
unfolding health_check secure_health_check turn_off_machine
handle_at health c state headers now = health_check state
handle_at secure_health c state headers now = secure_health_check c state headers now
handle_at turn_off c state headers now = turn_off_machine c state headers now

-- The requests that the server handles, in the order in which they take the guard's lock.
unfoldable pub serve : Crypto → ClientState → List Request → ClientState
unfolding handle_at
serve c state [] = state
serve c state (r ∷ requests) = serve c (handle_at r.endpoint c state r.headers r.now).0 requests
