-- ===== src/Forward.antt =====
-- src/forward.rs, beside the limiter: the calls to a client, and what one accepted connection of a
-- forwarder does. What the network and the clock answer are arguments.
pub mod Connection
pub mod Termination
pub mod Recording
pub mod TurnOff
use wakezilla.Prelude.{
  ltb, leb, ◌==◌, if◌then◌else◌, ◌^^◌, Result, ok, err, show, ℕ, String, Bool, not, ◌&&◌, ◌||◌,
  Option, none, some, List, [], ◌∷◌,
}
use wakezilla.ShutdownAuth.{Crypto, SignedRequestHeaders, sign_request_at}

unfoldable pub turn_off_url : (remote_ip : String) → (turn_off_port : ℕ) → String
turn_off_url remote_ip turn_off_port =
    "http://" ^^ (remote_ip ^^ (":" ^^ (show turn_off_port ^^ "/machines/turn-off")))

pub data ClientVerification : Type 0 where
  verified key_mismatch unreachable : ClientVerification

-- A request that has been built: its method, its address and the signed headers, if any.
pub record Outgoing : Type 0 where
  pub method : String
  pub url : String
  pub headers : Option SignedRequestHeaders

-- The crate reqwest: whether a client can be built, and the status that answers a request.
pub record Http : Type 0 where
  pub builds : Bool
  pub send : Outgoing → Option ℕ

abbrev pub is_success : ℕ → Bool
is_success status = leb 200 status && ltb status 300

unfoldable pub verification_of : Option ℕ → ClientVerification
verification_of none = unreachable
verification_of (some status) =
    if is_success status
    then verified
    else if status == 401 || status == 403
    then key_mismatch
    else unreachable

unfoldable pub verify_remote_client :
    Crypto
    → Http
    → (nonce_bytes : List ℕ) → (now : ℕ) → (remote_ip : String) → (client_port : ℕ)
    → (shutdown_auth_key : String) → ClientVerification
unfolding verification_of
verify_remote_client c http nonce_bytes now remote_ip client_port shutdown_auth_key =
    if not http.builds
    then unreachable
    else elim (sign_request_at c nonce_bytes shutdown_auth_key "GET" "/health/secure" now) [
      | err _ ↦ key_mismatch
      | ok signed ↦ verification_of (
          http.send (record {
            method = "GET";
            url = "http://" ^^ (remote_ip ^^ (":" ^^ (show client_port ^^ "/health/secure")));
            headers = some signed;
          }))
    ]

pub data TurnOffError : Type 0 where
  no_client signing sending : TurnOffError
  error_status : ℕ → TurnOffError

unfoldable pub sign_if :
    Crypto
    → (nonce_bytes : List ℕ) → (now : ℕ) → Option String
    → Result (Option SignedRequestHeaders) TurnOffError
sign_if c nonce_bytes now none = ok none
sign_if c nonce_bytes now (some key) =
    elim (sign_request_at c nonce_bytes key "POST" "/machines/turn-off" now) [
      | err _ ↦ err signing
      | ok signed ↦ ok (some signed)
    ]

-- error_for_status
unfoldable pub error_for_status : Option ℕ → Result (Unit {0}) TurnOffError
error_for_status none = err sending
error_for_status (some status) =
    if leb 400 status && ltb status 600 then err (error_status status) else ok tt

-- The requests sent, and the result.
unfoldable pub turn_off_remote_machine :
    Crypto
    → Http
    → (nonce_bytes : List ℕ) → (now : ℕ) → (remote_ip : String) → (turn_off_port : ℕ)
    → (shutdown_auth_key : Option String) → List Outgoing × Result (Unit {0}) TurnOffError
unfolding sign_if error_for_status turn_off_url
turn_off_remote_machine c http nonce_bytes now remote_ip turn_off_port shutdown_auth_key =
    if not http.builds
    then ([], err no_client)
    else elim (sign_if c nonce_bytes now shutdown_auth_key) [
      | err e ↦ ([], err e)
      | ok headers ↦
          let request : Outgoing = record {
            method = "POST";
            url = turn_off_url remote_ip turn_off_port;
            headers = headers;
          } in
          (request ∷ [], error_for_status (http.send request))
    ]
