-- ===== src/Forward/TurnOff.antt =====
-- The signal that the server sends (src/forward.rs) and the client that receives it
-- (src/client_server.rs).
use wakezilla.Prelude.{
  lookup, ok, ℕ, ◌+◌, ◌≤◌, String, ◌≡◌, refl, inl, inr, true, none, some, List, [], ◌∷◌,
}
use wakezilla.ShutdownAuth.{
  max_clock_skew, u64_max, Crypto, CryptoLaws, SignedRequestHeaders, sign_request_at, abs_diff,
  prune, verify,
}
use wakezilla.ShutdownAuth.Signing.{verify-sign_request_at}
use wakezilla.ClientServer.{ClientState, HeaderMap, status_ok, turn_off_machine}
use wakezilla.ClientServer.Authentication.{Carries, turn_off_machine_iff}
use wakezilla.Forward.{turn_off_url, Outgoing, Http, sign_if, turn_off_remote_machine}

-- The headers of a request as the client receives them.
abbrev pub headers_of : SignedRequestHeaders → HeaderMap
headers_of signed =
    ("x-wakezilla-timestamp", some signed.timestamp)
    ∷ ("x-wakezilla-nonce", some signed.nonce)
    ∷ ("x-wakezilla-signature", some signed.signature)
    ∷ []

Carries-headers_of : (signed : SignedRequestHeaders) → Carries (headers_of signed) signed
unfolding lookup
Carries-headers_of signed = (refl, refl, refl)

abbrev pub turn_off_request : (ip : String) → (port : ℕ) → SignedRequestHeaders → Outgoing
turn_off_request ip port signed = record {
  method = "POST";
  url = turn_off_url ip port;
  headers = some signed;
}

sends_signed :
    (c : Crypto) (http : Http) (nonce_bytes : List ℕ) (now : ℕ) (ip : String) (port : ℕ)
    (key : String) (signed : SignedRequestHeaders)
    → http.builds ≡ true
    → sign_request_at c nonce_bytes key "POST" "/machines/turn-off" now ≡ ok signed
    → (turn_off_remote_machine c http nonce_bytes now ip port (some key)).0
      ≡ turn_off_request ip port signed ∷ []
unfolding turn_off_remote_machine sign_if
sends_signed c http nonce_bytes now ip port key signed builds made =
    rw (turn_off_remote_machine, builds, made) refl

-- Where server and client have the same key, and the server can sign and send with it at a time that
-- is a u64, it sends one request, signed for the turn-off of the client; a client that receives it
-- within 60 seconds, and does not remember its nonce, shuts down and replies 200. Base64 and the tag
-- keep their laws.
pub turn_off_machine-turn_off_remote_machine :
    (c : Crypto) (http : Http) (nonce_bytes : List ℕ) (now later : ℕ) (ip : String) (port : ℕ)
    (key : String) (signed : SignedRequestHeaders) (client : ClientState)
    → CryptoLaws c
    → http.builds ≡ true
    → sign_request_at c nonce_bytes key "POST" "/machines/turn-off" now ≡ ok signed
    → client.shutdown_key ≡ some key
    → now ≤ u64_max
    → abs_diff later now ≤ max_clock_skew
    → lookup signed.nonce (prune client.replay_guard later).seen ≡ none
    → ((turn_off_remote_machine c http nonce_bytes now ip port (some key)).0
        ≡ turn_off_request ip port signed ∷ [])
      × ((turn_off_machine c client (headers_of signed) later).0.shutdowns ≡ client.shutdowns + 1)
      × ((turn_off_machine c client (headers_of signed) later).1 ≡ status_ok)
turn_off_machine-turn_off_remote_machine c http nonce_bytes now later ip port key signed client laws
      builds made has u64 near fresh =
    let accepted : (verify c client.replay_guard key "POST" "/machines/turn-off" signed later).1
        ≡ ok tt =
      verify-sign_request_at c client.replay_guard nonce_bytes key "POST" "/machines/turn-off" now
        later signed laws made u64 near fresh in
    let sent = sends_signed c http nonce_bytes now ip port key signed builds made in
    elim (turn_off_machine_iff c client key (headers_of signed) later has) [
      | inl (_, _, _, counted, replied) ↦ (sent, counted, replied)
      | inr (refused, _, _) ↦ absurd (refused signed (Carries-headers_of signed) accepted)
    ]
