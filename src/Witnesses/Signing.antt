-- ===== src/Witnesses/Signing.antt =====
-- Runs of src/shutdown_auth.rs and src/client_server.rs.
use wakezilla.Prelude.{
  length, codes, codes_eq, lookup, insert, retain, ok, show, parse_uint, ◌+◌, ◌≤◌, String, ◌≡◌,
  refl, ◌≢◌, ◌⊎◌, true, some, [], ◌∷◌, map, arith,
}
use wakezilla.ShutdownAuth.{
  SignedRequestHeaders, to_ascii_uppercase, canonical_request, signature, sign_request_at,
  ReplayGuard, verify, decode_key, abs_diff, prune, check_signature, accept,
}
use wakezilla.ShutdownAuth.Signing.{NoNewline, canonical_request_injective, verify-sign_request_at}
use wakezilla.ShutdownAuth.Capacity.{verify-IsValid, IsValid}
use wakezilla.ShutdownAuth.Capacity
use wakezilla.ShutdownAuth.Authentic.{IsAuthentic, verify-IsAuthentic}
use wakezilla.ShutdownAuth.Replay.{Attempt, run, accepted_once}
use wakezilla.ClientServer.{
  ClientState, HeaderMap, status_ok, unauthorized, turn_off_machine, build_router, serve, turn_off,
}
use wakezilla.Forward.{Http, turn_off_remote_machine}
use wakezilla.Forward.TurnOff.{
  headers_of, turn_off_request, turn_off_machine-turn_off_remote_machine,
}
use wakezilla.ClientServer.Authentication.{Carries, turn_off_machine_iff, serve_bounded}
use wakezilla.Witnesses.Crypto.{unary_crypto, unary_crypto-CryptoLaws}

abbrev key : String
key = "bbbbbbbbbbbbbbbbbbbbbbbbbbbbbbbb"

abbrev signed : SignedRequestHeaders
signed = record { timestamp = "100"; nonce = "ab"; signature = "aaab" }

abbrev first_guard : ReplayGuard
first_guard = record { seen = []; retention = 120; capacity = 4 }

abbrev after_first : ReplayGuard
after_first = record { seen = ("ab", 130) ∷ []; retention = 120; capacity = 4 }

abbrev other : Attempt
other = record {
  method = "GET";
  path = "/health/secure";
  headers = record signed { nonce = "b" };
  now = 140;
}

accepts_signed :
    verify unary_crypto first_guard key "POST" "/machines/turn-off" signed 130
    ≡ (after_first, ok tt)
unfolding verify parse_uint abs_diff lookup prune retain check_signature decode_key unary_crypto
    codes_eq canonical_request accept insert
accepts_signed = refl

verify-sign_request_at_example :
    (verify unary_crypto first_guard key "POST" "/machines/turn-off" signed 130).1 ≡ ok tt
unfolding sign_request_at signature decode_key unary_crypto show canonical_request abs_diff lookup
    prune retain
verify-sign_request_at_example =
    verify-sign_request_at unary_crypto first_guard (1 ∷ []) key "POST" "/machines/turn-off" 100 130
      signed unary_crypto-CryptoLaws refl (omega arith) (omega arith) refl

verify-IsAuthentic_example :
    IsAuthentic unary_crypto first_guard after_first key "POST" "/machines/turn-off" signed 130
verify-IsAuthentic_example =
    verify-IsAuthentic unary_crypto first_guard after_first key "POST" "/machines/turn-off" signed
      130 accepts_signed

accepted_once_example :
    verify unary_crypto
      (run unary_crypto key after_first (other ∷ []))
      key
      "POST"
      "/machines/turn-off"
      signed
      150
    ≢ (after_first, ok tt)
accepted_once_example =
    accepted_once unary_crypto key "POST" "/machines/turn-off" "POST" "/machines/turn-off" signed
      130 150 first_guard after_first after_first (other ∷ []) accepts_signed (omega arith)
      (omega arith) (omega arith, tt)

canonical_request_injective_example :
    (map to_ascii_uppercase (codes "get") ≡ map to_ascii_uppercase (codes "GET"))
    × (◌≡◌ {A = String} "/a" "/a")
    × (◌≡◌ {A = String} "1" "1")
    × (◌≡◌ {A = String} "n" "n")
unfolding canonical_request
canonical_request_injective_example =
    canonical_request_injective "get" "/a" "1" "n" "GET" "/a" "1" "n" no_newlines no_newlines_either
      refl
  where
    no_newlines : NoNewline (codes "get") × NoNewline (codes "/a") × NoNewline (codes "1")
    no_newlines = (
      (omega arith, (omega arith, (omega arith, tt))),
      (omega arith, (omega arith, tt)),
      (omega arith, tt),
    )

    no_newlines_either : NoNewline (codes "GET") × NoNewline (codes "/a") × NoNewline (codes "1")
    no_newlines_either = (
      (omega arith, (omega arith, (omega arith, tt))),
      (omega arith, (omega arith, tt)),
      (omega arith, tt),
    )

verify-IsValid_example :
    Capacity.IsValid (verify unary_crypto after_first key "POST" "/machines/turn-off" signed 130).0
verify-IsValid_example =
    verify-IsValid unary_crypto after_first key "POST" "/machines/turn-off" signed 130
      (record { room = omega arith; bounded = omega arith })

abbrev client : ClientState
client = record { shutdown_key = some key; replay_guard = first_guard; shutdowns = 0 }

abbrev header_map : HeaderMap
header_map =
    ("x-wakezilla-timestamp", some "100")
    ∷ ("x-wakezilla-nonce", some "ab")
    ∷ ("x-wakezilla-signature", some "aaab")
    ∷ []

abbrev TurnedOff : Type 0
TurnedOff =
    ((given : SignedRequestHeaders) × Carries header_map given
      × ((verify unary_crypto first_guard key "POST" "/machines/turn-off" given 130).1 ≡ ok tt)
      × ((turn_off_machine unary_crypto client header_map 130).0.shutdowns ≡ 1)
      × ((turn_off_machine unary_crypto client header_map 130).1 ≡ status_ok))
    ⊎ (((given : SignedRequestHeaders)
          → Carries header_map given
          → (verify unary_crypto first_guard key "POST" "/machines/turn-off" given 130).1 ≢ ok tt)
        × ((turn_off_machine unary_crypto client header_map 130).0.shutdowns ≡ 0)
        × ((turn_off_machine unary_crypto client header_map 130).1 ≡ unauthorized))

turn_off_machine_iff_example : TurnedOff
turn_off_machine_iff_example = turn_off_machine_iff unary_crypto client key header_map 130 refl

serve_bounded_example :
    length
      (serve unary_crypto
        (build_router (some key))
        (record { endpoint = turn_off; headers = header_map; now = 130 } ∷ [])).replay_guard.seen
    ≤ 4096
serve_bounded_example =
    serve_bounded unary_crypto (some key)
      (record { endpoint = turn_off; headers = header_map; now = 130 } ∷ [])

abbrev network : Http
network = record { builds = true; send = λ _. some 200 }

turn_off_machine-turn_off_remote_machine_example :
    ((turn_off_remote_machine unary_crypto network (1 ∷ []) 100 "10.0.0.1" 3001 (some key)).0
      ≡ turn_off_request "10.0.0.1" 3001 signed ∷ [])
    × ((turn_off_machine unary_crypto client (headers_of signed) 130).0.shutdowns
        ≡ client.shutdowns + 1)
    × ((turn_off_machine unary_crypto client (headers_of signed) 130).1 ≡ status_ok)
unfolding sign_request_at signature decode_key unary_crypto show canonical_request abs_diff lookup
    prune retain
turn_off_machine-turn_off_remote_machine_example =
    turn_off_machine-turn_off_remote_machine unary_crypto network (1 ∷ []) 100 130 "10.0.0.1" 3001
      key signed client unary_crypto-CryptoLaws refl refl refl (omega arith) (omega arith) refl
