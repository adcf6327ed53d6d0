-- ===== src/ShutdownAuth.antt =====
-- src/shutdown_auth.rs: signing of requests, and the guard that a client keeps against replays.
-- The crates base64 and hmac/sha2 and the random bytes are arguments. A text that is hashed is the
-- list of its code points. Error contexts of `anyhow` are constructors.
pub mod Signing
pub mod Capacity
pub mod Replay
pub mod Authentic
use wakezilla.Prelude.{
  ltb, leb, ◌==◌, if◌then◌else◌, is_some, length, All, codes, codes_eq, HashMap, lookup, insert,
  retain, remove, Result, ◌>>=◌, ◌>>◌, ok, err, show, parse_uint, ℕ, ◌-◌, ◌^◌, ◌<◌, String, ◌≡◌,
  ◌&&◌, Option, none, some, List, [], ◌∷◌, ◌++◌, map,
}

abbrev pub max_clock_skew : ℕ
max_clock_skew = 60

abbrev pub u64_max : ℕ
u64_max = 2 ^ 64 - 1

-- URL_SAFE_NO_PAD and HmacSha256
pub record Crypto : Type 0 where
  pub encode : List ℕ → String
  pub decode : String → Option (List ℕ)
  pub hmac : (key message : List ℕ) → List ℕ

-- A value of `u8`.
abbrev pub IsByte : ℕ → Type 0
IsByte x = x < 256

-- What the crates document: bytes survive base64, and a tag is made of bytes.
pub record CryptoLaws (c : Crypto) : Type 0 where
  pub decode-encode : (bytes : List ℕ) → All IsByte bytes → c.decode (c.encode bytes) ≡ some bytes
  pub hmac_bytes : (key message : List ℕ) → All IsByte (c.hmac key message)

pub record SignedRequestHeaders : Type 0 where
  pub timestamp : String
  pub nonce : String
  pub signature : String

pub data VerifyError : Type 0 where
  malformed timestamp_outside_window invalid_signature replay : VerifyError

pub data KeyError : Type 0 where
  not_base64 wrong_length : KeyError

-- `key` is the 32 random bytes.
unfoldable pub generate_key : Crypto → (key : List ℕ) → String
generate_key c key = c.encode key

unfoldable pub decode_key : Crypto → String → Result (List ℕ) KeyError
decode_key c key = elim (c.decode key) [
  | none ↦ err not_base64
  | some decoded ↦ if length decoded == 32 then ok decoded else err wrong_length
]

unfoldable pub validate_key : Crypto → String → Result (Unit {0}) KeyError
unfolding decode_key
validate_key c key = do decode_key c key >>= λ _. ok tt

pub to_ascii_uppercase : ℕ → ℕ
to_ascii_uppercase c = if leb b'a' c && leb c b'z' then c - 32 else c

unfoldable pub canonical_request : (method path timestamp nonce : String) → List ℕ
unfolding to_ascii_uppercase
canonical_request method path timestamp nonce =
    codes "wakezilla-v1"
    ++ (10
        ∷ (map to_ascii_uppercase (codes method)
            ++ (10 ∷ (codes path ++ (10 ∷ (codes timestamp ++ (10 ∷ codes nonce)))))))

unfoldable pub signature :
    Crypto → (key method path timestamp nonce : String) → Result String KeyError
signature c key method path timestamp nonce = do
  key ← decode_key c key
  ok (c.encode (c.hmac key (canonical_request method path timestamp nonce)))

-- `nonce_bytes` are the 16 random bytes.
unfoldable pub sign_request_at :
    Crypto
    → (nonce_bytes : List ℕ) → (key method path : String) → (timestamp : ℕ)
    → Result SignedRequestHeaders KeyError
sign_request_at c nonce_bytes key method path timestamp = do
  let nonce = c.encode nonce_bytes
  tag ← signature c key method path (show timestamp) nonce
  ok (record { timestamp = show timestamp; nonce = nonce; signature = tag })

pub record ReplayGuard : Type 0 where
  pub seen : HashMap ℕ
  pub retention : ℕ
  pub capacity : ℕ

unfoldable pub new : (retention capacity : ℕ) → ReplayGuard
new retention capacity = record {
  seen = [];
  retention = retention;
  capacity = if leb capacity 1 then 1 else capacity;
}

-- ReplayGuard::default
unfoldable pub default_guard : ReplayGuard
unfolding new
default_guard = new 120 4096

unfoldable pub abs_diff : ℕ → ℕ → ℕ
abs_diff a b = if ltb a b then b - a else a - b

unfoldable pub prune : ReplayGuard → ℕ → ReplayGuard
prune g now = record g {
  seen = retain (λ _ accepted_at. leb (now - accepted_at) g.retention) g.seen;
}

-- `min_by_key` returns the first of several minima.
oldest : HashMap ℕ → Option (String × ℕ)
oldest [] = none
oldest ((nonce, t) ∷ m) = elim (oldest m) [
  | none ↦ some (nonce, t)
  | some (nonce', t') ↦ if leb t t' then some (nonce, t) else some (nonce', t')
]

remove_entry : Option (String × ℕ) → ReplayGuard → ReplayGuard
remove_entry none g = g
remove_entry (some (nonce, t)) g = record g { seen = remove nonce g.seen }

unfoldable pub remove_oldest : ReplayGuard → ReplayGuard
unfolding oldest remove_entry
remove_oldest g = remove_entry (oldest g.seen) g

-- From `decode_key` to `verify_slice`, which compares all bytes.
unfoldable pub check_signature :
    Crypto → (key method path : String) → SignedRequestHeaders → Result (Unit {0}) VerifyError
check_signature c key method path headers = elim (decode_key c key) [
  | err _ ↦ err malformed
  | ok key ↦ elim (c.decode headers.signature) [
    | none ↦ err malformed
    | some given ↦
        if codes_eq (c.hmac key (canonical_request method path headers.timestamp headers.nonce))
          given
        then ok tt
        else err invalid_signature
  ]
]

unfoldable pub accept : ReplayGuard → String → ℕ → ReplayGuard
accept g nonce now =
    let g = if leb g.capacity (length g.seen) then remove_oldest g else g in
    record g { seen = insert nonce now g.seen }

abbrev pub verdict :
    Result (Unit {0}) VerifyError
    → (rejecting accepting : ReplayGuard) → ReplayGuard × Result (Unit {0}) VerifyError
verdict (err e) rejecting accepting = (rejecting, err e)
verdict (ok _) rejecting accepting = (accepting, ok tt)

-- From the test for the nonce on, in a guard that has been pruned.
unfoldable pub verify_pruned :
    Crypto
    → ReplayGuard
    → (key method path : String) → SignedRequestHeaders
    → ℕ
    → ReplayGuard × Result (Unit {0}) VerifyError
verify_pruned c g key method path headers now =
    if is_some (lookup headers.nonce g.seen)
    then (g, err replay)
    else verdict (check_signature c key method path headers) g (accept g headers.nonce now)

-- ReplayGuard::verify
unfoldable pub verify :
    Crypto
    → ReplayGuard
    → (key method path : String) → SignedRequestHeaders
    → ℕ
    → ReplayGuard × Result (Unit {0}) VerifyError
unfolding verify_pruned
verify c g key method path headers now = elim (parse_uint u64_max headers.timestamp) [
  | none ↦ (g, err malformed)
  | some timestamp ↦
      if ltb max_clock_skew (abs_diff now timestamp)
      then (g, err timestamp_outside_window)
      else verify_pruned c (prune g now) key method path headers now
]
