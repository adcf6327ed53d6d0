-- ===== src/ShutdownAuth/Signing.antt =====
-- Signed requests: what a signature covers, and that a signed request is accepted.
use wakezilla.ShutdownAuth.{
  to_ascii_uppercase, max_clock_skew, u64_max, Crypto, CryptoLaws, SignedRequestHeaders, KeyError,
  decode_key, canonical_request, signature, sign_request_at, ReplayGuard, abs_diff, prune,
  check_signature, verify,
}
use wakezilla.Prelude.{
  All, ℕ, ◌≡◌, refl, ◌≢◌, List, [], ◌∷◌, ◌++◌, arith, ltb, codes, codes_eq_refl, codes_injective,
  lookup, Result, ok, err, show, parse_uint, parse_uint-show, ◌≤◌, String, false, none, some, map,
}

-- A text without a line feed.
abbrev pub NoNewline : List ℕ → Type 0
NoNewline = All (λ c. c ≢ 10)

-- The first line and the rest are determined by the text that joins them.
split_line :
    (xs ys rest rest' : List ℕ)
    → NoNewline xs
    → NoNewline ys
    → xs ++ (10 ∷ rest) ≡ ys ++ (10 ∷ rest')
    → (xs ≡ ys) × (rest ≡ rest')
split_line [] [] rest rest' h k e = (refl, cc)
split_line [] (y ∷ ys) rest rest' h k e = ground arith
split_line (x ∷ xs) [] rest rest' h k e = ground arith
split_line (x ∷ xs) (y ∷ ys) rest rest' h k e =
    let (same, same_rest) = split_line xs ys rest rest' h.1 k.1 (ground arith) in
    (ground arith, same_rest)

NoNewline-upper : (xs : List ℕ) → NoNewline xs → NoNewline (map to_ascii_uppercase xs)
unfolding to_ascii_uppercase
NoNewline-upper [] h = tt
NoNewline-upper (x ∷ xs) h = (ground arith, NoNewline-upper xs h.1)

-- Two requests are signed over the same text only if their paths, timestamps and nonces agree, and
-- their methods but for case: no part can be moved into another. Methods, paths and timestamps
-- hold no line feed.
pub canonical_request_injective :
    (method path timestamp nonce method' path' timestamp' nonce' : String)
    → NoNewline (codes method) × NoNewline (codes path) × NoNewline (codes timestamp)
    → NoNewline (codes method') × NoNewline (codes path') × NoNewline (codes timestamp')
    → canonical_request method path timestamp nonce
      ≡ canonical_request method' path' timestamp' nonce'
    → (map to_ascii_uppercase (codes method) ≡ map to_ascii_uppercase (codes method'))
      × (path ≡ path')
      × (timestamp ≡ timestamp')
      × (nonce ≡ nonce')
unfolding canonical_request
canonical_request_injective m p t n m' p' t' n' (hm, hp, ht) (km, kp, kt) e =
    let (_, e₁) =
      split_line (codes "wakezilla-v1") (codes "wakezilla-v1") _ _ (omega arith) (omega arith) e in
    let (em, e₂) =
      split_line (map to_ascii_uppercase (codes m)) (map to_ascii_uppercase (codes m')) _ _
        (NoNewline-upper (codes m) hm) (NoNewline-upper (codes m') km) e₁ in
    let (ep, e₃) = split_line (codes p) (codes p') _ _ hp kp e₂ in
    let (et, en) = split_line (codes t) (codes t') _ _ ht kt e₃ in
    (em, codes_injective p p' ep, codes_injective t t' et, codes_injective n n' en)

check_signature-signed :
    (c : Crypto) (key method path nonce : String) (timestamp : ℕ) (tag : String)
    → CryptoLaws c
    → signature c key method path (show timestamp) nonce ≡ ok tag
    → check_signature c key method path
        (record { timestamp = show timestamp; nonce = nonce; signature = tag })
      ≡ ok tt
unfolding signature check_signature
check_signature-signed c key method path nonce timestamp tag laws e = go (decode_key c key) refl
  where
    go :
        (r : Result (List ℕ) KeyError)
        → decode_key c key ≡ r
        → check_signature c key method path
            (record { timestamp = show timestamp; nonce = nonce; signature = tag })
          ≡ ok tt
    go (err x) d = ground arith
    go (ok k) d =
        let sent = c.hmac k (canonical_request method path (show timestamp) nonce) in
        let made : tag ≡ c.encode sent = ground arith in
        let back : c.decode tag ≡ some sent =
          rw made (laws.decode-encode sent (laws.hmac_bytes k _)) in
        rw (d, check_signature, back, codes_eq_refl sent)

-- What `sign_request_at` makes, a guard with the same key accepts: for the same method and path,
-- within 60 seconds of the timestamp, which is a u64, and as long as the guard does not remember
-- the nonce. Base64 and the tag keep their laws.
pub verify-sign_request_at :
    (c : Crypto) (g : ReplayGuard) (nonce_bytes : List ℕ) (key method path : String)
    (timestamp now : ℕ) (headers : SignedRequestHeaders)
    → CryptoLaws c
    → sign_request_at c nonce_bytes key method path timestamp ≡ ok headers
    → timestamp ≤ u64_max
    → abs_diff now timestamp ≤ max_clock_skew
    → lookup headers.nonce (prune g now).seen ≡ none
    → (verify c g key method path headers now).1 ≡ ok tt
unfolding sign_request_at verify
verify-sign_request_at c g nonce_bytes key method path timestamp now headers laws signed u64 near
      fresh =
    go (signature c key method path (show timestamp) (c.encode nonce_bytes)) refl
  where
    go :
        (r : Result String KeyError)
        → signature c key method path (show timestamp) (c.encode nonce_bytes) ≡ r
        → (verify c g key method path headers now).1 ≡ ok tt
    go (err x) s = ground arith
    go (ok tag) s =
        let made : headers
            ≡ record { timestamp = show timestamp; nonce = c.encode nonce_bytes; signature = tag } =
          ground arith in
        let checked : check_signature c key method path headers ≡ ok tt =
          rw made (
            check_signature-signed c key method path (c.encode nonce_bytes) timestamp tag laws s) in
        let parsed : parse_uint u64_max headers.timestamp ≡ some timestamp =
          rw made (parse_uint-show u64_max timestamp u64) in
        let inside : ltb max_clock_skew (abs_diff now timestamp) ≡ false = ground arith in
        rw (parsed, verify, inside, fresh, checked)
