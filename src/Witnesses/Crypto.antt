-- ===== src/Witnesses/Crypto.antt =====
-- A concrete encoding and a concrete tag that keep the laws of the crates base64 and hmac.
use mathlib.Core.Option
use wakezilla.Prelude.{
  ◌==◌, length, ◌^^◌, codes, codes-append, ℕ, zero, suc, ◌+◌, ◌%◌, ◌<◌, String, ◌≡◌, refl, true,
  false, Option, some, List, [], ◌∷◌, arith,
}
use wakezilla.ShutdownAuth.{Crypto, CryptoLaws}

-- Each byte in unary, ended by a `b`.
unary : ℕ → String → String
unary zero s = "b" ^^ s
unary (suc n) s = "a" ^^ unary n s

unfoldable pub encode : List ℕ → String
unfolding unary
encode [] = ""
encode (x ∷ bytes) = unary x (encode bytes)

read_unary : (acc : ℕ) → List ℕ → Option (List ℕ)
read_unary acc [] = some []
read_unary acc (c ∷ cs) = elim (c == b'b') [
  | true ↦ Option.map (λ xs. acc ∷ xs) (read_unary 0 cs)
  | false ↦ read_unary (suc acc) cs
]

unfoldable pub decode : String → Option (List ℕ)
unfolding read_unary
decode s = read_unary 0 (codes s)

unfoldable pub sum : List ℕ → ℕ
sum [] = 0
sum (x ∷ xs) = x + sum xs

unfoldable pub unary_crypto : Crypto
unfolding encode decode sum
unary_crypto = record {
  encode = encode;
  decode = decode;
  hmac = λ key message. ((sum key + length message) % 8) ∷ [];
}

read_unary-unary :
    (acc n : ℕ) (s : String)
    → read_unary acc (codes (unary n s))
      ≡ Option.map (λ xs. (acc + n) ∷ xs) (read_unary 0 (codes s))
unfolding read_unary unary
read_unary-unary acc zero s = let e : acc + 0 ≡ acc = omega arith in rw (codes-append, e) refl
read_unary-unary acc (suc n) s =
    let e : acc + suc n ≡ suc acc + n = omega arith in
    rw (codes-append, e) (read_unary-unary (suc acc) n s)

decode-encode : (bytes : List ℕ) → decode (encode bytes) ≡ some bytes
unfolding decode encode
decode-encode [] = refl
decode-encode (x ∷ bytes) = rw (read_unary-unary 0 x (encode bytes)) (cons (decode-encode bytes))
  where
    cons :
        decode (encode bytes) ≡ some bytes
        → Option.map (λ xs. (0 + x) ∷ xs) (decode (encode bytes)) ≡ some (x ∷ bytes)
    cons e = let z : 0 + x ≡ x = omega arith in rw (e, z) refl

pub unary_crypto-CryptoLaws : CryptoLaws unary_crypto
unfolding unary_crypto decode
unary_crypto-CryptoLaws = record {
  decode-encode = λ bytes _. decode-encode bytes;
  hmac_bytes = λ key message. (small (sum key + length message), tt);
}
  where
    small : (n : ℕ) → n % 8 < 256
    small n = omega arith
