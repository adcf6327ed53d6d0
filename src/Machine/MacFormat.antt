-- ===== src/Machine/MacFormat.antt =====
-- src/web.rs: the addresses that the server registers have six pairs of digits, and can be woken.
use wakezilla.Prelude.{
  ◌==◌, length, filter, codes, is_ascii_hexdigit, ok, ℕ, zero, suc, ◌+◌, ◌*◌, ◌≤◌, String, ◌≡◌, ◌⊎◌,
  inl, inr, Bool, true, false, ◌&&◌, ◌||◌, List, [], ◌∷◌, arith,
}
use wakezilla.Wol.Mac.{parse_mac_iff}
use wakezilla.Wol.{parse_mac, hex_digits}
use wakezilla.Machine.{matches_groups, is_match, validate_mac}

-- The number of hexadecimal digits in a text of n + 1 groups.
matches_groups-digits :
    (n : ℕ) (cs : List ℕ)
    → matches_groups n cs ≡ true
    → length (filter is_ascii_hexdigit cs) ≡ 2 * n + 2
unfolding matches_groups
matches_groups-digits zero (hi ∷ lo ∷ []) h = ground arith
matches_groups-digits (suc n) (hi ∷ lo ∷ sep ∷ rest) h =
    let ih = matches_groups-digits n rest (ground arith) in
    let hex_hi : is_ascii_hexdigit hi ≡ true = ground arith in
    let hex_lo : is_ascii_hexdigit lo ≡ true = ground arith in
    let no_hex : is_ascii_hexdigit sep ≡ false = unfold is_ascii_hexdigit in ground arith in
    rw (hex_hi, hex_lo, no_hex) (omega (arith, ih))
matches_groups-digits zero [] h = cc
matches_groups-digits zero (hi ∷ []) h = cc
matches_groups-digits zero (hi ∷ lo ∷ c ∷ rest) h = cc
matches_groups-digits (suc n) [] h = cc
matches_groups-digits (suc n) (hi ∷ []) h = cc
matches_groups-digits (suc n) (hi ∷ lo ∷ []) h = cc

-- Every address that `validate_mac` accepts is one that `parse_mac` reads.
pub parse_mac-validate_mac :
    (mac : String) → validate_mac mac ≡ ok tt → (bytes : List ℕ) × (parse_mac mac ≡ ok bytes)
unfolding validate_mac
parse_mac-validate_mac mac h =
    let digits : length (hex_digits mac) ≡ 12 =
      unfold hex_digits in matches_groups-digits 5 (codes mac) (ground arith) in
    elim (parse_mac_iff mac) [
      | inl (e, (bytes, parsed, six, small)) ↦ (bytes, parsed)
      | inr (e, r) ↦ absurd (e digits)
    ]

-- 0 to 9, A to F or a to f.
abbrev pub IsHex : ℕ → Type 0
IsHex c = ((b'0' ≤ c) × (c ≤ b'9')) ⊎ ((b'A' ≤ c) × (c ≤ b'F')) ⊎ ((b'a' ≤ c) × (c ≤ b'f'))

-- Pairs of hexadecimal digits, each of the first `n` with a colon or a dash after it.
abbrev pub IsMac : (n : ℕ) → List ℕ → Type 0
IsMac zero (hi ∷ lo ∷ []) = IsHex hi × IsHex lo
IsMac (suc n) (hi ∷ lo ∷ sep ∷ rest) =
    IsHex hi × IsHex lo × ((sep ≡ b':') ⊎ (sep ≡ b'-')) × IsMac n rest
IsMac _ _ = ⊥

is_ascii_hexdigit-IsHex : (c : ℕ) → is_ascii_hexdigit c ≡ true → IsHex c
unfolding is_ascii_hexdigit
is_ascii_hexdigit-IsHex c h = ground arith

separates : (c : ℕ) → (c == b':' || c == b'-') ≡ true → (c ≡ b':') ⊎ (c ≡ b'-')
separates c h = ground arith

both_true : (a b : Bool) → (a && b) ≡ true → (a ≡ true) × (b ≡ true)
both_true a b h = ground arith

matches_groups-IsMac : (n : ℕ) (cs : List ℕ) → matches_groups n cs ≡ true → IsMac n cs
unfolding matches_groups
matches_groups-IsMac zero (hi ∷ lo ∷ []) h =
    let (a, b) = both_true _ _ h in (is_ascii_hexdigit-IsHex hi a, is_ascii_hexdigit-IsHex lo b)
matches_groups-IsMac (suc n) (hi ∷ lo ∷ sep ∷ rest) h =
    let (group, later) = both_true _ _ h in
    let (a, others) = both_true _ _ group in
    let (b, c) = both_true _ _ others in
    (
      is_ascii_hexdigit-IsHex hi a,
      is_ascii_hexdigit-IsHex lo b,
      separates sep c,
      matches_groups-IsMac n rest later,
    )
matches_groups-IsMac zero [] h = cc
matches_groups-IsMac zero (a ∷ []) h = cc
matches_groups-IsMac zero (a ∷ b ∷ c ∷ cs) h = cc
matches_groups-IsMac (suc n) [] h = cc
matches_groups-IsMac (suc n) (a ∷ []) h = cc
matches_groups-IsMac (suc n) (a ∷ b ∷ []) h = cc

-- An address that the pattern matches has six pairs of digits.
pub is_match-IsMac : (mac : String) → is_match mac ≡ true → IsMac 5 (codes mac)
unfolding is_match
is_match-IsMac mac h = matches_groups-IsMac 5 (codes mac) h
