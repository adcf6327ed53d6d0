-- ===== src/Wol/Mac.antt =====
-- Addresses: what `parse_mac` accepts and what it returns.
use wakezilla.Prelude.{
  ltb, ◌==◌, if◌then◌else◌, ==_iff, Bool-cases, length, filter, All, codes, is_ascii_hexdigit, ok,
  err, ℕ, zero, suc, ◌+◌, ◌-◌, ◌/◌, ◌%◌, ◌<◌, String, ◌≡◌, refl, ap, ◌≢◌, ◌⊎◌, inl, inr, Bool, true,
  false, List, [], ◌∷◌, arith,
}
use wakezilla.Wol.{parse_pairs, hex_value, hex_digits, parse_mac, expected_12_digits}

abbrev pub IsByte : ℕ → Type 0
IsByte x = x < 256

hex_value-lt : (c : ℕ) → is_ascii_hexdigit c ≡ true → hex_value c < 16
unfolding hex_value is_ascii_hexdigit
hex_value-lt c h = ground arith

abbrev AreHex : List ℕ → Type 0
AreHex = All (λ c. is_ascii_hexdigit c ≡ true)

parse_pairs-IsByte : (xs : List ℕ) → AreHex xs → All IsByte (parse_pairs xs)
unfolding parse_pairs
parse_pairs-IsByte (hi ∷ lo ∷ rest) (h, (k, r)) =
    (omega (arith, hex_value-lt hi h, hex_value-lt lo k), parse_pairs-IsByte rest r)
parse_pairs-IsByte (hi ∷ []) h = tt
parse_pairs-IsByte [] h = tt

length-parse_pairs : (n : ℕ) (xs : List ℕ) → length xs ≡ n + n → length (parse_pairs xs) ≡ n
unfolding parse_pairs
length-parse_pairs zero [] h = refl
length-parse_pairs zero (x ∷ xs) h = absurd (omega arith)
length-parse_pairs (suc n) [] h = absurd (omega arith)
length-parse_pairs (suc n) (x ∷ []) h = absurd (omega arith)
length-parse_pairs (suc n) (x ∷ y ∷ xs) h = ap suc (length-parse_pairs n xs (omega arith))

filter_satisfies : (p : ℕ → Bool) (xs : List ℕ) → All (λ c. p c ≡ true) (filter p xs)
filter_satisfies p [] = tt
filter_satisfies p (x ∷ xs) = elim (Bool-cases (p x)) [
  | inl yes' ↦ rw yes' (yes', filter_satisfies p xs)
  | inr no' ↦ rw no' (filter_satisfies p xs)
]

-- A text is accepted exactly when it has twelve hexadecimal digits among its characters, and what is
-- returned is six bytes.
pub parse_mac_iff :
    (s : String)
    → ((length (hex_digits s) ≡ 12)
        × ((mac : List ℕ) × (parse_mac s ≡ ok mac) × (length mac ≡ 6) × All IsByte mac))
      ⊎ ((length (hex_digits s) ≢ 12)
          × (parse_mac s ≡ err (expected_12_digits (length (hex_digits s)))))
unfolding parse_mac
parse_mac_iff s = elim (Bool-cases (length (hex_digits s) == 12)) [
  | inl long ↦
      let e = (==_iff _ _).0 long in
      inl (
        e,
        (
          parse_pairs (hex_digits s),
          rw long,
          length-parse_pairs 6 (hex_digits s) (omega arith),
          parse_pairs-IsByte (hex_digits s)
              (unfold hex_digits in filter_satisfies is_ascii_hexdigit (codes s)),
        ),
      )
  | inr short ↦ inr (ground arith, rw short)
]

-- `{:x}` of a number below 16.
abbrev hex_char : ℕ → ℕ
hex_char d = if ltb d 10 then d + b'0' else d - 10 + b'a'

-- The bytes as `{:02x}`, each but the first with the separator before it.
abbrev pub format_mac : ℕ → List ℕ → List ℕ
format_mac sep [] = []
format_mac sep (b ∷ []) = hex_char (b / 16) ∷ hex_char (b % 16) ∷ []
format_mac sep (b ∷ c ∷ mac) =
    hex_char (b / 16) ∷ hex_char (b % 16) ∷ sep ∷ format_mac sep (c ∷ mac)

hex_char_lem :
    (d : ℕ) → d < 16 → (is_ascii_hexdigit (hex_char d) ≡ true) × (hex_value (hex_char d) ≡ d)
unfolding hex_value is_ascii_hexdigit
hex_char_lem d h = ground arith

-- The digits of a printed address, without its separators.
abbrev digits_of : List ℕ → List ℕ
digits_of [] = []
digits_of (b ∷ mac) = hex_char (b / 16) ∷ hex_char (b % 16) ∷ digits_of mac

filter-format_mac :
    (sep : ℕ) (mac : List ℕ)
    → is_ascii_hexdigit sep ≡ false
    → All IsByte mac
    → filter is_ascii_hexdigit (format_mac sep mac) ≡ digits_of mac
filter-format_mac sep [] h k = refl
filter-format_mac sep (b ∷ []) h k =
    rw ((hex_char_lem (b / 16) (omega arith)).0, (hex_char_lem (b % 16) (omega arith)).0)
filter-format_mac sep (b ∷ c ∷ mac) h k =
    rw ((hex_char_lem (b / 16) (omega arith)).0, (hex_char_lem (b % 16) (omega arith)).0, h)
      (ap (λ r. hex_char (b / 16) ∷ hex_char (b % 16) ∷ r) (filter-format_mac sep (c ∷ mac) h k.1))

parse_pairs-digits_of : (mac : List ℕ) → All IsByte mac → parse_pairs (digits_of mac) ≡ mac
unfolding parse_pairs
parse_pairs-digits_of [] h = refl
parse_pairs-digits_of (b ∷ mac) h =
    rw
      (
        (hex_char_lem (b / 16) (omega arith)).1,
        (hex_char_lem (b % 16) (omega arith)).1,
        parse_pairs-digits_of mac h.1,
      )
      (ap (λ n. n ∷ mac) (omega arith))

length-digits_of : (mac : List ℕ) → length (digits_of mac) ≡ length mac + length mac
length-digits_of [] = omega arith
length-digits_of (b ∷ mac) = omega (arith, length-digits_of mac)

-- Six bytes printed in hexadecimal, with any separator that is no hexadecimal digit, are read back.
pub parse_mac-format_mac :
    (s : String) (sep : ℕ) (mac : List ℕ)
    → is_ascii_hexdigit sep ≡ false
    → length mac ≡ 6
    → All IsByte mac
    → codes s ≡ format_mac sep mac
    → parse_mac s ≡ ok mac
unfolding parse_mac
parse_mac-format_mac s sep mac h six bytes e =
    let digits : hex_digits s ≡ digits_of mac =
      unfold hex_digits in rw e (filter-format_mac sep mac h bytes) in
    let long : (length (digits_of mac) == 12) ≡ true = ground (arith, length-digits_of mac) in
    rw (digits, long, parse_pairs-digits_of mac bytes)
