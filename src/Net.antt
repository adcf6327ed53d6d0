-- ===== src/Net.antt =====
-- Addresses as the standard library prints and parses them, for the calls in src/web.rs,
-- src/proxy_server.rs and src/config.rs. A parser takes code points and returns what is left.
pub mod RoundTrip
use wakezilla.Prelude.{
  ltb, leb, ◌==◌, if◌then◌else◌, ◌^^◌, codes, is_ascii_digit, show, ℕ, zero, suc, ◌+◌, ◌-◌, ◌*◌,
  max, String, ◌≡◌, refl, Bool, true, false, not, ◌&&◌, ◌||◌, Option, none, some, List, [], ◌∷◌,
  ◌>>◌,
}

infixl 5 ◌>>=◌
abbrev pub ◌>>=◌ {ℓ} : {X Y : Type ℓ} → Option X → (next : X → Option Y) → Option Y
some parsed >>= next = next parsed
none >>= next = none

-- Ipv4Addr
pub record Ipv4 : Type 0 where
  pub a : ℕ
  pub b : ℕ
  pub c : ℕ
  pub d : ℕ

unfoldable pub ipv4_eq : Ipv4 → Ipv4 → Bool
ipv4_eq x y = x.a == y.a && (x.b == y.b && (x.c == y.c && x.d == y.d))

unfoldable pub ipv4_to_string : Ipv4 → String
ipv4_to_string x = show x.a ^^ ("." ^^ (show x.b ^^ ("." ^^ (show x.c ^^ ("." ^^ show x.d)))))

-- char::to_digit
unfoldable pub to_digit : ℕ → ℕ → Option ℕ
to_digit radix ch =
    let value : Option ℕ =
      if is_ascii_digit ch
      then some (ch - b'0')
      else if leb b'a' ch && leb ch b'z'
      then some (ch - b'a' + 10)
      else if leb b'A' ch && leb ch b'Z'
      then some (ch - b'A' + 10)
      else none in
    elim value [ none ↦ none | some v ↦ if ltb v radix then some v else none ]

-- The value, the number of digits and the rest.
unfoldable pub read_digits : (radix value count : ℕ) → List ℕ → ℕ × ℕ × List ℕ
read_digits radix value count [] = (value, count, [])
read_digits radix value count (ch ∷ cs) = elim (to_digit radix ch) [
  | none ↦ (value, count, ch ∷ cs)
  | some v ↦ read_digits radix (value * radix + v) (count + 1) cs
]

abbrev pub starts_with_zero : List ℕ → Bool
starts_with_zero [] = false
starts_with_zero (ch ∷ cs) = ch == b'0'

-- Parser::read_number, for a type whose largest value is `max`.
unfoldable pub read_number :
    (radix max_digits max : ℕ) (allow_zero_prefix : Bool) → List ℕ → Option (ℕ × List ℕ)
read_number radix max_digits max allow_zero_prefix cs =
    let (value, count, rest) = read_digits radix 0 0 cs in
    if count == 0 || ltb max_digits count || ltb max value
    then none
    else if not allow_zero_prefix && (starts_with_zero cs && ltb 1 count)
    then none
    else some (value, rest)

-- Parser::read_given_char
unfoldable pub read_given_char : ℕ → List ℕ → Option (List ℕ)
read_given_char wanted [] = none
read_given_char wanted (ch ∷ cs) = if ch == wanted then some cs else none

unfoldable pub read_octet : List ℕ → Option (ℕ × List ℕ)
read_octet cs = read_number 10 3 255 false cs

-- Parser::read_ipv4_addr
pub read_ipv4 : List ℕ → Option (Ipv4 × List ℕ)
unfolding read_given_char
read_ipv4 cs = do
  (a, cs) ← read_octet cs
  cs ← read_given_char b'.' cs
  (b, cs) ← read_octet cs
  cs ← read_given_char b'.' cs
  (c, cs) ← read_octet cs
  cs ← read_given_char b'.' cs
  (d, cs) ← read_octet cs
  some (record { a = a; b = b; c = c; d = d }, cs)

abbrev all_read {ℓ} : {A : Type ℓ} → A × List ℕ → Option A
all_read (a, []) = some a
all_read (a, ch ∷ cs) = none

-- s.parse::<Ipv4Addr>()
unfoldable pub parse_ipv4 : String → Option Ipv4
unfolding read_ipv4 read_octet read_number read_digits to_digit
parse_ipv4 s = read_ipv4 (codes s) >>= all_read

-- The separator before each group but the first, as `read_separator` reads it.
read_separator : ℕ → List ℕ → Option (List ℕ)
read_separator zero cs = some cs
read_separator (suc i) cs = read_given_char b':' cs

-- `read_groups` with `left` groups still to read, from the i-th on: how many have been read, whether
-- an IPv4 address ended them, and the rest.
read_groups : (left i : ℕ) → List ℕ → ℕ × Bool × List ℕ
read_groups zero i cs = (i, false, cs)
read_groups (suc left) i cs =
    let embedded : Option (Ipv4 × List ℕ) =
      if ltb 0 left then read_separator i cs >>= read_ipv4 else none in
    let group : Option (ℕ × List ℕ) = read_separator i cs >>= read_number 16 4 0xFFFF true in
    elim embedded [
      | some (v4, rest) ↦ (i + 2, true, rest)
      | none ↦ elim group [ none ↦ (i, false, cs) | some (g, rest) ↦ read_groups left (i + 1) rest ]
    ]

read_ipv6_tail : ℕ × Bool × List ℕ → Option (List ℕ)
read_ipv6_tail (head_size, head_ipv4, cs) =
    if head_size == 8 then some cs else if head_ipv4 then none else do
      cs ← read_given_char b':' cs
      cs ← read_given_char b':' cs
      let tail = read_groups (8 - (head_size + 1)) 0 cs
      some (tail.2)

-- Parser::read_ipv6_addr: what is left after an address.
unfoldable pub read_ipv6 : List ℕ → Option (List ℕ)
unfolding read_groups read_separator read_ipv6_tail read_ipv4 read_octet read_number read_digits
    to_digit
read_ipv6 cs = read_ipv6_tail (read_groups 8 0 cs)

abbrev is_done : Option (List ℕ) → Bool
is_done (some []) = true
is_done _ = false

-- s.parse::<IpAddr>().is_ok()
unfoldable pub is_ip_addr : String → Bool
unfolding read_ipv6
is_ip_addr s = elim (read_ipv4 (codes s)) [
  | some (v4, rest) ↦ is_done (some rest)
  | none ↦ is_done (read_ipv6 (codes s))
]

ip_tests :
    (is_ip_addr "192.168.0.1" ≡ true)
    × (is_ip_addr "192.168.00.1" ≡ false)
    × (is_ip_addr "256.1.1.1" ≡ false)
    × (is_ip_addr "fe80::1" ≡ true)
    × (is_ip_addr "::" ≡ true)
    × (is_ip_addr "::ffff:1.2.3.4" ≡ true)
    × (is_ip_addr "1:2:3:4:5:6:7:8" ≡ true)
    × (is_ip_addr "1:2:3:4:5:6:7" ≡ false)
    × (is_ip_addr "1::2::3" ≡ false)
unfolding is_ip_addr
ip_tests = (refl, refl, refl, refl, refl, refl, refl, refl, refl)
