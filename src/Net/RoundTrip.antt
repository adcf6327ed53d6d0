-- ===== src/Net/RoundTrip.antt =====
-- IPv4 addresses are read back from their print.
use wakezilla.Prelude.{
  codes, show, codes-append, codes-show_one, codes-show_two, codes-show_three, ℕ, ◌+◌, ◌*◌, ◌/◌,
  ◌%◌, ◌<◌, ◌≡◌, ◌⊎◌, inl, inr, some, List, [], ◌∷◌, ◌++◌, append-nil, arith, refl,
}
use native.Mathlib.Decide.{dec_lt}
use wakezilla.Net.{
  read_octet, read_number, read_digits, to_digit, Ipv4, ipv4_to_string, parse_ipv4, read_ipv4,
}

-- Nothing, or a dot and more.
abbrev Ends : List ℕ → Type 0
Ends rest = (rest ≡ []) ⊎ ((r : List ℕ) × (rest ≡ b'.' ∷ r))

read_digits-end : (v k : ℕ) (rest : List ℕ) → Ends rest → read_digits 10 v k rest ≡ (v, k, rest)
unfolding read_digits to_digit
read_digits-end v k rest (inl e) = rw e
read_digits-end v k rest (inr (r, e)) = rw e

to_digit-digit : (d : ℕ) → d < 10 → to_digit 10 (d + b'0') ≡ some d
unfolding to_digit
to_digit-digit d h = ground arith

read_digits-digit :
    (v k d : ℕ) (rest : List ℕ)
    → d < 10
    → read_digits 10 v k ((d + b'0') ∷ rest) ≡ read_digits 10 (v * 10 + d) (k + 1) rest
unfolding read_digits
read_digits-digit v k d rest h = rw (to_digit-digit d h, read_digits)

read_octet-show :
    (n : ℕ) (rest : List ℕ)
    → n < 256
    → Ends rest
    → read_octet (codes (show n) ++ rest) ≡ some (n, rest)
unfolding read_octet read_number
read_octet-show n rest h end = elim (dec_lt n 10) [
  | yes one ↦
      rw (codes-show_one n one, read_digits-digit 0 0 n rest one, read_digits-end _ _ rest end)
        (ground arith)
  | no more ↦ elim (dec_lt n 100) [
    | yes two ↦
        rw
          (
            codes-show_two n (omega arith) two,
            read_digits-digit 0 0 (n / 10) _ (omega arith),
            read_digits-digit _ _ (n % 10) rest (omega arith),
            read_digits-end _ _ rest end,
          )
          (ground arith)
    | no three ↦
        rw
          (
            codes-show_three n (omega arith) (omega arith),
            read_digits-digit 0 0 (n / 10 / 10) _ (omega arith),
            read_digits-digit _ _ (n / 10 % 10) _ (omega arith),
            read_digits-digit _ _ (n % 10) rest (omega arith),
            read_digits-end _ _ rest end,
          )
          (ground arith)
  ]
]

read_ipv4_parts :
    (a b c d : ℕ) (s t u v rest : List ℕ)
    → read_octet s ≡ some (a, b'.' ∷ t)
    → read_octet t ≡ some (b, b'.' ∷ u)
    → read_octet u ≡ some (c, b'.' ∷ v)
    → read_octet v ≡ some (d, rest)
    → read_ipv4 s ≡ some (record { a = a; b = b; c = c; d = d }, rest)
unfolding read_ipv4
read_ipv4_parts a b c d s t u v rest p q r w = rw (p, q, r, w)

codes-ipv4_to_string :
    (x : Ipv4)
    → codes (ipv4_to_string x)
      ≡ codes (show x.a)
        ++ (b'.' ∷ (codes (show x.b) ++ (b'.' ∷ (codes (show x.c) ++ (b'.' ∷ codes (show x.d))))))
unfolding ipv4_to_string
codes-ipv4_to_string x = simp codes-append

-- An address of four bytes is read back from its print.
pub parse_ipv4-ipv4_to_string :
    (x : Ipv4)
    → (x.a < 256) × (x.b < 256) × (x.c < 256) × (x.d < 256)
    → parse_ipv4 (ipv4_to_string x) ≡ some x
unfolding parse_ipv4
parse_ipv4-ipv4_to_string x (ha, hb, hc, hd) =
    let last : read_octet (codes (show x.d)) ≡ some (x.d, []) =
      rw append-nil at (read_octet-show x.d [] hd (inl refl)) in
    let end = codes (show x.d) in
    let back = codes (show x.c) ++ (b'.' ∷ end) in
    let more = codes (show x.b) ++ (b'.' ∷ back) in
    let read =
      read_ipv4_parts x.a x.b x.c x.d (codes (show x.a) ++ (b'.' ∷ more)) more back end []
        (read_octet-show x.a (b'.' ∷ more) ha (inr (more, refl)))
        (read_octet-show x.b (b'.' ∷ back) hb (inr (back, refl)))
        (read_octet-show x.c (b'.' ∷ end) hc (inr (end, refl))) last in
    rw (codes-ipv4_to_string, read)
