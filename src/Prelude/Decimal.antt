-- ===== src/Prelude/Decimal.antt =====
-- Unsigned numbers in decimal: `to_string` and `str::parse`.
use Prim.Native.Nat.{ℕ, zero, suc, ◌+◌, ◌-◌, ◌*◌, ◌/◌, ◌%◌, ◌<◌, ◌≤◌}
use Prim.Native.Char.{code}
use Prim.Native.String.{String}
use mathlib.Core.Path.{◌≡◌, refl, ap, ◌∙◌}
use mathlib.Core.Bool.{true, false}
use mathlib.Core.Option.{Option, none, some}
use mathlib.Core.List.{List, [], ◌∷◌, ◌++◌}
use native.Mathlib.Omega.{arith}
use text.Mathlib.TextLemmas.{nil-append, cons-append}
use wakezilla.Prelude.Tests.{ltb, leb, ◌==◌, if◌then◌else◌, Bool-cases, ltb→lt}
use mathlib.Core.Logic.{◌≢◌, inl, inr}
use wakezilla.Prelude.Lists.{All, All-append}
use wakezilla.Prelude.Text.{◌^^◌, codes, is_ascii_digit}

digit_text : ℕ → String
digit_text zero = "0"
digit_text (suc zero) = "1"
digit_text (suc (suc zero)) = "2"
digit_text (suc (suc (suc zero))) = "3"
digit_text (suc (suc (suc (suc zero)))) = "4"
digit_text (suc (suc (suc (suc (suc zero))))) = "5"
digit_text (suc (suc (suc (suc (suc (suc zero)))))) = "6"
digit_text (suc (suc (suc (suc (suc (suc (suc zero))))))) = "7"
digit_text (suc (suc (suc (suc (suc (suc (suc (suc zero)))))))) = "8"
digit_text (suc (suc (suc (suc (suc (suc (suc (suc (suc zero))))))))) = "9"
digit_text (suc (suc (suc (suc (suc (suc (suc (suc (suc (suc n)))))))))) = "9"

-- The digits of `n`, with a fuel above `n`.
show_from : ℕ → ℕ → String
show_from zero n = ""
show_from (suc f) n =
    let front = show_from f (n / 10) in
    if ltb n 10 then digit_text n else front ^^ digit_text (n % 10)

unfoldable pub show : ℕ → String
unfolding show_from digit_text
show n = show_from (n + 1) n

parse_digits : ℕ → List ℕ → Option ℕ
parse_digits acc [] = some acc
parse_digits acc (c ∷ cs) =
    let rest = parse_digits (acc * 10 + (c - b'0')) cs in if is_ascii_digit c then rest else none

in_range : ℕ → Option ℕ → Option ℕ
in_range max none = none
in_range max (some n) = if leb n max then some n else none

parse_codes : ℕ → List ℕ → Option ℕ
parse_codes max [] = none
parse_codes max (c ∷ []) = in_range max (parse_digits 0 (c ∷ []))
parse_codes max (c ∷ d ∷ cs) =
    if c == b'+'
    then in_range max (parse_digits 0 (d ∷ cs))
    else in_range max (parse_digits 0 (c ∷ d ∷ cs))

-- `s.parse::<uN>()` with `max` the largest value of the type: an optional `+`, then digits.
unfoldable pub parse_uint : ℕ → String → Option ℕ
unfolding parse_digits in_range parse_codes
parse_uint max s = parse_codes max (codes s)

-- An accepted number is in the range of its type.
pub parse_uint-le : (max : ℕ) (s : String) (n : ℕ) → parse_uint max s ≡ some n → n ≤ max
unfolding parse_uint
parse_uint-le max s n h = go (codes s) h
  where
    go : (cs : List ℕ) → parse_codes max cs ≡ some n → n ≤ max
    go [] e = ground arith
    go (c ∷ []) e = ground arith
    go (c ∷ d ∷ cs) e = ground arith

pub codes-append : (s t : String) → codes (s ^^ t) ≡ codes s ++ codes t
codes-append String.[] t = ap codes (nil-append t)
codes-append (String.◌∷◌ c s) t =
    ap codes (cons-append c s t) ∙ ap (λ r. code c ∷ r) (codes-append s t)

parse_digits-append :
    (acc : ℕ) (xs : List ℕ) (n c : ℕ)
    → parse_digits acc xs ≡ some n
    → is_ascii_digit c ≡ true
    → parse_digits acc (xs ++ c ∷ []) ≡ some (n * 10 + (c - b'0'))
unfolding parse_digits
parse_digits-append acc [] n c h d = ground arith
parse_digits-append acc (x ∷ xs) n c h d =
    ground (arith, parse_digits-append (acc * 10 + (x - b'0')) xs n c)

codes-digit_text : (d : ℕ) → d < 10 → codes (digit_text d) ≡ (d + b'0') ∷ []
unfolding digit_text
codes-digit_text zero h = refl
codes-digit_text (suc zero) h = refl
codes-digit_text (suc (suc zero)) h = refl
codes-digit_text (suc (suc (suc zero))) h = refl
codes-digit_text (suc (suc (suc (suc zero)))) h = refl
codes-digit_text (suc (suc (suc (suc (suc zero))))) h = refl
codes-digit_text (suc (suc (suc (suc (suc (suc zero)))))) h = refl
codes-digit_text (suc (suc (suc (suc (suc (suc (suc zero))))))) h = refl
codes-digit_text (suc (suc (suc (suc (suc (suc (suc (suc zero)))))))) h = refl
codes-digit_text (suc (suc (suc (suc (suc (suc (suc (suc (suc zero))))))))) h = refl
codes-digit_text (suc (suc (suc (suc (suc (suc (suc (suc (suc (suc n)))))))))) h =
    absurd (omega arith)

abbrev AreDigits : List ℕ → Type 0
AreDigits = All (λ c. is_ascii_digit c ≡ true)

is_ascii_digit-digit : (d : ℕ) → d < 10 → is_ascii_digit (d + b'0') ≡ true
is_ascii_digit-digit d h = ground arith

show_from-AreDigits : (f n : ℕ) → AreDigits (codes (show_from f n))
unfolding show_from
show_from-AreDigits zero n = tt
show_from-AreDigits (suc f) n = elim (Bool-cases (ltb n 10)) [
  | inl small ↦
      rw (small, codes-digit_text n (ltb→lt n 10 small))
        (is_ascii_digit-digit n (ltb→lt n 10 small), tt)
  | inr big ↦
      rw (big, codes-append, codes-digit_text (n % 10) (omega arith))
        (All-append (λ c. is_ascii_digit c ≡ true) (codes (show_from f (n / 10))) _
          (show_from-AreDigits f (n / 10)) (is_ascii_digit-digit (n % 10) (omega arith), tt))
]

parse_digits-show_from : (f n : ℕ) → n < f → parse_digits 0 (codes (show_from f n)) ≡ some n
unfolding show_from
parse_digits-show_from zero n h = elim h [ ]
parse_digits-show_from (suc f) n h = elim (Bool-cases (ltb n 10)) [
  | inl small ↦
      rw (small, codes-digit_text n (ltb→lt n 10 small)) (unfold parse_digits in ground arith)
  | inr big ↦
      rw
        (
          big,
          codes-append,
          codes-digit_text (n % 10) (omega arith),
          parse_digits-append 0 (codes (show_from f (n / 10))) (n / 10) (n % 10 + b'0')
              (parse_digits-show_from f (n / 10) (ground arith))
              (is_ascii_digit-digit (n % 10) (omega arith)),
        )
        (ap some (omega arith))
]

parse_codes-digits :
    (max n : ℕ) (cs : List ℕ)
    → AreDigits cs
    → cs ≢ []
    → parse_digits 0 cs ≡ some n
    → n ≤ max
    → parse_codes max cs ≡ some n
unfolding parse_codes in_range
parse_codes-digits max n [] d e p h = absurd (e refl)
parse_codes-digits max n (c ∷ []) d e p h = ground arith
parse_codes-digits max n (c ∷ c' ∷ cs) d e p h = ground arith

append-ne-nil : (xs : List ℕ) (y : ℕ) → (xs ++ y ∷ []) ≢ []
append-ne-nil [] y = cc
append-ne-nil (x ∷ xs) y = cc

codes-show_from-ne-nil : (f n : ℕ) → n < f → codes (show_from f n) ≢ []
unfolding show_from
codes-show_from-ne-nil zero n h = elim h [ ]
codes-show_from-ne-nil (suc f) n h = elim (Bool-cases (ltb n 10)) [
  | inl small ↦ rw (small, codes-digit_text n (ltb→lt n 10 small)) (append-ne-nil [] (n + b'0'))
  | inr big ↦
      rw (big, codes-append, codes-digit_text (n % 10) (omega arith))
        (append-ne-nil (codes (show_from f (n / 10))) (n % 10 + b'0'))
]

-- Every number in the range of the type is read back from its print.
pub parse_uint-show : (max n : ℕ) → n ≤ max → parse_uint max (show n) ≡ some n
unfolding parse_uint show
parse_uint-show max n h =
    parse_codes-digits max n (codes (show_from (n + 1) n)) (show_from-AreDigits (n + 1) n)
      (codes-show_from-ne-nil (n + 1) n (omega arith))
      (parse_digits-show_from (n + 1) n (omega arith)) h

codes-show_from :
    (f n : ℕ)
    → codes (show_from (suc f) n)
      ≡ (if ltb n 10 then (n + b'0') ∷ [] else codes (show_from f (n / 10)) ++ (n % 10 + b'0') ∷ [])
unfolding show_from
codes-show_from f n = elim (Bool-cases (ltb n 10)) [
  | inl small ↦ rw (small, codes-digit_text n (ltb→lt n 10 small))
  | inr big ↦ rw (big, codes-append, codes-digit_text (n % 10) (omega arith))
]

pub codes-show_one : (n : ℕ) → n < 10 → codes (show n) ≡ (n + b'0') ∷ []
unfolding show
codes-show_one n h =
    let e : n + 1 ≡ suc n = omega arith in
    let small : ltb n 10 ≡ true = ground arith in rw (e, codes-show_from, small)

pub codes-show_two :
    (n : ℕ) → 10 ≤ n → n < 100 → codes (show n) ≡ (n / 10 + b'0') ∷ (n % 10 + b'0') ∷ []
unfolding show
codes-show_two n h k =
    let e : n + 1 ≡ suc (suc (n - 1)) = omega arith in
    let big : ltb n 10 ≡ false = ground arith in
    let small : ltb (n / 10) 10 ≡ true = ground arith in
    rw (e, codes-show_from, big, codes-show_from, small)

pub codes-show_three :
    (n : ℕ)
    → 100 ≤ n
    → n < 1000
    → codes (show n) ≡ (n / 10 / 10 + b'0') ∷ (n / 10 % 10 + b'0') ∷ (n % 10 + b'0') ∷ []
unfolding show
codes-show_three n h k =
    let e : n + 1 ≡ suc (suc (suc (n - 2))) = omega arith in
    let big : ltb n 10 ≡ false = ground arith in
    let big' : ltb (n / 10) 10 ≡ false = ground arith in
    let small : ltb (n / 10 / 10) 10 ≡ true = ground arith in
    rw (e, codes-show_from, big, codes-show_from, big', codes-show_from, small)
