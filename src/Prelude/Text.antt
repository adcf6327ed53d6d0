-- ===== src/Prelude/Text.antt =====
-- Texts: their code points, and the functions on `char` and `str` that the program uses.
use Prim.Native.Nat.{ℕ, ◌+◌}
use Prim.Native.Char.{code}
use Prim.Native.String
use Prim.Native.String.{String}
use mathlib.Core.Path.{◌≡◌, refl}
use mathlib.Core.Bool.{Bool, true, false, ◌||◌, ◌&&◌}
use mathlib.Core.List.{List, [], ◌∷◌, reverse, map}
use native.Mathlib.Omega.{arith}
use wakezilla.Prelude.Tests.{leb, ◌==◌, if◌then◌else◌}
use wakezilla.Prelude.Lists.{all}
pub use text.Mathlib.Text.{◌==◌ as str_eq, starts_with}
use text.Mathlib.TextEquality.{Char-path}
pub use text.Mathlib.TextEquality.{eq_iff}
pub use text.Mathlib.TextPositions.{eq_refl}

infixr 60 ◌^^◌
abbrev pub ◌^^◌ : String → String → String
s ^^ t = String.◌++◌ s t

-- str::chars
abbrev pub codes : (text : String) → List ℕ
codes String.[] = []
codes (String.◌∷◌ first rest) = code first ∷ codes rest

-- char::is_ascii_digit
abbrev pub is_ascii_digit : ℕ → Bool
is_ascii_digit c = leb b'0' c && leb c b'9'

-- char::is_ascii_hexdigit
unfoldable pub is_ascii_hexdigit : ℕ → Bool
is_ascii_hexdigit c = is_ascii_digit c || (leb b'a' c && leb c b'f') || (leb b'A' c && leb c b'F')

-- char::to_ascii_lowercase
unfoldable pub to_ascii_lowercase : ℕ → ℕ
to_ascii_lowercase c = if leb b'A' c && leb c b'Z' then c + 32 else c

-- char::is_whitespace, the property White_Space of Unicode.
unfoldable pub is_whitespace : ℕ → Bool
is_whitespace c =
    (leb 9 c && leb c 13)
    || c == 32
    || c == 0x85
    || c == 0xA0
    || c == 0x1680
    || (leb 0x2000 c && leb c 0x200A)
    || c == 0x2028
    || c == 0x2029
    || c == 0x202F
    || c == 0x205F
    || c == 0x3000

-- s.trim().is_empty()
unfoldable pub is_blank : String → Bool
unfolding is_whitespace
is_blank s = all is_whitespace (codes s)

-- Equality of sequences of code points.
unfoldable pub codes_eq : List ℕ → List ℕ → Bool
codes_eq [] [] = true
codes_eq (x ∷ xs) (y ∷ ys) = x == y && codes_eq xs ys
codes_eq [] (y ∷ ys) = false
codes_eq (x ∷ xs) [] = false

pub eq_of_codes_eq : (xs ys : List ℕ) → codes_eq xs ys ≡ true → xs ≡ ys
unfolding codes_eq
eq_of_codes_eq [] [] h = refl
eq_of_codes_eq (x ∷ xs) (y ∷ ys) h = ground (arith, eq_of_codes_eq xs ys)
eq_of_codes_eq [] (y ∷ ys) h = ground arith
eq_of_codes_eq (x ∷ xs) [] h = ground arith

pub codes_eq_refl : (xs : List ℕ) → codes_eq xs xs ≡ true
unfolding codes_eq
codes_eq_refl [] = refl
codes_eq_refl (x ∷ xs) = ground (arith, codes_eq_refl xs)

-- A text is determined by its code points.
pub codes_injective : (s t : String) → codes s ≡ codes t → s ≡ t
codes_injective String.[] String.[] e = refl
codes_injective String.[] (String.◌∷◌ d t) e = cc
codes_injective (String.◌∷◌ c s) String.[] e = cc
codes_injective (String.◌∷◌ c s) (String.◌∷◌ d t) e =
    let head : c ≡ d = Char-path c d (ground arith) in
    let tail : s ≡ t = codes_injective s t (ground arith) in λ i. String.◌∷◌ (head i) (tail i)

drop_whitespace : List ℕ → List ℕ
drop_whitespace [] = []
drop_whitespace (c ∷ cs) = let rest = drop_whitespace cs in if is_whitespace c then rest else c ∷ cs

-- str::trim, on code points.
unfoldable pub trim : List ℕ → List ℕ
unfolding drop_whitespace is_whitespace
trim cs = reverse (drop_whitespace (reverse (drop_whitespace cs)))

-- s.to_ascii_lowercase() == t, where `s` is given by its code points.
unfoldable pub is_lowercase_of : List ℕ → String → Bool
unfolding codes_eq to_ascii_lowercase
is_lowercase_of cs t = codes_eq (map to_ascii_lowercase cs) (codes t)
