-- ===== src/Text/BigInt.antt =====
-- The built-ins `trim` and `BigInt(string)`, as the language defines them, and the test /^[0-9]+$/.
pub mod Uint
pub mod Decimal
pub mod Hexadecimal
use mathlib.Core.List.{reverse}
use straitsx.Prelude.{
  ℕ, zero, suc, ◌+◌, ◌-◌, ◌*◌, ◌≡◌, refl, Bool, true, false, ◌&&◌, ◌||◌, Option, none, some, [],
  ◌∷◌, leb, ltb, ◌==◌, if◌then◌else◌, ℤ, pos, negsuc, ◌>>=◌,
}
use straitsx.Text.{Text, codes}

-- White space and line terminators.
is_space : ℕ → Bool
is_space c =
    leb 9 c && leb c 13
    || c == 32
    || c == 0xA0
    || c == 0x1680
    || leb 0x2000 c && leb c 0x200A
    || c == 0x2028
    || c == 0x2029
    || c == 0x202F
    || c == 0x205F
    || c == 0x3000
    || c == 0xFEFF

trim_start : Text → Text
trim_start [] = []
trim_start (c ∷ s) = let rest = trim_start s in if is_space c then rest else c ∷ s

-- s.trim()
unfoldable pub trim : Text → Text
unfolding is_space trim_start
trim s = reverse (trim_start (reverse (trim_start s)))

unfoldable pub is_digit : ℕ → Bool
is_digit c = leb b'0' c && leb c b'9'

digit_value : ℕ → Option ℕ
unfolding is_digit
digit_value c =
    if is_digit c
    then some (c - b'0')
    else if leb b'a' c && leb c b'f'
    then some (c - b'a' + 10)
    else if leb b'A' c && leb c b'F'
    then some (c - b'A' + 10)
    else none

value_from : ℕ → ℕ → Text → Option ℕ
value_from base acc [] = some acc
value_from base acc (c ∷ s) = elim (digit_value c) [
  | none ↦ none
  | some d ↦ if ltb d base then value_from base (acc * base + d) s else none
]

-- The digits of a number in the given base, at least one of them.
unfoldable pub number_in : ℕ → Text → Option ℕ
unfolding value_from digit_value
number_in base [] = none
number_in base (c ∷ s) = value_from base 0 (c ∷ s)

abbrev negate : ℕ → ℤ
negate zero = pos 0
negate (suc n) = negsuc n

radix_literal : ℕ → Text → Option ℤ
radix_literal base s = do n ← number_in base s; some (pos n)

signed_literal : Text → Option ℤ
signed_literal [] = some (pos 0)
signed_literal (c ∷ s) =
    if c == b'-'
    then (do n ← number_in 10 s; some (negate n))
    else if c == b'+'
    then (do n ← number_in 10 s; some (pos n))
    else (do n ← number_in 10 (c ∷ s); some (pos n))

literal : Text → Option ℤ
unfolding radix_literal signed_literal
literal (z ∷ x ∷ s) =
    if z == b'0' && (x == b'x' || x == b'X')
    then radix_literal 16 s
    else if z == b'0' && (x == b'o' || x == b'O')
    then radix_literal 8 s
    else if z == b'0' && (x == b'b' || x == b'B')
    then radix_literal 2 s
    else signed_literal (z ∷ x ∷ s)
literal s = signed_literal s

-- BigInt(s): `none` is the SyntaxError that it throws.
unfoldable pub big_int : Text → Option ℤ
unfolding literal number_in trim
big_int s = literal (trim s)

-- /^[0-9]+$/.test(s)
unfoldable pub all_digits : Text → Bool
unfolding is_digit
all_digits [] = true
all_digits (c ∷ s) = is_digit c && all_digits s

unfoldable pub is_uint : Text → Bool
unfolding all_digits
is_uint [] = false
is_uint (c ∷ s) = all_digits (c ∷ s)

big_int_tests :
    (big_int (codes " 5000000 ") ≡ some (pos 5000000))
    × (big_int (codes "-12") ≡ some (negsuc 11))
    × (big_int (codes "0x10") ≡ some (pos 16))
    × (big_int (codes "") ≡ some (pos 0))
    × (big_int (codes "1e3") ≡ none)
unfolding big_int
big_int_tests = (refl, refl, refl, refl, refl)
