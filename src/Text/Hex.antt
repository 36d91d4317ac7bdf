-- ===== src/Text/Hex.antt =====
-- Hexadecimal text: the tests /^0x[0-9a-fA-F]{n}$/ and /^0x[0-9a-fA-F]+$/.
use straitsx.Prelude.{
  ℕ, zero, suc, ◌≡◌, refl, Bool, true, false, ◌&&◌, ◌||◌, [], ◌∷◌, arith, leb, ◌==◌,
}
use straitsx.Text.{Text, lower, lower_code}
use straitsx.Text.BigInt.{is_digit}

unfoldable pub is_hex_digit : ℕ → Bool
unfolding is_digit
is_hex_digit c = is_digit c || (leb b'a' c && leb c b'f' || leb b'A' c && leb c b'F')

-- Exactly n hexadecimal digits.
unfoldable pub hex_digits : ℕ → Text → Bool
unfolding is_hex_digit
hex_digits zero [] = true
hex_digits zero (c ∷ s) = false
hex_digits (suc n) [] = false
hex_digits (suc n) (c ∷ s) = is_hex_digit c && hex_digits n s

unfoldable pub is_hex : ℕ → Text → Bool
unfolding hex_digits
is_hex n (z ∷ x ∷ s) = z == b'0' && x == b'x' && hex_digits n s
is_hex n s = false

lower-is_hex_digit : (c : ℕ) → is_hex_digit c ≡ true → is_hex_digit (lower_code c) ≡ true
unfolding is_hex_digit lower_code
lower-is_hex_digit c h = ground arith

lower-hex_digits : (n : ℕ) (s : Text) → hex_digits n s ≡ true → hex_digits n (lower s) ≡ true
unfolding hex_digits lower lower_code
lower-hex_digits zero [] h = refl
lower-hex_digits (suc n) (c ∷ s) h = ground (arith, lower-hex_digits n s, lower-is_hex_digit c)
lower-hex_digits zero (c ∷ s) h = cc
lower-hex_digits (suc n) [] h = cc

-- Lowercasing keeps a 0x-prefixed text well formed.
pub lower-is_hex : (n : ℕ) (s : Text) → is_hex n s ≡ true → is_hex n (lower s) ≡ true
unfolding is_hex lower lower_code
lower-is_hex n (z ∷ x ∷ s) h = ground (arith, lower-hex_digits n s)
lower-is_hex n (z ∷ []) h = cc
lower-is_hex n [] h = cc
