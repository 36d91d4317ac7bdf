-- ===== src/Text/BigInt/Hexadecimal.antt =====
-- n.toString(16) by its digits, and its reading back.
use straitsx.Prelude.{
  ℕ, zero, suc, ◌+◌, ◌-◌, ◌*◌, ◌<◌, ◌≡◌, refl, ◌∙◌, some, List, [], ◌∷◌, map, arith, ltb,
  if◌then◌else◌, All,
}
use straitsx.Text.{Text}
use straitsx.Text.BigInt.{is_digit, digit_value, value_from, number_in}

abbrev pub hex_char : ℕ → ℕ
hex_char d = if ltb d 10 then b'0' + d else b'a' + (d - 10)

-- What digits are worth after the number `acc`.
abbrev pub value16_from : ℕ → List ℕ → ℕ
value16_from acc [] = acc
value16_from acc (d ∷ digits) = value16_from (acc * 16 + d) digits

abbrev pub zeros16 : ℕ → Text → Text
zeros16 zero s = s
zeros16 (suc n) s = b'0' ∷ zeros16 n s

value_from-hex_char :
    (acc : ℕ) (digits : List ℕ)
    → All (λ d. d < 16) digits
    → value_from 16 acc (map hex_char digits) ≡ some (value16_from acc digits)
unfolding value_from digit_value is_digit
value_from-hex_char acc [] h = refl
value_from-hex_char acc (d ∷ digits) h =
    let rest = value_from-hex_char (acc * 16 + d) digits h.1 in ground (arith, rest, h.0)

value_from-zeros16 : (k : ℕ) (s : Text) → value_from 16 0 (zeros16 k s) ≡ value_from 16 0 s
unfolding value_from digit_value is_digit
value_from-zeros16 zero s = refl
value_from-zeros16 (suc k) s = value_from-zeros16 k s

-- Digits are read back as their number, also behind zeros.
pub number_in-hex_char :
    (k : ℕ) (digits : List ℕ) (d : ℕ)
    → All (λ d. d < 16) (d ∷ digits)
    → number_in 16 (zeros16 k (map hex_char (d ∷ digits))) ≡ some (value16_from 0 (d ∷ digits))
unfolding number_in
number_in-hex_char zero digits d h = value_from-hex_char 0 (d ∷ digits) h
number_in-hex_char (suc k) digits d h =
    value_from-zeros16 (suc k) (map hex_char (d ∷ digits)) ∙ value_from-hex_char 0 (d ∷ digits) h
