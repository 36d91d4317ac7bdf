-- ===== src/Text/BigInt/Uint.antt =====
-- BigInt of a string of decimal digits.
use mathlib.Core.List.{reverse, reverse-cons, reverse-reverse}
use straitsx.Prelude.{ℕ, ◌+◌, ◌-◌, ◌*◌, ◌≡◌, refl, true, false, some, [], ◌∷◌, ◌++◌, arith, pos}
use straitsx.Text.{Text}
use straitsx.Text.BigInt.{
  is_space, trim_start, trim, is_digit, digit_value, value_from, number_in, literal, signed_literal,
  big_int, all_digits, is_uint,
}

is_digit-is_space : (c : ℕ) → is_digit c ≡ true → is_space c ≡ false
unfolding is_digit is_space
is_digit-is_space c h = ground arith

trim_start-digit : (c : ℕ) (s : Text) → is_digit c ≡ true → trim_start (c ∷ s) ≡ c ∷ s
unfolding trim_start
trim_start-digit c s h = rw (is_digit-is_space c h) refl

all_digits-append :
    (s t : Text) → all_digits s ≡ true → all_digits t ≡ true → all_digits (s ++ t) ≡ true
unfolding all_digits
all_digits-append [] t h k = k
all_digits-append (c ∷ s) t h k = ground (arith, all_digits-append s t)

trim_start-digits : (s : Text) → all_digits s ≡ true → trim_start s ≡ s
unfolding all_digits trim_start
trim_start-digits [] h = refl
trim_start-digits (c ∷ s) h = ground (arith, is_digit-is_space c)

all_digits-reverse : (s : Text) → all_digits s ≡ true → all_digits (reverse s) ≡ true
unfolding all_digits
all_digits-reverse [] h = refl
all_digits-reverse (c ∷ s) h =
    rw (reverse-cons c s)
      (all_digits-append (reverse s) (c ∷ []) (all_digits-reverse s (ground arith)) (ground arith))

trim-digits : (s : Text) → all_digits s ≡ true → trim s ≡ s
unfolding trim
trim-digits s h =
    rw (trim_start-digits s h)
      (rw (trim_start-digits (reverse s) (all_digits-reverse s h)) (reverse-reverse s))

value_from-digits :
    (s : Text) (acc : ℕ) → all_digits s ≡ true → (n : ℕ) × (value_from 10 acc s ≡ some n)
unfolding value_from all_digits digit_value is_digit
value_from-digits [] acc h = (acc, refl)
value_from-digits (c ∷ s) acc h =
    let (n, e) = value_from-digits s (acc * 10 + (c - b'0')) (ground arith) in
    (n, ground (arith, e))

literal-digits :
    (s : Text) (n : ℕ) → is_uint s ≡ true → number_in 10 s ≡ some n → literal s ≡ some (pos n)
unfolding literal signed_literal is_uint all_digits is_digit
literal-digits [] n h e = absurd (cc h)
literal-digits (c ∷ []) n h e = ground (arith, e)
literal-digits (c ∷ d ∷ s) n h e = ground (arith, e)

-- A string of digits is a number to BigInt, and never negative.
pub big_int-uint :
    (s : Text) → is_uint s ≡ true → (n : ℕ) × (number_in 10 s ≡ some n) × (big_int s ≡ some (pos n))
unfolding is_uint number_in big_int
big_int-uint [] h = absurd (cc h)
big_int-uint (c ∷ s) h =
    let (n, e) = value_from-digits (c ∷ s) 0 h in
    (n, e, rw (trim-digits (c ∷ s) h) (literal-digits (c ∷ s) n h e))
