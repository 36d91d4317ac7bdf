-- ===== src/Text.antt =====
-- JavaScript strings as lists of UTF-16 code units, with the built-in operations the services use:
-- ===, truthiness, trim, toLowerCase (on ASCII text) and BigInt of a string.
pub mod BigInt
pub mod Hex
use Prim.Native.Char.{code}
use Prim.Native.String
use straitsx.Prelude.{
  ℕ, zero, suc, ◌+◌, ◌-◌, ◌*◌, ◌≡◌, refl, ◌↔◌, Bool, true, false, ◌&&◌, ◌||◌, Option, none, some,
  List, [], ◌∷◌, map, String, arith, leb, ltb, ◌==◌, if◌then◌else◌, ==_iff, ℤ, pos, negsuc, ◌>>=◌,
}

abbrev pub Text : Type 0
Text = List ℕ

-- A literal of the source.
abbrev pub codes : String → Text
codes String.[] = []
codes (String.◌∷◌ c s) = code c ∷ codes s

-- s === t
unfoldable pub same : Text → Text → Bool
same [] [] = true
same [] (d ∷ t) = false
same (c ∷ s) [] = false
same (c ∷ s) (d ∷ t) = c == d && same s t

pub same_iff : (s t : Text) → (same s t ≡ true) ↔ (s ≡ t)
unfolding same
same_iff [] [] = ground arith
same_iff [] (d ∷ t) = ground arith
same_iff (c ∷ s) [] = ground arith
same_iff (c ∷ s) (d ∷ t) = ground (arith, same_iff s t)

pub same_refl : (s : Text) → same s s ≡ true
same_refl s = (same_iff s s).1 refl

-- A string is falsy when it is empty.
abbrev pub truthy : Text → Bool
truthy [] = false
truthy (c ∷ s) = true

-- A field of a request body that `!field` rejects when it is absent or the empty string.
unfoldable pub present : Option Text → Option Text
present none = none
present (some []) = none
present (some (c ∷ s)) = some (c ∷ s)

-- toLowerCase, code unit by code unit, on ASCII text.
unfoldable pub lower_code : ℕ → ℕ
lower_code c = if leb b'A' c && leb c b'Z' then c + 32 else c

unfoldable pub lower : Text → Text
unfolding lower_code
lower = map lower_code

lower_code_idempotent : (c : ℕ) → lower_code (lower_code c) ≡ lower_code c
unfolding lower_code
lower_code_idempotent c = ground arith

pub lower_idempotent : (s : Text) → lower (lower s) ≡ lower s
unfolding lower
lower_idempotent [] = refl
lower_idempotent (c ∷ s) = ground (arith, lower_idempotent s, lower_code_idempotent c)
