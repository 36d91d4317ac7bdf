-- ===== src/Contracts/X402/Allowlist.antt =====
-- What the parser of a challenge keeps, and what it cannot be told.
use straitsx.Prelude.{
  step_of, ℕ, ◌≡◌, refl, true, false, Option, none, some, List, [], ◌∷◌, All, arith, pos,
}
use straitsx.Text.{Text, codes, same}
use straitsx.Text.BigInt.{big_int, is_uint, number_in}
use straitsx.Text.BigInt.Uint.{big_int-uint}
use straitsx.Contracts.Types.{X402Requirements}
use straitsx.Contracts.Json.{
  Json, Items, Fields, object, array, item, field, member, lookup, lookup-other, as_object,
  as_string, first_item,
}
use straitsx.Contracts.X402.{
  require_uint_string, require_literal, requirements_of, parse_entry, parse_x402_challenge,
}

abbrev body_keys : List Text
body_keys = codes "x402Version" ∷ codes "accepts" ∷ []

abbrev entry_keys : List Text
entry_keys =
    codes "scheme"
    ∷ codes "extra"
    ∷ codes "network"
    ∷ codes "chainId"
    ∷ codes "amount"
    ∷ codes "asset"
    ∷ codes "payTo"
    ∷ codes "maxTimeoutSeconds"
    ∷ []

abbrev extra_keys : List Text
extra_keys = codes "assetTransferMethod" ∷ codes "name" ∷ codes "version" ∷ []

-- The key is none of these.
abbrev pub IsOther : Text → List Text → Type 0
IsOther k keys = All (λ key. same k key ≡ false) keys

-- A body whose first entry and whose entry's extra are these.
abbrev pub body_with : Fields → Items → Fields → Fields
body_with entry rest fields = field (codes "accepts") (array (item (object entry) rest)) fields

abbrev pub entry_with : Fields → Fields → Fields
entry_with extra entry = field (codes "extra") (object extra) entry

module _ (k : Text) (v : Json) (fields entry extra : Fields) (rest : Items) where
  other_in_body :
      IsOther k body_keys
      → parse_x402_challenge (object (field k v fields)) ≡ parse_x402_challenge (object fields)
  unfolding parse_x402_challenge parse_entry requirements_of member
  other_in_body h = rw (lookup-other _ k v fields h.0, lookup-other _ k v fields h.1.0) refl

  other_in_entry :
      IsOther k entry_keys
      → parse_x402_challenge (object (body_with (field k v entry) rest fields))
        ≡ parse_x402_challenge (object (body_with entry rest fields))
  unfolding parse_x402_challenge parse_entry requirements_of member lookup same
  other_in_entry h =
      rw
        (
          lookup-other _ k v entry h.0,
          lookup-other _ k v entry h.1.0,
          lookup-other _ k v entry h.1.1.0,
          lookup-other _ k v entry h.1.1.1.0,
          lookup-other _ k v entry h.1.1.1.1.0,
          lookup-other _ k v entry h.1.1.1.1.1.0,
          lookup-other _ k v entry h.1.1.1.1.1.1.0,
          lookup-other _ k v entry h.1.1.1.1.1.1.1.0,
        )
        refl

  other_in_extra :
      IsOther k extra_keys
      → parse_x402_challenge (object (body_with (entry_with (field k v extra) entry) rest fields))
        ≡ parse_x402_challenge (object (body_with (entry_with extra entry) rest fields))
  unfolding parse_x402_challenge parse_entry requirements_of member lookup same
  other_in_extra h =
      rw
        (
          lookup-other _ k v extra h.0,
          lookup-other _ k v extra h.1.0,
          lookup-other _ k v extra h.1.1.0,
        )
        refl

  -- The parser is an allowlist: a key that it does not name, with whatever value, changes nothing,
  -- whether it stands in the body, in the entry that is read or in that entry's extra.
  pub parse_x402_challenge-IsOther :
      IsOther k body_keys
      → IsOther k entry_keys
      → IsOther k extra_keys
      → (parse_x402_challenge (object (field k v fields)) ≡ parse_x402_challenge (object fields))
        × (parse_x402_challenge (object (body_with (field k v entry) rest fields))
            ≡ parse_x402_challenge (object (body_with entry rest fields)))
        × (parse_x402_challenge
              (object (body_with (entry_with (field k v extra) entry) rest fields))
            ≡ parse_x402_challenge (object (body_with (entry_with extra entry) rest fields)))
  parse_x402_challenge-IsOther a b c = (other_in_body a, other_in_entry b, other_in_extra c)

require_uint_string-is_uint :
    (raw : Option Json) (s : Text) → require_uint_string raw ≡ some s → is_uint s ≡ true
unfolding require_uint_string
require_uint_string-is_uint none s h = absurd (cc h)
require_uint_string-is_uint (some v) s h = ground (arith, as_string v)

requirements_of-amount :
    (raw a extra : Json) (r : X402Requirements)
    → requirements_of raw a extra ≡ some r
    → is_uint r.amount ≡ true
unfolding requirements_of
requirements_of-amount raw a extra r h =
    ground (arith, require_uint_string-is_uint (member (codes "amount") a) r.amount)

parse_entry-amount :
    (raw a : Json) (r : X402Requirements) → parse_entry raw a ≡ some r → is_uint r.amount ≡ true
unfolding parse_entry
parse_entry-amount raw a r h =
    let (scheme, e0, h0) =
      step_of (require_literal (codes "exact") (member (codes "scheme") a)) _ r h in
    let (extra_raw, e1, h1) = step_of (member (codes "extra") a) _ r h0 in
    let (extra, e2, h2) = step_of (as_object extra_raw) _ r h1 in
    let (method, e3, h3) =
      step_of (require_literal (codes "eip3009") (member (codes "assetTransferMethod") extra)) _ r
        h2 in
    requirements_of-amount raw a extra r h3

-- The amount of a challenge that the parser accepts is a string of digits, so that BigInt reads it
-- and gives its decimal value: no later reading of it throws, and none is negative.
pub parse_x402_challenge-amount :
    (body : Json) (r : X402Requirements)
    → parse_x402_challenge body ≡ some r
    → (n : ℕ) × (number_in 10 r.amount ≡ some n) × (big_int r.amount ≡ some (pos n))
unfolding parse_x402_challenge
parse_x402_challenge-amount body r h =
    let (raw, e0, h0) = step_of (as_object body) _ r h in
    let (accepts, e1, h1) = step_of (member (codes "accepts") raw) _ r h0 in
    let (entry, e2, h2) = step_of (first_item accepts) _ r h1 in
    let (a, e3, h3) = step_of (as_object entry) _ r h2 in
    big_int-uint r.amount (parse_entry-amount raw a r h3)
