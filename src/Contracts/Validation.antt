-- ===== src/Contracts/Validation.antt =====
-- packages/contracts/src/validation.ts: the shared validators. The argument is a JSON value as far as
-- they read it: a string, or none for any other value; `none` as a result is the 400 that they throw.
use straitsx.Prelude.{ℕ, ◌≡◌, Bool, true, ◌||◌, Option, none, some, arith, ◌==◌, if◌then◌else◌}
use straitsx.Text.{Text, lower, lower_idempotent}
use straitsx.Text.BigInt.{is_uint}
use straitsx.Text.Hex.{is_hex, lower-is_hex}

unfoldable pub parse_address : Option Text → Option Text
parse_address none = none
parse_address (some raw) = if is_hex 40 raw then some (lower raw) else none

unfoldable pub parse_bytes32 : Option Text → Option Text
parse_bytes32 none = none
parse_bytes32 (some raw) = if is_hex 64 raw then some (lower raw) else none

-- parseMandateId and parseTxHash are the same test under other field names.
abbrev pub parse_mandate_id : Option Text → Option Text
parse_mandate_id raw = parse_bytes32 raw

unfoldable pub parse_uint : Option Text → Option Text
parse_uint none = none
parse_uint (some raw) = if is_uint raw then some raw else none

-- packages/contracts/src/constants.ts
unfoldable pub is_supported_chain_id : ℕ → Bool
is_supported_chain_id n = n == 43113 || n == 43114

-- The argument is Number(raw), of a JSON number or a numeric string; none stands for a value that is
-- missing, null or empty and for a Number that is not natural, which all are refused with 400.
unfoldable pub parse_chain_id : Option ℕ → Option ℕ
parse_chain_id none = none
parse_chain_id (some n) = if is_supported_chain_id n then some n else none

-- An accepted address is well formed, lowercase, and accepted again as it is.
pub parse_address_stable :
    (raw a : Text)
    → parse_address (some raw) ≡ some a
    → (is_hex 40 a ≡ true) × (lower a ≡ a) × (parse_address (some a) ≡ some a)
unfolding parse_address
parse_address_stable raw a h = ground (arith, lower-is_hex 40 raw, lower_idempotent raw)
