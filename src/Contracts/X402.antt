-- ===== src/Contracts/X402.antt =====
-- packages/contracts/src/x402.ts: the parser of a 402 challenge. `none` is the error it throws.
pub mod Allowlist
use straitsx.Prelude.{ℕ, Option, none, some, if◌then◌else◌, ◌>>=◌}
use straitsx.Text.{Text, codes, same, present}
use straitsx.Text.BigInt.{is_uint}
use straitsx.Contracts.Json.{Json, member, as_object, as_string, as_finite, first_item}
use straitsx.Contracts.Types.{X402Requirements}

-- requireString
unfoldable pub require_string : Option Json → Option Text
require_string raw = do v ← raw; s ← as_string v; present (some s)

-- requireNumber
unfoldable pub require_number : Option Json → Option ℕ
require_number raw = do v ← raw; as_finite v

-- requireUintString
unfoldable pub require_uint_string : Option Json → Option Text
require_uint_string raw = do v ← raw; s ← as_string v; if is_uint s then some s else none

-- A string field whose value must be this one.
unfoldable pub require_literal : Text → Option Json → Option Text
unfolding require_string
require_literal expected raw = do s ← require_string raw; if same s expected then some s else none

-- The requirements of an entry and its `extra`, with the version of the body.
unfoldable pub requirements_of : Json → Json → Json → Option X402Requirements
unfolding require_number require_string require_uint_string
requirements_of raw a extra = do
  x402_version ← require_number (member (codes "x402Version") raw)
  network ← require_string (member (codes "network") a)
  chain_id ← require_number (member (codes "chainId") a)
  amount ← require_uint_string (member (codes "amount") a)
  asset ← require_string (member (codes "asset") a)
  pay_to ← require_string (member (codes "payTo") a)
  max_timeout_seconds ← require_number (member (codes "maxTimeoutSeconds") a)
  name ← require_string (member (codes "name") extra)
  version ← require_string (member (codes "version") extra)
  some (record {
    x402_version = x402_version;
    network = network;
    chain_id = chain_id;
    amount = amount;
    asset = asset;
    pay_to = pay_to;
    max_timeout_seconds = max_timeout_seconds;
    extra = record { name = name; version = version };
  })

-- From the entry on.
unfoldable pub parse_entry : Json → Json → Option X402Requirements
unfolding requirements_of require_literal
parse_entry raw a = do
  scheme ← require_literal (codes "exact") (member (codes "scheme") a)
  extra_raw ← member (codes "extra") a
  extra ← as_object extra_raw
  asset_transfer_method ←
      require_literal (codes "eip3009") (member (codes "assetTransferMethod") extra)
  requirements_of raw a extra

-- parseX402Challenge
unfoldable pub parse_x402_challenge : Json → Option X402Requirements
unfolding parse_entry
parse_x402_challenge body = do
  raw ← as_object body
  accepts ← member (codes "accepts") raw
  entry ← first_item accepts
  a ← as_object entry
  parse_entry raw a
