-- ===== src/Signer/Rail.antt =====
-- services/signer-service/src/sign/rail.ts: the seven refusals that stand before every signature.
pub mod Envelope
pub mod Pinned
use straitsx.Prelude.{
  ℕ, ◌+◌, ◌-◌, Bool, true, false, not, Option, none, some, ltb, ◌==◌, if◌then◌else◌, ℤ, pos, negsuc,
  ltb_ℤ, pos_part, neg_part,
}
use straitsx.Text.{Text, same}
use straitsx.Text.BigInt.{is_uint, number_in}
use straitsx.Dict.{Dict, get}
use straitsx.Contracts.Types.{PinnedMandate}

pub record RailInput : Type 0 where
  pub mandate_id : Text
  pub from : Text
  pub to : Text
  pub value : ℤ
  pub valid_after : ℕ
  pub valid_before : ℕ
  pub chain_id : ℕ

pub record RailConfig : Type 0 where
  pub pinned : Dict PinnedMandate
  pub signer_address : Text
  pub chain_id : ℕ
  pub has_seen_request_id : Text → Bool

-- The `code` of a refusal.
pub data Refusal : Type 0 where
  unpinned_mandate wrong_recipient ceiling wrong_from wrong_chain window replay : Refusal

-- `broken` is the exception on a pinned ceiling that is not a decimal string.
pub data RailResult : Type 0 where
  passed broken : RailResult
  refused : Refusal → RailResult

-- AppError.signerRefusal: 409 for a replay and 403 for the others.
unfoldable pub refusal_status : Refusal → ℕ
refusal_status replay = 409
refusal_status unpinned_mandate = 403
refusal_status _ = 403

-- packages/contracts/src/constants.ts
abbrev pub max_auth_window_seconds : ℕ
max_auth_window_seconds = 600

unfoldable pub parse_uint_as_big_int : Text → Option ℕ
parse_uint_as_big_int value = if is_uint value then number_in 10 value else none

-- The refusals after the ceiling is read. A validity window that ends before it starts has length 0
-- here and a negative length in the source: neither is above 600.
unfoldable pub check_limits : RailInput → Text → RailConfig → PinnedMandate → ℕ → RailResult
check_limits input request_id config entry hard_max =
    if ltb_ℤ (pos hard_max) input.value
    then refused ceiling
    else if not (same input.from config.signer_address)
    then refused wrong_from
    else if not (input.chain_id == config.chain_id)
    then refused wrong_chain
    else if ltb max_auth_window_seconds (input.valid_before - input.valid_after)
    then refused window
    else if config.has_seen_request_id request_id
    then refused replay
    else passed

unfoldable pub check_entry : RailInput → Text → RailConfig → PinnedMandate → RailResult
check_entry input request_id config entry =
    if not (same input.to entry.settlement_recipient)
    then refused wrong_recipient
    else elim (parse_uint_as_big_int entry.hard_max_total) [
      | none ↦ broken
      | some hard_max ↦ check_limits input request_id config entry hard_max
    ]

unfoldable pub check_rail : RailInput → Text → RailConfig → RailResult
check_rail input request_id config = elim (get input.mandate_id config.pinned) [
  | none ↦ refused unpinned_mandate
  | some entry ↦ check_entry input request_id config entry
]
