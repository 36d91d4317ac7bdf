-- ===== src/Contracts/Types.antt =====
-- packages/contracts/src/types.ts: the wire types. Numbers are natural; money, addresses and
-- hashes are strings.
use straitsx.Prelude.{ℕ, Bool, List}
use straitsx.Text.{Text}

-- The literal fields `scheme` and `extra.assetTransferMethod` have one value each and are left out.
pub record Extra : Type 0 where
  pub name : Text
  pub version : Text

pub record X402Requirements : Type 0 where
  pub x402_version : ℕ
  pub network : Text
  pub chain_id : ℕ
  pub amount : Text
  pub asset : Text
  pub pay_to : Text
  pub max_timeout_seconds : ℕ
  pub extra : Extra

-- X402Requirements without its version: the `accepts[]` entry that a payment satisfies.
pub record X402Accepted : Type 0 where
  pub network : Text
  pub chain_id : ℕ
  pub amount : Text
  pub asset : Text
  pub pay_to : Text
  pub max_timeout_seconds : ℕ
  pub extra : Extra

pub record Mandate : Type 0 where
  pub mandate_id : Text
  pub owner : Text
  pub agent_id : Text
  pub chain_id : ℕ
  pub asset : Text
  pub settlement_recipient : Text
  pub max_per_card : Text
  pub max_per_window : Text
  pub max_cards_per_window : ℕ
  pub window_seconds : ℕ
  pub max_auth_validity_seconds : ℕ
  pub expires_at : ℕ
  pub revoked : Bool
  pub intent_constraint : Text
  pub merchant_allowlist : List Text
  pub policy_version : ℕ

-- packages/contracts/src/resolvedItem.ts
pub record ResolvedItem : Type 0 where
  pub title : Text
  pub sku : Text
  pub price : Text
  pub merchant_domain : Text
  pub checkout_url : Text

-- One entry of the signer's pinned map.
pub record PinnedMandate : Type 0 where
  pub settlement_recipient : Text
  pub hard_max_total : Text

-- The message of the EIP-712 typed data; its type table is a constant.
pub record Authorization : Type 0 where
  pub from : Text
  pub to : Text
  pub value : Text
  pub valid_after : ℕ
  pub valid_before : ℕ
  pub nonce : Text

pub record Domain : Type 0 where
  pub name : Text
  pub version : Text
  pub chain_id : ℕ
  pub verifying_contract : Text

pub record TypedData : Type 0 where
  pub domain : Domain
  pub message : Authorization
