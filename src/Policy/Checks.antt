-- ===== src/Policy/Checks.antt =====
-- services/policy-service/src/checks: checks 1 to 9 and the loop over the first eight.
-- A result is `threw` where BigInt() of a string throws, which the server answers with a 500.
pub mod Allowed
pub mod Order
use straitsx.Prelude.{
  ℕ, ◌+◌, Bool, true, false, ◌||◌, ◌&&◌, not, Option, none, some, List, [], ◌∷◌, ltb, leb, ◌==◌,
  if◌then◌else◌, min, ℤ, pos, ltb_ℤ, pos_part, neg_part, ◌+ℤ◌,
}
use straitsx.Text.{Text, same, lower}
use straitsx.Text.BigInt.{big_int}
use straitsx.Contracts.Types.{X402Requirements, Mandate, ResolvedItem}
use straitsx.Contracts.Mandate.{Keccak, hash_policy}
use straitsx.Ledger.State.{Timestamp, parse_date}

pub record RegistryMandate : Type 0 where
  pub owner : Text
  pub policy_hash : Text
  pub expires_at : ℕ
  pub revoked : Bool

-- `spent` is the number that the ledger prints and BigInt reads again.
pub record CheckContext : Type 0 where
  pub now : ℕ
  pub mandate : Mandate
  pub registry : Option RegistryMandate
  pub challenge : X402Requirements
  pub requested_amount : Text
  pub spent : ℤ
  pub card_count : ℕ
  pub intent_created_at : Timestamp
  pub challenge_attached_at : Option Timestamp
  pub max_sane_validity_seconds : ℕ

pub data CheckName : Type 0 where
  precondition_intent_exists precondition_merchant_domain : CheckName
  check1_mandate_live check2_policy_hash check3_chain_asset check4_recipient_pinned : CheckName
  check5_amount_bounds check6_window_budget check7_validity_sane check8_intent_bound : CheckName
  check9_intent_match signer_refused escalation_expired escalation_denied : CheckName

pub data CheckResult : Type 0 where
  pass threw : CheckResult
  refuse escalate : CheckName → CheckResult

unfoldable pub mandate_live : CheckContext → CheckResult
mandate_live ctx = elim ctx.registry [
  | none ↦ refuse check1_mandate_live
  | some registry ↦
      if registry.revoked || leb registry.expires_at ctx.now
      then refuse check1_mandate_live
      else pass
]

unfoldable pub policy_hash : Keccak → CheckContext → CheckResult
policy_hash k ctx = elim ctx.registry [
  | none ↦ pass
  | some registry ↦
      if not (same (lower (hash_policy k ctx.mandate)) (lower registry.policy_hash))
      then refuse check2_policy_hash
      else pass
]

unfoldable pub chain_asset : CheckContext → CheckResult
chain_asset ctx =
    if not (ctx.challenge.chain_id == ctx.mandate.chain_id)
    then refuse check3_chain_asset
    else if not (same (lower ctx.challenge.asset) (lower ctx.mandate.asset))
    then refuse check3_chain_asset
    else pass

unfoldable pub recipient_pinned : CheckContext → CheckResult
recipient_pinned ctx =
    if not (same (lower ctx.challenge.pay_to) (lower ctx.mandate.settlement_recipient))
    then refuse check4_recipient_pinned
    else pass

abbrev pub min_amount_base_units : ℕ
min_amount_base_units = 5000000

abbrev pub hard_cap_base_units : ℕ
hard_cap_base_units = 30000000

-- maxPerCard < HARD_CAP_BASE_UNITS ? maxPerCard : HARD_CAP_BASE_UNITS
unfoldable pub ceiling_of : ℤ → ℤ
ceiling_of max_per_card =
    if ltb_ℤ max_per_card (pos hard_cap_base_units) then max_per_card else pos hard_cap_base_units

unfoldable pub bounds_of : ℤ → ℤ → CheckContext → CheckResult
bounds_of amount max_per_card ctx =
    if ltb_ℤ amount (pos min_amount_base_units) || ltb_ℤ (ceiling_of max_per_card) amount
    then refuse check5_amount_bounds
    else if not (same ctx.challenge.amount ctx.requested_amount)
    then refuse check5_amount_bounds
    else pass

unfoldable pub amount_bounds : CheckContext → CheckResult
amount_bounds ctx = elim (big_int ctx.challenge.amount) [
  | none ↦ threw
  | some amount ↦ elim (big_int ctx.mandate.max_per_card) [
    | none ↦ threw
    | some max_per_card ↦ bounds_of amount max_per_card ctx
  ]
]

unfoldable pub budget_of : ℤ → ℤ → CheckContext → CheckResult
budget_of amount max_per_window ctx =
    if ltb_ℤ max_per_window (ctx.spent +ℤ amount)
    then escalate check6_window_budget
    else if leb ctx.mandate.max_cards_per_window ctx.card_count
    then escalate check6_window_budget
    else pass

unfoldable pub window_budget : CheckContext → CheckResult
window_budget ctx = elim (big_int ctx.challenge.amount) [
  | none ↦ threw
  | some amount ↦ elim (big_int ctx.mandate.max_per_window) [
    | none ↦ threw
    | some max_per_window ↦ budget_of amount max_per_window ctx
  ]
]

unfoldable pub validity_sane : CheckContext → CheckResult
validity_sane ctx =
    if ltb ctx.max_sane_validity_seconds
      (min ctx.mandate.max_auth_validity_seconds ctx.challenge.max_timeout_seconds)
    then refuse check7_validity_sane
    else pass

-- `a >= b` on the two parsed dates, which is false where one of them is NaN
unfoldable pub not_before : Option ℕ → Option ℕ → Bool
not_before none b = false
not_before (some a) none = false
not_before (some a) (some b) = leb b a

unfoldable pub intent_bound : CheckContext → CheckResult
intent_bound ctx = elim ctx.challenge_attached_at [
  | none ↦ refuse check8_intent_bound
  | some attached ↦
      if not_before (parse_date ctx.intent_created_at) (parse_date attached)
      then refuse check8_intent_bound
      else pass
]

-- CHECKS
unfoldable pub checks : Keccak → List (CheckContext → CheckResult)
checks k =
    mandate_live
    ∷ policy_hash k
    ∷ chain_asset
    ∷ recipient_pinned
    ∷ amount_bounds
    ∷ window_budget
    ∷ validity_sane
    ∷ intent_bound
    ∷ []

abbrev pub first_of : CheckResult → CheckResult → CheckResult
first_of pass rest = rest
first_of threw rest = threw
first_of (refuse name) rest = refuse name
first_of (escalate name) rest = escalate name

-- The loop over CHECKS: the first result that is not a pass.
unfoldable pub run_checks : List (CheckContext → CheckResult) → CheckContext → CheckResult
run_checks [] ctx = pass
run_checks (fn ∷ rest) ctx = let others = run_checks rest ctx in first_of (fn ctx) others

-- merchantAllowlist.some(...)
unfoldable pub some_domain : List Text → Text → Bool
some_domain [] merchant = false
some_domain (domain ∷ rest) merchant = same (lower domain) merchant || some_domain rest merchant

abbrev is_empty {ℓ} : {A : Type ℓ} → List A → Bool
is_empty [] = true
is_empty (x ∷ xs) = false

-- check9_intent_match, on whether the matcher answers "match": true where it escalates
unfoldable pub escalates_intent : ResolvedItem → List Text → Bool → Bool → Bool
escalates_intent item allowlist has_standing_approval matched =
    if has_standing_approval
    then false
    else if not (is_empty allowlist || some_domain allowlist (lower item.merchant_domain))
    then true
    else not matched
