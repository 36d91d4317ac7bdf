-- ===== src/Agent/Pipeline.antt =====
-- services/agent-orchestrator/src/run/pipeline.ts: startRun and what it awaits, with the clients of
-- src/clients. The ledger, the policy service and the chain gateway are those of this library,
-- called on one ledger; the card issuer, the browser and the MCP server are parameters.
pub mod Execution
pub mod Recorded
pub mod Rules
pub mod Settled
pub mod Escalation
pub mod Stages
use straitsx.Prelude.{
  ℕ, ◌+◌, ◌*◌, Bool, true, false, ◌&&◌, Option, none, some, ◌++◌, if◌then◌else◌, ◌==◌,
}
use straitsx.Text.{Text, codes, present, truthy}
use straitsx.Contracts.Types.{X402Requirements, ResolvedItem}
use straitsx.Ledger.State.{
  EscalationReason, intent_mismatch, window_budget_exceeded, instant, Ledger, Reply, sent, failed,
}
use straitsx.Ledger.Intents.{create_intent, attach_challenge}
use straitsx.Ledger.Outcomes.{record_spend, record_settlement, record_capture}
use straitsx.Policy.Signing.{PolicyDeps}
use straitsx.Policy.Answers.{Answer, signed, refused, escalated, error}
use straitsx.Policy.Payment.{PaymentBody, Outside, payment}
use straitsx.Chain.Settlement.{
  Rpc, ConfirmBody, Confirmation, ConfirmReply, confirmed, confirm_error, confirm_settlement,
}
use straitsx.Agent.Step.{Step, return, throw, lift, modify, ◌>>=◌, ◌>>◌, try_catch}
use straitsx.Agent.Run.{
  RunStage, EventStatus, RunState, RunOutcome, RunRecord, create_run, set_run_state,
  set_discovered_item, set_outcome, emit_event,
}
use straitsx.Agent.Price.{exact_amount_sgd}
use straitsx.Agent.Checkout.{
  MerchantProfile, Browser, Issued, SpendAttestation, CheckoutResult, run_checkout,
  ShopifyUcpCheckout, Ucp, complete_ucp_checkout,
}
use straitsx.Agent.Discovery.{
  SimulatedCompromise, DiscoveryResult, discover_shopify_checkout, Pages, discover_product,
  MerchantPage, discover_merchant_product,
}

pub data RunSource : Type 0 where
  fixture merchant : Text → RunSource
  shopify : ShopifyUcpCheckout → RunSource

pub record RunInput : Type 0 where
  pub instruction : Text
  pub mandate_id : Text
  pub agent_id : Text
  pub source : RunSource
  pub cardholder_name : Option Text

-- GetCardResult
pub record CardResult : Type 0 where
  pub cardapi_url : Text
  pub challenge : X402Requirements
  pub raw_tool_result_hash : Text

pub record PendingContext : Type 0 where
  pub input : RunInput
  pub resolved_item : ResolvedItem
  pub card_result : CardResult
  pub amount_sgd : ℕ
  pub profile : MerchantProfile

-- The run, the entries of pendingEscalations and expiryTimers under its id (a timer by the time in
-- milliseconds at which it fires), and the ledger.
pub record World : Type 0 where
  pub run : RunRecord
  pub pending : Option PendingContext
  pub timer : Option ℕ
  pub ledger : Ledger

-- The clock at each call that reads it.
pub record Times : Type 0 where
  pub started : ℕ
  pub intent : ℕ
  pub challenge : ℕ
  pub decision : ℕ
  pub scheduled : ℕ
  pub observed : ℕ
  pub spend : ℕ
  pub settlement : ℕ
  pub capture : ℕ

-- amountSgd is in units of 2^-50 dollars, as Agent.Price says. pay_and_issue gives none where payAndIssue throws, and an inner none for its answer 402.
pub record Services : Type 0 where
  pub hash_of : Text → Text
  pub policy : PolicyDeps
  pub outside : Outside
  pub rpc : Rpc
  pub pages : Pages
  pub merchant_page : Text → Option MerchantPage
  pub browser : Browser
  pub ucp : Ucp
  pub profiles : Text → Option MerchantProfile
  pub fixture_url : Text → Text
  pub get_card : Text → ℕ → Option CardResult
  pub pay_and_issue : Text → Text → ℕ → Text → Option (Option Issued)

abbrev pub Run : Type 0 → Type 0
Run A = Step World A

-- A change of the run's record.
unfoldable pub on_run : (RunRecord → RunRecord) → Run (Unit {0})
on_run f = modify (λ w. record w { run = f w.run })

abbrev pub emit_ok : RunStage → Run (Unit {0})
emit_ok stage = on_run (emit_event stage EventStatus.ok none)

-- safeFailure
unfoldable pub safe_failure : Bool → Run (Unit {0})
unfolding set_outcome set_run_state
safe_failure fresh_request_required = do
  on_run (set_outcome (RunOutcome.failed fresh_request_required))
  on_run (set_run_state RunState.failed)

-- A call of the ledger whose client throws where the answer is not a success.
abbrev pub ledger_reply {κ} : {A : Type κ} → World → Ledger × Reply A → World × Option (Unit {0})
ledger_reply w (l, sent status a) = (record w { ledger = l }, some tt)
ledger_reply w (l, failed status code) = (record w { ledger = l }, none)

unfoldable pub call_ledger {κ} : {A : Type κ} → (Ledger → Ledger × Reply A) → Run (Unit {0})
call_ledger f w = ledger_reply w (f w.ledger)

-- The client of POST /intent takes the answer 409 for a success.
abbrev pub tolerate {κ} : {A : Type κ} → World → Ledger × Reply A → World × Option (Unit {0})
tolerate w (l, sent status a) = (record w { ledger = l }, some tt)
tolerate w (l, failed status code) =
    (record w { ledger = l }, if status == 409 then some tt else none)

unfoldable pub call_create {κ} : {A : Type κ} → (Ledger → Ledger × Reply A) → Run (Unit {0})
call_create f w = tolerate w (f w.ledger)

pub data PolicyDecision : Type 0 where
  granted : Text → PolicyDecision
  denied : Text → PolicyDecision
  asked : Text → ℕ → PolicyDecision

-- What a client of the policy service returns, or the status of the error that it throws.
pub data PolicyReply : Type 0 where
  decided : PolicyDecision → PolicyReply
  thrown : ℕ → PolicyReply

abbrev reason_text : EscalationReason → Text
reason_text intent_mismatch = codes "INTENT_MISMATCH"
reason_text window_budget_exceeded = codes "WINDOW_BUDGET_EXCEEDED"

-- post, with parsePolicyDecision. The policy service sends a refused payment with status 422, which
-- post throws before it parses the body.
unfoldable pub policy_reply : Answer → PolicyReply
policy_reply (signed header nonce) = if truthy header then decided (granted header) else thrown 502
policy_reply (refused check) = thrown 422
policy_reply (escalated e) = decided (asked (reason_text e.reason) e.expires_at)
policy_reply (error status code) = thrown status

-- requestedChallenge
unfoldable pub requested_challenge :
    X402Requirements → Option SimulatedCompromise → X402Requirements
requested_challenge challenge none = challenge
requested_challenge challenge (some compromise) = elim (present compromise.pay_to_override) [
  | none ↦ challenge
  | some pay_to ↦ record challenge { pay_to = pay_to }
]

-- compromise?.amountOverride ?? challenge.amount
unfoldable pub requested_amount : X402Requirements → Option SimulatedCompromise → Text
requested_amount challenge none = challenge.amount
requested_amount challenge (some compromise) = elim compromise.amount_override [
  | none ↦ challenge.amount
  | some amount ↦ amount
]

unfoldable pub payment_body : Text → RunInput → CardResult → DiscoveryResult → PaymentBody
unfolding requested_challenge requested_amount
payment_body request_id input card discovery = record {
  request_id = some request_id;
  mandate_id = some input.mandate_id;
  requested_amount = some (requested_amount card.challenge discovery.simulated_compromise);
  challenge = some (requested_challenge card.challenge discovery.simulated_compromise);
  resolved_item = some discovery.resolved_item;
}

-- The body of POST /settlement/confirm.
unfoldable pub confirm_body : CardResult → Issued → ConfirmBody
confirm_body card issued = record {
  tx_hash = some issued.settlement_tx;
  chain_id = some card.challenge.chain_id;
  asset = some card.challenge.asset;
  to = some card.challenge.pay_to;
  amount = some card.challenge.amount;
}

abbrev pub reply_of : ConfirmReply → Option Confirmation
reply_of (confirmed c) = some c
reply_of (confirm_error status) = none
