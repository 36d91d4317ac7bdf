-- ===== src/Agent/Pipeline/Execution.antt =====
-- services/agent-orchestrator/src/run/pipeline.ts: startRun, executeRun, handleDecision and
-- continueSignedRun.
use straitsx.Prelude.{
  ℕ, ◌+◌, ◌*◌, Bool, true, false, ◌&&◌, Option, none, some, ltb, if◌then◌else◌, is_some, ◌++◌,
}
use straitsx.Text.{Text, codes}
use straitsx.Ledger.State.{instant, Ledger}
use straitsx.Ledger.Intents.{create_intent, attach_challenge}
use straitsx.Ledger.Outcomes.{record_spend, record_settlement, record_capture}
use straitsx.Policy.Answers.{Answer}
use straitsx.Policy.Payment.{PaymentBody, payment}
use straitsx.Chain.Settlement.{Confirmation, confirm_settlement}
use straitsx.Agent.Step.{return, lift, modify, ◌>>=◌, ◌>>◌, try_catch}
use straitsx.Agent.Run.{
  RunStage, EventStatus, RunState, RunOutcome, create_run, set_run_state, set_discovered_item,
  set_outcome, emit_event,
}
use straitsx.Agent.Price.{exact_amount_sgd}
use straitsx.Agent.Checkout.{
  MerchantProfile, Issued, SpendAttestation, CheckoutResult, run_checkout, complete_ucp_checkout,
}
use straitsx.Agent.Discovery.{
  DiscoveryResult, discover_shopify_checkout, discover_product, discover_merchant_product,
}
use straitsx.Agent.Pipeline.{
  RunSource, fixture, merchant, shopify, RunInput, CardResult, PendingContext, World, Times,
  Services, Run, on_run, emit_ok, safe_failure, call_ledger, call_create, PolicyDecision, granted,
  denied, asked, PolicyReply, decided, thrown, policy_reply, payment_body, confirm_body, reply_of,
}

-- DEFAULT_CARDHOLDER_NAME
abbrev pub cardholder_of : RunInput → Text
cardholder_of input = elim input.cardholder_name [
  | none ↦ codes "StraitsX Shopper"
  | some name ↦ name
]

abbrev pub discovery_stage : RunSource → RunStage
discovery_stage (shopify checkout) = RunStage.checkout_acquired
discovery_stage _ = RunStage.discovery_done

-- The time at which the timer of scheduleExpiry fires.
unfoldable pub fires_at : ℕ → ℕ → ℕ
fires_at now expires_at = if ltb (expires_at * 1000 + 250) now then now else expires_at * 1000 + 250

-- The decision of a reply, on the ledger that the policy service left.
abbrev pub reply_world : World → Ledger → PolicyReply → World × Option PolicyDecision
reply_world w l (decided decision) = (record w { ledger = l }, some decision)
reply_world w l (thrown status) = (record w { ledger = l }, none)

module _ (services : Services) (times : Times) (request_id : Text) where
  unfoldable pub profile_of : RunSource → Option MerchantProfile
  profile_of (merchant profile_id) = services.profiles profile_id
  profile_of _ = services.profiles (codes "local-fixture")

  unfoldable pub discover : MerchantProfile → RunSource → Option DiscoveryResult
  discover profile (fixture name) = discover_product services.pages (services.fixture_url name)
  discover profile (merchant profile_id) =
      discover_merchant_product services.pages services.merchant_page profile
  discover profile (shopify checkout) = discover_shopify_checkout checkout

  -- runCheckout or completeUcpCheckout, by the source of the run
  unfoldable pub checkout_of : PendingContext → Issued → RunSource → CheckoutResult
  checkout_of context issued (shopify checkout) =
      complete_ucp_checkout services.ucp (instant times.observed) checkout issued
  checkout_of context issued _ =
      run_checkout services.pages.urls services.browser context.profile context.resolved_item issued

  -- onDomainAsserted, where the checkout called it
  unfoldable pub domain_asserted : Bool → Run (Unit {0})
  unfolding emit_event
  domain_asserted true = emit_ok RunStage.checkout_asserted
  domain_asserted false = return tt

  unfoldable pub attest : CheckoutResult → Run SpendAttestation
  unfolding domain_asserted
  attest (asserted, spend) = do domain_asserted asserted; lift spend

  abbrev pub spend_step : SpendAttestation → Run (Unit {0})
  spend_step spend = call_ledger (
      record_spend times.spend request_id (record {
        merchant_domain = some spend.merchant_domain;
        order_total = some spend.order_total;
        item_sku = some spend.item_sku;
        order_id = some spend.order_id;
        observed_at = some spend.observed_at;
      }))

  abbrev pub settlement_step : PendingContext → Issued → Confirmation → Run (Unit {0})
  settlement_step context issued c = call_ledger (
      record_settlement times.settlement request_id (record {
        settlement_tx = some issued.settlement_tx;
        block_number = some c.block_number;
        card_opaque_id = some issued.card_opaque_id;
        raw_tool_result_hash = some context.card_result.raw_tool_result_hash;
      }))

  abbrev pub capture_step : Issued → SpendAttestation → Confirmation → Run (Unit {0})
  capture_step issued spend c = call_ledger (
      record_capture times.capture request_id (record {
        order_id = some spend.order_id;
        captured_at = some spend.observed_at;
        settlement_tx = some issued.settlement_tx;
        block_number = some c.block_number;
      }))

  -- What follows the confirmation, by the test on it.
  unfoldable pub finalize :
      PendingContext → Issued → SpendAttestation → Confirmation → Bool → Run (Unit {0})
  unfolding emit_event set_outcome set_run_state safe_failure
  finalize context issued spend c true = do
    settlement_step context issued c
    capture_step issued spend c
    emit_ok RunStage.settlement_finalized
    on_run (set_outcome (RunOutcome.signed issued.settlement_tx issued.card_opaque_id))
    on_run (set_run_state RunState.done)
  finalize context issued spend c false = do
    on_run (
        emit_event RunStage.settlement_finalized EventStatus.refused
          (some (codes "TRANSFER_MISMATCH")))
    safe_failure true

  abbrev pub confirmation_for : PendingContext → Issued → Option Confirmation
  confirmation_for context issued =
      reply_of (confirm_settlement services.rpc (confirm_body context.card_result issued))

  -- What follows payAndIssue.
  unfoldable pub continue_issued : PendingContext → Option Issued → Run (Unit {0})
  unfolding emit_event set_outcome set_run_state safe_failure attest finalize
  continue_issued context none = safe_failure true
  continue_issued context (some issued) = do
    emit_ok RunStage.card_issued
    on_run (set_run_state RunState.awaiting_checkout)
    on_run (set_outcome (RunOutcome.checkout_pending issued.settlement_tx issued.card_opaque_id))
    spend ← attest (checkout_of context issued context.input.source)
    spend_step spend
    emit_ok RunStage.spend_recorded
    c ← lift (confirmation_for context issued)
    finalize context issued spend c (c.ok && c.transfer_matched)

  -- continueSignedRun
  unfoldable pub continue_signed_run : PendingContext → Text → Run (Unit {0})
  unfolding continue_issued safe_failure
  continue_signed_run context header =
      try_catch
        (do
          issued ← lift (
              services.pay_and_issue context.card_result.cardapi_url header context.amount_sgd
                (cardholder_of context.input))
          continue_issued context issued)
        (safe_failure true)

  -- handleDecision
  unfoldable pub handle_decision : PendingContext → PolicyDecision → Run (Unit {0})
  unfolding emit_event set_outcome set_run_state continue_signed_run fires_at
  handle_decision context (denied check) = do
    on_run (emit_event RunStage.policy_decision EventStatus.refused (some check))
    on_run (set_outcome (RunOutcome.refused check))
    on_run (set_run_state RunState.refused)
  handle_decision context (asked reason expires_at) = do
    on_run (emit_event RunStage.policy_decision EventStatus.escalated (some reason))
    on_run (set_outcome (RunOutcome.escalated reason expires_at))
    on_run (set_run_state RunState.escalated)
    modify (λ w. record w { pending = some context })
    modify (λ w. record w { timer = some (fires_at times.scheduled expires_at) })
  handle_decision context (granted header) = do
    emit_ok RunStage.policy_decision
    continue_signed_run context header

  abbrev pub decision_of : World → Ledger × Answer → World × Option PolicyDecision
  decision_of w (l, answer) = reply_world w l (policy_reply answer)

  -- policy.requestPayment
  unfoldable pub request_payment : PaymentBody → Run PolicyDecision
  unfolding policy_reply
  request_payment body w =
      decision_of w (payment services.policy services.outside times.decision body w.ledger)

  abbrev pub context_of :
      RunInput → MerchantProfile → DiscoveryResult → ℕ → CardResult → PendingContext
  context_of input profile discovery amount_sgd card = record {
    input = input;
    resolved_item = discovery.resolved_item;
    card_result = card;
    amount_sgd = amount_sgd;
    profile = profile;
  }

  -- executeRun
  unfoldable pub execute_run : RunInput → Run (Unit {0})
  unfolding emit_event set_discovered_item handle_decision request_payment payment_body
  execute_run input = do
    call_create (
        create_intent services.hash_of times.intent (record {
          request_id = some request_id;
          mandate_id = some input.mandate_id;
          agent_id = some input.agent_id;
          instruction = some input.instruction;
          created_at = some (instant times.started);
        }))
    emit_ok RunStage.intent_created
    profile ← lift (profile_of input.source)
    discovery ← lift (discover profile input.source)
    emit_ok (discovery_stage input.source)
    on_run (set_discovered_item discovery.resolved_item)
    amount_sgd ← lift (exact_amount_sgd discovery.resolved_item.price)
    card ← lift (services.get_card (cardholder_of input) amount_sgd)
    emit_ok RunStage.challenge_received
    call_ledger (attach_challenge times.challenge request_id (some card.challenge))
    decision ← request_payment (payment_body request_id input card discovery)
    handle_decision (context_of input profile discovery amount_sgd card) decision

  -- What createRun and the two maps hold when the run starts.
  unfoldable pub fresh_world : Ledger → World
  unfolding create_run
  fresh_world l = record { run = create_run request_id; pending = none; timer = none; ledger = l }

  -- productUrl, which throws for a merchant without a profile
  unfoldable pub product_url : RunSource → Option Text
  product_url (fixture name) = some (services.fixture_url name)
  product_url (merchant profile_id) = elim (services.profiles profile_id) [
    | none ↦ none
    | some profile ↦ some profile.product_url
  ]
  product_url (shopify checkout) = some (
      codes "https://"
      ++ (checkout.store_domain ++ (codes "/checkout-sessions/" ++ checkout.checkout_session_id)))

  -- The run that startRun has created, when executeRun has ended.
  unfoldable pub run_to_end : RunInput → Ledger → World
  unfolding fresh_world execute_run safe_failure
  run_to_end input l = (try_catch (execute_run input) (safe_failure false) (fresh_world l)).0

  -- startRun, on the ledger as it stands; none where it throws, before it creates a run
  unfoldable pub start_run : RunInput → Ledger → Option World
  unfolding product_url run_to_end
  start_run input l = if is_some (product_url input.source) then some (run_to_end input l) else none
