-- ===== src/Policy/Payment.antt =====
-- services/policy-service/src/app.ts: POST /payment/request. The on-chain registry and the matcher
-- of check 9 are read through parameters.
pub mod Grounds
use straitsx.Prelude.{
  ℕ, ◌/◌, Bool, true, false, Option, none, some, List, [], ◌++◌, if◌then◌else◌, ◌>>=◌,
}
use straitsx.Text.{Text, codes, present}
use straitsx.Dict.{get}
use straitsx.Contracts.Types.{X402Requirements, Mandate, ResolvedItem}
use straitsx.Contracts.Mandate.{hash_policy}
use straitsx.Ledger.State.{
  Decision, EscalationReason, intent_mismatch, window_budget_exceeded, IntentRecord,
  EscalationRecord, Ledger, Reply, sent, failed,
}
use straitsx.Ledger.Outcomes.{record_decision}
use straitsx.Ledger.Window.{WindowUsage, read_window}
use straitsx.Ledger.Storage.{create_escalation, read_standing_approval}
use straitsx.Policy.Checks.{
  RegistryMandate, CheckContext, CheckName, precondition_intent_exists,
  precondition_merchant_domain, check1_mandate_live, check2_policy_hash, check3_chain_asset,
  check4_recipient_pinned, check5_amount_bounds, check6_window_budget, check7_validity_sane,
  check8_intent_bound, check9_intent_match, signer_refused, escalation_expired, escalation_denied,
  CheckResult, pass, threw, refuse, escalate, checks, run_checks, escalates_intent,
}
use straitsx.Policy.Signing.{
  PolicyDeps, SigningJob, SigningOutcome, done, not_done, broken, perform_signing,
}
use straitsx.Policy.Answers.{
  invalid_body, policy_not_found, signing_failed, Answer, signed, refused, escalated, error,
  usable_domain, called, plain_decision, crashed,
}

pub record PaymentBody : Type 0 where
  pub request_id : Option Text
  pub mandate_id : Option Text
  pub requested_amount : Option Text
  pub challenge : Option X402Requirements
  pub resolved_item : Option ResolvedItem

-- The body after its guard.
pub record PaymentRequest : Type 0 where
  pub request_id : Text
  pub mandate_id : Text
  pub requested_amount : Text
  pub challenge : X402Requirements
  pub resolved_item : Option ResolvedItem

-- chainGateway.getMandate, of a mandate and a chain, with none where it throws and an inner none for
-- its answer 404, and the matcher of check 9, of an item and the
-- constraint: true for "match".
pub record Outside : Type 0 where
  pub registry : Text → ℕ → Option (Option RegistryMandate)
  pub matches : ResolvedItem → Text → Bool

unfoldable pub check_text : CheckName → Text
check_text precondition_intent_exists = codes "precondition_intent_exists"
check_text precondition_merchant_domain = codes "precondition_merchant_domain"
check_text check1_mandate_live = codes "check1_mandate_live"
check_text check2_policy_hash = codes "check2_policy_hash"
check_text check3_chain_asset = codes "check3_chain_asset"
check_text check4_recipient_pinned = codes "check4_recipient_pinned"
check_text check5_amount_bounds = codes "check5_amount_bounds"
check_text check6_window_budget = codes "check6_window_budget"
check_text check7_validity_sane = codes "check7_validity_sane"
check_text check8_intent_bound = codes "check8_intent_bound"
check_text check9_intent_match = codes "check9_intent_match"
check_text signer_refused = codes "signer_refused"
check_text escalation_expired = codes "escalation_expired"
check_text escalation_denied = codes "escalation_denied"

-- refuseAndRecord
unfoldable pub refuse_and_record : PolicyDeps → ℕ → Text → CheckName → Ledger → Ledger × Answer
unfolding check_text
refuse_and_record deps now request_id check l =
    called
      (record_decision now
        (record (plain_decision request_id Decision.refused now) {
          check = some (check_text check);
          detail = some (deps.detail_of check);
        })
        l)
      (λ l'. (l', refused check)) crashed

-- The record of the decision after createEscalation, and the answer.
unfoldable pub after_escalation :
    PolicyDeps → ℕ → Text → CheckName → Ledger × Reply EscalationRecord → Ledger × Answer
unfolding check_text
after_escalation deps now request_id check (l, failed status code) = (l, crashed)
after_escalation deps now request_id check (l, sent status escalation) =
    called
      (record_decision now
        (record (plain_decision request_id Decision.escalated now) {
          check = some (check_text check);
          detail = some (deps.detail_of check);
        })
        l)
      (λ l'. (l', escalated escalation)) crashed

-- escalateAndRespond
unfoldable pub escalate_and_respond :
    PolicyDeps → ℕ → PaymentRequest → CheckName → EscalationReason → Text → Ledger → Ledger × Answer
escalate_and_respond deps now request check reason merchant_domain l =
    after_escalation deps now request.request_id check (
      create_escalation now
        (record {
          request_id = some request.request_id;
          mandate_id = some request.mandate_id;
          reason = some reason;
          approval_url = some (deps.dashboard_url ++ (codes "/approve/" ++ request.request_id));
          ttl_seconds = some deps.escalation_ttl_seconds;
          merchant_domain = some merchant_domain;
        })
        l)

-- The record of the decision after performSigning, and the answer.
unfoldable pub settle_payment : ℕ → SigningJob → Ledger × SigningOutcome → Ledger × Answer
settle_payment now job (l, broken) = (l, crashed)
settle_payment now job (l, not_done status message) =
    called
      (record_decision now
        (record (plain_decision job.request_id Decision.refused now) {
          check = some (codes "signer_refused");
          detail = some message;
        })
        l)
      (λ l'. (l', error status signing_failed)) crashed
settle_payment now job (l, done header nonce valid_after valid_before) =
    called
      (record_decision now
        (record (plain_decision job.request_id Decision.signed now) {
          policy_hash = some job.policy_hash;
          merchant_domain = some job.merchant_domain;
          valid_after = some valid_after;
          valid_before = some valid_before;
        })
        l)
      (λ l'. (l', signed header nonce)) crashed

unfoldable pub payment_job :
    PolicyDeps → PaymentRequest → Mandate → IntentRecord → Text → SigningJob
payment_job deps request mandate intent merchant_domain = record {
  request_id = request.request_id;
  mandate_id = request.mandate_id;
  mandate = mandate;
  challenge = request.challenge;
  amount = request.requested_amount;
  policy_hash = hash_policy deps.keccak mandate;
  intent_hash = intent.instruction_hash;
  merchant_domain = merchant_domain;
}

-- Check 9 and what follows it.
unfoldable pub match_and_sign :
    PolicyDeps
    → Outside
    → ℕ
    → PaymentRequest
    → IntentRecord
    → ResolvedItem
    → Mandate
    → Text
    → Ledger
    → Ledger × Answer
match_and_sign deps outside now request intent item mandate merchant_domain l =
    elim (read_standing_approval now (some request.mandate_id) (some merchant_domain) l) [
      | failed status code ↦ (l, crashed)
      | sent status active ↦
          if escalates_intent item mandate.merchant_allowlist active
            (outside.matches item mandate.intent_constraint)
          then escalate_and_respond deps now request check9_intent_match intent_mismatch
              merchant_domain l
          else let job = payment_job deps request mandate intent merchant_domain in
            settle_payment now job (perform_signing deps now job l)
    ]

unfoldable pub check_context :
    PolicyDeps
    → ℕ
    → PaymentRequest
    → IntentRecord
    → Mandate
    → WindowUsage
    → Option RegistryMandate
    → CheckContext
check_context deps now request intent mandate usage registry = record {
  now = now / 1000;
  mandate = mandate;
  registry = registry;
  challenge = request.challenge;
  requested_amount = request.requested_amount;
  spent = usage.spent;
  card_count = usage.card_count;
  intent_created_at = intent.created_at;
  challenge_attached_at = intent.challenge_attached_at;
  max_sane_validity_seconds = deps.max_sane_validity_seconds;
}

unfoldable pub after_checks :
    PolicyDeps
    → Outside
    → ℕ
    → PaymentRequest
    → IntentRecord
    → ResolvedItem
    → Mandate
    → Text
    → CheckResult
    → Ledger
    → Ledger × Answer
after_checks deps outside now request intent item mandate merchant_domain threw l = (l, crashed)
after_checks deps outside now request intent item mandate merchant_domain (refuse check) l =
    refuse_and_record deps now request.request_id check l
after_checks deps outside now request intent item mandate merchant_domain (escalate check) l =
    escalate_and_respond deps now request check window_budget_exceeded merchant_domain l
after_checks deps outside now request intent item mandate merchant_domain pass l =
    match_and_sign deps outside now request intent item mandate merchant_domain l

-- The on-chain mandate, and checks 1 to 8.
unfoldable pub check_loaded :
    PolicyDeps
    → Outside
    → ℕ
    → PaymentRequest
    → IntentRecord
    → ResolvedItem
    → Text
    → Mandate
    → WindowUsage
    → Ledger
    → Ledger × Answer
unfolding after_checks check_context
check_loaded deps outside now request intent item merchant_domain mandate usage l =
    elim (outside.registry request.mandate_id mandate.chain_id) [
      | none ↦ (l, crashed)
      | some registry ↦
          after_checks deps outside now request intent item mandate merchant_domain
            (run_checks (checks deps.keccak)
              (check_context deps now request intent mandate usage registry))
            l
    ]

-- The policy, the window's usage, the on-chain mandate and checks 1 to 8.
unfoldable pub load_and_check :
    PolicyDeps
    → Outside
    → ℕ
    → PaymentRequest
    → IntentRecord
    → ResolvedItem
    → Text
    → Ledger
    → Ledger × Answer
load_and_check deps outside now request intent item merchant_domain l =
    elim (get request.mandate_id l.policies) [
      | none ↦ (l, error 404 policy_not_found)
      | some found ↦
          elim (read_window now request.mandate_id (some found.policy.window_seconds)
            (some found.policy.max_per_window) l) [
              | failed status code ↦ (l, crashed)
              | sent status usage ↦
                  check_loaded deps outside now request intent item merchant_domain found.policy
                    usage l
            ]
    ]

abbrev pub item_domain : Option ResolvedItem → Option (ResolvedItem × Text)
item_domain none = none
item_domain (some item) = elim (usable_domain (some item.merchant_domain)) [
  | none ↦ none
  | some domain ↦ some (item, domain)
]

-- After the guard on the body.
unfoldable pub handle_payment : PolicyDeps → Outside → ℕ → PaymentRequest → Ledger → Ledger × Answer
handle_payment deps outside now request l = elim (get request.request_id l.intents) [
  | none ↦ refuse_and_record deps now request.request_id precondition_intent_exists l
  | some intent ↦ elim (item_domain request.resolved_item) [
    | none ↦ refuse_and_record deps now request.request_id precondition_merchant_domain l
    | some (item, merchant_domain) ↦
        load_and_check deps outside now request intent item merchant_domain l
  ]
]

-- `!requestId || !mandateId || !requestedAmount || !challenge`
unfoldable pub parse_payment : PaymentBody → Option PaymentRequest
unfolding present
parse_payment body = do
  request_id ← present body.request_id
  mandate_id ← present body.mandate_id
  requested_amount ← present body.requested_amount
  challenge ← body.challenge
  some (record {
    request_id = request_id;
    mandate_id = mandate_id;
    requested_amount = requested_amount;
    challenge = challenge;
    resolved_item = body.resolved_item;
  })

-- POST /payment/request
unfoldable pub payment : PolicyDeps → Outside → ℕ → PaymentBody → Ledger → Ledger × Answer
payment deps outside now body l = elim (parse_payment body) [
  | none ↦ (l, error 400 invalid_body)
  | some request ↦ handle_payment deps outside now request l
]
