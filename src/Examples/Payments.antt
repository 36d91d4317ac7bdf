-- ===== src/Examples/Payments.antt =====
-- The policy service's theorems on one payment of 7 XSGD and on the approval of its escalation.
use straitsx.Prelude.{ℕ, ◌≡◌, ◌↔◌, refl, true, false, some, none, [], ◌∷◌, pos}
use straitsx.Text.{Text, codes}
use straitsx.Contracts.Types.{X402Requirements, Mandate, ResolvedItem}
use straitsx.Contracts.Mandate.{Keccak}
use straitsx.Ledger.State.{
  instant, IntentState, EscalationReason, HumanDecision, IntentRecord, EscalationRecord, Ledger,
  empty,
}
use straitsx.Policy.Checks.{
  RegistryMandate, CheckContext, check6_window_budget, escalate, checks, run_checks,
}
use straitsx.Policy.Checks.Allowed.{IsAuthentic}
use straitsx.Policy.Checks.Order.{IsOverBudget, run_checks-escalate_iff}
use straitsx.Policy.Signing.{PolicyDeps, header}
use straitsx.Policy.Answers.{error, internal_error, escalation_already_resolved}
use straitsx.Policy.Payment.{PaymentRequest, Outside, handle_payment}
use straitsx.Policy.Payment.Grounds.{IsGrounded, handle_payment-IsGrounded, handle_payment-orphan}
use straitsx.Policy.Resolve.{ResolveBody, resolve}
use straitsx.Policy.Resolve.Closed.{IsClosed}
use straitsx.Policy.Resolve.Once.{resolve-once}
use straitsx.Policy.Resolve.Approved.{IsApproved, resolve-IsApproved}

abbrev pub hash : Text
hash = codes "0x2222222222222222222222222222222222222222222222222222222222222222"

abbrev pub keccak : Keccak
keccak = record { of_text = λ s. hash; of_hex = λ s. hash }

abbrev pub deps : PolicyDeps
deps = record {
  keccak = keccak;
  signer = λ r. header (codes "signature");
  paying_wallet = codes "0xa";
  resource = codes "card";
  max_sane_validity_seconds = 300;
  escalation_ttl_seconds = 300;
  dashboard_url = codes "http://localhost";
  detail_of = λ check. codes "detail";
  verify_message = λ a m s. some true;
}

abbrev pub mandate : Mandate
mandate = record {
  mandate_id = codes "m1";
  owner = codes "0xA";
  agent_id = codes "a1";
  chain_id = 43113;
  asset = codes "0xc";
  settlement_recipient = codes "0xb";
  max_per_card = codes "20000000";
  max_per_window = codes "50000000";
  max_cards_per_window = 3;
  window_seconds = 86400;
  max_auth_validity_seconds = 60;
  expires_at = 5000;
  revoked = false;
  intent_constraint = codes "shoes";
  merchant_allowlist = [];
  policy_version = 1;
}

abbrev pub registry : RegistryMandate
registry = record { owner = codes "0xa"; policy_hash = hash; expires_at = 5000; revoked = false }

abbrev pub outside : Outside
outside = record { registry = λ m c. some (some registry); matches = λ item constraint. true }

abbrev pub challenge : X402Requirements
challenge = record {
  x402_version = 1;
  network = codes "eip155:43113";
  chain_id = 43113;
  amount = codes "7000000";
  asset = codes "0xC";
  pay_to = codes "0xB";
  max_timeout_seconds = 60;
  extra = record { name = codes "XSGD"; version = codes "2" };
}

abbrev pub item : ResolvedItem
item = record {
  title = codes "shoes";
  sku = codes "1";
  price = codes "7";
  merchant_domain = codes "shop.sg";
  checkout_url = codes "";
}

abbrev request : PaymentRequest
request = record {
  request_id = codes "r1";
  mandate_id = codes "m1";
  requested_amount = codes "7000000";
  challenge = challenge;
  resolved_item = some item;
}

abbrev intent : IntentRecord
intent = record {
  request_id = codes "r1";
  mandate_id = codes "m1";
  agent_id = codes "a1";
  instruction = codes "shoes";
  instruction_hash = hash;
  created_at = instant 1000000;
  challenge = some challenge;
  challenge_attached_at = some (instant 1100000);
  nonce = none;
  nonce_reserved_at = none;
  nonce_released = false;
  decision = none;
  decided_at = none;
  policy_hash = none;
  merchant_domain = none;
  valid_after = none;
  valid_before = none;
  settlement = none;
  spend = none;
  capture = none;
  state = IntentState.challenge_attached;
}

abbrev pub escalation : EscalationRecord
escalation = record {
  request_id = codes "r1";
  mandate_id = codes "m1";
  reason = EscalationReason.intent_mismatch;
  approval_url = codes "http://localhost/approve/r1";
  created_at = instant 1100000;
  expires_at = 1400;
  ttl_seconds = 300;
  resolved = false;
  decision = none;
  approved_by = none;
  resolved_at = none;
  merchant_domain = some (codes "shop.sg");
}

abbrev store : Ledger
store = record empty {
  intents = (codes "r1", intent) ∷ [];
  policies = (codes "m1", record { policy = mandate; policy_version = 1 }) ∷ [];
  escalations = (codes "r1", escalation) ∷ [];
}

abbrev approval : ResolveBody
approval = record {
  decision = some HumanDecision.approve;
  approved_by = some (codes "0xa");
  signature = some (codes "0x12");
  merchant_window = true;
}

abbrev context : CheckContext
context = record {
  now = 1200;
  mandate = mandate;
  registry = some registry;
  challenge = challenge;
  requested_amount = codes "7000000";
  spent = pos 45000000;
  card_count = 1;
  intent_created_at = instant 1000000;
  challenge_attached_at = some (instant 1100000);
  max_sane_validity_seconds = 300;
}

run_checks-escalate_iff_example :
    (run_checks (checks keccak) context ≡ escalate check6_window_budget) ↔ (
      (check6_window_budget ≡ check6_window_budget)
      × IsAuthentic keccak context
      × IsOverBudget context)
run_checks-escalate_iff_example = run_checks-escalate_iff keccak context check6_window_budget

handle_payment-orphan_example :
    handle_payment deps outside 1200000 request empty ≡ (empty, error 500 internal_error)
unfolding straitsx.Dict.get
handle_payment-orphan_example = handle_payment-orphan deps outside 1200000 request empty refl

handle_payment-IsGrounded_example :
    IsGrounded deps outside 1200000 request store (codes "signature") hash
unfolding straitsx.Dict.get straitsx.Dict.put straitsx.Text.same straitsx.Text.present
    straitsx.Text.lower_code straitsx.Text.lower straitsx.Text.BigInt.trim
    straitsx.Text.BigInt.is_digit straitsx.Text.BigInt.number_in straitsx.Text.BigInt.big_int
    straitsx.Text.BigInt.all_digits straitsx.Text.BigInt.is_uint straitsx.Text.Hex.is_hex_digit
    straitsx.Text.Hex.hex_digits straitsx.Text.Hex.is_hex straitsx.Text.BigInt.Decimal.to_decimal
    straitsx.Contracts.Mandate.join straitsx.Contracts.Mandate.encoded_fields
    straitsx.Contracts.Mandate.serialise straitsx.Contracts.Mandate.hash_policy
    straitsx.Contracts.Mandate.hash_intent_instruction straitsx.Contracts.Mandate.strip
    straitsx.Contracts.Mandate.nonce_words straitsx.Contracts.Mandate.build_commitment_nonce
    straitsx.Ledger.State.intent_view_of straitsx.Ledger.State.append_event
    straitsx.Ledger.State.save_intent straitsx.Ledger.State.status
    straitsx.Ledger.Intents.present_time straitsx.Ledger.Intents.new_intent
    straitsx.Ledger.Intents.create_intent straitsx.Ledger.Intents.on_intent
    straitsx.Ledger.Intents.read_intent straitsx.Ledger.Intents.with_challenge
    straitsx.Ledger.Intents.attach_to straitsx.Ledger.Intents.attach_challenge
    straitsx.Ledger.Intents.holds_nonce straitsx.Ledger.Intents.with_nonce
    straitsx.Ledger.Intents.reserve_on straitsx.Ledger.Intents.reserve_nonce
    straitsx.Ledger.Intents.without_nonce straitsx.Ledger.Intents.release_on
    straitsx.Ledger.Intents.release_nonce straitsx.Ledger.Outcomes.with_decision
    straitsx.Ledger.Outcomes.log_entry straitsx.Ledger.Outcomes.decide_intent
    straitsx.Ledger.Outcomes.decision_fields straitsx.Ledger.Outcomes.record_decision
    straitsx.Ledger.Outcomes.settlement_of straitsx.Ledger.Outcomes.bad_hash
    straitsx.Ledger.Outcomes.settle_on straitsx.Ledger.Outcomes.record_settlement
    straitsx.Ledger.Outcomes.capture_fields straitsx.Ledger.Outcomes.differs_from
    straitsx.Ledger.Outcomes.capture_of straitsx.Ledger.Outcomes.capture_against
    straitsx.Ledger.Outcomes.capture_on straitsx.Ledger.Outcomes.record_capture
    straitsx.Ledger.Outcomes.spend_of straitsx.Ledger.Outcomes.spend_on
    straitsx.Ledger.Outcomes.record_spend straitsx.Ledger.Outcomes.receipt_of
    straitsx.Ledger.Outcomes.read_receipt straitsx.Ledger.Window.before_window
    straitsx.Ledger.Window.counted straitsx.Ledger.Window.usage_from
    straitsx.Ledger.Window.remaining_of straitsx.Ledger.Window.read_window
    straitsx.Ledger.Storage.read_policy straitsx.Ledger.Storage.put_policy
    straitsx.Ledger.Storage.present_number straitsx.Ledger.Storage.new_escalation
    straitsx.Ledger.Storage.create_escalation straitsx.Ledger.Storage.read_escalation
    straitsx.Ledger.Storage.resolved_with straitsx.Ledger.Storage.resolve_escalation
    straitsx.Ledger.Storage.approval_key straitsx.Ledger.Storage.set_standing_approval
    straitsx.Ledger.Storage.is_active straitsx.Ledger.Storage.read_standing_approval
    straitsx.Policy.Checks.mandate_live straitsx.Policy.Checks.policy_hash
    straitsx.Policy.Checks.chain_asset straitsx.Policy.Checks.recipient_pinned
    straitsx.Policy.Checks.ceiling_of straitsx.Policy.Checks.bounds_of
    straitsx.Policy.Checks.amount_bounds straitsx.Policy.Checks.budget_of
    straitsx.Policy.Checks.window_budget straitsx.Policy.Checks.validity_sane
    straitsx.Policy.Checks.not_before straitsx.Policy.Checks.intent_bound
    straitsx.Policy.Checks.checks straitsx.Policy.Checks.run_checks
    straitsx.Policy.Checks.some_domain straitsx.Policy.Checks.escalates_intent
    straitsx.Policy.Signing.build_typed_data straitsx.Policy.Signing.accepted_of
    straitsx.Policy.Signing.commitment_of straitsx.Policy.Signing.valid_after_of
    straitsx.Policy.Signing.valid_before_of straitsx.Policy.Signing.sign_request
    straitsx.Policy.Signing.after_signer straitsx.Policy.Signing.after_reserve
    straitsx.Policy.Signing.perform_signing straitsx.Policy.Answers.usable_domain
    straitsx.Policy.Answers.called straitsx.Policy.Answers.close
    straitsx.Policy.Approval.build_escalation_message straitsx.Policy.Approval.is_signature_text
    straitsx.Policy.Approval.verify_escalation_signature straitsx.Policy.Payment.refuse_and_record
    straitsx.Policy.Payment.after_escalation straitsx.Policy.Payment.escalate_and_respond
    straitsx.Policy.Payment.settle_payment straitsx.Policy.Payment.payment_job
    straitsx.Policy.Payment.match_and_sign straitsx.Policy.Payment.check_context
    straitsx.Policy.Payment.after_checks straitsx.Policy.Payment.check_loaded
    straitsx.Policy.Payment.load_and_check straitsx.Policy.Payment.handle_payment
    straitsx.Policy.Payment.parse_payment straitsx.Policy.Payment.payment
    straitsx.Policy.Resolve.grant straitsx.Policy.Resolve.settle_approval
    straitsx.Policy.Resolve.approval_job straitsx.Policy.Resolve.challenged
    straitsx.Policy.Resolve.approve_escalation straitsx.Policy.Resolve.decide
    straitsx.Policy.Resolve.authorise straitsx.Policy.Resolve.resolve_open
    straitsx.Policy.Resolve.resolve_found straitsx.Policy.Resolve.resolve straitsx.Prelude.◌+ℤ◌
handle_payment-IsGrounded_example =
    handle_payment-IsGrounded deps outside 1200000 request store
      (handle_payment deps outside 1200000 request store).0 (codes "signature") hash refl

resolve-IsApproved_example :
    IsApproved deps 1200000 (codes "r1") approval store (codes "signature") hash
    × IsClosed (codes "r1") (resolve deps 1200000 (codes "r1") approval store).0
unfolding straitsx.Dict.get straitsx.Dict.put straitsx.Text.same straitsx.Text.present
    straitsx.Text.lower_code straitsx.Text.lower straitsx.Text.BigInt.trim
    straitsx.Text.BigInt.is_digit straitsx.Text.BigInt.number_in straitsx.Text.BigInt.big_int
    straitsx.Text.BigInt.all_digits straitsx.Text.BigInt.is_uint straitsx.Text.Hex.is_hex_digit
    straitsx.Text.Hex.hex_digits straitsx.Text.Hex.is_hex straitsx.Text.BigInt.Decimal.to_decimal
    straitsx.Contracts.Mandate.join straitsx.Contracts.Mandate.encoded_fields
    straitsx.Contracts.Mandate.serialise straitsx.Contracts.Mandate.hash_policy
    straitsx.Contracts.Mandate.hash_intent_instruction straitsx.Contracts.Mandate.strip
    straitsx.Contracts.Mandate.nonce_words straitsx.Contracts.Mandate.build_commitment_nonce
    straitsx.Ledger.State.intent_view_of straitsx.Ledger.State.append_event
    straitsx.Ledger.State.save_intent straitsx.Ledger.State.status
    straitsx.Ledger.Intents.present_time straitsx.Ledger.Intents.new_intent
    straitsx.Ledger.Intents.create_intent straitsx.Ledger.Intents.on_intent
    straitsx.Ledger.Intents.read_intent straitsx.Ledger.Intents.with_challenge
    straitsx.Ledger.Intents.attach_to straitsx.Ledger.Intents.attach_challenge
    straitsx.Ledger.Intents.holds_nonce straitsx.Ledger.Intents.with_nonce
    straitsx.Ledger.Intents.reserve_on straitsx.Ledger.Intents.reserve_nonce
    straitsx.Ledger.Intents.without_nonce straitsx.Ledger.Intents.release_on
    straitsx.Ledger.Intents.release_nonce straitsx.Ledger.Outcomes.with_decision
    straitsx.Ledger.Outcomes.log_entry straitsx.Ledger.Outcomes.decide_intent
    straitsx.Ledger.Outcomes.decision_fields straitsx.Ledger.Outcomes.record_decision
    straitsx.Ledger.Outcomes.settlement_of straitsx.Ledger.Outcomes.bad_hash
    straitsx.Ledger.Outcomes.settle_on straitsx.Ledger.Outcomes.record_settlement
    straitsx.Ledger.Outcomes.capture_fields straitsx.Ledger.Outcomes.differs_from
    straitsx.Ledger.Outcomes.capture_of straitsx.Ledger.Outcomes.capture_against
    straitsx.Ledger.Outcomes.capture_on straitsx.Ledger.Outcomes.record_capture
    straitsx.Ledger.Outcomes.spend_of straitsx.Ledger.Outcomes.spend_on
    straitsx.Ledger.Outcomes.record_spend straitsx.Ledger.Outcomes.receipt_of
    straitsx.Ledger.Outcomes.read_receipt straitsx.Ledger.Window.before_window
    straitsx.Ledger.Window.counted straitsx.Ledger.Window.usage_from
    straitsx.Ledger.Window.remaining_of straitsx.Ledger.Window.read_window
    straitsx.Ledger.Storage.read_policy straitsx.Ledger.Storage.put_policy
    straitsx.Ledger.Storage.present_number straitsx.Ledger.Storage.new_escalation
    straitsx.Ledger.Storage.create_escalation straitsx.Ledger.Storage.read_escalation
    straitsx.Ledger.Storage.resolved_with straitsx.Ledger.Storage.resolve_escalation
    straitsx.Ledger.Storage.approval_key straitsx.Ledger.Storage.set_standing_approval
    straitsx.Ledger.Storage.is_active straitsx.Ledger.Storage.read_standing_approval
    straitsx.Policy.Checks.mandate_live straitsx.Policy.Checks.policy_hash
    straitsx.Policy.Checks.chain_asset straitsx.Policy.Checks.recipient_pinned
    straitsx.Policy.Checks.ceiling_of straitsx.Policy.Checks.bounds_of
    straitsx.Policy.Checks.amount_bounds straitsx.Policy.Checks.budget_of
    straitsx.Policy.Checks.window_budget straitsx.Policy.Checks.validity_sane
    straitsx.Policy.Checks.not_before straitsx.Policy.Checks.intent_bound
    straitsx.Policy.Checks.checks straitsx.Policy.Checks.run_checks
    straitsx.Policy.Checks.some_domain straitsx.Policy.Checks.escalates_intent
    straitsx.Policy.Signing.build_typed_data straitsx.Policy.Signing.accepted_of
    straitsx.Policy.Signing.commitment_of straitsx.Policy.Signing.valid_after_of
    straitsx.Policy.Signing.valid_before_of straitsx.Policy.Signing.sign_request
    straitsx.Policy.Signing.after_signer straitsx.Policy.Signing.after_reserve
    straitsx.Policy.Signing.perform_signing straitsx.Policy.Answers.usable_domain
    straitsx.Policy.Answers.called straitsx.Policy.Answers.close
    straitsx.Policy.Approval.build_escalation_message straitsx.Policy.Approval.is_signature_text
    straitsx.Policy.Approval.verify_escalation_signature straitsx.Policy.Payment.refuse_and_record
    straitsx.Policy.Payment.after_escalation straitsx.Policy.Payment.escalate_and_respond
    straitsx.Policy.Payment.settle_payment straitsx.Policy.Payment.payment_job
    straitsx.Policy.Payment.match_and_sign straitsx.Policy.Payment.check_context
    straitsx.Policy.Payment.after_checks straitsx.Policy.Payment.check_loaded
    straitsx.Policy.Payment.load_and_check straitsx.Policy.Payment.handle_payment
    straitsx.Policy.Payment.parse_payment straitsx.Policy.Payment.payment
    straitsx.Policy.Resolve.grant straitsx.Policy.Resolve.settle_approval
    straitsx.Policy.Resolve.approval_job straitsx.Policy.Resolve.challenged
    straitsx.Policy.Resolve.approve_escalation straitsx.Policy.Resolve.decide
    straitsx.Policy.Resolve.authorise straitsx.Policy.Resolve.resolve_open
    straitsx.Policy.Resolve.resolve_found straitsx.Policy.Resolve.resolve straitsx.Prelude.◌+ℤ◌
resolve-IsApproved_example =
    resolve-IsApproved deps 1200000 (codes "r1") approval store
      (resolve deps 1200000 (codes "r1") approval store).0 (codes "signature") hash refl

resolve-once_example :
    resolve deps 1300000 (codes "r1") approval (resolve deps 1200000 (codes "r1") approval store).0
    ≡ ((resolve deps 1200000 (codes "r1") approval store).0, error 409 escalation_already_resolved)
unfolding straitsx.Dict.get straitsx.Dict.put straitsx.Text.same straitsx.Text.present
    straitsx.Text.lower_code straitsx.Text.lower straitsx.Text.BigInt.trim
    straitsx.Text.BigInt.is_digit straitsx.Text.BigInt.number_in straitsx.Text.BigInt.big_int
    straitsx.Text.BigInt.all_digits straitsx.Text.BigInt.is_uint straitsx.Text.Hex.is_hex_digit
    straitsx.Text.Hex.hex_digits straitsx.Text.Hex.is_hex straitsx.Text.BigInt.Decimal.to_decimal
    straitsx.Contracts.Mandate.join straitsx.Contracts.Mandate.encoded_fields
    straitsx.Contracts.Mandate.serialise straitsx.Contracts.Mandate.hash_policy
    straitsx.Contracts.Mandate.hash_intent_instruction straitsx.Contracts.Mandate.strip
    straitsx.Contracts.Mandate.nonce_words straitsx.Contracts.Mandate.build_commitment_nonce
    straitsx.Ledger.State.intent_view_of straitsx.Ledger.State.append_event
    straitsx.Ledger.State.save_intent straitsx.Ledger.State.status
    straitsx.Ledger.Intents.present_time straitsx.Ledger.Intents.new_intent
    straitsx.Ledger.Intents.create_intent straitsx.Ledger.Intents.on_intent
    straitsx.Ledger.Intents.read_intent straitsx.Ledger.Intents.with_challenge
    straitsx.Ledger.Intents.attach_to straitsx.Ledger.Intents.attach_challenge
    straitsx.Ledger.Intents.holds_nonce straitsx.Ledger.Intents.with_nonce
    straitsx.Ledger.Intents.reserve_on straitsx.Ledger.Intents.reserve_nonce
    straitsx.Ledger.Intents.without_nonce straitsx.Ledger.Intents.release_on
    straitsx.Ledger.Intents.release_nonce straitsx.Ledger.Outcomes.with_decision
    straitsx.Ledger.Outcomes.log_entry straitsx.Ledger.Outcomes.decide_intent
    straitsx.Ledger.Outcomes.decision_fields straitsx.Ledger.Outcomes.record_decision
    straitsx.Ledger.Outcomes.settlement_of straitsx.Ledger.Outcomes.bad_hash
    straitsx.Ledger.Outcomes.settle_on straitsx.Ledger.Outcomes.record_settlement
    straitsx.Ledger.Outcomes.capture_fields straitsx.Ledger.Outcomes.differs_from
    straitsx.Ledger.Outcomes.capture_of straitsx.Ledger.Outcomes.capture_against
    straitsx.Ledger.Outcomes.capture_on straitsx.Ledger.Outcomes.record_capture
    straitsx.Ledger.Outcomes.spend_of straitsx.Ledger.Outcomes.spend_on
    straitsx.Ledger.Outcomes.record_spend straitsx.Ledger.Outcomes.receipt_of
    straitsx.Ledger.Outcomes.read_receipt straitsx.Ledger.Window.before_window
    straitsx.Ledger.Window.counted straitsx.Ledger.Window.usage_from
    straitsx.Ledger.Window.remaining_of straitsx.Ledger.Window.read_window
    straitsx.Ledger.Storage.read_policy straitsx.Ledger.Storage.put_policy
    straitsx.Ledger.Storage.present_number straitsx.Ledger.Storage.new_escalation
    straitsx.Ledger.Storage.create_escalation straitsx.Ledger.Storage.read_escalation
    straitsx.Ledger.Storage.resolved_with straitsx.Ledger.Storage.resolve_escalation
    straitsx.Ledger.Storage.approval_key straitsx.Ledger.Storage.set_standing_approval
    straitsx.Ledger.Storage.is_active straitsx.Ledger.Storage.read_standing_approval
    straitsx.Policy.Checks.mandate_live straitsx.Policy.Checks.policy_hash
    straitsx.Policy.Checks.chain_asset straitsx.Policy.Checks.recipient_pinned
    straitsx.Policy.Checks.ceiling_of straitsx.Policy.Checks.bounds_of
    straitsx.Policy.Checks.amount_bounds straitsx.Policy.Checks.budget_of
    straitsx.Policy.Checks.window_budget straitsx.Policy.Checks.validity_sane
    straitsx.Policy.Checks.not_before straitsx.Policy.Checks.intent_bound
    straitsx.Policy.Checks.checks straitsx.Policy.Checks.run_checks
    straitsx.Policy.Checks.some_domain straitsx.Policy.Checks.escalates_intent
    straitsx.Policy.Signing.build_typed_data straitsx.Policy.Signing.accepted_of
    straitsx.Policy.Signing.commitment_of straitsx.Policy.Signing.valid_after_of
    straitsx.Policy.Signing.valid_before_of straitsx.Policy.Signing.sign_request
    straitsx.Policy.Signing.after_signer straitsx.Policy.Signing.after_reserve
    straitsx.Policy.Signing.perform_signing straitsx.Policy.Answers.usable_domain
    straitsx.Policy.Answers.called straitsx.Policy.Answers.close
    straitsx.Policy.Approval.build_escalation_message straitsx.Policy.Approval.is_signature_text
    straitsx.Policy.Approval.verify_escalation_signature straitsx.Policy.Payment.refuse_and_record
    straitsx.Policy.Payment.after_escalation straitsx.Policy.Payment.escalate_and_respond
    straitsx.Policy.Payment.settle_payment straitsx.Policy.Payment.payment_job
    straitsx.Policy.Payment.match_and_sign straitsx.Policy.Payment.check_context
    straitsx.Policy.Payment.after_checks straitsx.Policy.Payment.check_loaded
    straitsx.Policy.Payment.load_and_check straitsx.Policy.Payment.handle_payment
    straitsx.Policy.Payment.parse_payment straitsx.Policy.Payment.payment
    straitsx.Policy.Resolve.grant straitsx.Policy.Resolve.settle_approval
    straitsx.Policy.Resolve.approval_job straitsx.Policy.Resolve.challenged
    straitsx.Policy.Resolve.approve_escalation straitsx.Policy.Resolve.decide
    straitsx.Policy.Resolve.authorise straitsx.Policy.Resolve.resolve_open
    straitsx.Policy.Resolve.resolve_found straitsx.Policy.Resolve.resolve straitsx.Prelude.◌+ℤ◌
resolve-once_example =
    resolve-once deps deps 1200000 1300000 (codes "r1") approval approval HumanDecision.approve
      store (resolve deps 1200000 (codes "r1") approval store).0 (codes "signature") hash refl refl
