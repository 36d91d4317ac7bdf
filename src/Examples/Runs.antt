-- ===== src/Examples/Runs.antt =====
-- The agent's and the chain gateway's theorems on one run: a pair of shoes for 7 XSGD from a fixture
-- page, paid, captured and confirmed, and the same run while its approval is awaited.
use straitsx.Prelude.{◌*◌, ◌^◌, ℕ, ◌≡◌, ◌⊎◌, is_some, refl, true, false, some, none, [], ◌∷◌}
use straitsx.Text.{Text, codes}
use straitsx.Contracts.Types.{X402Requirements, Mandate}
use straitsx.Ledger.State.{instant, IntentRecord, EscalationRecord, Ledger, empty}
use straitsx.Chain.Settlement.{
  Log, Transfer, Receipt, answer, missing, Rpc, ConfirmBody, ConfirmRequest, Confirmation,
  confirmed, confirm_error, parse_confirm, confirm_settlement,
}
use straitsx.Chain.Settlement.Matching.{
  IsVerdict, confirm_settlement-IsVerdict, confirm_settlement-errors,
}
use straitsx.Agent.Run.{RunState, create_run}
use straitsx.Agent.Checkout.{
  Url, Urls, MerchantProfile, ConfirmationPage, Browser, Issued, Ucp, ShopifyUcpCheckout,
}
use straitsx.Agent.Discovery.{Pages, FixturePage, MerchantPage}
use straitsx.Agent.Pipeline.{
  RunSource, fixture, RunInput, CardResult, PendingContext, World, Times, Services,
}
use straitsx.Agent.Pipeline.Execution.{cardholder_of, run_to_end, start_run}
use straitsx.Agent.Pipeline.Recorded.{HasCapture}
use straitsx.Agent.Pipeline.Settled.Started.{StartsSettled, start_run-IsSettled}
use straitsx.Agent.Pipeline.Settled.Transfer.{HasMoved, start_run-HasMoved}
use straitsx.Agent.Pipeline.Stages.{IsLogged}
use straitsx.Agent.Pipeline.Stages.Logged.{start_run-IsLogged}
use straitsx.Agent.Pipeline.Escalation.{timer_body, expire_escalation, resolve_run_escalation}
use straitsx.Agent.Pipeline.Escalation.Resolved.{ResolutionEnds, resolve_run_escalation-Ends}
use straitsx.Agent.Pipeline.Escalation.Expired.{IsExpired, expire_escalation-deadline}
use straitsx.Examples.Payments.{hash, deps, mandate, outside, challenge, item, escalation}

abbrev token : Text
token = codes "0x1111111111111111111111111111111111111111"

abbrev payee : Text
payee = codes "0x2222222222222222222222222222222222222222"

abbrev offer : X402Requirements
offer = record challenge { asset = token; pay_to = payee }

abbrev shop_mandate : Mandate
shop_mandate = record mandate { asset = token; settlement_recipient = payee }

abbrev ledger : Ledger
ledger = record empty {
  policies = (codes "m1", record { policy = shop_mandate; policy_version = 1 }) ∷ [];
}

abbrev moved : Log
moved = record { address = token; topics = []; payload = []; log_index = some 3 }

abbrev receipt : Receipt
receipt = record { succeeded = true; block_number = 5; logs = moved ∷ [] }

abbrev rpc : Rpc
rpc = record {
  get_transaction_receipt = λ chain tx. answer receipt;
  get_block_number = λ chain. answer 9;
  decode = λ topics payload. some (record { to = some payee; value = some 7000000 });
}

abbrev lost : Rpc
lost = record {
  get_transaction_receipt = λ chain tx. missing;
  get_block_number = λ chain. answer 9;
  decode = λ topics payload. none;
}

abbrev body : ConfirmBody
body = record {
  tx_hash = some hash;
  chain_id = some 43113;
  asset = some token;
  to = some payee;
  amount = some (codes "7000000");
}

abbrev confirmation : Confirmation
confirmation = record {
  ok = true;
  block_number = 5;
  confirmations = 5;
  transfer_matched = true;
  log_index = some 3;
}

abbrev shop : Url
shop = record { protocol = codes "https:"; hostname = codes "shop.sg" }

abbrev profile : MerchantProfile
profile = record {
  product_url = codes "https://shop.sg/1";
  allowed_hosts = codes "shop.sg" ∷ [];
  checkout_url_pattern = codes "^";
}

abbrev page : FixturePage
page = record {
  title = some (codes "shoes");
  sku = some (codes "1");
  price = some (codes "7.00");
  checkout_href = some (codes "/pay");
  injection = none;
}

abbrev order : ConfirmationPage
order = record {
  url = codes "https://shop.sg/done";
  order_total = codes "7.00";
  item_sku = codes "1";
  order_id = codes "o1";
  observed_at = instant 1300000;
}

abbrev card : CardResult
card = record { cardapi_url = codes "https://card"; challenge = offer; raw_tool_result_hash = hash }

abbrev services : Services
services = record {
  hash_of = λ s. hash;
  policy = deps;
  outside = outside;
  rpc = rpc;
  pages = record {
    urls = record { parse_url = λ s. some shop; matches = λ p s. true };
    join_url = λ href base. some (codes "https://shop.sg/pay");
    fixture_page = λ url. some page;
  };
  merchant_page = λ url. none;
  browser = record {
    goto = λ url. some url;
    view_card = λ card tx. some (codes "https://card/view");
    fill_and_submit = λ frame. some order;
  };
  ucp = record {
    api_url = [];
    relay_hosts = [];
    resolve_url = λ path base. none;
    post_payment = λ session issued. none;
  };
  profiles = λ name. some profile;
  fixture_url = λ name. codes "https://shop.sg/1";
  get_card = λ name amount. some card;
  pay_and_issue = λ url header amount name.
      some (some (record { card_opaque_id = codes "c1"; settlement_tx = hash }));
}

abbrev times : Times
times = record {
  started = 1000000;
  intent = 1000001;
  challenge = 1100000;
  decision = 1200000;
  scheduled = 1200001;
  observed = 1300000;
  spend = 1300001;
  settlement = 1300002;
  capture = 1300003;
}

abbrev id : Text
id = codes "r1"

abbrev input : RunInput
input = record {
  instruction = codes "shoes";
  mandate_id = codes "m1";
  agent_id = codes "a1";
  source = fixture (codes "clean");
  cardholder_name = none;
}

abbrev context : PendingContext
context = record {
  input = input;
  resolved_item = item;
  card_result = card;
  amount_sgd = 7 * 2 ^ 50;
  profile = profile;
}

abbrev waiting : World
waiting = record {
  run = record (create_run id) { state = RunState.escalated };
  pending = some context;
  timer = some 1400250;
  ledger = record ledger { escalations = (codes "r1", escalation) ∷ [] };
}

abbrev ended : World
ended = run_to_end services times id input ledger

start_run-IsSettled_example :
    StartsSettled services times id input (start_run services times id input ledger)
start_run-IsSettled_example = start_run-IsSettled services times id input ledger

start_run-IsLogged_example : IsLogged ended
unfolding start_run straitsx.Agent.Pipeline.Execution.product_url
start_run-IsLogged_example = start_run-IsLogged services times id input ledger ended refl

start_run-HasMoved_example :
    (card : CardResult) × (amount_sgd : ℕ) × (issued : Issued) × (services.get_card
        (cardholder_of input)
        amount_sgd
      ≡ some card)
    × HasMoved services card issued
    × HasCapture id issued.settlement_tx ended.ledger
unfolding straitsx.Dict.get straitsx.Dict.put straitsx.Text.same straitsx.Text.present
    straitsx.Text.lower_code straitsx.Text.lower straitsx.Text.BigInt.trim
    straitsx.Text.BigInt.is_digit straitsx.Text.BigInt.number_in straitsx.Text.BigInt.big_int
    straitsx.Text.BigInt.all_digits straitsx.Text.BigInt.is_uint straitsx.Text.Hex.is_hex_digit
    straitsx.Text.Hex.hex_digits straitsx.Text.Hex.is_hex straitsx.Text.BigInt.Decimal.to_decimal
    straitsx.Contracts.Validation.parse_address straitsx.Contracts.Validation.parse_bytes32
    straitsx.Contracts.Validation.parse_uint straitsx.Contracts.Validation.is_supported_chain_id
    straitsx.Contracts.Validation.parse_chain_id straitsx.Contracts.Mandate.join
    straitsx.Contracts.Mandate.encoded_fields straitsx.Contracts.Mandate.serialise
    straitsx.Contracts.Mandate.hash_policy straitsx.Contracts.Mandate.hash_intent_instruction
    straitsx.Contracts.Mandate.strip straitsx.Contracts.Mandate.nonce_words
    straitsx.Contracts.Mandate.build_commitment_nonce straitsx.Ledger.State.intent_view_of
    straitsx.Ledger.State.append_event straitsx.Ledger.State.save_intent
    straitsx.Ledger.State.status straitsx.Ledger.Intents.present_time
    straitsx.Ledger.Intents.new_intent straitsx.Ledger.Intents.create_intent
    straitsx.Ledger.Intents.on_intent straitsx.Ledger.Intents.read_intent
    straitsx.Ledger.Intents.with_challenge straitsx.Ledger.Intents.attach_to
    straitsx.Ledger.Intents.attach_challenge straitsx.Ledger.Intents.holds_nonce
    straitsx.Ledger.Intents.with_nonce straitsx.Ledger.Intents.reserve_on
    straitsx.Ledger.Intents.reserve_nonce straitsx.Ledger.Intents.without_nonce
    straitsx.Ledger.Intents.release_on straitsx.Ledger.Intents.release_nonce
    straitsx.Ledger.Outcomes.with_decision straitsx.Ledger.Outcomes.log_entry
    straitsx.Ledger.Outcomes.decide_intent straitsx.Ledger.Outcomes.decision_fields
    straitsx.Ledger.Outcomes.record_decision straitsx.Ledger.Outcomes.settlement_of
    straitsx.Ledger.Outcomes.bad_hash straitsx.Ledger.Outcomes.settle_on
    straitsx.Ledger.Outcomes.record_settlement straitsx.Ledger.Outcomes.capture_fields
    straitsx.Ledger.Outcomes.differs_from straitsx.Ledger.Outcomes.capture_of
    straitsx.Ledger.Outcomes.capture_against straitsx.Ledger.Outcomes.capture_on
    straitsx.Ledger.Outcomes.record_capture straitsx.Ledger.Outcomes.spend_of
    straitsx.Ledger.Outcomes.spend_on straitsx.Ledger.Outcomes.record_spend
    straitsx.Ledger.Outcomes.receipt_of straitsx.Ledger.Outcomes.read_receipt
    straitsx.Ledger.Window.before_window straitsx.Ledger.Window.counted
    straitsx.Ledger.Window.usage_from straitsx.Ledger.Window.remaining_of
    straitsx.Ledger.Window.read_window straitsx.Ledger.Storage.read_policy
    straitsx.Ledger.Storage.put_policy straitsx.Ledger.Storage.present_number
    straitsx.Ledger.Storage.new_escalation straitsx.Ledger.Storage.create_escalation
    straitsx.Ledger.Storage.read_escalation straitsx.Ledger.Storage.resolved_with
    straitsx.Ledger.Storage.resolve_escalation straitsx.Ledger.Storage.approval_key
    straitsx.Ledger.Storage.set_standing_approval straitsx.Ledger.Storage.is_active
    straitsx.Ledger.Storage.read_standing_approval straitsx.Policy.Checks.mandate_live
    straitsx.Policy.Checks.policy_hash straitsx.Policy.Checks.chain_asset
    straitsx.Policy.Checks.recipient_pinned straitsx.Policy.Checks.ceiling_of
    straitsx.Policy.Checks.bounds_of straitsx.Policy.Checks.amount_bounds
    straitsx.Policy.Checks.budget_of straitsx.Policy.Checks.window_budget
    straitsx.Policy.Checks.validity_sane straitsx.Policy.Checks.not_before
    straitsx.Policy.Checks.intent_bound straitsx.Policy.Checks.checks
    straitsx.Policy.Checks.run_checks straitsx.Policy.Checks.some_domain
    straitsx.Policy.Checks.escalates_intent straitsx.Policy.Signing.build_typed_data
    straitsx.Policy.Signing.accepted_of straitsx.Policy.Signing.commitment_of
    straitsx.Policy.Signing.valid_after_of straitsx.Policy.Signing.valid_before_of
    straitsx.Policy.Signing.sign_request straitsx.Policy.Signing.after_signer
    straitsx.Policy.Signing.after_reserve straitsx.Policy.Signing.perform_signing
    straitsx.Policy.Answers.usable_domain straitsx.Policy.Answers.called
    straitsx.Policy.Answers.close straitsx.Policy.Approval.build_escalation_message
    straitsx.Policy.Approval.is_signature_text straitsx.Policy.Approval.verify_escalation_signature
    straitsx.Policy.Payment.check_text straitsx.Policy.Payment.refuse_and_record
    straitsx.Policy.Payment.after_escalation straitsx.Policy.Payment.escalate_and_respond
    straitsx.Policy.Payment.settle_payment straitsx.Policy.Payment.payment_job
    straitsx.Policy.Payment.match_and_sign straitsx.Policy.Payment.check_context
    straitsx.Policy.Payment.after_checks straitsx.Policy.Payment.check_loaded
    straitsx.Policy.Payment.load_and_check straitsx.Policy.Payment.handle_payment
    straitsx.Policy.Payment.parse_payment straitsx.Policy.Payment.payment
    straitsx.Chain.Settlement.transfer_matches straitsx.Chain.Settlement.log_matches
    straitsx.Chain.Settlement.index_or_zero straitsx.Chain.Settlement.first_match
    straitsx.Chain.Settlement.find_matching_transfer straitsx.Chain.Settlement.rpc_status
    straitsx.Chain.Settlement.parse_confirm straitsx.Chain.Settlement.confirmation_of
    straitsx.Chain.Settlement.with_head straitsx.Chain.Settlement.with_receipt
    straitsx.Chain.Settlement.confirm_settlement straitsx.Agent.Step.return
    straitsx.Agent.Step.throw straitsx.Agent.Step.lift straitsx.Agent.Step.modify
    straitsx.Agent.Step.◌>>=◌ straitsx.Agent.Step.◌>>◌ straitsx.Agent.Step.try_catch
    straitsx.Agent.Run.create_run straitsx.Agent.Run.set_run_state
    straitsx.Agent.Run.set_discovered_item straitsx.Agent.Run.set_outcome
    straitsx.Agent.Run.stream_event straitsx.Agent.Run.emit_event straitsx.Agent.Price.is_whole
    straitsx.Agent.Price.is_fraction straitsx.Agent.Price.split_point
    straitsx.Agent.Price.padded_fraction straitsx.Agent.Price.base_units
    straitsx.Agent.Price.dollars_to_base_units6 straitsx.Agent.Price.zeros
    straitsx.Agent.Price.pad_start6 straitsx.Agent.Price.print_sgd straitsx.Agent.Price.round_even
    straitsx.Agent.Price.nearest_double straitsx.Agent.Price.number_of
    straitsx.Agent.Price.amount_of straitsx.Agent.Price.exact_amount_sgd
    straitsx.Agent.Checkout.includes straitsx.Agent.Checkout.assert_checkout_domain
    straitsx.Agent.Checkout.read_confirmation straitsx.Agent.Checkout.after_assertion
    straitsx.Agent.Checkout.run_checkout straitsx.Agent.Checkout.host_allowed
    straitsx.Agent.Checkout.ucp_spend straitsx.Agent.Checkout.complete_ucp_checkout
    straitsx.Agent.Discovery.next_label straitsx.Agent.Discovery.is_hostname_from
    straitsx.Agent.Discovery.is_session_id straitsx.Agent.Discovery.checkout_url_of
    straitsx.Agent.Discovery.shopify_guard straitsx.Agent.Discovery.discover_shopify_checkout
    straitsx.Agent.Discovery.compromise_of straitsx.Agent.Discovery.discover_product
    straitsx.Agent.Discovery.merchant_item straitsx.Agent.Discovery.discover_merchant_product
    straitsx.Agent.Pipeline.on_run straitsx.Agent.Pipeline.safe_failure
    straitsx.Agent.Pipeline.call_ledger straitsx.Agent.Pipeline.call_create
    straitsx.Agent.Pipeline.policy_reply straitsx.Agent.Pipeline.requested_challenge
    straitsx.Agent.Pipeline.requested_amount straitsx.Agent.Pipeline.payment_body
    straitsx.Agent.Pipeline.confirm_body straitsx.Agent.Pipeline.Execution.fires_at
    straitsx.Agent.Pipeline.Execution.profile_of straitsx.Agent.Pipeline.Execution.discover
    straitsx.Agent.Pipeline.Execution.checkout_of straitsx.Agent.Pipeline.Execution.domain_asserted
    straitsx.Agent.Pipeline.Execution.attest straitsx.Agent.Pipeline.Execution.finalize
    straitsx.Agent.Pipeline.Execution.continue_issued
    straitsx.Agent.Pipeline.Execution.continue_signed_run
    straitsx.Agent.Pipeline.Execution.handle_decision
    straitsx.Agent.Pipeline.Execution.request_payment straitsx.Agent.Pipeline.Execution.execute_run
    straitsx.Agent.Pipeline.Execution.fresh_world straitsx.Agent.Pipeline.Execution.product_url
    straitsx.Agent.Pipeline.Execution.run_to_end straitsx.Agent.Pipeline.Execution.start_run
    straitsx.Prelude.◌+ℤ◌
start_run-HasMoved_example = start_run-HasMoved services times id input ledger ended refl refl

resolve_run_escalation-Ends_example :
    ResolutionEnds services times id waiting
      (resolve_run_escalation services id times 1300000 (timer_body services id) waiting)
unfolding straitsx.Agent.Run.create_run
resolve_run_escalation-Ends_example =
    resolve_run_escalation-Ends services times id 1300000 (timer_body services id) waiting context
      refl refl

expire_escalation-deadline_example :
    IsExpired id 1400250 waiting escalation (expire_escalation services id 1400250 waiting)
unfolding straitsx.Dict.get straitsx.Text.same straitsx.Agent.Run.create_run
expire_escalation-deadline_example =
    expire_escalation-deadline services id 1400250 waiting escalation refl refl refl

confirm_settlement-IsVerdict_example :
    (request : ConfirmRequest) × (parse_confirm body ≡ some request)
    × ((r : Receipt) × (rpc.get_transaction_receipt request.chain_id request.tx_hash ≡ answer r)
        × IsVerdict rpc.decode request.expect r confirmation)
unfolding straitsx.Text.same straitsx.Text.present straitsx.Text.lower_code straitsx.Text.lower
    straitsx.Text.BigInt.trim straitsx.Text.BigInt.is_digit straitsx.Text.BigInt.number_in
    straitsx.Text.BigInt.big_int straitsx.Text.BigInt.all_digits straitsx.Text.BigInt.is_uint
    straitsx.Text.Hex.is_hex_digit straitsx.Text.Hex.hex_digits straitsx.Text.Hex.is_hex
    straitsx.Text.BigInt.Decimal.to_decimal straitsx.Contracts.Validation.parse_address
    straitsx.Contracts.Validation.parse_bytes32 straitsx.Contracts.Validation.parse_uint
    straitsx.Contracts.Validation.is_supported_chain_id straitsx.Contracts.Validation.parse_chain_id
    straitsx.Chain.Settlement.transfer_matches straitsx.Chain.Settlement.log_matches
    straitsx.Chain.Settlement.index_or_zero straitsx.Chain.Settlement.first_match
    straitsx.Chain.Settlement.find_matching_transfer straitsx.Chain.Settlement.rpc_status
    straitsx.Chain.Settlement.parse_confirm straitsx.Chain.Settlement.confirmation_of
    straitsx.Chain.Settlement.with_head straitsx.Chain.Settlement.with_receipt
    straitsx.Chain.Settlement.confirm_settlement straitsx.Prelude.◌+ℤ◌
confirm_settlement-IsVerdict_example = confirm_settlement-IsVerdict rpc body confirmation refl

abbrev not_found : ℕ
not_found = 404

confirm_settlement-errors_example :
    ((parse_confirm body ≡ none) × (not_found ≡ 400))
    ⊎ ((is_some (parse_confirm body) ≡ true)
        × ((not_found ≡ not_found) ⊎ (not_found ≡ 502) ⊎ (not_found ≡ 504)))
unfolding straitsx.Text.same straitsx.Text.present straitsx.Text.lower_code straitsx.Text.lower
    straitsx.Text.BigInt.trim straitsx.Text.BigInt.is_digit straitsx.Text.BigInt.number_in
    straitsx.Text.BigInt.big_int straitsx.Text.BigInt.all_digits straitsx.Text.BigInt.is_uint
    straitsx.Text.Hex.is_hex_digit straitsx.Text.Hex.hex_digits straitsx.Text.Hex.is_hex
    straitsx.Text.BigInt.Decimal.to_decimal straitsx.Contracts.Validation.parse_address
    straitsx.Contracts.Validation.parse_bytes32 straitsx.Contracts.Validation.parse_uint
    straitsx.Contracts.Validation.is_supported_chain_id straitsx.Contracts.Validation.parse_chain_id
    straitsx.Chain.Settlement.transfer_matches straitsx.Chain.Settlement.log_matches
    straitsx.Chain.Settlement.index_or_zero straitsx.Chain.Settlement.first_match
    straitsx.Chain.Settlement.find_matching_transfer straitsx.Chain.Settlement.rpc_status
    straitsx.Chain.Settlement.parse_confirm straitsx.Chain.Settlement.confirmation_of
    straitsx.Chain.Settlement.with_head straitsx.Chain.Settlement.with_receipt
    straitsx.Chain.Settlement.confirm_settlement straitsx.Prelude.◌+ℤ◌
confirm_settlement-errors_example = confirm_settlement-errors lost body not_found refl
