-- ===== src/Ledger/Outcomes.antt =====
-- services/ledger-service/src/app.ts: decisions, settlement, capture, spend and the receipt.
use straitsx.Prelude.{
  ℕ, ◌+◌, Bool, false, not, Option, none, some, [], ◌∷◌, ◌++◌, if◌then◌else◌, is_some, ◌>>=◌,
  length,
}
use straitsx.Text.{Text, present, same}
use straitsx.Text.Hex.{is_hex}
use straitsx.Ledger.State.{
  Timestamp, IntentState, IntentRecord, Decision, signed, DecisionLogEntry, Settlement, Spend,
  Capture, ChallengeView, challenge_view_of, Ledger, LedgerEventKind, save_intent, Reply, sent,
  failed, invalid_body, intent_not_found, capture_exists, settlement_not_recorded,
  settlement_mismatch,
}
use straitsx.Dict.{get}
use straitsx.Ledger.Intents.{present_time, on_intent}

pub record DecisionBody : Type 0 where
  pub request_id : Option Text
  pub decision : Option Decision
  pub check : Option Text
  pub detail : Option Text
  pub decided_at : Option Timestamp
  pub policy_hash : Option Text
  pub merchant_domain : Option Text
  pub valid_after : Option ℕ
  pub valid_before : Option ℕ

unfoldable pub with_decision : DecisionBody → Decision → Timestamp → IntentRecord → IntentRecord
with_decision body signed decided_at intent = record intent {
  decision = some signed;
  decided_at = some decided_at;
  policy_hash = body.policy_hash;
  merchant_domain = body.merchant_domain;
  valid_after = body.valid_after;
  valid_before = body.valid_before;
  state = IntentState.signed;
}
with_decision body decision decided_at intent = record intent {
  decision = some decision;
  decided_at = some decided_at;
}

unfoldable pub log_entry : DecisionBody → Text → Decision → Timestamp → Ledger → DecisionLogEntry
log_entry body request_id decision decided_at l = record {
  sequence = length l.decision_log + 1;
  request_id = request_id;
  decision = decision;
  check = body.check;
  detail = body.detail;
  decided_at = decided_at;
}

-- The push to the decision log and the write of the intent.
unfoldable pub decide_intent :
    ℕ → DecisionBody → Text → Decision → Timestamp → IntentRecord → Ledger → Ledger × Reply ℕ
unfolding log_entry
decide_intent now body request_id decision decided_at intent l =
    let entry = log_entry body request_id decision decided_at l in
    (
      save_intent now LedgerEventKind.decision_recorded request_id
          (with_decision body decision decided_at intent)
          (record l { decision_log = l.decision_log ++ entry ∷ [] }),
      sent 200 entry.sequence,
    )

unfoldable pub decision_fields : DecisionBody → Option (Text × Decision × Timestamp)
decision_fields body = do
  request_id ← present body.request_id
  decision ← body.decision
  decided_at ← present_time body.decided_at
  some (request_id, decision, decided_at)

-- POST /decision
unfoldable pub record_decision : ℕ → DecisionBody → Ledger → Ledger × Reply ℕ
unfolding decision_fields present present_time on_intent decide_intent
record_decision now body l = elim (decision_fields body) [
  | none ↦ (l, failed 400 invalid_body)
  | some (request_id, decision, decided_at) ↦
      on_intent request_id (decide_intent now body request_id decision decided_at) l
]

pub record SettlementBody : Type 0 where
  pub settlement_tx : Option Text
  pub block_number : Option ℕ
  pub card_opaque_id : Option Text
  pub raw_tool_result_hash : Option Text

unfoldable pub settlement_of : SettlementBody → Option Settlement
settlement_of body = do
  settlement_tx ← present body.settlement_tx
  block_number ← body.block_number
  card_opaque_id ← present body.card_opaque_id
  some (record {
    settlement_tx = settlement_tx;
    block_number = block_number;
    card_opaque_id = card_opaque_id;
    raw_tool_result_hash = body.raw_tool_result_hash;
  })

-- `rawToolResultHash !== undefined && !/^0x[0-9a-fA-F]{64}$/.test(rawToolResultHash)`
unfoldable pub bad_hash : Option Text → Bool
bad_hash none = false
bad_hash (some h) = not (is_hex 64 h)

unfoldable pub settle_on :
    ℕ → Text → SettlementBody → IntentRecord → Ledger → Ledger × Reply (Unit {0})
unfolding settlement_of bad_hash
settle_on now request_id body intent l = elim (settlement_of body) [
  | none ↦ (l, failed 400 invalid_body)
  | some settlement ↦
      if bad_hash settlement.raw_tool_result_hash then (l, failed 400 invalid_body) else (
        save_intent now LedgerEventKind.settlement_recorded request_id
            (record intent { settlement = some settlement; state = IntentState.settled }) l,
        sent 200 tt,
      )
]

-- POST /intent/:requestId/settlement
unfoldable pub record_settlement : ℕ → Text → SettlementBody → Ledger → Ledger × Reply (Unit {0})
unfolding on_intent present is_hex settle_on
record_settlement now request_id body = on_intent request_id (settle_on now request_id body)

pub record CaptureBody : Type 0 where
  pub order_id : Option Text
  pub captured_at : Option Timestamp
  pub settlement_tx : Option Text
  pub block_number : Option ℕ

unfoldable pub capture_fields : CaptureBody → Option (Text × Timestamp)
capture_fields body = do
  order_id ← present body.order_id
  captured_at ← present_time body.captured_at
  some (order_id, captured_at)

-- `settlementTx && intent.settlement.settlementTx !== settlementTx`
unfoldable pub differs_from : Text → Option Text → Bool
differs_from recorded given = elim (present given) [
  | none ↦ false
  | some tx ↦ not (same recorded tx)
]

unfoldable pub capture_of : CaptureBody → Text → Timestamp → Settlement → Capture
capture_of body order_id captured_at settlement = record {
  order_id = order_id;
  captured_at = captured_at;
  settlement_tx = settlement.settlement_tx;
  block_number = elim body.block_number [ none ↦ settlement.block_number | some n ↦ n ];
}

-- The capture of an intent that has none, against the recorded settlement.
unfoldable pub capture_against :
    ℕ
    → Text
    → CaptureBody
    → Text
    → Timestamp
    → IntentRecord
    → Option Settlement
    → Ledger
    → Ledger × Reply (Unit {0})
unfolding differs_from capture_of
capture_against now request_id body order_id captured_at intent none l =
    (l, failed 409 settlement_not_recorded)
capture_against now request_id body order_id captured_at intent (some settlement) l =
    if differs_from settlement.settlement_tx body.settlement_tx
    then (l, failed 409 settlement_mismatch)
    else (
      save_intent now LedgerEventKind.capture_recorded request_id
          (record intent {
            capture = some (capture_of body order_id captured_at settlement);
            state = IntentState.captured;
          })
          l,
      sent 200 tt,
    )

unfoldable pub capture_on :
    ℕ → Text → CaptureBody → IntentRecord → Ledger → Ledger × Reply (Unit {0})
unfolding capture_fields
capture_on now request_id body intent l = elim (capture_fields body) [
  | none ↦ (l, failed 400 invalid_body)
  | some (order_id, captured_at) ↦
      if is_some intent.capture
      then (l, failed 409 capture_exists)
      else capture_against now request_id body order_id captured_at intent intent.settlement l
]

-- POST /intent/:requestId/capture
unfoldable pub record_capture : ℕ → Text → CaptureBody → Ledger → Ledger × Reply (Unit {0})
unfolding on_intent present present_time capture_against capture_on
record_capture now request_id body = on_intent request_id (capture_on now request_id body)

pub record SpendBody : Type 0 where
  pub merchant_domain : Option Text
  pub order_total : Option Text
  pub item_sku : Option Text
  pub order_id : Option Text
  pub observed_at : Option Timestamp

unfoldable pub spend_of : SpendBody → Option Spend
spend_of body = do
  merchant_domain ← present body.merchant_domain
  order_total ← present body.order_total
  item_sku ← present body.item_sku
  order_id ← present body.order_id
  observed_at ← present_time body.observed_at
  some (record {
    merchant_domain = merchant_domain;
    order_total = order_total;
    item_sku = item_sku;
    order_id = order_id;
    observed_at = observed_at;
  })

unfoldable pub spend_on : ℕ → Text → SpendBody → IntentRecord → Ledger → Ledger × Reply (Unit {0})
unfolding spend_of
spend_on now request_id body intent l = elim (spend_of body) [
  | none ↦ (l, failed 400 invalid_body)
  | some spend ↦ (
    save_intent now LedgerEventKind.spend_recorded request_id (record intent { spend = some spend })
        l,
    sent 200 tt,
  )
]

-- POST /intent/:requestId/spend
unfoldable pub record_spend : ℕ → Text → SpendBody → Ledger → Ledger × Reply (Unit {0})
unfolding on_intent present present_time spend_on
record_spend now request_id body = on_intent request_id (spend_on now request_id body)

pub record Receipt : Type 0 where
  pub request_id : Text
  pub mandate_id : Text
  pub policy_hash : Option Text
  pub intent : Text
  pub intent_hash : Text
  pub merchant_domain : Option Text
  pub challenge : Option ChallengeView
  pub authorization : Option (Option ℕ × Option ℕ × Text)
  pub settlement_tx : Option Text
  pub block_number : Option ℕ
  pub card_opaque_id : Option Text
  pub raw_tool_result_hash : Option Text
  pub decision : Option Decision
  pub decided_at : Option Timestamp
  pub spend_leg : Option (Text × Text)

abbrev settled_with {ℓ} : {A : Type ℓ} → (Settlement → Option A) → IntentRecord → Option A
settled_with f intent = elim intent.settlement [ none ↦ none | some s ↦ f s ]

unfoldable pub receipt_of : IntentRecord → Receipt
unfolding present
receipt_of intent = record {
  request_id = intent.request_id;
  mandate_id = intent.mandate_id;
  policy_hash = intent.policy_hash;
  intent = intent.instruction;
  intent_hash = intent.instruction_hash;
  merchant_domain = intent.merchant_domain;
  challenge = challenge_view_of intent.challenge;
  authorization = elim (present intent.nonce) [
    | none ↦ none
    | some nonce ↦ some (intent.valid_after, intent.valid_before, nonce)
  ];
  settlement_tx = settled_with (λ s. some s.settlement_tx) intent;
  block_number = settled_with (λ s. some s.block_number) intent;
  card_opaque_id = settled_with (λ s. some s.card_opaque_id) intent;
  raw_tool_result_hash = settled_with (λ s. s.raw_tool_result_hash) intent;
  decision = intent.decision;
  decided_at = intent.decided_at;
  spend_leg = elim intent.spend [ none ↦ none | some s ↦ some (s.merchant_domain, s.order_total) ];
}

-- GET /receipt/:requestId
unfoldable pub read_receipt : Text → Ledger → Reply Receipt
unfolding receipt_of
read_receipt request_id l = elim (get request_id l.intents) [
  | none ↦ failed 404 intent_not_found
  | some intent ↦ sent 200 (receipt_of intent)
]
