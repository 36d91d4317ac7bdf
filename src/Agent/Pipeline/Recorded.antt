-- ===== src/Agent/Pipeline/Recorded.antt =====
-- What a success of the settlement's and the capture's route leaves in the ledger.
use mathlib.Core.Path.{subst}
use straitsx.Prelude.{
  ℕ, ◌≡◌, refl, sym, true, some, arith, inl, inr, Bool-cases, Option-cases, is_some,
}
use straitsx.Text.{Text, same_refl, present}
use straitsx.Dict.{get, get-put}
use straitsx.Ledger.State.{
  Timestamp, IntentRecord, IntentState, Settlement, Ledger, LedgerEventKind, append_event,
  save_intent, Reply, sent, failed, invalid_body, intent_not_found, capture_exists,
  settlement_mismatch,
}
use straitsx.Ledger.Intents.{on_intent}
use straitsx.Ledger.Outcomes.{
  SettlementBody, settlement_of, bad_hash, settle_on, record_settlement, CaptureBody,
  capture_fields, differs_from, capture_of, capture_against, capture_on, record_capture,
}

-- What holds of the ledger after an answer that is a success.
abbrev pub OnSuccess : {A : Type 0} → (Ledger → Type 0) → Ledger × Reply A → Type 0
OnSuccess P (l, sent status a) = P l
OnSuccess P (l, failed status code) = Unit

-- The intent is settled by the transaction.
pub record HasSettlement (request_id tx : Text) (l : Ledger) : Type 0 where
  pub intent : IntentRecord
  pub stored : get request_id l.intents ≡ some intent
  pub settlement : Settlement
  pub settled : intent.settlement ≡ some settlement
  pub by_tx : settlement.settlement_tx ≡ tx

-- The intent is settled by the transaction, and its order is captured.
pub record HasCapture (request_id tx : Text) (l : Ledger) : Type 0 where
  pub settlement : HasSettlement request_id tx l
  pub captured : is_some settlement.intent.capture ≡ true
  pub state : settlement.intent.state ≡ IntentState.captured

by_equation :
    {A : Type 0} (P : Ledger → Type 0) {r q : Ledger × Reply A}
    → r ≡ q
    → OnSuccess P q
    → OnSuccess P r
by_equation P e h = subst (λ x. OnSuccess P x) (sym e) h

on_intent-OnSuccess :
    {A : Type 0} (P : Ledger → Type 0) (id : Text) (h : IntentRecord → Ledger → Ledger × Reply A)
    (l : Ledger)
    → ((i : IntentRecord) → get id l.intents ≡ some i → OnSuccess P (h i l))
    → OnSuccess P (on_intent id h l)
unfolding on_intent
on_intent-OnSuccess P id h l k = elim (Option-cases (get id l.intents)) [
  | inl e ↦ by_equation P {q = (l, failed 404 intent_not_found)} (ground (arith, e)) tt
  | inr (i, e) ↦ by_equation P {q = h i l} (ground (arith, e)) (k i e)
]

get-save_intent :
    (now : ℕ) (kind : LedgerEventKind) (id : Text) (i : IntentRecord) (l : Ledger)
    → get id (save_intent now kind id i l).intents ≡ some i
unfolding save_intent append_event
get-save_intent now kind id i l = ground (arith, get-put id id i l.intents, same_refl id)

settlement_of-tx :
    (body : SettlementBody) (s : Settlement) (tx : Text)
    → body.settlement_tx ≡ some tx
    → settlement_of body ≡ some s
    → s.settlement_tx ≡ tx
unfolding settlement_of present
settlement_of-tx body s tx h e = ground arith

settle_on-HasSettlement :
    (now : ℕ) (id : Text) (body : SettlementBody) (tx : Text) (i : IntentRecord) (l : Ledger)
    → body.settlement_tx ≡ some tx
    → OnSuccess (HasSettlement id tx) (settle_on now id body i l)
unfolding settle_on
settle_on-HasSettlement now id body tx i l h = elim (Option-cases (settlement_of body)) [
  | inl e ↦
      by_equation (HasSettlement id tx) {q = (l, failed 400 invalid_body)} (ground (arith, e)) tt
  | inr (s, e) ↦ elim (Bool-cases (bad_hash s.raw_tool_result_hash)) [
    | inl bad ↦
        by_equation (HasSettlement id tx) {q = (l, failed 400 invalid_body)}
          (ground (arith, e, bad)) tt
    | inr good ↦
        let j = record i { settlement = some s; state = IntentState.settled } in
        let stored = get-save_intent now LedgerEventKind.settlement_recorded id j l in
        by_equation (HasSettlement id tx)
          {q = (save_intent now LedgerEventKind.settlement_recorded id j l, sent 200 tt)}
          (ground (arith, e, good))
          (record {
            intent = j;
            stored = stored;
            settlement = s;
            settled = refl;
            by_tx = settlement_of-tx body s tx h e;
          })
  ]
]

pub record_settlement-HasSettlement :
    (now : ℕ) (id : Text) (body : SettlementBody) (tx : Text) (l : Ledger)
    → body.settlement_tx ≡ some tx
    → OnSuccess (HasSettlement id tx) (record_settlement now id body l)
unfolding record_settlement
record_settlement-HasSettlement now id body tx l h =
    on_intent-OnSuccess (HasSettlement id tx) id (settle_on now id body) l
      λ i e. settle_on-HasSettlement now id body tx i l h

capture_against-HasCapture :
    (now : ℕ) (id : Text) (body : CaptureBody) (order : Text) (at : Timestamp) (i : IntentRecord)
    (s : Settlement) (l : Ledger)
    → i.settlement ≡ some s
    → OnSuccess (HasCapture id s.settlement_tx) (capture_against now id body order at i (some s) l)
unfolding capture_against
capture_against-HasCapture now id body order at i s l h =
    elim (Bool-cases (differs_from s.settlement_tx body.settlement_tx)) [
      | inl bad ↦
          by_equation (HasCapture id s.settlement_tx) {q = (l, failed 409 settlement_mismatch)}
            (ground (arith, bad)) tt
      | inr good ↦
          let j = record i {
            capture = some (capture_of body order at s);
            state = IntentState.captured;
          } in
          let stored = get-save_intent now LedgerEventKind.capture_recorded id j l in
          by_equation (HasCapture id s.settlement_tx)
            {q = (save_intent now LedgerEventKind.capture_recorded id j l, sent 200 tt)}
            (ground (arith, good))
            (record {
              settlement = record {
                intent = j;
                stored = stored;
                settlement = s;
                settled = h;
                by_tx = refl;
              };
              captured = refl;
              state = refl;
            })
    ]

capture_on-HasCapture :
    (now : ℕ) (id : Text) (body : CaptureBody) (i : IntentRecord) (s : Settlement) (l : Ledger)
    → i.settlement ≡ some s
    → OnSuccess (HasCapture id s.settlement_tx) (capture_on now id body i l)
unfolding capture_on
capture_on-HasCapture now id body i s l h = elim (Option-cases (capture_fields body)) [
  | inl e ↦
      by_equation (HasCapture id s.settlement_tx) {q = (l, failed 400 invalid_body)}
        (ground (arith, e)) tt
  | inr ((order, at), e) ↦ elim (Bool-cases (is_some i.capture)) [
    | inl bad ↦
        by_equation (HasCapture id s.settlement_tx) {q = (l, failed 409 capture_exists)}
          (ground (arith, e, bad)) tt
    | inr good ↦
        by_equation (HasCapture id s.settlement_tx)
          {q = capture_against now id body order at i (some s) l} (cc (e, good, h))
          (capture_against-HasCapture now id body order at i s l h)
  ]
]

stored-settled :
    (id : Text) (l : Ledger) (i j : IntentRecord) (s : Settlement)
    → get id l.intents ≡ some i
    → get id l.intents ≡ some j
    → i.settlement ≡ some s
    → j.settlement ≡ some s
stored-settled id l i j s h k e = cc

-- A success of the capture's route against a settled intent.
pub record_capture-HasCapture :
    (now : ℕ) (id : Text) (body : CaptureBody) (tx : Text) (l : Ledger)
    → HasSettlement id tx l
    → OnSuccess (HasCapture id tx) (record_capture now id body l)
unfolding record_capture
record_capture-HasCapture now id body tx l w = rw (← w.by_tx) (
    on_intent-OnSuccess (HasCapture id w.settlement.settlement_tx) id (capture_on now id body) l
      λ i e.
        capture_on-HasCapture now id body i w.settlement l
          (stored-settled id l w.intent i w.settlement w.stored e w.settled))
