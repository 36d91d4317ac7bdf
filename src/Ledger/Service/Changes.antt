-- ===== src/Ledger/Service/Changes.antt =====
-- Every mutating route, on every branch, leaves the intents alone, adds a fresh one under a free
-- identifier, or takes one stored intent along a transition of its life.
use straitsx.Prelude.{
  ℕ, ◌≡◌, refl, false, Option, none, some, [], ◌∷◌, arith, ◌⊎◌, inl, inr, is_some, Bool-cases,
  Option-cases,
}
use straitsx.Text.{Text}
use straitsx.Dict.{get, put}
use straitsx.Contracts.Types.{X402Requirements}
use straitsx.Ledger.State.{
  IntentRecord, Timestamp, Decision, Settlement, Ledger, Reply, save_intent, append_event,
}
use straitsx.Ledger.Intents.{
  CreateIntent, new_intent, create_intent, on_intent, attach_to, attach_challenge, holds_nonce,
  reserve_on, reserve_nonce, is_signed, release_on, release_nonce,
}
use straitsx.Ledger.Outcomes.{
  DecisionBody, decision_fields, record_decision, decide_intent, SettlementBody, settlement_of,
  bad_hash, settle_on, record_settlement, CaptureBody, capture_fields, differs_from,
  capture_against, capture_on, record_capture, SpendBody, spend_of, spend_on, record_spend,
}
use straitsx.Ledger.Storage.{
  put_policy, create_escalation, resolve_escalation, set_standing_approval,
}
use straitsx.Ledger.Lifecycle.{
  Evolves, is_release, attach, reserve, release, decide, settle, capture, spend,
}
use straitsx.Ledger.Service.{
  Request, post_intent, post_challenge, post_nonce, post_release, post_decision, post_settlement,
  post_capture, post_spend, put_policy_body, post_escalation, put_escalation, post_approval, handle,
}

-- A record that POST /intent has just made.
pub record IsFresh (hash_of : Text → Text) (i : IntentRecord) : Type 0 where
  pub body : CreateIntent
  pub made : new_intent hash_of body ≡ some i

module _ (hash_of : Text → Text) where
  pub data Change (q : Request) (l m : Ledger) : Type 0 where
    unchanged : m.intents ≡ l.intents → Change q l m
    created :
        (i : IntentRecord)
        → IsFresh hash_of i
        → get i.request_id l.intents ≡ none
        → m.intents ≡ put i.request_id i l.intents
        → Change q l m
    updated :
        (r : Text) (i j : IntentRecord)
        → get r l.intents ≡ some i
        → (e : Evolves i j) → (is_release e ≡ false) ⊎ (q ≡ post_release r)
        → m.intents ≡ put r j l.intents
        → Change q l m

  on_intent-Change {ℓ} :
      {A : Type ℓ} {q : Request} (r : Text) (handler : IntentRecord → Ledger → Ledger × Reply A)
      (l : Ledger)
      → ((i : IntentRecord) → get r l.intents ≡ some i → Change q l (handler i l).0)
      → Change q l (on_intent r handler l).0
  unfolding on_intent
  on_intent-Change r handler l h = elim (Option-cases (get r l.intents)) [
    | inl e ↦ rw (e, on_intent) (unchanged refl)
    | inr (i, e) ↦ rw (e, on_intent) (h i e)
  ]

  create_intent-Change :
      {q : Request} (now : ℕ) (body : CreateIntent) (l : Ledger)
      → Change q l (create_intent hash_of now body l).0
  unfolding create_intent save_intent
  create_intent-Change now body l = elim (Option-cases (new_intent hash_of body)) [
    | inl e ↦ rw (e, create_intent) (unchanged refl)
    | inr (i, e) ↦ elim (Option-cases (get i.request_id l.intents)) [
      | inl free ↦
          rw (e, create_intent) (rw free (created i (record { body = body; made = e }) free refl))
      | inr (j, taken) ↦ rw (e, create_intent) (rw taken (unchanged refl))
    ]
  ]

  module _ (now : ℕ) (r : Text) (l : Ledger) where
    attach_challenge-Change :
        {q : Request} (body : Option X402Requirements)
        → Change q l (attach_challenge now r body l).0
    unfolding attach_challenge save_intent
    attach_challenge-Change none = on_intent-Change r (attach_to now r none) l λ i e. unchanged refl
    attach_challenge-Change (some c) = on_intent-Change r (attach_to now r (some c)) l λ i e.
        elim (Bool-cases (is_some i.challenge)) [
          | inl old ↦ rw old (unchanged refl)
          | inr new ↦ rw new (updated r i _ e (attach now c new) (inl refl) refl)
        ]

    reserve_nonce-Change :
        {q : Request} (body : Option Text) → Change q l (reserve_nonce now r body l).0
    unfolding reserve_nonce save_intent
    reserve_nonce-Change none = on_intent-Change r (reserve_on now r none) l λ i e. unchanged refl
    reserve_nonce-Change (some []) =
        on_intent-Change r (reserve_on now r (some [])) l λ i e. unchanged refl
    reserve_nonce-Change (some (c ∷ s)) =
        on_intent-Change r (reserve_on now r (some (c ∷ s))) l λ i e.
          elim (Bool-cases (holds_nonce i)) [
            | inl held ↦ rw held (unchanged refl)
            | inr free ↦ rw free (updated r i _ e (reserve now c s free) (inl refl) refl)
          ]

    release_nonce-Change : Change (post_release r) l (release_nonce now r l).0
    unfolding release_nonce save_intent
    release_nonce-Change = on_intent-Change r (release_on now r) l λ i e.
        elim (Bool-cases (is_signed i)) [
          | inl burned ↦ rw burned (unchanged refl)
          | inr open_ ↦ elim (Bool-cases (holds_nonce i)) [
            | inl held ↦ rw (open_, held) (updated r i _ e (release open_ held) (inr refl) refl)
            | inr free ↦ rw (open_, free) (unchanged refl)
          ]
        ]

    decide_intent-Change :
        {q : Request} (b : DecisionBody) (d : Decision) (t : Timestamp)
        → Change q l (on_intent r (decide_intent now b r d t) l).0
    unfolding decide_intent save_intent
    decide_intent-Change b d t =
        on_intent-Change r (decide_intent now b r d t) l
          λ i e. updated r i _ e (decide b d t) (inl refl) refl

    record_settlement-Change :
        {q : Request} (b : SettlementBody) → Change q l (record_settlement now r b l).0
    unfolding record_settlement save_intent
    record_settlement-Change b = on_intent-Change r (settle_on now r b) l λ i e.
        elim (Option-cases (settlement_of b)) [
          | inl missing ↦ rw (missing, settle_on) (unchanged refl)
          | inr (s, given) ↦ elim (Bool-cases (bad_hash s.raw_tool_result_hash)) [
            | inl bad ↦ rw (given, settle_on) (rw bad (unchanged refl))
            | inr good ↦
                rw (given, settle_on) (rw good (updated r i _ e (settle s) (inl refl) refl))
          ]
        ]

    capture_against-Change :
        {q : Request} (b : CaptureBody) (o : Text) (t : Timestamp) (i : IntentRecord)
        (s : Option Settlement)
        → get r l.intents ≡ some i
        → is_some i.capture ≡ false
        → i.settlement ≡ s
        → Change q l (capture_against now r b o t i s l).0
    unfolding capture_against save_intent
    capture_against-Change b o t i none e new same_s = unchanged refl
    capture_against-Change b o t i (some s) e new same_s =
        elim (Bool-cases (differs_from s.settlement_tx b.settlement_tx)) [
          | inl other ↦ rw other (unchanged refl)
          | inr match ↦ rw match (updated r i _ e (capture _ s new same_s refl) (inl refl) refl)
        ]

    record_capture-Change :
        {q : Request} (b : CaptureBody) → Change q l (record_capture now r b l).0
    unfolding record_capture
    record_capture-Change b = on_intent-Change r (capture_on now r b) l λ i e.
        elim (Option-cases (capture_fields b)) [
          | inl missing ↦ rw (missing, capture_on) (unchanged refl)
          | inr ((o, t), given) ↦ elim (Bool-cases (is_some i.capture)) [
            | inl old ↦ rw (given, capture_on) (rw old (unchanged refl))
            | inr new ↦
                rw (given, capture_on)
                  (rw new (capture_against-Change b o t i i.settlement e new refl))
          ]
        ]

    record_spend-Change : {q : Request} (b : SpendBody) → Change q l (record_spend now r b l).0
    unfolding record_spend save_intent
    record_spend-Change b = on_intent-Change r (spend_on now r b) l λ i e.
        elim (Option-cases (spend_of b)) [
          | inl missing ↦ rw (missing, spend_on) (unchanged refl)
          | inr (s, given) ↦ rw (given, spend_on) (updated r i _ e (spend s) (inl refl) refl)
        ]

  record_decision-Change :
      {q : Request} (now : ℕ) (b : DecisionBody) (l : Ledger)
      → Change q l (record_decision now b l).0
  record_decision-Change now b l = elim (Option-cases (decision_fields b)) [
    | inl missing ↦ unfold record_decision in rw (missing, record_decision) (unchanged refl)
    | inr ((r, d, t), given) ↦
        unfold record_decision in rw (given, record_decision) (decide_intent-Change now r l b d t)
  ]

  -- Every route, on every branch, is a `Change`.
  pub handle-Change :
      (now : ℕ) (request : Request) (l : Ledger) → Change request l (handle hash_of now request l).0
  unfolding handle
  handle-Change now (post_intent b) l = create_intent-Change now b l
  handle-Change now (post_challenge r b) l = attach_challenge-Change now r l b
  handle-Change now (post_nonce r b) l = reserve_nonce-Change now r l b
  handle-Change now (post_release r) l = release_nonce-Change now r l
  handle-Change now (post_decision b) l = record_decision-Change now b l
  handle-Change now (post_settlement r b) l = record_settlement-Change now r l b
  handle-Change now (post_capture r b) l = record_capture-Change now r l b
  handle-Change now (post_spend r b) l = record_spend-Change now r l b
  handle-Change now (put_policy_body m b) l =
      unchanged (unfold put_policy append_event in ground arith)
  handle-Change now (post_escalation b) l =
      unchanged (unfold create_escalation append_event in ground arith)
  handle-Change now (put_escalation r d by) l =
      unchanged (unfold resolve_escalation append_event in ground arith)
  handle-Change now (post_approval m d e) l =
      unchanged (unfold set_standing_approval append_event in ground arith)
