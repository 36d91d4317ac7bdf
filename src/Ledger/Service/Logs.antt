-- ===== src/Ledger/Service/Logs.antt =====
-- The decision log and the event feed are numbered without a gap.
use straitsx.Prelude.{
  ℕ, suc, ◌+◌, ◌≡◌, refl, List, [], ◌∷◌, ◌++◌, arith, length, length-append, Option, none, some,
}
use straitsx.Text.{Text}
use straitsx.Dict.{Dict}
use straitsx.Ledger.State.{PolicyRecord, EscalationRecord}
use straitsx.Ledger.State.{
  Ledger, DecisionLogEntry, LedgerAppendEvent, LedgerEventKind, IntentRecord, IntentView, empty,
  append_event, save_intent, Decision, Timestamp,
}
use straitsx.Ledger.Intents.{create_intent, attach_challenge, reserve_nonce, release_nonce}
use straitsx.Ledger.Outcomes.{
  DecisionBody, decide_intent, record_decision, record_settlement, record_capture, record_spend,
}
use straitsx.Ledger.Storage.{
  put_policy, create_escalation, resolve_escalation, set_standing_approval,
}
use straitsx.Ledger.Service.{
  Request, post_intent, post_challenge, post_nonce, post_release, post_decision, post_settlement,
  post_capture, post_spend, put_policy_body, post_escalation, put_escalation, post_approval, handle,
  run,
}

-- The entries carry the numbers that follow `n`, in order.
module _ {A : Type 0} (number : A → ℕ) where
  abbrev pub Numbered : ℕ → List A → Type 0
  Numbered n [] = Unit
  Numbered n (a ∷ xs) = (number a ≡ suc n) × Numbered (suc n) xs

  Numbered-append :
      (n : ℕ) (xs : List A) (a : A)
      → number a ≡ n + length xs + 1
      → Numbered n xs
      → Numbered n (xs ++ a ∷ [])
  Numbered-append n [] a h k = (omega arith, tt)
  Numbered-append n (b ∷ xs) a h k = (k.0, Numbered-append (suc n) xs a (omega arith) k.1)

abbrev pub sequence_of : DecisionLogEntry → ℕ
sequence_of e = e.sequence

abbrev pub seq_of : LedgerAppendEvent → ℕ
seq_of e = e.seq

pub record IsNumbered (l : Ledger) : Type 0 where
  pub decisions : Numbered sequence_of 0 l.decision_log
  pub events : Numbered seq_of 0 l.events
  pub seq : l.event_seq ≡ length l.events

append_event-IsNumbered :
    (now : ℕ) (kind : LedgerEventKind) (r : Option Text) (m : Text) (v : Option IntentView)
    (l : Ledger)
    → IsNumbered l
    → IsNumbered (append_event now kind r m v l)
unfolding append_event
append_event-IsNumbered now kind r m v l h = record {
  decisions = h.decisions;
  events = Numbered-append seq_of 0 l.events _ (ground (arith, h.seq)) h.events;
  seq = omega (arith, h.seq, length-append {0} l.events);
}

save_intent-IsNumbered :
    (now : ℕ) (kind : LedgerEventKind) (r : Text) (i : IntentRecord) (l : Ledger)
    → IsNumbered l
    → IsNumbered (save_intent now kind r i l)
unfolding save_intent
save_intent-IsNumbered now kind r i l h =
    append_event-IsNumbered now kind (some r) i.mandate_id _ _
      (record { decisions = h.decisions; events = h.events; seq = h.seq })

decide_intent-IsNumbered :
    (now : ℕ) (b : DecisionBody) (r : Text) (d : Decision) (t : Timestamp) (i : IntentRecord)
    (l : Ledger)
    → IsNumbered l
    → IsNumbered (decide_intent now b r d t i l).0
unfolding decide_intent
decide_intent-IsNumbered now b r d t i l h = save_intent-IsNumbered now _ r _ _ (record {
  decisions = Numbered-append sequence_of 0 l.decision_log _ (omega arith) h.decisions;
  events = h.events;
  seq = h.seq;
})

-- The invariant as one fact, which automation passes on whole.
data IsLogged (l : Ledger) : Type 0 where
  logged : IsNumbered l → IsLogged l

module _ (now : ℕ) (l : Ledger) where
  save_intent-IsLogged :
      (kind : LedgerEventKind) (r : Text) (i : IntentRecord)
      → IsLogged l
      → IsLogged (save_intent now kind r i l)
  save_intent-IsLogged kind r i (logged h) = logged (save_intent-IsNumbered now kind r i l h)

  decide_intent-IsLogged :
      (b : DecisionBody) (r : Text) (d : Decision) (t : Timestamp) (i : IntentRecord)
      → IsLogged l
      → IsLogged (decide_intent now b r d t i l).0
  decide_intent-IsLogged b r d t i (logged h) = logged (decide_intent-IsNumbered now b r d t i l h)

  module _ (kind : LedgerEventKind) (r : Option Text) (m : Text) where
    policies-IsLogged :
        (p : Dict PolicyRecord)
        → IsLogged l
        → IsLogged (append_event now kind r m none (record l { policies = p }))
    policies-IsLogged p (logged h) = logged (
        append_event-IsNumbered now kind r m none (record l { policies = p })
          (record { decisions = h.decisions; events = h.events; seq = h.seq }))

    escalations-IsLogged :
        (e : Dict EscalationRecord)
        → IsLogged l
        → IsLogged (append_event now kind r m none (record l { escalations = e }))
    escalations-IsLogged e (logged h) = logged (
        append_event-IsNumbered now kind r m none (record l { escalations = e })
          (record { decisions = h.decisions; events = h.events; seq = h.seq }))

    approvals-IsLogged :
        (a : Dict ℕ)
        → IsLogged l
        → IsLogged (append_event now kind r m none (record l { standing_approvals = a }))
    approvals-IsLogged a (logged h) = logged (
        append_event-IsNumbered now kind r m none (record l { standing_approvals = a })
          (record { decisions = h.decisions; events = h.events; seq = h.seq }))

ruleset logged_rules = (
  arith, save_intent-IsLogged, decide_intent-IsLogged, policies-IsLogged, escalations-IsLogged,
  approvals-IsLogged,
)

module _ (hash_of : Text → Text) where
  handle-IsLogged :
      (now : ℕ) (q : Request) (l : Ledger) → IsLogged l → IsLogged (handle hash_of now q l).0
  unfolding handle
  handle-IsLogged now (post_intent b) l h = unfold create_intent in grind logged_rules
  handle-IsLogged now (post_challenge r b) l h = unfold attach_challenge in grind logged_rules
  handle-IsLogged now (post_nonce r b) l h = unfold reserve_nonce in grind logged_rules
  handle-IsLogged now (post_release r) l h = unfold release_nonce in grind logged_rules
  handle-IsLogged now (post_decision b) l h = unfold record_decision in grind logged_rules
  handle-IsLogged now (post_settlement r b) l h = unfold record_settlement in grind logged_rules
  handle-IsLogged now (post_capture r b) l h = unfold record_capture in grind logged_rules
  handle-IsLogged now (post_spend r b) l h = unfold record_spend in grind logged_rules
  handle-IsLogged now (put_policy_body m none) l h = unfold put_policy in h
  handle-IsLogged now (put_policy_body m (some b)) l h = unfold put_policy in grind logged_rules
  handle-IsLogged now (post_escalation b) l h = unfold create_escalation in grind logged_rules
  handle-IsLogged now (put_escalation r d by) l h = unfold resolve_escalation in grind logged_rules
  handle-IsLogged now (post_approval m d e) l h = unfold set_standing_approval in grind logged_rules

  run-IsLogged :
      (requests : List (ℕ × Request)) (l : Ledger) → IsLogged l → IsLogged (run hash_of requests l)
  unfolding run
  run-IsLogged [] l h = h
  run-IsLogged ((now, q) ∷ rest) l h =
      run-IsLogged rest (handle hash_of now q l).0 (handle-IsLogged now q l h)

numbers_of : {l : Ledger} → IsLogged l → IsNumbered l
numbers_of (logged h) = h

-- After any requests from the empty store, the entries of the decision log are numbered 1, 2, 3, …
-- in order, so are the emitted events, and the event counter is the number of events.
pub run-IsNumbered :
    (hash_of : Text → Text) (requests : List (ℕ × Request))
    → IsNumbered (run hash_of requests empty)
run-IsNumbered hash_of requests = numbers_of (
    run-IsLogged hash_of requests empty
      (logged (record { decisions = tt; events = tt; seq = refl })))
