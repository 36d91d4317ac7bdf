-- ===== src/Policy/Resolve/Closed.antt =====
-- What the ledger calls of a resolution do to the escalations: a signature closes its own.
use straitsx.Prelude.{
  ℕ, ◌≡◌, refl, ap, sym, ◌∙◌, true, Option, some, arith, Option-cases, Bool-cases, inl, inr, ◌&&◌,
  is_some,
}
use straitsx.Text.{Text, same_refl, present}
use straitsx.Dict.{get, get-put}
use straitsx.Contracts.Types.{Mandate}
use straitsx.Ledger.State.{
  HumanDecision, approve, EscalationRecord, Ledger, Reply, sent, failed, save_intent, append_event,
}
use straitsx.Ledger.Intents.{on_intent}
use straitsx.Ledger.Outcomes.{DecisionBody, record_decision, decide_intent}
use straitsx.Ledger.Storage.{resolve_escalation, resolved_with, set_standing_approval}
use straitsx.Policy.Answers.{Answer, signed, called, crashed}
use straitsx.Policy.Payment.Grounds.{called-signed}
use straitsx.Policy.Resolve.{ResolveBody, is_mismatch, grant, settle_approval}
use straitsx.Policy.Signing.{SigningJob, done}

-- The escalation under an identifier is stored and resolved.
abbrev pub IsClosed : Text → Ledger → Type 0
IsClosed id l = (e : EscalationRecord) × (get id l.escalations ≡ some e) × (e.resolved ≡ true)

-- A route that leaves the escalations alone.
pub record_decision-escalations :
    (now : ℕ) (body : DecisionBody) (l : Ledger)
    → (record_decision now body l).0.escalations ≡ l.escalations
unfolding record_decision on_intent decide_intent save_intent append_event
record_decision-escalations now body l = ground arith

set_standing_approval-escalations :
    (now : ℕ) (m d : Option Text) (t : Option ℕ) (l : Ledger)
    → (set_standing_approval now m d t l).0.escalations ≡ l.escalations
unfolding set_standing_approval append_event
set_standing_approval-escalations now m d t l = ground arith

pub resolve_escalation-IsClosed :
    (now : ℕ) (id : Text) (d : HumanDecision) (by : Option Text) (l : Ledger) (e : EscalationRecord)
    → get id l.escalations ≡ some e
    → IsClosed id (resolve_escalation now id (some d) by l).0
unfolding resolve_escalation resolved_with append_event
resolve_escalation-IsClosed now id d by l e found = (
  resolved_with now d by e,
  rw (found, resolve_escalation, append_event, get-put, same_refl id),
  refl,
)

stored_of :
    (now : ℕ) (id : Text) (d : HumanDecision) (by : Option Text) (l : Ledger) (status : ℕ)
    (a : EscalationRecord)
    → (resolve_escalation now id (some d) by l).1 ≡ sent status a
    → (e : EscalationRecord) × (get id l.escalations ≡ some e)
unfolding resolve_escalation
stored_of now id d by l status a h = elim (Option-cases (get id l.escalations)) [
  | inl missing ↦ absurd (cc (rw (missing, resolve_escalation) at h))
  | inr found ↦ found
]

called-sent {ℓ} :
    {A : Type ℓ} (step : Ledger × Reply A) (next : Ledger → Ledger × Answer) (l' : Ledger)
    (h n : Text)
    → called step next crashed ≡ (l', signed h n)
    → (status : ℕ) × (a : A) × (step.1 ≡ sent status a)
unfolding called
called-sent (l, sent status a) next l' h n e = (status, a, refl)
called-sent (l, failed status code) next l' h n e = absurd (cc (ap (λ x. x.1) e))

grant-escalations :
    (now : ℕ) (body : ResolveBody) (escalation : EscalationRecord) (mandate : Mandate) (a : Answer)
    (l l' : Ledger) (h n : Text)
    → grant now body escalation mandate a l ≡ (l', signed h n)
    → l'.escalations ≡ l.escalations
unfolding grant
grant-escalations now body escalation mandate a l l' h n e =
    elim (Bool-cases (
      body.merchant_window
      && (is_mismatch escalation.reason && is_some (present escalation.merchant_domain)))) [
        | inl standing ↦
            let e' = called-signed _ _ l' h n (rw (standing, grant) at e) in
            sym (ap (λ x. x.0.escalations) e') ∙ set_standing_approval-escalations now _ _ _ l
        | inr once ↦ sym (ap (λ x. x.0.escalations) (rw (once, grant) at e))
      ]

pub approval-IsClosed :
    (now : ℕ) (body : ResolveBody) (escalation : EscalationRecord) (job : SigningJob)
    (l l' : Ledger) (g m h n : Text) (from until : ℕ)
    → settle_approval now body escalation job (l, done g m from until) ≡ (l', signed h n)
    → IsClosed job.request_id l'
unfolding settle_approval
approval-IsClosed now body escalation job l l' g m h n from until e =
    let (status, a, reply) = called-sent _ _ l' h n e in
    let (stored, found) = stored_of now job.request_id approve body.approved_by l status a reply in
    let (closed, read, resolved) =
      resolve_escalation-IsClosed now job.request_id approve body.approved_by l stored found in
    let granted = called-signed _ _ l' h n (called-signed _ _ l' h n e) in
    let kept =
      grant-escalations now body escalation job.mandate _ _ l' h n granted
      ∙ record_decision-escalations now _ _ in
    (closed, ap (get job.request_id) kept ∙ read, resolved)
