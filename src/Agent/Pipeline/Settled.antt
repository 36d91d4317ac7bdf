-- ===== src/Agent/Pipeline/Settled.antt =====
-- How startRun leaves a run.
pub mod Started
pub mod Transfer
use straitsx.Prelude.{
  ℕ, ◌≡◌, refl, [], ◌∷◌, Bool, true, false, ◌&&◌, &&-iff, Option, none, some, inl, inr, ◌⊎◌,
  Bool-cases, Option-cases,
}
use straitsx.Text.{Text, codes}
use straitsx.Ledger.State.{Ledger, Reply, sent, failed}
use straitsx.Ledger.Outcomes.{record_settlement, record_capture}
use straitsx.Policy.Answers.{Answer, signed, refused, escalated, error}
use straitsx.Policy.Payment.{PaymentBody, payment}
use straitsx.Policy.Resolve.{ResolveBody, resolve}
use straitsx.Chain.Settlement.{Confirmation}
use straitsx.Agent.Step.{
  Step, Holds, Triple, bind-Triple, then-Triple, try_catch-Triple, modify-Triple, modify, ◌>>=◌,
  ◌>>◌, try_catch, lift,
}
use straitsx.Agent.Run.{
  RunStage, EventStatus, RunState, RunOutcome, RunRecord, create_run, set_run_state,
  set_discovered_item, set_outcome, emit_event,
}
use straitsx.Agent.Checkout.{Issued, SpendAttestation}
use straitsx.Agent.Pipeline.{
  RunInput, PendingContext, World, Times, Services, Run, on_run, emit_ok, safe_failure, call_ledger,
  ledger_reply, policy_reply, PolicyDecision, granted, denied, asked,
}
use straitsx.Agent.Pipeline.Execution.{
  cardholder_of, fires_at, settlement_step, capture_step, finalize, confirmation_for,
  continue_issued, continue_signed_run, handle_decision, request_payment, execute_run, start_run,
  decision_of, context_of, fresh_world,
}
use straitsx.Agent.Pipeline.Recorded.{
  OnSuccess, HasSettlement, HasCapture, record_settlement-HasSettlement, record_capture-HasCapture,
}
use straitsx.Agent.Pipeline.Rules.{
  Anywhere, any-Triple, on_run-Triple, call_ledger-Triple, lift-Triple,
}

-- The policy service answered a request with the header.
pub data IsGranted (services : Services) (header : Text) : Type 0 where
  by_payment :
      (now : ℕ) (body : PaymentBody) (l : Ledger) (nonce : Text)
      → (payment services.policy services.outside now body l).1 ≡ signed header nonce
      → IsGranted services header
  by_resolution :
      (now : ℕ) (id : Text) (body : ResolveBody) (l : Ledger) (nonce : Text)
      → (resolve services.policy now id body l).1 ≡ signed header nonce
      → IsGranted services header

-- A run whose order is captured: the card was issued on a header that the policy service granted,
-- the chain gateway confirmed the card's settlement as the transfer of the challenge, and the ledger
-- has the settlement and the capture.
pub record IsCaptured (services : Services) (times : Times) (request_id : Text)
    (known : PendingContext → Type 0) (w : World) : Type 0 where
  pub context : PendingContext
  pub knows : known context
  pub header : Text
  pub granted : IsGranted services header
  pub issued : Issued
  pub paid :
      services.pay_and_issue context.card_result.cardapi_url header context.amount_sgd
        (cardholder_of context.input)
      ≡ some (some issued)
  pub confirmation : Confirmation
  pub confirmed : confirmation_for services times request_id context issued ≡ some confirmation
  pub ok : confirmation.ok ≡ true
  pub matched : confirmation.transfer_matched ≡ true
  pub recorded : HasCapture request_id issued.settlement_tx w.ledger
  pub outcome : w.run.outcome ≡ some (RunOutcome.signed issued.settlement_tx issued.card_opaque_id)

-- The states that a run may be left in; `known` is what is known of its context, and `may_refuse`
-- holds where the run may have been refused.
pub data IsSettled (services : Services) (times : Times) (request_id : Text)
    (known : PendingContext → Type 0) (may_refuse : Type 0) (w : World) : Type 0 where
  ends_captured :
      w.run.state ≡ RunState.done
      → IsCaptured services times request_id known w
      → IsSettled services times request_id known may_refuse w
  ends_refused :
      (check : Text)
      → may_refuse
      → w.run.state ≡ RunState.refused
      → w.run.outcome ≡ some (RunOutcome.refused check)
      → IsSettled services times request_id known may_refuse w
  ends_failed :
      (fresh : Bool)
      → w.run.state ≡ RunState.failed
      → w.run.outcome ≡ some (RunOutcome.failed fresh)
      → IsSettled services times request_id known may_refuse w
  ends_waiting :
      (context : PendingContext) (reason : Text) (expires_at : ℕ)
      → known context
      → w.run.state ≡ RunState.escalated
      → w.run.outcome ≡ some (RunOutcome.escalated reason expires_at)
      → w.pending ≡ some context
      → w.timer ≡ some (fires_at times.scheduled expires_at)
      → IsSettled services times request_id known may_refuse w

module _ (services : Services) (times : Times) (request_id : Text) (known : PendingContext → Type 0)
    (may_refuse : Type 0) where
  abbrev pub Settled : World → Type 0
  Settled = IsSettled services times request_id known may_refuse

  abbrev pub EndsSettled : Run (Unit {0}) → Type 0
  EndsSettled m = Triple Anywhere m (λ u. Settled) Anywhere

  pub skip-Settled :
      {A : Type 0} (m : Run A) {k : Run (Unit {0})} → EndsSettled k → EndsSettled (m >> k)
  skip-Settled m next = then-Triple (any-Triple Anywhere m) λ a. next

  pub skip_to-Settled :
      {A : Type 0} (m : Run A) {k : A → Run (Unit {0})}
      → ((a : A) → EndsSettled (k a))
      → EndsSettled (m >>= k)
  skip_to-Settled m next = bind-Triple (any-Triple Anywhere m) next

  pub safe_failure-Settled :
      {E : World → Type 0} (fresh : Bool) → Triple Anywhere (safe_failure fresh) (λ u. Settled) E
  unfolding safe_failure set_outcome set_run_state
  safe_failure-Settled fresh =
      then-Triple
        (on_run-Triple (set_outcome (RunOutcome.failed fresh))
          {Q = λ w. w.run.outcome ≡ some (RunOutcome.failed fresh)} λ w h. refl)
        λ u. on_run-Triple (set_run_state RunState.failed) λ w h. ends_failed fresh refl h

  -- A run whose card was issued on a header that the policy service granted.
  module _ (context : PendingContext) (knows : known context) (header : Text) (issued : Issued)
      (granted : IsGranted services header)
      (paid : services.pay_and_issue context.card_result.cardapi_url header context.amount_sgd
          (cardholder_of context.input)
        ≡ some (some issued)) where
    finalize-Settled :
        (spend : SpendAttestation) (c : Confirmation) (verified : Bool)
        → confirmation_for services times request_id context issued ≡ some c
        → c.ok && c.transfer_matched ≡ verified
        → EndsSettled (finalize services times request_id context issued spend c verified)
    unfolding finalize set_outcome set_run_state emit_event
    finalize-Settled spend c true e v =
        let tx = issued.settlement_tx in
        then-Triple
          (call_ledger-Triple (λ w. HasSettlement request_id tx w.ledger)
            (record_settlement times.settlement request_id _)
            λ w h. record_settlement-HasSettlement times.settlement request_id _ tx w.ledger refl)
          λ u.
            then-Triple
              (call_ledger-Triple (λ w. HasCapture request_id tx w.ledger)
                (record_capture times.capture request_id _)
                λ w h. record_capture-HasCapture times.capture request_id _ tx w.ledger h)
              λ u.
                then-Triple
                  (on_run-Triple (emit_event RunStage.settlement_finalized EventStatus.ok none)
                    {Q = λ w. HasCapture request_id tx w.ledger} λ w h. h)
                  λ u.
                    then-Triple
                      (on_run-Triple (set_outcome (RunOutcome.signed tx issued.card_opaque_id))
                        {Q = λ w.
                          HasCapture request_id tx w.ledger
                          × (w.run.outcome ≡ some (RunOutcome.signed tx issued.card_opaque_id))}
                        λ w h. (h, refl))
                      λ u. on_run-Triple (set_run_state RunState.done) λ w h.
                        ends_captured refl (record {
                          context = context;
                          knows = knows;
                          header = header;
                          granted = granted;
                          issued = issued;
                          paid = paid;
                          confirmation = c;
                          confirmed = e;
                          ok = ((&&-iff c.ok c.transfer_matched).0 v).0;
                          matched = ((&&-iff c.ok c.transfer_matched).0 v).1;
                          recorded = h.0;
                          outcome = h.1;
                        })
    finalize-Settled spend c false e v = skip-Settled _ (safe_failure-Settled true)

    continue_issued-Settled :
        EndsSettled (continue_issued services times request_id context (some issued))
    unfolding continue_issued
    continue_issued-Settled = skip-Settled _ (
        skip-Settled _ (
          skip-Settled _ (
            skip_to-Settled _ λ spend. skip-Settled _ (
              skip-Settled _ (
                bind-Triple (lift-Triple _) λ c. record {
                  from = λ w h.
                      (finalize-Settled spend c (c.ok && c.transfer_matched) h.1 refl).from w tt;
                })))))

  continue_any-Settled :
      (context : PendingContext) (header : Text) (o : Option Issued)
      → known context
      → IsGranted services header
      → services.pay_and_issue context.card_result.cardapi_url header context.amount_sgd
          (cardholder_of context.input)
        ≡ some o
      → EndsSettled (continue_issued services times request_id context o)
  unfolding continue_issued
  continue_any-Settled context header none k h e = safe_failure-Settled true
  continue_any-Settled context header (some issued) k h e =
      continue_issued-Settled context k header issued h e

  pub continue_signed_run-Settled :
      {E : World → Type 0} (context : PendingContext) (header : Text)
      → known context
      → IsGranted services header
      → Triple Anywhere
          (continue_signed_run services times request_id context header)
          (λ u. Settled)
          E
  unfolding continue_signed_run
  continue_signed_run-Settled context header k g =
      try_catch-Triple
        (bind-Triple (lift-Triple _)
          λ o. record { from = λ w h. (continue_any-Settled context header o k g h.1).from w tt })
        (safe_failure-Settled true)
