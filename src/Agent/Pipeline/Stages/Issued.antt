-- ===== src/Agent/Pipeline/Stages/Issued.antt =====
-- The stages of a run from the policy service's decision on.
use mathlib.Core.Path.{subst}
use straitsx.Prelude.{◌≡◌, refl, sym, Bool, true, false, Option, none, some}
use straitsx.Text.{Text}
use straitsx.Chain.Settlement.{Confirmation}
use straitsx.Agent.Step.{Holds, Triple, bind-Triple, then-Triple, try_catch-Triple, return, lift}
use straitsx.Agent.Run.{RunStage, EventStatus, RunState, RunOutcome, set_run_state, set_outcome}
use straitsx.Agent.Checkout.{Issued, SpendAttestation, CheckoutResult}
use straitsx.Agent.Pipeline.{PendingContext, World, Times, Services, on_run, safe_failure}
use straitsx.Agent.Pipeline.Execution.{
  domain_asserted, attest, finalize, continue_issued, continue_signed_run,
}
use straitsx.Agent.Pipeline.Rules.{on_run-Triple}
use straitsx.Agent.Pipeline.Stages.{
  issues, asserts, records, finalizes, At, IsLogged, At-IsLogged, emit-At, call-At, lift-At,
  keep-At, end-At,
}
use straitsx.Agent.Pipeline.Stages.Guarded.{IsGuarded, checkout_of-IsGuarded}

pub safe_failure-Logged :
    {E : World → Type 0} (again : Bool) → Triple IsLogged (safe_failure again) (λ u. IsLogged) E
unfolding safe_failure set_outcome set_run_state
safe_failure-Logged again =
    then-Triple
      (on_run-Triple (set_outcome (RunOutcome.failed again)) {Q = IsLogged}
        λ w h. record { last = h.last; log = h.log; streaming = h.streaming })
      λ u.
        on_run-Triple (set_run_state RunState.failed)
          λ w h. record { last = h.last; log = h.log; streaming = h.streaming }

module _ {s : Option RunStage} where
  safe_failure-At : (again : Bool) → Triple (At s) (safe_failure again) (λ u. IsLogged) IsLogged
  safe_failure-At again = record {
    from = λ w h. (safe_failure-Logged {E = IsLogged} again).from w (At-IsLogged s w h);
  }

  pub outcome-At : (o : RunOutcome) → Triple (At s) (on_run (set_outcome o)) (λ u. At s) IsLogged
  unfolding set_outcome
  outcome-At o = keep-At (set_outcome o) (λ r. refl) (λ r. refl) λ r h. h

  pub end_state-At :
      {E : World → Type 0} (state : RunState)
      → Triple (At s) (on_run (set_run_state state)) (λ u. IsLogged) E
  unfolding set_run_state
  end_state-At state = end-At (set_run_state state) (λ r. refl) λ r. refl

module _ (services : Services) (times : Times) (request_id : Text) where
  attest-At :
      (r : CheckoutResult)
      → IsGuarded r
      → Triple
          (At (some RunStage.card_issued))
          (attest services times request_id r)
          (λ spend. At (some RunStage.checkout_asserted))
          IsLogged
  unfolding attest domain_asserted return lift
  attest-At (true, spend) g =
      then-Triple (emit-At RunStage.checkout_asserted EventStatus.ok none asserts)
        λ u. record { from = λ w h. drop (lift spend w) ((lift-At spend).from w h) }
    where
      drop :
          (q : World × Option SpendAttestation)
          → Holds (λ a w. At (some RunStage.checkout_asserted) w × (spend ≡ some a)) IsLogged q
          → Holds (λ a. At (some RunStage.checkout_asserted)) IsLogged q
      drop (w, none) h = h
      drop (w, some a) h = h.0
  attest-At (false, spend) g =
      then-Triple {Q = λ u. At (some RunStage.card_issued)} (record { from = λ w h. h })
        λ u.
          subst
            (λ o.
              Triple (At (some RunStage.card_issued)) (lift o)
                (λ a. At (some RunStage.checkout_asserted)) IsLogged)
            (sym (g refl)) (record { from = λ w h. At-IsLogged _ w h })

  finalize-At :
      (context : PendingContext) (issued : Issued) (spend : SpendAttestation) (c : Confirmation)
      (verified : Bool)
      → Triple
          (At (some RunStage.spend_recorded))
          (finalize services times request_id context issued spend c verified)
          (λ u. IsLogged)
          IsLogged
  unfolding finalize
  finalize-At context issued spend c true = then-Triple (call-At _) λ u.
      then-Triple (call-At _) λ u.
        then-Triple (emit-At _ _ _ finalizes)
          λ u. then-Triple (outcome-At _) λ u. end_state-At RunState.done
  finalize-At context issued spend c false =
      then-Triple (emit-At _ _ _ finalizes) λ u. safe_failure-At true

  continue_issued-At :
      (context : PendingContext) (o : Option Issued)
      → Triple
          (At (some RunStage.policy_decision))
          (continue_issued services times request_id context o)
          (λ u. IsLogged)
          IsLogged
  unfolding continue_issued set_run_state
  continue_issued-At context none = safe_failure-At true
  continue_issued-At context (some issued) = then-Triple (emit-At _ _ _ issues) λ u.
      then-Triple
        (keep-At (set_run_state RunState.awaiting_checkout) (λ r. refl) (λ r. refl) λ r h. refl)
        λ u. then-Triple (outcome-At _) λ u.
          bind-Triple
            (attest-At _
              (checkout_of-IsGuarded services times request_id context issued context.input.source))
            λ spend. then-Triple (call-At _) λ u. then-Triple (emit-At _ _ _ records) λ u.
              bind-Triple (lift-At _)
                λ c. record { from = λ w h. (finalize-At context issued spend c _).from w h.0 }

  pub continue_signed_run-At :
      (context : PendingContext) (header : Text)
      → Triple
          (At (some RunStage.policy_decision))
          (continue_signed_run services times request_id context header)
          (λ u. IsLogged)
          IsLogged
  unfolding continue_signed_run
  continue_signed_run-At context header =
      try_catch-Triple
        (bind-Triple (lift-At _)
          λ o. record { from = λ w h. (continue_issued-At context o).from w h.0 })
        (safe_failure-Logged true)
