-- ===== src/Agent/Pipeline/Escalation/Resolved.antt =====
-- How resolveRunEscalation leaves an escalated run.
use straitsx.Prelude.{
  ℕ, ◌≡◌, refl, sym, [], ◌∷◌, Bool, true, false, Option, none, some, inl, inr, ◌⊎◌, Bool-cases,
  ◌==◌, if◌then◌else◌, ap,
}
use mathlib.Core.Path.{subst, subst₂}
use straitsx.Text.{Text, codes}
use straitsx.Ledger.State.{Ledger, Reply, sent, failed}
use straitsx.Policy.Answers.{Answer, signed, refused, escalated, error}
use straitsx.Policy.Resolve.{ResolveBody}
use straitsx.Agent.Step.{
  lift, return, Holds, Triple, bind-Triple, then-Triple, try_catch-Triple, modify-Triple, modify,
  ◌>>◌,
}
use straitsx.Agent.Run.{RunState, RunOutcome, RunRecord, set_run_state, set_outcome}
use straitsx.Agent.Checkout.{Issued, SpendAttestation}
use straitsx.Chain.Settlement.{Confirmation}
use straitsx.Agent.Pipeline.{
  PendingContext, World, Times, Services, on_run, safe_failure, call_ledger, ledger_reply, granted,
  denied, decided, thrown,
}
use straitsx.Agent.Pipeline.Execution.{
  domain_asserted, attest, finalize, continue_issued, continue_signed_run,
}
use straitsx.Agent.Pipeline.Rules.{Anywhere, on_run-Triple}
use straitsx.Agent.Pipeline.Settled.{
  IsGranted, by_resolution, IsSettled, ends_refused, continue_signed_run-Settled,
}
use straitsx.Agent.Pipeline.Escalation.{
  is_escalated, resolve_waiting, resolve_reply, forget, finalize_expired_escalation, ask_policy,
  with_reply, resolve_run_escalation,
}

-- Nothing waits under the run's id any more.
abbrev pub Cleared : World → Type 0
Cleared w = (w.pending ≡ none) × (w.timer ≡ none)

-- The run is over, on the context that it kept while it waited.
abbrev pub IsOver : Services → Times → Text → World → World → Type 0
IsOver services times request_id w v =
    IsSettled services times request_id (λ context. w.pending ≡ some context) Unit v × Cleared v

-- How a resolution from `w` ends.
abbrev pub ResolutionEnds : Services → Times → Text → World → World × Option RunState → Type 0
ResolutionEnds services times request_id w r =
    ((r.1 ≡ none) × (r.0 ≡ record w { ledger = r.0.ledger }))
    ⊎ ((r.1 ≡ some r.0.run.state) × IsOver services times request_id w r.0)

ledger_reply-Cleared :
    {A : Type 0} (w : World) (r : Ledger × Reply A)
    → Cleared w
    → Holds (λ u. Cleared) Cleared (ledger_reply w r)
ledger_reply-Cleared w (l, sent status a) h = h
ledger_reply-Cleared w (l, failed status code) h = h

call-Cleared :
    {A : Type 0} (f : Ledger → Ledger × Reply A)
    → Triple Cleared (call_ledger f) (λ u. Cleared) Cleared
unfolding call_ledger
call-Cleared f = record { from = λ w h. ledger_reply-Cleared w (f w.ledger) h }

lift-Cleared : {A : Type 0} (o : Option A) → Triple Cleared (lift o) (λ a. Cleared) Cleared
unfolding lift
lift-Cleared none = record { from = λ w h. h }
lift-Cleared (some a) = record { from = λ w h. h }

run-Cleared : (f : RunRecord → RunRecord) → Triple Cleared (on_run f) (λ u. Cleared) Cleared
run-Cleared f = on_run-Triple f λ w h. h

safe_failure-Cleared : (fresh : Bool) → Triple Cleared (safe_failure fresh) (λ u. Cleared) Cleared
unfolding safe_failure
safe_failure-Cleared fresh = then-Triple (run-Cleared _) λ u. run-Cleared _

module _ (services : Services) (times : Times) (request_id : Text) where
  asserted-Cleared :
      (b : Bool)
      → Triple Cleared (domain_asserted services times request_id b) (λ u. Cleared) Cleared
  unfolding domain_asserted return
  asserted-Cleared true = run-Cleared _
  asserted-Cleared false = record { from = λ w h. h }

  finalize-Cleared :
      (context : PendingContext) (issued : Issued) (spend : SpendAttestation) (c : Confirmation)
      (verified : Bool)
      → Triple Cleared
          (finalize services times request_id context issued spend c verified)
          (λ u. Cleared)
          Cleared
  unfolding finalize
  finalize-Cleared context issued spend c true = then-Triple (call-Cleared _) λ u.
      then-Triple (call-Cleared _)
        λ u. then-Triple (run-Cleared _) λ u. then-Triple (run-Cleared _) λ u. run-Cleared _
  finalize-Cleared context issued spend c false =
      then-Triple (run-Cleared _) λ u. safe_failure-Cleared true

  continue_issued-Cleared :
      (context : PendingContext) (o : Option Issued)
      → Triple Cleared (continue_issued services times request_id context o) (λ u. Cleared) Cleared
  unfolding continue_issued attest
  continue_issued-Cleared context none = safe_failure-Cleared true
  continue_issued-Cleared context (some issued) = then-Triple (run-Cleared _) λ u.
      then-Triple (run-Cleared _) λ u. then-Triple (run-Cleared _) λ u.
        bind-Triple (then-Triple (asserted-Cleared _) λ u. lift-Cleared _) λ spend.
          then-Triple (call-Cleared _) λ u.
            then-Triple (run-Cleared _)
              λ u. bind-Triple (lift-Cleared _) λ c. finalize-Cleared context issued spend c _

  continue_signed_run-Cleared :
      (context : PendingContext) (header : Text)
      → Triple Cleared
          (continue_signed_run services times request_id context header)
          (λ u. Cleared)
          Cleared
  unfolding continue_signed_run
  continue_signed_run-Cleared context header =
      try_catch-Triple (bind-Triple (lift-Cleared _) λ o. continue_issued-Cleared context o)
        (safe_failure-Cleared true)

  module _ (w : World) where
    -- What is known of the context of a run that waits.
    abbrev Waited : PendingContext → Type 0
    Waited context = w.pending ≡ some context

    abbrev Over : World → Type 0
    Over v = IsOver services times request_id w v

    abbrev Ends : World × Option RunState → Type 0
    Ends r = ResolutionEnds services times request_id w r

    continue-Over :
        (context : PendingContext) (header : Text)
        → w.pending ≡ some context
        → IsGranted services header
        → Triple Cleared
            (continue_signed_run services times request_id context header)
            (λ u. Over)
            (λ v. ⊥)
    continue-Over context header k g = record {
      from = λ v h.
          both (continue_signed_run services times request_id context header v)
            ((continue_signed_run-Settled services times request_id Waited Unit {E = λ v. ⊥} context
                header k g).from
              v tt)
            ((continue_signed_run-Cleared context header).from v h);
    }
      where
        both :
            (r : World × Option (Unit {0}))
            → Holds (λ u. IsSettled services times request_id Waited Unit) (λ v. ⊥) r
            → Holds (λ u. Cleared) Cleared r
            → Holds (λ u. Over) (λ v. ⊥) r
        both (v, none) h k = h
        both (v, some u) h k = (h, k)

    never-Ends :
        (r : World × Option RunState)
        → Holds (λ s v. (s ≡ v.run.state) × Over v) (λ v. ⊥) r
        → Ends r
    never-Ends (v, none) h = absurd h
    never-Ends (v, some s) h = inr (ap (λ x. some x) h.0, h.1)

    granted-Ends :
        (context : PendingContext) (header : Text) (l : Ledger)
        → w.pending ≡ some context
        → IsGranted services header
        → Ends (
            with_reply services request_id times context
              (decided (granted header))
              (record w { ledger = l }))
    unfolding with_reply
    granted-Ends context header l k g = never-Ends _ (
        (then-Triple {Q = λ u. Cleared} {R = λ s v. (s ≡ v.run.state) × Over v}
            (modify-Triple {P = Anywhere} forget λ v h. (refl, refl))
            λ u.
              then-Triple (on_run-Triple (set_run_state RunState.running) {Q = Cleared} λ v h. h)
                λ u.
                  then-Triple
                    (on_run-Triple
                      (set_outcome
                        (RunOutcome.checkout_pending (codes "pending") (codes "pending")))
                      {Q = Cleared} λ v h. h)
                    λ u.
                      then-Triple (continue-Over context header k g)
                        λ u. record { from = λ v h. (refl, h) }).from
          (record w { ledger = l }) tt)

    denied-Ends :
        (context : PendingContext) (check : Text) (l : Ledger)
        → Ends (
            with_reply services request_id times context
              (decided (denied check))
              (record w { ledger = l }))
    unfolding with_reply ◌>>◌ modify on_run set_outcome set_run_state
    denied-Ends context check l = inr (refl, (ends_refused check tt refl refl, (refl, refl)))

    thrown-Ends :
        (context : PendingContext) (status : ℕ) (l : Ledger)
        → Ends
            (with_reply services request_id times context (thrown status) (record w { ledger = l }))
    unfolding with_reply finalize_expired_escalation set_outcome set_run_state
    thrown-Ends context status l = elim (Bool-cases (status == 410)) [
      | inl expired ↦
          subst Ends (sym (ap choose expired))
            (inr (refl, (ends_refused (codes "escalation_expired") tt refl refl, (refl, refl))))
      | inr other ↦ subst Ends (sym (ap choose other)) (inl (refl, refl))
    ]
      where
        choose : Bool → World × Option RunState
        choose b =
            if b
            then (finalize_expired_escalation (record w { ledger = l }), some RunState.refused)
            else (record w { ledger = l }, none)

    decided-Ends :
        (context : PendingContext) (now : ℕ) (body : ResolveBody) (answer : Answer)
        → w.pending ≡ some context
        → (ask_policy services request_id now body w.ledger).1 ≡ answer
        → (l : Ledger)
        → Ends (
            with_reply services request_id times context
              (resolve_reply answer)
              (record w { ledger = l }))
    unfolding resolve_reply
    decided-Ends context now body (signed [] nonce) k e l = thrown-Ends context 502 l
    decided-Ends context now body (signed (c ∷ s) nonce) k e l =
        granted-Ends context (c ∷ s) l k (by_resolution now request_id body w.ledger nonce e)
    decided-Ends context now body (refused check) k e l = denied-Ends context _ l
    decided-Ends context now body (escalated other) k e l = thrown-Ends context 502 l
    decided-Ends context now body (error status code) k e l = thrown-Ends context status l

  -- A resolution of a run that waits either throws, and the run, its context and its timer are as
  -- they were, or returns the state of the run, which then is over: its context and its timer are
  -- gone, and it is done, refused or failed as a run that never waited, on the context that was
  -- kept. In particular no answer of the policy service strands the run.
  pub resolve_run_escalation-Ends :
      (now : ℕ) (body : ResolveBody) (w : World) (context : PendingContext)
      → w.pending ≡ some context
      → w.run.state ≡ RunState.escalated
      → ResolutionEnds services times request_id w
          (resolve_run_escalation services request_id times now body w)
  unfolding resolve_run_escalation resolve_waiting is_escalated
  resolve_run_escalation-Ends now body w context k e =
      subst₂
        (λ p b.
          ResolutionEnds services times request_id w
            (resolve_waiting services request_id times now body p b w))
        (sym k) (sym (ap is_escalated e))
        (decided-Ends w context now body (ask_policy services request_id now body w.ledger).1 k refl
          (ask_policy services request_id now body w.ledger).0)
