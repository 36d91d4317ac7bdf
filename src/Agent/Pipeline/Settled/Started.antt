-- ===== src/Agent/Pipeline/Settled/Started.antt =====
-- Every run that startRun starts is settled when executeRun has ended.
use straitsx.Prelude.{
  ℕ, ◌≡◌, refl, [], ◌∷◌, true, false, Option, none, some, is_some, Option-cases, inl, inr, ap,
}
use straitsx.Text.{Text}
use straitsx.Ledger.State.{Ledger}
use straitsx.Policy.Answers.{Answer, signed, refused, escalated, error}
use straitsx.Policy.Payment.{PaymentBody, payment}
use straitsx.Ledger.Intents.{attach_challenge}
use straitsx.Agent.Checkout.{MerchantProfile}
use straitsx.Agent.Discovery.{DiscoveryResult}
use straitsx.Agent.Step.{
  ◌>>◌, ◌>>=◌, Holds, Triple, bind-Triple, then-Triple, try_catch-Triple, modify-Triple,
}
use straitsx.Agent.Run.{RunStage, RunState, RunOutcome, set_run_state, set_outcome}
use straitsx.Agent.Pipeline.{
  CardResult, payment_body, emit_ok, call_ledger, RunInput, PendingContext, World, Times, Services,
  Run, policy_reply, PolicyDecision, granted, denied, asked,
}
use straitsx.Agent.Pipeline.Execution.{
  cardholder_of, fires_at, handle_decision, request_payment, execute_run, product_url, run_to_end,
  start_run, decision_of, context_of, fresh_world,
}
use straitsx.Agent.Pipeline.Rules.{lift-Triple, Anywhere, on_run-Triple}
use straitsx.Agent.Pipeline.Settled.{
  IsGranted, by_payment, IsSettled, ends_waiting, safe_failure-Settled, skip-Settled,
  skip_to-Settled, continue_signed_run-Settled,
}

-- The context of a run is that of its input, with the card that the issuer offered.
abbrev pub IsFetched : Services → RunInput → PendingContext → Type 0
IsFetched services input context =
    (context.input ≡ input)
    × (services.get_card (cardholder_of input) context.amount_sgd ≡ some context.card_result)

module _ (services : Services) (times : Times) (request_id : Text) (input : RunInput) where
  abbrev Known : PendingContext → Type 0
  Known = IsFetched services input

  abbrev Settled : World → Type 0
  Settled = IsSettled services times request_id Known ⊥

  abbrev EndsSettled : Run (Unit {0}) → Type 0
  EndsSettled m = Triple Anywhere m (λ u. Settled) Anywhere

  -- What is known of a decision that requestPayment returns: it throws a refusal.
  abbrev Grants : PolicyDecision → Type 0
  Grants (granted header) = IsGranted services header
  Grants (denied check) = ⊥
  Grants (asked reason expires_at) = Unit

  handle_decision-Settled :
      (context : PendingContext) (d : PolicyDecision)
      → Known context
      → Grants d
      → EndsSettled (handle_decision services times request_id context d)
  unfolding handle_decision set_outcome set_run_state
  handle_decision-Settled context (denied check) k g = absurd g
  handle_decision-Settled context (asked reason e) k g =
      let waits = RunOutcome.escalated reason e in
      let Held : World → Type 0 = λ w.
        (w.run.state ≡ RunState.escalated)
        × ((w.run.outcome ≡ some waits) × (w.pending ≡ some context)) in
      skip-Settled services times request_id Known ⊥ _ (
        then-Triple
          (on_run-Triple (set_outcome waits) {Q = λ w. w.run.outcome ≡ some waits} λ w h. refl)
          λ u.
            then-Triple
              (on_run-Triple (set_run_state RunState.escalated)
                {Q = λ w. (w.run.state ≡ RunState.escalated) × (w.run.outcome ≡ some waits)}
                λ w h. (refl, h))
              λ u.
                then-Triple
                  (modify-Triple {Q = Held} (λ w. record w { pending = some context })
                    λ w h. (h.0, (h.1, refl)))
                  λ u.
                    modify-Triple {P = Held}
                      (λ w. record w { timer = some (fires_at times.scheduled e) })
                      λ w h. ends_waiting context reason e k h.0 h.1.0 h.1.1 refl)
  handle_decision-Settled context (granted header) k g =
      skip-Settled services times request_id Known ⊥ _
        (continue_signed_run-Settled services times request_id Known ⊥ context header k g)

  decision-Grants :
      (w : World) (body : PaymentBody) (l l' : Ledger) (answer : Answer)
      → (payment services.policy services.outside times.decision body l).1 ≡ answer
      → Holds (λ d v. Grants d) Anywhere (decision_of services times request_id w (l', answer))
  unfolding policy_reply
  decision-Grants w body l l' (signed [] nonce) h = tt
  decision-Grants w body l l' (signed (c ∷ s) nonce) h = by_payment times.decision body l nonce h
  decision-Grants w body l l' (refused check) h = tt
  decision-Grants w body l l' (escalated escalation) h = tt
  decision-Grants w body l l' (error status code) h = tt

  request_payment-Grants :
      (body : PaymentBody)
      → Triple Anywhere (request_payment services times request_id body) (λ d w. Grants d) Anywhere
  unfolding request_payment
  request_payment-Grants body = record {
    from = λ w h.
        let r = payment services.policy services.outside times.decision body w.ledger in
        decision-Grants w body w.ledger r.0 r.1 refl;
  }

  -- executeRun from the challenge on.
  paid-Settled :
      (profile : MerchantProfile) (discovery : DiscoveryResult) (amount_sgd : ℕ) (card : CardResult)
      → services.get_card (cardholder_of input) amount_sgd ≡ some card
      → EndsSettled (
          emit_ok RunStage.challenge_received
          >> (call_ledger (attach_challenge times.challenge request_id (some card.challenge))
              >> (request_payment services times request_id
                    (payment_body request_id input card discovery)
                  >>= λ decision.
                      handle_decision services times request_id
                        (context_of services times request_id input profile discovery amount_sgd
                          card)
                        decision)))
  paid-Settled profile discovery amount_sgd card fetched =
      skip-Settled services times request_id Known ⊥ _ (
        skip-Settled services times request_id Known ⊥ _ (
          bind-Triple (request_payment-Grants _) λ d. record {
            from = λ w g.
                (handle_decision-Settled
                    (context_of services times request_id input profile discovery amount_sgd card) d
                    (refl, fetched) g).from
                  w tt;
          }))

  execute_run-Settled : EndsSettled (execute_run services times request_id input)
  unfolding execute_run
  execute_run-Settled = skip-Settled services times request_id Known ⊥ _ (
      skip-Settled services times request_id Known ⊥ _ (
        skip_to-Settled services times request_id Known ⊥ _ λ profile.
          skip_to-Settled services times request_id Known ⊥ _ λ discovery.
            skip-Settled services times request_id Known ⊥ _ (
              skip-Settled services times request_id Known ⊥ _ (
                skip_to-Settled services times request_id Known ⊥ _ λ amount_sgd.
                  bind-Triple (lift-Triple _) λ card. record {
                    from = λ w fetched.
                        (paid-Settled profile discovery amount_sgd card fetched.1).from w tt;
                  }))))

  abbrev either : (r : World × Option (Unit {0})) → Holds (λ u. Settled) Settled r → Settled r.0
  either (w, none) h = h
  either (w, some u) h = h

  run_to_end-IsSettled : (l : Ledger) → Settled (run_to_end services times request_id input l)
  unfolding run_to_end
  run_to_end-IsSettled l =
      let ended =
        (try_catch-Triple {F = Settled} (execute_run-Settled)
            (safe_failure-Settled services times request_id Known ⊥ false)).from
          (fresh_world services times request_id l) tt in
      either _ ended

  -- What startRun leaves: nothing where it threw, for a source that has no product page, and a
  -- settled run otherwise.
  abbrev pub StartsSettled : Option World → Type 0
  StartsSettled none = product_url services times request_id input.source ≡ none
  StartsSettled (some w) =
      (is_some (product_url services times request_id input.source) ≡ true)
      × IsSettled services times request_id Known ⊥ w

  -- startRun throws, and creates no run, for a merchant without a profile and for nothing else.
  -- Otherwise, whatever the services answer and wherever they throw, it leaves the run settled: done,
  -- with the card paid on a header that the policy service granted, the chain gateway's confirmation
  -- of the challenge's transfer and the settlement and the capture in the ledger; or failed; or
  -- escalated, with its context kept and its timer set. Its outcome is the one that its state shows.
  -- It never leaves a run refused, also where the policy service refuses the payment.
  pub start_run-IsSettled :
      (l : Ledger) → StartsSettled (start_run services times request_id input l)
  unfolding start_run
  start_run-IsSettled l = elim (Option-cases (product_url services times request_id input.source)) [
    | inl e ↦ rw e e
    | inr (url, e) ↦ rw e (ap is_some e, run_to_end-IsSettled l)
  ]
