-- ===== src/Agent/Pipeline/Stages/Logged.antt =====
-- Every run walks the diagram of its stages.
use mathlib.Core.Path.{subst}
use straitsx.Prelude.{
  refl, sym, Bool, false, Option, none, some, inl, inr, Bool-cases, if◌then◌else◌, ap, ◌==◌,
  is_some, some-same, ◌≡◌,
}
use straitsx.Text.{Text}
use straitsx.Ledger.State.{Ledger, Reply, sent, failed}
use straitsx.Policy.Payment.{PaymentBody, payment}
use straitsx.Agent.Step.{
  Holds, Triple, bind-Triple, then-Triple, try_catch-Triple, modify-Triple, lift,
}
use straitsx.Agent.Run.{RunStage, RunState, create_run, set_discovered_item}
use straitsx.Agent.Pipeline.{
  RunSource, fixture, merchant, shopify, RunInput, PendingContext, World, Times, Services, emit_ok,
  call_create, tolerate, PolicyDecision, granted, denied, asked, PolicyReply, decided, thrown,
  policy_reply,
}
use straitsx.Agent.Pipeline.Execution.{
  discovery_stage, handle_decision, context_of, reply_world, request_payment, execute_run,
  fresh_world, product_url, run_to_end, start_run, fires_at,
}
use straitsx.Agent.Pipeline.Stages.{
  begins, discovers, acquires, asks, asks_for_checkout, decides, empty_log, At, IsLogged,
  At-IsLogged, emit-At, call-At, keep-At,
}
use straitsx.Agent.Pipeline.Stages.Issued.{
  safe_failure-Logged, outcome-At, end_state-At, continue_signed_run-At,
}

module _ (services : Services) (times : Times) (request_id : Text) where
  handle_decision-At :
      (context : PendingContext) (d : PolicyDecision)
      → Triple
          (At (some RunStage.challenge_received))
          (handle_decision services times request_id context d)
          (λ u. IsLogged)
          IsLogged
  unfolding handle_decision
  handle_decision-At context (denied check) =
      then-Triple (emit-At _ _ _ decides)
        λ u. then-Triple (outcome-At _) λ u. end_state-At RunState.refused
  handle_decision-At context (asked reason e) = then-Triple (emit-At _ _ _ decides) λ u.
      then-Triple (outcome-At _) λ u. then-Triple (end_state-At RunState.escalated) λ u.
        then-Triple
          (modify-Triple {Q = IsLogged} (λ w. record w { pending = some context })
            λ w h. record { last = h.last; log = h.log; streaming = h.streaming })
          λ u.
            modify-Triple {Q = IsLogged}
              (λ w. record w { timer = some (fires_at times.scheduled e) })
              λ w h. record { last = h.last; log = h.log; streaming = h.streaming }
  handle_decision-At context (granted header) =
      then-Triple (emit-At _ _ _ decides)
        λ u. continue_signed_run-At services times request_id context header

  decision-At :
      {s : Option RunStage} (w : World) (l : Ledger) (reply : PolicyReply)
      → At s w
      → Holds (λ d. At s) IsLogged (reply_world w l reply)
  decision-At w l (decided d) h = record { log = h.log; live = h.live; streaming = h.streaming }
  decision-At {s} w l (thrown status) h = record { last = s; log = h.log; streaming = h.streaming }

  request_payment-At :
      {s : Option RunStage} (body : PaymentBody)
      → Triple (At s) (request_payment services times request_id body) (λ d. At s) IsLogged
  unfolding request_payment
  request_payment-At body = record {
    from = λ w h.
        let r = payment services.policy services.outside times.decision body w.ledger in
        decision-At w r.0 (policy_reply r.1) h;
  }

  create-At :
      {A : Type 0} {s : Option RunStage} (f : Ledger → Ledger × Reply A)
      → Triple (At s) (call_create f) (λ u. At s) IsLogged
  unfolding call_create
  create-At {A} {s} f = record { from = λ w h. tolerated w (f w.ledger) h }
    where
      tolerated :
          (w : World) (r : Ledger × Reply A) → At s w → Holds (λ u. At s) IsLogged (tolerate w r)
      tolerated w (l, sent status a) h = record {
        log = h.log;
        live = h.live;
        streaming = h.streaming;
      }
      tolerated w (l, failed status code) h = elim (Bool-cases (status == 409)) [
        | inl e ↦
            subst (Holds (λ u. At s) IsLogged) (sym (ap choose e))
              (record { log = h.log; live = h.live; streaming = h.streaming })
        | inr e ↦
            subst (Holds (λ u. At s) IsLogged) (sym (ap choose e))
              (record { last = s; log = h.log; streaming = h.streaming })
      ]
        where
          choose : Bool → World × Option (Unit {0})
          choose b = (record w { ledger = l }, if b then some tt else none)

  -- The stage of the discovery, whatever the source.
  found-At :
      (source : RunSource)
      → Triple
          (At (some RunStage.intent_created))
          (emit_ok (discovery_stage source))
          (λ u. At (some (discovery_stage source)))
          IsLogged
  found-At (fixture name) = emit-At _ _ _ discovers
  found-At (merchant profile_id) = emit-At _ _ _ discovers
  found-At (shopify checkout) = emit-At _ _ _ acquires

  challenged-At :
      (source : RunSource)
      → Triple
          (At (some (discovery_stage source)))
          (emit_ok RunStage.challenge_received)
          (λ u. At (some RunStage.challenge_received))
          IsLogged
  challenged-At (fixture name) = emit-At _ _ _ asks
  challenged-At (merchant profile_id) = emit-At _ _ _ asks
  challenged-At (shopify checkout) = emit-At _ _ _ asks_for_checkout

  lifted-At :
      {A : Type 0} {s : Option RunStage} (o : Option A)
      → Triple (At s) (lift o) (λ a. At s) IsLogged
  unfolding lift
  lifted-At {A} {s} none = record { from = λ w h. At-IsLogged s w h }
  lifted-At (some a) = record { from = λ w h. h }

  execute_run-At :
      (input : RunInput)
      → Triple (At none) (execute_run services times request_id input) (λ u. IsLogged) IsLogged
  unfolding execute_run set_discovered_item
  execute_run-At input = then-Triple (create-At _) λ u. then-Triple (emit-At _ _ _ begins) λ u.
      bind-Triple (lifted-At _) λ profile. bind-Triple (lifted-At _) λ discovery.
        then-Triple (found-At input.source) λ u.
          then-Triple
            (keep-At (set_discovered_item discovery.resolved_item) (λ r. refl) (λ r. refl) λ r h. h)
            λ u. bind-Triple (lifted-At _) λ amount_sgd. bind-Triple (lifted-At _) λ card.
              then-Triple (challenged-At input.source) λ u. then-Triple (call-At _) λ u.
                bind-Triple (request_payment-At _) λ d.
                  handle_decision-At
                    (context_of services times request_id input profile discovery amount_sgd card) d

  -- Whatever the services answer, the events of a run that startRun leaves are numbered from one and
  -- walk the diagram of the stages, each stage after the one before it in the diagram; in particular
  -- nothing is recorded as spent or finalized before the checkout's domain was asserted. And each
  -- was emitted while the run was not in a terminal state, so that no event has made the server end
  -- the run's event stream.
  pub start_run-IsLogged :
      (input : RunInput) (l : Ledger) (w : World)
      → start_run services times request_id input l ≡ some w
      → IsLogged w
  unfolding start_run run_to_end fresh_world create_run
  start_run-IsLogged input l w h =
      elim (Bool-cases (is_some (product_url services times request_id input.source))) [
        | inl given ↦ subst IsLogged (some-same (rw given at h)) (
            ended _ (
              (try_catch-Triple {F = IsLogged} (execute_run-At input)
                  (safe_failure-Logged false)).from
                (fresh_world services times request_id l)
                (record { log = empty_log; live = refl; streaming = refl })))
        | inr missing ↦ absurd (cc (rw missing at h))
      ]
    where
      ended : (r : World × Option (Unit {0})) → Holds (λ u. IsLogged) IsLogged r → IsLogged r.0
      ended (w, none) h = h
      ended (w, some u) h = h
