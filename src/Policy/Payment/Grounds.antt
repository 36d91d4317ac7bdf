-- ===== src/Policy/Payment/Grounds.antt =====
-- What stands behind a signature that POST /payment/request returns.
use straitsx.Prelude.{
  Option, ℕ, ◌≡◌, ◌≢◌, refl, ap, Bool, false, none, some, [], ◌∷◌, arith, Option-cases, Bool-cases,
  inl, inr, ◌⊎◌,
}
use straitsx.Text.{Text}
use straitsx.Dict.{get}
use straitsx.Contracts.Types.{Mandate, ResolvedItem}
use straitsx.Contracts.Mandate.{build_commitment_nonce}
use straitsx.Ledger.State.{
  EscalationReason, IntentRecord, PolicyRecord, Ledger, Reply, sent, failed, Code, EscalationRecord,
}
use straitsx.Ledger.Intents.{on_intent, reserve_nonce}
use straitsx.Ledger.Outcomes.{decision_fields, record_decision}
use straitsx.Ledger.Window.{WindowUsage, read_window}
use straitsx.Ledger.Storage.{read_standing_approval}
use straitsx.Policy.Checks.{
  RegistryMandate, run_checks, checks, CheckName, CheckResult, pass, threw, refuse, escalate,
  escalates_intent,
}
use straitsx.Policy.Checks.Order.{IsAllowed, run_checks-IsAllowed}
use straitsx.Policy.Signing.{
  PolicyDeps, SignResult, header, sign_error, unreachable, SigningJob, SigningOutcome, done,
  not_done, broken, commitment_of, sign_request, after_signer, after_reserve, perform_signing,
}
use straitsx.Policy.Answers.{Answer, signed, error, internal_error, called, crashed}
use straitsx.Policy.Payment.{
  PaymentRequest, Outside, refuse_and_record, after_escalation, escalate_and_respond,
  settle_payment, payment_job, match_and_sign, check_context, after_checks, check_loaded,
  load_and_check, item_domain, handle_payment,
}

-- A signature that was obtained for a job: the nonce is the commitment, it was free and is reserved
-- now, and the signer answered the request for exactly this job.
pub record IsObtained (deps : PolicyDeps) (now : ℕ) (job : SigningJob) (l : Ledger) (h n : Text)
    : Type 0 where
  pub nonce : build_commitment_nonce deps.keccak (commitment_of job) ≡ some n
  pub status : ℕ
  pub reply : Text
  pub reserved : (reserve_nonce now job.request_id (some n) l).1 ≡ sent status reply
  pub answered : deps.signer (sign_request deps now job n) ≡ header h

Reply-cases {ℓ} :
    {A : Type ℓ} (r : Reply A)
    → ((status : ℕ) × (a : A) × (r ≡ sent status a))
      ⊎ ((status : ℕ) × (code : Code) × (r ≡ failed status code))
Reply-cases (sent status a) = inl (status, a, refl)
Reply-cases (failed status code) = inr (status, code, refl)

pub called-signed {ℓ} :
    {A : Type ℓ} (step : Ledger × Reply A) (next : Ledger → Ledger × Answer) (l' : Ledger)
    (h n : Text)
    → called step next crashed ≡ (l', signed h n)
    → next step.0 ≡ (l', signed h n)
unfolding called
called-signed (l, sent status a) next l' h n e = e
called-signed (l, failed status code) next l' h n e = absurd (cc (ap (λ x. x.1) e))

module _ (deps : PolicyDeps) (now : ℕ) (job : SigningJob) where
  after_signer-done :
      (nonce : Text) (l : Ledger) (r : SignResult) (h n : Text) (from until : ℕ)
      → (after_signer now job nonce l r).1 ≡ done h n from until
      → (r ≡ header h) × (nonce ≡ n)
  unfolding after_signer
  after_signer-done nonce l (header g) h n from until e = (cc e, cc e)
  after_signer-done nonce l (sign_error status message) h n from until e = absurd (cc e)
  after_signer-done nonce l unreachable h n from until e = absurd (cc e)

  after_reserve-done :
      (nonce : Text) (l : Ledger) (r : Reply Text) (h n : Text) (from until : ℕ)
      → (after_reserve deps now job nonce l r).1 ≡ done h n from until
      → ((status : ℕ) × (reply : Text) × (r ≡ sent status reply))
        × (deps.signer (sign_request deps now job nonce) ≡ header h)
        × (nonce ≡ n)
  unfolding after_reserve
  after_reserve-done nonce l (failed status code) h n from until e = absurd (cc e)
  after_reserve-done nonce l (sent status reply) h n from until e =
      let (answered, same_nonce) = after_signer-done nonce l _ h n from until e in
      ((status, reply, refl), answered, same_nonce)

  pub perform_signing-done :
      (l : Ledger) (h n : Text) (from until : ℕ)
      → (perform_signing deps now job l).1 ≡ done h n from until
      → IsObtained deps now job l h n
  unfolding perform_signing
  perform_signing-done l h n from until e =
      elim (Option-cases (build_commitment_nonce deps.keccak (commitment_of job))) [
        | inl bad ↦ absurd (ground (arith, bad))
        | inr (nonce, made) ↦
            let step = reserve_nonce now job.request_id (some nonce) l in
            let e' : (after_reserve deps now job nonce step.0 step.1).1 ≡ done h n from until =
              rw (made, perform_signing) at e in
            let ((status, reply, taken), answered, same_nonce) =
              after_reserve-done nonce step.0 step.1 h n from until e' in
            let made' = rw same_nonce at made in
            let taken' = rw same_nonce at taken in
            let answered' = rw same_nonce at answered in
            record {
              nonce = made';
              status = status;
              reply = reply;
              reserved = taken';
              answered = answered';
            }
      ]

  settle_payment-signed :
      (x : Ledger × SigningOutcome) (l' : Ledger) (h n : Text)
      → settle_payment now job x ≡ (l', signed h n)
      → (from : ℕ) × (until : ℕ) × (x.1 ≡ done h n from until)
  unfolding settle_payment
  settle_payment-signed (l, broken) l' h n e = absurd (cc (ap (λ x. x.1) e))
  settle_payment-signed (l, not_done status message) l' h n e =
      absurd (cc (ap (λ x. x.1) (called-signed _ _ l' h n e)))
  settle_payment-signed (l, done g m from until) l' h n e =
      (from, until, cc (ap (λ x. x.1) (called-signed _ _ l' h n e)))

refusal-orphan :
    (deps : PolicyDeps) (now : ℕ) (id : Text) (check : CheckName) (l : Ledger)
    → get id l.intents ≡ none
    → refuse_and_record deps now id check l ≡ (l, error 500 internal_error)
unfolding refuse_and_record record_decision called decision_fields on_intent
refusal-orphan deps now [] check l missing = refl
refusal-orphan deps now (c ∷ s) check l missing = ground (arith, missing)

module _ (deps : PolicyDeps) (outside : Outside) (now : ℕ) (request : PaymentRequest) where
  -- The grounds of a signature, all read from the state that the request found.
  pub record IsGrounded (l : Ledger) (h n : Text) : Type 0 where
    pub intent : IntentRecord
    pub intent_read : get request.request_id l.intents ≡ some intent
    pub item : ResolvedItem
    pub merchant_domain : Text
    pub item_read : item_domain request.resolved_item ≡ some (item, merchant_domain)
    pub found : PolicyRecord
    pub found_read : get request.mandate_id l.policies ≡ some found
    pub window_status : ℕ
    pub usage : WindowUsage
    pub usage_read :
        read_window now request.mandate_id
          (some found.policy.window_seconds)
          (some found.policy.max_per_window)
          l
        ≡ sent window_status usage
    pub registry : Option RegistryMandate
    pub registry_read : outside.registry request.mandate_id found.policy.chain_id ≡ some registry
    pub allowed :
        IsAllowed deps.keccak (check_context deps now request intent found.policy usage registry)
    pub approval_status : ℕ
    pub active : Bool
    pub active_read :
        read_standing_approval now (some request.mandate_id) (some merchant_domain) l
        ≡ sent approval_status active
    pub matching :
        escalates_intent item found.policy.merchant_allowlist active
          (outside.matches item found.policy.intent_constraint)
        ≡ false
    pub obtained :
        IsObtained deps now (payment_job deps request found.policy intent merchant_domain) l h n

  after_escalation-not_signed :
      (check : CheckName) (x : Ledger × Reply EscalationRecord) (l' : Ledger) (h n : Text)
      → after_escalation deps now request.request_id check x ≢ (l', signed h n)
  unfolding after_escalation
  after_escalation-not_signed check (l, failed status code) l' h n e = absurd (cc (ap (λ x. x.1) e))
  after_escalation-not_signed check (l, sent status escalation) l' h n e =
      absurd (cc (ap (λ x. x.1) (called-signed _ _ l' h n e)))

  escalation-not_signed :
      (check : CheckName) (reason : EscalationReason) (domain : Text) (l l' : Ledger) (h n : Text)
      → escalate_and_respond deps now request check reason domain l ≢ (l', signed h n)
  unfolding escalate_and_respond
  escalation-not_signed check reason domain l l' h n e =
      after_escalation-not_signed check _ l' h n e

  refusal-not_signed :
      (check : CheckName) (l l' : Ledger) (h n : Text)
      → refuse_and_record deps now request.request_id check l ≢ (l', signed h n)
  unfolding refuse_and_record
  refusal-not_signed check l l' h n e = absurd (cc (ap (λ x. x.1) (called-signed _ _ l' h n e)))

  match_and_sign-signed :
      (intent : IntentRecord) (item : ResolvedItem) (mandate : Mandate) (domain : Text)
      (l l' : Ledger) (h n : Text)
      → match_and_sign deps outside now request intent item mandate domain l ≡ (l', signed h n)
      → (status : ℕ) × (active : Bool) × (read_standing_approval now
            (some request.mandate_id)
            (some domain)
            l
          ≡ sent status active)
        × (escalates_intent item mandate.merchant_allowlist active
              (outside.matches item mandate.intent_constraint)
            ≡ false)
        × IsObtained deps now (payment_job deps request mandate intent domain) l h n
  unfolding match_and_sign
  match_and_sign-signed intent item mandate domain l l' h n e =
      elim (Reply-cases (read_standing_approval now (some request.mandate_id) (some domain) l)) [
        | inr (status, code, bad) ↦ absurd (cc (ap (λ x. x.1) (rw (bad, match_and_sign) at e)))
        | inl (status, active, read) ↦
            elim (Bool-cases (
              escalates_intent item mandate.merchant_allowlist active
                (outside.matches item mandate.intent_constraint))) [
                  | inl up ↦
                      absurd
                        (escalation-not_signed _ _ _ l l' h n (rw (read, up, match_and_sign) at e))
                  | inr down ↦
                      let job = payment_job deps request mandate intent domain in
                      let (from, until, finished) =
                        settle_payment-signed deps now job (perform_signing deps now job l) l' h n
                          (rw (read, down, match_and_sign) at e) in
                      (
                        status,
                        active,
                        read,
                        down,
                        perform_signing-done deps now job l h n from until finished,
                      )
                ]
      ]

  after_checks-signed :
      (intent : IntentRecord) (item : ResolvedItem) (mandate : Mandate) (domain : Text)
      (result : CheckResult) (l l' : Ledger) (h n : Text)
      → after_checks deps outside now request intent item mandate domain result l ≡ (l', signed h n)
      → (result ≡ pass)
        × (match_and_sign deps outside now request intent item mandate domain l ≡ (l', signed h n))
  unfolding after_checks
  after_checks-signed intent item mandate domain threw l l' h n e = absurd (cc (ap (λ x. x.1) e))
  after_checks-signed intent item mandate domain (refuse check) l l' h n e =
      absurd (refusal-not_signed check l l' h n e)
  after_checks-signed intent item mandate domain (escalate check) l l' h n e =
      absurd (escalation-not_signed _ _ _ l l' h n e)
  after_checks-signed intent item mandate domain pass l l' h n e = (refl, e)

  check_loaded-signed :
      (intent : IntentRecord) (item : ResolvedItem) (mandate : Mandate) (domain : Text)
      (usage : WindowUsage) (l l' : Ledger) (h n : Text)
      → check_loaded deps outside now request intent item domain mandate usage l ≡ (l', signed h n)
      → (registry : Option RegistryMandate) × (outside.registry request.mandate_id mandate.chain_id
          ≡ some registry)
        × (run_checks
              (checks deps.keccak)
              (check_context deps now request intent mandate usage registry)
            ≡ pass)
        × (match_and_sign deps outside now request intent item mandate domain l ≡ (l', signed h n))
  unfolding check_loaded
  check_loaded-signed intent item mandate domain usage l l' h n e =
      elim (Option-cases (outside.registry request.mandate_id mandate.chain_id)) [
        | inl down ↦ absurd (cc (ap (λ x. x.1) (rw (down, check_loaded) at e)))
        | inr (registry, read) ↦
            let (passed, after) =
              after_checks-signed intent item mandate domain _ l l' h n
                (rw (read, check_loaded) at e) in
            (registry, read, passed, after)
      ]

  load_and_check-signed :
      (intent : IntentRecord) (item : ResolvedItem) (domain : Text) (l l' : Ledger) (h n : Text)
      → get request.request_id l.intents ≡ some intent
      → item_domain request.resolved_item ≡ some (item, domain)
      → load_and_check deps outside now request intent item domain l ≡ (l', signed h n)
      → IsGrounded l h n
  unfolding load_and_check
  load_and_check-signed intent item domain l l' h n stored named e =
      elim (Option-cases (get request.mandate_id l.policies)) [
        | inl none_on_file ↦ absurd (cc (ap (λ x. x.1) (rw (none_on_file, load_and_check) at e)))
        | inr (found, on_file) ↦
            elim (Reply-cases (
              read_window now request.mandate_id (some found.policy.window_seconds)
                (some found.policy.max_per_window) l)) [
                  | inr (status, code, bad) ↦
                      absurd (cc (ap (λ x. x.1) (rw (on_file, bad, load_and_check) at e)))
                  | inl (window_status, usage, read) ↦
                      let (registry, registry_read, passed, after) =
                        check_loaded-signed intent item found.policy domain usage l l' h n
                          (rw (on_file, read, load_and_check) at e) in
                      let (approval_status, active, active_read, matching, obtained) =
                        match_and_sign-signed intent item found.policy domain l l' h n after in
                      record {
                        intent = intent;
                        intent_read = stored;
                        item = item;
                        merchant_domain = domain;
                        item_read = named;
                        found = found;
                        found_read = on_file;
                        window_status = window_status;
                        usage = usage;
                        usage_read = read;
                        registry = registry;
                        registry_read = registry_read;
                        allowed = (run_checks-IsAllowed deps.keccak _).0 passed;
                        approval_status = approval_status;
                        active = active;
                        active_read = active_read;
                        matching = matching;
                        obtained = obtained;
                      }
                ]
      ]

  -- POST /payment/request returns a signature only for a stored intent with a merchant domain, under
  -- a policy on file, when checks 1 to 8 allow the request on the window's usage, check 9 does not
  -- escalate, the commitment nonce was free, and the signer signed exactly this payment.
  pub handle_payment-IsGrounded :
      (l l' : Ledger) (h n : Text)
      → handle_payment deps outside now request l ≡ (l', signed h n)
      → IsGrounded l h n
  unfolding handle_payment
  handle_payment-IsGrounded l l' h n e = elim (Option-cases (get request.request_id l.intents)) [
    | inl missing ↦ absurd (refusal-not_signed _ l l' h n (rw (missing, handle_payment) at e))
    | inr (intent, stored) ↦ elim (Option-cases (item_domain request.resolved_item)) [
      | inl unnamed ↦
          absurd (refusal-not_signed _ l l' h n (rw (stored, unnamed, handle_payment) at e))
      | inr ((item, domain), named) ↦
          load_and_check-signed intent item domain l l' h n stored named
            (rw (stored, named, handle_payment) at e)
    ]
  ]

  -- The refusal of a request without an intent is never given: the ledger has no intent to record it
  -- on, and the answer is an internal error.
  pub handle_payment-orphan :
      (l : Ledger)
      → get request.request_id l.intents ≡ none
      → handle_payment deps outside now request l ≡ (l, error 500 internal_error)
  unfolding handle_payment
  handle_payment-orphan l missing =
      rw (missing, handle_payment) (refusal-orphan deps now request.request_id _ l missing)
