-- ===== src/Policy/Resolve/Approved.antt =====
-- What stands behind a signature that the resolution of an escalation returns.
use straitsx.Prelude.{
  ℕ, ◌/◌, ◌≤◌, ◌≡◌, ◌≢◌, refl, ap, true, false, Option, none, some, arith, Option-cases, Bool-cases,
  inl, inr, ltb, is_some, ◌&&◌,
}
use straitsx.Text.{Text, same, same_iff, lower, present}
use straitsx.Dict.{get}
use straitsx.Contracts.Types.{X402Requirements, Mandate}
use straitsx.Ledger.State.{
  HumanDecision, approve, deny, EscalationRecord, IntentRecord, PolicyRecord, Ledger,
}
use straitsx.Policy.Signing.{
  PolicyDeps, SigningJob, SigningOutcome, done, not_done, broken, perform_signing,
}
use straitsx.Policy.Answers.{Answer, signed, error, signing_failed, usable_domain, close}
use straitsx.Policy.Approval.{verify_escalation_signature}
use straitsx.Policy.Payment.Grounds.{IsObtained, called-signed, perform_signing-done}
use straitsx.Policy.Resolve.Closed.{IsClosed, approval-IsClosed}
use straitsx.Policy.Resolve.{
  ResolveBody, is_mismatch, grant, settle_approval, approval_job, challenged, approve_escalation,
  decide, authorise, resolve_open, resolve_found, resolve,
}

-- The owner's claim and proof.
pub record IsAuthorised (deps : PolicyDeps) (request_id : Text) (body : ResolveBody)
    (escalation : EscalationRecord) (mandate : Mandate) (decision : HumanDecision) : Type 0 where
  pub approved_by : Text
  pub claim : present body.approved_by ≡ some approved_by
  pub owner : lower approved_by ≡ lower mandate.owner
  pub signature : Text
  pub proof : present body.signature ≡ some signature
  pub verified :
      verify_escalation_signature deps request_id escalation.mandate_id decision signature
        mandate.owner
      ≡ true

module _ (deps : PolicyDeps) (now : ℕ) (request_id : Text) (body : ResolveBody) where
  -- The grounds of a signature on an escalation, all read from the state that the call found.
  pub record IsApproved (l : Ledger) (h n : Text) : Type 0 where
    pub approved : body.decision ≡ some approve
    pub escalation : EscalationRecord
    pub escalation_read : get request_id l.escalations ≡ some escalation
    pub unresolved : escalation.resolved ≡ false
    pub in_time : now / 1000 ≤ escalation.expires_at
    pub found : PolicyRecord
    pub found_read : get escalation.mandate_id l.policies ≡ some found
    pub authorised : IsAuthorised deps request_id body escalation found.policy approve
    pub intent : IntentRecord
    pub challenge : X402Requirements
    pub challenge_read : challenged request_id l ≡ some (intent, challenge)
    pub merchant_domain : Text
    pub domain_read : usable_domain escalation.merchant_domain ≡ some merchant_domain
    pub obtained :
        IsObtained deps now
          (approval_job deps request_id escalation found.policy challenge intent merchant_domain)
          l
          h
          n

  close-not_signed :
      (by : Option Text) (check detail : Text) (a : Answer) (l l' : Ledger) (h n : Text)
      → a ≢ signed h n
      → close now request_id by check detail a l ≢ (l', signed h n)
  unfolding close
  close-not_signed by check detail a l l' h n other e =
      let inner = called-signed _ _ l' h n e in
      absurd (other (ap (λ x. x.1) (called-signed _ _ l' h n inner)))

  authorise-IsAuthorised :
      (escalation : EscalationRecord) (mandate : Mandate) (decision : HumanDecision)
      → authorise deps request_id body escalation mandate decision ≡ none
      → IsAuthorised deps request_id body escalation mandate decision
  unfolding authorise
  authorise-IsAuthorised escalation mandate decision e =
      elim (Option-cases (present body.approved_by)) [
        | inl no_claim ↦ absurd (ground (arith, no_claim))
        | inr (approved_by, claim) ↦ elim (Option-cases (present body.signature)) [
          | inl no_proof ↦ absurd (ground (arith, claim, no_proof))
          | inr (signature, proof) ↦
              let owner : same (lower approved_by) (lower mandate.owner) ≡ true =
                ground (arith, claim, proof) in
              record {
                approved_by = approved_by;
                claim = claim;
                owner = (same_iff _ _).0 owner;
                signature = signature;
                proof = proof;
                verified = ground (arith, claim, owner, proof);
              }
        ]
      ]

  grant-signed :
      (escalation : EscalationRecord) (mandate : Mandate) (g m : Text) (l l' : Ledger) (h n : Text)
      → grant now body escalation mandate (signed g m) l ≡ (l', signed h n)
      → (g ≡ h) × (m ≡ n)
  unfolding grant
  grant-signed escalation mandate g m l l' h n e =
      elim (Bool-cases (
        body.merchant_window
        && (is_mismatch escalation.reason && is_some (present escalation.merchant_domain)))) [
          | inl standing ↦
              let e' = called-signed _ _ l' h n (rw (standing, grant) at e) in
              (cc (ap (λ x. x.1) e'), cc (ap (λ x. x.1) e'))
          | inr once ↦ let e' = ap (λ x. x.1) (rw (once, grant) at e) in (cc e', cc e')
        ]

  settle_approval-signed :
      (escalation : EscalationRecord) (job : SigningJob) (x : Ledger × SigningOutcome) (l' : Ledger)
      (h n : Text)
      → settle_approval now body escalation job x ≡ (l', signed h n)
      → (job.request_id ≡ request_id)
      → (from : ℕ) × (until : ℕ) × (x.1 ≡ done h n from until) × IsClosed job.request_id l'
  unfolding settle_approval
  settle_approval-signed escalation job (l, broken) l' h n e same_id = absurd (cc (ap (λ x. x.1) e))
  settle_approval-signed escalation job (l, not_done status message) l' h n e same_id = absurd (
      close-not_signed body.approved_by _ message (error status signing_failed) l l' h n (λ c. cc c)
        (rw same_id at e))
  settle_approval-signed escalation job (l, done g m from until) l' h n e same_id =
      let stored = called-signed _ _ l' h n (called-signed _ _ l' h n e) in
      let (same_header, same_nonce) = grant-signed escalation job.mandate g m _ l' h n stored in
      (
        from,
        until,
        cc (same_header, same_nonce),
        approval-IsClosed now body escalation job l l' g m h n from until e,
      )

  approve_escalation-signed :
      (escalation : EscalationRecord) (mandate : Mandate) (l l' : Ledger) (h n : Text)
      → approve_escalation deps now request_id body escalation mandate l ≡ (l', signed h n)
      → (intent : IntentRecord) × (challenge : X402Requirements) × (domain : Text) × (challenged
            request_id l
          ≡ some (intent, challenge))
        × (usable_domain escalation.merchant_domain ≡ some domain)
        × IsObtained deps now
            (approval_job deps request_id escalation mandate challenge intent domain)
            l
            h
            n
        × IsClosed request_id l'
  unfolding approve_escalation approval_job
  approve_escalation-signed escalation mandate l l' h n e =
      elim (Option-cases (challenged request_id l)) [
        | inl missing ↦ absurd (cc (ap (λ x. x.1) (rw (missing, approve_escalation) at e)))
        | inr ((intent, challenge), read) ↦
            elim (Option-cases (usable_domain escalation.merchant_domain)) [
              | inl unusable ↦ absurd (
                  close-not_signed body.approved_by _ _ _ l l' h n (λ c. cc c)
                    (rw (read, unusable, approve_escalation) at e))
              | inr (domain, usable) ↦
                  let job =
                    approval_job deps request_id escalation mandate challenge intent domain in
                  let (from, until, finished, closed) =
                    settle_approval-signed escalation job (perform_signing deps now job l) l' h n
                      (rw (read, usable, approve_escalation) at e) refl in
                  (
                    intent,
                    challenge,
                    domain,
                    read,
                    usable,
                    perform_signing-done deps now job l h n from until finished,
                    closed,
                  )
            ]
      ]

  decide-signed :
      (escalation : EscalationRecord) (mandate : Mandate) (decision : HumanDecision) (l l' : Ledger)
      (h n : Text)
      → decide deps now request_id body escalation mandate decision l ≡ (l', signed h n)
      → (decision ≡ approve)
        × (approve_escalation deps now request_id body escalation mandate l ≡ (l', signed h n))
  unfolding decide
  decide-signed escalation mandate deny l l' h n e =
      absurd (close-not_signed body.approved_by _ _ _ l l' h n (λ c. cc c) e)
  decide-signed escalation mandate approve l l' h n e = (refl, e)

  resolve_open-signed :
      (decision : HumanDecision) (escalation : EscalationRecord) (l l' : Ledger) (h n : Text)
      → body.decision ≡ some decision
      → get request_id l.escalations ≡ some escalation
      → escalation.resolved ≡ false
      → now / 1000 ≤ escalation.expires_at
      → resolve_open deps now request_id body decision escalation l ≡ (l', signed h n)
      → IsApproved l h n × IsClosed request_id l'
  unfolding resolve_open
  resolve_open-signed decision escalation l l' h n chosen stored unresolved in_time e =
      elim (Option-cases (get escalation.mandate_id l.policies)) [
        | inl none_on_file ↦ absurd (cc (ap (λ x. x.1) (rw (none_on_file, resolve_open) at e)))
        | inr (found, on_file) ↦
            elim (Option-cases (authorise deps request_id body escalation found.policy decision)) [
              | inr (code, bad) ↦ absurd (cc (ap (λ x. x.1) (rw (on_file, bad, resolve_open) at e)))
              | inl owner ↦
                  let (approves, after) =
                    decide-signed escalation found.policy decision l l' h n
                      (rw (on_file, owner, resolve_open) at e) in
                  let (intent, challenge, domain, read, usable, obtained, closed) =
                    approve_escalation-signed escalation found.policy l l' h n after in
                  let authorised = authorise-IsAuthorised escalation found.policy decision owner in
                  (
                    record {
                      approved = rw approves at chosen;
                      escalation = escalation;
                      escalation_read = stored;
                      unresolved = unresolved;
                      in_time = in_time;
                      found = found;
                      found_read = on_file;
                      authorised = rw approves at authorised;
                      intent = intent;
                      challenge = challenge;
                      challenge_read = read;
                      merchant_domain = domain;
                      domain_read = usable;
                      obtained = obtained;
                    },
                    closed,
                  )
            ]
      ]

  resolve_found-open :
      (decision : HumanDecision) (escalation : EscalationRecord) (l l' : Ledger) (h n : Text)
      → escalation.resolved ≡ false
      → ltb escalation.expires_at (now / 1000) ≡ false
      → resolve_found deps now request_id body decision escalation l ≡ (l', signed h n)
      → resolve_open deps now request_id body decision escalation l ≡ (l', signed h n)
  unfolding resolve_found
  resolve_found-open decision escalation l l' h n unresolved in_time e =
      ground (arith, unresolved, in_time, e)

  -- The resolution of an escalation returns a signature only when the escalation is stored, open and
  -- within its time, the owner of the mandate on file approved it with a verified signature over this
  -- request and mandate, the intent has a challenge and the escalation a merchant domain, the
  -- commitment nonce was free, and the signer signed exactly this payment; the escalation is resolved
  -- afterwards.
  pub resolve-IsApproved :
      (l l' : Ledger) (h n : Text)
      → resolve deps now request_id body l ≡ (l', signed h n)
      → IsApproved l h n × IsClosed request_id l'
  unfolding resolve resolve_found
  resolve-IsApproved l l' h n e = elim (Option-cases body.decision) [
    | inl undecided ↦ absurd (cc (ap (λ x. x.1) (rw (undecided, resolve) at e)))
    | inr (decision, chosen) ↦ elim (Option-cases (get request_id l.escalations)) [
      | inl missing ↦ absurd (cc (ap (λ x. x.1) (rw (chosen, missing, resolve) at e)))
      | inr (escalation, stored) ↦
          let e' : resolve_found deps now request_id body decision escalation l ≡ (l', signed h n) =
            rw (chosen, stored, resolve) at e in
          elim (Bool-cases escalation.resolved) [
            | inl closed ↦ absurd (cc (ap (λ x. x.1) (rw (closed, resolve_found) at e')))
            | inr unresolved ↦ elim (Bool-cases (ltb escalation.expires_at (now / 1000))) [
              | inl late ↦ absurd (
                  close-not_signed none _ _ _ l l' h n (λ c. cc c)
                    (rw (unresolved, late, resolve_found) at e'))
              | inr in_time ↦
                  resolve_open-signed decision escalation l l' h n chosen stored unresolved
                    (ground (arith, in_time))
                    (resolve_found-open decision escalation l l' h n unresolved in_time e')
            ]
          ]
    ]
  ]
