-- ===== src/Policy/Resolve/Once.antt =====
-- An escalation is signed at most once.
use straitsx.Prelude.{ℕ, ◌≡◌, some}
use straitsx.Text.{Text}
use straitsx.Ledger.State.{HumanDecision, Ledger}
use straitsx.Policy.Signing.{PolicyDeps}
use straitsx.Policy.Answers.{signed, error, escalation_already_resolved}
use straitsx.Policy.Resolve.{ResolveBody, resolve_found, resolve}
use straitsx.Policy.Resolve.Approved.{resolve-IsApproved}

-- After a resolution that returned a signature, the next one of the same escalation with a decision,
-- whoever asks and whenever, is answered 409 and leaves the ledger as it is.
pub resolve-once :
    (deps deps' : PolicyDeps) (now now' : ℕ) (request_id : Text) (body body' : ResolveBody)
    (decision : HumanDecision) (l l' : Ledger) (h n : Text)
    → resolve deps now request_id body l ≡ (l', signed h n)
    → body'.decision ≡ some decision
    → resolve deps' now' request_id body' l' ≡ (l', error 409 escalation_already_resolved)
unfolding resolve resolve_found
resolve-once deps deps' now now' request_id body body' decision l l' h n e chosen =
    let (approved, (closed, read, resolved)) =
      resolve-IsApproved deps now request_id body l l' h n e in
    rw (chosen, resolve) (rw read (rw (resolved, resolve_found)))
