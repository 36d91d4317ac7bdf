-- ===== src/Policy/Approval.antt =====
-- packages/contracts/src/escalation.ts: the message that the owner of a mandate signs, and its check.
use straitsx.Prelude.{
  Bool, true, false, ◌&&◌, not, Option, none, some, [], ◌∷◌, ◌++◌, if◌then◌else◌,
}
use straitsx.Text.{Text, codes, same, lower}
use straitsx.Text.Hex.{is_hex_digit}
use straitsx.Contracts.Mandate.{join}
use straitsx.Ledger.State.{HumanDecision, approve, deny}
use straitsx.Policy.Signing.{PolicyDeps}

decision_text : HumanDecision → Text
decision_text approve = codes "approve"
decision_text deny = codes "deny"

-- buildEscalationMessage; code unit 10 is the line feed
unfoldable pub build_escalation_message : Text → Text → HumanDecision → Text
unfolding decision_text
build_escalation_message request_id mandate_id decision = join (10 ∷ []) (
    codes "straitsx-888 escalation decision"
    ∷ (codes "requestId: " ++ request_id)
    ∷ (codes "mandateId: " ++ lower mandate_id)
    ∷ (codes "decision: " ++ decision_text decision)
    ∷ [])

all_hex : Text → Bool
all_hex [] = true
all_hex (c ∷ s) = is_hex_digit c && all_hex s

-- /^0x[0-9a-fA-F]+$/
unfoldable pub is_signature_text : Text → Bool
unfolding all_hex
is_signature_text (c ∷ d ∷ e ∷ s) = same (c ∷ d ∷ []) (codes "0x") && all_hex (e ∷ s)
is_signature_text (c ∷ d ∷ []) = false
is_signature_text (c ∷ []) = false
is_signature_text [] = false

is_true : Option Bool → Bool
is_true none = false
is_true (some b) = b

-- verifyEscalationSignature: whether it returns ok
unfoldable pub verify_escalation_signature :
    PolicyDeps → Text → Text → HumanDecision → Text → Text → Bool
unfolding is_true
verify_escalation_signature deps request_id mandate_id decision signature expected_signer =
    if not (is_signature_text signature)
    then false
    else is_true (
        deps.verify_message expected_signer
          (build_escalation_message request_id mandate_id decision) signature)
