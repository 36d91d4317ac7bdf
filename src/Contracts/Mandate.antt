-- ===== src/Contracts/Mandate.antt =====
-- packages/contracts/src/mandate.ts: the serialisation of a mandate, its hash, and the commitment
-- nonce. viem's keccak256 of the UTF-8 bytes of a string and of the bytes of a hex string are
-- parameters; a hex string is its text with the prefix 0x.
pub mod Nonce
use straitsx.Prelude.{
  ℕ, zero, suc, ◌+◌, ◌/◌, ◌%◌, Bool, true, false, Option, none, some, List, [], ◌∷◌, ◌++◌, map, ltb,
  ◌==◌, if◌then◌else◌, length, ◌>>=◌,
}
use straitsx.Text.{Text, codes, lower}
use straitsx.Text.BigInt.{trim}
use straitsx.Text.BigInt.Decimal.{to_decimal}
use straitsx.Contracts.Types.{Mandate}

-- parts.join(separator)
unfoldable pub join : Text → List Text → Text
join separator [] = []
join separator (s ∷ []) = s
join separator (s ∷ t ∷ rest) = s ++ (separator ++ join separator (t ∷ rest))

abbrev bool_text : Bool → Text
bool_text true = codes "true"
bool_text false = codes "false"

-- FIELD_ORDER with encodeField of each value
unfoldable pub encoded_fields : Mandate → List Text
unfolding to_decimal join
encoded_fields m =
    (codes "mandateId=" ++ lower m.mandate_id)
    ∷ (codes "owner=" ++ lower m.owner)
    ∷ (codes "agentId=" ++ m.agent_id)
    ∷ (codes "chainId=" ++ to_decimal m.chain_id)
    ∷ (codes "asset=" ++ lower m.asset)
    ∷ (codes "settlementRecipient=" ++ lower m.settlement_recipient)
    ∷ (codes "maxPerCard=" ++ m.max_per_card)
    ∷ (codes "maxPerWindow=" ++ m.max_per_window)
    ∷ (codes "maxCardsPerWindow=" ++ to_decimal m.max_cards_per_window)
    ∷ (codes "windowSeconds=" ++ to_decimal m.window_seconds)
    ∷ (codes "maxAuthValiditySeconds=" ++ to_decimal m.max_auth_validity_seconds)
    ∷ (codes "expiresAt=" ++ to_decimal m.expires_at)
    ∷ (codes "revoked=" ++ bool_text m.revoked)
    ∷ (codes "intentConstraint=" ++ m.intent_constraint)
    ∷ (codes "merchantAllowlist="
        ++ join (codes ",") (map (λ domain. lower (trim domain)) m.merchant_allowlist))
    ∷ (codes "policyVersion=" ++ to_decimal m.policy_version)
    ∷ []

unfoldable pub serialise : Mandate → Text
unfolding encoded_fields join
serialise m = join (codes "|") (encoded_fields m)

-- viem's keccak256, of toBytes(string) and of a hex string.
pub record Keccak : Type 0 where
  pub of_text : Text → Text
  pub of_hex : Text → Text

unfoldable pub hash_policy : Keccak → Mandate → Text
hash_policy k m = k.of_text (serialise m)

unfoldable pub hash_intent_instruction : Keccak → Text → Text
hash_intent_instruction k instruction = k.of_text instruction

pub record Commitment : Type 0 where
  pub request_id : Text
  pub policy_hash : Text
  pub intent_hash : Text
  pub merchant_domain : Text

-- replace(/^0x/, "")
abbrev without_prefix : Text → Text
without_prefix [] = []
without_prefix (c ∷ []) = c ∷ []
without_prefix (c ∷ d ∷ s) = if c == b'0' then (if d == b'x' then s else c ∷ d ∷ s) else c ∷ d ∷ s

-- strip, with none where it throws
unfoldable pub strip : Text → Option Text
strip h = let bare = without_prefix (lower h) in if length bare == 64 then some bare else none

-- The four words that are hashed.
unfoldable pub nonce_words : Keccak → Commitment → Option Text
nonce_words k input = do
  request_id_hash ← strip (k.of_text input.request_id)
  merchant_hash ← strip (k.of_text input.merchant_domain)
  policy_word ← strip input.policy_hash
  intent_word ← strip input.intent_hash
  some (request_id_hash ++ (policy_word ++ (intent_word ++ merchant_hash)))

unfoldable pub build_commitment_nonce : Keccak → Commitment → Option Text
build_commitment_nonce k input = do
  words ← nonce_words k input
  some (k.of_hex (codes "0x" ++ words))
