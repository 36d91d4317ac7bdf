-- ===== src/Policy/Drift.antt =====
-- services/policy-service/src/app.ts: PUT /policy/:mandateId, which stores a policy only when its hash
-- is the one on chain.
use straitsx.Prelude.{
  ℕ, ◌≡◌, not, Option, none, some, arith, if◌then◌else◌, Option-cases, Bool-cases, inl, inr, ◌⊎◌,
}
use straitsx.Text.{Text, same, same_iff, lower}
use straitsx.Contracts.Types.{Mandate}
use straitsx.Contracts.Mandate.{Keccak, hash_policy}
use straitsx.Ledger.State.{Ledger, Reply, sent, failed}
use straitsx.Ledger.Storage.{put_policy}
use straitsx.Policy.Checks.{RegistryMandate}

-- The reply: stored carries the new version, and drift the two hashes.
pub data PutAnswer : Type 0 where
  stored : ℕ → PutAnswer
  drift : Text → Text → PutAnswer
  put_error : ℕ → PutAnswer

-- ledger.putPolicy and the reply
unfoldable pub put_stored : Ledger × Reply ℕ → Ledger × PutAnswer
put_stored (l, sent status version) = (l, stored version)
put_stored (l, failed status code) = (l, put_error 500)

unfoldable pub put_against :
    ℕ → Text → Mandate → Text → RegistryMandate → Ledger → Ledger × PutAnswer
put_against now mandate_id policy proposed registry l =
    if not (same (lower proposed) (lower registry.policy_hash))
    then (l, drift proposed registry.policy_hash)
    else put_stored (put_policy now mandate_id (some policy) l)

-- PUT /policy/:mandateId; `registry` is chainGateway.getMandate, with none where it throws and an
-- inner none for its answer 404
unfoldable pub put_checked :
    Keccak
    → (Text → ℕ → Option (Option RegistryMandate))
    → ℕ
    → Text
    → Option Mandate
    → Ledger
    → Ledger × PutAnswer
put_checked k registry now mandate_id none l = (l, put_error 400)
put_checked k registry now mandate_id (some policy) l = elim (registry mandate_id policy.chain_id) [
  | none ↦ (l, put_error 500)
  | some none ↦ (l, put_error 404)
  | some (some found) ↦ put_against now mandate_id policy (hash_policy k policy) found l
]

-- The route leaves the ledger as it is, or stores the policy as the ledger does when its hash is the
-- one that the chain has for the mandate.
pub put_checked-put_policy :
    (k : Keccak) (registry : Text → ℕ → Option (Option RegistryMandate)) (now : ℕ)
    (mandate_id : Text) (policy : Mandate) (l : Ledger)
    → ((put_checked k registry now mandate_id (some policy) l).0 ≡ l)
      ⊎ ((found : RegistryMandate) × (registry mandate_id policy.chain_id ≡ some (some found))
          × (lower (hash_policy k policy) ≡ lower found.policy_hash)
          × ((put_checked k registry now mandate_id (some policy) l).0
              ≡ (put_policy now mandate_id (some policy) l).0))
unfolding put_checked put_against put_stored put_policy
put_checked-put_policy k registry now mandate_id policy l =
    elim (Option-cases (registry mandate_id policy.chain_id)) [
      | inl down ↦ inl (ground (arith, down))
      | inr (none, missing) ↦ inl (ground (arith, missing))
      | inr (some found, read) ↦
          elim (Bool-cases (same (lower (hash_policy k policy)) (lower found.policy_hash))) [
            | inr other ↦ inl (ground (arith, read, other))
            | inl eq ↦ inr (found, read, (same_iff _ _).0 eq, ground (arith, read, eq))
          ]
    ]
