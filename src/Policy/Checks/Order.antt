-- ===== src/Policy/Checks/Order.antt =====
-- The loop over checks 1 to 8: what passes, and when a request escalates instead of being refused.
use straitsx.Prelude.{
  ◌≤◌, ◌≡◌, ◌↔◌, ◌≢◌, ◌⊎◌, inl, inr, refl, some, arith, Option-cases, ℤ, ◌+ℤ◌, ◌<ℤ◌,
}
use straitsx.Text.BigInt.{big_int}
use straitsx.Contracts.Mandate.{Keccak}
use straitsx.Policy.Checks.{
  CheckContext, CheckName, first_of, bounds_of, check6_window_budget, CheckResult, pass, threw,
  refuse, escalate, mandate_live, policy_hash, chain_asset, recipient_pinned, amount_bounds,
  window_budget, budget_of, validity_sane, intent_bound, checks, run_checks,
}
use straitsx.Policy.Checks.Allowed.{
  IsAuthentic, IsWithinBudget, IsTimely, AllPass, authentic, all_pass, IsWithinBudget-iff,
  IsTimely-iff,
}

-- A request that checks 1 to 8 let through.
pub record IsAllowed (k : Keccak) (ctx : CheckContext) : Type 0 where
  pub authentic : IsAuthentic k ctx
  pub budget : IsWithinBudget ctx
  pub timely : IsTimely ctx

-- The amount or the number of cards does not fit into the window any more.
pub record IsOverBudget (ctx : CheckContext) : Type 0 where
  pub amount : ℤ
  pub amount_read : big_int ctx.challenge.amount ≡ some amount
  pub max_per_window : ℤ
  pub max_per_window_read : big_int ctx.mandate.max_per_window ≡ some max_per_window
  pub over :
      (max_per_window <ℤ ctx.spent +ℤ amount) ⊎ (ctx.mandate.max_cards_per_window ≤ ctx.card_count)

first_of-pass : (a b : CheckResult) → (first_of a b ≡ pass) ↔ ((a ≡ pass) × (b ≡ pass))
first_of-pass pass b = (λ h. (refl, h), λ h. h.1)
first_of-pass threw b = (λ h. absurd (cc h), λ h. absurd (cc (h.0)))
first_of-pass (refuse name) b = (λ h. absurd (cc h), λ h. absurd (cc (h.0)))
first_of-pass (escalate name) b = (λ h. absurd (cc h), λ h. absurd (cc (h.0)))

-- A result that cannot be an escalation.
abbrev IsFinal : CheckResult → Type 0
IsFinal r = (name : CheckName) → r ≢ escalate name

first_of-IsFinal : (a b : CheckResult) → IsFinal a → IsFinal b → IsFinal (first_of a b)
first_of-IsFinal pass b ha hb = hb
first_of-IsFinal threw b ha hb = ha
first_of-IsFinal (refuse name) b ha hb = ha
first_of-IsFinal (escalate name) b ha hb = ha

first_of-escalate :
    (a b : CheckResult) (name : CheckName)
    → IsFinal a
    → (first_of a b ≡ escalate name) ↔ ((a ≡ pass) × (b ≡ escalate name))
first_of-escalate pass b name final = (λ h. (refl, h), λ h. h.1)
first_of-escalate threw b name final = (λ h. absurd (cc h), λ h. absurd (cc (h.0)))
first_of-escalate (refuse x) b name final = (λ h. absurd (cc h), λ h. absurd (cc (h.0)))
first_of-escalate (escalate x) b name final = (λ h. absurd (final name h), λ h. absurd (cc (h.0)))

first_of-escalate_last :
    (a b : CheckResult) (name : CheckName)
    → IsFinal b
    → (first_of a b ≡ escalate name) ↔ (a ≡ escalate name)
first_of-escalate_last pass b name final = (λ h. absurd (final name h), λ h. absurd (cc h))
first_of-escalate_last threw b name final = (λ h. h, λ h. h)
first_of-escalate_last (refuse x) b name final = (λ h. h, λ h. h)
first_of-escalate_last (escalate x) b name final = (λ h. h, λ h. h)

module _ (k : Keccak) (ctx : CheckContext) where
  loop-pass : (run_checks (checks k) ctx ≡ pass) ↔ (
      AllPass k ctx
      × (window_budget ctx ≡ pass)
      × ((validity_sane ctx ≡ pass) × (intent_bound ctx ≡ pass)))
  unfolding run_checks checks
  loop-pass = (
    λ h.
        let (h1, t1) = (first_of-pass _ _).0 h in
        let (h2, t2) = (first_of-pass _ _).0 t1 in
        let (h3, t3) = (first_of-pass _ _).0 t2 in
        let (h4, t4) = (first_of-pass _ _).0 t3 in
        let (h5, t5) = (first_of-pass _ _).0 t4 in
        let (h6, t6) = (first_of-pass _ _).0 t5 in
        let (h7, t7) = (first_of-pass _ _).0 t6 in
        ((h1, h2, h3, h4, h5), h6, (h7, ((first_of-pass _ _).0 t7).0)),
    λ h. let ((h1, h2, h3, h4, h5), h6, (h7, h8)) = h in cc (h1, h2, h3, h4, h5, h6, h7, h8),
  )

  mandate_live-IsFinal : IsFinal (mandate_live ctx)
  unfolding mandate_live
  mandate_live-IsFinal name h = elim (Option-cases ctx.registry) [
    | inl e ↦ ground (arith, e)
    | inr (registry, e) ↦ ground (arith, e)
  ]

  policy_hash-IsFinal : IsFinal (policy_hash k ctx)
  unfolding policy_hash
  policy_hash-IsFinal name h = elim (Option-cases ctx.registry) [
    | inl e ↦ ground (arith, e)
    | inr (registry, e) ↦ ground (arith, e)
  ]

  chain_asset-IsFinal : IsFinal (chain_asset ctx)
  unfolding chain_asset
  chain_asset-IsFinal name h = ground arith

  recipient_pinned-IsFinal : IsFinal (recipient_pinned ctx)
  unfolding recipient_pinned
  recipient_pinned-IsFinal name h = ground arith

  amount_bounds-IsFinal : IsFinal (amount_bounds ctx)
  unfolding amount_bounds bounds_of
  amount_bounds-IsFinal name h = elim (Option-cases (big_int ctx.challenge.amount)) [
    | inl e ↦ ground (arith, e)
    | inr (amount, e) ↦ elim (Option-cases (big_int ctx.mandate.max_per_card)) [
      | inl e' ↦ ground (arith, e, e')
      | inr (max_per_card, e') ↦ ground (arith, e, e')
    ]
  ]

  validity_sane-IsFinal : IsFinal (validity_sane ctx)
  unfolding validity_sane
  validity_sane-IsFinal name h = ground arith

  intent_bound-IsFinal : IsFinal (intent_bound ctx)
  unfolding intent_bound
  intent_bound-IsFinal name h = elim (Option-cases ctx.challenge_attached_at) [
    | inl e ↦ ground (arith, e)
    | inr (attached, e) ↦ ground (arith, e)
  ]

  loop-escalate :
      (name : CheckName)
      → (run_checks (checks k) ctx ≡ escalate name)
        ↔ (AllPass k ctx × (window_budget ctx ≡ escalate name))
  unfolding run_checks checks
  loop-escalate name =
      let late : IsFinal (first_of (validity_sane ctx) (first_of (intent_bound ctx) pass)) =
        first_of-IsFinal _ _ validity_sane-IsFinal
          (first_of-IsFinal _ pass intent_bound-IsFinal (λ n h. cc h)) in
      (
        λ h.
            let (h1, t1) = (first_of-escalate _ _ name mandate_live-IsFinal).0 h in
            let (h2, t2) = (first_of-escalate _ _ name policy_hash-IsFinal).0 t1 in
            let (h3, t3) = (first_of-escalate _ _ name chain_asset-IsFinal).0 t2 in
            let (h4, t4) = (first_of-escalate _ _ name recipient_pinned-IsFinal).0 t3 in
            let (h5, t5) = (first_of-escalate _ _ name amount_bounds-IsFinal).0 t4 in
            ((h1, h2, h3, h4, h5), (first_of-escalate_last _ _ name late).0 t5),
        λ h. let ((h1, h2, h3, h4, h5), h6) = h in cc (h1, h2, h3, h4, h5, h6),
      )

  IsOverBudget-iff :
      (name : CheckName)
      → (window_budget ctx ≡ escalate name) ↔ ((name ≡ check6_window_budget) × IsOverBudget ctx)
  unfolding window_budget budget_of
  IsOverBudget-iff name = (
    λ h. elim (Option-cases (big_int ctx.challenge.amount)) [
      | inl e ↦ absurd (ground (arith, e))
      | inr (amount, e) ↦ elim (Option-cases (big_int ctx.mandate.max_per_window)) [
        | inl e' ↦ absurd (ground (arith, e, e'))
        | inr (max_per_window, e') ↦ (
          ground (arith, e, e'),
          record {
            amount = amount;
            amount_read = e;
            max_per_window = max_per_window;
            max_per_window_read = e';
            over = ground (arith, e, e');
          },
        )
      ]
    ],
    λ w.
        let same_name = w.0 in
        let e = w.1.amount_read in
        let e' = w.1.max_per_window_read in
        let over = w.1.over in ground (arith, same_name, e, e', over),
  )

  pub run_checks-IsAllowed : (run_checks (checks k) ctx ≡ pass) ↔ IsAllowed k ctx
  run_checks-IsAllowed = (
    λ h.
        let (first, budget, timely) = loop-pass.0 h in
        record {
          authentic = authentic k ctx first;
          budget = (IsWithinBudget-iff k ctx).0 budget;
          timely = (IsTimely-iff k ctx).0 timely;
        },
    λ w. loop-pass.1 (
      all_pass k ctx w.authentic,
      (IsWithinBudget-iff k ctx).1 w.budget,
      (IsTimely-iff k ctx).1 w.timely,
    ),
  )

  -- Checks 1 to 8 escalate to the human exactly when the request is authentic and over the window's
  -- budget, and the check they name is the sixth: a budget failure alone is never a refusal, and no
  -- other failure is ever put to the human.
  pub run_checks-escalate_iff :
      (name : CheckName)
      → (run_checks (checks k) ctx ≡ escalate name)
        ↔ ((name ≡ check6_window_budget) × IsAuthentic k ctx × IsOverBudget ctx)
  run_checks-escalate_iff name = (
    λ h.
        let (first, budget) = (loop-escalate name).0 h in
        let (same_name, over) = (IsOverBudget-iff name).0 budget in
        (same_name, authentic k ctx first, over),
    λ w. (loop-escalate name).1 (all_pass k ctx w.1, (IsOverBudget-iff name).1 (w.0, w.2)),
  )
