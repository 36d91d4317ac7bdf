-- ===== src/Policy/Checks/Allowed.antt =====
-- What checks 1 to 8 let through, as a condition on the request that does not mention their order.
use straitsx.Prelude.{
  ◌≤◌, ◌<◌, ◌≡◌, ◌↔◌, false, some, arith, min, ℤ, pos, ◌≤ℤ◌, ◌+ℤ◌, Option-cases, inl, inr,
}
use straitsx.Text.{same_iff, lower}
use straitsx.Text.BigInt.{big_int}
use straitsx.Contracts.Mandate.{Keccak, hash_policy}
use straitsx.Ledger.State.{Timestamp, parse_date}
use straitsx.Policy.Checks.{
  RegistryMandate, CheckContext, pass, mandate_live, policy_hash, chain_asset, recipient_pinned,
  min_amount_base_units, hard_cap_base_units, ceiling_of, bounds_of, amount_bounds, budget_of,
  window_budget, validity_sane, not_before, intent_bound,
}

-- Checks 1 to 5: the mandate is live and unchanged on chain, and the challenge names its chain, asset
-- and recipient and an amount in bounds.
pub record IsAuthentic (k : Keccak) (ctx : CheckContext) : Type 0 where
  pub registry : RegistryMandate
  pub read : ctx.registry ≡ some registry
  pub not_revoked : registry.revoked ≡ false
  pub not_expired : ctx.now < registry.expires_at
  pub hash : lower (hash_policy k ctx.mandate) ≡ lower registry.policy_hash
  pub chain : ctx.challenge.chain_id ≡ ctx.mandate.chain_id
  pub asset : lower ctx.challenge.asset ≡ lower ctx.mandate.asset
  pub recipient : lower ctx.challenge.pay_to ≡ lower ctx.mandate.settlement_recipient
  pub amount : ℤ
  pub amount_read : big_int ctx.challenge.amount ≡ some amount
  pub max_per_card : ℤ
  pub max_per_card_read : big_int ctx.mandate.max_per_card ≡ some max_per_card
  pub at_least : pos min_amount_base_units ≤ℤ amount
  pub within_card : amount ≤ℤ max_per_card
  pub within_cap : amount ≤ℤ pos hard_cap_base_units
  pub requested : ctx.challenge.amount ≡ ctx.requested_amount

-- Check 6.
pub record IsWithinBudget (ctx : CheckContext) : Type 0 where
  pub amount : ℤ
  pub amount_read : big_int ctx.challenge.amount ≡ some amount
  pub max_per_window : ℤ
  pub max_per_window_read : big_int ctx.mandate.max_per_window ≡ some max_per_window
  pub spent : ctx.spent +ℤ amount ≤ℤ max_per_window
  pub cards : ctx.card_count < ctx.mandate.max_cards_per_window

-- Checks 7 and 8.
pub record IsTimely (ctx : CheckContext) : Type 0 where
  pub window :
      min ctx.mandate.max_auth_validity_seconds ctx.challenge.max_timeout_seconds
      ≤ ctx.max_sane_validity_seconds
  pub attached : Timestamp
  pub attached_read : ctx.challenge_attached_at ≡ some attached
  pub ordered : not_before (parse_date ctx.intent_created_at) (parse_date attached) ≡ false

module _ (k : Keccak) (ctx : CheckContext) where
  mandate_live-pass :
      (registry : RegistryMandate)
      → ctx.registry ≡ some registry
      → (mandate_live ctx ≡ pass) ↔ ((registry.revoked ≡ false) × (ctx.now < registry.expires_at))
  unfolding mandate_live
  mandate_live-pass registry e = ground (arith, e)

  policy_hash-pass :
      (registry : RegistryMandate)
      → ctx.registry ≡ some registry
      → (policy_hash k ctx ≡ pass)
        ↔ (lower (hash_policy k ctx.mandate) ≡ lower registry.policy_hash)
  unfolding policy_hash
  policy_hash-pass registry e =
      ground (arith, e, same_iff (lower (hash_policy k ctx.mandate)) (lower registry.policy_hash))

  chain_asset-pass : (chain_asset ctx ≡ pass) ↔ (
      (ctx.challenge.chain_id ≡ ctx.mandate.chain_id)
      × (lower ctx.challenge.asset ≡ lower ctx.mandate.asset))
  unfolding chain_asset
  chain_asset-pass = ground (arith, same_iff (lower ctx.challenge.asset) (lower ctx.mandate.asset))

  recipient_pinned-pass :
      (recipient_pinned ctx ≡ pass)
      ↔ (lower ctx.challenge.pay_to ≡ lower ctx.mandate.settlement_recipient)
  unfolding recipient_pinned
  recipient_pinned-pass =
      ground (arith, same_iff (lower ctx.challenge.pay_to) (lower ctx.mandate.settlement_recipient))

  bounds_of-pass :
      (amount max_per_card : ℤ)
      → (bounds_of amount max_per_card ctx ≡ pass) ↔ (
          (pos min_amount_base_units ≤ℤ amount)
          × (amount ≤ℤ max_per_card)
          × (amount ≤ℤ pos hard_cap_base_units)
          × (ctx.challenge.amount ≡ ctx.requested_amount))
  unfolding bounds_of ceiling_of
  bounds_of-pass amount max_per_card =
      ground (arith, same_iff ctx.challenge.amount ctx.requested_amount)

  budget_of-pass :
      (amount max_per_window : ℤ)
      → (budget_of amount max_per_window ctx ≡ pass) ↔ (
          (ctx.spent +ℤ amount ≤ℤ max_per_window)
          × (ctx.card_count < ctx.mandate.max_cards_per_window))
  unfolding budget_of
  budget_of-pass amount max_per_window = ground arith

  validity_sane-pass : (validity_sane ctx ≡ pass) ↔ (
      min ctx.mandate.max_auth_validity_seconds ctx.challenge.max_timeout_seconds
      ≤ ctx.max_sane_validity_seconds)
  unfolding validity_sane
  validity_sane-pass = ground arith

  -- The results of checks 1 to 5.
  abbrev pub AllPass : Type 0
  AllPass =
      (mandate_live ctx ≡ pass)
      × (policy_hash k ctx ≡ pass)
      × (chain_asset ctx ≡ pass)
      × (recipient_pinned ctx ≡ pass)
      × (amount_bounds ctx ≡ pass)

  amounts_of :
      amount_bounds ctx ≡ pass
      → (amount : ℤ) × (max_per_card : ℤ) × (big_int ctx.challenge.amount ≡ some amount)
        × (big_int ctx.mandate.max_per_card ≡ some max_per_card)
        × (bounds_of amount max_per_card ctx ≡ pass)
  unfolding amount_bounds
  amounts_of h = elim (Option-cases (big_int ctx.challenge.amount)) [
    | inl e ↦ absurd (ground (arith, e))
    | inr (amount, e) ↦ elim (Option-cases (big_int ctx.mandate.max_per_card)) [
      | inl e' ↦ absurd (ground (arith, e, e'))
      | inr (max_per_card, e') ↦ (amount, max_per_card, e, e', ground (arith, e, e'))
    ]
  ]

  registry_of :
      mandate_live ctx ≡ pass → (registry : RegistryMandate) × (ctx.registry ≡ some registry)
  unfolding mandate_live
  registry_of h = elim (Option-cases ctx.registry) [
    | inl e ↦ absurd (ground (arith, e))
    | inr found ↦ found
  ]

  pub authentic : AllPass → IsAuthentic k ctx
  authentic (live, hash, chain, recipient, bounds) =
      let (registry, read) = registry_of live in
      let (not_revoked, not_expired) = (mandate_live-pass registry read).0 live in
      let (same_chain, same_asset) = chain_asset-pass.0 chain in
      let (amount, max_per_card, amount_read, max_read, inside) = amounts_of bounds in
      let (low, card, cap, requested) = (bounds_of-pass amount max_per_card).0 inside in
      record {
        registry = registry;
        read = read;
        not_revoked = not_revoked;
        not_expired = not_expired;
        hash = (policy_hash-pass registry read).0 hash;
        chain = same_chain;
        asset = same_asset;
        recipient = recipient_pinned-pass.0 recipient;
        amount = amount;
        amount_read = amount_read;
        max_per_card = max_per_card;
        max_per_card_read = max_read;
        at_least = low;
        within_card = card;
        within_cap = cap;
        requested = requested;
      }

  bounds-pass : IsAuthentic k ctx → amount_bounds ctx ≡ pass
  unfolding amount_bounds
  bounds-pass a =
      let inside =
        (bounds_of-pass a.amount a.max_per_card).1
          (a.at_least, a.within_card, a.within_cap, a.requested) in
      let e = a.amount_read in let e' = a.max_per_card_read in ground (arith, e, e', inside)

  pub all_pass : IsAuthentic k ctx → AllPass
  all_pass a = (
    (mandate_live-pass a.registry a.read).1 (a.not_revoked, a.not_expired),
    (policy_hash-pass a.registry a.read).1 a.hash,
    chain_asset-pass.1 (a.chain, a.asset),
    recipient_pinned-pass.1 a.recipient,
    bounds-pass a,
  )

  pub IsWithinBudget-iff : (window_budget ctx ≡ pass) ↔ IsWithinBudget ctx
  unfolding window_budget
  IsWithinBudget-iff = (
    λ h. elim (Option-cases (big_int ctx.challenge.amount)) [
      | inl e ↦ absurd (ground (arith, e))
      | inr (amount, e) ↦ elim (Option-cases (big_int ctx.mandate.max_per_window)) [
        | inl e' ↦ absurd (ground (arith, e, e'))
        | inr (max_per_window, e') ↦
            let (spent, cards) = (budget_of-pass amount max_per_window).0 (ground (arith, e, e')) in
            record {
              amount = amount;
              amount_read = e;
              max_per_window = max_per_window;
              max_per_window_read = e';
              spent = spent;
              cards = cards;
            }
      ]
    ],
    λ w.
        let e = w.amount_read in
        let e' = w.max_per_window_read in
        let inside = (budget_of-pass w.amount w.max_per_window).1 (w.spent, w.cards) in
        ground (arith, e, e', inside),
  )

  pub IsTimely-iff : ((validity_sane ctx ≡ pass) × (intent_bound ctx ≡ pass)) ↔ IsTimely ctx
  unfolding intent_bound
  IsTimely-iff = (
    λ h. elim (Option-cases ctx.challenge_attached_at) [
      | inl e ↦ absurd (let later = h.1 in ground (arith, e, later))
      | inr (attached, e) ↦
          let later = h.1 in
          record {
            window = validity_sane-pass.0 h.0;
            attached = attached;
            attached_read = e;
            ordered = ground (arith, e, later);
          }
    ],
    λ t.
        let e = t.attached_read in
        let ordered = t.ordered in (validity_sane-pass.1 t.window, ground (arith, e, ordered)),
  )
