-- ===== src/Agent/Pipeline/Stages/Guarded.antt =====
-- No checkout attests a spend before it has asserted its domain.
use straitsx.Prelude.{
  ◌≡◌, refl, Bool, true, false, Option, none, some, inl, inr, Option-cases, Bool-cases, arith,
}
use straitsx.Text.{Text}
use straitsx.Ledger.State.{Timestamp}
use straitsx.Contracts.Types.{ResolvedItem}
use straitsx.Agent.Checkout.{
  Urls, Browser, MerchantProfile, Ucp, ShopifyUcpCheckout, Issued, CheckoutResult, run_checkout,
  complete_ucp_checkout, after_assertion, ucp_path, ucp_base, host_allowed, assert_checkout_domain,
}
use straitsx.Agent.Pipeline.{RunSource, fixture, merchant, shopify, PendingContext, Times, Services}
use straitsx.Agent.Pipeline.Execution.{checkout_of}

-- A checkout that did not assert its domain has no attestation.
abbrev pub IsGuarded : CheckoutResult → Type 0
IsGuarded r = r.0 ≡ false → r.1 ≡ none

after_assertion-IsGuarded :
    (urls : Urls) (browser : Browser) (profile : MerchantProfile) (issued : Issued)
    (allowed : Option Bool)
    → IsGuarded (after_assertion urls browser profile issued allowed)
unfolding after_assertion
after_assertion-IsGuarded urls browser profile issued (some true) h = absurd (cc h)
after_assertion-IsGuarded urls browser profile issued (some false) h = refl
after_assertion-IsGuarded urls browser profile issued none h = refl

run_checkout-IsGuarded :
    (urls : Urls) (browser : Browser) (profile : MerchantProfile) (item : ResolvedItem)
    (issued : Issued)
    → IsGuarded (run_checkout urls browser profile item issued)
unfolding run_checkout
run_checkout-IsGuarded urls browser profile item issued = landed (browser.goto item.checkout_url)
  where
    landed :
        (o : Option Text)
        → IsGuarded (elim o [
          | none ↦ (false, none)
          | some actual_url ↦ after_assertion urls browser profile issued (
              assert_checkout_domain urls actual_url item.checkout_url item.merchant_domain
                (some profile.allowed_hosts)
                (some profile.checkout_url_pattern))
        ])
    landed none = λ h. refl
    landed (some url) = after_assertion-IsGuarded urls browser profile issued _

complete_ucp_checkout-IsGuarded :
    (ucp : Ucp) (now : Timestamp) (checkout : ShopifyUcpCheckout) (issued : Issued)
    → IsGuarded (complete_ucp_checkout ucp now checkout issued)
unfolding complete_ucp_checkout
complete_ucp_checkout-IsGuarded ucp now checkout issued h =
    elim (Option-cases (ucp.resolve_url (ucp_path checkout) (ucp_base ucp checkout))) [
      | inl e ↦ ground (arith, e, h)
      | inr (endpoint, e) ↦ elim (Bool-cases (host_allowed ucp checkout endpoint)) [
        | inl allowed ↦ absurd (ground (arith, e, allowed, h))
        | inr other ↦ ground (arith, e, other, h)
      ]
    ]

module _ (services : Services) (times : Times) (request_id : Text) where
  pub checkout_of-IsGuarded :
      (context : PendingContext) (issued : Issued) (source : RunSource)
      → IsGuarded (checkout_of services times request_id context issued source)
  unfolding checkout_of
  checkout_of-IsGuarded context issued (shopify checkout) =
      complete_ucp_checkout-IsGuarded services.ucp _ checkout issued
  checkout_of-IsGuarded context issued (fixture name) =
      run_checkout-IsGuarded services.pages.urls services.browser _ _ issued
  checkout_of-IsGuarded context issued (merchant profile_id) =
      run_checkout-IsGuarded services.pages.urls services.browser _ _ issued
