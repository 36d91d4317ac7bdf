-- ===== src/Agent/Checkout.antt =====
-- services/agent-orchestrator: src/post-issuance/assert-checkout-domain.ts, src/checkout/ucp-checkout.ts
-- and the order of the steps of src/checkout/checkout-worker.ts. The browser, the URL parser, regular
-- expressions and the merchant's server are parameters.
use straitsx.Prelude.{
  is_some, Bool, true, false, ◌&&◌, ◌||◌, Option, none, some, List, [], ◌∷◌, ◌++◌, if◌then◌else◌,
  ◌>>=◌,
}
use straitsx.Text.{Text, codes, same, lower, present, truthy}
use straitsx.Contracts.Types.{ResolvedItem}
use straitsx.Ledger.State.{Timestamp}
use straitsx.Ledger.Intents.{present_time}

-- new URL(s), with none where it throws.
pub record Url : Type 0 where
  pub protocol : Text
  pub hostname : Text

-- xs.includes(x)
unfoldable pub includes : List Text → Text → Bool
includes [] x = false
includes (y ∷ ys) x = let rest = includes ys x in same y x || rest

-- The part of a merchant profile that is not a selector.
pub record MerchantProfile : Type 0 where
  pub product_url : Text
  pub allowed_hosts : List Text
  pub checkout_url_pattern : Text

-- parse_url is `new URL(s)`, and matches a pattern `new RegExp(p).test(s)`.
pub record Urls : Type 0 where
  pub parse_url : Text → Option Url
  pub matches : Text → Text → Bool

-- input.allowedHosts ?? [input.matchedDomain]
abbrev hosts_or : Text → Option (List Text) → List Text
hosts_or domain none = domain ∷ []
hosts_or domain (some hosts) = hosts

-- input.checkoutUrlPattern ? new RegExp(input.checkoutUrlPattern).test(input.currentUrl) : true
abbrev pattern_allows : (Text → Text → Bool) → Text → Option Text → Bool
pattern_allows matches url none = true
pattern_allows matches url (some pattern) = matches pattern url

-- assertCheckoutDomain, whose `allowed` is the result
unfoldable pub assert_checkout_domain :
    Urls → Text → Text → Text → Option (List Text) → Option Text → Option Bool
unfolding includes
assert_checkout_domain urls current_url matched_checkout_url matched_domain allowed_hosts pattern =
    do
      current ← urls.parse_url current_url
      matched ← urls.parse_url matched_checkout_url
      some (
          same current.protocol matched.protocol
          && same current.hostname matched_domain
          && same current_url matched_checkout_url
          && includes (hosts_or matched_domain allowed_hosts) current.hostname
          && pattern_allows urls.matches current_url (present pattern))

-- What the merchant's page shows after the order, each text trimmed.
pub record ConfirmationPage : Type 0 where
  pub url : Text
  pub order_total : Text
  pub item_sku : Text
  pub order_id : Text
  pub observed_at : Timestamp

-- goto gives page.url() after the navigation; fill_and_submit fills the form from the card's iframe
-- and submits it; view_card gives that iframe. Each gives none where it throws.
pub record Browser : Type 0 where
  pub goto : Text → Option Text
  pub view_card : Text → Text → Option Text
  pub fill_and_submit : Text → Option ConfirmationPage

-- payAndIssue's result where the authorization was accepted.
pub record Issued : Type 0 where
  pub card_opaque_id : Text
  pub settlement_tx : Text

pub record SpendAttestation : Type 0 where
  pub merchant_domain : Text
  pub order_total : Text
  pub item_sku : Text
  pub order_id : Text
  pub observed_at : Timestamp

-- Whether onDomainAsserted was called, and the attestation, with none where the checkout threw.
abbrev pub CheckoutResult : Type 0
CheckoutResult = Bool × Option SpendAttestation

-- `!orderTotal || !itemSku || !orderId || !observedAt`
abbrev complete_page : ConfirmationPage → Bool
complete_page page =
    truthy page.order_total
    && truthy page.item_sku
    && truthy page.order_id
    && is_some (present_time (some page.observed_at))

-- The part after the card's fields are submitted.
unfoldable pub read_confirmation :
    Urls → MerchantProfile → ConfirmationPage → Option SpendAttestation
unfolding includes present_time
read_confirmation urls profile page = do
  confirmed_url ← urls.parse_url page.url
  if includes profile.allowed_hosts confirmed_url.hostname && complete_page page
      then some (record {
        merchant_domain = confirmed_url.hostname;
        order_total = page.order_total;
        item_sku = page.item_sku;
        order_id = page.order_id;
        observed_at = page.observed_at;
      })
      else none

unfoldable pub after_assertion :
    Urls → Browser → MerchantProfile → Issued → Option Bool → CheckoutResult
after_assertion urls browser profile issued (some true) = (
  true,
  (do
    iframe_url ← browser.view_card issued.card_opaque_id issued.settlement_tx
    page ← browser.fill_and_submit iframe_url
    read_confirmation urls profile page),
)
after_assertion urls browser profile issued _ = (false, none)

-- runCheckout
unfoldable pub run_checkout :
    Urls → Browser → MerchantProfile → ResolvedItem → Issued → CheckoutResult
run_checkout urls browser profile item issued = elim (browser.goto item.checkout_url) [
  | none ↦ (false, none)
  | some actual_url ↦ after_assertion urls browser profile issued (
      assert_checkout_domain urls actual_url item.checkout_url item.merchant_domain
        (some profile.allowed_hosts) (some profile.checkout_url_pattern))
]

pub record ShopifyUcpCheckout : Type 0 where
  pub store_domain : Text
  pub checkout_session_id : Text
  pub title : Text
  pub sku : Text
  pub total_base_units : Text
  pub currency : Text

-- The configuration of the UCP client, `new URL(path, base)`, and the merchant's answer to the POST:
-- none where it is not a success, and its order id.
pub record Ucp : Type 0 where
  pub api_url : Text
  pub relay_hosts : List Text
  pub resolve_url : Text → Text → Option Url
  pub post_payment : Text → Issued → Option (Option Text)

-- UCP_CHECKOUT_API_URL || `https://${input.checkout.storeDomain}`
abbrev pub ucp_base : Ucp → ShopifyUcpCheckout → Text
ucp_base ucp checkout =
    if truthy ucp.api_url then ucp.api_url else codes "https://" ++ checkout.store_domain

abbrev pub ucp_path : ShopifyUcpCheckout → Text
ucp_path checkout =
    codes "checkout-sessions/" ++ (checkout.checkout_session_id ++ codes "/complete")

unfoldable pub host_allowed : Ucp → ShopifyUcpCheckout → Url → Bool
unfolding includes
host_allowed ucp checkout endpoint =
    same (lower endpoint.hostname) (lower checkout.store_domain)
    || includes ucp.relay_hosts (lower endpoint.hostname)

unfoldable pub ucp_spend :
    Timestamp → ShopifyUcpCheckout → Option (Option Text) → Option SpendAttestation
ucp_spend now checkout answer = do
  order ← answer
  order_id ← present order
  some (record {
    merchant_domain = checkout.store_domain;
    order_total = checkout.total_base_units;
    item_sku = checkout.sku;
    order_id = order_id;
    observed_at = now;
  })

-- completeUcpCheckout
unfoldable pub complete_ucp_checkout :
    Ucp → Timestamp → ShopifyUcpCheckout → Issued → CheckoutResult
unfolding ucp_spend
complete_ucp_checkout ucp now checkout issued =
    elim (ucp.resolve_url (ucp_path checkout) (ucp_base ucp checkout)) [
      | none ↦ (false, none)
      | some endpoint ↦
          if host_allowed ucp checkout endpoint
          then (true, ucp_spend now checkout (ucp.post_payment checkout.checkout_session_id issued))
          else (false, none)
    ]
