-- ===== src/Agent/Discovery.antt =====
-- services/agent-orchestrator/src/discovery/discover.ts: what a run is to buy. The pages that the
-- browser reads and the URL parser are parameters.
use straitsx.Prelude.{
  ℕ, Bool, true, false, ◌&&◌, ◌||◌, not, Option, none, some, [], ◌∷◌, ◌++◌, leb, length, ◌==◌,
  is_some, if◌then◌else◌, ◌>>=◌,
}
use straitsx.Text.{Text, codes, same, lower, present, truthy}
use straitsx.Text.BigInt.{trim, is_uint}
use straitsx.Contracts.Types.{ResolvedItem}
use straitsx.Agent.Price.{dollars_to_base_units6}
use straitsx.Agent.Checkout.{Urls, includes, MerchantProfile, ShopifyUcpCheckout}

-- The test-harness override that a fixture page may carry.
pub record SimulatedCompromise : Type 0 where
  pub pay_to_override : Option Text
  pub amount_override : Option Text

pub record DiscoveryResult : Type 0 where
  pub resolved_item : ResolvedItem
  pub simulated_compromise : Option SimulatedCompromise

-- [a-z0-9]
abbrev is_host_code : ℕ → Bool
is_host_code c = leb b'a' c && leb c b'z' || leb b'0' c && leb c b'9'

-- Where the pattern of a hostname stands: at the start of a label, or after a code of one.
pub data LabelState : Type 0 where
  at_start after_code after_dash : LabelState

-- One code of ^[a-z0-9]([a-z0-9-]*[a-z0-9])?(\.[a-z0-9]([a-z0-9-]*[a-z0-9])?)*$
unfoldable pub next_label : LabelState → ℕ → Option LabelState
next_label at_start c = if is_host_code c then some after_code else none
next_label after_code c =
    if is_host_code c
    then some after_code
    else if c == b'-'
    then some after_dash
    else if c == b'.'
    then some at_start
    else none
next_label after_dash c =
    if is_host_code c then some after_code else if c == b'-' then some after_dash else none

unfoldable pub is_hostname_from : LabelState → Text → Bool
unfolding next_label
is_hostname_from after_code [] = true
is_hostname_from state [] = false
is_hostname_from state (c ∷ s) = elim (next_label state c) [
  | none ↦ false
  | some next ↦ is_hostname_from next s
]

-- [A-Za-z0-9_-]
abbrev is_session_code : ℕ → Bool
is_session_code c = is_host_code c || leb b'A' c && leb c b'Z' || c == b'_' || c == b'-'

abbrev all_session_codes : Text → Bool
all_session_codes [] = true
all_session_codes (c ∷ s) = is_session_code c && all_session_codes s

-- ^[A-Za-z0-9_-]{8,}$
unfoldable pub is_session_id : Text → Bool
is_session_id s = leb 8 (length s) && all_session_codes s

-- checkoutUrlOf
unfoldable pub checkout_url_of : ShopifyUcpCheckout → Text
checkout_url_of checkout =
    codes "https://"
    ++ (checkout.store_domain
        ++ (codes "/checkout-sessions/" ++ (checkout.checkout_session_id ++ codes "/complete")))

-- The guards of discoverShopifyCheckout.
unfoldable pub shopify_guard : ShopifyUcpCheckout → Bool
unfolding is_hostname_from is_session_id
shopify_guard checkout =
    is_hostname_from at_start (lower checkout.store_domain)
    && is_session_id checkout.checkout_session_id
    && same checkout.currency (codes "SGD")
    && is_uint checkout.total_base_units
    && truthy (trim checkout.title)
    && truthy (trim checkout.sku)

-- discoverShopifyCheckout
unfoldable pub discover_shopify_checkout : ShopifyUcpCheckout → Option DiscoveryResult
unfolding shopify_guard
discover_shopify_checkout checkout =
    if shopify_guard checkout
    then some (record {
      resolved_item = record {
        title = trim checkout.title;
        sku = trim checkout.sku;
        price = checkout.total_base_units;
        merchant_domain = lower checkout.store_domain;
        checkout_url = checkout_url_of checkout;
      };
      simulated_compromise = none;
    })
    else none

-- The attributes that discoverProduct reads; `injection` is there where the page has such a block.
pub record FixturePage : Type 0 where
  pub title : Option Text
  pub sku : Option Text
  pub price : Option Text
  pub checkout_href : Option Text
  pub injection : Option SimulatedCompromise

-- value ?? fallback
abbrev pub or_else : Text → Option Text → Text
or_else fallback none = fallback
or_else fallback (some value) = value

-- `payToOverride || amountOverride`
unfoldable pub compromise_of : Option SimulatedCompromise → Option SimulatedCompromise
compromise_of none = none
compromise_of (some c) =
    if is_some (present c.pay_to_override) || is_some (present c.amount_override)
    then some c
    else none

-- The page that the browser shows for a URL, and `new URL(href, base).toString()`.
pub record Pages : Type 0 where
  pub urls : Urls
  pub join_url : Text → Text → Option Text
  pub fixture_page : Text → Option FixturePage

-- discoverProduct
unfoldable pub discover_product : Pages → Text → Option DiscoveryResult
unfolding compromise_of
discover_product pages product_url = do
  page ← pages.fixture_page product_url
  price ← dollars_to_base_units6 (or_else (codes "0") page.price)
  product ← pages.urls.parse_url product_url
  checkout_url ← pages.join_url (or_else [] page.checkout_href) product_url
  some (record {
    resolved_item = record {
      title = or_else [] page.title;
      sku = or_else [] page.sku;
      price = price;
      merchant_domain = product.hostname;
      checkout_url = checkout_url;
    };
    simulated_compromise = compromise_of page.injection;
  })

-- A merchant's page after the navigation, its texts as `extract` gives them.
pub record MerchantPage : Type 0 where
  pub url : Text
  pub title : Text
  pub sku : Text
  pub price : Text
  pub checkout_link : Text

unfoldable pub merchant_item : Pages → MerchantProfile → MerchantPage → Option DiscoveryResult
merchant_item pages profile page = do
  live ← pages.urls.parse_url page.url
  let left = not (includes profile.allowed_hosts live.hostname)
  checkout_url ← if left then none else pages.join_url page.checkout_link page.url
  checkout ← pages.urls.parse_url checkout_url
  price ← dollars_to_base_units6 page.price
  if includes profile.allowed_hosts checkout.hostname
        && pages.urls.matches profile.checkout_url_pattern checkout_url
      then some (record {
        resolved_item = record {
          title = page.title;
          sku = page.sku;
          price = price;
          merchant_domain = checkout.hostname;
          checkout_url = checkout_url;
        };
        simulated_compromise = none;
      })
      else none

-- discoverMerchantProduct; merchant_page is the page that the browser shows for a URL
unfoldable pub discover_merchant_product :
    Pages → (Text → Option MerchantPage) → MerchantProfile → Option DiscoveryResult
unfolding merchant_item
discover_merchant_product pages merchant_page profile = do
  product ← pages.urls.parse_url profile.product_url
  page ←
      if includes profile.allowed_hosts product.hostname
      then merchant_page profile.product_url
      else none
  merchant_item pages profile page
