-- ===== src/Agent/CardGateway/Allowlist.antt =====
-- What an answer of the card gateway rests on.
use mathlib.Core.Path.{subst}
use straitsx.Prelude.{
  ◌*◌, ◌^◌, some-same, step_of, ◌≤◌, ◌≡◌, ◌⊎◌, inl, inr, true, some, arith, length, ◌==◌, ==_iff,
  Bool-cases, ◌>>=◌, List, [], ◌∷◌,
}
use straitsx.Text.{Text, codes, same_iff}
use straitsx.Contracts.Json.{Json, string, member, as_object}
use straitsx.Contracts.Types.{X402Requirements}
use straitsx.Contracts.X402.{parse_x402_challenge}
use straitsx.Agent.Checkout.{includes}
use straitsx.Agent.Pipeline.{CardResult}
use straitsx.Agent.CardGateway.{
  Gateway, GetCardParams, Response, default_cardapi_urls, WebUrl, allowed_href,
  validate_cardapi_url, str, filter_mcp_card_result, validate_params, extract_tool_result_text,
  challenge_of, fetch_card, get_card,
}

-- One of the issuer's two endpoints.
abbrev pub IsCardapi : Text → Type 0
IsCardapi url =
    (url ≡ codes "https://card.straitsx.ai/sandbox/cardapi/issue_card")
    ⊎ (url ≡ codes "https://card.straitsx.ai/production/cardapi/issue_card")

includes-two : (a b url : Text) → includes (a ∷ b ∷ []) url ≡ true → (url ≡ a) ⊎ (url ≡ b)
unfolding includes
includes-two a b url h = ground (arith, same_iff a url, same_iff b url)

allowed_href-included :
    (allowlist : List Text) (parsed : WebUrl) (url : Text)
    → allowed_href allowlist parsed ≡ some url
    → includes allowlist url ≡ true
unfolding allowed_href
allowed_href-included allowlist parsed url h = ground (arith, includes allowlist parsed.href)

filter-IsCardapi :
    (gateway : Gateway) (raw : Json) (url : Text)
    → filter_mcp_card_result gateway raw ≡ some url
    → IsCardapi url
unfolding filter_mcp_card_result validate_cardapi_url
filter-IsCardapi gateway raw url h =
    let (r, e0, h0) = step_of (as_object raw) _ url h in
    let (value, e1, h1) = step_of (str (member (codes "url") r)) _ url h0 in
    let (parsed, e2, h2) = step_of (gateway.new_url (some (string value))) _ url h1 in
    includes-two _ _ url (allowed_href-included default_cardapi_urls parsed url h2)

validate_params-bounds :
    (params : GetCardParams)
    → validate_params params ≡ true
    → (2 ≤ length params.cardholder_name)
      × (length params.cardholder_name ≤ 26)
      × (5 * 2 ^ 50 ≤ params.amount_sgd)
      × (params.amount_sgd ≤ 30 * 2 ^ 50)
unfolding validate_params
validate_params-bounds params h = ground arith

challenge_of-paid :
    (response : Response) (challenge : X402Requirements)
    → challenge_of response ≡ some challenge
    → (response.status ≡ 402)
      × (body : Json) × (response.json ≡ some body)
      × (parse_x402_challenge body ≡ some challenge)
unfolding challenge_of
challenge_of-paid response challenge h = elim (Bool-cases (response.status == 402)) [
  | inl paid ↦
      let read : (response.json >>= parse_x402_challenge) ≡ some challenge =
        ground (arith, h, paid) in
      let (body, e, parsed) = step_of response.json parse_x402_challenge challenge read in
      ((==_iff response.status 402).0 paid, body, e, parsed)
  | inr other ↦ ground (arith, h, other)
]

-- A card result whose URL is one of the issuer's endpoints, with the challenge of that endpoint's
-- own answer of status 402.
abbrev pub IsPrimed : Gateway → GetCardParams → CardResult → Type 0
IsPrimed gateway params r =
    IsCardapi r.cardapi_url
    × (response : Response) × (body : Json) × (gateway.prime r.cardapi_url params ≡ some response)
    × (response.status ≡ 402)
    × (response.json ≡ some body)
    × (parse_x402_challenge body ≡ some r.challenge)

IsPrimed-challenge_of :
    (gateway : Gateway) (params : GetCardParams) (response : Response) (card : CardResult)
    → IsCardapi card.cardapi_url
    → gateway.prime card.cardapi_url params ≡ some response
    → challenge_of response ≡ some card.challenge
    → IsPrimed gateway params card
IsPrimed-challenge_of gateway params response card cardapi e h =
    let (paid, body, read, parsed) = challenge_of-paid response card.challenge h in
    (cardapi, response, body, e, paid, read, parsed)

fetch_card-IsPrimed :
    (gateway : Gateway) (params : GetCardParams) (r : CardResult)
    → fetch_card gateway params ≡ some r
    → IsPrimed gateway params r
unfolding fetch_card
fetch_card-IsPrimed gateway params r h =
    let (tool_result, e1, h1) = step_of (gateway.get_card_sandbox params) _ r h in
    let (raw_text, e2, h2) = step_of (extract_tool_result_text tool_result) _ r h1 in
    let (parsed, e3, h3) = step_of (gateway.parse_json raw_text) _ r h2 in
    let (url, e4, h4) = step_of (filter_mcp_card_result gateway parsed) _ r h3 in
    let (response, e5, h5) = step_of (gateway.prime url params) _ r h4 in
    let (challenge, e6, h6) = step_of (challenge_of response) _ r h5 in
    let card : CardResult = record {
      cardapi_url = url;
      challenge = challenge;
      raw_tool_result_hash = gateway.keccak256 raw_text;
    } in
    subst (IsPrimed gateway params) (some-same h6) (
      IsPrimed-challenge_of gateway params response card (filter-IsCardapi gateway parsed url e4) e5
        e6)

-- getCard answers only for a name of 2 to 26 characters and an amount of 5 to 30 dollars. Whatever
-- the MCP server returned, the URL of its answer is one of the issuer's two endpoints, and the
-- challenge is the one that the parser read from that endpoint's own answer with status 402.
pub get_card-IsPrimed :
    (gateway : Gateway) (params : GetCardParams) (r : CardResult)
    → get_card gateway params ≡ some r
    → (2 ≤ length params.cardholder_name)
      × (length params.cardholder_name ≤ 26)
      × (5 * 2 ^ 50 ≤ params.amount_sgd)
      × (params.amount_sgd ≤ 30 * 2 ^ 50)
      × IsPrimed gateway params r
unfolding get_card
get_card-IsPrimed gateway params r h = elim (Bool-cases (validate_params params)) [
  | inl valid ↦
      let fetched : fetch_card gateway params ≡ some r = ground (arith, h, valid) in
      let (a, b, c, d) = validate_params-bounds params valid in
      (a, b, c, d, fetch_card-IsPrimed gateway params r fetched)
  | inr invalid ↦ ground (arith, h, invalid)
]
