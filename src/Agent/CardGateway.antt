-- ===== src/Agent/CardGateway.antt =====
-- services/agent-orchestrator/src/card-gateway: the clients of the MCP server and of the card's
-- issuer. Both servers, JSON.parse, the URL parser and keccak256 are parameters; `none` is a throw.
pub mod Allowlist
use straitsx.Prelude.{
  ◌*◌, ◌^◌, ℕ, Bool, true, false, ◌&&◌, ◌||◌, not, Option, none, some, List, [], ◌∷◌, length, ltb,
  leb, ◌==◌, if◌then◌else◌, ◌>>=◌,
}
use straitsx.Text.{Text, codes, same, present, truthy}
use straitsx.Contracts.Types.{X402Requirements}
use straitsx.Contracts.Json.{
  Json, null, number, string, array, Items, close_array, item, member, as_object, as_string,
}
use straitsx.Contracts.X402.{parse_x402_challenge}
use straitsx.Agent.Checkout.{includes, Issued}
use straitsx.Agent.Pipeline.{CardResult}

-- The parts of a URL that the gateway reads; `href` is toString().
pub record WebUrl : Type 0 where
  pub protocol : Text
  pub hostname : Text
  pub username : Text
  pub password : Text
  pub pathname : Text
  pub search : Text
  pub hash : Text
  pub href : Text

-- amountSgd in units of 2^-50 dollars, as exactAmountSgd gives it, which never is NaN.
pub record GetCardParams : Type 0 where
  pub wallet_address : Text
  pub cardholder_name : Text
  pub amount_sgd : ℕ

pub record ViewCardParams : Type 0 where
  pub card_opaque_id : Text
  pub settlement_tx : Text
  pub wallet_address : Text

pub record PayAndIssueParams : Type 0 where
  pub cardapi_url : Text
  pub header : Text
  pub amount_sgd : ℕ
  pub cardholder_name : Text

-- A response of fetch; `json` is none where reading it throws.
pub record Response : Type 0 where
  pub status : ℕ
  pub json : Option Json

-- initialize and callTool of each tool, the two requests to the issuer, JSON.parse, `new URL(v)` and
-- keccak256 of the bytes of a text.
pub record Gateway : Type 0 where
  pub get_card_sandbox : GetCardParams → Option Json
  pub view_card_sandbox : ViewCardParams → Option Json
  pub prime : Text → GetCardParams → Option Response
  pub pay : PayAndIssueParams → Option Response
  pub parse_json : Text → Option Json
  pub new_url : Option Json → Option WebUrl
  pub keccak256 : Text → Text

-- mcp-result-filter.ts

abbrev pub default_cardapi_urls : List Text
default_cardapi_urls =
    codes "https://card.straitsx.ai/sandbox/cardapi/issue_card"
    ∷ codes "https://card.straitsx.ai/production/cardapi/issue_card"
    ∷ []

-- The tests of validateCardapiUrl on a URL that is parsed.
unfoldable pub allowed_href : List Text → WebUrl → Option Text
unfolding includes
allowed_href allowlist parsed =
    if not (same parsed.protocol (codes "https:"))
      || truthy parsed.username
      || truthy parsed.password
      || truthy parsed.search
      || truthy parsed.hash
    then none
    else if not (includes allowlist parsed.href)
    then none
    else some parsed.href

-- validateCardapiUrl
unfoldable pub validate_cardapi_url : Gateway → Text → List Text → Option Text
unfolding allowed_href
validate_cardapi_url gateway value allowlist =
    gateway.new_url (some (string value)) >>= allowed_href allowlist

-- str
unfoldable pub str : Option Json → Option Text
str v = do raw ← v; s ← as_string raw; present (some s)

-- filterMcpCardResult, whose only field is cardapiUrl
unfoldable pub filter_mcp_card_result : Gateway → Json → Option Text
unfolding str validate_cardapi_url
filter_mcp_card_result gateway raw = do
  r ← as_object raw
  url ← str (member (codes "url") r)
  validate_cardapi_url gateway url default_cardapi_urls

-- get-card.ts

-- validateParams
unfoldable pub validate_params : GetCardParams → Bool
validate_params params =
    not (ltb (length params.cardholder_name) 2 || ltb 26 (length params.cardholder_name))
    && not (ltb params.amount_sgd (5 * 2 ^ 50) || ltb (30 * 2 ^ 50) params.amount_sgd)

-- c.type === "text" && typeof c.text === "string", with the text
abbrev text_of_block : Json → Option Text
text_of_block c = do
  kind ← member (codes "type") c
  s ← as_string kind
  text ← if same s (codes "text") then member (codes "text") c else none
  as_string text

-- content.find of a text block; reading the type of null throws.
unfoldable pub find_text : Items → Option Text
find_text close_array = none
find_text (item null rest) = none
find_text (item c rest) =
    let later = find_text rest in elim (text_of_block c) [ none ↦ later | some text ↦ some text ]

-- toolResult?.content?.find, which only an array has.
abbrev find_content : Json → Option Text
find_content (array items) = find_text items
find_content _ = none

-- extractToolResultText
unfoldable pub extract_tool_result_text : Json → Option Text
unfolding find_text
extract_tool_result_text tool_result = do
  content ← member (codes "content") tool_result
  present (find_content content)

-- The challenge of an answer to the priming request.
unfoldable pub challenge_of : Response → Option X402Requirements
challenge_of response =
    if response.status == 402 then response.json >>= parse_x402_challenge else none

-- getCard, after the validation
unfoldable pub fetch_card : Gateway → GetCardParams → Option CardResult
unfolding extract_tool_result_text filter_mcp_card_result challenge_of
fetch_card gateway params = do
  tool_result ← gateway.get_card_sandbox params
  raw_text ← extract_tool_result_text tool_result
  parsed ← gateway.parse_json raw_text
  cardapi_url ← filter_mcp_card_result gateway parsed
  priming_res ← gateway.prime cardapi_url params
  challenge ← challenge_of priming_res
  some (record {
    cardapi_url = cardapi_url;
    challenge = challenge;
    raw_tool_result_hash = gateway.keccak256 raw_text;
  })

-- getCard
unfoldable pub get_card : Gateway → GetCardParams → Option CardResult
unfolding validate_params fetch_card
get_card gateway params = if validate_params params then fetch_card gateway params else none

-- view-card.ts

-- The text begins with this one.
unfoldable pub starts_with : Text → Text → Bool
starts_with [] s = true
starts_with (c ∷ p) [] = false
starts_with (c ∷ p) (d ∷ s) = c == d && starts_with p s

pub record ViewCardResult : Type 0 where
  pub iframe_url : Text
  pub expires_in_seconds : Json

-- v ?? d
abbrev or_default : Option Json → Json → Json
or_default none d = d
or_default (some null) d = d
or_default (some v) d = v

-- The test on the iframe's URL.
unfoldable pub is_card_frame : WebUrl → Bool
unfolding starts_with
is_card_frame iframe =
    same iframe.protocol (codes "https:")
    && same iframe.hostname (codes "card.straitsx.ai")
    && (starts_with (codes "/sandbox/view/") iframe.pathname
        || starts_with (codes "/production/view/") iframe.pathname)
    && not (truthy iframe.username || truthy iframe.password)

-- viewCard, from the parsed URL of the iframe on
unfoldable pub frame_of : Json → WebUrl → Option ViewCardResult
unfolding is_card_frame
frame_of parsed iframe =
    let lifetime = or_default (member (codes "expires_in_seconds") parsed) (number (some 60)) in
    if is_card_frame iframe
    then some (record { iframe_url = iframe.href; expires_in_seconds = lifetime })
    else none

-- viewCard
unfoldable pub view_card : Gateway → ViewCardParams → Option ViewCardResult
unfolding extract_tool_result_text frame_of
view_card gateway params = do
  tool_result ← gateway.view_card_sandbox params
  text ← extract_tool_result_text tool_result
  parsed ← gateway.parse_json text
  iframe ← gateway.new_url (member (codes "iframe_url") parsed)
  frame_of parsed iframe

-- pay-and-issue.ts

pub data PayAndIssueResult : Type 0 where
  issued : Issued → Json → PayAndIssueResult
  refused : X402Requirements → PayAndIssueResult

-- The body of a success; `now` is the clock's text.
unfoldable pub issued_of : Text → Json → Option PayAndIssueResult
issued_of now body = do
  id ← member (codes "card_opaque_id") body
  card_opaque_id ← as_string id
  tx ← member (codes "settlement_tx") body
  settlement_tx ← as_string tx
  some (
      issued (record { card_opaque_id = card_opaque_id; settlement_tx = settlement_tx })
        (or_default (member (codes "issued_at") body) (string now)))

-- What payAndIssue makes of the answer.
unfoldable pub result_of : Text → Response → Option PayAndIssueResult
unfolding issued_of
result_of now res =
    if res.status == 402
    then (do body ← res.json; challenge ← parse_x402_challenge body; some (refused challenge))
    else if not (leb 200 res.status && leb res.status 299)
    then none
    else res.json >>= issued_of now

-- payAndIssue
unfoldable pub pay_and_issue : Gateway → Text → PayAndIssueParams → Option PayAndIssueResult
unfolding result_of
pay_and_issue gateway now params = gateway.pay params >>= result_of now
