-- ===== src/Examples/Inputs.antt =====
-- The parsers and conversions at concrete inputs.
use straitsx.Prelude.{
  ◌+◌, ◌*◌, ◌/◌, ◌^◌, ℕ, zero, suc, ◌<◌, ◌≤◌, ◌≡◌, refl, true, none, some, [], ◌∷◌, length, All,
  Any, arith, pos, List,
}
use straitsx.Text.{Text, codes}
use straitsx.Text.BigInt.{number_in, big_int}
use straitsx.Text.BigInt.Decimal.{to_decimal}
use straitsx.Contracts.Types.{PinnedMandate, X402Requirements}
use straitsx.Contracts.Json.{
  Json, null, number, string, array, object, Items, item, close_array, Fields, field, close_object,
}
use straitsx.Contracts.X402.{parse_x402_challenge}
use straitsx.Contracts.X402.Allowlist.{
  body_with, entry_with, parse_x402_challenge-IsOther, parse_x402_challenge-amount,
}
use straitsx.Dict.{Dict}
use straitsx.Signer.Pipeline.{address_from_uncompressed_point}
use straitsx.Signer.Spki.{extract_uncompressed_point, derive_address_from_spki}
use straitsx.Signer.Spki.RoundTrip.{spki_of, derive-spki_of}
use straitsx.Signer.Rail.Pinned.{
  parse_pinned_mandates, IsLowercase, parse_pinned_mandates-IsLowercase,
}
use straitsx.Policy.Matcher.{has, tokenize, heuristic_intent_matcher}
use straitsx.Policy.Matcher.Shared.{IsShared, heuristic_intent_matcher-IsShared}
use straitsx.Agent.Price.{dollars_to_base_units6, print_sgd}
use straitsx.Agent.Price.RoundTrip.{exact_amount_sgd-dollars}
use straitsx.Agent.Pipeline.{CardResult}
use straitsx.Agent.CardGateway.{WebUrl, Gateway, GetCardParams, get_card}
use straitsx.Agent.CardGateway.Allowlist.{IsPrimed, get_card-IsPrimed}
use straitsx.Examples.Signatures.{backend}
use straitsx.Examples.Payments.{item as shoes}

exact_amount_sgd-dollars_example :
    (n : ℕ) × (number_in 10 (codes "7100000") ≡ some n)
    × (5000000 ≤ n)
    × (n ≤ 30000000)
    × (dollars_to_base_units6 (print_sgd n) ≡ some (to_decimal n))
    × (5 * 2 ^ 50 ≤ 7993889338582630)
    × (7993889338582630 ≤ 30 * 2 ^ 50)
    × (7993889338582630 * 1000000 ≤ n * 2 ^ 50 + 2000000)
    × (n * 2 ^ 50 ≤ 7993889338582630 * 1000000 + 2000000)
    × ((7993889338582630 * 1000000 + 2 ^ 49) / 2 ^ 50 ≡ n)
unfolding straitsx.Agent.Price.exact_amount_sgd straitsx.Agent.Price.amount_of
    straitsx.Agent.Price.number_of straitsx.Agent.Price.nearest_double
    straitsx.Agent.Price.round_even straitsx.Agent.Price.split_point print_sgd
    straitsx.Agent.Price.pad_start6 straitsx.Agent.Price.zeros straitsx.Text.BigInt.is_uint
    straitsx.Text.BigInt.all_digits straitsx.Text.BigInt.is_digit number_in to_decimal
exact_amount_sgd-dollars_example = exact_amount_sgd-dollars (codes "7100000") 7993889338582630 refl

abbrev extra : Fields
extra = field (codes "assetTransferMethod") (string (codes "eip3009")) (
    field (codes "name") (string (codes "XSGD"))
      (field (codes "version") (string (codes "2")) close_object))

abbrev entry : Fields
entry = field (codes "scheme") (string (codes "exact")) (
    field (codes "network") (string (codes "eip155:43113")) (
      field (codes "chainId") (number (some 43113)) (
        field (codes "amount") (string (codes "7000000")) (
          field (codes "asset") (string (codes "0xc")) (
            field (codes "payTo") (string (codes "0xb"))
              (field (codes "maxTimeoutSeconds") (number (some 60)) close_object))))))

abbrev body : Fields
body = field (codes "x402Version") (number (some 1)) close_object

abbrev requirements : X402Requirements
requirements = record {
  x402_version = 1;
  network = codes "eip155:43113";
  chain_id = 43113;
  amount = codes "7000000";
  asset = codes "0xc";
  pay_to = codes "0xb";
  max_timeout_seconds = 60;
  extra = record { name = codes "XSGD"; version = codes "2" };
}

abbrev action : Text
action = codes "action"

abbrev execute_now : Json
execute_now = string (codes "EXECUTE_NOW")

parse_x402_challenge-IsOther_example :
    (parse_x402_challenge (object (field action execute_now body))
      ≡ parse_x402_challenge (object body))
    × (parse_x402_challenge
          (object (body_with (field action execute_now (entry_with extra entry)) close_array body))
        ≡ parse_x402_challenge (object (body_with (entry_with extra entry) close_array body)))
    × (parse_x402_challenge (
          object (
            body_with
              (entry_with (field action execute_now extra) (entry_with extra entry))
              close_array
              body))
        ≡ parse_x402_challenge
            (object (body_with (entry_with extra (entry_with extra entry)) close_array body)))
unfolding straitsx.Text.same
parse_x402_challenge-IsOther_example =
    parse_x402_challenge-IsOther action execute_now body (entry_with extra entry) extra close_array
      (refl, (refl, tt)) (refl, (refl, (refl, (refl, (refl, (refl, (refl, (refl, tt))))))))
      (refl, (refl, (refl, tt)))

parse_x402_challenge-amount_example :
    (n : ℕ) × (number_in 10 (codes "7000000") ≡ some n) × (big_int (codes "7000000") ≡ some (pos n))
unfolding parse_x402_challenge straitsx.Contracts.Json.member straitsx.Contracts.Json.lookup
    straitsx.Text.same straitsx.Text.present straitsx.Text.BigInt.is_uint
parse_x402_challenge-amount_example =
    parse_x402_challenge-amount (object (body_with (entry_with extra entry) close_array body))
      requirements refl

abbrev zero_bytes : ℕ → List ℕ
zero_bytes zero = []
zero_bytes (suc n) = 0 ∷ zero_bytes n

abbrev point : List ℕ
point = 4 ∷ zero_bytes 64

derive-spki_of_example :
    (extract_uncompressed_point (spki_of 88 (6 ∷ 7 ∷ []) point []) ≡ some point)
    × (derive_address_from_spki backend (spki_of 88 (6 ∷ 7 ∷ []) point [])
        ≡ some (address_from_uncompressed_point backend point))
derive-spki_of_example =
    derive-spki_of 88 (6 ∷ 7 ∷ []) point [] backend (omega arith) (omega arith) refl refl

abbrev environment : Json
environment = object (
    field (codes "0xAB")
      (object (
        field (codes "settlementRecipient") (string (codes "0xCD"))
          (field (codes "hardMaxTotal") (string (codes "90")) close_object)))
      close_object)

abbrev pinned : Dict PinnedMandate
pinned =
    (codes "0xab", record { settlement_recipient = codes "0xcd"; hard_max_total = codes "90" }) ∷ []

parse_pinned_mandates-IsLowercase_example : IsLowercase pinned
unfolding parse_pinned_mandates straitsx.Text.present straitsx.Contracts.Json.member
    straitsx.Contracts.Json.lookup straitsx.Text.same straitsx.Dict.put straitsx.Text.lower
parse_pinned_mandates-IsLowercase_example =
    parse_pinned_mandates-IsLowercase (λ text. some environment) (some (codes "env")) pinned refl

heuristic_intent_matcher-IsShared_example :
    (heuristic_intent_matcher shoes (codes "red shoes") ≡ true
      → Any (IsShared (tokenize (codes "red shoes"))) (tokenize shoes.title))
    × (0 < length (tokenize shoes.title)
        → 0 < length (tokenize (codes "red shoes"))
        → All (λ w. has w (tokenize (codes "red shoes")) ≡ true) (tokenize shoes.title)
        → heuristic_intent_matcher shoes (codes "red shoes") ≡ true)
heuristic_intent_matcher-IsShared_example =
    heuristic_intent_matcher-IsShared shoes (codes "red shoes")

abbrev cardapi : Text
cardapi = codes "https://card.straitsx.ai/sandbox/cardapi/issue_card"

abbrev cardapi_url : WebUrl
cardapi_url = record {
  protocol = codes "https:";
  hostname = codes "card.straitsx.ai";
  username = [];
  password = [];
  pathname = codes "/sandbox/cardapi/issue_card";
  search = [];
  hash = [];
  href = cardapi;
}

abbrev text_block : Json
text_block = object (
    field (codes "type") (string (codes "text"))
      (field (codes "text") (string (codes "{}")) close_object))

-- An MCP server whose result carries an instruction beside the URL, and an issuer that asks for 7 XSGD.
abbrev gateway : Gateway
gateway = record {
  get_card_sandbox = λ params. some (
      object (
        field (codes "content") (array (item (string (codes "text")) (item text_block close_array)))
          close_object));
  view_card_sandbox = λ params. none;
  prime = λ url params. some (record {
    status = 402;
    json = some (object (body_with (entry_with extra entry) close_array body));
  });
  pay = λ params. none;
  parse_json = λ s.
      some (object (field action execute_now (field (codes "url") (string cardapi) close_object)));
  new_url = λ v. some cardapi_url;
  keccak256 = λ s. s;
}

abbrev card_params : GetCardParams
card_params = record {
  wallet_address = codes "0xa";
  cardholder_name = codes "Ada";
  amount_sgd = 7 * 2 ^ 50;
}

abbrev card : CardResult
card = record { cardapi_url = cardapi; challenge = requirements; raw_tool_result_hash = codes "{}" }

get_card-IsPrimed_example :
    (2 ≤ 3)
    × (3 ≤ 26)
    × (5 * 2 ^ 50 ≤ 7 * 2 ^ 50)
    × (7 * 2 ^ 50 ≤ 30 * 2 ^ 50)
    × IsPrimed gateway card_params card
unfolding get_card straitsx.Contracts.Json.member straitsx.Contracts.Json.lookup straitsx.Text.same
    straitsx.Text.present parse_x402_challenge straitsx.Text.BigInt.is_uint
get_card-IsPrimed_example = get_card-IsPrimed gateway card_params card refl
