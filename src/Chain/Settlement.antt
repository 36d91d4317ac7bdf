-- ===== src/Chain/Settlement.antt =====
-- services/chain-gateway/src/routes/settlement.ts: POST /settlement/confirm. The RPC node and viem's
-- decodeEventLog are parameters.
pub mod Matching
use straitsx.Prelude.{
  ℕ, ◌+◌, ◌-◌, Bool, true, false, ◌&&◌, not, Option, none, some, List, [], ◌∷◌, ◌==◌, if◌then◌else◌,
  is_some, ◌>>=◌, ℤ, pos, negsuc,
}
use straitsx.Text.{Text, same, lower}
use straitsx.Text.BigInt.{big_int}
use straitsx.Contracts.Validation.{parse_address, parse_bytes32, parse_uint, parse_chain_id}

pub record Log : Type 0 where
  pub address : Text
  pub topics : List Text
  pub payload : Text
  pub log_index : Option ℕ

-- `args` of a decoded Transfer: `to` and `value`, each with none where it has another type.
pub record Transfer : Type 0 where
  pub to : Option Text
  pub value : Option ℕ

-- decodeEventLog of topics and payload, with none where it throws.
abbrev pub Decoder : Type 0
Decoder = List Text → Text → Option Transfer

pub record Expect : Type 0 where
  pub asset : Text
  pub to : Text
  pub amount : Text

-- value === wantAmount
equals_amount : ℕ → ℤ → Bool
equals_amount value (pos amount) = value == amount
equals_amount value (negsuc n) = false

-- The tests on a decoded Transfer.
unfoldable pub transfer_matches : Transfer → Text → ℤ → Bool
unfolding equals_amount
transfer_matches t want_to want_amount = elim t.to [
  | none ↦ false
  | some to ↦ elim t.value [
    | none ↦ false
    | some value ↦ same (lower to) want_to && equals_amount value want_amount
  ]
]

-- One round of the loop: whether it returns.
unfoldable pub log_matches : Decoder → Text → Text → ℤ → Log → Bool
unfolding transfer_matches
log_matches decode want_asset want_to want_amount log =
    if not (same (lower log.address) want_asset)
    then false
    else elim (decode log.topics log.payload) [
      | none ↦ false
      | some t ↦ transfer_matches t want_to want_amount
    ]

-- log.logIndex ?? 0
unfoldable pub index_or_zero : Option ℕ → ℕ
index_or_zero none = 0
index_or_zero (some i) = i

-- The loop over the logs.
unfoldable pub first_match : (Log → Bool) → List Log → Option ℕ
first_match test [] = none
first_match test (log ∷ rest) =
    if test log then some (index_or_zero log.log_index) else first_match test rest

-- findMatchingTransfer; the outer none is the exception of BigInt(amount)
unfoldable pub find_matching_transfer : Decoder → List Log → Expect → Option (Option ℕ)
find_matching_transfer decode logs expect = do
  want_amount ← big_int expect.amount
  some (first_match (log_matches decode (lower expect.asset) (lower expect.to) want_amount) logs)

pub record Receipt : Type 0 where
  pub succeeded : Bool
  pub block_number : ℕ
  pub logs : List Log

-- What a call of the RPC node gives: `missing` is TransactionReceiptNotFoundError.
pub data RpcResult (A : Type 0) : Type 0 where
  answer : A → RpcResult A
  missing timed_out unavailable : RpcResult A

-- withRpc, and the notFound inside it
unfoldable pub rpc_status : {A : Type 0} → RpcResult A → ℕ
rpc_status missing = 404
rpc_status timed_out = 504
rpc_status _ = 502

pub record Rpc : Type 0 where
  pub get_transaction_receipt : ℕ → Text → RpcResult Receipt
  pub get_block_number : ℕ → RpcResult ℕ
  pub decode : Decoder

-- chain_id is Number(chainId), with none where it is not a natural number.
pub record ConfirmBody : Type 0 where
  pub tx_hash : Option Text
  pub chain_id : Option ℕ
  pub asset : Option Text
  pub to : Option Text
  pub amount : Option Text

pub record ConfirmRequest : Type 0 where
  pub tx_hash : Text
  pub chain_id : ℕ
  pub expect : Expect

pub record Confirmation : Type 0 where
  pub ok : Bool
  pub block_number : ℕ
  pub confirmations : ℕ
  pub transfer_matched : Bool
  pub log_index : Option ℕ

pub data ConfirmReply : Type 0 where
  confirmed : Confirmation → ConfirmReply
  confirm_error : ℕ → ConfirmReply

-- parseBody, and parseChainId after it
unfoldable pub parse_confirm : ConfirmBody → Option ConfirmRequest
parse_confirm body = do
  tx_hash ← parse_bytes32 body.tx_hash
  asset ← parse_address body.asset
  to ← parse_address body.to
  amount ← parse_uint body.amount
  chain_id ← parse_chain_id body.chain_id
  some (record {
    tx_hash = tx_hash;
    chain_id = chain_id;
    expect = record { asset = asset; to = to; amount = amount };
  })

-- The response for a receipt and the head block. The difference stops at 0, as Math.max(0, …) does.
unfoldable pub confirmation_of : Decoder → Receipt → ℕ → Expect → Option Confirmation
confirmation_of decode r current_block expect = do
  found ← find_matching_transfer decode r.logs expect
  some (record {
    ok = r.succeeded && is_some found;
    block_number = r.block_number;
    confirmations = current_block + 1 - r.block_number;
    transfer_matched = is_some found;
    log_index = found;
  })

unfoldable pub with_head : Rpc → ConfirmRequest → Receipt → RpcResult ℕ → ConfirmReply
with_head rpc request r (answer current_block) =
    elim (confirmation_of rpc.decode r current_block request.expect) [
      | none ↦ confirm_error 500
      | some response ↦ confirmed response
    ]
with_head rpc request r failure = confirm_error (rpc_status failure)

unfoldable pub with_receipt : Rpc → ConfirmRequest → RpcResult Receipt → ConfirmReply
with_receipt rpc request (answer r) =
    with_head rpc request r (rpc.get_block_number request.chain_id)
with_receipt rpc request failure = confirm_error (rpc_status failure)

-- POST /settlement/confirm
unfoldable pub confirm_settlement : Rpc → ConfirmBody → ConfirmReply
confirm_settlement rpc body = elim (parse_confirm body) [
  | none ↦ confirm_error 400
  | some request ↦
      with_receipt rpc request (rpc.get_transaction_receipt request.chain_id request.tx_hash)
]
