-- ===== src/Agent/Pipeline/Settled/Transfer.antt =====
-- A run that is done paid its merchant: the composition with the chain gateway.
use straitsx.Prelude.{ℕ, ◌≡◌, true, some, Any}
use straitsx.Text.{Text}
use straitsx.Text.BigInt.{number_in}
use straitsx.Ledger.State.{Ledger}
use straitsx.Chain.Settlement.{
  Receipt, answer, ConfirmRequest, ConfirmReply, confirmed, confirm_error, Confirmation,
  parse_confirm, confirm_settlement,
}
use straitsx.Chain.Settlement.Matching.{IsTransfer, confirm_settlement-IsVerdict}
use straitsx.Agent.Run.{RunState}
use straitsx.Agent.Pipeline.{
  RunInput, PendingContext, CardResult, World, Times, Services, confirm_body, reply_of,
}
use straitsx.Agent.Checkout.{Issued}
use straitsx.Agent.Pipeline.Execution.{cardholder_of, start_run}
use straitsx.Agent.Pipeline.Settled.{
  IsCaptured, IsSettled, ends_captured, ends_refused, ends_failed, ends_waiting,
}
use straitsx.Agent.Pipeline.Settled.Started.{IsFetched, start_run-IsSettled}
use straitsx.Agent.Pipeline.Recorded.{HasCapture}

-- The settlement of the card moved the challenge's amount on the chain.
pub record HasMoved (services : Services) (card : CardResult) (issued : Issued) : Type 0 where
  pub request : ConfirmRequest
  pub parsed : parse_confirm (confirm_body card issued) ≡ some request
  pub receipt : Receipt
  pub fetched :
      services.rpc.get_transaction_receipt request.chain_id request.tx_hash ≡ answer receipt
  pub succeeded : receipt.succeeded ≡ true
  pub amount : ℕ
  pub amount_read : number_in 10 request.expect.amount ≡ some amount
  pub transfer :
      Any
        (IsTransfer services.rpc.decode request.expect.asset request.expect.to amount)
        receipt.logs

reply_of-confirmed :
    (reply : ConfirmReply) (c : Confirmation) → reply_of reply ≡ some c → reply ≡ confirmed c
reply_of-confirmed (confirmed d) c h = cc h
reply_of-confirmed (confirm_error status) c h = absurd (cc h)

module _ (services : Services) (times : Times) (request_id : Text) (input : RunInput) where
  abbrev Known : PendingContext → Type 0
  Known = IsFetched services input

  IsCaptured-HasMoved :
      (w : World) (paid : IsCaptured services times request_id Known w)
      → HasMoved services paid.context.card_result paid.issued
  IsCaptured-HasMoved w paid =
      let body = confirm_body paid.context.card_result paid.issued in
      let reply =
        reply_of-confirmed (confirm_settlement services.rpc body) paid.confirmation
          paid.confirmed in
      let (request, parsed, (receipt, fetched, verdict)) =
        confirm_settlement-IsVerdict services.rpc body paid.confirmation reply in
      let settled = verdict.settled.0 paid.ok in
      record {
        request = request;
        parsed = parsed;
        receipt = receipt;
        fetched = fetched;
        succeeded = settled.0;
        amount = verdict.amount;
        amount_read = verdict.amount_read;
        transfer = settled.1;
      }

  done-IsCaptured :
      (w : World)
      → IsSettled services times request_id Known ⊥ w
      → w.run.state ≡ RunState.done
      → IsCaptured services times request_id Known w
  done-IsCaptured w (ends_captured e paid) h = paid
  done-IsCaptured w (ends_refused check never e o) h = absurd never
  done-IsCaptured w (ends_failed fresh e o) h = absurd (cc (e, h))
  done-IsCaptured w (ends_waiting context reason expires k e o p t) h = absurd (cc (e, h))

  -- A run that startRun leaves DONE has paid its merchant what the card's issuer asked: the
  -- transaction that the ledger has recorded as its settlement and its capture has a successful
  -- receipt, one of whose logs is the transfer of exactly the amount of the challenge that getCard
  -- returned, of its token, to its payee.
  pub start_run-HasMoved :
      (l : Ledger) (w : World)
      → start_run services times request_id input l ≡ some w
      → w.run.state ≡ RunState.done
      → (card : CardResult) × (amount_sgd : ℕ) × (issued : Issued) × (services.get_card
            (cardholder_of input)
            amount_sgd
          ≡ some card)
        × HasMoved services card issued
        × HasCapture request_id issued.settlement_tx w.ledger
  start_run-HasMoved l w started h =
      let paid =
        done-IsCaptured w (rw started at (start_run-IsSettled services times request_id input l)).1
          h in
      (
        paid.context.card_result,
        paid.context.amount_sgd,
        paid.issued,
        paid.knows.1,
        IsCaptured-HasMoved w paid,
        paid.recorded,
      )
