-- ===== src/Chain/Settlement/Matching.antt =====
-- What a confirmed settlement says about the logs of its transaction.
use straitsx.Prelude.{
  ℕ, ◌≡◌, ◌↔◌, refl, ap, Bool, true, ◌&&◌, &&-iff, Option, none, some, List, [], ◌∷◌, arith,
  is_some, Bool-cases, Option-cases, inl, inr, ◌⊎◌, pos, Any, ◌>>=◌, ◌+◌, ◌-◌,
}
use straitsx.Text.{Text, same_iff, lower}
use straitsx.Text.BigInt.{number_in, is_uint}
use straitsx.Text.BigInt.Uint.{big_int-uint}
use straitsx.Contracts.Validation.{parse_uint}
use straitsx.Chain.Settlement.{
  Log, Transfer, Decoder, Expect, transfer_matches, log_matches, first_match,
  find_matching_transfer, Receipt, RpcResult, answer, missing, timed_out, unavailable, rpc_status,
  Rpc, ConfirmBody, ConfirmRequest, Confirmation, ConfirmReply, confirmed, confirm_error,
  parse_confirm, confirmation_of, with_head, with_receipt, confirm_settlement,
}

-- A log that moves `amount` of `asset` to `to`: all three on this one log.
pub record IsTransfer (decode : Decoder) (asset to : Text) (amount : ℕ) (log : Log) : Type 0 where
  pub token : lower log.address ≡ lower asset
  pub transfer : Transfer
  pub decoded : decode log.topics log.payload ≡ some transfer
  pub recipient : Text
  pub recipient_read : transfer.to ≡ some recipient
  pub recipient_same : lower recipient ≡ lower to
  pub value : transfer.value ≡ some amount

module _ (decode : Decoder) (asset to : Text) (amount : ℕ) where
  abbrev test : Log → Bool
  test = log_matches decode (lower asset) (lower to) (pos amount)

  log_matches-IsTransfer : (log : Log) → test log ≡ true → IsTransfer decode asset to amount log
  unfolding log_matches transfer_matches
  log_matches-IsTransfer log h = elim (Option-cases (decode log.topics log.payload)) [
    | inl e ↦ absurd (ground (arith, e))
    | inr (t, e) ↦ elim (Option-cases t.to) [
      | inl e' ↦ absurd (ground (arith, e, e'))
      | inr (recipient, e') ↦ elim (Option-cases t.value) [
        | inl e'' ↦ absurd (ground (arith, e, e', e''))
        | inr (value, e'') ↦ record {
          token = ground (arith, e, same_iff (lower log.address) (lower asset));
          transfer = t;
          decoded = e;
          recipient = recipient;
          recipient_read = e';
          recipient_same = ground (arith, e, e', e'', same_iff (lower recipient) (lower to));
          value = ground (arith, e, e', e'');
        }
      ]
    ]
  ]

  IsTransfer-log_matches : (log : Log) → IsTransfer decode asset to amount log → test log ≡ true
  unfolding log_matches transfer_matches
  IsTransfer-log_matches log w =
      let token = (same_iff (lower log.address) (lower asset)).1 w.token in
      let recipient = (same_iff (lower w.recipient) (lower to)).1 w.recipient_same in
      let e = w.decoded in
      let e' = w.recipient_read in let e'' = w.value in ground (arith, token, e, e', e'', recipient)

  first_match-found :
      (logs : List Log)
      → (is_some (first_match test logs) ≡ true) ↔ Any (IsTransfer decode asset to amount) logs
  unfolding first_match
  first_match-found [] = (λ h. absurd (cc h), λ a. absurd a)
  first_match-found (log ∷ rest) = elim (Bool-cases (test log)) [
    | inl hit ↦ (λ h. inl (log_matches-IsTransfer log hit), λ a. rw hit)
    | inr pass ↦ (
      λ h. inr ((first_match-found rest).0 (rw (pass, first_match) at h)),
      λ a. elim a [
        | inl w ↦ absurd (ground (arith, pass, IsTransfer-log_matches log w))
        | inr later ↦ rw (pass, first_match) ((first_match-found rest).1 later)
      ],
    )
  ]

-- The verdict on a receipt.
pub record IsVerdict (decode : Decoder) (expect : Expect) (r : Receipt) (c : Confirmation)
    : Type 0 where
  pub amount : ℕ
  pub amount_read : number_in 10 expect.amount ≡ some amount
  pub matched :
      (c.transfer_matched ≡ true) ↔ Any (IsTransfer decode expect.asset expect.to amount) r.logs
  pub settled :
      (c.ok ≡ true)
      ↔ ((r.succeeded ≡ true) × Any (IsTransfer decode expect.asset expect.to amount) r.logs)

parse_uint-is_uint : (raw : Option Text) (a : Text) → parse_uint raw ≡ some a → is_uint a ≡ true
unfolding parse_uint
parse_uint-is_uint none a h = absurd (cc h)
parse_uint-is_uint (some raw) a h = ground arith

amount-is_uint :
    (body : ConfirmBody) (request : ConfirmRequest)
    → parse_confirm body ≡ some request
    → is_uint request.expect.amount ≡ true
unfolding parse_confirm
amount-is_uint body request h = ground (arith, parse_uint-is_uint body.amount request.expect.amount)

confirmation_of-IsVerdict :
    (decode : Decoder) (r : Receipt) (head : ℕ) (expect : Expect)
    → is_uint expect.amount ≡ true
    → (c : Confirmation) × (confirmation_of decode r head expect ≡ some c)
      × IsVerdict decode expect r c
unfolding confirmation_of find_matching_transfer
confirmation_of-IsVerdict decode r head expect h =
    let (amount, read, big) = big_int-uint expect.amount h in
    let found =
      first_match (log_matches decode (lower expect.asset) (lower expect.to) (pos amount)) r.logs in
    let exact = first_match-found decode expect.asset expect.to amount r.logs in
    (
      record {
        ok = r.succeeded && is_some found;
        block_number = r.block_number;
        confirmations = head + 1 - r.block_number;
        transfer_matched = is_some found;
        log_index = found;
      },
      rw (big, ◌>>=◌),
      record {
        amount = amount;
        amount_read = read;
        matched = exact;
        settled = (
          λ e. let (a, b) = (&&-iff r.succeeded (is_some found)).0 e in (a, exact.0 b),
          λ w. (&&-iff r.succeeded (is_some found)).1 (w.0, exact.1 w.1),
        );
      },
    )

reply_confirmation : Confirmation → ConfirmReply → Confirmation
reply_confirmation c (confirmed d) = d
reply_confirmation c (confirm_error n) = c

confirmed-injective : (d c : Confirmation) → confirmed d ≡ confirmed c → d ≡ c
unfolding reply_confirmation
confirmed-injective d c h = ap (reply_confirmation c) h

module _ (rpc : Rpc) where
  with_head-IsVerdict :
      (request : ConfirmRequest) (r : Receipt) (head : RpcResult ℕ)
      → is_uint request.expect.amount ≡ true
      → ((c : Confirmation) × (with_head rpc request r head ≡ confirmed c)
          × IsVerdict rpc.decode request.expect r c)
        ⊎ (with_head rpc request r head ≡ confirm_error (rpc_status head))
  unfolding with_head
  with_head-IsVerdict request r (answer head) h =
      let (c, made, verdict) = confirmation_of-IsVerdict rpc.decode r head request.expect h in
      inl (c, rw (with_head, made), verdict)
  with_head-IsVerdict request r missing h = inr refl
  with_head-IsVerdict request r timed_out h = inr refl
  with_head-IsVerdict request r unavailable h = inr refl

  with_receipt-IsVerdict :
      (request : ConfirmRequest) (fetched : RpcResult Receipt) (c : Confirmation)
      → is_uint request.expect.amount ≡ true
      → with_receipt rpc request fetched ≡ confirmed c
      → (r : Receipt) × (fetched ≡ answer r) × IsVerdict rpc.decode request.expect r c
  unfolding with_receipt
  with_receipt-IsVerdict request (answer r) c h e =
      elim (with_head-IsVerdict request r (rpc.get_block_number request.chain_id) h) [
        | inl (d, made, verdict) ↦ (r, refl, rw (← confirmed-injective d c (cc (made, e))) verdict)
        | inr failed ↦ absurd (cc (failed, e))
      ]
  with_receipt-IsVerdict request missing c h e = absurd (cc e)
  with_receipt-IsVerdict request timed_out c h e = absurd (cc e)
  with_receipt-IsVerdict request unavailable c h e = absurd (cc e)

  -- An answer with a confirmation means that the body was well formed, that the node has a receipt
  -- of the transaction, and that ok and transferMatched are exact: ok is true if and only if the
  -- receipt succeeded and one of its logs is a Transfer of the expected amount of the expected token
  -- to the expected address, all three on the same log.
  pub confirm_settlement-IsVerdict :
      (body : ConfirmBody) (c : Confirmation)
      → confirm_settlement rpc body ≡ confirmed c
      → (request : ConfirmRequest) × (parse_confirm body ≡ some request)
        × ((r : Receipt) × (rpc.get_transaction_receipt request.chain_id request.tx_hash ≡ answer r)
            × IsVerdict rpc.decode request.expect r c)
  unfolding confirm_settlement
  confirm_settlement-IsVerdict body c h = elim (Option-cases (parse_confirm body)) [
    | inl e ↦ absurd (cc (e, h))
    | inr (request, e) ↦
        let go =
          with_receipt-IsVerdict request
            (rpc.get_transaction_receipt request.chain_id request.tx_hash) c
            (amount-is_uint body request e) (rw (confirm_settlement, e) at h) in
        (request, e, go)
  ]

  rpc_status-error :
      {A : Type 0} (failure : RpcResult A) (status : ℕ)
      → confirm_error (rpc_status failure) ≡ confirm_error status
      → (status ≡ 404) ⊎ (status ≡ 502) ⊎ (status ≡ 504)
  unfolding rpc_status
  rpc_status-error (answer a) status e = ground arith
  rpc_status-error missing status e = ground arith
  rpc_status-error timed_out status e = ground arith
  rpc_status-error unavailable status e = ground arith

  with_receipt-error :
      (request : ConfirmRequest) (fetched : RpcResult Receipt) (status : ℕ)
      → is_uint request.expect.amount ≡ true
      → with_receipt rpc request fetched ≡ confirm_error status
      → (status ≡ 404) ⊎ (status ≡ 502) ⊎ (status ≡ 504)
  unfolding with_receipt rpc_status
  with_receipt-error request (answer r) status h e =
      let head = rpc.get_block_number request.chain_id in
      elim (with_head-IsVerdict request r head h) [
        | inl (c, made, verdict) ↦ absurd (cc (made, e))
        | inr failed ↦ rpc_status-error head status (cc (failed, e))
      ]
  with_receipt-error request missing status h e = ground arith
  with_receipt-error request timed_out status h e = ground arith
  with_receipt-error request unavailable status h e = ground arith

  -- Every error is one of the documented ones, and 400 is answered exactly for a body that does not
  -- parse: no well-formed request makes BigInt throw, so none is answered 500.
  pub confirm_settlement-errors :
      (body : ConfirmBody) (status : ℕ)
      → confirm_settlement rpc body ≡ confirm_error status
      → ((parse_confirm body ≡ none) × (status ≡ 400))
        ⊎ (is_some (parse_confirm body) ≡ true) × ((status ≡ 404) ⊎ (status ≡ 502) ⊎ (status ≡ 504))
  unfolding confirm_settlement
  confirm_settlement-errors body status h = elim (Option-cases (parse_confirm body)) [
    | inl e ↦ inl (e, ground arith)
    | inr (request, e) ↦ inr (
      rw e,
      with_receipt-error request (rpc.get_transaction_receipt request.chain_id request.tx_hash)
          status (amount-is_uint body request e) (rw (confirm_settlement, e) at h),
    )
  ]
