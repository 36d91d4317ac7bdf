-- ===== src/Signer/Rail/Envelope.antt =====
-- What the rail lets through, and what its verdicts say.
use straitsx.Prelude.{
  ℕ, ◌+◌, ◌≤◌, ◌≡◌, ◌↔◌, Bool, true, false, some, arith, Option-cases, Bool-cases, ap, ◌∙◌, inl,
  inr, pos, ◌≤ℤ◌, if◌then◌else◌,
}
use straitsx.Text.{Text, same, same_iff}
use straitsx.Dict.{get}
use straitsx.Contracts.Types.{PinnedMandate}
use straitsx.Signer.Rail.{
  RailInput, RailConfig, RailResult, passed, refused, replay, max_auth_window_seconds,
  parse_uint_as_big_int, check_limits, check_entry, check_rail,
}

-- The envelope of the pinned entry, without the replay guard.
pub record IsWithin (input : RailInput) (config : RailConfig) : Type 0 where
  pub entry : PinnedMandate
  pub hard_max : ℕ
  pub pinned : get input.mandate_id config.pinned ≡ some entry
  pub recipient : input.to ≡ entry.settlement_recipient
  pub parsed : parse_uint_as_big_int entry.hard_max_total ≡ some hard_max
  pub value : input.value ≤ℤ pos hard_max
  pub from : input.from ≡ config.signer_address
  pub chain : input.chain_id ≡ config.chain_id
  pub window : input.valid_before ≤ input.valid_after + max_auth_window_seconds

module _ (input : RailInput) (request_id : Text) (config : RailConfig) where
  -- The two verdicts that are given only within the envelope, by whether the request was seen.
  abbrev verdict : Bool → RailResult
  verdict seen = if seen then refused replay else passed

  check_limits_sound :
      (seen : Bool) (entry : PinnedMandate) (hard_max : ℕ)
      → check_limits input request_id config entry hard_max ≡ verdict seen
      → (input.value ≤ℤ pos hard_max)
        × (input.from ≡ config.signer_address)
        × (input.chain_id ≡ config.chain_id)
        × (input.valid_before ≤ input.valid_after + max_auth_window_seconds)
        × (config.has_seen_request_id request_id ≡ seen)
  unfolding check_limits
  check_limits_sound seen entry hard_max h =
      ground (arith, same_iff input.from config.signer_address)

  check_limits_complete :
      (entry : PinnedMandate) (hard_max : ℕ)
      → input.value ≤ℤ pos hard_max
      → input.from ≡ config.signer_address
      → input.chain_id ≡ config.chain_id
      → input.valid_before ≤ input.valid_after + max_auth_window_seconds
      → check_limits input request_id config entry hard_max
        ≡ verdict (config.has_seen_request_id request_id)
  unfolding check_limits
  check_limits_complete entry hard_max a b c d =
      ground (arith, same_iff input.from config.signer_address)

  within :
      (seen : Bool) (entry : PinnedMandate)
      → get input.mandate_id config.pinned ≡ some entry
      → check_entry input request_id config entry ≡ verdict seen
      → IsWithin input config × (config.has_seen_request_id request_id ≡ seen)
  unfolding check_entry
  within seen entry pinned h = elim (Bool-cases (same input.to entry.settlement_recipient)) [
    | inr other ↦ absurd (ground (arith, other))
    | inl same_to ↦ elim (Option-cases (parse_uint_as_big_int entry.hard_max_total)) [
      | inl bad ↦ absurd (ground (arith, same_to, bad))
      | inr (hard_max, parsed) ↦
          let limits = check_limits_sound seen entry hard_max (ground (arith, same_to, parsed)) in
          (
            record {
              entry = entry;
              hard_max = hard_max;
              pinned = pinned;
              recipient = (same_iff _ _).0 same_to;
              parsed = parsed;
              value = limits.0;
              from = limits.1;
              chain = limits.2;
              window = limits.3;
            },
            limits.4,
          )
    ]
  ]

  sound :
      (seen : Bool)
      → check_rail input request_id config ≡ verdict seen
      → IsWithin input config × (config.has_seen_request_id request_id ≡ seen)
  unfolding check_rail
  sound seen h = elim (Option-cases (get input.mandate_id config.pinned)) [
    | inl e ↦ absurd (ground (arith, e))
    | inr (entry, e) ↦ within seen entry e (ground (arith, e))
  ]

  complete :
      IsWithin input config
      → check_rail input request_id config ≡ verdict (config.has_seen_request_id request_id)
  unfolding check_rail check_entry
  complete w =
      let to_entry = (same_iff _ _).1 w.recipient in
      rw (w.pinned, check_rail)
        (rw to_entry (
          rw (w.parsed, check_entry)
            (check_limits_complete w.entry w.hard_max w.value w.from w.chain w.window)))

-- The rail passes a request exactly when its mandate is pinned, the recipient, ceiling, wallet, chain
-- and window of the request lie in the envelope, and its identifier has not been signed before.
pub check_rail-passed_iff :
    (input : RailInput) (request_id : Text) (config : RailConfig)
    → (check_rail input request_id config ≡ passed)
      ↔ (IsWithin input config × (config.has_seen_request_id request_id ≡ false))
check_rail-passed_iff input request_id config = (
  λ h. sound input request_id config false h,
  λ w. complete input request_id config w.0 ∙ ap (λ b. if b then refused replay else passed) w.1,
)

-- A replay is reported exactly for a request inside the envelope that was signed before: the other
-- six refusals come first.
pub check_rail-replay_iff :
    (input : RailInput) (request_id : Text) (config : RailConfig)
    → (check_rail input request_id config ≡ refused replay)
      ↔ (IsWithin input config × (config.has_seen_request_id request_id ≡ true))
check_rail-replay_iff input request_id config = (
  λ h. sound input request_id config true h,
  λ w. complete input request_id config w.0 ∙ ap (λ b. if b then refused replay else passed) w.1,
)
