-- ===== src/Ledger/Window.antt =====
-- services/ledger-service/src/app.ts: GET /window/:mandateId, the rolling spend of a mandate.
-- A bigint crosses the wire as its decimal digits and is read back: it is passed as the number.
pub mod Usage
pub mod Decisions
use straitsx.Prelude.{
  ℕ, suc, ◌+◌, ◌*◌, Bool, false, ◌&&◌, Option, none, some, [], ◌∷◌, ltb, if◌then◌else◌, ℤ, pos,
  ◌+ℤ◌, ltb_ℤ, pos_part, neg_part, sub_ℕ,
}
use straitsx.Text.{Text, same, present}
use straitsx.Text.BigInt.{big_int}
use straitsx.Contracts.Types.{X402Requirements}
use straitsx.Dict.{Dict}
use straitsx.Ledger.State.{
  Timestamp, parse_date, IntentRecord, Ledger, Reply, sent, failed, internal_error,
}
use straitsx.Ledger.Intents.{is_signed}

-- `Date.parse(decidedAt) < windowStartedAtMs`, false where the string is no date
unfoldable pub before_window : ℕ → ℕ → Timestamp → Bool
before_window now window_seconds decided_at = elim (parse_date decided_at) [
  | none ↦ false
  | some t ↦ ltb (t + window_seconds * 1000) now
]

-- The challenge of an intent that the loop counts; the three `continue`s give none.
unfoldable pub counted : Text → ℕ → ℕ → IntentRecord → Option X402Requirements
unfolding before_window
counted mandate_id now window_seconds intent =
    if same intent.mandate_id mandate_id && is_signed intent
    then elim intent.decided_at [
      | none ↦ none
      | some decided_at ↦
          if before_window now window_seconds decided_at then none else intent.challenge
    ]
    else none

-- The loop; none is the exception of BigInt.
unfoldable pub usage_from : Text → ℕ → ℕ → ℤ → ℕ → Dict IntentRecord → Option (ℤ × ℕ)
usage_from mandate_id now window_seconds spent card_count [] = some (spent, card_count)
usage_from mandate_id now window_seconds spent card_count ((_, intent) ∷ rest) =
    elim (counted mandate_id now window_seconds intent) [
      | none ↦ usage_from mandate_id now window_seconds spent card_count rest
      | some challenge ↦ elim (big_int challenge.amount) [
        | none ↦ none
        | some amount ↦
            usage_from mandate_id now window_seconds (spent +ℤ amount) (suc card_count) rest
      ]
    ]

pub record WindowUsage : Type 0 where
  pub spent : ℤ
  pub card_count : ℕ
  pub remaining : Option ℤ

-- `remaining > 0n ? remaining : 0n` of a limit and what is spent
unfoldable pub remaining_of : ℤ → ℤ → ℤ
remaining_of limit spent =
    if ltb_ℤ spent limit
    then sub_ℕ (pos_part limit + neg_part spent) (pos_part spent + neg_part limit)
    else pos 0

-- Number(query.windowSeconds ?? 86400)
abbrev pub or_day : Option ℕ → ℕ
or_day none = 86400
or_day (some n) = n

-- GET /window/:mandateId?windowSeconds=…&maxPerWindow=…
unfoldable pub read_window : ℕ → Text → Option ℕ → Option Text → Ledger → Reply WindowUsage
unfolding usage_from remaining_of present counted
read_window now mandate_id window_seconds max_per_window l =
    elim (usage_from mandate_id now (or_day window_seconds) (pos 0) 0 l.intents) [
      | none ↦ failed 500 internal_error
      | some (spent, card_count) ↦ elim (present max_per_window) [
        | none ↦ sent 200 (record { spent = spent; card_count = card_count; remaining = none })
        | some text ↦ elim (big_int text) [
          | none ↦ failed 500 internal_error
          | some limit ↦ sent 200 (record {
            spent = spent;
            card_count = card_count;
            remaining = some (remaining_of limit spent);
          })
        ]
      ]
    ]
