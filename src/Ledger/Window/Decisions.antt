-- ===== src/Ledger/Window/Decisions.antt =====
-- POST /decision and GET /window together: what a recorded decision does to the rolling spend.
use straitsx.Prelude.{
  ℕ, suc, ◌≡◌, refl, sym, ◌∙◌, ap, false, Option, none, some, arith, ℤ, pos, ◌+ℤ◌, if◌then◌else◌,
}
use straitsx.Text.{Text, same_iff, same_refl}
use straitsx.Text.BigInt.{big_int}
use straitsx.Dict.{get, put, get-put, put-put_back}
use straitsx.Contracts.Types.{X402Requirements}
use straitsx.Ledger.State.{IntentRecord, Ledger, Timestamp, Decision, signed, refused, save_intent}
use straitsx.Ledger.Intents.{is_signed, on_intent}
use straitsx.Ledger.Outcomes.{DecisionBody, decision_fields, record_decision, with_decision}
use straitsx.Ledger.Window.{before_window, counted, usage_from}
use straitsx.Ledger.Window.Usage.{Charges, usage-put}

-- The intents after a decision on a stored intent.
intents-record_decision :
    (now : ℕ) (b : DecisionBody) (l : Ledger) (k : Text) (d : Decision) (t : Timestamp)
    (i : IntentRecord)
    → decision_fields b ≡ some (k, d, t)
    → get k l.intents ≡ some i
    → (record_decision now b l).0.intents ≡ put k (with_decision b d t i) l.intents
unfolding record_decision save_intent
intents-record_decision now b l k d t i given found =
    rw (given, record_decision) (rw (found, on_intent) refl)

refused_unsigned :
    (b : DecisionBody) (t : Timestamp) (i : IntentRecord)
    → is_signed (with_decision b refused t i) ≡ false
unfolding with_decision
refused_unsigned b t i = refl

abbrev pub usage : Text → ℕ → ℕ → Ledger → Option (ℤ × ℕ)
usage m now w l = usage_from m now w (pos 0) 0 l.intents

module _ (m : Text) (now w : ℕ) where
  unsigned_skips : (i : IntentRecord) → is_signed i ≡ false → counted m now w i ≡ none
  unfolding counted
  unsigned_skips i h = ground arith

  signed-Charges :
      (b : DecisionBody) (t : Timestamp) (i : IntentRecord) (c : X402Requirements) (v : ℤ)
      → i.mandate_id ≡ m
      → before_window now w t ≡ false
      → i.challenge ≡ some c
      → big_int c.amount ≡ some v
      → Charges m now w (with_decision b signed t i) v
  unfolding counted with_decision
  signed-Charges b t i c v own inside has amount =
      (c, ground (arith, same_iff i.mandate_id m), amount)

-- A `signed` decision on an intent whose last decision was not `signed` adds its challenge's amount,
-- and one card, to the mandate's window.
pub usage-signed :
    (m : Text) (at now w : ℕ) (b : DecisionBody) (l : Ledger) (k : Text) (t : Timestamp)
    (i : IntentRecord) (c : X402Requirements) (v a : ℤ) (n : ℕ)
    → decision_fields b ≡ some (k, signed, t)
    → get k l.intents ≡ some i
    → is_signed i ≡ false
    → i.mandate_id ≡ m
    → before_window now w t ≡ false
    → i.challenge ≡ some c
    → big_int c.amount ≡ some v
    → usage m now w l ≡ some (a, n)
    → usage m now w (record_decision at b l).0 ≡ some (a +ℤ v, suc n)
usage-signed m at now w b l k t i c v a n given found unsigned own inside has amount before =
    ap (usage_from m now w (pos 0) 0) (intents-record_decision at b l k signed t i given found)
    ∙ usage-put m now w (pos 0) 0 k i _ v l.intents a n found (unsigned_skips m now w i unsigned)
        (signed-Charges m now w b t i c v own inside has amount) before

-- A later `refused` decision on a request that was signed takes its amount, and its card, out of the
-- window again: before it the window held that much more.
pub usage-refused :
    (m : Text) (at now w : ℕ) (b : DecisionBody) (l : Ledger) (k : Text) (t : Timestamp)
    (i : IntentRecord) (v a : ℤ) (n : ℕ)
    → decision_fields b ≡ some (k, refused, t)
    → get k l.intents ≡ some i
    → Charges m now w i v
    → usage m now w (record_decision at b l).0 ≡ some (a, n)
    → usage m now w l ≡ some (a +ℤ v, suc n)
usage-refused m at now w b l k t i v a n given found charges after =
    let j : IntentRecord = with_decision b refused t i in
    let moved = intents-record_decision at b l k refused t i given found in
    let after' = sym (ap (usage_from m now w (pos 0) 0) moved) ∙ after in
    sym (ap (usage_from m now w (pos 0) 0) (put-put_back k i j l.intents found))
    ∙ usage-put m now w (pos 0) 0 k j i v (put k j l.intents) a n
        (get-put k k j l.intents ∙ ap (λ x. if x then some j else get k l.intents) (same_refl k))
        (unsigned_skips m now w j (refused_unsigned b t i)) charges after'
