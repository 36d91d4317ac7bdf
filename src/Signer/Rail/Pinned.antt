-- ===== src/Signer/Rail/Pinned.antt =====
-- services/signer-service/src/sign/rail.ts: parsePinnedMandates. JSON.parse is a parameter.
use mathlib.Core.Path.{subst}
use straitsx.Prelude.{
  some-same, ◌≡◌, Option, none, some, [], ◌>>=◌, Bool-cases, inl, inr, arith, step_of, Option-cases,
}
use straitsx.Text.{Text, codes, lower, lower_idempotent, present, same, same_iff}
use straitsx.Dict.{Dict, get, put, get-put}
use straitsx.Contracts.Types.{PinnedMandate}
use straitsx.Contracts.Json.{Json, Fields, object, field, close_object, member, as_string}

-- typeof entry?.name === "string"
unfoldable pub string_member : Text → Json → Option Text
string_member name entry = do v ← member name entry; as_string v

unfoldable pub pinned_entry : Json → Option PinnedMandate
unfolding string_member
pinned_entry entry = do
  settlement_recipient ← string_member (codes "settlementRecipient") entry
  hard_max_total ← string_member (codes "hardMaxTotal") entry
  some (record {
    settlement_recipient = lower settlement_recipient;
    hard_max_total = hard_max_total;
  })

-- The loop over Object.entries.
unfoldable pub add_entries : Fields → Dict PinnedMandate → Option (Dict PinnedMandate)
unfolding pinned_entry
add_entries close_object pinned = some pinned
add_entries (field mandate_id value rest) pinned = do
  entry ← pinned_entry value
  add_entries rest (put (lower mandate_id) entry pinned)

-- The entries of an object; an array or any other value throws.
unfoldable pub pinned_of : Json → Option (Dict PinnedMandate)
unfolding add_entries
pinned_of (object fields) = add_entries fields []
pinned_of _ = none

-- parsePinnedMandates
unfoldable pub parse_pinned_mandates :
    (Text → Option Json) → Option Text → Option (Dict PinnedMandate)
unfolding pinned_of
parse_pinned_mandates parse_json raw = elim (present raw) [
  | none ↦ some []
  | some text ↦ parse_json text >>= pinned_of
]

-- Every identifier and every recipient stands in lower case.
abbrev pub IsLowercase : Dict PinnedMandate → Type 0
IsLowercase pinned =
    (k : Text) (e : PinnedMandate)
    → get k pinned ≡ some e
    → (lower k ≡ k) × (lower e.settlement_recipient ≡ e.settlement_recipient)

pinned_entry-lower :
    (value : Json) (e : PinnedMandate)
    → pinned_entry value ≡ some e
    → lower e.settlement_recipient ≡ e.settlement_recipient
unfolding pinned_entry
pinned_entry-lower value e h =
    let (recipient, e0, h0) = step_of (string_member (codes "settlementRecipient") value) _ e h in
    let (total, e1, h1) = step_of (string_member (codes "hardMaxTotal") value) _ e h0 in
    ground (arith, h1, lower_idempotent recipient)

put-IsLowercase :
    (id : Text) (entry : PinnedMandate) (pinned : Dict PinnedMandate)
    → lower entry.settlement_recipient ≡ entry.settlement_recipient
    → IsLowercase pinned
    → IsLowercase (put (lower id) entry pinned)
put-IsLowercase id entry pinned low h k e found = elim (Bool-cases (same (lower id) k)) [
  | inl here ↦ ground (
    arith,
    get-put (lower id) k entry pinned,
    found,
    here,
    same_iff (lower id) k,
    lower_idempotent id,
    low,
  )
  | inr there ↦ h k e (ground (arith, get-put (lower id) k entry pinned, found, there))
]

nothing_pinned : IsLowercase []
unfolding get
nothing_pinned k e h = absurd (cc h)

add_entries-IsLowercase :
    (fields : Fields) (pinned result : Dict PinnedMandate)
    → IsLowercase pinned
    → add_entries fields pinned ≡ some result
    → IsLowercase result
unfolding add_entries
add_entries-IsLowercase close_object pinned result h e = subst IsLowercase (some-same e) h
add_entries-IsLowercase (field id value rest) pinned result h e =
    let (entry, e0, e1) = step_of (pinned_entry value) _ result e in
    add_entries-IsLowercase rest (put (lower id) entry pinned) result
      (put-IsLowercase id entry pinned (pinned_entry-lower value entry e0) h) e1

pinned_of-IsLowercase :
    (parsed : Json) (pinned : Dict PinnedMandate)
    → pinned_of parsed ≡ some pinned
    → IsLowercase pinned
unfolding pinned_of
pinned_of-IsLowercase (object fs) pinned h = add_entries-IsLowercase fs [] pinned nothing_pinned h
pinned_of-IsLowercase _ pinned h = absurd (cc h)

-- In the pinned map that the environment gives, every identifier and every recipient is in lower
-- case, however the environment spells them, so that a comparison in lower case can find them.
pub parse_pinned_mandates-IsLowercase :
    (parse_json : Text → Option Json) (raw : Option Text) (pinned : Dict PinnedMandate)
    → parse_pinned_mandates parse_json raw ≡ some pinned
    → IsLowercase pinned
unfolding parse_pinned_mandates
parse_pinned_mandates-IsLowercase parse_json raw pinned h = elim (Option-cases (present raw)) [
  | inl e ↦ subst IsLowercase (some-same (rw (parse_pinned_mandates, e) at h)) nothing_pinned
  | inr (text, e) ↦
      let (parsed, e0, e1) =
        step_of (parse_json text) pinned_of pinned (rw (parse_pinned_mandates, e) at h) in
      pinned_of-IsLowercase parsed pinned e1
]
