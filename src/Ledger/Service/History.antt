-- ===== src/Ledger/Service/History.antt =====
-- The ledger is append-only: what a run of requests can and cannot do to a stored intent.
use mathlib.Core.Path.{subst₂}
use straitsx.Prelude.{
  ap, ℕ, ◌≡◌, true, false, some, List, [], ◌∷◌, arith, ◌⊎◌, inl, inr, All, ◌≢◌, Bool-cases,
}
use straitsx.Text.{Text, same, same_iff}
use straitsx.Dict.{get, get-put}
use straitsx.Ledger.State.{signed, IntentRecord, Ledger}
use straitsx.Ledger.Intents.{with_challenge, with_nonce, holds_nonce, is_signed}
use straitsx.Ledger.Outcomes.{with_decision}
use straitsx.Ledger.Lifecycle.{
  Evolves, attach, reserve, release, decide, settle, capture, spend, is_release, Keeps, Keeps-refl,
  Keeps-trans, Evolves-Keeps,
}
use straitsx.Ledger.Service.{Request, post_release, handle, run}
use straitsx.Ledger.Service.Changes.{Change, unchanged, created, updated, handle-Change}

-- What a request does to the intent stored under one identifier.
pub data At (q : Request) (k : Text) (i : IntentRecord) : IntentRecord → Type 0 where
  still : At q k i i
  moved :
      {j : IntentRecord} (e : Evolves i j)
      → (is_release e ≡ false) ⊎ (q ≡ post_release k)
      → At q k i j

-- What leads to `At` for an update, as a family that can be moved along equations.
abbrev Why : Request → Text → IntentRecord → IntentRecord → Type 0
Why q k i j = (e : Evolves i j) × ((is_release e ≡ false) ⊎ (q ≡ post_release k))

At-of : {q : Request} {k : Text} {i j : IntentRecord} → Why q k i j → At q k i j
At-of (e, why) = moved e why

module _ (hash_of : Text → Text) where
  Change-At :
      {q : Request} {l m : Ledger} (k : Text) (i : IntentRecord)
      → Change hash_of q l m
      → get k l.intents ≡ some i
      → (j : IntentRecord) × (get k m.intents ≡ some j) × At q k i j
  Change-At k i (unchanged e) h = (i, rw e h, still)
  Change-At {l} k i (created n fresh free e) h = elim (Bool-cases (same n.request_id k)) [
    | inl eq ↦ absurd (ground (arith, same_iff n.request_id k))
    | inr ne ↦ (i, rw (e, get-put, ne) h, still)
  ]
  Change-At {q} {l} k i (updated r i' j found step why e) h = elim (Bool-cases (same r k)) [
    | inl eq ↦
        let same_key = (same_iff r k).0 eq in
        let same_intent : i' ≡ i = cc (found, h, ap (λ x. get x l.intents) same_key) in
        (
          j,
          rw (e, get-put, eq),
          At-of (subst₂ (λ x y. Why q x y j) same_key same_intent (step, why)),
        )
    | inr ne ↦ (i, rw (e, get-put, ne) h, still)
  ]

  pub handle-At :
      (now : ℕ) (q : Request) (l : Ledger) (k : Text) (i : IntentRecord)
      → get k l.intents ≡ some i
      → (j : IntentRecord) × (get k (handle hash_of now q l).0.intents ≡ some j) × At q k i j
  handle-At now q l k i = Change-At k i (handle-Change hash_of now q l)

At-Keeps : {q : Request} {k : Text} {i j : IntentRecord} → At q k i j → Keeps i j
At-Keeps {i} still = Keeps-refl i
At-Keeps (moved e why) = Evolves-Keeps e

-- Whatever requests follow, a stored intent is never lost: its identifiers, instruction, hash and
-- creation time stay as they were, and so do a challenge and a capture once they are there.
pub run-Keeps :
    (hash_of : Text → Text) (requests : List (ℕ × Request)) (l : Ledger) (k : Text)
    (i : IntentRecord)
    → get k l.intents ≡ some i
    → (j : IntentRecord) × (get k (run hash_of requests l).intents ≡ some j) × Keeps i j
unfolding run
run-Keeps hash_of [] l k i h = (i, h, Keeps-refl i)
run-Keeps hash_of ((now, q) ∷ rest) l k i h =
    let (j, found, at) = handle-At hash_of now q l k i h in
    let (n, last, keeps) = run-Keeps hash_of rest (handle hash_of now q l).0 k j found in
    (n, last, Keeps-trans (At-Keeps at) keeps)

-- The nonce that an intent holds.
unfoldable pub HoldsNonce : Text → IntentRecord → Type 0
HoldsNonce nonce i = (i.nonce ≡ some nonce) × (holds_nonce i ≡ true)

Evolves-HoldsNonce :
    {i j : IntentRecord} (nonce : Text) (e : Evolves i j)
    → (is_release e ≡ false) ⊎ (is_signed i ≡ true)
    → HoldsNonce nonce i
    → HoldsNonce nonce j
unfolding HoldsNonce holds_nonce with_challenge with_nonce with_decision
Evolves-HoldsNonce nonce (attach now c h) k held = ground arith
Evolves-HoldsNonce nonce (reserve now c s h) k held = ground arith
Evolves-HoldsNonce nonce (release h h') k held = ground arith
Evolves-HoldsNonce nonce (decide b signed t) k held = held
Evolves-HoldsNonce nonce (decide b d t) k held = held
Evolves-HoldsNonce nonce (settle s) k held = held
Evolves-HoldsNonce nonce (capture c s h h' h'') k held = held
Evolves-HoldsNonce nonce (spend s) k held = held

At-HoldsNonce :
    {q : Request} {k : Text} {i j : IntentRecord} (nonce : Text)
    → At q k i j
    → (q ≢ post_release k) ⊎ (is_signed i ≡ true)
    → HoldsNonce nonce i
    → HoldsNonce nonce j
At-HoldsNonce nonce still why held = held
At-HoldsNonce nonce (moved e (inl plain)) why held = Evolves-HoldsNonce nonce e (inl plain) held
At-HoldsNonce nonce (moved e (inr eq)) (inl other) held = absurd (other eq)
At-HoldsNonce nonce (moved e (inr eq)) (inr burned) held =
    Evolves-HoldsNonce nonce e (inr burned) held

abbrev pub Avoids : Text → ℕ × Request → Type 0
Avoids k (now, q) = q ≢ post_release k

-- The replay boundary: a reserved nonce stays reserved, with the same value, through every run of
-- requests that does not release it.
pub run-HoldsNonce :
    (hash_of : Text → Text) (requests : List (ℕ × Request)) (l : Ledger) (k nonce : Text)
    (i : IntentRecord)
    → get k l.intents ≡ some i
    → HoldsNonce nonce i
    → All (Avoids k) requests
    → (j : IntentRecord) × (get k (run hash_of requests l).intents ≡ some j) × HoldsNonce nonce j
unfolding run
run-HoldsNonce hash_of [] l k nonce i h held avoids = (i, h, held)
run-HoldsNonce hash_of ((now, q) ∷ rest) l k nonce i h held (other, avoids) =
    let (j, found, at) = handle-At hash_of now q l k i h in
    run-HoldsNonce hash_of rest (handle hash_of now q l).0 k nonce j found
      (At-HoldsNonce nonce at (inl other) held) avoids

-- A nonce under a decision that is `signed` is terminal for the next request, whichever it is.
pub handle-HoldsNonce_signed :
    (hash_of : Text → Text) (now : ℕ) (q : Request) (l : Ledger) (k nonce : Text) (i : IntentRecord)
    → get k l.intents ≡ some i
    → is_signed i ≡ true
    → HoldsNonce nonce i
    → (j : IntentRecord) × (get k (handle hash_of now q l).0.intents ≡ some j) × HoldsNonce nonce j
handle-HoldsNonce_signed hash_of now q l k nonce i h burned held =
    let (j, found, at) = handle-At hash_of now q l k i h in
    (j, found, At-HoldsNonce nonce at (inr burned) held)
