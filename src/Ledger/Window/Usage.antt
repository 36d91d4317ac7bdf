-- ===== src/Ledger/Window/Usage.antt =====
-- How a decision moves the rolling spend of a mandate.
use straitsx.Prelude.{
  ℕ, suc, ◌≡◌, sym, ◌∙◌, ap, none, some, [], ◌∷◌, ℤ, ◌+ℤ◌, int_laws, Option-cases, Bool-cases, inl,
  inr,
}
use straitsx.Text.{Text, same}
use straitsx.Text.BigInt.{big_int}
use straitsx.Dict.{Dict, get, put, get-hit, get-miss, put-hit, put-miss}
use straitsx.Contracts.Types.{X402Requirements}
use straitsx.Ledger.State.{IntentRecord}
use straitsx.Ledger.Window.{counted, usage_from}

swap_add : (s v x : ℤ) → s +ℤ v +ℤ x ≡ s +ℤ x +ℤ v
swap_add s v x = omega int_laws

-- The amount that one intent adds to the window.
abbrev pub Charges : Text → ℕ → ℕ → IntentRecord → ℤ → Type 0
Charges m now w i v =
    (c : X402Requirements) × (counted m now w i ≡ some c) × (big_int c.amount ≡ some v)

-- The three ways in which the loop passes an intent.
data Passes (m : Text) (now w : ℕ) (i : IntentRecord) : Type 0 where
  skips : counted m now w i ≡ none → Passes m now w i
  throws :
      (c : X402Requirements)
      → counted m now w i ≡ some c
      → big_int c.amount ≡ none
      → Passes m now w i
  charges : (x : ℤ) → Charges m now w i x → Passes m now w i

module _ (m : Text) (now w : ℕ) where
  passes : (i : IntentRecord) → Passes m now w i
  passes i = elim (Option-cases (counted m now w i)) [
    | inl e ↦ skips e
    | inr (c, e) ↦ elim (Option-cases (big_int c.amount)) [
      | inl f ↦ throws c e f
      | inr (x, f) ↦ charges x (c, e, f)
    ]
  ]

  module _ (s : ℤ) (n : ℕ) (k : Text) (i : IntentRecord) (d : Dict IntentRecord) where
    usage_skip :
        counted m now w i ≡ none → usage_from m now w s n ((k, i) ∷ d) ≡ usage_from m now w s n d
    unfolding usage_from
    usage_skip e = rw (e, usage_from)

    usage_throw :
        (c : X402Requirements)
        → counted m now w i ≡ some c
        → big_int c.amount ≡ none
        → usage_from m now w s n ((k, i) ∷ d) ≡ none
    unfolding usage_from
    usage_throw c e f = rw (e, usage_from) (rw f)

    usage_charge :
        (x : ℤ)
        → Charges m now w i x
        → usage_from m now w s n ((k, i) ∷ d) ≡ usage_from m now w (s +ℤ x) (suc n) d
    unfolding usage_from
    usage_charge x (c, e, f) = rw (e, usage_from) (rw f)

  usage_nil :
      (v s : ℤ) (n : ℕ) (a : ℤ) (c : ℕ)
      → usage_from m now w s n [] ≡ some (a, c)
      → usage_from m now w (s +ℤ v) (suc n) [] ≡ some (a +ℤ v, suc c)
  unfolding usage_from
  usage_nil v s n a c h = cc

  usage-shift :
      (v s : ℤ) (n : ℕ) (d : Dict IntentRecord) (a : ℤ) (c : ℕ)
      → usage_from m now w s n d ≡ some (a, c)
      → usage_from m now w (s +ℤ v) (suc n) d ≡ some (a +ℤ v, suc c)
  usage-shift v s n [] a c h = usage_nil v s n a c h
  usage-shift v s n ((k, i) ∷ d) a c h = elim (passes i) [
    | skips e ↦
        usage_skip (s +ℤ v) (suc n) k i d e
        ∙ usage-shift v s n d a c (sym (usage_skip s n k i d e) ∙ h)
    | throws ch e f ↦ absurd (cc (usage_throw s n k i d ch e f))
    | charges x e ↦
        usage_charge (s +ℤ v) (suc n) k i d x e
        ∙ ap (λ t. usage_from m now w t (suc (suc n)) d) (swap_add s v x)
        ∙ usage-shift v (s +ℤ x) (suc n) d a c (sym (usage_charge s n k i d x e) ∙ h)
  ]

  -- When a stored intent that did not count comes to count, the spend grows by its amount.
  pub usage-put :
      (s : ℤ) (n : ℕ) (r : Text) (i j : IntentRecord) (v : ℤ) (d : Dict IntentRecord) (a : ℤ)
      (c : ℕ)
      → get r d ≡ some i
      → counted m now w i ≡ none
      → Charges m now w j v
      → usage_from m now w s n d ≡ some (a, c)
      → usage_from m now w s n (put r j d) ≡ some (a +ℤ v, suc c)
  usage-put s n r i j v [] a c found old new h = unfold get in cc
  usage-put s n r i j v ((k, i') ∷ d) a c found old new h = elim (Bool-cases (same k r)) [
    | inl eq ↦
        let same_i : i' ≡ i = cc (found, get-hit r k j i' d eq) in
        let skip = ap (counted m now w) same_i ∙ old in
        rw (put-hit r k j i' d eq) (
          usage_charge s n k j d v new
          ∙ usage-shift v s n d a c (sym (usage_skip s n k i' d skip) ∙ h))
    | inr ne ↦
        let found' = sym (get-miss r k j i' d ne) ∙ found in
        rw (put-miss r k j i' d ne) (elim (passes i') [
          | skips e ↦
              usage_skip s n k i' (put r j d) e
              ∙ usage-put s n r i j v d a c found' old new (sym (usage_skip s n k i' d e) ∙ h)
          | throws ch e f ↦ absurd (cc (usage_throw s n k i' d ch e f))
          | charges x e ↦
              usage_charge s n k i' (put r j d) x e
              ∙ usage-put (s +ℤ x) (suc n) r i j v d a c found' old new
                  (sym (usage_charge s n k i' d x e) ∙ h)
        ])
  ]
