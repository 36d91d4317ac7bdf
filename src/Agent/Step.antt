-- ===== src/Agent/Step.antt =====
-- Asynchronous code that changes a state and may throw: the state that it leaves, and its result or
-- none where it threw. A postcondition has one part for each of the two ways out.
use straitsx.Prelude.{Option, none, some}

abbrev pub Step {ℓ ℓ'} : Type ℓ → Type ℓ' → Type (ℓ ⊔ ℓ')
Step S A = S → S × Option A

module _ {ℓ} {S : Type ℓ} where
  unfoldable pub return {κ} : {A : Type κ} → A → Step S A
  return a s = (s, some a)

  -- throw new Error(…)
  unfoldable pub throw {κ} : {A : Type κ} → Step S A
  throw s = (s, none)

  unfoldable pub lift {κ} : {A : Type κ} → Option A → Step S A
  lift o s = (s, o)

  unfoldable pub modify : (S → S) → Step S (Unit {0})
  modify f s = (f s, some tt)

  abbrev pub continue {κ μ} :
      {A : Type κ} {B : Type μ} → (A → Step S B) → S × Option A → S × Option B
  continue k (s, none) = (s, none)
  continue k (s, some a) = k a s

  infixl 5 ◌>>=◌ ◌>>◌
  unfoldable pub ◌>>=◌ {κ μ} : {A : Type κ} {B : Type μ} → Step S A → (A → Step S B) → Step S B
  (m >>= k) s = continue k (m s)

  unfoldable pub ◌>>◌ {κ μ} : {A : Type κ} {B : Type μ} → Step S A → Step S B → Step S B
  (m >> k) s = continue (λ a. k) (m s)

  abbrev recover {κ} : {A : Type κ} → Step S A → S × Option A → S × Option A
  recover handler (s, none) = handler s
  recover handler (s, some a) = (s, some a)

  -- try { … } catch { … }
  unfoldable pub try_catch {κ} : {A : Type κ} → Step S A → Step S A → Step S A
  try_catch m handler s = recover handler (m s)

  -- What holds of a result: `Q` of a value and its state, `E` of the state of an exception.
  abbrev pub Holds {κ} : {A : Type κ} → (A → S → Type 0) → (S → Type 0) → S × Option A → Type 0
  Holds Q E (s, none) = E s
  Holds Q E (s, some a) = Q a s

-- From every state in `P`, the step ends in one of the two ways.
pub record Triple {ℓ κ} {S : Type ℓ} {A : Type κ} (P : S → Type 0) (m : Step S A)
    (Q : A → S → Type 0) (E : S → Type 0) : Type ℓ where
  pub from : (s : S) → P s → Holds Q E (m s)

module _ {ℓ} {S : Type ℓ} where
  module _ {κ μ} {A : Type κ} {B : Type μ} where
    continue-Holds :
        (Q : A → S → Type 0) (R : B → S → Type 0) (E : S → Type 0) (k : A → Step S B)
        → ((a : A) → Triple (Q a) (k a) R E)
        → (r : S × Option A) → Holds Q E r
        → Holds R E (continue k r)
    continue-Holds Q R E k next (s, none) h = h
    continue-Holds Q R E k next (s, some a) h = (next a).from s h

    -- The rules of sequence.
    pub bind-Triple :
        {P : S → Type 0} {Q : A → S → Type 0} {R : B → S → Type 0} {E : S → Type 0} {m : Step S A}
        {k : A → Step S B}
        → Triple P m Q E
        → ((a : A) → Triple (Q a) (k a) R E)
        → Triple P (m >>= k) R E
    unfolding ◌>>=◌
    bind-Triple {P} {Q} {R} {E} {m} {k} first next = record {
      from = λ s h. continue-Holds Q R E k next (m s) (first.from s h);
    }

    pub then-Triple :
        {P : S → Type 0} {Q : A → S → Type 0} {R : B → S → Type 0} {E : S → Type 0} {m : Step S A}
        {k : Step S B}
        → Triple P m Q E
        → ((a : A) → Triple (Q a) k R E)
        → Triple P (m >> k) R E
    unfolding ◌>>◌
    then-Triple {P} {Q} {R} {E} {m} {k} first next = record {
      from = λ s h. continue-Holds Q R E (λ a. k) next (m s) (first.from s h);
    }

  recover-Holds {κ} :
      {A : Type κ} (Q : A → S → Type 0) (E F : S → Type 0) (handler : Step S A)
      → Triple E handler Q F
      → (r : S × Option A) → Holds Q E r
      → Holds Q F (recover handler r)
  recover-Holds Q E F handler caught (s, none) h = caught.from s h
  recover-Holds Q E F handler caught (s, some a) h = h

  -- The rule of try and catch.
  pub try_catch-Triple {κ} :
      {A : Type κ} {P : S → Type 0} {Q : A → S → Type 0} {E F : S → Type 0} {m handler : Step S A}
      → Triple P m Q E
      → Triple E handler Q F
      → Triple P (try_catch m handler) Q F
  unfolding try_catch
  try_catch-Triple {A} {P} {Q} {E} {F} {m} {handler} body caught = record {
    from = λ s h. recover-Holds Q E F handler caught (m s) (body.from s h);
  }

  pub modify-Triple :
      {P Q E : S → Type 0} (f : S → S) → ((s : S) → P s → Q (f s)) → Triple P (modify f) (λ u. Q) E
  unfolding modify
  modify-Triple f step = record { from = step }
