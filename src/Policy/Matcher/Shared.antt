-- ===== src/Policy/Matcher/Shared.antt =====
-- What a match says of the words of the title and of the constraint.
use straitsx.Prelude.{
  ◌<◌, ◌≡◌, refl, true, List, [], ◌∷◌, length, All, Any, Bool-cases, inl, inr, arith,
}
use straitsx.Text.{Text, lower}
use straitsx.Contracts.Types.{ResolvedItem}
use straitsx.Policy.Matcher.{
  has, words, is_significant, significant, distinct, tokenize, overlap, matches_tokens,
  heuristic_intent_matcher,
}

-- A word that counts and that both have.
abbrev pub IsShared : List Text → Text → Type 0
IsShared constraint w = (has w constraint ≡ true) × (is_significant w ≡ true)

significant-All : (ws : List Text) → All (λ w. is_significant w ≡ true) (significant ws)
unfolding significant
significant-All [] = tt
significant-All (w ∷ ws) = elim (Bool-cases (is_significant w)) [
  | inl e ↦ rw e (e, significant-All ws)
  | inr e ↦ rw e (significant-All ws)
]

distinct-All : (P : Text → Type 0) (ws : List Text) → All P ws → All P (distinct ws)
unfolding distinct
distinct-All P [] h = tt
distinct-All P (w ∷ ws) h = elim (Bool-cases (has w (distinct ws))) [
  | inl e ↦ rw e (distinct-All P ws h.1)
  | inr e ↦ rw e (h.0, distinct-All P ws h.1)
]

tokenize-All : (text : Text) → All (λ w. is_significant w ≡ true) (tokenize text)
unfolding tokenize
tokenize-All text =
    let split = words (lower text) in
    distinct-All (λ w. is_significant w ≡ true) (significant (split.0 ∷ split.1))
      (significant-All (split.0 ∷ split.1))

overlap-Any :
    (title constraint : List Text)
    → All (λ w. is_significant w ≡ true) title
    → 0 < overlap title constraint
    → Any (IsShared constraint) title
unfolding overlap
overlap-Any [] constraint h k = absurd (omega (arith, k))
overlap-Any (w ∷ ws) constraint h k = elim (Bool-cases (has w constraint)) [
  | inl e ↦ inl (e, h.0)
  | inr e ↦ inr (overlap-Any ws constraint h.1 (ground (arith, e, k)))
]

overlap-full :
    (title constraint : List Text)
    → All (λ w. has w constraint ≡ true) title
    → overlap title constraint ≡ length title
unfolding overlap
overlap-full [] constraint h = refl
overlap-full (w ∷ ws) constraint h =
    let rest = overlap-full ws constraint h.1 in let e = h.0 in ground (arith, rest, e)

-- A match means that the title and the constraint share a word that counts: it is longer than one
-- code unit, no stopword and no number. And where every word that counts of the title is one of the
-- constraint, and both have such words, it is a match.
pub heuristic_intent_matcher-IsShared :
    (item : ResolvedItem) (constraint : Text)
    → (heuristic_intent_matcher item constraint ≡ true
        → Any (IsShared (tokenize constraint)) (tokenize item.title))
      × (0 < length (tokenize item.title)
          → 0 < length (tokenize constraint)
          → All (λ w. has w (tokenize constraint) ≡ true) (tokenize item.title)
          → heuristic_intent_matcher item constraint ≡ true)
unfolding heuristic_intent_matcher matches_tokens
heuristic_intent_matcher-IsShared item constraint = (
  λ h.
      overlap-Any (tokenize item.title) (tokenize constraint) (tokenize-All item.title)
        (ground (arith, h)),
  λ a b h.
      let whole = overlap-full (tokenize item.title) (tokenize constraint) h in
      ground (arith, a, b, whole),
)
