-- ===== src/Policy/Matcher.antt =====
-- services/policy-service/src/matcher.ts: the intent matcher of check 9, true for "match".
pub mod Shared
use mathlib.Core.List.{filter}
use straitsx.Prelude.{
  ℕ, suc, ◌+◌, ◌*◌, Bool, true, false, ◌&&◌, ◌||◌, not, List, [], ◌∷◌, length, ltb, leb, ◌==◌,
  if◌then◌else◌,
}
use straitsx.Text.{Text, codes, same, lower}
use straitsx.Text.BigInt.{is_uint}
use straitsx.Contracts.Types.{ResolvedItem}

-- set.has(w), and STOPWORDS.has(w)
unfoldable pub has : Text → List Text → Bool
has w [] = false
has w (v ∷ vs) = let rest = has w vs in same v w || rest

abbrev stopwords : List Text
stopwords =
    codes "the"
    ∷ codes "a"
    ∷ codes "an"
    ∷ codes "of"
    ∷ codes "and"
    ∷ codes "or"
    ∷ codes "in"
    ∷ codes "size"
    ∷ codes "under"
    ∷ codes "up"
    ∷ codes "to"
    ∷ codes "for"
    ∷ codes "with"
    ∷ []

-- Neither white space nor replaced by a space: [a-z0-9].
abbrev is_word_code : ℕ → Bool
is_word_code c = leb b'a' c && leb c b'z' || leb b'0' c && leb c b'9'

-- The first word of a text, which may be empty, and the ones behind it; the empty words between two
-- separators are dropped by the filter.
unfoldable pub words : Text → Text × List Text
words [] = ([], [])
words (c ∷ s) =
    let rest = words s in if is_word_code c then (c ∷ rest.0, rest.1) else ([], rest.0 ∷ rest.1)

-- word.length > 1 && !STOPWORDS.has(word) && !/^\d+$/.test(word)
unfoldable pub is_significant : Text → Bool
unfolding has
is_significant word = ltb 1 (length word) && not (has word stopwords) && not (is_uint word)

unfoldable pub significant : List Text → List Text
unfolding is_significant
significant [] = []
significant (w ∷ ws) = let rest = significant ws in if is_significant w then w ∷ rest else rest

-- new Set(words), whose order nothing depends on
unfoldable pub distinct : List Text → List Text
unfolding has
distinct [] = []
distinct (w ∷ ws) = let rest = distinct ws in if has w rest then rest else w ∷ rest

-- tokenize
unfoldable pub tokenize : Text → List Text
unfolding words significant distinct
tokenize text = let split = words (lower text) in distinct (significant (split.0 ∷ split.1))

-- The loop over the tokens of the title.
unfoldable pub overlap : List Text → List Text → ℕ
unfolding has
overlap [] constraint = 0
overlap (w ∷ ws) constraint =
    let rest = overlap ws constraint in if has w constraint then suc rest else rest

-- Math.min(a, b)
abbrev pub smaller : ℕ → ℕ → ℕ
smaller a b = if leb a b then a else b

-- overlap / min >= 0.5, on sizes that are not 0
unfoldable pub matches_tokens : List Text → List Text → Bool
unfolding overlap
matches_tokens title constraint =
    if length title == 0 || length constraint == 0
    then false
    else leb (smaller (length title) (length constraint)) (2 * overlap title constraint)

-- heuristicIntentMatcher
unfoldable pub heuristic_intent_matcher : ResolvedItem → Text → Bool
unfolding tokenize matches_tokens
heuristic_intent_matcher item intent_constraint =
    matches_tokens (tokenize item.title) (tokenize intent_constraint)
