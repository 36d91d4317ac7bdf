-- ===== src/Dict.antt =====
-- A JavaScript `Map` with string keys: insertion order, and a write to a present key in place.
use straitsx.Prelude.{
  ◌≡◌, refl, true, false, Option, none, some, List, [], ◌∷◌, arith, if◌then◌else◌,
}
use straitsx.Text.{Text, same, same_iff}

abbrev pub Dict {ℓ} : Type ℓ → Type ℓ
Dict V = List (Text × V)

module _ {ℓ} {V : Type ℓ} where
  -- m.get(k)
  unfoldable pub get : Text → Dict V → Option V
  get k [] = none
  get k ((j, v) ∷ m) = if same j k then some v else get k m

  -- m.set(k, v)
  unfoldable pub put : Text → V → Dict V → Dict V
  put k v [] = (k, v) ∷ []
  put k v ((j, w) ∷ m) = if same j k then (j, v) ∷ m else (j, w) ∷ put k v m

  pub get-put :
      (k j : Text) (v : V) (m : Dict V) → get j (put k v m) ≡ (if same k j then some v else get j m)
  unfolding get put
  get-put k j v [] = refl
  get-put k j v ((i, w) ∷ m) =
      ground (arith, same_iff k j, same_iff i k, same_iff i j, get-put k j v m)

  -- The clauses of `get` and `put`, by the test on the first key.
  module _ (k j : Text) (v w : V) (m : Dict V) where
    pub get-hit : same j k ≡ true → get k ((j, w) ∷ m) ≡ some w
    unfolding get
    get-hit e = rw e

    pub get-miss : same j k ≡ false → get k ((j, w) ∷ m) ≡ get k m
    unfolding get
    get-miss e = rw e

    pub put-hit : same j k ≡ true → put k v ((j, w) ∷ m) ≡ (j, v) ∷ m
    unfolding put
    put-hit e = rw e

    pub put-miss : same j k ≡ false → put k v ((j, w) ∷ m) ≡ (j, w) ∷ put k v m
    unfolding put
    put-miss e = rw e

  -- A write is undone by writing back what was there.
  pub put-put_back : (k : Text) (v w : V) (m : Dict V) → get k m ≡ some v → put k v (put k w m) ≡ m
  unfolding get put
  put-put_back k v w [] h = cc
  put-put_back k v w ((j, u) ∷ m) h = ground (arith, put-put_back k v w m)
