-- ===== src/Ledger/Service/Consistent.antt =====
-- Invariants of the whole ledger, from the empty store through any run of requests.
use mathlib.Core.Path.{subst}
use straitsx.Prelude.{ℕ, ◌≡◌, some, List, [], ◌∷◌, arith, inl, inr, Bool-cases}
use straitsx.Text.{Text, same, same_iff}
use straitsx.Dict.{get, get-put}
use straitsx.Ledger.State.{IntentRecord, Ledger, empty}
use straitsx.Ledger.Intents.{CreateIntent, new_intent}
use straitsx.Ledger.Lifecycle.{Evolves, Evolves-Keeps, IsConsistent, Evolves-IsConsistent}
use straitsx.Ledger.Service.{Request, handle, run}
use straitsx.Ledger.Service.Changes.{Change, unchanged, created, updated, handle-Change}

-- What holds of every stored record, with the identifier that it is stored under.
pub record IsWellKept (hash_of : Text → Text) (k : Text) (i : IntentRecord) : Type 0 where
  pub keyed : i.request_id ≡ k
  pub hashed : i.instruction_hash ≡ hash_of i.instruction
  pub consistent : IsConsistent i

abbrev pub IsValid : (Text → Text) → Ledger → Type 0
IsValid hash_of l =
    (k : Text) (i : IntentRecord) → get k l.intents ≡ some i → IsWellKept hash_of k i

fresh-IsWellKept :
    (hash_of : Text → Text) (b : CreateIntent) (i : IntentRecord)
    → new_intent hash_of b ≡ some i
    → IsWellKept hash_of i.request_id i
unfolding new_intent
fresh-IsWellKept hash_of b i h = ground arith

module _ (hash_of : Text → Text) where
  Evolves-IsWellKept :
      (k : Text) {i j : IntentRecord}
      → Evolves i j
      → IsWellKept hash_of k i
      → IsWellKept hash_of k j
  Evolves-IsWellKept k e w =
      let kept = Evolves-Keeps e in
      record {
        keyed = cc (kept.request_id, w.keyed);
        hashed = cc (kept.instruction_hash, kept.instruction, w.hashed);
        consistent = Evolves-IsConsistent e w.consistent;
      }

  Change-IsValid :
      {q : Request} {l m : Ledger} → Change hash_of q l m → IsValid hash_of l → IsValid hash_of m
  Change-IsValid (unchanged e) v k i h = v k i (rw e at h)
  Change-IsValid (created n fresh free e) v k i h = elim (Bool-cases (same n.request_id k)) [
    | inl eq ↦
        let w = fresh-IsWellKept hash_of fresh.body n fresh.made in
        let same_intent : n ≡ i = cc (rw (e, get-put, eq) at h) in
        subst (IsWellKept hash_of k) same_intent
          (subst (λ x. IsWellKept hash_of x n) ((same_iff n.request_id k).0 eq) w)
    | inr ne ↦ v k i (rw (e, get-put, ne) at h)
  ]
  Change-IsValid (updated r i' j found step why e) v k i h = elim (Bool-cases (same r k)) [
    | inl eq ↦
        let w = Evolves-IsWellKept r step (v r i' found) in
        let same_intent : j ≡ i = cc (rw (e, get-put, eq) at h) in
        subst (IsWellKept hash_of k) same_intent
          (subst (λ x. IsWellKept hash_of x j) ((same_iff r k).0 eq) w)
    | inr ne ↦ v k i (rw (e, get-put, ne) at h)
  ]

  run-IsValid_from :
      (requests : List (ℕ × Request)) (l : Ledger)
      → IsValid hash_of l
      → IsValid hash_of (run hash_of requests l)
  unfolding run
  run-IsValid_from [] l v = v
  run-IsValid_from ((now, q) ∷ rest) l v =
      run-IsValid_from rest (handle hash_of now q l).0
        (Change-IsValid (handle-Change hash_of now q l) v)

empty-IsValid : (hash_of : Text → Text) → IsValid hash_of empty
unfolding get
empty-IsValid hash_of k i h = cc

-- After any requests from the empty store, every stored intent stands under its own identifier,
-- carries the hash of its instruction, and its bookkeeping is consistent.
pub run-IsValid :
    (hash_of : Text → Text) (requests : List (ℕ × Request)) (k : Text) (i : IntentRecord)
    → get k (run hash_of requests empty).intents ≡ some i
    → IsWellKept hash_of k i
run-IsValid hash_of requests k i h =
    run-IsValid_from hash_of requests empty (empty-IsValid hash_of) k i h
