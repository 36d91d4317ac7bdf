-- ===== src/Contracts/Mandate/Nonce.antt =====
-- What a commitment nonce binds.
use straitsx.Prelude.{
  ◌≡◌, ◌≢◌, ◌⊎◌, inl, inr, refl, ap, sym, ◌∙◌, some, [], ◌∷◌, ◌++◌, arith, length, Option-cases,
  Bool-cases,
}
use straitsx.Text.{Text, codes, same, same_iff}
use straitsx.Contracts.Mandate.{Keccak, Commitment, strip, nonce_words, build_commitment_nonce}

-- Two different inputs that viem's keccak256 takes to one word, or to one nonce.
pub record IsCollision (k : Keccak) : Type 0 where
  pub left : Text
  pub right : Text
  pub different : left ≢ right
  pub together :
      (strip (k.of_text left) ≡ strip (k.of_text right)) ⊎ (k.of_hex left ≡ k.of_hex right)

-- The same request, merchant, policy word and intent word.
pub record IsSameCommitment (a b : Commitment) : Type 0 where
  pub request_id : a.request_id ≡ b.request_id
  pub merchant_domain : a.merchant_domain ≡ b.merchant_domain
  pub policy_hash : strip a.policy_hash ≡ strip b.policy_hash
  pub intent_hash : strip a.intent_hash ≡ strip b.intent_hash

append-split : (a b x y : Text) → length a ≡ length b → a ++ x ≡ b ++ y → (a ≡ b) × (x ≡ y)
append-split [] [] x y h e = (refl, e)
append-split [] (d ∷ b) x y h e = absurd (omega (arith, h))
append-split (c ∷ a) [] x y h e = absurd (omega (arith, h))
append-split (c ∷ a) (d ∷ b) x y h e =
    let (front, back) = append-split a b x y (omega (arith, h)) (cc e) in (cc (front, e), back)

length-strip : (h w : Text) → strip h ≡ some w → length w ≡ 64
unfolding strip
length-strip h w e = ground arith

-- The four words behind a nonce.
record Words (k : Keccak) (c : Commitment) (w : Text) : Type 0 where
  request_word : Text
  merchant_word : Text
  policy_word : Text
  intent_word : Text
  request_of : strip (k.of_text c.request_id) ≡ some request_word
  merchant_of : strip (k.of_text c.merchant_domain) ≡ some merchant_word
  policy_of : strip c.policy_hash ≡ some policy_word
  intent_of : strip c.intent_hash ≡ some intent_word
  whole : w ≡ request_word ++ (policy_word ++ (intent_word ++ merchant_word))

Words-of : (k : Keccak) (c : Commitment) (w : Text) → nonce_words k c ≡ some w → Words k c w
unfolding nonce_words
Words-of k c w e = elim (Option-cases (strip (k.of_text c.request_id))) [
  | inl a ↦ absurd (ground (arith, a))
  | inr (request_word, a) ↦ elim (Option-cases (strip (k.of_text c.merchant_domain))) [
    | inl b ↦ absurd (ground (arith, a, b))
    | inr (merchant_word, b) ↦ elim (Option-cases (strip c.policy_hash)) [
      | inl p ↦ absurd (ground (arith, a, b, p))
      | inr (policy_word, p) ↦ elim (Option-cases (strip c.intent_hash)) [
        | inl q ↦ absurd (ground (arith, a, b, p, q))
        | inr (intent_word, q) ↦ record {
          request_word = request_word;
          merchant_word = merchant_word;
          policy_word = policy_word;
          intent_word = intent_word;
          request_of = a;
          merchant_of = b;
          policy_of = p;
          intent_of = q;
          whole = ground (arith, a, b, p, q);
        }
      ]
    ]
  ]
]

-- Equal words mean equal texts or a collision.
same-IsCollision :
    (k : Keccak) (s t : Text) → strip (k.of_text s) ≡ strip (k.of_text t) → IsCollision k ⊎ (s ≡ t)
same-IsCollision k s t e = elim (Bool-cases (same s t)) [
  | inl eq ↦ inr ((same_iff s t).0 eq)
  | inr ne ↦ inl (record {
    left = s;
    right = t;
    different = λ h. cc ((same_iff s t).1 h, ne);
    together = inl e;
  })
]

same-Words :
    (k : Keccak) (a b : Commitment) (w : Text)
    → Words k a w
    → Words k b w
    → IsCollision k ⊎ IsSameCommitment a b
same-Words k a b w p q =
    let p1 = length-strip _ _ p.request_of in
    let q1 = length-strip _ _ q.request_of in
    let p2 = length-strip _ _ p.policy_of in
    let q2 = length-strip _ _ q.policy_of in
    let p3 = length-strip _ _ p.intent_of in
    let q3 = length-strip _ _ q.intent_of in
    let (request_word, rest) =
      append-split p.request_word q.request_word _ _ (p1 ∙ sym q1) (sym p.whole ∙ q.whole) in
    let (policy_word, rest') = append-split p.policy_word q.policy_word _ _ (p2 ∙ sym q2) rest in
    let (intent_word, merchant_word) =
      append-split p.intent_word q.intent_word _ _ (p3 ∙ sym q3) rest' in
    elim (same-IsCollision k a.request_id b.request_id
      (p.request_of ∙ ap some request_word ∙ sym q.request_of)) [
        | inl collision ↦ inl collision
        | inr same_request ↦
            elim (same-IsCollision k a.merchant_domain b.merchant_domain
              (p.merchant_of ∙ ap some merchant_word ∙ sym q.merchant_of)) [
                | inl collision ↦ inl collision
                | inr same_merchant ↦ inr (record {
                  request_id = same_request;
                  merchant_domain = same_merchant;
                  policy_hash = p.policy_of ∙ ap some policy_word ∙ sym q.policy_of;
                  intent_hash = p.intent_of ∙ ap some intent_word ∙ sym q.intent_of;
                })
              ]
      ]

words_behind :
    (k : Keccak) (c : Commitment) (n : Text)
    → build_commitment_nonce k c ≡ some n
    → (w : Text) × (nonce_words k c ≡ some w) × (k.of_hex (codes "0x" ++ w) ≡ n)
unfolding build_commitment_nonce
words_behind k c n e = elim (Option-cases (nonce_words k c)) [
  | inl none_made ↦ absurd (ground (arith, none_made))
  | inr (w, made) ↦ (w, made, ground (arith, made))
]

-- Two commitments with one nonce agree on the request, the merchant, the policy word and the intent
-- word, or two different texts with one keccak256 value are found.
pub build_commitment_nonce-IsSameCommitment :
    (k : Keccak) (a b : Commitment) (n : Text)
    → build_commitment_nonce k a ≡ some n
    → build_commitment_nonce k b ≡ some n
    → IsCollision k ⊎ IsSameCommitment a b
build_commitment_nonce-IsSameCommitment k a b n ea eb =
    let (v, made_v, hashed_v) = words_behind k a n ea in
    let (w, made_w, hashed_w) = words_behind k b n eb in
    elim (Bool-cases (same v w)) [
      | inl eq ↦
          let one = (same_iff v w).0 eq in
          same-Words k a b v (Words-of k a v made_v) (Words-of k b v (made_w ∙ ap some (sym one)))
      | inr ne ↦ inl (record {
        left = codes "0x" ++ v;
        right = codes "0x" ++ w;
        different =
            λ h. cc ((same_iff v w).1 (append-split (codes "0x") (codes "0x") v w refl h).1, ne);
        together = inr (hashed_v ∙ sym hashed_w);
      })
    ]
