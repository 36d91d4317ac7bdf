-- ===== src/Signer/Sign/Replay.antt =====
-- The replay guard over several requests.
use straitsx.Prelude.{
  ℕ, suc, ◌≤◌, ◌+◌, ◌≡◌, refl, Bool, true, false, List, [], ◌∷◌, arith, if◌then◌else◌, inl, inr,
  ◌⊎◌, ap, ◌∙◌,
}
use straitsx.Text.{Text, same, same_iff, same_refl}
use straitsx.Signer.Pipeline.{Signature, produced, failure}
use straitsx.Signer.Sign.{
  RawSignBody, SignBody, SignDeps, failure_outcome, SignCode, SignResponse, SignOutcome, signed,
  rejected, Seen, has, pending, sign_begin, finish_with, sign_finish, finish_begun, sign,
}
use straitsx.Signer.Sign.Guarantees.{
  sign_begin-IsCleared, sign_finish-IsSigned, sign-IsSigned, sign-rejected,
}

-- The replies to requests that are served one after the other.
unfoldable pub sign_all : SignDeps → Seen → List RawSignBody → List SignOutcome
sign_all deps seen [] = []
sign_all deps seen (raw ∷ rest) =
    let step = sign deps seen raw in let others = sign_all deps step.0 rest in step.1 ∷ others

-- How many of the replies carry a signature for the identifier.
unfoldable pub signatures_for : Text → List SignOutcome → ℕ
signatures_for id [] = 0
signatures_for id (rejected status code ∷ rest) = signatures_for id rest
signatures_for id (signed response ∷ rest) =
    let others = signatures_for id rest in
    if same response.request_id id then suc others else others

SignOutcome-cases :
    (x : SignOutcome)
    → ((status : ℕ) × (code : SignCode) × (x ≡ rejected status code))
      ⊎ ((response : SignResponse) × (x ≡ signed response))
SignOutcome-cases (rejected status code) = inl (status, code, refl)
SignOutcome-cases (signed response) = inr (response, refl)

signatures_for-head :
    (id : Text) (o : SignOutcome) (rest : List SignOutcome)
    → signatures_for id (o ∷ rest) ≡ signatures_for id (o ∷ []) + signatures_for id rest
unfolding signatures_for
signatures_for-head id (rejected status code) rest = omega arith
signatures_for-head id (signed response) rest = ground arith

abbrev pub bit : Bool → ℕ
bit true = 1
bit false = 0

-- What one reply does to the number of signatures for an identifier and to the record of it.
module _ (deps : SignDeps) (seen : Seen) (raw : RawSignBody) (id : Text) where
  sign-step :
      signatures_for id ((sign deps seen raw).1 ∷ []) + bit (has seen id)
      ≤ bit (has (sign deps seen raw).0 id)
  unfolding signatures_for has
  sign-step = elim (SignOutcome-cases (sign deps seen raw).1) [
    | inl (status, code, e) ↦
        let kept : (sign deps seen raw).0 ≡ seen =
          sign-rejected deps seen raw _ status code (ap (λ o. ((sign deps seen raw).0, o)) e) in
        ground (arith, e, kept)
    | inr (response, e) ↦
        let (body, parsed, cleared, is_signed, recorded) =
          sign-IsSigned deps seen raw _ response (ap (λ o. ((sign deps seen raw).0, o)) e) in
        let unseen = cleared.unseen in
        let same_id = is_signed.request_id in
        ground (arith, e, recorded, unseen, same_id, same_iff body.request_id id)
  ]

-- Requests that are served one after the other get at most one signature for an identifier, and
-- none for an identifier that was recorded before.
pub sign_all-once :
    (deps : SignDeps) (raws : List RawSignBody) (seen : Seen) (id : Text)
    → signatures_for id (sign_all deps seen raws) + bit (has seen id) ≤ 1
unfolding sign_all signatures_for
sign_all-once deps [] seen id = ground arith
sign_all-once deps (raw ∷ rest) seen id =
    let step = sign-step deps seen raw id in
    let later = sign_all-once deps rest (sign deps seen raw).0 id in
    let split =
      signatures_for-head id (sign deps seen raw).1 (sign_all deps (sign deps seen raw).0 rest) in
    omega (arith, step, later, split)

finish_with-signed_anywhere :
    (deps : SignDeps) (body : SignBody) (seen seen' other : Seen) (s : Signature)
    (response : SignResponse)
    → finish_with deps body seen s ≡ (seen', signed response)
    → finish_with deps body other s ≡ (body.request_id ∷ other, signed response)
unfolding finish_with failure_outcome
finish_with-signed_anywhere deps body seen seen' other (failure f) response h = ground arith
finish_with-signed_anywhere deps body seen seen' other (produced payload parts) response h = cc

-- The guard is read before the key source is called and written after it has answered. Two requests
-- with one identifier, whatever else their bodies hold, that both reach the call before one of them
-- has ended, and each of which would be signed if it were the only one, are both signed: the second
-- to end is signed although its identifier is recorded by then, and is recorded again.
pub sign_finish-twice :
    (deps : SignDeps) (seen after_first after_second : Seen) (raw other_raw : RawSignBody)
    (body other : SignBody) (response other_response : SignResponse)
    → sign_begin deps seen raw ≡ pending body
    → sign_begin deps seen other_raw ≡ pending other
    → body.request_id ≡ other.request_id
    → sign_finish deps body seen ≡ (after_first, signed response)
    → sign_finish deps other seen ≡ (after_second, signed other_response)
    → (has seen other.request_id ≡ false)
      × (has after_first other.request_id ≡ true)
      × (finish_begun deps after_first (sign_begin deps seen other_raw)
          ≡ (other.request_id ∷ other.request_id ∷ seen, signed other_response))
unfolding finish_begun sign_finish has
sign_finish-twice deps seen after_first after_second raw other_raw body other response
      other_response begun other_begun same_id finished other_finished =
    let unseen = (sign_begin-IsCleared deps seen other_raw other other_begun).1.unseen in
    let recorded = (sign_finish-IsSigned deps seen body after_first response finished).0 in
    let held : after_first ≡ other.request_id ∷ seen = recorded ∙ ap (λ id. id ∷ seen) same_id in
    let again =
      finish_with-signed_anywhere deps other seen after_second after_first _ other_response
        other_finished in
    (
      unseen,
      ground (arith, held, same_refl other.request_id),
      rw (other_begun, finish_begun)
          (again ∙ ap (λ l. (other.request_id ∷ l, signed other_response)) held),
    )
