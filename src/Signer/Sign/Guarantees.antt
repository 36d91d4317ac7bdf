-- ===== src/Signer/Sign/Guarantees.antt =====
-- What a signature that POST /sign returns stands for.
use straitsx.Prelude.{
  ℕ, ◌≡◌, refl, true, false, some, ◌∷◌, arith, length, Option-cases, Bool-cases, inl, inr, ◌⊎◌, ℤ,
}
use straitsx.Text.BigInt.{big_int}
use straitsx.Signer.Rail.{RailResult, passed, broken, refused, Refusal, check_rail}
use straitsx.Signer.Rail.Envelope.{IsWithin, check_rail-passed_iff}
use straitsx.Signer.Pipeline.{
  domain_matches, build_x402_header, Signature, produced, failure, sign_digest_with_key_source,
}
use straitsx.Signer.Pipeline.Genuine.{IsGenuine, produced-build_x402_header}
use straitsx.Signer.Sign.{
  RawSignBody, SignBody, parse_sign_body, SignDeps, SignCode, SignResponse, signed, rejected, Seen,
  has, rail_config, rail_input, Begun, stopped, pending, after_rail, begin_body, sign_begin,
  digest_of, header_input, finish_with, failure_outcome, sign_finish, finish_begun, sign,
}

-- A body that the handler takes to the key source.
pub record IsCleared (deps : SignDeps) (seen : Seen) (body : SignBody) : Type 0 where
  pub value : ℤ
  pub read : big_int body.typed_data.message.value ≡ some value
  pub within : IsWithin (rail_input body value) (rail_config deps seen)
  pub unseen : has seen body.request_id ≡ false
  pub domain : domain_matches body.typed_data.domain deps.expected_domain ≡ true

-- A response that carries a signature.
pub record IsSigned (deps : SignDeps) (body : SignBody) (response : SignResponse) : Type 0 where
  pub digest_length : length (digest_of deps body) ≡ 32
  pub genuine : IsGenuine deps.backend (digest_of deps body) deps.signer_address response.signature
  pub header : response.header ≡ build_x402_header (header_input body) response.signature
  pub request_id : response.request_id ≡ body.request_id
  pub signer_address : response.signer_address ≡ deps.signer_address

RailResult-cases :
    (r : RailResult) → (r ≡ passed) ⊎ ((r ≡ broken) ⊎ ((x : Refusal) × (r ≡ refused x)))
RailResult-cases passed = inl refl
RailResult-cases broken = inr (inl refl)
RailResult-cases (refused x) = inr (inr (x, refl))

module _ (deps : SignDeps) (seen : Seen) where
  after_rail-pending :
      (body body' : SignBody) (r : RailResult)
      → after_rail deps body r ≡ pending body'
      → (body' ≡ body)
        × (r ≡ passed)
        × (domain_matches body.typed_data.domain deps.expected_domain ≡ true)
  unfolding after_rail
  after_rail-pending body body' (refused x) h = absurd (cc h)
  after_rail-pending body body' broken h = absurd (cc h)
  after_rail-pending body body' passed h =
      elim (Bool-cases (domain_matches body.typed_data.domain deps.expected_domain)) [
        | inr other ↦ absurd (ground (arith, other))
        | inl same_domain ↦ (ground (arith, same_domain), refl, same_domain)
      ]

  begin_body-pending :
      (body body' : SignBody)
      → begin_body deps seen body ≡ pending body'
      → (body' ≡ body) × IsCleared deps seen body
  unfolding begin_body has rail_config
  begin_body-pending body body' h = elim (Option-cases (big_int body.typed_data.message.value)) [
    | inl bad ↦ absurd (ground (arith, bad))
    | inr (value, read) ↦
        let rail = check_rail (rail_input body value) body.request_id (rail_config deps seen) in
        let step : after_rail deps body rail ≡ pending body' = ground (arith, read) in
        let (same_body, through, domain) = after_rail-pending body body' rail step in
        let (within, unseen) =
          (check_rail-passed_iff (rail_input body value) body.request_id (rail_config deps seen)).0
            through in
        (
          same_body,
          record { value = value; read = read; within = within; unseen = unseen; domain = domain },
        )
  ]

  -- The handler calls the key source for a body only when the request parses to it and it is
  -- cleared.
  pub sign_begin-IsCleared :
      (raw : RawSignBody) (body : SignBody)
      → sign_begin deps seen raw ≡ pending body
      → (parse_sign_body raw ≡ some body) × IsCleared deps seen body
  unfolding sign_begin
  sign_begin-IsCleared raw body h = elim (Option-cases (parse_sign_body raw)) [
    | inl bad ↦ absurd (ground (arith, bad))
    | inr (parsed, e) ↦
        let (same_body, cleared) = begin_body-pending parsed body (ground (arith, e)) in
        (ground (arith, e, same_body), rw same_body cleared)
  ]

  finish_with-signed :
      (body : SignBody) (s : Signature) (seen' : Seen) (response : SignResponse)
      → finish_with deps body seen s ≡ (seen', signed response)
      → (seen' ≡ body.request_id ∷ seen)
        × (response.request_id ≡ body.request_id)
        × (response.signer_address ≡ deps.signer_address)
        × (s ≡ produced response.header response.signature)
  unfolding finish_with failure_outcome
  finish_with-signed body (failure f) seen' response h = ground arith
  finish_with-signed body (produced payload parts) seen' response h = (cc, cc, cc, cc)

  pub sign_finish-IsSigned :
      (body : SignBody) (seen' : Seen) (response : SignResponse)
      → sign_finish deps body seen ≡ (seen', signed response)
      → (seen' ≡ body.request_id ∷ seen) × IsSigned deps body response
  unfolding sign_finish
  sign_finish-IsSigned body seen' response h =
      let made =
        sign_digest_with_key_source deps.backend (digest_of deps body) deps.signer_address
          (header_input body) in
      let (recorded, same_id, same_address, from) = finish_with-signed body made seen' response h in
      let (full, genuine, header) =
        produced-build_x402_header deps.backend (digest_of deps body) deps.signer_address
          (header_input body) response.header response.signature from in
      (
        recorded,
        record {
          digest_length = full;
          genuine = genuine;
          header = header;
          request_id = same_id;
          signer_address = same_address;
        },
      )

  finish_with-rejected :
      (body : SignBody) (s : Signature) (seen' : Seen) (status : ℕ) (code : SignCode)
      → finish_with deps body seen s ≡ (seen', rejected status code)
      → seen' ≡ seen
  unfolding finish_with
  finish_with-rejected body (failure f) seen' status code h = cc
  finish_with-rejected body (produced payload parts) seen' status code h = absurd (cc h)

  finish_begun-rejected :
      (x : Begun) (seen' : Seen) (status : ℕ) (code : SignCode)
      → finish_begun deps seen x ≡ (seen', rejected status code)
      → seen' ≡ seen
  unfolding finish_begun sign_finish
  finish_begun-rejected (stopped a b) seen' status code h = cc
  finish_begun-rejected (pending body) seen' status code h =
      finish_with-rejected body _ seen' status code h

Begun-cases :
    (x : Begun)
    → ((status : ℕ) × (code : SignCode) × (x ≡ stopped status code))
      ⊎ ((body : SignBody) × (x ≡ pending body))
Begun-cases (stopped status code) = inl (status, code, refl)
Begun-cases (pending body) = inr (body, refl)

module _ (deps : SignDeps) (seen : Seen) (raw : RawSignBody) where
  -- A request that is answered with a signature parsed to a body that the rail and the domain check
  -- cleared; the signature is a genuine low-s one of that body's typed data by the signer's wallet,
  -- and exactly the request's identifier is recorded.
  pub sign-IsSigned :
      (seen' : Seen) (response : SignResponse)
      → sign deps seen raw ≡ (seen', signed response)
      → (body : SignBody) × (parse_sign_body raw ≡ some body)
        × IsCleared deps seen body
        × IsSigned deps body response
        × (seen' ≡ body.request_id ∷ seen)
  unfolding sign finish_begun
  sign-IsSigned seen' response h = elim (Begun-cases (sign_begin deps seen raw)) [
    | inl (status, code, e) ↦ absurd (ground (arith, e))
    | inr (body, e) ↦
        let (parsed, cleared) = sign_begin-IsCleared deps seen raw body e in
        let (recorded, is_signed) =
          sign_finish-IsSigned deps seen body seen' response (ground (arith, e)) in
        (body, parsed, cleared, is_signed, recorded)
  ]

  -- A request that is answered with an error leaves the recorded identifiers as they are.
  pub sign-rejected :
      (seen' : Seen) (status : ℕ) (code : SignCode)
      → sign deps seen raw ≡ (seen', rejected status code)
      → seen' ≡ seen
  unfolding sign
  sign-rejected seen' status code h =
      finish_begun-rejected deps seen (sign_begin deps seen raw) seen' status code h
