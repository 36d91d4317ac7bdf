-- ===== src/Examples/Commitments.antt =====
-- The commitment nonce at one commitment.
use straitsx.Prelude.{refl, ◌⊎◌}
use straitsx.Text.{Text, codes}
use straitsx.Contracts.Mandate.{Keccak, Commitment}
use straitsx.Contracts.Mandate.Nonce.{
  IsCollision, IsSameCommitment, build_commitment_nonce-IsSameCommitment,
}

abbrev hash : Text
hash = codes "0x2222222222222222222222222222222222222222222222222222222222222222"

abbrev keccak : Keccak
keccak = record { of_text = λ s. hash; of_hex = λ s. hash }

abbrev commitment : Text → Commitment
commitment request_id = record {
  request_id = request_id;
  policy_hash = hash;
  intent_hash = hash;
  merchant_domain = codes "shop.sg";
}

build_commitment_nonce-IsSameCommitment_example :
    IsCollision keccak ⊎ IsSameCommitment (commitment (codes "r1")) (commitment (codes "r2"))
unfolding straitsx.Contracts.Mandate.build_commitment_nonce straitsx.Contracts.Mandate.nonce_words
    straitsx.Contracts.Mandate.strip straitsx.Text.lower
build_commitment_nonce-IsSameCommitment_example =
    build_commitment_nonce-IsSameCommitment keccak (commitment (codes "r1"))
      (commitment (codes "r2")) hash refl refl
