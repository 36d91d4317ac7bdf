-- ===== src/Examples/Drift.antt =====
-- The drift check at one policy and one on-chain hash.
use straitsx.Prelude.{◌≡◌, ◌⊎◌, some, false, []}
use straitsx.Text.{codes, lower}
use straitsx.Contracts.Types.{Mandate}
use straitsx.Contracts.Mandate.{Keccak, hash_policy}
use straitsx.Ledger.State.{empty}
use straitsx.Ledger.Storage.{put_policy}
use straitsx.Policy.Checks.{RegistryMandate}
use straitsx.Policy.Drift.{put_checked, put_checked-put_policy}

abbrev keccak : Keccak
keccak = record { of_text = λ s. s; of_hex = λ s. s }

abbrev on_chain : RegistryMandate
on_chain = record {
  owner = codes "0xa";
  policy_hash = codes "0x1";
  expires_at = 5000;
  revoked = false;
}

abbrev mandate : Mandate
mandate = record {
  mandate_id = codes "m1";
  owner = codes "0xA";
  agent_id = codes "a1";
  chain_id = 43113;
  asset = codes "0xc";
  settlement_recipient = codes "0xb";
  max_per_card = codes "20000000";
  max_per_window = codes "50000000";
  max_cards_per_window = 3;
  window_seconds = 86400;
  max_auth_validity_seconds = 60;
  expires_at = 5000;
  revoked = false;
  intent_constraint = codes "shoes";
  merchant_allowlist = [];
  policy_version = 1;
}

put_checked-put_policy_example :
    ((put_checked keccak (λ m c. some (some on_chain)) 1000 (codes "m1") (some mandate) empty).0
      ≡ empty)
    ⊎ ((found : RegistryMandate) × (some (some on_chain) ≡ some (some found))
        × (lower (hash_policy keccak mandate) ≡ lower found.policy_hash)
        × ((put_checked keccak
              (λ m c. some (some on_chain))
              1000
              (codes "m1")
              (some mandate)
              empty).0
            ≡ (put_policy 1000 (codes "m1") (some mandate) empty).0))
put_checked-put_policy_example =
    put_checked-put_policy keccak (λ m c. some (some on_chain)) 1000 (codes "m1") mandate empty
