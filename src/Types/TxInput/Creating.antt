-- ===== src/Types/TxInput/Creating.antt =====
-- The functions that make an input: NewSpendInput, NewCoinbaseInput, NewIssuanceInput.
use btm_stats.Base.{ℕ, some, List, []}
use btm_stats.Bc.Hash.{Hash}
use btm_stats.Types.TxInput.{spend, coinbase, issuance, TxInput}

-- NewSpendInput
unfoldable pub new_spend_input : List (List ℕ) → Hash → Hash → ℕ → ℕ → List ℕ → TxInput
new_spend_input arguments source_id asset_id amount source_pos control_program = record {
  asset_version = 1;
  typed_input = some (
      spend (record {
        spend_commitment_suffix = [];
        arguments = arguments;
        spend_commitment = record {
          asset_amount = record { asset_id = some asset_id; amount = amount };
          source_id = source_id;
          source_position = source_pos;
          vm_version = 1;
          control_program = control_program;
        };
      }));
  commitment_suffix = [];
  witness_suffix = [];
}

-- NewCoinbaseInput
unfoldable pub new_coinbase_input : List ℕ → TxInput
new_coinbase_input arbitrary = record {
  asset_version = 1;
  typed_input = some (coinbase (record { arbitrary = arbitrary }));
  commitment_suffix = [];
  witness_suffix = [];
}

-- NewIssuanceInput
unfoldable pub new_issuance_input : List ℕ → ℕ → List ℕ → List (List ℕ) → List ℕ → TxInput
new_issuance_input nonce amount issuance_program arguments asset_definition = record {
  asset_version = 1;
  typed_input = some (
      issuance (record {
        nonce = nonce;
        amount = amount;
        asset_definition = asset_definition;
        vm_version = 1;
        issuance_program = issuance_program;
        arguments = arguments;
      }));
  commitment_suffix = [];
  witness_suffix = [];
}
