-- ===== src/Types/TxOutput.antt =====
-- protocol/bc/types/output_commitment.go and txoutput.go. A reader fills a new struct in the
-- source; here it returns the struct.
pub mod Coding
use btm_stats.Base.{ℕ, ◌≡◌, Option, none, some, List, [], ◌==◌, if◌then◌else◌}
use btm_stats.Errors.{unrecognized_vm_version}
use btm_stats.Encoding.Reader.{Read, Result, continue, ◌>>=◌, ◌>>◌, pure, fail, wrapping}
use btm_stats.Encoding.Varint.{read_varint63, read_varstr31, read_extensible_string}
use btm_stats.Bc.Hash.{Hash}
use btm_stats.Bc.Asset
use btm_stats.Bc.Asset.{AssetAmount}

pub record OutputCommitment : Type 0 where
  pub asset_amount : AssetAmount
  pub vm_version : ℕ
  pub control_program : List ℕ

pub record TxOutput : Type 0 where
  pub asset_version : ℕ
  pub output_commitment : OutputCommitment
  pub commitment_suffix : List ℕ

-- NewTxOutput
unfoldable pub new_tx_output : Hash → ℕ → List ℕ → TxOutput
new_tx_output asset_id amount control_program = record {
  asset_version = 1;
  output_commitment = record {
    asset_amount = record { asset_id = some asset_id; amount = amount };
    vm_version = 1;
    control_program = control_program;
  };
  commitment_suffix = [];
}

-- the zero values
abbrev pub no_amount : AssetAmount
no_amount = record { asset_id = none; amount = 0 }

abbrev pub no_commitment : OutputCommitment
no_commitment = record { asset_amount = no_amount; vm_version = 0; control_program = [] }

-- the function that OutputCommitment.readFrom gives to ReadExtensibleString
unfoldable pub read_commitment : ℕ → Read OutputCommitment
read_commitment asset_version =
    if asset_version == 1
    then (do
      asset_amount ← wrapping "reading asset+amount" Asset.read_from
      vm_version ← wrapping "reading VM version" read_varint63
      if vm_version == 1
          then (do
            program ← wrapping "reading control program" read_varstr31
            pure (record {
              asset_amount = asset_amount;
              vm_version = vm_version;
              control_program = program;
            }))
          else fail (unrecognized_vm_version vm_version))
    else pure no_commitment

-- TxOutput.readFrom
unfoldable pub read_from : Read TxOutput
unfolding read_commitment
read_from = do
  asset_version ← wrapping "reading asset version" read_varint63
  (commitment, suffix) ←
      wrapping "reading output commitment" (read_extensible_string (read_commitment asset_version))
  wrapping "reading output witness" read_varstr31
  pure (record {
    asset_version = asset_version;
    output_commitment = commitment;
    commitment_suffix = suffix;
  })
