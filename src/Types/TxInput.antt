-- ===== src/Types/TxInput.antt =====
-- protocol/bc/types/txinput.go, spend_commitment.go, spend.go, issuance.go and coinbase.go.
-- SHA3-256 of golang.org/x/crypto is the parameter sum256.
pub mod Creating
pub mod Commitments
pub mod Witnesses
pub mod Refused
pub mod Coding
use btm_stats.Base.{
  ℕ, zero, suc, Bool, ◌&&◌, not, Option, none, some, List, [], ◌∷◌, ◌==◌, if◌then◌else◌,
}
use btm_stats.Errors.{bad_asset_id, unrecognized_vm_version, unsupported_input_type}
use btm_stats.Encoding.Reader.{Read, Result, continue, ◌>>=◌, pure, fail, wrapping, read_full}
use btm_stats.Encoding.Varint.{
  read_varint63, read_varstr31, read_varstr_list, read_extensible_string,
}
use btm_stats.Bc.Hash
use btm_stats.Bc.Hash.{Hash, new_hash}
use btm_stats.Bc.Asset
use btm_stats.Bc.Asset.{AssetAmount, hash_eq, compute_asset_id}
use btm_stats.Types.TxOutput.{no_amount}

pub record SpendCommitment : Type 0 where
  pub asset_amount : AssetAmount
  pub source_id : Hash
  pub source_position : ℕ
  pub vm_version : ℕ
  pub control_program : List ℕ

pub record SpendInput : Type 0 where
  pub spend_commitment_suffix : List ℕ
  pub arguments : List (List ℕ)
  pub spend_commitment : SpendCommitment

pub record IssuanceInput : Type 0 where
  pub nonce : List ℕ
  pub amount : ℕ
  pub asset_definition : List ℕ
  pub vm_version : ℕ
  pub issuance_program : List ℕ
  pub arguments : List (List ℕ)

pub record CoinbaseInput : Type 0 where
  pub arbitrary : List ℕ

-- The implementations of the interface TypedInput.
pub data TypedInput : Type 0 where
  issuance : IssuanceInput → TypedInput
  spend : SpendInput → TypedInput
  coinbase : CoinbaseInput → TypedInput

-- IssuanceInputType, SpendInputType, CoinbaseInputType: the InputType methods
unfoldable pub input_type : TypedInput → ℕ
input_type (issuance i) = 0
input_type (spend s) = 1
input_type (coinbase c) = 2

-- A nil TypedInput is `none`.
pub record TxInput : Type 0 where
  pub asset_version : ℕ
  pub typed_input : Option TypedInput
  pub commitment_suffix : List ℕ
  pub witness_suffix : List ℕ

-- the zero values
abbrev pub zero_hash : Hash
zero_hash = record { v0 = 0; v1 = 0; v2 = 0; v3 = 0 }

abbrev no_spend_commitment : SpendCommitment
no_spend_commitment = record {
  asset_amount = no_amount;
  source_id = zero_hash;
  source_position = 0;
  vm_version = 0;
  control_program = [];
}

-- the function that SpendCommitment.readFrom gives to ReadExtensibleString
unfoldable pub read_spend_body : ℕ → Read SpendCommitment
read_spend_body asset_version =
    if asset_version == 1
    then (do
      source_id ← wrapping "reading source id" Hash.read_from
      asset_amount ← wrapping "reading asset+amount" Asset.read_from
      position ← wrapping "reading source position" read_varint63
      vm_version ← wrapping "reading VM version" read_varint63
      if vm_version == 1
          then (do
            program ← wrapping "reading control program" read_varstr31
            pure (record {
              asset_amount = asset_amount;
              source_id = source_id;
              source_position = position;
              vm_version = vm_version;
              control_program = program;
            }))
          else fail (unrecognized_vm_version vm_version))
    else pure no_spend_commitment

-- SpendCommitment.readFrom
unfoldable pub read_spend_commitment : ℕ → Read (SpendCommitment × List ℕ)
unfolding read_spend_body
read_spend_commitment asset_version = read_extensible_string (read_spend_body asset_version)

-- what the commitment of an input gives: the typed input with no witness yet, and the local assetID
abbrev pub Committed : Type 0
Committed = Option TypedInput × Hash

-- the cases of TxInput.readFrom over icType
unfoldable pub read_issuance_commitment : Read Committed
read_issuance_commitment = do
  nonce ← read_varstr31
  asset_id ← Hash.read_from
  amount ← read_varint63
  pure (
    some (
        issuance (record {
          nonce = nonce;
          amount = amount;
          asset_definition = [];
          vm_version = 0;
          issuance_program = [];
          arguments = [];
        })),
    asset_id,
  )

unfoldable pub read_spend_input : Read Committed
unfolding read_spend_commitment
read_spend_input = do
  (commitment, suffix) ← read_spend_commitment 1
  pure (
    some (
        spend (record {
          spend_commitment_suffix = suffix;
          arguments = [];
          spend_commitment = commitment;
        })),
    zero_hash,
  )

unfoldable pub read_coinbase_input : Read Committed
read_coinbase_input = do
  arbitrary ← read_varstr31
  pure (some (coinbase (record { arbitrary = arbitrary })), zero_hash)

-- the one byte of icType
abbrev pub only_byte : List ℕ → ℕ
only_byte [] = 0
only_byte (b ∷ bs) = b

-- the function for the commitment in TxInput.readFrom
unfoldable pub read_commitment : ℕ → Read Committed
unfolding read_issuance_commitment read_spend_input read_coinbase_input
read_commitment asset_version =
    if asset_version == 1
    then (do
      ic_type ← wrapping "reading input commitment type" (read_full 1)
      if only_byte ic_type == 0
          then read_issuance_commitment
          else if only_byte ic_type == 1
          then read_spend_input
          else if only_byte ic_type == 2
          then read_coinbase_input
          else fail (unsupported_input_type (only_byte ic_type)))
    else pure (none, zero_hash)

module _ (sum256 : List ℕ → List ℕ) where
  -- IssuanceInput.AssetDefinitionHash, NonceHash
  unfoldable pub asset_definition_hash : IssuanceInput → Hash
  asset_definition_hash ii = new_hash (sum256 ii.asset_definition)

  unfoldable pub nonce_hash : IssuanceInput → Hash
  nonce_hash ii = new_hash (sum256 ii.nonce)

  -- IssuanceInput.AssetID
  unfoldable pub asset_id : IssuanceInput → Hash
  unfolding asset_definition_hash
  asset_id ii =
      compute_asset_id sum256 ii.issuance_program ii.vm_version (some (asset_definition_hash ii))

  -- the cases of the function for the witness in TxInput.readFrom
  unfoldable pub read_issuance_witness : IssuanceInput → Hash → Read IssuanceInput
  read_issuance_witness ii committed_id = do
    definition ← read_varstr31
    vm_version ← read_varint63
    program ← read_varstr31
    let ii' = record ii {
      asset_definition = definition;
      vm_version = vm_version;
      issuance_program = program;
    }
    if hash_eq (asset_id ii') committed_id
        then (do arguments ← read_varstr_list; pure (record ii' { arguments = arguments }))
        else fail bad_asset_id

  unfoldable pub read_typed_witness : Option TypedInput → Hash → Read (Option TypedInput)
  unfolding read_issuance_witness
  read_typed_witness none committed_id = pure none
  read_typed_witness (some (issuance ii)) committed_id = do
    ii' ← read_issuance_witness ii committed_id
    pure (some (issuance ii'))
  read_typed_witness (some (spend si)) committed_id = do
    arguments ← read_varstr_list
    pure (some (spend (record si { arguments = arguments })))
  read_typed_witness (some (coinbase ci)) committed_id = pure (some (coinbase ci))

  unfoldable pub read_witness : ℕ → Committed → Read (Option TypedInput)
  unfolding read_typed_witness
  read_witness asset_version (typed, committed_id) =
      if asset_version == 1 then read_typed_witness typed committed_id else pure typed

  -- TxInput.readFrom
  unfoldable pub read_from : Read TxInput
  unfolding read_commitment read_witness
  read_from = do
    asset_version ← read_varint63
    (committed, commitment_suffix) ← read_extensible_string (read_commitment asset_version)
    (typed, witness_suffix) ← read_extensible_string (read_witness asset_version committed)
    pure (record {
      asset_version = asset_version;
      typed_input = typed;
      commitment_suffix = commitment_suffix;
      witness_suffix = witness_suffix;
    })
