-- ===== src/Tests/TypesRuns.antt =====
-- Runs of protocol/bc/types, with the digest of the runs of protocol/bc.
use btm_stats.Base.{
  ℕ, ◌^◌, ◌≡◌, ◌≢◌, ap, some, List, [], ◌∷◌, ◌++◌, length, append_assoc, arith, All, ◌==◌,
  if◌then◌else◌,
}
use btm_stats.Errors.{bad_asset_id, trailing_garbage}
use btm_stats.Encoding.Reader.{Read, ok, err, ◌>>=◌, pure}
use btm_stats.Encoding.Reads.{Reads}
use btm_stats.Encoding.Varint.{put_uvarint}
use btm_stats.Encoding.Write.{write_varint63}
use btm_stats.Encoding.Varints.{emit, varint}
use btm_stats.Encoding.WriteStrings.{varstr}
use btm_stats.Bc.Words.{IsByte, hex_encode, uint64_be, put_uint64_be}
use btm_stats.Bc.Hash
use btm_stats.Bc.Hash.{Hash, IsHash, byte32, new_hash, Reads-read_hash}
use btm_stats.Bc.Asset.{definition_asset_id, compute_asset_id}
use btm_stats.Types.TxOutput.{TxOutput}
use btm_stats.Types.TxOutput.Coding as OutputCoding
use btm_stats.Types.TxOutput.Coding.{commitment_of, encode_commitment, Reads-read_output}
use btm_stats.Types.TxInput as Input
use btm_stats.Types.TxInput.{TxInput, issuance, asset_id, read_witness}
use btm_stats.Types.TxInput.Witnesses.{issuance_of}
use btm_stats.Types.TxInput.Commitments.{encode_issuance}
use btm_stats.Types.TxInput.Refused.{read_from-bad_asset}
use btm_stats.Types.TxInput.Coding as InputCoding
use btm_stats.Types.TxInput.Coding.{Reads-read_input}
use btm_stats.Types.Loop.{done, more}
use btm_stats.Types.Transaction.{TxData}
use btm_stats.Types.Transaction as Transaction
use btm_stats.Types.Transaction.Coding as TxCoding
use btm_stats.Types.Transaction.Coding.{Reads-read_transaction, read_transaction-ok}
use btm_stats.Types.Block.{
  BlockCommitment, BlockHeader, Block, ser_block_full, read_from, new_tx, unmarshal_text,
}
use btm_stats.Types.Block.Coding as BlockCoding
use btm_stats.Types.Block.Coding.{
  IsHeader, WireHeader, header, WireTx, wire_tx, Reads-read_header, Reads-read_block,
  unmarshal_text-Wire,
}
use btm_stats.Tests.BcRuns.{toy, hash_a, hash_a-IsHash, hash_b, hash_b-IsHash}

-- An output of asset version 1 with a suffix and a witness.
abbrev output : TxOutput
output = record {
  asset_version = 1;
  output_commitment = commitment_of hash_a 300 (0x51 ∷ []);
  commitment_suffix = 9 ∷ [];
}

abbrev output_bytes : List ℕ
output_bytes =
    varint 1 ++ (varstr (encode_commitment hash_a 300 (0x51 ∷ []) ++ (9 ∷ [])) ++ varstr (7 ∷ []))

output-Wire : OutputCoding.Wire output output_bytes
unfolding varint emit write_varint63 put_uvarint byte32 put_uint64_be
output-Wire =
    OutputCoding.Wire.current hash_a 300 (0x51 ∷ []) (9 ∷ []) (7 ∷ []) hash_a-IsHash (omega arith)
      (omega arith) (omega arith) (omega arith)

-- A coinbase input.
abbrev mint_input : TxInput
mint_input =
    InputCoding.input_of 1 (some (Input.coinbase (record { arbitrary = 1 ∷ 2 ∷ [] }))) [] []

abbrev mint_bytes : List ℕ
mint_bytes = InputCoding.encode_parts 1 (2 ∷ varstr (1 ∷ 2 ∷ [])) [] [] []

mint-Wire : InputCoding.Wire toy mint_input mint_bytes
unfolding varint emit write_varint63 put_uvarint
mint-Wire = InputCoding.Wire.mint (1 ∷ 2 ∷ []) [] [] (omega arith) (omega arith) (omega arith)

-- The digest of the runs gives ids whose second word is 0.
not_hash_a : asset_id toy (issuance_of (5 ∷ []) 10 (1 ∷ []) 1 (0x51 ∷ []) []) ≢ hash_a
unfolding asset_id compute_asset_id definition_asset_id new_hash uint64_be toy
not_hash_a e = absurd (omega (arith, ap (λ (h : Hash). h.v1) e))

read_from-bad_asset_example :
    (Input.read_from toy (
      varint 1
      ++ (varstr ((0 ∷ encode_issuance (5 ∷ []) hash_a 10) ++ (8 ∷ []))
          ++ (varstr (varstr (1 ∷ []) ++ (varint 1 ++ (varstr (0x51 ∷ []) ++ (0 ∷ [])))) ++ [])))).0
    ≡ err bad_asset_id
unfolding varint emit write_varint63 put_uvarint byte32 put_uint64_be
read_from-bad_asset_example =
    read_from-bad_asset toy (5 ∷ []) 10 hash_a (8 ∷ []) (1 ∷ []) 1 (0x51 ∷ []) (0 ∷ []) []
      (omega arith) (omega arith) hash_a-IsHash (omega arith) (omega arith) (omega arith)
      (omega arith) (omega arith) not_hash_a

-- A transaction of these.
abbrev inputs_bytes : List ℕ
inputs_bytes = mint_bytes ++ []

abbrev outputs_bytes : List ℕ
outputs_bytes = output_bytes ++ []

abbrev transaction_bytes : List ℕ
transaction_bytes = Transaction.ser_required ∷ TxCoding.encode 1 100 1 inputs_bytes 1 outputs_bytes

abbrev transaction : TxData
transaction = TxCoding.tx_of (length transaction_bytes) 1 100 (mint_input ∷ []) (output ∷ [])

transaction-Wire : TxCoding.Wire toy transaction transaction_bytes
transaction-Wire =
    TxCoding.Wire.transaction 1 100 (mint_input ∷ []) (output ∷ []) inputs_bytes outputs_bytes
      (omega arith) (omega arith) (omega arith) (omega arith)
      (more mint_input [] mint_bytes [] mint-Wire done)
      (more output [] output_bytes [] output-Wire done)

Reads-read_transaction_example : Reads (Transaction.read_from toy) transaction_bytes transaction
Reads-read_transaction_example =
    Reads-read_transaction toy transaction transaction_bytes transaction-Wire

read_transaction-ok_example :
    (taken : List ℕ) × (transaction_bytes ++ (1 ∷ []) ≡ taken ++ (1 ∷ []))
    × (transaction.serialized_size ≡ length taken)
    × ((rest : List ℕ) → Transaction.read_from toy (taken ++ rest) ≡ (ok transaction, rest))
read_transaction-ok_example =
    read_transaction-ok toy (transaction_bytes ++ (1 ∷ [])) transaction (1 ∷ [])
      (Reads-read_transaction_example (1 ∷ []))

-- A reader for the commitment of a header: two hashes.
abbrev two_hashes : Read BlockCommitment
two_hashes = do
  root ← Hash.read_from
  status ← Hash.read_from
  pure (record { transactions_merkle_root = root; transaction_status_hash = status })

abbrev commitment : BlockCommitment
commitment = record { transactions_merkle_root = hash_a; transaction_status_hash = hash_b }

two_hashes-commitment : Reads two_hashes (byte32 hash_a ++ byte32 hash_b) commitment
two_hashes-commitment rest = rw (
  append_assoc (byte32 hash_a) (byte32 hash_b) rest,
  Reads-read_hash hash_a hash_a-IsHash (byte32 hash_b ++ rest),
  Reads-read_hash hash_b hash_b-IsHash rest,
)

abbrev block_header : BlockHeader
block_header = record {
  version = 1;
  height = 5;
  previous_block_hash = hash_b;
  timestamp = 1500;
  nonce = 3;
  bits = 2 ^ 61;
  block_commitment = commitment;
}

abbrev header_bytes : List ℕ
header_bytes = BlockCoding.encode_header block_header ((byte32 hash_a ++ byte32 hash_b) ++ [])

header-Wire : WireHeader two_hashes block_header header_bytes
unfolding byte32 put_uint64_be
header-Wire =
    header block_header (byte32 hash_a ++ byte32 hash_b) []
      (record {
        version = omega arith;
        height = omega arith;
        previous = hash_b-IsHash;
        timestamp = omega arith;
        nonce = omega arith;
        bits = omega arith;
      })
      two_hashes-commitment (omega arith)

-- The entries of a transaction, for the runs: its version.
abbrev entries : TxData → ℕ
entries tx = tx.version

abbrev block : Block ℕ
block = record { block_header = block_header; transactions = new_tx toy entries transaction ∷ [] }

abbrev block_bytes : List ℕ
block_bytes = (ser_block_full ∷ header_bytes) ++ (varint 1 ++ (transaction_bytes ++ []))

block-Wire : BlockCoding.Wire toy entries two_hashes block block_bytes
block-Wire =
    BlockCoding.Wire.full block_header (new_tx toy entries transaction ∷ []) header_bytes
      (transaction_bytes ++ []) header-Wire (omega arith)
      (more (new_tx toy entries transaction) [] transaction_bytes []
        (wire_tx transaction transaction_bytes transaction-Wire) done)

Reads-read_block_example : Reads (read_from toy entries two_hashes) block_bytes block
Reads-read_block_example = Reads-read_block toy entries two_hashes block block_bytes block-Wire

block_bytes-IsByte : All IsByte block_bytes
unfolding varint emit write_varint63 put_uvarint byte32 put_uint64_be
block_bytes-IsByte = omega arith

abbrev garbage : List ℕ
garbage = 1 ∷ 2 ∷ []

unmarshal_text-Wire_example :
    unmarshal_text toy entries two_hashes (hex_encode (block_bytes ++ garbage))
    ≡ (if length garbage == 0 then ok block else err (trailing_garbage (length garbage)))
unmarshal_text-Wire_example =
    unmarshal_text-Wire toy entries two_hashes block block_bytes garbage block-Wire
      block_bytes-IsByte (omega arith)
