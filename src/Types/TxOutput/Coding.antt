-- ===== src/Types/TxOutput/Coding.antt =====
-- The wire format of an output, and its reader.
use btm_stats.Base.{ℕ, ◌≡◌, ◌≢◌, ◌≤◌, false, List, [], ◌++◌, arith, append_assoc, ◌==◌}
use btm_stats.Encoding.Reads.{Reads, IsPrefixRead, prefix_rules}
use btm_stats.Encoding.Varint.{max_int64}
use btm_stats.Encoding.Varints.{varint, Reads-read_varint63, IsPrefixRead-read_varint63}
use btm_stats.Encoding.Strings.{
  Reads-read_varstr31, IsPrefixRead-read_varstr31, Reads-read_extensible_string,
  IsPrefixRead-read_extensible_string,
}
use btm_stats.Encoding.WriteStrings.{IsStr31, varstr}
use btm_stats.Bc.Hash.{Hash, IsHash}
use btm_stats.Bc.Asset.Amounts.{
  amount_of, encode_amount, Reads-read_amount, IsPrefixRead-read_amount,
}
use btm_stats.Types.TxOutput.{TxOutput, OutputCommitment, no_commitment, read_commitment, read_from}

-- The commitment of an output of asset version 1.
abbrev pub commitment_of : Hash → ℕ → List ℕ → OutputCommitment
commitment_of id amount program = record {
  asset_amount = amount_of id amount;
  vm_version = 1;
  control_program = program;
}

abbrev pub encode_commitment : Hash → ℕ → List ℕ → List ℕ
encode_commitment id amount program = encode_amount id amount ++ (varint 1 ++ varstr program)

Reads-read_commitment :
    (id : Hash) (amount : ℕ) (program : List ℕ)
    → IsHash id
    → amount ≤ max_int64
    → IsStr31 program
    → Reads
        (read_commitment 1)
        (encode_commitment id amount program)
        (commitment_of id amount program)
unfolding read_commitment
Reads-read_commitment id amount program hid ha hp rest = rw (
  append_assoc (encode_amount id amount) (varint 1 ++ varstr program) rest,
  Reads-read_amount id amount hid ha ((varint 1 ++ varstr program) ++ rest),
  append_assoc (varint 1) (varstr program) rest,
  Reads-read_varint63 1 (omega arith) (varstr program ++ rest),
  Reads-read_varstr31 program hp rest,
)

-- What an output on the wire holds: the fields of asset version 1, or an unknown version, whose
-- commitment is all suffix. Behind it stands a witness, which is ignored.
pub data Wire : TxOutput → List ℕ → Type 0 where
  current :
      (id : Hash) (amount : ℕ) (program suffix witness : List ℕ)
      → IsHash id
      → amount ≤ max_int64
      → IsStr31 program
      → IsStr31 (encode_commitment id amount program ++ suffix)
      → IsStr31 witness
      → Wire
          (record {
            asset_version = 1;
            output_commitment = commitment_of id amount program;
            commitment_suffix = suffix;
          })
          (varint 1 ++ (varstr (encode_commitment id amount program ++ suffix) ++ varstr witness))
  unknown :
      (version : ℕ) (suffix witness : List ℕ)
      → version ≢ 1
      → version ≤ max_int64
      → IsStr31 suffix
      → IsStr31 witness
      → Wire
          (record {
            asset_version = version;
            output_commitment = no_commitment;
            commitment_suffix = suffix;
          })
          (varint version ++ (varstr suffix ++ varstr witness))

read_from-parts :
    (version : ℕ) (commitment : OutputCommitment) (body suffix witness : List ℕ)
    → version ≤ max_int64
    → Reads (read_commitment version) body commitment
    → IsStr31 (body ++ suffix)
    → IsStr31 witness
    → Reads read_from (varint version ++ (varstr (body ++ suffix) ++ varstr witness)) (record {
      asset_version = version;
      output_commitment = commitment;
      commitment_suffix = suffix;
    })
unfolding read_from
read_from-parts version commitment body suffix witness hv hc hs hw rest = rw (
  append_assoc (varint version) (varstr (body ++ suffix) ++ varstr witness) rest,
  Reads-read_varint63 version hv ((varstr (body ++ suffix) ++ varstr witness) ++ rest),
  append_assoc (varstr (body ++ suffix)) (varstr witness) rest,
  Reads-read_extensible_string (read_commitment version) body suffix commitment hc hs
      (varstr witness ++ rest),
  Reads-read_varstr31 witness hw rest,
)

not_one : (version : ℕ) → version ≢ 1 → (version == 1) ≡ false
not_one version h = ground arith

Reads-unknown : (version : ℕ) → version ≢ 1 → Reads (read_commitment version) [] no_commitment
unfolding read_commitment
Reads-unknown version h rest = rw (not_one version h)

-- TxOutput.readFrom reads every output of the wire format, and leaves what follows it.
pub Reads-read_output : (o : TxOutput) (bs : List ℕ) → Wire o bs → Reads read_from bs o
Reads-read_output o bs (Wire.current id amount program suffix witness hid ha hp hs hw) =
    read_from-parts 1 (commitment_of id amount program) (encode_commitment id amount program) suffix
      witness (omega arith) (Reads-read_commitment id amount program hid ha hp) hs hw
Reads-read_output o bs (Wire.unknown version suffix witness ne hv hs hw) =
    read_from-parts version no_commitment [] suffix witness hv (Reads-unknown version ne) hs hw

pub IsPrefixRead-read_commitment : (version : ℕ) → IsPrefixRead (read_commitment version)
unfolding read_commitment
IsPrefixRead-read_commitment version =
    search
      (
        prefix_rules, IsPrefixRead-read_amount, IsPrefixRead-read_varint63,
        IsPrefixRead-read_varstr31,
      )
      depth 12

pub IsPrefixRead-read_output : IsPrefixRead read_from
unfolding read_from
IsPrefixRead-read_output =
    search
      (
        prefix_rules, IsPrefixRead-read_varint63, IsPrefixRead-read_extensible_string,
        IsPrefixRead-read_varstr31,
      )
      depth 12
