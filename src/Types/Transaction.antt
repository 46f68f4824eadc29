-- ===== src/Types/Transaction.antt =====
-- protocol/bc/types/transaction.go
pub mod Coding
use btm_stats.Base.{ℕ, zero, suc, ◌+◌, ◌-◌, not, List, [], ◌∷◌, ◌++◌, length, ◌==◌, if◌then◌else◌}
use btm_stats.Errors.{unsupported_serflags}
use btm_stats.Encoding.Reader.{
  Reader, Read, Result, ok, err, continue, ◌>>=◌, pure, fail, wrapping, wrapping_at, read_full, len,
}
use btm_stats.Encoding.Varint.{read_varint31, read_varint63}
use btm_stats.Types.Loop.{read_each}
use btm_stats.Types.TxInput
use btm_stats.Types.TxInput.{TxInput, only_byte}
use btm_stats.Types.TxOutput
use btm_stats.Types.TxOutput.{TxOutput}

-- serRequired
abbrev pub ser_required : ℕ
ser_required = 0x7

pub record TxData : Type 0 where
  pub version : ℕ
  pub serialized_size : ℕ
  pub time_range : ℕ
  pub inputs : List TxInput
  pub outputs : List TxOutput

module _ (sum256 : List ℕ → List ℕ) where
  -- readFrom behind the flags; SerializedSize is filled in at the end
  unfoldable pub read_fields : Read TxData
  read_fields = do
    version ← wrapping "reading transaction version" read_varint63
    time_range ← read_varint63
    n ← wrapping "reading number of transaction inputs" read_varint31
    inputs ← read_each "reading input" (TxInput.read_from sum256) n []
    m ← wrapping "reading number of transaction outputs" read_varint31
    outputs ← read_each "reading output" TxOutput.read_from m []
    pure (record {
      version = version;
      serialized_size = 0;
      time_range = time_range;
      inputs = inputs;
      outputs = outputs;
    })

  unfoldable pub read_flagged : Read TxData
  unfolding read_fields
  read_flagged = do
    serflags ← wrapping "reading serialization flags" (read_full 1)
    if only_byte serflags == ser_required
        then read_fields
        else fail (unsupported_serflags (only_byte serflags))

  -- the last assignment of readFrom
  abbrev pub sized : ℕ → Result TxData × Reader → Result TxData × Reader
  sized start (ok tx, r) = (ok (record tx { serialized_size = start - len r }), r)
  sized start (err e, r) = (err e, r)

  -- TxData.readFrom, into a zero TxData
  unfoldable pub read_from : Read TxData
  read_from r = sized (len r) (read_flagged r)
