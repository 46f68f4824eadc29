-- ===== src/Types/Block.antt =====
-- protocol/bc/types/block.go, block_header.go and block_commitment.go, and NewTx of
-- transaction.go. The repository calls but does not hold BlockCommitment.readFrom,
-- BlockHeader.writeTo, Tx.WriteTo and the entries that MapTx is made of: they are parameters.
pub mod Coding
use btm_stats.Base.{
  ℕ, zero, suc, ◌+◌, ◌||◌, Option, none, some, List, [], ◌∷◌, length, ◌==◌, if◌then◌else◌,
}
use btm_stats.Errors.{Error, unsupported_serflags, trailing_garbage}
use btm_stats.Errors.Writer.{Sticky, new_writer, sticky, err_of, written}
use btm_stats.Io.{
  Count, Writer, buffer, Outcome, returned, panicked, Write, ◌>>=◌ as bind_write,
  continue as continue_write, pure as pure_write,
}
use btm_stats.Encoding.Reader.{
  Reader, Read, Result, ok, err, continue, ◌>>=◌, pure, fail, wrapping, read_full, new_reader, len,
}
use btm_stats.Encoding.Varint.{read_varint31, read_varint63, read_extensible_string}
use btm_stats.Encoding.Write.{write_varint31}
use btm_stats.Bc.Words.{hex_encode, hex_decode}
use btm_stats.Bc.Hash
use btm_stats.Bc.Hash.{Hash}
use btm_stats.Types.Loop.{read_each}
use btm_stats.Types.TxInput.{only_byte}
use btm_stats.Types.Transaction
use btm_stats.Types.Transaction.{TxData}

pub record BlockCommitment : Type 0 where
  pub transactions_merkle_root : Hash
  pub transaction_status_hash : Hash

pub record BlockHeader : Type 0 where
  pub version : ℕ
  pub height : ℕ
  pub previous_block_hash : Hash
  pub timestamp : ℕ
  pub nonce : ℕ
  pub bits : ℕ
  pub block_commitment : BlockCommitment

-- A transaction with its entries, of a type Entries.
pub record Tx (Entries : Type 0) : Type 0 where
  pub tx_data : TxData
  pub tx : Entries

pub record Block (Entries : Type 0) : Type 0 where
  pub block_header : BlockHeader
  pub transactions : List (Tx Entries)

-- SerBlockHeader, SerBlockTransactions, SerBlockFull
abbrev pub ser_block_header : ℕ
ser_block_header = 1

abbrev pub ser_block_transactions : ℕ
ser_block_transactions = 2

abbrev pub ser_block_full : ℕ
ser_block_full = 3

-- the byte in serflags after io.ReadFull, whose error is dropped
abbrev pub flag_of : Result (List ℕ) → ℕ
flag_of (ok p) = only_byte p
flag_of (err e) = 0

module _ (read_commitment : Read BlockCommitment) where
  -- BlockHeader.readFrom behind the flag
  unfoldable pub read_header_fields : Read BlockHeader
  read_header_fields = do
    version ← read_varint63
    height ← read_varint63
    previous ← Hash.read_from
    timestamp ← read_varint63
    (commitment, suffix) ← read_extensible_string read_commitment
    nonce ← read_varint63
    bits ← read_varint63
    pure (record {
      version = version;
      height = height;
      previous_block_hash = previous;
      timestamp = timestamp;
      nonce = nonce;
      bits = bits;
      block_commitment = commitment;
    })

  unfoldable pub read_header_flagged : ℕ → Read (ℕ × BlockHeader)
  read_header_flagged serflag =
      if serflag == ser_block_header || serflag == ser_block_full
      then (do header ← read_header_fields; pure (serflag, header))
      else fail (unsupported_serflags serflag)

  -- BlockHeader.readFrom: the flag, and the header
  unfoldable pub read_header : Read (ℕ × BlockHeader)
  read_header r = let (p, r') = read_full 1 r in read_header_flagged (flag_of p) r'

module _ (sum256 : List ℕ → List ℕ) {Entries : Type 0} (map_tx : TxData → Entries) where
  -- NewTx
  unfoldable pub new_tx : TxData → Tx Entries
  new_tx tx = record { tx_data = tx; tx = map_tx tx }

  unfoldable pub read_tx : Read (Tx Entries)
  read_tx = do tx ← Transaction.read_from sum256; pure (new_tx tx)

  unfoldable pub read_transactions : ℕ × BlockHeader → Read (Block Entries)
  read_transactions (serflags, header) =
      if serflags == ser_block_header
      then pure (record { block_header = header; transactions = [] })
      else (do
        n ← wrapping "reading number of transactions" read_varint31
        txs ← read_each "reading transaction" read_tx n []
        pure (record { block_header = header; transactions = txs }))

  -- Block.readFrom, into a zero Block
  unfoldable pub read_from : Read BlockCommitment → Read (Block Entries)
  read_from read_commitment = do flagged ← read_header read_commitment; read_transactions flagged

  -- what UnmarshalText does after readFrom
  abbrev pub no_trailing : Result (Block Entries) × Reader → Result (Block Entries)
  no_trailing (err e, r) = err e
  no_trailing (ok b, r) = if len r == 0 then ok b else err (trailing_garbage (len r))

  abbrev pub decoded_block : Read BlockCommitment → List ℕ × Option Error → Result (Block Entries)
  decoded_block read_commitment (bytes, some e) = err e
  decoded_block read_commitment (bytes, none) =
      no_trailing (read_from read_commitment (new_reader bytes))

  -- Block.UnmarshalText
  unfoldable pub unmarshal_text : Read BlockCommitment → List ℕ → Result (Block Entries)
  unmarshal_text read_commitment text = decoded_block read_commitment (hex_decode text)

-- The writers that the repository does not hold, over any io.Writer.
pub record BlockWriters (Entries : Type 0) : Type 1 where
  pub write_header : (S : Type 0) → Writer S → BlockHeader → ℕ → Write S (Option Error)
  pub write_tx : (S : Type 0) → Writer S → Tx Entries → Write S (Option Error)

module _ {Entries : Type 0} (c : BlockWriters Entries) {S : Type 0} (w : Writer S) where
  -- the loop of Block.writeTo
  unfoldable pub write_transactions : List (Tx Entries) → Write S (Option Error)
  write_transactions [] s = returned none s
  write_transactions (tx ∷ txs) s =
      bind_write (c.write_tx S w tx)
        (elim [ none ↦ write_transactions txs | some e ↦ pure_write (some e) ]) s

  -- Block.writeTo
  unfoldable pub write_block : Block Entries → ℕ → Write S (Option Error)
  write_block b serflags = bind_write (c.write_header S w b.block_header serflags) (elim [
    | some e ↦ pure_write (some e)
    | none ↦
        (if serflags == ser_block_header
          then pure_write none
          else bind_write (write_varint31 w (length b.transactions)) λ written. elim written.1 [
            | some e ↦ pure_write (some e)
            | none ↦ write_transactions b.transactions
          ])
  ])

module _ {Entries : Type 0} (c : BlockWriters Entries) where
  -- Block.WriteTo, through the sticky writer: the count and the error
  unfoldable pub write_to : {S : Type 0} → Writer S → Block Entries → Write S Count
  write_to w b s = elim (write_block c (sticky w) b ser_block_full (new_writer s)) [
    | panicked ↦ panicked
    | returned (some e) t ↦ returned (0, some e) t.inner
    | returned none t ↦ returned (written t, err_of t) t.inner
  ]

  -- Block.MarshalText
  unfoldable pub marshal_text : Block Entries → Outcome (List ℕ) (Result (List ℕ))
  marshal_text b = elim (write_to buffer b []) [
    | panicked ↦ panicked
    | returned written s ↦ elim written.1 [
      | some e ↦ returned (err e) s
      | none ↦ returned (ok (hex_encode s)) s
    ]
  ]
