-- ===== src/Types/Block/Coding.antt =====
-- The wire format of a block, and its readers.
use btm_stats.Base.{
  ℕ, ◌≡◌, ◌≤◌, refl, ◌||◌, true, List, [], ◌∷◌, ◌++◌, length, All, append_assoc, ◌==◌,
  if◌then◌else◌, All-append,
}
use btm_stats.Errors.{trailing_garbage}
use btm_stats.Encoding.Reader.{Read, ok, err}
use btm_stats.Encoding.Reads.{Reads, Reads-read_full}
use btm_stats.Encoding.Varint.{max_int32, max_int64}
use btm_stats.Encoding.Varints.{varint, Reads-read_varint31, Reads-read_varint63}
use btm_stats.Encoding.Strings.{Reads-read_extensible_string}
use btm_stats.Encoding.WriteStrings.{IsStr31, varstr}
use btm_stats.Bc.Words.{IsByte, hex_encode, decode-encode}
use btm_stats.Bc.Hash.{byte32, IsHash, Reads-read_hash}
use btm_stats.Types.Loop.{WireList, read_each-WireList}
use btm_stats.Types.Transaction.{TxData}
use btm_stats.Types.Transaction.Coding as TxCoding
use btm_stats.Types.Block.{
  BlockCommitment, BlockHeader, Tx, Block, ser_block_header, ser_block_full, read_header_fields,
  read_header_flagged, read_header, new_tx, read_tx, read_transactions, read_from, unmarshal_text,
}

-- The fields of a header in order, over the bytes of the commitment and its suffix.
abbrev pub encode_header : BlockHeader → List ℕ → List ℕ
encode_header h commitment =
    varint h.version
    ++ (varint h.height
        ++ (byte32 h.previous_block_hash
            ++ (varint h.timestamp ++ (varstr commitment ++ (varint h.nonce ++ varint h.bits)))))

-- The fields of a header are in the range of the format.
pub record IsHeader (h : BlockHeader) : Type 0 where
  pub version : h.version ≤ max_int64
  pub height : h.height ≤ max_int64
  pub previous : IsHash h.previous_block_hash
  pub timestamp : h.timestamp ≤ max_int64
  pub nonce : h.nonce ≤ max_int64
  pub bits : h.bits ≤ max_int64

module _ (read_commitment : Read BlockCommitment) where
  -- A header on the wire, behind its flag. The suffix of the commitment is dropped by the reader.
  pub data WireHeader : BlockHeader → List ℕ → Type 0 where
    header :
        (h : BlockHeader) (body suffix : List ℕ)
        → IsHeader h
        → Reads read_commitment body h.block_commitment
        → IsStr31 (body ++ suffix)
        → WireHeader h (encode_header h (body ++ suffix))

  Reads-header_fields :
      (h : BlockHeader) (bs : List ℕ)
      → WireHeader h bs
      → Reads (read_header_fields read_commitment) bs h
  unfolding read_header_fields
  Reads-header_fields h bs (header _ body suffix v hc hs) rest =
      let r1 = varint h.nonce ++ varint h.bits in
      let r2 = varstr (body ++ suffix) ++ r1 in
      let r3 = varint h.timestamp ++ r2 in
      let r4 = byte32 h.previous_block_hash ++ r3 in
      let r5 = varint h.height ++ r4 in
      rw (
        append_assoc (varint h.version) r5 rest,
        Reads-read_varint63 h.version v.version (r5 ++ rest),
        append_assoc (varint h.height) r4 rest,
        Reads-read_varint63 h.height v.height (r4 ++ rest),
        append_assoc (byte32 h.previous_block_hash) r3 rest,
        Reads-read_hash h.previous_block_hash v.previous (r3 ++ rest),
        append_assoc (varint h.timestamp) r2 rest,
        Reads-read_varint63 h.timestamp v.timestamp (r2 ++ rest),
        append_assoc (varstr (body ++ suffix)) r1 rest,
        Reads-read_extensible_string read_commitment body suffix h.block_commitment hc hs
            (r1 ++ rest),
        append_assoc (varint h.nonce) (varint h.bits) rest,
        Reads-read_varint63 h.nonce v.nonce (varint h.bits ++ rest),
        Reads-read_varint63 h.bits v.bits rest,
      )

  -- BlockHeader.readFrom reads a header behind the flag of a header or of a full block.
  pub Reads-read_header :
      (flag : ℕ) (h : BlockHeader) (bs : List ℕ)
      → (flag == ser_block_header || flag == ser_block_full) ≡ true
      → WireHeader h bs
      → Reads (read_header read_commitment) (flag ∷ bs) (flag, h)
  unfolding read_header read_header_flagged
  Reads-read_header flag h bs known w rest =
      rw (Reads-read_full (flag ∷ []) (bs ++ rest), known, Reads-header_fields h bs w rest)

module _ (sum256 : List ℕ → List ℕ) {Entries : Type 0} (map_tx : TxData → Entries)
    (read_commitment : Read BlockCommitment) where
  -- A transaction of a block: its data on the wire, and the entries that map_tx makes of it.
  pub data WireTx : Tx Entries → List ℕ → Type 0 where
    wire_tx :
        (tx : TxData) (bs : List ℕ)
        → TxCoding.Wire sum256 tx bs
        → WireTx (new_tx sum256 map_tx tx) bs

  -- A block on the wire: a header alone, or a full block.
  pub data Wire : Block Entries → List ℕ → Type 0 where
    header_only :
        (h : BlockHeader) (bs : List ℕ)
        → WireHeader read_commitment h bs
        → Wire (record { block_header = h; transactions = [] }) (ser_block_header ∷ bs)
    full :
        (h : BlockHeader) (txs : List (Tx Entries)) (bs cs : List ℕ)
        → WireHeader read_commitment h bs
        → length txs ≤ max_int32
        → WireList WireTx txs cs
        → Wire
            (record { block_header = h; transactions = txs })
            ((ser_block_full ∷ bs) ++ (varint (length txs) ++ cs))

  Reads-read_tx :
      (tx : Tx Entries) (bs : List ℕ) → WireTx tx bs → Reads (read_tx sum256 map_tx) bs tx
  unfolding read_tx
  Reads-read_tx tx bs (wire_tx t _ w) rest = rw (TxCoding.Reads-read_transaction sum256 t bs w rest)

  -- Block.readFrom reads every block of the wire format, and leaves what follows it.
  pub Reads-read_block :
      (b : Block Entries) (bs : List ℕ)
      → Wire b bs
      → Reads (read_from sum256 map_tx read_commitment) bs b
  unfolding read_from read_transactions
  Reads-read_block b bs (header_only h hs w) rest =
      rw (Reads-read_header read_commitment ser_block_header h hs refl w rest)
  Reads-read_block b bs (full h txs hs cs w n ws) rest = rw (
    append_assoc (ser_block_full ∷ hs) (varint (length txs) ++ cs) rest,
    Reads-read_header read_commitment ser_block_full h hs refl w
        ((varint (length txs) ++ cs) ++ rest),
    append_assoc (varint (length txs)) cs rest,
    Reads-read_varint31 (length txs) n (cs ++ rest),
    read_each-WireList "reading transaction" (read_tx sum256 map_tx) Reads-read_tx txs [] cs ws
        rest,
  )

  -- Block.UnmarshalText accepts the hex digits of a block of the wire format, and nothing behind
  -- them.
  pub unmarshal_text-Wire :
      (b : Block Entries) (bs extra : List ℕ)
      → Wire b bs
      → All IsByte bs
      → All IsByte extra
      → unmarshal_text sum256 map_tx read_commitment (hex_encode (bs ++ extra))
        ≡ (if length extra == 0 then ok b else err (trailing_garbage (length extra)))
  unfolding unmarshal_text
  unmarshal_text-Wire b bs extra w hb he = rw (
    decode-encode (bs ++ extra) (All-append IsByte bs extra hb he),
    Reads-read_block b bs w extra,
  )
