-- ===== src/Bc/Asset/Amounts.antt =====
-- Reading, writing and comparing amounts of an asset.
use btm_stats.Base.{
  ℕ, ◌≡◌, ◌≤◌, ◌↔◌, true, none, some, List, ◌++◌, arith, append_assoc, length-append,
}
use btm_stats.Io.{buffer}
use btm_stats.Encoding.Reads.{Reads, IsPrefixRead, prefix_rules}
use btm_stats.Encoding.Varint.{max_int64}
use btm_stats.Encoding.Varints.{
  Wrote, varint, write_varint63-Wrote, Reads-read_varint63, IsPrefixRead-read_varint63,
}
use btm_stats.Bc.Hash
use btm_stats.Bc.Hash.{Hash, byte32, IsHash, Reads-read_hash, IsPrefixRead-read_hash}
use btm_stats.Bc.Asset.{AssetAmount, read_from, write_to, equal}

abbrev pub amount_of : Hash → ℕ → AssetAmount
amount_of id n = record { asset_id = some id; amount = n }

-- The bytes of an amount.
abbrev pub encode_amount : Hash → ℕ → List ℕ
encode_amount id n = byte32 id ++ varint n

pub write_to-Wrote :
    (id : Hash) (n : ℕ)
    → n ≤ max_int64
    → Wrote (write_to buffer (amount_of id n)) (encode_amount id n)
unfolding write_to Hash.write_to
write_to-Wrote id n h s =
    rw (write_varint63-Wrote n h (s ++ byte32 id))
      (ground (arith, append_assoc s (byte32 id) (varint n), length-append (byte32 id) (varint n)))

pub Reads-read_amount :
    (id : Hash) (n : ℕ)
    → IsHash id
    → n ≤ max_int64
    → Reads read_from (encode_amount id n) (amount_of id n)
unfolding read_from
Reads-read_amount id n hid hn rest = rw (
  append_assoc (byte32 id) (varint n) rest,
  Reads-read_hash id hid (varint n ++ rest),
  Reads-read_varint63 n hn rest,
)

pub IsPrefixRead-read_amount : IsPrefixRead read_from
unfolding read_from
IsPrefixRead-read_amount = search (prefix_rules, IsPrefixRead-read_hash, IsPrefixRead-read_varint63)

-- Equal answers true exactly for equal amounts of one asset, where both have an asset id.
pub equal_iff :
    (g h : Hash) (m n : ℕ)
    → (equal (some (amount_of g m)) (some (amount_of h n)) ≡ (true, none))
      ↔ (amount_of g m ≡ amount_of h n)
unfolding equal
equal_iff g h m n = (λ e. ground arith, λ e. ground arith)
