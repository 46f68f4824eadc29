-- ===== src/Bc/Asset.antt =====
-- protocol/bc/asset.go, with the messages AssetAmount, AssetDefinition and Program of bc.proto. An
-- AssetID is a Hash in the source, and its methods are those of Hash. A pointer is an Option.
pub mod Identity
pub mod Amounts
use btm_stats.Base.{ℕ, ◌+◌, Bool, true, false, ◌&&◌, Option, none, some, List, [], ◌==◌}
use btm_stats.Errors.{Error, other}
use btm_stats.Io.{
  Count, Writer, buffer, Outcome, returned, panicked, Write, ◌>>=◌, continue as continue_write,
  pure as pure_write, send,
}
use btm_stats.Encoding.Reader.{Read, continue, ◌>>=◌ as bind, pure}
use btm_stats.Encoding.Varint.{read_varint63}
use btm_stats.Encoding.Write.{write_varint63}
use btm_stats.Bc.Hash
use btm_stats.Bc.Hash.{Hash, new_hash, byte32}
use btm_stats.Bc.Entry.{
  Value, Values, write_for_hash, struct, field, end, pointer, nil_pointer, uint64, bytes,
  hash_pointer,
}

pub record AssetAmount : Type 0 where
  pub asset_id : Option Hash
  pub amount : ℕ

pub record Program : Type 0 where
  pub vm_version : ℕ
  pub code : List ℕ

pub record AssetDefinition : Type 0 where
  pub issuance_program : Option Program
  pub definition : Option Hash

-- AssetAmount.ReadFrom, into a zero AssetAmount
unfoldable pub read_from : Read AssetAmount
read_from =
    bind Hash.read_from
      λ id. bind read_varint63 λ n. pure (record { asset_id = some id; amount = n })

-- AssetAmount.WriteTo. The call through a nil AssetId panics.
write_amount : {S : Type 0} → Writer S → ℕ → Count → Write S Count
write_amount w amount (n, some e) = pure_write (n, some e)
write_amount w amount (n, none) = do (n2, e) ← write_varint63 w amount; pure_write (n + n2, e)

unfoldable pub write_to : {S : Type 0} → Writer S → AssetAmount → Write S Count
unfolding write_amount
write_to w a = elim a.asset_id [
  | none ↦ (λ s. panicked)
  | some id ↦ (do written ← Hash.write_to w id; write_amount w a.amount written)
]

-- `*a == *b`, of hashes
abbrev pub hash_eq : Hash → Hash → Bool
hash_eq g h = g.v0 == h.v0 && (g.v1 == h.v1 && (g.v2 == h.v2 && g.v3 == h.v3))

-- AssetAmount.Equal
abbrev same_assets : ℕ → ℕ → Option Hash → Option Hash → Bool × Option Error
same_assets m n (some g) (some h) = (m == n && hash_eq g h, none)
same_assets m n (some g) none = (false, some (other "empty asset id"))
same_assets m n none h = (false, some (other "empty asset id"))

unfoldable pub equal : Option AssetAmount → Option AssetAmount → Bool × Option Error
equal (some a) (some b) = same_assets a.amount b.amount a.asset_id b.asset_id
equal (some a) none = (false, some (other "empty asset amount"))
equal none b = (false, some (other "empty asset amount"))

-- An AssetDefinition, as writeForHash sees it.
program_value : Option Program → Value
program_value none = nil_pointer
program_value (some p) = pointer (struct (field (uint64 p.vm_version) (field (bytes p.code) end)))

unfoldable pub definition_value : AssetDefinition → Value
unfolding program_value
definition_value ad =
    struct (field (program_value ad.issuance_program) (field (hash_pointer ad.definition) end))

-- What a hash has been given after a call of writeForHash. A sha3 hash is a writer that never
-- fails; an error of writeForHash itself is dropped by the source.
unfoldable pub hashed_bytes : Value → List ℕ
hashed_bytes v = elim (write_for_hash buffer v []) [ returned e s ↦ s | panicked ↦ [] ]

module _ (sum256 : List ℕ → List ℕ) where
  -- AssetDefinition.ComputeAssetID
  unfoldable pub definition_asset_id : AssetDefinition → Hash
  definition_asset_id ad = new_hash (sum256 (hashed_bytes (definition_value ad)))

  -- ComputeAssetID
  unfoldable pub compute_asset_id : List ℕ → ℕ → Option Hash → Hash
  compute_asset_id prog vm_version h = definition_asset_id (record {
    issuance_program = some (record { vm_version = vm_version; code = prog });
    definition = h;
  })
