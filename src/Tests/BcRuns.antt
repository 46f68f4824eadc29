-- ===== src/Tests/BcRuns.antt =====
-- Runs of protocol/bc. The digest of the runs adds up the bytes.
use btm_stats.Base.{
  ℕ, ◌+◌, ◌%◌, ◌^◌, ◌++◌, ◌≡◌, ◌⊎◌, refl, true, false, some, List, [], ◌∷◌, length, arith, All,
}
use btm_stats.Io.{buffer}
use btm_stats.Encoding.Reads.{Reads}
use btm_stats.Encoding.Varints.{Wrote}
use btm_stats.Bc.Entry.{write_for_hash}
use btm_stats.Encoding.Write.{write_varstr31, write_varint31}
use btm_stats.Encoding.Varint.{put_uvarint}
use btm_stats.Errors.{wrap}
use btm_stats.Bc.Words.{IsByte, put_uint64_be, put_uint64_le}
use btm_stats.Bc.Hash.{Hash, IsHash, zeros, byte32, read_from, Reads-read_hash}
use btm_stats.Bc.Merkle.{merkle_root_fuel, merkle_root}
use btm_stats.Bc.Merkle.PowerOfTwo.{prev_power_of_two}
use btm_stats.Bc.Merkle.Tree.{MerkleTree, merkle_root-MerkleTree}
use btm_stats.Bc.Merkle.Collision.{Collision, Collide, merkle_root_inj}
use btm_stats.Bc.Asset
use btm_stats.Bc.Asset.{
  AssetAmount, hashed_bytes, definition_value, definition_asset_id, compute_asset_id, equal,
}
use btm_stats.Encoding.WriteStrings.{varstr}
use btm_stats.Bc.Asset.Identity.{compute_asset_id_inj}
use btm_stats.Bc.Asset.Amounts.{amount_of, encode_amount, Reads-read_amount, write_to-Wrote}
use btm_stats.Bc.TxStatus.{TransactionStatus}

abbrev pub total : List ℕ → ℕ
total [] = 0
total (b ∷ bs) = b + total bs

-- A digest of 32 bytes with collisions.
unfoldable pub toy : List ℕ → List ℕ
toy bs = (total bs % 256) ∷ zeros 31

pub length-toy : (bs : List ℕ) → length (toy bs) ≡ 32
unfolding toy
length-toy bs = refl

pub toy-IsByte : (bs : List ℕ) → All IsByte (toy bs)
unfolding toy
toy-IsByte bs = omega arith

abbrev pub hash_a : Hash
hash_a = record { v0 = 1; v1 = 2; v2 = 2 ^ 63; v3 = 4 }

pub hash_a-IsHash : IsHash hash_a
hash_a-IsHash = record {
  word0 = omega arith;
  word1 = omega arith;
  word2 = omega arith;
  word3 = omega arith;
}

abbrev pub hash_b : Hash
hash_b = record { v0 = 5; v1 = 0; v2 = 0; v3 = 7 }

pub hash_b-IsHash : IsHash hash_b
hash_b-IsHash = record {
  word0 = omega arith;
  word1 = omega arith;
  word2 = omega arith;
  word3 = omega arith;
}

Reads-read_hash_example : Reads read_from (byte32 hash_a) hash_a
Reads-read_hash_example = Reads-read_hash hash_a hash_a-IsHash

prev_powers : (prev_power_of_two 8 ≡ 4) × (prev_power_of_two 9 ≡ 8) × (prev_power_of_two 7 ≡ 4)
unfolding prev_power_of_two
prev_powers = (refl, refl, refl)

-- Two lists of three nodes with one root.
abbrev nodes : List (List ℕ)
nodes = (1 ∷ 2 ∷ []) ∷ (3 ∷ []) ∷ (4 ∷ []) ∷ []

abbrev others : List (List ℕ)
others = (2 ∷ 1 ∷ []) ∷ (3 ∷ []) ∷ (4 ∷ []) ∷ []

one_root : merkle_root toy nodes ≡ merkle_root toy others
unfolding merkle_root merkle_root_fuel prev_power_of_two toy
one_root = refl

merkle_root-MerkleTree_example :
    (h : Hash) × (merkle_root toy nodes ≡ some h) × MerkleTree toy nodes h
merkle_root-MerkleTree_example = merkle_root-MerkleTree toy nodes

merkle_root_inj_example : (nodes ≡ others) ⊎ Collision toy nodes others
merkle_root_inj_example = merkle_root_inj toy length-toy toy-IsByte nodes others one_root

abbrev version_1 : ℕ
version_1 = 1

abbrev program_a : List ℕ
program_a = 1 ∷ 2 ∷ []

abbrev program_b : List ℕ
program_b = 2 ∷ 1 ∷ []

same_asset_id :
    compute_asset_id toy program_a version_1 (some hash_a)
    ≡ compute_asset_id toy program_b version_1 (some hash_a)
unfolding compute_asset_id definition_asset_id hashed_bytes definition_value toy write_for_hash
    write_varstr31 write_varint31 put_uvarint wrap put_uint64_le byte32 put_uint64_be
same_asset_id = refl

compute_asset_id_inj_example :
    ((version_1 ≡ version_1) × (program_a ≡ program_b) × (hash_a ≡ hash_a))
    ⊎ Collide toy
        (put_uint64_le version_1 ++ (varstr program_a ++ byte32 hash_a))
        (put_uint64_le version_1 ++ (varstr program_b ++ byte32 hash_a))
compute_asset_id_inj_example =
    compute_asset_id_inj toy length-toy toy-IsByte version_1 version_1 program_a program_b hash_a
      hash_a (omega arith) (omega arith) (omega arith) (omega arith) hash_a-IsHash hash_a-IsHash
      same_asset_id

Reads-read_amount_example : Reads Asset.read_from (encode_amount hash_a 300) (amount_of hash_a 300)
Reads-read_amount_example = Reads-read_amount hash_a 300 hash_a-IsHash (omega arith)

write_to-Wrote_example :
    Wrote (Asset.write_to buffer (amount_of hash_a 300)) (encode_amount hash_a 300)
write_to-Wrote_example = write_to-Wrote hash_a 300 (omega arith)

abbrev two_results : TransactionStatus
two_results = record {
  version = 1;
  verify_status = record { status_fail = true } ∷ record { status_fail = false } ∷ [];
}
