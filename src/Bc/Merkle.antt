-- ===== src/Bc/Merkle.antt =====
-- protocol/bc/merkle.go: the Merkle root of a list of nodes, each by the bytes that its WriteTo
-- writes. SHA3-256 is golang.org/x/crypto's, behind crypto/sha3pool: the parameter sum256, from
-- the bytes written to the bytes read.
pub mod PowerOfTwo
pub mod Collision
pub mod Tree
use btm_stats.Base.{ℕ, zero, suc, Option, none, some, List, [], ◌∷◌, ◌++◌, length, take, drop, map}
use btm_stats.Bc.Hash.{Hash, new_hash, byte32}
use PowerOfTwo.{prev_power_of_two}

module _ (sum256 : List ℕ → List ℕ) where
  -- the hash that is read after the given bytes are written
  abbrev pub hash_of : List ℕ → Hash
  hash_of bytes = new_hash (sum256 bytes)

  -- EmptyStringHash
  abbrev pub empty_string_hash : Hash
  empty_string_hash = hash_of []

  -- after leafPrefix, and after interiorPrefix
  abbrev pub leaf_hash : List ℕ → Hash
  leaf_hash node = hash_of (0x00 ∷ node)

  abbrev pub interior_hash : Hash → Hash → Hash
  interior_hash left right = hash_of (0x01 ∷ (byte32 left ++ byte32 right))

  -- the last steps of merkleRoot, with the roots of both halves
  abbrev joined : Option Hash → Option Hash → Option Hash
  joined (some left) (some right) = some (interior_hash left right)
  joined (some left) none = none
  joined none right = none

  -- merkleRoot, with fuel for the depth of its recursion; `none` means that the fuel ran out. Its
  -- err is nil always.
  unfoldable pub merkle_root_fuel : ℕ → List (List ℕ) → Option Hash
  merkle_root_fuel fuel [] = some empty_string_hash
  merkle_root_fuel fuel (node ∷ []) = some (leaf_hash node)
  merkle_root_fuel zero (x ∷ y ∷ nodes) = none
  merkle_root_fuel (suc fuel) (x ∷ y ∷ nodes) =
      let k = prev_power_of_two (length (x ∷ y ∷ nodes)) in
      joined (merkle_root_fuel fuel (take k (x ∷ y ∷ nodes)))
        (merkle_root_fuel fuel (drop k (x ∷ y ∷ nodes)))

  unfoldable pub merkle_root : List (List ℕ) → Option Hash
  unfolding merkle_root_fuel
  merkle_root nodes = merkle_root_fuel (length nodes) nodes

  -- TxMerkleRoot, over the IDs of the transactions
  unfoldable pub tx_merkle_root : List Hash → Option Hash
  tx_merkle_root ids = merkle_root (map byte32 ids)
