-- ===== src/Bc/Merkle/Tree.antt =====
-- merkleRoot against the trees of RFC 6962.
use btm_stats.Base.{
  ℕ, zero, suc, ◌+◌, ◌≤◌, ◌<◌, ◌≡◌, ◌^◌, refl, sym, some, List, [], ◌∷◌, ◌++◌, length, take, drop,
  arith, length-take, length-drop, take-append-drop,
}
use btm_stats.Bc.Hash.{Hash, new_hash, byte32}
use btm_stats.Bc.Merkle.{merkle_root_fuel, merkle_root}
use btm_stats.Bc.Merkle.PowerOfTwo.{prev_power_of_two, prev_power_of_two_lem, pow_pos}

-- The split of two or more nodes: the left part has the largest power of two below their number.
pub record IsSplit (nodes ls rs : List (List ℕ)) : Type 0 where
  pub parts : nodes ≡ ls ++ rs
  pub power : (e : ℕ) × (length ls ≡ 2 ^ e)
  pub some_right : 0 < length rs
  pub few_right : length rs ≤ length ls

module _ (sum256 : List ℕ → List ℕ) where
  -- The Merkle tree hash of RFC 6962, 2.1: the hash of no bytes, of 0x00 and the node, or of 0x01
  -- and the hashes of both parts.
  pub data MerkleTree : List (List ℕ) → Hash → Type 0 where
    empty : MerkleTree [] (new_hash (sum256 []))
    leaf : (node : List ℕ) → MerkleTree (node ∷ []) (new_hash (sum256 (0x00 ∷ node)))
    interior :
        {nodes : List (List ℕ)} (ls rs : List (List ℕ)) (left right : Hash)
        → IsSplit nodes ls rs
        → MerkleTree ls left
        → MerkleTree rs right
        → MerkleTree nodes (new_hash (sum256 (0x01 ∷ (byte32 left ++ byte32 right))))

  -- The bytes that are hashed in the tree of a list of nodes.
  pub data Hashed : List (List ℕ) → List ℕ → Type 0 where
    of_none : Hashed [] []
    of_leaf : (node : List ℕ) → Hashed (node ∷ []) (0x00 ∷ node)
    of_pair :
        {nodes : List (List ℕ)} (ls rs : List (List ℕ)) (left right : Hash)
        → IsSplit nodes ls rs
        → MerkleTree ls left
        → MerkleTree rs right
        → Hashed nodes (0x01 ∷ (byte32 left ++ byte32 right))
    of_left :
        {nodes : List (List ℕ)} (ls rs : List (List ℕ)) (x : List ℕ)
        → IsSplit nodes ls rs
        → Hashed ls x
        → Hashed nodes x
    of_right :
        {nodes : List (List ℕ)} (ls rs : List (List ℕ)) (x : List ℕ)
        → IsSplit nodes ls rs
        → Hashed rs x
        → Hashed nodes x

  merkle_root_fuel-MerkleTree :
      (fuel : ℕ) (nodes : List (List ℕ))
      → length nodes ≤ fuel + 1
      → (h : Hash) × (merkle_root_fuel sum256 fuel nodes ≡ some h) × MerkleTree nodes h
  unfolding merkle_root_fuel
  merkle_root_fuel-MerkleTree fuel [] h = (new_hash (sum256 []), refl, empty)
  merkle_root_fuel-MerkleTree fuel (x ∷ []) h = (new_hash (sum256 (0x00 ∷ x)), refl, leaf x)
  merkle_root_fuel-MerkleTree zero (x ∷ y ∷ nodes) h = absurd (omega arith)
  merkle_root_fuel-MerkleTree (suc fuel) (x ∷ y ∷ nodes) h =
      let all = x ∷ y ∷ nodes in
      let k = prev_power_of_two (length all) in
      let ((e, power), below, above) = prev_power_of_two_lem (length all) (omega arith) in
      let (left, p, t) =
        merkle_root_fuel-MerkleTree fuel (take k all) (omega (arith, length-take k all)) in
      let (right, q, u) =
        merkle_root_fuel-MerkleTree fuel (drop k all)
          (omega (arith, length-drop k all, power, pow_pos e)) in
      (
        new_hash (sum256 (0x01 ∷ (byte32 left ++ byte32 right))),
        rw (p, q),
        interior (take k all) (drop k all) left right
            (record {
              parts = sym (take-append-drop k all);
              power = (e, omega (arith, length-take k all));
              some_right = omega (arith, length-drop k all);
              few_right = omega (arith, length-drop k all, length-take k all);
            })
            t u,
      )

  -- merkleRoot ends with a root on every list of nodes: it is the Merkle tree hash of RFC
  -- 6962, where a leaf is hashed behind 0x00, and the hashes of two parts behind 0x01.
  pub merkle_root-MerkleTree :
      (nodes : List (List ℕ))
      → (h : Hash) × (merkle_root sum256 nodes ≡ some h) × MerkleTree nodes h
  unfolding merkle_root
  merkle_root-MerkleTree nodes = merkle_root_fuel-MerkleTree (length nodes) nodes (omega arith)
