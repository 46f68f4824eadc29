-- ===== src/Bc/Merkle/Collision.antt =====
-- Equal Merkle roots, for a hash with digests of 32 bytes.
use btm_stats.Base.{
  ℕ, ◌≡◌, ◌≢◌, refl, sym, ap, ◌∙◌, some, List, [], ◌∷◌, ◌++◌, length, take, drop, arith, All, ◌⊎◌,
  inl, inr, take-append_self, drop-append_self, ℕ_discrete, subst,
}
use mathlib.Core.Path.{ap₂}
use btm_stats.Bc.Words.{IsByte}
use btm_stats.Bc.Hash.{
  Hash, new_hash, byte32, byte32-new_hash, length-byte32, IsHash, new_hash-IsHash, new_hash-byte32,
}
use btm_stats.Bc.Merkle.{hash_of, merkle_root}
use btm_stats.Bc.Merkle.Tree.{IsSplit, MerkleTree, Hashed, merkle_root-MerkleTree}

-- Two different inputs with one digest.
abbrev pub Collide : (List ℕ → List ℕ) → List ℕ → List ℕ → Type 0
Collide sum256 x y = (x ≢ y) × (sum256 x ≡ sum256 y)

-- Bytes that are hashed for one list of nodes, and other bytes with the same digest that are hashed
-- for another list.
pub record Collision (sum256 : List ℕ → List ℕ) (nodes others : List (List ℕ)) : Type 0 where
  pub x : List ℕ
  pub y : List ℕ
  pub hashed : Hashed sum256 nodes x
  pub hashed_other : Hashed sum256 others y
  pub collide : Collide sum256 x y

bytes_discrete : Discrete (List ℕ)
bytes_discrete = hlevel ℕ_discrete

front : (a b : Hash) → byte32 a ≡ take 32 (byte32 a ++ byte32 b)
front a b =
    subst (λ n. byte32 a ≡ take n (byte32 a ++ byte32 b)) (length-byte32 a)
      (sym (take-append_self (byte32 a) (byte32 b)))

back : (a b : Hash) → byte32 b ≡ drop 32 (byte32 a ++ byte32 b)
back a b =
    subst (λ n. byte32 b ≡ drop n (byte32 a ++ byte32 b)) (length-byte32 a)
      (sym (drop-append_self (byte32 a) (byte32 b)))

pub byte32_inj : (a b : Hash) → IsHash a → IsHash b → byte32 a ≡ byte32 b → a ≡ b
byte32_inj a b ha hb e = sym (new_hash-byte32 a ha) ∙ ap new_hash e ∙ new_hash-byte32 b hb

some_inj : {a b : Hash} → some a ≡ some b → a ≡ b
some_inj e = cc

module _ (sum256 : List ℕ → List ℕ) (size : (bs : List ℕ) → length (sum256 bs) ≡ 32)
    (bytes : (bs : List ℕ) → All IsByte (sum256 bs)) where
  -- Inputs of one hash are equal, or collide.
  pub hash_of_inj :
      (x y : List ℕ) → hash_of sum256 x ≡ hash_of sum256 y → (x ≡ y) ⊎ Collide sum256 x y
  hash_of_inj x y e = elim (bytes_discrete x y) [
    | yes p ↦ inl p
    | no n ↦ inr (
      n,
      sym (byte32-new_hash (sum256 x) (size x) (bytes x))
          ∙ ap byte32 e
          ∙ byte32-new_hash (sum256 y) (size y) (bytes y),
    )
  ]

  hash_of-IsHash : (x : List ℕ) → IsHash (hash_of sum256 x)
  hash_of-IsHash x = new_hash-IsHash (sum256 x) (size x) (bytes x)

  MerkleTree-IsHash : {l : List (List ℕ)} {h : Hash} → MerkleTree sum256 l h → IsHash h
  MerkleTree-IsHash MerkleTree.empty = hash_of-IsHash []
  MerkleTree-IsHash (MerkleTree.leaf x) = hash_of-IsHash (0x00 ∷ x)
  MerkleTree-IsHash (MerkleTree.interior ls rs left right s t u) =
      hash_of-IsHash (0x01 ∷ (byte32 left ++ byte32 right))

  -- The bytes of two hashes in a row determine both.
  byte32_pair_inj :
      (a b c d : Hash)
      → IsHash a
      → IsHash b
      → IsHash c
      → IsHash d
      → byte32 a ++ byte32 b ≡ byte32 c ++ byte32 d
      → (a ≡ c) × (b ≡ d)
  byte32_pair_inj a b c d ha hb hc hd e = (
    byte32_inj a c ha hc (front a b ∙ ap (take 32) e ∙ sym (front c d)),
    byte32_inj b d hb hd (back a b ∙ ap (drop 32) e ∙ sym (back c d)),
  )

  -- One hash of two inputs of the trees, unless the inputs are the same.
  compared :
      {A : Type 0} {l m : List (List ℕ)} (x y : List ℕ)
      → Hashed sum256 l x
      → Hashed sum256 m y
      → hash_of sum256 x ≡ hash_of sum256 y
      → (x ≡ y → A ⊎ Collision sum256 l m)
      → A ⊎ Collision sum256 l m
  compared x y hx hy e f = elim (hash_of_inj x y e) [
    | inl q ↦ f q
    | inr c ↦ inr (record { x = x; y = y; hashed = hx; hashed_other = hy; collide = c })
  ]

  -- A collision of parts of two trees is one of the trees.
  from_left :
      {l m ls rs ls' rs' : List (List ℕ)}
      → IsSplit l ls rs
      → IsSplit m ls' rs'
      → Collision sum256 ls ls'
      → Collision sum256 l m
  from_left s s' c = record {
    x = c.x;
    y = c.y;
    hashed = Hashed.of_left _ _ c.x s c.hashed;
    hashed_other = Hashed.of_left _ _ c.y s' c.hashed_other;
    collide = c.collide;
  }

  from_right :
      {l m ls rs ls' rs' : List (List ℕ)}
      → IsSplit l ls rs
      → IsSplit m ls' rs'
      → Collision sum256 rs rs'
      → Collision sum256 l m
  from_right s s' c = record {
    x = c.x;
    y = c.y;
    hashed = Hashed.of_right _ _ c.x s c.hashed;
    hashed_other = Hashed.of_right _ _ c.y s' c.hashed_other;
    collide = c.collide;
  }

  MerkleTree-inj :
      {l m : List (List ℕ)} {h k : Hash}
      → MerkleTree sum256 l h
      → MerkleTree sum256 m k
      → h ≡ k
      → (l ≡ m) ⊎ Collision sum256 l m
  MerkleTree-inj MerkleTree.empty MerkleTree.empty e = inl refl
  MerkleTree-inj MerkleTree.empty (MerkleTree.leaf y) e =
      compared _ _ Hashed.of_none (Hashed.of_leaf y) e (λ q. cc)
  MerkleTree-inj MerkleTree.empty (MerkleTree.interior ls rs left right s t u) e =
      compared _ _ Hashed.of_none (Hashed.of_pair ls rs left right s t u) e (λ q. cc)
  MerkleTree-inj (MerkleTree.leaf x) MerkleTree.empty e =
      compared _ _ (Hashed.of_leaf x) Hashed.of_none e (λ q. cc)
  MerkleTree-inj (MerkleTree.leaf x) (MerkleTree.leaf y) e =
      compared _ _ (Hashed.of_leaf x) (Hashed.of_leaf y) e (λ q. inl (ground arith))
  MerkleTree-inj (MerkleTree.leaf x) (MerkleTree.interior ls rs left right s t u) e =
      compared (0x00 ∷ x) (0x01 ∷ (byte32 left ++ byte32 right)) (Hashed.of_leaf x)
        (Hashed.of_pair ls rs left right s t u) e (λ q. absurd (ground arith))
  MerkleTree-inj (MerkleTree.interior ls rs left right s t u) MerkleTree.empty e =
      compared _ _ (Hashed.of_pair ls rs left right s t u) Hashed.of_none e (λ q. cc)
  MerkleTree-inj (MerkleTree.interior ls rs left right s t u) (MerkleTree.leaf x) e =
      compared (0x01 ∷ (byte32 left ++ byte32 right)) (0x00 ∷ x)
        (Hashed.of_pair ls rs left right s t u) (Hashed.of_leaf x) e (λ q. absurd (ground arith))
  MerkleTree-inj (MerkleTree.interior ls rs left right s t u)
        (MerkleTree.interior ls' rs' left' right' s' t' u') e =
      compared (0x01 ∷ (byte32 left ++ byte32 right)) (0x01 ∷ (byte32 left' ++ byte32 right'))
        (Hashed.of_pair ls rs left right s t u) (Hashed.of_pair ls' rs' left' right' s' t' u') e
        λ j.
          let (el, er) =
            byte32_pair_inj left right left' right' (MerkleTree-IsHash t) (MerkleTree-IsHash u)
              (MerkleTree-IsHash t') (MerkleTree-IsHash u') (ground arith) in
          elim (MerkleTree-inj t t' el) [
            | inr c ↦ inr (from_left s s' c)
            | inl f ↦ elim (MerkleTree-inj u u' er) [
              | inr c ↦ inr (from_right s s' c)
              | inl g ↦ inl (s.parts ∙ ap₂ ◌++◌ f g ∙ sym s'.parts)
            ]
          ]

  -- Two lists of nodes with one Merkle root are equal, or else two different inputs, one that is
  -- hashed in the tree of each list, have one digest.
  pub merkle_root_inj :
      (nodes others : List (List ℕ))
      → merkle_root sum256 nodes ≡ merkle_root sum256 others
      → (nodes ≡ others) ⊎ Collision sum256 nodes others
  merkle_root_inj nodes others e =
      let (h, p, t) = merkle_root-MerkleTree sum256 nodes in
      let (k, q, u) = merkle_root-MerkleTree sum256 others in
      MerkleTree-inj t u (some_inj (sym p ∙ e ∙ q))
