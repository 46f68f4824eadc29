-- ===== src/Protocol/BlockIndex.antt =====
-- protocol/state/blockindex.go: the nodes of the tree of blocks, and the main chain. A pointer to a node
-- is its address, a number, and the nodes are a function from addresses: no node changes here.
pub mod Links
pub mod MainChain
use btm_stats.Base.{
  ℕ, zero, suc, ◌+◌, ◌-◌, ◌*◌, ◌%◌, ◌^◌, Option, none, some, List, [], ◌∷◌, ◌++◌, length, take,
  get_elem?, set, ltb, ◌==◌, if◌then◌else◌,
}
use btm_stats.Bc.Hash.{Hash}

-- approxNodesPerDay
abbrev pub approx_nodes_per_day : ℕ
approx_nodes_per_day = 24 * 24

pub record BlockNode : Type 0 where
  pub parent : Option ℕ
  pub hash : Hash
  pub seed : Option Hash
  pub work_sum : ℕ
  pub version : ℕ
  pub height : ℕ
  pub timestamp : ℕ
  pub nonce : ℕ
  pub bits : ℕ
  pub transactions_merkle_root : Hash
  pub transaction_status_hash : Hash

-- BlockIndex. The slice mainChain is its elements, of which a nil is `none`, and its capacity.
pub record BlockIndex : Type 0 where
  pub index : Hash → Option ℕ
  pub main_chain : List (Option ℕ)
  pub capacity : ℕ

-- GetNode
unfoldable pub get_node : Hash → BlockIndex → Option ℕ
get_node hash bi = bi.index hash

abbrev pub nils : ℕ → List (Option ℕ)
nils zero = []
nils (suc n) = none ∷ nils n

-- The slice with `needed` elements: a copy in a larger slice, or the same slice cut or extended,
-- where what the extension shows is set to nil.
unfoldable pub resized : ℕ → BlockIndex → BlockIndex
resized needed bi =
    if ltb bi.capacity needed
    then record bi {
      main_chain = take needed bi.main_chain ++ nils (needed - length bi.main_chain);
      capacity = needed + approx_nodes_per_day;
    }
    else record bi {
      main_chain = take needed bi.main_chain ++ nils (needed - length bi.main_chain);
    }

module _ (nodes : ℕ → BlockNode) where
  -- the condition and one round of the loop in SetMainChain, at the element for the node's height;
  -- an index out of range is a panic
  abbrev pub round :
      (List (Option ℕ) → Option (List (Option ℕ)))
      → ℕ
      → Option (Option ℕ)
      → List (Option ℕ)
      → Option (List (Option ℕ))
  round next node none chain = none
  round next node (some none) chain = next (set chain (nodes node).height (some node))
  round next node (some (some other)) chain =
      let more = next (set chain (nodes node).height (some node)) in
      if other == node then some chain else more

  -- the loop of SetMainChain, with fuel for its rounds; `none` is a panic, or no fuel
  unfoldable pub link_parents : ℕ → Option ℕ → List (Option ℕ) → Option (List (Option ℕ))
  link_parents fuel none chain = some chain
  link_parents zero (some node) chain = none
  link_parents (suc fuel) (some node) chain =
      round (link_parents fuel (nodes node).parent) node (get_elem? chain (nodes node).height) chain

  -- the index with the chain that the loop leaves
  abbrev pub with_chain : Option (List (Option ℕ)) → BlockIndex → Option BlockIndex
  with_chain none bi = none
  with_chain (some chain) bi = some (record bi { main_chain = chain })

  -- SetMainChain, of a node that is not nil
  unfoldable pub set_main_chain : ℕ → BlockIndex → Option BlockIndex
  set_main_chain node bi =
      let sized = resized (((nodes node).height + 1) % 2 ^ 64) bi in
      with_chain (link_parents ((nodes node).height + 1) (some node) sized.main_chain) sized
