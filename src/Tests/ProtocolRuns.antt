-- ===== src/Tests/ProtocolRuns.antt =====
-- Runs of protocol and consensus.
use btm_stats.Base.{
  ℕ, zero, suc, ◌+◌, ◌*◌, ◌≤◌, ◌≡◌, refl, sym, ap, ◌∙◌, subst, Option, none, some, List, [], ◌∷◌,
  length, get_elem?, arith,
}
use btm_stats.Consensus.{
  subsidy_reduction_interval, base_subsidy, initial_block_subsidy, block_subsidy,
}
use btm_stats.Consensus.Supply.{minted, minted_bound}
use btm_stats.Types.TxInput.{zero_hash}
use btm_stats.Protocol.BlockIndex.{BlockNode, BlockIndex, resized, link_parents, set_main_chain}
use btm_stats.Protocol.BlockIndex.Links.{Linked}
use btm_stats.Protocol.BlockIndex.MainChain.{Ancestor, set_main_chain-Linked}

-- A chain of three blocks, and a fork of the last one, at address 3.
abbrev parent_of : ℕ → Option ℕ
parent_of (suc zero) = some 0
parent_of (suc (suc zero)) = some 1
parent_of (suc (suc (suc zero))) = some 1
parent_of n = none

abbrev height_of : ℕ → ℕ
height_of (suc zero) = 1
height_of (suc (suc zero)) = 2
height_of (suc (suc (suc zero))) = 2
height_of n = 0

abbrev nodes : ℕ → BlockNode
nodes a = record {
  parent = parent_of a;
  hash = zero_hash;
  seed = none;
  work_sum = 0;
  version = 1;
  height = height_of a;
  timestamp = 0;
  nonce = 0;
  bits = 0;
  transactions_merkle_root = zero_hash;
  transaction_status_hash = zero_hash;
}

tree : (a b : ℕ) → (nodes a).parent ≡ some b → (nodes a).height ≡ suc (nodes b).height
tree zero b e = absurd (cc)
tree (suc zero) b e = let f : 0 ≡ b = cc in ap (λ x. suc (height_of x)) f
tree (suc (suc zero)) b e = let f : 1 ≡ b = cc in ap (λ x. suc (height_of x)) f
tree (suc (suc (suc zero))) b e = let f : 1 ≡ b = cc in ap (λ x. suc (height_of x)) f
tree (suc (suc (suc (suc n)))) b e = absurd (cc)

abbrev main : BlockIndex
main = record { index = λ h. none; main_chain = some 0 ∷ some 1 ∷ some 2 ∷ []; capacity = 579 }

abbrev chain_of : Option BlockIndex → List (Option ℕ)
chain_of none = []
chain_of (some bi) = bi.main_chain

main-Linked : (i : ℕ) → Linked nodes tree main.main_chain i
main-Linked i = record { node_height = λ a e. node i a e; parent_at = λ a b e p. parent i a b e p }
  where
    same : {a b : ℕ} → some (some a) ≡ some (some b) → a ≡ b
    same e = cc

    node : (j a : ℕ) → get_elem? main.main_chain j ≡ some (some a) → height_of a ≡ j
    node zero a e = ap height_of (sym (same e))
    node (suc zero) a e = ap height_of (sym (same e))
    node (suc (suc zero)) a e = ap height_of (sym (same e))
    node (suc (suc (suc j))) a e = absurd (cc)

    above : (a b c : ℕ) → a ≡ c → parent_of a ≡ some b → parent_of c ≡ some b
    above a b c e p = ap parent_of (sym e) ∙ p

    at :
        (b c : ℕ)
        → some c ≡ some b
        → get_elem? main.main_chain (height_of c) ≡ some (some c)
        → get_elem? main.main_chain (height_of b) ≡ some (some b)
    at b c e q =
        let f : c ≡ b = cc in
        subst (λ x. get_elem? main.main_chain (height_of x) ≡ some (some x)) f q

    parent :
        (j a b : ℕ)
        → get_elem? main.main_chain j ≡ some (some a)
        → parent_of a ≡ some b
        → get_elem? main.main_chain (height_of b) ≡ some (some b)
    parent zero a b e p = absurd (cc (above a b 0 (sym (same e)) p))
    parent (suc zero) a b e p = at b 0 (above a b 1 (sym (same e)) p) refl
    parent (suc (suc zero)) a b e p = at b 1 (above a b 2 (sym (same e)) p) refl
    parent (suc (suc (suc j))) a b e p = absurd (cc)

reorganized : chain_of (set_main_chain nodes 3 main) ≡ some 0 ∷ some 1 ∷ some 3 ∷ []
unfolding set_main_chain resized link_parents
reorganized = refl

set_main_chain-Linked_example :
    (bi : BlockIndex) × (set_main_chain nodes 3 main ≡ some bi)
    × (length bi.main_chain ≡ 3)
    × ((i : ℕ) → Linked nodes tree bi.main_chain i)
    × ((a : ℕ) → Ancestor nodes a 3 → get_elem? bi.main_chain (nodes a).height ≡ some (some a))
set_main_chain-Linked_example = set_main_chain-Linked nodes tree 3 main (omega arith) main-Linked

-- The reward halves after 840000 blocks.
subsidies : (block_subsidy 839999 ≡ 41250000000) × (block_subsidy 840000 ≡ 20625000000)
unfolding block_subsidy
subsidies = (refl, refl)

minted_bound_example :
    minted 3 ≤ initial_block_subsidy + 2 * subsidy_reduction_interval * base_subsidy
minted_bound_example = minted_bound 3
