-- ===== src/Protocol/BlockIndex/MainChain.antt =====
-- SetMainChain leaves every ancestor of the node at its height.
use btm_stats.Base.{
  ℕ, zero, suc, ◌+◌, ◌-◌, ◌%◌, ◌^◌, ◌<◌, ◌≡◌, ◌≢◌, refl, ap, ◌∙◌, Option, some, List, ◌++◌, length,
  take, get_elem?, ltb, arith, get_elem?-take, get_elem?-bound, get_elem?-append, length-append,
  length-take, Bool-cases, inl, inr,
}
use btm_stats.Protocol.BlockIndex.{
  BlockNode, BlockIndex, nils, resized, link_parents, with_chain, set_main_chain,
}
use btm_stats.Protocol.BlockIndex.Links.{Linked, link_parents-Placed}

length-nils : (n : ℕ) → length (nils n) ≡ n
length-nils zero = refl
length-nils (suc n) = ap suc (length-nils n)

nils_none : (n i : ℕ) (a : ℕ) → get_elem? (nils n) i ≢ some (some a)
nils_none zero i a e = cc
nils_none (suc n) zero a e = cc
nils_none (suc n) (suc i) a e = nils_none n i a e

-- What the resized slice holds.
abbrev fitted : ℕ → List (Option ℕ) → List (Option ℕ)
fitted n l = take n l ++ nils (n - length l)

length-fitted : (n : ℕ) (l : List (Option ℕ)) → length (fitted n l) ≡ n
length-fitted n l = omega (
  arith,
  length-append (take n l) (nils (n - length l)),
  length-take n l,
  length-nils (n - length l),
)

resized-fitted : (n : ℕ) (bi : BlockIndex) → (resized n bi).main_chain ≡ fitted n bi.main_chain
unfolding resized
resized-fitted n bi = elim (Bool-cases (ltb bi.capacity n)) [ inl q ↦ rw q | inr q ↦ rw q ]

-- The nodes in the resized slice are the old ones.
fitted_old :
    (n : ℕ) (l : List (Option ℕ)) (i a : ℕ)
    → get_elem? (fitted n l) i ≡ some (some a)
    → (i < n) × (get_elem? l i ≡ some (some a))
fitted_old n l i a e = ground (
  arith,
  get_elem?-append (take n l) (nils (n - length l)) i,
  get_elem?-take n l i,
  length-take n l,
  nils_none (n - length l) (i - length (take n l)) a,
)

fitted_new :
    (n : ℕ) (l : List (Option ℕ)) (i a : ℕ)
    → i < n
    → get_elem? l i ≡ some (some a)
    → get_elem? (fitted n l) i ≡ some (some a)
fitted_new n l i a h e = ground (
  arith,
  get_elem?-append (take n l) (nils (n - length l)) i,
  get_elem?-take n l i,
  length-take n l,
  get_elem?-bound l i (some a) e,
)

module _ (nodes : ℕ → BlockNode) where
  -- A node and its parents.
  pub data Ancestor : ℕ → ℕ → Type 0 where
    self : (a : ℕ) → Ancestor a a
    beyond : (a b c : ℕ) → (nodes c).parent ≡ some b → Ancestor a b → Ancestor a c

  module _
      (tree : (a b : ℕ) → (nodes a).parent ≡ some b → (nodes a).height ≡ suc (nodes b).height) where
    fitted-Linked :
        (n : ℕ) (l : List (Option ℕ)) (i : ℕ)
        → Linked nodes tree l i
        → Linked nodes tree (fitted n l) i
    fitted-Linked n l i v = record {
      node_height = λ a e. v.node_height a (fitted_old n l i a e).1;
      parent_at = λ a b e p.
          let (small, old) = fitted_old n l i a e in
          fitted_new n l (nodes b).height b (omega (arith, small, tree a b p, v.node_height a old))
            (v.parent_at a b old p);
    }

    -- Behind the end of a chain there is no node.
    beyond_end :
        (n : ℕ) (l : List (Option ℕ)) (i : ℕ)
        → length l ≡ n
        → (i < n → Linked nodes tree l i)
        → Linked nodes tree l i
    beyond_end n l i e v = record {
      node_height = λ a q. (v (omega (arith, e, get_elem?-bound l i (some a) q))).node_height a q;
      parent_at =
          λ a b q p. (v (omega (arith, e, get_elem?-bound l i (some a) q))).parent_at a b q p;
    }

    parents_at :
        (l : List (Option ℕ)) (a c : ℕ)
        → ((i : ℕ) → Linked nodes tree l i)
        → Ancestor a c
        → get_elem? l (nodes c).height ≡ some (some c)
        → get_elem? l (nodes a).height ≡ some (some a)
    parents_at l a c v (self _) e = e
    parents_at l a c v (beyond _ b _ p h) e =
        parents_at l a b v h ((v (nodes c).height).parent_at c b e p)

    -- In a tree where a node is one higher than its parent, on a main chain whose nodes stand at their
    -- heights behind their parents, SetMainChain of a node ends without a panic. It leaves such
    -- a chain again, which ends with the node and has every ancestor of it at its height.
    pub set_main_chain-Linked :
        (node : ℕ) (bi : BlockIndex)
        → (nodes node).height + 1 < 2 ^ 64
        → ((i : ℕ) → Linked nodes tree bi.main_chain i)
        → (bi' : BlockIndex) × (set_main_chain nodes node bi ≡ some bi')
          × (length bi'.main_chain ≡ (nodes node).height + 1)
          × ((i : ℕ) → Linked nodes tree bi'.main_chain i)
          × ((a : ℕ) → Ancestor a node → get_elem? bi'.main_chain (nodes a).height ≡ some (some a))
    unfolding set_main_chain
    set_main_chain-Linked node bi small v =
        let n = (nodes node).height + 1 in
        let modulo : n % 2 ^ 64 ≡ n = omega (arith, small) in
        let sized = resized (n % 2 ^ 64) bi in
        let chain : sized.main_chain ≡ fitted n bi.main_chain =
          resized-fitted (n % 2 ^ 64) bi ∙ ap (λ m. fitted m bi.main_chain) modulo in
        let (after, r, w) =
          link_parents-Placed nodes tree n node (fitted n bi.main_chain) (omega arith)
            (omega (arith, length-fitted n bi.main_chain))
            (λ i h. fitted-Linked n bi.main_chain i (v i)) in
        let links : (i : ℕ) → Linked nodes tree after i = λ i.
          beyond_end n after i (w.size ∙ length-fitted n bi.main_chain)
            (λ h. w.linked i (omega arith)) in
        (
          record sized { main_chain = after },
          ap (λ l. with_chain nodes (link_parents nodes n (some node) l) sized) chain
              ∙ ap (λ o. with_chain nodes o sized) r,
          w.size ∙ length-fitted n bi.main_chain,
          links,
          λ a h. parents_at after a node links h w.placed,
        )
