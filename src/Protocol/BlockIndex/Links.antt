-- ===== src/Protocol/BlockIndex/Links.antt =====
-- The loop of SetMainChain places a node and its ancestors.
use btm_stats.Base.{
  ℕ, zero, suc, ◌≤◌, ◌<◌, ◌≡◌, ◌≢◌, refl, sym, ap, ◌∙◌, subst, Option, none, some, List, length,
  get_elem?, set, ◌==◌, arith, get_elem?-set, get_elem?-some, length-set, Bool-cases, Option-cases,
  inl, inr, ==_iff,
}
use btm_stats.Protocol.BlockIndex.{BlockNode, round, link_parents}

module _ (nodes : ℕ → BlockNode)
    (tree : (a b : ℕ) → (nodes a).parent ≡ some b → (nodes a).height ≡ suc (nodes b).height) where
  -- The node at an index has it as its height, and its parent stands at the parent's height.
  pub record Linked (chain : List (Option ℕ)) (i : ℕ) : Type 0 where
    pub node_height : (a : ℕ) → get_elem? chain i ≡ some (some a) → (nodes a).height ≡ i
    pub parent_at :
        (a b : ℕ)
        → get_elem? chain i ≡ some (some a)
        → (nodes a).parent ≡ some b
        → get_elem? chain (nodes b).height ≡ some (some b)

  -- What the loop leaves, from a node that is to stand at its height.
  pub record Placed (a : ℕ) (before after : List (Option ℕ)) : Type 0 where
    pub size : length after ≡ length before
    pub above : (i : ℕ) → (nodes a).height < i → get_elem? after i ≡ get_elem? before i
    pub linked : (i : ℕ) → i ≤ (nodes a).height → Linked after i
    pub placed : get_elem? after (nodes a).height ≡ some (some a)

  -- The chain with the node at its height.
  abbrev put : ℕ → List (Option ℕ) → List (Option ℕ)
  put a chain = set chain (nodes a).height (some a)

  module _ (a : ℕ) (chain : List (Option ℕ)) (inside : (nodes a).height < length chain) where
    put_other : (i : ℕ) → i ≢ (nodes a).height → get_elem? (put a chain) i ≡ get_elem? chain i
    put_other i n = ground (arith, get_elem?-set chain (nodes a).height (some a) i)

    put_here : get_elem? (put a chain) (nodes a).height ≡ some (some a)
    put_here = ground (arith, get_elem?-set chain (nodes a).height (some a) (nodes a).height)

    put-Linked : (i : ℕ) → i < (nodes a).height → Linked chain i → Linked (put a chain) i
    put-Linked i h v = record {
      node_height = λ c e. v.node_height c (sym (put_other i (omega arith)) ∙ e);
      parent_at = λ c b e p.
          let old = sym (put_other i (omega arith)) ∙ e in
          put_other (nodes b).height (omega (arith, v.node_height c old, tree c b p))
          ∙ v.parent_at c b old p;
    }

  -- The node has no parent: only its place changes.
  Placed-root :
      (a : ℕ) (chain : List (Option ℕ))
      → (nodes a).height < length chain
      → ((i : ℕ) → i < (nodes a).height → Linked chain i)
      → (nodes a).parent ≡ none
      → Placed a chain (put a chain)
  Placed-root a chain inside below root = record {
    size = length-set chain (nodes a).height (some a);
    above = λ i h. put_other a chain inside i (omega arith);
    linked = linked;
    placed = put_here a chain inside;
  }
    where
      here : Linked (put a chain) (nodes a).height
      here = record {
        node_height = λ c e.
            let same : some (some c) ≡ some (some a) = sym e ∙ put_here a chain inside in
            ap (λ x. (nodes x).height) (cc same);
        parent_at = λ c b e p.
            let same : some (some c) ≡ some (some a) = sym e ∙ put_here a chain inside in
            let is : c ≡ a = cc same in absurd (cc (ap (λ x. (nodes x).parent) is, root, p));
      }

      linked : (i : ℕ) → i ≤ (nodes a).height → Linked (put a chain) i
      linked i h = elim (Bool-cases (i == (nodes a).height)) [
        | inl q ↦ subst (Linked (put a chain)) (sym ((==_iff _ _).0 q)) here
        | inr q ↦ put-Linked a chain inside i (ground arith) (below i (ground arith))
      ]

  -- The node's parent has been placed in the chain with the node.
  Placed-child :
      (a b : ℕ) (chain after : List (Option ℕ))
      → (nodes a).height < length chain
      → (nodes a).parent ≡ some b
      → Placed b (put a chain) after
      → Placed a chain after
  Placed-child a b chain after inside parent v =
      let up = tree a b parent in
      let here = v.above (nodes a).height (omega arith) ∙ put_here a chain inside in
      record {
        size = v.size ∙ length-set chain (nodes a).height (some a);
        above = λ i h. v.above i (omega arith) ∙ put_other a chain inside i (omega arith);
        linked = λ i h. elim (Bool-cases (i == (nodes a).height)) [
          | inl q ↦ subst (Linked after) (sym ((==_iff _ _).0 q)) (at_node here)
          | inr q ↦ v.linked i (ground (arith, up))
        ];
        placed = here;
      }
    where
      at_node : get_elem? after (nodes a).height ≡ some (some a) → Linked after (nodes a).height
      at_node here = record {
        node_height = λ c e.
            let same : some (some c) ≡ some (some a) = sym e ∙ here in
            ap (λ x. (nodes x).height) (cc same);
        parent_at = λ c d e p.
            let same : some (some c) ≡ some (some a) = sym e ∙ here in
            let is : c ≡ a = cc same in
            let parents : some d ≡ some b = sym p ∙ ap (λ x. (nodes x).parent) is ∙ parent in
            let who : d ≡ b = cc parents in
            ap (λ x. get_elem? after (nodes x).height) who
            ∙ v.placed
            ∙ ap (λ x. some (some x)) (sym who);
      }

  -- One round, where the loop goes on well with the node in its place.
  round-Placed :
      (a : ℕ) (chain : List (Option ℕ)) (next : List (Option ℕ) → Option (List (Option ℕ)))
      → (nodes a).height < length chain
      → ((i : ℕ) → i ≤ (nodes a).height → Linked chain i)
      → (after : List (Option ℕ)) × (next (put a chain) ≡ some after) × Placed a chain after
      → (after : List (Option ℕ)) × (round nodes next a (get_elem? chain (nodes a).height) chain
          ≡ some after)
        × Placed a chain after
  round-Placed a chain next inside below more =
      let (o, e) = get_elem?-some chain (nodes a).height inside in rw e (found o e)
    where
      found :
          (o : Option ℕ)
          → get_elem? chain (nodes a).height ≡ some o
          → (after : List (Option ℕ)) × (round nodes next a (some o) chain ≡ some after)
            × Placed a chain after
      found none e = more
      found (some c) e = elim (Bool-cases (c == a)) [
        | inl q ↦ (
          chain,
          rw q,
          record {
            size = refl;
            above = λ i h. refl;
            linked = below;
            placed = e ∙ ap (λ x. some (some x)) ((==_iff _ _).0 q);
          },
        )
        | inr q ↦ rw q more
      ]

  -- With fuel for the height the loop ends, does not panic, and places the node.
  pub link_parents-Placed :
      (fuel a : ℕ) (chain : List (Option ℕ))
      → (nodes a).height < fuel
      → (nodes a).height < length chain
      → ((i : ℕ) → i ≤ (nodes a).height → Linked chain i)
      → (after : List (Option ℕ)) × (link_parents nodes fuel (some a) chain ≡ some after)
        × Placed a chain after
  unfolding link_parents
  link_parents-Placed zero a chain h inside below = absurd (omega arith)
  link_parents-Placed (suc fuel) a chain h inside below =
      round-Placed a chain (link_parents nodes fuel (nodes a).parent) inside below
        (elim (Option-cases (nodes a).parent) [
          | inl e ↦ (
            put a chain,
            ap (λ p. link_parents nodes fuel p (put a chain)) e,
            Placed-root a chain inside (λ i q. below i (omega arith)) e,
          )
          | inr (b, e) ↦
              let up = tree a b e in
              let (after, r, v) =
                link_parents-Placed fuel b (put a chain) (omega (arith, up))
                  (omega (arith, up, inside, length-set chain (nodes a).height (some a)))
                  (λ i q.
                    put-Linked a chain inside i (omega (arith, up))
                      (below i (omega (arith, up)))) in
              (
                after,
                ap (λ p. link_parents nodes fuel p (put a chain)) e ∙ r,
                Placed-child a b chain after inside e v,
              )
        ])
