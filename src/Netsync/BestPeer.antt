-- ===== src/Netsync/BestPeer.antt =====
-- BestPeer of netsync/peer.go, and its client IsCaughtUp, over the registered peers in the order in which the map is ranged over.
use btm_stats.Base.{
  ℕ, ◌≤◌, ◌≡◌, refl, sym, ap, subst, Bool, true, false, Option, none, some, List, [], ◌∷◌, ltb,
  if◌then◌else◌, All, arith, Bool-cases, ◌⊎◌, inl, inr, ltb→lt, ltb→le,
}

-- the fields of a peer that BestPeer reads; a nil swPeer is `none`
pub record NetPeer (SwPeer : Type 0) : Type 0 where
  pub height : ℕ
  pub sw_peer : Option SwPeer

module _ {SwPeer : Type 0} where
  -- one round of the loop
  abbrev better : Option SwPeer × ℕ → NetPeer SwPeer → Option SwPeer × ℕ
  better (none, best_height) p = (p.sw_peer, p.height)
  better (some best, best_height) p =
      if ltb best_height p.height then (p.sw_peer, p.height) else (some best, best_height)

  abbrev best_from : Option SwPeer × ℕ → List (NetPeer SwPeer) → Option SwPeer × ℕ
  best_from best [] = best
  best_from best (p ∷ peers) = best_from (better best p) peers

  -- BestPeer
  unfoldable best_peer : List (NetPeer SwPeer) → Option SwPeer × ℕ
  best_peer peers = best_from (none, 0) peers

  -- IsCaughtUp of netsync/block_keeper.go, with the height of the chain's best block
  unfoldable pub is_caught_up : ℕ → List (NetPeer SwPeer) → Bool
  unfolding best_peer
  is_caught_up best_block_height peers = ltb best_block_height (best_peer peers).1

  -- A connected peer of the given height.
  pub data IsOf (result : Option SwPeer × ℕ) : List (NetPeer SwPeer) → Type 0 where
    head :
        (p : NetPeer SwPeer) (peers : List (NetPeer SwPeer)) (q : SwPeer)
        → p.sw_peer ≡ some q
        → result ≡ (some q, p.height)
        → IsOf result (p ∷ peers)
    tail :
        (p : NetPeer SwPeer) (peers : List (NetPeer SwPeer))
        → IsOf result peers
        → IsOf result (p ∷ peers)

  abbrev Connected : NetPeer SwPeer → Type 0
  Connected p = (q : SwPeer) × (p.sw_peer ≡ some q)

  takes :
      (b : SwPeer) (h : ℕ) (p : NetPeer SwPeer) (q : SwPeer)
      → p.sw_peer ≡ some q
      → ltb h p.height ≡ true
      → better (some b, h) p ≡ (some q, p.height)
  takes b h p q e more = rw more (ap (λ o. (o, p.height)) e)

  keeps :
      (b : SwPeer) (h : ℕ) (p : NetPeer SwPeer)
      → ltb h p.height ≡ false
      → better (some b, h) p ≡ (some b, h)
  keeps b h p less = rw less

  -- What a state of the loop leads to.
  abbrev Exceeds : ℕ → Option SwPeer × ℕ → List (NetPeer SwPeer) → Type 0
  Exceeds h st peers =
      (h ≤ (best_from st peers).1) × All (λ x. x.height ≤ (best_from st peers).1) peers

  best_from-Exceeds :
      (b : SwPeer) (h : ℕ) (peers : List (NetPeer SwPeer))
      → All Connected peers
      → Exceeds h (some b, h) peers
  best_from-Exceeds b h [] c = (omega arith, tt)
  best_from-Exceeds b h (p ∷ peers) ((q, e), cs) = elim (Bool-cases (ltb h p.height)) [
    | inl more ↦
        let (lo, all) = best_from-Exceeds q p.height peers cs in
        subst
          (λ st.
            (h ≤ (best_from st peers).1) × All (λ x. x.height ≤ (best_from st peers).1) (p ∷ peers))
          (sym (takes b h p q e more)) (omega (arith, lo, ltb→lt h p.height more), (lo, all))
    | inr less ↦
        let (lo, all) = best_from-Exceeds b h peers cs in
        subst
          (λ st.
            (h ≤ (best_from st peers).1) × All (λ x. x.height ≤ (best_from st peers).1) (p ∷ peers))
          (sym (keeps b h p less)) (lo, (omega (arith, lo, ltb→le h p.height less), all))
  ]

  best_from-IsOf :
      (b : SwPeer) (h : ℕ) (peers : List (NetPeer SwPeer))
      → All Connected peers
      → (best_from (some b, h) peers ≡ (some b, h)) ⊎ IsOf (best_from (some b, h) peers) peers
  best_from-IsOf b h [] c = inl refl
  best_from-IsOf b h (p ∷ peers) ((q, e), cs) = elim (Bool-cases (ltb h p.height)) [
    | inl more ↦
        subst (λ st. (best_from st peers ≡ (some b, h)) ⊎ IsOf (best_from st peers) (p ∷ peers))
          (sym (takes b h p q e more))
          (inr (elim (best_from-IsOf q p.height peers cs) [
            | inl same ↦ head p peers q e same
            | inr other ↦ tail p peers other
          ]))
    | inr less ↦
        subst (λ st. (best_from st peers ≡ (some b, h)) ⊎ IsOf (best_from st peers) (p ∷ peers))
          (sym (keeps b h p less))
          (elim (best_from-IsOf b h peers cs) [
            | inl same ↦ inl same
            | inr other ↦ inr (tail p peers other)
          ])
  ]

  -- Where some peer is registered and all are connected, BestPeer gives a registered peer with its
  -- height, which no registered peer exceeds.
  best_peer-IsOf :
      (p : NetPeer SwPeer) (peers : List (NetPeer SwPeer))
      → All Connected (p ∷ peers)
      → IsOf (best_peer (p ∷ peers)) (p ∷ peers)
        × All (λ x. x.height ≤ (best_peer (p ∷ peers)).1) (p ∷ peers)
  unfolding best_peer
  best_peer-IsOf p peers ((q, e), cs) =
      subst
        (λ st.
          IsOf (best_from st peers) (p ∷ peers)
          × All (λ x. x.height ≤ (best_from st peers).1) (p ∷ peers))
        (ap (λ o. (o, p.height)) (sym e))
        (
          elim (best_from-IsOf q p.height peers cs) [
            | inl same ↦ head p peers q e same
            | inr other ↦ tail p peers other
          ],
          best_from-Exceeds q p.height peers cs,
        )
