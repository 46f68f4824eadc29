-- ===== src/P2p/PeerSet/Others.antt =====
-- What a valid PeerSet says of the peers beside one of them.
use btm_stats.Base.{
  ℕ, ◌-◌, ◌<◌, ◌≡◌, ◌≢◌, sym, ap, ◌∙◌, some, List, length, take, get_elem?, get_elem?-bound,
}
use btm_stats.P2p.PeerSet.{PeerSetItem, PeerSet}
use btm_stats.P2p.PeerSet.Laws.{item, IsValid}

-- the list without its last peer
abbrev pub shorter :
    {Key Peer : Type 0} (same : Discrete Key) (key : Peer → Key) → PeerSet same key → List Peer
shorter same key ps = take (length ps.list - 1) ps.list

module _ {Key Peer : Type 0} (same : Discrete Key) (key : Peer → Key) (ps : PeerSet same key)
    (v : IsValid same key ps) (p : Peer) (x : PeerSetItem same key)
    (here : ps.lookup (key p) ≡ some x) where
  at_index : get_elem? ps.list x.index ≡ some x.peer
  at_index = (v.listed (key p) x here).0

  pub in_range : x.index < length ps.list
  in_range = get_elem?-bound ps.list x.index x.peer at_index

  -- Another key has another index.
  pub other_index :
      (k : Key) (y : PeerSetItem same key) → key p ≢ k → ps.lookup k ≡ some y → y.index ≢ x.index
  other_index k y n e q =
      let (a, b) = v.listed k y e in
      let (c, d) = v.listed (key p) x here in
      let peers : some x.peer ≡ some y.peer = sym c ∙ ap (get_elem? ps.list) (sym q) ∙ a in
      n (sym d ∙ ap key (cc peers) ∙ b)

  -- A peer at another index has another key.
  pub other_key : (i : ℕ) (q : Peer) → i ≢ x.index → get_elem? ps.list i ≡ some q → key p ≢ key q
  other_key i q n e z =
      let items : some (item same key q i) ≡ some x =
        sym (v.known i q e) ∙ ap ps.lookup (sym z) ∙ here in
      let index : i ≡ x.index = cc items in n index
