-- ===== src/P2p/PeerSet/Cutting.antt =====
-- Remove of the last peer of a PeerSet.
use btm_stats.Base.{
  if_decided, if_decided-yes, if_decided-no, ℕ, ◌-◌, ◌≡◌, ◌≢◌, sym, ap, ◌∙◌, none, some, length,
  get_elem?, arith, get_elem?-take, get_elem?-bound,
}
use btm_stats.P2p.PeerSet.{PeerSetItem, PeerSet, assign, get, peer_of}
use btm_stats.P2p.PeerSet.Laws.{item, IsValid, assign_at, assign_other}
use btm_stats.P2p.PeerSet.Others.{shorter, other_index, other_key}

module _ {Key Peer : Type 0} (same : Discrete Key) (key : Peer → Key) (ps : PeerSet same key)
    (v : IsValid same key ps) (p : Peer) (x : PeerSetItem same key)
    (here : ps.lookup (key p) ≡ some x) where
  -- The last peer is removed.
  module _ (last : x.index ≡ length ps.list - 1) where
    abbrev pub cut : PeerSet same key
    cut = record { lookup = assign same key (key p) none ps.lookup; list = (shorter same key ps) }

    pub cut-IsValid : IsValid same key cut
    cut-IsValid = record { listed = listed; known = known }
      where
        listed :
            (k : Key) (y : PeerSetItem same key)
            → cut.lookup k ≡ some y
            → (get_elem? cut.list y.index ≡ some y.peer) × (key y.peer ≡ k)
        listed k y e = elim (same (key p) k) [
          | yes q ↦ absurd (cc (assign_at same key (key p) k none ps.lookup q, e))
          | no n ↦
              let old = sym (assign_other same key (key p) k none ps.lookup n) ∙ e in
              let (a, b) = v.listed k y old in
              (
                ground (
                  arith,
                  get_elem?-take (length ps.list - 1) ps.list y.index,
                  a,
                  get_elem?-bound ps.list y.index y.peer a,
                  other_index same key ps v p x here k y n old,
                ),
                b,
              )
        ]

        known :
            (i : ℕ) (q : Peer)
            → get_elem? cut.list i ≡ some q
            → cut.lookup (key q) ≡ some (item same key q i)
        known i q e =
            let at : get_elem? ps.list i ≡ some q =
              ground (arith, get_elem?-take (length ps.list - 1) ps.list i) in
            let small : i ≢ x.index =
              ground (arith, get_elem?-take (length ps.list - 1) ps.list i) in
            assign_other same key (key p) (key q) none ps.lookup
              (other_key same key ps v p x here i q small at)
            ∙ v.known i q at

    pub cut-get :
        (k : Key) → get same key k cut ≡ if_decided (same (key p) k) none (get same key k ps)
    unfolding get
    cut-get k = elim (same (key p) k) [
      | yes q ↦
          ap (peer_of same key) (assign_at same key (key p) k none ps.lookup q)
          ∙ sym (if_decided-yes (same (key p) k) none _ q)
      | no n ↦
          ap (peer_of same key) (assign_other same key (key p) k none ps.lookup n)
          ∙ sym (if_decided-no (same (key p) k) none _ n)
    ]
