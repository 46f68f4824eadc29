-- ===== src/P2p/PeerSet/Swapping.antt =====
-- Remove of a peer that is not the last: the last one takes its place.
use btm_stats.Base.{
  if_decided, if_decided-yes, if_decided-no, ℕ, ◌-◌, ◌<◌, ◌≡◌, ◌≢◌, sym, ap, ◌∙◌, true, false,
  Option, none, some, length, get_elem?, set, ltb, ◌==◌, arith, get_elem?-set, get_elem?-take,
  get_elem?-bound, length-set, length-take, Bool-cases, inl, inr, ==_iff, lt→ltb,
}
use btm_stats.P2p.PeerSet.{PeerSetItem, PeerSet, assign, get, peer_of, removed, moved, placed}
use btm_stats.P2p.PeerSet.Laws.{item, IsValid, assign_at, assign_other}
use btm_stats.P2p.PeerSet.Others.{shorter, in_range, other_index, other_key}

module _ {Key Peer : Type 0} (same : Discrete Key) (key : Peer → Key) (ps : PeerSet same key)
    (v : IsValid same key ps) (p : Peer) (x : PeerSetItem same key)
    (here : ps.lookup (key p) ≡ some x) where
  -- The last peer moves to the place of the removed one.
  module _ (l : Peer) (tail : get_elem? ps.list (length ps.list - 1) ≡ some l)
      (inner : x.index ≢ length ps.list - 1) where
    -- the table with the new item of the last peer
    abbrev middle : Key → Option (PeerSetItem same key)
    middle = assign same key (key l) (some (item same key l x.index)) ps.lookup

    abbrev pub swapped : PeerSet same key
    swapped = record {
      lookup = assign same key (key p) none middle;
      list = set (shorter same key ps) x.index l;
    }

    tail_item : ps.lookup (key l) ≡ some (item same key l (length ps.list - 1))
    tail_item = v.known (length ps.list - 1) l tail

    tail_key : key p ≢ key l
    tail_key = other_key same key ps v p x here (length ps.list - 1) l (λ e. inner (sym e)) tail

    -- A third peer stays where it is.
    stays :
        (i : ℕ)
        → i ≢ x.index
        → i < length ps.list - 1
        → get_elem? swapped.list i ≡ get_elem? ps.list i
    stays i n small = ground (
      arith,
      get_elem?-set (shorter same key ps) x.index l i,
      length-take (length ps.list - 1) ps.list,
      get_elem?-take (length ps.list - 1) ps.list i,
      in_range same key ps v p x here,
      inner,
    )

    takes_place : get_elem? swapped.list x.index ≡ some l
    takes_place = ground (
      arith,
      get_elem?-set (shorter same key ps) x.index l x.index,
      length-take (length ps.list - 1) ps.list,
      in_range same key ps v p x here,
      inner,
    )

    swapped-listed :
        (k : Key) (y : PeerSetItem same key)
        → swapped.lookup k ≡ some y
        → (get_elem? swapped.list y.index ≡ some y.peer) × (key y.peer ≡ k)
    swapped-listed k y e = elim (same (key p) k) [
      | yes q ↦ absurd (cc (assign_at same key (key p) k none middle q, e))
      | no n ↦ elim (same (key l) k) [
        | yes q ↦
            let found : some (item same key l x.index) ≡ some y =
              sym (assign_at same key (key l) k (some (item same key l x.index)) ps.lookup q)
              ∙ sym (assign_other same key (key p) k none middle n)
              ∙ e in
            let at : x.index ≡ y.index = cc found in
            let peer : l ≡ y.peer = cc found in
            (
              sym (ap (get_elem? swapped.list) at) ∙ takes_place ∙ ap some peer,
              ap key (sym peer) ∙ q,
            )
        | no m ↦
            let old =
              sym (assign_other same key (key l) k (some (item same key l x.index)) ps.lookup m)
              ∙ sym (assign_other same key (key p) k none middle n)
              ∙ e in
            let (a, b) = v.listed k y old in
            let third : y.index ≢ length ps.list - 1 = λ z.
              let peers : some l ≡ some y.peer = sym tail ∙ ap (get_elem? ps.list) (sym z) ∙ a in
              m (ap key (cc peers) ∙ b) in
            (
              stays y.index (other_index same key ps v p x here k y n old)
                    (omega (arith, third, get_elem?-bound ps.list y.index y.peer a))
                  ∙ a,
              b,
            )
      ]
    ]

    swapped-known :
        (i : ℕ) (q : Peer)
        → get_elem? swapped.list i ≡ some q
        → swapped.lookup (key q) ≡ some (item same key q i)
    swapped-known i q e = elim (Bool-cases (i == x.index)) [
      | inl at ↦
          let j : i ≡ x.index = (==_iff _ _).0 at in
          let peers : some q ≡ some l = sym e ∙ ap (get_elem? swapped.list) j ∙ takes_place in
          let peer : q ≡ l = cc peers in
          assign_other same key (key p) (key q) none middle (λ z. tail_key (z ∙ ap key peer))
          ∙ assign_at same key (key l) (key q) (some (item same key l x.index)) ps.lookup
              (ap key (sym peer))
          ∙ (λ t. some (item same key (sym peer t) (sym j t)))
      | inr out ↦
          let n : i ≢ x.index = ground arith in
          let small : i < length ps.list - 1 = omega (
            arith,
            get_elem?-bound swapped.list i q e,
            length-set (shorter same key ps) x.index l,
            length-take (length ps.list - 1) ps.list,
          ) in
          let at = sym (stays i n small) ∙ e in
          let last_item : key l ≢ key q = λ z.
            let items : some (item same key l (length ps.list - 1)) ≡ some (item same key q i) =
              sym tail_item ∙ ap ps.lookup z ∙ v.known i q at in
            let index : length ps.list - 1 ≡ i = cc items in omega (arith, small, index) in
          assign_other same key (key p) (key q) none middle
            (other_key same key ps v p x here i q n at)
          ∙ assign_other same key (key l) (key q) (some (item same key l x.index)) ps.lookup
              last_item
          ∙ v.known i q at
    ]

    pub swapped-IsValid : IsValid same key swapped
    swapped-IsValid = record { listed = swapped-listed; known = swapped-known }

    pub swapped-get :
        (k : Key) → get same key k swapped ≡ if_decided (same (key p) k) none (get same key k ps)
    unfolding get
    swapped-get k = elim (same (key p) k) [
      | yes q ↦
          ap (peer_of same key) (assign_at same key (key p) k none middle q)
          ∙ sym (if_decided-yes (same (key p) k) none _ q)
      | no n ↦ elim (same (key l) k) [
        | yes q ↦
            ap (peer_of same key) (
              assign_other same key (key p) k none middle n
              ∙ assign_at same key (key l) k (some (item same key l x.index)) ps.lookup q)
            ∙ ap (peer_of same key) (sym tail_item ∙ ap ps.lookup q)
            ∙ sym (if_decided-no (same (key p) k) none _ n)
        | no m ↦
            ap (peer_of same key) (
              assign_other same key (key p) k none middle n
              ∙ assign_other same key (key l) k (some (item same key l x.index)) ps.lookup m)
            ∙ sym (if_decided-no (same (key p) k) none _ n)
      ]
    ]

    pub removed-swapped : removed same key (some x) p ps ≡ some swapped
    removed-swapped =
        let some_left : (length ps.list == 0) ≡ false =
          ground (arith, in_range same key ps v p x here) in
        let other : (x.index == length ps.list - 1) ≡ false = ground arith in
        let inside : ltb x.index (length (shorter same key ps)) ≡ true = lt→ltb _ _ (
          omega (
            arith,
            length-take (length ps.list - 1) ps.list,
            in_range same key ps v p x here,
            inner,
          )) in
        let put : placed same key p x.index (shorter same key ps) l
              (some (item same key l (length ps.list - 1))) ps
            ≡ some swapped =
          rw inside in
        rw (some_left, other)
          (ap (λ o. moved same key p x.index (shorter same key ps) o ps) tail
            ∙ ap (λ o. placed same key p x.index (shorter same key ps) l o ps) tail_item
            ∙ put)
