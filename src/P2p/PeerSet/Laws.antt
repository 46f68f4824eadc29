-- ===== src/P2p/PeerSet/Laws.antt =====
-- The table and the list of a PeerSet agree.
use btm_stats.Base.{
  if_decided-yes, if_decided-no, ℕ, ◌≡◌, ◌≢◌, sym, ap, ◌∙◌, Option, none, some, [], ◌∷◌, ◌++◌,
  length, get_elem?, ◌==◌, arith, get_elem?-append_end, get_elem?-bound, Bool-cases, inl, inr,
  ==_iff,
}
use btm_stats.P2p.PeerSet.{PeerSetItem, PeerSet, assign, new_peer_set}

module _ {Key Peer : Type 0} (same : Discrete Key) (key : Peer → Key) where
  abbrev pub item : Peer → ℕ → PeerSetItem same key
  item p i = record { peer = p; index = i }

  -- An item says where its peer stands in the list, and every peer of the list has its item.
  pub record IsValid (ps : PeerSet same key) : Type 0 where
    pub listed :
        (k : Key) (x : PeerSetItem same key)
        → ps.lookup k ≡ some x
        → (get_elem? ps.list x.index ≡ some x.peer) × (key x.peer ≡ k)
    pub known :
        (i : ℕ) (p : Peer) → get_elem? ps.list i ≡ some p → ps.lookup (key p) ≡ some (item p i)

  pub new_peer_set-IsValid : IsValid (new_peer_set same key)
  new_peer_set-IsValid = record { listed = λ k x e. absurd (cc); known = λ i p e. absurd (cc) }

  -- Reading a map after an assignment.
  pub assign_at :
      (k x : Key) (v : Option (PeerSetItem same key)) (f : Key → Option (PeerSetItem same key))
      → k ≡ x
      → assign same key k v f x ≡ v
  assign_at k x v f e = if_decided-yes (same k x) v (f x) e

  pub assign_other :
      (k x : Key) (v : Option (PeerSetItem same key)) (f : Key → Option (PeerSetItem same key))
      → k ≢ x
      → assign same key k v f x ≡ f x
  assign_other k x v f ne = if_decided-no (same k x) v (f x) ne

  module _ (ps : PeerSet same key) (v : IsValid ps) (p : Peer)
      (fresh : ps.lookup (key p) ≡ none) where
    -- Add of a key that is not set.
    abbrev pub grown : PeerSet same key
    grown = record {
      lookup = assign same key (key p) (some (item p (length ps.list))) ps.lookup;
      list = ps.list ++ (p ∷ []);
    }

    pub grown-IsValid : IsValid grown
    grown-IsValid = record { listed = listed; known = known }
      where
        listed :
            (k : Key) (x : PeerSetItem same key)
            → grown.lookup k ≡ some x
            → (get_elem? grown.list x.index ≡ some x.peer) × (key x.peer ≡ k)
        listed k x e = elim (same (key p) k) [
          | yes q ↦
              let same_item : some (item p (length ps.list)) ≡ some x =
                sym (assign_at (key p) k _ ps.lookup q) ∙ e in
              let i : length ps.list ≡ x.index = cc same_item in
              let peer : p ≡ x.peer = cc same_item in
              (
                ground (arith, get_elem?-append_end ps.list p x.index, i, peer),
                ap key (sym peer) ∙ q,
              )
          | no n ↦
              let (a, b) = v.listed k x (sym (assign_other (key p) k _ ps.lookup n) ∙ e) in
              (
                ground (
                  arith,
                  get_elem?-append_end ps.list p x.index,
                  a,
                  get_elem?-bound ps.list x.index x.peer a,
                ),
                b,
              )
        ]

        known :
            (i : ℕ) (q : Peer)
            → get_elem? grown.list i ≡ some q
            → grown.lookup (key q) ≡ some (item q i)
        known i q e = elim (Bool-cases (i == length ps.list)) [
          | inl end ↦
              let j : i ≡ length ps.list = (==_iff _ _).0 end in
              let peer : p ≡ q = ground (arith, get_elem?-append_end ps.list p i) in
              assign_at (key p) (key q) _ ps.lookup (ap key peer)
              ∙ (λ t. some (item (peer t) (sym j t)))
          | inr inside ↦
              let at : get_elem? ps.list i ≡ some q =
                ground (arith, get_elem?-append_end ps.list p i) in
              let old = v.known i q at in
              assign_other (key p) (key q) _ ps.lookup (λ z. cc (fresh, old, ap ps.lookup z)) ∙ old
        ]
