-- ===== src/P2p/Switch/Admission.antt =====
-- What the admission of a connection does to the peers.
use btm_stats.Base.{
  ltb, find, if_decided, if_decided-yes, if◌then◌else◌, subst, ◌+◌, refl, sym, ap, ℕ, ◌≡◌, ◌∙◌,
  Bool, true, false, ◌⊎◌, inl, inr, Option, none, some, List, [], ◌∷◌, length, Bool-cases,
}
use btm_stats.Errors.{Error}
use btm_stats.Encoding.Reader.{Result, ok, err}
use btm_stats.P2p.NodeInfo.{NodeInfo}
use btm_stats.P2p.NetAddress.{NetAddress}
use btm_stats.P2p.PeerSet.{PeerSet, get, has, is_set, duplicate_peer, PeerSetItem}
use btm_stats.P2p.PeerSet.Laws.{IsValid}
use btm_stats.P2p.PeerSet.Calls.{add-IsValid}
use btm_stats.P2p.Switch.{
  PeerConn, Peer, World, reactor_add, Switch, say, saved, checked, check_banned_peer,
  addr_book_del_self, without_self, del_banned_peer,
}
use btm_stats.P2p.Switch.Peers.{
  new_to_us, filter_conn_by_peer, after_offer, offer, start_init_peer, listed, started, compared,
  shaken,
}

module _ {Text Reactor Data : Type 0} (same : Discrete Text) (w : World Text Reactor Data) where
  -- Neither the checks nor the reactors change the peers.
  saved_peers : (d : Error ⊎ Data) (sw : Switch same w) → (saved same w d sw).1.peers ≡ sw.peers
  saved_peers (inl e) sw = refl
  saved_peers (inr d) sw = refl

  self_peers :
      (a : Error ⊎ NetAddress) (sw : Switch same w) → (without_self same w a sw).1.peers ≡ sw.peers
  self_peers (inl e) sw = refl
  self_peers (inr addr) sw = refl

  del_self_peers : (sw : Switch same w) → (addr_book_del_self same w sw).1.peers ≡ sw.peers
  unfolding addr_book_del_self
  del_self_peers sw = self_peers (w.parse_address sw.node_info.listen_addr) sw

  del_ban_peers :
      (host : Text) (sw : Switch same w) → (del_banned_peer same w host sw).1.peers ≡ sw.peers
  unfolding del_banned_peer
  del_ban_peers host sw = saved_peers _ _

  checked_peers :
      (now : ℕ) (host : Text) (o : Option ℕ) (sw : Switch same w)
      → (checked same w now host o sw).1.peers ≡ sw.peers
  checked_peers now host none sw = refl
  checked_peers now host (some ban_end) sw = elim (Bool-cases (ltb now ban_end)) [
    | inl e ↦ rw e refl
    | inr e ↦ rw e (del_ban_peers host sw)
  ]

  pub check_peers :
      (now : ℕ) (host : Text) (sw : Switch same w)
      → (check_banned_peer same w now host sw).1.peers ≡ sw.peers
  unfolding check_banned_peer
  check_peers now host sw = checked_peers now host (find same host sw.banned_peer) sw

  -- A filter keeps the peers, and lets a peer through only where its key is not set.
  abbrev Filters : Peer Text → PeerSet same Peer.key → Option Error × Switch same w → Type 0
  Filters peer ps r = (r.1.peers ≡ ps) × (r.0 ≡ none → ps.lookup peer.key ≡ none)

  not_set : (o : Option (PeerSetItem same Peer.key)) → is_set same Peer.key o ≡ false → o ≡ none
  not_set none e = refl
  not_set (some item) e = absurd (cc)

  either_way :
      {A B : Type 0} (P : B → Type 0) (d : Dec A) (x y : B) → P x → P y → P (if_decided d x y)
  either_way P (yes a) x y p q = p
  either_way P (no n) x y p q = q

  known-Filters :
      (peer : Peer Text) (ps : PeerSet same Peer.key) (sw : Switch same w)
      → sw.peers ≡ ps
      → (known : Bool) → has same Peer.key peer.key sw.peers ≡ known
      → Filters peer ps (if known then (some duplicate_peer, sw) else (none, sw))
  unfolding has
  known-Filters peer ps sw q true e = (q, λ n. absurd (cc n))
  known-Filters peer ps sw q false e = (q, λ n. ap (λ s. s.lookup peer.key) (sym q) ∙ not_set _ e)

  new_to_us-Filters :
      (peer : Peer Text) (ps : PeerSet same Peer.key) (r : Option Error × Switch same w)
      → r.1.peers ≡ ps
      → Filters peer ps (new_to_us same w peer r)
  new_to_us-Filters peer ps (some e, sw) q = (q, λ n. absurd (cc))
  new_to_us-Filters peer ps (none, sw) q =
      either_way (Filters peer ps) (same sw.pub_key (w.remote_pub_key peer.peer_conn.conn)) _ _
        (del_self_peers sw ∙ q, λ n. absurd (cc n)) (known-Filters peer ps sw q _ refl)

  -- The start of a peer keeps the peers.
  offer_peers :
      (peer : Peer Text) (rs : List Reactor) (sw : Switch same w)
      → (offer same w peer rs sw).1.peers ≡ sw.peers
  offer_peers peer [] sw = refl
  offer_peers peer (r ∷ rs) sw =
      after (say same w (reactor_add r peer ∷ []) sw) (w.accept r peer) _ (offer_peers peer rs _)
    where
      after :
          (sw' : Switch same w) (o : Option Error) (rest : Option Error × Switch same w)
          → rest.1.peers ≡ sw'.peers
          → (after_offer same w sw' o rest).1.peers ≡ sw'.peers
      after sw' (some e) rest h = refl
      after sw' none rest h = h

  run_peers :
      (peer : Peer Text) (sw : Switch same w) (running : Bool)
      → (if running then start_init_peer same w peer sw else (none, sw)).1.peers ≡ sw.peers
  unfolding start_init_peer
  run_peers peer sw true = offer_peers peer (w.in_range sw.reactors) _
  run_peers peer sw false = refl

  -- An attempt to add a connection ends with an error and the peers as they were, or with one peer
  -- more, that of the connection, under a key that was not set.
  abbrev pub Refused : PeerSet same Peer.key → Option Error × Switch same w → Type 0
  Refused ps r = (e : Error) × (r.0 ≡ some e) × (r.1.peers ≡ ps)

  abbrev pub Joined : PeerConn → PeerSet same Peer.key → Option Error × Switch same w → Type 0
  Joined pc ps r =
      (p : Peer Text) × (p.peer_conn ≡ pc)
      × (r.0 ≡ none)
      × IsValid same Peer.key r.1.peers
      × (length r.1.peers.list ≡ length ps.list + 1)
      × (ps.lookup p.key ≡ none)
      × (get same Peer.key p.key r.1.peers ≡ some p)

  module _ (ps : PeerSet same Peer.key) (v : IsValid same Peer.key ps) where
    listed_outcome :
        (peer : Peer Text) (r : Option Error × Switch same w)
        → r.1.peers ≡ ps
        → ps.lookup peer.key ≡ none
        → Refused ps (listed same w peer r) ⊎ Joined peer.peer_conn ps (listed same w peer r)
    listed_outcome peer (some e, sw) q fresh = inl (e, refl, q)
    listed_outcome peer (none, sw) q fresh =
        let (no_error, valid, longer, at) =
          add-IsValid same Peer.key sw.peers peer (subst (IsValid same Peer.key) (sym q) v)
            (ap (λ s. s.lookup peer.key) q ∙ fresh) in
        inr (
          peer,
          refl,
          no_error,
          valid,
          longer ∙ ap (λ s. length s.list + 1) q,
          fresh,
          at peer.key ∙ if_decided-yes (same peer.key peer.key) _ _ refl,
        )

    started_outcome :
        (peer : Peer Text) (r : Option Error × Switch same w)
        → Filters peer ps r
        → Refused ps (started same w peer r) ⊎ Joined peer.peer_conn ps (started same w peer r)
    started_outcome peer (some e, sw) (q, f) = inl (e, refl, q)
    started_outcome peer (none, sw) (q, f) =
        listed_outcome peer _ (run_peers peer sw sw.running ∙ q) (f refl)

    compared_outcome :
        (now : ℕ) (peer : Peer Text) (o : Option Error) (sw : Switch same w)
        → sw.peers ≡ ps
        → Refused ps (compared same w now peer o sw)
          ⊎ Joined peer.peer_conn ps (compared same w now peer o sw)
    unfolding filter_conn_by_peer
    compared_outcome now peer (some e) sw q = inl (e, refl, q)
    compared_outcome now peer none sw q =
        started_outcome peer _ (new_to_us-Filters peer ps _ (check_peers now _ sw ∙ q))

    pub shaken_outcome :
        (now : ℕ) (pc : PeerConn) (h : Result (NodeInfo × Text)) (sw : Switch same w)
        → sw.peers ≡ ps
        → Refused ps (shaken same w now pc h sw) ⊎ Joined pc ps (shaken same w now pc h sw)
    shaken_outcome now pc (err e) sw q = inl (e, refl, q)
    shaken_outcome now pc (ok (info, key)) sw q = compared_outcome now _ _ sw q
