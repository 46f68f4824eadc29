-- ===== src/P2p/Switch/Peers.antt =====
-- p2p/switch.go and p2p/peer.go: how a connection becomes a peer, and how a peer goes.
use btm_stats.Base.{
  ℕ, ◌*◌, Bool, true, false, Option, none, some, List, [], ◌∷◌, map, leb, if◌then◌else◌, if_decided,
  put, delete,
}
use btm_stats.Errors.{Error, wrap}
use btm_stats.Encoding.Reader.{Result, ok, err}
use btm_stats.P2p.NodeInfo.{NodeInfo, compatible_with}
use btm_stats.P2p.NetAddress.{NetAddress}
use btm_stats.P2p.PeerSet.{PeerSet, add, remove, has, size, duplicate_peer}
use btm_stats.P2p.Switch.{
  PeerConn, Peer, World, start_peer, stop_peer, reactor_add, reactor_remove, close_conn, Switch,
  say, connect_banned_peer, connect_self, check_banned_peer, addr_book_del_self, filter_conn_by_ip,
}

module _ {Text Reactor Data : Type 0} (same : Discrete Text) (w : World Text Reactor Data) where
  -- filterConnByPeer
  abbrev pub new_to_us : Peer Text → Option Error × Switch same w → Option Error × Switch same w
  new_to_us peer (some e, sw) = (some connect_banned_peer, sw)
  new_to_us peer (none, sw) =
      if_decided (same sw.pub_key (w.remote_pub_key peer.peer_conn.conn))
        (some connect_self, (addr_book_del_self same w sw).1)
        (if has same Peer.key peer.key sw.peers then (some duplicate_peer, sw) else (none, sw))

  unfoldable pub filter_conn_by_peer : ℕ → Peer Text → Switch same w → Option Error × Switch same w
  filter_conn_by_peer now peer sw =
      new_to_us peer (check_banned_peer same w now (w.host_of peer.node_info.remote_addr) sw)

  -- startInitPeer: the reactors after a failing one are not asked
  abbrev pub after_offer :
      Switch same w → Option Error → Option Error × Switch same w → Option Error × Switch same w
  after_offer sw (some e) rest = (some e, sw)
  after_offer sw none rest = rest

  abbrev pub offer : Peer Text → List Reactor → Switch same w → Option Error × Switch same w
  offer peer [] sw = (none, sw)
  offer peer (reactor ∷ reactors) sw =
      let sw' = say same w (reactor_add reactor peer ∷ []) sw in
      after_offer sw' (w.accept reactor peer) (offer peer reactors sw')

  unfoldable pub start_init_peer : Peer Text → Switch same w → Option Error × Switch same w
  start_init_peer peer sw =
      offer peer (w.in_range sw.reactors) (say same w (start_peer peer ∷ []) sw)

  -- AddPeer, from its end
  abbrev pub listed : Peer Text → Option Error × Switch same w → Option Error × Switch same w
  listed peer (some e, sw) = (some e, sw)
  listed peer (none, sw) =
      let (error, peers) = add same Peer.key peer sw.peers in (error, record sw { peers = peers })

  abbrev pub started : Peer Text → Option Error × Switch same w → Option Error × Switch same w
  started peer (some e, sw) = (some e, sw)
  started peer (none, sw) = listed peer (if sw.running then start_init_peer peer sw else (none, sw))

  abbrev pub compared : ℕ → Peer Text → Option Error → Switch same w → Option Error × Switch same w
  compared now peer (some e) sw = (some e, sw)
  compared now peer none sw = started peer (filter_conn_by_peer now peer sw)

  abbrev pub shaken :
      ℕ → PeerConn → Result (NodeInfo × Text) → Switch same w → Option Error × Switch same w
  shaken now pc (err e) sw = (some e, sw)
  shaken now pc (ok (info, key)) sw =
      compared now (record { peer_conn = pc; node_info = info; key = key })
        (compatible_with sw.node_info info) sw

  unfoldable pub add_peer : ℕ → PeerConn → Switch same w → Option Error × Switch same w
  add_peer now pc sw = shaken now pc (w.handshake pc.conn) sw

  -- newPeerConn with the default configuration: encrypted, and not fuzzed
  abbrev pub encrypted : ℕ → Bool → Option Error → Result PeerConn
  encrypted conn outbound (some e) = err e
  encrypted conn outbound none = ok (record { outbound = outbound; conn = conn })

  unfoldable pub new_peer_conn : ℕ → Bool → Result PeerConn
  new_peer_conn conn outbound = encrypted conn outbound (wrap (w.secret conn) "Error creating peer")

  -- an error closes the connection
  abbrev pub closing : ℕ → Option Error × Switch same w → Option Error × Switch same w
  closing conn (some e, sw) = (some e, say same w (close_conn conn ∷ []) sw)
  closing conn (none, sw) = (none, sw)

  -- newInboundPeerConn and newOutboundPeerConn, then AddPeer
  abbrev pub admitted : ℕ → ℕ → Result PeerConn → Switch same w → Option Error × Switch same w
  admitted now conn (err e) sw = closing conn (some e, sw)
  admitted now conn (ok pc) sw = closing conn (add_peer now pc sw)

  -- addPeerWithConnection
  unfoldable pub add_peer_with_connection : ℕ → ℕ → Switch same w → Option Error × Switch same w
  add_peer_with_connection now conn sw = admitted now conn (new_peer_conn conn false) sw

  -- DialPeerWithAddress; the checks of the bans are at two times
  abbrev pub dialed : ℕ → Result ℕ → Switch same w → Option Error × Switch same w
  dialed now (err e) sw = (wrap (some e) "Error dial peer", sw)
  dialed now (ok conn) sw = admitted now conn (new_peer_conn conn true) sw

  abbrev pub done_dialing : NetAddress → Option Error × Switch same w → Option Error × Switch same w
  done_dialing addr (error, sw) =
      (error, record sw { dialing = delete same (w.ip_text addr.ip) sw.dialing })

  abbrev pub filtered : ℕ → NetAddress → Option Error × Switch same w → Option Error × Switch same w
  filtered now addr (some e, sw) = (some e, sw)
  filtered now addr (none, sw) = done_dialing addr (
      dialed now (w.dial addr)
        (record sw { dialing = put same (w.ip_text addr.ip) addr sw.dialing }))

  unfoldable pub dial_peer_with_address :
      ℕ → ℕ → NetAddress → Switch same w → Option Error × Switch same w
  dial_peer_with_address now now' addr sw =
      filtered now' addr (filter_conn_by_ip same w now (w.ip_text addr.ip) sw)

  -- stopAndRemovePeer, where `none` is a panic
  abbrev pub with_peers : Switch same w → Option (PeerSet same Peer.key) → Option (Switch same w)
  with_peers sw none = none
  with_peers sw (some peers) = some (record sw { peers = peers })

  abbrev pub gone : Peer Text → Option (Switch same w) → Option (Switch same w)
  gone peer none = none
  gone peer (some sw) = some (say same w (stop_peer peer ∷ []) sw)

  unfoldable pub stop_and_remove_peer : Peer Text → Switch same w → Option (Switch same w)
  stop_and_remove_peer peer sw =
      let told =
        say same w (map (λ reactor. reactor_remove reactor peer) (w.in_range sw.reactors)) sw in
      gone peer (with_peers told (remove same Peer.key peer sw.peers))

  -- listenerRoutine, on the connections that come, each with the time of its check of the bans
  unfoldable pub take_connection : ℕ × ℕ → Switch same w → Switch same w
  take_connection (now, conn) sw =
      if leb (w.max_num_peers * 2) (size same Peer.key sw.peers)
      then say same w (close_conn conn ∷ []) sw
      else (add_peer_with_connection now conn sw).1

  unfoldable pub listener_routine : List (ℕ × ℕ) → Switch same w → Switch same w
  listener_routine [] sw = sw
  listener_routine (c ∷ cs) sw = listener_routine cs (take_connection c sw)
