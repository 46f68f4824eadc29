-- ===== src/P2p/Switch/Limit.antt =====
-- listenerRoutine of p2p/switch.go: the number of the peers.
use btm_stats.Base.{
  ◌*◌, ◌≤◌, ◌<◌, sym, ap, subst, ℕ, inl, inr, List, [], ◌∷◌, length, leb, Bool-cases, arith,
}
use btm_stats.P2p.PeerSet.Laws.{IsValid}
use btm_stats.P2p.Switch.{Peer, World, Switch}
use btm_stats.P2p.Switch.Peers.{add_peer_with_connection, take_connection, listener_routine}
use btm_stats.P2p.Switch.Closing.{add_peer_with_connection_outcome}

module _ {Text Reactor Data : Type 0} (same : Discrete Text) (w : World Text Reactor Data)
    (most : ℕ) where
  -- Valid peers, of a bounded number.
  abbrev pub Within : Switch same w → Type 0
  Within sw = IsValid same Peer.key sw.peers × (length sw.peers.list ≤ most)

  admitted-Within :
      (now conn : ℕ) (sw : Switch same w)
      → IsValid same Peer.key sw.peers
      → length sw.peers.list < most
      → Within (add_peer_with_connection same w now conn sw).1
  admitted-Within now conn sw v b = elim (add_peer_with_connection_outcome same w now conn sw v) [
    | inl ((e, q, h), closed) ↦ (
      subst (IsValid same Peer.key) (sym h) v,
      (let len = ap (λ s. length s.list) h in omega (arith, len, b)),
    )
    | inr (p, c, q, v', len, fresh, at) ↦ (v', omega (arith, len, b))
  ]

  module _ (enough : w.max_num_peers * 2 ≤ most) where
    take_connection-Within :
        (c : ℕ × ℕ) (sw : Switch same w) → Within sw → Within (take_connection same w c sw)
    unfolding take_connection
    take_connection-Within (now, conn) sw (v, b) =
        elim (Bool-cases (leb (w.max_num_peers * 2) (length sw.peers.list))) [
          | inl full ↦ rw full (v, b)
          | inr room ↦
              let below : length sw.peers.list < most = ground arith in
              rw room (admitted-Within now conn sw v below)
        ]

    -- Where the peers are valid and at most a number that is not below twice MaxNumPeers, they are
    -- so after the listener has taken any connections.
    pub listener_routine-Within :
        (cs : List (ℕ × ℕ)) (sw : Switch same w)
        → Within sw
        → Within (listener_routine same w cs sw)
    unfolding listener_routine
    listener_routine-Within [] sw h = h
    listener_routine-Within (c ∷ cs) sw h =
        listener_routine-Within cs (take_connection same w c sw) (take_connection-Within c sw h)
