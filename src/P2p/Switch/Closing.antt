-- ===== src/P2p/Switch/Closing.antt =====
-- addPeerWithConnection and DialPeerWithAddress of p2p/switch.go: what becomes of the connection.
use btm_stats.Base.{
  ◌≡◌, refl, ℕ, Bool, false, ◌⊎◌, inl, inr, Option, none, some, List, [], ◌∷◌, ◌++◌,
}
use btm_stats.Errors.{Error, wrap}
use btm_stats.P2p.PeerSet.{PeerSet}
use btm_stats.P2p.PeerSet.Laws.{IsValid}
use btm_stats.P2p.Switch.{PeerConn, Peer, World, Effect, close_conn, Switch}
use btm_stats.P2p.Switch.Peers.{
  add_peer, encrypted, new_peer_conn, closing, admitted, add_peer_with_connection,
}
use btm_stats.P2p.Switch.Admission.{Refused, Joined, shaken_outcome}

abbrev pub with_direction : Bool → ℕ → PeerConn
with_direction outbound conn = record { outbound = outbound; conn = conn }

module _ {Text Reactor Data : Type 0} (same : Discrete Text) (w : World Text Reactor Data) where
  -- Refused, with the close of the connection as the last effect.
  abbrev pub Closed : ℕ → PeerSet same Peer.key → Option Error × Switch same w → Type 0
  Closed conn ps r =
      Refused same w ps r
      × ((l : List (Effect Text Reactor)) × (r.1.log ≡ l ++ (close_conn conn ∷ [])))

  -- The two ends of an attempt to make a peer of a connection.
  abbrev pub Outcome : Bool → ℕ → PeerSet same Peer.key → Option Error × Switch same w → Type 0
  Outcome outbound conn ps r = Closed conn ps r ⊎ Joined same w (with_direction outbound conn) ps r

  closing_outcome :
      (outbound : Bool) (conn : ℕ) (ps : PeerSet same Peer.key) (r : Option Error × Switch same w)
      → Refused same w ps r ⊎ Joined same w (with_direction outbound conn) ps r
      → Outcome outbound conn ps (closing same w conn r)
  closing_outcome outbound conn ps (some e, sw) (inl (e', q, h)) =
      inl ((e, refl, h), (sw.log, refl))
  closing_outcome outbound conn ps (none, sw) (inl (e', q, h)) = absurd (cc q)
  closing_outcome outbound conn ps (some e, sw) (inr (p, c, q, v, l, f, g)) = absurd (cc q)
  closing_outcome outbound conn ps (none, sw) (inr j) = inr j

  encrypted_outcome :
      (now conn : ℕ) (outbound : Bool) (sw : Switch same w)
      → IsValid same Peer.key sw.peers
      → (o : Option Error)
      → Outcome outbound conn sw.peers
          (admitted same w now conn (encrypted same w conn outbound o) sw)
  unfolding add_peer
  encrypted_outcome now conn outbound sw v (some e) = inl ((e, refl, refl), (sw.log, refl))
  encrypted_outcome now conn outbound sw v none = closing_outcome outbound conn sw.peers _ (
      shaken_outcome same w sw.peers v now (with_direction outbound conn) (w.handshake conn) sw
        refl)

  pub admitted_outcome :
      (now conn : ℕ) (outbound : Bool) (sw : Switch same w)
      → IsValid same Peer.key sw.peers
      → Outcome outbound conn sw.peers
          (admitted same w now conn (new_peer_conn same w conn outbound) sw)
  unfolding new_peer_conn
  admitted_outcome now conn outbound sw v =
      encrypted_outcome now conn outbound sw v (wrap (w.secret conn) "Error creating peer")

  -- An inbound connection: either there is an error, the peers are as they were and the last effect
  -- is that the connection is closed; or there is none, and the peers, again valid, are one more, the
  -- inbound peer of the connection, under a key that was not set.
  pub add_peer_with_connection_outcome :
      (now conn : ℕ) (sw : Switch same w)
      → IsValid same Peer.key sw.peers
      → Outcome false conn sw.peers (add_peer_with_connection same w now conn sw)
  unfolding add_peer_with_connection
  add_peer_with_connection_outcome now conn sw v = admitted_outcome now conn false sw v
