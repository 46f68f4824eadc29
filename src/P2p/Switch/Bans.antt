-- ===== src/P2p/Switch/Bans.antt =====
-- The bans of p2p/switch.go over time.
use btm_stats.Base.{
  ◌≡◌, ◌+◌, ◌≤◌, ◌<◌, refl, ap, ◌∙◌, ℕ, inl, inr, ◌⊎◌, Option, none, some, List, lt→ltb, le→ltb,
  find, put, delete, find-put_same, delete-put,
}
use btm_stats.Errors.{Error}
use btm_stats.P2p.NetAddress.{NetAddress}
use btm_stats.P2p.NodeInfo.{NodeInfo}
use btm_stats.P2p.Switch.{
  Peer, World, Switch, saved, with_bans, new_switch, add_banned_peer, del_banned_peer,
  check_banned_peer, filter_conn_by_ip, default_ban_duration, connect_banned_peer,
}
use btm_stats.P2p.Switch.Peers.{dial_peer_with_address}

module _ {Text Reactor Data : Type 0} (same : Discrete Text) (w : World Text Reactor Data) where
  saved_bans :
      (d : Error ⊎ Data) (sw : Switch same w) → (saved same w d sw).1.banned_peer ≡ sw.banned_peer
  saved_bans (inl e) sw = refl
  saved_bans (inr d) sw = refl

  module _ (host : Text) (ban_end now : ℕ) (sw : Switch same w)
      (entry : find same host sw.banned_peer ≡ some ban_end) where
    refused_until :
        now < ban_end → check_banned_peer same w now host sw ≡ (some connect_banned_peer, sw)
    unfolding check_banned_peer
    refused_until early = rw (entry, lt→ltb now ban_end early) refl

    passed_from :
        ban_end ≤ now
        → ((check_banned_peer same w now host sw).0 ≡ none)
          × ((check_banned_peer same w now host sw).1.banned_peer ≡ delete same host sw.banned_peer)
    unfolding check_banned_peer del_banned_peer
    passed_from late =
        let rest : List (Text × ℕ) = delete same host sw.banned_peer in
        rw (entry, le→ltb now ban_end late)
          (refl, saved_bans (w.marshal rest) (record sw { banned_peer = rest }))

  module _ (t : ℕ) (peer : Peer Text) (sw : Switch same w) where
    new_bans :
        (add_banned_peer same w t peer sw).1.banned_peer
        ≡ put same (w.host_of peer.node_info.remote_addr) (t + default_ban_duration) sw.banned_peer
    unfolding add_banned_peer
    new_bans =
        let bans : List (Text × ℕ) =
          put same (w.host_of peer.node_info.remote_addr) (t + default_ban_duration)
            sw.banned_peer in
        saved_bans (w.marshal bans) (record sw { banned_peer = bans })

    new_entry :
        find same
          (w.host_of peer.node_info.remote_addr)
          (add_banned_peer same w t peer sw).1.banned_peer
        ≡ some (t + default_ban_duration)
    new_entry = ap (find same _) new_bans ∙ find-put_same same _ _ sw.banned_peer

    -- For the time of the ban, a dial to the host of a peer that was banned gives the error that it is
    -- banned, and changes nothing. From its end on, the check of the bans lets the host through, and
    -- leaves the entries of the other hosts.
    pub dial_banned :
        (now now' : ℕ) (addr : NetAddress)
        → w.ip_text addr.ip ≡ w.host_of peer.node_info.remote_addr
        → (now < t + default_ban_duration
            → dial_peer_with_address same w now now' addr (add_banned_peer same w t peer sw).1
              ≡ (some connect_banned_peer, (add_banned_peer same w t peer sw).1))
          × (t + default_ban_duration ≤ now
              → ((check_banned_peer same w now
                    (w.ip_text addr.ip)
                    (add_banned_peer same w t peer sw).1).0
                  ≡ none)
                × ((check_banned_peer same w now
                      (w.ip_text addr.ip)
                      (add_banned_peer same w t peer sw).1).1.banned_peer
                    ≡ delete same (w.host_of peer.node_info.remote_addr) sw.banned_peer))
    unfolding dial_peer_with_address filter_conn_by_ip
    dial_banned now now' addr q = rw q (
      (λ early.
          rw (refused_until _ _ now (add_banned_peer same w t peer sw).1 new_entry early) refl),
      (λ late.
          let (passed, left) =
            passed_from _ _ now (add_banned_peer same w t peer sw).1 new_entry late in
          (passed, left ∙ ap (delete same _) new_bans ∙ delete-put same _ _ sw.banned_peer)),
    )

  module _ (unmarshal : Data → Option (List (Text × ℕ)))
      (reads : (bans : List (Text × ℕ)) (d : Data)
        → w.marshal bans ≡ inr d
        → unmarshal d ≡ some bans)
      (info : NodeInfo) (pub_key : Text) where
    saved_restart :
        (d : Error ⊎ Data) (sw : Switch same w)
        → ((x : Data) → d ≡ inr x → unmarshal x ≡ some sw.banned_peer)
        → (saved same w d sw).0 ≡ none
        → (sw' : Switch same w) × (new_switch same w unmarshal info pub_key (saved same w d sw).1.db
            ≡ some sw')
          × (sw'.banned_peer ≡ (saved same w d sw).1.banned_peer)
    unfolding new_switch
    saved_restart (inl e) sw h q = absurd (cc q)
    saved_restart (inr x) sw h q = (_, ap (with_bans same w info pub_key (some x)) (h x refl), refl)

    -- Bans outlast the process: a switch that is made from the database after AddBannedPeer gave no
    -- error has the same bans, where reading undoes the writing of them.
    pub new_switch-add_banned_peer :
        (t : ℕ) (peer : Peer Text) (sw : Switch same w)
        → (add_banned_peer same w t peer sw).0 ≡ none
        → (sw' : Switch same w) × (new_switch same w unmarshal info pub_key
              (add_banned_peer same w t peer sw).1.db
            ≡ some sw')
          × (sw'.banned_peer ≡ (add_banned_peer same w t peer sw).1.banned_peer)
    unfolding add_banned_peer
    new_switch-add_banned_peer t peer sw q =
        let bans : List (Text × ℕ) =
          put same (w.host_of peer.node_info.remote_addr) (t + default_ban_duration)
            sw.banned_peer in
        saved_restart (w.marshal bans) (record sw { banned_peer = bans }) (λ x. reads bans x) q
