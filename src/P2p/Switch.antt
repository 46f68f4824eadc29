-- ===== src/P2p/Switch.antt =====
-- p2p/switch.go: the switch, its bans, its filters and its reactors. What is outside of the switch
-- (connections, reactors, the address book, the database) is an interface, World, and the calls to it
-- that change something there are kept in a log.
pub mod Peers
pub mod Admission
pub mod Closing
pub mod Limit
pub mod Bans
use btm_stats.Base.{
  ℕ, ◌+◌, Bool, true, false, not, Option, none, some, List, [], ◌∷◌, ◌++◌, map, length, ltb, ◌==◌,
  ◌⊎◌, inl, inr, if◌then◌else◌, if_decided, find, put, delete,
}
use btm_stats.Errors.{Error, other}
use btm_stats.Encoding.Reader.{Result, ok, err}
use btm_stats.P2p.NodeInfo.{NodeInfo}
use btm_stats.P2p.NetAddress.{NetAddress}
use btm_stats.P2p.PeerSet.{PeerSet, new_peer_set, has}

-- defaultBanDuration, in nanoseconds
abbrev pub default_ban_duration : ℕ
default_ban_duration = 3600000000000

abbrev pub connect_self : Error
connect_self = other "Connect self"

abbrev pub connect_banned_peer : Error
connect_banned_peer = other "Connect banned peer"

-- peerConn and Peer; a connection is a number, and a secret connection has that of the connection
-- that it encrypts
pub record PeerConn : Type 0 where
  pub outbound : Bool
  pub conn : ℕ

pub record Peer (Text : Type 0) : Type 0 where
  pub peer_conn : PeerConn
  pub node_info : NodeInfo
  pub key : Text

-- MaxNumPeers of the configuration; the host of an address (of net.SplitHostPort), and the text of an IP; the public keys of the
-- other end of a connection and of this node; what the other end answers to a handshake, with the
-- KeyString of the key in it; the errors of MakeSecretConnection and of a reactor's AddPeer; Dial;
-- NewNetAddressString; json.Marshal of the bans; the channels of a reactor, and the order in which
-- Go ranges over the reactors.
pub record World (Text Reactor Data : Type 0) : Type 0 where
  pub max_num_peers : ℕ
  pub host_of : List ℕ → Text
  pub ip_text : List ℕ → Text
  pub remote_pub_key : ℕ → Text
  pub handshake : ℕ → Result (NodeInfo × Text)
  pub secret : ℕ → Option Error
  pub accept : Reactor → Peer Text → Option Error
  pub dial : NetAddress → Result ℕ
  pub parse_address : List ℕ → Error ⊎ NetAddress
  pub marshal : List (Text × ℕ) → Error ⊎ Data
  pub channels : Reactor → List ℕ
  pub in_range : List (Text × Reactor) → List Reactor

-- the calls of the switch to others
pub data Effect (Text Reactor : Type 0) : Type 0 where
  set_switch : Reactor → Effect Text Reactor
  start_peer stop_peer : Peer Text → Effect Text Reactor
  reactor_add reactor_remove : Reactor → Peer Text → Effect Text Reactor
  close_conn : ℕ → Effect Text Reactor
  remove_address add_our_address : NetAddress → Effect Text Reactor

module _ {Text Reactor Data : Type 0} (same : Discrete Text) (w : World Text Reactor Data) where
  -- Switch; the database is what it has at bannedPeerKey
  pub record Switch : Type 0 where
    pub reactors : List (Text × Reactor)
    pub ch_descs : List ℕ
    pub reactors_by_ch : ℕ → Option Reactor
    pub peers : PeerSet same Peer.key
    pub dialing : List (Text × NetAddress)
    pub node_info : NodeInfo
    pub pub_key : Text
    pub banned_peer : List (Text × ℕ)
    pub db : Option Data
    pub running : Bool
    pub log : List (Effect Text Reactor)

  -- NewSwitch, where `none` is the nil for bans that cannot be read; the node info and the key are
  -- those that SetNodeInfo and SetNodePrivKey set before the switch starts
  abbrev pub with_bans : NodeInfo → Text → Option Data → Option (List (Text × ℕ)) → Option Switch
  with_bans info pub_key db none = none
  with_bans info pub_key db (some bans) = some (record {
    reactors = [];
    ch_descs = [];
    reactors_by_ch = λ id. none;
    peers = new_peer_set same Peer.key;
    dialing = [];
    node_info = info;
    pub_key = pub_key;
    banned_peer = bans;
    db = db;
    running = false;
    log = [];
  })

  abbrev pub read_bans : (Data → Option (List (Text × ℕ))) → Option Data → Option (List (Text × ℕ))
  read_bans unmarshal none = some []
  read_bans unmarshal (some data_json) = unmarshal data_json

  unfoldable pub new_switch :
      (Data → Option (List (Text × ℕ))) → NodeInfo → Text → Option Data → Option Switch
  new_switch unmarshal info pub_key db = with_bans info pub_key db (read_bans unmarshal db)

  abbrev pub say : List (Effect Text Reactor) → Switch → Switch
  say effects sw = record sw { log = sw.log ++ effects }

  -- AddBannedPeer and delBannedPeer, which save the bans
  abbrev pub saved : Error ⊎ Data → Switch → Option Error × Switch
  saved (inl e) sw = (some e, sw)
  saved (inr data_json) sw = (none, record sw { db = some data_json })

  abbrev pub save_bans : Switch → Option Error × Switch
  save_bans sw = saved (w.marshal sw.banned_peer) sw

  unfoldable pub add_banned_peer : ℕ → Peer Text → Switch → Option Error × Switch
  add_banned_peer now peer sw =
      let key = w.host_of peer.node_info.remote_addr in
      save_bans
        (record sw { banned_peer = put same key (now + default_ban_duration) sw.banned_peer })

  unfoldable pub del_banned_peer : Text → Switch → Option Error × Switch
  del_banned_peer addr sw = save_bans (record sw { banned_peer = delete same addr sw.banned_peer })

  -- checkBannedPeer
  abbrev pub checked : ℕ → Text → Option ℕ → Switch → Option Error × Switch
  checked now peer none sw = (none, sw)
  checked now peer (some ban_end) sw =
      if ltb now ban_end
      then (some connect_banned_peer, sw)
      else (none, (del_banned_peer peer sw).1)

  unfoldable pub check_banned_peer : ℕ → Text → Switch → Option Error × Switch
  check_banned_peer now peer sw = checked now peer (find same peer sw.banned_peer) sw

  -- addrBookDelSelf
  abbrev pub without_self : Error ⊎ NetAddress → Switch → Option Error × Switch
  without_self (inl e) sw = (some e, sw)
  without_self (inr addr) sw = (none, say (remove_address addr ∷ add_our_address addr ∷ []) sw)

  unfoldable pub addr_book_del_self : Switch → Option Error × Switch
  addr_book_del_self sw = without_self (w.parse_address sw.node_info.listen_addr) sw

  -- filterConnByIP
  abbrev pub not_own_ip : Text → Option Error × Switch → Option Error × Switch
  not_own_ip ip (some e, sw) = (some connect_banned_peer, sw)
  not_own_ip ip (none, sw) =
      if_decided (same ip (w.host_of sw.node_info.listen_addr))
        (some connect_self, (addr_book_del_self sw).1) (none, sw)

  unfoldable pub filter_conn_by_ip : ℕ → Text → Switch → Option Error × Switch
  filter_conn_by_ip now ip sw = not_own_ip ip (check_banned_peer now ip sw)

  -- AddReactor, where `none` is the panic of a channel with two reactors
  abbrev pub take_channel : Reactor → ℕ → Option Reactor → Option Switch → Option Switch
  take_channel reactor id (some reactor') sw = none
  take_channel reactor id none none = none
  take_channel reactor id none (some sw) = some (record sw {
    ch_descs = sw.ch_descs ++ (id ∷ []);
    reactors_by_ch = λ x. if x == id then some reactor else sw.reactors_by_ch x;
  })

  abbrev pub at_channel : ℕ → Option Switch → Option Reactor
  at_channel id none = none
  at_channel id (some sw) = sw.reactors_by_ch id

  abbrev pub take_channels : Reactor → List ℕ → Option Switch → Option Switch
  take_channels reactor [] sw = sw
  take_channels reactor (id ∷ ids) sw =
      take_channels reactor ids (take_channel reactor id (at_channel id sw) sw)

  abbrev pub named : Text → Reactor → Option Switch → Option Switch
  named name reactor none = none
  named name reactor (some sw) =
      some
        (say (set_switch reactor ∷ []) (record sw { reactors = put same name reactor sw.reactors }))

  unfoldable pub add_reactor : Text → Reactor → Switch → Option Switch
  add_reactor name reactor sw =
      named name reactor (take_channels reactor (w.channels reactor) (some sw))

  -- SetNodeInfo
  unfoldable pub set_node_info : NodeInfo → Text → Switch → Switch
  set_node_info info pub_key sw = record sw { node_info = info; pub_key = pub_key }

  -- IsDialing
  abbrev pub is_there : Option NetAddress → Bool
  is_there none = false
  is_there (some addr) = true

  unfoldable pub is_dialing : NetAddress → Switch → Bool
  is_dialing addr sw = is_there (find same (w.ip_text addr.ip) sw.dialing)

  -- NumPeers
  unfoldable pub count_peers : List (Peer Text) → ℕ × ℕ
  count_peers [] = (0, 0)
  count_peers (p ∷ ps) =
      let (outbound, inbound) = count_peers ps in
      if p.peer_conn.outbound then (outbound + 1, inbound) else (outbound, inbound + 1)

  unfoldable pub num_peers : Switch → ℕ × ℕ × ℕ
  num_peers sw =
      let (outbound, inbound) = count_peers sw.peers.list in (outbound, inbound, length sw.dialing)
