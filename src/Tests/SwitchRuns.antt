-- ===== src/Tests/SwitchRuns.antt =====
-- Runs of the switch.
use btm_stats.Base.{
  ◌≡◌, refl, ℕ, ◌+◌, ◌≤◌, ◌<◌, Bool, true, false, Option, none, some, List, [], ◌∷◌, inr, map,
  arith, ◌==◌, ℕ_discrete, delete,
}
use btm_stats.Errors.{Error, eof, wrap}
use btm_stats.Encoding.Reader.{ok}
use btm_stats.P2p.NodeInfo.{NodeInfo, compatible_with, split_version, split}
use btm_stats.P2p.NetAddress.{NetAddress}
use btm_stats.P2p.PeerSet.{new_peer_set, add, has}
use btm_stats.P2p.PeerSet.Laws.{new_peer_set-IsValid}
use btm_stats.P2p.Switch.{
  Peer, World, Switch, new_switch, add_banned_peer, check_banned_peer, num_peers, count_peers,
  filter_conn_by_ip, default_ban_duration, connect_banned_peer, addr_book_del_self,
}
use btm_stats.P2p.Switch.Peers.{
  add_peer, new_peer_conn, filter_conn_by_peer, start_init_peer, take_connection,
  add_peer_with_connection, dial_peer_with_address, listener_routine,
}
use btm_stats.P2p.Switch.Closing.{Outcome, add_peer_with_connection_outcome}
use btm_stats.P2p.Switch.Limit.{Within, listener_routine-Within}
use btm_stats.P2p.Switch.Bans.{dial_banned, new_switch-add_banned_peer}

-- A node with version 1.0.0 at a host that is its first byte.
abbrev node : ℕ → NodeInfo
node host = record {
  moniker = [];
  network = 1 ∷ [];
  remote_addr = host ∷ [];
  listen_addr = host ∷ [];
  version = 49 ∷ 46 ∷ 48 ∷ 46 ∷ 48 ∷ [];
  others = [];
}

abbrev first : List ℕ → ℕ
first [] = 0
first (x ∷ xs) = x

-- the connection 9 cannot be encrypted; the key and the host of another are its number
abbrev secret_error : Bool → Option Error
secret_error true = some eof
secret_error false = none

abbrev world : World ℕ ℕ (List (ℕ × ℕ))
world = record {
  max_num_peers = 1;
  host_of = first;
  ip_text = first;
  remote_pub_key = λ conn. conn;
  handshake = λ conn. ok (node conn, conn);
  secret = λ conn. secret_error (conn == 9);
  accept = λ reactor peer. none;
  dial = λ addr. ok (first addr.ip);
  parse_address = λ s. inr (record { ip = s; port = 46656; str = [] });
  marshal = λ bans. inr bans;
  channels = λ reactor. reactor ∷ [];
  in_range = λ rs. map (λ entry. entry.1) rs;
}

abbrev start : Switch ℕ_discrete world
start = record {
  reactors = [];
  ch_descs = [];
  reactors_by_ch = λ id. none;
  peers = new_peer_set ℕ_discrete Peer.key;
  dialing = [];
  node_info = node 1;
  pub_key = 1;
  banned_peer = [];
  db = none;
  running = true;
  log = [];
}

abbrev peer : ℕ → Peer ℕ
peer conn = record {
  peer_conn = record { outbound = false; conn = conn };
  node_info = node conn;
  key = conn;
}

abbrev address : ℕ → NetAddress
address host = record { ip = host ∷ []; port = 46656; str = [] }

-- Of five connections, one cannot be encrypted, one is this node's own and one comes twice.
listener :
    num_peers ℕ_discrete world (
      listener_routine ℕ_discrete world
        ((0, 9) ∷ (0, 1) ∷ (0, 5) ∷ (0, 5) ∷ (0, 6) ∷ (0, 7) ∷ [])
        start)
    ≡ (0, 2, 0)
unfolding num_peers count_peers listener_routine take_connection addr_book_del_self
    add_peer_with_connection add_peer new_peer_conn filter_conn_by_peer check_banned_peer
    start_init_peer compatible_with split_version split add has ℕ_discrete filter_conn_by_ip wrap
listener = refl

dialed :
    num_peers ℕ_discrete world (dial_peer_with_address ℕ_discrete world 0 0 (address 5) start).1
    ≡ (1, 0, 0)
unfolding num_peers count_peers dial_peer_with_address add_peer_with_connection add_peer
    new_peer_conn filter_conn_by_peer check_banned_peer start_init_peer compatible_with
    split_version split add has ℕ_discrete filter_conn_by_ip wrap
dialed = refl

add_peer_with_connection_outcome_example :
    Outcome ℕ_discrete world false 5 start.peers
      (add_peer_with_connection ℕ_discrete world 0 5 start)
add_peer_with_connection_outcome_example =
    add_peer_with_connection_outcome ℕ_discrete world 0 5 start
      (new_peer_set-IsValid ℕ_discrete Peer.key)

listener_routine-Within_example :
    Within ℕ_discrete world 2
      (listener_routine ℕ_discrete world ((0, 9) ∷ (0, 5) ∷ (0, 6) ∷ (0, 7) ∷ []) start)
listener_routine-Within_example =
    listener_routine-Within ℕ_discrete world 2 (omega arith)
      ((0, 9) ∷ (0, 5) ∷ (0, 6) ∷ (0, 7) ∷ []) start
      (new_peer_set-IsValid ℕ_discrete Peer.key, omega arith)

dial_banned_example :
    (4 < 3 + default_ban_duration
      → dial_peer_with_address ℕ_discrete world 4 4
          (address 5)
          (add_banned_peer ℕ_discrete world 3 (peer 5) start).1
        ≡ (some connect_banned_peer, (add_banned_peer ℕ_discrete world 3 (peer 5) start).1))
    × (3 + default_ban_duration ≤ 4
        → ((check_banned_peer ℕ_discrete world 4 5
              (add_banned_peer ℕ_discrete world 3 (peer 5) start).1).0
            ≡ none)
          × ((check_banned_peer ℕ_discrete world 4 5
                (add_banned_peer ℕ_discrete world 3 (peer 5) start).1).1.banned_peer
              ≡ delete ℕ_discrete 5 []))
dial_banned_example = dial_banned ℕ_discrete world 3 (peer 5) start 4 4 (address 5) refl

no_error : (add_banned_peer ℕ_discrete world 3 (peer 5) start).0 ≡ none
unfolding add_banned_peer
no_error = refl

new_switch-add_banned_peer_example :
    (sw' : Switch ℕ_discrete world) × (new_switch ℕ_discrete world some
        (node 1)
        1
        (add_banned_peer ℕ_discrete world 3 (peer 5) start).1.db
      ≡ some sw')
    × (sw'.banned_peer ≡ (add_banned_peer ℕ_discrete world 3 (peer 5) start).1.banned_peer)
new_switch-add_banned_peer_example =
    new_switch-add_banned_peer ℕ_discrete world some (λ bans d e. cc e) (node 1) 1 3 (peer 5) start
      no_error
