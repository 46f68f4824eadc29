-- ===== src/Tests/P2pRuns.antt =====
-- Runs of p2p.
use btm_stats.Base.{
  ◌*◌, ltb, if_decided, ℕ, ◌+◌, ◌≡◌, ◌↔◌, refl, none, some, List, [], ◌∷◌, ◌++◌, length, arith,
  ℕ_discrete,
}
use btm_stats.P2p.Channel.{
  ChannelDescriptor, Channel, new_channel, fill_defaults, try_send_bytes, is_send_pending,
  next_msg_packet, recv_msg_packet,
}
use btm_stats.P2p.Channel.Stream.{Call, queue_message, poll, transmit, receive, call, run}
use btm_stats.P2p.Channel.Packets.{busy}
use btm_stats.P2p.Channel.Delivery.{link, run-delivers}
use btm_stats.P2p.PeerSet.{PeerSet, new_peer_set, get, remove}
use btm_stats.P2p.PeerSet.Laws.{IsValid, grown, grown-IsValid, new_peer_set-IsValid}
use btm_stats.P2p.PeerSet.Removal.{remove-IsValid}
use btm_stats.P2p.NodeInfo.{NodeInfo, compatible_with}
use btm_stats.P2p.NodeInfo.Compatible.{compatible_with_iff}
use btm_stats.P2p.BanScore.{Float, DynamicBanScore, add_ban_score}
use btm_stats.P2p.BanScore.Banned.{after_failures, points_of, add_ban_score-failures}
use btm_stats.P2p.PeerSet.Calls as PeerSetCalls
use btm_stats.P2p.PeerSet.Calls.{PeerCall, add_peer, remove_peer, add-IsValid, run-new_peer_set}

abbrev descriptor : ChannelDescriptor
descriptor = record {
  id = 0x40;
  priority = 5;
  send_queue_capacity = 2;
  recv_buffer_capacity = 0;
  recv_message_capacity = 0;
}

abbrev end : Channel
end = record {
  desc = record {
    id = 0x40;
    priority = 5;
    send_queue_capacity = 2;
    recv_buffer_capacity = 4096;
    recv_message_capacity = 22020096;
  };
  id = 0x40;
  send_queue = [];
  send_queue_size = 0;
  recving = [];
  sending = [];
  priority = 5;
}

new_end : new_channel descriptor ≡ some end
unfolding new_channel fill_defaults
new_end = refl

abbrev schedule : List Call
schedule =
    queue_message (1 ∷ 2 ∷ [])
    ∷ queue_message (3 ∷ [])
    ∷ transmit
    ∷ poll
    ∷ transmit
    ∷ receive
    ∷ transmit
    ∷ receive
    ∷ []

run-delivers_example :
    ((run schedule (link end end)).failure ≡ none)
    × ((l : List (List ℕ)) × ((run schedule (link end end)).accepted
          ≡ (run schedule (link end end)).delivered ++ l))
    × ((run schedule (link end end)).sender.send_queue_size
        ≡ length (run schedule (link end end)).sender.send_queue
          + busy (run schedule (link end end)).sender.sending)
run-delivers_example =
    run-delivers descriptor descriptor end end schedule new_end new_end (omega arith)

runs_empty :
    ((run schedule (link end end)).in_flight ≡ [])
    × ((run schedule (link end end)).sender.send_queue ≡ [])
    × ((run schedule (link end end)).sender.sending ≡ [])
    × ((run schedule (link end end)).delivered ≡ (1 ∷ 2 ∷ []) ∷ (3 ∷ []) ∷ [])
unfolding run call try_send_bytes is_send_pending next_msg_packet recv_msg_packet
runs_empty = (refl, refl, refl, refl)

-- A peer is a key and a number, for the runs.
abbrev key : ℕ × ℕ → ℕ
key p = p.0

abbrev one_peer : PeerSet ℕ_discrete key
one_peer =
    grown ℕ_discrete key (new_peer_set ℕ_discrete key) (new_peer_set-IsValid ℕ_discrete key) (1, 10)
      refl

one_peer-IsValid : IsValid ℕ_discrete key one_peer
one_peer-IsValid =
    grown-IsValid ℕ_discrete key (new_peer_set ℕ_discrete key) (new_peer_set-IsValid ℕ_discrete key)
      (1, 10) refl

fresh_peer : one_peer.lookup 2 ≡ none
unfolding ℕ_discrete
fresh_peer = refl

abbrev two_peers : PeerSet ℕ_discrete key
two_peers = grown ℕ_discrete key one_peer one_peer-IsValid (2, 20) fresh_peer

known_peer : two_peers.lookup 1 ≡ some (record { peer = (1, 10); index = 0 })
unfolding ℕ_discrete
known_peer = refl

-- The peer that is not the last of the list.
remove-IsValid_example :
    (ps : PeerSet ℕ_discrete key) × (remove ℕ_discrete key (1, 10) two_peers ≡ some ps)
    × IsValid ℕ_discrete key ps
    × (length ps.list + 1 ≡ length two_peers.list)
    × ((k : ℕ)
        → get ℕ_discrete key k ps
          ≡ if_decided (ℕ_discrete 1 k) none (get ℕ_discrete key k two_peers))
remove-IsValid_example =
    remove-IsValid ℕ_discrete key two_peers (1, 10) (record { peer = (1, 10); index = 0 })
      (grown-IsValid ℕ_discrete key one_peer one_peer-IsValid (2, 20) fresh_peer) known_peer

abbrev three_peers : List (PeerCall ℕ_discrete key)
three_peers = add_peer (1, 10) ∷ add_peer (2, 20) ∷ remove_peer (1, 10) ∷ add_peer (3, 30) ∷ []

run-new_peer_set_example :
    (ps : PeerSet ℕ_discrete key) × (PeerSetCalls.run ℕ_discrete key three_peers
        (new_peer_set ℕ_discrete key)
      ≡ some ps)
    × IsValid ℕ_discrete key ps
run-new_peer_set_example = run-new_peer_set ℕ_discrete key three_peers

-- Versions 1.0.5 and 1.0.7 of one network.
abbrev node : List ℕ → NodeInfo
node version = record {
  moniker = [];
  network = 109 ∷ [];
  remote_addr = [];
  listen_addr = [];
  version = version;
  others = [];
}

compatible_with_iff_example :
    (compatible_with (node (49 ∷ 46 ∷ 48 ∷ 46 ∷ 53 ∷ [])) (node (49 ∷ 46 ∷ 48 ∷ 46 ∷ 55 ∷ []))
      ≡ none)
    ↔ ((◌≡◌ {A = List ℕ} (49 ∷ []) (49 ∷ []))
        × (◌≡◌ {A = List ℕ} (48 ∷ []) (48 ∷ []))
        × (◌≡◌ {A = List ℕ} (109 ∷ []) (109 ∷ [])))
compatible_with_iff_example =
    compatible_with_iff (node (49 ∷ 46 ∷ 48 ∷ 46 ∷ 53 ∷ [])) (node (49 ∷ 46 ∷ 48 ∷ 46 ∷ 55 ∷ []))
      (49 ∷ []) (48 ∷ []) (53 ∷ []) (49 ∷ []) (48 ∷ []) (55 ∷ []) refl refl (omega arith)
      (omega arith) (omega arith) (omega arith) (omega arith) (omega arith)

-- Whole numbers in the place of floats, with no decay.
abbrev whole : Float ℕ
whole = record {
  of_uint = λ n. n;
  to_uint = λ n. n;
  plus = λ a b. a + b;
  times = λ a b. a * b;
  less = λ a b. ltb a b;
  exp_decay = λ t. 1;
}

abbrev fresh_score : DynamicBanScore whole (λ t. 1)
fresh_score = record { last_unix = 0; transient = 0; persistent = 0 }

-- Bad blocks and bad transactions, the last one first.
abbrev failures : List (ℕ × ℕ)
failures = (20, 40) ∷ (10, 30) ∷ (20, 30) ∷ (20, 20) ∷ (10, 10) ∷ []

-- A bad transaction is one too many for a score of 15.
add_ban_score-failures_example :
    (add_ban_score whole
      (λ t. 1)
      10
      0
      50
      (after_failures whole (λ t. 1) failures (record fresh_score { persistent = 15 }))).0
    ≡ ltb 100 (15 + (points_of failures + 10) + 0)
add_ban_score-failures_example =
    add_ban_score-failures whole (λ t. 1) 10 50 failures (record fresh_score { persistent = 15 })
      (omega arith) (omega arith)
