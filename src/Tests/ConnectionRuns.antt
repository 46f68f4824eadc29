-- ===== src/Tests/ConnectionRuns.antt =====
-- Runs of a connection with several channels.
use btm_stats.Base.{ℕ, ◌≡◌, refl, true, false, none, List, [], ◌∷◌, All, ltb, map, arith}
use btm_stats.Errors.{other}
use btm_stats.P2p.Channel.{MsgPacket, recv_msg_packet}
use btm_stats.P2p.Connection.{Lane, MConnection, Ratios, channel_index, send_batch}
use btm_stats.P2p.Connection.Draining.{send_batch-drains}
use btm_stats.P2p.Connection.Work.{IsIdle}
use btm_stats.P2p.Connection.Receiving.{packet, recv_round, recv_routine, own_messages, packets_of}
use btm_stats.P2p.Connection.Messages.{recv_routine-own_messages}
use btm_stats.P2p.Connection.Lanes.{messages_of}

-- a channel with the given id and one message in the queue
abbrev lane_of : ℕ → Lane
lane_of id = record {
  channel = record {
    desc = record {
      id = id;
      priority = 1;
      send_queue_capacity = 1;
      recv_buffer_capacity = 4096;
      recv_message_capacity = 22020096;
    };
    id = id;
    send_queue = (1 ∷ 2 ∷ []) ∷ [];
    send_queue_size = 1;
    recving = [];
    sending = [];
    priority = 1;
  };
  recently_sent = 0;
}

abbrev two_channels : MConnection
two_channels = record {
  channels = lane_of 32 ∷ lane_of 64 ∷ [];
  running = true;
  errored = false;
  errors = [];
  received = [];
  pongs = 0;
}

-- ratios as natural numbers below a bound
abbrev ratios : Ratios ℕ
ratios = record { quotient = λ a b. 0; less = ltb; max_float = 1; decay = λ n. n }

send_batch-drains_example :
    ((send_batch ratios {W = List MsgPacket} (λ p w. ((2, none), p ∷ w)) 7 two_channels []).0
      ≡ true)
    × All IsIdle
        (send_batch ratios {W = List MsgPacket}
          (λ p w. ((2, none), p ∷ w))
          7
          two_channels
          []).1.channels
send_batch-drains_example =
    send_batch-drains ratios (λ s p. refl) (λ p w. ((2, none), p ∷ w)) (λ p w. refl) 7 two_channels
      [] (omega arith)

abbrev packets : List MsgPacket
packets =
    record { channel_id = 32; eof = 0; bytes = 5 ∷ [] }
    ∷ record { channel_id = 64; eof = 1; bytes = 7 ∷ [] }
    ∷ record { channel_id = 32; eof = 1; bytes = 6 ∷ [] }
    ∷ []

recv_routine-own_messages_example :
    messages_of 32
      (recv_routine
        (λ n. other "unknown channel")
        (λ n. other "unknown type")
        (map packet packets)
        two_channels).received
    ≡ own_messages (packets_of 32 packets) (lane_of 32).channel
unfolding recv_routine recv_round recv_msg_packet channel_index
recv_routine-own_messages_example =
    recv_routine-own_messages (λ n. other "unknown channel") (λ n. other "unknown type") packets
      two_channels 32 0 (lane_of 32) refl refl refl refl
