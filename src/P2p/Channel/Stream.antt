-- ===== src/P2p/Channel/Stream.antt =====
-- Two channels at the ends of a connection that keeps the order of its packets, under every
-- schedule of calls.
use btm_stats.Base.{ℕ, Bool, true, false, Option, none, some, List, [], ◌∷◌, ◌++◌}
use btm_stats.Errors.{Error}
use btm_stats.P2p.Channel.{
  Channel, MsgPacket, try_send_bytes, is_send_pending, next_msg_packet, recv_msg_packet,
}

-- Both ends, the packets between them, the messages that were queued and those that were
-- received, and the first error of the receiver.
pub record Link : Type 0 where
  pub sender : Channel
  pub in_flight : List MsgPacket
  pub receiver : Channel
  pub accepted : List (List ℕ)
  pub delivered : List (List ℕ)
  pub failure : Option Error

-- One call: trySendBytes; isSendPending, as sendMsgPacket makes it also on the channels that it does
-- not choose; isSendPending and nextMsgPacket; recvMsgPacket on the next packet.
pub data Call : Type 0 where
  queue_message : List ℕ → Call
  poll transmit receive : Call

abbrev pub queued : List ℕ → Bool × Channel → Link → Link
queued m (true, s) l = record l { sender = s; accepted = l.accepted ++ (m ∷ []) }
queued m (false, s) l = record l { sender = s }

abbrev pub sent : MsgPacket × Channel → Link → Link
sent (p, s) l = record l { sender = s; in_flight = l.in_flight ++ (p ∷ []) }

abbrev pub pending : Bool × Channel → Link → Link
pending (true, s) l = sent (next_msg_packet s) l
pending (false, s) l = record l { sender = s }

abbrev pub received : (Option (List ℕ) × Option Error) × Channel → Link → Link
received ((some m, none), r) l = record l { receiver = r; delivered = l.delivered ++ (m ∷ []) }
received ((none, none), r) l = record l { receiver = r }
received ((o, some e), r) l = record l { receiver = r; failure = some e }

abbrev pub arrived : List MsgPacket → Link → Link
arrived [] l = l
arrived (p ∷ ps) l = received (recv_msg_packet p l.receiver) (record l { in_flight = ps })

unfoldable pub call : Call → Link → Link
call (queue_message m) l = queued m (try_send_bytes m l.sender) l
call poll l = record l { sender = (is_send_pending l.sender).1 }
call transmit l = pending (is_send_pending l.sender) l
call receive l = arrived l.in_flight l

unfoldable pub run : List Call → Link → Link
unfolding call
run [] l = l
run (c ∷ cs) l = run cs (call c l)
