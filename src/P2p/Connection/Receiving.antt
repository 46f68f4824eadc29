-- ===== src/P2p/Connection/Receiving.antt =====
-- recvRoutine of an MConnection, as a loop over what the reader gives.
use btm_stats.Base.{
  ℕ, ◌+◌, Bool, true, false, Option, none, some, List, [], ◌∷◌, ◌++◌, get_elem?, ◌==◌,
  if◌then◌else◌,
}
use btm_stats.Errors.{Error}
use btm_stats.P2p.Channel.{Channel, MsgPacket, recv_msg_packet}
use btm_stats.P2p.Connection.{
  Lane, MConnection, put_channel, channel_index, stop_for_error, packet_type_ping, packet_type_pong,
}

-- What the reader gives for a round: the error of the packet's type, or the type, with the packet, or
-- its error, behind the type of a message. Stop, called elsewhere, is one of the events too.
pub data Event : Type 0 where
  type_error : Error → Event
  packet_type : ℕ → Event
  packet : MsgPacket → Event
  packet_error : Error → Event
  stopped : Event

-- cmn.PanicQ of an unknown channel and cmn.PanicSanity of an unknown type; _recover makes an error of
-- the panic
module _ (unknown_channel unknown_type : ℕ → Error) where
  -- the end of the loop with an error, where the connection runs
  abbrev pub fail : Error → MConnection → Bool × MConnection
  fail error c = if c.running then (false, stop_for_error error c) else (false, c)

  -- recvMsgPacket of the channel, and onReceive with a complete message
  abbrev pub received_at :
      ℕ → ℕ → Lane → (Option (List ℕ) × Option Error) × Channel → MConnection → Bool × MConnection
  received_at id i lane ((message, some error), ch) c = fail error (put_channel i lane ch c)
  received_at id i lane ((none, none), ch) c = (true, put_channel i lane ch c)
  received_at id i lane ((some bytes, none), ch) c =
      let d = put_channel i lane ch c in
      (true, record d { received = c.received ++ ((id, bytes) ∷ []) })

  abbrev pub received_to : MsgPacket → ℕ → Option Lane → MConnection → Bool × MConnection
  received_to p i none c = (false, stop_for_error (unknown_channel p.channel_id) c)
  received_to p i (some lane) c = received_at p.channel_id i lane (recv_msg_packet p lane.channel) c

  abbrev pub received_by : MsgPacket → Option ℕ → MConnection → Bool × MConnection
  received_by p none c = (false, stop_for_error (unknown_channel p.channel_id) c)
  received_by p (some i) c = received_to p i (get_elem? c.channels i) c

  -- a round of recvRoutine: whether the loop goes on
  unfoldable pub recv_round : Event → MConnection → Bool × MConnection
  recv_round (type_error error) c = fail error c
  recv_round (packet_type t) c =
      if t == packet_type_ping
      then (true, record c { pongs = c.pongs + 1 })
      else if t == packet_type_pong
      then (true, c)
      else (false, stop_for_error (unknown_type t) c)
  recv_round (packet p) c = received_by p (channel_index p.channel_id c.channels) c
  recv_round (packet_error error) c = fail error c
  recv_round stopped c = (true, record c { running = false })

  abbrev pub go_on : (MConnection → MConnection) → Bool × MConnection → MConnection
  go_on rest (true, c) = rest c
  go_on rest (false, c) = c

  unfoldable pub recv_routine : List Event → MConnection → MConnection
  recv_routine [] c = c
  recv_routine (e ∷ es) c = go_on (recv_routine es) (recv_round e c)

-- The messages that a channel gives for a sequence of packets, up to an error.
abbrev pub then_messages :
    (Channel → List (List ℕ)) → (Option (List ℕ) × Option Error) × Channel → List (List ℕ)
then_messages rest ((message, some error), ch) = []
then_messages rest ((none, none), ch) = rest ch
then_messages rest ((some bytes, none), ch) = bytes ∷ rest ch

unfoldable pub own_messages : List MsgPacket → Channel → List (List ℕ)
own_messages [] ch = []
own_messages (p ∷ ps) ch = then_messages (own_messages ps) (recv_msg_packet p ch)

-- The packets of a channel, and the messages that onReceive got for it.
abbrev pub packets_of : ℕ → List MsgPacket → List MsgPacket
packets_of id [] = []
packets_of id (p ∷ ps) =
    let rest = packets_of id ps in if p.channel_id == id then p ∷ rest else rest
