-- ===== src/P2p/Channel.antt =====
-- A channel of p2p/connection/connection.go: a queue of messages, cut into packets by the sender and
-- put together by the receiver. The Go channel sendQueue is a list with a capacity, and a call on
-- it that would block is not made.
pub mod Stream
pub mod Packets
pub mod Sending
pub mod Receiving
pub mod Delivery
use btm_stats.Base.{
  ℕ, zero, ◌+◌, ◌-◌, Bool, true, false, Option, none, some, List, [], ◌∷◌, ◌++◌, length, take, drop,
  ltb, leb, ◌==◌, if◌then◌else◌,
}
use btm_stats.Errors.{Error, other}

-- maxMsgPacketPayloadSize
abbrev pub max_msg_packet_payload_size : ℕ
max_msg_packet_payload_size = 1024

-- defaultSendQueueCapacity, defaultRecvBufferCapacity, defaultRecvMessageCapacity
abbrev pub default_send_queue_capacity : ℕ
default_send_queue_capacity = 1

abbrev pub default_recv_buffer_capacity : ℕ
default_recv_buffer_capacity = 4096

abbrev pub default_recv_message_capacity : ℕ
default_recv_message_capacity = 22020096

pub record ChannelDescriptor : Type 0 where
  pub id : ℕ
  pub priority : ℕ
  pub send_queue_capacity : ℕ
  pub recv_buffer_capacity : ℕ
  pub recv_message_capacity : ℕ

-- FillDefaults
unfoldable pub fill_defaults : ChannelDescriptor → ChannelDescriptor
fill_defaults desc = record desc {
  send_queue_capacity =
      if desc.send_queue_capacity == 0
      then default_send_queue_capacity
      else desc.send_queue_capacity;
  recv_buffer_capacity =
      if desc.recv_buffer_capacity == 0
      then default_recv_buffer_capacity
      else desc.recv_buffer_capacity;
  recv_message_capacity =
      if desc.recv_message_capacity == 0
      then default_recv_message_capacity
      else desc.recv_message_capacity;
}

-- Channel, but its connection and the average recentlySent
pub record Channel : Type 0 where
  pub desc : ChannelDescriptor
  pub id : ℕ
  pub send_queue : List (List ℕ)
  pub send_queue_size : ℕ
  pub recving : List ℕ
  pub sending : List ℕ
  pub priority : ℕ

-- newChannel; `none` is the panic on a priority of 0
unfoldable pub new_channel : ChannelDescriptor → Option Channel
unfolding fill_defaults
new_channel given =
    let desc = fill_defaults given in
    if desc.priority == 0
    then none
    else some (record {
      desc = desc;
      id = desc.id;
      send_queue = [];
      send_queue_size = 0;
      recving = [];
      sending = [];
      priority = desc.priority;
    })

-- msgPacket
pub record MsgPacket : Type 0 where
  pub channel_id : ℕ
  pub eof : ℕ
  pub bytes : List ℕ

-- trySendBytes: whether the message was queued
unfoldable pub try_send_bytes : List ℕ → Channel → Bool × Channel
try_send_bytes bytes ch =
    if ltb (length ch.send_queue) ch.desc.send_queue_capacity
    then (
      true,
      record ch {
        send_queue = ch.send_queue ++ (bytes ∷ []);
        send_queue_size = ch.send_queue_size + 1;
      },
    )
    else (false, ch)

-- canSend
unfoldable pub can_send : Channel → Bool
can_send ch = ltb ch.send_queue_size default_send_queue_capacity

-- isSendPending: where no message is being sent it takes one from the queue
abbrev pub from_queue : List (List ℕ) → Channel → Bool × Channel
from_queue [] ch = (false, ch)
from_queue (m ∷ queue) ch = (true, record ch { send_queue = queue; sending = m })

unfoldable pub is_send_pending : Channel → Bool × Channel
is_send_pending ch = if length ch.sending == 0 then from_queue ch.send_queue ch else (true, ch)

-- nextMsgPacket
unfoldable pub next_msg_packet : Channel → MsgPacket × Channel
next_msg_packet ch =
    let bytes = take max_msg_packet_payload_size ch.sending in
    if leb (length ch.sending) max_msg_packet_payload_size
    then (
      record { channel_id = ch.id; eof = 1; bytes = bytes },
      record ch { sending = []; send_queue_size = ch.send_queue_size - 1 },
    )
    else (
      record { channel_id = ch.id; eof = 0; bytes = bytes },
      record ch { sending = drop max_msg_packet_payload_size ch.sending },
    )

-- recvMsgPacket: a complete message, or nil, and the error; wire.ErrBinaryReadOverflow is an error
-- of go-wire
abbrev pub binary_read_overflow : Error
binary_read_overflow = other "Error: binary read overflow"

unfoldable pub recv_msg_packet : MsgPacket → Channel → (Option (List ℕ) × Option Error) × Channel
recv_msg_packet packet ch =
    if ltb ch.desc.recv_message_capacity (length ch.recving + length packet.bytes)
    then ((none, some binary_read_overflow), ch)
    else if packet.eof == 1
    then ((some (ch.recving ++ packet.bytes), none), record ch { recving = [] })
    else ((none, none), record ch { recving = ch.recving ++ packet.bytes })
