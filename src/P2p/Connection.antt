-- ===== src/P2p/Connection.antt =====
-- MConnection of p2p/connection/connection.go: several channels over one connection. The two routines
-- are loops of the steps below; flushing, pings, and the limits of the rates have no state here.
pub mod Work
pub mod Lanes
pub mod Receiving
pub mod Messages
pub mod Draining
use btm_stats.Base.{
  ℕ, zero, suc, ◌+◌, Bool, true, false, not, ◌&&◌, Option, none, some, List, [], ◌∷◌, ◌++◌, length,
  get_elem?, set, ◌==◌, if◌then◌else◌,
}
use btm_stats.Errors.{Error, other}
use btm_stats.P2p.Channel.{
  ChannelDescriptor, Channel, MsgPacket, new_channel, try_send_bytes, can_send, is_send_pending,
  next_msg_packet, recv_msg_packet,
}

-- packetTypePing, packetTypePong, packetTypeMsg
abbrev pub packet_type_ping : ℕ
packet_type_ping = 0x01

abbrev pub packet_type_pong : ℕ
packet_type_pong = 0x02

abbrev pub packet_type_msg : ℕ
packet_type_msg = 0x03

-- numBatchMsgPackets
abbrev pub num_batch_msg_packets : ℕ
num_batch_msg_packets = 10

-- A channel with its average recentlySent.
pub record Lane : Type 0 where
  pub channel : Channel
  pub recently_sent : ℕ

-- Whether the connection runs, whether stopForError was called, what onError and onReceive were called
-- with, and how many pongs are to be sent.
pub record MConnection : Type 0 where
  pub channels : List Lane
  pub running : Bool
  pub errored : Bool
  pub errors : List Error
  pub received : List (ℕ × List ℕ)
  pub pongs : ℕ

-- NewMConnectionWithConfig and OnStart; `none` is the panic of newChannel
abbrev with_lane : Option Channel → Option (List Lane) → Option (List Lane)
with_lane none lanes = none
with_lane (some ch) none = none
with_lane (some ch) (some lanes) = some (record { channel = ch; recently_sent = 0 } ∷ lanes)

unfoldable pub new_lanes : List ChannelDescriptor → Option (List Lane)
new_lanes [] = some []
new_lanes (desc ∷ descs) = with_lane (new_channel desc) (new_lanes descs)

abbrev started : Option (List Lane) → Option MConnection
started none = none
started (some lanes) = some (record {
  channels = lanes;
  running = true;
  errored = false;
  errors = [];
  received = [];
  pongs = 0;
})

unfoldable pub new_m_connection : List ChannelDescriptor → Option MConnection
new_m_connection descs = started (new_lanes descs)

-- channelsIdx[id]: the place of the last channel with the id
abbrev pub or_here : Option ℕ → Bool → Option ℕ
or_here (some i) b = some (suc i)
or_here none true = some 0
or_here none false = none

unfoldable pub channel_index : ℕ → List Lane → Option ℕ
channel_index id [] = none
channel_index id (l ∷ ls) = or_here (channel_index id ls) (l.channel.id == id)

-- a call on the channel at a place
abbrev pub put_channel : ℕ → Lane → Channel → MConnection → MConnection
put_channel i lane ch c = record c { channels = set c.channels i (record lane { channel = ch }) }

-- stopForError
unfoldable pub stop_for_error : Error → MConnection → MConnection
stop_for_error error c =
    if c.errored
    then record c { running = false }
    else record c { running = false; errored = true; errors = c.errors ++ (error ∷ []) }

-- TrySend, and Send where the channel has room in time: whether the message was queued
abbrev sent_at : ℕ → Lane → Bool × Channel → MConnection → Bool × MConnection
sent_at i lane (ok, ch) c = (ok, put_channel i lane ch c)

abbrev sent_to : ℕ → Option Lane → List ℕ → MConnection → Bool × MConnection
sent_to i none bytes c = (false, c)
sent_to i (some lane) bytes c = sent_at i lane (try_send_bytes bytes lane.channel) c

abbrev sent_by : Option ℕ → List ℕ → MConnection → Bool × MConnection
sent_by none bytes c = (false, c)
sent_by (some i) bytes c = sent_to i (get_elem? c.channels i) bytes c

unfoldable pub try_send : ℕ → List ℕ → MConnection → Bool × MConnection
try_send ch_id bytes c =
    if not c.running then (false, c) else sent_by (channel_index ch_id c.channels) bytes c

-- Send, which waits for room: `timely` says whether there is some before defaultSendTimeout
unfoldable pub send : Bool → ℕ → List ℕ → MConnection → Bool × MConnection
send timely ch_id bytes c =
    if not c.running
    then (false, c)
    else if timely
    then sent_by (channel_index ch_id c.channels) bytes c
    else (false, c)

-- CanSend
abbrev can_send_at : Option Lane → Bool
can_send_at none = false
can_send_at (some lane) = can_send lane.channel

abbrev can_send_by : Option ℕ → MConnection → Bool
can_send_by none c = false
can_send_by (some i) c = can_send_at (get_elem? c.channels i)

unfoldable pub can_send_to : ℕ → MConnection → Bool
can_send_to ch_id c =
    if not c.running then false else can_send_by (channel_index ch_id c.channels) c

-- float32: the quotient of two integers, the order, MaxFloat32, and the decay of updateStats
pub record Ratios (F : Type 0) : Type 0 where
  pub quotient : ℕ → ℕ → F
  pub less : F → F → Bool
  pub max_float : F
  pub decay : ℕ → ℕ

module _ {F : Type 0} (f : Ratios F) where
  -- updateStats of every channel
  abbrev pub update_stats : List Lane → List Lane
  update_stats [] = []
  update_stats (l ∷ ls) = record l { recently_sent = f.decay l.recently_sent } ∷ update_stats ls

  -- the loop of sendMsgPacket from the place i on: the chosen place, and the channels, which
  -- isSendPending has changed
  abbrev pub with_head : Lane → Option ℕ × List Lane → Option ℕ × List Lane
  with_head l (chosen, ls) = (chosen, l ∷ ls)

  unfoldable pub least_channel : ℕ → F → Option ℕ → List Lane → Option ℕ × List Lane
  least_channel i least chosen [] = (chosen, [])
  least_channel i least chosen (l ∷ ls) =
      let (pending, ch) = is_send_pending l.channel in
      let ratio = f.quotient l.recently_sent ch.priority in
      let polled = record l { channel = ch } in
      let skipped = least_channel (suc i) least chosen ls in
      let taken = least_channel (suc i) ratio (some i) ls in
      with_head polled
        (if not pending then skipped else if f.less ratio least then taken else skipped)

  -- sendMsgPacket over a writer: whether the messages are exhausted. The writer gives the number of
  -- bytes and the error of writeMsgPacketTo.
  module _ {W : Type 0} (write : MsgPacket → W → (ℕ × Option Error) × W) where
    abbrev pub written :
        ℕ → Lane → Channel → (ℕ × Option Error) × W → MConnection → Bool × MConnection × W
    written i lane ch ((n, some error), w) c =
        (true, stop_for_error error (put_channel i lane ch c), w)
    written i lane ch ((n, none), w) c =
        (false, put_channel i (record lane { recently_sent = lane.recently_sent + n }) ch c, w)

    abbrev pub written_at : ℕ → Option Lane → MConnection → W → Bool × MConnection × W
    written_at i none c w = (true, c, w)
    written_at i (some lane) c w =
        let (packet, ch) = next_msg_packet lane.channel in written i lane ch (write packet w) c

    abbrev pub written_by : Option ℕ × List Lane → MConnection → W → Bool × MConnection × W
    written_by (none, ls) c w = (true, record c { channels = ls }, w)
    written_by (some i, ls) c w = written_at i (get_elem? ls i) (record c { channels = ls }) w

    unfoldable pub send_msg_packet : MConnection → W → Bool × MConnection × W
    send_msg_packet c w = written_by (least_channel 0 f.max_float none c.channels) c w

    -- the loop of sendSomeMsgPackets
    abbrev pub again :
        (MConnection → W → Bool × MConnection × W) → Bool × MConnection × W → Bool × MConnection × W
    again rest (true, c, w) = (true, c, w)
    again rest (false, c, w) = rest c w

    unfoldable pub send_batch : ℕ → MConnection → W → Bool × MConnection × W
    send_batch zero c w = (false, c, w)
    send_batch (suc n) c w = again (send_batch n) (send_msg_packet c w)

    abbrev pub send_some_msg_packets : MConnection → W → Bool × MConnection × W
    send_some_msg_packets = send_batch num_batch_msg_packets
