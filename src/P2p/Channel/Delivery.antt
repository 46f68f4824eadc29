-- ===== src/P2p/Channel/Delivery.antt =====
-- What arrives of the messages that were queued.
use btm_stats.Base.{
  ℕ, ◌+◌, ◌≡◌, refl, sym, ap, ◌∙◌, Bool, none, some, List, [], ◌∷◌, ◌++◌, length, All, arith,
  append-nil, subst,
}
use btm_stats.P2p.Channel.{Channel, ChannelDescriptor, new_channel}
use btm_stats.P2p.Channel.Stream.{
  Link, Call, queue_message, poll, transmit, receive, call, run, pending,
}
use btm_stats.P2p.Channel.Packets.{busy, Fits}
use btm_stats.P2p.Channel.Sending.{
  Inv, to_come, Pending, busy_now, idle, taken, is_send_pending-Pending, queue_head, Inv-poll,
  Inv-next, Inv-queue,
}
use btm_stats.P2p.Channel.Receiving.{Inv-arrived}

-- nextMsgPacket after isSendPending
Inv-pending :
    (cap : ℕ) (l : Link)
    → Inv cap l
    → (o : Bool × Channel) → Pending l.sender o
    → Inv cap (pending o l)
Inv-pending cap l v o (busy_now h) = Inv-next cap l v h
Inv-pending cap l v o (idle e f) = v
Inv-pending cap l v o (taken m q e f) =
    Inv-next cap (record l { sender = record l.sender { send_queue = q; sending = m } })
      (Inv-poll cap l v _ (taken m q e f)) (queue_head cap l v m q e f)

-- A message that is queued is not empty and fits the receiver.
abbrev pub Queues : ℕ → Call → Type 0
Queues cap (queue_message m) = Fits cap m
Queues cap poll = Unit
Queues cap transmit = Unit
Queues cap receive = Unit

Inv-call : (cap : ℕ) (c : Call) (l : Link) → Queues cap c → Inv cap l → Inv cap (call c l)
unfolding call
Inv-call cap (queue_message m) l fits v = Inv-queue cap l v m fits
Inv-call cap poll l fits v = Inv-poll cap l v _ (is_send_pending-Pending l.sender)
Inv-call cap transmit l fits v = Inv-pending cap l v _ (is_send_pending-Pending l.sender)
Inv-call cap receive l fits v = Inv-arrived cap l v l.in_flight refl

Inv-run :
    (cap : ℕ) (cs : List Call) (l : Link) → All (Queues cap) cs → Inv cap l → Inv cap (run cs l)
unfolding run
Inv-run cap [] l h v = v
Inv-run cap (c ∷ cs) l (h, hs) v = Inv-run cap cs (call c l) hs (Inv-call cap c l h v)

new_channel-fresh :
    (d : ChannelDescriptor) (s : Channel)
    → new_channel d ≡ some s
    → (s.send_queue ≡ []) × (s.sending ≡ []) × (s.recving ≡ []) × (s.send_queue_size ≡ 0)
unfolding new_channel
new_channel-fresh d s e = ground arith

-- Two new channels.
abbrev pub link : Channel → Channel → Link
link s r = record {
  sender = s;
  in_flight = [];
  receiver = r;
  accepted = [];
  delivered = [];
  failure = none;
}

Inv-link :
    (d e : ChannelDescriptor) (s r : Channel)
    → new_channel d ≡ some s
    → new_channel e ≡ some r
    → Inv r.desc.recv_message_capacity (link s r)
Inv-link d e s r p q =
    let (a, b, c, n) = new_channel-fresh d s p in
    let (a', b', c', n') = new_channel-fresh e r q in
    let none_left : to_come (link s r) ≡ [] = rw (a, b) in
    record {
      accounted = sym none_left;
      fit = subst (All (Fits r.desc.recv_message_capacity)) (sym none_left) tt;
      ends = λ z. c';
      size = omega (arith, n, ap length a, ap busy b);
      capacity = refl;
      sound = refl;
    }

-- Under every schedule of calls, where the messages that are queued are not empty and fit the
-- receiver's capacity: the receiver reports no error, what it has delivered is the first of the
-- messages that trySendBytes accepted, in their order, and sendQueueSize counts the messages in
-- the queue and the one that is being sent.
pub run-delivers :
    (d e : ChannelDescriptor) (s r : Channel) (cs : List Call)
    → new_channel d ≡ some s
    → new_channel e ≡ some r
    → All (Queues r.desc.recv_message_capacity) cs
    → ((run cs (link s r)).failure ≡ none)
      × ((l : List (List ℕ)) × ((run cs (link s r)).accepted ≡ (run cs (link s r)).delivered ++ l))
      × ((run cs (link s r)).sender.send_queue_size
          ≡ length (run cs (link s r)).sender.send_queue + busy (run cs (link s r)).sender.sending)
run-delivers d e s r cs p q fits =
    let v = Inv-run _ cs (link s r) fits (Inv-link d e s r p q) in
    (v.sound, (to_come (run cs (link s r)), v.accounted), v.size)

-- Once no packet is on the way and the sender holds no message, all the messages that were
-- accepted have been delivered.
pub run-drained :
    (d e : ChannelDescriptor) (s r : Channel) (cs : List Call)
    → new_channel d ≡ some s
    → new_channel e ≡ some r
    → All (Queues r.desc.recv_message_capacity) cs
    → (run cs (link s r)).in_flight ≡ []
    → (run cs (link s r)).sender.send_queue ≡ []
    → (run cs (link s r)).sender.sending ≡ []
    → (run cs (link s r)).delivered ≡ (run cs (link s r)).accepted
run-drained d e s r cs p q fits f g h =
    let v = Inv-run _ cs (link s r) fits (Inv-link d e s r p q) in
    let none_left : to_come (run cs (link s r)) ≡ [] = rw (f, g, h) in
    sym (v.accounted ∙ ap (◌++◌ (run cs (link s r)).delivered) none_left ∙ append-nil _)
