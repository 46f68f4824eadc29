-- ===== src/P2p/Channel/Sending.antt =====
-- What holds of two channels between the calls, and that the sender keeps it.
use btm_stats.Base.{
  ℕ, ◌+◌, ◌-◌, ◌≤◌, ◌<◌, ◌≡◌, refl, sym, ap, ◌∙◌, Bool, true, false, none, List, [], ◌∷◌, ◌++◌,
  length, take, drop, All, ltb, leb, ◌==◌, arith, append_assoc, length-append, length-drop,
  take-append-drop, take_all, Bool-cases, ==_iff, inl, inr, All-append, subst,
}
use btm_stats.P2p.Channel.{
  Channel, MsgPacket, max_msg_packet_payload_size, try_send_bytes, from_queue, is_send_pending,
  next_msg_packet,
}
use btm_stats.P2p.Channel.Stream.{Link, sent, queued}
use btm_stats.P2p.Channel.Packets.{
  rest_of, last_part, unsent, busy, rest_of-cong, rest_of-end, last_part-end, rest_of-append, Fits,
  unsent-Fits, unsent-append, unsent-busy, busy_one,
}

-- The messages that are still to come.
abbrev pub to_come : Link → List (List ℕ)
to_come l = rest_of l.receiver.recving l.in_flight (unsent l.sender.sending l.sender.send_queue)

-- What holds between the calls.
pub record Inv (cap : ℕ) (l : Link) : Type 0 where
  pub accounted : l.accepted ≡ l.delivered ++ to_come l
  pub fit : All (Fits cap) (to_come l)
  pub ends : l.sender.sending ≡ [] → last_part l.receiver.recving l.in_flight ≡ []
  pub size : l.sender.send_queue_size ≡ length l.sender.send_queue + busy l.sender.sending
  pub capacity : l.receiver.desc.recv_message_capacity ≡ cap
  pub sound : l.failure ≡ none

length_zero : (l : List ℕ) → length l ≡ 0 → l ≡ []
length_zero [] e = refl
length_zero (b ∷ bs) e = absurd (omega arith)

-- What isSendPending finds.
pub data Pending (s : Channel) : Bool × Channel → Type 0 where
  busy_now : 1 ≤ length s.sending → Pending s (true, s)
  idle : s.sending ≡ [] → s.send_queue ≡ [] → Pending s (false, s)
  taken :
      (m : List ℕ) (q : List (List ℕ))
      → s.sending ≡ []
      → s.send_queue ≡ m ∷ q
      → Pending s (true, record s { send_queue = q; sending = m })

from_queue-Pending :
    (s : Channel) (y : List (List ℕ))
    → s.sending ≡ []
    → s.send_queue ≡ y
    → Pending s (from_queue y s)
from_queue-Pending s [] e f = idle e f
from_queue-Pending s (m ∷ q) e f = taken m q e f

pub is_send_pending-Pending : (s : Channel) → Pending s (is_send_pending s)
unfolding is_send_pending
is_send_pending-Pending s = elim (Bool-cases (length s.sending == 0)) [
  | inl z ↦ rw z (from_queue-Pending s s.send_queue (length_zero s.sending ((==_iff _ 0).0 z)) refl)
  | inr z ↦ rw z (busy_now (ground arith))
]

module _ (cap : ℕ) (l : Link) (v : Inv cap l) where
  -- A step of the sender that leaves what is to come as it is.
  pub Inv-sender :
      (s : Channel) (ps : List MsgPacket)
      → rest_of l.receiver.recving ps (unsent s.sending s.send_queue) ≡ to_come l
      → (s.sending ≡ [] → last_part l.receiver.recving ps ≡ [])
      → s.send_queue_size ≡ length s.send_queue + busy s.sending
      → Inv cap (record l { sender = s; in_flight = ps })
  Inv-sender s ps e ends size = record {
    accounted = v.accounted ∙ ap (◌++◌ l.delivered) (sym e);
    fit = subst (All (Fits cap)) (sym e) v.fit;
    ends = ends;
    size = size;
    capacity = v.capacity;
    sound = v.sound;
  }

  pub queue_head :
      (m : List ℕ) (q : List (List ℕ))
      → l.sender.sending ≡ []
      → l.sender.send_queue ≡ m ∷ q
      → 1 ≤ length m
  queue_head m q e f =
      let now : unsent l.sender.sending l.sender.send_queue ≡ unsent [] (m ∷ q) = rw (e, f) in
      let fits : All (Fits cap) (m ∷ q) =
        subst (λ k. All (Fits cap) (k (last_part l.receiver.recving l.in_flight))) now
          (unsent-Fits cap (unsent l.sender.sending l.sender.send_queue) l.receiver.recving
            l.in_flight v.fit) in
      fits.0.0

  pub Inv-poll : (o : Bool × Channel) → Pending l.sender o → Inv cap (record l { sender = o.1 })
  Inv-poll o (busy_now h) = v
  Inv-poll o (idle e f) = v
  Inv-poll o (taken m q e f) =
      let last = v.ends e in
      let now : unsent l.sender.sending l.sender.send_queue ≡ unsent [] (m ∷ q) = rw (e, f) in
      let nonempty = queue_head m q e f in
      Inv-sender (record l.sender { send_queue = q; sending = m }) l.in_flight
        (rest_of-cong l.receiver.recving l.in_flight _ _
          (rw (now, last, unsent-busy m q [] nonempty)))
        (λ x. last) (omega (arith, v.size, ap length f, ap busy e, busy_one m nonempty))

  module _ (busy_now : 1 ≤ length l.sender.sending) where
    Inv-whole :
        length l.sender.sending ≤ max_msg_packet_payload_size
        → Inv cap (record l {
          sender = record l.sender { sending = []; send_queue_size = l.sender.send_queue_size - 1 };
          in_flight =
              l.in_flight
              ++ (record {
                channel_id = l.sender.id;
                eof = 1;
                bytes = take max_msg_packet_payload_size l.sender.sending;
              }
                  ∷ []);
        })
    Inv-whole small =
        Inv-sender _ _
          (rest_of-end l.receiver.recving l.in_flight _ _
            ∙ rest_of-cong l.receiver.recving l.in_flight _ _ (
                rw (take_all max_msg_packet_payload_size l.sender.sending small)
                  (sym (unsent-busy l.sender.sending l.sender.send_queue _ busy_now))))
          (λ x. last_part-end l.receiver.recving l.in_flight _)
          (omega (arith, v.size, busy_one l.sender.sending busy_now))

    Inv-part :
        max_msg_packet_payload_size < length l.sender.sending
        → Inv cap (record l {
          sender = record l.sender { sending = drop max_msg_packet_payload_size l.sender.sending };
          in_flight =
              l.in_flight
              ++ (record {
                channel_id = l.sender.id;
                eof = 0;
                bytes = take max_msg_packet_payload_size l.sender.sending;
              }
                  ∷ []);
        })
    Inv-part large =
        let left : 1 ≤ length (drop max_msg_packet_payload_size l.sender.sending) =
          omega (arith, length-drop max_msg_packet_payload_size l.sender.sending) in
        Inv-sender _ _
          (rest_of-end l.receiver.recving l.in_flight _ _
            ∙ rest_of-cong l.receiver.recving l.in_flight _ _ (
                rw
                  (
                    unsent-busy (drop max_msg_packet_payload_size l.sender.sending)
                        l.sender.send_queue _ left,
                    unsent-busy l.sender.sending l.sender.send_queue _ busy_now,
                  )
                  (rw (
                    append_assoc (last_part l.receiver.recving l.in_flight)
                        (take max_msg_packet_payload_size l.sender.sending)
                        (drop max_msg_packet_payload_size l.sender.sending),
                    take-append-drop max_msg_packet_payload_size l.sender.sending,
                  ))))
          (λ x. absurd (omega (arith, left, ap length x)))
          (omega (arith, v.size, busy_one l.sender.sending busy_now, busy_one _ left))

    pub Inv-next : Inv cap (sent (next_msg_packet l.sender) l)
    unfolding next_msg_packet
    Inv-next = elim (Bool-cases (leb (length l.sender.sending) max_msg_packet_payload_size)) [
      | inl small ↦ rw small (Inv-whole (ground arith))
      | inr large ↦ rw large (Inv-part (ground arith))
    ]

  Inv-queued :
      (m : List ℕ)
      → Fits cap m
      → Inv cap (record l {
        sender = record l.sender {
          send_queue = l.sender.send_queue ++ (m ∷ []);
          send_queue_size = l.sender.send_queue_size + 1;
        };
        accepted = l.accepted ++ (m ∷ []);
      })
  Inv-queued m fits =
      let longer : rest_of l.receiver.recving l.in_flight
            (unsent l.sender.sending (l.sender.send_queue ++ (m ∷ [])))
          ≡ to_come l ++ (m ∷ []) =
        rest_of-cong l.receiver.recving l.in_flight _ _
          (unsent-append l.sender.sending l.sender.send_queue (m ∷ []) _)
        ∙ rest_of-append l.receiver.recving l.in_flight
            (unsent l.sender.sending l.sender.send_queue) (m ∷ []) in
      record {
        accounted =
            ap (λ x. x ++ (m ∷ [])) v.accounted
            ∙ append_assoc l.delivered (to_come l) (m ∷ [])
            ∙ ap (◌++◌ l.delivered) (sym longer);
        fit =
            subst (All (Fits cap)) (sym longer)
              (All-append (Fits cap) (to_come l) (m ∷ []) v.fit (fits, tt));
        ends = v.ends;
        size = omega (arith, v.size, length-append l.sender.send_queue (m ∷ []));
        capacity = v.capacity;
        sound = v.sound;
      }

  pub Inv-queue : (m : List ℕ) → Fits cap m → Inv cap (queued m (try_send_bytes m l.sender) l)
  unfolding try_send_bytes
  Inv-queue m fits =
      elim (Bool-cases (ltb (length l.sender.send_queue) l.sender.desc.send_queue_capacity)) [
        | inl room ↦ rw room (Inv-queued m fits)
        | inr full ↦ rw full v
      ]
