-- ===== src/P2p/Connection/Messages.antt =====
-- What recvRoutine of p2p/connection/connection.go gives to onReceive.
use btm_stats.Base.{
  ℕ, ◌≡◌, inl, inr, refl, sym, ap, ◌∙◌, subst, Bool, true, false, Option, none, some, List, [], ◌∷◌,
  ◌++◌, get_elem?, ◌==◌, if◌then◌else◌, arith, Bool-cases, set, map, ℕ_discrete, ==_iff, ◌≢◌,
  append-nil, append_assoc,
}
use btm_stats.Errors.{Error}
use btm_stats.P2p.Channel.{Channel, MsgPacket, recv_msg_packet}
use btm_stats.P2p.Connection.{Lane, MConnection, put_channel, channel_index, stop_for_error}
use btm_stats.P2p.Connection.Lanes.{
  messages_of, messages_of-append, if_nil, index_lem, index-set, recv_keeps_id, get_elem?-set_other,
  get_elem?-set_here,
}
use btm_stats.P2p.Connection.Receiving.{
  packet, received_at, received_to, received_by, recv_round, go_on, recv_routine, then_messages,
  own_messages, packets_of,
}

module _ (unknown_channel unknown_type : ℕ → Error) where
  stops : (error : Error) (c : MConnection) → (stop_for_error error c).errored ≡ true
  unfolding stop_for_error
  stops error c = elim (Bool-cases c.errored) [ inl e ↦ rw e refl | inr e ↦ rw e refl ]

  -- A packet for the place j, seen from the channel at the place i.
  module _ (p : MsgPacket) (ps : List MsgPacket) (c : MConnection) (id i j : ℕ) (lane lane_j : Lane)
      (ch : Channel) (r : c.running ≡ true) (x : channel_index id c.channels ≡ some i)
      (g : get_elem? c.channels i ≡ some lane) (xj : channel_index p.channel_id c.channels ≡ some j)
      (gj : get_elem? c.channels j ≡ some lane_j) where
    abbrev moved : List Lane
    moved = set c.channels j (record lane_j { channel = ch })

    -- The packet is for the channel, which becomes ch, or it leaves the channel as it is.
    data Seen (k : Lane) : Type 0 where
      own :
          get_elem? moved i ≡ some k
          → p.channel_id ≡ id
          → k.channel ≡ ch
          → lane.channel ≡ lane_j.channel
          → Seen k
      others : get_elem? moved i ≡ some k → (p.channel_id == id) ≡ false → k ≡ lane → Seen k

    apart : p.channel_id ≢ id → i ≢ j
    apart n e =
        let (l, a, b) = index_lem id c.channels i x in
        let (m, d, f) = index_lem p.channel_id c.channels j xj in
        let same : l ≡ m = cc (sym a ∙ ap (get_elem? c.channels) e ∙ d) in
        n (sym f ∙ ap (λ y. y.channel.id) (sym same) ∙ b)

    seen : (k : Lane) × Seen k
    seen = elim (ℕ_discrete p.channel_id id) [
      | yes q ↦
          let place : j ≡ i = cc (sym xj ∙ ap (λ n. channel_index n c.channels) q ∙ x) in
          let found = ap (get_elem? c.channels) (sym place) ∙ gj in
          let same : lane ≡ lane_j = cc (sym g ∙ found) in
          (
            record lane_j { channel = ch },
            own
                (ap (get_elem? moved) (sym place)
                  ∙ get_elem?-set_here c.channels j lane_j (record lane_j { channel = ch }) gj)
                q refl (ap (λ l. l.channel) same),
          )
      | no n ↦ (
        lane,
        others
            (get_elem?-set_other c.channels i j lane_j (record lane_j { channel = ch }) lane gj g
              (apart n))
            (ground arith) refl,
      )
    ]

    -- What is left to come for the channel, after the packet gave the messages ms.
    rest_lem :
        (ms : List (List ℕ)) (k : Lane)
        → Seen k
        → own_messages (p ∷ packets_of id ps) lane_j.channel
          ≡ ms ++ own_messages (packets_of id ps) ch
        → own_messages (packets_of id (p ∷ ps)) lane.channel
          ≡ (if p.channel_id == id then ms else []) ++ own_messages (packets_of id ps) k.channel
    rest_lem ms k (own h q a b) e =
        let here : (p.channel_id == id) ≡ true = (==_iff p.channel_id id).1 q in
        ap (λ z. own_messages (if z then p ∷ packets_of id ps else packets_of id ps) lane.channel)
          here
        ∙ ap (own_messages (p ∷ packets_of id ps)) b
        ∙ e
        ∙ ap (λ y. ms ++ own_messages (packets_of id ps) y) (sym a)
        ∙ ap (λ z. (if z then ms else []) ++ own_messages (packets_of id ps) k.channel) (sym here)
    rest_lem ms k (others h n a) e =
        ap (λ z. own_messages (if z then p ∷ packets_of id ps else packets_of id ps) lane.channel) n
        ∙ ap (λ y. own_messages (packets_of id ps) y.channel) (sym a)
        ∙ ap (λ z. (if z then ms else []) ++ own_messages (packets_of id ps) k.channel) (sym n)

    found_lem : (k : Lane) → Seen k → get_elem? moved i ≡ some k
    found_lem k (own h q a b) = h
    found_lem k (others h n a) = h

    abbrev loop : MConnection → MConnection
    loop = recv_routine unknown_channel unknown_type (map packet ps)

    module _
        (ih : (d : MConnection) (k : Lane)
          → d.running ≡ true
          → (loop d).errored ≡ false
          → channel_index id d.channels ≡ some i
          → get_elem? d.channels i ≡ some k
          → messages_of id (loop d).received
            ≡ messages_of id d.received ++ own_messages (packets_of id ps) k.channel)
        (kept : ch.id ≡ lane_j.channel.id) where
      index_kept : channel_index id moved ≡ some i
      index_kept = index-set id c.channels j lane_j (record lane_j { channel = ch }) gj kept ∙ x

      received_lem :
          (o : Option (List ℕ) × Option Error)
          → (o, ch) ≡ recv_msg_packet p lane_j.channel
          → (go_on unknown_channel unknown_type loop
              (received_at unknown_channel unknown_type p.channel_id j lane_j (o, ch) c)).errored
            ≡ false
          → messages_of id
              (go_on unknown_channel unknown_type loop
                (received_at unknown_channel unknown_type p.channel_id j lane_j (o, ch) c)).received
            ≡ messages_of id c.received ++ own_messages (packets_of id (p ∷ ps)) lane.channel
      unfolding own_messages
      received_lem (m, some error) q e =
          let d = put_channel j lane_j ch c in
          absurd (
            cc (
              stops error d,
              subst
                  (λ z.
                    (go_on unknown_channel unknown_type loop
                      (if z then (false, stop_for_error error d) else (false, d))).errored
                    ≡ false)
                  r e,
            ))
      received_lem (none, none) q e =
          let (k, w) = seen in
          ih (put_channel j lane_j ch c) k r e index_kept (found_lem k w)
          ∙ ap (◌++◌ (messages_of id c.received)) (
              sym (
                rest_lem [] k w (ap (then_messages (own_messages (packets_of id ps))) (sym q))
                ∙ if_nil (p.channel_id == id) (own_messages (packets_of id ps) k.channel)))
      received_lem (some m, none) q e =
          let (k, w) = seen in
          let d = record (put_channel j lane_j ch c) {
            received = c.received ++ ((p.channel_id, m) ∷ []);
          } in
          let after = own_messages (packets_of id ps) k.channel in
          ih d k r e index_kept (found_lem k w)
          ∙ ap (λ l. l ++ after) (messages_of-append id c.received p.channel_id m)
          ∙ append_assoc (messages_of id c.received) (if p.channel_id == id then m ∷ [] else [])
              after
          ∙ ap (◌++◌ (messages_of id c.received)) (
              sym (
                rest_lem (m ∷ []) k w
                  (ap (then_messages (own_messages (packets_of id ps))) (sym q))))

  module _ (p : MsgPacket) (ps : List MsgPacket) (c : MConnection) (id i : ℕ) (lane : Lane)
      (r : c.running ≡ true) (x : channel_index id c.channels ≡ some i)
      (g : get_elem? c.channels i ≡ some lane)
      (ih : (d : MConnection) (k : Lane)
        → d.running ≡ true
        → (recv_routine unknown_channel unknown_type (map packet ps) d).errored ≡ false
        → channel_index id d.channels ≡ some i
        → get_elem? d.channels i ≡ some k
        → messages_of id (recv_routine unknown_channel unknown_type (map packet ps) d).received
          ≡ messages_of id d.received ++ own_messages (packets_of id ps) k.channel) where
    abbrev after : Bool × MConnection → MConnection
    after =
        go_on unknown_channel unknown_type
          (recv_routine unknown_channel unknown_type (map packet ps))

    abbrev Gives : Bool × MConnection → Type 0
    Gives o =
        (after o).errored ≡ false
        → messages_of id (after o).received
          ≡ messages_of id c.received ++ own_messages (packets_of id (p ∷ ps)) lane.channel

    by_index :
        (o : Option ℕ)
        → channel_index p.channel_id c.channels ≡ o
        → Gives (received_by unknown_channel unknown_type p o c)
    by_index none q = λ e. absurd (cc (stops (unknown_channel p.channel_id) c, e))
    by_index (some j) q =
        let (lane_j, gj, h) = index_lem p.channel_id c.channels j q in
        let out = recv_msg_packet p lane_j.channel in
        subst (λ o. Gives (received_to unknown_channel unknown_type p j o c)) (sym gj)
          (received_lem p ps c id i j lane lane_j out.1 r x g q gj ih
            (recv_keeps_id p lane_j.channel) out.0 refl)

  -- Each channel gives the messages that its packets carry, whatever packets of other channels come
  -- between them: what onReceive gets for an id, on a connection that runs and that no error stops.
  pub recv_routine-own_messages :
      (ps : List MsgPacket) (c : MConnection) (id i : ℕ) (lane : Lane)
      → c.running ≡ true
      → (recv_routine unknown_channel unknown_type (map packet ps) c).errored ≡ false
      → channel_index id c.channels ≡ some i
      → get_elem? c.channels i ≡ some lane
      → messages_of id (recv_routine unknown_channel unknown_type (map packet ps) c).received
        ≡ messages_of id c.received ++ own_messages (packets_of id ps) lane.channel
  unfolding recv_routine recv_round own_messages
  recv_routine-own_messages [] c id i lane r e x g = sym (append-nil (messages_of id c.received))
  recv_routine-own_messages (p ∷ ps) c id i lane r e x g =
      by_index p ps c id i lane r x g (λ d k s f y h. recv_routine-own_messages ps d id i k s f y h)
        (channel_index p.channel_id c.channels) refl e
