-- ===== src/P2p/Channel/Receiving.antt =====
-- The receiver keeps what holds between the calls.
use btm_stats.Base.{
  ℕ, ◌+◌, ◌≡◌, refl, sym, ap, ◌∙◌, true, false, List, [], ◌∷◌, ◌++◌, length, All, ltb, ◌==◌, arith,
  append_assoc, Bool-cases, inl, inr, le→ltb, subst,
}
use btm_stats.P2p.Channel.{MsgPacket, recv_msg_packet}
use btm_stats.P2p.Channel.Stream.{Link, arrived}
use btm_stats.P2p.Channel.Packets.{rest_of, last_part, unsent, Fits, packet-Fits, unsent-part}
use btm_stats.P2p.Channel.Sending.{Inv, to_come}

module _ (cap : ℕ) (l : Link) (v : Inv cap l) where
  -- The receiver takes the next packet.
  module _ (p : MsgPacket) (ps : List MsgPacket) (first : l.in_flight ≡ p ∷ ps) where
    was :
        to_come l
        ≡ rest_of l.receiver.recving (p ∷ ps) (unsent l.sender.sending l.sender.send_queue)
    was = ap (λ x. rest_of l.receiver.recving x (unsent l.sender.sending l.sender.send_queue)) first

    last_was : last_part l.receiver.recving l.in_flight ≡ last_part l.receiver.recving (p ∷ ps)
    last_was = ap (last_part l.receiver.recving) first

    space :
        ltb l.receiver.desc.recv_message_capacity (length l.receiver.recving + length p.bytes)
        ≡ false
    space =
        let small =
          packet-Fits cap (unsent l.sender.sending l.sender.send_queue) l.receiver.recving p ps
            (λ q e.
              unsent-part cap l.sender.sending l.sender.send_queue q
                (λ z. e ∙ sym last_was ∙ v.ends z))
            (subst (All (Fits cap)) was v.fit) in
        le→ltb _ _ (omega (arith, small, v.capacity))

    Inv-message :
        (p.eof == 1) ≡ true
        → Inv cap (record l {
          in_flight = ps;
          receiver = record l.receiver { recving = [] };
          delivered = l.delivered ++ ((l.receiver.recving ++ p.bytes) ∷ []);
        })
    Inv-message q =
        let f : to_come l
            ≡ (l.receiver.recving ++ p.bytes)
              ∷ rest_of [] ps (unsent l.sender.sending l.sender.send_queue) =
          was ∙ rw q refl in
        let g : last_part l.receiver.recving (p ∷ ps) ≡ last_part [] ps = rw q refl in
        record {
          accounted =
              v.accounted
              ∙ ap (◌++◌ l.delivered) f
              ∙ sym (append_assoc l.delivered ((l.receiver.recving ++ p.bytes) ∷ []) _);
          fit = (subst (All (Fits cap)) f v.fit).1;
          ends = λ z. sym g ∙ sym last_was ∙ v.ends z;
          size = v.size;
          capacity = v.capacity;
          sound = v.sound;
        }

    Inv-piece :
        (p.eof == 1) ≡ false
        → Inv cap (record l {
          in_flight = ps;
          receiver = record l.receiver { recving = l.receiver.recving ++ p.bytes };
        })
    Inv-piece q =
        let f : to_come l
            ≡ rest_of (l.receiver.recving ++ p.bytes) ps
                (unsent l.sender.sending l.sender.send_queue) =
          was ∙ rw q refl in
        let g : last_part l.receiver.recving (p ∷ ps)
            ≡ last_part (l.receiver.recving ++ p.bytes) ps =
          rw q refl in
        record {
          accounted = v.accounted ∙ ap (◌++◌ l.delivered) f;
          fit = subst (All (Fits cap)) f v.fit;
          ends = λ z. sym g ∙ sym last_was ∙ v.ends z;
          size = v.size;
          capacity = v.capacity;
          sound = v.sound;
        }

    Inv-packet : Inv cap (arrived (p ∷ ps) l)
    unfolding recv_msg_packet
    Inv-packet = elim (Bool-cases (p.eof == 1)) [
      | inl q ↦ rw (space, q) (Inv-message q)
      | inr q ↦ rw (space, q) (Inv-piece q)
    ]

  pub Inv-arrived : (ps : List MsgPacket) → l.in_flight ≡ ps → Inv cap (arrived ps l)
  Inv-arrived [] e = v
  Inv-arrived (p ∷ ps) e = Inv-packet p ps e
