-- ===== src/P2p/Connection/Draining.antt =====
-- sendMsgPacket sends what the channels hold, until they hold nothing.
use btm_stats.Base.{
  ℕ, zero, suc, ◌+◌, ◌<◌, ◌≡◌, ◌⊎◌, inl, inr, refl, sym, ap, ◌∙◌, subst, Bool, true, false, not,
  Option, none, some, List, [], ◌∷◌, All, get_elem?, arith, map, Bool-cases,
}
use btm_stats.Errors.{Error}
use btm_stats.P2p.Channel.{Channel, MsgPacket, is_send_pending, next_msg_packet}
use btm_stats.P2p.Connection.{
  Lane, MConnection, Ratios, with_head, least_channel, send_msg_packet, send_batch, again,
  written_at, written_by, written,
}
use btm_stats.P2p.Connection.Work.{
  channel_work, work, IsIdle, polled, is_send_pending-Polled, total_after_polls, work-set,
  get_elem?-polled,
}

module _ {F : Type 0} (f : Ratios F) where
  abbrev is_pending : Lane → Bool
  is_pending l = (is_send_pending l.channel).0

  abbrev ratio_of : Lane → F
  ratio_of l = f.quotient l.recently_sent (is_send_pending l.channel).1.priority

  -- A round of the loop takes the channel, or passes over it.
  data Round (i : ℕ) (least : F) (chosen : Option ℕ) (l : Lane) (ls : List Lane)
      (r : Option ℕ × List Lane) : Type 0 where
    takes :
        r ≡ with_head f (polled l) (least_channel f (suc i) (ratio_of l) (some i) ls)
        → is_pending l ≡ true
        → f.less (ratio_of l) least ≡ true
        → Round i least chosen l ls r
    passes :
        r ≡ with_head f (polled l) (least_channel f (suc i) least chosen ls)
        → (is_pending l ≡ false) ⊎ (f.less (ratio_of l) least ≡ false)
        → Round i least chosen l ls r

  least_channel-Round :
      (i : ℕ) (least : F) (chosen : Option ℕ) (l : Lane) (ls : List Lane)
      → Round i least chosen l ls (least_channel f i least chosen (l ∷ ls))
  unfolding least_channel
  least_channel-Round i least chosen l ls = elim (Bool-cases (not (is_pending l))) [
    | inl e ↦ passes (rw e refl) (inl (negated (is_pending l) e))
    | inr e ↦ elim (Bool-cases (f.less (ratio_of l) least)) [
      | inl g ↦ takes (rw (e, g) refl) (negated_back (is_pending l) e) g
      | inr g ↦ passes (rw (e, g) refl) (inr g)
    ]
  ]
    where
      negated : (x : Bool) → not x ≡ true → x ≡ false
      negated x e = ground arith

      negated_back : (x : Bool) → not x ≡ false → x ≡ true
      negated_back x e = ground arith

  -- The loop polls every channel.
  least_channel-polled :
      (i : ℕ) (least : F) (chosen : Option ℕ) (ls : List Lane)
      → (least_channel f i least chosen ls).1 ≡ map polled ls
  unfolding least_channel
  least_channel-polled i least chosen [] = refl
  least_channel-polled i least chosen (l ∷ ls) = elim (least_channel-Round i least chosen l ls) [
    | takes e p g ↦
        ap (λ r. r.1) e
        ∙ ap (◌∷◌ (polled l)) (least_channel-polled (suc i) (ratio_of l) (some i) ls)
    | passes e h ↦
        ap (λ r. r.1) e ∙ ap (◌∷◌ (polled l)) (least_channel-polled (suc i) least chosen ls)
  ]

  -- The place that it chooses is that of a channel with something to send.
  least_channel-chosen :
      (i : ℕ) (least : F) (chosen : Option ℕ) (ls : List Lane) (j : ℕ)
      → (least_channel f i least chosen ls).0 ≡ some j
      → (chosen ≡ some j)
        ⊎ ((m : ℕ) × (l : Lane) × (j ≡ i + m) × (get_elem? ls m ≡ some l) × (is_pending l ≡ true))
  unfolding least_channel
  least_channel-chosen i least chosen [] j e = inl e
  least_channel-chosen i least chosen (l ∷ ls) j e =
      elim (least_channel-Round i least chosen l ls) [
        | takes q p g ↦
            elim (least_channel-chosen (suc i) (ratio_of l) (some i) ls j
              (ap (λ r. r.0) (sym q) ∙ e)) [
                | inl h ↦ let here : i ≡ j = cc h in inr (0, l, omega (arith, here), refl, p)
                | inr (m, k, a, b, c) ↦ inr (suc m, k, omega (arith, a), b, c)
              ]
        | passes q h ↦
            elim (least_channel-chosen (suc i) least chosen ls j (ap (λ r. r.0) (sym q) ∙ e)) [
              | inl h ↦ inl h
              | inr (m, k, a, b, c) ↦ inr (suc m, k, omega (arith, a), b, c)
            ]
      ]

  some_stays :
      (i : ℕ) (least : F) (j : ℕ) (ls : List Lane)
      → (k : ℕ) × ((least_channel f i least (some j) ls).0 ≡ some k)
  unfolding least_channel
  some_stays i least j [] = (j, refl)
  some_stays i least j (l ∷ ls) = elim (least_channel-Round i least (some j) l ls) [
    | takes q p g ↦ let (k, e) = some_stays (suc i) (ratio_of l) i ls in (k, ap (λ r. r.0) q ∙ e)
    | passes q h ↦ let (k, e) = some_stays (suc i) least j ls in (k, ap (λ r. r.0) q ∙ e)
  ]

  -- Where it chooses none, no channel has anything to send.
  module _
      (finite : (sent priority : ℕ) → f.less (f.quotient sent priority) f.max_float ≡ true) where
    least_channel-none :
        (i : ℕ) (ls : List Lane)
        → (least_channel f i f.max_float none ls).0 ≡ none
        → All IsIdle (map polled ls)
    unfolding least_channel
    least_channel-none i [] e = tt
    least_channel-none i (l ∷ ls) e = elim (least_channel-Round i f.max_float none l ls) [
      | takes q p g ↦
          let (k, h) = some_stays (suc i) (ratio_of l) i ls in
          absurd (cc (h, ap (λ r. r.0) (sym q) ∙ e))
      | passes q (inl h) ↦ (
        (is_send_pending-Polled l.channel).rest h,
        least_channel-none (suc i) ls (ap (λ r. r.0) (sym q) ∙ e),
      )
      | passes q (inr h) ↦
          absurd (cc (h, finite l.recently_sent (is_send_pending l.channel).1.priority))
    ]

    module _ {W : Type 0} (write : MsgPacket → W → (ℕ × Option Error) × W)
        (writes : (p : MsgPacket) (w : W) → (write p w).0.1 ≡ none) where
      -- A call of sendMsgPacket finds nothing to send, or leaves less to send.
      data Sent (c : MConnection) (r : Bool × MConnection × W) : Type 0 where
        exhausted : r.0 ≡ true → All IsIdle r.1.channels → Sent c r
        sent : r.0 ≡ false → work r.1.channels < work c.channels → Sent c r

      written-Sent :
          (b c : MConnection) (m : ℕ) (lane : Lane) (ch : Channel) (o : (ℕ × Option Error) × W)
          → o.0.1 ≡ none
          → get_elem? c.channels m ≡ some lane
          → work c.channels + channel_work ch < work b.channels + channel_work lane.channel
          → Sent b (written f write m lane ch o c)
      written-Sent b c m lane ch ((n, some e), w) h g l = absurd (cc h)
      written-Sent b c m lane ch ((n, none), w) h g l =
          let now = record lane { channel = ch; recently_sent = lane.recently_sent + n } in
          sent refl (omega (arith, l, work-set c.channels m lane now g))

      -- sendMsgPacket, from the place that the loop chose.
      chosen-Sent :
          (c : MConnection) (w : W) (o : Option ℕ) (ls : List Lane)
          → (least_channel f 0 f.max_float none c.channels).0 ≡ o
          → ls ≡ map polled c.channels
          → Sent c (written_by f write (o, ls) c w)
      chosen-Sent c w none ls e q =
          exhausted refl (subst (All IsIdle) (sym q) (least_channel-none 0 c.channels e))
      chosen-Sent c w (some j) ls e q =
          elim (least_channel-chosen 0 f.max_float none c.channels j e) [
            | inl h ↦ absurd (cc h)
            | inr (m, l, a, b, p) ↦
                let here : j ≡ m = omega (arith, a) in
                let found : get_elem? ls j ≡ some (polled l) =
                  ap (get_elem? ls) here
                  ∙ ap (λ x. get_elem? x m) q
                  ∙ get_elem?-polled c.channels m l b in
                let less = (is_send_pending-Polled l.channel).step p in
                let total = ap work q in
                subst (λ x. Sent c (written_at f write j x (record c { channels = ls }) w))
                  (sym found)
                  (written-Sent c (record c { channels = ls }) j (polled l)
                    (next_msg_packet (is_send_pending l.channel).1).1 _ (writes _ w) found
                    (omega (arith, total_after_polls c.channels m l b, less, total)))
          ]

      send_msg_packet-Sent : (c : MConnection) (w : W) → Sent c (send_msg_packet f write c w)
      unfolding send_msg_packet
      send_msg_packet-Sent c w =
          chosen-Sent c w _ _ refl (least_channel-polled 0 f.max_float none c.channels)

      abbrev Drained : Bool × MConnection × W → Type 0
      Drained r = (r.0 ≡ true) × All IsIdle r.1.channels

      after :
          (n : ℕ) (c : MConnection)
          → work c.channels < suc n
          → (r : Bool × MConnection × W)
          → ((d : MConnection) (x : W) → work d.channels < n → Drained (send_batch f write n d x))
          → Sent c r
          → Drained (again f write (send_batch f write n) r)
      after n c h (true, d, x) rest (exhausted e i) = (refl, i)
      after n c h (true, d, x) rest (sent e l) = absurd (cc e)
      after n c h (false, d, x) rest (exhausted e i) = absurd (cc e)
      after n c h (false, d, x) rest (sent e l) = rest d x (omega (arith, h, l))

      -- With a writer that gives no error, and ratios below MaxFloat32, sendMsgPacket called often
      -- enough has sent all that the channels hold: it answers that the messages are exhausted, and
      -- no channel has a message in its queue or in part. As many calls are enough as there are
      -- bytes and messages, and one more.
      pub send_batch-drains :
          (n : ℕ) (c : MConnection) (w : W)
          → work c.channels < n
          → ((send_batch f write n c w).0 ≡ true) × All IsIdle (send_batch f write n c w).1.channels
      unfolding send_batch
      send_batch-drains zero c w h = absurd (omega (arith, h))
      send_batch-drains (suc n) c w h =
          after n c h (send_msg_packet f write c w) (λ d x l. send_batch-drains n d x l)
            (send_msg_packet-Sent c w)
