-- ===== src/P2p/Connection/Work.antt =====
-- What the channels of a connection still have to send, and what a poll of them changes.
use btm_stats.Base.{
  ℕ, zero, suc, ◌+◌, ◌≤◌, ◌<◌, ◌≡◌, inl, inr, ap, Bool, true, false, some, List, [], ◌∷◌, length,
  get_elem?, set, leb, arith, map, Bool-cases, length-drop, ltb→lt,
}
use btm_stats.P2p.Channel.{Channel, is_send_pending, next_msg_packet}
use btm_stats.P2p.Channel.Sending.{Pending, busy_now, idle, taken, is_send_pending-Pending}
use btm_stats.P2p.Connection.{Lane}

-- What a channel still has to do: the bytes to send, and the messages in the queue.
abbrev pub queue_work : List (List ℕ) → ℕ
queue_work [] = 0
queue_work (m ∷ ms) = length m + 1 + queue_work ms

abbrev pub channel_work : Channel → ℕ
channel_work ch = length ch.sending + queue_work ch.send_queue

abbrev pub work : List Lane → ℕ
work [] = 0
work (l ∷ ls) = channel_work l.channel + work ls

-- A channel with nothing to send.
abbrev pub IsIdle : Lane → Type 0
IsIdle l = (l.channel.sending ≡ []) × (l.channel.send_queue ≡ [])

abbrev pub polled : Lane → Lane
polled l = record l { channel = (is_send_pending l.channel).1 }

pub next_work :
    (ch : Channel)
    → (1 ≤ length ch.sending → channel_work (next_msg_packet ch).1 < channel_work ch)
      × (channel_work (next_msg_packet ch).1 ≤ channel_work ch)
unfolding next_msg_packet
next_work ch = elim (Bool-cases (leb (length ch.sending) 1024)) [
  | inl e ↦ (λ h. rw e (omega (arith, h)), rw e (omega arith))
  | inr e ↦
      let long = ltb→lt 1024 (length ch.sending) (ground (arith, e)) in
      let rest = length-drop 1024 ch.sending in
      (λ h. rw e (omega (arith, long, rest)), rw e (omega (arith, long, rest)))
]

-- What isSendPending does to the work that is left, before nextMsgPacket and after it.
pub record Polled (ch : Channel) (o : Bool × Channel) : Type 0 where
  pub less : channel_work o.1 ≤ channel_work ch
  pub step : o.0 ≡ true → channel_work (next_msg_packet o.1).1 < channel_work ch
  pub rest : o.0 ≡ false → (o.1.sending ≡ []) × (o.1.send_queue ≡ [])

pub Polled-Pending : (ch : Channel) (o : Bool × Channel) → Pending ch o → Polled ch o
Polled-Pending ch o (busy_now h) = record {
  less = omega arith;
  step = λ e. (next_work ch).0 h;
  rest = λ e. absurd (cc e);
}
Polled-Pending ch o (idle e f) = record {
  less = omega arith;
  step = λ e. absurd (cc e);
  rest = λ x. (e, f);
}
Polled-Pending ch o (taken m q e f) =
    let after = next_work (record ch { send_queue = q; sending = m }) in
    let before = ap queue_work f in
    record {
      less = omega (arith, before);
      step = λ x. omega (arith, before, after.1);
      rest = λ e. absurd (cc e);
    }

pub is_send_pending-Polled : (ch : Channel) → Polled ch (is_send_pending ch)
is_send_pending-Polled ch = Polled-Pending ch (is_send_pending ch) (is_send_pending-Pending ch)

pub less_after_polls : (ls : List Lane) → work (map polled ls) ≤ work ls
less_after_polls [] = omega arith
less_after_polls (l ∷ ls) =
    omega (arith, (is_send_pending-Polled l.channel).less, less_after_polls ls)

-- The work after the poll of every channel, with that of one channel counted apart.
pub total_after_polls :
    (ls : List Lane) (m : ℕ) (l : Lane)
    → get_elem? ls m ≡ some l
    → work (map polled ls) + channel_work l.channel
      ≤ work ls + channel_work (is_send_pending l.channel).1
total_after_polls [] m l e = absurd (cc)
total_after_polls (k ∷ ls) zero l e =
    let same : k ≡ l = cc e in
    let before = ap (λ x. channel_work x.channel) same in
    let after = ap (λ x. channel_work (is_send_pending x.channel).1) same in
    omega (arith, less_after_polls ls, before, after)
total_after_polls (k ∷ ls) (suc m) l e =
    omega (arith, total_after_polls ls m l e, (is_send_pending-Polled k.channel).less)

pub work-set :
    (ls : List Lane) (m : ℕ) (x y : Lane)
    → get_elem? ls m ≡ some x
    → work (set ls m y) + channel_work x.channel ≡ work ls + channel_work y.channel
work-set [] m x y e = absurd (cc)
work-set (k ∷ ls) zero x y e =
    let same : k ≡ x = cc e in omega (arith, ap (λ l. channel_work l.channel) same)
work-set (k ∷ ls) (suc m) x y e = omega (arith, work-set ls m x y e)

pub get_elem?-polled :
    (ls : List Lane) (m : ℕ) (l : Lane)
    → get_elem? ls m ≡ some l
    → get_elem? (map polled ls) m ≡ some (polled l)
get_elem?-polled [] m l e = absurd (cc)
get_elem?-polled (k ∷ ls) zero l e = ap some (ap polled (cc e))
get_elem?-polled (k ∷ ls) (suc m) l e = get_elem?-polled ls m l e
