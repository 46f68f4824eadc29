-- ===== src/P2p/Channel/Packets.antt =====
-- Messages in packets, and what is still to come behind the part of one.
use btm_stats.Base.{
  ℕ, ◌+◌, ◌≤◌, ◌≡◌, refl, sym, ap, ◌∙◌, List, [], ◌∷◌, ◌++◌, length, All, ◌==◌, if◌then◌else◌,
  arith, length-append, Bool-cases, inl, inr, subst,
}
use btm_stats.P2p.Channel.{MsgPacket}

-- The messages that packets complete behind a part of one, with `k` for the part that is left.
abbrev pub rest_of : List ℕ → List MsgPacket → (List ℕ → List (List ℕ)) → List (List ℕ)
rest_of part [] k = k part
rest_of part (p ∷ ps) k =
    let whole = rest_of [] ps k in
    let more = rest_of (part ++ p.bytes) ps k in
    if p.eof == 1 then (part ++ p.bytes) ∷ whole else more

-- The part of a message behind packets.
abbrev pub last_part : List ℕ → List MsgPacket → List ℕ
last_part part [] = part
last_part part (p ∷ ps) =
    let whole = last_part [] ps in
    let more = last_part (part ++ p.bytes) ps in if p.eof == 1 then whole else more

-- What the sender has still to send, behind the part that it has sent of a message.
abbrev pub unsent : List ℕ → List (List ℕ) → List ℕ → List (List ℕ)
unsent [] queue part = queue
unsent (b ∷ bs) queue part = (part ++ (b ∷ bs)) ∷ queue

abbrev pub busy : List ℕ → ℕ
busy [] = 0
busy (b ∷ bs) = 1

pub rest_of-cong :
    (part : List ℕ) (ps : List MsgPacket) (k j : List ℕ → List (List ℕ))
    → k (last_part part ps) ≡ j (last_part part ps)
    → rest_of part ps k ≡ rest_of part ps j
rest_of-cong part [] k j e = e
rest_of-cong part (p ∷ ps) k j e = elim (Bool-cases (p.eof == 1)) [
  | inl q ↦
      let f : last_part part (p ∷ ps) ≡ last_part [] ps = rw q refl in
      rw q (ap (◌∷◌ (part ++ p.bytes)) (rest_of-cong [] ps k j (ap k (sym f) ∙ e ∙ ap j f)))
  | inr q ↦
      let f : last_part part (p ∷ ps) ≡ last_part (part ++ p.bytes) ps = rw q refl in
      rw q (rest_of-cong (part ++ p.bytes) ps k j (ap k (sym f) ∙ e ∙ ap j f))
]

pub rest_of-end :
    (part : List ℕ) (ps : List MsgPacket) (p : MsgPacket) (k : List ℕ → List (List ℕ))
    → rest_of part (ps ++ (p ∷ [])) k ≡ rest_of part ps (λ q. rest_of q (p ∷ []) k)
rest_of-end part [] p k = refl
rest_of-end part (x ∷ ps) p k = rw (rest_of-end [] ps p k, rest_of-end (part ++ x.bytes) ps p k)

pub last_part-end :
    (part : List ℕ) (ps : List MsgPacket) (p : MsgPacket)
    → last_part part (ps ++ (p ∷ [])) ≡ last_part (last_part part ps) (p ∷ [])
last_part-end part [] p = refl
last_part-end part (x ∷ ps) p = elim (Bool-cases (x.eof == 1)) [
  | inl q ↦ rw (q, last_part-end [] ps p)
  | inr q ↦ rw (q, last_part-end (part ++ x.bytes) ps p)
]

pub rest_of-append :
    (part : List ℕ) (ps : List MsgPacket) (k : List ℕ → List (List ℕ)) (l : List (List ℕ))
    → rest_of part ps (λ q. k q ++ l) ≡ rest_of part ps k ++ l
rest_of-append part [] k l = refl
rest_of-append part (p ∷ ps) k l = elim (Bool-cases (p.eof == 1)) [
  | inl q ↦ rw q (ap (◌∷◌ (part ++ p.bytes)) (rest_of-append [] ps k l))
  | inr q ↦ rw q (rest_of-append (part ++ p.bytes) ps k l)
]

-- A message that the receiver can hold, and that is not empty.
abbrev pub Fits : ℕ → List ℕ → Type 0
Fits cap m = (1 ≤ length m) × (length m ≤ cap)

All-head : (cap : ℕ) (m : List ℕ) (l : List (List ℕ)) → All (Fits cap) (m ∷ l) → length m ≤ cap
All-head cap m l ((a, b), hs) = b

module _ (cap : ℕ) (k : List ℕ → List (List ℕ)) where
  -- The part that the receiver holds fits, where all that is to come does.
  pub part-Fits :
      (part : List ℕ) (ps : List MsgPacket)
      → ((q : List ℕ) → q ≡ last_part part ps → All (Fits cap) (k q) → length q ≤ cap)
      → All (Fits cap) (rest_of part ps k)
      → length part ≤ cap
  part-Fits part [] base h = base part refl h
  part-Fits part (p ∷ ps) base h = elim (Bool-cases (p.eof == 1)) [
    | inl q ↦
        let f : rest_of part (p ∷ ps) k ≡ (part ++ p.bytes) ∷ rest_of [] ps k = rw q refl in
        omega (arith, All-head cap _ _ (subst (All (Fits cap)) f h), length-append part p.bytes)
    | inr q ↦
        let f : rest_of part (p ∷ ps) k ≡ rest_of (part ++ p.bytes) ps k = rw q refl in
        let g : last_part part (p ∷ ps) ≡ last_part (part ++ p.bytes) ps = rw q refl in
        omega (
          arith,
          part-Fits (part ++ p.bytes) ps (λ x e. base x (e ∙ sym g)) (subst (All (Fits cap)) f h),
          length-append part p.bytes,
        )
  ]

  -- The next packet fits too.
  pub packet-Fits :
      (part : List ℕ) (p : MsgPacket) (ps : List MsgPacket)
      → ((q : List ℕ) → q ≡ last_part part (p ∷ ps) → All (Fits cap) (k q) → length q ≤ cap)
      → All (Fits cap) (rest_of part (p ∷ ps) k)
      → length part + length p.bytes ≤ cap
  packet-Fits part p ps base h = elim (Bool-cases (p.eof == 1)) [
    | inl q ↦
        let f : rest_of part (p ∷ ps) k ≡ (part ++ p.bytes) ∷ rest_of [] ps k = rw q refl in
        omega (arith, All-head cap _ _ (subst (All (Fits cap)) f h), length-append part p.bytes)
    | inr q ↦
        let f : rest_of part (p ∷ ps) k ≡ rest_of (part ++ p.bytes) ps k = rw q refl in
        let g : last_part part (p ∷ ps) ≡ last_part (part ++ p.bytes) ps = rw q refl in
        omega (
          arith,
          part-Fits (part ++ p.bytes) ps (λ x e. base x (e ∙ sym g)) (subst (All (Fits cap)) f h),
          length-append part p.bytes,
        )
  ]

  -- What the sender has still to send fits.
  pub unsent-Fits :
      (part : List ℕ) (ps : List MsgPacket)
      → All (Fits cap) (rest_of part ps k)
      → All (Fits cap) (k (last_part part ps))
  unsent-Fits part [] h = h
  unsent-Fits part (p ∷ ps) h = elim (Bool-cases (p.eof == 1)) [
    | inl q ↦
        let f : rest_of part (p ∷ ps) k ≡ (part ++ p.bytes) ∷ rest_of [] ps k = rw q refl in
        rw q (unsent-Fits [] ps (subst (All (Fits cap)) f h).1)
    | inr q ↦
        let f : rest_of part (p ∷ ps) k ≡ rest_of (part ++ p.bytes) ps k = rw q refl in
        rw q (unsent-Fits (part ++ p.bytes) ps (subst (All (Fits cap)) f h))
  ]

pub unsent-append :
    (s : List ℕ) (queue l : List (List ℕ)) (part : List ℕ)
    → unsent s (queue ++ l) part ≡ unsent s queue part ++ l
unsent-append [] queue l part = refl
unsent-append (b ∷ bs) queue l part = refl

pub unsent-busy :
    (s : List ℕ) (queue : List (List ℕ)) (part : List ℕ)
    → 1 ≤ length s
    → unsent s queue part ≡ (part ++ s) ∷ queue
unsent-busy [] queue part h = absurd (omega arith)
unsent-busy (b ∷ bs) queue part h = refl

pub busy_one : (s : List ℕ) → 1 ≤ length s → busy s ≡ 1
busy_one [] h = absurd (omega arith)
busy_one (b ∷ bs) h = refl

-- A part in front of what is unsent fits, where it is empty between two messages.
pub unsent-part :
    (cap : ℕ) (s : List ℕ) (queue : List (List ℕ)) (q : List ℕ)
    → (s ≡ [] → q ≡ [])
    → All (Fits cap) (unsent s queue q)
    → length q ≤ cap
unsent-part cap [] queue q ends h = rw (ends refl) (omega arith)
unsent-part cap (b ∷ bs) queue q ends h =
    omega (arith, All-head cap _ _ h, length-append q (b ∷ bs))
