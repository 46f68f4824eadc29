-- ===== src/P2p/SecretConnection/Nonces.antt =====
-- The counters of p2p/connection/secret_connection.go.
use btm_stats.Base.{
  ℕ, zero, suc, ◌+◌, ◌*◌, ◌%◌, ◌^◌, ◌≡◌, ◌≢◌, ◌<◌, ◌≤◌, refl, ap, ◌∙◌, Bool, true, false, List, [],
  ◌∷◌, length, All, ◌==◌, arith, weight, dec_lt, subst, ◌⊎◌, inl, inr, Bool-cases,
}
use btm_stats.Bc.Words.{IsByte}
use btm_stats.P2p.SecretConnection.Handshake.{flip_last}
use btm_stats.P2p.SecretConnection.{incremented, incr_bytes, incr_nonce, incr2_nonce}

-- the number that bytes write, the most significant first
pub value : List ℕ → ℕ
value [] = 0
value (b ∷ bs) = b * 256 ^ length bs + value bs

-- One more than the number of `bs`, with the carry out of its bytes.
abbrev Counts : List ℕ → List ℕ × Bool → Type 0
Counts bs r =
    (length r.0 ≡ length bs)
    × All IsByte r.0
    × (value r.0 + weight r.1 * 256 ^ length bs ≡ value bs + 1)

-- A byte before a power: one more with no carry, and 256 of them.
step_up :
    (b p v v' : ℕ)
    → b < 256
    → v' + 1 * p ≡ v + 1
    → (b + 1) % 256 * p + v' + weight ((b + 1) % 256 == 0) * (p * 256) ≡ b * p + v + 1
step_up b p v v' h e = elim (dec_lt b 255) [
  | yes q ↦
      let small : (b + 1) % 256 ≡ b + 1 = omega (arith, q) in
      let some_left : (b + 1 == 0) ≡ false = ground arith in rw (small, some_left) (grind arith)
  | no q ↦ let last : b ≡ 255 = omega arith in rw last (omega arith)
]

incremented-Counts :
    (b : ℕ) (bs : List ℕ) (r : List ℕ × Bool)
    → b < 256
    → Counts bs r
    → Counts (b ∷ bs) (incremented b r)
unfolding value
incremented-Counts b bs (bs', false) h (len, bytes, v) =
    (omega (arith, len), (h, bytes), rw len (omega (arith, v)))
incremented-Counts b bs (bs', true) h (len, bytes, v) =
    let power : 256 ^ suc (length bs) ≡ 256 ^ length bs * 256 = omega arith in
    (
      omega (arith, len),
      (omega arith, bytes),
      rw (len, power) (step_up b (256 ^ length bs) (value bs) (value bs') h v),
    )

incr_bytes-Counts : (bs : List ℕ) → All IsByte bs → Counts bs (incr_bytes bs)
unfolding incr_bytes value
incr_bytes-Counts [] h = omega arith
incr_bytes-Counts (b ∷ bs) (h, hs) =
    incremented-Counts b bs (incr_bytes bs) h (incr_bytes-Counts bs hs)

value_bound : (bs : List ℕ) → All IsByte bs → value bs < 256 ^ length bs
unfolding value
value_bound [] h = omega arith
value_bound (b ∷ bs) (h, hs) =
    let later = value_bound bs hs in
    let power : 256 ^ suc (length bs) ≡ 256 ^ length bs * 256 = omega arith in
    let most : b * 256 ^ length bs ≤ 255 * 256 ^ length bs = grind arith in
    rw power (omega (arith, later, most))

-- the nonces of one direction: the n-th frame has the n-th of them
pub nth_nonce : ℕ → List ℕ → List ℕ
nth_nonce zero nonce = nonce
nth_nonce (suc n) nonce = nth_nonce n (incr2_nonce nonce)

abbrev IsNonce : List ℕ → Type 0
IsNonce nonce = (length nonce ≡ 24) × All IsByte nonce

incr_nonce-value :
    (nonce : List ℕ)
    → IsNonce nonce
    → IsNonce (incr_nonce nonce) × (value (incr_nonce nonce) ≡ (value nonce + 1) % 256 ^ 24)
unfolding incr_nonce
incr_nonce-value nonce (len, bytes) =
    let (len', bytes', counts) = incr_bytes-Counts nonce bytes in
    let below : value (incr_bytes nonce).0 < 256 ^ 24 =
      subst (λ n. value (incr_bytes nonce).0 < 256 ^ n) (len' ∙ len) (value_bound _ bytes') in
    let before : value nonce < 256 ^ 24 =
      subst (λ n. value nonce < 256 ^ n) len (value_bound nonce bytes) in
    let sum : value (incr_bytes nonce).0 + weight (incr_bytes nonce).1 * 256 ^ 24
        ≡ value nonce + 1 =
      subst
        (λ n. value (incr_bytes nonce).0 + weight (incr_bytes nonce).1 * 256 ^ n ≡ value nonce + 1)
        len counts in
    ((len' ∙ len, bytes'), carried (incr_bytes nonce).1 below before sum)
  where
    carried :
        (c : Bool)
        → value (incr_bytes nonce).0 < 256 ^ 24
        → value nonce < 256 ^ 24
        → value (incr_bytes nonce).0 + weight c * 256 ^ 24 ≡ value nonce + 1
        → value (incr_bytes nonce).0 ≡ (value nonce + 1) % 256 ^ 24
    carried true below before sum = omega arith
    carried false below before sum = omega arith

-- incr2Nonce adds 2 to the number that the 24 bytes write, and wraps around.
incr2_nonce-value :
    (nonce : List ℕ)
    → IsNonce nonce
    → IsNonce (incr2_nonce nonce) × (value (incr2_nonce nonce) ≡ (value nonce + 2) % 256 ^ 24)
unfolding incr2_nonce
incr2_nonce-value nonce h =
    let (h', one) = incr_nonce-value nonce h in
    let (h'', two) = incr_nonce-value (incr_nonce nonce) h' in (h'', omega (arith, one, two))

nth_nonce-value :
    (n : ℕ) (nonce : List ℕ)
    → IsNonce nonce
    → value (nth_nonce n nonce) ≡ (value nonce + 2 * n) % 256 ^ 24
unfolding nth_nonce
nth_nonce-value zero nonce h =
    let below : value nonce < 256 ^ 24 =
      subst (λ n. value nonce < 256 ^ n) h.0 (value_bound nonce h.1) in
    omega (arith, below)
nth_nonce-value (suc n) nonce h =
    let (h', step) = incr2_nonce-value nonce h in
    omega (arith, step, nth_nonce-value n (incr2_nonce nonce) h')

-- The other value of the last bit.
abbrev OtherBit : ℕ → ℕ → Type 0
OtherBit v v' = ((v % 2 ≡ 0) × (v' ≡ v + 1)) ⊎ ((v % 2 ≡ 1) × (v' + 1 ≡ v))

length-flip_last : (bs : List ℕ) → length (flip_last bs) ≡ length bs
unfolding flip_last
length-flip_last [] = refl
length-flip_last (b ∷ []) = refl
length-flip_last (b ∷ b' ∷ bs) = ap suc (length-flip_last (b' ∷ bs))

higher : (b p v v' : ℕ) → OtherBit v v' → OtherBit (b * (p * 256) + v) (b * (p * 256) + v')
higher b p v v' h =
    let even : b * (p * 256) ≡ (b * p) * 256 = grind arith in
    elim h [
      | inl (e, q) ↦ inl (omega (arith, even, e), omega (arith, q))
      | inr (e, q) ↦ inr (omega (arith, even, e), omega (arith, q))
    ]

flip_last-OtherBit : (b : ℕ) (bs : List ℕ) → OtherBit (value (b ∷ bs)) (value (flip_last (b ∷ bs)))
unfolding flip_last value
flip_last-OtherBit b [] = elim (Bool-cases (b % 2 == 0)) [
  | inl e ↦ rw e (inl (ground arith))
  | inr e ↦ rw e (inr (ground arith))
]
flip_last-OtherBit b (b' ∷ bs) =
    let power : 256 ^ suc (length bs) ≡ 256 ^ length bs * 256 = omega arith in
    rw (length-flip_last (b' ∷ bs), power)
      (higher b (256 ^ length bs) _ _ (flip_last-OtherBit b' bs))

flip_last-bytes : (bs : List ℕ) → All IsByte bs → All IsByte (flip_last bs)
unfolding flip_last
flip_last-bytes [] h = tt
flip_last-bytes (b ∷ []) (h, hs) = elim (Bool-cases (b % 2 == 0)) [
  | inl e ↦ rw e (ground arith)
  | inr e ↦ rw e (ground arith)
]
flip_last-bytes (b ∷ b' ∷ bs) (h, hs) = (h, flip_last-bytes (b' ∷ bs) hs)

IsNonce-OtherBit :
    (nonce : List ℕ)
    → IsNonce nonce
    → IsNonce (flip_last nonce) × OtherBit (value nonce) (value (flip_last nonce))
IsNonce-OtherBit [] (len, bytes) = absurd (omega (arith, len))
IsNonce-OtherBit (b ∷ bs) (len, bytes) =
    ((length-flip_last (b ∷ bs) ∙ len, flip_last-bytes (b ∷ bs) bytes), flip_last-OtherBit b bs)

-- The two directions of a connection never use one nonce, and a direction uses a nonce again only
-- after 2^191 frames.
pub nth_nonce-differs :
    (nonce : List ℕ)
    → IsNonce nonce
    → (i j : ℕ)
    → (nth_nonce i nonce ≢ nth_nonce j (flip_last nonce))
      × (nth_nonce i nonce ≡ nth_nonce j nonce → i % 2 ^ 191 ≡ j % 2 ^ 191)
nth_nonce-differs nonce h i j =
    let (h', other) = IsNonce-OtherBit nonce h in
    let at_i = nth_nonce-value i nonce h in
    (
      (λ e.
          let same = ap value e in
          let at_j = nth_nonce-value j (flip_last nonce) h' in
          elim other [
            | inl (p, q) ↦ absurd (omega (arith, p, q, same, at_i, at_j))
            | inr (p, q) ↦ absurd (omega (arith, p, q, same, at_i, at_j))
          ]),
      (λ e.
          let same = ap value e in
          let at_j = nth_nonce-value j nonce h in omega (arith, same, at_i, at_j)),
    )
