-- ===== src/Encoding/Uvarint.antt =====
-- Proofs about PutUvarint and ReadUvarint.
use btm_stats.Base.{
  ℕ, zero, suc, ◌+◌, ◌*◌, ◌/◌, ◌%◌, ◌^◌, ◌≡◌, ◌≤◌, ◌<◌, ap, some, List, [], ◌∷◌, ◌++◌, length, ltb,
  arith, Bool-cases, Option-cases, inl, inr,
}
use native.Mathlib.Nat.{div-add-mod}
use native.Mathlib.Numerals.{towards_suc}
use btm_stats.Encoding.Reader.{ok}
use btm_stats.Encoding.Varint.{put_uvarint, read_uvarint_loop}

-- A number below 128 ^ (k + 1) fits k + 1 bytes, so that the index never panics.
pub put_uvarint_fits :
    (k x : ℕ) → x < 128 ^ suc k → (bs : List ℕ) × (put_uvarint (suc k) x ≡ some bs)
unfolding put_uvarint
put_uvarint_fits zero x h = (x ∷ [], ground arith)
put_uvarint_fits (suc k) x h =
    let (bs, e) = put_uvarint_fits k (x / 128) (omega arith) in
    elim (Bool-cases (ltb x 128)) [
      | inl small ↦ (x ∷ [], rw small)
      | inr large ↦ ((x % 128 + 128) ∷ bs, rw (large, e))
    ]

pub length-put_uvarint :
    (room x : ℕ) (bs : List ℕ) → put_uvarint room x ≡ some bs → (1 ≤ length bs) × (length bs ≤ room)
unfolding put_uvarint
length-put_uvarint zero x bs h = cc
length-put_uvarint (suc room) x bs h = elim (Option-cases (put_uvarint room (x / 128))) [
  | inl e ↦ ground arith
  | inr (cs, e) ↦ ground (arith, length-put_uvarint room (x / 128) cs e)
]

pow_seven : (s : ℕ) → 2 ^ (s + 7) ≡ 128 * 2 ^ s
pow_seven s = simp towards_suc (omega arith)

-- The lowest seven bits of v and the rest, both shifted by s.
split_bits : (v s : ℕ) → v * 2 ^ s ≡ v % 128 * 2 ^ s + v / 128 * 2 ^ (s + 7)
split_bits v s = omega (
  arith,
  ap (λ (t : ℕ). t * 2 ^ s) (div-add-mod v 128),
  ap (λ (t : ℕ). v / 128 * t) (pow_seven s),
)

-- The loop in round i reads back what PutUvarint put into at most 9 - i bytes.
pub read_uvarint_loop-put_uvarint :
    (room left i x s v : ℕ) (bs rest : List ℕ)
    → put_uvarint room v ≡ some bs
    → i + room ≤ 9
    → left + i ≡ 10
    → x + v * 2 ^ s < 2 ^ 64
    → read_uvarint_loop left i x s (bs ++ rest) ≡ (ok (x + v * 2 ^ s), rest)
unfolding put_uvarint read_uvarint_loop
read_uvarint_loop-put_uvarint zero left i x s v bs rest h hi hl fits = cc
read_uvarint_loop-put_uvarint (suc room) zero i x s v bs rest h hi hl fits = absurd (omega arith)
read_uvarint_loop-put_uvarint (suc room) (suc left) i x s v bs rest h hi hl fits =
    elim (Bool-cases (ltb v 128)) [
      | inl small ↦ ground (arith, split_bits v s)
      | inr large ↦ elim (Option-cases (put_uvarint room (v / 128))) [
        | inl e ↦ ground arith
        | inr (cs, e) ↦ ground (
          arith,
          split_bits v s,
          read_uvarint_loop-put_uvarint room left (i + 1) (x + v % 128 * 2 ^ s) (s + 7) (v / 128) cs
              rest,
        )
      ]
    ]
