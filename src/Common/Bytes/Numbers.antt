-- ===== src/Common/Bytes/Numbers.antt =====
-- The numbers that common/bytes.go reads.
use btm_stats.Base.{
  ℕ, zero, suc, ◌+◌, ◌-◌, ◌*◌, ◌^◌, ◌/◌, ◌≡◌, ◌≤◌, ◌<◌, ◌∙◌, refl, ap, true, inl, inr, some, List,
  [], ◌∷◌, ◌++◌, length, ltb, leb, take, take_all, length-append, le→ltb, ltb→le, arith, Bool-cases,
}
use btm_stats.Common.Bytes.{
  zeros, left_pad_bytes, big_endian, read_number, read_var_int, bytes_to_number, put_digits,
  little_endian, unit64_to_bytes, bytes_to_unit64,
}

pub length-zeros : (n : ℕ) → length (zeros n) ≡ n
length-zeros zero = refl
length-zeros (suc n) = let later = length-zeros n in omega (arith, later)

big_endian-zeros : (n : ℕ) (bs : List ℕ) → big_endian 0 (zeros n ++ bs) ≡ big_endian 0 bs
big_endian-zeros zero bs = refl
big_endian-zeros (suc n) bs = big_endian-zeros n bs

length-zeros-append :
    (l : ℕ) (bs : List ℕ) → length bs ≤ l → length (zeros (l - length bs) ++ bs) ≡ l
length-zeros-append l bs h =
    let z = length-zeros (l - length bs) in
    let sum = length-append (zeros (l - length bs)) bs in omega (arith, z, h, sum)

read_number-whole : (w : ℕ) (bs : List ℕ) → length bs ≡ w → read_number w bs ≡ big_endian 0 bs
read_number-whole w bs h =
    let fits : leb w (length bs) ≡ true = ground arith in
    rw (fits, take_all w bs (omega (arith, h))) refl

padded :
    (bs : List ℕ) (l : ℕ) → length bs ≤ l → read_number l (left_pad_bytes bs l) ≡ big_endian 0 bs
unfolding left_pad_bytes
padded bs l h = rw (le→ltb l (length bs) h) (
    read_number-whole l (zeros (l - length bs) ++ bs) (length-zeros-append l bs h)
    ∙ big_endian-zeros (l - length bs) bs)

short : (bs : List ℕ) → length bs ≤ 1 → read_number 1 bs ≡ big_endian 0 bs
short [] h = refl
short (b ∷ []) h = refl
short (b ∷ c ∷ bs) h = absurd (omega arith)

-- ReadVarInt of at most eight bytes is the number that they write in base 256, the most significant
-- first, whatever width is read.
pub read_var_int-big_endian :
    (buff : List ℕ) → length buff ≤ 8 → read_var_int buff ≡ big_endian 0 buff
unfolding read_var_int
read_var_int-big_endian buff h = elim (Bool-cases (ltb 4 (length buff))) [
  | inl e ↦ rw e (padded buff 8 h)
  | inr e ↦ elim (Bool-cases (ltb 2 (length buff))) [
    | inl f ↦ rw (e, f) (padded buff 4 (ltb→le 4 (length buff) e))
    | inr f ↦ elim (Bool-cases (ltb 1 (length buff))) [
      | inl g ↦ rw (e, f, g) (padded buff 2 (ltb→le 2 (length buff) f))
      | inr g ↦ rw (e, f, g) (short buff (ltb→le 1 (length buff) g))
    ]
  ]
]

-- Reading back the digits of a number.
little_endian-put_digits : (k n : ℕ) → n < 256 ^ k → little_endian (put_digits k n) ≡ n
little_endian-put_digits zero n h = omega arith
little_endian-put_digits (suc k) n h =
    let power : 256 ^ suc k ≡ 256 ^ k * 256 = omega arith in
    let smaller : n / 256 < 256 ^ k = omega (arith, h, power) in
    let later = little_endian-put_digits k (n / 256) smaller in omega (arith, later)

length-put_digits : (k n : ℕ) → length (put_digits k n) ≡ k
length-put_digits zero n = refl
length-put_digits (suc k) n = let later = length-put_digits k (n / 256) in omega (arith, later)

-- BytesToUnit64 gives back the number of Unit64ToBytes.
bytes_to_unit64-unit64_to_bytes :
    (n : ℕ) → n < 2 ^ 64 → bytes_to_unit64 (unit64_to_bytes n) ≡ some n
unfolding bytes_to_unit64 unit64_to_bytes
bytes_to_unit64-unit64_to_bytes n h = ap some (little_endian-put_digits 8 n h)

big_endian-take-zeros :
    (m w : ℕ) (b : List ℕ)
    → m ≤ w
    → big_endian 0 (take w (zeros m ++ b)) ≡ big_endian 0 (take (w - m) b)
big_endian-take-zeros zero w b h =
    let same : w ≡ w - 0 = omega arith in ap (λ k. big_endian 0 (take k b)) same
big_endian-take-zeros (suc m) zero b h = absurd (omega arith)
big_endian-take-zeros (suc m) (suc w) b h =
    let same : w - m ≡ suc w - suc m = omega arith in
    big_endian-take-zeros m w b (omega arith) ∙ ap (λ k. big_endian 0 (take k b)) same

-- BytesToNumber of four to eight bytes reads as many zeros before the bytes as there are bytes: it is
-- the number of the first 8 - n of n bytes, which is the whole number of four bytes only.
pub bytes_to_number-first_bytes :
    (b : List ℕ)
    → length b ≤ 8
    → 4 ≤ length b
    → bytes_to_number b ≡ some (big_endian 0 (take (8 - length b) b))
unfolding bytes_to_number
bytes_to_number-first_bytes b h k =
    let len : length (zeros (length b) ++ b) ≡ length b + length b =
      length-append (zeros (length b)) b ∙ ap (λ z. z + length b) (length-zeros (length b)) in
    let fits : leb 8 (length (zeros (length b) ++ b)) ≡ true = ground (arith, len) in
    rw (le→ltb 8 (length b) h, fits) (ap some (big_endian-take-zeros (length b) 8 b h))
