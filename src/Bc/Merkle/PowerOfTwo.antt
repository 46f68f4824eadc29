-- ===== src/Bc/Merkle/PowerOfTwo.antt =====
-- prevPowerOfTwo of protocol/bc/merkle.go.
use Prim.Native.Nat.{bit_and, digits, bit_and-bitwise}
use btm_stats.Base.{
  ℕ, zero, suc, ◌+◌, ◌-◌, ◌*◌, ◌/◌, ◌%◌, ◌^◌, ◌≤◌, ◌<◌, ◌≡◌, ◌≢◌, refl, sym, min, ltb, ◌==◌,
  if◌then◌else◌, arith, Bool-cases, inl, inr, le→ltb, ==_iff, subst, ℕ_discrete,
}

-- uint(math.Log2(float64(n))) for 0 < n, with fuel: the number of halvings down to 1. For n below
-- 2^48 the rounding of the float does not reach the next whole number.
unfoldable pub floor_log2 : ℕ → ℕ → ℕ
floor_log2 zero n = 0
floor_log2 (suc fuel) n = let rest = floor_log2 fuel (n / 2) in if ltb n 2 then 0 else suc rest

-- prevPowerOfTwo, called with 2 ≤ n
unfoldable pub prev_power_of_two : ℕ → ℕ
unfolding floor_log2
prev_power_of_two n = if bit_and n (n - 1) == 0 then n / 2 else 2 ^ floor_log2 n n

floor_log2-large : (fuel n : ℕ) → 2 ≤ n → floor_log2 (suc fuel) n ≡ suc (floor_log2 fuel (n / 2))
unfolding floor_log2
floor_log2-large fuel n h = rw (le→ltb n 2 h)

floor_log2-one : (fuel : ℕ) → floor_log2 (suc fuel) 1 ≡ 0
unfolding floor_log2
floor_log2-one fuel = refl

floor_log2_bounds :
    (fuel n : ℕ) → n ≤ fuel → 0 < n → (2 ^ floor_log2 fuel n ≤ n) × (n < 2 * 2 ^ floor_log2 fuel n)
floor_log2_bounds zero n h p = absurd (omega arith)
floor_log2_bounds (suc fuel) zero h p = absurd (omega arith)
floor_log2_bounds (suc fuel) (suc zero) h p = rw (floor_log2-one fuel) (omega arith)
floor_log2_bounds (suc fuel) (suc (suc m)) h p =
    let (lo, hi) = floor_log2_bounds fuel (suc (suc m) / 2) (omega arith) (omega arith) in
    rw (floor_log2-large fuel (suc (suc m)) (omega arith)) (omega arith)

-- The native bit_and is min on each pair of binary digits; `fuel` bounds their number.
abbrev digitwise_and : ℕ → ℕ → ℕ → ℕ
digitwise_and fuel a b = digits (λ d. zero) min fuel a b

digitwise_and_fuel : (f g : ℕ) (a b : ℕ) → a ≤ f → a ≤ g → digitwise_and f a b ≡ digitwise_and g a b
digitwise_and_fuel zero zero zero b hf hg = refl
digitwise_and_fuel zero (suc g) zero b hf hg = refl
digitwise_and_fuel (suc f) zero zero b hf hg = refl
digitwise_and_fuel (suc f) (suc g) zero b hf hg = refl
digitwise_and_fuel zero g (suc a) b hf hg = absurd (omega arith)
digitwise_and_fuel (suc f) zero (suc a) b hf hg = absurd (omega arith)
digitwise_and_fuel (suc f) (suc g) (suc a) b hf hg =
    let ih = digitwise_and_fuel f g (suc a / 2) (b / 2) (omega arith) (omega arith) in omega arith

bit_and-zero : (b : ℕ) → bit_and 0 b ≡ 0
bit_and-zero b = bit_and-bitwise 0 b

-- The lowest digit, and the others.
bit_and-digit : (a b : ℕ) → bit_and a b ≡ bit_and (a / 2) (b / 2) * 2 + min (a % 2) (b % 2)
bit_and-digit zero b = omega (arith, bit_and-zero b, bit_and-zero (b / 2))
bit_and-digit (suc a) b =
    let half = suc a / 2 in
    omega (
      arith,
      digitwise_and_fuel a half half (b / 2) (omega arith) (omega arith),
      bit_and-bitwise half (b / 2),
      bit_and-bitwise (suc a) b,
    )

bit_and_self : (fuel a : ℕ) → a ≤ fuel → bit_and a a ≡ a
bit_and_self fuel zero h = bit_and-zero 0
bit_and_self zero (suc a) h = absurd (omega arith)
bit_and_self (suc fuel) (suc a) h =
    omega (arith, bit_and-digit (suc a) (suc a), bit_and_self fuel (suc a / 2) (omega arith))

-- n & (n - 1) halves with an even n, and is n - 1 for an odd n.
bit_and_even : (n : ℕ) → 0 < n → n % 2 ≡ 0 → bit_and n (n - 1) ≡ bit_and (n / 2) (n / 2 - 1) * 2
bit_and_even n p e =
    let q : (n - 1) / 2 ≡ n / 2 - 1 = omega arith in rw (bit_and-digit n (n - 1), q) (omega arith)

bit_and_odd : (n : ℕ) → n % 2 ≡ 1 → bit_and n (n - 1) ≡ n - 1
bit_and_odd n e =
    let q : (n - 1) / 2 ≡ n / 2 = omega arith in
    rw (bit_and-digit n (n - 1), q, bit_and_self (n / 2) (n / 2) (omega arith)) (omega arith)

-- n & (n - 1) is 0 for the powers of two only.
power_of_bit_and : (fuel n : ℕ) → n ≤ fuel → 0 < n → bit_and n (n - 1) ≡ 0 → (e : ℕ) × (n ≡ 2 ^ e)
power_of_bit_and zero n h p z = absurd (omega arith)
power_of_bit_and (suc fuel) n h p z = elim (ℕ_discrete (n % 2) 0) [
  | yes even ↦
      let (e, q) =
        power_of_bit_and fuel (n / 2) (omega arith) (omega arith)
          (omega (arith, bit_and_even n p even)) in
      (suc e, omega arith)
  | no odd ↦ (0, omega (arith, bit_and_odd n (omega arith)))
]

pub pow_pos : (e : ℕ) → 0 < 2 ^ e
pow_pos zero = omega arith
pow_pos (suc e) = omega (arith, pow_pos e)

bit_and_power : (e : ℕ) → bit_and (2 ^ e) (2 ^ e - 1) ≡ 0
bit_and_power zero = refl
bit_and_power (suc e) =
    let half : 2 ^ suc e / 2 ≡ 2 ^ e = omega arith in
    rw (bit_and_even (2 ^ suc e) (omega (arith, pow_pos e)) (omega arith), half, bit_and_power e)
      refl

even_power : (n e : ℕ) → 2 ≤ n → n ≡ 2 ^ e → n % 2 ≡ 0
even_power n zero h q = absurd (omega arith)
even_power n (suc e) h q = omega arith

half_of_power : (n e : ℕ) → 2 ≤ n → n ≡ 2 ^ e → (d : ℕ) × (n / 2 ≡ 2 ^ d)
half_of_power n zero h q = absurd (omega arith)
half_of_power n (suc e) h q = (e, omega arith)

-- For 2 ≤ n the result is a power of two k with k < n ≤ 2 k, as the source's comment says.
pub prev_power_of_two_lem :
    (n : ℕ)
    → 2 ≤ n
    → ((e : ℕ) × (prev_power_of_two n ≡ 2 ^ e))
      × (prev_power_of_two n < n)
      × (n ≤ 2 * prev_power_of_two n)
unfolding prev_power_of_two
prev_power_of_two_lem n h = elim (Bool-cases (bit_and n (n - 1) == 0)) [
  | inl power ↦
      let (e, q) = power_of_bit_and n n (omega arith) (omega arith) ((==_iff _ 0).0 power) in
      let (d, half) = half_of_power n e h q in
      rw power ((d, half), omega arith, omega (arith, even_power n e h q))
  | inr other ↦
      let (lo, hi) = floor_log2_bounds n n (omega arith) (omega arith) in
      let ne : n ≢ 2 ^ floor_log2 n n = λ q. cc (
        other,
        (==_iff (bit_and n (n - 1)) 0).1
            (subst (λ m. bit_and m (m - 1) ≡ 0) (sym q) (bit_and_power (floor_log2 n n))),
      ) in
      rw other ((floor_log2 n n, refl), omega arith, omega arith)
]
