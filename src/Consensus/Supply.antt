-- ===== src/Consensus/Supply.antt =====
-- How much all blocks can mint.
use btm_stats.Base.{
  ℕ, zero, suc, ◌+◌, ◌-◌, ◌*◌, ◌/◌, ◌%◌, ◌^◌, ◌≤◌, ◌≡◌, ◌≢◌, sym, ap, ◌∙◌, ◌==◌, arith, Bool-cases,
  inl, inr, ==_iff, subst,
}
use native.Mathlib.Nat.{div-div-eq-div-mul}
use btm_stats.Consensus.{
  subsidy_reduction_interval, base_subsidy, initial_block_subsidy, block_subsidy,
}

-- The rewards of the first n blocks.
abbrev pub minted : ℕ → ℕ
minted zero = 0
minted (suc n) = minted n + block_subsidy n

-- The reward in a period.
reward : ℕ → ℕ
reward q = base_subsidy / 2 ^ q

abbrev P : ℕ
P = subsidy_reduction_interval

reward-halves : (q : ℕ) → 2 * reward (suc q) ≤ reward q
unfolding reward
reward-halves q =
    let power : 2 ^ suc q ≡ 2 ^ q * 2 = omega arith in
    let half : base_subsidy / 2 ^ suc q ≡ base_subsidy / 2 ^ q / 2 =
      ap (λ k. base_subsidy / k) power ∙ sym (div-div-eq-div-mul base_subsidy (2 ^ q) 2) in
    omega (arith, half)

block_subsidy-reward : (n : ℕ) → 1 ≤ n → block_subsidy n ≡ reward (n / P)
unfolding block_subsidy reward
block_subsidy-reward n h = ground arith

-- What is left to mint: `left` blocks of this period, and all later periods.
abbrev budget : ℕ → ℕ → ℕ
budget left s = left * s + P * s

next_block : (left s : ℕ) → 1 ≤ left → s + budget (left - 1) s ≡ budget left s
next_block zero s h = absurd (omega arith)
next_block (suc left) s h = grind arith

next_period : (s t : ℕ) → 2 * t ≤ s → s + budget P t ≤ budget 1 s
next_period s t h = omega arith

-- Minted and left to mint, from the second block on.
minted-budget :
    (n : ℕ)
    → minted (suc n) + budget (P - suc n % P) (reward (suc n / P))
      ≤ initial_block_subsidy + 2 * P * base_subsidy
minted-budget zero = unfold reward block_subsidy in omega arith
minted-budget (suc n) =
    let old = minted-budget n in
    let now = block_subsidy-reward (suc n) (omega arith) in
    elim (Bool-cases (suc (suc n) % P == 0)) [
      | inl wrap ↦
          let r : suc (suc n) % P ≡ 0 = (==_iff _ 0).0 wrap in
          let last : suc n % P ≡ P - 1 = omega arith in
          let next : suc (suc n) / P ≡ suc (suc n / P) = omega arith in
          let step =
            next_period (reward (suc n / P)) (reward (suc (suc n / P)))
              (reward-halves (suc n / P)) in
          rw (r, next, now)
            (omega (
              arith,
              step,
              subst
                  (λ k.
                    minted (suc n) + budget (P - k) (reward (suc n / P))
                    ≤ initial_block_subsidy + 2 * P * base_subsidy)
                  last old,
            ))
      | inr inside ↦
          let ne : suc (suc n) % P ≢ 0 = ground arith in
          let r : suc (suc n) % P ≡ suc (suc n % P) = omega arith in
          let same : suc (suc n) / P ≡ suc n / P = omega arith in
          let fewer : P - suc (suc n % P) ≡ P - suc n % P - 1 = omega arith in
          let step = next_block (P - suc n % P) (reward (suc n / P)) (omega arith) in
          rw (r, same, now, fewer) (omega (arith, step, old))
    ]

-- The first n blocks mint at most the initial subsidy and two intervals of the base subsidy.
pub minted_bound :
    (n : ℕ) → minted n ≤ initial_block_subsidy + 2 * subsidy_reduction_interval * base_subsidy
minted_bound zero = omega arith
minted_bound (suc n) = omega (arith, minted-budget n)
