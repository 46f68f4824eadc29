-- ===== src/P2p/BanScore/Banned.antt =====
-- When a peer that fails again and again is banned. All calls of addBanScore in netsync have a
-- transient part of 0: 20 points for a bad block, 10 for a bad transaction.
use btm_stats.Base.{
  ℕ, ◌+◌, ◌%◌, ◌^◌, ◌≤◌, ◌<◌, ◌≡◌, refl, ap, ◌∙◌, Bool-cases, inl, inr, false, List, [], ◌∷◌, ltb,
  ◌==◌, arith,
}
use btm_stats.P2p.BanScore.{Float, DynamicBanScore, increase, add_ban_score, default_ban_threshold}

-- The points of calls, each with its time.
abbrev pub points_of : List (ℕ × ℕ) → ℕ
points_of [] = 0
points_of ((points, now) ∷ calls) = points_of calls + points

module _ {F : Type 0} (f : Float F) (precomputed_factor : ℕ → F) where
  abbrev pub Score : Type 0
  Score = DynamicBanScore f precomputed_factor

  -- The score after calls of addBanScore(points, 0), the last one first.
  unfoldable pub after_failures : List (ℕ × ℕ) → Score → Score
  after_failures [] s = s
  after_failures ((points, now) ∷ calls) s =
      (add_ban_score f precomputed_factor points 0 now (after_failures calls s)).1

  add_ban_score-fields :
      (points now : ℕ) (s : Score)
      → s.persistent + points < 2 ^ 64
      → ((add_ban_score f precomputed_factor points 0 now s).1.persistent ≡ s.persistent + points)
        × ((add_ban_score f precomputed_factor points 0 now s).1.transient ≡ s.transient)
  unfolding add_ban_score increase
  add_ban_score-fields points now s h = elim (Bool-cases (points == 0)) [
    | inl none ↦ rw none (ground arith, refl)
    | inr more ↦ rw more (omega arith, refl)
  ]

  after_failures-fields :
      (calls : List (ℕ × ℕ)) (s : Score)
      → s.persistent + points_of calls < 2 ^ 64
      → ((after_failures calls s).persistent ≡ s.persistent + points_of calls)
        × ((after_failures calls s).transient ≡ s.transient)
  unfolding after_failures
  after_failures-fields [] s small = (omega arith, refl)
  after_failures-fields ((points, now) ∷ calls) s small =
      let (p, t) = after_failures-fields calls s (omega arith) in
      let (q, u) = add_ban_score-fields points now (after_failures calls s) (omega (arith, p)) in
      (omega (arith, p, q), u ∙ t)

  -- A failure of some points, after failures of any points at any times, bans the peer exactly where
  -- the persistent part before them all, the points of all failures and the transient part add up to
  -- more than the threshold of 100. The sum is below 2^64.
  pub add_ban_score-failures :
      (points now : ℕ) (calls : List (ℕ × ℕ)) (s : Score)
      → 1 ≤ points
      → s.persistent + (points_of calls + points) + f.to_uint s.transient < 2 ^ 64
      → (add_ban_score f precomputed_factor points 0 now (after_failures calls s)).0
        ≡ ltb 100 (s.persistent + (points_of calls + points) + f.to_uint s.transient)
  unfolding add_ban_score increase
  add_ban_score-failures points now calls s h small =
      let (p, t) = after_failures-fields calls s (omega arith) in
      let some_points : (points == 0) ≡ false = ground arith in
      let score : ((after_failures calls s).persistent + points) % 2 ^ 64
            + f.to_uint (after_failures calls s).transient
          ≡ s.persistent + (points_of calls + points) + f.to_uint s.transient =
        omega (arith, p, ap f.to_uint t) in
      rw (some_points, score) (ap (ltb default_ban_threshold) (omega arith))
