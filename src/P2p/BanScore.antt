-- ===== src/P2p/BanScore.antt =====
-- p2p/trust/banscore.go, and addBanScore of netsync/peer.go. A float64 is a value of an interface;
-- times are Unix seconds that are not negative.
pub mod Banned
use btm_stats.Base.{
  ℕ, zero, suc, ◌+◌, ◌-◌, ◌/◌, ◌%◌, ◌^◌, Bool, true, false, ◌||◌, ◌&&◌, ltb, ◌==◌, if◌then◌else◌,
}

-- float64, with its conversions and comparison, and math.Exp(-1.0 * float64(t) * lambda).
pub record Float (F : Type 0) : Type 0 where
  pub of_uint : ℕ → F
  pub to_uint : F → ℕ
  pub plus : F → F → F
  pub times : F → F → F
  pub less : F → F → Bool
  pub exp_decay : ℕ → F

-- Lifetime, precomputedLen
abbrev pub lifetime : ℕ
lifetime = 1800

abbrev pub precomputed_len : ℕ
precomputed_len = 64

-- defaultBanThreshold
abbrev pub default_ban_threshold : ℕ
default_ban_threshold = 100

module _ {F : Type 0} (f : Float F) (precomputed_factor : ℕ → F) where
  -- decayFactor, with the array precomputedFactor as it stands
  abbrev pub decay_factor : ℕ → F
  decay_factor t = if ltb t precomputed_len then precomputed_factor t else f.exp_decay t

  pub record DynamicBanScore : Type 0 where
    pub last_unix : ℕ
    pub transient : F
    pub persistent : ℕ

  -- Reset
  unfoldable pub reset : DynamicBanScore → DynamicBanScore
  reset s = record { last_unix = 0; transient = f.of_uint 0; persistent = 0 }

  -- int, at the time `now`
  unfoldable pub int_at : ℕ → DynamicBanScore → ℕ
  int_at now s =
      if f.less s.transient (f.of_uint 1)
        || (ltb now s.last_unix || ltb lifetime (now - s.last_unix))
      then s.persistent
      else (s.persistent + f.to_uint (f.times s.transient (decay_factor (now - s.last_unix))))
        % 2 ^ 64

  -- the transient part before an increase: dropped, decayed, or as it is
  abbrev pub decayed : ℕ → DynamicBanScore → F
  decayed now s =
      if ltb lifetime (now - s.last_unix)
      then f.of_uint 0
      else if f.less (f.of_uint 1) s.transient && ltb s.last_unix now
      then f.times s.transient (decay_factor (now - s.last_unix))
      else s.transient

  -- increase: the score, and the new state
  unfoldable pub increase : ℕ → ℕ → ℕ → DynamicBanScore → ℕ × DynamicBanScore
  increase persistent transient now s =
      let p = (s.persistent + persistent) % 2 ^ 64 in
      let t = f.plus (decayed now s) (f.of_uint transient) in
      if ltb 0 transient
      then ((p + f.to_uint t) % 2 ^ 64, record { last_unix = now; transient = t; persistent = p })
      else ((p + f.to_uint s.transient) % 2 ^ 64, record s { persistent = p })

  -- addBanScore of netsync's peer: whether to ban it. A score that is not increased is only logged.
  unfoldable pub add_ban_score : ℕ → ℕ → ℕ → DynamicBanScore → Bool × DynamicBanScore
  add_ban_score persistent transient now s =
      let (score, s') = increase persistent transient now s in
      if transient == 0 && persistent == 0
      then (false, s)
      else (ltb default_ban_threshold score, s')
