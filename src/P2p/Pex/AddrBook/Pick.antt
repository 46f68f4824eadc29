-- ===== src/P2p/Pex/AddrBook/Pick.antt =====
-- p2p/pex/addrbook.go: PickAddress. The comparison of the float64s comes from outside.
use btm_stats.Base.{
  ℕ, zero, suc, ◌^◌, Bool, not, ◌&&◌, ◌||◌, Option, none, some, List, length, ◌==◌, if◌then◌else◌,
  get_elem?, leb, ltb,
}
use btm_stats.P2p.Pex.AddrBook.{AddrBook, size}

-- What a call draws: the outcome of the comparison of the float64s, from nOld, nNew and the bias; the
-- index of the bucket of each round; randIndex; and the order of the range.
pub record PickDraws (Key : Type 0) : Type 0 where
  pub prefers_old : ℕ → ℕ → ℕ → Bool
  pub bucket_index : ℕ → ℕ
  pub rand_index : ℕ → ℕ
  pub order : List (Key × ℕ) → List (Key × ℕ)

-- the bias between 0 and 100, from the 64 bits of an int
abbrev pub clamp : ℕ → ℕ
clamp bias = if leb (2 ^ 63) bias then 0 else if ltb 100 bias then 100 else bias

module _ {Key : Type 0} where
  -- the loop that draws a bucket that is not empty, from the given round on
  unfoldable pub draw_bucket : (ℕ → ℕ) → (ℕ → List (Key × ℕ)) → ℕ → ℕ → Option (List (Key × ℕ))
  draw_bucket index buckets zero n = none
  draw_bucket index buckets (suc fuel) n =
      let bucket = buckets (index n) in
      let rest = draw_bucket index buckets fuel (suc n) in
      if length bucket == 0 then rest else some bucket

module _ {A Key : Type 0} where
  -- the range over the bucket, down to the entry of randIndex
  abbrev pub address_at : AddrBook A Key → Option (Key × ℕ) → Option A
  address_at b none = none
  address_at b (some (k, p)) = some (b.heap p).addr

  abbrev pub drawn : PickDraws Key → AddrBook A Key → Option (List (Key × ℕ)) → Option (Option A)
  drawn d b none = none
  drawn d b (some bucket) =
      some (address_at b (get_elem? (d.order bucket) (d.rand_index (length bucket))))

  -- PickAddress, from pickFromOldBucket on
  abbrev pub picked : ℕ → PickDraws Key → Bool → AddrBook A Key → Option (Option A)
  picked fuel d pick_from_old b =
      let buckets = if pick_from_old then b.buckets_old else b.buckets_new in
      if pick_from_old && b.n_old == 0 || not pick_from_old && b.n_new == 0
      then some none
      else drawn d b (draw_bucket d.bucket_index buckets fuel 0)

  -- PickAddress: `none` where the loop has not ended with the fuel, and `some none` is nil
  unfoldable pub pick_address : ℕ → PickDraws Key → ℕ → AddrBook A Key → Option (Option A)
  pick_address fuel d bias b =
      let pick_from_old = d.prefers_old b.n_old b.n_new (clamp bias) in
      if size b == 0 then some none else picked fuel d pick_from_old b
