-- ===== src/P2p/Pex/AddrBook/Counting.antt =====
-- The size of a consistent book.
use btm_stats.Base.{
  ℕ, ◌+◌, ◌^◌, ◌<◌, ◌≡◌, refl, some, List, [], ◌∷◌, length, ◌==◌, arith, find, count, weight,
  Unique, find-here, find-later,
}
use btm_stats.P2p.Pex.KnownAddress.{KnownAddress, is_old, is_new, bucket_type_new, bucket_type_old}
use btm_stats.P2p.Pex.AddrBook.{Addressing, AddrBook, size}
use btm_stats.P2p.Pex.AddrBook.Consistent.{IsConsistent, IsType}

module _ {A Key : Type 0} (same : Discrete Key) (net : Addressing A Key) where
  one_of_two :
      (t : ℕ) → IsType t → weight (t == bucket_type_new) + weight (t == bucket_type_old) ≡ 1
  one_of_two t h = ground arith

  pub count_both :
      (heap : ℕ → KnownAddress A) (m : List (Key × ℕ))
      → Unique same m
      → ((k : Key) (p : ℕ) → find same k m ≡ some p → IsType (heap p).bucket_type)
      → count same (λ p. is_new (heap p)) m + count same (λ p. is_old (heap p)) m ≡ length m
  count_both heap [] u h = refl
  count_both heap ((j, q) ∷ m) (n, u) h = omega (
    arith,
    one_of_two (heap q).bucket_type (h j q (find-here same j j q m refl)),
    count_both heap m u (λ k p e. h k p (find-later same j k q p m n e)),
  )

  -- The size of a consistent book is the number of its addresses.
  pub size_lem :
      (b : AddrBook A Key)
      → IsConsistent same net b
      → length b.addr_lookup < 2 ^ 64
      → size b ≡ length b.addr_lookup
  size_lem b v h = omega (
    arith,
    v.new_counted,
    v.old_counted,
    count_both b.heap b.addr_lookup v.unique (λ k p e. (v.placed k p e).typed),
  )
