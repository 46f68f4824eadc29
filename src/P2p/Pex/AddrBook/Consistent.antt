-- ===== src/P2p/Pex/AddrBook/Consistent.antt =====
-- The look-up table, the buckets, the addresses and the counters of a book agree.
use btm_stats.Base.{
  ℕ, ◌%◌, ◌^◌, ◌≤◌, ◌<◌, ◌≡◌, ◌⊎◌, Bool, true, ◌&&◌, Option, none, some, length, ◌==◌,
  if◌then◌else◌, find, count, weight, Unique,
}
use btm_stats.P2p.Pex.KnownAddress.{
  KnownAddress, is_old, is_new, contains, bucket_type_new, bucket_type_old,
  max_new_buckets_per_address, new_bucket_count, old_bucket_count,
}
use btm_stats.P2p.Pex.KnownAddress.Buckets.{IsDistinct}
use btm_stats.P2p.Pex.AddrBook.{Addressing, AddrBook, get_bucket, address_of}

-- the two types of buckets, and how many there are of one
abbrev pub IsType : ℕ → Type 0
IsType t = (t ≡ bucket_type_new) ⊎ (t ≡ bucket_type_old)

abbrev pub bucket_count : ℕ → ℕ
bucket_count t = if t == bucket_type_new then new_bucket_count else old_bucket_count

-- what an entry of the table adds to a counter
abbrev pub weight_of : (ℕ → Bool) → Option ℕ → ℕ
weight_of test none = 0
weight_of test (some p) = weight (test p)

module _ {A : Type 0} where
  -- a pointer, if its address is in a bucket
  abbrev pub of_known : ℕ → ℕ → ℕ → KnownAddress A → Option ℕ
  of_known t i p ka = if ka.bucket_type == t && contains i ka.buckets then some p else none

  -- what a bucket has for a key, by the look-up table
  abbrev pub at : ℕ → ℕ → (ℕ → KnownAddress A) → Option ℕ → Option ℕ
  at t i heap none = none
  at t i heap (some p) = of_known t i p (heap p)

module _ {A Key : Type 0} (same : Discrete Key) (net : Addressing A Key) where
  pub record IsPlaced (b : AddrBook A Key) (k : Key) (p : ℕ) : Type 0 where
    pub allocated : p < b.next
    pub named : address_of same net b p ≡ k
    pub typed : IsType (b.heap p).bucket_type
    pub distinct : IsDistinct (b.heap p).buckets
    pub somewhere : 0 < length (b.heap p).buckets
    pub few : length (b.heap p).buckets ≤ max_new_buckets_per_address
    pub in_range :
        (i : ℕ) → contains i (b.heap p).buckets ≡ true → i < bucket_count (b.heap p).bucket_type

  pub record IsConsistent (b : AddrBook A Key) : Type 0 where
    pub indexed :
        (t i : ℕ) (k : Key)
        → find same k (get_bucket t i b) ≡ at t i b.heap (find same k b.addr_lookup)
    pub placed : (k : Key) (p : ℕ) → find same k b.addr_lookup ≡ some p → IsPlaced b k p
    pub unique : Unique same b.addr_lookup
    pub unique_buckets : (t i : ℕ) → Unique same (get_bucket t i b)
    pub new_counted : b.n_new ≡ count same (λ p. is_new (b.heap p)) b.addr_lookup % 2 ^ 64
    pub old_counted : b.n_old ≡ count same (λ p. is_old (b.heap p)) b.addr_lookup % 2 ^ 64
