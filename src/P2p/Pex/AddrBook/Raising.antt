-- ===== src/P2p/Pex/AddrBook/Raising.antt =====
-- A bucket more for a known address: its list of buckets, and the counters.
use btm_stats.Base.{
  ℕ, ◌+◌, ◌%◌, ◌^◌, ◌<◌, ◌≡◌, ◌⊎◌, ap, Bool, true, false, ◌&&◌, none, some, List, [], ◌∷◌, ◌++◌,
  ◌==◌, if◌then◌else◌, arith, weight,
}
use btm_stats.P2p.Pex.KnownAddress.{KnownAddress, contains}
use btm_stats.P2p.Pex.KnownAddress.Buckets.{contains-append}
use btm_stats.P2p.Pex.AddrBook.{increment}
use btm_stats.P2p.Pex.AddrBook.Consistent.{of_known}

pub of_known-append :
    {A : Type 0} (t u i j p : ℕ) (ka : KnownAddress A)
    → ka.bucket_type ≡ t
    → (u == t && j == i) ≡ false
    → of_known u j p (record ka { buckets = ka.buckets ++ (i ∷ []) }) ≡ of_known u j p ka
of_known-append t u i j p ka e n = ground (arith, contains-append j i ka.buckets)

pub of_known-append_first :
    {A : Type 0} (t u i j p : ℕ) (ka : KnownAddress A)
    → ka.buckets ≡ []
    → ka.bucket_type ≡ t
    → (u == t && j == i) ≡ false
    → none ≡ of_known u j p (record ka { buckets = ka.buckets ++ (i ∷ []) })
of_known-append_first t u i j p ka s e n =
    let nowhere : contains j ka.buckets ≡ false = ap (contains j) s in
    ground (arith, contains-append j i ka.buckets)

pub of_known-append_same :
    {A : Type 0} (t u i j p : ℕ) (ka : KnownAddress A)
    → ka.bucket_type ≡ t
    → u ≡ t
    → j ≡ i
    → of_known u j p (record ka { buckets = ka.buckets ++ (i ∷ []) }) ≡ some p
of_known-append_same t u i j p ka k e f = ground (arith, contains-append j i ka.buckets)

pub contains-append_cases :
    (i j : ℕ) (is : List ℕ) → contains j (is ++ (i ∷ [])) ≡ true → (j ≡ i) ⊎ (contains j is ≡ true)
contains-append_cases i j is e = ground (arith, contains-append j i is)

pub ticked :
    (x y : Bool) (n : ℕ)
    → x ≡ true
    → (if y then increment n else n) ≡ (if x && y then increment n else n)
ticked x y n e = rw e

pub still : (x y : Bool) (n : ℕ) → x ≡ false → n ≡ (if x && y then increment n else n)
still x y n e = rw e

pub counter_again :
    (l w r n m : ℕ) (y : Bool)
    → 1 < l
    → n ≡ m % 2 ^ 64
    → m ≡ w + r
    → (if l == 1 && y then increment n else n) ≡ (w + r) % 2 ^ 64
counter_again l w r n m y h e f = ground arith

pub counter_first :
    (l w r n m : ℕ) (y : Bool)
    → l ≡ 1
    → n ≡ m % 2 ^ 64
    → m ≡ r
    → w ≡ weight y
    → (if l == 1 && y then increment n else n) ≡ (w + r) % 2 ^ 64
counter_first l w r n m y h e f g = ground arith
