-- ===== src/P2p/Pex/AddrBook/Lowering.antt =====
-- A bucket less for a known address: its list of buckets, and the counters.
use btm_stats.Base.{
  ◌≤◌, ℕ, ◌+◌, ◌%◌, ◌^◌, ◌<◌, ◌≡◌, refl, sym, ◌∙◌, Bool, true, false, ◌&&◌, none, List, [], ◌∷◌,
  length, ◌==◌, if◌then◌else◌, arith, weight, ℕ_discrete,
}
use btm_stats.P2p.Pex.KnownAddress.{KnownAddress, contains, without}
use btm_stats.P2p.Pex.KnownAddress.Buckets.{contains-without_same, contains-without_other}
use btm_stats.P2p.Pex.AddrBook.{decrement}
use btm_stats.P2p.Pex.AddrBook.Consistent.{of_known}

pub ticked :
    (x y : Bool) (n : ℕ)
    → x ≡ true
    → (if y then decrement n else n) ≡ (if x && y then decrement n else n)
ticked x y n e = rw e

pub still : (x y : Bool) (n : ℕ) → x ≡ false → n ≡ (if x && y then decrement n else n)
still x y n e = rw e

pub counter_less :
    (l w r n m : ℕ) (y : Bool)
    → l ≡ 0
    → n ≡ m % 2 ^ 64
    → m ≡ weight y + r
    → w ≡ 0
    → (if l == 0 && y then decrement n else n) ≡ (w + r) % 2 ^ 64
counter_less l w r n m y h e f g = ground arith

pub counter_stays :
    (l w r n m : ℕ) (y : Bool)
    → 0 < l
    → n ≡ m % 2 ^ 64
    → m ≡ weight y + r
    → w ≡ weight y
    → (if l == 0 && y then decrement n else n) ≡ (w + r) % 2 ^ 64
counter_stays l w r n m y h e f g = ground arith

pub of_known-without_same :
    {A : Type 0} (u i j p : ℕ) (ka : KnownAddress A)
    → j ≡ i
    → of_known u j p (record ka { buckets = without i ka.buckets }) ≡ none
of_known-without_same u i j p ka f = ground (arith, contains-without_same i ka.buckets)

pub of_known-without_other :
    {A : Type 0} (t u i j p : ℕ) (ka : KnownAddress A)
    → ka.bucket_type ≡ t
    → (u == t && j == i) ≡ false
    → of_known u j p (record ka { buckets = without i ka.buckets }) ≡ of_known u j p ka
of_known-without_other t u i j p ka e n = elim (ℕ_discrete i j) [
  | yes f ↦ ground arith
  | no f ↦ ground (arith, contains-without_other i j ka.buckets f)
]

pub length-without_le : (i : ℕ) (is : List ℕ) → length (without i is) ≤ length is
length-without_le i [] = omega arith
length-without_le i (j ∷ is) = ground (arith, length-without_le i is)

pub contains-without :
    (i j : ℕ) (is : List ℕ) → contains j (without i is) ≡ true → contains j is ≡ true
contains-without i j is e = elim (ℕ_discrete i j) [
  | yes f ↦ ground (arith, contains-without_same i is)
  | no f ↦ sym (contains-without_other i j is f) ∙ e
]

pub contains_nowhere : (j : ℕ) (is : List ℕ) → length is ≡ 0 → contains j is ≡ false
contains_nowhere j [] e = refl
contains_nowhere j (i ∷ is) e = absurd (omega arith)

pub of_known_nowhere :
    {A : Type 0} (u j p : ℕ) (ka : KnownAddress A)
    → length ka.buckets ≡ 0
    → none ≡ of_known u j p ka
of_known_nowhere u j p ka e = ground (arith, contains_nowhere j ka.buckets e)
