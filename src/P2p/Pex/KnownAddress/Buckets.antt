-- ===== src/P2p/Pex/KnownAddress/Buckets.antt =====
-- The numbers of the buckets that an address is in.
use btm_stats.Base.{
  ℕ, ◌+◌, ◌≡◌, ◌≢◌, refl, sym, ap, ◌∙◌, subst, ℕ_discrete, true, false, List, [], ◌∷◌, ◌++◌, length,
  ◌==◌, if◌then◌else◌, arith,
}
use btm_stats.P2p.Pex.KnownAddress.{contains, without}

-- A list of bucket numbers without repetitions.
abbrev pub IsDistinct : List ℕ → Type 0
IsDistinct [] = Unit
IsDistinct (i ∷ is) = (contains i is ≡ false) × IsDistinct is

pub contains-append :
    (i j : ℕ) (is : List ℕ) → contains i (is ++ (j ∷ [])) ≡ (if j == i then true else contains i is)
contains-append i j [] = refl
contains-append i j (k ∷ is) = ground (arith, contains-append i j is)

pub append-IsDistinct :
    (j : ℕ) (is : List ℕ) → IsDistinct is → contains j is ≡ false → IsDistinct (is ++ (j ∷ []))
append-IsDistinct j [] d n = (refl, tt)
append-IsDistinct j (k ∷ is) (h, d) n =
    let later : contains j is ≡ false = ground (arith, n) in
    (ground (arith, contains-append k j is, n, h), append-IsDistinct j is d later)

pub contains-without_same : (i : ℕ) (is : List ℕ) → contains i (without i is) ≡ false
contains-without_same i [] = refl
contains-without_same i (j ∷ is) = ground (arith, contains-without_same i is)

pub contains-without_other :
    (i j : ℕ) (is : List ℕ) → i ≢ j → contains j (without i is) ≡ contains j is
contains-without_other i j [] n = refl
contains-without_other i j (k ∷ is) n = ground (arith, contains-without_other i j is n)

pub without_absent : (i : ℕ) (is : List ℕ) → contains i is ≡ false → without i is ≡ is
without_absent i [] e = refl
without_absent i (j ∷ is) e =
    let later : contains i is ≡ false = ground (arith, e) in
    ground (arith, without_absent i is later, e)

pub without-IsDistinct : (i : ℕ) (is : List ℕ) → IsDistinct is → IsDistinct (without i is)
without-IsDistinct i [] d = tt
without-IsDistinct i (j ∷ is) (h, d) = elim (ℕ_discrete j i) [
  | yes e ↦
      let same : without i (j ∷ is) ≡ without i is = ground (arith, e) in
      subst IsDistinct (sym same) (without-IsDistinct i is d)
  | no n ↦
      let other : without i (j ∷ is) ≡ j ∷ without i is = ground (arith, n) in
      let absent : contains j (without i is) ≡ false =
        contains-without_other i j is (λ e. n (sym e)) ∙ h in
      subst IsDistinct (sym other) (absent, without-IsDistinct i is d)
]

pub length-without :
    (i : ℕ) (is : List ℕ)
    → IsDistinct is
    → contains i is ≡ true
    → length (without i is) + 1 ≡ length is
length-without i [] d e = absurd (cc)
length-without i (j ∷ is) (h, d) e = elim (ℕ_discrete j i) [
  | yes q ↦
      let same : without i (j ∷ is) ≡ without i is = ground (arith, q) in
      let absent : contains i is ≡ false = subst (λ k. contains k is ≡ false) q h in
      omega (arith, ap length (same ∙ without_absent i is absent))
  | no n ↦
      let other : without i (j ∷ is) ≡ j ∷ without i is = ground (arith, n) in
      let there : contains i is ≡ true = ground (arith, n, e) in
      omega (arith, ap length other, length-without i is d there)
]

pub contains-append_same : (i : ℕ) (is : List ℕ) → contains i (is ++ (i ∷ [])) ≡ true
contains-append_same i is = ground (arith, contains-append i i is)
