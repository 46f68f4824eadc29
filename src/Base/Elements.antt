-- ===== src/Base/Elements.antt =====
-- The elements of lists by their index.
use Prim.Native.Nat.{ℕ, zero, suc, ◌-◌, ◌<◌}
use mathlib.Core.Path.{◌≡◌, refl, ap, subst}
use mathlib.Core.List.{List, [], ◌∷◌, ◌++◌}
use mathlib.Core.Option.{none, some}
use native.Mathlib.Omega.{arith}
use btm_stats.Base.Tests.{ltb, ◌==◌, if◌then◌else◌}
use btm_stats.Base.Lists.{length, get_elem?, set, take, All}

module _ {ℓ} {A : Type ℓ} where
  -- Reading after a write.
  pub get_elem?-append_end :
      (xs : List A) (v : A) (j : ℕ)
      → get_elem? (xs ++ (v ∷ [])) j ≡ (if j == length xs then some v else get_elem? xs j)
  get_elem?-append_end [] v zero = refl
  get_elem?-append_end [] v (suc j) = ground arith
  get_elem?-append_end (x ∷ xs) v zero = ground arith
  get_elem?-append_end (x ∷ xs) v (suc j) = ground (arith, get_elem?-append_end xs v j)

  pub get_elem?-set :
      (xs : List A) (i : ℕ) (v : A) (j : ℕ)
      → i < length xs
      → get_elem? (set xs i v) j ≡ (if j == i then some v else get_elem? xs j)
  get_elem?-set [] i v j h = absurd (omega arith)
  get_elem?-set (x ∷ xs) zero v zero h = refl
  get_elem?-set (x ∷ xs) zero v (suc j) h = ground arith
  get_elem?-set (x ∷ xs) (suc i) v zero h = ground arith
  get_elem?-set (x ∷ xs) (suc i) v (suc j) h = ground (arith, get_elem?-set xs i v j)

  pub get_elem?-take :
      (n : ℕ) (xs : List A) (i : ℕ)
      → get_elem? (take n xs) i ≡ (if ltb i n then get_elem? xs i else none)
  get_elem?-take zero xs i = ground arith
  get_elem?-take (suc n) [] i = ground arith
  get_elem?-take (suc n) (x ∷ xs) zero = ground arith
  get_elem?-take (suc n) (x ∷ xs) (suc i) = ground (arith, get_elem?-take n xs i)

  pub get_elem?-bound : (xs : List A) (i : ℕ) (x : A) → get_elem? xs i ≡ some x → i < length xs
  get_elem?-bound [] i x e = absurd (cc)
  get_elem?-bound (y ∷ xs) zero x e = omega arith
  get_elem?-bound (y ∷ xs) (suc i) x e = omega (arith, get_elem?-bound xs i x e)

  pub get_elem?-some : (xs : List A) (i : ℕ) → i < length xs → (x : A) × (get_elem? xs i ≡ some x)
  get_elem?-some [] i h = absurd (omega arith)
  get_elem?-some (y ∷ xs) zero h = (y, refl)
  get_elem?-some (y ∷ xs) (suc i) h = get_elem?-some xs i (omega arith)

  pub length-set : (xs : List A) (i : ℕ) (v : A) → length (set xs i v) ≡ length xs
  length-set [] i v = refl
  length-set (x ∷ xs) zero v = refl
  length-set (x ∷ xs) (suc i) v = ap suc (length-set xs i v)

  pub get_elem?-append :
      (xs ys : List A) (i : ℕ)
      → get_elem? (xs ++ ys) i
        ≡ (if ltb i (length xs) then get_elem? xs i else get_elem? ys (i - length xs))
  get_elem?-append [] ys i = ground arith
  get_elem?-append (x ∷ xs) ys zero = ground arith
  get_elem?-append (x ∷ xs) ys (suc i) = ground (arith, get_elem?-append xs ys i)

  pub All-set {κ} :
      (P : A → Type κ) (i : ℕ) (xs : List A) (v : A) → P v → All P xs → All P (set xs i v)
  All-set P i [] v h a = tt
  All-set P zero (x ∷ xs) v h (p, a) = (h, a)
  All-set P (suc i) (x ∷ xs) v h (p, a) = (p, All-set P i xs v h a)

  pub All-get_elem? {κ} :
      (P : A → Type κ) (xs : List A) (i : ℕ) (x : A) → All P xs → get_elem? xs i ≡ some x → P x
  All-get_elem? P [] i x a e = absurd (cc)
  All-get_elem? P (y ∷ xs) zero x (p, a) e = subst P (cc e) p
  All-get_elem? P (y ∷ xs) (suc i) x (p, a) e = All-get_elem? P xs i x a e
