-- ===== src/Base/Permutations.antt =====
-- Lists that are permutations of each other, under the native length and indices.
use Prim.Native.Nat.{ℕ, zero, suc}
use native.Mathlib.Nat.{ℕ_set}
use mathlib.Core.Path.{◌≡◌, refl, ap, ◌∙◌, subst}
use mathlib.Core.Logic.{∥∥₁_elim}
use mathlib.Core.Option.{some}
use mathlib.Core.List.{List, [], ◌∷◌, map, Perm, Permᴰ}
use mathlib.Core.List.Perm
use btm_stats.Base.Lists.{length, get_elem?, set}

-- What a list has at an index, and the list with another element there.
pub set-Perm :
    {B : Type 0} (xs : List B) (i : ℕ) (x v : B)
    → get_elem? xs i ≡ some x
    → Perm (x ∷ set xs i v) (v ∷ xs)
set-Perm [] i x v e = cc
set-Perm (y ∷ xs) zero x v e = subst (λ z. Perm (z ∷ v ∷ xs) (v ∷ y ∷ xs)) (cc) (Perm.swap v y xs)
set-Perm (y ∷ xs) (suc i) x v e =
    Perm.trans (Perm.swap y x (set xs i v))
      (Perm.trans (Perm.cons y (set-Perm xs i x v e)) (Perm.swap v y xs))

Permᴰ-length : {B : Type 0} {xs ys : List B} → Permᴰ xs ys → length xs ≡ length ys
Permᴰ-length Permᴰ.nil = refl
Permᴰ-length (Permᴰ.cons _ p) = ap suc (Permᴰ-length p)
Permᴰ-length (Permᴰ.swap _ _) = refl
Permᴰ-length (Permᴰ.trans p q) = Permᴰ-length p ∙ Permᴰ-length q

pub length-Perm : {B : Type 0} {xs ys : List B} → Perm xs ys → length xs ≡ length ys
length-Perm p = ∥∥₁_elim p (ℕ_set _ _) Permᴰ-length

pub length-map {ℓ} : {B C : Type ℓ} (f : B → C) (xs : List B) → length (map f xs) ≡ length xs
length-map f [] = refl
length-map f (x ∷ xs) = ap suc (length-map f xs)
