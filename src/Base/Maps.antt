-- ===== src/Base/Maps.antt =====
-- Go maps that the source ranges over: lists of entries with one entry for a key.
use Prim.Native.Nat.{ℕ, ◌+◌}
use mathlib.Core.Path.{◌≡◌, refl, sym, ap, ◌∙◌, subst}
use mathlib.Core.Logic.{◌≢◌}
use mathlib.Core.Bool.{Bool}
use mathlib.Core.List.{List, [], ◌∷◌}
use mathlib.Core.Option.{Option, none, some}
use native.Mathlib.Omega.{arith}
use btm_stats.Base.Tests.{if◌then◌else◌, if_decided, if_decided-yes, if_decided-no}

abbrev pub weight : Bool → ℕ
weight b = if b then 1 else 0

module _ {K V : Type 0} (same : Discrete K) where
  abbrev pub find : K → List (K × V) → Option V
  find k [] = none
  find k ((j, v) ∷ m) = if_decided (same j k) (some v) (find k m)

  abbrev pub delete : K → List (K × V) → List (K × V)
  delete k [] = []
  delete k ((j, v) ∷ m) = if_decided (same j k) (delete k m) ((j, v) ∷ delete k m)

  abbrev pub put : K → V → List (K × V) → List (K × V)
  put k v m = (k, v) ∷ delete k m

  abbrev pub Unique : List (K × V) → Type 0
  Unique [] = Unit
  Unique ((k, v) ∷ m) = (find k m ≡ none) × Unique m

  abbrev pub count : (V → Bool) → List (K × V) → ℕ
  count p [] = 0
  count p ((k, v) ∷ m) = weight (p v) + count p m

  pub find-here : (k j : K) (v : V) (m : List (K × V)) → j ≡ k → find k ((j, v) ∷ m) ≡ some v
  find-here k j v m e = if_decided-yes (same j k) (some v) (find k m) e

  pub find-there : (k j : K) (v : V) (m : List (K × V)) → j ≢ k → find k ((j, v) ∷ m) ≡ find k m
  find-there k j v m n = if_decided-no (same j k) (some v) (find k m) n

  pub delete_here :
      (k j : K) (v : V) (m : List (K × V)) → j ≡ k → delete k ((j, v) ∷ m) ≡ delete k m
  delete_here k j v m e = if_decided-yes (same j k) (delete k m) ((j, v) ∷ delete k m) e

  pub delete_there :
      (k j : K) (v : V) (m : List (K × V)) → j ≢ k → delete k ((j, v) ∷ m) ≡ (j, v) ∷ delete k m
  delete_there k j v m n = if_decided-no (same j k) (delete k m) ((j, v) ∷ delete k m) n

  pub find-delete_same : (k : K) (m : List (K × V)) → find k (delete k m) ≡ none
  find-delete_same k [] = refl
  find-delete_same k ((j, v) ∷ m) = elim (same j k) [
    | yes e ↦ ap (find k) (delete_here k j v m e) ∙ find-delete_same k m
    | no n ↦
        ap (find k) (delete_there k j v m n)
        ∙ find-there k j v (delete k m) n
        ∙ find-delete_same k m
  ]

  pub find-delete_other : (k x : K) (m : List (K × V)) → k ≢ x → find x (delete k m) ≡ find x m
  find-delete_other k x [] n = refl
  find-delete_other k x ((j, v) ∷ m) n = elim (same j k) [
    | yes e ↦
        ap (find x) (delete_here k j v m e)
        ∙ find-delete_other k x m n
        ∙ sym (find-there x j v m (λ f. n (sym e ∙ f)))
    | no h ↦
        ap (find x) (delete_there k j v m h)
        ∙ ap (if_decided (same j x) (some v)) (find-delete_other k x m n)
  ]

  pub find-put_same : (k : K) (v : V) (m : List (K × V)) → find k (put k v m) ≡ some v
  find-put_same k v m = find-here k k v (delete k m) refl

  pub find-put_other : (k x : K) (v : V) (m : List (K × V)) → k ≢ x → find x (put k v m) ≡ find x m
  find-put_other k x v m n = find-there x k v (delete k m) n ∙ find-delete_other k x m n

  absent_head :
      (k j : K) (v : V) (m : List (K × V))
      → find k ((j, v) ∷ m) ≡ none
      → (j ≢ k) × (find k m ≡ none)
  absent_head k j v m e = elim (same j k) [
    | yes h ↦ absurd (cc (find-here k j v m h, e))
    | no h ↦ (h, sym (find-there k j v m h) ∙ e)
  ]

  pub delete_absent : (k : K) (m : List (K × V)) → find k m ≡ none → delete k m ≡ m
  delete_absent k [] e = refl
  delete_absent k ((j, v) ∷ m) e =
      let (n, f) = absent_head k j v m e in
      delete_there k j v m n ∙ ap (◌∷◌ (j, v)) (delete_absent k m f)

  pub delete-delete : (k : K) (m : List (K × V)) → delete k (delete k m) ≡ delete k m
  delete-delete k m = delete_absent k (delete k m) (find-delete_same k m)

  pub delete-put : (k : K) (v : V) (m : List (K × V)) → delete k (put k v m) ≡ delete k m
  delete-put k v m = delete_here k k v (delete k m) refl ∙ delete-delete k m

  -- A deletion keeps an absent key absent.
  delete_keeps_absent : (k x : K) (m : List (K × V)) → find x m ≡ none → find x (delete k m) ≡ none
  delete_keeps_absent k x m e = elim (same k x) [
    | yes h ↦ subst (λ y. find y (delete k m) ≡ none) h (find-delete_same k m)
    | no h ↦ find-delete_other k x m h ∙ e
  ]

  pub Unique-delete : (k : K) (m : List (K × V)) → Unique m → Unique (delete k m)
  Unique-delete k [] u = tt
  Unique-delete k ((j, v) ∷ m) (h, u) = elim (same j k) [
    | yes e ↦ subst Unique (sym (delete_here k j v m e)) (Unique-delete k m u)
    | no n ↦
        subst Unique (sym (delete_there k j v m n))
          (delete_keeps_absent k j m h, Unique-delete k m u)
  ]

  pub Unique-put : (k : K) (v : V) (m : List (K × V)) → Unique m → Unique (put k v m)
  Unique-put k v m u = (find-delete_same k m, Unique-delete k m u)

  -- Counting after a deletion of a key that is there.
  pub count-delete :
      (p : V → Bool) (k : K) (v : V) (m : List (K × V))
      → Unique m
      → find k m ≡ some v
      → count p m ≡ weight (p v) + count p (delete k m)
  count-delete p k v [] u e = absurd (cc)
  count-delete p k v ((j, w) ∷ m) (h, u) e = elim (same j k) [
    | yes q ↦
        let absent : find k m ≡ none = subst (λ y. find y m ≡ none) q h in
        let at : w ≡ v = cc (find-here k j w m q, e) in
        let rest : count p (delete k ((j, w) ∷ m)) ≡ count p m =
          ap (count p) (delete_here k j w m q ∙ delete_absent k m absent) in
        omega (arith, rest, ap (λ x. weight (p x)) at)
    | no n ↦
        let later = count-delete p k v m u (sym (find-there k j w m n) ∙ e) in
        let rest = ap (count p) (delete_there k j w m n) in omega (arith, later, rest)
  ]

  pub count-absent :
      (p : V → Bool) (k : K) (m : List (K × V)) → find k m ≡ none → count p (delete k m) ≡ count p m
  count-absent p k m e = ap (count p) (delete_absent k m e)

  -- A key that is found in the rest is found in the whole.
  pub find-later :
      (j k : K) (w v : V) (m : List (K × V))
      → find j m ≡ none
      → find k m ≡ some v
      → find k ((j, w) ∷ m) ≡ some v
  find-later j k w v m n e = elim (same j k) [
    | yes g ↦ absurd (cc (subst (λ y. find y m ≡ none) g n, e))
    | no g ↦ find-there k j w m g ∙ e
  ]

  -- Two tests that agree on the values of the map count the same.
  pub count-agree :
      (p q : V → Bool) (m : List (K × V))
      → Unique m
      → ((k : K) (v : V) → find k m ≡ some v → p v ≡ q v)
      → count p m ≡ count q m
  count-agree p q [] u h = refl
  count-agree p q ((j, w) ∷ m) (n, u) h =
      let head = h j w (find-here j j w m refl) in
      let rest = count-agree p q m u (λ k v e. h k v (find-later j k w v m n e)) in
      omega (arith, ap weight head, rest)
