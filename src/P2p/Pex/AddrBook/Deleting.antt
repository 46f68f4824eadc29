-- ===== src/P2p/Pex/AddrBook/Deleting.antt =====
-- The loop of removeFromAllBuckets over the buckets of an address.
use btm_stats.Base.{
  ℕ, ◌≡◌, ◌≢◌, inl, inr, refl, sym, ap, ◌∙◌, subst, false, ◌&&◌, Option, none, List, [], ◌∷◌, ◌==◌,
  if◌then◌else◌, arith, find, delete, Unique, find-delete_same, find-delete_other, Unique-delete,
}
use btm_stats.P2p.Pex.KnownAddress.{contains}
use btm_stats.P2p.Pex.AddrBook.{Addressing, AddrBook, get_bucket, set_bucket, delete_all}
use btm_stats.P2p.Pex.AddrBook.Consistent.{IsType}
use btm_stats.P2p.Pex.AddrBook.Buckets.{
  IsSame, get-set, set_bucket-IsSame, set_bucket-counters, alike, same_bucket-cases, same_bucket,
}

skip_gone :
    (u t i j : ℕ) (is : List ℕ) (x y : Option ℕ)
    → u ≡ t
    → j ≡ i
    → x ≡ none
    → (if u == t && contains j is then none else x)
      ≡ (if u == t && contains j (i ∷ is) then none else y)
skip_gone u t i j is x y e f g = ground arith

skip_kept :
    (u t i j : ℕ) (is : List ℕ) (x y : Option ℕ)
    → (u == t && j == i) ≡ false
    → x ≡ y
    → (if u == t && contains j is then none else x)
      ≡ (if u == t && contains j (i ∷ is) then none else y)
skip_kept u t i j is x y n g = ground arith

module _ {A Key : Type 0} (same : Discrete Key) (net : Addressing A Key) where
  -- The loop over the buckets of an address.
  pub deleted_same :
      (t : ℕ) (k : Key) (is : List ℕ) (b : AddrBook A Key) (u j : ℕ)
      → IsType t
      → find same k (get_bucket u j (delete_all same net t k is b))
        ≡ (if u == t && contains j is then none else find same k (get_bucket u j b))
  unfolding delete_all
  deleted_same t k [] b u j h = ground arith
  deleted_same t k (i ∷ is) b u j h =
      let rest = deleted_same t k is (set_bucket t i (delete same k (get_bucket t i b)) b) u j h in
      let read = ap (find same k) (get-set t i u j (delete same k (get_bucket t i b)) b h) in
      elim (same_bucket-cases u t j i) [
        | inl (e, f) ↦
            let none_left = find-delete_same same k (get_bucket t i b) in
            rest
            ∙ skip_gone u t i j is _ _ e f
                (read ∙ ap (find same k) (rw (same_bucket u t j i e f)) ∙ none_left)
        | inr n ↦ rest ∙ skip_kept u t i j is _ _ n (read ∙ ap (find same k) (rw n))
      ]

  pub deleted_other :
      (t : ℕ) (k x : Key) (is : List ℕ) (b : AddrBook A Key) (u j : ℕ)
      → IsType t
      → k ≢ x
      → find same x (get_bucket u j (delete_all same net t k is b)) ≡ find same x (get_bucket u j b)
  unfolding delete_all
  deleted_other t k x [] b u j h n = refl
  deleted_other t k x (i ∷ is) b u j h n =
      deleted_other t k x is (set_bucket t i (delete same k (get_bucket t i b)) b) u j h n
      ∙ ap (find same x) (get-set t i u j (delete same k (get_bucket t i b)) b h)
      ∙ elim (same_bucket-cases u t j i) [
        | inl (e, f) ↦
            let there : get_bucket t i b ≡ get_bucket u j b = rw (e, f) in
            ap (find same x) (rw (same_bucket u t j i e f))
            ∙ find-delete_other same k x (get_bucket t i b) n
            ∙ ap (find same x) there
        | inr o ↦ ap (find same x) (rw o)
      ]

  pub deleted-Unique :
      (t : ℕ) (k : Key) (is : List ℕ) (b : AddrBook A Key)
      → IsType t
      → ((u j : ℕ) → Unique same (get_bucket u j b))
      → (u j : ℕ) → Unique same (get_bucket u j (delete_all same net t k is b))
  unfolding delete_all
  deleted-Unique t k [] b h unique u j = unique u j
  deleted-Unique t k (i ∷ is) b h unique u j =
      deleted-Unique t k is (set_bucket t i (delete same k (get_bucket t i b)) b) h one u j
    where
      one :
          (u j : ℕ)
          → Unique same (get_bucket u j (set_bucket t i (delete same k (get_bucket t i b)) b))
      one u j = elim (same_bucket-cases u t j i) [
        | inl (e, f) ↦
            subst (Unique same)
              (sym (
                get-set t i u j (delete same k (get_bucket t i b)) b h
                ∙ rw (same_bucket u t j i e f)))
              (Unique-delete same k (get_bucket t i b) (unique t i))
        | inr n ↦
            subst (Unique same)
              (sym (get-set t i u j (delete same k (get_bucket t i b)) b h ∙ rw n)) (unique u j)
      ]

  pub deleted_rest :
      (t : ℕ) (k : Key) (is : List ℕ) (b : AddrBook A Key)
      → IsSame b (delete_all same net t k is b)
        × ((delete_all same net t k is b).n_new ≡ b.n_new)
        × ((delete_all same net t k is b).n_old ≡ b.n_old)
  unfolding delete_all
  deleted_rest t k [] b = (alike b, refl, refl)
  deleted_rest t k (i ∷ is) b =
      let m = delete same k (get_bucket t i b) in
      let (s, x, y) = deleted_rest t k is (set_bucket t i m b) in
      let one = set_bucket-IsSame t i m b in
      (
        record {
          lookup = s.lookup ∙ one.lookup;
          heap = s.heap ∙ one.heap;
          next = s.next ∙ one.next;
        },
        x ∙ (set_bucket-counters t i m b).0,
        y ∙ (set_bucket-counters t i m b).1,
      )
