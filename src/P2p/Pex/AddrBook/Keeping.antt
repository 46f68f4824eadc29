-- ===== src/P2p/Pex/AddrBook/Keeping.antt =====
-- The calls of the book keep it consistent.
use btm_stats.Base.{
  Bool, true, false, Unique, ℕ, ◌≤◌, ◌≡◌, ◌≢◌, inl, inr, refl, sym, ap, ◌∙◌, subst, none, some, [],
  ◌==◌, if◌then◌else◌, arith, find, Option-cases, ℕ_discrete,
}
use btm_stats.P2p.Pex.KnownAddress.{KnownAddress, mark_attempt, bucket_type_new, bucket_type_old}
use btm_stats.P2p.Pex.AddrBook.{Addressing, AddrBook, remove_from_all_buckets, write, update}
use btm_stats.P2p.Pex.AddrBook.Calls.{
  new_addr_book, found_attempt, mark_attempt_address, found_remove, remove_address, add_our_address,
}
use btm_stats.P2p.Pex.AddrBook.Consistent.{IsConsistent}
use btm_stats.P2p.Pex.AddrBook.Buckets.{update_same, update_other}
use btm_stats.P2p.Pex.AddrBook.Erasing.{remove_from_all-Erased, Erased-IsConsistent}
use btm_stats.P2p.Pex.AddrBook.Rewriting.{Alike, rewritten-IsConsistent}

module _ {A Key : Type 0} (same : Discrete Key) (net : Addressing A Key) where
  pub new_addr_book-IsConsistent :
      (free : KnownAddress A) → IsConsistent same net (new_addr_book free)
  new_addr_book-IsConsistent free = record {
    indexed = λ t i k. nowhere t k;
    placed = λ k p e. absurd (cc e);
    unique = tt;
    unique_buckets = λ t i. nothing (t == bucket_type_new) (t == bucket_type_old);
    new_counted = refl;
    old_counted = refl;
  }
    where
      nowhere :
          (t : ℕ) (k : Key)
          → find {V = ℕ} same k
              (if t == bucket_type_new then [] else if t == bucket_type_old then [] else [])
            ≡ none
      nowhere t k = ground arith

      nothing : (x y : Bool) → Unique {V = ℕ} same (if x then [] else if y then [] else [])
      nothing true y = tt
      nothing false true = tt
      nothing false false = tt

  alike : (ka : KnownAddress A) → Alike ka ka
  alike ka = record { addr = refl; bucket_type = refl; buckets = refl }

  -- A write that moves no address, and a write at a pointer that the table does not have.
  pub write_alike-IsConsistent :
      (b : AddrBook A Key) (p : ℕ) (ka : KnownAddress A)
      → IsConsistent same net b
      → Alike ka (b.heap p)
      → IsConsistent same net (write p ka b)
  write_alike-IsConsistent b p ka v a =
      rewritten-IsConsistent same net b b.our_addrs (update p ka b.heap) b.next v kept (omega arith)
    where
      kept :
          (k : Key) (q : ℕ)
          → find same k b.addr_lookup ≡ some q
          → Alike (update p ka b.heap q) (b.heap q)
      kept k q e = elim (ℕ_discrete q p) [
        | yes f ↦
            subst (λ r. Alike (update p ka b.heap r) (b.heap r)) (sym f)
              (subst (λ kb. Alike kb (b.heap p)) (sym (update_same p ka b.heap)) a)
        | no f ↦
            subst (λ kb. Alike kb (b.heap q)) (sym (update_other p q ka b.heap f))
              (alike (b.heap q))
      ]

  pub write_unlisted-IsConsistent :
      (b : AddrBook A Key) (p : ℕ) (ka : KnownAddress A) (n : ℕ)
      → IsConsistent same net b
      → ((k : Key) → find same k b.addr_lookup ≢ some p)
      → b.next ≤ n
      → IsConsistent same net (record (write p ka b) { next = n })
  write_unlisted-IsConsistent b p ka n v free more =
      rewritten-IsConsistent same net b b.our_addrs (update p ka b.heap) n v kept more
    where
      kept :
          (k : Key) (q : ℕ)
          → find same k b.addr_lookup ≡ some q
          → Alike (update p ka b.heap q) (b.heap q)
      kept k q e =
          subst (λ kb. Alike kb (b.heap q))
            (sym (update_other p q ka b.heap (λ f. free k (e ∙ ap some f)))) (alike (b.heap q))

  pub add_our_address-IsConsistent :
      (addr : A) (b : AddrBook A Key)
      → IsConsistent same net b
      → IsConsistent same net (add_our_address same net addr b)
  unfolding add_our_address
  add_our_address-IsConsistent addr b v =
      rewritten-IsConsistent same net b _ b.heap b.next v (λ k q e. alike (b.heap q)) (omega arith)

  pub mark_attempt-IsConsistent :
      (now : ℕ) (addr : A) (b : AddrBook A Key)
      → IsConsistent same net b
      → IsConsistent same net (mark_attempt_address same net now addr b)
  unfolding mark_attempt_address mark_attempt
  mark_attempt-IsConsistent now addr b v =
      elim (Option-cases (find same (net.string_of addr) b.addr_lookup)) [
        | inl e ↦ subst (λ o. IsConsistent same net (found_attempt same net now o b)) (sym e) v
        | inr (p, e) ↦
            subst (λ o. IsConsistent same net (found_attempt same net now o b)) (sym e)
              (write_alike-IsConsistent b p _ v
                (record { addr = refl; bucket_type = refl; buckets = refl }))
      ]

  pub remove_from_all-IsConsistent :
      (b : AddrBook A Key) (k : Key) (p : ℕ)
      → IsConsistent same net b
      → find same k b.addr_lookup ≡ some p
      → IsConsistent same net (remove_from_all_buckets same net p b)
  remove_from_all-IsConsistent b k p v e =
      let old = v.placed k p e in
      Erased-IsConsistent same net b _ p v
        (subst (λ x. find same x b.addr_lookup ≡ some p) (sym old.named) e)
        (remove_from_all-Erased same net b p old.typed)

  pub remove_address-IsConsistent :
      (addr : A) (b : AddrBook A Key)
      → IsConsistent same net b
      → IsConsistent same net (remove_address same net addr b)
  unfolding remove_address
  remove_address-IsConsistent addr b v =
      elim (Option-cases (find same (net.string_of addr) b.addr_lookup)) [
        | inl e ↦ subst (λ o. IsConsistent same net (found_remove same net o b)) (sym e) v
        | inr (p, e) ↦
            subst (λ o. IsConsistent same net (found_remove same net o b)) (sym e)
              (remove_from_all-IsConsistent b (net.string_of addr) p v e)
      ]
