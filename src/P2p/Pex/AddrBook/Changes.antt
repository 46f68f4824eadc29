-- ===== src/P2p/Pex/AddrBook/Changes.antt =====
-- A change of a book at one address keeps it consistent, if it is right at that address.
use btm_stats.Base.{
  ℕ, ◌+◌, ◌%◌, ◌^◌, ◌≤◌, ◌<◌, ◌≡◌, ◌≢◌, inl, inr, sym, ap, ◌∙◌, subst, Bool, true, none, some, List,
  length, arith, find, delete, count, Unique, find-delete_same, find-delete_other, delete_absent,
  count-delete, count-agree, Option-cases, Unique-delete,
}
use btm_stats.P2p.Pex.KnownAddress.{
  KnownAddress, max_new_buckets_per_address, is_old, is_new, contains,
}
use btm_stats.P2p.Pex.KnownAddress.Buckets.{IsDistinct}
use btm_stats.P2p.Pex.AddrBook.{Addressing, AddrBook, get_bucket, address_of}
use btm_stats.P2p.Pex.AddrBook.Consistent.{
  at, of_known, IsType, bucket_count, weight_of, IsPlaced, IsConsistent,
}

module _ {A Key : Type 0} (same : Discrete Key) (net : Addressing A Key) where
  -- A table counted at one key and elsewhere.
  pub count-split :
      (test : ℕ → Bool) (k : Key) (m : List (Key × ℕ))
      → Unique same m
      → count same test m ≡ weight_of test (find same k m) + count same test (delete same k m)
  count-split test k m u = elim (Option-cases (find same k m)) [
    | inl e ↦
        let absent = delete_absent same k m e in
        omega (arith, ap (count same test) absent, ap (weight_of test) e)
    | inr (p, e) ↦
        let split = count-delete same test k p m u e in omega (arith, split, ap (weight_of test) e)
  ]

  pub record Change (b c : AddrBook A Key) (k : Key) (p : ℕ) : Type 0 where
    pub named : address_of same net b p ≡ k
    pub rest : delete same k c.addr_lookup ≡ delete same k b.addr_lookup
    pub elsewhere :
        (t i : ℕ) (x : Key)
        → k ≢ x
        → find same x (get_bucket t i c) ≡ find same x (get_bucket t i b)
    pub heap : (q : ℕ) → q ≢ p → c.heap q ≡ b.heap q
    pub next : b.next ≤ c.next
    pub here :
        (t i : ℕ) → find same k (get_bucket t i c) ≡ at t i c.heap (find same k c.addr_lookup)
    pub placed : (q : ℕ) → find same k c.addr_lookup ≡ some q → IsPlaced same net c k q
    pub unique : Unique same c.addr_lookup
    pub unique_buckets : (t i : ℕ) → Unique same (get_bucket t i c)
    pub new_counted :
        c.n_new
        ≡ (weight_of (λ q. is_new (c.heap q)) (find same k c.addr_lookup)
            + count same (λ q. is_new (b.heap q)) (delete same k b.addr_lookup))
          % 2 ^ 64
    pub old_counted :
        c.n_old
        ≡ (weight_of (λ q. is_old (c.heap q)) (find same k c.addr_lookup)
            + count same (λ q. is_old (b.heap q)) (delete same k b.addr_lookup))
          % 2 ^ 64

  module _ {b c : AddrBook A Key} {k : Key} {p : ℕ} (v : IsConsistent same net b)
      (h : Change b c k p) where
    unchanged : (x : Key) → k ≢ x → find same x c.addr_lookup ≡ find same x b.addr_lookup
    unchanged x n =
        sym (find-delete_other same k x c.addr_lookup n)
        ∙ ap (find same x) h.rest
        ∙ find-delete_other same k x b.addr_lookup n

    -- The pointer of another key is another one.
    apart : (x : Key) (q : ℕ) → k ≢ x → find same x b.addr_lookup ≡ some q → q ≢ p
    apart x q n e f = n (sym h.named ∙ ap (address_of same net b) (sym f) ∙ (v.placed x q e).named)

    at_other :
        (t i : ℕ) (x : Key)
        → k ≢ x
        → at t i c.heap (find same x b.addr_lookup) ≡ at t i b.heap (find same x b.addr_lookup)
    at_other t i x n = elim (Option-cases (find same x b.addr_lookup)) [
      | inl e ↦ ap (at t i c.heap) e ∙ ap (at t i b.heap) (sym e)
      | inr (q, e) ↦
          ap (at t i c.heap) e
          ∙ ap (λ ka. of_known t i q ka) (h.heap q (apart x q n e))
          ∙ ap (at t i b.heap) (sym e)
    ]

    -- A test of the addresses counts the other entries as before.
    rest_counted :
        (test : KnownAddress A → Bool)
        → count same (λ q. test (c.heap q)) (delete same k b.addr_lookup)
          ≡ count same (λ q. test (b.heap q)) (delete same k b.addr_lookup)
    rest_counted test =
        count-agree same (λ q. test (c.heap q)) (λ q. test (b.heap q)) (delete same k b.addr_lookup)
          (Unique-delete same k b.addr_lookup v.unique) agree
      where
        agree :
            (x : Key) (q : ℕ)
            → find same x (delete same k b.addr_lookup) ≡ some q
            → test (c.heap q) ≡ test (b.heap q)
        agree x q e = elim (same k x) [
          | yes f ↦ absurd (
              cc (
                e,
                subst (λ y. find same y (delete same k b.addr_lookup) ≡ none) f
                    (find-delete_same same k b.addr_lookup),
              ))
          | no n ↦
              let found = sym (find-delete_other same k x b.addr_lookup n) ∙ e in
              ap test (h.heap q (apart x q n found))
        ]

    counted :
        (test : KnownAddress A → Bool)
        → count same (λ q. test (c.heap q)) c.addr_lookup
          ≡ weight_of (λ q. test (c.heap q)) (find same k c.addr_lookup)
            + count same (λ q. test (b.heap q)) (delete same k b.addr_lookup)
    counted test =
        let split = count-split (λ q. test (c.heap q)) k c.addr_lookup h.unique in
        let rest = ap (count same (λ q. test (c.heap q))) h.rest in
        omega (arith, split, rest, rest_counted test)

    indexed :
        (t i : ℕ) (x : Key)
        → find same x (get_bucket t i c) ≡ at t i c.heap (find same x c.addr_lookup)
    indexed t i x = elim (same k x) [
      | yes e ↦
          subst (λ y. find same y (get_bucket t i c) ≡ at t i c.heap (find same y c.addr_lookup)) e
            (h.here t i)
      | no n ↦
          h.elsewhere t i x n
          ∙ v.indexed t i x
          ∙ sym (at_other t i x n)
          ∙ ap (at t i c.heap) (sym (unchanged x n))
    ]

    placed : (x : Key) (q : ℕ) → find same x c.addr_lookup ≡ some q → IsPlaced same net c x q
    placed x q e = elim (same k x) [
      | yes f ↦
          subst (λ y. find same y c.addr_lookup ≡ some q → IsPlaced same net c y q) f (h.placed q) e
      | no n ↦
          let found = sym (unchanged x n) ∙ e in
          let old = v.placed x q found in
          let moved : b.heap q ≡ c.heap q = sym (h.heap q (apart x q n found)) in
          record {
            allocated = omega (arith, old.allocated, h.next);
            named = ap (λ ka. net.string_of ka.addr) (sym moved) ∙ old.named;
            typed = subst (λ ka. IsType ka.bucket_type) moved old.typed;
            distinct = subst (λ ka. IsDistinct ka.buckets) moved old.distinct;
            somewhere = subst (λ ka. 0 < length ka.buckets) moved old.somewhere;
            few = subst (λ ka. length ka.buckets ≤ max_new_buckets_per_address) moved old.few;
            in_range =
                subst
                  (λ ka. (i : ℕ) → contains i ka.buckets ≡ true → i < bucket_count ka.bucket_type)
                  moved old.in_range;
          }
    ]

    pub Change-IsConsistent : IsConsistent same net c
    Change-IsConsistent = record {
      indexed = indexed;
      placed = placed;
      unique = h.unique;
      unique_buckets = h.unique_buckets;
      new_counted = h.new_counted ∙ ap (λ n. n % 2 ^ 64) (sym (counted is_new));
      old_counted = h.old_counted ∙ ap (λ n. n % 2 ^ 64) (sym (counted is_old));
    }
