-- ===== src/P2p/Pex/AddrBook/Erasing.antt =====
-- removeFromAllBuckets.
use btm_stats.Base.{
  ℕ, ◌+◌, ◌%◌, ◌^◌, ◌≡◌, ◌≢◌, refl, sym, ap, ◌∙◌, subst, Bool, not, ◌&&◌, none, some, [], ◌==◌,
  if◌then◌else◌, arith, find, delete, count, Unique, find-delete_same, delete-delete, Unique-delete,
}
use btm_stats.P2p.Pex.KnownAddress.{KnownAddress, contains, bucket_type_new, bucket_type_old}
use btm_stats.P2p.Pex.AddrBook.{
  Addressing, AddrBook, get_bucket, address_of, remove_from_all_buckets, delete_all, update,
  decrement, write,
}
use btm_stats.P2p.Pex.AddrBook.Consistent.{at, of_known, IsType, weight_of, IsPlaced, IsConsistent}
use btm_stats.P2p.Pex.AddrBook.Changes.{Change, Change-IsConsistent, count-split}
use btm_stats.P2p.Pex.AddrBook.Lowering.{counter_less}
use btm_stats.P2p.Pex.AddrBook.Buckets.{
  count_down-IsSame, get-count_down, update_same, update_other, not_new, count_down-counters,
}
use btm_stats.P2p.Pex.AddrBook.Deleting.{deleted_same, deleted_other, deleted-Unique, deleted_rest}

module _ {A Key : Type 0} (same : Discrete Key) (net : Addressing A Key) where
  -- The book after removeFromAllBuckets.
  pub record Erased (b c : AddrBook A Key) (p : ℕ) : Type 0 where
    pub lookup : c.addr_lookup ≡ delete same (address_of same net b p) b.addr_lookup
    pub heap : c.heap ≡ update p (record (b.heap p) { buckets = [] }) b.heap
    pub next : c.next ≡ b.next
    pub here :
        (u j : ℕ)
        → find same (address_of same net b p) (get_bucket u j c) ≡ (
            if u == (b.heap p).bucket_type && contains j (b.heap p).buckets
            then none
            else find same (address_of same net b p) (get_bucket u j b))
    pub elsewhere :
        (u j : ℕ) (x : Key)
        → address_of same net b p ≢ x
        → find same x (get_bucket u j c) ≡ find same x (get_bucket u j b)
    pub unique_buckets :
        ((u j : ℕ) → Unique same (get_bucket u j b)) → (u j : ℕ) → Unique same (get_bucket u j c)
    pub n_new :
        c.n_new ≡ (if (b.heap p).bucket_type == bucket_type_new then decrement b.n_new else b.n_new)
    pub n_old :
        c.n_old
        ≡ (if not ((b.heap p).bucket_type == bucket_type_new) then decrement b.n_old else b.n_old)

  pub remove_from_all-Erased :
      (b : AddrBook A Key) (p : ℕ)
      → IsType (b.heap p).bucket_type
      → Erased b (remove_from_all_buckets same net p b) p
  unfolding remove_from_all_buckets
  remove_from_all-Erased b p typed =
      let t = (b.heap p).bucket_type in
      let k = address_of same net b p in
      let is = (b.heap p).buckets in
      let ka = record (b.heap p) { buckets = [] } in
      let unlinked : AddrBook A Key = record b { addr_lookup = delete same k b.addr_lookup } in
      let d = write p ka (delete_all same net t k is unlinked) in
      let (s, x, y) = deleted_rest same net t k is unlinked in
      let down = count_down-IsSame t d in
      record {
        lookup = down.lookup ∙ s.lookup;
        heap = down.heap ∙ ap (update p ka) s.heap;
        next = down.next ∙ s.next;
        unique_buckets = λ unique u j.
            subst (Unique same) (sym (get-count_down t u j d))
              (deleted-Unique same net t k is unlinked typed unique u j);
        here = λ u j.
            ap (find same k) (get-count_down t u j d)
            ∙ deleted_same same net t k is unlinked u j typed;
        elsewhere = λ u j z n.
            ap (find same z) (get-count_down t u j d)
            ∙ deleted_other same net t k z is unlinked u j typed n;
        n_new =
            (count_down-counters t d).0
            ∙ ap (λ n. if t == bucket_type_new then decrement n else n) x;
        n_old =
            (count_down-counters t d).1
            ∙ ap (λ n. if not (t == bucket_type_new) then decrement n else n) y;
      }

  module _ (b c : AddrBook A Key) (p : ℕ) (v : IsConsistent same net b)
      (listed : find same (address_of same net b p) b.addr_lookup ≡ some p) (g : Erased b c p) where
    abbrev key : Key
    key = address_of same net b p

    pub erased_lookup : find same key c.addr_lookup ≡ none
    erased_lookup = ap (find same key) g.lookup ∙ find-delete_same same key b.addr_lookup

    pub heap_at : c.heap p ≡ record (b.heap p) { buckets = [] }
    heap_at = ap (λ h. h p) g.heap ∙ update_same p (record (b.heap p) { buckets = [] }) b.heap

    here :
        (u j : ℕ) → find same key (get_bucket u j c) ≡ at u j c.heap (find same key c.addr_lookup)
    here u j =
        g.here u j
        ∙ ap (λ o. if u == (b.heap p).bucket_type && contains j (b.heap p).buckets then none else o)
            (v.indexed u j key ∙ ap (at u j b.heap) listed)
        ∙ twice u j (b.heap p)
        ∙ sym (ap (at u j c.heap) erased_lookup)
      where
        twice :
            (u j : ℕ) (ka : KnownAddress A)
            → (if u == ka.bucket_type && contains j ka.buckets then none else of_known u j p ka)
              ≡ none
        twice u j ka = ground arith

    placed : (q : ℕ) → find same key c.addr_lookup ≡ some q → IsPlaced same net c key q
    placed q e = absurd (cc (erased_lookup, e))

    counted :
        (test : ℕ → Bool) (n : ℕ)
        → n ≡ count same (λ q. test (b.heap q).bucket_type) b.addr_lookup % 2 ^ 64
        → (if test (b.heap p).bucket_type then decrement n else n)
          ≡ (weight_of (λ q. test (c.heap q).bucket_type) (find same key c.addr_lookup)
              + count same (λ q. test (b.heap q).bucket_type) (delete same key b.addr_lookup))
            % 2 ^ 64
    counted test n e =
        let split =
          count-split same net (λ q. test (b.heap q).bucket_type) key b.addr_lookup v.unique in
        let before = ap (weight_of (λ q. test (b.heap q).bucket_type)) listed in
        counter_less 0 _ _ n _ (test (b.heap p).bucket_type) refl e (omega (arith, split, before))
          (ap (weight_of (λ q. test (c.heap q).bucket_type)) erased_lookup)

    change : Change same net b c key p
    change = record {
      named = refl;
      rest = ap (delete same key) g.lookup ∙ delete-delete same key b.addr_lookup;
      elsewhere = g.elsewhere;
      heap = λ q n. ap (λ h. h q) g.heap ∙ update_other p q _ b.heap n;
      next = omega (arith, g.next);
      here = here;
      placed = placed;
      unique_buckets = g.unique_buckets v.unique_buckets;
      unique = subst (Unique same) (sym g.lookup) (Unique-delete same key b.addr_lookup v.unique);
      new_counted = g.n_new ∙ counted (λ u. u == bucket_type_new) b.n_new v.new_counted;
      old_counted =
          g.n_old
          ∙ ap (λ x. if x then decrement b.n_old else b.n_old)
              (not_new (b.heap p).bucket_type (v.placed key p listed).typed)
          ∙ counted (λ u. u == bucket_type_old) b.n_old v.old_counted;
    }

    pub Erased-IsConsistent : IsConsistent same net c
    Erased-IsConsistent = Change-IsConsistent same net v change
