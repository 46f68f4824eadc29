-- ===== src/P2p/Pex/AddrBook/Growing.antt =====
-- What a book is after a reference to a bucket is added, and that it is consistent.
use btm_stats.Base.{
  ◌≤◌, ℕ, ◌+◌, ◌%◌, ◌^◌, ◌<◌, ◌≡◌, ◌≢◌, ◌⊎◌, inl, inr, refl, sym, ap, ◌∙◌, subst, Bool, true, false,
  not, ◌&&◌, none, some, [], ◌∷◌, ◌++◌, length, ◌==◌, if◌then◌else◌, arith, find, put, delete,
  count, weight, Unique, find-put_same, find-put_other, delete-put, Unique-put, length-append,
}
use btm_stats.P2p.Pex.KnownAddress.{
  max_new_buckets_per_address, KnownAddress, contains, bucket_type_new, bucket_type_old,
}
use btm_stats.P2p.Pex.KnownAddress.Buckets.{IsDistinct, append-IsDistinct}
use btm_stats.P2p.Pex.AddrBook.{Addressing, AddrBook, get_bucket, address_of, update, increment}
use btm_stats.P2p.Pex.AddrBook.Consistent.{
  at, of_known, IsType, bucket_count, weight_of, IsPlaced, IsConsistent,
}
use btm_stats.P2p.Pex.AddrBook.Changes.{Change, Change-IsConsistent, count-split}
use btm_stats.P2p.Pex.AddrBook.Buckets.{
  update_same, update_other, same_bucket-cases, same_bucket, not_new,
}
use btm_stats.P2p.Pex.AddrBook.Raising.{
  of_known-append, of_known-append_first, of_known-append_same, contains-append_cases,
  counter_again, counter_first,
}

module _ {A Key : Type 0} (same : Discrete Key) (net : Addressing A Key) where
  -- An address of the given type that the table has, or that is in no bucket yet.
  pub record IsReady (b : AddrBook A Key) (t p i : ℕ) : Type 0 where
    pub allocated : p < b.next
    pub typed : IsType t
    pub kind : (b.heap p).bucket_type ≡ t
    pub distinct : IsDistinct (b.heap p).buckets
    pub fresh : contains i (b.heap p).buckets ≡ false
    pub in_range : (j : ℕ) → contains j (b.heap p).buckets ≡ true → j < bucket_count t
    pub few : length (b.heap p).buckets < max_new_buckets_per_address
    pub index : i < bucket_count t
    pub entry :
        ((find same (address_of same net b p) b.addr_lookup ≡ some p)
          × (0 < length (b.heap p).buckets))
        ⊎ ((find same (address_of same net b p) b.addr_lookup ≡ none) × ((b.heap p).buckets ≡ []))

  abbrev pub grown : AddrBook A Key → ℕ → ℕ → KnownAddress A
  grown b p i = record (b.heap p) { buckets = (b.heap p).buckets ++ (i ∷ []) }

  abbrev pub is_first : AddrBook A Key → ℕ → ℕ → Bool
  is_first b p i = length (grown b p i).buckets == 1

  pub record Grown (b c : AddrBook A Key) (t p i : ℕ) : Type 0 where
    pub lookup : c.addr_lookup ≡ put same (address_of same net b p) p b.addr_lookup
    pub heap : c.heap ≡ update p (grown b p i) b.heap
    pub next : c.next ≡ b.next
    pub get :
        (u j : ℕ)
        → get_bucket u j c ≡ (
            if u == t && j == i
            then put same (address_of same net b p) p (get_bucket t i b)
            else get_bucket u j b)
    pub n_new :
        c.n_new ≡ (if is_first b p i && t == bucket_type_new then increment b.n_new else b.n_new)
    pub n_old :
        c.n_old
        ≡ (if is_first b p i && not (t == bucket_type_new) then increment b.n_old else b.n_old)

  module _ (b c : AddrBook A Key) (t p i : ℕ) (v : IsConsistent same net b) (r : IsReady b t p i)
      (g : Grown b c t p i) where
    abbrev key : Key
    key = address_of same net b p

    found : find same key c.addr_lookup ≡ some p
    found = ap (find same key) g.lookup ∙ find-put_same same key p b.addr_lookup

    heap_at : c.heap p ≡ grown b p i
    heap_at = ap (λ h. h p) g.heap ∙ update_same p (grown b p i) b.heap

    get_same : (u j : ℕ) → u ≡ t → j ≡ i → get_bucket u j c ≡ put same key p (get_bucket t i b)
    get_same u j e f = g.get u j ∙ rw (same_bucket u t j i e f)

    get_other : (u j : ℕ) → (u == t && j == i) ≡ false → get_bucket u j c ≡ get_bucket u j b
    get_other u j e = g.get u j ∙ rw e

    at_here : (u j : ℕ) → at u j c.heap (find same key c.addr_lookup) ≡ of_known u j p (grown b p i)
    at_here u j = ap (at u j c.heap) found ∙ ap (of_known u j p) heap_at

    -- The address in the other buckets, before and after.
    at_before :
        (u j : ℕ)
        → (u == t && j == i) ≡ false
        → at u j b.heap (find same key b.addr_lookup) ≡ of_known u j p (grown b p i)
    at_before u j n = elim r.entry [
      | inl (e, s) ↦ ap (at u j b.heap) e ∙ sym (of_known-append t u i j p (b.heap p) r.kind n)
      | inr (e, s) ↦ ap (at u j b.heap) e ∙ of_known-append_first t u i j p (b.heap p) s r.kind n
    ]

    here :
        (u j : ℕ) → find same key (get_bucket u j c) ≡ at u j c.heap (find same key c.addr_lookup)
    here u j = elim (same_bucket-cases u t j i) [
      | inl (e, f) ↦
          ap (find same key) (get_same u j e f)
          ∙ find-put_same same key p _
          ∙ sym (at_here u j ∙ of_known-append_same t u i j p (b.heap p) r.kind e f)
      | inr n ↦
          ap (find same key) (get_other u j n)
          ∙ v.indexed u j key
          ∙ at_before u j n
          ∙ sym (at_here u j)
    ]

    elsewhere :
        (u j : ℕ) (x : Key)
        → key ≢ x
        → find same x (get_bucket u j c) ≡ find same x (get_bucket u j b)
    elsewhere u j x n = elim (same_bucket-cases u t j i) [
      | inl (e, f) ↦
          let here : get_bucket t i b ≡ get_bucket u j b = rw (e, f) in
          ap (find same x) (get_same u j e f)
          ∙ find-put_other same key x p (get_bucket t i b) n
          ∙ ap (find same x) here
      | inr o ↦ ap (find same x) (get_other u j o)
    ]

    in_range :
        (j : ℕ) → contains j (grown b p i).buckets ≡ true → j < bucket_count (b.heap p).bucket_type
    in_range j e = elim (contains-append_cases i j (b.heap p).buckets e) [
      | inl f ↦ subst (λ u. j < bucket_count u) (sym r.kind) (rw (f) r.index)
      | inr h ↦ subst (λ u. j < bucket_count u) (sym r.kind) (r.in_range j h)
    ]

    placed : (q : ℕ) → find same key c.addr_lookup ≡ some q → IsPlaced same net c key q
    placed q e =
        let same_pointer : p ≡ q = cc (found, e) in
        subst (IsPlaced same net c key) same_pointer (record {
          allocated = omega (arith, r.allocated, g.next);
          named = ap (λ ka. net.string_of ka.addr) heap_at;
          typed =
              subst (λ ka. IsType ka.bucket_type) (sym heap_at) (subst IsType (sym r.kind) r.typed);
          distinct =
              subst (λ ka. IsDistinct ka.buckets) (sym heap_at)
                (append-IsDistinct i (b.heap p).buckets r.distinct r.fresh);
          somewhere =
              subst (λ ka. 0 < length ka.buckets) (sym heap_at)
                (omega (arith, length-append (b.heap p).buckets (i ∷ [])));
          few =
              subst (λ ka. length ka.buckets ≤ max_new_buckets_per_address) (sym heap_at)
                (omega (arith, r.few, length-append (b.heap p).buckets (i ∷ [])));
          in_range =
              subst (λ ka. (j : ℕ) → contains j ka.buckets ≡ true → j < bucket_count ka.bucket_type)
                (sym heap_at) in_range;
        })

    -- A counter of one of the types goes up with the first bucket of an address of this type.
    counted :
        (test : ℕ → Bool) (n : ℕ)
        → n ≡ count same (λ q. test (b.heap q).bucket_type) b.addr_lookup % 2 ^ 64
        → (if is_first b p i && test t then increment n else n)
          ≡ (weight_of (λ q. test (c.heap q).bucket_type) (find same key c.addr_lookup)
              + count same (λ q. test (b.heap q).bucket_type) (delete same key b.addr_lookup))
            % 2 ^ 64
    counted test n e =
        let split =
          count-split same net (λ q. test (b.heap q).bucket_type) key b.addr_lookup v.unique in
        let after : weight_of (λ q. test (c.heap q).bucket_type) (find same key c.addr_lookup)
            ≡ weight (test t) =
          ap (weight_of (λ q. test (c.heap q).bucket_type)) found
          ∙ ap (λ ka. weight (test ka.bucket_type)) heap_at
          ∙ ap (λ u. weight (test u)) r.kind in
        elim r.entry [
          | inl (f, s) ↦
              let before =
                ap (weight_of (λ q. test (b.heap q).bucket_type)) f
                ∙ ap (λ u. weight (test u)) r.kind in
              let more = length-append (b.heap p).buckets (i ∷ []) in
              counter_again (length (grown b p i).buckets) _ _ n _ (test t) (omega (arith, more, s))
                e (omega (arith, split, before, after))
          | inr (f, s) ↦
              let before = ap (weight_of (λ q. test (b.heap q).bucket_type)) f in
              let one = ap (λ is. length (is ++ (i ∷ []))) s in
              counter_first (length (grown b p i).buckets) _ _ n _ (test t) one e
                (omega (arith, split, before)) after
        ]

    buckets-Unique : (u j : ℕ) → Unique same (get_bucket u j c)
    buckets-Unique u j = elim (same_bucket-cases u t j i) [
      | inl (e, f) ↦
          subst (Unique same) (sym (get_same u j e f))
            (Unique-put same key p (get_bucket t i b) (v.unique_buckets t i))
      | inr n ↦ subst (Unique same) (sym (get_other u j n)) (v.unique_buckets u j)
    ]

    change : Change same net b c key p
    change = record {
      named = refl;
      rest = ap (delete same key) g.lookup ∙ delete-put same key p b.addr_lookup;
      elsewhere = elsewhere;
      heap = λ q n. ap (λ h. h q) g.heap ∙ update_other p q (grown b p i) b.heap n;
      next = omega (arith, g.next);
      here = here;
      placed = placed;
      unique = subst (Unique same) (sym g.lookup) (Unique-put same key p b.addr_lookup v.unique);
      unique_buckets = buckets-Unique;
      new_counted = g.n_new ∙ counted (λ u. u == bucket_type_new) b.n_new v.new_counted;
      old_counted =
          g.n_old
          ∙ ap (λ x. if is_first b p i && x then increment b.n_old else b.n_old) (not_new t r.typed)
          ∙ counted (λ u. u == bucket_type_old) b.n_old v.old_counted;
    }

    pub Grown-IsConsistent : IsConsistent same net c
    Grown-IsConsistent = Change-IsConsistent same net v change
