-- ===== src/P2p/Pex/AddrBook/Shrinking.antt =====
-- A book with one reference to a bucket less is consistent.
use btm_stats.Base.{
  ◌≤◌, ℕ, ◌+◌, ◌%◌, ◌^◌, ◌<◌, ◌≡◌, ◌≢◌, inl, inr, refl, sym, ap, ◌∙◌, subst, Bool, true, false, not,
  ◌&&◌, none, some, length, ==_iff, ◌==◌, if◌then◌else◌, arith, find, delete, count, weight, Unique,
  find-delete_same, find-delete_other, delete-delete, Unique-delete, Bool-cases,
}
use btm_stats.P2p.Pex.KnownAddress.{
  max_new_buckets_per_address, KnownAddress, contains, without, bucket_type_new, bucket_type_old,
}
use btm_stats.P2p.Pex.KnownAddress.Buckets.{IsDistinct, without-IsDistinct}
use btm_stats.P2p.Pex.AddrBook.{Addressing, AddrBook, get_bucket, address_of, update, decrement}
use btm_stats.P2p.Pex.AddrBook.Consistent.{
  at, of_known, IsType, bucket_count, weight_of, IsPlaced, IsConsistent,
}
use btm_stats.P2p.Pex.AddrBook.Changes.{Change, Change-IsConsistent, count-split}
use btm_stats.P2p.Pex.AddrBook.Buckets.{
  update_same, update_other, same_bucket-cases, same_bucket, not_new,
}
use btm_stats.P2p.Pex.AddrBook.Lowering.{
  counter_less, counter_stays, of_known-without_same, of_known-without_other, length-without_le,
  contains-without, of_known_nowhere,
}

module _ {A Key : Type 0} (same : Discrete Key) (net : Addressing A Key) where
  abbrev pub shrunk : AddrBook A Key → ℕ → ℕ → KnownAddress A
  shrunk b p i = record (b.heap p) { buckets = without i (b.heap p).buckets }

  abbrev pub is_last : AddrBook A Key → ℕ → ℕ → Bool
  is_last b p i = length (shrunk b p i).buckets == 0

  pub record Shrunk (b c : AddrBook A Key) (t p i : ℕ) : Type 0 where
    pub lookup : c.addr_lookup ≡ (
        if is_last b p i
        then delete same (address_of same net b p) b.addr_lookup
        else b.addr_lookup)
    pub heap : c.heap ≡ update p (shrunk b p i) b.heap
    pub next : c.next ≡ b.next
    pub get :
        (u j : ℕ)
        → get_bucket u j c ≡ (
            if u == t && j == i
            then delete same (address_of same net b p) (get_bucket t i b)
            else get_bucket u j b)
    pub n_new :
        c.n_new ≡ (if is_last b p i && t == bucket_type_new then decrement b.n_new else b.n_new)
    pub n_old :
        c.n_old
        ≡ (if is_last b p i && not (t == bucket_type_new) then decrement b.n_old else b.n_old)

  module _ (b c : AddrBook A Key) (t p i : ℕ) (v : IsConsistent same net b)
      (kind : (b.heap p).bucket_type ≡ t)
      (listed : find same (address_of same net b p) b.addr_lookup ≡ some p)
      (inside : contains i (b.heap p).buckets ≡ true) (g : Shrunk b c t p i) where
    abbrev key : Key
    key = address_of same net b p

    heap_at : c.heap p ≡ shrunk b p i
    heap_at = ap (λ h. h p) g.heap ∙ update_same p (shrunk b p i) b.heap

    get_same : (u j : ℕ) → u ≡ t → j ≡ i → get_bucket u j c ≡ delete same key (get_bucket t i b)
    get_same u j e f = g.get u j ∙ rw (same_bucket u t j i e f)

    get_other : (u j : ℕ) → (u == t && j == i) ≡ false → get_bucket u j c ≡ get_bucket u j b
    get_other u j e = g.get u j ∙ rw e

    gone : is_last b p i ≡ true → find same key c.addr_lookup ≡ none
    gone e = ap (find same key) (g.lookup ∙ rw e) ∙ find-delete_same same key b.addr_lookup

    found : is_last b p i ≡ false → find same key c.addr_lookup ≡ some p
    found e = ap (find same key) (g.lookup ∙ rw e) ∙ listed

    -- What the table says of a bucket, where the last reference is gone and where it is not.
    at_here :
        (u j : ℕ) → at u j c.heap (find same key c.addr_lookup) ≡ of_known u j p (shrunk b p i)
    at_here u j = elim (Bool-cases (is_last b p i)) [
      | inl e ↦
          ap (at u j c.heap) (gone e) ∙ of_known_nowhere u j p (shrunk b p i) ((==_iff _ 0).0 e)
      | inr e ↦ ap (at u j c.heap) (found e) ∙ ap (of_known u j p) heap_at
    ]

    here :
        (u j : ℕ) → find same key (get_bucket u j c) ≡ at u j c.heap (find same key c.addr_lookup)
    here u j = elim (same_bucket-cases u t j i) [
      | inl (e, f) ↦
          ap (find same key) (get_same u j e f)
          ∙ find-delete_same same key (get_bucket t i b)
          ∙ sym (at_here u j ∙ of_known-without_same u i j p (b.heap p) f)
      | inr n ↦
          ap (find same key) (get_other u j n)
          ∙ v.indexed u j key
          ∙ ap (at u j b.heap) listed
          ∙ sym (at_here u j ∙ of_known-without_other t u i j p (b.heap p) kind n)
    ]

    pub elsewhere :
        (u j : ℕ) (x : Key)
        → key ≢ x
        → find same x (get_bucket u j c) ≡ find same x (get_bucket u j b)
    elsewhere u j x n = elim (same_bucket-cases u t j i) [
      | inl (e, f) ↦
          let here : get_bucket t i b ≡ get_bucket u j b = rw (e, f) in
          ap (find same x) (get_same u j e f)
          ∙ find-delete_other same key x (get_bucket t i b) n
          ∙ ap (find same x) here
      | inr o ↦ ap (find same x) (get_other u j o)
    ]

    placed : (q : ℕ) → find same key c.addr_lookup ≡ some q → IsPlaced same net c key q
    placed q e = elim (Bool-cases (is_last b p i)) [
      | inl l ↦ absurd (cc (gone l, e))
      | inr l ↦
          let same_pointer : p ≡ q = cc (found l, e) in
          let old = v.placed key p listed in
          subst (IsPlaced same net c key) same_pointer (record {
            allocated = omega (arith, old.allocated, g.next);
            named = ap (λ ka. net.string_of ka.addr) heap_at;
            typed = subst (λ ka. IsType ka.bucket_type) (sym heap_at) old.typed;
            distinct =
                subst (λ ka. IsDistinct ka.buckets) (sym heap_at)
                  (without-IsDistinct i (b.heap p).buckets old.distinct);
            somewhere = subst (λ ka. 0 < length ka.buckets) (sym heap_at) (ground (arith, l));
            few =
                subst (λ ka. length ka.buckets ≤ max_new_buckets_per_address) (sym heap_at)
                  (omega (arith, old.few, length-without_le i (b.heap p).buckets));
            in_range =
                subst
                  (λ ka. (j : ℕ) → contains j ka.buckets ≡ true → j < bucket_count ka.bucket_type)
                  (sym heap_at) (λ j h. old.in_range j (contains-without i j (b.heap p).buckets h));
          })
    ]

    -- A counter of one of the types goes down with the last bucket of an address of this type.
    counted :
        (test : ℕ → Bool) (n : ℕ)
        → n ≡ count same (λ q. test (b.heap q).bucket_type) b.addr_lookup % 2 ^ 64
        → (if is_last b p i && test t then decrement n else n)
          ≡ (weight_of (λ q. test (c.heap q).bucket_type) (find same key c.addr_lookup)
              + count same (λ q. test (b.heap q).bucket_type) (delete same key b.addr_lookup))
            % 2 ^ 64
    counted test n e =
        let split =
          count-split same net (λ q. test (b.heap q).bucket_type) key b.addr_lookup v.unique in
        let before =
          ap (weight_of (λ q. test (b.heap q).bucket_type)) listed
          ∙ ap (λ u. weight (test u)) kind in
        elim (Bool-cases (is_last b p i)) [
          | inl l ↦
              counter_less (length (shrunk b p i).buckets) _ _ n _ (test t) ((==_iff _ 0).0 l) e
                (omega (arith, split, before))
                (ap (weight_of (λ q. test (c.heap q).bucket_type)) (gone l))
          | inr l ↦
              counter_stays (length (shrunk b p i).buckets) _ _ n _ (test t) (ground (arith, l)) e
                (omega (arith, split, before))
                (ap (weight_of (λ q. test (c.heap q).bucket_type)) (found l)
                  ∙ ap (λ ka. weight (test ka.bucket_type)) heap_at
                  ∙ ap (λ u. weight (test u)) kind)
        ]

    rest : delete same key c.addr_lookup ≡ delete same key b.addr_lookup
    rest = elim (Bool-cases (is_last b p i)) [
      | inl l ↦ ap (delete same key) (g.lookup ∙ rw l) ∙ delete-delete same key b.addr_lookup
      | inr l ↦ ap (delete same key) (g.lookup ∙ rw l)
    ]

    unique : Unique same c.addr_lookup
    unique = elim (Bool-cases (is_last b p i)) [
      | inl l ↦
          subst (Unique same) (sym (g.lookup ∙ rw l))
            (Unique-delete same key b.addr_lookup v.unique)
      | inr l ↦ subst (Unique same) (sym (g.lookup ∙ rw l)) v.unique
    ]

    typed : IsType t
    typed = subst IsType kind (v.placed key p listed).typed

    buckets-Unique : (u j : ℕ) → Unique same (get_bucket u j c)
    buckets-Unique u j = elim (same_bucket-cases u t j i) [
      | inl (e, f) ↦
          subst (Unique same) (sym (get_same u j e f))
            (Unique-delete same key (get_bucket t i b) (v.unique_buckets t i))
      | inr n ↦ subst (Unique same) (sym (get_other u j n)) (v.unique_buckets u j)
    ]

    change : Change same net b c key p
    change = record {
      named = refl;
      rest = rest;
      elsewhere = elsewhere;
      heap = λ q n. ap (λ h. h q) g.heap ∙ update_other p q (shrunk b p i) b.heap n;
      next = omega (arith, g.next);
      here = here;
      placed = placed;
      unique = unique;
      unique_buckets = buckets-Unique;
      new_counted = g.n_new ∙ counted (λ u. u == bucket_type_new) b.n_new v.new_counted;
      old_counted =
          g.n_old
          ∙ ap (λ x. if is_last b p i && x then decrement b.n_old else b.n_old) (not_new t typed)
          ∙ counted (λ u. u == bucket_type_old) b.n_old v.old_counted;
    }

    pub Shrunk-IsConsistent : IsConsistent same net c
    Shrunk-IsConsistent = Change-IsConsistent same net v change
