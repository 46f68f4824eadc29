-- ===== src/P2p/Pex/AddrBook/Rewriting.antt =====
-- A change of the addresses that moves none between buckets: markAttempt, markGood, a new pointer.
use btm_stats.Base.{
  ℕ, ◌≤◌, ◌<◌, ◌≡◌, sym, ap, ◌∙◌, subst, List, none, some, length, arith, find, count, inl, inr,
  Option-cases, count-agree, ◌==◌, if◌then◌else◌, ◌&&◌, Bool, ◌%◌, ◌^◌,
}
use btm_stats.P2p.Pex.KnownAddress.{KnownAddress, max_new_buckets_per_address, contains}
use btm_stats.P2p.Pex.KnownAddress.Buckets.{IsDistinct}
use btm_stats.P2p.Pex.AddrBook.{Addressing, AddrBook}
use btm_stats.P2p.Pex.AddrBook.Consistent.{at, IsType, bucket_count, IsPlaced, IsConsistent}

-- Two records of an address with the same place.
pub record Alike {A : Type 0} (ka kb : KnownAddress A) : Type 0 where
  pub addr : ka.addr ≡ kb.addr
  pub bucket_type : ka.bucket_type ≡ kb.bucket_type
  pub buckets : ka.buckets ≡ kb.buckets

module _ {A Key : Type 0} (same : Discrete Key) (net : Addressing A Key) where
  module _ (b : AddrBook A Key) (o : List (Key × A)) (h : ℕ → KnownAddress A) (n : ℕ)
      (v : IsConsistent same net b)
      (kept : (k : Key) (q : ℕ) → find same k b.addr_lookup ≡ some q → Alike (h q) (b.heap q))
      (more : b.next ≤ n) where
    abbrev pub rewritten : AddrBook A Key
    rewritten = record b { our_addrs = o; heap = h; next = n }

    at_same :
        (t i : ℕ) (k : Key)
        → at t i h (find same k b.addr_lookup) ≡ at t i b.heap (find same k b.addr_lookup)
    at_same t i k = elim (Option-cases (find same k b.addr_lookup)) [
      | inl e ↦ ap (at t i h) e ∙ ap (at t i b.heap) (sym e)
      | inr (q, e) ↦
          let a = kept k q e in
          ap (at t i h) e
          ∙ ap (λ u. if u == t && contains i (h q).buckets then some q else none) a.bucket_type
          ∙ ap (λ is. if (b.heap q).bucket_type == t && contains i is then some q else none)
              a.buckets
          ∙ ap (at t i b.heap) (sym e)
    ]

    placed :
        (k : Key) (q : ℕ) → find same k b.addr_lookup ≡ some q → IsPlaced same net rewritten k q
    placed k q e =
        let old = v.placed k q e in
        let a = kept k q e in
        record {
          allocated = omega (arith, old.allocated, more);
          named = ap net.string_of a.addr ∙ old.named;
          typed = subst IsType (sym a.bucket_type) old.typed;
          distinct = subst IsDistinct (sym a.buckets) old.distinct;
          somewhere = subst (λ is. 0 < length is) (sym a.buckets) old.somewhere;
          few = subst (λ is. length is ≤ max_new_buckets_per_address) (sym a.buckets) old.few;
          in_range = λ i c.
              subst (λ u. i < bucket_count u) (sym a.bucket_type)
                (old.in_range i (ap (contains i) (sym a.buckets) ∙ c));
        }

    counted :
        (test : ℕ → Bool)
        → count same (λ q. test (h q).bucket_type) b.addr_lookup
          ≡ count same (λ q. test (b.heap q).bucket_type) b.addr_lookup
    counted test =
        count-agree same (λ q. test (h q).bucket_type) (λ q. test (b.heap q).bucket_type)
          b.addr_lookup v.unique (λ k q e. ap test (kept k q e).bucket_type)

    pub rewritten-IsConsistent : IsConsistent same net rewritten
    rewritten-IsConsistent = record {
      indexed = λ t i k. v.indexed t i k ∙ sym (at_same t i k);
      placed = placed;
      unique = v.unique;
      unique_buckets = v.unique_buckets;
      new_counted = v.new_counted ∙ ap (λ m. m % 2 ^ 64) (sym (counted (λ u. u == 1)));
      old_counted = v.old_counted ∙ ap (λ m. m % 2 ^ 64) (sym (counted (λ u. u == 2)));
    }
