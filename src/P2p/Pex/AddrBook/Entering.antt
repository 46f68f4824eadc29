-- ===== src/P2p/Pex/AddrBook/Entering.antt =====
-- addToNewBucket keeps the book consistent, and does not panic.
use btm_stats.Base.{
  ℕ, ◌<◌, ◌≡◌, ◌≢◌, ◌⊎◌, inl, inr, refl, sym, ap, ◌∙◌, subst, false, Option, none, some, [], length,
  if◌then◌else◌, arith, find, Option-cases, Bool-cases, ltb, ==_iff, ltb→lt,
}
use btm_stats.Errors.{Error}
use btm_stats.P2p.Pex.KnownAddress.{
  KnownAddress, contains, is_old, bucket_type_new, new_bucket_size, new_bucket_count,
  max_new_buckets_per_address,
}
use btm_stats.P2p.Pex.KnownAddress.Buckets.{IsDistinct}
use btm_stats.P2p.Pex.AddrBook.{
  Addressing, Draws, AddrBook, address_of, remove_from_bucket, expire_new, place,
}
use btm_stats.P2p.Pex.AddrBook.Calls.{add_to_new_bucket, entered, add_old_to_new}
use btm_stats.P2p.Pex.AddrBook.Consistent.{at, of_known, IsConsistent, bucket_count, IsType}
use btm_stats.P2p.Pex.AddrBook.Growing.{IsReady}
use btm_stats.P2p.Pex.AddrBook.Placing.{place-IsConsistent}
use btm_stats.P2p.Pex.AddrBook.Removing.{
  remove_from_bucket-Shrunk, remove_from_bucket-IsConsistent, remove_elsewhere,
}
use btm_stats.P2p.Pex.AddrBook.Expiring.{IsFair, Victim, expire_new-Victim}

of_known-none :
    {A : Type 0} (t i q : ℕ) (ka : KnownAddress A)
    → ka.bucket_type ≡ t
    → of_known t i q ka ≡ none
    → contains i ka.buckets ≡ false
of_known-none t i q ka k e = ground arith

module _ {A Key : Type 0} (same : Discrete Key) (net : Addressing A Key) where
  -- An address of the table, or a new one that is not there.
  pub record IsEnterable (b : AddrBook A Key) (p : ℕ) : Type 0 where
    pub allocated : p < b.next
    pub entry :
        ((find same (address_of same net b p) b.addr_lookup ≡ some p)
          × (length (b.heap p).buckets < max_new_buckets_per_address))
        ⊎ ((find same (address_of same net b p) b.addr_lookup ≡ none)
            × ((b.heap p).buckets ≡ [])
            × ((b.heap p).bucket_type ≡ bucket_type_new))

  ready :
      (b : AddrBook A Key) (p i : ℕ)
      → IsConsistent same net b
      → IsEnterable b p
      → is_old (b.heap p) ≡ false
      → find same (address_of same net b p) (b.buckets_new i) ≡ none
      → i < new_bucket_count
      → IsReady same net b bucket_type_new p i
  ready b p i v x young absent range = elim x.entry [
    | inl (e, few) ↦
        let old = v.placed (address_of same net b p) p e in
        let kind = new_of old.typed in
        record {
          allocated = x.allocated;
          typed = inl refl;
          kind = kind;
          distinct = old.distinct;
          fresh = of_known-none bucket_type_new i p (b.heap p) kind (
              sym (ap (at bucket_type_new i b.heap) e)
              ∙ sym (v.indexed bucket_type_new i (address_of same net b p))
              ∙ absent);
          in_range = λ j c. subst (λ t. j < bucket_count t) kind (old.in_range j c);
          few = few;
          index = range;
          entry = inl (e, old.somewhere);
        }
    | inr (e, none_yet, kind) ↦ record {
      allocated = x.allocated;
      typed = inl refl;
      kind = kind;
      distinct = subst IsDistinct (sym none_yet) tt;
      fresh = ap (contains i) none_yet;
      in_range = λ j c. absurd (cc (c, ap (contains j) none_yet));
      few = omega (arith, ap length none_yet);
      index = range;
      entry = inr (e, none_yet);
    }
  ]
    where
      new_of : IsType (b.heap p).bucket_type → (b.heap p).bucket_type ≡ bucket_type_new
      new_of (inl e) = e
      new_of (inr e) = absurd (cc ((==_iff _ _).1 e, young))

  module _ (d : Draws Key) (fair : IsFair same d) where
    -- The book with room in the bucket, where the added address is as before.
    record Room (b c : AddrBook A Key) (p i : ℕ) : Type 0 where
      consistent : IsConsistent same net c
      enterable : IsEnterable c p
      young : is_old (c.heap p) ≡ false
      absent : find same (address_of same net c p) (c.buckets_new i) ≡ none

    expired-Room :
        (b : AddrBook A Key) (p i q : ℕ) (v : IsConsistent same net b)
        → IsEnterable b p
        → is_old (b.heap p) ≡ false
        → find same (address_of same net b p) (b.buckets_new i) ≡ none
        → Victim same net b v i q
        → Room b (remove_from_bucket same net q i b) p i
    expired-Room b p i q v x young absent w =
        let apart : address_of same net b q ≢ address_of same net b p =
          λ e. absurd (cc (w.key_lem, ap (λ k. find same k (b.buckets_new i)) e, absent)) in
        let (heap, lookup, buckets) = remove_elsewhere same net b q i v w.listed w.inside p apart in
        let shrunk = remove_from_bucket-Shrunk same net b q i v w.listed w.inside in
        let c = remove_from_bucket same net q i b in
        let key = ap (λ ka. net.string_of ka.addr) heap in
        record {
          consistent = remove_from_bucket-IsConsistent same net b q i v w.listed w.inside;
          enterable = record {
            allocated = subst (λ n. p < n) (sym shrunk.next) x.allocated;
            entry = elim x.entry [
              | inl (e, few) ↦ inl (
                ap (λ k. find same k c.addr_lookup) key ∙ lookup ∙ e,
                subst (λ ka. length ka.buckets < max_new_buckets_per_address) (sym heap) few,
              )
              | inr (e, n, k) ↦ inr (
                ap (λ k. find same k c.addr_lookup) key ∙ lookup ∙ e,
                ap (λ ka. ka.buckets) heap ∙ n,
                ap (λ ka. ka.bucket_type) heap ∙ k,
              )
            ];
          };
          young = ap is_old heap ∙ young;
          absent = ap (λ k. find same k (c.buckets_new i)) key ∙ buckets bucket_type_new i ∙ absent;
        }

    -- An address that is not old enters a bucket that does not have it.
    pub entered_lem :
        (b : AddrBook A Key) (p i : ℕ)
        → IsConsistent same net b
        → IsEnterable b p
        → is_old (b.heap p) ≡ false
        → find same (address_of same net b p) (b.buckets_new i) ≡ none
        → i < new_bucket_count
        → (c : AddrBook A Key) × (entered same net p i (
              if ltb new_bucket_size (length (b.buckets_new i))
              then expire_new same net d i b
              else some b)
            ≡ some (none, c))
          × IsConsistent same net c
    entered_lem b p i v x young absent range =
        elim (Bool-cases (ltb new_bucket_size (length (b.buckets_new i)))) [
          | inl full ↦
              let (q, w, e) =
                expire_new-Victim same net b v d i fair
                  (omega (arith, ltb→lt new_bucket_size (length (b.buckets_new i)) full)) in
              let room = expired-Room b p i q v x young absent w in
              let r = ready _ p i room.consistent room.enterable room.young room.absent range in
              (
                place same net bucket_type_new p i (remove_from_bucket same net q i b),
                rw (full, e),
                place-IsConsistent same net _ bucket_type_new p i room.consistent r,
              )
          | inr roomy ↦ (
            place same net bucket_type_new p i b,
            rw roomy,
            place-IsConsistent same net b bucket_type_new p i v
                (ready b p i v x young absent range),
          )
        ]

    pub add_to_new_bucket-IsConsistent :
        (b : AddrBook A Key) (p i : ℕ)
        → IsConsistent same net b
        → IsEnterable b p
        → i < new_bucket_count
        → (r : Option Error × AddrBook A Key) × (add_to_new_bucket same net d p i b ≡ some r)
          × IsConsistent same net r.1
    unfolding add_to_new_bucket
    add_to_new_bucket-IsConsistent b p i v x range = elim (Bool-cases (is_old (b.heap p))) [
      | inl old ↦ ((some add_old_to_new, b), rw old, v)
      | inr young ↦ elim (Option-cases (find same (address_of same net b p) (b.buckets_new i))) [
        | inr (q, e) ↦ ((none, b), rw (young, e), v)
        | inl e ↦
            let (c, f, k) = entered_lem b p i v x young e range in ((none, c), rw (young, e) f, k)
      ]
    ]
