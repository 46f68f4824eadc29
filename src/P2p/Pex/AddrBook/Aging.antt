-- ===== src/P2p/Pex/AddrBook/Aging.antt =====
-- addToOldBucket of an address that is in no bucket.
use btm_stats.Base.{
  ℕ, ◌<◌, ◌≡◌, ◌⊎◌, inl, inr, refl, sym, ap, ◌∙◌, subst, true, false, not, Option, none, some, [],
  ◌∷◌, ◌++◌, length, ◌==◌, arith, find, Bool-cases, ltb, ltb→lt, find-put_same,
}
use btm_stats.Errors.{Error}
use btm_stats.P2p.Pex.KnownAddress.{
  contains, is_new, bucket_type_new, bucket_type_old, old_bucket_size,
}
use btm_stats.P2p.Pex.KnownAddress.Buckets.{IsDistinct}
use btm_stats.P2p.Pex.AddrBook.{Addressing, AddrBook, address_of, place}
use btm_stats.P2p.Pex.AddrBook.Calls.{add_to_old_bucket, old_bucket_full}
use btm_stats.P2p.Pex.AddrBook.Consistent.{IsConsistent}
use btm_stats.P2p.Pex.AddrBook.Buckets.{update_same}
use btm_stats.P2p.Pex.AddrBook.Growing.{grown, IsReady}
use btm_stats.P2p.Pex.AddrBook.Placing.{place-Grown, place-IsConsistent}

module _ {A Key : Type 0} (same : Discrete Key) (net : Addressing A Key) where
  -- The address is in one old bucket, or the bucket was full and the address is gone.
  abbrev pub Promoted : Key → ℕ → ℕ → AddrBook A Key → Type 0
  Promoted k p i c =
      ((old_bucket_size < length (c.buckets_old i)) × (find same k c.addr_lookup ≡ none))
      ⊎ ((find same k c.addr_lookup ≡ some p)
          × ((c.heap p).bucket_type ≡ bucket_type_old)
          × ((c.heap p).buckets ≡ i ∷ []))

  abbrev pub Outcome : Key → ℕ → ℕ → Option Error × AddrBook A Key → Type 0
  Outcome k p i r = Promoted k p i r.1

  -- The end of moveToOld, for an address that is in no bucket.
  module _ (b : AddrBook A Key) (p : ℕ) (v : IsConsistent same net b)
      (old : (b.heap p).bucket_type ≡ bucket_type_old) (unplaced : (b.heap p).buckets ≡ [])
      (absent : find same (address_of same net b p) b.addr_lookup ≡ none)
      (allocated : p < b.next) where
    abbrev index : ℕ
    index = net.calc_old_bucket (b.heap p).addr

    ready : IsReady same net b bucket_type_old p index
    ready = record {
      allocated = allocated;
      typed = inr refl;
      kind = old;
      distinct = subst IsDistinct (sym unplaced) tt;
      fresh = ap (contains index) unplaced;
      in_range = λ j c. absurd (cc (c, ap (contains j) unplaced));
      few = omega (arith, ap length unplaced);
      index = net.old_in_range (b.heap p).addr;
      entry = inr (absent, unplaced);
    }

    not_new : is_new (b.heap p) ≡ false
    not_new = ap (λ t. t == bucket_type_new) old

    empty : not (length (b.heap p).buckets == 0) ≡ false
    empty = ap (λ is. not (length is == 0)) unplaced

    full_lem :
        ltb old_bucket_size (length (b.buckets_old index)) ≡ true
        → add_to_old_bucket same net p index b ≡ (some old_bucket_full, b)
    unfolding add_to_old_bucket
    full_lem e = rw (not_new, empty, e)

    roomy_lem :
        ltb old_bucket_size (length (b.buckets_old index)) ≡ false
        → add_to_old_bucket same net p index b ≡ (none, place same net bucket_type_old p index b)
    unfolding add_to_old_bucket
    roomy_lem e = rw (not_new, empty, e)

    placed : IsConsistent same net (place same net bucket_type_old p index b)
    placed = place-IsConsistent same net b bucket_type_old p index v ready

    placed_lem :
        Outcome (address_of same net b p) p index (none, place same net bucket_type_old p index b)
    placed_lem =
        let g = place-Grown same net b bucket_type_old p index v ready in
        let at = ap (λ h. h p) g.heap ∙ update_same p (grown same net b p index) b.heap in
        inr (
          ap (find same (address_of same net b p)) g.lookup
              ∙ find-put_same same (address_of same net b p) p b.addr_lookup,
          ap (λ ka. ka.bucket_type) at ∙ old,
          ap (λ ka. ka.buckets) at ∙ ap (λ is. is ++ (index ∷ [])) unplaced,
        )

    pub add_to_old_bucket_lem :
        IsConsistent same net (add_to_old_bucket same net p index b).1
        × Outcome (address_of same net b p) p index (add_to_old_bucket same net p index b)
    add_to_old_bucket_lem = elim (Bool-cases (ltb old_bucket_size (length (b.buckets_old index)))) [
      | inl e ↦
          subst (λ r. IsConsistent same net r.1 × Outcome (address_of same net b p) p index r)
            (sym (full_lem e)) (v, inl (ltb→lt _ _ e, absent))
      | inr e ↦
          subst (λ r. IsConsistent same net r.1 × Outcome (address_of same net b p) p index r)
            (sym (roomy_lem e)) (placed, placed_lem)
    ]
