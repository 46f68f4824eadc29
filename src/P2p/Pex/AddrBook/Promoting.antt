-- ===== src/P2p/Pex/AddrBook/Promoting.antt =====
-- MarkGood and moveToOld: a new address becomes an old one, or leaves the book.
use btm_stats.Base.{
  ℕ, ◌<◌, ◌≡◌, ◌≢◌, inl, inr, refl, sym, ap, ◌∙◌, subst, true, false, Option, none, some, [],
  length, ◌==◌, arith, find, Bool-cases, ==_iff, find-delete_other,
}
use btm_stats.P2p.Pex.KnownAddress.{KnownAddress, is_old, is_new, mark_good, bucket_type_old}
use btm_stats.P2p.Pex.AddrBook.{Addressing, AddrBook, address_of, remove_from_all_buckets, write}
use btm_stats.P2p.Pex.AddrBook.Calls.{add_to_old_bucket, move_to_old, found_good, mark_good_address}
use btm_stats.P2p.Pex.AddrBook.Consistent.{IsConsistent}
use btm_stats.P2p.Pex.AddrBook.Buckets.{update_same}
use btm_stats.P2p.Pex.AddrBook.Erasing.{Erased, remove_from_all-Erased, erased_lookup, heap_at}
use btm_stats.P2p.Pex.AddrBook.Keeping.{
  write_alike-IsConsistent, write_unlisted-IsConsistent, remove_from_all-IsConsistent,
}
use btm_stats.P2p.Pex.AddrBook.Aging.{Promoted, Outcome, add_to_old_bucket_lem}

module _ {A Key : Type 0} (same : Discrete Key) (net : Addressing A Key) where
  module _ (b : AddrBook A Key) (k : Key) (p : ℕ) (v : IsConsistent same net b)
      (listed : find same k b.addr_lookup ≡ some p) (young : is_new (b.heap p) ≡ true) where
    abbrev removed : AddrBook A Key
    removed = remove_from_all_buckets same net p b

    abbrev retyped : AddrBook A Key
    retyped = write p (record (removed.heap p) { bucket_type = bucket_type_old }) removed

    named : address_of same net b p ≡ k
    named = (v.placed k p listed).named

    found : find same (address_of same net b p) b.addr_lookup ≡ some p
    found = ap (λ x. find same x b.addr_lookup) named ∙ listed

    erased : Erased same net b removed p
    erased = remove_from_all-Erased same net b p (v.placed k p listed).typed

    at_removed : removed.heap p ≡ record (b.heap p) { buckets = [] }
    at_removed = heap_at same net b removed p v found erased

    at_retyped : retyped.heap p ≡ record (b.heap p) { bucket_type = bucket_type_old; buckets = [] }
    at_retyped =
        update_same p (record (removed.heap p) { bucket_type = bucket_type_old }) removed.heap
        ∙ ap {A = KnownAddress A} (λ ka. record ka { bucket_type = bucket_type_old }) at_removed

    unlisted : find same (address_of same net b p) removed.addr_lookup ≡ none
    unlisted = erased_lookup same net b removed p v found erased

    free : (x : Key) → find same x removed.addr_lookup ≢ some p
    free x e = elim (same (address_of same net b p) x) [
      | yes f ↦ cc (unlisted, ap (λ y. find same y removed.addr_lookup) f, e)
      | no n ↦
          let before =
            sym (find-delete_other same (address_of same net b p) x b.addr_lookup n)
            ∙ ap (find same x) (sym erased.lookup)
            ∙ e in
          n (v.placed x p before).named
    ]

    moved :
        move_to_old same net p b
        ≡ add_to_old_bucket same net p (net.calc_old_bucket (retyped.heap p).addr) retyped
    unfolding move_to_old
    moved = rw (not_old, somewhere)
      where
        not_old : is_old (b.heap p) ≡ false
        not_old = ap (λ t. t == bucket_type_old) ((==_iff _ _).0 young)

        somewhere : length (b.heap p).buckets == 0 ≡ false
        somewhere = ground (arith, (v.placed k p listed).somewhere)

    same_address : (retyped.heap p).addr ≡ (b.heap p).addr
    same_address = ap (λ ka. ka.addr) at_retyped

    retyped_named : address_of same net retyped p ≡ address_of same net b p
    retyped_named = ap net.string_of same_address

    retyped-IsConsistent : IsConsistent same net retyped
    retyped-IsConsistent =
        write_unlisted-IsConsistent same net removed p _ removed.next
          (remove_from_all-IsConsistent same net b k p v listed) free (omega arith)

    -- moveToOld of a new address of the book.
    move_to_old_lem :
        IsConsistent same net (move_to_old same net p b).1
        × Outcome same net k p (net.calc_old_bucket (b.heap p).addr) (move_to_old same net p b)
    move_to_old_lem =
        let (c, o) =
          add_to_old_bucket_lem same net retyped p retyped-IsConsistent
            (ap (λ ka. ka.bucket_type) at_retyped) (ap (λ ka. ka.buckets) at_retyped)
            (ap (λ x. find same x removed.addr_lookup) retyped_named ∙ unlisted)
            (subst (λ n. p < n) (sym erased.next) (v.placed k p listed).allocated) in
        (
          subst (λ r. IsConsistent same net r.1) (sym moved) c,
          subst (λ r. Outcome same net k p (net.calc_old_bucket (b.heap p).addr) r) (sym moved)
              (subst
                (λ a. Outcome same net k p (net.calc_old_bucket a) (
                  add_to_old_bucket same net p (net.calc_old_bucket (retyped.heap p).addr) retyped))
                same_address
                (subst
                  (λ x. Outcome same net x p (net.calc_old_bucket (retyped.heap p).addr) (
                    add_to_old_bucket same net p (net.calc_old_bucket (retyped.heap p).addr)
                      retyped))
                  (retyped_named ∙ named) o)),
        )

  -- MarkGood of an address that the book has.
  module _ (now : ℕ) (addr : A) (b : AddrBook A Key) (v : IsConsistent same net b) where
    abbrev marked : ℕ → AddrBook A Key
    marked p = write p (mark_good now (b.heap p)) b

    marked-IsConsistent : (p : ℕ) → IsConsistent same net (marked p)
    unfolding mark_good
    marked-IsConsistent p =
        write_alike-IsConsistent same net b p _ v
          (record { addr = refl; bucket_type = refl; buckets = refl })

    marked_at : (p : ℕ) → (marked p).heap p ≡ mark_good now (b.heap p)
    marked_at p = update_same p (mark_good now (b.heap p)) b.heap

    found-IsConsistent :
        (o : Option ℕ)
        → find same (net.string_of addr) b.addr_lookup ≡ o
        → IsConsistent same net (found_good same net now o b)
    found-IsConsistent none e = v
    found-IsConsistent (some p) e = elim (Bool-cases (is_new ((marked p).heap p))) [
      | inl young ↦
          subst (IsConsistent same net) (sym (rw young))
            (move_to_old_lem (marked p) (net.string_of addr) p (marked-IsConsistent p) e young).0
      | inr other ↦ subst (IsConsistent same net) (sym (rw other)) (marked-IsConsistent p)
    ]

    pub mark_good-IsConsistent : IsConsistent same net (mark_good_address same net now addr b)
    unfolding mark_good_address
    mark_good-IsConsistent = found-IsConsistent (find same (net.string_of addr) b.addr_lookup) refl

    -- MarkGood of a new address of a consistent book makes it an old one, in its old bucket and in no
    -- other, or else that bucket has more than 64 addresses, and the address is not in the book any
    -- more.
    pub mark_good-promotes :
        (p : ℕ)
        → find same (net.string_of addr) b.addr_lookup ≡ some p
        → is_new (b.heap p) ≡ true
        → Promoted same net
            (net.string_of addr)
            p
            (net.calc_old_bucket (b.heap p).addr)
            (mark_good_address same net now addr b)
    unfolding mark_good_address mark_good
    mark_good-promotes p e young =
        let same_address = ap (λ ka. ka.addr) (marked_at p) in
        let still_young = ap is_new (marked_at p) ∙ young in
        let (_, o) =
          move_to_old_lem (marked p) (net.string_of addr) p (marked-IsConsistent p) e still_young in
        rw (e, still_young)
          (subst
            (λ a.
              Promoted same net (net.string_of addr) p (net.calc_old_bucket a)
                (move_to_old same net p (marked p)).1)
            same_address o)
