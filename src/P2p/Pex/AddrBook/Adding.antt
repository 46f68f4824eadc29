-- ===== src/P2p/Pex/AddrBook/Adding.antt =====
-- AddAddress keeps the book consistent, and does not panic.
use btm_stats.Base.{
  ℕ, ◌+◌, ◌≡◌, ◌≢◌, inl, inr, refl, ap, ◌∙◌, Bool, false, not, ◌&&◌, ◌||◌, Option, none, some,
  length, ◌==◌, arith, find, Bool-cases, leb, ◌*◌, ◌%◌, ◌^◌,
}
use btm_stats.Errors.{Error}
use btm_stats.P2p.Pex.KnownAddress.{
  KnownAddress, new_known_address, is_old, max_new_buckets_per_address,
}
use btm_stats.P2p.Pex.AddrBook.{Addressing, Draws, AddrBook, write, update}
use btm_stats.P2p.Pex.AddrBook.Calls.{
  known_or_new, add_address, is_there, nil_address, our_address, non_routable,
}
use btm_stats.P2p.Pex.AddrBook.Consistent.{IsConsistent}
use btm_stats.P2p.Pex.AddrBook.Buckets.{update_same}
use btm_stats.P2p.Pex.AddrBook.Expiring.{IsFair}
use btm_stats.P2p.Pex.AddrBook.Keeping.{write_unlisted-IsConsistent}
use btm_stats.P2p.Pex.AddrBook.Entering.{IsEnterable, add_to_new_bucket-IsConsistent}

module _ {A Key : Type 0} (same : Discrete Key) (net : Addressing A Key) (d : Draws Key)
    (fair : IsFair same d) where
  -- The call ends, and the book is consistent.
  abbrev Keeps : Option (Option Error × AddrBook A Key) → Type 0
  Keeps o = (r : Option Error × AddrBook A Key) × (o ≡ some r) × IsConsistent same net r.1

  module _ (addr src : A) (b : AddrBook A Key) (v : IsConsistent same net b) where
    new_lem :
        find same (net.string_of addr) b.addr_lookup ≡ none
        → Keeps (known_or_new same net d addr src none b)
    unfolding new_known_address
    new_lem e =
        add_to_new_bucket-IsConsistent same net d fair _ b.next (net.calc_new_bucket addr src)
          (write_unlisted-IsConsistent same net b b.next _ (b.next + 1) v free (omega arith))
          enterable (net.new_in_range addr src)
      where
        free : (k : Key) → find same k b.addr_lookup ≢ some b.next
        free k f = omega (arith, (v.placed k b.next f).allocated)

        ka : KnownAddress A
        ka = new_known_address addr src d.now

        at : update b.next ka b.heap b.next ≡ ka
        at = update_same b.next ka b.heap

        enterable : IsEnterable same net (record (write b.next ka b) { next = b.next + 1 }) b.next
        enterable = record {
          allocated = omega arith;
          entry = inr (
            ap (λ kb. find same (net.string_of kb.addr) b.addr_lookup) at ∙ e,
            ap (λ kb. kb.buckets) at,
            ap (λ kb. kb.bucket_type) at,
          );
        }

    known_lem :
        (p : ℕ)
        → find same (net.string_of addr) b.addr_lookup ≡ some p
        → Keeps (known_or_new same net d addr src (some p) b)
    known_lem p e = elim (Bool-cases (is_old (b.heap p))) [
      | inl old ↦ ((none, b), rw old, v)
      | inr young ↦ elim (Bool-cases (length (b.heap p).buckets == max_new_buckets_per_address)) [
        | inl full ↦ ((none, b), rw (young, full), v)
        | inr less ↦
            elim (Bool-cases (not (d.int31n (2 * length (b.heap p).buckets % 2 ^ 32) == 0))) [
              | inl skip ↦ ((none, b), rw (young, less, positive, skip), v)
              | inr go ↦
                  let (r, f, c) =
                    add_to_new_bucket-IsConsistent same net d fair b p
                      (net.calc_new_bucket addr src) v (enterable less)
                      (net.new_in_range addr src) in
                  (r, rw (young, less, positive, go) f, c)
            ]
      ]
    ]
      where
        positive :
            2 * length (b.heap p).buckets % 2 ^ 32 == 0
              || leb (2 ^ 31) (2 * length (b.heap p).buckets % 2 ^ 32)
            ≡ false
        positive = ground (arith, (v.placed _ p e).somewhere, (v.placed _ p e).few)

        enterable :
            (length (b.heap p).buckets == max_new_buckets_per_address) ≡ false
            → IsEnterable same net b p
        enterable less = record {
          allocated = (v.placed _ p e).allocated;
          entry = inl (
            ap (λ k. find same k b.addr_lookup) (v.placed _ p e).named ∙ e,
            ground (arith, (v.placed _ p e).few, less),
          );
        }

    known_or_new_lem :
        (o : Option ℕ)
        → find same (net.string_of addr) b.addr_lookup ≡ o
        → Keeps (known_or_new same net d addr src o b)
    known_or_new_lem none e = new_lem e
    known_or_new_lem (some p) e = known_lem p e

  -- AddAddress of a consistent book, whatever it draws, returns without a panic: Int31n gets a positive
  -- number, and expireNew finds an address. It leaves a consistent book.
  pub add_address-IsConsistent :
      (strict : Bool) (addr src : Option A) (b : AddrBook A Key)
      → IsConsistent same net b
      → (r : Option Error × AddrBook A Key) × (add_address same net strict d addr src b ≡ some r)
        × IsConsistent same net r.1
  unfolding add_address
  add_address-IsConsistent strict none src b v = ((some nil_address, b), refl, v)
  add_address-IsConsistent strict (some addr) none b v = ((some nil_address, b), refl, v)
  add_address-IsConsistent strict (some addr) (some src) b v =
      elim (Bool-cases (is_there (find same (net.string_of addr) b.our_addrs))) [
        | inl ours ↦ ((some our_address, b), rw ours, v)
        | inr other ↦ elim (Bool-cases (strict && not (net.routable addr))) [
          | inl bad ↦ ((some non_routable, b), rw (other, bad), v)
          | inr good ↦
              let (r, f, c) =
                known_or_new_lem addr src b v (find same (net.string_of addr) b.addr_lookup) refl in
              (r, rw (other, good) f, c)
        ]
      ]
