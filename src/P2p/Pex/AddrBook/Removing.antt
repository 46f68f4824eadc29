-- ===== src/P2p/Pex/AddrBook/Removing.antt =====
-- A reference to a bucket is removed: removeFromBucket.
use btm_stats.Base.{
  ◌≢◌, find-delete_other, ℕ, ◌+◌, ◌≡◌, refl, sym, ap, ◌∙◌, subst, Bool, true, false, not, ◌&&◌,
  some, List, length, ==_iff, ◌==◌, if◌then◌else◌, find, delete,
}
use btm_stats.P2p.Pex.KnownAddress.{contains, without, remove_bucket_ref, bucket_type_new}
use btm_stats.P2p.Pex.KnownAddress.Buckets.{length-without}
use btm_stats.P2p.Pex.AddrBook.{
  Addressing, AddrBook, get_bucket, set_bucket, address_of, remove_from_bucket, update, count_down,
  decrement, write,
}
use btm_stats.P2p.Pex.AddrBook.Consistent.{IsConsistent}
use btm_stats.P2p.Pex.AddrBook.Buckets.{
  update_other, IsSame, get-set, set_bucket-IsSame, set_bucket-counters, count_down-IsSame,
  get-count_down, update_same, count_down-counters,
}
use btm_stats.P2p.Pex.AddrBook.Shrinking.{shrunk, is_last, Shrunk, Shrunk-IsConsistent, elsewhere}
use btm_stats.P2p.Pex.AddrBook.Lowering.{ticked, still}

module _ {A Key : Type 0} (same : Discrete Key) (net : Addressing A Key) where
  find-if_deleted :
      (k x : Key) (m : List (Key × ℕ)) (z : Bool)
      → k ≢ x
      → find same x (if z then delete same k m else m) ≡ find same x m
  find-if_deleted k x m true n = find-delete_other same k x m n
  find-if_deleted k x m false n = refl

  module _ (b : AddrBook A Key) (p i : ℕ) (v : IsConsistent same net b)
      (listed : find same (address_of same net b p) b.addr_lookup ≡ some p)
      (inside : contains i (b.heap p).buckets ≡ true) where
    abbrev type : ℕ
    type = (b.heap p).bucket_type

    abbrev bucket : List (Key × ℕ)
    bucket = delete same (address_of same net b p) (get_bucket type i b)

    abbrev left : AddrBook A Key
    left = write p (shrunk same net b p i) (set_bucket type i bucket b)

    left_at : left.heap p ≡ shrunk same net b p i
    left_at = update_same p (shrunk same net b p i) (set_bucket type i bucket b).heap

    abbrev erased : AddrBook A Key
    erased = record left { addr_lookup = delete same (address_of same net left p) left.addr_lookup }

    gone_key : address_of same net left p ≡ address_of same net b p
    gone_key = ap (λ ka. net.string_of ka.addr) left_at

    left_get :
        (u j : ℕ) → get_bucket u j left ≡ (if u == type && j == i then bucket else get_bucket u j b)
    left_get u j = get-set type i u j bucket b (v.placed _ p listed).typed

    stored : IsSame b (set_bucket type i bucket b)
    stored = set_bucket-IsSame type i bucket b

    left-Shrunk :
        (x : Bool)
        → is_last same net b p i ≡ x
        → Shrunk same net b
            (if x then count_down (left.heap p).bucket_type erased else left)
            type
            p
            i
    left-Shrunk true e =
        let down = count_down-IsSame (left.heap p).bucket_type erased in
        let counters = set_bucket-counters type i bucket b in
        let kind = ap (λ ka. ka.bucket_type) left_at in
        record {
          lookup =
              down.lookup
              ∙ ap (λ k. delete same k left.addr_lookup) gone_key
              ∙ ap (delete same (address_of same net b p)) stored.lookup
              ∙ rw e;
          heap = down.heap ∙ ap (update p (shrunk same net b p i)) stored.heap;
          next = down.next ∙ stored.next;
          get = λ u j. get-count_down (left.heap p).bucket_type u j erased ∙ left_get u j;
          n_new =
              (count_down-counters (left.heap p).bucket_type erased).0
              ∙ ap (λ u. if u == bucket_type_new then decrement left.n_new else left.n_new) kind
              ∙ ap (λ n. if type == bucket_type_new then decrement n else n) counters.0
              ∙ ticked (is_last same net b p i) _ b.n_new e;
          n_old =
              (count_down-counters (left.heap p).bucket_type erased).1
              ∙ ap (λ u. if not (u == bucket_type_new) then decrement left.n_old else left.n_old)
                  kind
              ∙ ap (λ n. if not (type == bucket_type_new) then decrement n else n) counters.1
              ∙ ticked (is_last same net b p i) _ b.n_old e;
        }
    left-Shrunk false e = record {
      lookup = stored.lookup ∙ rw e;
      heap = ap (update p (shrunk same net b p i)) stored.heap;
      next = stored.next;
      get = left_get;
      n_new = (set_bucket-counters type i bucket b).0 ∙ still (is_last same net b p i) _ b.n_new e;
      n_old = (set_bucket-counters type i bucket b).1 ∙ still (is_last same net b p i) _ b.n_old e;
    }

    remove_lem :
        remove_from_bucket same net p i b
        ≡ (if is_last same net b p i then count_down (left.heap p).bucket_type erased else left)
    unfolding remove_from_bucket remove_bucket_ref
    remove_lem = rw (counted_once)
      where
        counted_once : length (without i (b.heap p).buckets) + 1 == length (b.heap p).buckets ≡ true
        counted_once =
            (==_iff _ _).1
              (length-without i (b.heap p).buckets (v.placed _ p listed).distinct inside)

    pub remove_from_bucket-Shrunk :
        Shrunk same net b (remove_from_bucket same net p i b) (b.heap p).bucket_type p i
    remove_from_bucket-Shrunk =
        subst (λ c. Shrunk same net b c (b.heap p).bucket_type p i) (sym remove_lem)
          (left-Shrunk (is_last same net b p i) refl)

    pub remove_from_bucket-IsConsistent : IsConsistent same net (remove_from_bucket same net p i b)
    remove_from_bucket-IsConsistent =
        Shrunk-IsConsistent same net b _ type p i v refl listed inside remove_from_bucket-Shrunk

    -- Another address is left as it is.
    pub remove_elsewhere :
        (q : ℕ)
        → address_of same net b p ≢ address_of same net b q
        → ((remove_from_bucket same net p i b).heap q ≡ b.heap q)
          × (find same (address_of same net b q) (remove_from_bucket same net p i b).addr_lookup
              ≡ find same (address_of same net b q) b.addr_lookup)
          × ((u j : ℕ)
              → find same
                  (address_of same net b q)
                  (get_bucket u j (remove_from_bucket same net p i b))
                ≡ find same (address_of same net b q) (get_bucket u j b))
    remove_elsewhere q n =
        let g = remove_from_bucket-Shrunk in
        (
          ap (λ h. h q) g.heap
              ∙ update_other p q (shrunk same net b p i) b.heap
                  (λ e. n (ap (address_of same net b) (sym e))),
          ap (find same (address_of same net b q)) g.lookup
              ∙ find-if_deleted _ _ b.addr_lookup (is_last same net b p i) n,
          λ u j. elsewhere same net b _ type p i v refl listed inside g u j _ n,
        )
