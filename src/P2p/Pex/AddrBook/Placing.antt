-- ===== src/P2p/Pex/AddrBook/Placing.antt =====
-- A reference to a bucket is added: the end of addToNewBucket and of addToOldBucket.
use btm_stats.Base.{ℕ, ◌≡◌, refl, ap, ◌∙◌, Bool, true, false, not, ◌&&◌, ◌==◌, if◌then◌else◌, put}
use btm_stats.P2p.Pex.KnownAddress.{add_bucket_ref, bucket_type_new}
use btm_stats.P2p.Pex.AddrBook.{
  Addressing, AddrBook, get_bucket, set_bucket, address_of, place, update, count_up, increment,
  write,
}
use btm_stats.P2p.Pex.AddrBook.Consistent.{IsConsistent}
use btm_stats.P2p.Pex.AddrBook.Buckets.{
  get-set, set_bucket-IsSame, set_bucket-counters, count_up-IsSame, get-count_up, count_up-counters,
}
use btm_stats.P2p.Pex.AddrBook.Raising.{ticked, still}
use btm_stats.P2p.Pex.AddrBook.Growing.{IsReady, grown, is_first, Grown, Grown-IsConsistent}

module _ {A Key : Type 0} (same : Discrete Key) (net : Addressing A Key) where
  module _ (b : AddrBook A Key) (t p i : ℕ) (v : IsConsistent same net b)
      (r : IsReady same net b t p i) where
    abbrev stored : AddrBook A Key
    stored = set_bucket t i (put same (address_of same net b p) p (get_bucket t i b)) b

    abbrev entered : AddrBook A Key
    entered =
        write p (grown same net b p i)
          (record stored { addr_lookup = put same (address_of same net b p) p b.addr_lookup })

    entered_get :
        (u j : ℕ)
        → get_bucket u j entered ≡ (
            if u == t && j == i
            then put same (address_of same net b p) p (get_bucket t i b)
            else get_bucket u j b)
    entered_get u j = get-set t i u j _ b r.typed

    entered-Grown :
        (x : Bool)
        → is_first same net b p i ≡ x
        → Grown same net b (if x then count_up t entered else entered) t p i
    entered-Grown true e =
        let up = count_up-IsSame t entered in
        let set =
          set_bucket-IsSame t i (put same (address_of same net b p) p (get_bucket t i b)) b in
        let counters =
          set_bucket-counters t i (put same (address_of same net b p) p (get_bucket t i b)) b in
        record {
          lookup = up.lookup;
          heap = up.heap ∙ ap (update p (grown same net b p i)) set.heap;
          next = up.next ∙ set.next;
          get = λ u j. get-count_up t u j entered ∙ entered_get u j;
          n_new =
              (count_up-counters t entered).0
              ∙ ap (λ n. if t == bucket_type_new then increment n else n) counters.0
              ∙ ticked (is_first same net b p i) _ b.n_new e;
          n_old =
              (count_up-counters t entered).1
              ∙ ap (λ n. if not (t == bucket_type_new) then increment n else n) counters.1
              ∙ ticked (is_first same net b p i) _ b.n_old e;
        }
    entered-Grown false e =
        let set =
          set_bucket-IsSame t i (put same (address_of same net b p) p (get_bucket t i b)) b in
        let counters =
          set_bucket-counters t i (put same (address_of same net b p) p (get_bucket t i b)) b in
        record {
          lookup = refl;
          heap = ap (update p (grown same net b p i)) set.heap;
          next = set.next;
          get = entered_get;
          n_new = counters.0 ∙ still (is_first same net b p i) _ b.n_new e;
          n_old = counters.1 ∙ still (is_first same net b p i) _ b.n_old e;
        }

    pub place-Grown : Grown same net b (place same net t p i b) t p i
    unfolding place add_bucket_ref
    place-Grown = rw r.fresh (entered-Grown (is_first same net b p i) refl)

    pub place-IsConsistent : IsConsistent same net (place same net t p i b)
    place-IsConsistent = Grown-IsConsistent same net b _ t p i v r place-Grown
