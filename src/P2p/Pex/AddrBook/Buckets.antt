-- ===== src/P2p/Pex/AddrBook/Buckets.antt =====
-- Reading the buckets of a book, and its other fields, after a change.
use btm_stats.Base.{
  ℕ, ◌≡◌, ◌≢◌, ◌⊎◌, refl, Bool, true, false, not, ◌&&◌, List, ◌==◌, if◌then◌else◌, arith,
}
use btm_stats.P2p.Pex.KnownAddress.{bucket_type_new, bucket_type_old}
use btm_stats.P2p.Pex.AddrBook.{
  AddrBook, update, get_bucket, set_bucket, count_up, count_down, increment, decrement,
}
use btm_stats.P2p.Pex.AddrBook.Consistent.{IsType}

pub update_same {ℓ} : {B : Type ℓ} (p : ℕ) (v : B) (f : ℕ → B) → update p v f p ≡ v
update_same p v f = ground arith

pub update_other {ℓ} : {B : Type ℓ} (p q : ℕ) (v : B) (f : ℕ → B) → q ≢ p → update p v f q ≡ f q
update_other p q v f n = ground arith

-- Whether two pairs of a type and an index are the same.
pub same_bucket-cases : (u t j i : ℕ) → ((u ≡ t) × (j ≡ i)) ⊎ ((u == t && j == i) ≡ false)
same_bucket-cases u t j i = ground arith

pub same_bucket : (u t j i : ℕ) → u ≡ t → j ≡ i → (u == t && j == i) ≡ true
same_bucket u t j i e f = ground arith

pub not_new : (t : ℕ) → IsType t → not (t == bucket_type_new) ≡ (t == bucket_type_old)
not_new t h = ground arith

module _ {A Key : Type 0} where
  -- Two books with the same buckets, addresses and table.
  pub record IsSame (b c : AddrBook A Key) : Type 0 where
    pub lookup : c.addr_lookup ≡ b.addr_lookup
    pub heap : c.heap ≡ b.heap
    pub next : c.next ≡ b.next

  pub get-set :
      (t i u j : ℕ) (m : List (Key × ℕ)) (b : AddrBook A Key)
      → IsType t
      → get_bucket u j (set_bucket t i m b) ≡ (if u == t && j == i then m else get_bucket u j b)
  get-set t i u j m b h = ground arith

  pub if-IsSame :
      (b c d : AddrBook A Key) (x : Bool) → IsSame b c → IsSame b d → IsSame b (if x then c else d)
  if-IsSame b c d true h k = h
  if-IsSame b c d false h k = k

  pub alike : (b : AddrBook A Key) → IsSame b b
  alike b = record { lookup = refl; heap = refl; next = refl }

  pub set_bucket-IsSame :
      (t i : ℕ) (m : List (Key × ℕ)) (b : AddrBook A Key) → IsSame b (set_bucket t i m b)
  set_bucket-IsSame t i m b =
      if-IsSame b _ _ (t == bucket_type_new) (record { lookup = refl; heap = refl; next = refl })
        (if-IsSame b _ _ (t == bucket_type_old) (record { lookup = refl; heap = refl; next = refl })
          (alike b))

  pub set_bucket-counters :
      (t i : ℕ) (m : List (Key × ℕ)) (b : AddrBook A Key)
      → ((set_bucket t i m b).n_new ≡ b.n_new) × ((set_bucket t i m b).n_old ≡ b.n_old)
  set_bucket-counters t i m b = ground arith

  pub count_up-IsSame : (t : ℕ) (b : AddrBook A Key) → IsSame b (count_up t b)
  count_up-IsSame t b =
      if-IsSame b _ _ (t == bucket_type_new) (record { lookup = refl; heap = refl; next = refl })
        (record { lookup = refl; heap = refl; next = refl })

  pub get-count_up :
      (t u j : ℕ) (b : AddrBook A Key) → get_bucket u j (count_up t b) ≡ get_bucket u j b
  get-count_up t u j b = ground arith

  pub count_down-IsSame : (t : ℕ) (b : AddrBook A Key) → IsSame b (count_down t b)
  count_down-IsSame t b =
      if-IsSame b _ _ (t == bucket_type_new) (record { lookup = refl; heap = refl; next = refl })
        (record { lookup = refl; heap = refl; next = refl })

  pub get-count_down :
      (t u j : ℕ) (b : AddrBook A Key) → get_bucket u j (count_down t b) ≡ get_bucket u j b
  get-count_down t u j b = ground arith

  pub count_up-counters :
      (t : ℕ) (b : AddrBook A Key)
      → ((count_up t b).n_new ≡ (if t == bucket_type_new then increment b.n_new else b.n_new))
        × ((count_up t b).n_old
            ≡ (if not (t == bucket_type_new) then increment b.n_old else b.n_old))
  count_up-counters t b = ground arith

  pub count_down-counters :
      (t : ℕ) (b : AddrBook A Key)
      → ((count_down t b).n_new ≡ (if t == bucket_type_new then decrement b.n_new else b.n_new))
        × ((count_down t b).n_old
            ≡ (if not (t == bucket_type_new) then decrement b.n_old else b.n_old))
  count_down-counters t b = ground arith
