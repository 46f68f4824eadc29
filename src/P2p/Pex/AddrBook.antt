-- ===== src/P2p/Pex/AddrBook.antt =====
-- p2p/pex/addrbook.go, without its service and its file. Pointers to known addresses are numbers, and
-- the two slices of buckets are functions of an index. The order in which Go ranges over a map, the
-- time and the random numbers come from outside. An int that is counted down is its 64 bits.
pub mod Lowering
pub mod Raising
pub mod Calls
pub mod Consistent
pub mod Changes
pub mod Buckets
pub mod Growing
pub mod Placing
pub mod Shrinking
pub mod Removing
pub mod Deleting
pub mod Erasing
pub mod Rewriting
pub mod Expiring
pub mod Entering
pub mod Keeping
pub mod Aging
pub mod Promoting
pub mod Adding
pub mod Reached
pub mod Counting
pub mod Selection
pub mod Pick
pub mod PickEnds
use btm_stats.Base.{
  ℕ, ◌+◌, ◌*◌, ◌-◌, ◌%◌, ◌^◌, ◌<◌, Bool, true, false, ◌||◌, ◌&&◌, not, Option, none, some, List, [],
  ◌∷◌, length, ltb, leb, ◌==◌, if◌then◌else◌, find, put, delete,
}
use btm_stats.Errors.{Error, other}
use btm_stats.P2p.Pex.KnownAddress.{
  KnownAddress, new_known_address, add_bucket_ref, remove_bucket_ref, is_old, is_new, is_bad,
  mark_attempt, mark_good, bucket_type_new, bucket_type_old, new_bucket_size, old_bucket_size,
  new_bucket_count, old_bucket_count, max_new_buckets_per_address, need_address_threshold,
}

-- What the book asks of an address: String, Routable, calcNewBucket and calcOldBucket, which
-- give the index of a bucket.
pub record Addressing (A Key : Type 0) : Type 0 where
  pub string_of : A → Key
  pub routable : A → Bool
  pub calc_new_bucket : A → A → ℕ
  pub calc_old_bucket : A → ℕ
  pub new_in_range : (addr src : A) → calc_new_bucket addr src < new_bucket_count
  pub old_in_range : (addr : A) → calc_old_bucket addr < old_bucket_count

-- The time, Int31n, and the order of the two loops over a bucket, during one call.
pub record Draws (Key : Type 0) : Type 0 where
  pub now : ℕ
  pub int31n : ℕ → ℕ
  pub order_bad : List (Key × ℕ) → List (Key × ℕ)
  pub order_oldest : List (Key × ℕ) → List (Key × ℕ)

pub record AddrBook (A Key : Type 0) : Type 0 where
  pub our_addrs : List (Key × A)
  pub addr_lookup : List (Key × ℕ)
  pub buckets_new : ℕ → List (Key × ℕ)
  pub buckets_old : ℕ → List (Key × ℕ)
  pub n_old : ℕ
  pub n_new : ℕ
  pub heap : ℕ → KnownAddress A
  pub next : ℕ

abbrev pub increment : ℕ → ℕ
increment n = (n + 1) % 2 ^ 64

abbrev pub decrement : ℕ → ℕ
decrement n = (n + (2 ^ 64 - 1)) % 2 ^ 64

-- a function with another value at one number
abbrev pub update {ℓ} : {B : Type ℓ} → ℕ → B → (ℕ → B) → ℕ → B
update p v f q = if q == p then v else f q

-- the choice of pickOldest between two addresses
abbrev pub older : {A : Type 0} → (ℕ → KnownAddress A) → Option ℕ → ℕ → ℕ
older heap none p = p
older heap (some q) p = if ltb (heap p).last_attempt (heap q).last_attempt then p else q

module _ {A Key : Type 0} where
  abbrev pub write : ℕ → KnownAddress A → AddrBook A Key → AddrBook A Key
  write p ka b = record b { heap = update p ka b.heap }

  -- getBucket: a bucket of another type is nil
  abbrev pub get_bucket : ℕ → ℕ → AddrBook A Key → List (Key × ℕ)
  get_bucket bucket_type i b =
      if bucket_type == bucket_type_new
      then b.buckets_new i
      else if bucket_type == bucket_type_old
      then b.buckets_old i
      else []

  -- a change of the map that getBucket gives
  abbrev pub set_bucket : ℕ → ℕ → List (Key × ℕ) → AddrBook A Key → AddrBook A Key
  set_bucket bucket_type i m b =
      if bucket_type == bucket_type_new
      then record b { buckets_new = update i m b.buckets_new }
      else if bucket_type == bucket_type_old
      then record b { buckets_old = update i m b.buckets_old }
      else b

  -- size, NeedMoreAddrs
  abbrev pub size : AddrBook A Key → ℕ
  size b = (b.n_new + b.n_old) % 2 ^ 64

  unfoldable pub need_more_addrs : AddrBook A Key → Bool
  need_more_addrs b = leb (2 ^ 63) (size b) || ltb (size b) need_address_threshold

  -- a counter goes up, or down, by the type of an address
  abbrev pub count_up : ℕ → AddrBook A Key → AddrBook A Key
  count_up bucket_type b =
      if bucket_type == bucket_type_new
      then record b { n_new = increment b.n_new }
      else record b { n_old = increment b.n_old }

  abbrev pub count_down : ℕ → AddrBook A Key → AddrBook A Key
  count_down bucket_type b =
      if bucket_type == bucket_type_new
      then record b { n_new = decrement b.n_new }
      else record b { n_old = decrement b.n_old }

  -- the first bad address of a range
  abbrev pub first_bad : ℕ → (ℕ → KnownAddress A) → List (Key × ℕ) → Option ℕ
  first_bad now heap [] = none
  first_bad now heap ((k, p) ∷ m) =
      let rest = first_bad now heap m in if is_bad now (heap p) then some p else rest

  -- pickOldest, from a first address
  unfoldable pub pick_oldest : (ℕ → KnownAddress A) → Option ℕ → List (Key × ℕ) → Option ℕ
  pick_oldest heap oldest [] = oldest
  pick_oldest heap oldest ((k, p) ∷ m) = pick_oldest heap (some (older heap oldest p)) m

module _ {A Key : Type 0} (same : Discrete Key) (net : Addressing A Key) where
  abbrev pub address_of : AddrBook A Key → ℕ → Key
  address_of b p = net.string_of (b.heap p).addr

  -- removeFromBucket
  abbrev pub unreferenced : Option ℕ → ℕ → AddrBook A Key → AddrBook A Key
  unreferenced none p b = b
  unreferenced (some n) p b =
      let gone = record b { addr_lookup = delete same (address_of b p) b.addr_lookup } in
      if n == 0 then count_down (b.heap p).bucket_type gone else b

  unfoldable pub remove_from_bucket : ℕ → ℕ → AddrBook A Key → AddrBook A Key
  remove_from_bucket p i b =
      let t = (b.heap p).bucket_type in
      let (n, ka) = remove_bucket_ref (b.heap p) i in
      unreferenced n p
        (write p ka (set_bucket t i (delete same (address_of b p) (get_bucket t i b)) b))

  -- removeFromAllBuckets, with its loop
  unfoldable pub delete_all : ℕ → Key → List ℕ → AddrBook A Key → AddrBook A Key
  delete_all t k [] b = b
  delete_all t k (i ∷ is) b =
      delete_all t k is (set_bucket t i (delete same k (get_bucket t i b)) b)

  unfoldable pub remove_from_all_buckets : ℕ → AddrBook A Key → AddrBook A Key
  remove_from_all_buckets p b =
      let ka = b.heap p in
      let k = address_of b p in
      let unlinked = record b { addr_lookup = delete same k b.addr_lookup } in
      count_down ka.bucket_type
        (write p (record ka { buckets = [] }) (delete_all ka.bucket_type k ka.buckets unlinked))

  -- expireNew, where `none` is a nil pointer: pickOldest of an empty bucket
  abbrev pub expired : Option ℕ → Option ℕ → ℕ → AddrBook A Key → Option (AddrBook A Key)
  expired (some bad) oldest i b = some (remove_from_bucket bad i b)
  expired none (some oldest) i b = some (remove_from_bucket oldest i b)
  expired none none i b = none

  unfoldable pub expire_new : Draws Key → ℕ → AddrBook A Key → Option (AddrBook A Key)
  expire_new d i b =
      let bucket = b.buckets_new i in
      expired (first_bad d.now b.heap (d.order_bad bucket))
        (pick_oldest b.heap none (d.order_oldest (get_bucket bucket_type_new i b))) i b

  -- the end of addToNewBucket and of addToOldBucket
  abbrev pub referenced : ℕ → Option ℕ → AddrBook A Key → AddrBook A Key
  referenced t none b = b
  referenced t (some n) b = if n == 1 then count_up t b else b

  unfoldable pub place : ℕ → ℕ → ℕ → AddrBook A Key → AddrBook A Key
  place t p i b =
      let k = address_of b p in
      let placed = set_bucket t i (put same k p (get_bucket t i b)) b in
      let (n, ka) = add_bucket_ref (b.heap p) i in
      referenced t n (write p ka (record placed { addr_lookup = put same k p b.addr_lookup }))
