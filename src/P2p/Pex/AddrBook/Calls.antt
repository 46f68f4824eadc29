-- ===== src/P2p/Pex/AddrBook/Calls.antt =====
-- p2p/pex/addrbook.go: the calls that change the book.
use btm_stats.Base.{
  ℕ, ◌+◌, ◌*◌, ◌%◌, ◌^◌, Bool, true, false, ◌||◌, ◌&&◌, not, Option, none, some, [], length, ltb,
  leb, ◌==◌, if◌then◌else◌, find, put,
}
use btm_stats.Errors.{Error, other}
use btm_stats.P2p.Pex.KnownAddress.{
  KnownAddress, new_known_address, is_old, is_new, mark_attempt, mark_good, bucket_type_new,
  bucket_type_old, new_bucket_size, old_bucket_size, max_new_buckets_per_address,
}
use btm_stats.P2p.Pex.AddrBook.{
  Addressing, Draws, AddrBook, write, get_bucket, address_of, remove_from_all_buckets, expire_new,
  place,
}

abbrev pub nil_address : Error
nil_address = other "can't add nil to address book"

abbrev pub our_address : Error
our_address = other "add ourselves to address book"

abbrev pub non_routable : Error
non_routable = other "cannot add non-routable address"

abbrev pub add_old_to_new : Error
add_old_to_new = other "cant add old address to new bucket"

abbrev pub add_new_to_old : Error
add_new_to_old = other "cannot add old address to new bucket"

abbrev pub add_twice_to_old : Error
add_twice_to_old = other "cannot add already old address to another old bucket"

abbrev pub old_bucket_full : Error
old_bucket_full = other "old bucket is full"

abbrev pub promote_old : Error
promote_old = other "cannot promote address that is already old"

abbrev pub promote_unplaced : Error
promote_unplaced = other "cannot promote address that isn't in any new buckets"

-- NewAddrBook; every pointer of an empty book is free
abbrev pub new_addr_book : {A Key : Type 0} → KnownAddress A → AddrBook A Key
new_addr_book free = record {
  our_addrs = [];
  addr_lookup = [];
  buckets_new = λ i. [];
  buckets_old = λ i. [];
  n_old = 0;
  n_new = 0;
  heap = λ p. free;
  next = 0;
}

-- whether a key is in a map
abbrev pub is_there : {V : Type 0} → Option V → Bool
is_there none = false
is_there (some v) = true

module _ {A Key : Type 0} (same : Discrete Key) (net : Addressing A Key) where
  -- addToNewBucket, where `none` is a panic
  abbrev pub entered : ℕ → ℕ → Option (AddrBook A Key) → Option (Option Error × AddrBook A Key)
  entered p i none = none
  entered p i (some b) = some (none, place same net bucket_type_new p i b)

  unfoldable pub add_to_new_bucket :
      Draws Key → ℕ → ℕ → AddrBook A Key → Option (Option Error × AddrBook A Key)
  add_to_new_bucket d p i b =
      let bucket = get_bucket bucket_type_new i b in
      let room =
        if ltb new_bucket_size (length bucket) then expire_new same net d i b else some b in
      if is_old (b.heap p)
      then some (some add_old_to_new, b)
      else if is_there (find same (address_of same net b p) bucket)
      then some (none, b)
      else entered p i room

  -- addToOldBucket
  unfoldable pub add_to_old_bucket : ℕ → ℕ → AddrBook A Key → Option Error × AddrBook A Key
  add_to_old_bucket p i b =
      if is_new (b.heap p)
      then (some add_new_to_old, b)
      else if not (length (b.heap p).buckets == 0)
      then (some add_twice_to_old, b)
      else if ltb old_bucket_size (length (get_bucket bucket_type_old i b))
      then (some old_bucket_full, b)
      else (none, place same net bucket_type_old p i b)

  -- moveToOld
  unfoldable pub move_to_old : ℕ → AddrBook A Key → Option Error × AddrBook A Key
  move_to_old p b =
      let removed = remove_from_all_buckets same net p b in
      let retyped = write p (record (removed.heap p) { bucket_type = bucket_type_old }) removed in
      if is_old (b.heap p)
      then (some promote_old, b)
      else if length (b.heap p).buckets == 0
      then (some promote_unplaced, b)
      else add_to_old_bucket p (net.calc_old_bucket (retyped.heap p).addr) retyped

  -- MarkGood; an error of moveToOld is only logged
  abbrev pub found_good : ℕ → Option ℕ → AddrBook A Key → AddrBook A Key
  found_good now none b = b
  found_good now (some p) b =
      let marked = write p (mark_good now (b.heap p)) b in
      if is_new (marked.heap p) then (move_to_old p marked).1 else marked

  unfoldable pub mark_good_address : ℕ → A → AddrBook A Key → AddrBook A Key
  mark_good_address now addr b = found_good now (find same (net.string_of addr) b.addr_lookup) b

  -- MarkAttempt
  abbrev pub found_attempt : ℕ → Option ℕ → AddrBook A Key → AddrBook A Key
  found_attempt now none b = b
  found_attempt now (some p) b = write p (mark_attempt now (b.heap p)) b

  unfoldable pub mark_attempt_address : ℕ → A → AddrBook A Key → AddrBook A Key
  mark_attempt_address now addr b =
      found_attempt now (find same (net.string_of addr) b.addr_lookup) b

  -- RemoveAddress
  abbrev pub found_remove : Option ℕ → AddrBook A Key → AddrBook A Key
  found_remove none b = b
  found_remove (some p) b = remove_from_all_buckets same net p b

  unfoldable pub remove_address : A → AddrBook A Key → AddrBook A Key
  remove_address addr b = found_remove (find same (net.string_of addr) b.addr_lookup) b

  -- AddOurAddress
  unfoldable pub add_our_address : A → AddrBook A Key → AddrBook A Key
  add_our_address addr b = record b { our_addrs = put same (net.string_of addr) addr b.our_addrs }

  -- addAddress from the look-up on; `none` is a panic, of Int31n or of addToNewBucket
  abbrev pub known_or_new :
      Draws Key → A → A → Option ℕ → AddrBook A Key → Option (Option Error × AddrBook A Key)
  known_or_new d addr src none b =
      add_to_new_bucket d b.next (net.calc_new_bucket addr src)
        (record (write b.next (new_known_address addr src d.now) b) { next = b.next + 1 })
  known_or_new d addr src (some p) b =
      let factor = 2 * length (b.heap p).buckets % 2 ^ 32 in
      if is_old (b.heap p)
      then some (none, b)
      else if length (b.heap p).buckets == max_new_buckets_per_address
      then some (none, b)
      else if factor == 0 || leb (2 ^ 31) factor
      then none
      else if not (d.int31n factor == 0)
      then some (none, b)
      else add_to_new_bucket d p (net.calc_new_bucket addr src) b

  -- AddAddress; `none` is a nil pointer in the arguments
  unfoldable pub add_address :
      Bool
      → Draws Key
      → Option A
      → Option A
      → AddrBook A Key
      → Option (Option Error × AddrBook A Key)
  add_address routability_strict d none src b = some (some nil_address, b)
  add_address routability_strict d (some addr) none b = some (some nil_address, b)
  add_address routability_strict d (some addr) (some src) b =
      if is_there (find same (net.string_of addr) b.our_addrs)
      then some (some our_address, b)
      else if routability_strict && not (net.routable addr)
      then some (some non_routable, b)
      else known_or_new d addr src (find same (net.string_of addr) b.addr_lookup) b
