-- ===== src/P2p/Pex/KnownAddress.antt =====
-- p2p/pex/know_address.go and param.go: what the book knows of one address. A time.Time is the number
-- of nanoseconds since the zero time, and a time minus a duration is compared by adding the duration
-- on the other side; an int32 is its 32 bits.
pub mod Buckets
use btm_stats.Base.{
  ℕ, ◌+◌, ◌*◌, ◌%◌, ◌^◌, ◌≡◌, ◌≢◌, refl, sym, ap, ◌∙◌, subst, ℕ_discrete, Bool, true, false, ◌||◌,
  ◌&&◌, not, Option, none, some, List, [], ◌∷◌, ◌++◌, length, ltb, leb, ◌==◌, if◌then◌else◌, arith,
}

-- param.go
abbrev pub bucket_type_new : ℕ
bucket_type_new = 0x01

abbrev pub bucket_type_old : ℕ
bucket_type_old = 0x02

abbrev pub old_bucket_size : ℕ
old_bucket_size = 64

abbrev pub old_bucket_count : ℕ
old_bucket_count = 64

abbrev pub old_buckets_per_group : ℕ
old_buckets_per_group = 4

abbrev pub new_bucket_size : ℕ
new_bucket_size = 64

abbrev pub new_bucket_count : ℕ
new_bucket_count = 256

abbrev pub new_buckets_per_group : ℕ
new_buckets_per_group = 32

abbrev pub get_selection_percent : ℕ
get_selection_percent = 23

abbrev pub min_get_selection : ℕ
min_get_selection = 32

abbrev pub max_get_selection : ℕ
max_get_selection = 250

abbrev pub need_address_threshold : ℕ
need_address_threshold = 1000

abbrev pub max_new_buckets_per_address : ℕ
max_new_buckets_per_address = 4

abbrev pub num_missing_days : ℕ
num_missing_days = 30

abbrev pub num_retries : ℕ
num_retries = 3

abbrev pub max_failures : ℕ
max_failures = 10

abbrev pub min_bad_days : ℕ
min_bad_days = 7

-- time.Minute and time.Hour
abbrev pub minute : ℕ
minute = 60 * 1000000000

abbrev pub hour : ℕ
hour = 60 * minute

-- x >= y of int32s, where y is a small constant
abbrev pub at_least : ℕ → ℕ → Bool
at_least x y = ltb x (2 ^ 31) && leb y x

abbrev pub contains : ℕ → List ℕ → Bool
contains i [] = false
contains i (j ∷ js) = if j == i then true else contains i js

-- the loop of removeBucketRef
abbrev pub without : ℕ → List ℕ → List ℕ
without i [] = []
without i (j ∷ js) = let rest = without i js in if j == i then rest else j ∷ rest

pub record KnownAddress (A : Type 0) : Type 0 where
  pub addr : A
  pub src : A
  pub attempts : ℕ
  pub last_attempt : ℕ
  pub last_success : ℕ
  pub bucket_type : ℕ
  pub buckets : List ℕ

module _ {A : Type 0} where
  unfoldable pub new_known_address : A → A → ℕ → KnownAddress A
  new_known_address addr src now = record {
    addr = addr;
    src = src;
    attempts = 0;
    last_attempt = now;
    last_success = 0;
    bucket_type = bucket_type_new;
    buckets = [];
  }

  -- addBucketRef, where `none` is the result -1
  unfoldable pub add_bucket_ref : KnownAddress A → ℕ → Option ℕ × KnownAddress A
  add_bucket_ref ka bucket_idx =
      let buckets = ka.buckets ++ (bucket_idx ∷ []) in
      if contains bucket_idx ka.buckets
      then (none, ka)
      else (some (length buckets), record ka { buckets = buckets })

  -- removeBucketRef, where `none` is the result -1
  unfoldable pub remove_bucket_ref : KnownAddress A → ℕ → Option ℕ × KnownAddress A
  remove_bucket_ref ka bucket_idx =
      let buckets = without bucket_idx ka.buckets in
      if length buckets + 1 == length ka.buckets
      then (some (length buckets), record ka { buckets = buckets })
      else (none, ka)

  abbrev pub is_old : KnownAddress A → Bool
  is_old ka = ka.bucket_type == bucket_type_old

  abbrev pub is_new : KnownAddress A → Bool
  is_new ka = ka.bucket_type == bucket_type_new

  unfoldable pub is_bad : ℕ → KnownAddress A → Bool
  is_bad now ka =
      if ka.bucket_type == bucket_type_old
      then false
      else if ltb now (ka.last_attempt + minute) && not (ka.attempts == 0)
      then true
      else if ltb (ka.last_attempt + num_missing_days * hour * 24) now
      then true
      else if ka.last_success == 0 && at_least ka.attempts num_retries
      then true
      else ltb (ka.last_success + min_bad_days * hour * 24) now && at_least ka.attempts max_failures

  unfoldable pub mark_attempt : ℕ → KnownAddress A → KnownAddress A
  mark_attempt now ka = record ka { last_attempt = now; attempts = (ka.attempts + 1) % 2 ^ 32 }

  unfoldable pub mark_good : ℕ → KnownAddress A → KnownAddress A
  mark_good now ka = record ka { last_attempt = now; last_success = now; attempts = 0 }
