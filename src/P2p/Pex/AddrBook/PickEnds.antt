-- ===== src/P2p/Pex/AddrBook/PickEnds.antt =====
-- The loop of PickAddress of p2p/pex/addrbook.go ends.
use btm_stats.Base.{
  ℕ, zero, suc, ◌+◌, ◌^◌, ◌<◌, ◌≡◌, refl, sym, ap, ◌∙◌, inl, inr, subst, Bool, true, false, Option,
  none, some, List, [], ◌∷◌, length, ◌==◌, if◌then◌else◌, arith, All, find, count, get_elem?-some,
  All-get_elem?, Bool-cases, ==_iff, find-here, find-later, weight, Unique,
}
use btm_stats.P2p.Pex.KnownAddress.{
  KnownAddress, contains, is_new, is_old, bucket_type_new, bucket_type_old,
}
use btm_stats.P2p.Pex.AddrBook.{Addressing, AddrBook, size, get_bucket}
use btm_stats.P2p.Pex.AddrBook.Consistent.{at, of_known, IsConsistent, bucket_count}
use btm_stats.P2p.Pex.AddrBook.Counting.{count_both, size_lem}
use btm_stats.P2p.Pex.AddrBook.Expiring.{entry_of_bucket}
use btm_stats.P2p.Pex.AddrBook.Pick.{
  PickDraws, clamp, draw_bucket, address_at, drawn, picked, pick_address,
}

-- The type of the buckets that a call looks at.
abbrev pub type_of : Bool → ℕ
type_of pick_from_old = if pick_from_old then bucket_type_old else bucket_type_new

-- A round that draws a bucket that is not empty ends the loop, at that round or before.
draw_bucket-ends :
    {Key : Type 0} (index : ℕ → ℕ) (buckets : ℕ → List (Key × ℕ)) (r n m : ℕ)
    → m ≡ r + n
    → 0 < length (buckets (index m))
    → (i : ℕ) × (draw_bucket index buckets (suc r) n ≡ some (buckets i)) × (0 < length (buckets i))
unfolding draw_bucket
draw_bucket-ends index buckets zero n m h l =
    let full = subst (λ x. 0 < length (buckets (index x))) (omega (arith, h)) l in
    let open_here : length (buckets (index n)) == 0 ≡ false = ground (arith, full) in
    (index n, rw open_here, full)
draw_bucket-ends index buckets (suc r) n m h l =
    elim (Bool-cases (length (buckets (index n)) == 0)) [
      | inr e ↦ (index n, rw e, ground (arith, e))
      | inl e ↦
          let (i, f, g) = draw_bucket-ends index buckets r (suc n) m (omega (arith, h)) l in
          (i, rw e f, g)
    ]

-- A counter that is not zero counts an entry.
counted_entry :
    {Key : Type 0} (same : Discrete Key) (test : ℕ → Bool) (m : List (Key × ℕ))
    → Unique same m
    → 0 < count same test m
    → (k : Key) × (p : ℕ) × (find same k m ≡ some p) × (test p ≡ true)
counted_entry same test [] u h = absurd (omega (arith, h))
counted_entry same test ((j, q) ∷ m) (n, u) h = elim (Bool-cases (test q)) [
  | inl e ↦ (j, q, find-here same j j q m refl, e)
  | inr e ↦
      let rest = ap weight e in
      let (k, p, f, g) = counted_entry same test m u (omega (arith, h, rest)) in
      (k, p, find-later same j k q p m n f, g)
]

contained : (is : List ℕ) → 0 < length is → (i : ℕ) × (contains i is ≡ true)
contained [] h = absurd (omega (arith, h))
contained (i ∷ is) h = (i, ground arith)

not_empty :
    {Key : Type 0} (same : Discrete Key) (k : Key) (p : ℕ) (m : List (Key × ℕ))
    → find same k m ≡ some p
    → 0 < length m
not_empty same k p [] e = absurd (cc)
not_empty same k p (x ∷ m) e = omega arith

of_known-here :
    {A : Type 0} (t i p : ℕ) (ka : KnownAddress A)
    → ka.bucket_type ≡ t
    → contains i ka.buckets ≡ true
    → of_known t i p ka ≡ some p
of_known-here t i p ka e f = ground (arith, e, f)

module _ {A Key : Type 0} (same : Discrete Key) (net : Addressing A Key) (d : PickDraws Key)
    (b : AddrBook A Key) (v : IsConsistent same net b) where
  -- Where the table has an address of a type, some bucket of the type is not empty.
  bucket_lem :
      (t : ℕ)
      → 0 < count same (λ p. (b.heap p).bucket_type == t) b.addr_lookup
      → (i : ℕ) × (i < bucket_count t) × (0 < length (get_bucket t i b))
  bucket_lem t h =
      let (k, p, e, f) =
        counted_entry same (λ p. (b.heap p).bucket_type == t) b.addr_lookup v.unique h in
      let placed = v.placed k p e in
      let kind = (==_iff _ _).0 f in
      let (i, c) = contained (b.heap p).buckets placed.somewhere in
      let there = v.indexed t i k ∙ ap (at t i b.heap) e ∙ of_known-here t i p (b.heap p) kind c in
      (i, subst (λ u. i < bucket_count u) kind (placed.in_range i c), not_empty same k p _ there)

  -- What PickAddress finds in a bucket that is not empty.
  drawn_lem :
      (t i : ℕ)
      → 0 < length (get_bucket t i b)
      → All (λ e. find same e.0 (get_bucket t i b) ≡ some e.1) (d.order (get_bucket t i b))
      → length (d.order (get_bucket t i b)) ≡ length (get_bucket t i b)
      → d.rand_index (length (get_bucket t i b)) < length (get_bucket t i b)
      → (k : Key) × (p : ℕ) × (find same k b.addr_lookup ≡ some p)
        × ((b.heap p).bucket_type ≡ t)
        × (drawn d b (some (get_bucket t i b)) ≡ some (some (b.heap p).addr))
  drawn_lem t i h o l r =
      let bucket = get_bucket t i b in
      let (e, f) =
        get_elem?-some (d.order bucket) (d.rand_index (length bucket)) (omega (arith, l, r)) in
      let found = All-get_elem? (λ e. find same e.0 bucket ≡ some e.1) (d.order bucket) _ e o f in
      let (listed, kind, _) = entry_of_bucket same net b v t i e.0 e.1 found in
      (e.0, e.1, listed, kind, ap (λ x. some (address_at b x)) f)

  -- The counter of a type with addresses, and the size, are not zero.
  counters :
      length b.addr_lookup < 2 ^ 64
      → (0 < count same (λ p. is_new (b.heap p)) b.addr_lookup
          → (b.n_new == 0 ≡ false) × (size b == 0 ≡ false))
        × (0 < count same (λ p. is_old (b.heap p)) b.addr_lookup
            → (b.n_old == 0 ≡ false) × (size b == 0 ≡ false))
  counters h =
      let both =
        count_both same net b.heap b.addr_lookup v.unique (λ k p e. (v.placed k p e).typed) in
      let whole = size_lem same net b v h in
      (
        λ l. (ground (arith, both, v.new_counted), ground (arith, both, whole)),
        λ l. (ground (arith, both, v.old_counted), ground (arith, both, whole)),
      )

  module _
      (visits : (m : List (Key × ℕ))
        → Unique same m
        → All (λ e. find same e.0 m ≡ some e.1) (d.order m))
      (whole : (m : List (Key × ℕ)) → length (d.order m) ≡ length m)
      (range : (n : ℕ) → 0 < n → d.rand_index n < n) (small : length b.addr_lookup < 2 ^ 64) where
    abbrev Found : ℕ → (ℕ → Option (Option A)) → Type 0
    Found t call =
        (fuel : ℕ) × (k : Key) × (p : ℕ) × (find same k b.addr_lookup ≡ some p)
        × ((b.heap p).bucket_type ≡ t)
        × (call fuel ≡ some (some (b.heap p).addr))

    drawn-Found :
        (t : ℕ)
        → 0 < count same (λ p. (b.heap p).bucket_type == t) b.addr_lookup
        → ((i : ℕ) → i < bucket_count t → (r : ℕ) × (d.bucket_index r ≡ i))
        → Found t (λ fuel. drawn d b (draw_bucket d.bucket_index (λ i. get_bucket t i b) fuel 0))
    drawn-Found t c all =
        let (i, l, full) = bucket_lem t c in
        let (r, e) = all i l in
        let (j, f, g) =
          draw_bucket-ends d.bucket_index (λ i. get_bucket t i b) r 0 r (omega arith)
            (subst (λ x. 0 < length (get_bucket t x b)) (sym e) full) in
        let (k, p, listed, kind, o) =
          drawn_lem t j g (visits (get_bucket t j b) (v.unique_buckets t j))
            (whole (get_bucket t j b)) (range (length (get_bucket t j b)) g) in
        (suc r, k, p, listed, kind, ap (drawn d b) f ∙ o)

    picked-Found :
        (x : Bool)
        → 0 < count same (λ p. (b.heap p).bucket_type == type_of x) b.addr_lookup
        → ((i : ℕ) → i < bucket_count (type_of x) → (r : ℕ) × (d.bucket_index r ≡ i))
        → Found (type_of x) (λ fuel. if size b == 0 then some none else picked fuel d x b)
    picked-Found true c all =
        let (fuel, k, p, listed, kind, e) = drawn-Found bucket_type_old c all in
        let (some_old, some_at_all) = (counters small).1 c in
        (fuel, k, p, listed, kind, rw (some_at_all, some_old) e)
    picked-Found false c all =
        let (fuel, k, p, listed, kind, e) = drawn-Found bucket_type_new c all in
        let (some_new, some_at_all) = (counters small).0 c in
        (fuel, k, p, listed, kind, rw (some_at_all, some_new) e)

  -- PickAddress of a consistent book ends with an address of the type that it draws, if there is one:
  -- when the random numbers come to every bucket of the type in the end, some number of rounds is
  -- enough.
  pub pick_address-ends :
      (bias : ℕ) (pick_from_old : Bool)
      → pick_from_old ≡ d.prefers_old b.n_old b.n_new (clamp bias)
      → length b.addr_lookup < 2 ^ 64
      → 0 < count same (λ p. (b.heap p).bucket_type == type_of pick_from_old) b.addr_lookup
      → ((i : ℕ) → i < bucket_count (type_of pick_from_old) → (r : ℕ) × (d.bucket_index r ≡ i))
      → ((m : List (Key × ℕ)) → Unique same m → All (λ e. find same e.0 m ≡ some e.1) (d.order m))
      → ((m : List (Key × ℕ)) → length (d.order m) ≡ length m)
      → ((n : ℕ) → 0 < n → d.rand_index n < n)
      → (fuel : ℕ) × (k : Key) × (p : ℕ) × (find same k b.addr_lookup ≡ some p)
        × ((b.heap p).bucket_type ≡ type_of pick_from_old)
        × (pick_address fuel d bias b ≡ some (some (b.heap p).addr))
  unfolding pick_address
  pick_address-ends bias x e small c all visits whole range =
      let (fuel, k, p, listed, kind, f) = picked-Found visits whole range small x c all in
      (
        fuel,
        k,
        p,
        listed,
        kind,
        ap (λ y. if size b == 0 then some none else picked fuel d y b) (sym e) ∙ f,
      )
