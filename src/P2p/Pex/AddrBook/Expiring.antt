-- ===== src/P2p/Pex/AddrBook/Expiring.antt =====
-- expireNew: one address leaves a bucket.
use btm_stats.Base.{
  Unique, ℕ, ◌<◌, ◌≡◌, inl, inr, refl, sym, ap, ◌∙◌, subst, true, Option, none, some, List, [], ◌∷◌,
  length, All, arith, find, Option-cases, Bool-cases, ltb,
}
use btm_stats.P2p.Pex.KnownAddress.{KnownAddress, contains, is_bad, bucket_type_new}
use btm_stats.P2p.Pex.AddrBook.{
  Addressing, Draws, AddrBook, get_bucket, address_of, remove_from_bucket, first_bad, older,
  pick_oldest, expire_new,
}
use btm_stats.P2p.Pex.AddrBook.Consistent.{at, of_known, IsConsistent}

module _ {Key : Type 0} (same : Discrete Key) where
  -- A range visits entries of the map, and some entry if there is one.
  pub record IsRange (order : List (Key × ℕ) → List (Key × ℕ)) : Type 0 where
    pub visits :
        (m : List (Key × ℕ)) → Unique same m → All (λ e. find same e.0 m ≡ some e.1) (order m)
    pub some_entry : (m : List (Key × ℕ)) → 0 < length m → 0 < length (order m)

  pub record IsFair (d : Draws Key) : Type 0 where
    pub bad : IsRange d.order_bad
    pub oldest : IsRange d.order_oldest

-- What the two loops choose is an entry.
first_bad_of :
    {A Key : Type 0} (P : Key × ℕ → Type 0) (now : ℕ) (heap : ℕ → KnownAddress A)
    (m : List (Key × ℕ)) (p : ℕ)
    → All P m
    → first_bad now heap m ≡ some p
    → (k : Key) × P (k, p)
first_bad_of P now heap [] p a e = absurd (cc)
first_bad_of P now heap ((k, q) ∷ m) p (h, a) e = elim (Bool-cases (is_bad now (heap q))) [
  | inl bad ↦
      let chosen : some q ≡ some p = sym (rw bad) ∙ e in (k, subst (λ r. P (k, r)) (cc chosen) h)
  | inr good ↦ first_bad_of P now heap m p a (sym (rw good) ∙ e)
]

older_of :
    {A Key : Type 0} (P : Key × ℕ → Type 0) (heap : ℕ → KnownAddress A) (first : Option ℕ) (k : Key)
    (q r : ℕ)
    → P (k, q)
    → ((s : ℕ) → first ≡ some s → (j : Key) × P (j, s))
    → older heap first q ≡ r
    → (j : Key) × P (j, r)
older_of P heap none k q r h f e = (k, subst (λ s. P (k, s)) e h)
older_of P heap (some s) k q r h f e =
    elim (Bool-cases (ltb (heap q).last_attempt (heap s).last_attempt)) [
      | inl l ↦ (k, subst (λ s. P (k, s)) (sym (rw l) ∙ e) h)
      | inr l ↦ f r (ap some (sym (rw l) ∙ e))
    ]

oldest_of :
    {A Key : Type 0} (P : Key × ℕ → Type 0) (heap : ℕ → KnownAddress A) (first : Option ℕ)
    (m : List (Key × ℕ)) (p : ℕ)
    → All P m
    → ((q : ℕ) → first ≡ some q → (k : Key) × P (k, q))
    → pick_oldest heap first m ≡ some p
    → (k : Key) × P (k, p)
unfolding pick_oldest
oldest_of P heap first [] p a f e = f p e
oldest_of P heap first ((k, q) ∷ m) p (h, a) f e =
    oldest_of P heap (some (older heap first q)) m p a
      (λ r g. older_of P heap first k q r h f (cc g)) e

oldest_there :
    {A Key : Type 0} (heap : ℕ → KnownAddress A) (q : ℕ) (m : List (Key × ℕ))
    → (p : ℕ) × (pick_oldest heap (some q) m ≡ some p)
unfolding pick_oldest
oldest_there heap q [] = (q, refl)
oldest_there heap q ((k, r) ∷ m) = oldest_there heap (older heap (some q) r) m

oldest_of_some :
    {A Key : Type 0} (heap : ℕ → KnownAddress A) (m : List (Key × ℕ))
    → 0 < length m
    → (p : ℕ) × (pick_oldest heap none m ≡ some p)
unfolding pick_oldest
oldest_of_some heap [] h = absurd (omega arith)
oldest_of_some heap ((k, r) ∷ m) h = oldest_there heap r m

of_known-some :
    {A : Type 0} (t i q p : ℕ) (ka : KnownAddress A)
    → of_known t i q ka ≡ some p
    → (q ≡ p) × (ka.bucket_type ≡ t) × (contains i ka.buckets ≡ true)
of_known-some t i q p ka e = ground arith

module _ {A Key : Type 0} (same : Discrete Key) (net : Addressing A Key) (b : AddrBook A Key)
    (v : IsConsistent same net b) where
  -- An entry of a bucket is an entry of the table, with a reference to the bucket.
  pub entry_of_bucket :
      (t i : ℕ) (k : Key) (p : ℕ)
      → find same k (get_bucket t i b) ≡ some p
      → (find same k b.addr_lookup ≡ some p)
        × ((b.heap p).bucket_type ≡ t)
        × (contains i (b.heap p).buckets ≡ true)
  entry_of_bucket t i k p e = elim (Option-cases (find same k b.addr_lookup)) [
    | inl n ↦ absurd (cc (sym e ∙ v.indexed t i k ∙ ap (at t i b.heap) n))
    | inr (q, f) ↦
        let (g, kind, there) =
          of_known-some t i q p (b.heap q)
            (ap (at t i b.heap) (sym f) ∙ sym (v.indexed t i k) ∙ e) in
        (
          f ∙ ap some g,
          subst (λ r. (b.heap r).bucket_type ≡ t) g kind,
          subst (λ r. contains i (b.heap r).buckets ≡ true) g there,
        )
  ]

  -- What expireNew removes, and from what it is removed.
  pub record Victim (i p : ℕ) : Type 0 where
    pub key_lem : find same (address_of same net b p) (get_bucket bucket_type_new i b) ≡ some p
    pub listed : find same (address_of same net b p) b.addr_lookup ≡ some p
    pub inside : contains i (b.heap p).buckets ≡ true

  victim : (i : ℕ) (k : Key) (p : ℕ) → find same k (b.buckets_new i) ≡ some p → Victim i p
  victim i k p e =
      let (listed, kind, inside) = entry_of_bucket bucket_type_new i k p e in
      let named = (v.placed k p listed).named in
      record {
        key_lem = subst (λ x. find same x (get_bucket bucket_type_new i b) ≡ some p) (sym named) e;
        listed = subst (λ x. find same x b.addr_lookup ≡ some p) (sym named) listed;
        inside = inside;
      }

  -- expireNew of a bucket that is not empty removes one of its addresses.
  pub expire_new-Victim :
      (d : Draws Key) (i : ℕ)
      → IsFair same d
      → 0 < length (b.buckets_new i)
      → (p : ℕ) × Victim i p
        × (expire_new same net d i b ≡ some (remove_from_bucket same net p i b))
  unfolding expire_new
  expire_new-Victim d i fair h =
      elim (Option-cases (first_bad d.now b.heap (d.order_bad (b.buckets_new i)))) [
        | inr (p, e) ↦
            let (k, f) =
              first_bad_of (λ e. find same e.0 (b.buckets_new i) ≡ some e.1) d.now b.heap _ p
                (fair.bad.visits (b.buckets_new i) (v.unique_buckets bucket_type_new i)) e in
            (p, victim i k p f, rw e)
        | inl e ↦
            let (p, g) =
              oldest_of_some b.heap (d.order_oldest (b.buckets_new i))
                (fair.oldest.some_entry (b.buckets_new i) h) in
            let (k, f) =
              oldest_of (λ e. find same e.0 (b.buckets_new i) ≡ some e.1) b.heap none _ p
                (fair.oldest.visits (b.buckets_new i) (v.unique_buckets bucket_type_new i))
                (λ q n. absurd (cc)) g in
            (p, victim i k p f, rw (e, g))
      ]
