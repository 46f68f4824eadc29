-- ===== src/P2p/Pex/AddrBook/Selection.antt =====
-- p2p/pex/addrbook.go: GetSelection. The size of the book is below 2^58, so that no product overflows.
use btm_stats.Base.{
  length-map, length-Perm, set-Perm, ℕ, zero, suc, ◌+◌, ◌-◌, ◌*◌, ◌/◌, ◌%◌, ◌^◌, ◌<◌, ◌≤◌, ◌≡◌,
  refl, sym, ap, ◌∙◌, false, Option, none, some, List, [], length, ◌==◌, if◌then◌else◌, arith, map,
  take, set, get_elem?, drop, leb, ltb, min, length-take, get_elem?-some, get_elem?-set, ℕ_discrete,
  le→ltb, subst, take-append-drop, ◌++◌,
}
use mathlib.Core.List.{Perm}
use mathlib.Core.List.Perm
use btm_stats.P2p.Pex.KnownAddress.{get_selection_percent, min_get_selection, max_get_selection}
use btm_stats.P2p.Pex.AddrBook.{Addressing, AddrBook, size}
use btm_stats.P2p.Pex.AddrBook.Consistent.{IsConsistent}
use btm_stats.P2p.Pex.AddrBook.Counting.{size_lem}

-- the number of addresses, from the size of the book
abbrev pub max : ℕ → ℕ → ℕ
max a b = if ltb a b then b else a

abbrev pub num_addresses : ℕ → ℕ
num_addresses book_size =
    min max_get_selection
      (max (min min_get_selection book_size) (book_size * get_selection_percent % 2 ^ 64 / 100))

module _ {B : Type 0} where
  -- the swap of two elements, where `none` is an index out of range
  abbrev swapped_with : ℕ → ℕ → Option B → Option B → List B → Option (List B)
  swapped_with i j (some x) (some y) xs = some (set (set xs i y) j x)
  swapped_with i j _ _ xs = none

  unfoldable pub swap : ℕ → ℕ → List B → Option (List B)
  swap i j xs = swapped_with i j (get_elem? xs i) (get_elem? xs j) xs

  -- a round of the loop over i; Intn of zero panics
  abbrev round : (ℕ → ℕ → ℕ) → ℕ → List B → Option (List B)
  round intn i xs = if leb (length xs) i then none else swap i (intn i (length xs - i) + i) xs

  -- the loop over i, with the number of rounds that are left
  unfoldable pub shuffle : (ℕ → ℕ → ℕ) → ℕ → ℕ → List B → Option (List B)
  shuffle intn zero i xs = some xs
  shuffle intn (suc n) i xs = elim (round intn i xs) [
    | none ↦ none
    | some ys ↦ shuffle intn n (suc i) ys
  ]

  -- allAddr[:numAddresses]
  abbrev cut : ℕ → Option (List B) → Option (List B)
  cut n none = none
  cut n (some xs) = if ltb (length xs) n then none else some (take n xs)

  -- GetSelection, from bookSize and allAddr
  abbrev selected : (ℕ → ℕ → ℕ) → ℕ → List B → Option (List B)
  selected intn book_size all_addr =
      let n = num_addresses book_size in
      if book_size == 0 then some [] else cut n (shuffle intn n 0 all_addr)

module _ {A Key : Type 0} where
  -- GetSelection, with the order of the range and the random numbers of the rounds
  unfoldable pub get_selection :
      (List (Key × ℕ) → List (Key × ℕ)) → (ℕ → ℕ → ℕ) → AddrBook A Key → Option (List A)
  get_selection order intn b =
      selected intn (size b) (map (λ e. (b.heap e.1).addr) (order b.addr_lookup))

-- A swap inside the list rearranges it.
swap-Perm :
    {B : Type 0} (i j : ℕ) (xs : List B)
    → i < length xs
    → j < length xs
    → (ys : List B) × (swap i j xs ≡ some ys) × Perm ys xs
unfolding swap
swap-Perm i j xs h k =
    let (x, e) = get_elem?-some xs i h in
    let (y, f) = get_elem?-some xs j k in
    let still : get_elem? (set xs i y) j ≡ some y = ground (arith, get_elem?-set xs i y j, f, h) in
    (
      set (set xs i y) j x,
      rw (e, f),
      Perm.cons_inv (Perm.trans (set-Perm (set xs i y) j y x still) (set-Perm xs i x y e)),
    )

shuffle_step :
    {B : Type 0} (intn : ℕ → ℕ → ℕ) (n i : ℕ) (xs ys : List B)
    → round intn i xs ≡ some ys
    → shuffle intn (suc n) i xs ≡ shuffle intn n (suc i) ys
unfolding shuffle
shuffle_step intn n i xs ys e =
    ap (λ o. elim o [ none ↦ none | some zs ↦ shuffle intn n (suc i) zs ]) e

-- Rounds inside the list rearrange it.
shuffle-Perm :
    {B : Type 0} (intn : ℕ → ℕ → ℕ) (n i : ℕ) (xs : List B)
    → ((k m : ℕ) → 0 < m → intn k m < m)
    → i + n ≤ length xs
    → (ys : List B) × (shuffle intn n i xs ≡ some ys) × Perm ys xs
unfolding shuffle
shuffle-Perm intn zero i xs h l = (xs, refl, Perm.refl xs)
shuffle-Perm intn (suc n) i xs h l =
    let inside : leb (length xs) i ≡ false = ground (arith, l) in
    let (ys, e, p) =
      swap-Perm i (intn i (length xs - i) + i) xs (omega (arith, l))
        (omega (arith, l, h i (length xs - i) (omega (arith, l)))) in
    let (zs, f, q) = shuffle-Perm intn n (suc i) ys h (omega (arith, l, length-Perm p)) in
    let step : round intn i xs ≡ some ys =
      ap (λ z. if z then none else swap i (intn i (length xs - i) + i) xs) inside ∙ e in
    (zs, shuffle_step intn n i xs ys step ∙ f, Perm.trans q p)

num_addresses_bound : (n : ℕ) → n < 2 ^ 58 → num_addresses n ≤ n
num_addresses_bound n h = ground arith

-- All, 32, 23 in 100, or 250.
num_addresses_lem :
    (n : ℕ)
    → n < 2 ^ 58
    → num_addresses n
      ≡ (if ltb n 32 then n else if ltb n 140 then 32 else if ltb n 1087 then n * 23 / 100 else 250)
num_addresses_lem n h = ground arith

-- A selection of as many elements as the code wants, and the elements that are left out.
selected_lem :
    {B : Type 0} (intn : ℕ → ℕ → ℕ) (n : ℕ) (xs : List B)
    → length xs ≡ n
    → n < 2 ^ 58
    → ((k m : ℕ) → 0 < m → intn k m < m)
    → (ys rest : List B) × (selected intn n xs ≡ some ys)
      × (length ys ≡ num_addresses n)
      × Perm (ys ++ rest) xs
selected_lem intn n xs l h r = elim (ℕ_discrete n 0) [
  | yes e ↦ ([], xs, rw e, sym (ap num_addresses e), Perm.refl xs)
  | no ne ↦
      let few = num_addresses_bound n h in
      let (ys, e, p) = shuffle-Perm intn (num_addresses n) 0 xs r (omega (arith, l, few)) in
      let m = length-Perm p in
      let some_left : n == 0 ≡ false = ground arith in
      let enough : ltb (length ys) (num_addresses n) ≡ false =
        le→ltb (length ys) (num_addresses n) (omega (arith, l, few, m)) in
      (
        take (num_addresses n) ys,
        drop (num_addresses n) ys,
        ap (λ z. if z then some [] else cut (num_addresses n) (shuffle intn (num_addresses n) 0 xs))
              some_left
            ∙ ap (cut (num_addresses n)) e
            ∙ ap (λ z. if z then none else some (take (num_addresses n) ys)) enough,
        length-take (num_addresses n) ys ∙ omega (arith, l, few, m),
        subst (λ zs. Perm zs xs) (sym (take-append-drop (num_addresses n) ys)) p,
      )
]

module _ {A Key : Type 0} (same : Discrete Key) (net : Addressing A Key) where
  -- GetSelection of whatever a range of the length of the table gives.
  pub get_selection_lem :
      (order : List (Key × ℕ) → List (Key × ℕ)) (intn : ℕ → ℕ → ℕ) (b : AddrBook A Key)
      → IsConsistent same net b
      → length b.addr_lookup < 2 ^ 58
      → length (order b.addr_lookup) ≡ length b.addr_lookup
      → ((k m : ℕ) → 0 < m → intn k m < m)
      → (xs rest : List A) × (get_selection order intn b ≡ some xs)
        × (length xs ≡ num_addresses (length b.addr_lookup))
        × Perm (xs ++ rest) (map (λ e. (b.heap e.1).addr) (order b.addr_lookup))
  unfolding get_selection
  get_selection_lem order intn b v h l r =
      let all = map (λ e. (b.heap e.1).addr) (order b.addr_lookup) in
      let (xs, rest, e, m, p) =
        selected_lem intn (length b.addr_lookup) all
          (length-map (λ e. (b.heap e.1).addr) (order b.addr_lookup) ∙ l) h r in
      (xs, rest, ap (λ n. selected intn n all) (size_lem same net b v (omega (arith, h))) ∙ e, m, p)

  -- GetSelection of a consistent book of fewer than 2^58 addresses, with a range that visits every
  -- entry of the table once and random numbers in their range, does not panic. What it gives and
  -- some addresses that are left out are together the addresses of the entries of the table, in
  -- another order, so that no entry is given twice. It gives all of fewer than 32 addresses, 32 of
  -- fewer than 140, 23 in 100 of fewer than 1087, and 250 of more.
  pub get_selection-returns :
      (order : List (Key × ℕ) → List (Key × ℕ)) (intn : ℕ → ℕ → ℕ) (b : AddrBook A Key)
      → IsConsistent same net b
      → length b.addr_lookup < 2 ^ 58
      → Perm (order b.addr_lookup) b.addr_lookup
      → ((k m : ℕ) → 0 < m → intn k m < m)
      → (xs rest : List A) × (get_selection order intn b ≡ some xs)
        × Perm (xs ++ rest) (map (λ e. (b.heap e.1).addr) b.addr_lookup)
        × (length xs ≡ (
            if ltb (length b.addr_lookup) 32
            then length b.addr_lookup
            else if ltb (length b.addr_lookup) 140
            then 32
            else if ltb (length b.addr_lookup) 1087
            then length b.addr_lookup * 23 / 100
            else 250))
  get_selection-returns order intn b v h o r =
      let (xs, rest, e, m, p) = get_selection_lem order intn b v h (length-Perm o) r in
      (
        xs,
        rest,
        e,
        Perm.trans p (Perm.map (λ e. (b.heap e.1).addr) o),
        m ∙ num_addresses_lem (length b.addr_lookup) h,
      )
