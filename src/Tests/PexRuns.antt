-- ===== src/Tests/PexRuns.antt =====
-- Runs of p2p/netaddress.go and of p2p/pex.
use btm_stats.Base.{
  ℕ, ◌*◌, ◌/◌, ◌++◌, map, ltb, if◌then◌else◌, ◌≡◌, refl, true, false, Option, none, some, List, [],
  ◌∷◌, length, arith, Unique, find-here, find-later, ℕ_discrete, find, All,
}
use mathlib.Core.List.{Perm}
use mathlib.Core.List.Perm
use btm_stats.Errors.{Error}
use btm_stats.P2p.Ip.{Ip, to4, v4_in_v6_prefix}
use btm_stats.P2p.Pex.Groups.{group_key, group_key-inj}
use btm_stats.P2p.NetAddress.{NetAddress, local, valid, routable}
use btm_stats.P2p.NetAddress.Routing.{routable_v4}
use btm_stats.P2p.Pex.KnownAddress.{
  KnownAddress, new_known_address, is_new, add_bucket_ref, bucket_type_new,
}
use btm_stats.P2p.Pex.AddrBook.{Addressing, Draws, AddrBook, place, write}
use btm_stats.P2p.Pex.AddrBook.Calls.{
  new_addr_book, add_address, mark_good_address, add_to_new_bucket,
}
use btm_stats.P2p.Pex.AddrBook.Consistent.{IsConsistent}
use btm_stats.P2p.Pex.AddrBook.Expiring.{IsRange, IsFair}
use btm_stats.P2p.Pex.AddrBook.Adding.{add_address-IsConsistent}
use btm_stats.P2p.Pex.AddrBook.Reached.{Reach, here, next, added, marked_good, Reach-IsConsistent}
use btm_stats.P2p.Pex.AddrBook.Aging.{Promoted}
use btm_stats.P2p.Pex.AddrBook.Promoting.{mark_good-promotes}
use btm_stats.P2p.Pex.AddrBook.Selection.{get_selection, get_selection-returns}
use btm_stats.P2p.Pex.AddrBook.Pick.{PickDraws, pick_address}
use btm_stats.P2p.Pex.AddrBook.PickEnds.{type_of, pick_address-ends}

-- Addresses are numbers, and a range goes through a map in its order.
abbrev pub net : Addressing ℕ ℕ
net = record {
  string_of = λ a. a;
  routable = λ a. true;
  calc_new_bucket = λ a s. 7;
  calc_old_bucket = λ a. 9;
  new_in_range = λ a s. omega arith;
  old_in_range = λ a. omega arith;
}

abbrev pub draws : Draws ℕ
draws = record { now = 100; int31n = λ n. 0; order_bad = λ m. m; order_oldest = λ m. m }

-- A range that goes through a map in its order visits its entries.
All-later :
    (k p : ℕ) (es m : List (ℕ × ℕ))
    → find ℕ_discrete k m ≡ none
    → All (λ e. find ℕ_discrete e.0 m ≡ some e.1) es
    → All (λ e. find ℕ_discrete e.0 ((k, p) ∷ m) ≡ some e.1) es
All-later k p [] m n a = tt
All-later k p ((j, q) ∷ es) m n (e, a) =
    (find-later ℕ_discrete k j p q m n e, All-later k p es m n a)

in_order : (m : List (ℕ × ℕ)) → Unique ℕ_discrete m → All (λ e. find ℕ_discrete e.0 m ≡ some e.1) m
in_order [] u = tt
in_order ((k, p) ∷ m) (n, u) =
    (find-here ℕ_discrete k k p m refl, All-later k p m m n (in_order m u))

pub in_order-IsRange : IsRange ℕ_discrete (λ m. m)
in_order-IsRange = record { visits = in_order; some_entry = λ m h. h }

pub draws-IsFair : IsFair ℕ_discrete draws
draws-IsFair = record { bad = in_order-IsRange; oldest = in_order-IsRange }

abbrev pub free : KnownAddress ℕ
free = new_known_address 0 0 0

abbrev pub empty_book : AddrBook ℕ ℕ
empty_book = new_addr_book free

-- the book with the address 5, which 6 gave
abbrev pub first_book : AddrBook ℕ ℕ
first_book =
    place ℕ_discrete net bucket_type_new 0 7
      (record (write 0 (new_known_address 5 6 100) empty_book) { next = 1 })

first_add :
    add_address ℕ_discrete net true draws (some 5) (some 6) empty_book ≡ some (none, first_book)
unfolding add_address add_to_new_bucket new_known_address
first_add = refl

pub first-Reach : Reach ℕ_discrete net free first_book
first-Reach = next here (added true draws (some 5) (some 6) none draws-IsFair first_add)

Reach-IsConsistent_example :
    IsConsistent ℕ_discrete net (mark_good_address ℕ_discrete net 200 5 first_book)
Reach-IsConsistent_example =
    Reach-IsConsistent ℕ_discrete net free (mark_good_address ℕ_discrete net 200 5 first_book)
      (next first-Reach (marked_good 200 5 refl))

add_address-IsConsistent_example :
    (r : Option Error × AddrBook ℕ ℕ) × (add_address ℕ_discrete net true draws
        (some 8)
        (some 6)
        first_book
      ≡ some r)
    × IsConsistent ℕ_discrete net r.1
add_address-IsConsistent_example =
    add_address-IsConsistent ℕ_discrete net draws draws-IsFair true (some 8) (some 6) first_book
      (Reach-IsConsistent ℕ_discrete net free first_book first-Reach)

first_found : find ℕ_discrete 5 first_book.addr_lookup ≡ some 0
unfolding place add_bucket_ref new_known_address ℕ_discrete
first_found = refl

first_new : is_new (first_book.heap 0) ≡ true
unfolding place add_bucket_ref new_known_address ℕ_discrete
first_new = refl

first_index : (first_book.heap 0).addr ≡ 5
unfolding place add_bucket_ref new_known_address ℕ_discrete
first_index = refl

mark_good-promotes_example :
    Promoted ℕ_discrete net 5 0
      (net.calc_old_bucket (first_book.heap 0).addr)
      (mark_good_address ℕ_discrete net 200 5 first_book)
mark_good-promotes_example =
    mark_good-promotes ℕ_discrete net 200 5 first_book
      (Reach-IsConsistent ℕ_discrete net free first_book first-Reach) 0 first_found first_new

get_selection-returns_example :
    (xs rest : List ℕ) × (get_selection (λ m. m) (λ k m. 0) first_book ≡ some xs)
    × Perm (xs ++ rest) (map (λ e. (first_book.heap e.1).addr) first_book.addr_lookup)
    × (length xs ≡ (
        if ltb (length first_book.addr_lookup) 32
        then length first_book.addr_lookup
        else if ltb (length first_book.addr_lookup) 140
        then 32
        else if ltb (length first_book.addr_lookup) 1087
        then length first_book.addr_lookup * 23 / 100
        else 250))
unfolding place add_bucket_ref new_known_address ℕ_discrete
get_selection-returns_example =
    get_selection-returns ℕ_discrete net (λ m. m) (λ k m. 0) first_book
      (Reach-IsConsistent ℕ_discrete net free first_book first-Reach) (omega arith)
      (Perm.refl first_book.addr_lookup) (λ k m h. h)

abbrev pick_draws : PickDraws ℕ
pick_draws = record {
  prefers_old = λ o n bias. false;
  bucket_index = λ r. r;
  rand_index = λ n. 0;
  order = λ m. m;
}

pick_address-ends_example :
    (fuel : ℕ) × (k : ℕ) × (p : ℕ) × (find ℕ_discrete k first_book.addr_lookup ≡ some p)
    × ((first_book.heap p).bucket_type ≡ type_of false)
    × (pick_address fuel pick_draws 50 first_book ≡ some (some (first_book.heap p).addr))
unfolding place add_bucket_ref new_known_address ℕ_discrete
pick_address-ends_example =
    pick_address-ends ℕ_discrete net pick_draws first_book
      (Reach-IsConsistent ℕ_discrete net free first_book first-Reach) 50 false refl (omega arith)
      (omega arith) (λ i h. (i, refl)) in_order (λ m. refl) (λ n h. h)

-- 172.31.0.1, as net.ParseIP gives it.
routable_v4_example :
    routable (record { ip = v4_in_v6_prefix ++ (172 ∷ 31 ∷ 0 ∷ 1 ∷ []); port = 80; str = [] })
    ≡ false
routable_v4_example =
    routable_v4 172 31 0 1 80 [] (omega arith) (omega arith) (omega arith) (omega arith) true

-- Texts and hashes that keep their bytes.
abbrev slash : Ip → ℕ → List ℕ
slash ip ones = ones ∷ ip

abbrev alpha : NetAddress
alpha = record { ip = 1 ∷ 2 ∷ 3 ∷ 4 ∷ []; port = 80; str = [] }

abbrev beta : NetAddress
beta = record { ip = 1 ∷ 2 ∷ 3 ∷ 5 ∷ []; port = 80; str = [] }

group_key-inj_example : to4 alpha.ip ≡ to4 (record alpha { port = 81 }).ip
unfolding to4 group_key local routable valid
group_key-inj_example =
    group_key-inj slash (λ b. b) true alpha (record alpha { port = 81 }) (λ x y k l e. cc e)
      (routable_v4 1 2 3 4 80 [] (omega arith) (omega arith) (omega arith) (omega arith) false)
      (routable_v4 1 2 3 4 81 [] (omega arith) (omega arith) (omega arith) (omega arith) false) refl
      refl refl
