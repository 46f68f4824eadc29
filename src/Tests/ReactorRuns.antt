-- ===== src/Tests/ReactorRuns.antt =====
-- Runs of the reactor of p2p/pex.
use btm_stats.Base.{
  ◌≡◌, refl, ℕ, ◌+◌, arith, none, some, List, [], ◌∷◌, length, if◌then◌else◌, ◌==◌, inr, true,
  ℕ_discrete,
}
use btm_stats.P2p.Pex.AddrBook.{AddrBook, place}
use btm_stats.P2p.Pex.AddrBook.Reached.{Reach-IsConsistent}
use btm_stats.P2p.Pex.AddrBook.Calls.{add_address, add_to_new_bucket}
use btm_stats.P2p.Pex.KnownAddress.{new_known_address, add_bucket_ref}
use btm_stats.P2p.Pex.Reactor.{
  PexMessage, pex_request, pex_addrs, unknown, Outside, PexReactor, receive, increment_msg_count,
  reached_max_msg_limit, add_all,
}
use btm_stats.P2p.Pex.Reactor.Received.{
  IsSound, Keeps, receive-IsConsistent, receive_all, receive_all-limited,
}
use btm_stats.Tests.PexRuns.{
  net, draws, draws-IsFair, free, empty_book, first_book, first-Reach, in_order-IsRange,
}

-- A message of type 1 is a request, one of type 2 an address.
abbrev message_of : ℕ → List ℕ → PexMessage ℕ
message_of b [] = if b == 1 then pex_request else unknown
message_of b (a ∷ bz) = pex_addrs (some a ∷ [])

abbrev outside : Outside ℕ ℕ
outside = record {
  read_binary = λ b bz. inr (message_of b bz);
  src_addr = inr 6;
  sends = true;
  draws = λ i. draws;
  order = λ m. m;
  intn = λ k m. 0;
}

outside-IsSound : IsSound ℕ_discrete net ℕ_discrete true outside
outside-IsSound = record {
  fair = λ i. draws-IsFair;
  visits = in_order-IsRange;
  same_length = λ m. refl;
  below = λ k m h. h;
}

abbrev reactor : AddrBook ℕ ℕ → List (ℕ × ℕ) → PexReactor ℕ ℕ ℕ
reactor book counts = record { book = book; msg_count_by_peer = counts; stopped = []; sent = [] }

-- The first message of a peer brings an address; an empty one is a panic.
first_messages :
    (receive ℕ_discrete net ℕ_discrete true outside 8 (2 ∷ 5 ∷ []) (reactor empty_book [])
      ≡ some (reactor first_book ((8, 1) ∷ [])))
    × (receive ℕ_discrete net ℕ_discrete true outside 8 [] (reactor empty_book []) ≡ none)
unfolding receive increment_msg_count reached_max_msg_limit add_all add_address add_to_new_bucket
    new_known_address ℕ_discrete
first_messages = (refl, refl)

receive-IsConsistent_example :
    Keeps ℕ_discrete net ℕ_discrete true
      (receive ℕ_discrete net ℕ_discrete true outside 8 (1 ∷ []) (reactor first_book []))
unfolding place add_bucket_ref new_known_address
receive-IsConsistent_example =
    receive-IsConsistent ℕ_discrete net ℕ_discrete true outside outside-IsSound 8 1 []
      (reactor first_book []) (Reach-IsConsistent ℕ_discrete net free first_book first-Reach)
      (omega arith)

receive_all-limited_example :
    (r : PexReactor ℕ ℕ ℕ) × (receive_all ℕ_discrete net ℕ_discrete true 8
        ((outside, 2 ∷ 5 ∷ []) ∷ (outside, []) ∷ [])
        (reactor empty_book ((8, 999) ∷ []))
      ≡ some r)
    × (r.book ≡ empty_book)
    × (r.sent ≡ [])
    × (length r.stopped ≡ length {A = ℕ} [] + 2)
unfolding ℕ_discrete
receive_all-limited_example =
    receive_all-limited ℕ_discrete net ℕ_discrete true 8
      ((outside, 2 ∷ 5 ∷ []) ∷ (outside, []) ∷ []) (reactor empty_book ((8, 999) ∷ [])) 999 refl
      (omega arith) (omega arith)
