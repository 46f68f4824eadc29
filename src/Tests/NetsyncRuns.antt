-- ===== src/Tests/NetsyncRuns.antt =====
-- Runs of netsync. A block is its height.
use btm_stats.Base.{
  ℕ, ◌≡◌, refl, true, false, none, some, List, [], ◌∷◌, ◌++◌, length, arith, ℕ_discrete,
}
use btm_stats.Encoding.Reader.{ok}
use btm_stats.Netsync.BestPeer.{NetPeer, is_caught_up}
use btm_stats.Netsync.BlockKeeper.{response, retry, timeout, block_request}
use btm_stats.Netsync.BlockKeeper.Request.{
  other_peer, other_height, retried, answered, block_request-Ends,
}
use btm_stats.Netsync.BlockKeeper.Worker.{
  World, sync_loop, sync_through, block_request_worker, sync_loop-through,
}

abbrev height : ℕ → ℕ
height b = b

block_request-Ends_example :
    block_request ℕ_discrete height 1 5 none
      ((response 7 5 ∷ retry none ∷ response 1 4 ∷ []) ++ (response 1 5 ∷ timeout ∷ []))
    ≡ some (ok 5)
block_request-Ends_example =
    block_request-Ends ℕ_discrete height 1 5 (response 7 5 ∷ retry none ∷ response 1 4 ∷ [])
      (timeout ∷ []) (response 1 5) (ok 5)
      (other_peer 7 5 (omega arith), (retried, (other_height 4 (omega arith), tt)))
      (answered 5 refl)

-- A chain of heights and a peer that serves every height.
abbrev world : World (List ℕ) ℕ ℕ ℕ
world = record {
  best_block_height = λ s. length s;
  best_block_hash = λ s. length s;
  process_block = λ b s. ((false, none), s ++ (b ∷ []));
  get_block_by_hash = λ h s. ok h;
  registered = λ s. true;
  block_request = λ k s. (ok k, s);
  add_ban_score = λ s. (false, s);
  add_banned_peer = λ s. s;
  stop_peer = λ s. s;
  broadcast_new_status = λ b s. (ok [], s);
  stop_other = λ p s. s;
}

sync_loop-through_example :
    sync_loop ℕ_discrete height world 5 3 1 0 false []
    ≡ some (sync_through ℕ_discrete height world (λ k. k) 3 1 [])
sync_loop-through_example =
    sync_loop-through ℕ_discrete height world (λ k. k) (λ k s. refl) (λ k s. refl) 3 5 3 1 0 []
      (omega arith) refl (omega arith) (omega arith)

synced : block_request_worker ℕ_discrete height world 5 3 [] ≡ some (none, 1 ∷ 2 ∷ 3 ∷ [])
unfolding block_request_worker sync_loop ℕ_discrete
synced = refl

-- Three connected peers.
abbrev low : NetPeer ℕ
low = record { height = 3; sw_peer = some 1 }

abbrev high : NetPeer ℕ
high = record { height = 7; sw_peer = some 2 }

-- A chain at height 3 is behind, and called caught up; at height 7 it is not.
caught_up : (is_caught_up 3 (low ∷ high ∷ []) ≡ true) × (is_caught_up 7 (low ∷ high ∷ []) ≡ false)
unfolding is_caught_up
caught_up = (refl, refl)
