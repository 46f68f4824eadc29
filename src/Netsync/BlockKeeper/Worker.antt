-- ===== src/Netsync/BlockKeeper/Worker.antt =====
-- netsync/block_keeper.go: the synchronisation with a peer. The chain, the peers and the switch, which
-- the worker calls, are an interface over a state of their own.
use btm_stats.Base.{
  ℕ, zero, suc, ◌+◌, ◌-◌, ◌%◌, ◌^◌, ◌≤◌, ◌<◌, ◌≡◌, ap, ◌∙◌, Bool, true, false, ◌&&◌, Option, none,
  some, List, [], ◌∷◌, ltb, leb, if◌then◌else◌, if_decided, arith,
}
use btm_stats.Errors.{Error, other}
use btm_stats.Encoding.Reader.{Result, ok, err}

-- errPeerNotRegister, errGetBlockByHash, errBroadcastStatus
abbrev pub err_peer_not_register : Error
err_peer_not_register = other "peer is not registered"

abbrev pub err_get_block_by_hash : Error
err_get_block_by_hash = other "Get block by hash error"

abbrev pub err_broadcast_status : Error
err_broadcast_status = other "Broadcast new status block error"

-- What the worker calls: BestBlockHeight, BestBlockHash, ProcessBlock and GetBlockByHash of the chain;
-- for the peer, whether it is registered, BlockRequest, addBanScore(20, 0), AddBannedPeer and
-- StopPeerGracefully; and BroadcastNewStatus, with StopPeerGracefully of a peer that it returns.
pub record World (S Block Hash Peer : Type 0) : Type 0 where
  pub best_block_height : S → ℕ
  pub best_block_hash : S → Hash
  pub process_block : Block → S → (Bool × Option Error) × S
  pub get_block_by_hash : Hash → S → Result Block
  pub registered : S → Bool
  pub block_request : ℕ → S → Result Block × S
  pub add_ban_score : S → Bool × S
  pub add_banned_peer : S → S
  pub stop_peer : S → S
  pub broadcast_new_status : Block → S → Result (List (Option Peer)) × S
  pub stop_other : Peer → S → S

module _ {S Block Hash Peer : Type 0} (same : Discrete Hash) (height : Block → ℕ)
    (w : World S Block Hash Peer) where
  -- after a block that the chain refuses
  abbrev pub punished : Bool × S → S
  punished (true, s) = w.stop_peer (w.add_banned_peer s)
  punished (false, s) = s

  -- the end of a round, with what ProcessBlock returned: `next` is the loop with its num, orphanNum
  -- and isOrphan
  abbrev pub processed :
      (ℕ → ℕ → Bool → S → Option S) → ℕ → ℕ → Block → (Bool × Option Error) × S → Option S
  processed next num orphan_num block ((is_orphan, some e), s) = some (punished (w.add_ban_score s))
  processed next num orphan_num block ((true, none), s) =
      next num ((height block + (2 ^ 64 - 1)) % 2 ^ 64) true s
  processed next num orphan_num block ((false, none), s) =
      next ((num + 1) % 2 ^ 64) orphan_num false s

  -- a round, with what BlockRequest returned; each of its errors is one that stops the peer
  abbrev pub requested : (ℕ → ℕ → Bool → S → Option S) → ℕ → ℕ → Result Block × S → Option S
  requested next num orphan_num (err e, s) = some (w.stop_peer s)
  requested next num orphan_num (ok block, s) =
      processed next num orphan_num block (w.process_block block s)

  -- the loop of BlockRequestWorker, with fuel for its rounds
  unfoldable pub sync_loop : ℕ → ℕ → ℕ → ℕ → Bool → S → Option S
  sync_loop zero max num orphan_num is_orphan s = none
  sync_loop (suc fuel) max num orphan_num is_orphan s =
      let round =
        requested (sync_loop fuel max) num orphan_num
          (w.block_request (if is_orphan then orphan_num else num) s) in
      if ltb 0 num && leb num max then round else some s

  -- the loop over the peers that BroadcastNewStatus returned
  abbrev pub stop_all : List (Option Peer) → S → Option Error × S
  stop_all [] s = (none, s)
  stop_all (none ∷ peers) s = (some err_peer_not_register, s)
  stop_all (some p ∷ peers) s = stop_all peers (w.stop_other p s)

  abbrev pub broadcast : Result (List (Option Peer)) × S → Option Error × S
  broadcast (err e, s) = (some err_broadcast_status, s)
  broadcast (ok peers, s) = stop_all peers s

  abbrev pub announced : Result Block → S → Option Error × S
  announced (err e) s = (some err_get_block_by_hash, s)
  announced (ok block) s = broadcast (w.broadcast_new_status block s)

  -- what BlockRequestWorker does after its loop, where the best hash was `current` before it
  abbrev pub finished : Hash → Option S → Option (Option Error × S)
  finished current none = none
  finished current (some s) = some (
      if_decided (same current (w.best_block_hash s)) (none, s)
        (announced (w.get_block_by_hash (w.best_block_hash s) s) s))

  -- BlockRequestWorker; `none` where the fuel ran out
  unfoldable pub block_request_worker : ℕ → ℕ → S → Option (Option Error × S)
  unfolding sync_loop
  block_request_worker fuel max s =
      let whole =
        finished (w.best_block_hash s)
          (sync_loop fuel max ((w.best_block_height s + 1) % 2 ^ 64) 0 false s) in
      if w.registered s then whole else some (some err_peer_not_register, s)

  -- Requests and processes n blocks, from height num on.
  abbrev pub sync_through : (ℕ → Block) → ℕ → ℕ → S → S
  sync_through b zero num s = s
  sync_through b (suc n) num s =
      sync_through b n (num + 1) (w.process_block (b num) (w.block_request num s).1).1

  -- With a peer that serves every height and a chain that accepts what it serves, the loop requests and
  -- processes each height from num to the peer's height once, in order, and ends.
  pub sync_loop-through :
      (b : ℕ → Block)
      → ((k : ℕ) (s : S) → (w.block_request k s).0 ≡ ok (b k))
      → ((k : ℕ) (s : S) → (w.process_block (b k) s).0 ≡ (false, none))
      → (n fuel max num orphan_num : ℕ) (s : S) → 1 ≤ num
      → num + n ≡ max + 1
      → max + 1 < 2 ^ 64
      → n < fuel
      → sync_loop fuel max num orphan_num false s ≡ some (sync_through b n num s)
  unfolding sync_loop
  sync_loop-through b serves accepts zero (suc fuel) max num orphan_num s h e small f = ground arith
  sync_loop-through b serves accepts (suc n) (suc fuel) max num orphan_num s h e small f =
      let got = w.block_request num s in
      let done = w.process_block (b num) got.1 in
      let inside : (ltb 0 num && leb num max) ≡ true = ground arith in
      let next : (num + 1) % 2 ^ 64 ≡ num + 1 = omega arith in
      rw inside (
        ap (λ x. requested (sync_loop fuel max) num orphan_num (x, got.1)) (serves num s)
        ∙ ap (λ x. processed (sync_loop fuel max) num orphan_num (b num) (x, done.1))
            (accepts num got.1)
        ∙ ap (λ k. sync_loop fuel max k orphan_num false done.1) next
        ∙ sync_loop-through b serves accepts n fuel max (num + 1) orphan_num done.1 (omega arith)
            (omega arith) small (omega arith))
  sync_loop-through b serves accepts n zero max num orphan_num s h e small f = absurd (omega arith)
