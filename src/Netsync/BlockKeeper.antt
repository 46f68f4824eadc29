-- ===== src/Netsync/BlockKeeper.antt =====
-- netsync/block_keeper.go: a request for a block of a peer. The cases of its select come as a list of
-- events, in the order in which they are chosen.
pub mod Request
pub mod Worker
use btm_stats.Base.{ℕ, Option, none, some, List, [], ◌∷◌, ◌==◌, if◌then◌else◌, if_decided}
use btm_stats.Errors.{Error, other}
use btm_stats.Encoding.Reader.{Result, ok, err}

-- errReqBlock, errGetBlockTimeout, errPeerDropped
abbrev pub err_req_block : Error
err_req_block = other "Request block error"

abbrev pub err_get_block_timeout : Error
err_get_block_timeout = other "Get block Timeout"

abbrev pub err_peer_dropped : Error
err_peer_dropped = other "Peer dropped"

-- Peers by their IDs, and the height of a block.
module _ {Peer Block : Type 0} (same : Discrete Peer) (height : Block → ℕ) where
  -- A case of the select: a block that a peer sent, the tick for a retry with what blockRequest
  -- returns for it, the end of the wait, and a peer that was dropped.
  pub data Event : Type 0 where
    response : Peer → Block → Event
    retry : Option Error → Event
    timeout : Event
    quit : Peer → Event

  -- one round of the loop, where `more` is the rest of it
  abbrev pub on_event : Peer → ℕ → Option (Result Block) → Event → Option (Result Block)
  on_event peer h more (response from block) =
      let checked = if height block == h then some (ok block) else more in
      if_decided (same from peer) checked more
  on_event peer h more (retry none) = more
  on_event peer h more (retry (some e)) = some (err err_req_block)
  on_event peer h more timeout = some (err err_get_block_timeout)
  on_event peer h more (quit from) = if_decided (same from peer) (some (err err_peer_dropped)) more

  -- the loop of BlockRequest; `none` where it still waits after the events
  unfoldable pub wait : Peer → ℕ → List Event → Option (Result Block)
  wait peer h [] = none
  wait peer h (e ∷ es) = on_event peer h (wait peer h es) e

  -- BlockRequest, with what blockRequest returns first
  unfoldable pub block_request : Peer → ℕ → Option Error → List Event → Option (Result Block)
  block_request peer h (some e) events = some (err err_req_block)
  block_request peer h none events = wait peer h events
