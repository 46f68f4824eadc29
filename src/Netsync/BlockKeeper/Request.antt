-- ===== src/Netsync/BlockKeeper/Request.antt =====
-- What a request for a block can return.
use btm_stats.Base.{
  ℕ, ◌≡◌, ◌≢◌, refl, ◌∙◌, Option, none, some, List, [], ◌∷◌, ◌++◌, arith, All, if_decided-yes,
  if_decided-no,
}
use btm_stats.Errors.{Error}
use btm_stats.Encoding.Reader.{Result, ok, err}
use btm_stats.Netsync.BlockKeeper.{
  Event, response, retry, timeout, quit, on_event, wait, block_request, err_req_block,
  err_get_block_timeout, err_peer_dropped,
}

module _ {Peer Block : Type 0} (same : Discrete Peer) (height : Block → ℕ) (peer : Peer)
    (h : ℕ) where
  -- Events that the loop passes over: blocks of other peers or heights, retries that are sent, and
  -- other peers that are dropped.
  pub data Passed : Event same height → Type 0 where
    other_peer : (from : Peer) (b : Block) → from ≢ peer → Passed (response from b)
    other_height : (b : Block) → height b ≢ h → Passed (response peer b)
    retried : Passed (retry none)
    other_quit : (from : Peer) → from ≢ peer → Passed (quit from)

  -- Events that end the loop, and its result.
  pub data Ends : Event same height → Result Block → Type 0 where
    answered : (b : Block) → height b ≡ h → Ends (response peer b) (ok b)
    retry_failed : (e : Error) → Ends (retry (some e)) (err err_req_block)
    waited : Ends timeout (err err_get_block_timeout)
    dropped : Ends (quit peer) (err err_peer_dropped)

  on_event-Passed :
      (e : Event same height) (more : Option (Result Block))
      → Passed e
      → on_event same height peer h more e ≡ more
  on_event-Passed e more (other_peer from b n) = if_decided-no (same from peer) _ more n
  on_event-Passed e more (other_height b n) =
      if_decided-yes (same peer peer) _ more refl ∙ ground arith
  on_event-Passed e more retried = refl
  on_event-Passed e more (other_quit from n) = if_decided-no (same from peer) _ more n

  on_event-Ends :
      (e : Event same height) (more : Option (Result Block)) (r : Result Block)
      → Ends e r
      → on_event same height peer h more e ≡ some r
  on_event-Ends e more r (answered b q) = if_decided-yes (same peer peer) _ more refl ∙ ground arith
  on_event-Ends e more r (retry_failed x) = refl
  on_event-Ends e more r waited = refl
  on_event-Ends e more r dropped = if_decided-yes (same peer peer) _ more refl

  -- A request that is sent ends at the first event that it does not pass over: with the block,
  -- where that is the peer's answer with a block of the height, and with the error of the event
  -- else.
  pub block_request-Ends :
      (before after : List (Event same height)) (e : Event same height) (r : Result Block)
      → All Passed before
      → Ends e r
      → block_request same height peer h none (before ++ (e ∷ after)) ≡ some r
  unfolding block_request wait
  block_request-Ends [] after e r hs p = on_event-Ends e (wait same height peer h after) r p
  block_request-Ends (x ∷ before) after e r (hx, hs) p =
      on_event-Passed x _ hx ∙ block_request-Ends before after e r hs p
