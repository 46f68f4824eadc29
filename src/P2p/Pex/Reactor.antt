-- ===== src/P2p/Pex/Reactor.antt =====
-- p2p/pex/pex_reactor.go: what the reactor does with a message, and its count of messages by peer.
pub mod Received
use btm_stats.Base.{
  ℕ, zero, suc, ◌+◌, ◌%◌, ◌^◌, Bool, true, false, Option, none, some, List, [], ◌∷◌, ◌++◌, leb,
  if◌then◌else◌, ◌⊎◌, inl, inr, find, put,
}
use btm_stats.Errors.{Error}
use btm_stats.P2p.Pex.AddrBook.{Addressing, Draws, AddrBook}
use btm_stats.P2p.Pex.AddrBook.Calls.{add_address}
use btm_stats.P2p.Pex.AddrBook.Selection.{get_selection}

abbrev default_max_msg_count_by_peer : ℕ
default_max_msg_count_by_peer = 1000

-- PexMessage: a request, addresses, where a nil pointer is `none`, or another value
pub data PexMessage (A : Type 0) : Type 0 where
  pex_request : PexMessage A
  pex_addrs : List (Option A) → PexMessage A
  unknown : PexMessage A

-- What comes from outside during one call: go-wire's ReadBinary of a message that is not empty,
-- NewNetAddressString of the peer's address, whether TrySend takes the answer, the draws of each
-- AddAddress by its place, and those of GetSelection.
pub record Outside (A Key : Type 0) : Type 0 where
  pub read_binary : ℕ → List ℕ → Error ⊎ PexMessage A
  pub src_addr : Error ⊎ A
  pub sends : Bool
  pub draws : ℕ → Draws Key
  pub order : List (Key × ℕ) → List (Key × ℕ)
  pub intn : ℕ → ℕ → ℕ

-- PEXReactor, with the peers that it had the switch stop and the addresses that it sent; a peer is
-- its RemoteAddr
pub record PexReactor (A Key Peer : Type 0) : Type 0 where
  pub book : AddrBook A Key
  pub msg_count_by_peer : List (Peer × ℕ)
  pub stopped : List Peer
  pub sent : List (Peer × List A)

module _ {A Key Peer : Type 0} (same : Discrete Key) (net : Addressing A Key)
    (same_peer : Discrete Peer) (strict : Bool) where
  abbrev count_of : Option ℕ → ℕ
  count_of none = 0
  count_of (some count) = count

  -- incrementMsgCount; the count is a uint16
  unfoldable pub increment_msg_count : Peer → PexReactor A Key Peer → PexReactor A Key Peer
  increment_msg_count p r =
      let count = count_of (find same_peer p r.msg_count_by_peer) in
      record r { msg_count_by_peer = put same_peer p ((count + 1) % 2 ^ 16) r.msg_count_by_peer }

  -- reachedMaxMsgLimit, after an increment
  unfoldable pub reached_max_msg_limit : Peer → PexReactor A Key Peer → Bool
  reached_max_msg_limit p r =
      leb default_max_msg_count_by_peer (count_of (find same_peer p r.msg_count_by_peer))

  -- flushMsgCountByPeer, when the ticker fires
  unfoldable flush_msg_count : PexReactor A Key Peer → PexReactor A Key Peer
  flush_msg_count r = record r { msg_count_by_peer = [] }

  abbrev pub stop_peer : Peer → PexReactor A Key Peer → PexReactor A Key Peer
  stop_peer p r = record r { stopped = r.stopped ++ (p ∷ []) }

  -- SendAddrs of a selection; `none` is a panic of GetSelection
  abbrev pub send_addrs :
      Bool → Peer → Option (List A) → PexReactor A Key Peer → Option (PexReactor A Key Peer)
  send_addrs ok p none r = none
  send_addrs ok p (some addrs) r =
      some (if ok then record r { sent = r.sent ++ ((p, addrs) ∷ []) } else stop_peer p r)

  -- the loop over the addresses of a message, which ends at the first error
  abbrev pub after_add :
      Peer
      → Option (Option Error × AddrBook A Key)
      → PexReactor A Key Peer
      → (PexReactor A Key Peer → Option (PexReactor A Key Peer))
      → Option (PexReactor A Key Peer)
  after_add p none r rest = none
  after_add p (some (some e, book)) r rest = some (stop_peer p (record r { book = book }))
  after_add p (some (none, book)) r rest = rest (record r { book = book })

  unfoldable pub add_all :
      (ℕ → Draws Key)
      → ℕ
      → Peer
      → A
      → List (Option A)
      → PexReactor A Key Peer
      → Option (PexReactor A Key Peer)
  add_all draws i p src [] r = some r
  add_all draws i p src (addr ∷ addrs) r =
      after_add p (add_address same net strict (draws i) addr (some src) r.book) r
        (add_all draws (suc i) p src addrs)

  -- Receive, from its end; `none` is a panic
  abbrev pub from_source :
      Outside A Key
      → Peer
      → Error ⊎ A
      → List (Option A)
      → PexReactor A Key Peer
      → Option (PexReactor A Key Peer)
  from_source o p (inl e) addrs r = some r
  from_source o p (inr src) addrs r = add_all o.draws 0 p src addrs r

  abbrev pub handled :
      Outside A Key
      → Peer
      → Error ⊎ PexMessage A
      → PexReactor A Key Peer
      → Option (PexReactor A Key Peer)
  handled o p (inl e) r = some (stop_peer p r)
  handled o p (inr pex_request) r = send_addrs o.sends p (get_selection o.order o.intn r.book) r
  handled o p (inr (pex_addrs addrs)) r = from_source o p o.src_addr addrs r
  handled o p (inr unknown) r = some r

  -- DecodeMessage reads the first byte, which an empty message has not
  abbrev pub decode_message :
      Outside A Key → Peer → List ℕ → PexReactor A Key Peer → Option (PexReactor A Key Peer)
  decode_message o p [] r = none
  decode_message o p (b ∷ bz) r = handled o p (o.read_binary b bz) r

  unfoldable pub receive :
      Outside A Key → Peer → List ℕ → PexReactor A Key Peer → Option (PexReactor A Key Peer)
  receive o p raw_msg r =
      let counted = increment_msg_count p r in
      if reached_max_msg_limit p counted
      then some (stop_peer p counted)
      else decode_message o p raw_msg counted
