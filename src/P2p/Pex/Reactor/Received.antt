-- ===== src/P2p/Pex/Reactor/Received.antt =====
-- What Receive of p2p/pex/pex_reactor.go does to the address book, and when it does nothing.
use btm_stats.Base.{
  ℕ, suc, ◌+◌, ◌%◌, ◌^◌, ◌<◌, ◌≤◌, ◌≡◌, refl, ap, ◌∙◌, inl, inr, ◌⊎◌, Bool, true, false, Option,
  none, some, List, [], ◌∷◌, length, leb, arith, find, find-put_same, Bool-cases, length-append,
  if◌then◌else◌,
}
use btm_stats.Errors.{Error}
use btm_stats.P2p.Pex.AddrBook.{Addressing, AddrBook}
use btm_stats.P2p.Pex.AddrBook.Consistent.{IsConsistent}
use btm_stats.P2p.Pex.AddrBook.Expiring.{IsFair, IsRange}
use btm_stats.P2p.Pex.AddrBook.Adding.{add_address-IsConsistent}
use btm_stats.P2p.Pex.AddrBook.Selection.{get_selection_lem}
use btm_stats.P2p.Pex.Reactor.{
  PexMessage, pex_request, pex_addrs, unknown, Outside, PexReactor, count_of, increment_msg_count,
  reached_max_msg_limit, stop_peer, send_addrs, after_add, add_all, from_source, handled,
  decode_message, receive,
}

module _ {A Key Peer : Type 0} (same : Discrete Key) (net : Addressing A Key)
    (same_peer : Discrete Peer) (strict : Bool) where
  -- What Go promises of a range and of Intn.
  pub record IsSound (o : Outside A Key) : Type 0 where
    pub fair : (i : ℕ) → IsFair same (o.draws i)
    pub visits : IsRange same o.order
    pub same_length : (m : List (Key × ℕ)) → length (o.order m) ≡ length m
    pub below : (k m : ℕ) → 0 < m → o.intn k m < m

  -- A call that returns, and leaves a consistent book.
  abbrev pub Keeps : Option (PexReactor A Key Peer) → Type 0
  Keeps x = (r : PexReactor A Key Peer) × (x ≡ some r) × IsConsistent same net r.book

  after_add-Keeps :
      (p : Peer) (x : Option (Option Error × AddrBook A Key)) (error : Option Error)
      (book : AddrBook A Key) (r : PexReactor A Key Peer)
      (rest : PexReactor A Key Peer → Option (PexReactor A Key Peer))
      → x ≡ some (error, book)
      → IsConsistent same net book
      → ((r' : PexReactor A Key Peer) → IsConsistent same net r'.book → Keeps (rest r'))
      → Keeps (after_add same net same_peer strict p x r rest)
  after_add-Keeps p x (some e) book r rest q v k =
      rw q (stop_peer same net same_peer strict p (record r { book = book }), refl, v)
  after_add-Keeps p x none book r rest q v k = rw q (k (record r { book = book }) v)

  module _ (o : Outside A Key) (sound : IsSound o) (p : Peer) where
    add_all-Keeps :
        (i : ℕ) (src : A) (addrs : List (Option A)) (r : PexReactor A Key Peer)
        → IsConsistent same net r.book
        → Keeps (add_all same net same_peer strict o.draws i p src addrs r)
    unfolding add_all
    add_all-Keeps i src [] r v = (r, refl, v)
    add_all-Keeps i src (addr ∷ addrs) r v =
        let ((error, book), e, w) =
          add_address-IsConsistent same net (o.draws i) (sound.fair i) strict addr (some src) r.book
            v in
        after_add-Keeps p _ error book r _ e w (λ r' v'. add_all-Keeps (suc i) src addrs r' v')

    send_addrs-Keeps :
        (ok : Bool) (addrs : List A) (r : PexReactor A Key Peer)
        → IsConsistent same net r.book
        → Keeps (send_addrs same net same_peer strict ok p (some addrs) r)
    send_addrs-Keeps true addrs r v = (_, refl, v)
    send_addrs-Keeps false addrs r v = (_, refl, v)

    from_source-Keeps :
        (src : Error ⊎ A) (addrs : List (Option A)) (r : PexReactor A Key Peer)
        → IsConsistent same net r.book
        → Keeps (from_source same net same_peer strict o p src addrs r)
    from_source-Keeps (inl e) addrs r v = (r, refl, v)
    from_source-Keeps (inr src) addrs r v = add_all-Keeps 0 src addrs r v

    handled-Keeps :
        (m : Error ⊎ PexMessage A) (r : PexReactor A Key Peer)
        → IsConsistent same net r.book
        → length r.book.addr_lookup < 2 ^ 58
        → Keeps (handled same net same_peer strict o p m r)
    handled-Keeps (inl e) r v h = (stop_peer same net same_peer strict p r, refl, v)
    handled-Keeps (inr pex_request) r v h =
        let (addrs, rest, e, n, p) =
          get_selection_lem same net o.order o.intn r.book v h (sound.same_length _) sound.below in
        rw e (send_addrs-Keeps o.sends addrs r v)
    handled-Keeps (inr (pex_addrs addrs)) r v h = from_source-Keeps o.src_addr addrs r v
    handled-Keeps (inr unknown) r v h = (r, refl, v)

    -- Receive of a message that is not empty, on a consistent book of fewer than 2^58 addresses, returns
    -- without a panic, whatever the message holds, and leaves a consistent book.
    pub receive-IsConsistent :
        (b : ℕ) (bz : List ℕ) (r : PexReactor A Key Peer)
        → IsConsistent same net r.book
        → length r.book.addr_lookup < 2 ^ 58
        → Keeps (receive same net same_peer strict o p (b ∷ bz) r)
    unfolding receive increment_msg_count
    receive-IsConsistent b bz r v h =
        elim (Bool-cases (
          reached_max_msg_limit same net same_peer strict p
            (increment_msg_count same net same_peer strict p r))) [
              | inl full ↦ rw full (_, refl, v)
              | inr few ↦ rw few (
                  handled-Keeps (o.read_binary b bz)
                    (increment_msg_count same net same_peer strict p r) v h)
            ]

  -- Messages of one peer, one after the other.
  pub receive_all :
      Peer → List (Outside A Key × List ℕ) → PexReactor A Key Peer → Option (PexReactor A Key Peer)
  receive_all p [] r = some r
  receive_all p ((o, raw_msg) ∷ ms) r = elim (receive same net same_peer strict o p raw_msg r) [
    | none ↦ none
    | some r' ↦ receive_all p ms r'
  ]

  receive-over :
      (o : Outside A Key) (p : Peer) (raw_msg : List ℕ) (r : PexReactor A Key Peer) (n : ℕ)
      → find same_peer p r.msg_count_by_peer ≡ some n
      → 999 ≤ n
      → n + 1 < 2 ^ 16
      → (r' : PexReactor A Key Peer) × (receive same net same_peer strict o p raw_msg r ≡ some r')
        × (find same_peer p r'.msg_count_by_peer ≡ some (n + 1))
        × (r'.book ≡ r.book)
        × (r'.sent ≡ r.sent)
        × (length r'.stopped ≡ length r.stopped + 1)
  unfolding receive increment_msg_count reached_max_msg_limit
  receive-over o p raw_msg r n e few less =
      let counted = increment_msg_count same net same_peer strict p r in
      let next : (count_of same net same_peer strict (find same_peer p r.msg_count_by_peer) + 1)
            % 2 ^ 16
          ≡ n + 1 =
        rw e (omega arith) in
      let found : find same_peer p counted.msg_count_by_peer ≡ some (n + 1) =
        find-put_same same_peer p _ r.msg_count_by_peer ∙ ap some next in
      let enough : leb 1000 (n + 1) ≡ true = ground arith in
      let full : reached_max_msg_limit same net same_peer strict p counted ≡ true =
        ap (λ c. leb 1000 (count_of same net same_peer strict c)) found ∙ enough in
      (
        stop_peer same net same_peer strict p counted,
        ap
            (λ t.
              if t
              then some (stop_peer same net same_peer strict p counted)
              else decode_message same net same_peer strict o p raw_msg counted)
            full,
        found,
        refl,
        refl,
        length-append r.stopped (p ∷ []),
      )

  -- After 999 messages of a peer since the counts were flushed, its further messages, empty ones too,
  -- change neither the book nor what was sent, and each has the switch stop the peer: as long as the
  -- count does not leave its 16 bits.
  pub receive_all-limited :
      (p : Peer) (ms : List (Outside A Key × List ℕ)) (r : PexReactor A Key Peer) (n : ℕ)
      → find same_peer p r.msg_count_by_peer ≡ some n
      → 999 ≤ n
      → n + length ms < 2 ^ 16
      → (r' : PexReactor A Key Peer) × (receive_all p ms r ≡ some r')
        × (r'.book ≡ r.book)
        × (r'.sent ≡ r.sent)
        × (length r'.stopped ≡ length r.stopped + length ms)
  unfolding receive_all
  receive_all-limited p [] r n e few less = (r, refl, refl, refl, omega arith)
  receive_all-limited p ((o, raw_msg) ∷ ms) r n e few less =
      let (r', f, found, book, sent, stopped) =
        receive-over o p raw_msg r n e few (omega (arith, less)) in
      let (r'', g, book', sent', stopped') =
        receive_all-limited p ms r' (n + 1) found (omega (arith, few)) (omega (arith, less)) in
      (
        r'',
        ap (λ x. elim x [ none ↦ none | some y ↦ receive_all p ms y ]) f ∙ g,
        book' ∙ book,
        sent' ∙ sent,
        omega (arith, stopped, stopped'),
      )
