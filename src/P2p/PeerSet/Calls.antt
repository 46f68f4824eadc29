-- ===== src/P2p/PeerSet/Calls.antt =====
-- Sequences of Add and Remove on a new PeerSet.
use btm_stats.Base.{
  if_decided, if_decided-yes, if_decided-no, ◌+◌, ◌≡◌, refl, sym, ap, ◌∙◌, Option, none, some, List,
  [], ◌∷◌, length, Option-cases, inl, inr, length-append,
}
use btm_stats.P2p.PeerSet.{PeerSet, new_peer_set, add, get, remove, removed, peer_of}
use btm_stats.P2p.PeerSet.Laws.{
  item, IsValid, assign_at, assign_other, grown-IsValid, new_peer_set-IsValid,
}
use btm_stats.P2p.PeerSet.Removal.{remove-IsValid}

-- Add of a key that is not set, on a valid set, gives no error; it leaves a valid set with one peer
-- more, in which the key has the peer and every other key what it had.
pub add-IsValid :
    {Key Peer : Type 0} (same : Discrete Key) (key : Peer → Key) (ps : PeerSet same key) (p : Peer)
    → IsValid same key ps
    → ps.lookup (key p) ≡ none
    → ((add same key p ps).0 ≡ none)
      × IsValid same key (add same key p ps).1
      × (length (add same key p ps).1.list ≡ length ps.list + 1)
      × ((k : Key)
          → get same key k (add same key p ps).1
            ≡ if_decided (same (key p) k) (some p) (get same key k ps))
unfolding add get
add-IsValid same key ps p v fresh = rw fresh (
  refl,
  grown-IsValid same key ps v p fresh,
  length-append ps.list (p ∷ []),
  λ k. elim (same (key p) k) [
    | yes q ↦
        ap (peer_of same key)
          (assign_at same key (key p) k (some (item same key p (length ps.list))) ps.lookup q)
        ∙ sym (if_decided-yes (same (key p) k) (some p) _ q)
    | no n ↦
        ap (peer_of same key)
          (assign_other same key (key p) k (some (item same key p (length ps.list))) ps.lookup n)
        ∙ sym (if_decided-no (same (key p) k) (some p) _ n)
  ],
)

module _ {Key Peer : Type 0} (same : Discrete Key) (key : Peer → Key) where
  pub data PeerCall : Type 0 where
    add_peer remove_peer : Peer → PeerCall

  -- the rest of the calls, after one that may have panicked
  abbrev unless_panic :
      (PeerSet same key → Option (PeerSet same key))
      → Option (PeerSet same key)
      → Option (PeerSet same key)
  unless_panic next none = none
  unless_panic next (some ps) = next ps

  -- calls in turn; `none` is a panic
  unfoldable pub run : List PeerCall → PeerSet same key → Option (PeerSet same key)
  run [] ps = some ps
  run (add_peer p ∷ cs) ps = run cs (add same key p ps).1
  run (remove_peer p ∷ cs) ps = unless_panic (run cs) (remove same key p ps)

  add-keeps :
      (ps : PeerSet same key) (p : Peer)
      → IsValid same key ps
      → IsValid same key (add same key p ps).1
  unfolding add
  add-keeps ps p v = elim (Option-cases (ps.lookup (key p))) [
    | inl e ↦ rw e (grown-IsValid same key ps v p e)
    | inr (x, e) ↦ rw e v
  ]

  remove-keeps :
      (ps : PeerSet same key) (p : Peer)
      → IsValid same key ps
      → (ps' : PeerSet same key) × (remove same key p ps ≡ some ps') × IsValid same key ps'
  remove-keeps ps p v = elim (Option-cases (ps.lookup (key p))) [
    | inl e ↦ (ps, unfold remove in ap (λ o. removed same key o p ps) e, v)
    | inr (x, e) ↦ let (ps', r, w, n, g) = remove-IsValid same key ps p x v e in (ps', r, w)
  ]

  run-keeps :
      (cs : List PeerCall) (ps : PeerSet same key)
      → IsValid same key ps
      → (ps' : PeerSet same key) × (run cs ps ≡ some ps') × IsValid same key ps'
  unfolding run
  run-keeps [] ps v = (ps, refl, v)
  run-keeps (add_peer p ∷ cs) ps v = run-keeps cs (add same key p ps).1 (add-keeps ps p v)
  run-keeps (remove_peer p ∷ cs) ps v =
      let (ps', r, w) = remove-keeps ps p v in
      let (end, e, u) = run-keeps cs ps' w in (end, ap (unless_panic (run cs)) r ∙ e, u)

  -- No sequence of Add and Remove on a new set panics, and the set stays valid.
  pub run-new_peer_set :
      (cs : List PeerCall)
      → (ps : PeerSet same key) × (run cs (new_peer_set same key) ≡ some ps) × IsValid same key ps
  run-new_peer_set cs = run-keeps cs (new_peer_set same key) (new_peer_set-IsValid same key)
