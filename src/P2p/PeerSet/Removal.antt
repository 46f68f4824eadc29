-- ===== src/P2p/PeerSet/Removal.antt =====
-- Remove keeps the table and the list of a PeerSet in agreement.
use btm_stats.Base.{
  if_decided, ◌+◌, ◌-◌, ◌≡◌, ◌≢◌, ap, ◌∙◌, false, none, some, length, take, ◌==◌, arith,
  get_elem?-some, length-set, length-take, Bool-cases, inl, inr, ==_iff,
}
use btm_stats.P2p.PeerSet.{PeerSetItem, PeerSet, get, remove, removed}
use btm_stats.P2p.PeerSet.Laws.{IsValid}
use btm_stats.P2p.PeerSet.Others.{in_range}
use btm_stats.P2p.PeerSet.Cutting.{cut, cut-IsValid, cut-get}
use btm_stats.P2p.PeerSet.Swapping.{swapped, swapped-IsValid, swapped-get, removed-swapped}

-- Remove of a key that is set, on a valid set, does not panic; it leaves a valid set with one peer
-- less, in which the key is not set and every other key has the peer that it had.
pub remove-IsValid :
    {Key Peer : Type 0} (same : Discrete Key) (key : Peer → Key) (ps : PeerSet same key) (p : Peer)
    (x : PeerSetItem same key)
    → IsValid same key ps
    → ps.lookup (key p) ≡ some x
    → (ps' : PeerSet same key) × (remove same key p ps ≡ some ps')
      × IsValid same key ps'
      × (length ps'.list + 1 ≡ length ps.list)
      × ((k : Key) → get same key k ps' ≡ if_decided (same (key p) k) none (get same key k ps))
unfolding remove
remove-IsValid same key ps p x v here =
    let bound = in_range same key ps v p x here in
    let some_left : (length ps.list == 0) ≡ false = ground arith in
    elim (Bool-cases (x.index == length ps.list - 1)) [
      | inl q ↦
          let last = (==_iff _ _).0 q in
          (
            cut same key ps v p x here last,
            rw (here, some_left, q),
            cut-IsValid same key ps v p x here last,
            omega (arith, length-take (length ps.list - 1) ps.list, bound),
            cut-get same key ps v p x here last,
          )
      | inr q ↦
          let inner : x.index ≢ length ps.list - 1 = ground arith in
          let (l, tail) = get_elem?-some ps.list (length ps.list - 1) (omega (arith, bound)) in
          (
            swapped same key ps v p x here l tail inner,
            ap (λ o. removed same key o p ps) here
                ∙ removed-swapped same key ps v p x here l tail inner,
            swapped-IsValid same key ps v p x here l tail inner,
            omega (
              arith,
              length-set (take (length ps.list - 1) ps.list) x.index l,
              length-take (length ps.list - 1) ps.list,
              bound,
            ),
            swapped-get same key ps v p x here l tail inner,
          )
    ]
