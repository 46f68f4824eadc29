-- ===== src/P2p/PeerSet.antt =====
-- p2p/peer_set.go: a table of peers by their key, with a list of them. A map is a function, since the
-- source never ranges over it.
pub mod Laws
pub mod Others
pub mod Cutting
pub mod Swapping
pub mod Removal
pub mod Calls
use btm_stats.Base.{
  if_decided, ℕ, ◌-◌, Bool, true, false, Option, none, some, List, [], ◌∷◌, ◌++◌, length, take,
  get_elem?, set, ltb, ◌==◌, if◌then◌else◌,
}
use btm_stats.Errors.{Error, other}

-- ErrDuplicatePeer
abbrev pub duplicate_peer : Error
duplicate_peer = other "Duplicate peer"

-- Keys, peers, and the key of a peer.
module _ {Key Peer : Type 0} (same : Discrete Key) (key : Peer → Key) where
  pub record PeerSetItem : Type 0 where
    pub peer : Peer
    pub index : ℕ

  pub record PeerSet : Type 0 where
    pub lookup : Key → Option PeerSetItem
    pub list : List Peer

  -- a map with another value, or none, at one key
  abbrev pub assign :
      Key → Option PeerSetItem → (Key → Option PeerSetItem) → Key → Option PeerSetItem
  assign k v f x = if_decided (same k x) v (f x)

  -- NewPeerSet
  abbrev pub new_peer_set : PeerSet
  new_peer_set = record { lookup = λ k. none; list = [] }

  -- Add
  abbrev pub added : Option PeerSetItem → Peer → PeerSet → Option Error × PeerSet
  added (some item) peer ps = (some duplicate_peer, ps)
  added none peer ps =
      let index = length ps.list in
      (
        none,
        record {
          lookup = assign (key peer) (some (record { peer = peer; index = index })) ps.lookup;
          list = ps.list ++ (peer ∷ []);
        },
      )

  unfoldable pub add : Peer → PeerSet → Option Error × PeerSet
  add peer ps = added (ps.lookup (key peer)) peer ps

  -- Has
  abbrev pub is_set : Option PeerSetItem → Bool
  is_set none = false
  is_set (some item) = true

  unfoldable pub has : Key → PeerSet → Bool
  has k ps = is_set (ps.lookup k)

  -- Get
  abbrev pub peer_of : Option PeerSetItem → Option Peer
  peer_of none = none
  peer_of (some item) = some item.peer

  unfoldable pub get : Key → PeerSet → Option Peer
  get k ps = peer_of (ps.lookup k)

  -- the end of Remove, where the last peer, with its item, moves to the index of the removed one;
  -- `none` is a panic
  abbrev pub placed : Peer → ℕ → List Peer → Peer → Option PeerSetItem → PeerSet → Option PeerSet
  placed peer index new_list last none ps = none
  placed peer index new_list last (some last_item) ps =
      if ltb index (length new_list)
      then some (record {
        lookup =
            assign (key peer) none
              (assign (key last) (some (record last_item { index = index })) ps.lookup);
        list = set new_list index last;
      })
      else none

  abbrev pub moved : Peer → ℕ → List Peer → Option Peer → PeerSet → Option PeerSet
  moved peer index new_list none ps = none
  moved peer index new_list (some last) ps =
      placed peer index new_list last (ps.lookup (key last)) ps

  -- Remove, of a peer with the given item
  abbrev pub removed : Option PeerSetItem → Peer → PeerSet → Option PeerSet
  removed none peer ps = some ps
  removed (some item) peer ps =
      let new_list = take (length ps.list - 1) ps.list in
      let last = moved peer item.index new_list (get_elem? ps.list (length ps.list - 1)) ps in
      if length ps.list == 0
      then none
      else if item.index == length ps.list - 1
      then some (record { lookup = assign (key peer) none ps.lookup; list = new_list })
      else last

  unfoldable pub remove : Peer → PeerSet → Option PeerSet
  remove peer ps = removed (ps.lookup (key peer)) peer ps

  -- Size, List
  abbrev pub size : PeerSet → ℕ
  size ps = length ps.list
