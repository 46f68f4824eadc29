-- ===== src/P2p/Connection/Lanes.antt =====
-- The channels of a connection by their place and their id, and the messages of one id.
use btm_stats.Base.{
  ℕ, suc, ◌+◌, ◌≡◌, ◌⊎◌, inl, inr, refl, sym, ap, ◌∙◌, Bool, true, false, Option, none, some, List,
  [], ◌∷◌, ◌++◌, length, get_elem?, ◌==◌, if◌then◌else◌, arith, Bool-cases, zero, set, ==_iff, ltb,
  ◌≢◌, get_elem?-set, get_elem?-bound,
}
use btm_stats.P2p.Channel.{Channel, MsgPacket, recv_msg_packet}
use btm_stats.P2p.Connection.{Lane, channel_index, or_here}

abbrev pub messages_of : ℕ → List (ℕ × List ℕ) → List (List ℕ)
messages_of id [] = []
messages_of id ((k, m) ∷ ms) = let rest = messages_of id ms in if k == id then m ∷ rest else rest

pub messages_of-append :
    (id : ℕ) (xs : List (ℕ × List ℕ)) (k : ℕ) (m : List ℕ)
    → messages_of id (xs ++ ((k, m) ∷ [])) ≡ messages_of id xs ++ (if k == id then m ∷ [] else [])
messages_of-append id [] k m = ground arith
messages_of-append id ((j, n) ∷ xs) k m = ground (arith, messages_of-append id xs k m)

pub or_here_cases :
    (o : Option ℕ) (b : Bool) (i : ℕ)
    → or_here o b ≡ some i
    → ((j : ℕ) × (o ≡ some j) × (i ≡ suc j)) ⊎ ((i ≡ 0) × (b ≡ true))
or_here_cases (some j) b i e = inl (j, refl, sym (cc e))
or_here_cases none true i e = inr (sym (cc e), refl)
or_here_cases none false i e = absurd (cc)

pub if_nil : (z : Bool) (l : List (List ℕ)) → (if z then [] else []) ++ l ≡ l
if_nil true l = refl
if_nil false l = refl

-- The place of a channel with an id, and what a change of a channel does to places.
pub index_lem :
    (id : ℕ) (ls : List Lane) (i : ℕ)
    → channel_index id ls ≡ some i
    → (l : Lane) × (get_elem? ls i ≡ some l) × (l.channel.id ≡ id)
unfolding channel_index
index_lem id [] i e = absurd (cc)
index_lem id (l ∷ ls) i e = elim (or_here_cases (channel_index id ls) (l.channel.id == id) i e) [
  | inl (j, f, g) ↦ let (k, a, b) = index_lem id ls j f in (k, ap (get_elem? (l ∷ ls)) g ∙ a, b)
  | inr (g, h) ↦ (l, ap (get_elem? (l ∷ ls)) g, (==_iff l.channel.id id).0 h)
]

pub index-set :
    (id : ℕ) (ls : List Lane) (j : ℕ) (l k : Lane)
    → get_elem? ls j ≡ some l
    → k.channel.id ≡ l.channel.id
    → channel_index id (set ls j k) ≡ channel_index id ls
unfolding channel_index
index-set id [] j l k e h = absurd (cc)
index-set id (x ∷ ls) zero l k e h =
    let here : x ≡ l = cc e in
    let same : k.channel.id ≡ x.channel.id = h ∙ ap (λ y. y.channel.id) (sym here) in
    ap (λ n. or_here (channel_index id ls) (n == id)) same
index-set id (x ∷ ls) (suc j) l k e h = rw (index-set id ls j l k e h)

pub recv_keeps_id : (p : MsgPacket) (ch : Channel) → (recv_msg_packet p ch).1.id ≡ ch.id
unfolding recv_msg_packet
recv_keeps_id p ch =
    elim (Bool-cases (ltb ch.desc.recv_message_capacity (length ch.recving + length p.bytes))) [
      | inl e ↦ rw e refl
      | inr e ↦ elim (Bool-cases (p.eof == 1)) [ inl f ↦ rw (e, f) refl | inr f ↦ rw (e, f) refl ]
    ]

-- A place with a change of the channel at another.
pub get_elem?-set_other :
    (ls : List Lane) (i j : ℕ) (l k x : Lane)
    → get_elem? ls j ≡ some l
    → get_elem? ls i ≡ some x
    → i ≢ j
    → get_elem? (set ls j k) i ≡ some x
get_elem?-set_other ls i j l k x e f n =
    let apart : i == j ≡ false = ground arith in
    get_elem?-set ls j k i (get_elem?-bound ls j l e)
    ∙ ap (λ b. if b then some k else get_elem? ls i) apart
    ∙ f

pub get_elem?-set_here :
    (ls : List Lane) (j : ℕ) (l k : Lane)
    → get_elem? ls j ≡ some l
    → get_elem? (set ls j k) j ≡ some k
get_elem?-set_here ls j l k e =
    let here : j == j ≡ true = ground arith in
    get_elem?-set ls j k j (get_elem?-bound ls j l e)
    ∙ ap (λ b. if b then some k else get_elem? ls j) here
