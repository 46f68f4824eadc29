-- ===== src/P2p/NodeInfo/Compatible.antt =====
-- When two nodes are compatible.
use btm_stats.Base.{ℕ, ◌≡◌, ◌≢◌, ◌↔◌, refl, ap, ◌∙◌, true, none, List, [], ◌∷◌, ◌++◌, arith, All}
use btm_stats.Encoding.Reader.{ok}
use btm_stats.P2p.NodeInfo.{NodeInfo, str_eq, split, split_version, compared, compatible_with}

str_eq→eq : (s t : List ℕ) → str_eq s t ≡ true → s ≡ t
str_eq→eq [] [] h = refl
str_eq→eq [] (y ∷ t) h = absurd (cc)
str_eq→eq (x ∷ s) [] h = absurd (cc)
str_eq→eq (x ∷ s) (y ∷ t) h = ground (arith, str_eq→eq s t)

str_eq_self : (s : List ℕ) → str_eq s s ≡ true
str_eq_self [] = refl
str_eq_self (x ∷ s) = ground (arith, str_eq_self s)

-- A part of a version.
abbrev pub NoDot : List ℕ → Type 0
NoDot s = All (λ c. c ≢ 46) s

split-part : (s : List ℕ) → NoDot s → split 46 s ≡ s ∷ []
unfolding split
split-part [] h = refl
split-part (c ∷ s) (h, hs) = rw (split-part s hs) (ground arith)

split-parts : (s rest : List ℕ) → NoDot s → split 46 (s ++ (46 ∷ rest)) ≡ s ∷ split 46 rest
unfolding split
split-parts [] rest h = refl
split-parts (c ∷ s) rest (h, hs) = rw (split-parts s rest hs) (ground arith)

-- A version of three parts.
abbrev pub version_of : List ℕ → List ℕ → List ℕ → List ℕ
version_of major minor revision = major ++ (46 ∷ (minor ++ (46 ∷ revision)))

split_version-parts :
    (a b c : List ℕ) → NoDot a → NoDot b → NoDot c → split_version (version_of a b c) ≡ ok (a, b, c)
unfolding split_version
split_version-parts a b c ha hb hc =
    rw (split-parts a (b ++ (46 ∷ c)) ha, split-parts b c hb, split-part c hc)

compared_iff :
    (n n' a b c a' b' c' : List ℕ)
    → (compared n n' (ok (a, b, c)) (ok (a', b', c')) ≡ none) ↔ ((a ≡ a') × (b ≡ b') × (n ≡ n'))
compared_iff n n' a b c a' b' c' = (
  λ e.
      (str_eq→eq a a' (ground arith), str_eq→eq b b' (ground arith), str_eq→eq n n' (ground arith)),
  λ (p, q, r). rw (p, q, r, str_eq_self a', str_eq_self b', str_eq_self n'),
)

-- Nodes whose versions have three parts are compatible exactly when they have the same major version,
-- the same minor version and the same network.
pub compatible_with_iff :
    (info peer : NodeInfo) (a b c a' b' c' : List ℕ)
    → info.version ≡ version_of a b c
    → peer.version ≡ version_of a' b' c'
    → NoDot a
    → NoDot b
    → NoDot c
    → NoDot a'
    → NoDot b'
    → NoDot c'
    → (compatible_with info peer ≡ none) ↔ ((a ≡ a') × (b ≡ b') × (info.network ≡ peer.network))
unfolding compatible_with
compatible_with_iff info peer a b c a' b' c' v w ha hb hc ha' hb' hc' =
    rw
      (
        ap split_version v ∙ split_version-parts a b c ha hb hc,
        ap split_version w ∙ split_version-parts a' b' c' ha' hb' hc',
      )
      (compared_iff info.network peer.network a b c a' b' c')
