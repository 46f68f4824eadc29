-- ===== src/P2p/NodeInfo.antt =====
-- p2p/node_info.go: whether two nodes can talk to each other. A string is a list of its bytes.
pub mod Compatible
use btm_stats.Base.{
  ℕ, Bool, true, false, ◌&&◌, not, Option, none, some, List, [], ◌∷◌, ◌++◌, ◌==◌, if◌then◌else◌,
}
use btm_stats.Errors.{Error, other}
use btm_stats.Encoding.Reader.{Result, ok, err}

-- NodeInfo, but its public key
pub record NodeInfo : Type 0 where
  pub moniker : List ℕ
  pub network : List ℕ
  pub remote_addr : List ℕ
  pub listen_addr : List ℕ
  pub version : List ℕ
  pub others : List (List ℕ)

-- `==` of strings
abbrev pub str_eq : List ℕ → List ℕ → Bool
str_eq [] [] = true
str_eq [] (y ∷ ys) = false
str_eq (x ∷ xs) [] = false
str_eq (x ∷ xs) (y ∷ ys) = x == y && str_eq xs ys

-- strings.Split at one byte: the part before the first separator, and the others
abbrev pub with_byte : ℕ → List (List ℕ) → List (List ℕ)
with_byte c [] = (c ∷ []) ∷ []
with_byte c (part ∷ parts) = (c ∷ part) ∷ parts

unfoldable pub split : ℕ → List ℕ → List (List ℕ)
split sep [] = [] ∷ []
split sep (c ∷ s) = let rest = split sep s in if c == sep then [] ∷ rest else with_byte c rest

abbrev pub invalid_version : Error
invalid_version = other "Invalid version format"

-- splitVersion
abbrev pub three_parts : List (List ℕ) → Result (List ℕ × List ℕ × List ℕ)
three_parts (a ∷ b ∷ c ∷ []) = ok (a, b, c)
three_parts (a ∷ b ∷ c ∷ d ∷ parts) = err invalid_version
three_parts (a ∷ b ∷ []) = err invalid_version
three_parts (a ∷ []) = err invalid_version
three_parts [] = err invalid_version

unfoldable pub split_version : List ℕ → Result (List ℕ × List ℕ × List ℕ)
split_version version = three_parts (split 46 version)

-- CompatibleWith, after both versions are split
abbrev pub compared :
    List ℕ
    → List ℕ
    → Result (List ℕ × List ℕ × List ℕ)
    → Result (List ℕ × List ℕ × List ℕ)
    → Option Error
compared network network' (err e) other_parts = some e
compared network network' (ok parts) (err e) = some e
compared network network' (ok (major, minor, revision)) (ok (major', minor', revision')) =
    if not (str_eq major major')
    then some (other "Peer is on a different major version")
    else if not (str_eq minor minor')
    then some (other "Peer is on a different minor version")
    else if not (str_eq network network')
    then some (other "Peer is on a different network")
    else none

-- CompatibleWith
unfoldable pub compatible_with : NodeInfo → NodeInfo → Option Error
compatible_with info peer =
    compared info.network peer.network (split_version info.version) (split_version peer.version)
