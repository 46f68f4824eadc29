-- ===== src/Bc/TxStatus/Laws.antt =====
-- GetStatus after SetStatus, and the Merkle root of the results.
use btm_stats.Base.{
  get_elem?-append_end, get_elem?-set, ℕ, ◌≤◌, ◌<◌, ◌≡◌, ◌≢◌, refl, Bool, none, List, [], ◌∷◌,
  length, ◌==◌, if◌then◌else◌, map, arith, ◌⊎◌, inl, inr, All,
}
use btm_stats.Bc.Words.{IsByte}
use btm_stats.Bc.Merkle.Collision.{Collision, merkle_root_inj}
use btm_stats.Bc.TxStatus.{
  TxVerifyResult, TransactionStatus, set_status, get_status, json_of, tx_status_merkle_root,
}

-- SetStatus at an index up to the length succeeds; then GetStatus gives the new status at that
-- index, and what it gave before at every other one.
pub get_status-set_status :
    (i j : ℕ) (gas_only : Bool) (ts : TransactionStatus)
    → i ≤ length ts.verify_status
    → ((set_status i gas_only ts).0 ≡ none)
      × (get_status j (set_status i gas_only ts).1
          ≡ (if j == i then (gas_only, none) else get_status j ts))
unfolding set_status get_status
get_status-set_status i j gas_only ts h = ground (
  arith,
  get_elem?-append_end ts.verify_status (record { status_fail = gas_only }) j,
  get_elem?-set ts.verify_status i (record { status_fail = gas_only }) j,
)

-- Past the length SetStatus fails and changes nothing.
pub set_status_gap :
    (i : ℕ) (gas_only : Bool) (ts : TransactionStatus)
    → length ts.verify_status < i
    → ((set_status i gas_only ts).0 ≢ none) × ((set_status i gas_only ts).1 ≡ ts)
unfolding set_status
set_status_gap i gas_only ts h = ground arith

json_of_inj : (r s : TxVerifyResult) → json_of r ≡ json_of s → r ≡ s
unfolding json_of
json_of_inj r s e = ground arith

map-json_of_inj : (rs ss : List TxVerifyResult) → map json_of rs ≡ map json_of ss → rs ≡ ss
map-json_of_inj [] [] e = refl
map-json_of_inj [] (s ∷ ss) e = cc
map-json_of_inj (r ∷ rs) [] e = cc
map-json_of_inj (r ∷ rs) (s ∷ ss) e = cc (json_of_inj r s (cc), map-json_of_inj rs ss (cc))

-- Two lists of results with one Merkle root are equal, or give two inputs with one digest.
pub tx_status_merkle_root_inj :
    (sum256 : List ℕ → List ℕ) (rs ss : List TxVerifyResult)
    → ((bs : List ℕ) → length (sum256 bs) ≡ 32)
    → ((bs : List ℕ) → All IsByte (sum256 bs))
    → tx_status_merkle_root sum256 rs ≡ tx_status_merkle_root sum256 ss
    → (rs ≡ ss) ⊎ Collision sum256 (map json_of rs) (map json_of ss)
unfolding tx_status_merkle_root
tx_status_merkle_root_inj sum256 rs ss size bytes e =
    elim (merkle_root_inj sum256 size bytes (map json_of rs) (map json_of ss) e) [
      | inl same ↦ inl (map-json_of_inj rs ss same)
      | inr c ↦ inr c
    ]
