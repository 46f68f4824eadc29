-- ===== src/Tests/DatabaseRuns.antt =====
-- Runs of database. A hash is written as its words, and an entry as three numbers.
use btm_stats.Base.{
  ℕ, ◌≡◌, ◌≢◌, refl, ap, Bool, true, false, not, ◌&&◌, none, [], ◌∷◌, ◌++◌, if◌then◌else◌, ◌==◌,
  arith,
}
use btm_stats.Errors.{other}
use btm_stats.Encoding.Reader.{Result, ok, err}
use btm_stats.Bc.Hash.{Hash}
use btm_stats.Database.UtxoView.{
  UtxoEntry, Bytes, write_batch, cannot_find_utxo, get_utxo, save_utxo_view,
}
use btm_stats.Database.UtxoView.Saved.{get_utxo-save_utxo_view}
use btm_stats.Tests.BcRuns.{hash_a, hash_b}

abbrev text : Hash → Bytes
text h = h.v0 ∷ h.v1 ∷ h.v2 ∷ h.v3 ∷ []

text_inj : (g h : Hash) → text g ≡ text h → g ≡ h
text_inj g h e =
    let p0 : g.v0 ≡ h.v0 = cc in
    let p1 : g.v1 ≡ h.v1 = cc in
    let p2 : g.v2 ≡ h.v2 = cc in
    let p3 : g.v3 ≡ h.v3 = cc in λ i. record { v0 = p0 i; v1 = p1 i; v2 = p2 i; v3 = p3 i }

abbrev bit : Bool → ℕ
bit true = 1
bit false = 0

abbrev marshal : UtxoEntry → Result Bytes
marshal e = ok (bit e.is_coin_base ∷ e.block_height ∷ bit e.spent ∷ [])

abbrev unmarshal : Bytes → Result UtxoEntry
unmarshal (c ∷ h ∷ s ∷ []) = ok (record { is_coin_base = c == 1; block_height = h; spent = s == 1 })
unmarshal bs = err (other "no entry")

bit_one : (b : Bool) → (bit b == 1) ≡ b
bit_one true = refl
bit_one false = refl

round : (e : UtxoEntry) → (b : Bytes) × (marshal e ≡ ok b) × (unmarshal b ≡ ok e)
round e = (
  bit e.is_coin_base ∷ e.block_height ∷ bit e.spent ∷ [],
  refl,
  λ i. ok (record {
    is_coin_base = bit_one e.is_coin_base i;
    block_height = e.block_height;
    spent = bit_one e.spent i;
  }),
)

-- A spent output of a coinbase stays in the database.
abbrev entry : UtxoEntry
entry = record { is_coin_base = true; block_height = 5; spent = true }

abbrev spent_entry : UtxoEntry
spent_entry = record { is_coin_base = false; block_height = 6; spent = true }

get_utxo-save_utxo_view_example :
    ((save_utxo_view text marshal unmarshal
        ([] ++ ((hash_a, entry) ∷ (hash_b, spent_entry) ∷ []))).1
      ≡ none)
    × (get_utxo text marshal unmarshal
          (write_batch
            (save_utxo_view text marshal unmarshal
              ([] ++ ((hash_a, entry) ∷ (hash_b, spent_entry) ∷ []))).0
            (λ k. none))
          hash_a
        ≡ (if entry.spent && not entry.is_coin_base then err cannot_find_utxo else ok entry))
get_utxo-save_utxo_view_example =
    get_utxo-save_utxo_view text marshal unmarshal text_inj round hash_a entry []
      ((hash_b, spent_entry) ∷ []) (λ k. none) (differ, tt)
  where
    differ : hash_b ≢ hash_a
    differ e = absurd (omega (arith, ap (λ (h : Hash). h.v0) e))
