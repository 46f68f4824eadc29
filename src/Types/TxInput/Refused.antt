-- ===== src/Types/TxInput/Refused.antt =====
-- TxInput.readFrom of an issuance whose witness does not give the asset id of its commitment.
use btm_stats.Base.{ℕ, ◌≡◌, ◌≢◌, ◌≤◌, List, [], ◌∷◌, ◌++◌, arith}
use btm_stats.Errors.{Error, bad_asset_id}
use btm_stats.Encoding.Reader.{Reader, Read, Result, ok, err, continue, ◌>>=◌}
use btm_stats.Encoding.Varint.{max_int64, extensible_result, read_extensible_string}
use btm_stats.Encoding.Varints.{varint, Reads-read_varint63}
use btm_stats.Encoding.Strings.{Reads-read_varstr31, Reads-read_extensible_string}
use btm_stats.Encoding.WriteStrings.{IsStr31, varstr}
use btm_stats.Bc.Hash.{Hash, IsHash}
use btm_stats.Types.TxInput.{asset_id, read_commitment, read_witness, read_from}
use btm_stats.Types.TxInput.Commitments.{committed_issuance, encode_issuance, Reads-issuance}
use btm_stats.Types.TxInput.Witnesses.{issuance_of, issuance_witness_bad_asset}

-- An error of a part is the error of the whole.
extensible_result-err :
    {A : Type 0} (x : Result A × Reader) (r : Reader) (e : Error)
    → x.0 ≡ err e
    → (extensible_result x r).0 ≡ err e
extensible_result-err (ok a, s) r e h = cc
extensible_result-err (err f, s) r e h = cc

read_extensible_string-err :
    {A : Type 0} (f : Read A) (s rest : List ℕ) (e : Error)
    → IsStr31 s
    → (f s).0 ≡ err e
    → (read_extensible_string f (varstr s ++ rest)).0 ≡ err e
unfolding read_extensible_string
read_extensible_string-err f s rest e hs h =
    rw (Reads-read_varstr31 s hs rest) (extensible_result-err (f s) rest e h)

continue-err :
    {A B : Type 0} (m : Read A) (g : A → Read B) (r : Reader) (e : Error)
    → (m r).0 ≡ err e
    → ((m >>= g) r).0 ≡ err e
continue-err {A = A} {B = B} m g r e h = continued (m r) h
  where
    continued : (x : Result A × Reader) → x.0 ≡ err e → (continue x.0 g x.1).0 ≡ err e
    continued (ok a, s) k = cc
    continued (err f, s) k = cc

module _ (sum256 : List ℕ → List ℕ) where
  -- An input of asset version 1 whose commitment is an issuance of some asset id, and whose witness
  -- holds a definition, a version and a program that give another asset id: readFrom returns
  -- errBadAssetID, whatever the suffix of the commitment, the rest of the witness and what follows
  -- the input.
  pub read_from-bad_asset :
      (nonce : List ℕ) (amount : ℕ) (id : Hash) (suffix definition : List ℕ) (vm : ℕ)
      (program witness_rest rest : List ℕ)
      → IsStr31 nonce
      → amount ≤ max_int64
      → IsHash id
      → IsStr31 ((0 ∷ encode_issuance nonce id amount) ++ suffix)
      → IsStr31 definition
      → vm ≤ max_int64
      → IsStr31 program
      → IsStr31 (varstr definition ++ (varint vm ++ (varstr program ++ witness_rest)))
      → asset_id sum256 (issuance_of nonce amount definition vm program []) ≢ id
      → (read_from sum256 (
          varint 1
          ++ (varstr ((0 ∷ encode_issuance nonce id amount) ++ suffix)
              ++ (varstr (varstr definition ++ (varint vm ++ (varstr program ++ witness_rest)))
                  ++ rest)))).0
        ≡ err bad_asset_id
  unfolding read_from
  read_from-bad_asset nonce amount id suffix definition vm program witness_rest rest hn ha hid hs hd
        hv hp hw ne =
      let body = 0 ∷ encode_issuance nonce id amount in
      let witness = varstr definition ++ (varint vm ++ (varstr program ++ witness_rest)) in
      rw
        (
          Reads-read_varint63 1 (omega arith) (varstr (body ++ suffix) ++ (varstr witness ++ rest)),
          Reads-read_extensible_string (read_commitment 1) body suffix
              (committed_issuance nonce amount id) (Reads-issuance nonce id amount hn hid ha) hs
              (varstr witness ++ rest),
        )
        (continue-err
          (read_extensible_string (read_witness sum256 1 (committed_issuance nonce amount id))) _
          (varstr witness ++ rest) bad_asset_id
          (read_extensible_string-err _ witness rest bad_asset_id hw (
            issuance_witness_bad_asset sum256 nonce amount definition vm program id witness_rest hd
              hv hp ne)))
