-- ===== src/Types/TxInput/Witnesses.antt =====
-- The wire format of an input's witness, and its reader.
use btm_stats.Base.{
  ℕ, ◌≡◌, ◌≢◌, ◌≤◌, refl, true, Option, none, some, List, [], ◌++◌, length, arith, append_assoc,
  All, Bool-cases, inl, inr,
}
use btm_stats.Errors.{bad_asset_id}
use btm_stats.Encoding.Reader.{err}
use btm_stats.Encoding.Reads.{Reads, IsPrefixRead, prefix_rules}
use btm_stats.Encoding.Varint.{max_int32, max_int64}
use btm_stats.Encoding.Varints.{varint, Reads-read_varint63, IsPrefixRead-read_varint63}
use btm_stats.Encoding.Strings.{
  Reads-read_varstr31, IsPrefixRead-read_varstr31, Reads-read_varstr_list,
  IsPrefixRead-read_varstr_list,
}
use btm_stats.Encoding.WriteStrings.{IsStr31, varstr, varstr_list}
use btm_stats.Bc.Hash.{Hash}
use btm_stats.Bc.Asset.{hash_eq}
use btm_stats.Types.TxInput.{
  SpendInput, IssuanceInput, CoinbaseInput, TypedInput, issuance, spend, coinbase, Committed,
  asset_id, read_issuance_witness, read_typed_witness, read_witness,
}

-- A list of strings that ReadVarstrList can count.
abbrev pub IsStrs : List (List ℕ) → Type 0
IsStrs l = (length l ≤ max_int32) × All IsStr31 l

-- An issuance, and what its commitment holds of it.
abbrev pub issuance_of : List ℕ → ℕ → List ℕ → ℕ → List ℕ → List (List ℕ) → IssuanceInput
issuance_of nonce amount definition vm program arguments = record {
  nonce = nonce;
  amount = amount;
  asset_definition = definition;
  vm_version = vm;
  issuance_program = program;
  arguments = arguments;
}

abbrev pub encode_issuance_witness : List ℕ → ℕ → List ℕ → List (List ℕ) → List ℕ
encode_issuance_witness definition vm program arguments =
    varstr definition ++ (varint vm ++ (varstr program ++ varstr_list arguments))

hash_eq_self : (h : Hash) → hash_eq h h ≡ true
hash_eq_self h = ground arith

hash_eq→eq : (g h : Hash) → hash_eq g h ≡ true → g ≡ h
hash_eq→eq g h e = ground arith

module _ (sum256 : List ℕ → List ℕ) where
  pub Reads-issuance_witness :
      (nonce : List ℕ) (amount : ℕ) (definition : List ℕ) (vm : ℕ) (program : List ℕ)
      (arguments : List (List ℕ))
      → IsStr31 definition
      → vm ≤ max_int64
      → IsStr31 program
      → IsStrs arguments
      → Reads
          (read_witness sum256 1 (
            some (issuance (issuance_of nonce amount [] 0 [] [])),
            asset_id sum256 (issuance_of nonce amount definition vm program []),
          ))
          (encode_issuance_witness definition vm program arguments)
          (some (issuance (issuance_of nonce amount definition vm program arguments)))
  unfolding read_witness
  Reads-issuance_witness nonce amount definition vm program arguments hd hv hp (hn, hl) rest =
      let r1 = varstr program ++ varstr_list arguments in
      let r2 = varint vm ++ r1 in
      rw (
        append_assoc (varstr definition) r2 rest,
        Reads-read_varstr31 definition hd (r2 ++ rest),
        append_assoc (varint vm) r1 rest,
        Reads-read_varint63 vm hv (r1 ++ rest),
        append_assoc (varstr program) (varstr_list arguments) rest,
        Reads-read_varstr31 program hp (varstr_list arguments ++ rest),
        hash_eq_self (asset_id sum256 (issuance_of nonce amount definition vm program [])),
        Reads-read_varstr_list arguments hn hl rest,
      )

  pub Reads-spend_witness :
      (si : SpendInput) (id : Hash) (arguments : List (List ℕ))
      → IsStrs arguments
      → Reads
          (read_witness sum256 1 (some (spend si), id))
          (varstr_list arguments)
          (some (spend (record si { arguments = arguments })))
  unfolding read_witness
  Reads-spend_witness si id arguments (hn, hl) rest =
      rw (Reads-read_varstr_list arguments hn hl rest)

  pub Reads-coinbase_witness :
      (ci : CoinbaseInput) (id : Hash)
      → Reads (read_witness sum256 1 (some (coinbase ci), id)) [] (some (coinbase ci))
  unfolding read_witness
  Reads-coinbase_witness ci id rest = refl

  pub Reads-unknown_witness :
      (version : ℕ) (id : Hash)
      → version ≢ 1
      → Reads (read_witness sum256 version (none, id)) [] none
  unfolding read_witness
  Reads-unknown_witness version id h rest = ground arith

  IsPrefixRead-read_issuance_witness :
      (ii : IssuanceInput) (id : Hash) → IsPrefixRead (read_issuance_witness sum256 ii id)
  unfolding read_issuance_witness
  IsPrefixRead-read_issuance_witness ii id =
      search
        (
          prefix_rules, IsPrefixRead-read_varstr31, IsPrefixRead-read_varint63,
          IsPrefixRead-read_varstr_list,
        )
        depth 20

  IsPrefixRead-read_typed_witness :
      (t : Option TypedInput) (id : Hash) → IsPrefixRead (read_typed_witness sum256 t id)
  unfolding read_typed_witness
  IsPrefixRead-read_typed_witness none id = search prefix_rules
  IsPrefixRead-read_typed_witness (some (issuance ii)) id =
      search (prefix_rules, IsPrefixRead-read_issuance_witness)
  IsPrefixRead-read_typed_witness (some (spend si)) id =
      search (prefix_rules, IsPrefixRead-read_varstr_list)
  IsPrefixRead-read_typed_witness (some (coinbase ci)) id = search prefix_rules

  pub IsPrefixRead-read_witness :
      (version : ℕ) (c : Committed) → IsPrefixRead (read_witness sum256 version c)
  unfolding read_witness
  IsPrefixRead-read_witness version (typed, id) =
      search (prefix_rules, IsPrefixRead-read_typed_witness)

  -- A witness that does not give the committed asset id is refused, whatever stands behind the
  -- program.
  pub issuance_witness_bad_asset :
      (nonce : List ℕ) (amount : ℕ) (definition : List ℕ) (vm : ℕ) (program : List ℕ) (id : Hash)
      (rest : List ℕ)
      → IsStr31 definition
      → vm ≤ max_int64
      → IsStr31 program
      → asset_id sum256 (issuance_of nonce amount definition vm program []) ≢ id
      → (read_witness sum256 1
          (some (issuance (issuance_of nonce amount [] 0 [] [])), id)
          (varstr definition ++ (varint vm ++ (varstr program ++ rest)))).0
        ≡ err bad_asset_id
  unfolding read_witness
  issuance_witness_bad_asset nonce amount definition vm program id rest hd hv hp ne =
      rw
        (
          Reads-read_varstr31 definition hd (varint vm ++ (varstr program ++ rest)),
          Reads-read_varint63 vm hv (varstr program ++ rest),
          Reads-read_varstr31 program hp rest,
        )
        (elim (Bool-cases
          (hash_eq (asset_id sum256 (issuance_of nonce amount definition vm program [])) id)) [
            | inl same ↦ absurd (ne (hash_eq→eq _ _ same))
            | inr differ ↦ rw differ
          ])
