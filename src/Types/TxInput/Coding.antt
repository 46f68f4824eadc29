-- ===== src/Types/TxInput/Coding.antt =====
-- The wire format of an input, and its reader.
use btm_stats.Base.{ℕ, ◌≢◌, ◌≤◌, Option, none, some, List, [], ◌∷◌, ◌++◌, arith, append_assoc}
use btm_stats.Encoding.Reads.{Reads, IsPrefixRead, prefix_rules}
use btm_stats.Encoding.Varint.{max_int64}
use btm_stats.Encoding.Varints.{varint, Reads-read_varint63, IsPrefixRead-read_varint63}
use btm_stats.Encoding.Strings.{Reads-read_extensible_string, IsPrefixRead-read_extensible_string}
use btm_stats.Encoding.WriteStrings.{IsStr31, varstr, varstr_list}
use btm_stats.Bc.Hash.{Hash, IsHash}
use btm_stats.Types.TxInput.{
  TxInput, TypedInput, issuance, spend, coinbase, Committed, zero_hash, asset_id, read_commitment,
  read_witness, read_from,
}
use btm_stats.Types.TxInput.Commitments.{
  spend_commitment_of, encode_spend, encode_issuance, Reads-spend, Reads-issuance, Reads-coinbase,
  Reads-unknown,
}
use btm_stats.Types.TxInput.Witnesses.{
  IsStrs, issuance_of, encode_issuance_witness, Reads-issuance_witness, Reads-spend_witness,
  Reads-coinbase_witness, Reads-unknown_witness,
}

abbrev pub input_of : ℕ → Option TypedInput → List ℕ → List ℕ → TxInput
input_of version typed suffix witness_suffix = record {
  asset_version = version;
  typed_input = typed;
  commitment_suffix = suffix;
  witness_suffix = witness_suffix;
}

-- The two extensible strings behind the asset version.
abbrev pub encode_parts : ℕ → List ℕ → List ℕ → List ℕ → List ℕ → List ℕ
encode_parts version body suffix witness witness_suffix =
    varint version ++ (varstr (body ++ suffix) ++ varstr (witness ++ witness_suffix))

module _ (sum256 : List ℕ → List ℕ) where
  -- What an input on the wire holds. The asset id in an issuance is that of its program,
  -- version and definition.
  pub data Wire : TxInput → List ℕ → Type 0 where
    issue :
        (nonce : List ℕ) (amount : ℕ) (definition : List ℕ) (vm : ℕ) (program : List ℕ)
        (arguments : List (List ℕ)) (suffix witness_suffix : List ℕ)
        → IsStr31 nonce
        → amount ≤ max_int64
        → IsStr31 definition
        → vm ≤ max_int64
        → IsStr31 program
        → IsStrs arguments
        → IsHash (asset_id sum256 (issuance_of nonce amount definition vm program []))
        → IsStr31 (
            (0
              ∷ encode_issuance nonce
                  (asset_id sum256 (issuance_of nonce amount definition vm program []))
                  amount)
            ++ suffix)
        → IsStr31 (encode_issuance_witness definition vm program arguments ++ witness_suffix)
        → Wire
            (input_of 1
              (some (issuance (issuance_of nonce amount definition vm program arguments)))
              suffix
              witness_suffix)
            (encode_parts 1
              (0
                ∷ encode_issuance nonce
                    (asset_id sum256 (issuance_of nonce amount definition vm program []))
                    amount)
              suffix
              (encode_issuance_witness definition vm program arguments)
              witness_suffix)
    spend_output :
        (source id : Hash) (amount position : ℕ) (program spend_suffix : List ℕ)
        (arguments : List (List ℕ)) (suffix witness_suffix : List ℕ)
        → IsHash source
        → IsHash id
        → amount ≤ max_int64
        → position ≤ max_int64
        → IsStr31 program
        → IsStr31 (encode_spend source id amount position program ++ spend_suffix)
        → IsStrs arguments
        → IsStr31 (
            (1 ∷ varstr (encode_spend source id amount position program ++ spend_suffix)) ++ suffix)
        → IsStr31 (varstr_list arguments ++ witness_suffix)
        → Wire
            (input_of 1
              (some (
                spend (record {
                  spend_commitment_suffix = spend_suffix;
                  arguments = arguments;
                  spend_commitment = spend_commitment_of source id amount position program;
                })))
              suffix
              witness_suffix)
            (encode_parts 1
              (1 ∷ varstr (encode_spend source id amount position program ++ spend_suffix))
              suffix
              (varstr_list arguments)
              witness_suffix)
    mint :
        (arbitrary suffix witness_suffix : List ℕ)
        → IsStr31 arbitrary
        → IsStr31 ((2 ∷ varstr arbitrary) ++ suffix)
        → IsStr31 witness_suffix
        → Wire
            (input_of 1 (some (coinbase (record { arbitrary = arbitrary }))) suffix witness_suffix)
            (encode_parts 1 (2 ∷ varstr arbitrary) suffix [] witness_suffix)
    unknown :
        (version : ℕ) (suffix witness_suffix : List ℕ)
        → version ≢ 1
        → version ≤ max_int64
        → IsStr31 suffix
        → IsStr31 witness_suffix
        → Wire
            (input_of version none suffix witness_suffix)
            (encode_parts version [] suffix [] witness_suffix)

  read_from-parts :
      (version : ℕ) (c : Committed) (typed : Option TypedInput)
      (body suffix witness witness_suffix : List ℕ)
      → version ≤ max_int64
      → Reads (read_commitment version) body c
      → IsStr31 (body ++ suffix)
      → Reads (read_witness sum256 version c) witness typed
      → IsStr31 (witness ++ witness_suffix)
      → Reads
          (read_from sum256)
          (encode_parts version body suffix witness witness_suffix)
          (input_of version typed suffix witness_suffix)
  unfolding read_from
  read_from-parts version c typed body suffix witness witness_suffix hv hc hs hw hx rest =
      let r = varstr (witness ++ witness_suffix) in
      rw (
        append_assoc (varint version) (varstr (body ++ suffix) ++ r) rest,
        Reads-read_varint63 version hv ((varstr (body ++ suffix) ++ r) ++ rest),
        append_assoc (varstr (body ++ suffix)) r rest,
        Reads-read_extensible_string (read_commitment version) body suffix c hc hs (r ++ rest),
        Reads-read_extensible_string (read_witness sum256 version c) witness witness_suffix typed hw
            hx rest,
      )

  -- TxInput.readFrom reads every input of the wire format, and leaves what follows it.
  pub Reads-read_input : (t : TxInput) (bs : List ℕ) → Wire t bs → Reads (read_from sum256) bs t
  Reads-read_input t bs
        (issue nonce amount definition vm program arguments suffix wsuffix hn ha hd hv hp hargs hid
          hs hw) =
      read_from-parts 1 _ _
        (0
          ∷ encode_issuance nonce
              (asset_id sum256 (issuance_of nonce amount definition vm program [])) amount)
        suffix _ wsuffix (omega arith)
        (Reads-issuance nonce (asset_id sum256 (issuance_of nonce amount definition vm program []))
          amount hn hid ha)
        hs
        (Reads-issuance_witness sum256 nonce amount definition vm program arguments hd hv hp hargs)
        hw
  Reads-read_input t bs
        (spend_output source id amount position program xsuffix arguments suffix wsuffix h1 h2 h3 h4
          h5 h6 hargs hs hw) =
      read_from-parts 1 _ _ (1 ∷ varstr (encode_spend source id amount position program ++ xsuffix))
        suffix _ wsuffix (omega arith)
        (Reads-spend source id amount position program xsuffix h1 h2 h3 h4 h5 h6) hs
        (Reads-spend_witness sum256 _ zero_hash arguments hargs) hw
  Reads-read_input t bs (mint arbitrary suffix wsuffix ha hs hw) =
      read_from-parts 1 _ _ (2 ∷ varstr arbitrary) suffix [] wsuffix (omega arith)
        (Reads-coinbase arbitrary ha) hs (Reads-coinbase_witness sum256 _ zero_hash) hw
  Reads-read_input t bs (unknown version suffix wsuffix ne hv hs hw) =
      read_from-parts version _ _ [] suffix [] wsuffix hv (Reads-unknown version ne) hs
        (Reads-unknown_witness sum256 version zero_hash ne) hw

  pub IsPrefixRead-read_input : IsPrefixRead (read_from sum256)
  unfolding read_from
  IsPrefixRead-read_input =
      search (prefix_rules, IsPrefixRead-read_varint63, IsPrefixRead-read_extensible_string) depth
        12
