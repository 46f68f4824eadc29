-- ===== src/Types/TxInput/Commitments.antt =====
-- The wire format of an input's commitment, and its reader.
use btm_stats.Base.{
  ℕ, ◌≡◌, ◌≢◌, ◌≤◌, false, none, some, List, [], ◌∷◌, ◌++◌, arith, append_assoc, ◌==◌,
}
use btm_stats.Encoding.Reads.{
  Reads, IsPrefixRead, prefix_rules, Reads-read_full, IsPrefixRead-read_full,
}
use btm_stats.Encoding.Varint.{max_int64}
use btm_stats.Encoding.Varints.{varint, Reads-read_varint63, IsPrefixRead-read_varint63}
use btm_stats.Encoding.Strings.{
  Reads-read_varstr31, IsPrefixRead-read_varstr31, Reads-read_extensible_string,
  IsPrefixRead-read_extensible_string,
}
use btm_stats.Encoding.WriteStrings.{IsStr31, varstr}
use btm_stats.Bc.Hash.{Hash, byte32, IsHash, Reads-read_hash, IsPrefixRead-read_hash}
use btm_stats.Bc.Asset.Amounts.{
  amount_of, encode_amount, Reads-read_amount, IsPrefixRead-read_amount,
}
use btm_stats.Types.TxInput.{
  SpendCommitment, issuance, spend, coinbase, Committed, zero_hash, read_spend_body,
  read_spend_commitment, read_issuance_commitment, read_spend_input, read_coinbase_input,
  read_commitment,
}

-- The commitment of a spent output.
abbrev pub spend_commitment_of : Hash → Hash → ℕ → ℕ → List ℕ → SpendCommitment
spend_commitment_of source id amount position program = record {
  asset_amount = amount_of id amount;
  source_id = source;
  source_position = position;
  vm_version = 1;
  control_program = program;
}

abbrev pub encode_spend : Hash → Hash → ℕ → ℕ → List ℕ → List ℕ
encode_spend source id amount position program =
    byte32 source ++ (encode_amount id amount ++ (varint position ++ (varint 1 ++ varstr program)))

-- What the reader of a commitment hands on to that of the witness.
abbrev pub committed_spend : SpendCommitment → List ℕ → Committed
committed_spend c suffix = (
  some (spend (record { spend_commitment_suffix = suffix; arguments = []; spend_commitment = c })),
  zero_hash,
)

abbrev pub committed_issuance : List ℕ → ℕ → Hash → Committed
committed_issuance nonce amount id = (
  some (
      issuance (record {
        nonce = nonce;
        amount = amount;
        asset_definition = [];
        vm_version = 0;
        issuance_program = [];
        arguments = [];
      })),
  id,
)

abbrev pub committed_coinbase : List ℕ → Committed
committed_coinbase arbitrary = (some (coinbase (record { arbitrary = arbitrary })), zero_hash)

Reads-read_spend_body :
    (source id : Hash) (amount position : ℕ) (program : List ℕ)
    → IsHash source
    → IsHash id
    → amount ≤ max_int64
    → position ≤ max_int64
    → IsStr31 program
    → Reads
        (read_spend_body 1)
        (encode_spend source id amount position program)
        (spend_commitment_of source id amount position program)
unfolding read_spend_body
Reads-read_spend_body source id amount position program hs hid ha hp hc rest =
    let r1 = varint 1 ++ varstr program in
    let r2 = varint position ++ r1 in
    let r3 = encode_amount id amount ++ r2 in
    rw (
      append_assoc (byte32 source) r3 rest,
      Reads-read_hash source hs (r3 ++ rest),
      append_assoc (encode_amount id amount) r2 rest,
      Reads-read_amount id amount hid ha (r2 ++ rest),
      append_assoc (varint position) r1 rest,
      Reads-read_varint63 position hp (r1 ++ rest),
      append_assoc (varint 1) (varstr program) rest,
      Reads-read_varint63 1 (omega arith) (varstr program ++ rest),
      Reads-read_varstr31 program hc rest,
    )

pub Reads-spend :
    (source id : Hash) (amount position : ℕ) (program suffix : List ℕ)
    → IsHash source
    → IsHash id
    → amount ≤ max_int64
    → position ≤ max_int64
    → IsStr31 program
    → IsStr31 (encode_spend source id amount position program ++ suffix)
    → Reads
        (read_commitment 1)
        (1 ∷ varstr (encode_spend source id amount position program ++ suffix))
        (committed_spend (spend_commitment_of source id amount position program) suffix)
unfolding read_commitment read_spend_commitment
Reads-spend source id amount position program suffix hs hid ha hp hc hx rest =
    let body = encode_spend source id amount position program in
    rw (
      Reads-read_full (1 ∷ []) (varstr (body ++ suffix) ++ rest),
      Reads-read_extensible_string (read_spend_body 1) body suffix
          (spend_commitment_of source id amount position program)
          (Reads-read_spend_body source id amount position program hs hid ha hp hc) hx rest,
    )

abbrev pub encode_issuance : List ℕ → Hash → ℕ → List ℕ
encode_issuance nonce id amount = varstr nonce ++ (byte32 id ++ varint amount)

pub Reads-issuance :
    (nonce : List ℕ) (id : Hash) (amount : ℕ)
    → IsStr31 nonce
    → IsHash id
    → amount ≤ max_int64
    → Reads
        (read_commitment 1)
        (0 ∷ encode_issuance nonce id amount)
        (committed_issuance nonce amount id)
unfolding read_commitment
Reads-issuance nonce id amount hn hid ha rest = rw (
  Reads-read_full (0 ∷ []) (encode_issuance nonce id amount ++ rest),
  append_assoc (varstr nonce) (byte32 id ++ varint amount) rest,
  Reads-read_varstr31 nonce hn ((byte32 id ++ varint amount) ++ rest),
  append_assoc (byte32 id) (varint amount) rest,
  Reads-read_hash id hid (varint amount ++ rest),
  Reads-read_varint63 amount ha rest,
)

pub Reads-coinbase :
    (arbitrary : List ℕ)
    → IsStr31 arbitrary
    → Reads (read_commitment 1) (2 ∷ varstr arbitrary) (committed_coinbase arbitrary)
unfolding read_commitment
Reads-coinbase arbitrary h rest =
    rw (Reads-read_full (2 ∷ []) (varstr arbitrary ++ rest), Reads-read_varstr31 arbitrary h rest)

not_one : (version : ℕ) → version ≢ 1 → (version == 1) ≡ false
not_one version h = ground arith

pub Reads-unknown :
    (version : ℕ) → version ≢ 1 → Reads (read_commitment version) [] (none, zero_hash)
unfolding read_commitment
Reads-unknown version h rest = rw (not_one version h)

IsPrefixRead-read_spend_body : (version : ℕ) → IsPrefixRead (read_spend_body version)
unfolding read_spend_body
IsPrefixRead-read_spend_body version =
    search
      (
        prefix_rules, IsPrefixRead-read_hash, IsPrefixRead-read_amount, IsPrefixRead-read_varint63,
        IsPrefixRead-read_varstr31,
      )
      depth 20

IsPrefixRead-read_issuance_commitment : IsPrefixRead read_issuance_commitment
unfolding read_issuance_commitment
IsPrefixRead-read_issuance_commitment =
    search
      (prefix_rules, IsPrefixRead-read_hash, IsPrefixRead-read_varint63, IsPrefixRead-read_varstr31)
      depth 20

IsPrefixRead-read_spend_input : IsPrefixRead read_spend_input
unfolding read_spend_input
IsPrefixRead-read_spend_input = search (prefix_rules, IsPrefixRead-read_extensible_string) depth 20

IsPrefixRead-read_coinbase_input : IsPrefixRead read_coinbase_input
unfolding read_coinbase_input
IsPrefixRead-read_coinbase_input = search (prefix_rules, IsPrefixRead-read_varstr31) depth 20

pub IsPrefixRead-read_commitment : (version : ℕ) → IsPrefixRead (read_commitment version)
unfolding read_commitment
IsPrefixRead-read_commitment version =
    search
      (
        prefix_rules, IsPrefixRead-read_full, IsPrefixRead-read_issuance_commitment,
        IsPrefixRead-read_spend_input, IsPrefixRead-read_coinbase_input,
      )
      depth 20
