-- ===== src/Types/Transaction/Coding.antt =====
-- The wire format of a transaction, and its reader.
use btm_stats.Base.{
  ℕ, suc, ◌+◌, ◌-◌, ◌≡◌, ◌≤◌, sym, ap, ◌∙◌, List, [], ◌∷◌, ◌++◌, length, arith, append_assoc,
  length-append,
}
use btm_stats.Encoding.Reader.{Reader, Result, ok, err}
use btm_stats.Encoding.Reads.{
  Reads, IsPrefixRead, prefix_rules, Reads-read_full, IsPrefixRead-read_full,
}
use btm_stats.Encoding.Varint.{max_int32, max_int64}
use btm_stats.Encoding.Varints.{
  varint, Reads-read_varint31, IsPrefixRead-read_varint31, Reads-read_varint63,
  IsPrefixRead-read_varint63,
}
use btm_stats.Types.Loop.{WireList, read_each-WireList, IsPrefixRead-read_each}
use btm_stats.Types.TxInput
use btm_stats.Types.TxInput.{TxInput}
use btm_stats.Types.TxInput.Coding as InputCoding
use btm_stats.Types.TxOutput
use btm_stats.Types.TxOutput.{TxOutput}
use btm_stats.Types.TxOutput.Coding as OutputCoding
use btm_stats.Types.Transaction.{TxData, ser_required, read_fields, read_flagged, sized, read_from}

abbrev pub tx_of : ℕ → ℕ → ℕ → List TxInput → List TxOutput → TxData
tx_of size version time_range inputs outputs = record {
  version = version;
  serialized_size = size;
  time_range = time_range;
  inputs = inputs;
  outputs = outputs;
}

-- The fields in order, over the bytes of the inputs and of the outputs.
abbrev pub encode : ℕ → ℕ → ℕ → List ℕ → ℕ → List ℕ → List ℕ
encode version time_range n inputs m outputs =
    varint version ++ (varint time_range ++ (varint n ++ (inputs ++ (varint m ++ outputs))))

module _ (sum256 : List ℕ → List ℕ) where
  -- What a transaction on the wire holds; its size is the number of its bytes.
  pub data Wire : TxData → List ℕ → Type 0 where
    transaction :
        (version time_range : ℕ) (inputs : List TxInput) (outputs : List TxOutput)
        (ins outs : List ℕ)
        → version ≤ max_int64
        → time_range ≤ max_int64
        → length inputs ≤ max_int32
        → length outputs ≤ max_int32
        → WireList (InputCoding.Wire sum256) inputs ins
        → WireList OutputCoding.Wire outputs outs
        → Wire
            (tx_of
              (length (
                ser_required ∷ encode version time_range (length inputs) ins (length outputs) outs))
              version
              time_range
              inputs
              outputs)
            (ser_required ∷ encode version time_range (length inputs) ins (length outputs) outs)

  Reads-read_fields :
      (version time_range : ℕ) (inputs : List TxInput) (outputs : List TxOutput) (ins outs : List ℕ)
      → version ≤ max_int64
      → time_range ≤ max_int64
      → length inputs ≤ max_int32
      → length outputs ≤ max_int32
      → WireList (InputCoding.Wire sum256) inputs ins
      → WireList OutputCoding.Wire outputs outs
      → Reads
          (read_fields sum256)
          (encode version time_range (length inputs) ins (length outputs) outs)
          (tx_of 0 version time_range inputs outputs)
  unfolding read_fields
  Reads-read_fields version time_range inputs outputs ins outs hv ht hi ho wi wo rest =
      let r1 = varint (length outputs) ++ outs in
      let r2 = ins ++ r1 in
      let r3 = varint (length inputs) ++ r2 in
      let r4 = varint time_range ++ r3 in
      rw (
        append_assoc (varint version) r4 rest,
        Reads-read_varint63 version hv (r4 ++ rest),
        append_assoc (varint time_range) r3 rest,
        Reads-read_varint63 time_range ht (r3 ++ rest),
        append_assoc (varint (length inputs)) r2 rest,
        Reads-read_varint31 (length inputs) hi (r2 ++ rest),
        append_assoc ins r1 rest,
        read_each-WireList "reading input" (TxInput.read_from sum256)
            (InputCoding.Reads-read_input sum256) inputs [] ins wi (r1 ++ rest),
        append_assoc (varint (length outputs)) outs rest,
        Reads-read_varint31 (length outputs) ho (outs ++ rest),
        read_each-WireList "reading output" TxOutput.read_from OutputCoding.Reads-read_output
            outputs [] outs wo rest,
      )

  -- TxData.readFrom reads every transaction of the wire format, with its size, and leaves what
  -- follows it.
  pub Reads-read_transaction :
      (tx : TxData) (bs : List ℕ) → Wire tx bs → Reads (read_from sum256) bs tx
  unfolding read_from read_flagged
  Reads-read_transaction tx bs
        (transaction version time_range inputs outputs ins outs hv ht hi ho wi wo) rest =
      let fields = encode version time_range (length inputs) ins (length outputs) outs in
      rw
        (
          Reads-read_full (ser_required ∷ []) (fields ++ rest),
          Reads-read_fields version time_range inputs outputs ins outs hv ht hi ho wi wo rest,
        )
        (let e : suc (length (fields ++ rest)) - length rest ≡ suc (length fields) =
            omega (arith, length-append fields rest) in
          λ i. (ok (tx_of (e i) version time_range inputs outputs), rest))

  IsPrefixRead-read_flagged : IsPrefixRead (read_flagged sum256)
  unfolding read_flagged read_fields
  IsPrefixRead-read_flagged =
      search
        (
          prefix_rules, IsPrefixRead-read_full, IsPrefixRead-read_varint63,
          IsPrefixRead-read_varint31, IsPrefixRead-read_each, InputCoding.IsPrefixRead-read_input,
          OutputCoding.IsPrefixRead-read_output,
        )
        depth 24

  sized-ok :
      (n : ℕ) (x : Result TxData × Reader) (tx : TxData) (r' : Reader)
      → sized sum256 n x ≡ (ok tx, r')
      → (old : TxData) × (x ≡ (ok old, r')) × (tx ≡ record old { serialized_size = n - length r' })
  sized-ok n (ok old, r) tx r' e = (old, ground arith, ground arith)
  sized-ok n (err z, r) tx r' e = absurd (cc)

  -- A transaction that is read takes a prefix of the input, SerializedSize is the length of that
  -- prefix, and what follows the prefix makes no difference.
  pub read_transaction-ok :
      (r : Reader) (tx : TxData) (r' : Reader)
      → read_from sum256 r ≡ (ok tx, r')
      → (taken : List ℕ) × (r ≡ taken ++ r')
        × (tx.serialized_size ≡ length taken)
        × ((rest : List ℕ) → read_from sum256 (taken ++ rest) ≡ (ok tx, rest))
  unfolding read_from
  read_transaction-ok r tx r' e =
      let (old, p, q) = sized-ok (length r) (read_flagged sum256 r) tx r' e in
      let t = IsPrefixRead-read_flagged.at r old r' p in
      let size : length r ≡ length t.taken + length r' =
        ap length t.splits ∙ length-append t.taken r' in
      (
        t.taken,
        t.splits,
        omega (arith, ap (λ (x : TxData). x.serialized_size) q, size),
        λ rest.
            let same : length (t.taken ++ rest) - length rest ≡ length r - length r' =
              omega (arith, size, length-append t.taken rest) in
            rw (t.reads rest) (
              (λ i. (ok (record old { serialized_size = same i }), rest))
              ∙ ap (λ x. (ok x, rest)) (sym q)),
      )
