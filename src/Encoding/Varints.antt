-- ===== src/Encoding/Varints.antt =====
-- Proofs about the varint readers and writers of blockchain.go.
use btm_stats.Base.{
  ℕ, zero, suc, ◌+◌, ◌*◌, ◌%◌, ◌^◌, ◌≡◌, ◌≤◌, sym, ap, ◌∙◌, none, some, List, [], ◌∷◌, ◌++◌, length,
  ltb, arith, Bool-cases, inl, inr, le→ltb,
}
use btm_stats.Io.{Count, buffer, returned, panicked, Write}
use btm_stats.Encoding.Reader.{Reader, ok}
use btm_stats.Encoding.Varint.{
  max_int32, max_int64, put_uvarint, read_uvarint_loop, read_uvarint, read_varint31, read_varint63,
}
use btm_stats.Encoding.Write.{put_and_write, write_varint31, write_varint63}
use btm_stats.Encoding.Reads.{Reads, Taken, IsPrefixRead, prefix_rules}
use btm_stats.Encoding.Uvarint.{put_uvarint_fits, length-put_uvarint, read_uvarint_loop-put_uvarint}

-- `m` appends `bs` to its buffer and returns their number and no error.
abbrev pub Wrote : Write (List ℕ) Count → List ℕ → Type 0
Wrote m bs = (s : List ℕ) → m s ≡ returned (length bs, none) (s ++ bs)

-- What `m` writes into an empty buffer.
unfoldable pub emit : Write (List ℕ) Count → List ℕ
emit m = elim (m []) [ returned c s ↦ s | panicked ↦ [] ]

pub emit-Wrote : (m : Write (List ℕ) Count) (bs : List ℕ) → Wrote m bs → emit m ≡ bs
unfolding emit
emit-Wrote m bs h = rw (h [], emit)

-- The bytes of a varint.
unfoldable pub varint : ℕ → List ℕ
varint v = emit (write_varint63 buffer v)

put_and_write-Wrote :
    (v : ℕ) (bs : List ℕ) → put_uvarint 9 v ≡ some bs → Wrote (put_and_write buffer v) bs
unfolding put_and_write
put_and_write-Wrote v bs e s = rw (e, put_and_write)

write_varint63-put : (v : ℕ) → v ≤ max_int64 → write_varint63 buffer v ≡ put_and_write buffer v
unfolding write_varint63
write_varint63-put v h = rw (le→ltb max_int64 v h)

write_varint31-put : (v : ℕ) → v ≤ max_int32 → write_varint31 buffer v ≡ put_and_write buffer v
unfolding write_varint31
write_varint31-put v h = rw (le→ltb max_int32 v h)

pub put_uvarint-varint : (v : ℕ) → v ≤ max_int64 → put_uvarint 9 v ≡ some (varint v)
unfolding varint
put_uvarint-varint v h =
    let (bs, e) = put_uvarint_fits 8 v (omega arith) in
    e ∙ ap some (sym (emit-Wrote _ bs (rw (write_varint63-put v h) (put_and_write-Wrote v bs e))))

pub write_varint63-Wrote : (v : ℕ) → v ≤ max_int64 → Wrote (write_varint63 buffer v) (varint v)
write_varint63-Wrote v h =
    rw (write_varint63-put v h) (put_and_write-Wrote v (varint v) (put_uvarint-varint v h))

pub write_varint31-Wrote : (v : ℕ) → v ≤ max_int32 → Wrote (write_varint31 buffer v) (varint v)
write_varint31-Wrote v h =
    rw (write_varint31-put v h)
      (put_and_write-Wrote v (varint v) (put_uvarint-varint v (omega arith)))

pub length-varint : (v : ℕ) → v ≤ max_int64 → (1 ≤ length (varint v)) × (length (varint v) ≤ 9)
length-varint v h = length-put_uvarint 9 v (varint v) (put_uvarint-varint v h)

pub Reads-read_uvarint : (v : ℕ) → v ≤ max_int64 → Reads read_uvarint (varint v) v
unfolding read_uvarint
Reads-read_uvarint v h rest =
    ground
      (arith, read_uvarint_loop-put_uvarint 9 10 0 0 0 v (varint v) rest (put_uvarint-varint v h))

pub Reads-read_varint63 : (v : ℕ) → v ≤ max_int64 → Reads read_varint63 (varint v) v
unfolding read_varint63
Reads-read_varint63 v h rest = rw (Reads-read_uvarint v h rest, le→ltb max_int64 v h)

pub Reads-read_varint31 : (v : ℕ) → v ≤ max_int32 → Reads read_varint31 (varint v) v
unfolding read_varint31
Reads-read_varint31 v h rest = rw (Reads-read_uvarint v (omega arith) rest, le→ltb max_int32 v h)

-- A read of a varint takes a prefix of at most ten bytes.
pub read_uvarint_loop-Taken :
    (left i x s : ℕ) (r : Reader) (v : ℕ) (r' : Reader)
    → read_uvarint_loop left i x s r ≡ (ok v, r')
    → Taken (read_uvarint_loop left i x s) r v r'
unfolding read_uvarint_loop
read_uvarint_loop-Taken zero i x s r v r' e = absurd (cc)
read_uvarint_loop-Taken (suc left) i x s [] v r' e = absurd (cc)
read_uvarint_loop-Taken (suc left) i x s (b ∷ buf) v r' e = elim (Bool-cases (ltb b 128)) [
  | inl last ↦ record { taken = b ∷ []; splits = ground arith; reads = λ rest. ground arith }
  | inr more ↦
      let t =
        read_uvarint_loop-Taken left (i + 1) (x + b % 128 * 2 ^ s % 2 ^ 64) (s + 7) buf v r'
          (ground arith) in
      record {
        taken = b ∷ t.taken;
        splits = ap (◌∷◌ b) t.splits;
        reads = λ rest. rw more (t.reads rest);
      }
]

pub IsPrefixRead-read_uvarint : IsPrefixRead read_uvarint
unfolding read_uvarint
IsPrefixRead-read_uvarint = record { at = read_uvarint_loop-Taken 10 0 0 0 }

pub IsPrefixRead-read_varint31 : IsPrefixRead read_varint31
unfolding read_varint31
IsPrefixRead-read_varint31 = search (prefix_rules, IsPrefixRead-read_uvarint)

pub IsPrefixRead-read_varint63 : IsPrefixRead read_varint63
unfolding read_varint63
IsPrefixRead-read_varint63 = search (prefix_rules, IsPrefixRead-read_uvarint)
