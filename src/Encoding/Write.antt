-- ===== src/Encoding/Write.antt =====
-- The writing half of encoding/blockchain/blockchain.go, over any io.Writer.
use btm_stats.Base.{ℕ, ◌+◌, Option, none, some, List, [], ◌∷◌, length, ltb, if◌then◌else◌}
use btm_stats.Errors.{Error, value_out_of_range}
use btm_stats.Io.{Count, Writer, buffer, returned, panicked, Write, ◌>>=◌, pure, send}
use btm_stats.Encoding.Varint.{max_int32, max_int64, put_uvarint}

module _ {S : Type 0} (w : Writer S) where
  -- PutUvarint into the pool's buffer of nine bytes, and one Write of the bytes put
  unfoldable pub put_and_write : ℕ → Write S Count
  put_and_write val = elim (put_uvarint 9 val) [ none ↦ (λ s. panicked) | some bs ↦ send w bs ]

  -- WriteVarint31
  unfoldable pub write_varint31 : ℕ → Write S Count
  unfolding put_and_write
  write_varint31 val =
      if ltb max_int32 val then pure (0, some value_out_of_range) else put_and_write val

  -- WriteVarint63
  unfoldable pub write_varint63 : ℕ → Write S Count
  unfolding put_and_write
  write_varint63 val =
      if ltb max_int64 val then pure (0, some value_out_of_range) else put_and_write val

  -- WriteVarstr31 after WriteVarint31
  unfoldable pub write_counted : List ℕ → Count → Write S Count
  write_counted str (n, some e) = pure (n, some e)
  write_counted str (n, none) = do (n2, err2) ← send w str; pure (n + n2, err2)

  -- WriteVarstr31
  unfoldable pub write_varstr31 : List ℕ → Write S Count
  unfolding write_counted
  write_varstr31 str = do counted ← write_varint31 (length str); write_counted str counted

  -- one round of the loop of WriteVarstrList, after WriteVarstr31; `next` is the loop over the rest
  abbrev pub varstr_round : (ℕ → Write S Count) → ℕ → Count → Write S Count
  varstr_round next n (n2, some e) = pure (n + n2, some e)
  varstr_round next n (n2, none) = next (n + n2)

  -- the loop of WriteVarstrList, with the count n so far
  unfoldable pub write_varstrs : List (List ℕ) → ℕ → Write S Count
  write_varstrs [] n = pure (n, none)
  write_varstrs (s ∷ l) n = do written ← write_varstr31 s; varstr_round (write_varstrs l) n written

  -- WriteVarstrList after WriteVarint31
  unfoldable pub write_elements : List (List ℕ) → Count → Write S Count
  unfolding write_varstrs
  write_elements l (n, some e) = pure (n, some e)
  write_elements l (n, none) = write_varstrs l n

  -- WriteVarstrList
  unfoldable pub write_varstr_list : List (List ℕ) → Write S Count
  unfolding write_elements
  write_varstr_list l = do counted ← write_varint31 (length l); write_elements l counted

-- WriteExtensibleString: f writes into a buffer of its own
-- and reports an error or nil.
module _ {S : Type 0} (w : Writer S) where
  -- `if len(suffix) > 0 { buf.Write(suffix) }`, which cannot fail on a buffer, then WriteVarstr31
  unfoldable pub write_buffered : List ℕ → Option Error → List ℕ → Write S Count
  write_buffered suffix (some e) buf = pure (0, some e)
  write_buffered [] none buf = write_varstr31 w buf
  write_buffered (b ∷ bs) none buf = write_varstr31 w ((buffer.write (b ∷ bs) buf).1)

  unfoldable pub write_extensible_string : List ℕ → Write (List ℕ) (Option Error) → Write S Count
  unfolding write_buffered
  write_extensible_string suffix f s = elim (f []) [
    | panicked ↦ panicked
    | returned err buf ↦ write_buffered suffix err buf s
  ]
