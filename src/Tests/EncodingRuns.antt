-- ===== src/Tests/EncodingRuns.antt =====
-- Runs of encoding/blockchain and errors.
use btm_stats.Base.{
  ℕ, ◌+◌, ◌≡◌, refl, none, some, List, [], ◌∷◌, ◌++◌, length, arith, ltb, if◌then◌else◌,
}
use btm_stats.Errors.{other, value_out_of_range, unexpected_eof}
use btm_stats.Errors.Writer.{new_writer, write, write_each, err_of, written}
use btm_stats.Io.{Writer, buffer}
use btm_stats.Encoding.Reader.{ok, err}
use btm_stats.Encoding.Varint.{
  put_uvarint, read_uvarint, read_varint31, read_varstr31, read_varstr_list_both, read_varstr_list,
}
use btm_stats.Encoding.Write.{write_varint63, write_varstr_list}
use btm_stats.Encoding.Reads.{Reads}
use btm_stats.Encoding.Varints.{Wrote, emit, varint}
use btm_stats.Encoding.Laws.{read-write_varstr_list, read_varstr_list_error}
use btm_stats.Encoding.WriteStrings.{varstrs}

-- A writer that holds at most eight bytes, and reports a short write.
abbrev small : Writer (List ℕ)
small = record {
  write = λ p s.
      if ltb 8 (length (s ++ p)) then ((0, some (other "full")), s) else ((length p, none), s ++ p);
}

varint_300 : varint 300 ≡ 0xac ∷ 0x02 ∷ []
unfolding varint emit write_varint63 put_uvarint
varint_300 = refl

read_300 : read_varint31 (0xac ∷ 0x02 ∷ 7 ∷ []) ≡ (ok 300, 7 ∷ [])
unfolding read_varint31 read_uvarint
read_300 = refl

-- A padded form, which the writers never produce, is accepted.
read_padded : read_varint31 (0x80 ∷ 0x00 ∷ []) ≡ (ok 0, [])
unfolding read_varint31 read_uvarint
read_padded = refl

read_cut : read_varint31 (0x80 ∷ []) ≡ (err unexpected_eof, [])
unfolding read_varint31 read_uvarint
read_cut = refl

abbrev two : List (List ℕ)
two = (1 ∷ 2 ∷ []) ∷ [] ∷ []

read-write_varstr_list_example :
    (bs : List ℕ) × Wrote (write_varstr_list buffer two) bs × Reads read_varstr_list bs two
read-write_varstr_list_example = read-write_varstr_list two (omega arith) (omega arith)

read_uvarint_large : read_uvarint (varint 3000000000 ++ (7 ∷ [])) ≡ (ok 3000000000, 7 ∷ [])
unfolding read_uvarint varint emit write_varint63 put_uvarint
read_uvarint_large = refl

-- A count that is out of range, where a string should stand.
bad_string : read_varstr31 (0xff ∷ 0xff ∷ 0xff ∷ 0xff ∷ 0x7f ∷ []) ≡ (err value_out_of_range, [])
unfolding read_varstr31 read_varint31 read_uvarint
bad_string = refl

-- With one string more missing the error of the string is lost.
list_error_lost :
    read_varstr_list_both (5 ∷ 1 ∷ 1 ∷ 0xff ∷ 0xff ∷ 0xff ∷ 0xff ∷ 0x7f ∷ [])
    ≡ (((1 ∷ []) ∷ [] ∷ [], some unexpected_eof), [])
unfolding read_varstr_list_both read_varstr31 read_varint31 read_uvarint
list_error_lost = refl

-- One string of five is read, and three more are missing behind the one that fails.
read_varstr_list_error_example :
    read_varstr_list_both
      (varint (1 + 4) ++ (varstrs ((1 ∷ []) ∷ []) ++ (0xff ∷ 0xff ∷ 0xff ∷ 0xff ∷ 0x7f ∷ [])))
    ≡ (((1 ∷ []) ∷ [] ∷ [], some unexpected_eof), [])
read_varstr_list_error_example =
    read_varstr_list_error ((1 ∷ []) ∷ []) 3 (0xff ∷ 0xff ∷ 0xff ∷ 0xff ∷ 0x7f ∷ []) []
      value_out_of_range (omega arith) (omega arith, tt) bad_string

abbrev three_buffers : List (List ℕ)
three_buffers = (1 ∷ 2 ∷ 3 ∷ 4 ∷ []) ∷ (1 ∷ 2 ∷ 3 ∷ 4 ∷ 5 ∷ []) ∷ (6 ∷ []) ∷ []

sticky_runs :
    (written (write_each small three_buffers (new_writer [])) ≡ 4)
    × (err_of (write_each small three_buffers (new_writer [])) ≡ some (other "full"))
unfolding written err_of write_each write
sticky_runs = (refl, refl)
