-- ===== src/Encoding/Varint.antt =====
-- The varints: encoding/binary's PutUvarint and ReadUvarint, and the readers of blockchain.go.
use btm_stats.Base.{
  ℕ, zero, suc, ◌+◌, ◌-◌, ◌*◌, ◌/◌, ◌%◌, ◌^◌, ◌&&◌, Option, none, some, List, [], ◌∷◌, ◌++◌, length,
  take, drop, ltb, ◌==◌, if◌then◌else◌,
}
use btm_stats.Errors.{Error, eof, unexpected_eof, overflow, value_out_of_range}
use btm_stats.Encoding.Reader.{Result, Reader, ok, err, Read, ◌>>=◌, pure, fail, new_reader}

-- math.MaxInt32, math.MaxInt64
abbrev pub max_int32 : ℕ
max_int32 = 2 ^ 31 - 1

abbrev pub max_int64 : ℕ
max_int64 = 2 ^ 63 - 1

-- binary.PutUvarint into a buffer with `room` bytes. `none` is the index panic.
-- For a byte, `byte(x) | 0x80` is `x % 128 + 128`.
unfoldable pub put_uvarint : ℕ → ℕ → Option (List ℕ)
put_uvarint zero x = none
put_uvarint (suc room) x =
    let rest = put_uvarint room (x / 128) in
    if ltb x 128
    then some (x ∷ [])
    else elim rest [ none ↦ none | some bs ↦ some ((x % 128 + 128) ∷ bs) ]

-- The loop of binary.ReadUvarint: round i of MaxVarintLen64 = 10, of which `left` remain. The bits
-- of x lie below the shift s, so that `|` is `+`.
unfoldable pub read_uvarint_loop : ℕ → ℕ → ℕ → ℕ → Read ℕ
read_uvarint_loop zero i x s buf = (err overflow, buf)
read_uvarint_loop (suc left) i x s [] = (err (if i == 0 then eof else unexpected_eof), [])
read_uvarint_loop (suc left) i x s (b ∷ buf) =
    let more = read_uvarint_loop left (i + 1) (x + b % 128 * 2 ^ s % 2 ^ 64) (s + 7) buf in
    if ltb b 128
    then (if i == 9 && ltb 1 b then (err overflow, buf) else (ok (x + b * 2 ^ s % 2 ^ 64), buf))
    else more

-- binary.ReadUvarint
unfoldable pub read_uvarint : Read ℕ
unfolding read_uvarint_loop
read_uvarint r = read_uvarint_loop 10 0 0 0 r

-- ReadVarint31
unfoldable pub read_varint31 : Read ℕ
read_varint31 = do
  val ← read_uvarint
  if ltb max_int32 val then fail value_out_of_range else pure val

-- ReadVarint63
unfoldable pub read_varint63 : Read ℕ
read_varint63 = do
  val ← read_uvarint
  if ltb max_int64 val then fail value_out_of_range else pure val

-- ReadVarstr31
unfoldable pub read_varstr31 : Read (List ℕ)
read_varstr31 = do
  l ← read_varint31
  if l == 0 then pure [] else λ r.
      if ltb (length r) l then (err unexpected_eof, r) else (ok (take l r), drop l r)

-- The results of ReadVarstrList's loop: the count that is left, the result, and err.
abbrev pub ListLoop : Type 0
ListLoop = (ℕ × List (List ℕ) × Option Error) × Reader

-- one round, after ReadVarstr31; `next` is the loop with one string less to read
abbrev pub list_round :
    (List (List ℕ) → Reader → ListLoop) → ℕ → List (List ℕ) → Result (List ℕ) × Reader → ListLoop
list_round next nelts result (ok s, r) = next (result ++ (s ∷ [])) r
list_round next nelts result (err e, r) = ((nelts, result ++ ([] ∷ []), some e), r)

-- The loop of ReadVarstrList, which goes on while nelts > 0 and err is nil.
unfoldable pub read_varstr_list_loop : ℕ → List (List ℕ) → Reader → ListLoop
read_varstr_list_loop zero result r = ((0, result, none), r)
read_varstr_list_loop (suc nelts) result r =
    list_round (read_varstr_list_loop nelts) nelts result (read_varstr31 r)

-- what ReadVarstrList returns after the loop
abbrev pub list_result : ListLoop → (List (List ℕ) × Option Error) × Reader
list_result ((nelts, result, e), r) =
    ((result, (if ltb (length result) nelts then some unexpected_eof else e)), r)

-- ReadVarstrList after ReadVarint31
abbrev pub list_counted : Result ℕ × Reader → (List (List ℕ) × Option Error) × Reader
list_counted (err e, r) = (([], some e), r)
list_counted (ok n, r) =
    if n == 0 then (([], none), r) else list_result (read_varstr_list_loop n [] r)

-- ReadVarstrList, with both of its results
unfoldable pub read_varstr_list_both : Reader → (List (List ℕ) × Option Error) × Reader
unfolding read_varstr_list_loop
read_varstr_list_both r = list_counted (read_varint31 r)

-- what a caller goes on with that returns where the error is not nil
abbrev pub checked : {A : Type 0} → (A × Option Error) × Reader → Result A × Reader
checked ((a, none), r) = (ok a, r)
checked ((a, some e), r) = (err e, r)

-- ReadVarstrList for such a caller
unfoldable pub read_varstr_list : Read (List (List ℕ))
unfolding read_varstr_list_both
read_varstr_list r = checked (read_varstr_list_both r)

-- what ReadExtensibleString returns after the call of f
abbrev pub extensible_result : {A : Type 0} → Result A × Reader → Read (A × List ℕ)
extensible_result (ok a, suffix) = pure (a, suffix)
extensible_result (err e, suffix) = fail e

-- ReadExtensibleString: what f read from the string, and the suffix that it left
unfoldable pub read_extensible_string : {A : Type 0} → Read A → Read (A × List ℕ)
read_extensible_string f = do s ← read_varstr31; extensible_result (f (new_reader s))
