-- ===== src/Encoding/Laws.antt =====
-- What the readers and writers of encoding/blockchain/blockchain.go promise together.
use btm_stats.Base.{
  ℕ, zero, suc, ◌+◌, ◌≡◌, ◌≤◌, refl, ◌∙◌, false, Option, none, some, List, [], ◌∷◌, ◌++◌, length,
  All, arith, ltb, ◌==◌, if◌then◌else◌, append_assoc, Bool-cases, inl, inr, ltb→le, append-nil,
  length-append,
}
use btm_stats.Errors.{Error, value_out_of_range, unexpected_eof}
use btm_stats.Io.{Count, Writer, buffer, returned, Write, ◌>>=◌ as bind_write, send}
use btm_stats.Encoding.Reader.{Reader, Read, ok, err}
use btm_stats.Encoding.Varint.{
  max_int32, max_int64, read_uvarint, read_varint31, read_varint63, read_varstr31,
  read_varstr_list_both, read_varstr_list_loop, read_varstr_list, read_extensible_string,
}
use btm_stats.Encoding.Write.{
  put_and_write, write_counted, varstr_round, write_elements, write_varint31, write_varint63,
  write_varstr31, write_varstrs, write_varstr_list, write_extensible_string,
}
use btm_stats.Encoding.Reads.{Reads}
use btm_stats.Encoding.Varints.{
  put_uvarint-varint, Wrote, varint, write_varint31-Wrote, write_varint63-Wrote,
  Reads-read_varint31, Reads-read_varint63, length-varint,
}
use btm_stats.Encoding.Strings.{
  Reads-read_varstr31, Reads-read_varstr_list, Reads-read_extensible_string,
}
use btm_stats.Encoding.WriteStrings.{
  IsStr31, varstr, varstrs, varstr_list, write_varstr31-Wrote, write_varstr_list-Wrote,
  write_extensible_string-Wrote,
}

-- A number that WriteVarint63 accepts is written in 1 to 9 bytes, and ReadVarint63 reads it back
-- from them, whatever follows.
pub read-write_varint63 :
    (v : ℕ)
    → v ≤ max_int64
    → (bs : List ℕ) × Wrote (write_varint63 buffer v) bs
      × Reads read_varint63 bs v
      × (1 ≤ length bs)
      × (length bs ≤ 9)
read-write_varint63 v h =
    let (lo, hi) = length-varint v h in
    (varint v, write_varint63-Wrote v h, Reads-read_varint63 v h, lo, hi)

-- The same for WriteVarint31 and ReadVarint31.
pub read-write_varint31 :
    (v : ℕ)
    → v ≤ max_int32
    → (bs : List ℕ) × Wrote (write_varint31 buffer v) bs × Reads read_varint31 bs v
read-write_varint31 v h = (varint v, write_varint31-Wrote v h, Reads-read_varint31 v h)

-- A string of at most MaxInt32 bytes is read back by ReadVarstr31 from what WriteVarstr31 wrote.
pub read-write_varstr31 :
    (str : List ℕ)
    → IsStr31 str
    → (bs : List ℕ) × Wrote (write_varstr31 buffer str) bs × Reads read_varstr31 bs str
read-write_varstr31 str h = (varstr str, write_varstr31-Wrote str h, Reads-read_varstr31 str h)

-- A list of at most MaxInt32 such strings is read back by ReadVarstrList from what WriteVarstrList
-- wrote.
pub read-write_varstr_list :
    (l : List (List ℕ))
    → length l ≤ max_int32
    → All IsStr31 l
    → (bs : List ℕ) × Wrote (write_varstr_list buffer l) bs × Reads read_varstr_list bs l
read-write_varstr_list l h hl =
    (varstr_list l, write_varstr_list-Wrote l h hl, Reads-read_varstr_list l h hl)

-- What f writes behind a length, with a suffix, ReadExtensibleString gives to a g that reads it:
-- the value and the suffix come back.
pub read-write_extensible_string :
    {A : Type 0} (f : Write (List ℕ) (Option Error)) (g : Read A) (body suffix : List ℕ) (a : A)
    → f [] ≡ returned none body
    → Reads g body a
    → IsStr31 (body ++ suffix)
    → (bs : List ℕ) × Wrote (write_extensible_string buffer suffix f) bs
      × Reads (read_extensible_string g) bs (a, suffix)
read-write_extensible_string f g body suffix a hf hg h = (
  varstr (body ++ suffix),
  write_extensible_string-Wrote suffix body f hf h,
  Reads-read_extensible_string g body suffix a hg h,
)

-- Out of range WriteVarint63 makes no call of Write and reports ErrRange; in range it makes one
-- call of Write, on any writer, and returns what that returned: the index into the pool's buffer of
-- nine bytes never panics.
pub write_varint63_calls :
    {S : Type 0} (w : Writer S) (v : ℕ) (s : S)
    → write_varint63 w v s
      ≡ (if ltb max_int64 v then returned (0, some value_out_of_range) s else send w (varint v) s)
unfolding write_varint63
write_varint63_calls w v s = elim (Bool-cases (ltb max_int64 v)) [
  | inl large ↦ rw large
  | inr small ↦ rw (small, put_uvarint-varint v (ltb→le max_int64 v small), put_and_write)
]

-- The same for WriteVarint31.
pub write_varint31_calls :
    {S : Type 0} (w : Writer S) (v : ℕ) (s : S)
    → write_varint31 w v s
      ≡ (if ltb max_int32 v then returned (0, some value_out_of_range) s else send w (varint v) s)
unfolding write_varint31
write_varint31_calls w v s = elim (Bool-cases (ltb max_int32 v)) [
  | inl large ↦ rw large
  | inr small ↦ rw (
    small,
    put_uvarint-varint v (let le = ltb→le max_int32 v small in omega arith),
    put_and_write,
  )
]

Returns-bind :
    {S A B : Type 0} (m : Write S A) (f : A → Write S B)
    → ((s : S) → (a : A) × (t : S) × (m s ≡ returned a t))
    → ((a : A) (s : S) → (b : B) × (t : S) × (f a s ≡ returned b t))
    → (s : S) → (b : B) × (t : S) × (bind_write m f s ≡ returned b t)
Returns-bind m f hm hf s = let (a, t, e) = hm s in let (b, u, e') = hf a t in (b, u, rw e e')

write_varint31-returns :
    {S : Type 0} (w : Writer S) (v : ℕ) (s : S)
    → (c : Count) × (t : S) × (write_varint31 w v s ≡ returned c t)
write_varint31-returns w v s = elim (Bool-cases (ltb max_int32 v)) [
  | inl large ↦ ((0, some value_out_of_range), s, write_varint31_calls w v s ∙ rw large)
  | inr small ↦
      ((w.write (varint v) s).0, (w.write (varint v) s).1, write_varint31_calls w v s ∙ rw small)
]

write_counted-returns :
    {S : Type 0} (w : Writer S) (str : List ℕ) (c : Count) (t : S)
    → (d : Count) × (u : S) × (write_counted w str c t ≡ returned d u)
unfolding write_counted
write_counted-returns w str (n, some e) t = ((n, some e), t, refl)
write_counted-returns w str (n, none) t = let (c, u) = w.write str t in ((n + c.0, c.1), u, refl)

write_varstr31-returns :
    {S : Type 0} (w : Writer S) (str : List ℕ) (s : S)
    → (c : Count) × (t : S) × (write_varstr31 w str s ≡ returned c t)
unfolding write_varstr31
write_varstr31-returns w str =
    Returns-bind (write_varint31 w (length str)) (write_counted w str)
      (write_varint31-returns w (length str)) (write_counted-returns w str)

varstr_round-returns :
    {S : Type 0} (w : Writer S) (next : ℕ → Write S Count) (n : ℕ)
    → ((k : ℕ) (t : S) → (d : Count) × (u : S) × (next k t ≡ returned d u))
    → (c : Count) (t : S) → (d : Count) × (u : S) × (varstr_round w next n c t ≡ returned d u)
varstr_round-returns w next n h (n2, some e) t = ((n + n2, some e), t, refl)
varstr_round-returns w next n h (n2, none) t = h (n + n2) t

write_varstrs-returns :
    {S : Type 0} (w : Writer S) (l : List (List ℕ)) (n : ℕ) (s : S)
    → (c : Count) × (t : S) × (write_varstrs w l n s ≡ returned c t)
unfolding write_varstrs
write_varstrs-returns w [] n s = ((n, none), s, refl)
write_varstrs-returns w (x ∷ l) n s =
    Returns-bind (write_varstr31 w x) (varstr_round w (write_varstrs w l) n)
      (write_varstr31-returns w x)
      (varstr_round-returns w (write_varstrs w l) n (λ k. write_varstrs-returns w l k)) s

-- WriteVarstrList returns for every list, on any writer: none of its index operations panics.
pub write_varstr_list-returns :
    {S : Type 0} (w : Writer S) (l : List (List ℕ)) (s : S)
    → (c : Count) × (t : S) × (write_varstr_list w l s ≡ returned c t)
unfolding write_varstr_list
write_varstr_list-returns {S} w l =
    Returns-bind (write_varint31 w (length l)) (write_elements w l)
      (write_varint31-returns w (length l)) elements
  where
    elements : (c : Count) (t : S) → (d : Count) × (u : S) × (write_elements w l c t ≡ returned d u)
    elements (n, some e) t = ((n, some e), t, refl)
    elements (n, none) t = write_varstrs-returns w l n t

-- What ReadVarint31 accepts is at most MaxInt32: a greater number, read in full, is ErrRange.
pub read_varint31_range :
    (r r' : Reader) (v : ℕ)
    → read_uvarint r ≡ (ok v, r')
    → read_varint31 r ≡ ((if ltb max_int32 v then err value_out_of_range else ok v), r')
unfolding read_varint31
read_varint31_range r r' v h = elim (Bool-cases (ltb max_int32 v)) [
  | inl large ↦ rw (h, large)
  | inr small ↦ rw (h, small)
]

positive : (m n : ℕ) → (m + suc n == 0) ≡ false
positive m n = ground arith

list_loop_error :
    (l result : List (List ℕ)) (n missing : ℕ) (rest r' : Reader) (e : Error)
    → n ≡ length l + suc missing
    → All IsStr31 l
    → read_varstr31 rest ≡ (err e, r')
    → read_varstr_list_loop n result (varstrs l ++ rest)
      ≡ ((missing, (result ++ l) ++ ([] ∷ []), some e), r')
unfolding read_varstr_list_loop
list_loop_error [] result zero missing rest r' e q hl bad = absurd (omega arith)
list_loop_error [] result (suc n) missing rest r' e q hl bad =
    let same : n ≡ missing = omega arith in rw (bad, same, append-nil result)
list_loop_error (s ∷ l) result zero missing rest r' e q hl bad = absurd (omega arith)
list_loop_error (s ∷ l) result (suc n) missing rest r' e q (hs, hl) bad =
    rw (append_assoc (varstr s) (varstrs l) rest, Reads-read_varstr31 s hs (varstrs l ++ rest))
      (list_loop_error l (result ++ (s ∷ [])) n missing rest r' e (omega arith) hl bad
        ∙ rw (append_assoc result (s ∷ []) l))

-- Where a string of a counted list fails with e behind the strings l, ReadVarstrList returns l, an
-- empty string for the one that failed, and an error. The error is e only if not more strings are
-- missing behind the failed one than the result holds; else it is io.ErrUnexpectedEOF.
pub read_varstr_list_error :
    (l : List (List ℕ)) (missing : ℕ) (rest r' : Reader) (e : Error)
    → length l + suc missing ≤ max_int32
    → All IsStr31 l
    → read_varstr31 rest ≡ (err e, r')
    → read_varstr_list_both (varint (length l + suc missing) ++ (varstrs l ++ rest))
      ≡ ((l ++ ([] ∷ []), some (if ltb (length l + 1) missing then unexpected_eof else e)), r')
unfolding read_varstr_list_both
read_varstr_list_error l missing rest r' e h hl bad =
    let n = length l + suc missing in
    rw
      (
        Reads-read_varint31 n h (varstrs l ++ rest),
        positive (length l) missing,
        list_loop_error l [] n missing rest r' e refl hl bad,
      )
      (ground (arith, length-append l ([] ∷ [])))
