-- ===== src/Encoding/WriteStrings.antt =====
-- What the writers of strings and lists of strings write.
use btm_stats.Base.{
  ℕ, ◌+◌, ◌≡◌, ◌≤◌, Option, none, List, [], ◌∷◌, ◌++◌, length, arith, All, append_assoc, append-nil,
  length-append,
}
use btm_stats.Errors.{Error}
use btm_stats.Io.{buffer, returned, Write}
use btm_stats.Encoding.Varint.{max_int32}
use btm_stats.Encoding.Write.{
  write_varstr31, write_varstrs, write_varstr_list, write_extensible_string,
}
use btm_stats.Encoding.Varints.{Wrote, varint, write_varint31-Wrote}

abbrev pub IsStr31 : List ℕ → Type 0
IsStr31 str = length str ≤ max_int32

-- The bytes of a string, and of a list of strings.
abbrev pub varstr : List ℕ → List ℕ
varstr str = varint (length str) ++ str

abbrev pub varstrs : List (List ℕ) → List ℕ
varstrs [] = []
varstrs (s ∷ l) = varstr s ++ varstrs l

abbrev pub varstr_list : List (List ℕ) → List ℕ
varstr_list l = varint (length l) ++ varstrs l

pub write_varstr31-Wrote :
    (str : List ℕ) → IsStr31 str → Wrote (write_varstr31 buffer str) (varstr str)
unfolding write_varstr31
write_varstr31-Wrote str h s = rw (write_varint31-Wrote (length str) h s) (
    ground
      (arith, append_assoc s (varint (length str)) str, length-append (varint (length str)) str))

pub write_varstrs-Wrote :
    (l : List (List ℕ)) (n : ℕ) (s : List ℕ)
    → All IsStr31 l
    → write_varstrs buffer l n s ≡ returned (n + length (varstrs l), none) (s ++ varstrs l)
unfolding write_varstrs
write_varstrs-Wrote [] n s h = ground (arith, append-nil s)
write_varstrs-Wrote (x ∷ l) n s (hx, hl) =
    rw
      (
        write_varstr31-Wrote x hx s,
        write_varstrs-Wrote l (n + length (varstr x)) (s ++ varstr x) hl,
      )
      (ground (arith, append_assoc s (varstr x) (varstrs l), length-append (varstr x) (varstrs l)))

pub write_varstr_list-Wrote :
    (l : List (List ℕ))
    → length l ≤ max_int32
    → All IsStr31 l
    → Wrote (write_varstr_list buffer l) (varstr_list l)
unfolding write_varstr_list
write_varstr_list-Wrote l h hl s =
    rw
      (
        write_varint31-Wrote (length l) h s,
        write_varstrs-Wrote l (length (varint (length l))) (s ++ varint (length l)) hl,
      )
      (ground (
        arith,
        append_assoc s (varint (length l)) (varstrs l),
        length-append (varint (length l)) (varstrs l),
      ))

-- The suffix is appended to what f wrote, empty or not.
pub write_extensible_string-Wrote :
    (suffix body : List ℕ) (f : Write (List ℕ) (Option Error))
    → f [] ≡ returned none body
    → IsStr31 (body ++ suffix)
    → Wrote (write_extensible_string buffer suffix f) (varstr (body ++ suffix))
unfolding write_extensible_string
write_extensible_string-Wrote [] body f e h s =
    rw (e, write_extensible_string, append-nil) (write_varstr31-Wrote body (rw append-nil at h) s)
write_extensible_string-Wrote (b ∷ bs) body f e h s =
    rw (e, write_extensible_string) (write_varstr31-Wrote (body ++ (b ∷ bs)) h s)
