-- ===== src/Encoding/Strings.antt =====
-- Proofs about the string and list readers and writers of blockchain.go.
use btm_stats.Base.{
  ℕ, zero, suc, ◌≡◌, ◌≤◌, refl, sym, ap, ◌∙◌, false, none, some, List, [], ◌∷◌, ◌++◌, length, take,
  drop, ltb, ◌==◌, if◌then◌else◌, arith, Bool-cases, inl, inr, le→ltb, subst, All, append_assoc,
  append-nil, length-append, take-append-drop, take-append_self, drop-append_self, length-take,
}
use mathlib.Core.Path.{fun_ext}
use btm_stats.Errors.{unexpected_eof}
use btm_stats.Encoding.Reader.{Reader, Result, ok, err, Read, continue, pure}
use btm_stats.Encoding.Varint.{
  max_int32, read_varint31, read_varstr31, ListLoop, list_round, list_result, list_counted, checked,
  read_varstr_list_loop, read_varstr_list, extensible_result, read_extensible_string,
}
use btm_stats.Encoding.Reads.{
  Reads, IsPrefixRead, Reads-bind, IsPrefixRead-bind, IsPrefixRead-pure, IsPrefixRead-fail,
  IsPrefixRead-if, prefix_rules,
}
use btm_stats.Encoding.Varints.{varint, Reads-read_varint31, IsPrefixRead-read_varint31}
use btm_stats.Encoding.WriteStrings.{IsStr31, varstr, varstrs, varstr_list}

-- A string that a varint31 can count.

-- The part of ReadVarstr31 behind the count.
take_string : (l : ℕ) → Read (List ℕ)
take_string l r = if ltb (length r) l then (err unexpected_eof, r) else (ok (take l r), drop l r)

Reads-take_string : (str : List ℕ) → Reads (take_string (length str)) str str
unfolding take_string
Reads-take_string str rest = rw (
  le→ltb (length (str ++ rest)) (length str) (omega (arith, length-append str rest)),
  take-append_self,
  drop-append_self,
)

IsPrefixRead-take_string : (l : ℕ) → IsPrefixRead (take_string l)
IsPrefixRead-take_string l = record {
  at = λ r p r' e.
      let (e1, e2, e3) = inversion r p r' e in
      record {
        taken = p;
        splits = rw (← e1, ← e2) (sym (take-append-drop l r));
        reads = subst (λ k. Reads (take_string k) p p) e3 (Reads-take_string p);
      };
}
  where
    inversion :
        (r p r' : List ℕ)
        → take_string l r ≡ (ok p, r')
        → (take l r ≡ p) × (drop l r ≡ r') × (length p ≡ l)
    inversion r p r' e = unfold take_string in ground (arith, length-take l r)

suc-ne-zero : (n : ℕ) → (suc n == 0) ≡ false
suc-ne-zero n = ground arith

take_string_or_nil : ℕ → Read (List ℕ)
take_string_or_nil l = if l == 0 then pure [] else take_string l

Reads-take_string_or_nil : (str : List ℕ) → Reads (take_string_or_nil (length str)) str str
unfolding take_string_or_nil
Reads-take_string_or_nil [] rest = refl
Reads-take_string_or_nil (b ∷ bs) rest =
    rw (suc-ne-zero (length bs)) (Reads-take_string (b ∷ bs) rest)

pub Reads-read_varstr31 : (str : List ℕ) → IsStr31 str → Reads read_varstr31 (varstr str) str
unfolding read_varstr31
Reads-read_varstr31 str h =
    unfold take_string take_string_or_nil in
    Reads-bind read_varint31 take_string_or_nil (varint (length str)) str (length str) str
      (Reads-read_varint31 (length str) h) (Reads-take_string_or_nil str)

pub IsPrefixRead-read_varstr31 : IsPrefixRead read_varstr31
unfolding read_varstr31
IsPrefixRead-read_varstr31 =
    unfold take_string in
    search (prefix_rules, IsPrefixRead-read_varint31, IsPrefixRead-take_string)

-- ReadVarstrList

read_varstr_list_loop-Reads :
    (l result : List (List ℕ)) (rest : List ℕ)
    → All IsStr31 l
    → read_varstr_list_loop (length l) result (varstrs l ++ rest) ≡ ((0, result ++ l, none), rest)
unfolding read_varstr_list_loop
read_varstr_list_loop-Reads [] result rest h = rw append-nil
read_varstr_list_loop-Reads (s ∷ l) result rest (hs, hl) =
    rw (append_assoc (varstr s) (varstrs l) rest, Reads-read_varstr31 s hs (varstrs l ++ rest))
      (read_varstr_list_loop-Reads l (result ++ (s ∷ [])) rest hl ∙ rw append_assoc)

pub Reads-read_varstr_list :
    (l : List (List ℕ))
    → length l ≤ max_int32
    → All IsStr31 l
    → Reads read_varstr_list (varstr_list l) l
unfolding read_varstr_list
Reads-read_varstr_list [] h hl rest =
    rw (append_assoc (varint 0) [] rest, Reads-read_varint31 0 h rest)
Reads-read_varstr_list (s ∷ l) h hl rest =
    rw
      (
        append_assoc (varint (length (s ∷ l))) (varstrs (s ∷ l)) rest,
        Reads-read_varint31 (length (s ∷ l)) h (varstrs (s ∷ l) ++ rest),
        suc-ne-zero (length l),
        read_varstr_list_loop-Reads (s ∷ l) [] rest hl,
      )
      (ground arith)

list_round-ok :
    (next : List (List ℕ) → Reader → ListLoop) (n : ℕ) (result : List (List ℕ))
    (x : Result (List ℕ) × Reader) (k : ℕ) (l : List (List ℕ)) (r' : Reader)
    → list_round next n result x ≡ ((k, l, none), r')
    → (s : List ℕ) × (r : Reader) × (x ≡ (ok s, r))
      × (next (result ++ (s ∷ [])) r ≡ ((k, l, none), r'))
list_round-ok next n result (ok s, r) k l r' e = (s, r, refl, e)
list_round-ok next n result (err z, r) k l r' e = absurd (cc)

-- A loop that ends without an error has counted down to 0 and taken a prefix.
read_varstr_list_loop-ok :
    (n : ℕ) (result : List (List ℕ)) (r : Reader) (k : ℕ) (l : List (List ℕ)) (r' : Reader)
    → read_varstr_list_loop n result r ≡ ((k, l, none), r')
    → (c : List ℕ) × (r ≡ c ++ r')
      × ((rest : List ℕ) → read_varstr_list_loop n result (c ++ rest) ≡ ((0, l, none), rest))
unfolding read_varstr_list_loop
read_varstr_list_loop-ok zero result r k l r' e = ([], ap (λ p. p.1) e, λ rest. ground arith)
read_varstr_list_loop-ok (suc n) result r k l r' e =
    let (s, r1, p, q) =
      list_round-ok (read_varstr_list_loop n) n result (read_varstr31 r) k l r' e in
    let t = IsPrefixRead-read_varstr31.at r s r1 p in
    let (c, splits, reads) = read_varstr_list_loop-ok n (result ++ (s ∷ [])) r1 k l r' q in
    (
      t.taken ++ c,
      t.splits ∙ ap (λ z. t.taken ++ z) splits ∙ sym (append_assoc t.taken c r'),
      λ rest. rw (append_assoc, t.reads (c ++ rest)) (reads rest),
    )

checked-ok :
    (x : ListLoop) (l : List (List ℕ)) (r' : Reader)
    → checked (list_result x) ≡ (ok l, r')
    → x ≡ ((x.0.0, l, none), r')
checked-ok ((k, m, none), r) l r' e = ground arith
checked-ok ((k, m, some z), r) l r' e = ground arith

checked_loop : ℕ → Read (List (List ℕ))
checked_loop n r = checked (list_result (read_varstr_list_loop n [] r))

IsPrefixRead-checked_loop : (n : ℕ) → IsPrefixRead (checked_loop n)
unfolding checked_loop
IsPrefixRead-checked_loop n = record {
  at = λ r l r' e.
      let x = read_varstr_list_loop n [] r in
      let (c, splits, reads) = read_varstr_list_loop-ok n [] r x.0.0 l r' (checked-ok x l r' e) in
      record { taken = c; splits = splits; reads = λ rest. rw (reads rest) (ground arith) };
}

list_after_count : ℕ → Read (List (List ℕ))
list_after_count n = if n == 0 then pure [] else checked_loop n

IsPrefixRead-list_after_count : (n : ℕ) → IsPrefixRead (list_after_count n)
unfolding list_after_count
IsPrefixRead-list_after_count n =
    IsPrefixRead-if (n == 0) (pure []) (checked_loop n) (λ _. IsPrefixRead-pure [])
      (λ _. IsPrefixRead-checked_loop n)

list_counted-bind :
    (x : Result ℕ × Reader) → checked (list_counted x) ≡ continue x.0 list_after_count x.1
unfolding list_after_count checked_loop
list_counted-bind (err e, r) = refl
list_counted-bind (ok n, r) = elim (Bool-cases (n == 0)) [ inl z ↦ rw z | inr z ↦ rw z ]

pub IsPrefixRead-read_varstr_list : IsPrefixRead read_varstr_list
unfolding read_varstr_list
IsPrefixRead-read_varstr_list = rw (fun_ext (λ r. list_counted-bind (read_varint31 r))) (
    IsPrefixRead-bind read_varint31 list_after_count IsPrefixRead-read_varint31
      IsPrefixRead-list_after_count)

extensible_result-IsPrefixRead :
    {A : Type 0} (x : Result A × Reader) → IsPrefixRead (extensible_result x)
extensible_result-IsPrefixRead (ok a, r) = IsPrefixRead-pure (a, r)
extensible_result-IsPrefixRead (err e, r) = IsPrefixRead-fail e

-- What f reads from the front of the string, with the rest of the string as the suffix.
pub Reads-read_extensible_string :
    {A : Type 0} (f : Read A) (body suffix : List ℕ) (a : A)
    → Reads f body a
    → IsStr31 (body ++ suffix)
    → Reads (read_extensible_string f) (varstr (body ++ suffix)) (a, suffix)
unfolding read_extensible_string
Reads-read_extensible_string f body suffix a hf h rest =
    rw (Reads-read_varstr31 (body ++ suffix) h rest, hf suffix)

pub IsPrefixRead-read_extensible_string :
    {A : Type 0} (f : Read A) → IsPrefixRead (read_extensible_string f)
unfolding read_extensible_string
IsPrefixRead-read_extensible_string f =
    IsPrefixRead-bind read_varstr31 (λ s. extensible_result (f s)) IsPrefixRead-read_varstr31
      (λ s. extensible_result-IsPrefixRead (f s))
