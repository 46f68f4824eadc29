-- ===== src/Encoding/Reader.antt =====
-- The Reader of encoding/blockchain/blockchain.go, and code that reads from it.
-- A Reader is its one field, the unread bytes. Where a call fails, the state of the reader comes
-- back beside the error.
use btm_stats.Base.{
  ℕ, Option, none, some, List, [], ◌∷◌, length, take, drop, ◌==◌, if◌then◌else◌, String,
}
use btm_stats.Errors.{Error, eof, unexpected_eof, wrapped, wrapped_at}

-- Reader
abbrev pub Reader : Type 0
Reader = List ℕ

-- a value with no error, or an error
pub data Result {ℓ} (A : Type ℓ) : Type ℓ where
  ok : A → Result A
  err : Error → Result A

abbrev pub Read : Type 0 → Type 0
Read A = Reader → Result A × Reader

abbrev pub continue : {A B : Type 0} → Result A → (A → Read B) → Read B
continue (ok a) f r = f a r
continue (err e) f r = (err e, r)

-- `if a, err = m; err != nil { return err }`
infixl 5 ◌>>=◌ ◌>>◌
abbrev pub ◌>>=◌ : {A B : Type 0} → Read A → (A → Read B) → Read B
◌>>=◌ m f r = let (a, r') = m r in continue a f r'

abbrev pub ◌>>◌ : {A B : Type 0} → Read A → Read B → Read B
m >> n = m >>= λ _. n

abbrev pub pure : {A : Type 0} → A → Read A
pure a r = (ok a, r)

abbrev pub fail : {A : Type 0} → Error → Read A
fail e r = (err e, r)

-- the same with `return errors.Wrap(err, msg)`, and with `errors.Wrapf` of one number
abbrev pub wrap_result : {A : Type 0} → String → Result A → Result A
wrap_result msg (ok a) = ok a
wrap_result msg (err e) = err (wrapped msg e)

abbrev pub wrap_result_at : {A : Type 0} → String → ℕ → Result A → Result A
wrap_result_at msg n (ok a) = ok a
wrap_result_at msg n (err e) = err (wrapped_at msg n e)

abbrev pub wrapping : {A : Type 0} → String → Read A → Read A
wrapping msg m r = let (a, r') = m r in (wrap_result msg a, r')

abbrev pub wrapping_at : {A : Type 0} → String → ℕ → Read A → Read A
wrapping_at msg n m r = let (a, r') = m r in (wrap_result_at msg n a, r')

-- NewReader
abbrev pub new_reader : List ℕ → Reader
new_reader b = b

-- Len
abbrev pub len : Reader → ℕ
len r = length r

-- ReadByte
unfoldable pub read_byte : Read ℕ
read_byte [] = (err eof, [])
read_byte (b ∷ buf) = (ok b, buf)

-- Read, into a slice of n bytes: the bytes copied, the error, and the reader
unfoldable pub read : ℕ → Reader → (List ℕ × Option Error) × Reader
read n r = let rest = drop n r in ((take n r, (if length rest == 0 then some eof else none)), rest)

-- io.ReadFull on a Reader, for a slice of n bytes with 0 < n. `Read` copies n bytes if it can, and
-- io.ReadFull then drops its EOF; if it copied fewer, the reader is empty, and the next `Read`
-- copies nothing and reports EOF.
unfoldable pub read_full : ℕ → Read (List ℕ)
unfolding read
read_full n r =
    let ((p, e), rest) = read n r in
    ((if length p == n then ok p else if length p == 0 then err eof else err unexpected_eof), rest)
