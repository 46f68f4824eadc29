-- ===== src/Types/Loop.antt =====
-- The loop `for ; n > 0; n--` that the readers of protocol/bc/types share: read one value more, or
-- return its error with its index; and the lists that it reads.
use btm_stats.Base.{ℕ, zero, suc, List, [], ◌∷◌, ◌++◌, length, String, append_assoc, append-nil}
use btm_stats.Encoding.Reader.{Read, ◌>>=◌, pure, wrapping_at}
use btm_stats.Encoding.Reads.{
  Reads, IsPrefixRead, IsPrefixRead-bind, IsPrefixRead-pure, IsPrefixRead-wrapping_at,
}

unfoldable pub read_each : {A : Type 0} → String → Read A → ℕ → List A → Read (List A)
read_each msg m zero before = pure before
read_each msg m (suc n) before = do
  a ← wrapping_at msg (length before) m
  read_each msg m n (before ++ (a ∷ []))

-- The bytes of a list are those of each value in turn, by a wire format of its values.
pub data WireList {A : Type 0} (W : A → List ℕ → Type 0) : List A → List ℕ → Type 0 where
  done : WireList W [] []
  more :
      (a : A) (l : List A) (bs cs : List ℕ)
      → W a bs
      → WireList W l cs
      → WireList W (a ∷ l) (bs ++ cs)

module _ {A : Type 0} (msg : String) (m : Read A) where
  pub read_each-WireList :
      {W : A → List ℕ → Type 0}
      → ((a : A) (bs : List ℕ) → W a bs → Reads m bs a)
      → (l before : List A) (bs : List ℕ) → WireList W l bs
      → Reads (read_each msg m (length l) before) bs (before ++ l)
  unfolding read_each
  read_each-WireList each l before bs done rest = rw (append-nil before)
  read_each-WireList each l before bs (more a as' b c w ws) rest = rw (
    append_assoc b c rest,
    each a b w (c ++ rest),
    read_each-WireList each as' (before ++ (a ∷ [])) c ws rest,
    append_assoc before (a ∷ []) as',
  )

  pub IsPrefixRead-read_each :
      IsPrefixRead m → (n : ℕ) (before : List A) → IsPrefixRead (read_each msg m n before)
  unfolding read_each
  IsPrefixRead-read_each h zero before = IsPrefixRead-pure before
  IsPrefixRead-read_each h (suc n) before =
      IsPrefixRead-bind (wrapping_at msg (length before) m)
        (λ a. read_each msg m n (before ++ (a ∷ [])))
        (IsPrefixRead-wrapping_at msg (length before) m h)
        (λ a. IsPrefixRead-read_each h n (before ++ (a ∷ [])))
