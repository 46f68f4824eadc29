-- ===== src/Io.antt =====
-- What the code uses of Go's io and bytes packages: the io.Writer interface, bytes.Buffer as a
-- writer, and code that writes. A byte slice is a list of numbers.
use btm_stats.Base.{ℕ, Option, none, List, ◌++◌, length}
use btm_stats.Errors.{Error}

-- Go's pair (n int, err error)
abbrev pub Count : Type 0
Count = ℕ × Option Error

-- io.Writer, for a writer whose state is an `S`
pub record Writer (S : Type 0) : Type 0 where
  pub write : List ℕ → S → Count × S

-- A bytes.Buffer holds what was written, and its Write never fails.
abbrev pub buffer : Writer (List ℕ)
buffer = record { write = λ p s. ((length p, none), s ++ p) }

-- A call that writes returns a result and the writer's new state, or panics.
pub data Outcome (S A : Type 0) : Type 0 where
  returned : A → S → Outcome S A
  panicked : Outcome S A

abbrev pub Write : Type 0 → Type 0 → Type 0
Write S A = S → Outcome S A

abbrev pub continue : {S A B : Type 0} → Outcome S A → (A → Write S B) → Outcome S B
continue (returned a s) f = f a s
continue panicked f = panicked

infixl 5 ◌>>=◌
abbrev pub ◌>>=◌ : {S A B : Type 0} → Write S A → (A → Write S B) → Write S B
◌>>=◌ m f s = continue (m s) f

abbrev pub pure : {S A : Type 0} → A → Write S A
pure a s = returned a s

-- a call of Write
abbrev pub send : {S : Type 0} → Writer S → List ℕ → Write S Count
send w p s = let (c, s') = w.write p s in returned c s'
