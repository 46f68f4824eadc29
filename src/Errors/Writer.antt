-- ===== src/Errors/Writer.antt =====
-- errors/writer.go: the sticky writer.
pub mod Laws
use btm_stats.Base.{ℕ, ◌+◌, Option, none, some, List, [], ◌∷◌}
use btm_stats.Errors.{Error}
use btm_stats.Io.{Count, Writer}

-- Writer; `inner` is the state of the underlying io.Writer.
pub record Sticky (S : Type 0) : Type 0 where
  pub inner : S
  pub n : ℕ
  pub err : Option Error

-- NewWriter
abbrev pub new_writer : {S : Type 0} → S → Sticky S
new_writer s = record { inner = s; n = 0; err = none }

-- what Write keeps of the call of the underlying Write
kept : {S : Type 0} → Sticky S → Count × S → Count × Sticky S
kept s ((n, e), inner) = ((n, e), record { inner = inner; n = s.n + n; err = e })

module _ {S : Type 0} (w : Writer S) where
  -- one call of Write, by the error that is kept
  write_checked : Option Error → List ℕ → Sticky S → Count × Sticky S
  write_checked (some e) buf s = ((0, some e), s)
  write_checked none buf s = kept s (w.write buf s.inner)

  -- Write
  unfoldable pub write : List ℕ → Sticky S → Count × Sticky S
  unfolding write_checked kept
  write buf s = write_checked s.err buf s

  -- The sticky writer is an io.Writer itself.
  abbrev pub sticky : Writer (Sticky S)
  sticky = record { write = write }

  -- Write for each buffer of a list, with the results dropped.
  unfoldable pub write_each : List (List ℕ) → Sticky S → Sticky S
  write_each [] s = s
  write_each (buf ∷ bufs) s = write_each bufs (write buf s).1

-- Err
unfoldable pub err_of : {S : Type 0} → Sticky S → Option Error
err_of s = s.err

-- Written
unfoldable pub written : {S : Type 0} → Sticky S → ℕ
written s = s.n
