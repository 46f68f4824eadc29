-- ===== src/Errors/Writer/Laws.antt =====
-- What the sticky writer of errors/writer.go promises, and Root.
use btm_stats.Base.{ℕ, ◌+◌, ◌≡◌, refl, ap, Option, none, some, List, [], ◌∷◌}
use btm_stats.Errors.{Error}
use btm_stats.Io.{Count, Writer}
use btm_stats.Errors.Writer.{Sticky, new_writer, kept, write, write_each, err_of, written}

module _ {S : Type 0} (w : Writer S) where
  -- The specification: calls of the underlying Write, up to the first error, with their counts.
  after_call : (S → ℕ → ℕ × Option Error × S) → ℕ → Count × S → ℕ × Option Error × S
  after_call next total ((n, some e), s) = (total + n, some e, s)
  after_call next total ((n, none), s) = next s (total + n)

  pub until_error : List (List ℕ) → S → ℕ → ℕ × Option Error × S
  until_error [] s total = (total, none, s)
  until_error (buf ∷ bufs) s total = after_call (until_error bufs) total (w.write buf s)

  abbrev view : Sticky S → ℕ × Option Error × S
  view t = (t.n, t.err, t.inner)

  write_each_stuck :
      (bufs : List (List ℕ)) (s : S) (n : ℕ) (e : Error)
      → write_each w bufs (record { inner = s; n = n; err = some e })
        ≡ record { inner = s; n = n; err = some e }
  unfolding write_each write
  write_each_stuck [] s n e = refl
  write_each_stuck (buf ∷ bufs) s n e = write_each_stuck bufs s n e

  round :
      (bufs : List (List ℕ)) (n : ℕ) (s : S) (c : Count × S)
      → ((t : S) (k : ℕ)
          → view (write_each w bufs (record { inner = t; n = k; err = none }))
            ≡ until_error bufs t k)
      → view (write_each w bufs (kept (record { inner = s; n = n; err = none }) c).1)
        ≡ after_call (until_error bufs) n c
  unfolding kept after_call
  round bufs n s ((k, some e), t) ih = ap view (write_each_stuck bufs t (n + k) e)
  round bufs n s ((k, none), t) ih = ih t (n + k)

  write_each-view :
      (bufs : List (List ℕ)) (s : S) (n : ℕ)
      → view (write_each w bufs (record { inner = s; n = n; err = none })) ≡ until_error bufs s n
  unfolding write_each write until_error after_call
  write_each-view [] s n = refl
  write_each-view (buf ∷ bufs) s n =
      round bufs n s (w.write buf s) (λ t k. write_each-view bufs t k)

  -- A new sticky writer makes the calls of the underlying writer up to and with the first that
  -- fails, and none after it: Written is the sum of their counts, and Err the error of the last.
  pub write_each-until_error :
      (bufs : List (List ℕ)) (s : S)
      → (
        written (write_each w bufs (new_writer s)),
        err_of (write_each w bufs (new_writer s)),
        (write_each w bufs (new_writer s)).inner,
      )
        ≡ until_error bufs s 0
  unfolding written err_of
  write_each-until_error bufs s = write_each-view bufs s 0
