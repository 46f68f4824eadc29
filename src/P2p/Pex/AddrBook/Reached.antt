-- ===== src/P2p/Pex/AddrBook/Reached.antt =====
-- The books that the calls reach from a new one.
use btm_stats.Base.{ℕ, ◌≡◌, sym, ◌∙◌, subst, Bool, Option, some}
use btm_stats.Errors.{Error}
use btm_stats.P2p.Pex.KnownAddress.{KnownAddress}
use btm_stats.P2p.Pex.AddrBook.{Addressing, Draws, AddrBook}
use btm_stats.P2p.Pex.AddrBook.Calls.{
  new_addr_book, mark_good_address, mark_attempt_address, remove_address, add_our_address,
  add_address,
}
use btm_stats.P2p.Pex.AddrBook.Consistent.{IsConsistent}
use btm_stats.P2p.Pex.AddrBook.Expiring.{IsFair}
use btm_stats.P2p.Pex.AddrBook.Keeping.{
  new_addr_book-IsConsistent, add_our_address-IsConsistent, mark_attempt-IsConsistent,
  remove_address-IsConsistent,
}
use btm_stats.P2p.Pex.AddrBook.Promoting.{mark_good-IsConsistent}
use btm_stats.P2p.Pex.AddrBook.Adding.{add_address-IsConsistent}

module _ {A Key : Type 0} (same : Discrete Key) (net : Addressing A Key) where
  -- A call of the book, with what it draws.
  pub data Step (b c : AddrBook A Key) : Type 0 where
    added :
        (strict : Bool) (d : Draws Key) (addr src : Option A) (error : Option Error)
        → IsFair same d
        → add_address same net strict d addr src b ≡ some (error, c)
        → Step b c
    added_ours : (addr : A) → c ≡ add_our_address same net addr b → Step b c
    marked_good : (now : ℕ) (addr : A) → c ≡ mark_good_address same net now addr b → Step b c
    marked_attempt : (now : ℕ) (addr : A) → c ≡ mark_attempt_address same net now addr b → Step b c
    removed : (addr : A) → c ≡ remove_address same net addr b → Step b c

  pub data Reach (free : KnownAddress A) : AddrBook A Key → Type 0 where
    here : Reach free (new_addr_book free)
    next : {b c : AddrBook A Key} → Reach free b → Step b c → Reach free c

  Step-IsConsistent :
      (b c : AddrBook A Key) → IsConsistent same net b → Step b c → IsConsistent same net c
  Step-IsConsistent b c v (added strict d addr src error fair e) =
      let (r, f, w) = add_address-IsConsistent same net d fair strict addr src b v in
      subst (λ x. IsConsistent same net x) (cc (sym f ∙ e)) w
  Step-IsConsistent b c v (added_ours addr e) =
      subst (IsConsistent same net) (sym e) (add_our_address-IsConsistent same net addr b v)
  Step-IsConsistent b c v (marked_good now addr e) =
      subst (IsConsistent same net) (sym e) (mark_good-IsConsistent same net now addr b v)
  Step-IsConsistent b c v (marked_attempt now addr e) =
      subst (IsConsistent same net) (sym e) (mark_attempt-IsConsistent same net now addr b v)
  Step-IsConsistent b c v (removed addr e) =
      subst (IsConsistent same net) (sym e) (remove_address-IsConsistent same net addr b v)

  -- Every book that calls reach from a new one, whatever they draw, is consistent: a bucket has an
  -- address exactly if the table has it and it refers to the bucket, an address of the table is in one
  -- to four different buckets of its type, and the counters count the addresses of the table by type.
  pub Reach-IsConsistent :
      (free : KnownAddress A) (b : AddrBook A Key) → Reach free b → IsConsistent same net b
  Reach-IsConsistent free b here = new_addr_book-IsConsistent same net free
  Reach-IsConsistent free b (next {b = a} r s) =
      Step-IsConsistent a b (Reach-IsConsistent free a r) s
