-- ===== src/Encoding/Reads.antt =====
-- Two predicates on code that reads, with a rule for each way to build such code:
-- it reads a value from given bytes, whatever follows them; and a success takes a prefix only.
use btm_stats.Base.{
  ℕ, ◌≡◌, refl, sym, ap, ◌∙◌, Bool, true, false, List, [], ◌∷◌, ◌++◌, length, take, drop,
  if◌then◌else◌, arith, append_assoc, String, subst, take-append_self, drop-append_self,
  take-append-drop,
}
use btm_stats.Errors.{Error}
use btm_stats.Encoding.Reader.{
  Reader, Result, ok, err, Read, continue, ◌>>=◌, pure, fail, wrapping, wrapping_at, wrap_result,
  wrap_result_at, read_byte, read_full,
}

abbrev pub Reads : {A : Type 0} → Read A → List ℕ → A → Type 0
Reads m bs a = (rest : List ℕ) → m (bs ++ rest) ≡ (ok a, rest)

-- How a call that succeeds has used its input: r' follows the bytes taken.
pub record Taken {A : Type 0} (m : Read A) (r : Reader) (a : A) (r' : Reader) : Type 0 where
  pub taken : List ℕ
  pub splits : r ≡ taken ++ r'
  pub reads : Reads m taken a

pub record IsPrefixRead {A : Type 0} (m : Read A) : Type 0 where
  pub at : (r : Reader) (a : A) (r' : Reader) → m r ≡ (ok a, r') → Taken m r a r'

module _ {A : Type 0} where
  pub Reads-pure : (a : A) → Reads (pure a) [] a
  Reads-pure a rest = refl

  pub Reads-wrapping :
      (msg : String) (m : Read A) (bs : List ℕ) (a : A) → Reads m bs a → Reads (wrapping msg m) bs a
  Reads-wrapping msg m bs a h rest = rw (h rest)

  pub Reads-wrapping_at :
      (msg : String) (n : ℕ) (m : Read A) (bs : List ℕ) (a : A)
      → Reads m bs a
      → Reads (wrapping_at msg n m) bs a
  Reads-wrapping_at msg n m bs a h rest = rw (h rest)

  pub IsPrefixRead-pure : (a : A) → IsPrefixRead (pure a)
  IsPrefixRead-pure a = record {
    at = λ r b r' e. record { taken = []; splits = ap (λ p. p.1) e; reads = λ rest. ground arith };
  }

  pub IsPrefixRead-fail : (x : Error) → IsPrefixRead (fail {A = A} x)
  IsPrefixRead-fail x = record { at = λ r b r' e. absurd (cc) }

  wrap_result-ok :
      (msg : String) (x : Result A × Reader) (a : A) (r' : Reader)
      → ◌≡◌ {A = Result A × Reader} (wrap_result msg x.0, x.1) (ok a, r')
      → x ≡ (ok a, r')
  wrap_result-ok msg (ok b, r) a r' e = e
  wrap_result-ok msg (err z, r) a r' e = cc

  wrap_result_at-ok :
      (msg : String) (n : ℕ) (x : Result A × Reader) (a : A) (r' : Reader)
      → ◌≡◌ {A = Result A × Reader} (wrap_result_at msg n x.0, x.1) (ok a, r')
      → x ≡ (ok a, r')
  wrap_result_at-ok msg n (ok b, r) a r' e = e
  wrap_result_at-ok msg n (err z, r) a r' e = cc

  pub IsPrefixRead-wrapping :
      (msg : String) (m : Read A) → IsPrefixRead m → IsPrefixRead (wrapping msg m)
  IsPrefixRead-wrapping msg m h = record {
    at = λ r a r' e.
        let t = h.at r a r' (wrap_result-ok msg (m r) a r' e) in
        record {
          taken = t.taken;
          splits = t.splits;
          reads = Reads-wrapping msg m t.taken a t.reads;
        };
  }

  pub IsPrefixRead-wrapping_at :
      (msg : String) (n : ℕ) (m : Read A) → IsPrefixRead m → IsPrefixRead (wrapping_at msg n m)
  IsPrefixRead-wrapping_at msg n m h = record {
    at = λ r a r' e.
        let t = h.at r a r' (wrap_result_at-ok msg n (m r) a r' e) in
        record {
          taken = t.taken;
          splits = t.splits;
          reads = Reads-wrapping_at msg n m t.taken a t.reads;
        };
  }

  pub IsPrefixRead-if :
      (b : Bool) (m n : Read A)
      → (b ≡ true → IsPrefixRead m)
      → (b ≡ false → IsPrefixRead n)
      → IsPrefixRead (if b then m else n)
  IsPrefixRead-if true m n km kn = km refl
  IsPrefixRead-if false m n km kn = kn refl

module _ {A B : Type 0} where
  pub Reads-bind :
      (m : Read A) (f : A → Read B) (bs cs : List ℕ) (a : A) (b : B)
      → Reads m bs a
      → Reads (f a) cs b
      → Reads (m >>= f) (bs ++ cs) b
  Reads-bind m f bs cs a b h k rest = rw (append_assoc, h (cs ++ rest)) (k rest)

  -- inversion of a bind that succeeds
  pub continue-ok :
      (x : Result A × Reader) (f : A → Read B) (b : B) (r' : Reader)
      → continue x.0 f x.1 ≡ (ok b, r')
      → (a : A) × (r : Reader) × (x ≡ (ok a, r)) × (f a r ≡ (ok b, r'))
  continue-ok (ok a, r) f b r' e = (a, r, refl, e)
  continue-ok (err z, r) f b r' e = absurd (cc)

  pub IsPrefixRead-bind :
      (m : Read A) (f : A → Read B)
      → IsPrefixRead m
      → ((a : A) → IsPrefixRead (f a))
      → IsPrefixRead (m >>= f)
  IsPrefixRead-bind m f h k = record {
    at = λ r b r'' e.
        let (a, r', p, q) = continue-ok (m r) f b r'' e in
        let t = h.at r a r' p in
        let u = (k a).at r' b r'' q in
        record {
          taken = t.taken ++ u.taken;
          splits =
              t.splits ∙ ap (λ z. t.taken ++ z) u.splits ∙ sym (append_assoc t.taken u.taken r'');
          reads = Reads-bind m f t.taken u.taken a b t.reads u.reads;
        };
  }

pub ruleset prefix_rules = (
  IsPrefixRead-pure, IsPrefixRead-fail, IsPrefixRead-wrapping, IsPrefixRead-wrapping_at,
  IsPrefixRead-if, IsPrefixRead-bind,
)

-- The primitives take a prefix.
pub IsPrefixRead-read_byte : IsPrefixRead read_byte
unfolding read_byte
IsPrefixRead-read_byte = record { at = go }
  where
    go : (r : Reader) (b : ℕ) (r' : Reader) → read_byte r ≡ (ok b, r') → Taken read_byte r b r'
    go [] b r' e = absurd (cc)
    go (x ∷ buf) b r' e = record {
      taken = x ∷ [];
      splits = ground arith;
      reads = λ rest. ground arith;
    }

-- A read of as many bytes as `p` has.
pub Reads-read_full : (p : List ℕ) → Reads (read_full (length p)) p p
unfolding read_full
Reads-read_full p rest = rw (take-append_self, drop-append_self) (ground arith)

pub read_full-ok :
    (n : ℕ) (r p r' : List ℕ)
    → read_full n r ≡ (ok p, r')
    → (take n r ≡ p) × (drop n r ≡ r') × (length p ≡ n)
unfolding read_full
read_full-ok n r p r' e = ground arith

pub IsPrefixRead-read_full : (n : ℕ) → IsPrefixRead (read_full n)
IsPrefixRead-read_full n = record {
  at = λ r p r' e.
      let (e1, e2, e3) = read_full-ok n r p r' e in
      record {
        taken = p;
        splits = rw (← e1, ← e2) (sym (take-append-drop n r));
        reads = subst (λ k. Reads (read_full k) p p) e3 (Reads-read_full p);
      };
}
