-- ===== src/P2p/SecretConnection/Order.antt =====
-- The order of two keys in sort32 of p2p/connection/secret_connection.go.
use btm_stats.Base.{
  ℕ, ◌≡◌, refl, ◌⊎◌, inl, inr, true, false, List, [], ◌∷◌, ltb, ltb→le, le→ltb, ltb→lt, arith,
  Bool-cases,
}
use btm_stats.P2p.SecretConnection.Handshake.{less}

-- The order of the keys is total.
pub less-cases :
    (a b : List ℕ)
    → (a ≡ b) ⊎ ((less a b ≡ true) × (less b a ≡ false)) ⊎ ((less a b ≡ false) × (less b a ≡ true))
unfolding less
less-cases [] [] = inl refl
less-cases [] (y ∷ ys) = inr (inl (refl, refl))
less-cases (x ∷ xs) [] = inr (inr (refl, refl))
less-cases (x ∷ xs) (y ∷ ys) = elim (Bool-cases (ltb x y)) [
  | inl e ↦
      let f = le→ltb y x (omega (arith, ltb→lt x y e)) in inr (inl (rw e refl, rw (f, e) refl))
  | inr e ↦ elim (Bool-cases (ltb y x)) [
    | inl f ↦ inr (inr (rw (e, f) refl, rw f refl))
    | inr f ↦
        let same : x ≡ y = omega (arith, ltb→le x y e, ltb→le y x f) in
        elim (less-cases xs ys) [
          | inl q ↦ inl (cc (same, q))
          | inr (inl (p, q)) ↦ inr (inl (rw (e, f) p, rw (f, e) q))
          | inr (inr (p, q)) ↦ inr (inr (rw (e, f) p, rw (f, e) q))
        ]
  ]
]
