-- ===== src/P2p/SecretConnection/Agreement.antt =====
-- Two ends of MakeSecretConnection, each reading what the other writes.
use btm_stats.Base.{
  ℕ, suc, ◌+◌, ◌≡◌, ◌≢◌, ◌≤◌, refl, ap, sym, subst, ◌∙◌, inl, inr, true, List, [], ◌++◌,
  append_assoc, length, take_all, drop_all, leb, arith,
}
use btm_stats.Encoding.Reader.{ok, read_full}
use btm_stats.Encoding.Reads.{Reads-read_full}
use btm_stats.Io.{buffer}
use btm_stats.P2p.SecretConnection.{Crypto, SecretConnection}
use btm_stats.P2p.SecretConnection.Handshake.{
  gen_nonces, read_loop, read_full_from, share_eph_pub_key, share_auth_signature,
  make_secret_connection, fresh, challenge_of,
}
use btm_stats.P2p.SecretConnection.Stream.{
  IsBox, receiver, sealed, counted, written_once, read_frame,
}
use btm_stats.P2p.SecretConnection.Order.{less-cases}

module _ (c : Crypto) where
  -- io.ReadFull of a message of one frame.
  read_loop-message :
      (fuel : ℕ) (box : IsBox c) (msg : List ℕ) (sc : SecretConnection) (x rest : List ℕ)
      → length msg ≡ 98
      → read_loop c (suc (suc fuel)) 98 [] (receiver sc x []) (sealed c box msg sc ++ rest)
        ≡ (ok msg, receiver (counted c box sc) x [], rest)
  unfolding read_loop
  read_loop-message fuel box msg sc x rest h =
      let fits : length msg ≤ 98 = omega (arith, h) in
      let done : leb 98 (length msg) ≡ true = ground arith in
      rw (read_frame c box 98 msg sc x [] rest (omega (arith, h))) (
        rw (take_all 98 msg fits, drop_all 98 msg fits)
          (rw (take_all (length msg) msg (omega arith)) (rw done refl)))

  read_full_from-message :
      (box : IsBox c) (msg : List ℕ) (sc : SecretConnection) (x rest : List ℕ)
      → length msg ≡ 98
      → read_full_from c 98 (receiver sc x []) (sealed c box msg sc ++ rest)
        ≡ (ok msg, receiver (counted c box sc) x [], rest)
  read_full_from-message box msg sc x rest h =
      let enough : length (sealed c box msg sc ++ rest) + 0 + 2
          ≡ suc (suc (length (sealed c box msg sc ++ rest))) =
        omega arith in
      ap (λ n. read_loop c n 98 [] (receiver sc x []) (sealed c box msg sc ++ rest)) enough
      ∙ read_loop-message (length (sealed c box msg sc ++ rest)) box msg sc x rest h

  -- What Ed25519 and go-wire promise for the keys and signatures of nodes.
  pub record IsSigning : Type 0 where
    pub verifies : (k m : List ℕ) → c.verify (c.pub_key k) m (c.sign k m) ≡ true
    pub decodes :
        (k m : List ℕ)
        → c.decode (c.encode (c.pub_key k) (c.sign k m)) ≡ ok (c.pub_key k, c.sign k m)
    pub fixed_size : (k m : List ℕ) → length (c.encode (c.pub_key k) (c.sign k m)) ≡ 98

  module _ (box : IsBox c) (signing : IsSigning) (a_pub a_priv b_pub b_priv : List ℕ)
      (differ : a_pub ≢ b_pub) (agree : c.precompute b_pub a_priv ≡ c.precompute a_pub b_priv) where
    -- The two ends have one challenge, and receive what the other sends.
    challenges : challenge_of c buffer a_pub b_pub ≡ challenge_of c buffer b_pub a_pub
    challenges = elim (less-cases a_pub b_pub) [
      | inl q ↦ absurd (differ q)
      | inr (inl (p, q)) ↦ rw (p, q) refl
      | inr (inr (p, q)) ↦ rw (p, q) refl
    ]

    mirrored :
        fresh c buffer a_pub a_priv b_pub
        ≡ receiver
            (fresh c buffer b_pub b_priv a_pub)
            (fresh c buffer a_pub a_priv b_pub).send_nonce
            []
    unfolding gen_nonces
    mirrored = elim (less-cases a_pub b_pub) [
      | inl q ↦ absurd (differ q)
      | inr (inl (p, q)) ↦ rw (p, q, agree) refl
      | inr (inr (p, q)) ↦ rw (p, q, agree) refl
    ]

  -- One end, where the other has the mirror of its connection.
  module _ (box : IsBox c) (signing : IsSigning) (l r lp ls rp : List ℕ) (other : SecretConnection)
      (key_size : length rp ≡ 32)
      (mirror : fresh c buffer lp ls rp
        ≡ receiver other (fresh c buffer lp ls rp).send_nonce []) where
    abbrev challenge : List ℕ
    challenge = challenge_of c buffer lp rp

    abbrev message : List ℕ → List ℕ
    message k = c.encode (c.pub_key k) (c.sign k challenge)

    share_eph_pub_key-ok :
        (rest : List ℕ) → share_eph_pub_key c buffer lp [] (rp ++ rest) ≡ (ok rp, lp, rest)
    unfolding share_eph_pub_key
    share_eph_pub_key-ok rest =
        let full : read_full 32 (rp ++ rest) ≡ (ok rp, rest) =
          subst (λ n. read_full n (rp ++ rest) ≡ (ok rp, rest)) key_size
            (Reads-read_full rp rest) in
        rw full refl

    share_auth_signature-ok :
        (rest : List ℕ)
        → share_auth_signature c buffer
            (fresh c buffer lp ls rp)
            (c.pub_key l)
            (c.sign l challenge)
            lp
            (sealed c box (message r) other ++ rest)
          ≡ (
            ok (c.pub_key r, c.sign r challenge),
            receiver (counted c box other) (counted c box (fresh c buffer lp ls rp)).send_nonce [],
            lp ++ sealed c box (message l) (fresh c buffer lp ls rp),
            rest,
          )
    unfolding share_auth_signature
    share_auth_signature-ok rest =
        let size = signing.fixed_size l challenge in
        let sent =
          written_once c box (message l) (fresh c buffer lp ls rp) lp (omega (arith, size))
            (omega (arith, size)) in
        let got =
          ap (λ sc. read_full_from c 98 sc (sealed c box (message r) other ++ rest)) mirror
          ∙ read_full_from-message box (message r) other (fresh c buffer lp ls rp).send_nonce rest
              (signing.fixed_size r challenge) in
        rw (sent, got, signing.decodes r challenge) refl

    make_secret_connection-ok :
        (rest : List ℕ)
        → make_secret_connection c buffer l lp ls []
            (rp ++ (sealed c box (message r) other ++ rest))
          ≡ (
            ok (
                receiver
                  (counted c box other)
                  (counted c box (fresh c buffer lp ls rp)).send_nonce
                  (c.pub_key r)),
            lp ++ sealed c box (message l) (fresh c buffer lp ls rp),
            rest,
          )
    unfolding make_secret_connection
    make_secret_connection-ok rest =
        rw (share_eph_pub_key-ok (sealed c box (message r) other ++ rest))
          (rw (share_auth_signature-ok rest) (rw (signing.verifies r challenge) refl))

  module _ (box : IsBox c) (signing : IsSigning) (a b a_pub a_priv b_pub b_priv : List ℕ)
      (size_a : length a_pub ≡ 32) (size_b : length b_pub ≡ 32) (differ : a_pub ≢ b_pub)
      (agree : c.precompute b_pub a_priv ≡ c.precompute a_pub b_priv) where
    end_a : SecretConnection
    end_a = fresh c buffer a_pub a_priv b_pub

    end_b : SecretConnection
    end_b = fresh c buffer b_pub b_priv a_pub

    abbrev out : List ℕ → List ℕ → SecretConnection → List ℕ
    out k k_pub sc =
        k_pub
        ++ sealed c box (c.encode (c.pub_key k) (c.sign k (challenge_of c buffer a_pub b_pub))) sc

    -- Two ends with different ephemeral keys, each of which reads what the other writes, both make a
    -- SecretConnection. Each knows the key of the other, both have one secret, and each receives with
    -- the nonce that the other sends with.
    pub make_secret_connection-agrees :
        (out_a out_b : List ℕ) × (sc_a : SecretConnection) × (sc_b : SecretConnection)
        × ((rest : List ℕ)
            → make_secret_connection c buffer a a_pub a_priv [] (out_b ++ rest)
              ≡ (ok sc_a, out_a, rest))
        × ((rest : List ℕ)
            → make_secret_connection c buffer b b_pub b_priv [] (out_a ++ rest)
              ≡ (ok sc_b, out_b, rest))
        × (sc_a ≡ receiver sc_b sc_a.send_nonce (c.pub_key b))
        × (sc_b ≡ receiver sc_a sc_b.send_nonce (c.pub_key a))
    unfolding end_a end_b
    make_secret_connection-agrees =
        let same = challenges box signing a_pub a_priv b_pub b_priv differ agree in
        let differ' : b_pub ≢ a_pub = λ e. differ (sym e) in
        let mirror_a = mirrored box signing a_pub a_priv b_pub b_priv differ agree in
        let mirror_b = mirrored box signing b_pub b_priv a_pub a_priv differ' (sym agree) in
        (
          out a a_pub end_a,
          out b b_pub end_b,
          receiver (counted c box end_b) (counted c box end_a).send_nonce (c.pub_key b),
          receiver (counted c box end_a) (counted c box end_b).send_nonce (c.pub_key a),
          (λ rest.
              ap (make_secret_connection c buffer a a_pub a_priv []) (append_assoc b_pub _ rest)
              ∙ make_secret_connection-ok box signing a b a_pub a_priv b_pub end_b size_b mirror_a
                  rest),
          (λ rest.
              ap (make_secret_connection c buffer b b_pub b_priv []) (append_assoc a_pub _ rest)
              ∙ subst
                  (λ ch.
                    make_secret_connection c buffer b b_pub b_priv []
                      (a_pub ++ (sealed c box (c.encode (c.pub_key a) (c.sign a ch)) end_a ++ rest))
                    ≡ (
                      ok (
                          receiver (counted c box end_a) (counted c box end_b).send_nonce
                            (c.pub_key a)),
                      b_pub ++ sealed c box (c.encode (c.pub_key b) (c.sign b ch)) end_b,
                      rest,
                    ))
                  (sym same)
                  (make_secret_connection-ok box signing b a b_pub b_priv a_pub end_a size_a
                    mirror_b rest)),
          rw agree refl,
          rw agree refl,
        )
