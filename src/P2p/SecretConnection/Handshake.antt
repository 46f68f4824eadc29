-- ===== src/P2p/SecretConnection/Handshake.antt =====
-- MakeSecretConnection of p2p/connection/secret_connection.go.
use btm_stats.Base.{
  ℕ, zero, suc, ◌+◌, ◌-◌, ◌%◌, Bool, true, false, not, Option, none, some, List, [], ◌∷◌, ◌++◌,
  length, take, ltb, leb, ◌==◌, if◌then◌else◌,
}
use btm_stats.Errors.{Error, other, eof, unexpected_eof}
use btm_stats.Encoding.Reader.{Reader, Result, ok, err, read_full}
use btm_stats.Io.{Writer}
use btm_stats.Common.Bytes.{zeros}
use btm_stats.P2p.SecretConnection.{Crypto, SecretConnection, auth_sig_msg_size, write, read}

-- bytes.Compare(a, b) < 0
unfoldable pub less : List ℕ → List ℕ → Bool
less [] [] = false
less [] (b ∷ bs) = true
less (a ∷ as') [] = false
less (a ∷ as') (b ∷ bs) = if ltb a b then true else if ltb b a then false else less as' bs

-- sort32
abbrev pub sort32 : List ℕ → List ℕ → List ℕ × List ℕ
sort32 foo bar = if less foo bar then (foo, bar) else (bar, foo)

-- copy of a digest into an array of the given size
abbrev copied_to : ℕ → List ℕ → List ℕ
copied_to size digest = take size digest ++ zeros (size - length digest)

-- the last byte of a nonce, exclusive or 1
unfoldable pub flip_last : List ℕ → List ℕ
flip_last [] = []
flip_last (b ∷ []) = (if b % 2 == 0 then b + 1 else b - 1) ∷ []
flip_last (b ∷ b' ∷ bs) = b ∷ flip_last (b' ∷ bs)

-- an EOF behind some bytes
abbrev pub inside : Error → Error
inside eof = unexpected_eof
inside e = e

module _ (c : Crypto) where
  -- hash24, hash32
  abbrev hash24 : List ℕ → List ℕ
  hash24 input = copied_to 24 (c.ripemd160 input)

  abbrev hash32 : List ℕ → List ℕ
  hash32 input = copied_to 32 (c.sha256 input)

  -- genNonces: the nonces of receiving and of sending
  unfoldable pub gen_nonces : List ℕ → List ℕ → Bool → List ℕ × List ℕ
  gen_nonces lo_pub_key hi_pub_key loc_is_lo =
      let nonce1 = hash24 (lo_pub_key ++ hi_pub_key) in
      let nonce2 = flip_last nonce1 in if loc_is_lo then (nonce1, nonce2) else (nonce2, nonce1)

  -- genChallenge
  abbrev gen_challenge : List ℕ → List ℕ → List ℕ
  gen_challenge lo_pub_key hi_pub_key = hash32 (lo_pub_key ++ hi_pub_key)

  -- io.ReadFull of a SecretConnection: Read until there are as many bytes as are wanted. Each call
  -- takes bytes from the connection or from the buffer, so that fuel above both is enough.
  abbrev pub ended : List ℕ → Error → Result (List ℕ)
  ended [] e = err e
  ended (b ∷ bs) e = err (inside e)

  abbrev on_error :
      Option Error
      → List ℕ
      → SecretConnection
      → Reader
      → Result (List ℕ) × SecretConnection × Reader
      → Result (List ℕ) × SecretConnection × Reader
  on_error none got sc conn rest = rest
  on_error (some e) got sc conn rest = (ended got e, sc, conn)

  unfoldable pub read_loop :
      ℕ → ℕ → List ℕ → SecretConnection → Reader → Result (List ℕ) × SecretConnection × Reader
  read_loop zero want got sc conn = (err (other "out of fuel"), sc, conn)
  read_loop (suc fuel) want got sc conn =
      let (res, sc', conn') = read c (want - length got) sc conn in
      let got' = got ++ take res.n res.copied in
      let rest = read_loop fuel want got' sc' conn' in
      if leb want (length got) then (ok got, sc, conn) else on_error res.error got' sc' conn' rest

  abbrev pub read_full_from :
      ℕ → SecretConnection → Reader → Result (List ℕ) × SecretConnection × Reader
  read_full_from want sc conn = read_loop (length conn + length sc.recv_buffer + 2) want [] sc conn

  module _ {S : Type 0} (w : Writer S) where
    -- shareEphPubKey: the write and the read go in parallel, and the error of the write comes first
    abbrev first_error : {A : Type 0} → Option Error → Result A → Result A
    first_error (some e) r = err e
    first_error none r = r

    unfoldable pub share_eph_pub_key : List ℕ → S → Reader → Result (List ℕ) × S × Reader
    share_eph_pub_key loc_eph_pub s conn =
        let ((n, e), s') = w.write loc_eph_pub s in
        let (r, conn') = read_full 32 conn in (first_error e r, s', conn')

    -- shareAuthSignature; the two directions use different fields of the connection
    abbrev pub decoded : Result (List ℕ) → Result (List ℕ × List ℕ)
    decoded (err e) = err e
    decoded (ok bytes) = c.decode bytes

    unfoldable pub share_auth_signature :
        SecretConnection
        → List ℕ
        → List ℕ
        → S
        → Reader
        → Result (List ℕ × List ℕ) × SecretConnection × S × Reader
    share_auth_signature sc pub_key signature s conn =
        let ((n, e), sent, s') = write c w (c.encode pub_key signature) sc s in
        let (r, got, conn') = read_full_from auth_sig_msg_size sc conn in
        (first_error e (decoded r), record got { send_nonce = sent.send_nonce }, s', conn')

    -- MakeSecretConnection, from its end, with the ephemeral keys that genEphKeys drew
    abbrev verified : List ℕ → Result (List ℕ × List ℕ) → SecretConnection → Result SecretConnection
    verified challenge (err e) sc = err e
    verified challenge (ok (rem_pub_key, rem_signature)) sc =
        if not (c.verify rem_pub_key challenge rem_signature)
        then err (other "Challenge verification failed")
        else ok (record sc { rem_pub_key = rem_pub_key })

    abbrev pub fresh : List ℕ → List ℕ → List ℕ → SecretConnection
    fresh loc_eph_pub loc_eph_priv rem_eph_pub =
        let (lo, hi) = sort32 loc_eph_pub rem_eph_pub in
        let (recv_nonce, send_nonce) = gen_nonces lo hi (less loc_eph_pub rem_eph_pub) in
        record {
          recv_buffer = [];
          recv_nonce = recv_nonce;
          send_nonce = send_nonce;
          rem_pub_key = [];
          shr_secret = c.precompute rem_eph_pub loc_eph_priv;
        }

    abbrev pub challenge_of : List ℕ → List ℕ → List ℕ
    challenge_of loc_eph_pub rem_eph_pub =
        let (lo, hi) = sort32 loc_eph_pub rem_eph_pub in gen_challenge lo hi

    abbrev authenticated :
        List ℕ
        → List ℕ
        → List ℕ
        → Result (List ℕ) × S × Reader
        → Result SecretConnection × S × Reader
    authenticated loc_priv_key loc_eph_pub loc_eph_priv (err e, s, conn) = (err e, s, conn)
    authenticated loc_priv_key loc_eph_pub loc_eph_priv (ok rem_eph_pub, s, conn) =
        let challenge = challenge_of loc_eph_pub rem_eph_pub in
        let (msg, sc, s', conn') =
          share_auth_signature (fresh loc_eph_pub loc_eph_priv rem_eph_pub) (c.pub_key loc_priv_key)
            (c.sign loc_priv_key challenge) s conn in
        (verified challenge msg sc, s', conn')

    unfoldable pub make_secret_connection :
        List ℕ → List ℕ → List ℕ → S → Reader → Result SecretConnection × S × Reader
    make_secret_connection loc_priv_key loc_eph_pub loc_eph_priv s conn =
        authenticated loc_priv_key loc_eph_pub loc_eph_priv (share_eph_pub_key loc_eph_pub s conn)
