-- ===== src/P2p/SecretConnection/Stream.antt =====
-- Write and Read of p2p/connection/secret_connection.go, from one end to the other.
use btm_stats.Base.{
  ℕ, zero, suc, ◌+◌, ◌-◌, ◌≡◌, ◌<◌, ◌≤◌, refl, ap, sym, ◌∙◌, none, some, List, [], ◌∷◌, ◌++◌,
  append_assoc, append-nil, length, take, drop, take_all, drop_all, take-append_self, subst,
  length-append, length-take, take-append-drop, length-drop, ltb, le→ltb, arith, Bool-cases, inl,
  inr,
}
use btm_stats.Encoding.Reader.{Reader, ok, err, read_full}
use btm_stats.Encoding.Reader as Reader
use btm_stats.Errors.{eof}
use btm_stats.Encoding.Reads.{Reads-read_full}
use btm_stats.Io.{Count, buffer}
use btm_stats.Common.Bytes.{zeros}
use btm_stats.Common.Bytes.Numbers.{length-zeros}
use btm_stats.P2p.SecretConnection.{
  Crypto, SecretConnection, frame_of, chunk_length_of, incr2_nonce, sealed_frame_size,
  total_frame_size, data_len_size, write_loop, write, read, from_conn, opened, give_chunk,
}

-- What secretbox promises: opening undoes sealing, and a box is longer by its overhead.
pub record IsBox (c : Crypto) : Type 0 where
  pub opens : (m n k : List ℕ) → c.unseal (c.seal m n k) n k ≡ some m
  pub overhead : (m n k : List ℕ) → length (c.seal m n k) ≡ length m + c.overhead

length-frame_of :
    (chunk : List ℕ) → length chunk ≤ 1024 → length (frame_of chunk) ≡ total_frame_size
unfolding frame_of
length-frame_of chunk h =
    let tail = length-append chunk (zeros (1024 - length chunk)) in
    let filled = length-zeros (1024 - length chunk) in omega (arith, tail, filled, h)

chunk_length_of-frame_of :
    (chunk : List ℕ) → length chunk ≤ 1024 → chunk_length_of (frame_of chunk) ≡ length chunk
unfolding frame_of chunk_length_of
chunk_length_of-frame_of chunk h = omega arith

chunk_of_frame :
    (chunk : List ℕ) → take (length chunk) (drop data_len_size (frame_of chunk)) ≡ chunk
unfolding frame_of
chunk_of_frame chunk = take-append_self chunk (zeros (1024 - length chunk))

-- the other end of a connection: it receives what this end sends
abbrev pub receiver : SecretConnection → List ℕ → List ℕ → SecretConnection
receiver sc send_nonce rem_pub_key = record {
  recv_buffer = [];
  recv_nonce = sc.send_nonce;
  send_nonce = send_nonce;
  rem_pub_key = rem_pub_key;
  shr_secret = sc.shr_secret;
}

read_full-empty : (n : ℕ) → 0 < n → read_full n [] ≡ (err eof, [])
unfolding read_full Reader.read
read_full-empty zero h = absurd (omega arith)
read_full-empty (suc n) h = ground arith

module _ (c : Crypto) (b : IsBox c) where
  abbrev pub sealed : List ℕ → SecretConnection → List ℕ
  sealed chunk sc = c.seal (frame_of chunk) sc.send_nonce sc.shr_secret

  abbrev pub counted : SecretConnection → SecretConnection
  counted sc = record sc { send_nonce = incr2_nonce sc.send_nonce }

  -- Read of a frame that the other end has sealed.
  opened_frame :
      (size : ℕ) (chunk : List ℕ) (sc : SecretConnection) (x y : List ℕ)
      → length chunk ≤ 1024
      → opened c size (some (frame_of chunk)) (receiver sc x y)
        ≡ give_chunk c size chunk (receiver (counted sc) x y)
  opened_frame size chunk sc x y h =
      rw (chunk_length_of-frame_of chunk h, le→ltb 1024 (length chunk) h, chunk_of_frame chunk) refl

  pub read_frame :
      (size : ℕ) (chunk : List ℕ) (sc : SecretConnection) (x y rest : List ℕ)
      → length chunk ≤ 1024
      → read c size (receiver sc x y) (sealed chunk sc ++ rest)
        ≡ (let (res, sc') = give_chunk c size chunk (receiver (counted sc) x y) in (res, sc', rest))
  unfolding read
  read_frame size chunk sc x y rest h =
      let box_length : length (sealed chunk sc) ≡ sealed_frame_size c =
        b.overhead _ _ _ ∙ ap (λ n. n + c.overhead) (length-frame_of chunk h) in
      let full : read_full (sealed_frame_size c) (sealed chunk sc ++ rest)
          ≡ (ok (sealed chunk sc), rest) =
        subst (λ n. read_full n (sealed chunk sc ++ rest) ≡ (ok (sealed chunk sc), rest)) box_length
          (Reads-read_full (sealed chunk sc) rest) in
      ap (from_conn c size (receiver sc x y)) full
      ∙ ap (λ r. (r.0, r.1, rest))
          (ap (λ o. opened c size o (receiver sc x y)) (b.opens _ _ _)
            ∙ opened_frame size chunk sc x y h)

  -- so many calls of Read, each with a slice of the given length: the bytes that their counts say
  pub read_times : ℕ → ℕ → SecretConnection → Reader → List ℕ × SecretConnection × Reader
  read_times zero size sc conn = ([], sc, conn)
  read_times (suc k) size sc conn =
      let (res, sc', conn') = read c size sc conn in
      let (bytes, sc'', conn'') = read_times k size sc' conn' in
      (take res.n res.copied ++ bytes, sc'', conn'')

  read_times-frame :
      (k size : ℕ) (chunk : List ℕ) (sc : SecretConnection) (x y rest : List ℕ)
      → length chunk ≤ 1024
      → 1024 ≤ size
      → read_times (suc k) size (receiver sc x y) (sealed chunk sc ++ rest) ≡ (
          let (bytes, sc', conn') = read_times k size (receiver (counted sc) x y) rest in
          (chunk ++ bytes, sc', conn'))
  unfolding read_times
  read_times-frame k size chunk sc x y rest h big =
      let same : take size chunk ≡ chunk = take_all size chunk (omega arith) in
      let all : take (length chunk) chunk ≡ chunk = take_all (length chunk) chunk (omega arith) in
      rw (read_frame size chunk sc x y rest h)
        (rw (same, drop_all size chunk (omega arith), all) refl)

  -- What Write sends, and what becomes of it at the other end.
  module _ (bs : List ℕ) (sc : SecretConnection) where
    abbrev Delivered : List ℕ → SecretConnection → Type 0
    Delivered frames sc' =
        (x y rest : List ℕ) (size : ℕ)
        → 1024 ≤ size
        → (k : ℕ) × (read_times k size (receiver sc x y) (frames ++ rest)
            ≡ (bs, receiver sc' x y, rest))

  abbrev pub Sent :
      List ℕ → ℕ → SecretConnection → List ℕ → Count × SecretConnection × List ℕ → Type 0
  Sent bs n sc s r =
      (r.0 ≡ (n + length bs, none))
      × (r.1.shr_secret ≡ sc.shr_secret)
      × ((frames : List ℕ) × (r.2 ≡ s ++ frames) × Delivered bs sc frames r.1)

  write_loop-Sent :
      (fuel : ℕ) (bs : List ℕ) (n : ℕ) (sc : SecretConnection) (s : List ℕ)
      → length bs ≤ fuel
      → Sent bs n sc s (write_loop c buffer fuel bs n sc s)
  unfolding write_loop read_times
  write_loop-Sent fuel [] n sc s h =
      let plus : n ≡ n + 0 = omega arith in
      (ap (λ m. (m, none)) plus, refl, ([], sym (append-nil s), λ x y rest size big. (0, refl)))
  write_loop-Sent zero (b' ∷ bs) n sc s h = absurd (omega arith)
  write_loop-Sent (suc fuel) (b' ∷ bs) n sc s h =
      let chunk : List ℕ = take 1024 (b' ∷ bs) in
      let left : List ℕ = drop 1024 (b' ∷ bs) in
      let len : length left ≤ fuel = omega (arith, length-drop 1024 (b' ∷ bs)) in
      let small : length chunk ≤ 1024 = omega (arith, length-take 1024 (b' ∷ bs)) in
      let sum : length chunk + length left ≡ length (b' ∷ bs) =
        sym (length-append chunk left) ∙ ap length (take-append-drop 1024 (b' ∷ bs)) in
      let end : SecretConnection =
        (write_loop c buffer fuel left (n + length chunk) (counted sc) (s ++ sealed chunk sc)).1 in
      let (count, secret, (frames, out, delivered)) =
        write_loop-Sent fuel left (n + length chunk) (counted sc) (s ++ sealed chunk sc) len in
      (
        count ∙ ap (λ m. (m, none)) (omega (arith, sum)),
        secret,
        (
          sealed chunk sc ++ frames,
          out ∙ append_assoc s (sealed chunk sc) frames,
          λ x y rest size big.
              let (k, done) = delivered x y rest size big in
              (
                suc k,
                ap (read_times (suc k) size (receiver sc x y))
                      (append_assoc (sealed chunk sc) frames rest)
                    ∙ read_times-frame k size chunk sc x y (frames ++ rest) small big
                    ∙ ap (λ r. (chunk ++ r.0, r.1, r.2)) done
                    ∙ ap (λ d. (d, receiver end x y, rest)) (take-append-drop 1024 (b' ∷ bs)),
              ),
        ),
      )

  -- Write to a buffer writes all bytes, with no error, and adds frames to the buffer. Where the other
  -- end has the same secret, nothing buffered, and for receiving the nonce that this end has for
  -- sending, some number of Reads with slices of 1024 bytes or more gives these bytes, takes the
  -- frames and leaves what follows them, and the two nonces agree again.
  pub write-Sent :
      (bs : List ℕ) (sc : SecretConnection) (s : List ℕ) → Sent bs 0 sc s (write c buffer bs sc s)
  unfolding write
  write-Sent bs sc s = write_loop-Sent (length bs) bs 0 sc s (omega arith)

  -- From a connection with no more frames, no byte counts any more.
  nothing_more : (k size : ℕ) (sc : SecretConnection) → (read_times k size sc []).0 ≡ []
  unfolding read_times read
  nothing_more zero size sc = refl
  nothing_more (suc k) size sc = elim (Bool-cases (ltb 0 (length sc.recv_buffer))) [
    | inl e ↦ rw e (nothing_more k size _)
    | inr e ↦ rw (e, read_full-empty (sealed_frame_size c) (omega arith)) (nothing_more k size sc)
  ]

  pub written_once :
      (bs : List ℕ) (sc : SecretConnection) (s : List ℕ)
      → 0 < length bs
      → length bs ≤ 1024
      → write c buffer bs sc s ≡ ((length bs, none), counted sc, s ++ sealed bs sc)
  unfolding write write_loop
  written_once [] sc s more h = absurd (omega arith)
  written_once (b' ∷ bs) sc s more h =
      let count : 0 + length (take 1024 (b' ∷ bs)) ≡ length (b' ∷ bs) =
        omega (arith, ap length (take_all 1024 (b' ∷ bs) h)) in
      rw (drop_all 1024 (b' ∷ bs) h, take_all 1024 (b' ∷ bs) h)
        (ap (λ m. ((m, none), counted sc, s ++ sealed (b' ∷ bs) sc)) count)

  -- Of a message of at most 1024 bytes that is written at once, Reads with shorter slices give the
  -- first slice only, however often they are called: what Read takes from its buffer it does not
  -- count.
  pub read_times-loses :
      (k size : ℕ) (bs : List ℕ) (sc : SecretConnection) (x y : List ℕ)
      → 0 < length bs
      → length bs ≤ 1024
      → (read_times (suc k) size (receiver sc x y) (write c buffer bs sc []).2).0 ≡ take size bs
  unfolding read_times
  read_times-loses k size bs sc x y more h =
      let sent : (write c buffer bs sc []).2 ≡ sealed bs sc ++ [] =
        ap (λ r. r.2) (written_once bs sc [] more h) ∙ sym (append-nil (sealed bs sc)) in
      rw sent (
        rw (read_frame size bs sc x y [] h) (
          rw (nothing_more k size _, take_all (length (take size bs)) (take size bs) (omega arith))
            (append-nil (take size bs))))
