-- ===== src/Tests/SecretRuns.antt =====
-- Runs of the secret connection, with a box that hides nothing and signatures of the right sizes.
use btm_stats.Base.{
  ◌≡◌, ◌≢◌, refl, ap, sym, subst, ◌∙◌, ℕ, ◌%◌, ◌^◌, true, some, List, [], ◌∷◌, ◌++◌, length, take,
  drop, arith, length-take, length-append, take-append_self, drop-append_self, drop-drop,
}
use btm_stats.Encoding.Reader.{Result, ok}
use btm_stats.Io.{buffer}
use btm_stats.Common.Bytes.{zeros}
use btm_stats.Common.Bytes.Numbers.{length-zeros}
use btm_stats.P2p.SecretConnection.{
  Crypto, SecretConnection, incr2_nonce, incr_nonce, incr_bytes, write, write_loop, frame_of,
}
use btm_stats.P2p.SecretConnection.Handshake.{flip_last, make_secret_connection}
use btm_stats.P2p.SecretConnection.Nonces.{nth_nonce, nth_nonce-differs}
use btm_stats.P2p.SecretConnection.Stream.{
  IsBox, receiver, read_times, Sent, write-Sent, read_times-loses,
}
use btm_stats.P2p.SecretConnection.Agreement.{IsSigning, make_secret_connection-agrees}

abbrev key_of : List ℕ → List ℕ
key_of k = take 32 (k ++ zeros 32)

abbrev signature : List ℕ → List ℕ
signature m = take 64 (m ++ zeros 64)

abbrev toy : Crypto
toy = record {
  overhead = 16;
  seal = λ m n k. zeros 16 ++ m;
  unseal = λ box n k. some (drop 16 box);
  precompute = λ p s. [];
  ripemd160 = λ bs. take 20 (bs ++ zeros 20);
  sha256 = λ bs. take 32 (bs ++ zeros 32);
  pub_key = key_of;
  sign = λ k m. signature m;
  verify = λ k m s. true;
  encode = λ k s. 1 ∷ (k ++ (1 ∷ s));
  decode = λ bs. ok (take 32 (drop 1 bs), drop 34 bs);
}

toy-IsBox : IsBox toy
toy-IsBox = record { opens = λ m n k. refl; overhead = λ m n k. omega arith }

length-key_of : (k : List ℕ) → length (key_of k) ≡ 32
length-key_of k =
    omega (arith, length-take 32 (k ++ zeros 32), length-append k (zeros 32), length-zeros 32)

length-signature : (m : List ℕ) → length (signature m) ≡ 64
length-signature m =
    omega (arith, length-take 64 (m ++ zeros 64), length-append m (zeros 64), length-zeros 64)

toy-decodes :
    (k s : List ℕ)
    → length k ≡ 32
    → ◌≡◌ {A = Result (List ℕ × List ℕ)}
        (ok (take 32 (k ++ (1 ∷ s)), drop 33 (k ++ (1 ∷ s))))
        (ok (k, s))
toy-decodes k s h =
    let key : take 32 (k ++ (1 ∷ s)) ≡ k =
      subst (λ n. take n (k ++ (1 ∷ s)) ≡ k) h (take-append_self k (1 ∷ s)) in
    let tail : drop 32 (k ++ (1 ∷ s)) ≡ 1 ∷ s =
      subst (λ n. drop n (k ++ (1 ∷ s)) ≡ 1 ∷ s) h (drop-append_self k (1 ∷ s)) in
    let sig : drop 33 (k ++ (1 ∷ s)) ≡ s =
      sym (drop-drop 1 32 33 (k ++ (1 ∷ s)) refl) ∙ ap (drop 1) tail in
    cc (key, sig)

toy-IsSigning : IsSigning toy
toy-IsSigning = record {
  verifies = λ k m. refl;
  decodes = λ k m. toy-decodes (key_of k) (signature m) (length-key_of k);
  fixed_size = λ k m.
      omega
        (arith, length-append (key_of k) (1 ∷ signature m), length-key_of k, length-signature m);
}

abbrev nonce : List ℕ
nonce = zeros 22 ++ (255 ∷ 254 ∷ [])

-- Two bytes that are full wrap into the next.
wrapped :
    (incr2_nonce nonce ≡ zeros 21 ++ (1 ∷ 0 ∷ 0 ∷ []))
    × (flip_last nonce ≡ zeros 22 ++ (255 ∷ 255 ∷ []))
unfolding incr2_nonce incr_nonce incr_bytes flip_last
wrapped = (refl, refl)

nth_nonce-differs_example :
    (nth_nonce 3 nonce ≢ nth_nonce 5 (flip_last nonce))
    × (nth_nonce 3 nonce ≡ nth_nonce 5 nonce → 3 % 2 ^ 191 ≡ 5 % 2 ^ 191)
nth_nonce-differs_example = nth_nonce-differs nonce (refl, omega arith) 3 5

abbrev sender : SecretConnection
sender = record {
  recv_buffer = [];
  recv_nonce = flip_last nonce;
  send_nonce = nonce;
  rem_pub_key = [];
  shr_secret = [];
}

abbrev message : List ℕ
message = 1 ∷ 2 ∷ 3 ∷ []

-- A message of three bytes becomes one frame.
sent : length (write toy buffer message sender []).2 ≡ 1042
unfolding write write_loop frame_of
sent = refl

write-Sent_example : Sent toy toy-IsBox message 0 sender [] (write toy buffer message sender [])
write-Sent_example = write-Sent toy toy-IsBox message sender []

read_times-loses_example :
    (read_times toy toy-IsBox 2 2 (receiver sender [] []) (write toy buffer message sender []).2).0
    ≡ take 2 message
read_times-loses_example =
    read_times-loses toy toy-IsBox 1 2 message sender [] [] (omega arith) (omega arith)

abbrev a_pub : List ℕ
a_pub = 1 ∷ zeros 31

abbrev b_pub : List ℕ
b_pub = 2 ∷ zeros 31

make_secret_connection-agrees_example :
    (out_a out_b : List ℕ) × (sc_a : SecretConnection) × (sc_b : SecretConnection) × ((rest : List
        ℕ)
      → make_secret_connection toy buffer (7 ∷ []) a_pub [] [] (out_b ++ rest)
        ≡ (ok sc_a, out_a, rest))
    × ((rest : List ℕ)
        → make_secret_connection toy buffer (8 ∷ []) b_pub [] [] (out_a ++ rest)
          ≡ (ok sc_b, out_b, rest))
    × (sc_a ≡ receiver sc_b sc_a.send_nonce (key_of (8 ∷ [])))
    × (sc_b ≡ receiver sc_a sc_b.send_nonce (key_of (7 ∷ [])))
make_secret_connection-agrees_example =
    make_secret_connection-agrees toy toy-IsBox toy-IsSigning (7 ∷ []) (8 ∷ []) a_pub [] b_pub []
      refl refl (λ e. cc (e)) refl
