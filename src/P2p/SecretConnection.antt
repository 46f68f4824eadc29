-- ===== src/P2p/SecretConnection.antt =====
-- p2p/connection/secret_connection.go: frames that are encrypted in order, after a handshake that
-- agrees on a secret and on the two counters.
pub mod Order
pub mod Handshake
pub mod Nonces
pub mod Stream
pub mod Agreement
use btm_stats.Base.{
  ℕ, zero, suc, ◌+◌, ◌-◌, ◌*◌, ◌/◌, ◌%◌, ◌≡◌, Bool, true, false, Option, none, some, List, [], ◌∷◌,
  ◌++◌, length, take, drop, ltb, ◌==◌, if◌then◌else◌,
}
use btm_stats.Errors.{Error, other}
use btm_stats.Encoding.Reader.{Reader, Result, ok, err, read_full}
use btm_stats.Io.{Count, Writer}
use btm_stats.Common.Bytes.{zeros}

-- golang.org/x/crypto and go-crypto, with keys and signatures as their bytes: secretbox with its
-- Overhead, box.Precompute, the hashes, Ed25519, and go-wire's coding of a key and a signature
pub record Crypto : Type 0 where
  pub overhead : ℕ
  pub seal : List ℕ → List ℕ → List ℕ → List ℕ
  pub unseal : List ℕ → List ℕ → List ℕ → Option (List ℕ)
  pub precompute : List ℕ → List ℕ → List ℕ
  pub ripemd160 : List ℕ → List ℕ
  pub sha256 : List ℕ → List ℕ
  pub pub_key : List ℕ → List ℕ
  pub sign : List ℕ → List ℕ → List ℕ
  pub verify : List ℕ → List ℕ → List ℕ → Bool
  pub encode : List ℕ → List ℕ → List ℕ
  pub decode : List ℕ → Result (List ℕ × List ℕ)

abbrev pub data_len_size : ℕ
data_len_size = 2

abbrev data_max_size : ℕ
data_max_size = 1024

abbrev pub total_frame_size : ℕ
total_frame_size = data_max_size + data_len_size

abbrev pub auth_sig_msg_size : ℕ
auth_sig_msg_size = (32 + 1) + (64 + 1)

-- SecretConnection, but its conn: the bytes to read and the state of the writer are apart
pub record SecretConnection : Type 0 where
  pub recv_buffer : List ℕ
  pub recv_nonce : List ℕ
  pub send_nonce : List ℕ
  pub rem_pub_key : List ℕ
  pub shr_secret : List ℕ

-- incrNonce, from the last byte on: the bytes, and whether all of them are 0 now
abbrev pub incremented : ℕ → List ℕ × Bool → List ℕ × Bool
incremented b (bs, false) = (b ∷ bs, false)
incremented b (bs, true) = (((b + 1) % 256) ∷ bs, (b + 1) % 256 == 0)

unfoldable pub incr_bytes : List ℕ → List ℕ × Bool
incr_bytes [] = ([], true)
incr_bytes (b ∷ bs) = incremented b (incr_bytes bs)

unfoldable pub incr_nonce : List ℕ → List ℕ
incr_nonce nonce = (incr_bytes nonce).0

unfoldable pub incr2_nonce : List ℕ → List ℕ
incr2_nonce nonce = incr_nonce (incr_nonce nonce)

-- the frame of a chunk: its length in two bytes, the chunk, and zeros up to the size
unfoldable pub frame_of : List ℕ → List ℕ
frame_of chunk =
    (length chunk / 256 % 256)
    ∷ (length chunk % 256)
    ∷ (chunk ++ zeros (data_max_size - length chunk))

-- the first two bytes of a frame, as a number
unfoldable pub chunk_length_of : List ℕ → ℕ
chunk_length_of (hi ∷ lo ∷ frame) = hi * 256 + lo
chunk_length_of (hi ∷ []) = 0
chunk_length_of [] = 0

-- what Read does: the count that it returns, the bytes that it copied, and the error
pub record ReadResult : Type 0 where
  pub n : ℕ
  pub copied : List ℕ
  pub error : Option Error

module _ (c : Crypto) where
  abbrev pub sealed_frame_size : ℕ
  sealed_frame_size = total_frame_size + c.overhead

  -- Write, on the writer's state; the fuel is the length of the data
  abbrev or_stop : {A : Type 0} → Option Error → (Error → A) → A → A
  or_stop (some e) stop rest = stop e
  or_stop none stop rest = rest

  module _ {S : Type 0} (w : Writer S) where
    unfoldable pub write_loop : ℕ → List ℕ → ℕ → SecretConnection → S → Count × SecretConnection × S
    write_loop fuel [] n sc s = ((n, none), sc, s)
    write_loop zero (b ∷ bs) n sc s = ((n, none), sc, s)
    write_loop (suc fuel) (b ∷ bs) n sc s =
        let chunk = take data_max_size (b ∷ bs) in
        let sealed = c.seal (frame_of chunk) sc.send_nonce sc.shr_secret in
        let sc' = record sc { send_nonce = incr2_nonce sc.send_nonce } in
        let ((m, e), s') = w.write sealed s in
        let rest = write_loop fuel (drop data_max_size (b ∷ bs)) (n + length chunk) sc' s' in
        or_stop e (λ e'. ((n, some e'), sc', s')) rest

    unfoldable pub write : List ℕ → SecretConnection → S → Count × SecretConnection × S
    write bs sc s = write_loop (length bs) bs 0 sc s

  -- Read, for a slice of the given length, from its end. A read from recvBuffer leaves the count 0.
  abbrev pub give_chunk : ℕ → List ℕ → SecretConnection → ReadResult × SecretConnection
  give_chunk size chunk sc = (
    record { n = length (take size chunk); copied = take size chunk; error = none },
    record sc { recv_buffer = drop size chunk },
  )

  abbrev refuse : Error → SecretConnection → ReadResult × SecretConnection
  refuse e sc = (record { n = 0; copied = []; error = some e }, sc)

  abbrev pub opened : ℕ → Option (List ℕ) → SecretConnection → ReadResult × SecretConnection
  opened size none sc = refuse (other "Failed to decrypt SecretConnection") sc
  opened size (some frame) sc =
      let sc' = record sc { recv_nonce = incr2_nonce sc.recv_nonce } in
      if ltb data_max_size (chunk_length_of frame)
      then refuse (other "chunkLength is greater than dataMaxSize") sc'
      else give_chunk size (take (chunk_length_of frame) (drop data_len_size frame)) sc'

  abbrev pub received : ℕ → Result (List ℕ) → SecretConnection → ReadResult × SecretConnection
  received size (err e) sc = refuse e sc
  received size (ok sealed) sc = opened size (c.unseal sealed sc.recv_nonce sc.shr_secret) sc

  abbrev pub from_conn :
      ℕ → SecretConnection → Result (List ℕ) × Reader → ReadResult × SecretConnection × Reader
  from_conn size sc (r, conn) = let (res, sc') = received size r sc in (res, sc', conn)

  unfoldable pub read : ℕ → SecretConnection → Reader → ReadResult × SecretConnection × Reader
  read size sc conn =
      let buffered = sc.recv_buffer in
      if ltb 0 (length buffered)
      then (
        record { n = 0; copied = take size buffered; error = none },
        record sc { recv_buffer = drop size buffered },
        conn,
      )
      else from_conn size sc (read_full sealed_frame_size conn)
