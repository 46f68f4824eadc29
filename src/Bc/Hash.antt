-- ===== src/Bc/Hash.antt =====
-- protocol/bc/hash.go: 256-bit hashes as four big-endian words.
use btm_stats.Base.{
  ℕ, zero, suc, ◌+◌, ◌-◌, ◌≤◌, ◌≡◌, refl, Bool, true, ◌&&◌, Option, none, some, List, [], ◌∷◌, ◌++◌,
  length, All, take, drop, ◌==◌, if◌then◌else◌, arith, append-nil, length-take, length-drop,
  drop-drop, take_all, All-take, All-drop, take-append-drop, subst,
}
use btm_stats.Errors.{Error, bad_length_hash_string}
use btm_stats.Io.{Count, Writer, Write, send}
use btm_stats.Encoding.Reader.{Read, ◌>>=◌, pure, read_full}
use btm_stats.Encoding.Reads.{
  Reads, IsPrefixRead, Reads-read_full, IsPrefixRead-read_full, IsPrefixRead-bind,
  IsPrefixRead-pure,
}
use btm_stats.Bc.Words.{
  IsByte, IsU64, put_uint64_be, uint64_be, hex_encode, hex_decode, uint64_be-put, put-uint64_be,
  decode-encode, length-hex_encode, uint64_be-IsU64,
}

-- the message Hash of bc.proto
pub record Hash : Type 0 where
  pub v0 : ℕ
  pub v1 : ℕ
  pub v2 : ℕ
  pub v3 : ℕ

-- The words are uint64s.
pub record IsHash (h : Hash) : Type 0 where
  pub word0 : IsU64 h.v0
  pub word1 : IsU64 h.v1
  pub word2 : IsU64 h.v2
  pub word3 : IsU64 h.v3

-- NewHash, of an array of 32 bytes
unfoldable pub new_hash : List ℕ → Hash
new_hash b32 = record {
  v0 = uint64_be (take 8 b32);
  v1 = uint64_be (take 8 (drop 8 b32));
  v2 = uint64_be (take 8 (drop 16 b32));
  v3 = uint64_be (take 8 (drop 24 b32));
}

-- Byte32, and Bytes
unfoldable pub byte32 : Hash → List ℕ
byte32 h = put_uint64_be h.v0 ++ (put_uint64_be h.v1 ++ (put_uint64_be h.v2 ++ put_uint64_be h.v3))

-- MarshalText
unfoldable pub marshal_text : Hash → List ℕ
marshal_text h = hex_encode (byte32 h)

abbrev pub zeros : ℕ → List ℕ
zeros zero = []
zeros (suc n) = 0 ∷ zeros n

-- an array of n bytes after hex.Decode into it
abbrev filled : ℕ → List ℕ → List ℕ
filled n bs = bs ++ zeros (n - length bs)

-- UnmarshalText: the error, and the new value of the hash. A hash is also stored when hex.Decode
-- fails.
unfoldable pub unmarshal_text : List ℕ → Hash → Option Error × Hash
unmarshal_text v h =
    if length v == 64
    then (let (bs, e) = hex_decode v in (e, new_hash (filled 32 bs)))
    else (some (bad_length_hash_string (length v)), h)

-- WriteTo
unfoldable pub write_to : {S : Type 0} → Writer S → Hash → Write S Count
write_to w h = send w (byte32 h)

-- ReadFrom, on a Reader
unfoldable pub read_from : Read Hash
read_from = do b32 ← read_full 32; pure (new_hash b32)

-- IsZero; a nil pointer is `none`
unfoldable pub is_zero : Option Hash → Bool
is_zero none = true
is_zero (some h) = h.v0 == 0 && (h.v1 == 0 && (h.v2 == 0 && h.v3 == 0))

pub length-byte32 : (h : Hash) → length (byte32 h) ≡ 32
unfolding byte32
length-byte32 h = unfold put_uint64_be in refl

-- NewHash after Byte32 gives the hash back.
pub new_hash-byte32 : (h : Hash) → IsHash h → new_hash (byte32 h) ≡ h
unfolding new_hash byte32
new_hash-byte32 h v =
    unfold put_uint64_be in
    λ i. record {
      v0 = uint64_be-put h.v0 [] v.word0 i;
      v1 = uint64_be-put h.v1 [] v.word1 i;
      v2 = uint64_be-put h.v2 [] v.word2 i;
      v3 = uint64_be-put h.v3 [] v.word3 i;
    }

module _ (b32 : List ℕ) (e : length b32 ≡ 32) (h : All IsByte b32) where
  word_at :
      (n : ℕ) → n + 8 ≤ 32 → put_uint64_be (uint64_be (take 8 (drop n b32))) ≡ take 8 (drop n b32)
  word_at n le =
      put-uint64_be (take 8 (drop n b32))
        (omega (arith, length-take 8 (drop n b32), length-drop n b32))
        (All-take IsByte 8 (drop n b32) (All-drop IsByte n b32 h))

  rest_at : (n k : ℕ) → n + 8 ≡ k → take 8 (drop n b32) ++ drop k b32 ≡ drop n b32
  rest_at n k q = rw (← drop-drop 8 n k b32 q) (take-append-drop 8 (drop n b32))

  -- Byte32 after NewHash gives the array back.
  pub byte32-new_hash : byte32 (new_hash b32) ≡ b32
  unfolding new_hash byte32
  byte32-new_hash =
      rw
        (
          word_at 0 (omega arith),
          word_at 8 (omega arith),
          word_at 16 (omega arith),
          word_at 24 (omega arith),
          take_all 8 (drop 24 b32) (omega (arith, length-drop 24 b32)),
          rest_at 16 24 refl,
          rest_at 8 16 refl,
        )
        (rest_at 0 8 refl)

  pub new_hash-IsHash : IsHash (new_hash b32)
  unfolding new_hash
  new_hash-IsHash = record {
    word0 = word 0 (omega arith);
    word1 = word 8 (omega arith);
    word2 = word 16 (omega arith);
    word3 = word 24 (omega arith);
  }
    where
      word : (n : ℕ) → n + 8 ≤ 32 → IsU64 (uint64_be (take 8 (drop n b32)))
      word n le =
          uint64_be-IsU64 (take 8 (drop n b32))
            (omega (arith, length-take 8 (drop n b32), length-drop n b32))
            (All-take IsByte 8 (drop n b32) (All-drop IsByte n b32 h))

byte32-IsByte : (h : Hash) → All IsByte (byte32 h)
unfolding byte32
byte32-IsByte h = unfold put_uint64_be in omega arith

-- UnmarshalText reads what MarshalText printed, whatever the hash held before.
pub unmarshal_text-marshal_text :
    (h old : Hash) → IsHash h → unmarshal_text (marshal_text h) old ≡ (none, h)
unfolding unmarshal_text marshal_text
unmarshal_text-marshal_text h old v =
    rw (length-hex_encode (byte32 h), length-byte32 h, decode-encode (byte32 h) (byte32-IsByte h))
      (rw (length-byte32 h, append-nil, new_hash-byte32 h v))

pub Reads-read_hash : (h : Hash) → IsHash h → Reads read_from (byte32 h) h
unfolding read_from
Reads-read_hash h v rest = rw (full rest, new_hash-byte32 h v)
  where
    full : Reads (read_full 32) (byte32 h) (byte32 h)
    full =
        subst (λ k. Reads (read_full k) (byte32 h) (byte32 h)) (length-byte32 h)
          (Reads-read_full (byte32 h))

pub IsPrefixRead-read_hash : IsPrefixRead read_from
unfolding read_from
IsPrefixRead-read_hash =
    IsPrefixRead-bind (read_full 32) (λ b. pure (new_hash b)) (IsPrefixRead-read_full 32)
      (λ b. IsPrefixRead-pure (new_hash b))
