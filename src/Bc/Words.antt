-- ===== src/Bc/Words.antt =====
-- encoding/binary's fixed-width words and encoding/hex, as protocol/bc uses them.
use btm_stats.Base.{
  ℕ, ◌+◌, ◌-◌, ◌*◌, ◌/◌, ◌%◌, ◌^◌, ◌<◌, ◌≡◌, refl, ◌&&◌, Option, none, some, List, [], ◌∷◌, ◌++◌,
  length, All, leb, ltb, if◌then◌else◌, arith,
}
use btm_stats.Errors.{Error, hex_length, hex_invalid_byte}

abbrev pub IsByte : ℕ → Type 0
IsByte b = b < 256

abbrev pub IsU64 : ℕ → Type 0
IsU64 v = v < 2 ^ 64

-- binary.BigEndian.PutUint64
unfoldable pub put_uint64_be : ℕ → List ℕ
put_uint64_be v =
    (v / 2 ^ 56 % 256)
    ∷ (v / 2 ^ 48 % 256)
    ∷ (v / 2 ^ 40 % 256)
    ∷ (v / 2 ^ 32 % 256)
    ∷ (v / 2 ^ 24 % 256)
    ∷ (v / 2 ^ 16 % 256)
    ∷ (v / 2 ^ 8 % 256)
    ∷ (v % 256)
    ∷ []

-- binary.LittleEndian.PutUint64
unfoldable pub put_uint64_le : ℕ → List ℕ
put_uint64_le v =
    (v % 256)
    ∷ (v / 2 ^ 8 % 256)
    ∷ (v / 2 ^ 16 % 256)
    ∷ (v / 2 ^ 24 % 256)
    ∷ (v / 2 ^ 32 % 256)
    ∷ (v / 2 ^ 40 % 256)
    ∷ (v / 2 ^ 48 % 256)
    ∷ (v / 2 ^ 56 % 256)
    ∷ []

-- binary.BigEndian.Uint64, called on eight bytes only
unfoldable pub uint64_be : List ℕ → ℕ
uint64_be (b0 ∷ b1 ∷ b2 ∷ b3 ∷ b4 ∷ b5 ∷ b6 ∷ b7 ∷ bs) =
    b0 * 2 ^ 56
    + b1 * 2 ^ 48
    + b2 * 2 ^ 40
    + b3 * 2 ^ 32
    + b4 * 2 ^ 24
    + b5 * 2 ^ 16
    + b6 * 2 ^ 8
    + b7
uint64_be _ = 0

pub uint64_be-put : (v : ℕ) (bs : List ℕ) → IsU64 v → uint64_be (put_uint64_be v ++ bs) ≡ v
unfolding uint64_be put_uint64_be
uint64_be-put v bs h = omega arith

pub put-uint64_be :
    (bs : List ℕ) → length bs ≡ 8 → All IsByte bs → put_uint64_be (uint64_be bs) ≡ bs
unfolding uint64_be put_uint64_be
put-uint64_be (b0 ∷ b1 ∷ b2 ∷ b3 ∷ b4 ∷ b5 ∷ b6 ∷ b7 ∷ []) e h = ground arith
put-uint64_be bs e h = absurd (omega arith)

pub uint64_be-IsU64 : (bs : List ℕ) → length bs ≡ 8 → All IsByte bs → IsU64 (uint64_be bs)
unfolding uint64_be
uint64_be-IsU64 (b0 ∷ b1 ∷ b2 ∷ b3 ∷ b4 ∷ b5 ∷ b6 ∷ b7 ∷ []) e h = omega arith
uint64_be-IsU64 bs e h = absurd (omega arith)

-- a digit of hex.Encode
abbrev pub hex_digit : ℕ → ℕ
hex_digit n = if ltb n 10 then b'0' + n else b'a' + (n - 10)

-- hex.Encode
unfoldable pub hex_encode : List ℕ → List ℕ
hex_encode [] = []
hex_encode (b ∷ bs) = hex_digit (b / 16) ∷ hex_digit (b % 16) ∷ hex_encode bs

-- fromHexChar of encoding/hex
abbrev pub from_hex_char : ℕ → Option ℕ
from_hex_char c =
    if leb b'0' c && leb c b'9'
    then some (c - b'0')
    else if leb b'a' c && leb c b'f'
    then some (c - b'a' + 10)
    else if leb b'A' c && leb c b'F'
    then some (c - b'A' + 10)
    else none

-- hex.Decode: the bytes decoded before the first error, and the error
abbrev pub decoded : ℕ → ℕ → Option ℕ → Option ℕ → List ℕ × Option Error → List ℕ × Option Error
decoded c d none y rest = ([], some (hex_invalid_byte c))
decoded c d (some x) none rest = ([], some (hex_invalid_byte d))
decoded c d (some x) (some y) (bs, e) = ((x * 16 + y) ∷ bs, e)

abbrev pub odd_digit : ℕ → Option ℕ → Error
odd_digit c none = hex_invalid_byte c
odd_digit c (some x) = hex_length

unfoldable pub hex_decode : List ℕ → List ℕ × Option Error
hex_decode [] = ([], none)
hex_decode (c ∷ []) = ([], some (odd_digit c (from_hex_char c)))
hex_decode (c ∷ d ∷ cs) = decoded c d (from_hex_char c) (from_hex_char d) (hex_decode cs)

from-hex_digit : (n : ℕ) → n < 16 → from_hex_char (hex_digit n) ≡ some n
from-hex_digit n h = ground arith

pub decode-encode : (bs : List ℕ) → All IsByte bs → hex_decode (hex_encode bs) ≡ (bs, none)
unfolding hex_decode hex_encode
decode-encode [] h = refl
decode-encode (b ∷ bs) (hb, hbs) =
    rw
      (
        from-hex_digit (b / 16) (omega arith),
        from-hex_digit (b % 16) (omega arith),
        decode-encode bs hbs,
      )
      (ground arith)

pub length-hex_encode : (bs : List ℕ) → length (hex_encode bs) ≡ 2 * length bs
unfolding hex_encode
length-hex_encode [] = refl
length-hex_encode (b ∷ bs) = omega (arith, length-hex_encode bs)
