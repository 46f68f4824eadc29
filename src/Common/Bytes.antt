-- ===== src/Common/Bytes.antt =====
-- common/bytes.go: padding of byte slices, and numbers in bytes.
pub mod Numbers
use btm_stats.Base.{
  ℕ, zero, suc, ◌+◌, ◌-◌, ◌*◌, ◌/◌, ◌%◌, Bool, true, false, ◌&&◌, Option, none, some, List, [], ◌∷◌,
  ◌++◌, length, take, drop, ltb, leb, ◌==◌, if◌then◌else◌,
}

-- make([]byte, n)
abbrev pub zeros : ℕ → List ℕ
zeros zero = []
zeros (suc n) = 0 ∷ zeros n

-- LeftPadBytes, RightPadBytes
unfoldable pub left_pad_bytes : List ℕ → ℕ → List ℕ
left_pad_bytes slice l = if ltb l (length slice) then slice else zeros (l - length slice) ++ slice

unfoldable pub right_pad_bytes : List ℕ → ℕ → List ℕ
right_pad_bytes slice l = if ltb l (length slice) then slice else slice ++ zeros (l - length slice)

-- ToAddress
unfoldable pub to_address : List ℕ → List ℕ
to_address slice =
    if ltb (length slice) 20
    then left_pad_bytes slice 20
    else if ltb 20 (length slice)
    then drop (length slice - 20) slice
    else slice

-- a number of bytes, the most significant first, behind the digits read so far
abbrev pub big_endian : ℕ → List ℕ → ℕ
big_endian n [] = n
big_endian n (b ∷ bs) = big_endian (n * 256 + b) bs

-- binary.Read of a number of so many bytes, which leaves 0 where there are fewer
abbrev pub read_number : ℕ → List ℕ → ℕ
read_number width bs = if leb width (length bs) then big_endian 0 (take width bs) else 0

-- ReadVarInt
unfoldable pub read_var_int : List ℕ → ℕ
read_var_int buff =
    if ltb 4 (length buff)
    then read_number 8 (left_pad_bytes buff 8)
    else if ltb 2 (length buff)
    then read_number 4 (left_pad_bytes buff 4)
    else if ltb 1 (length buff)
    then read_number 2 (left_pad_bytes buff 2)
    else read_number 1 buff

-- BytesToNumber, where `none` is the panic of a slice beyond the 8 bytes of data
unfoldable pub bytes_to_number : List ℕ → Option ℕ
bytes_to_number b = if ltb 8 (length b) then none else some (read_number 8 (zeros (length b) ++ b))

-- HasHexPrefix, IsHex: "0x" at the start
abbrev pub starts_with_0x : List ℕ → Bool
starts_with_0x (a ∷ b ∷ str) = a == 48 && b == 120
starts_with_0x (a ∷ []) = false
starts_with_0x [] = false

unfoldable pub has_hex_prefix : List ℕ → Bool
has_hex_prefix str = leb 2 (length str) && starts_with_0x str

unfoldable pub is_hex : List ℕ → Bool
is_hex str = leb 4 (length str) && length str % 2 == 0 && starts_with_0x str

-- Unit64ToBytes, BytesToUnit64: eight bytes, the least significant first; `none` is a panic
abbrev pub put_digits : ℕ → ℕ → List ℕ
put_digits zero n = []
put_digits (suc k) n = (n % 256) ∷ put_digits k (n / 256)

abbrev pub little_endian : List ℕ → ℕ
little_endian [] = 0
little_endian (b ∷ bs) = b + 256 * little_endian bs

unfoldable pub unit64_to_bytes : ℕ → List ℕ
unit64_to_bytes n = put_digits 8 n

unfoldable pub bytes_to_unit64 : List ℕ → Option ℕ
bytes_to_unit64 b = if ltb (length b) 8 then none else some (little_endian (take 8 b))
