-- ===== src/Tests/CommonRuns.antt =====
-- Runs of common.
use btm_stats.Base.{◌≡◌, refl, true, false, some, List, [], ◌∷◌, ◌-◌, length, take, arith, ℕ}
use btm_stats.Common.Bytes.{
  big_endian, read_var_int, bytes_to_number, right_pad_bytes, left_pad_bytes, to_address, is_hex,
  has_hex_prefix, unit64_to_bytes, bytes_to_unit64,
}
use btm_stats.Common.Bytes.Numbers.{bytes_to_number-first_bytes}

abbrev three_bytes : List ℕ
three_bytes = 1 ∷ 2 ∷ 3 ∷ []

abbrev five_bytes : List ℕ
five_bytes = 1 ∷ 2 ∷ 3 ∷ 4 ∷ 5 ∷ []

read_three : read_var_int three_bytes ≡ 66051
unfolding read_var_int left_pad_bytes
read_three = refl

-- Three bytes are too few with their zeros, and of five the last two are lost.
numbers : (bytes_to_number three_bytes ≡ some 0) × (bytes_to_number five_bytes ≡ some 66051)
unfolding bytes_to_number
numbers = (refl, refl)

pads :
    (left_pad_bytes three_bytes 5 ≡ 0 ∷ 0 ∷ three_bytes)
    × (right_pad_bytes three_bytes 2 ≡ three_bytes)
unfolding left_pad_bytes right_pad_bytes
pads = (refl, refl)

address_length : length (to_address three_bytes) ≡ 20
unfolding to_address left_pad_bytes
address_length = refl

hex : (has_hex_prefix (48 ∷ 120 ∷ []) ≡ true) × (is_hex (48 ∷ 120 ∷ []) ≡ false)
unfolding has_hex_prefix is_hex
hex = (refl, refl)

stored : bytes_to_unit64 (unit64_to_bytes 66051) ≡ some 66051
unfolding bytes_to_unit64 unit64_to_bytes
stored = refl

bytes_to_number-first_bytes_example :
    bytes_to_number five_bytes ≡ some (big_endian 0 (take (8 - length five_bytes) five_bytes))
bytes_to_number-first_bytes_example =
    bytes_to_number-first_bytes five_bytes (omega arith) (omega arith)
