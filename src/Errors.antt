-- ===== src/Errors.antt =====
-- errors/errors.go: error values, and the errors that the modelled code creates.
-- The message and the stack of a wrapped error are one list of contexts, the outermost first.
pub mod Writer
use btm_stats.Base.{ℕ, zero, suc, ◌≡◌, refl, String, Option, none, some}

-- An error value. The constructors but the last two are the roots: the sentinels of the standard
-- library (io.EOF, io.ErrUnexpectedEOF, the overflow of encoding/binary, hex.ErrLength,
-- hex.InvalidByteError) and the errors of the source, with the number in their message.
pub data Error : Type 0 where
  eof unexpected_eof overflow hex_length : Error
  hex_invalid_byte : ℕ → Error
  value_out_of_range bad_asset_id : Error
  unsupported_serflags unsupported_input_type : ℕ → Error
  unrecognized_vm_version : ℕ → Error
  trailing_garbage bad_length_hash_string : ℕ → Error
  other : String → Error
  wrapped : String → Error → Error
  wrapped_at : String → ℕ → Error → Error

-- Root
pub root : Error → Error
root (wrapped msg e) = root e
root (wrapped_at msg n e) = root e
root e = e

-- Wrap, which returns nil for nil; Wrapf with one number
unfoldable pub wrap : Option Error → String → Option Error
wrap none msg = none
wrap (some e) msg = some (wrapped msg e)
