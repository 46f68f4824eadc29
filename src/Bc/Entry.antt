-- ===== src/Bc/Entry.antt =====
-- protocol/bc/entry.go: writeForHash, over Go values as its type switches tell them apart.
use btm_stats.Base.{ℕ, suc, ◌+◌, Option, none, some, List, [], ◌∷◌, String}
use btm_stats.Errors.{Error, other, wrap, wrapped_at}
use btm_stats.Io.{Count, Writer, Write, ◌>>=◌, pure, send}
use btm_stats.Encoding.Write.{write_varint31, write_varstr31, write_varstr_list}
use btm_stats.Bc.Words.{put_uint64_le}
use btm_stats.Bc.Hash.{Hash, byte32, zeros}

-- A Go value in an interface{}. A string is its bytes. `hidden` stands before a field that is not
-- exported, for which CanInterface is false, and `opaque_value` is of any other type.
mutual
  pub data Value : Type 0 where
    byte : ℕ → Value
    uint64 : ℕ → Value
    bytes : List ℕ → Value
    byte_slices : List (List ℕ) → Value
    text : List ℕ → Value
    hash_pointer : Option Hash → Value
    asset_id_pointer : Option Hash → Value
    hash : Hash → Value
    asset_id : Hash → Value
    nil_pointer : Value
    pointer : Value → Value
    slice : Values → Value
    struct : Values → Value
    opaque_value : Value

  pub data Values : Type 0 where
    end : Values
    field : Value → Values → Values
    hidden : Value → Values → Values

abbrev pub count : Values → ℕ
count end = 0
count (field v vs) = suc (count vs)
count (hidden v vs) = suc (count vs)

-- `_, err := …; return errors.Wrap(err, msg)`
abbrev pub wrapping : {S : Type 0} → String → Write S Count → Write S (Option Error)
wrapping msg m = do (n, err) ← m; pure (wrap err msg)

-- errInvalidValue, and the error for a bad type
abbrev pub invalid_value : Error
invalid_value = other "invalid value"

abbrev pub bad_type : Option Error
bad_type = wrap (some (other "bad type")) ""

-- `if err != nil { return errors.Wrapf(err, msg, i) }`, or go on
abbrev pub or_return :
    {S : Type 0} → String → ℕ → Write S (Option Error) → Option Error → Write S (Option Error)
or_return msg i next (some e) = pure (some (wrapped_at msg i e))
or_return msg i next none = next

-- the same with errors.Wrap
abbrev pub or_wrapped :
    {S : Type 0} → String → Write S (Option Error) → Option Error → Write S (Option Error)
or_wrapped msg next (some e) = pure (wrap (some e) msg)
or_wrapped msg next none = next

module _ {S : Type 0} (w : Writer S) where
  unfoldable mutual
    pub write_for_hash : Value → Write S (Option Error)
    write_for_hash (byte b) = wrapping "writing byte for hash" (send w (b ∷ []))
    write_for_hash (uint64 v) = wrapping "writing uint64 for hash" (send w (put_uint64_le v))
    write_for_hash (bytes b) = wrapping "writing []byte for hash" (write_varstr31 w b)
    write_for_hash (byte_slices l) = wrapping "writing [][]byte for hash" (write_varstr_list w l)
    write_for_hash (text s) = wrapping "writing string for hash" (write_varstr31 w s)
    write_for_hash (hash_pointer none) = wrapping "writing nil *Hash for hash" (send w (zeros 32))
    write_for_hash (hash_pointer (some h)) = wrapping "writing *Hash for hash" (send w (byte32 h))
    write_for_hash (asset_id_pointer none) =
        wrapping "writing nil *AssetID for hash" (send w (zeros 32))
    write_for_hash (asset_id_pointer (some a)) =
        wrapping "writing *AssetID for hash" (send w (byte32 a))
    write_for_hash (hash h) = wrapping "writing Hash for hash" (send w (byte32 h))
    write_for_hash (asset_id a) = wrapping "writing AssetID for hash" (send w (byte32 a))
    write_for_hash nil_pointer = pure none
    write_for_hash (pointer v) = write_for_hash v
    write_for_hash (slice vs) = do
      (n, err) ← write_varint31 w (count vs)
      or_wrapped "writing slice for hash" (write_parts "writing slice element for hash" 0 vs) err
    write_for_hash (struct vs) = write_parts "writing struct field for hash" 0 vs
    write_for_hash opaque_value = pure bad_type

    -- the loops over the elements of a slice and the fields of a struct, from index i
    pub write_parts : String → ℕ → Values → Write S (Option Error)
    write_parts msg i end = pure none
    write_parts msg i (hidden v vs) = pure (some invalid_value)
    write_parts msg i (field v vs) = do
      err ← write_for_hash v
      or_return msg i (write_parts msg (i + 1) vs) err
