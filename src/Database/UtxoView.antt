-- ===== src/Database/UtxoView.antt =====
-- database/leveldb/utxo_view.go and database/storage/utxo_entry.go: the unspent outputs in the database.
-- The database is a function from keys; a batch is the list of its operations. proto.Marshal and
-- proto.Unmarshal of an entry, and the text of a hash, are parameters.
pub mod Saved
use btm_stats.Base.{
  ℕ, Bool, true, false, not, ◌&&◌, Option, none, some, List, [], ◌∷◌, ◌++◌, ◌≡◌, if◌then◌else◌,
  if_decided, ℕ_discrete,
}
use btm_stats.Errors.{Error, other, wrapped}
use btm_stats.Encoding.Reader.{Result, ok, err}
use btm_stats.Bc.Hash.{Hash}

pub record UtxoEntry : Type 0 where
  pub is_coin_base : Bool
  pub block_height : ℕ
  pub spent : Bool

-- NewUtxoEntry
unfoldable pub new_utxo_entry : Bool → ℕ → Bool → UtxoEntry
new_utxo_entry is_coin_base block_height spent = record {
  is_coin_base = is_coin_base;
  block_height = block_height;
  spent = spent;
}

-- SpendOutput, UnspendOutput
unfoldable pub spend_output : UtxoEntry → UtxoEntry
spend_output entry = record entry { spent = true }

unfoldable pub unspend_output : UtxoEntry → UtxoEntry
unspend_output entry = record entry { spent = false }

abbrev pub Bytes : Type 0
Bytes = List ℕ

pub bytes_discrete : Discrete Bytes
bytes_discrete = hlevel ℕ_discrete

abbrev pub Db : Type 0
Db = Bytes → Option Bytes

-- an operation of a batch
pub data Operation : Type 0 where
  delete : Bytes → Operation
  set_value : Bytes → Bytes → Operation

-- the database after one operation, and after a batch is written
abbrev pub apply : Operation → Db → Db
apply (delete key) db k = if_decided (bytes_discrete key k) none (db k)
apply (set_value key value) db k = if_decided (bytes_discrete key k) (some value) (db k)

abbrev pub write_batch : List Operation → Db → Db
write_batch [] db = db
write_batch (op ∷ ops) db = write_batch ops (apply op db)

abbrev pub cannot_find_utxo : Error
cannot_find_utxo = other "can't find utxo in db"

module _ (text : Hash → Bytes) (marshal : UtxoEntry → Result Bytes)
    (unmarshal : Bytes → Result UtxoEntry) where
  -- calcUtxoKey, with the prefix UT:
  abbrev pub calc_utxo_key : Hash → Bytes
  calc_utxo_key hash = 85 ∷ 84 ∷ 58 ∷ text hash

  abbrev pub unmarshaled : Result UtxoEntry → Result UtxoEntry
  unmarshaled (ok entry) = ok entry
  unmarshaled (err e) = err (wrapped "unmarshaling utxo entry" e)

  -- getUtxo
  abbrev pub found : Option Bytes → Result UtxoEntry
  found none = err cannot_find_utxo
  found (some value) = unmarshaled (unmarshal value)

  unfoldable pub get_utxo : Db → Hash → Result UtxoEntry
  get_utxo db hash = found (db (calc_utxo_key hash))

  -- saveUtxoView: the operations that are added to the batch, and the error; the entries come in the
  -- order in which the map is ranged over
  abbrev pub marshaled :
      Bytes → Result Bytes → List Operation × Option Error → List Operation × Option Error
  marshaled key (err e) (ops, e') = ([], some (wrapped "marshaling utxo entry" e))
  marshaled key (ok b) (ops, e) = (set_value key b ∷ ops, e)

  unfoldable pub save_utxo_view : List (Hash × UtxoEntry) → List Operation × Option Error
  save_utxo_view [] = ([], none)
  save_utxo_view ((key, entry) ∷ view) =
      let rest = save_utxo_view view in
      if entry.spent && not entry.is_coin_base
      then (delete (calc_utxo_key key) ∷ rest.0, rest.1)
      else marshaled (calc_utxo_key key) (marshal entry) rest
