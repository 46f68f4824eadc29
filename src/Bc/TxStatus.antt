-- ===== src/Bc/TxStatus.antt =====
-- protocol/bc/tx_status.go: the verification results of a block's transactions, in order.
pub mod Laws
use Prim.Native.Char.{code}
use Prim.Native.String.{String}
use btm_stats.Base.{
  ℕ, ◌+◌, Bool, true, false, Option, none, some, List, [], ◌∷◌, ◌++◌, length, get_elem?, set, ltb,
  ◌==◌, if◌then◌else◌, map,
}
use btm_stats.Errors.{Error, other}
use btm_stats.Io.{Count, Writer, Write, send}
use btm_stats.Bc.Hash.{Hash}
use btm_stats.Bc.Merkle.{merkle_root}

pub record TxVerifyResult : Type 0 where
  pub status_fail : Bool

pub record TransactionStatus : Type 0 where
  pub version : ℕ
  pub verify_status : List TxVerifyResult

-- transactionStatusVersion
abbrev pub transaction_status_version : ℕ
transaction_status_version = 1

-- NewTransactionStatus
abbrev pub new_transaction_status : TransactionStatus
new_transaction_status = record { version = transaction_status_version; verify_status = [] }

-- SetStatus, for an index that is not negative
unfoldable pub set_status : ℕ → Bool → TransactionStatus → Option Error × TransactionStatus
set_status i gas_only ts =
    if ltb (length ts.verify_status) i
    then (some (other "setStatus should be set one by one"), ts)
    else if i == length ts.verify_status
    then (
      none,
      record ts { verify_status = ts.verify_status ++ (record { status_fail = gas_only } ∷ []) },
    )
    else (
      none,
      record ts { verify_status = set ts.verify_status i (record { status_fail = gas_only }) },
    )

-- `ts.VerifyStatus[i].StatusFail` for an index in range
abbrev pub status_of : Option TxVerifyResult → Bool × Option Error
status_of none = (false, some (other "GetStatus is out of range"))
status_of (some r) = (r.status_fail, none)

-- GetStatus, for an index that is not negative
unfoldable pub get_status : ℕ → TransactionStatus → Bool × Option Error
get_status i ts = status_of (get_elem? ts.verify_status i)

-- the bytes of an ASCII text
abbrev ascii : String → List ℕ
ascii String.[] = []
ascii (String.◌∷◌ c s) = code c ∷ ascii s

-- json.Marshal of a TxVerifyResult: the field is omitted when it is false.
unfoldable pub json_of : TxVerifyResult → List ℕ
json_of r = if r.status_fail then ascii "{\"status_fail\":true}" else ascii "{}"

-- TxVerifyResult.WriteTo
unfoldable pub write_to : {S : Type 0} → Writer S → TxVerifyResult → Write S Count
write_to w r = send w (json_of r)

-- TxStatusMerkleRoot of merkle.go
unfoldable pub tx_status_merkle_root : (List ℕ → List ℕ) → List TxVerifyResult → Option Hash
tx_status_merkle_root sum256 tvrs = merkle_root sum256 (map json_of tvrs)
