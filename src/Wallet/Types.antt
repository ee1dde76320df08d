-- ===== src/Wallet/Types.antt =====
-- The records of pkg/models/wallet.go, the errors of the wallet service and what can fail under it.
-- A UUID is only compared, so it is a number; a time is a number too (Unix seconds).
use richpayment.Base.{ℕ, String, Bool, List, Option}

-- `OwnerType`
pub data OwnerType : Type 0 where
  merchant agent partner system : OwnerType

unfoldable pub OwnerType-discrete : Discrete OwnerType
OwnerType-discrete = hlevel

-- `Wallet`
pub record Wallet (D : Type 0) : Type 0 where
  pub id : ℕ
  pub owner_type : OwnerType
  pub owner_id : ℕ
  pub currency : String
  pub balance : D
  pub hold_balance : D
  pub version : ℕ  -- int64
  pub created_at : ℕ
  pub updated_at : ℕ

-- `LedgerEntryType`; `other` is a text that the HTTP interface passes on and no constant names
pub data LedgerEntryType : Type 0 where
  deposit_credit withdrawal_debit withdrawal_hold withdrawal_release : LedgerEntryType
  fee_debit commission_credit commission_payout adjustment : LedgerEntryType
  other : String → LedgerEntryType

-- `WalletLedger`, less the number that the database gives to a row
pub record WalletLedger (D : Type 0) : Type 0 where
  pub wallet_id : ℕ
  pub entry_type : LedgerEntryType
  pub reference_type : String
  pub reference_id : ℕ
  pub amount : D
  pub balance_after : D
  pub description : String
  pub created_at : ℕ

-- The tables `wallets` and `wallet_ledger`. A new ledger row is put in front.
pub record Db (D : Type 0) : Type 0 where
  pub wallets : List (Wallet D)
  pub ledger : List (WalletLedger D)

-- The service: its repository and its Redis client, which may be nil.
pub record WalletService (D R : Type 0) : Type 0 where
  pub db : Db D
  pub redis : Option R

-- The arguments of a call, with the lock holder's fresh value and the clock.
pub record Request (D : Type 0) : Type 0 where
  pub wallet_id : ℕ
  pub amount : D
  pub entry_type : LedgerEntryType
  pub reference_type : String
  pub reference_id : ℕ
  pub description : String
  pub lock_value : ℕ
  pub now : ℕ

-- What a call may return instead of nil.
pub data Error : Type 0 where
  -- the amount is not positive
  invalid_amount : Error
  -- ErrWalletNotFound, ErrVersionConflict, ErrLockNotAcquired and ErrInsufficientFunds
  wallet_not_found version_conflict lock_not_acquired insufficient_funds : Error
  -- Release: the hold is less than the amount
  hold_too_small : Error
  -- a value that the NUMERIC(14,2) or BIGINT column cannot hold
  out_of_range : Error
  -- a primary key that is taken
  duplicate_key : Error
  -- the database or Redis did not answer
  unavailable : Error

-- Which calls to the database and to Redis fail during an operation.
pub record Outage : Type 0 where
  pub exists_query : Bool
  pub set_nx : Bool
  pub release : Bool
  pub begin : Bool
  pub select : Bool
  pub update : Bool
  pub insert : Bool
  pub commit : Bool
