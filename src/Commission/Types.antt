-- ===== src/Commission/Types.antt =====
-- The records of pkg/models/commission.go and of the commission service.
use richpayment.Base.{ℕ, String, Option, List}
use richpayment.Wallet.Types.{OwnerType, Db}

-- `TransactionType`
pub data TransactionType : Type 0 where
  deposit withdrawal : TransactionType

unfoldable pub TransactionType-discrete : Discrete TransactionType
TransactionType-discrete = hlevel

-- `CommissionInput`
pub record CommissionInput (D : Type 0) : Type 0 where
  pub transaction_type : TransactionType
  pub transaction_id : ℕ
  pub merchant_id : ℕ
  pub transaction_amount : D
  pub merchant_fee_pct : D
  pub agent_id : Option ℕ
  pub agent_commission_pct : D
  pub partner_id : Option ℕ
  pub partner_commission_pct : D
  pub currency : String

-- `Commission`
pub record Commission (D : Type 0) : Type 0 where
  pub id : ℕ
  pub transaction_type : TransactionType
  pub transaction_id : ℕ
  pub merchant_id : ℕ
  pub total_fee_amount : D
  pub system_amount : D
  pub agent_id : Option ℕ
  pub agent_amount : D
  pub partner_id : Option ℕ
  pub partner_amount : D
  pub merchant_fee_pct : D
  pub agent_pct : D
  pub partner_pct : D
  pub currency : String
  pub created_at : ℕ

-- `CommissionDailySummary`, less the number of the row and its two times
pub record CommissionDailySummary (D : Type 0) : Type 0 where
  pub summary_date : ℕ
  pub owner_type : OwnerType
  pub owner_id : ℕ
  pub transaction_type : TransactionType
  pub currency : String
  pub total_tx_count : ℕ
  pub total_volume : D
  pub total_fee : D
  pub total_commission : D

-- `summaryKey`
pub record SummaryKey : Type 0 where
  pub owner_type : OwnerType
  pub owner_id : ℕ
  pub transaction_type : TransactionType
  pub currency : String

-- The tables `wallets` and `wallet_ledger`, `commissions` and `commission_daily_summary`.
pub record Books (D : Type 0) : Type 0 where
  pub db : Db D
  pub commissions : List (Commission D)
  pub summaries : List (CommissionDailySummary D)

-- What a call may return instead of nil.
pub data Error : Type 0 where
  -- agent and partner rates above the merchant's rate
  split_exceeds_fee : Error
  -- the rounded shares exceed the rounded fee
  negative_system_share : Error
  -- a row that a constraint of the table refuses
  refused : Error
  -- the database did not answer
  unavailable : Error
