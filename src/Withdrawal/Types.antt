-- ===== src/Withdrawal/Types.antt =====
-- The records of pkg/models/withdrawal.go, and the state and the errors of the withdrawal service.
use richpayment.Base.{ℕ, String, Option, List}

-- `WithdrawalStatus`
pub data WithdrawalStatus : Type 0 where
  pending approved rejected completed failed : WithdrawalStatus

unfoldable pub WithdrawalStatus-discrete : Discrete WithdrawalStatus
WithdrawalStatus-discrete = hlevel

-- `WithdrawalDestType`; `other` is a text that no constant names
pub data WithdrawalDestType : Type 0 where
  bank promptpay : WithdrawalDestType
  other : String → WithdrawalDestType

-- `Withdrawal`
pub record Withdrawal (D : Type 0) : Type 0 where
  pub id : ℕ
  pub merchant_id : ℕ
  pub amount : D
  pub fee_amount : D
  pub net_amount : D
  pub currency : String
  pub dest_type : WithdrawalDestType
  pub dest_details : String
  pub status : WithdrawalStatus
  pub approved_by : Option ℕ
  pub approved_at : Option ℕ
  pub rejected_by : Option ℕ
  pub rejected_at : Option ℕ
  pub rejection_reason : String
  pub transfer_ref : String
  pub proof_url : String
  pub completed_at : Option ℕ
  pub created_at : ℕ
  pub updated_at : ℕ

-- What a call may return instead of nil.
pub data Error : Type 0 where
  -- the merchant's configuration is not to be had
  merchant_unavailable : Error
  daily_limit_exceeded : Error
  insufficient_funds : Error
  -- a call of the wallet service failed
  wallet_failed : Error
  invalid_status : WithdrawalStatus → Error
  not_found : Error
  duplicate_withdrawal : Error

-- A call of `RecordWithdrawalCommission`: withdrawal, merchant, fee and currency. Its error is only
-- logged.
pub record CommissionCall (D : Type 0) : Type 0 where
  pub withdrawal_id : ℕ
  pub merchant_id : ℕ
  pub fee_amount : D
  pub currency : String

-- What the service works on: its withdrawals, the wallet service, and the calls it has sent to the
-- commission service.
pub record Desk (D W : Type 0) : Type 0 where
  pub rows : List (Withdrawal D)
  pub wallet : W
  pub commission_calls : List (CommissionCall D)

-- The arguments of `CreateWithdrawal`, with the fresh UUID and the clock.
pub record WithdrawalRequest (D : Type 0) : Type 0 where
  pub id : ℕ
  pub merchant_id : ℕ
  pub amount : D
  pub currency : String
  pub dest_type : WithdrawalDestType
  pub dest_details : String
  pub today : ℕ  -- the clock when the sum of the day is taken
  pub now : ℕ  -- the clock when the withdrawal is written
