-- ===== src/Order/Types.antt =====
-- pkg/models/order.go, and the state and the errors of the order service. A UUID is a number, a time
-- is in Unix seconds, the QR payload is a list of bytes.
use richpayment.Base.{ℕ, String, Bool, Option, List}

-- `OrderStatus`
pub data OrderStatus : Type 0 where
  pending matched completed expired failed cancelled : OrderStatus

unfoldable pub OrderStatus-discrete : Discrete OrderStatus
OrderStatus-discrete = hlevel

-- `MatchedBy`; `unset` is the empty text of an order that was not matched
pub data MatchedBy : Type 0 where
  sms email slip unset : MatchedBy

-- `DepositOrder`
pub record DepositOrder (D : Type 0) : Type 0 where
  pub id : ℕ
  pub merchant_id : ℕ
  pub merchant_order_id : String
  pub customer_name : String
  pub customer_bank_code : String
  pub requested_amount : D
  pub adjusted_amount : D
  pub actual_amount : D
  pub fee_amount : D
  pub net_amount : D
  pub currency : String
  pub bank_account_id : ℕ
  pub matched_by : MatchedBy
  pub matched_at : Option ℕ
  pub status : OrderStatus
  pub qr_payload : List ℕ
  pub webhook_sent : Bool
  pub webhook_attempts : ℕ
  pub expires_at : ℕ
  pub created_at : ℕ
  pub updated_at : ℕ

-- What a call may return instead of nil.
pub data Error : Type 0 where
  -- NO_BANK_ACCOUNT
  no_bank_account : Error
  -- the text in the pool is not a UUID
  bad_account : Error
  qr_failed : Error
  db_failed : Error
  redis_failed : Error
  not_found : Error
  duplicate_order : Error
  -- INVALID_ORDER_STATUS
  invalid_order_status : OrderStatus → Error

-- A request to another service; its error is only logged.
pub data Post (D : Type 0) : Type 0 where
  -- /wallet/credit: wallet, amount and reference
  wallet_credit : (wallet_id : ℕ) → (amount : D) → (reference_id : ℕ) → Post D
  -- /internal/commission/calculate: order, merchant, amount and rate
  commission_calculate :
      (transaction_id merchant_id : ℕ) → (transaction_amount merchant_fee_pct : D) → Post D
  -- /internal/webhook/send: order, merchant, its own order id, amount and net amount
  webhook_send :
      (order_id merchant_id : ℕ) → (merchant_order_id : String) → (amount net_amount : D) → Post D

-- Which calls of the database, of Redis and of the QR library fail.
pub record Failures : Type 0 where
  pub pool : Bool
  pub account : Bool
  pub incr : Bool
  pub look_up : Bool
  pub qr : Bool
  pub insert : Bool
  pub find : Bool
  pub update : Bool
  pub add : Bool
  pub remove : Bool

-- The table deposit_orders, the three families of sorted sets in Redis (account_pool:<merchant>,
-- pending_orders:<account> and expiry_orders), and the requests that were sent.
pub record Desk (D P Q E : Type 0) : Type 0 where
  pub rows : List (DepositOrder D)
  pub pools : P
  pub pending : Q
  pub expiry : E
  pub posts : List (Post D)

-- The fields of `DepositService` that are not connections. A client is nil or not.
pub record Config (D : Type 0) : Type 0 where
  pub order_expiry : ℕ
  pub fee_percent : D
  -- `matchStrategy` is "unique_amount"
  pub unique_amount : Bool
  pub has_wallet : Bool
  pub has_commission : Bool
  pub has_notification : Bool
