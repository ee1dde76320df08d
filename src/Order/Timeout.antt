-- ===== src/Order/Timeout.antt =====
-- The expiry worker of services/order/internal/service/timeout.go. A tick is one call of
-- `process_expired_orders`.
use richpayment.Base.{ℕ, List, [], ◌∷◌, if◌then◌else◌}
use richpayment.Base.Result.{Action, ◌>>=◌, ◌>>◌}
use richpayment.Decimal.{Decimal}
use richpayment.Order.Types.{pending, expired, DepositOrder, Error, Failures, Desk}
use richpayment.Order.Repo.{is_status, get_by_id, update_status}
use richpayment.Order.Redis.{Redis}
use richpayment.Order.Calls.{on_rows, remove_pending, remove_expiry, unload_account}

module _ {D P Q E : Type 0} ⦃d : Decimal D⦄ ⦃redis : Redis D P Q E⦄ where
  -- the steps for an order that is still pending
  unfoldable pub expire_pending :
      Failures → ℕ → (now : ℕ) → DepositOrder D → Action Error (Desk D P Q E) (Unit {0})
  expire_pending f id now o = do
    on_rows (update_status f id expired [] now)
    remove_expiry f id
    remove_pending f o.bank_account_id id
    unload_account f o.merchant_id o.bank_account_id

  -- `expireSingleOrder` once the order was read
  unfoldable pub expire_read :
      Failures → ℕ → (now : ℕ) → DepositOrder D → Action Error (Desk D P Q E) (Unit {0})
  expire_read f id now o s =
      if is_status o.status pending then expire_pending f id now o s else remove_expiry f id s

  -- `expireSingleOrder`
  unfoldable pub expire_single_order :
      Failures → ℕ → (now : ℕ) → Action Error (Desk D P Q E) (Unit {0})
  expire_single_order f id now = do o ← on_rows (get_by_id f id); expire_read f id now o

  -- the loop, which goes on after an error
  unfoldable pub expire_each : Failures → (ids : List ℕ) → (now : ℕ) → Desk D P Q E → Desk D P Q E
  expire_each f [] now s = s
  expire_each f (id ∷ ids) now s = expire_each f ids now (expire_single_order f id now s).1

  -- `processExpiredOrders`
  unfoldable pub process_expired_orders : Failures → (now : ℕ) → Desk D P Q E → Desk D P Q E
  process_expired_orders f now s =
      if f.look_up then s else expire_each f (redis.expiry.up_to now s.expiry) now s
