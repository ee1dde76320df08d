-- ===== src/Order/Run.antt =====
-- The calls of the order service in sequence: requests, matches, completions and the single orders
-- of the expiry worker's ticks.
use richpayment.Base.{ℕ, Bool, Option, none, some, List, [], ◌∷◌}
use richpayment.Base.Result.{Result, ok, err}
use richpayment.Decimal.{Decimal}
use richpayment.Order.Types.{MatchedBy, Error, Failures, Desk, Config}
use richpayment.Order.Redis.{Redis}
use richpayment.Order.Calls.{pick_account}
use richpayment.Order.Deposit.{Forms, DepositRequest, create_deposit_order, complete_deposit}
use richpayment.Order.Matcher.{match_sms_to_order}
use richpayment.Order.Timeout.{expire_single_order}

pub data Command (D : Type 0) : Type 0 where
  create_one : Config D → Failures → DepositRequest D → Command D
  complete_one : Config D → Failures → (id : ℕ) → MatchedBy → D → (now : ℕ) → Command D
  match_one : Config D → Failures → (same : D → D → Bool) → (account : ℕ) → D → Command D
  expire_one : Failures → (id now : ℕ) → Command D

-- The merchant and the account of a creation that raised the load and then failed.
abbrev pub lost_by :
    {A : Type 0} → (merchant_id : ℕ) → Result Error ℕ → Result Error A → Option (ℕ × ℕ)
lost_by m (ok account) (err _) = some (m, account)
lost_by m (ok account) (ok _) = none
lost_by m (err _) _ = none

module _ {D P Q E : Type 0} ⦃d : Decimal D⦄ ⦃forms : Forms D⦄ ⦃redis : Redis D P Q E⦄ where
  unfoldable pub run : Command D → Desk D P Q E → Desk D P Q E
  run (create_one cfg f r) s = (create_deposit_order cfg f r s).1
  run (complete_one cfg f id by actual now) s = (complete_deposit cfg f id by actual now s).1
  run (match_one cfg f same account amount) s = (match_sms_to_order cfg f same account amount s).1
  run (expire_one f id now) s = (expire_single_order f id now s).1

  -- each call whatever the one before returned
  unfoldable pub run_all : List (Command D) → Desk D P Q E → Desk D P Q E
  run_all [] s = s
  run_all (c ∷ cs) s = run_all cs (run c s)

  abbrev pub lost_account : Command D → Desk D P Q E → Option (ℕ × ℕ)
  lost_account (create_one cfg f r) s =
      lost_by r.merchant_id (pick_account f r.merchant_id s).0 (create_deposit_order cfg f r s).0
  lost_account (complete_one _ _ _ _ _ _) s = none
  lost_account (match_one _ _ _ _ _) s = none
  lost_account (expire_one _ _ _) s = none
