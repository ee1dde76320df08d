-- ===== src/Order/Matcher.antt =====
-- services/order/internal/service/matcher.go. A failing ZREM is only logged.
use richpayment.Base.{ℕ, Bool, none, some, if◌then◌else◌}
use richpayment.Base.Result.{ok, err, Action, pure, ◌>>=◌, ◌>>◌}
use richpayment.Order.Types.{Error, redis_failed, not_found, Failures, Desk, Config}
use richpayment.Order.Repo.{find_pending_by_amount}
use richpayment.Order.Redis.{Redis}
use richpayment.Order.Calls.{on_rows, remove_pending}

module _ {D P Q E : Type 0} ⦃redis : Redis D P Q E⦄ where
  -- the order of a pending set at an amount
  unfoldable pub look_up_amount : Failures → (account : ℕ) → D → Action Error (Desk D P Q E) ℕ
  look_up_amount f account amount s =
      let at_amount =
        redis.pending.first account (redis.pending.printed (redis.pending.float amount)) in
      (
        if f.look_up
            then err redis_failed
            else elim (at_amount s.pending) [ none ↦ err not_found | some id ↦ ok id ],
        s,
      )

  -- `matchByUniqueAmount`
  unfoldable pub match_by_unique_amount :
      Failures → (account : ℕ) → D → Action Error (Desk D P Q E) ℕ
  match_by_unique_amount f account amount = do
    id ← look_up_amount f account amount
    remove_pending f account id
    pure id

  -- `matchByTimeBased`, where `same` is the equality of NUMERIC values
  unfoldable pub match_by_time_based :
      Failures → (same : D → D → Bool) → (account : ℕ) → D → Action Error (Desk D P Q E) ℕ
  match_by_time_based f same account amount = do
    o ← on_rows (find_pending_by_amount f same account amount)
    remove_pending f account o.id
    pure o.id

  -- `MatchSMSToOrder`
  unfoldable pub match_sms_to_order :
      Config D
      → Failures
      → (same : D → D → Bool) → (account : ℕ) → D
      → Action Error (Desk D P Q E) ℕ
  match_sms_to_order cfg f same account amount s =
      if cfg.unique_amount
      then match_by_unique_amount f account amount s
      else match_by_time_based f same account amount s
