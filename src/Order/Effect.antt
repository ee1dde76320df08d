-- ===== src/Order/Effect.antt =====
-- What a call of the order service does to the orders and to the load of the accounts.
use richpayment.Base.{
  ℕ, ◌≡◌, refl, Bool, true, false, Option, none, some, [], ◌∷◌, arith, Bool-cases, Option-cases,
  inl, inr, ◌⊎◌, ◌==◌, ◌&&◌,
}
use richpayment.Base.Table.{find_row, exists_row, set_row, exists_row-found}
use richpayment.Base.Result.{ok, err}
use richpayment.Decimal.{Decimal}
use richpayment.Order.Types.{
  OrderStatus-discrete, pending, completed, expired, DepositOrder, MatchedBy, Error, db_failed,
  not_found, Failures, Desk, Config,
}
use richpayment.Order.Redis.{Redis}
use richpayment.Order.Repo.{
  is_status, is_id, updated_row, get_by_id, update_status, find_pending_by_amount,
}
use richpayment.Order.Calls.{on_rows}
use richpayment.Order.Deposit.{completion_fields, complete_read}
use richpayment.Order.Settling.{settle-fields}
use richpayment.Order.Matcher.{
  look_up_amount, match_by_unique_amount, match_by_time_based, match_sms_to_order,
}
use richpayment.Order.Timeout.{expire_pending, expire_read}

-- an order of a merchant that waits for a payment to an account
abbrev pub waits_at : {D : Type 0} → (merchant_id account : ℕ) → DepositOrder D → Bool
waits_at m a o = m == o.merchant_id && a == o.bank_account_id && is_status o.status pending

module _ {D P Q E : Type 0} ⦃redis : Redis D P Q E⦄ where
  pub data Effect (lost : Option (ℕ × ℕ)) (s s' : Desk D P Q E) : Type 0 where
    kept : s'.rows ≡ s.rows → s'.pools ≡ s.pools → lost ≡ none → Effect lost s s'
    opened :
        (o : DepositOrder D)
        → is_status o.status pending ≡ true
        → exists_row (is_id o.id) s.rows ≡ false
        → s'.rows ≡ o ∷ s.rows
        → s'.pools ≡ redis.pools.incr o.merchant_id o.bank_account_id s.pools
        → lost ≡ none
        → Effect lost s s'
    failed :
        (m a : ℕ)
        → s'.rows ≡ s.rows
        → s'.pools ≡ redis.pools.incr m a s.pools
        → lost ≡ some (m, a)
        → Effect lost s s'
    closed :
        (id : ℕ) (o : DepositOrder D) (change : DepositOrder D → DepositOrder D)
        → find_row (is_id id) s.rows ≡ some o
        → is_status o.status pending ≡ true
        → ((m a : ℕ) (x : DepositOrder D) → waits_at m a (change x) ≡ false)
        → s'.rows ≡ set_row (is_id id) change s.rows
        → s'.pools ≡ redis.pools.decr o.merchant_id o.bank_account_id s.pools
        → lost ≡ none
        → Effect lost s s'

  module _ ⦃d : Decimal D⦄ where
    pub complete_read-Effect :
        (cfg : Config D) (f : Failures) (id : ℕ) (by : MatchedBy) (actual : D) (now : ℕ)
        (o : DepositOrder D) (s : Desk D P Q E)
        → f.incr ≡ false
        → find_row (is_id id) s.rows ≡ some o
        → Effect none s (complete_read cfg f id by actual now o s).1
    unfolding complete_read update_status OrderStatus-discrete
    complete_read-Effect cfg f id by actual now o s up found =
        let there = exists_row-found (is_id id) o s.rows found in
        elim (Bool-cases (is_status o.status pending)) [
          | inr b ↦ kept (ground arith) (ground arith) refl
          | inl b ↦ elim (Bool-cases f.update) [
            | inl c ↦ kept (ground arith) (ground arith) refl
            | inr c ↦
                let s' = record s {
                  rows =
                      set_row (is_id id)
                        (updated_row completed (completion_fields cfg by actual now) now) s.rows;
                } in
                let (_, rows, pools, _) = settle-fields cfg f o actual s' up in
                closed id o (updated_row completed (completion_fields cfg by actual now) now) found
                  b (λ m a x. ground arith) (ground (arith, rows)) (ground (arith, pools)) refl
          ]
        ]

    pub expire_read-Effect :
        (f : Failures) (id now : ℕ) (o : DepositOrder D) (s : Desk D P Q E)
        → f.incr ≡ false
        → find_row (is_id id) s.rows ≡ some o
        → Effect none s (expire_read f id now o s).1
    unfolding expire_read expire_pending update_status OrderStatus-discrete
    expire_read-Effect f id now o s up found =
        let there = exists_row-found (is_id id) o s.rows found in
        elim (Bool-cases (is_status o.status pending)) [
          | inr b ↦ kept (ground arith) (ground arith) refl
          | inl b ↦ elim (Bool-cases f.update) [
            | inl c ↦ kept (ground arith) (ground arith) refl
            | inr c ↦
                closed id o (updated_row expired [] now) found b (λ m a x. ground arith)
                  (ground arith) (ground arith) refl
          ]
        ]

  pub read-cases :
      (f : Failures) (id : ℕ) (s : Desk D P Q E)
      → ((e : Error) × (on_rows (get_by_id f id) s ≡ (err e, s)))
        ⊎ (o : DepositOrder D) × (find_row (is_id id) s.rows ≡ some o)
          × (on_rows (get_by_id f id) s ≡ (ok o, s))
  unfolding get_by_id
  read-cases f id s = elim (Bool-cases f.find) [
    | inl a ↦ inl (db_failed, ground arith)
    | inr a ↦ elim (Option-cases (find_row (is_id id) s.rows)) [
      | inl b ↦ inl (not_found, ground arith)
      | inr (o, b) ↦ inr (o, b, ground arith)
    ]
  ]

  pub match_sms_to_order-Effect :
      (cfg : Config D) (f : Failures) (same : D → D → Bool) (account : ℕ) (amount : D)
      (s : Desk D P Q E)
      → Effect none s (match_sms_to_order cfg f same account amount s).1
  unfolding match_sms_to_order match_by_unique_amount match_by_time_based look_up_amount
      find_pending_by_amount
  match_sms_to_order-Effect cfg f same account amount s = kept (ground arith) (ground arith) refl
