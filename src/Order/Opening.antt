-- ===== src/Order/Opening.antt =====
-- What `CreateDepositOrder` does to the orders and to the load of the accounts.
use richpayment.Base.{
  ℕ, ◌≡◌, refl, sym, ap, ◌∙◌, true, false, ◌∷◌, arith, Bool-cases, Option-cases, inl, inr, ◌⊎◌,
}
use mathlib.Core.Path.{subst}
use richpayment.Base.Table.{exists_row}
use richpayment.Base.Result.{Result, ok, err, >>=_runs, >>=_stops}
use richpayment.Decimal.{Decimal}
use richpayment.Order.Types.{
  OrderStatus-discrete, pending, Error, no_bank_account, bad_account, qr_failed, db_failed,
  duplicate_order, DepositOrder, Failures, Desk, Config,
}
use richpayment.Order.Redis.{Redis}
use richpayment.Order.Repo.{is_status, is_id, stored, create}
use richpayment.Order.Calls.{pick_account, load_account}
use richpayment.Order.Deposit.{
  Forms, DepositRequest, adjusted, new_order, create_on, store_order, create_deposit_order,
}
use richpayment.Order.Run.{lost_by}
use richpayment.Order.Effect.{Effect, kept, opened, failed}

module _ {D P Q E : Type 0} ⦃d : Decimal D⦄ ⦃forms : Forms D⦄ ⦃redis : Redis D P Q E⦄ where
  -- The outcomes of storing the order: an error that changes nothing, or the order in the table.
  abbrev Stored :
      DepositOrder D → Result Error (DepositOrder D) × Desk D P Q E → Desk D P Q E → Type 0
  Stored o p s =
      ((e : Error) × (p.0 ≡ err e) × (p.1.rows ≡ s.rows) × (p.1.pools ≡ s.pools))
      ⊎ (p.0 ≡ ok o)
        × (exists_row (is_id o.id) s.rows ≡ false)
        × (p.1.rows ≡ stored o ∷ s.rows)
        × (p.1.pools ≡ s.pools)

  store_order-Stored :
      (cfg : Config D) (f : Failures) (r : DepositRequest D) (account : ℕ) (amount : D)
      (s : Desk D P Q E)
      → Stored (new_order cfg r account amount) (store_order cfg f r account amount s) s
  unfolding store_order create
  store_order-Stored cfg f r account amount s = elim (Bool-cases f.qr) [
    | inl a ↦ inl (qr_failed, ground arith, ground arith, ground arith)
    | inr a ↦ elim (Bool-cases f.insert) [
      | inl b ↦ inl (db_failed, ground arith, ground arith, ground arith)
      | inr b ↦ elim (Bool-cases (exists_row (is_id r.id) s.rows)) [
        | inl c ↦ inl (duplicate_order, ground arith, ground arith, ground arith)
        | inr c ↦ inr (ground arith, c, ground arith, ground arith)
      ]
    ]
  ]

  pub pick_account-cases :
      (f : Failures) (m : ℕ) (s : Desk D P Q E)
      → ((e : Error) × (pick_account f m s ≡ (err e, s)))
        ⊎ (account : ℕ) × (pick_account f m s ≡ (ok account, s))
  pick_account-cases f m s = elim (Bool-cases f.pool) [
    | inl a ↦ inl (no_bank_account, ground arith)
    | inr a ↦ elim (Option-cases (redis.pools.lowest m s.pools)) [
      | inl b ↦ inl (no_bank_account, ground arith)
      | inr (account, b) ↦ elim (Bool-cases f.account) [
        | inl c ↦ inl (bad_account, ground arith)
        | inr c ↦ inr (account, ground arith)
      ]
    ]
  ]

  -- the amount of the order that is created on an account
  abbrev pub amount_on : Config D → Failures → DepositRequest D → (account : ℕ) → Desk D P Q E → D
  amount_on cfg f r account s = adjusted redis.pending cfg f account r s.pending

  -- the state once the load of the account was raised
  abbrev pub loaded : Failures → (merchant_id account : ℕ) → Desk D P Q E → Desk D P Q E
  loaded f m account s = (load_account f m account s).1

  pub create_deposit_order-runs :
      (cfg : Config D) (f : Failures) (r : DepositRequest D) (s : Desk D P Q E) (account : ℕ)
      → pick_account f r.merchant_id s ≡ (ok account, s)
      → create_deposit_order cfg f r s
        ≡ store_order cfg f r account
            (amount_on cfg f r account (loaded f r.merchant_id account s))
            (loaded f r.merchant_id account s)
  unfolding create_deposit_order
  create_deposit_order-runs cfg f r s account picked =
      >>=_runs (pick_account f r.merchant_id) (create_on cfg f r) s s account picked

  pub create_deposit_order-stops :
      (cfg : Config D) (f : Failures) (r : DepositRequest D) (s : Desk D P Q E) (e : Error)
      → pick_account f r.merchant_id s ≡ (err e, s)
      → create_deposit_order cfg f r s ≡ (err e, s)
  unfolding create_deposit_order
  create_deposit_order-stops cfg f r s e picked =
      >>=_stops (pick_account f r.merchant_id) (create_on cfg f r) s s e picked

  loaded-rows : (f : Failures) (m a : ℕ) (s : Desk D P Q E) → (loaded f m a s).rows ≡ s.rows
  loaded-rows f m a s = ground arith

  loaded-pools :
      (f : Failures) (m a : ℕ) (s : Desk D P Q E)
      → f.incr ≡ false
      → (loaded f m a s).pools ≡ redis.pools.incr m a s.pools
  loaded-pools f m a s up = ground arith

  unpicked-Effect :
      (m : ℕ) (q : Result Error ℕ) (p : Result Error (DepositOrder D) × Desk D P Q E)
      (s : Desk D P Q E) (e : Error)
      → q ≡ err e
      → p ≡ (err e, s)
      → Effect (lost_by m q p.0) s p.1
  unpicked-Effect m q p s e picked is = rw (picked, is) (kept refl refl refl)

  stored-Effect :
      (m account : ℕ) (q : Result Error ℕ) (p : Result Error (DepositOrder D) × Desk D P Q E)
      (s s' : Desk D P Q E) (o : DepositOrder D)
      → q ≡ ok account
      → s'.rows ≡ s.rows
      → s'.pools ≡ redis.pools.incr m account s.pools
      → o.merchant_id ≡ m
      → o.bank_account_id ≡ account
      → is_status o.status pending ≡ true
      → Stored o p s'
      → Effect (lost_by m q p.0) s p.1
  stored-Effect m account q p s s' o picked rows pools same_m same_a waits (inl (e, r, a, b)) =
      failed m account (a ∙ rows) (b ∙ pools) (rw (picked, r) refl)
  stored-Effect m account q p s s' o picked rows pools same_m same_a waits (inr (r, new, a, b)) =
      opened (stored o) waits (rw (sym rows) new) (rw (sym rows) a)
        (rw (same_m, same_a) (b ∙ pools)) (rw (picked, r) refl)

  pub create_deposit_order-Effect :
      (cfg : Config D) (f : Failures) (r : DepositRequest D) (s : Desk D P Q E)
      → f.incr ≡ false
      → Effect
          (lost_by r.merchant_id
            (pick_account f r.merchant_id s).0
            (create_deposit_order cfg f r s).0)
          s
          (create_deposit_order cfg f r s).1
  unfolding OrderStatus-discrete
  create_deposit_order-Effect cfg f r s up = elim (pick_account-cases f r.merchant_id s) [
    | inl (e, is) ↦
        unpicked-Effect r.merchant_id _ (create_deposit_order cfg f r s) s e (ap (λ p. p.0) is)
          (create_deposit_order-stops cfg f r s e is)
    | inr (account, is) ↦
        let s' = loaded f r.merchant_id account s in
        let amount = amount_on cfg f r account s' in
        stored-Effect r.merchant_id account _ (create_deposit_order cfg f r s) s s'
          (new_order cfg r account amount) (ap (λ p. p.0) is)
          (loaded-rows f r.merchant_id account s) (loaded-pools f r.merchant_id account s up) refl
          refl refl
          (subst (λ p. Stored (new_order cfg r account amount) p s')
            (sym (create_deposit_order-runs cfg f r s account is))
            (store_order-Stored cfg f r account amount s'))
  ]
