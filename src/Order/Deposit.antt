-- ===== src/Order/Deposit.antt =====
-- services/order/internal/service/deposit.go. The requests to the other services are recorded in the
-- state: their errors are only logged.
use richpayment.Base.{
  ℕ, zero, suc, ◌+◌, String, Bool, true, false, not, none, some, List, [], ◌∷◌, if◌then◌else◌,
}
use richpayment.Base.Result.{ok, Action, pure, raise_if, ◌>>=◌, ◌>>◌}
use richpayment.Decimal.{Decimal}
use richpayment.Order.Qr.{generate_prompt_pay_qr}
use richpayment.Order.Types.{
  pending, completed, MatchedBy, unset, DepositOrder, Error, qr_failed, invalid_order_status,
  wallet_credit, commission_calculate, webhook_send, Failures, Desk, Config,
}
use richpayment.Order.Repo.{Field, is_status, create, get_by_id, update_status}
use richpayment.Order.Calls.{
  on_rows, post_if, pick_account, load_account, unload_account, add_pending, remove_pending,
  add_expiry, remove_expiry,
}
use richpayment.Order.Redis.{PendingSets, Redis}

-- How amounts and ids are converted: `NewFromInt(n).Div(100)`, `StringFixed(2)` and the text of a
-- UUID.
pub record Forms (D : Type 0) : Type 0 where
  pub cents : ℕ → D
  pub fixed : D → List ℕ
  pub uuid_text : ℕ → List ℕ

pub record DepositRequest (D : Type 0) : Type 0 where
  pub merchant_id : ℕ
  pub merchant_order_id : String
  pub amount : D
  pub customer_name : String
  pub customer_bank : String
  -- of the new order
  pub id : ℕ
  pub now : ℕ
  -- `rand.Intn(99)` of each attempt
  pub draws : ℕ → ℕ

module _ {D : Type 0} ⦃d : Decimal D⦄ ⦃forms : Forms D⦄ where
  -- the candidate of an attempt
  abbrev pub candidate : D → (draw : ℕ) → D
  candidate base draw = d.add base (forms.cents (draw + 1))

  -- Step 4
  abbrev pub new_order : Config D → DepositRequest D → (account : ℕ) → (amount : D) → DepositOrder D
  new_order cfg r account amount = record {
    id = r.id;
    merchant_id = r.merchant_id;
    merchant_order_id = r.merchant_order_id;
    customer_name = r.customer_name;
    customer_bank_code = r.customer_bank;
    requested_amount = r.amount;
    adjusted_amount = amount;
    actual_amount = d.zero;
    fee_amount = d.zero;
    net_amount = d.zero;
    currency = "THB";
    bank_account_id = account;
    matched_by = unset;
    matched_at = none;
    status = pending;
    qr_payload = generate_prompt_pay_qr (forms.uuid_text account) (forms.fixed amount);
    webhook_sent = false;
    webhook_attempts = 0;
    expires_at = r.now + cfg.order_expiry;
    created_at = r.now;
    updated_at = r.now;
  }

module _ {D Q : Type 0} ⦃d : Decimal D⦄ ⦃forms : Forms D⦄ (sets : PendingSets D Q) where
  -- no pending order has the amount; a failing query counts as an empty answer
  abbrev pub is_free : Failures → (account : ℕ) → D → Q → Bool
  is_free f account amount q =
      if f.look_up then true else elim (sets.first account (sets.printed (sets.float amount)) q) [
        | none ↦ true
        | some _ ↦ false
      ]

  -- the loop of `adjustAmountForUniqueness` from attempt `i`, with `left` attempts left
  unfoldable pub adjust_loop : Failures → (account : ℕ) → D → (draws : ℕ → ℕ) → (left i : ℕ) → Q → D
  adjust_loop f account base draws zero i q = base
  adjust_loop f account base draws (suc left) i q =
      let rest = adjust_loop f account base draws left (suc i) q in
      if is_free f account (candidate base (draws i)) q then candidate base (draws i) else rest

  -- `adjustAmountForUniqueness`
  unfoldable pub adjust_amount_for_uniqueness :
      Failures → (account : ℕ) → D → (draws : ℕ → ℕ) → Q → D
  adjust_amount_for_uniqueness f account base draws q = adjust_loop f account base draws 100 0 q

  -- Step 2 of `CreateDepositOrder`
  abbrev pub adjusted : Config D → Failures → (account : ℕ) → DepositRequest D → Q → D
  adjusted cfg f account r q =
      if cfg.unique_amount
      then adjust_amount_for_uniqueness f account r.amount r.draws q
      else r.amount

module _ {D P Q E : Type 0} ⦃d : Decimal D⦄ ⦃forms : Forms D⦄ ⦃redis : Redis D P Q E⦄ where
  -- the amount of the new order
  abbrev pub choose_amount :
      Config D → Failures → DepositRequest D → (account : ℕ) → Action Error (Desk D P Q E) D
  choose_amount cfg f r account s = (ok (adjusted redis.pending cfg f account r s.pending), s)

  -- Steps 3 to 6
  unfoldable pub store_order :
      Config D
      → Failures
      → DepositRequest D
      → (account : ℕ) → (amount : D) → Action Error (Desk D P Q E) (DepositOrder D)
  store_order cfg f r account amount = do
    let o = new_order cfg r account amount
    raise_if f.qr qr_failed
    on_rows (create f o)
    add_pending f account amount r.id
    add_expiry f o.expires_at r.id
    pure o

  -- Steps 1 to 6 for an account
  abbrev pub create_on :
      Config D
      → Failures
      → DepositRequest D
      → (account : ℕ) → Action Error (Desk D P Q E) (DepositOrder D)
  create_on cfg f r account = do
    load_account f r.merchant_id account
    amount ← choose_amount cfg f r account
    store_order cfg f r account amount

  -- `CreateDepositOrder`
  unfoldable pub create_deposit_order :
      Config D → Failures → DepositRequest D → Action Error (Desk D P Q E) (DepositOrder D)
  create_deposit_order cfg f r = do
    account ← pick_account f r.merchant_id
    create_on cfg f r account

module _ {D P Q E : Type 0} where
  -- `GetDepositOrder`
  abbrev pub get_deposit_order : Failures → ℕ → Action Error (Desk D P Q E) (DepositOrder D)
  get_deposit_order f id = on_rows (get_by_id f id)

module _ {D : Type 0} ⦃d : Decimal D⦄ where
  abbrev pub fee_of : Config D → (actual : D) → D
  fee_of cfg actual = d.round (d.mul actual cfg.fee_percent)

  abbrev pub net_of : Config D → (actual : D) → D
  net_of cfg actual = d.sub actual (fee_of cfg actual)

  -- the fields that a completion writes
  abbrev pub completion_fields : Config D → MatchedBy → (actual : D) → (now : ℕ) → List (Field D)
  completion_fields cfg by actual now =
      Field.matched_by by
      ∷ Field.matched_at now
      ∷ Field.actual_amount actual
      ∷ Field.fee_amount (fee_of cfg actual)
      ∷ Field.net_amount (net_of cfg actual)
      ∷ []

module _ {D P Q E : Type 0} ⦃d : Decimal D⦄ ⦃redis : Redis D P Q E⦄ where
  -- what is sent and removed once the order is completed
  unfoldable pub settle :
      Config D → Failures → DepositOrder D → (actual : D) → Action Error (Desk D P Q E) (Unit {0})
  settle cfg f o actual = do
    post_if cfg.has_wallet (wallet_credit o.merchant_id (net_of cfg actual) o.id)
    post_if cfg.has_commission (commission_calculate o.id o.merchant_id actual cfg.fee_percent)
    post_if cfg.has_notification
        (webhook_send o.id o.merchant_id o.merchant_order_id actual (net_of cfg actual))
    remove_pending f o.bank_account_id o.id
    remove_expiry f o.id
    unload_account f o.merchant_id o.bank_account_id

  -- the second half of `CompleteDeposit`, after the order was read
  unfoldable pub complete_read :
      Config D
      → Failures
      → ℕ
      → MatchedBy
      → (actual : D) → (now : ℕ) → DepositOrder D
      → Action Error (Desk D P Q E) (Unit {0})
  complete_read cfg f id by actual now o = do
    raise_if (not (is_status o.status pending)) (invalid_order_status o.status)
    on_rows (update_status f id completed (completion_fields cfg by actual now) now)
    settle cfg f o actual

  -- `CompleteDeposit`
  unfoldable pub complete_deposit :
      Config D
      → Failures
      → ℕ
      → MatchedBy
      → (actual : D) → (now : ℕ) → Action Error (Desk D P Q E) (Unit {0})
  complete_deposit cfg f id by actual now = do
    o ← on_rows (get_by_id f id)
    complete_read cfg f id by actual now o
