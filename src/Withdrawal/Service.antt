-- ===== src/Withdrawal/Service.antt =====
-- services/withdrawal/internal/service/withdrawal.go. The wallet service is behind the Go interface
-- `WalletClient`; what the merchant's configuration answers is an argument, none for an error.
use richpayment.Base.{ℕ, String, Bool, not, ◌&&◌, Option, none, some, List, [], ◌∷◌}
use richpayment.Base.Result.{
  Result, ok, err, Action, pure, raise, raise_if, drop_value, ◌>>=◌, ◌>>◌,
}
use richpayment.Decimal.{Decimal, greater, is_positive}
use richpayment.Withdrawal.Types.{
  pending, approved, rejected, completed, Withdrawal, Error, merchant_unavailable,
  daily_limit_exceeded, insufficient_funds, invalid_status, CommissionCall, Desk, WithdrawalRequest,
}
use richpayment.Withdrawal.Repo.{
  Field, is_status, create, get_by_id, update_status, sum_daily_withdrawals,
}

-- `WalletClient`: merchant, amount, currency and reference
pub record WalletClient (D W : Type 0) : Type 0 where
  pub get_balance : ℕ → String → Action Error W D
  pub hold_balance : ℕ → D → String → ℕ → Action Error W (Unit {0})
  pub release_hold : ℕ → D → String → ℕ → Action Error W (Unit {0})
  pub debit_hold : ℕ → D → String → ℕ → Action Error W (Unit {0})

module _ {D W A : Type 0} where
  -- a call of the repository
  abbrev pub on_rows : Action Error (List (Withdrawal D)) A → Action Error (Desk D W) A
  on_rows m s = let (r, rows) = m s.rows in (r, record s { rows = rows })

  -- a call of the wallet service
  abbrev pub on_wallet : Action Error W A → Action Error (Desk D W) A
  on_wallet m s = let (r, wallet) = m s.wallet in (r, record s { wallet = wallet })

module _ {D W : Type 0} where
  -- a call of the merchant's configuration
  abbrev pub answer : Option D → Action Error (Desk D W) D
  answer none = raise merchant_unavailable
  answer (some x) = pure x

  -- `RecordWithdrawalCommission`, whose error is only logged
  abbrev pub record_commission : CommissionCall D → Action Error (Desk D W) (Unit {0})
  record_commission call s = (ok tt, record s { commission_calls = call ∷ s.commission_calls })

module _ {D : Type 0} ⦃d : Decimal D⦄ where
  -- Step 4 of `CreateWithdrawal`
  abbrev pub new_withdrawal : WithdrawalRequest D → Withdrawal D
  new_withdrawal r = record {
    id = r.id;
    merchant_id = r.merchant_id;
    amount = r.amount;
    fee_amount = d.zero;
    net_amount = d.zero;
    currency = r.currency;
    dest_type = r.dest_type;
    dest_details = r.dest_details;
    status = pending;
    approved_by = none;
    approved_at = none;
    rejected_by = none;
    rejected_at = none;
    rejection_reason = "";
    transfer_ref = "";
    proof_url = "";
    completed_at = none;
    created_at = r.now;
    updated_at = r.now;
  }

  -- the test of Step 1; a limit of zero is no limit
  abbrev pub over_limit : D → D → D → Bool
  over_limit daily_limit daily_sum amount =
      is_positive daily_limit && greater (d.add daily_sum amount) daily_limit

  -- Step 3 of `CompleteWithdrawal`
  abbrev pub fee_of : Withdrawal D → D → D
  fee_of w fee_pct = d.round (d.mul w.amount fee_pct)

module _ {D W : Type 0} ⦃d : Decimal D⦄ ⦃client : WalletClient D W⦄ where
  -- the branch on the error of `Create`: release the hold, whose own error is only logged
  abbrev pub or_release :
      WithdrawalRequest D
      → Result Error (Unit {0}) × Desk D W
      → Result Error (Withdrawal D) × Desk D W
  or_release r (ok _, s) = (ok (new_withdrawal r), s)
  or_release r (err e, s) =
      (err e, (on_wallet (client.release_hold r.merchant_id r.amount r.currency r.id) s).1)

  -- `CreateWithdrawal`
  unfoldable pub create_withdrawal :
      Option D → WithdrawalRequest D → Action Error (Desk D W) (Withdrawal D)
  create_withdrawal limit r = do
    daily_limit ← answer limit
    daily_sum ← λ s. (ok (sum_daily_withdrawals r.merchant_id r.today s.rows), s)
    raise_if (over_limit daily_limit daily_sum r.amount) daily_limit_exceeded
    balance ← on_wallet (client.get_balance r.merchant_id r.currency)
    raise_if (d.lt balance r.amount) insufficient_funds
    on_wallet (client.hold_balance r.merchant_id r.amount r.currency r.id)
    λ s. or_release r (on_rows (create (new_withdrawal r)) s)

  -- `ApproveWithdrawal`
  unfoldable pub approve_withdrawal : ℕ → ℕ → ℕ → Action Error (Desk D W) (Unit {0})
  approve_withdrawal id admin_id now = do
    w ← on_rows (get_by_id id)
    raise_if (not (is_status w.status pending)) (invalid_status w.status)
    on_rows (update_status id approved (Field.approved_by admin_id ∷ Field.approved_at now ∷ []))

  -- `RejectWithdrawal`
  unfoldable pub reject_withdrawal : ℕ → ℕ → String → ℕ → Action Error (Desk D W) (Unit {0})
  reject_withdrawal id admin_id reason now = do
    w ← on_rows (get_by_id id)
    raise_if (not (is_status w.status pending)) (invalid_status w.status)
    on_wallet (client.release_hold w.merchant_id w.amount w.currency id)
    on_rows (
        update_status id rejected
          (Field.rejected_by admin_id ∷ Field.rejected_at now ∷ Field.rejection_reason reason ∷ []))

  -- `CompleteWithdrawal`
  unfoldable pub complete_withdrawal :
      Option D → ℕ → String → String → ℕ → Action Error (Desk D W) (Unit {0})
  complete_withdrawal pct id transfer_ref proof_url now = do
    w ← on_rows (get_by_id id)
    raise_if (not (is_status w.status approved)) (invalid_status w.status)
    fee_pct ← answer pct
    let fee = fee_of w fee_pct
    on_wallet (client.debit_hold w.merchant_id w.amount w.currency id)
    record_commission (record {
      withdrawal_id = id;
      merchant_id = w.merchant_id;
      fee_amount = fee;
      currency = w.currency;
    })
    on_rows (
        update_status id completed (
          Field.transfer_ref transfer_ref
          ∷ Field.proof_url proof_url
          ∷ Field.completed_at now
          ∷ Field.fee_amount fee
          ∷ Field.net_amount (d.sub w.amount fee)
          ∷ []))

-- A call of the service.
pub data Command (D : Type 0) : Type 0 where
  create_one : Option D → WithdrawalRequest D → Command D
  approve_one : (id admin_id now : ℕ) → Command D
  reject_one : (id admin_id : ℕ) → String → (now : ℕ) → Command D
  complete_one : Option D → (id : ℕ) → (transfer_ref proof_url : String) → (now : ℕ) → Command D

module _ {D W : Type 0} ⦃d : Decimal D⦄ ⦃client : WalletClient D W⦄ where
  unfoldable pub serve : Command D → Action Error (Desk D W) (Unit {0})
  serve (create_one limit r) s = drop_value (create_withdrawal limit r s)
  serve (approve_one id admin_id now) s = approve_withdrawal id admin_id now s
  serve (reject_one id admin_id reason now) s = reject_withdrawal id admin_id reason now s
  serve (complete_one pct id transfer_ref proof_url now) s =
      complete_withdrawal pct id transfer_ref proof_url now s

  -- the calls one after the other, each whatever the one before returned
  unfoldable pub serve_all : List (Command D) → Desk D W → Desk D W
  serve_all [] s = s
  serve_all (c ∷ cs) s = serve_all cs (serve c s).1
