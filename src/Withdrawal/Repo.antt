-- ===== src/Withdrawal/Repo.antt =====
-- `StubWithdrawalRepo` of services/withdrawal/internal/repository/withdrawal_repo.go: withdrawals by
-- id. Its mutex makes each call one step. A time is in Unix seconds.
use richpayment.Base.{
  ℕ, ◌+◌, ◌*◌, ◌/◌, String, Bool, true, false, not, ◌&&◌, ◌||◌, none, some, List, [], ◌∷◌, ◌==◌,
  ltb, if◌then◌else◌,
}
use mathlib.Core.Logic.{ite}
use richpayment.Base.Table.{find_row, exists_row, set_row}
use richpayment.Base.Result.{ok, err, Action}
use richpayment.Decimal.{Decimal}
use richpayment.Withdrawal.Types.{
  WithdrawalStatus, WithdrawalStatus-discrete, rejected, failed, Withdrawal, Error, not_found,
  duplicate_withdrawal,
}

-- An entry of the map of fields that `UpdateStatus` takes.
pub data Field (D : Type 0) : Type 0 where
  approved_by approved_at rejected_by rejected_at completed_at : ℕ → Field D
  rejection_reason transfer_ref proof_url : String → Field D
  fee_amount net_amount : D → Field D

abbrev pub is_status : WithdrawalStatus → WithdrawalStatus → Bool
is_status a b = ite (WithdrawalStatus-discrete a b) true false

-- the day of a time, in UTC
abbrev pub day_start : ℕ → ℕ
day_start time = time / 86400 * 86400

module _ {D : Type 0} where
  abbrev pub is_id : ℕ → Withdrawal D → Bool
  is_id id w = w.id == id

  -- the switch of `UpdateStatus`
  abbrev pub set_field : Field D → Withdrawal D → Withdrawal D
  set_field (approved_by a) w = record w { approved_by = some a }
  set_field (approved_at t) w = record w { approved_at = some t }
  set_field (rejected_by a) w = record w { rejected_by = some a }
  set_field (rejected_at t) w = record w { rejected_at = some t }
  set_field (completed_at t) w = record w { completed_at = some t }
  set_field (rejection_reason s) w = record w { rejection_reason = s }
  set_field (transfer_ref s) w = record w { transfer_ref = s }
  set_field (proof_url s) w = record w { proof_url = s }
  set_field (fee_amount x) w = record w { fee_amount = x }
  set_field (net_amount x) w = record w { net_amount = x }

  abbrev pub set_fields : List (Field D) → Withdrawal D → Withdrawal D
  set_fields [] w = w
  set_fields (f ∷ fs) w = set_fields fs (set_field f w)

  -- `Create`
  unfoldable pub create : Withdrawal D → Action Error (List (Withdrawal D)) (Unit {0})
  create w rows =
      if exists_row (is_id w.id) rows then (err duplicate_withdrawal, rows) else (ok tt, w ∷ rows)

  -- `GetByID`
  unfoldable pub get_by_id : ℕ → Action Error (List (Withdrawal D)) (Withdrawal D)
  get_by_id id rows = elim (find_row (is_id id) rows) [
    | none ↦ (err not_found, rows)
    | some w ↦ (ok w, rows)
  ]

  -- `UpdateStatus`
  unfoldable pub update_status :
      ℕ → WithdrawalStatus → List (Field D) → Action Error (List (Withdrawal D)) (Unit {0})
  update_status id status fields rows = elim (find_row (is_id id) rows) [
    | none ↦ (err not_found, rows)
    | some _ ↦
        (ok tt, set_row (is_id id) (λ w. set_fields fields (record w { status = status })) rows)
  ]

  -- the rows that `SumDailyWithdrawals` does not skip
  abbrev pub counts : ℕ → ℕ → Withdrawal D → Bool
  counts merchant_id start w =
      w.merchant_id == merchant_id
      && not (ltb w.created_at start)
      && ltb w.created_at (start + 86400)
      && not (is_status w.status rejected || is_status w.status failed)

module _ {D : Type 0} ⦃d : Decimal D⦄ where
  -- its loop; the order in which Go walks the map does not change the sum
  unfoldable pub sum_counted : ℕ → ℕ → List (Withdrawal D) → D
  sum_counted merchant_id start [] = d.zero
  sum_counted merchant_id start (w ∷ rows) =
      let rest = sum_counted merchant_id start rows in
      if counts merchant_id start w then d.add rest w.amount else rest

  -- `SumDailyWithdrawals`
  abbrev pub sum_daily_withdrawals : ℕ → ℕ → List (Withdrawal D) → D
  sum_daily_withdrawals merchant_id date rows = sum_counted merchant_id (day_start date) rows
