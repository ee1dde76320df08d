-- ===== src/Withdrawal/Rows.antt =====
-- One withdrawal under the step of another, and what a step does not touch.
use richpayment.Base.{ℕ, ◌≡◌, List, [], ◌∷◌, some, arith, ◌==◌, if◌then◌else◌}
use richpayment.Base.Table.{find_row}
use richpayment.Decimal.{Decimal}
use richpayment.Withdrawal.Types.{WithdrawalStatus, Withdrawal}
use richpayment.Withdrawal.Repo.{Field, is_id, set_field, set_fields, approved_by}
use richpayment.Withdrawal.Runs.{step_row, stepped}

module _ {D : Type 0} ⦃d : Decimal D⦄ where
  -- What was agreed when the withdrawal was made.
  pub record IsSame (w w' : Withdrawal D) : Type 0 where
    pub id : w'.id ≡ w.id
    pub merchant_id : w'.merchant_id ≡ w.merchant_id
    pub amount : w'.amount ≡ w.amount
    pub currency : w'.currency ≡ w.currency
    pub dest_type : w'.dest_type ≡ w.dest_type
    pub dest_details : w'.dest_details ≡ w.dest_details
    pub created_at : w'.created_at ≡ w.created_at

  set_field-IsSame :
      (f : Field D) (w : Withdrawal D)
      → IsSame w (set_field f w) × ((set_field f w).status ≡ w.status)
  set_field-IsSame (approved_by a) w = ground arith
  set_field-IsSame f w = ground arith

  set_fields-IsSame :
      (fs : List (Field D)) (w : Withdrawal D)
      → IsSame w (set_fields fs w) × ((set_fields fs w).status ≡ w.status)
  set_fields-IsSame [] w = ground arith
  set_fields-IsSame (f ∷ fs) w =
      ground (arith, set_field-IsSame f w, set_fields-IsSame fs (set_field f w))

  pub step_row-IsSame :
      (status : WithdrawalStatus) (fs : List (Field D)) (w : Withdrawal D)
      → IsSame w (step_row status fs w) × ((step_row status fs w).status ≡ status)
  step_row-IsSame status fs w = ground (arith, set_fields-IsSame fs (record w { status = status }))

  pub find_row-stepped :
      (j id : ℕ) (status : WithdrawalStatus) (fs : List (Field D)) (w : Withdrawal D)
      (rows : List (Withdrawal D))
      → find_row (is_id j) rows ≡ some w
      → find_row (is_id j) (stepped id status fs rows)
        ≡ some (if j == id then step_row status fs w else w)
  find_row-stepped j id status fs w [] e = cc
  find_row-stepped j id status fs w (x ∷ rows) e =
      ground (arith, find_row-stepped j id status fs w rows, step_row-IsSame status fs x)
