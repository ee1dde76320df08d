-- ===== src/Withdrawal/Runs.antt =====
-- The rows after each call of the withdrawal service, by whether it succeeds.
use richpayment.Base.{ℕ, ◌≡◌, refl, true, false, Bool, Option, none, some, List, [], ◌∷◌, arith}
use richpayment.Base.Table.{set_row, find_row, exists_row}
use richpayment.Base.Result.{Result, ok, err}
use richpayment.Decimal.{Decimal}
use richpayment.Base.{String, ◌≢◌}
use richpayment.Withdrawal.Repo.{
  is_status, approved_by, approved_at, rejected_by, rejected_at, rejection_reason, completed_at,
  fee_amount, net_amount,
}
use richpayment.Withdrawal.Types.{
  WithdrawalStatus, pending, approved, rejected, completed, Withdrawal, Desk, WithdrawalRequest,
}
use richpayment.Withdrawal.Repo.{
  Field, is_id, set_fields, create, get_by_id, update_status, sum_daily_withdrawals,
}
use richpayment.Withdrawal.Service.{
  WalletClient, new_withdrawal, over_limit, create_withdrawal, approve_withdrawal,
  reject_withdrawal, complete_withdrawal, fee_of,
}

abbrev pub is_ok : {E A : Type 0} → Result E A → Bool
is_ok (ok _) = true
is_ok (err _) = false

module _ {D : Type 0} ⦃d : Decimal D⦄ where
  abbrev pub step_row : WithdrawalStatus → List (Field D) → Withdrawal D → Withdrawal D
  step_row status fields w = set_fields fields (record w { status = status })

  abbrev pub stepped :
      ℕ → WithdrawalStatus → List (Field D) → List (Withdrawal D) → List (Withdrawal D)
  stepped id status fields rows = set_row (is_id id) (step_row status fields) rows

  -- the fields that `CompleteWithdrawal` writes
  abbrev pub completion : Withdrawal D → D → String → String → ℕ → List (Field D)
  completion w pct transfer_ref proof_url now =
      Field.transfer_ref transfer_ref
      ∷ Field.proof_url proof_url
      ∷ completed_at now
      ∷ fee_amount (fee_of w pct)
      ∷ net_amount (d.sub w.amount (fee_of w pct))
      ∷ []

module _ {D W : Type 0} ⦃d : Decimal D⦄ ⦃client : WalletClient D W⦄ where
  pub create_fails :
      (limit : Option D) (r : WithdrawalRequest D) (s : Desk D W)
      → is_ok (create_withdrawal limit r s).0 ≡ false
      → (create_withdrawal limit r s).1.rows ≡ s.rows
  unfolding create_withdrawal create
  create_fails none r s h = refl
  create_fails (some limit) r s h = ground arith

  pub create_adds :
      (limit : D) (r : WithdrawalRequest D) (s : Desk D W)
      → is_ok (create_withdrawal (some limit) r s).0 ≡ true
      → (over_limit limit (sum_daily_withdrawals r.merchant_id r.today s.rows) r.amount ≡ false)
        × (exists_row (is_id r.id) s.rows ≡ false)
        × ((create_withdrawal (some limit) r s).1.rows ≡ new_withdrawal r ∷ s.rows)
  unfolding create_withdrawal create
  create_adds limit r s h = ground arith

  pub approve_fails :
      (id admin now : ℕ) (s : Desk D W)
      → is_ok (approve_withdrawal id admin now s).0 ≡ false
      → (approve_withdrawal id admin now s).1.rows ≡ s.rows
  unfolding approve_withdrawal get_by_id update_status
  approve_fails id admin now s h = ground arith

  pub approve_updates :
      (id admin now : ℕ) (s : Desk D W) (w : Withdrawal D)
      → find_row (is_id id) s.rows ≡ some w
      → is_ok (approve_withdrawal id admin now s).0 ≡ true
      → (is_status w.status pending ≡ true)
        × ((approve_withdrawal id admin now s).1.rows
            ≡ stepped id approved (approved_by admin ∷ approved_at now ∷ []) s.rows)
  unfolding approve_withdrawal get_by_id update_status
  approve_updates id admin now s w found h = ground arith

  pub approve_found :
      (id admin now : ℕ) (s : Desk D W)
      → is_ok (approve_withdrawal id admin now s).0 ≡ true
      → find_row (is_id id) s.rows ≢ none
  unfolding approve_withdrawal get_by_id update_status
  approve_found id admin now s h missing = ground arith

  pub reject_fails :
      (id admin : ℕ) (reason : String) (now : ℕ) (s : Desk D W)
      → is_ok (reject_withdrawal id admin reason now s).0 ≡ false
      → (reject_withdrawal id admin reason now s).1.rows ≡ s.rows
  unfolding reject_withdrawal get_by_id update_status
  reject_fails id admin reason now s h = ground arith

  pub reject_updates :
      (id admin : ℕ) (reason : String) (now : ℕ) (s : Desk D W) (w : Withdrawal D)
      → find_row (is_id id) s.rows ≡ some w
      → is_ok (reject_withdrawal id admin reason now s).0 ≡ true
      → (is_status w.status pending ≡ true)
        × ((reject_withdrawal id admin reason now s).1.rows
            ≡ stepped id rejected
                (rejected_by admin ∷ rejected_at now ∷ rejection_reason reason ∷ [])
                s.rows)
  unfolding reject_withdrawal get_by_id update_status
  reject_updates id admin reason now s w found h = ground arith

  pub reject_found :
      (id admin : ℕ) (reason : String) (now : ℕ) (s : Desk D W)
      → is_ok (reject_withdrawal id admin reason now s).0 ≡ true
      → find_row (is_id id) s.rows ≢ none
  unfolding reject_withdrawal get_by_id update_status
  reject_found id admin reason now s h missing = ground arith

  pub complete_fails :
      (pct : Option D) (id : ℕ) (transfer_ref proof_url : String) (now : ℕ) (s : Desk D W)
      → is_ok (complete_withdrawal pct id transfer_ref proof_url now s).0 ≡ false
      → (complete_withdrawal pct id transfer_ref proof_url now s).1.rows ≡ s.rows
  unfolding complete_withdrawal get_by_id update_status
  complete_fails none id transfer_ref proof_url now s h = ground arith
  complete_fails (some pct) id transfer_ref proof_url now s h = ground arith

  pub complete_updates :
      (pct : D) (id : ℕ) (transfer_ref proof_url : String) (now : ℕ) (s : Desk D W)
      (w : Withdrawal D)
      → find_row (is_id id) s.rows ≡ some w
      → is_ok (complete_withdrawal (some pct) id transfer_ref proof_url now s).0 ≡ true
      → (is_status w.status approved ≡ true)
        × ((complete_withdrawal (some pct) id transfer_ref proof_url now s).1.rows
            ≡ stepped id completed (completion w pct transfer_ref proof_url now) s.rows)
  unfolding complete_withdrawal get_by_id update_status
  complete_updates pct id transfer_ref proof_url now s w found h = ground arith

  pub complete_found :
      (pct : Option D) (id : ℕ) (transfer_ref proof_url : String) (now : ℕ) (s : Desk D W)
      → is_ok (complete_withdrawal pct id transfer_ref proof_url now s).0 ≡ true
      → find_row (is_id id) s.rows ≢ none
  unfolding complete_withdrawal get_by_id update_status
  complete_found none id transfer_ref proof_url now s h missing = ground arith
  complete_found (some pct) id transfer_ref proof_url now s h missing = ground arith
