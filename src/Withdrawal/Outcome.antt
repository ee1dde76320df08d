-- ===== src/Withdrawal/Outcome.antt =====
-- What a call of the withdrawal service does to the withdrawals: nothing if it returns an error, and
-- otherwise one new row or one step of one row. Every property goes through this split.
use richpayment.Base.{ℕ, ◌≡◌, refl, true, false, Bool, Option, none, some, List, [], ◌∷◌, arith}
use richpayment.Base.Table.{find_row, exists_row}
use richpayment.Base.Result.{drop_value, Result, ok, err}
use richpayment.Decimal.{Decimal}
use richpayment.Base.{String, ◌≢◌, sym, Bool-cases, Option-cases, inl, inr, ite_yes}
use mathlib.Core.Path.{subst}
use mathlib.Core.Bool.{false≢true}
use richpayment.Withdrawal.Repo.{
  is_status, approved_by, approved_at, rejected_by, rejected_at, rejection_reason,
}
use richpayment.Withdrawal.Types.{
  WithdrawalStatus, WithdrawalStatus-discrete, pending, approved, rejected, completed, Withdrawal,
  Error, Desk, WithdrawalRequest,
}
use richpayment.Withdrawal.Repo.{Field, is_id, get_by_id, sum_daily_withdrawals}
use richpayment.Withdrawal.Service.{
  WalletClient, new_withdrawal, over_limit, create_withdrawal, complete_withdrawal, Command,
  create_one, approve_one, reject_one, complete_one, serve,
}
use richpayment.Withdrawal.Runs.{
  is_ok, stepped, completion, create_fails, create_adds, approve_fails, approve_updates,
  approve_found, reject_fails, reject_updates, reject_found, complete_fails, complete_updates,
  complete_found,
}

-- The steps that a status may take.
pub data Step : WithdrawalStatus → WithdrawalStatus → Type 0 where
  approve : Step pending approved
  reject : Step pending rejected
  complete : Step approved completed

module _ {D : Type 0} ⦃d : Decimal D⦄ where
  -- The call `c` took the rows to `rows'`.
  pub data Ending (c : Command D) (rows : List (Withdrawal D)) (success : Bool)
      (rows' : List (Withdrawal D)) : Type 0 where
    unchanged : success ≡ false → rows' ≡ rows → Ending c rows success rows'
    added :
        (limit : D) (r : WithdrawalRequest D)
        → c ≡ create_one (some limit) r
        → success ≡ true
        → over_limit limit (sum_daily_withdrawals r.merchant_id r.today rows) r.amount ≡ false
        → exists_row (is_id r.id) rows ≡ false
        → rows' ≡ new_withdrawal r ∷ rows
        → Ending c rows success rows'
    updated :
        (id : ℕ) (w : Withdrawal D) (status : WithdrawalStatus) (fields : List (Field D))
        → success ≡ true
        → find_row (is_id id) rows ≡ some w
        → Step w.status status
        → rows' ≡ stepped id status fields rows
        → Ending c rows success rows'

pub is_status_eq : (a b : WithdrawalStatus) → is_status a b ≡ true → a ≡ b
is_status_eq a b h = ite_yes (WithdrawalStatus-discrete a b) h

module _ {D : Type 0} ⦃d : Decimal D⦄ where
  -- A call that fails without a trace, and writes one row if it succeeds.
  one_row-Ending :
      (c : Command D) (id : ℕ) (from status : WithdrawalStatus) (rows rows' : List (Withdrawal D))
      (success : Bool)
      → Step from status
      → (success ≡ false → rows' ≡ rows)
      → (success ≡ true → find_row (is_id id) rows ≢ none)
      → ((w : Withdrawal D)
          → find_row (is_id id) rows ≡ some w
          → success ≡ true
          → (fields : List (Field D)) × ((is_status w.status from ≡ true)
              × (rows' ≡ stepped id status fields rows)))
      → Ending c rows success rows'
  one_row-Ending c id from status rows rows' success step fails found updates =
      elim (Bool-cases success) [
        | inr e ↦ unchanged e (fails e)
        | inl e ↦ elim (Option-cases (find_row (is_id id) rows)) [
          | inl missing ↦ absurd (found e missing)
          | inr (w, read) ↦
              let (fields, (was, is)) = updates w read e in
              updated id w status fields e read
                (subst (λ x. Step x status) (sym (is_status_eq w.status from was)) step) is
        ]
      ]

module _ {D W : Type 0} ⦃d : Decimal D⦄ ⦃client : WalletClient D W⦄ where
  create-Ending :
      (limit : Option D) (r : WithdrawalRequest D) (s : Desk D W)
      → Ending
          (create_one limit r)
          s.rows
          (is_ok (create_withdrawal limit r s).0)
          (create_withdrawal limit r s).1.rows
  unfolding create_withdrawal
  create-Ending limit r s = elim (Bool-cases (is_ok (create_withdrawal limit r s).0)) [
    | inr e ↦ unchanged e (create_fails limit r s e)
    | inl e ↦ go limit e
  ]
    where
      go :
          (limit : Option D)
          → is_ok (create_withdrawal limit r s).0 ≡ true
          → Ending
              (create_one limit r)
              s.rows
              (is_ok (create_withdrawal limit r s).0)
              (create_withdrawal limit r s).1.rows
      go none e = absurd (false≢true e)
      go (some l) e = let (under, new, is) = create_adds l r s e in added l r refl e under new is

  dropped :
      {A : Type 0} {c : Command D} {rows : List (Withdrawal D)} (q : Result Error A × Desk D W)
      → Ending c rows (is_ok q.0) q.1.rows
      → Ending c rows (is_ok (drop_value q).0) (drop_value q).1.rows
  dropped (ok _, t) h = h
  dropped (err _, t) h = h

  complete_writes :
      (pct : Option D) (id : ℕ) (transfer_ref proof_url : String) (now : ℕ) (s : Desk D W)
      (w : Withdrawal D)
      → find_row (is_id id) s.rows ≡ some w
      → is_ok (complete_withdrawal pct id transfer_ref proof_url now s).0 ≡ true
      → (fields : List (Field D)) × ((is_status w.status approved ≡ true)
          × ((complete_withdrawal pct id transfer_ref proof_url now s).1.rows
              ≡ stepped id completed fields s.rows))
  unfolding complete_withdrawal get_by_id
  complete_writes none id transfer_ref proof_url now s w read e = absurd (ground arith)
  complete_writes (some pct) id transfer_ref proof_url now s w read e = (
    completion w pct transfer_ref proof_url now,
    complete_updates pct id transfer_ref proof_url now s w read e,
  )

  pub serve-Ending :
      (c : Command D) (s : Desk D W) → Ending c s.rows (is_ok (serve c s).0) (serve c s).1.rows
  unfolding serve
  serve-Ending (create_one limit r) s =
      dropped (create_withdrawal limit r s) (create-Ending limit r s)
  serve-Ending (approve_one id admin now) s =
      one_row-Ending _ id pending approved s.rows _ _ approve (approve_fails id admin now s)
        (approve_found id admin now s)
        λ w read e.
          (approved_by admin ∷ approved_at now ∷ [], approve_updates id admin now s w read e)
  serve-Ending (reject_one id admin reason now) s =
      one_row-Ending _ id pending rejected s.rows _ _ reject (reject_fails id admin reason now s)
        (reject_found id admin reason now s)
        λ w read e. (
          rejected_by admin ∷ rejected_at now ∷ rejection_reason reason ∷ [],
          reject_updates id admin reason now s w read e,
        )
  serve-Ending (complete_one pct id transfer_ref proof_url now) s =
      one_row-Ending _ id approved completed s.rows _ _ complete
        (complete_fails pct id transfer_ref proof_url now s)
        (complete_found pct id transfer_ref proof_url now s)
        λ w read e. complete_writes pct id transfer_ref proof_url now s w read e
