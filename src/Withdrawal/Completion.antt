-- ===== src/Withdrawal/Completion.antt =====
-- What an error leaves, and what a completed withdrawal holds.
use richpayment.Base.{
  ℕ, ◌≡◌, refl, sym, ap, ◌∙◌, String, Bool, false, List, ◌∷◌, some, arith, ==_iff,
}
use mathlib.Core.Bool.{false≢true}
use richpayment.Base.Table.{find_row}
use richpayment.Base.Result.{ok}
use richpayment.Decimal.{Decimal, IsCents}
use richpayment.Decimal.Laws.{sub_add_cancel, round_cents}
use richpayment.Withdrawal.Types.{completed, approved, Withdrawal, Desk}
use richpayment.Withdrawal.Repo.{is_id, get_by_id, update_status}
use richpayment.Withdrawal.Service.{WalletClient, complete_withdrawal, fee_of, Command, serve}
use richpayment.Withdrawal.Outcome.{is_status_eq, Ending, unchanged, added, updated, serve-Ending}
use richpayment.Withdrawal.Runs.{is_ok, step_row, completion, complete_updates}
use richpayment.Withdrawal.Rows.{find_row-stepped}

module _ {D : Type 0} ⦃d : Decimal D⦄ where
  -- a withdrawal and what its completion made of it
  abbrev pub Settled : Withdrawal D → Withdrawal D → Type 0
  Settled w w' =
      (w'.status ≡ completed)
      × (w'.amount ≡ w.amount)
      × (d.add w'.net_amount w'.fee_amount ≡ w.amount)
      × IsCents w'.fee_amount

  completed_row :
      (w : Withdrawal D) (pct : D) (transfer_ref proof_url : String) (now : ℕ)
      → Settled w (step_row completed (completion w pct transfer_ref proof_url now) w)
  completed_row w pct transfer_ref proof_url now =
      (refl, refl, sub_add_cancel w.amount (fee_of w pct), round_cents (d.mul w.amount pct))

module _ {D W : Type 0} ⦃d : Decimal D⦄ ⦃client : WalletClient D W⦄ where
  -- A call that returns an error leaves the withdrawals as they were, whatever failed.
  pub serve_error_rows :
      (c : Command D) (s : Desk D W) → is_ok (serve c s).0 ≡ false → (serve c s).1.rows ≡ s.rows
  serve_error_rows c s h = go (serve-Ending c s) h
    where
      go :
          {success : Bool} {rows : List (Withdrawal D)}
          → Ending c s.rows success rows
          → success ≡ false
          → rows ≡ s.rows
      go (unchanged _ is) h = is
      go (added _ _ _ yes_ok _ _ _) h = absurd (false≢true (sym h ∙ yes_ok))
      go (updated _ _ _ _ yes_ok _ _ _) h = absurd (false≢true (sym h ∙ yes_ok))

  complete_calls :
      (pct : D) (id : ℕ) (transfer_ref proof_url : String) (now : ℕ) (s : Desk D W)
      (w : Withdrawal D)
      → find_row (is_id id) s.rows ≡ some w
      → (complete_withdrawal (some pct) id transfer_ref proof_url now s).0 ≡ ok tt
      → let t = (complete_withdrawal (some pct) id transfer_ref proof_url now s).1 in
        (client.debit_hold w.merchant_id w.amount w.currency id s.wallet ≡ (ok tt, t.wallet))
        × (t.commission_calls
            ≡ record {
              withdrawal_id = id;
              merchant_id = w.merchant_id;
              fee_amount = fee_of w pct;
              currency = w.currency;
            }
              ∷ s.commission_calls)
  unfolding complete_withdrawal get_by_id update_status
  complete_calls pct id transfer_ref proof_url now s w found h = ground arith

  -- A completion that returns nil found the withdrawal approved and the wallet's debit of its amount
  -- done, left it completed with a fee in whole cents that adds up with the net amount to the amount
  -- exactly, and sent that fee to the commission service.
  pub complete_settles :
      (pct : D) (id : ℕ) (transfer_ref proof_url : String) (now : ℕ) (s : Desk D W)
      (w : Withdrawal D)
      → find_row (is_id id) s.rows ≡ some w
      → (complete_withdrawal (some pct) id transfer_ref proof_url now s).0 ≡ ok tt
      → let t = (complete_withdrawal (some pct) id transfer_ref proof_url now s).1 in
        (w' : Withdrawal D) × (w.status ≡ approved)
        × (find_row (is_id id) t.rows ≡ some w')
        × Settled w w'
        × (client.debit_hold w.merchant_id w.amount w.currency id s.wallet ≡ (ok tt, t.wallet))
        × (t.commission_calls
            ≡ record {
              withdrawal_id = id;
              merchant_id = w.merchant_id;
              fee_amount = w'.fee_amount;
              currency = w.currency;
            }
              ∷ s.commission_calls)
  complete_settles pct id transfer_ref proof_url now s w found h =
      let (was, is) = complete_updates pct id transfer_ref proof_url now s w found (ap is_ok h) in
      let (paid, called) = complete_calls pct id transfer_ref proof_url now s w found h in
      let fields = completion w pct transfer_ref proof_url now in
      let there = find_row-stepped id id completed fields w s.rows found in
      (
        step_row completed fields w,
        is_status_eq w.status approved was,
        rw (is) (rw ((==_iff id id).1 refl) at there),
        completed_row w pct transfer_ref proof_url now,
        paid,
        called,
      )
