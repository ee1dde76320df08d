-- ===== src/Withdrawal/Settled.antt =====
-- The withdrawal service over the wallet service: hold, release and final debit of a withdrawal go
-- out under one reference, its id.
use richpayment.Base.{ℕ, ◌≡◌, ap, String, Option, none, some, arith, inl, inr}
use richpayment.Base.Table.{find_row}
use richpayment.Base.Result.{ok}
use richpayment.Decimal.{Decimal}
use richpayment.Wallet.Types.{WalletService}
use richpayment.Wallet.Lock.{Redis}
use richpayment.Wallet.Repo.{Column}
use richpayment.Wallet.Handler.{Wire}
use richpayment.Withdrawal.Types.{Withdrawal, WithdrawalRequest, Desk}
use richpayment.Withdrawal.Repo.{get_by_id, update_status, create}
use richpayment.Withdrawal.Service.{
  WalletClient, create_withdrawal, reject_withdrawal, complete_withdrawal,
}
use richpayment.Withdrawal.Client.{Exchange}
use richpayment.Withdrawal.Logged.{IsLogged, client_of, release-logged, debit-logged, debit_logs}
use richpayment.Base.{Option-cases}
use richpayment.Withdrawal.Repo.{is_id}

module _ {D W : Type 0} ⦃d : Decimal D⦄ ⦃client : WalletClient D W⦄ where
  -- The hold of a withdrawal that was created: it succeeded, and is the last call of the wallet.
  create_holds :
      (limit : D) (r : WithdrawalRequest D) (s : Desk D W) (w : Withdrawal D)
      → (create_withdrawal (some limit) r s).0 ≡ ok w
      → client.hold_balance r.merchant_id r.amount r.currency r.id
          (client.get_balance r.merchant_id r.currency s.wallet).1
        ≡ (ok tt, (create_withdrawal (some limit) r s).1.wallet)
  unfolding create_withdrawal create
  create_holds limit r s w h = ground arith

  reject_wallet :
      (id admin : ℕ) (reason : String) (now : ℕ) (s : Desk D W)
      → ((m : ℕ) (a : D) (c : String) → (client.release_hold m a c id s.wallet).1 ≡ s.wallet)
      → (reject_withdrawal id admin reason now s).1.wallet ≡ s.wallet
  unfolding reject_withdrawal get_by_id update_status
  reject_wallet id admin reason now s h = elim (Option-cases (find_row (is_id id) s.rows)) [
    | inl e ↦ ground arith
    | inr (w, e) ↦ ground (arith, h w.merchant_id w.amount w.currency)
  ]

  complete_wallet :
      (pct : Option D) (id : ℕ) (transfer_ref proof_url : String) (now : ℕ) (s : Desk D W)
      → ((m : ℕ) (a : D) (c : String) → (client.debit_hold m a c id s.wallet).1 ≡ s.wallet)
      → (complete_withdrawal pct id transfer_ref proof_url now s).1.wallet ≡ s.wallet
  unfolding complete_withdrawal get_by_id update_status
  complete_wallet none id transfer_ref proof_url now s h = ground arith
  complete_wallet (some pct) id transfer_ref proof_url now s h =
      elim (Option-cases (find_row (is_id id) s.rows)) [
        | inl e ↦ ground arith
        | inr (w, e) ↦ ground (arith, h w.merchant_id w.amount w.currency)
      ]

module _ {D R T : Type 0} ⦃d : Decimal D⦄ ⦃column : Column D⦄ ⦃redis : Redis R⦄
    (wire : Wire D T) where
  create_logs :
      (x : Exchange) (limit : D) (r : WithdrawalRequest D) (s : Desk D (WalletService D R))
      (w : Withdrawal D)
      → (create_withdrawal ⦃client = client_of wire x⦄ (some limit) r s).0 ≡ ok w
      → IsLogged r.id (create_withdrawal ⦃client = client_of wire x⦄ (some limit) r s).1.wallet
  create_logs x limit r s w h =
      let holds = create_holds ⦃client = client_of wire x⦄ limit r s w h in
      rw holds at
        (debit_logs wire x "withdrawal_hold" r.merchant_id r.amount r.id _ (ap (λ q. q.0) holds))

  -- Over the HTTP client, once a withdrawal has been created the wallet service is never changed for
  -- it again: from any later desk with that wallet service, a rejection does not give the money back
  -- and a completion does not debit it a second time, whatever they return and whatever the network
  -- and the servers do.
  pub create_withdrawal_settles :
      (x y : Exchange) (limit : D) (r : WithdrawalRequest D) (s t : Desk D (WalletService D R))
      (w : Withdrawal D) (pct : Option D) (admin now : ℕ) (reason transfer_ref proof_url : String)
      → (create_withdrawal ⦃client = client_of wire x⦄ (some limit) r s).0 ≡ ok w
      → t.wallet ≡ (create_withdrawal ⦃client = client_of wire x⦄ (some limit) r s).1.wallet
      → ((reject_withdrawal ⦃client = client_of wire y⦄ r.id admin reason now t).1.wallet
          ≡ t.wallet)
        × ((complete_withdrawal ⦃client = client_of wire y⦄ pct r.id transfer_ref proof_url now
              t).1.wallet
            ≡ t.wallet)
  create_withdrawal_settles x y limit r s t w pct admin now reason transfer_ref proof_url h same =
      let old : IsLogged r.id t.wallet = rw same (create_logs x limit r s w h) in
      (
        reject_wallet ⦃client = client_of wire y⦄ r.id admin reason now t
            (λ m a c. release-logged wire y m a c r.id t.wallet old),
        complete_wallet ⦃client = client_of wire y⦄ pct r.id transfer_ref proof_url now t
            (λ m a c. debit-logged wire y "withdrawal_debit" m a r.id t.wallet old),
      )
