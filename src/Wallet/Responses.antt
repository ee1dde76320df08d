-- ===== src/Wallet/Responses.antt =====
-- The responses of the wallet service's handlers against what the service has done.
use richpayment.Base.{◌≡◌, ◌≢◌, refl, ap}
use richpayment.Base.Result.{Result, ok, err}
use richpayment.Decimal.{Decimal}
use richpayment.Wallet.Types.{WalletService, Request, Error}
use richpayment.Wallet.Lock.{Redis}
use richpayment.Wallet.Repo.{Column}
use richpayment.Wallet.Service.{credit, debit, credits, debits, serve}
use richpayment.Wallet.Handler.{
  Wire, Server, Response, Body, credit_response, debit_response, check_body, credit_checked,
  debit_checked, handle_credit, handle_debit, Route, post_credit, post_debit, handle,
}
use richpayment.Wallet.Effect.{serve_error_unchanged}

module _ {D R : Type 0} ⦃d : Decimal D⦄ ⦃column : Column D⦄ ⦃redis : Redis R⦄ where
  credit_checked_error :
      (server : Server) (s : WalletService D R) (q : Result Response (Request D))
      → (credit_checked server s q).0.status ≢ 200
      → (credit_checked server s q).1.db ≡ s.db
  unfolding serve
  credit_checked_error server s (err _) h = refl
  credit_checked_error server s (ok r) h = go (credit server.outage r s) refl h
    where
      go :
          (q : Result Error (Unit {0}) × WalletService D R)
          → credit server.outage r s ≡ q
          → (credit_response q.0).status ≢ 200
          → q.1.db ≡ s.db
      go (ok _, t) is h = absurd (h refl)
      go (err e, t) is h =
          rw is at (serve_error_unchanged credits server.outage r s e (ap (λ q. q.0) is))

  debit_checked_error :
      (server : Server) (s : WalletService D R) (q : Result Response (Request D))
      → (debit_checked server s q).0.status ≢ 200
      → (debit_checked server s q).1.db ≡ s.db
  unfolding serve
  debit_checked_error server s (err _) h = refl
  debit_checked_error server s (ok r) h = go (debit server.outage r s) refl h
    where
      go :
          (q : Result Error (Unit {0}) × WalletService D R)
          → debit server.outage r s ≡ q
          → (debit_response q.0).status ≢ 200
          → q.1.db ≡ s.db
      go (ok _, t) is h = absurd (h refl)
      go (err e, t) is h =
          rw is at (serve_error_unchanged debits server.outage r s e (ap (λ q. q.0) is))

module _ {D R T : Type 0} ⦃d : Decimal D⦄ ⦃column : Column D⦄ ⦃redis : Redis R⦄
    (wire : Wire D T) where
  -- A credit or debit request that is answered with any status but 200, be it for its body, the
  -- wallet, the funds or a failure, leaves the tables as they were.
  pub handle_error_unchanged :
      (route : Route) (server : Server) (body : Body T) (s : WalletService D R)
      → (handle ⦃wire = wire⦄ route server body s).0.status ≢ 200
      → (handle ⦃wire = wire⦄ route server body s).1.db ≡ s.db
  unfolding handle handle_credit handle_debit
  handle_error_unchanged post_credit server body s =
      credit_checked_error server s (check_body ⦃wire = wire⦄ server body)
  handle_error_unchanged post_debit server body s =
      debit_checked_error server s (check_body ⦃wire = wire⦄ server body)
