-- ===== src/Withdrawal/Logged.antt =====
-- The client of the wallet service under a reference that the ledger has, and what a debit that the
-- client sees succeed leaves there.
use richpayment.Base.{
  ℕ, ◌≡◌, refl, ap, String, Bool, true, false, arith, Bool-cases, inl, inr, if◌then◌else◌,
}
use richpayment.Base.Table.{exists_row}
use richpayment.Base.Result.{Result, ok, err}
use richpayment.Decimal.{Decimal}
use richpayment.Wallet.Types.{WalletService, Request, Outage}
use richpayment.Wallet.Lock.{Redis}
use richpayment.Wallet.Repo.{Column, is_reference, ledger_entry_exists_by_ref}
use richpayment.Wallet.Service.{credit, debit, once_locked, debits, serve}
use richpayment.Wallet.Outcome.{serve-Ending}
use richpayment.Wallet.Once.{Ending-logged}
use richpayment.Wallet.Handler.{
  Wire, Server, Response, Body, check_body, credit_checked, debit_checked, debit_response,
  handle_credit, handle_debit,
}
use richpayment.Wallet.Types.{insufficient_funds, Error as WalletError}
use richpayment.Withdrawal.Types.{wallet_failed}
use richpayment.Withdrawal.Service.{WalletClient}
use richpayment.Withdrawal.Client.{is_success, Exchange, received, post, body_of, http_client}

module _ {D R : Type 0} ⦃d : Decimal D⦄ ⦃column : Column D⦄ ⦃redis : Redis R⦄ where
  abbrev pub IsLogged : ℕ → WalletService D R → Type 0
  IsLogged ref s = exists_row (is_reference ref) s.db.ledger ≡ true

  -- An operation whose reference is in the ledger changes nothing, whatever it returns.
  once_logged :
      (outage : Outage) (r : Request D) (body : _) (s : WalletService D R)
      → IsLogged r.reference_id s
      → (once_locked outage r body s).1 ≡ s
  unfolding once_locked ledger_entry_exists_by_ref
  once_logged outage r body s old = ground arith

debit_response_fails : (e : WalletError) → is_success (debit_response (err e)).status ≡ false
debit_response_fails insufficient_funds = refl
debit_response_fails e = refl

module _ {D T : Type 0} ⦃d : Decimal D⦄ (wire : Wire D T) where
  check_body_refuses :
      (server : Server) (body : Body T) (response : Response)
      → check_body ⦃wire = wire⦄ server body ≡ err response
      → response.status ≡ 400
  unfolding check_body
  check_body_refuses server body response h = ground arith

  -- A request that the handlers accept from the client has the client's reference.
  check_body-body_of :
      (server : Server) (entry_type : String) (merchant_id : ℕ) (amount : D) (ref : ℕ)
      (r : Request D)
      → check_body ⦃wire = wire⦄ server (body_of ⦃wire = wire⦄ entry_type merchant_id amount ref)
        ≡ ok r
      → r.reference_id ≡ ref
  unfolding check_body
  check_body-body_of server entry_type merchant_id amount ref r h =
      ground (
        arith,
        wire.parse_show_id merchant_id,
        wire.parse_show_id ref,
        wire.parse_show_amount amount,
      )

module _ {D R T : Type 0} ⦃d : Decimal D⦄ ⦃column : Column D⦄ ⦃redis : Redis R⦄
    (wire : Wire D T) where
  abbrev pub client_of : Exchange → WalletClient D (WalletService D R)
  client_of x = http_client wire x

  pub release-logged :
      (x : Exchange) (merchant_id : ℕ) (amount : D) (currency : String) (ref : ℕ)
      (s : WalletService D R)
      → IsLogged ref s
      → ((client_of x).release_hold merchant_id amount currency ref s).1 ≡ s
  unfolding handle_credit credit
  release-logged x merchant_id amount currency ref s old = elim (Bool-cases x.arrives) [
    | inr lost ↦ rw lost refl
    | inl here ↦
        let body = body_of ⦃wire = wire⦄ "withdrawal_release" merchant_id amount ref in
        rw here (go (check_body ⦃wire = wire⦄ x.server body) refl)
  ]
    where
      go :
          (q : Result Response (Request D))
          → check_body ⦃wire = wire⦄ x.server
              (body_of ⦃wire = wire⦄ "withdrawal_release" merchant_id amount ref)
            ≡ q
          → (credit_checked x.server s q).1 ≡ s
      go (err _) e = refl
      go (ok r) e = once_logged x.server.outage r _ s (
          rw (check_body-body_of wire x.server "withdrawal_release" merchant_id amount ref r e) old)

  pub debit-logged :
      (x : Exchange) (entry_type : String) (merchant_id : ℕ) (amount : D) (ref : ℕ)
      (s : WalletService D R)
      → IsLogged ref s
      → (post x
          (handle_debit ⦃wire = wire⦄ x.server
            (body_of ⦃wire = wire⦄ entry_type merchant_id amount ref))
          s).1
        ≡ s
  unfolding handle_debit debit
  debit-logged x entry_type merchant_id amount ref s old = elim (Bool-cases x.arrives) [
    | inr lost ↦ rw lost refl
    | inl here ↦
        let body = body_of ⦃wire = wire⦄ entry_type merchant_id amount ref in
        rw here (go (check_body ⦃wire = wire⦄ x.server body) refl)
  ]
    where
      go :
          (q : Result Response (Request D))
          → check_body ⦃wire = wire⦄ x.server
              (body_of ⦃wire = wire⦄ entry_type merchant_id amount ref)
            ≡ q
          → (debit_checked x.server s q).1 ≡ s
      go (err _) e = refl
      go (ok r) e =
          once_logged x.server.outage r _ s
            (rw (check_body-body_of wire x.server entry_type merchant_id amount ref r e) old)

  -- A debit that the client sees succeed is in the ledger.
  pub debit_logs :
      (x : Exchange) (entry_type : String) (merchant_id : ℕ) (amount : D) (ref : ℕ)
      (s : WalletService D R)
      → (post x
          (handle_debit ⦃wire = wire⦄ x.server
            (body_of ⦃wire = wire⦄ entry_type merchant_id amount ref))
          s).0
        ≡ ok tt
      → IsLogged ref
          (post x
            (handle_debit ⦃wire = wire⦄ x.server
              (body_of ⦃wire = wire⦄ entry_type merchant_id amount ref))
            s).1
  unfolding handle_debit serve
  debit_logs x entry_type merchant_id amount ref s h =
      arrived x.arrives (check_body ⦃wire = wire⦄ x.server body) refl h
    where
      body : Body T
      body = body_of ⦃wire = wire⦄ entry_type merchant_id amount ref

      served :
          (r : Request D) (q : Result WalletError (Unit {0}) × WalletService D R)
          → debit x.server.outage r s ≡ q
          → r.reference_id ≡ ref
          → (received x (debit_response q.0, q.1)).0 ≡ ok tt
          → IsLogged ref q.1
      served r (err e, s') is same h = ground (arith, debit_response_fails e)
      served r (ok _, s') is same h =
          let old =
            Ending-logged debits x.server.outage r s.db (serve-Ending debits x.server.outage r s)
              (ap (λ q. q.0) is) in
          rw (is, same) at old

      arrived :
          (b : Bool) (q : Result Response (Request D))
          → check_body ⦃wire = wire⦄ x.server body ≡ q
          → (if b then received x (debit_checked x.server s q) else (err wallet_failed, s)).0
            ≡ ok tt
          → IsLogged ref
              (if b then received x (debit_checked x.server s q) else (err wallet_failed, s)).1
      arrived false q e h = cc
      arrived true (err response) e h =
          ground (arith, check_body_refuses wire x.server body response e)
      arrived true (ok r) e h =
          served r (debit x.server.outage r s) refl
            (check_body-body_of wire x.server entry_type merchant_id amount ref r e) h
