-- ===== src/Withdrawal/Client.antt =====
-- `HTTPWalletClient` of services/withdrawal/internal/service/withdrawal.go over
-- pkg/httpclient/client.go: each call is one request to a handler of the wallet service. A request
-- may not arrive, and an answer may be lost after the work is done.
use richpayment.Base.{ℕ, String, Bool, ◌&&◌, none, some, ltb, leb, if◌then◌else◌}
use richpayment.Base.Result.{Result, ok, err, Action}
use richpayment.Decimal.{Decimal}
use richpayment.Wallet.Types.{WalletService}
use richpayment.Wallet.Lock.{Redis}
use richpayment.Wallet.Repo.{Column}
use richpayment.Wallet.Handler.{
  Wire, Server, Response, Body, handle_credit, handle_debit, handle_get_balance,
}
use richpayment.Withdrawal.Types.{Error, wallet_failed}
use richpayment.Withdrawal.Service.{WalletClient}

-- One exchange: whether the request arrives and its answer comes back, and what the server meets.
pub record Exchange : Type 0 where
  pub arrives : Bool
  pub answers : Bool
  pub server : Server

-- the test of `doRequest` on the status code
abbrev pub is_success : ℕ → Bool
is_success status = leb 200 status && ltb status 300

module _ {S : Type 0} where
  abbrev pub received : Exchange → Response × S → Result Error (Unit {0}) × S
  received x (response, s) =
      (if x.answers && is_success response.status then ok tt else err wallet_failed, s)

  -- `ServiceClient.Post` to a handler, its result not read
  abbrev pub post : Exchange → (S → Response × S) → Action Error S (Unit {0})
  post x handler s = if x.arrives then received x (handler s) else (err wallet_failed, s)

module _ {D T : Type 0} ⦃d : Decimal D⦄ ⦃wire : Wire D T⦄ where
  -- The body of a request; the merchant's id goes out as the wallet's id. The text of the
  -- description is left out.
  abbrev pub body_of : String → ℕ → D → ℕ → Body T
  body_of entry_type merchant_id amount ref = record {
    wallet_id = wire.show_id merchant_id;
    amount = wire.show_amount amount;
    entry_type = entry_type;
    reference_type = "withdrawal";
    reference_id = wire.show_id ref;
    description = "";
  }

module _ {D R T : Type 0} ⦃d : Decimal D⦄ ⦃column : Column D⦄ ⦃redis : Redis R⦄ where
  -- `GetBalance`: the balance of the response, parsed
  abbrev pub parsed :
      Wire D T
      → Exchange
      → Result Response (T × T) × WalletService D R
      → Result Error D × WalletService D R
  parsed wire x (err _, s) = (err wallet_failed, s)
  parsed wire x (ok (balance, _), s) = elim (wire.parse_amount balance) [
    | none ↦ (err wallet_failed, s)
    | some b ↦ (if x.answers then ok b else err wallet_failed, s)
  ]

  -- `HTTPWalletClient`
  abbrev pub http_client : Wire D T → Exchange → WalletClient D (WalletService D R)
  http_client wire x = record {
    get_balance = λ merchant_id currency s.
        if x.arrives
        then parsed wire x (
            handle_get_balance ⦃wire = wire⦄ x.server "merchant" (some (wire.show_id merchant_id))
              currency s)
        else (err wallet_failed, s);
    hold_balance = λ merchant_id amount currency ref. post x (
        handle_debit ⦃wire = wire⦄ x.server
          (body_of ⦃wire = wire⦄ "withdrawal_hold" merchant_id amount ref));
    release_hold = λ merchant_id amount currency ref. post x (
        handle_credit ⦃wire = wire⦄ x.server
          (body_of ⦃wire = wire⦄ "withdrawal_release" merchant_id amount ref));
    debit_hold = λ merchant_id amount currency ref. post x (
        handle_debit ⦃wire = wire⦄ x.server
          (body_of ⦃wire = wire⦄ "withdrawal_debit" merchant_id amount ref));
  }
