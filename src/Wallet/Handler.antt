-- ===== src/Wallet/Handler.antt =====
-- services/wallet/internal/handler/wallet_handler.go: what a decoded request is checked for, and the
-- status code and error code of each result. UUIDs and amounts travel as texts; uuid.Parse, the
-- decimal parser and their printers are library code behind an interface.
use richpayment.Base.{ℕ, ◌≡◌, String, ◌||◌, Option, none, some, if◌then◌else◌}
use text.Mathlib.Text.{◌==◌ as str_eq}
use richpayment.Base.Result.{Result, ok, err}
use richpayment.Decimal.{Decimal, less_or_equal}
use richpayment.Wallet.Types.{
  OwnerType, merchant, agent, partner, system, LedgerEntryType, deposit_credit, withdrawal_debit,
  withdrawal_hold, withdrawal_release, fee_debit, commission_credit, commission_payout, adjustment,
  other, WalletService, Request, Error, wallet_not_found, insufficient_funds, Outage,
}
use richpayment.Wallet.Lock.{Redis}
use richpayment.Wallet.Repo.{Column}
use richpayment.Wallet.Service.{on_db, credit, debit, get_balance, ensure_wallet_exists}

-- Texts `T` that stand for ids and amounts: parsing gives back what was printed, an amount to the
-- cent where it is printed by StringFixed(2).
pub record Wire (D T : Type 0) ⦃d : Decimal D⦄ : Type 0 where
  pub show_id : ℕ → T
  pub parse_id : T → Option ℕ
  pub show_amount : D → T
  pub show_fixed : D → T
  pub parse_amount : T → Option D
  pub parse_show_id : (id : ℕ) → parse_id (show_id id) ≡ some id
  pub parse_show_amount : (a : D) → parse_amount (show_amount a) ≡ some a
  pub parse_show_fixed : (a : D) → parse_amount (show_fixed a) ≡ some (d.round a)

-- What one request meets: the failures of the database and of Redis during each call, the lock's
-- value, a fresh UUID and the clock.
pub record Server : Type 0 where
  pub outage : Outage
  pub again : Outage
  pub balance_outage : Outage
  pub lock_value : ℕ
  pub fresh : ℕ
  pub now : ℕ

-- The status code and the error code of a response.
pub record Response : Type 0 where
  pub status : ℕ
  pub code : String

-- `creditRequest` and `debitRequest`
pub record Body (T : Type 0) : Type 0 where
  pub wallet_id : T
  pub amount : T
  pub entry_type : String
  pub reference_type : String
  pub reference_id : T
  pub description : String

-- The two routes of `RegisterRoutes` that write.
pub data Route : Type 0 where
  post_credit post_debit : Route

-- `writeJSON` with {"status": "ok"}, and `writeError`
abbrev pub done : Response
done = record { status = 200; code = "" }

abbrev pub write_error : ℕ → String → Response
write_error status code = record { status = status; code = code }

-- the conversion `models.LedgerEntryType(req.EntryType)`
unfoldable pub ledger_entry_type : String → LedgerEntryType
ledger_entry_type s =
    if str_eq s "deposit_credit"
    then deposit_credit
    else if str_eq s "withdrawal_debit"
    then withdrawal_debit
    else if str_eq s "withdrawal_hold"
    then withdrawal_hold
    else if str_eq s "withdrawal_release"
    then withdrawal_release
    else if str_eq s "fee_debit"
    then fee_debit
    else if str_eq s "commission_credit"
    then commission_credit
    else if str_eq s "commission_payout_debit"
    then commission_payout
    else if str_eq s "adjustment"
    then adjustment
    else other s

-- `isValidOwnerType`, with the type that the text names
unfoldable pub owner_type_of : String → Option OwnerType
owner_type_of s =
    if str_eq s "merchant"
    then some merchant
    else if str_eq s "agent"
    then some agent
    else if str_eq s "partner"
    then some partner
    else if str_eq s "system"
    then some system
    else none

module _ {D T : Type 0} ⦃d : Decimal D⦄ ⦃wire : Wire D T⦄ where
  abbrev pub request_of : Server → Body T → ℕ → D → ℕ → Request D
  request_of server body wallet_id amount ref = record {
    wallet_id = wallet_id;
    amount = amount;
    entry_type = ledger_entry_type body.entry_type;
    reference_type = body.reference_type;
    reference_id = ref;
    description = body.description;
    lock_value = server.lock_value;
    now = server.now;
  }

  -- The checks that `Credit` and `Debit` share: a request, or the response that refuses it.
  unfoldable pub check_body : Server → Body T → Result Response (Request D)
  check_body server body = elim (wire.parse_id body.wallet_id) [
    | none ↦ err (write_error 400 "INVALID_WALLET_ID")
    | some wallet_id ↦ elim (wire.parse_amount body.amount) [
      | none ↦ err (write_error 400 "INVALID_AMOUNT")
      | some amount ↦
          if less_or_equal amount d.zero
          then err (write_error 400 "INVALID_AMOUNT")
          else elim (wire.parse_id body.reference_id) [
            | none ↦ err (write_error 400 "INVALID_REFERENCE_ID")
            | some ref ↦
                if str_eq body.entry_type "" || str_eq body.reference_type ""
                then err (write_error 400 "MISSING_FIELDS")
                else ok (request_of server body wallet_id amount ref)
          ]
    ]
  ]

-- the responses of `Credit`
abbrev pub credit_response : Result Error (Unit {0}) → Response
credit_response (ok _) = done
credit_response (err wallet_not_found) = write_error 404 "WALLET_NOT_FOUND"
credit_response (err e) = write_error 500 "CREDIT_FAILED"

-- the responses of `Debit`
abbrev pub debit_response : Result Error (Unit {0}) → Response
debit_response (ok _) = done
debit_response (err insufficient_funds) = write_error 400 "INSUFFICIENT_FUNDS"
debit_response (err wallet_not_found) = write_error 404 "WALLET_NOT_FOUND"
debit_response (err e) = write_error 500 "DEBIT_FAILED"

module _ {D R : Type 0} ⦃d : Decimal D⦄ ⦃column : Column D⦄ ⦃redis : Redis R⦄ where
  abbrev pub credit_checked :
      Server → WalletService D R → Result Response (Request D) → Response × WalletService D R
  credit_checked server s (err response) = (response, s)
  credit_checked server s (ok r) = let (q, s') = credit server.outage r s in (credit_response q, s')

  abbrev pub debit_checked :
      Server → WalletService D R → Result Response (Request D) → Response × WalletService D R
  debit_checked server s (err response) = (response, s)
  debit_checked server s (ok r) = let (q, s') = debit server.outage r s in (debit_response q, s')

module _ {D R T : Type 0} ⦃d : Decimal D⦄ ⦃column : Column D⦄ ⦃redis : Redis R⦄
    ⦃wire : Wire D T⦄ where
  -- `Credit`
  unfoldable pub handle_credit : Server → Body T → WalletService D R → Response × WalletService D R
  handle_credit server body s = credit_checked server s (check_body server body)

  -- `Debit`
  unfoldable pub handle_debit : Server → Body T → WalletService D R → Response × WalletService D R
  handle_debit server body s = debit_checked server s (check_body server body)

  -- `RegisterRoutes`
  unfoldable pub handle : Route → Server → Body T → WalletService D R → Response × WalletService D R
  handle post_credit = handle_credit
  handle post_debit = handle_debit

  -- `GetBalance` once its parameters are checked: the two amounts as texts, or the response
  abbrev pub balance_found :
      Server
      → OwnerType
      → ℕ
      → String
      → WalletService D R
      → Result Response (T × T) × WalletService D R
  balance_found server owner_type owner_id currency s =
      let (q, s') =
        on_db
          (ensure_wallet_exists server.outage server.again owner_type owner_id currency server.fresh
            server.now)
          s in
      elim q [
        | err _ ↦ (err (write_error 500 "INTERNAL_ERROR"), s')
        | ok _ ↦
            let (b, s'') = get_balance server.balance_outage owner_type owner_id currency s' in
            elim b [
              | err _ ↦ (err (write_error 500 "INTERNAL_ERROR"), s'')
              | ok (balance, hold) ↦ (ok (wire.show_fixed balance, wire.show_fixed hold), s'')
            ]
      ]

  -- `GetBalance`
  unfoldable pub handle_get_balance :
      Server
      → String
      → Option T
      → String
      → WalletService D R
      → Result Response (T × T) × WalletService D R
  handle_get_balance server owner_type none currency s = (err (write_error 400 "MISSING_PARAMS"), s)
  handle_get_balance server owner_type (some owner_id) currency s =
      if str_eq owner_type "" || str_eq currency ""
      then (err (write_error 400 "MISSING_PARAMS"), s)
      else elim (wire.parse_id owner_id) [
        | none ↦ (err (write_error 400 "INVALID_OWNER_ID"), s)
        | some id ↦ elim (owner_type_of owner_type) [
          | none ↦ (err (write_error 400 "INVALID_OWNER_TYPE"), s)
          | some t ↦ balance_found server t id currency s
        ]
      ]
