-- ===== src/Lib.antt =====
-- Verification of richpayment, a payment gateway of Go services. The services that keep money are
-- modelled first.
--
-- The parts and how they interact.
-- - The wallet service (services/wallet) owns the balances. Its four operations Credit, Debit, Hold
--   and Release look a reference up in the ledger, take the wallet's Redis lock, and then read the
--   wallet, write it and log one ledger row in one transaction.
-- - The commission service (services/commission) splits a merchant's fee among system, agent and
--   partner, records the split, credits the recipients' wallets by statements of its own on the
--   wallet tables, and groups the commissions of a day by recipient.
-- - The withdrawal service (services/withdrawal) takes a withdrawal from pending over approved to
--   completed, or to rejected. It holds, releases and debits the merchant's money by requests to the
--   handlers of the wallet service, and sends the fee to the commission service.
-- - The auth service (services/auth) checks passwords and second factors, locks accounts and limits
--   addresses, and keeps the sessions in Redis.
-- - The order service (services/order) creates deposit orders on the least loaded bank account of a
--   merchant, prints a PromptPay payload for the customer, matches bank messages to orders,
--   completes them with requests to the wallet, commission and notification services, and lets a
--   worker expire them.
-- - The parser service (services/parser) takes the messages of banks: it refuses copies, parses and
--   stores a message, looks for the pending order and keeps a verification with a confidence score.
--
-- Which file models what.
-- - Base: names of the libraries, Boolean tests, `Base.Result` for Go's (value, error) pairs over a
--   state, `Base.Table` for the SELECT and UPDATE texts on a table.
-- - Decimal: the interface to shopspring/decimal, its consequences (Decimal.Laws) and one
--   implementation for concrete inputs (Decimal.Fixed).
-- - Wallet.Types: pkg/models/wallet.go. Wallet.Lock: pkg/database/redis.go and the lock methods of
--   services/wallet/internal/service/wallet.go. Wallet.Repo:
--   services/wallet/internal/repository/postgres_wallet_repo.go. Wallet.Service: the service, one
--   function for each method (credit, debit, hold, release, get_balance, ensure_wallet_exists);
--   once_locked holds the steps that the four operations repeat.
-- - Wallet.Outcome, Posting, Rows: the ways an operation ends and what it has written.
--   Wallet.Effect, Moves, Reconcile, Once, Mutex, Progress: its properties. Wallet.Race: the
--   operation cut at the points where it gives way to others, and two calls that take turns.
-- - Commission.Types: pkg/models/commission.go. Commission.Calculator (CalculateCommission) and
--   Commission.Recorder (RecordCommission, InsertCommission, CreditWallet):
--   services/commission/internal/service/calculator.go and
--   services/commission/internal/repository/commission_repo.go. Commission.Aggregator (the loop of
--   AggregateDaily, addToGroup): services/commission/internal/service/aggregator.go.
--   Commission.Split, Credits, Recorded, Totals, Earned: their properties. Commission.Keys: the keys
--   of groups.
-- - Wallet.Handler: services/wallet/internal/handler/wallet_handler.go. Wallet.Responses: its
--   properties.
-- - Withdrawal.Types: pkg/models/withdrawal.go. Withdrawal.Repo:
--   services/withdrawal/internal/repository/withdrawal_repo.go. Withdrawal.Service (one function for
--   each method) and Withdrawal.Client (HTTPWalletClient over pkg/httpclient/client.go):
--   services/withdrawal/internal/service/withdrawal.go. Withdrawal.Runs, Outcome, Rows: what a call does
--   to the withdrawals. Lifecycle, Limit, Completion, Logged, Settled: the properties.
-- - Auth.Types: services/auth/internal/model/types.go. Auth.Permissions:
--   services/auth/internal/service/rbac.go. Auth.Repo:
--   services/auth/internal/repository/postgres.go. Auth.Service (Login and what it calls) and
--   Auth.Session (ValidateSession, ValidateTOTPForSession, Logout):
--   services/auth/internal/service/auth.go. Auth.Refusal and Auth.Effect: what a call does to the
--   tables and to Redis. Auth.Lockout, Ended, TotpLimit, Opened: the properties.
-- - Order.Types: pkg/models/order.go. Order.Repo:
--   services/order/internal/repository/postgres_order_repo.go. Order.Deposit, Matcher and Timeout:
--   deposit.go, matcher.go and timeout.go of services/order/internal/service, out of the calls of
--   Order.Calls over the sorted sets of Order.Redis. Order.Run: the calls in sequence. Settling, Effect,
--   Opening and Uniqueness: what a call does. Order.Load, Matching and Race: the properties.
-- - Order.Qr: services/order/internal/service/qr.go, on lists of bytes. Order.Fields: a reader of the
--   payload and its round trip.
-- - Parser.Types: the types of services/parser/internal. Parser.Registry: banks/registry.go there.
--   Parser.Spoof, Anomaly and Service with Outcome: antispoof.go, anomaly.go and parser.go of
--   services/parser/internal/service. Parser.Steps and Keys: what a call goes through and writes.
--   Parser.Verdict and Replay: the properties.
-- - Base.Budget: a bound on how often something happens along a run.
-- - Wallet.Tests, Commission.Tests, Withdrawal.Tests, Auth.Tests, Order.Tests,
--   Parser.Tests: concrete runs.
--
-- How it is modelled.
-- - Amounts are values of an abstract type with the documented facts of the decimal library: an
--   ordered group with a product and Round(2). A NUMERIC(14,2) column is an interface too: it
--   stores a value to the cent or refuses it.
-- - A UUID is only compared, so it is a number. uuid.New() and time.Now() are arguments.
-- - A call to the database or to Redis may fail; which do is an argument (Outage), so each theorem
--   covers every combination of failures. A COMMIT that fails has rolled back.
-- - Redis is an interface with the effect of GET, SET NX and DEL on each key. The expiry of a key
--   is not an event of the model: Wallet.Race speaks of calls that end within the lock's ten
--   seconds. A SET NX or a script that fails has had no effect on Redis.
-- - A call of the withdrawal service is one step: the sum of the day and the row that is written after
--   it are not separated by another call. The repository in memory never fails to sum.
-- - In the auth service too a failing call is an argument (Failures), bcrypt, TOTP and SHA-256 are
--   functions of an interface, and Redis has in addition the counters of addresses. A session is gone
--   when the seconds of its SET have passed (`wait`). Between the calls of Auth.Ended and Auth.TotpLimit
--   no key expires.
-- - Redis is for orders three families of sorted sets, each an interface. A failing write to them is
--   ignored, as in the code. A score is an amount as a float; a query takes it as printed with %f. The
--   NUMERIC(12,2) columns of deposit_orders round to the cent.
-- - The bank parsers, the fingerprint of a message and the keys of the parser in Redis are interfaces.
--   The key of a message lives for the 24 hours of its SETNX. The windows of the rate and of the anomaly
--   flag are not events of the model.
-- - Recursion is on lists, in Order.Deposit on the hundred attempts of a loop, and in Order.Qr on a
--   number of digits (19, what an int has), of zeros to put before a text, and of the bits of a byte.
--   No model uses fuel otherwise.
-- - The statements of the commission repository commit one by one, so what came before an error
--   stays written. Their NUMERIC columns are an interface as above.
--
-- Not modelled: the queries and upserts of the daily summaries, HTTP, JSON, logging, configuration,
-- cryptography, the race of two logins that count a failure at one time, the regular expressions of
-- the bank parsers, the other services and the web front end.
pub mod Auth
pub mod Base
pub mod Commission
pub mod Decimal
pub mod Order
pub mod Parser
pub mod Wallet
pub mod Withdrawal
