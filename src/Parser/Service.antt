-- ===== src/Parser/Service.antt =====
-- `ProcessSMS` of services/parser/internal/service/parser.go. A call reads the clock once. An early
-- return with a nil error is `returned`, and the one error is `store_failed`.
use richpayment.Base.{ℕ, Bool, true, false, not, Option, none, some, ◌∷◌, if◌then◌else◌}
use richpayment.Base.Result.{Result, ok, err, pure, raise, raise_if, ◌>>=◌, ◌>>◌}
use richpayment.Decimal.{Decimal}
use richpayment.Parser.Types.{
  error, duplicate, ProcessSmsResult, ParsedTransaction, BankParser, SmsMessage, Failures, Hashes,
  Signals, Texts, Inbox,
}
use richpayment.Base.Result as Results
use richpayment.Parser.Registry.{find_parser, is_known_sender}
use richpayment.Parser.Spoof.{evaluate, store_pending_verification}
use richpayment.Parser.Anomaly.{is_duplicate, check_rate_anomaly}
use richpayment.Parser.Outcome.{
  Stop, returned, store_failed, Sms, Setup, account_of, blank, or_return, too_old_or_ahead,
  new_message, matched_result, unmatched_result, verification_of,
}

module _ {D U R : Type 0} ⦃d : Decimal D⦄ where
  -- `Store`
  unfoldable pub store : Failures → SmsMessage D → Results.Action (Stop D) (Inbox D U R) (Unit {0})
  store f m s = (
    if f.store then err store_failed else ok tt,
    if f.store then s else record s { messages = m ∷ s.messages },
  )

module _ {D U R : Type 0} ⦃d : Decimal D⦄ ⦃texts : Texts⦄ (signals : Signals D R) where
  -- what the look-up of the order leads to
  unfoldable pub match_order :
      Setup D
      → Failures
      → Sms
      → ParsedTransaction D
      → (account : ℕ) → (anomaly : Bool) → Option (Option ℕ)
      → Inbox D U R
      → ProcessSmsResult D × Inbox D U R
  match_order setup f q p account anomaly order s =
      let c =
        evaluate signals setup.config setup.parsers f q.sender q.received_at p.amount account true
          q.now s.signals in
      elim order [
        | none ↦ (unmatched_result q p c.total_score anomaly, s)
        | some none ↦ (unmatched_result q p 0 false, s)
        | some (some id) ↦ (
          matched_result q p id anomaly c,
          store_pending_verification f (verification_of q account p id c) s,
        )
      ]

  -- Steps 7 to 9: the pending order, the score and what they lead to
  abbrev pub look_up :
      Setup D
      → Failures
      → Sms
      → ParsedTransaction D
      → (account : ℕ) → (anomaly : Bool)
      → Results.Action (Stop D) (Inbox D U R) (ProcessSmsResult D)
  look_up setup f q p account anomaly s =
      let order = if f.look_up then some none else signals.get_order account p.amount s.signals in
      let (r, s') = match_order setup f q p account anomaly order s in (ok r, s')

  abbrev pub rate : Setup D → Failures → (account : ℕ) → Results.Action (Stop D) (Inbox D U R) Bool
  rate setup f account s =
      let (b, s') = check_rate_anomaly signals setup.rate_limit f account s in (ok b, s')

  abbrev pub store_and_look_up :
      Setup D
      → Failures
      → Sms
      → ParsedTransaction D
      → (account : ℕ) → (anomaly : Bool)
      → Results.Action (Stop D) (Inbox D U R) (ProcessSmsResult D)
  store_and_look_up setup f q p account anomaly = do
    store f (new_message q account p)
    look_up setup f q p account anomaly

  -- Steps 5 to 9, for a message of an account
  abbrev pub take_message :
      Setup D
      → Failures
      → Sms
      → ParsedTransaction D
      → (account : ℕ) → Results.Action (Stop D) (Inbox D U R) (ProcessSmsResult D)
  take_message setup f q p account = do
    anomaly ← rate setup f account
    store_and_look_up setup f q p account anomaly

  -- Step 4, for a message that was parsed
  abbrev pub take_transaction :
      Setup D
      → Failures
      → Sms
      → ParsedTransaction D
      → Results.Action (Stop D) (Inbox D U R) (ProcessSmsResult D)
  take_transaction setup f q p = do
    account ← or_return (returned p.bank_code p.amount) (account_of setup.account_map q.sender)
    take_message setup f q p account

  -- Step 3, with the parser that was found
  abbrev pub parse_message :
      Setup D
      → Failures
      → Sms
      → BankParser D
      → Results.Action (Stop D) (Inbox D U R) (ProcessSmsResult D)
  parse_message setup f q parser = do
    p ← or_return (returned parser.bank_code d.zero) (parser.parse q.message)
    take_transaction setup f q p

  -- Steps 2 and 3, for a message of the right time
  abbrev pub find_and_parse :
      Setup D → Failures → Sms → Results.Action (Stop D) (Inbox D U R) (ProcessSmsResult D)
  find_and_parse setup f q = do
    parser ← or_return (returned "" d.zero) (find_parser setup.parsers q.sender q.message)
    parse_message setup f q parser

  abbrev pub take_recent :
      Setup D → Failures → Sms → Results.Action (Stop D) (Inbox D U R) (ProcessSmsResult D)
  take_recent setup f q = do
    raise_if (too_old_or_ahead q) (returned "" d.zero)
    find_and_parse setup f q

  -- Steps 1 to 9, for a message that is not a duplicate
  unfoldable pub process_new :
      Setup D → Failures → Sms → Results.Action (Stop D) (Inbox D U R) (ProcessSmsResult D)
  process_new setup f q = do
    raise_if (not (is_known_sender setup.parsers q.sender)) (returned "" d.zero)
    take_recent setup f q

-- a call ends with a result or with its error
abbrev pub answer_of :
    {D S : Type 0} ⦃d : Decimal D⦄
    → Result (Stop D) (ProcessSmsResult D) × S
    → Option (ProcessSmsResult D) × S
answer_of (ok r, s) = (some r, s)
answer_of (err (returned code a), s) =
    (some (record (blank error) { bank_code = code; amount = a }), s)
answer_of (err store_failed, s) = (none, s)

module _ {D U R : Type 0} ⦃d : Decimal D⦄ ⦃texts : Texts⦄ (hashes : Hashes U)
    (signals : Signals D R) where
  -- what follows the check for a duplicate
  abbrev pub after_check :
      Setup D
      → Failures
      → Sms
      → Result (Unit {0}) Bool × Inbox D U R
      → Option (ProcessSmsResult D) × Inbox D U R
  after_check setup f q (ok true, s) = (some (blank duplicate), s)
  after_check setup f q (ok false, s) = answer_of (process_new signals setup f q s)
  after_check setup f q (err _, s) = answer_of (process_new signals setup f q s)

  -- `ProcessSMS`; none is the error
  unfoldable pub process_sms :
      Setup D → Failures → Sms → Inbox D U R → Option (ProcessSmsResult D) × Inbox D U R
  process_sms setup f q s =
      after_check setup f q (is_duplicate hashes f q.sender q.message q.received_at q.now s)
