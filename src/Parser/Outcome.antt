-- ===== src/Parser/Outcome.antt =====
-- The inputs, the records and the results of `ProcessSMS` in services/parser/internal/service/parser.go.
use richpayment.Base.{
  ℕ, ◌+◌, String, Bool, false, ◌||◌, Option, none, some, List, [], ◌∷◌, ltb, if◌then◌else◌,
}
use richpayment.Base.Result.{Result, ok, err, pure, raise, raise_if, ◌>>=◌, ◌>>◌}
use richpayment.Decimal.{Decimal}
use richpayment.Parser.Types.{
  SmsMatchStatus, unmatched, pending_verification, manual_approval, ProcessSmsResult,
  ParsedTransaction, BankParser, SmsMessage, AntiSpoofConfig, ConfidenceResult, Verification, Inbox,
  same,
}
use richpayment.Base.Result as Results

-- How a call leaves the steps below; a result that is returned early has the status error and what
-- is known of the bank and the amount.
pub data Stop (D : Type 0) : Type 0 where
  returned : (bank_code : String) (amount : D) → Stop D
  store_failed : Stop D

pub record Sms : Type 0 where
  pub sender : String
  pub message : String
  pub received_at : ℕ
  -- of the new record
  pub id : ℕ
  pub now : ℕ

-- `ParserService`, without its connections
pub record Setup (D : Type 0) : Type 0 where
  pub parsers : List (BankParser D)
  pub account_map : List (String × ℕ)
  pub config : AntiSpoofConfig D
  pub rate_limit : ℕ

abbrev pub account_of : List (String × ℕ) → String → Option ℕ
account_of [] sender = none
account_of ((s, a) ∷ rest) sender = if same s sender then some a else account_of rest sender

module _ {D : Type 0} ⦃d : Decimal D⦄ where
  -- a result with zero values but for the status
  abbrev pub blank : SmsMatchStatus → ProcessSmsResult D
  blank status = record {
    status = status;
    sms_id = 0;
    order_id = none;
    bank_code = "";
    amount = d.zero;
    confidence_score = 0;
    requires_manual_approval = false;
    verification_delay_seconds = 0;
    anomaly_detected = false;
  }

abbrev pub or_return :
    {D U R A : Type 0} → Stop D → Option A → Results.Action (Stop D) (Inbox D U R) A
or_return stop none = raise stop
or_return stop (some a) = pure a

-- more than five minutes old, or more than a minute ahead
abbrev pub too_old_or_ahead : Sms → Bool
too_old_or_ahead q =
    ltb (q.received_at + 300_000_000_000) q.now || ltb (q.now + 60_000_000_000) q.received_at

-- the record of Step 6
abbrev pub new_message : {D : Type 0} → Sms → (account : ℕ) → ParsedTransaction D → SmsMessage D
new_message q account p = record {
  id = q.id;
  bank_account_id = account;
  bank_code = p.bank_code;
  sender_number = q.sender;
  amount = p.amount;
  sender_name = p.sender_name;
  reference = p.reference;
  raw_message = q.message;
  matched_order_id = none;
  status = "pending";
  received_at = q.received_at;
  created_at = q.now;
}

-- the result for a message that a pending order matches, or for one that none does
abbrev pub matched_result :
    {D : Type 0}
    → Sms
    → ParsedTransaction D
    → (order_id : ℕ) → Bool
    → ConfidenceResult
    → ProcessSmsResult D
matched_result q p order_id anomaly c = record {
  status = if c.requires_manual_approval then manual_approval else pending_verification;
  sms_id = q.id;
  order_id = some order_id;
  bank_code = p.bank_code;
  amount = p.amount;
  confidence_score = c.total_score;
  requires_manual_approval = c.requires_manual_approval;
  verification_delay_seconds = if c.requires_manual_approval then 0 else c.delay_seconds;
  anomaly_detected = anomaly;
}

abbrev pub unmatched_result :
    {D : Type 0} → Sms → ParsedTransaction D → (score : ℕ) → Bool → ProcessSmsResult D
unmatched_result q p score anomaly = record {
  status = unmatched;
  sms_id = q.id;
  order_id = none;
  bank_code = p.bank_code;
  amount = p.amount;
  confidence_score = score;
  requires_manual_approval = false;
  verification_delay_seconds = 0;
  anomaly_detected = anomaly;
}

abbrev pub verification_of :
    {D : Type 0}
    → Sms
    → (account : ℕ) → ParsedTransaction D
    → (order_id : ℕ) → ConfidenceResult
    → Verification D
verification_of q account p order_id c = record {
  sms_id = q.id;
  order_id = order_id;
  bank_account_id = account;
  amount = p.amount;
  score = c.total_score;
  stored_at = q.now;
  ttl_seconds = (if c.requires_manual_approval then 0 else c.delay_seconds) + 300;
}
