-- ===== src/Parser/Types.antt =====
-- The types of services/parser/internal/service and of its repository. A time is in nanoseconds, a
-- UUID is a number. The message of a result and log lines are left out.
use richpayment.Base.{ltb, ◌&&◌, ◌+◌, ℕ, ◌≡◌, String, Bool, not, Option, List, if◌then◌else◌}
use text.Mathlib.Text

-- `SMSMatchStatus`, without matched and anomaly_detected, which no code sets
pub data SmsMatchStatus : Type 0 where
  unmatched error duplicate pending_verification manual_approval : SmsMatchStatus

-- `ProcessSMSResult`
pub record ProcessSmsResult (D : Type 0) : Type 0 where
  pub status : SmsMatchStatus
  pub sms_id : ℕ
  pub order_id : Option ℕ
  pub bank_code : String
  pub amount : D
  pub confidence_score : ℕ
  pub requires_manual_approval : Bool
  pub verification_delay_seconds : ℕ
  pub anomaly_detected : Bool

-- `ParsedTransaction`, the fields that are used
pub record ParsedTransaction (D : Type 0) : Type 0 where
  pub bank_code : String
  pub amount : D
  pub reference : String
  pub sender_name : String

-- `BankParser`; none is an error of `Parse`
pub record BankParser (D : Type 0) : Type 0 where
  pub bank_code : String
  pub can_parse : (sender message : String) → Bool
  pub parse : (message : String) → Option (ParsedTransaction D)
  pub valid_senders : List String

-- `SMSMessage`
pub record SmsMessage (D : Type 0) : Type 0 where
  pub id : ℕ
  pub bank_account_id : ℕ
  pub bank_code : String
  pub sender_number : String
  pub amount : D
  pub sender_name : String
  pub reference : String
  pub raw_message : String
  pub matched_order_id : Option ℕ
  pub status : String
  pub received_at : ℕ
  pub created_at : ℕ

-- `AntiSpoofConfig`
pub record AntiSpoofConfig (D : Type 0) : Type 0 where
  pub auto_approve_threshold : ℕ
  pub delay_approve_threshold : ℕ
  pub delay_duration : ℕ
  pub manual_approval_amount_threshold : D
  pub verification_delay : ℕ

-- `ConfidenceResult`; `Action` is one of three texts
pub data Action : Type 0 where
  auto_approve delay_approve manual : Action

pub record ConfidenceResult : Type 0 where
  pub total_score : ℕ
  pub sender_score : ℕ
  pub format_score : ℕ
  pub amount_score : ℕ
  pub timestamp_score : ℕ
  pub anomaly_score : ℕ
  pub action : Action
  pub requires_manual_approval : Bool
  pub delay_seconds : ℕ

-- a key pending_verification:<sms> in Redis
pub record Verification (D : Type 0) : Type 0 where
  pub sms_id : ℕ
  pub order_id : ℕ
  pub bank_account_id : ℕ
  pub amount : D
  pub score : ℕ
  pub stored_at : ℕ
  pub ttl_seconds : ℕ

-- Which calls of Redis and of the database fail; `look_up_again` is the second look-up of the order.
pub record Failures : Type 0 where
  pub set_nx : Bool
  pub incr : Bool
  pub flag : Bool
  pub exists : Bool
  pub store : Bool
  pub look_up : Bool
  pub look_up_again : Bool
  pub verification : Bool

abbrev pub same : String → String → Bool
same a b = Text.◌==◌ a b

-- The keys sms_dup:<hash> in Redis at a time; SET NX leaves a key that is there with its expiry.
pub record Hashes (U : Type 0) : Type 0 where
  pub seen : String → (now : ℕ) → U → Bool
  pub set_nx : String → (ttl now : ℕ) → U → Bool × U
  pub set_nx_new : (h : String) (ttl now : ℕ) (u : U) → (set_nx h ttl now u).0 ≡ not (seen h now u)
  pub seen_set_nx :
      (h k : String) (ttl now t : ℕ) (u : U)
      → seen h t (set_nx k ttl now u).1
        ≡ (if same h k && not (seen k now u) then ltb t (now + ttl) else seen h t u)

-- The keys sms_rate:<account> and sms_anomaly:<account>, and the keys pending_order:<account>:<amount>
-- that the order is looked up by; none inside is a value that is no UUID.
pub record Signals (D R : Type 0) : Type 0 where
  pub incr : (account : ℕ) → R → ℕ × R
  pub expire : (account : ℕ) → R → R
  pub set_flag : (account count : ℕ) → R → R
  pub has_flag : (account : ℕ) → R → Bool
  pub get_order : (account : ℕ) → D → R → Option (Option ℕ)

-- The texts that come from outside: `strings.TrimSpace` and the SHA-256 fingerprint of a message.
pub record Texts : Type 0 where
  pub trim : String → String
  pub fingerprint : (sender message : String) → (received_at : ℕ) → String

-- The table sms_messages, Redis, the verifications that were stored and the alerts that were sent.
pub record Inbox (D U R : Type 0) : Type 0 where
  pub messages : List (SmsMessage D)
  pub hashes : U
  pub signals : R
  pub verifications : List (Verification D)
  pub alerts : List (ℕ × ℕ)
