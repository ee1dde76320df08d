-- ===== src/Parser/Spoof.antt =====
-- services/parser/internal/service/antispoof.go: the confidence score of a message and what follows
-- from it.
use richpayment.Base.{
  ℕ, ◌+◌, String, Bool, true, false, not, ◌&&◌, Option, none, some, List, ◌∷◌, leb, if◌then◌else◌,
}
use richpayment.Decimal.{Decimal, less_or_equal}
use richpayment.Parser.Types.{
  AntiSpoofConfig, Action, auto_approve, delay_approve, manual, ConfidenceResult, Verification,
  BankParser, Failures, Signals, Texts, Inbox,
}
use richpayment.Parser.Registry.{is_known_sender}

-- `DefaultAntiSpoofConfig`, with the amount of 50,000 from outside
abbrev pub default_anti_spoof_config : {D : Type 0} → D → AntiSpoofConfig D
default_anti_spoof_config threshold = record {
  auto_approve_threshold = 80;
  delay_approve_threshold = 50;
  delay_duration = 60;
  manual_approval_amount_threshold = threshold;
  verification_delay = 30;
}

-- an order under the key; a value that is no UUID is an error
abbrev pub found_order : Option (Option ℕ) → Bool
found_order none = false
found_order (some none) = false
found_order (some (some id)) = true

module _ {D : Type 0} ⦃d : Decimal D⦄ where
  abbrev pub is_zero : D → Bool
  is_zero a = not (d.lt a d.zero) && not (d.lt d.zero a)

  -- GreaterThanOrEqual with the threshold
  abbrev pub is_high : AntiSpoofConfig D → D → Bool
  is_high config amount = less_or_equal config.manual_approval_amount_threshold amount

  -- the end of `Evaluate`: what a score and an amount lead to
  unfoldable pub decide :
      AntiSpoofConfig D → (sender format amount_score timestamp anomaly : ℕ) → D → ConfidenceResult
  decide config sender format amount_score timestamp anomaly amount =
      let total = sender + format + amount_score + timestamp + anomaly in
      let by_score : Action =
        if leb config.auto_approve_threshold total
        then auto_approve
        else if leb config.delay_approve_threshold total
        then delay_approve
        else manual in
      let action = if is_high config amount then manual else by_score in
      record {
        total_score = total;
        sender_score = sender;
        format_score = format;
        amount_score = amount_score;
        timestamp_score = timestamp;
        anomaly_score = anomaly;
        action = action;
        requires_manual_approval = elim action [
          | manual ↦ true
          | auto_approve ↦ false
          | delay_approve ↦ false
        ];
        delay_seconds = elim action [
          | auto_approve ↦ config.verification_delay
          | delay_approve ↦ config.delay_duration
          | manual ↦ 0
        ];
      }

module _ {D R : Type 0} ⦃d : Decimal D⦄ ⦃texts : Texts⦄ (signals : Signals D R) where
  -- `Evaluate` at a time
  unfoldable pub evaluate :
      AntiSpoofConfig D
      → List (BankParser D)
      → Failures
      → (sender : String) → (received_at : ℕ) → D
      → (account : ℕ) → (parse_success : Bool) → (now : ℕ) → R
      → ConfidenceResult
  evaluate config parsers f sender received_at amount account parse_success now r =
      let matched = found_order (signals.get_order account amount r) in
      decide config (if is_known_sender parsers sender then 30 else 0)
        (if parse_success then 30 else 0)
        (if not (is_zero amount) && not f.look_up_again && matched then 20 else 0)
        (if leb received_at now && leb now (received_at + 300_000_000_000) then 10 else 0)
        (if not f.exists && not (signals.has_flag account r) then 10 else 0) amount

-- `StorePendingVerification`, whose error is only logged
unfoldable pub store_pending_verification :
    {D U R : Type 0} → Failures → Verification D → Inbox D U R → Inbox D U R
store_pending_verification f v s =
    if f.verification then s else record s { verifications = v ∷ s.verifications }
