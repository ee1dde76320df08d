-- ===== src/Parser/Verdict.antt =====
-- What the confidence score of `Evaluate` decides for a message that `ProcessSMS` matched.
use richpayment.Base.{◌≡◌, true, leb, if◌then◌else◌}
use richpayment.Base.Result.{Result, ok, err}
use richpayment.Decimal.{Decimal, less_or_equal}
use richpayment.Parser.Types.{ProcessSmsResult}

module _ {D : Type 0} ⦃d : Decimal D⦄ where
  -- approved by hand at the threshold and above, and else after the short delay
  abbrev pub Settled : D → ProcessSmsResult D → Type 0
  Settled threshold r =
      (r.requires_manual_approval ≡ less_or_equal threshold r.amount)
      × (r.verification_delay_seconds ≡ (if less_or_equal threshold r.amount then 0 else 30))
      × (leb 80 r.confidence_score ≡ true)

abbrev value_or : {E A : Type 0} → A → Result E A → A
value_or a (ok b) = b
value_or a (err _) = a
