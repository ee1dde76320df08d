-- ===== src/Parser/Anomaly.antt =====
-- services/parser/internal/service/anomaly.go. The alert goes out in a goroutine of its own; it is
-- recorded here as the account and the count. The text to Telegram is left out.
use richpayment.Base.{ℕ, String, Bool, not, ◌&&◌, ◌∷◌, ◌==◌, ltb, if◌then◌else◌}
use richpayment.Base.Result.{Result, ok, err}
use richpayment.Parser.Types.{Failures, Hashes, Signals, Texts, Inbox}

-- `duplicateKeyTTL`, 24 hours in nanoseconds
abbrev pub duplicate_key_ttl : ℕ
duplicate_key_ttl = 86_400_000_000_000

module _ {D U R : Type 0} ⦃texts : Texts⦄ (hashes : Hashes U) where
  -- `IsDuplicate` at a time; an error of Redis is err, and the message is taken
  unfoldable pub is_duplicate :
      Failures
      → (sender message : String) → (received_at now : ℕ) → Inbox D U R
      → Result (Unit {0}) Bool × Inbox D U R
  is_duplicate f sender message received_at now s =
      let (was_set, u) =
        hashes.set_nx (texts.fingerprint sender message received_at) duplicate_key_ttl now
          s.hashes in
      (
        if f.set_nx then err tt else ok (not was_set),
        if f.set_nx then s else record s { hashes = u },
      )

module _ {D R : Type 0} (signals : Signals D R) where
  -- the counter of an account, with its window on the first message
  abbrev pub counted : (account : ℕ) → R → ℕ × R
  counted account r =
      let (count, r') = signals.incr account r in
      (count, if count == 1 then signals.expire account r' else r')

module _ {D U R : Type 0} (signals : Signals D R) where
  -- `CheckRateAnomaly`; the failure of the counter is no anomaly
  unfoldable pub check_rate_anomaly :
      (rate_limit : ℕ) → Failures → (account : ℕ) → Inbox D U R → Bool × Inbox D U R
  check_rate_anomaly rate_limit f account s =
      let (count, r) = counted signals account s.signals in
      let over = not f.incr && ltb rate_limit count in
      let flagged = if over && not f.flag then signals.set_flag account count r else r in
      (
        over,
        if f.incr then s else record s {
          signals = flagged;
          alerts = if over then (account, count) ∷ s.alerts else s.alerts;
        },
      )
