-- ===== src/Parser/Tests.antt =====
-- The parser at concrete values: one bank, one account, 5, with one pending order, 7, for 300.01.
use richpayment.Base.{
  ◌+◌, ltb, arith, ℕ, suc, ◌≡◌, refl, String, Bool, true, false, not, ◌&&◌, none, some, [], ◌∷◌,
  ◌==◌, if◌then◌else◌,
}
use richpayment.Decimal.{less_or_equal}
use richpayment.Decimal.Fixed.{ℤ, pos, fixed}
use richpayment.Parser.Types.{
  BankParser, pending_verification, duplicate, ProcessSmsResult, Failures, Hashes, Signals, Texts,
  Inbox, same,
}
use richpayment.Parser.Registry.{is_known_sender, find_parser}
use richpayment.Parser.Spoof.{default_anti_spoof_config}
use richpayment.Parser.Anomaly.{duplicate_key_ttl, is_duplicate, check_rate_anomaly}
use richpayment.Parser.Outcome.{Sms, Setup, blank}
use richpayment.Parser.Service.{process_new, process_sms, store}
use richpayment.Parser.Replay.{Call, process_all, retry_refused}

instance abbrev texts : Texts
texts = record { trim = λ s. s; fingerprint = λ sender message time. message }

abbrev keys : Hashes (String → ℕ → Bool)
keys = record {
  seen = λ h now u. u h now;
  set_nx = λ k ttl now u.
      (not (u k now), λ h t. if same h k && not (u k now) then ltb t (now + ttl) else u h t);
  set_nx_new = λ h ttl now u. refl;
  seen_set_nx = λ h k ttl now t u. refl;
}

abbrev signals : Signals ℤ ℕ
signals = record {
  incr = λ account n. (suc n, suc n);
  expire = λ account n. n;
  set_flag = λ account count n. n;
  has_flag = λ account n. true;
  get_order = λ account amount n.
      if account == 5 && less_or_equal amount (pos 3000100) && less_or_equal (pos 3000100) amount
      then some (some 7)
      else none;
}

abbrev bank : BankParser ℤ
bank = record {
  bank_code = "KBANK";
  can_parse = λ sender message. true;
  parse = λ message.
      some (record { bank_code = "KBANK"; amount = pos 3000100; reference = ""; sender_name = "" });
  valid_senders = "KBank" ∷ [];
}

abbrev setup : Setup ℤ
setup = record {
  parsers = bank ∷ [];
  account_map = ("KBank", 5) ∷ [];
  config = default_anti_spoof_config (pos 500000000);
  rate_limit = 10;
}

abbrev calm : Failures
calm = record {
  set_nx = false;
  incr = false;
  flag = false;
  exists = false;
  store = false;
  look_up = false;
  look_up_again = false;
  verification = false;
}

abbrev no_store : Failures
no_store = record calm { store = true }

abbrev sms : Sms
sms = record { sender = "KBank"; message = "in 300.01"; received_at = 5; id = 1; now = 9 }

abbrev empty : Inbox ℤ (String → ℕ → Bool) ℕ
empty = record {
  messages = [];
  hashes = λ h t. false;
  signals = 0;
  verifications = [];
  alerts = [];
}

-- the account is flagged, and the score is 90 all the same
abbrev found : ProcessSmsResult ℤ
found = record {
  status = pending_verification;
  sms_id = 1;
  order_id = some 7;
  bank_code = "KBANK";
  amount = pos 3000100;
  confidence_score = 90;
  requires_manual_approval = false;
  verification_delay_seconds = 30;
  anomaly_detected = false;
}

abbrev other : Call ℤ
other = record { setup = setup; failures = calm; sms = record sms { message = "in 20.00" } }

-- the first call ends with the error of the store
process_sms_lost : (process_sms keys signals setup no_store sms empty).0 ≡ none
unfolding process_sms is_duplicate process_new is_known_sender find_parser check_rate_anomaly store
process_sms_lost = refl

retry_refused_example :
    let s1 =
      process_all keys signals (other ∷ []) (process_sms keys signals setup no_store sms empty).1 in
    process_sms keys signals setup calm (record sms { id = 2; now = 12 }) s1 ≡ (
      some (blank duplicate),
      record s1 { hashes = (keys.set_nx "in 300.01" duplicate_key_ttl 12 s1.hashes).1 },
    )
retry_refused_example =
    retry_refused keys signals setup setup no_store calm sms 2 12 (other ∷ []) empty refl refl refl
      (omega arith)
