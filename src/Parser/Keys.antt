-- ===== src/Parser/Keys.antt =====
-- `ProcessSMS` writes no key of a message but in the check for a duplicate.
use richpayment.Base.{ℕ, ◌≡◌, refl, ◌∙◌, Bool, not, Option, none, some, if◌then◌else◌, arith}
use richpayment.Base.Result.{Result, ok, err, Action, continue, raise_if, ◌>>=◌}
use richpayment.Decimal.{Decimal}
use richpayment.Parser.Types.{SmsMessage, ParsedTransaction, Failures, Signals, Texts, Inbox}
use richpayment.Parser.Registry.{is_known_sender, find_parser}
use richpayment.Parser.Spoof.{store_pending_verification}
use richpayment.Parser.Anomaly.{check_rate_anomaly}
use richpayment.Parser.Outcome.{
  Stop, returned, Sms, Setup, account_of, or_return, too_old_or_ahead, new_message,
}
use richpayment.Parser.Service.{
  look_up, take_message, take_recent, take_transaction, find_and_parse, rate, store_and_look_up,
  parse_message, match_order, process_new, store,
}

-- a step that leaves the keys of the messages as they are
abbrev Keeps : {E D U R A : Type 0} → Action E (Inbox D U R) A → Type 0
Keeps {D = D} {U = U} {R = R} m = (s : Inbox D U R) → (m s).1.hashes ≡ s.hashes

module _ {D U R A B : Type 0} where
  >>=_Keeps :
      (m : Action (Stop D) (Inbox D U R) A) (k : A → Action (Stop D) (Inbox D U R) B)
      → Keeps m
      → ((a : A) → Keeps (k a))
      → Keeps (m >>= k)
  >>=_Keeps m k first second s = go (m s) ∙ first s
    where
      go : (x : Result (Stop D) A × Inbox D U R) → (continue k x).1.hashes ≡ x.1.hashes
      go (ok a, s1) = second a s1
      go (err e, s1) = refl

module _ {D U R A : Type 0} where
  or_return-Keeps : (stop : Stop D) (o : Option A) → Keeps {U = U} {R = R} (or_return stop o)
  or_return-Keeps stop none s = refl
  or_return-Keeps stop (some a) s = refl

module _ {D U R : Type 0} ⦃d : Decimal D⦄ ⦃texts : Texts⦄ (signals : Signals D R) where
  rate-Keeps :
      (setup : Setup D) (f : Failures) (account : ℕ) → Keeps {U = U} (rate signals setup f account)
  unfolding check_rate_anomaly
  rate-Keeps setup f account s = ground arith

  match_order-keeps :
      (setup : Setup D) (f : Failures) (q : Sms) (p : ParsedTransaction D) (account : ℕ)
      (anomaly : Bool) (order : Option (Option ℕ)) (s : Inbox D U R)
      → (match_order signals setup f q p account anomaly order s).1.hashes ≡ s.hashes
  unfolding match_order store_pending_verification
  match_order-keeps setup f q p account anomaly none s = refl
  match_order-keeps setup f q p account anomaly (some none) s = refl
  match_order-keeps setup f q p account anomaly (some (some id)) s = ground arith

  look_up-Keeps :
      (setup : Setup D) (f : Failures) (q : Sms) (p : ParsedTransaction D) (account : ℕ)
      (anomaly : Bool)
      → Keeps {U = U} (look_up signals setup f q p account anomaly)
  look_up-Keeps setup f q p account anomaly s =
      match_order-keeps setup f q p account anomaly
        (if f.look_up then some none else signals.get_order account p.amount s.signals) s

  store-Keeps : (f : Failures) (m : SmsMessage D) → Keeps {U = U} {R = R} (store f m)
  unfolding store
  store-Keeps f m s = ground arith

  take_message-Keeps :
      (setup : Setup D) (f : Failures) (q : Sms) (p : ParsedTransaction D) (account : ℕ)
      → Keeps {U = U} (take_message signals setup f q p account)
  take_message-Keeps setup f q p account =
      >>=_Keeps (rate signals setup f account) (store_and_look_up signals setup f q p account)
        (rate-Keeps setup f account)
        (λ anomaly.
          >>=_Keeps (store f (new_message q account p))
            (λ _. look_up signals setup f q p account anomaly)
            (store-Keeps f (new_message q account p))
            (λ _. look_up-Keeps setup f q p account anomaly))

  pub process_new-Keeps :
      (setup : Setup D) (f : Failures) (q : Sms) → Keeps {U = U} (process_new signals setup f q)
  unfolding process_new
  process_new-Keeps setup f q =
      >>=_Keeps (raise_if (not (is_known_sender setup.parsers q.sender)) (returned "" d.zero))
        (λ _. take_recent signals setup f q) (λ s. refl)
        (λ _.
          >>=_Keeps (raise_if (too_old_or_ahead q) (returned "" d.zero))
            (λ _. find_and_parse signals setup f q) (λ s. refl)
            (λ _.
              >>=_Keeps
                (or_return (returned "" d.zero) (find_parser setup.parsers q.sender q.message))
                (parse_message signals setup f q)
                (or_return-Keeps _ (find_parser setup.parsers q.sender q.message))
                (λ parser.
                  >>=_Keeps (or_return (returned parser.bank_code d.zero) (parser.parse q.message))
                    (take_transaction signals setup f q)
                    (or_return-Keeps _ (parser.parse q.message))
                    (λ p.
                      >>=_Keeps
                        (or_return (returned p.bank_code p.amount)
                          (account_of setup.account_map q.sender))
                        (take_message signals setup f q p)
                        (or_return-Keeps _ (account_of setup.account_map q.sender))
                        (take_message-Keeps setup f q p)))))
