-- ===== src/Parser/Steps.antt =====
-- The way of a message through `ProcessSMS` up to the look-up of its order.
use richpayment.Base.{ℕ, ◌≡◌, refl, ap, ◌∙◌, Bool, true, false, not, Option, none, some, arith}
use richpayment.Base.Result.{Result, ok, err, >>=_ok, raise_if, Action, ◌>>=◌}
use richpayment.Decimal.{Decimal}
use richpayment.Parser.Types.{
  ProcessSmsResult, ParsedTransaction, Failures, Hashes, Signals, Texts, Inbox,
}
use richpayment.Parser.Registry.{is_known_sender, find_parser}
use richpayment.Parser.Outcome.{
  Stop, returned, store_failed, Sms, Setup, account_of, or_return, too_old_or_ahead, new_message,
}
use richpayment.Parser.Service.{
  look_up, take_message, take_recent, take_transaction, find_and_parse, rate, store_and_look_up,
  parse_message, process_new, answer_of, after_check, store,
}

abbrev some_or : {A : Type 0} → A → Option A → A
some_or a none = a
some_or a (some b) = b

module _ {D U R A B : Type 0} ⦃d : Decimal D⦄ where
  or_return_ok :
      (early : Stop D) (o : Option A) (k : A → Action (Stop D) (Inbox D U R) B) (s s' : Inbox D U R)
      (b : B)
      → (or_return early o >>= k) s ≡ (ok b, s')
      → (a : A) × (k a s ≡ (ok b, s'))
  or_return_ok early none k s s' b runs = ground (arith, ap (λ x. x.0) runs)
  or_return_ok early (some a) k s s' b runs = (a, runs)

module _ {D U R : Type 0} ⦃d : Decimal D⦄ ⦃texts : Texts⦄ (signals : Signals D R) where
  raise_if_ok :
      (fine : Bool) (e : Stop D) (s s' : Inbox D U R) {b : Unit {0}}
      → raise_if {S = Inbox D U R} (not fine) e s ≡ (ok b, s')
      → fine ≡ true
  raise_if_ok true e s s' runs = refl
  raise_if_ok false e s s' runs = ground (arith, ap (λ x. x.0) runs)

  -- The look-up that a call with a result ends with.
  pub process_new-looks_up :
      (setup : Setup D) (f : Failures) (q : Sms) (s s' : Inbox D U R) (r : ProcessSmsResult D)
      → process_new signals setup f q s ≡ (ok r, s')
      → (is_known_sender setup.parsers q.sender ≡ true)
        × (p : ParsedTransaction D) × (account : ℕ) × (anomaly : Bool) × (s1 : Inbox D U R)
        × (look_up signals setup f q p account anomaly s1 ≡ (ok r, s'))
  unfolding process_new
  process_new-looks_up setup f q s s' r runs =
      let guard = raise_if (not (is_known_sender setup.parsers q.sender)) (returned "" d.zero) in
      let (_, t0, passes, recent) = >>=_ok guard (λ _. take_recent signals setup f q) s s' r runs in
      let (b1, t1, _, found) =
        >>=_ok (raise_if (too_old_or_ahead q) (returned "" d.zero))
          (λ _. find_and_parse signals setup f q) t0 s' r recent in
      let (parser, parsed) =
        or_return_ok (returned "" d.zero) (find_parser setup.parsers q.sender q.message)
          (parse_message signals setup f q) t1 s' r found in
      let (p, mapped) =
        or_return_ok (returned parser.bank_code d.zero) (parser.parse q.message)
          (take_transaction signals setup f q) t1 s' r parsed in
      let (account, taken) =
        or_return_ok (returned p.bank_code p.amount) (account_of setup.account_map q.sender)
          (take_message signals setup f q p) t1 s' r mapped in
      let (anomaly, t2, _, kept) =
        >>=_ok (rate signals setup f account) (store_and_look_up signals setup f q p account) t1 s'
          r taken in
      let (b2, t3, _, looks) =
        >>=_ok (store f (new_message q account p))
          (λ _. look_up signals setup f q p account anomaly) t2 s' r kept in
      (
        raise_if_ok (is_known_sender setup.parsers q.sender) (returned "" d.zero) s t0 passes,
        p,
        account,
        anomaly,
        t3,
        looks,
      )

module _ {D U R : Type 0} ⦃d : Decimal D⦄ ⦃texts : Texts⦄ (hashes : Hashes U)
    (signals : Signals D R) where
  answer_of-ok :
      (x : Result (Stop D) (ProcessSmsResult D) × Inbox D U R) (r : ProcessSmsResult D) (id : ℕ)
      → (answer_of x).0 ≡ some r
      → r.order_id ≡ some id
      → (s' : Inbox D U R) × (x ≡ (ok r, s'))
  answer_of-ok (ok r', s) r id runs found = (s, ap (λ o. (ok (some_or r o), s)) runs)
  answer_of-ok (err (returned code a), s) r id runs found =
      ground (arith, ap (λ o. (some_or r o).order_id) runs ∙ found)
  answer_of-ok (err store_failed, s) r id runs found = ground (arith, runs)

  pub after_check-new :
      (setup : Setup D) (f : Failures) (q : Sms) (x : Result (Unit {0}) Bool × Inbox D U R)
      (r : ProcessSmsResult D) (id : ℕ)
      → (after_check hashes signals setup f q x).0 ≡ some r
      → r.order_id ≡ some id
      → (s1 s' : Inbox D U R) × (process_new signals setup f q s1 ≡ (ok r, s'))
  after_check-new setup f q (ok true, s) r id runs found =
      ground (arith, ap (λ o. (some_or r o).order_id) runs ∙ found)
  after_check-new setup f q (ok false, s) r id runs found =
      let (s', e) = answer_of-ok (process_new signals setup f q s) r id runs found in (s, s', e)
  after_check-new setup f q (err _, s) r id runs found =
      let (s', e) = answer_of-ok (process_new signals setup f q s) r id runs found in (s, s', e)
