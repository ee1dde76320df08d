-- ===== src/Parser/Replay.antt =====
-- A message that comes again, after any others, with the same sender, text and time.
use richpayment.Base.{
  ℕ, ◌+◌, ◌<◌, ◌&&◌, not, Bool-cases, inl, inr, String, ◌≡◌, refl, ap, ◌∙◌, Bool, true, false, some,
  List, [], ◌∷◌, arith,
}
use richpayment.Base.Result.{Result, ok, err}
use text.Mathlib.TextEquality.{eq_iff}
use text.Mathlib.TextPositions.{eq_refl}
use richpayment.Decimal.{Decimal}
use richpayment.Parser.Types.{
  duplicate, ProcessSmsResult, Failures, Hashes, Signals, Texts, Inbox, same,
}
use richpayment.Parser.Anomaly.{duplicate_key_ttl, is_duplicate}
use richpayment.Parser.Outcome.{Stop, returned, store_failed, Sms, Setup, blank}
use richpayment.Parser.Service.{process_new, answer_of, process_sms, after_check}
use richpayment.Parser.Keys.{process_new-Keeps}

-- a call of `ProcessSMS` with what fails in it
pub record Call (D : Type 0) : Type 0 where
  pub setup : Setup D
  pub failures : Failures
  pub sms : Sms

module _ {D U R : Type 0} ⦃d : Decimal D⦄ ⦃texts : Texts⦄ (hashes : Hashes U)
    (signals : Signals D R) where
  answer_of-hashes :
      (x : Result (Stop D) (ProcessSmsResult D) × Inbox D U R) → (answer_of x).1.hashes ≡ x.1.hashes
  answer_of-hashes (ok r, s) = refl
  answer_of-hashes (err (returned code a), s) = refl
  answer_of-hashes (err store_failed, s) = refl

  after_check-hashes :
      (setup : Setup D) (f : Failures) (q : Sms) (x : Result (Unit {0}) Bool × Inbox D U R)
      → (after_check hashes signals setup f q x).1.hashes ≡ x.1.hashes
  after_check-hashes setup f q (ok true, s) = refl
  after_check-hashes setup f q (ok false, s) =
      answer_of-hashes (process_new signals setup f q s) ∙ process_new-Keeps signals setup f q s
  after_check-hashes setup f q (err _, s) =
      answer_of-hashes (process_new signals setup f q s) ∙ process_new-Keeps signals setup f q s

  -- the calls one after the other, each from the state the last one left
  abbrev pub process_all : List (Call D) → Inbox D U R → Inbox D U R
  process_all [] s = s
  process_all (c ∷ cs) s = process_all cs (process_sms hashes signals c.setup c.failures c.sms s).1

  -- the key is there until a time
  abbrev Holds : String → (until : ℕ) → U → Type 0
  Holds h until u = (t : ℕ) → t < until → hashes.seen h t u ≡ true

  set_nx-Holds :
      (h k : String) (until ttl now : ℕ) (u : U)
      → Holds h until u
      → Holds h until (hashes.set_nx k ttl now u).1
  set_nx-Holds h k until ttl now u there t soon =
      hashes.seen_set_nx h k ttl now t u
      ∙ elim (Bool-cases (same h k && not (hashes.seen k now u))) [
        | inr e ↦ rw e (there t soon)
        | inl e ↦
            let is : h ≡ k = (eq_iff h k).0 (ground arith) in
            let free : hashes.seen k now u ≡ false = ground arith in
            let was = ap (λ x. hashes.seen x now u) is ∙ free in rw e (ground (arith, there now))
      ]

  is_duplicate-Holds :
      (f : Failures) (q : Sms) (h : String) (until : ℕ) (s : Inbox D U R)
      → Holds h until s.hashes
      → Holds h until
          (is_duplicate {D = D} {R = R} hashes f q.sender q.message q.received_at q.now s).1.hashes
  unfolding is_duplicate
  is_duplicate-Holds f q h until s there t soon =
      let k = texts.fingerprint q.sender q.message q.received_at in
      ground
        (arith, there t soon, set_nx-Holds h k until duplicate_key_ttl q.now s.hashes there t soon)

  process_all-Holds :
      (cs : List (Call D)) (h : String) (until : ℕ) (s : Inbox D U R)
      → Holds h until s.hashes
      → Holds h until (process_all cs s).hashes
  unfolding process_sms
  process_all-Holds [] h until s there = there
  process_all-Holds (c ∷ cs) h until s there =
      let checked =
        is_duplicate hashes c.failures c.sms.sender c.sms.message c.sms.received_at c.sms.now s in
      process_all-Holds cs h until (process_sms hashes signals c.setup c.failures c.sms s).1
        (λ t soon.
          ap (hashes.seen h t) (after_check-hashes c.setup c.failures c.sms checked)
          ∙ is_duplicate-Holds c.failures c.sms h until s there t soon)

  process_sms-marks :
      (setup : Setup D) (f : Failures) (q : Sms) (s : Inbox D U R)
      → let k = texts.fingerprint q.sender q.message q.received_at in
        f.set_nx ≡ false
        → hashes.seen k q.now s.hashes ≡ false
        → Holds k (q.now + duplicate_key_ttl) (process_sms hashes signals setup f q s).1.hashes
  unfolding process_sms is_duplicate
  process_sms-marks setup f q s works new t soon =
      let k = texts.fingerprint q.sender q.message q.received_at in
      ap (hashes.seen k t) (
        after_check-hashes setup f q
          (is_duplicate hashes f q.sender q.message q.received_at q.now s))
      ∙ ground (arith, hashes.seen_set_nx k k duplicate_key_ttl q.now t s.hashes, eq_refl k)

  process_sms-refuses :
      (setup : Setup D) (f : Failures) (q : Sms) (s : Inbox D U R)
      → let k = texts.fingerprint q.sender q.message q.received_at in
        f.set_nx ≡ false
        → hashes.seen k q.now s.hashes ≡ true
        → process_sms hashes signals setup f q s ≡ (
          some (blank duplicate),
          record s { hashes = (hashes.set_nx k duplicate_key_ttl q.now s.hashes).1 },
        )
  unfolding process_sms is_duplicate
  process_sms-refuses setup f q s works was =
      let k = texts.fingerprint q.sender q.message q.received_at in
      let is_old = hashes.set_nx_new k duplicate_key_ttl q.now s.hashes in
      let checked : is_duplicate hashes f q.sender q.message q.received_at q.now s
          ≡ (ok true, record s { hashes = (hashes.set_nx k duplicate_key_ttl q.now s.hashes).1 }) =
        ground arith in
      ap (after_check hashes signals setup f q) checked

  -- A message that is new when it comes first and whose key reaches Redis then is refused as a
  -- duplicate when it comes again less than 24 hours later with the same sender, text and time, after
  -- any other calls: nothing but the keys is written. So it is also when the first call ended with
  -- the error of the store. (The second SETNX reaches Redis too.)
  pub retry_refused :
      (setup again : Setup D) (f g : Failures) (q : Sms) (id now : ℕ) (between : List (Call D))
      (s : Inbox D U R)
      → f.set_nx ≡ false
      → g.set_nx ≡ false
      → hashes.seen (texts.fingerprint q.sender q.message q.received_at) q.now s.hashes ≡ false
      → now < q.now + duplicate_key_ttl
      → let s1 = process_all between (process_sms hashes signals setup f q s).1 in
        let k = texts.fingerprint q.sender q.message q.received_at in
        process_sms hashes signals again g (record q { id = id; now = now }) s1 ≡ (
          some (blank duplicate),
          record s1 { hashes = (hashes.set_nx k duplicate_key_ttl now s1.hashes).1 },
        )
  retry_refused setup again f g q id now between s first second new soon =
      process_sms-refuses again g (record q { id = id; now = now })
        (process_all between (process_sms hashes signals setup f q s).1) second
        (process_all-Holds between (texts.fingerprint q.sender q.message q.received_at)
          (q.now + duplicate_key_ttl) (process_sms hashes signals setup f q s).1
          (process_sms-marks setup f q s first new) now soon)
