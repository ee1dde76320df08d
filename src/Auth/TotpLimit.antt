-- ===== src/Auth/TotpLimit.antt =====
-- The limit on wrong codes for one session: `ValidateTOTPForSession`.
use richpayment.Base.{
  ℕ, suc, ◌+◌, ◌≤◌, ◌<◌, ◌≡◌, sym, ap, ◌∙◌, String, Bool, true, false, ◌⊎◌, inl, inr, some, List,
  arith, if◌then◌else◌, Bool-cases,
}
use mathlib.Core.Path.{subst}
use text.Mathlib.TextEquality.{eq_iff}
use richpayment.Base.Result.{Result, ok, err, >>=_runs, >>=_stops}
use richpayment.Base.Budget.{total, Along, total_bounded}
use richpayment.Auth.Types.{Session, Error, session, Failures, Cache, Crypto, Site}
use richpayment.Auth.Service.{store_session}
use richpayment.Auth.Session.{
  totp_locked, fail_totp, load_session, check_code, validate_totp_for_session,
}
use richpayment.Auth.Effect.{is_wrong_code, IsStored, load_session-cases}

-- A try of a code: the secret and the code, and the time.
pub record Try : Type 0 where
  pub failures : Failures
  pub secret : String
  pub code : String
  pub now : ℕ

abbrev pub accepts : Result Error (Unit {0}) → Bool
accepts (ok _) = true
accepts (err _) = false

-- The session after `n` wrong codes of the window: `n` are on its counter, and with the third it
-- is locked past the window.
pub record Tried (id : String) (start n : ℕ) (x : Session) : Type 0 where
  pub own : x.id ≡ id
  pub few : n ≤ x.totp_failures
  pub lock : 3 ≤ n → (until : ℕ) × (x.totp_locked_until ≡ some until) × (start + 300 ≤ until)

lt_or_ge : (m n : ℕ) → (m < n) ⊎ (n ≤ m)
lt_or_ge m n = omega arith

fail_totp-Tried :
    (id : String) (start n : ℕ) (t : Try) (x : Session)
    → n < 3
    → start ≤ t.now
    → Tried id start n x
    → Tried id start (suc n) (fail_totp t.now x)
fail_totp-Tried id start n t x less after tried = record {
  own = tried.own;
  few = omega (arith, tried.few);
  lock = λ three. (t.now + 300, ground (arith, tried.few), omega arith);
}

module _ {R : Type 0} ⦃cache : Cache R⦄ ⦃crypto : Crypto⦄ where
  abbrev pub answer : String → Try → Site R → Result Error (Unit {0}) × Site R
  answer id t s = validate_totp_for_session t.failures id t.secret t.code t.now s

  abbrev pub try_step : String → Try → Site R → Site R
  try_step id t s = (answer id t s).1

  abbrev pub is_wrong_try : String → Try → Site R → Bool
  is_wrong_try id t s = is_wrong_code (answer id t s).0

  -- A try within 5 minutes of `start` that is not accepted.
  abbrev pub IsTry : String → ℕ → Try → Site R → Type 0
  IsTry id start t s = (start ≤ t.now) × (t.now < start + 300) × (accepts (answer id t s).0 ≡ false)

  abbrev pub TriesLeft : String → ℕ → ℕ → Site R → Type 0
  TriesLeft id start n s = (n ≤ 3) × ((x : Session) → IsStored id x s.cache → Tried id start n x)

  check_code-wrong :
      (t : Try) (x : Session) (s : Site R)
      → is_wrong_code (check_code t.failures t.secret t.code t.now x s).0 ≡ true
      → (totp_locked x t.now ≡ false)
        × ((check_code t.failures t.secret t.code t.now x s).1.cache
            ≡ cache.set (session x.id) (cache.encode (fail_totp t.now x)) 86400 s.cache)
  unfolding store_session
  check_code-wrong t x s h = ground arith

  check_code-else :
      (t : Try) (x : Session) (s : Site R)
      → is_wrong_code (check_code t.failures t.secret t.code t.now x s).0 ≡ false
      → accepts (check_code t.failures t.secret t.code t.now x s).0 ≡ false
      → (check_code t.failures t.secret t.code t.now x s).1 ≡ s
  unfolding store_session
  check_code-else t x s h n = ground arith

  -- what is stored after a wrong code
  stored-fail_totp :
      (id : String) (t : Try) (x y : Session) (s s' : Site R)
      → x.id ≡ id
      → s'.cache ≡ cache.set (session x.id) (cache.encode (fail_totp t.now x)) 86400 s.cache
      → IsStored id y s'.cache
      → y ≡ fail_totp t.now x
  stored-fail_totp id t x y s s' own is there = ground (
    arith,
    cache.get_set id x.id (cache.encode (fail_totp t.now x)) 86400 s.cache,
    (eq_iff id x.id).1,
    cache.decode_encode (fail_totp t.now x),
    there.there,
    there.decoded,
  )

  -- the invariant after a try with this outcome
  abbrev After : String → ℕ → ℕ → Result Error (Unit {0}) × Site R → Type 0
  After id start n p = TriesLeft id start (if is_wrong_code p.0 then suc n else n) p.1

  check_code-After :
      (id : String) (start n : ℕ) (t : Try) (x : Session) (s : Site R)
      → start ≤ t.now
      → t.now < start + 300
      → accepts (check_code t.failures t.secret t.code t.now x s).0 ≡ false
      → IsStored id x s.cache
      → TriesLeft id start n s
      → After id start n (check_code t.failures t.secret t.code t.now x s)
  check_code-After id start n t x s after before fails there (le, left) =
      let tried = left x there in
      elim (Bool-cases (is_wrong_code (check_code t.failures t.secret t.code t.now x s).0)) [
        | inr h ↦
            rw h (subst (TriesLeft id start n) (sym (check_code-else t x s h fails)) (le, left))
        | inl h ↦
            let (free, cache_is) = check_code-wrong t x s h in
            let less : n < 3 = elim (lt_or_ge n 3) [
              | inl l ↦ l
              | inr g ↦ let (until, is, far) = tried.lock g in absurd (ground arith)
            ] in
            let s' = (check_code t.failures t.secret t.code t.now x s).1 in
            rw h (
              omega arith,
              λ y there'.
                  subst (Tried id start (suc n))
                    (sym (stored-fail_totp id t x y s s' tried.own cache_is there'))
                    (fail_totp-Tried id start n t x less after tried),
            )
      ]

  try_step-TriesLeft :
      (id : String) (start : ℕ) (t : Try) (n : ℕ) (s : Site R)
      → IsTry id start t s
      → TriesLeft id start n s
      → After id start n (answer id t s)
  unfolding validate_totp_for_session
  try_step-TriesLeft id start t n s (after, before, fails) left =
      elim (load_session-cases t.failures id s) [
        | inl (e, is, _, w) ↦
            subst (After id start n)
              (sym (
                >>=_stops (load_session t.failures id) (check_code t.failures t.secret t.code t.now)
                  s s e is))
              (rw w left)
        | inr (x, there, is) ↦
            let runs =
              >>=_runs (load_session t.failures id) (check_code t.failures t.secret t.code t.now) s
                s x is in
            subst (After id start n) (sym runs) (
              check_code-After id start n t x s after before
                (sym (ap (λ p. accepts p.0) runs) ∙ fails) there left)
      ]

  -- Over any sequence of codes tried for one session within 5 minutes of which none is accepted, at
  -- most three are answered as wrong, whatever the session's counter was before; the session is
  -- stored under its own id.
  pub tries_at_most_three :
      (id : String) (start : ℕ) (s : Site R) (tries : List Try)
      → ((x : Session) → IsStored id x s.cache → x.id ≡ id)
      → Along (try_step id) (is_wrong_try id) (IsTry id start) tries s
      → total (try_step id) (is_wrong_try id) tries s ≤ 3
  tries_at_most_three id start s tries own good = omega (
    arith,
    total_bounded (try_step id) (is_wrong_try id) (IsTry id start) (TriesLeft id start) 3
        (λ n s c. c.0) (try_step-TriesLeft id start) tries 0 s good
        (
          omega arith,
          λ x there. record {
            own = own x there;
            few = omega arith;
            lock = λ three. absurd (omega arith);
          },
        ),
  )
