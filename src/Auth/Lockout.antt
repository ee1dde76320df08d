-- ===== src/Auth/Lockout.antt =====
-- The lock-out of an account: how many wrong passwords and codes are looked at in 15 minutes.
use richpayment.Base.{
  ℕ, suc, ◌+◌, ◌≤◌, ◌<◌, ◌≡◌, refl, sym, String, Bool, false, some, inl, inr, Bool-cases, ◌⊎◌, List,
  arith, if◌then◌else◌,
}
use mathlib.Core.Path.{subst}
use richpayment.Base.Table.{find_row, find_row-update_rows}
use richpayment.Base.Result.{Result}
use richpayment.Base.Budget.{total, Along, total_bounded}
use richpayment.Auth.Types.{UserType, Session, Account, Error, Failures, Cache, Crypto, Site}
use richpayment.Auth.Repo.{has_email, is_account, user_of}
use richpayment.Auth.Service.{LoginRequest, is_locked, login_user, login}
use richpayment.Auth.Refusal.{
  is_wrong, is_ok, failed_row, login_user-wrong, login_user-else, login-cases,
}

lt_or_ge : (m n : ℕ) → (m < n) ⊎ (n ≤ m)
lt_or_ge m n = omega arith

module _ {R : Type 0} ⦃cache : Cache R⦄ ⦃crypto : Crypto⦄ where
  abbrev pub step : Failures × LoginRequest → Site R → Site R
  step c s = (login c.0 c.1 s).1

  abbrev pub is_guess : Failures × LoginRequest → Site R → Bool
  is_guess c s = is_wrong (login c.0 c.1 s).0

  -- An attempt at the account within the 15 minutes after `start` that does not succeed. Redis
  -- takes sessions.
  abbrev pub IsAttempt : String → UserType → ℕ → Failures × LoginRequest → Site R → Type 0
  IsAttempt email t start (f, q) s =
      (q.email ≡ email)
      × (q.user_type ≡ t)
      × (start ≤ q.now)
      × (q.now < start + 900)
      × (f.set ≡ false)
      × (is_ok (login f q s).0 ≡ false)

  abbrev pub Counted : String → UserType → ℕ → ℕ → Site R → Type 0
  Counted email t start n s =
      (n ≤ 5)
      × (a : Account) × (find_row (has_email email) (s.tables t) ≡ some a)
      × (n ≤ a.failed_attempts)
      × (5 ≤ n → (until : ℕ) × (a.locked_until ≡ some until) × (start + 900 ≤ until))

  -- One more wrong answer.
  failed_row-Counted :
      (q : LoginRequest) (start n : ℕ) (s' : Site R) (a : Account)
      → n ≤ 5
      → n ≤ a.failed_attempts
      → (5 ≤ n → (until : ℕ) × (a.locked_until ≡ some until) × (start + 900 ≤ until))
      → start ≤ q.now
      → q.now < start + 900
      → is_locked (user_of q.user_type a) q.now ≡ false
      → find_row (has_email q.email) (s'.tables q.user_type) ≡ some (failed_row q.now a)
      → Counted q.email q.user_type start (suc n) s'
  failed_row-Counted q start n s' a le few lock after before free found =
      let less : n < 5 = elim (lt_or_ge n 5) [
        | inl l ↦ l
        | inr g ↦ let (until, is, far) = lock g in absurd (ground arith)
      ] in
      (
        omega arith,
        failed_row q.now a,
        found,
        omega arith,
        λ five. (q.now + 900, ground arith, omega arith),
      )

  -- the invariant after a call with this outcome
  abbrev After : String → UserType → ℕ → ℕ → Result Error Session × Site R → Type 0
  After email t start n p = Counted email t start (if is_wrong p.0 then suc n else n) p.1

  step-Counted :
      (email : String) (t : UserType) (start : ℕ) (c : Failures × LoginRequest) (n : ℕ) (s : Site R)
      → IsAttempt email t start c s
      → Counted email t start n s
      → Counted email t start (if is_guess c s then suc n else n) (step c s)
  step-Counted email t start (f, q) n s (e, u, after, before, up, fails) (le, a, there, few, lock) =
      let found : find_row (has_email q.email) (s.tables q.user_type) ≡ some a = rw (e, u) there in
      let (x, cases) = login-cases f q a s found in
      elim cases [
        | inl (y, is, w) ↦ subst (After email t start n) (sym is) (rw w (le, a, there, few, lock))
        | inr is ↦
            let mid = record s { cache = x } in
            let user = user_of q.user_type a in
            elim (Bool-cases (is_wrong (login_user f q user mid).0)) [
              | inl h ↦
                  let (free, now) = login_user-wrong f q user mid h in
                  let row : find_row (has_email q.email)
                        ((login_user f q user mid).1.tables q.user_type)
                      ≡ some (failed_row q.now a) =
                    rw now (
                      find_row-update_rows (has_email q.email) (is_account a.id) _ a
                        (s.tables q.user_type) (λ x. refl) found (ground arith)) in
                  let done =
                    failed_row-Counted q start n (login_user f q user mid).1 a le few lock after
                      before free row in
                  subst (After email t start n) (sym is) (rw (h, sym e, sym u) done)
              | inr h ↦
                  let now = login_user-else f q user mid h (rw is at fails) up in
                  subst (After email t start n) (sym is)
                    (rw h (le, a, rw (sym e, sym u) (rw now found), few, lock))
            ]
      ]

  -- Over any sequence of attempts at one account in 15 minutes of which none succeeds, from any
  -- addresses and in any order, at most five are answered as a wrong password or a wrong code,
  -- whatever the account's counter was before; the account exists and Redis takes sessions.
  pub attempts_at_most_five :
      (email : String) (t : UserType) (start : ℕ) (a : Account) (s : Site R)
      (attempts : List (Failures × LoginRequest))
      → find_row (has_email email) (s.tables t) ≡ some a
      → Along step is_guess (IsAttempt email t start) attempts s
      → total step is_guess attempts s ≤ 5
  attempts_at_most_five email t start a s attempts found good = omega (
    arith,
    total_bounded step is_guess (IsAttempt email t start) (Counted email t start) 5 (λ n s c. c.0)
        (step-Counted email t start) attempts 0 s good
        (omega arith, a, found, omega arith, λ five. absurd (omega arith)),
  )
