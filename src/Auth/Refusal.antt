-- ===== src/Auth/Refusal.antt =====
-- What `Login` does to the row of an account that is there.
use richpayment.Base.{
  ℕ, ◌+◌, ◌≡◌, refl, String, Bool, true, false, none, some, inl, inr, Bool-cases, ◌⊎◌, ◌∙◌, arith,
  leb, if◌then◌else◌,
}
use richpayment.Base.Table.{find_row, update_rows}
use richpayment.Base.Result.{Result, ok, err, >>=_runs, >>=_stops}
use richpayment.Decimal.Fixed.{ℤ, pos}
use richpayment.Auth.Types.{
  UserType, UserType-discrete, User, Session, Account, Error, invalid_credentials,
  unknown_user_type, db_failed, invalid_totp, Failures, Cache, too_many_attempts, login_ratelimit,
  Crypto, Site,
}
use richpayment.Auth.Repo.{
  has_email, is_account, is_unknown, user_of, update_failed_attempts, reset_failed_attempts,
  find_user_by_email,
}
use richpayment.Auth.Service.{
  LoginRequest, is_locked, record_failed_attempt, limit_ip, store_session, open_session,
  check_login, login_user, login_found, login_known, login, is_over, count_request, retry_after,
}

-- the answers to a wrong password or code
abbrev pub is_wrong : Result Error Session → Bool
is_wrong (ok _) = false
is_wrong (err invalid_credentials) = true
is_wrong (err invalid_totp) = true
is_wrong (err _) = false

abbrev pub is_ok : Result Error Session → Bool
is_ok (ok _) = true
is_ok (err _) = false

-- the row after one more failure
abbrev pub failed_row : ℕ → Account → Account
failed_row now a = record a {
  failed_attempts = a.failed_attempts + 1;
  locked_until = if leb 5 (a.failed_attempts + 1) then some (now + 900) else none;
  updated_at = now;
}

module _ {R : Type 0} ⦃cache : Cache R⦄ ⦃crypto : Crypto⦄ where
  pub login_user-wrong :
      (f : Failures) (q : LoginRequest) (user : User) (s : Site R)
      → is_wrong (login_user f q user s).0 ≡ true
      → (is_locked user q.now ≡ false)
        × ((login_user f q user s).1.tables q.user_type
            ≡ update_rows
                (is_account user.id)
                (λ x. record x {
                  failed_attempts = user.failed_attempts + 1;
                  locked_until =
                      if leb 5 (user.failed_attempts + 1) then some (q.now + 900) else none;
                  updated_at = q.now;
                })
                (s.tables q.user_type))
  unfolding login_user record_failed_attempt update_failed_attempts reset_failed_attempts
      store_session UserType-discrete open_session check_login
  login_user-wrong f q user s h = ground arith

  pub login_user-else :
      (f : Failures) (q : LoginRequest) (user : User) (s : Site R)
      → is_wrong (login_user f q user s).0 ≡ false
      → is_ok (login_user f q user s).0 ≡ false
      → f.set ≡ false
      → (login_user f q user s).1.tables q.user_type ≡ s.tables q.user_type
  unfolding login_user record_failed_attempt update_failed_attempts reset_failed_attempts
      store_session UserType-discrete open_session check_login
  login_user-else f q user s h n st = ground arith

  limit_ip-cases :
      (f : Failures) (ip : String) (s : Site R)
      → ((x : R) × (limit_ip f ip s ≡ (ok tt, record s { cache = x })))
        ⊎ (r : ℤ) × (x : R) × (limit_ip f ip s
            ≡ (err (too_many_attempts r), record s { cache = x }))
  unfolding limit_ip
  limit_ip-cases f ip s =
      let (count, r) = count_request f ip s.cache in
      let left = if f.ttl then pos 0 else cache.ttl (login_ratelimit ip) r in
      elim (Bool-cases f.incr) [
        | inl e ↦ inl (s.cache, ground arith)
        | inr e ↦ elim (Bool-cases (is_over count)) [
          | inl o ↦ inr (retry_after left, r, ground arith)
          | inr o ↦ inl (r, ground arith)
        ]
      ]

  find_user-cases :
      (f : Failures) (email : String) (t : UserType) (a : Account) (s : Site R)
      → find_row (has_email email) (s.tables t) ≡ some a
      → (find_user_by_email f email t s ≡ (ok (some (user_of t a)), s))
        ⊎ (e : Error) × (find_user_by_email f email t s ≡ (err e, s)) × (is_wrong (err e) ≡ false)
  unfolding find_user_by_email
  find_user-cases f email t a s found = elim (Bool-cases (is_unknown t)) [
    | inl e ↦ inr (unknown_user_type, ground arith, refl)
    | inr e ↦ elim (Bool-cases f.find) [
      | inl o ↦ inr (db_failed, ground arith, refl)
      | inr o ↦ inl (ground arith)
    ]
  ]

  -- `login` on an account that is there stops before it or runs on it.
  pub login-cases :
      (f : Failures) (q : LoginRequest) (a : Account) (s : Site R)
      → find_row (has_email q.email) (s.tables q.user_type) ≡ some a
      → (x : R) × (((e : Error) × (login f q s ≡ (err e, record s { cache = x }))
            × (is_wrong (err e) ≡ false))
          ⊎ (login f q s ≡ login_user f q (user_of q.user_type a) (record s { cache = x })))
  unfolding login
  login-cases f q a s found = elim (limit_ip-cases f q.client_ip s) [
    | inr (r, x, e) ↦ (
      x,
      inl (
        too_many_attempts r,
        >>=_stops (limit_ip f q.client_ip) (λ _. login_known f q) s _ _ e,
        refl,
      ),
    )
    | inl (x, e) ↦ elim (find_user-cases f q.email q.user_type a (record s { cache = x }) found) [
      | inl u ↦ (
        x,
        inr (
            >>=_runs (limit_ip f q.client_ip) (λ _. login_known f q) s _ _ e
            ∙ >>=_runs (find_user_by_email f q.email q.user_type) (login_found f q) _ _ _ u),
      )
      | inr (y, u, w) ↦ (
        x,
        inl (
          y,
          >>=_runs (limit_ip f q.client_ip) (λ _. login_known f q) s _ _ e
              ∙ >>=_stops (find_user_by_email f q.email q.user_type) (login_found f q) _ _ _ u,
          w,
        ),
      )
    ]
  ]
