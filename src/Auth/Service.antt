-- ===== src/Auth/Service.antt =====
-- `Login` of services/auth/internal/service/auth.go. A call reads the clock once.
use richpayment.Base.{
  ℕ, ◌+◌, String, Bool, false, not, ◌&&◌, Option, none, some, ◌==◌, ltb, leb, if◌then◌else◌,
}
use richpayment.Base.Result.{ok, err, Action, pure, raise, raise_if, ◌>>=◌, ◌>>◌}
use richpayment.Decimal.Fixed.{ℤ, pos, negsuc}
use richpayment.Auth.Types.{
  UserType, User, Session, Error, too_many_attempts, account_locked, invalid_credentials,
  account_disabled, totp_required, invalid_totp, cache_failed, session, login_ratelimit, same,
  Failures, Cache, Crypto, Site,
}
use richpayment.Auth.Permissions.{role_permissions}
use richpayment.Auth.Repo.{update_failed_attempts, reset_failed_attempts, find_user_by_email}

pub record LoginRequest : Type 0 where
  pub email : String
  pub password : String
  pub totp_code : String
  pub user_type : UserType
  pub client_ip : String
  pub user_agent : String
  -- of the session that a success opens
  pub session_id : String
  pub now : ℕ

module _ {R : Type 0} where
  -- `recordFailedAttempt`: the fifth failure locks for 15 minutes
  unfoldable pub record_failed_attempt :
      Failures → User → UserType → ℕ → Action Error (Site R) (Unit {0})
  unfolding update_failed_attempts
  record_failed_attempt f user t now s =
      let attempts = user.failed_attempts + 1 in
      let locked_until = if leb 5 attempts then some (now + 900) else none in
      update_failed_attempts f user.id t attempts locked_until now s

  -- the branch of a wrong password or code
  abbrev pub refuse_if :
      Bool → Error → Failures → User → UserType → ℕ → Action Error (Site R) (Unit {0})
  refuse_if bad e f user t now s =
      let (recorded, s') = record_failed_attempt f user t now s in
      (if bad then elim recorded [ ok _ ↦ err e | err x ↦ err x ] else ok tt, if bad then s' else s)

abbrev pub is_locked : User → ℕ → Bool
is_locked user now = elim user.locked_until [ none ↦ false | some until ↦ ltb now until ]

abbrev pub is_one : ℤ → Bool
is_one (pos n) = n == 1
is_one (negsuc n) = false

-- more than maxLoginAttemptsPerIP
abbrev pub is_over : ℤ → Bool
is_over (pos n) = ltb 10 n
is_over (negsuc n) = false

-- what is left of the window, or all of it
abbrev pub retry_after : ℤ → ℤ
retry_after (pos n) = if n == 0 then pos 3600 else pos n
retry_after (negsuc n) = pos 3600

module _ ⦃crypto : Crypto⦄ where
  -- `hashUserAgent`
  abbrev pub hash_user_agent : String → String
  hash_user_agent ua = crypto.hex_encode (crypto.sha256 ua)

  -- the session that `Login` opens; a zero mask takes the role's
  abbrev pub new_session : LoginRequest → User → Session
  new_session q user = record {
    id = q.session_id;
    user_id = user.id;
    email = user.email;
    user_type = q.user_type;
    role = user.role;
    role_mask = if user.role_mask == 0 then role_permissions user.role else user.role_mask;
    created_at = q.now;
    expires_at = q.now + 86400;
    client_ip = q.client_ip;
    user_agent_hash = hash_user_agent q.user_agent;
    totp_failures = 0;
    totp_locked_until = none;
  }

  -- the code of a user with a second factor
  abbrev pub check_totp :
      {R : Type 0} → Failures → LoginRequest → User → Action Error (Site R) (Unit {0})
  check_totp f q user s =
      if user.totp_enabled
      then (if same q.totp_code ""
          then (err totp_required, s)
          else refuse_if (not (crypto.totp_valid user.totp_secret q.totp_code q.now)) invalid_totp f
              user q.user_type q.now s)
      else (ok tt, s)

module _ {R : Type 0} ⦃cache : Cache R⦄ where
  -- INCR, and EXPIRE on the first request of a window
  abbrev pub count_request : Failures → String → R → ℤ × R
  count_request f ip r =
      let (count, r') = cache.incr (login_ratelimit ip) r in
      (
        count,
        if is_one count && not f.expire then cache.expire (login_ratelimit ip) 3600 r' else r',
      )

  -- the rate limit of an address; without Redis the request is allowed
  unfoldable pub limit_ip : Failures → String → Action Error (Site R) (Unit {0})
  limit_ip f ip s =
      let (count, r) = count_request f ip s.cache in
      let left = if f.ttl then pos 0 else cache.ttl (login_ratelimit ip) r in
      let answer = if is_over count then err (too_many_attempts (retry_after left)) else ok tt in
      (if f.incr then ok tt else answer, if f.incr then s else record s { cache = r })

  -- the DECR after a success
  abbrev pub give_back : Failures → String → Action Error (Site R) (Unit {0})
  give_back f ip s =
      (ok tt, if f.decr then s else record s { cache = cache.decr (login_ratelimit ip) s.cache })

  -- `storeSession`
  unfoldable pub store_session : Failures → Session → Action Error (Site R) (Unit {0})
  store_session f x s =
      if f.set
      then (err cache_failed, s)
      else (ok tt, record s { cache = cache.set (session x.id) (cache.encode x) 86400 s.cache })

module _ {R : Type 0} ⦃cache : Cache R⦄ ⦃crypto : Crypto⦄ where
  -- the end of `Login`
  unfoldable pub open_session : Failures → LoginRequest → User → Action Error (Site R) Session
  open_session f q user = do
    give_back f q.client_ip
    store_session f (new_session q user)
    pure (new_session q user)

  -- the checks of `Login` on an account that was found, and the reset of its counter
  unfoldable pub check_login : Failures → LoginRequest → User → Action Error (Site R) (Unit {0})
  check_login f q user = do
    raise_if (not user.is_active) account_disabled
    raise_if (is_locked user q.now) (account_locked user.locked_until)
    refuse_if (not (crypto.password_matches user.password_hash q.password)) invalid_credentials f
        user q.user_type q.now
    check_totp f q user
    reset_failed_attempts f user.id q.user_type q.now

  unfoldable pub login_user : Failures → LoginRequest → User → Action Error (Site R) Session
  unfolding check_login
  login_user f q user = do check_login f q user; open_session f q user

  abbrev pub login_found : Failures → LoginRequest → Option User → Action Error (Site R) Session
  login_found f q none = raise invalid_credentials
  login_found f q (some user) = login_user f q user

  -- `Login` after the rate limit
  abbrev pub login_known : Failures → LoginRequest → Action Error (Site R) Session
  login_known f q = do found ← find_user_by_email f q.email q.user_type; login_found f q found

  -- `Login`
  unfoldable pub login : Failures → LoginRequest → Action Error (Site R) Session
  login f q = do limit_ip f q.client_ip; login_known f q
