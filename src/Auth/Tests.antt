-- ===== src/Auth/Tests.antt =====
-- The theorems on the auth service at concrete inputs: Redis as two functions, the session itself
-- as the bytes that Redis holds, and a hash that is the password.
use richpayment.Base.{
  ℕ, ◌+◌, ◌-◌, ltb, ◌≤◌, ◌≡◌, refl, String, true, false, Option, none, some, [], ◌∷◌, arith,
  if◌then◌else◌,
}
use text.Mathlib.TextEquality.{eq_iff}
use richpayment.Base.Result.{ok, err}
use richpayment.Base.Budget.{total}
use richpayment.Decimal.Fixed.{ℤ, pos, negsuc}
use richpayment.Auth.Permissions.{role_permissions}
use richpayment.Auth.Types.{
  UserType-discrete, merchant, Session, Account, Key, session, login_ratelimit, same,
  session_not_found, Failures, Cache, Crypto, Site,
}
use richpayment.Auth.Repo.{
  user_of, update_failed_attempts, reset_failed_attempts, find_user_by_email,
}
use richpayment.Auth.Service.{
  LoginRequest, new_session, record_failed_attempt, limit_ip, store_session, open_session,
  check_login, login_user, login,
}
use richpayment.Auth.Session.{
  load_session, logout, validate_session, validate_totp_for_session, validate, totp, leave,
  run_call, run_calls,
}
use richpayment.Auth.Lockout.{step, is_guess, attempts_at_most_five}
use richpayment.Auth.Effect.{IsStored}
use richpayment.Auth.Ended.{ended_stays_ended}
use richpayment.Auth.TotpLimit.{Try, try_step, is_wrong_try, tries_at_most_three}
use richpayment.Auth.Opened.{later, login_validates}

abbrev Memory : Type 0
Memory = (String → ℤ) × (String → Option (Session × ℕ))

abbrev next : ℤ → ℤ
next (pos n) = pos (n + 1)
next (negsuc n) = pos 0

abbrev memory_incr : Key → Memory → ℤ × Memory
memory_incr (session id) m = (pos 0, m)
memory_incr (login_ratelimit ip) m =
    (next (m.0 ip), (λ j. if same j ip then next (m.0 ip) else m.0 j, m.1))

-- the value of a key with the seconds that it is kept
abbrev value_of : Option (Session × ℕ) → Option Session
value_of none = none
value_of (some (x, left)) = some x

abbrev aged : ℕ → Option (Session × ℕ) → Option (Session × ℕ)
aged n none = none
aged n (some (x, left)) = if ltb n left then some (x, left - n) else none

abbrev memory_wait : ℕ → Memory → Memory
memory_wait n m = (m.0, λ j. aged n (m.1 j))

abbrev memory_get : Key → Memory → Option Session
memory_get (session id) m = value_of (m.1 id)
memory_get (login_ratelimit ip) m = none

abbrev memory_put : Key → Option (Session × ℕ) → Memory → Memory
memory_put (session id) v m = (m.0, λ j. if same j id then v else m.1 j)
memory_put (login_ratelimit ip) v m = m

memory-get_set :
    (a b : String) (v : Session) (seconds : ℕ) (m : Memory)
    → memory_get (session a) (memory_put (session b) (some (v, seconds)) m)
      ≡ (if same a b then some v else memory_get (session a) m)
memory-get_set a b v seconds m = ground arith

memory-get_wait_set :
    (a b : String) (v : Session) (seconds n : ℕ) (m : Memory)
    → memory_get (session a) (memory_wait n (memory_put (session b) (some (v, seconds)) m)) ≡ (
        if same a b
        then (if ltb n seconds then some v else none)
        else memory_get (session a) (memory_wait n m))
memory-get_wait_set a b v seconds n m = ground arith

memory-get_del :
    (a b : String) (m : Memory)
    → memory_get (session a) (memory_put (session b) none m)
      ≡ (if same a b then none else memory_get (session a) m)
memory-get_del a b m = ground arith

instance abbrev memory : Cache Memory
memory = record {
  Bytes = Session;
  encode = λ s. s;
  decode = λ s. some s;
  decode_encode = λ s. refl;
  incr = memory_incr;
  decr = λ k m. m;
  expire = λ k seconds m. m;
  ttl = λ k m. pos 60;
  get = memory_get;
  set = λ k v seconds m. memory_put k (some (v, seconds)) m;
  del = λ k m. memory_put k none m;
  wait = memory_wait;
  get_set = memory-get_set;
  get_wait_set = memory-get_wait_set;
  get_del = memory-get_del;
}

instance abbrev crypto : Crypto
crypto = record {
  password_matches = same;
  totp_valid = λ secret code now. same secret code;
  sha256 = λ s. [];
  hex_encode = λ bytes. "00";
}

abbrev calm : Failures
calm = record {
  find = false;
  update = false;
  reset = false;
  incr = false;
  expire = false;
  ttl = false;
  decr = false;
  get = false;
  set = false;
  del = false;
}

-- four wrong passwords so far
abbrev account : Account
account = record {
  id = 1;
  email = "a@b.c";
  password_hash = "secret";
  totp_secret_enc = none;
  role_mask = 0;
  is_active = true;
  locked_until = none;
  failed_attempts = 4;
  created_at = 0;
  updated_at = 0;
}

abbrev attempt : String → ℕ → LoginRequest
attempt password now = record {
  email = "a@b.c";
  password = password;
  totp_code = "";
  user_type = merchant;
  client_ip = "10.0.0.1";
  user_agent = "curl";
  session_id = "s1";
  now = now;
}

abbrev opened_session : Session
opened_session = new_session (attempt "secret" 100) (user_of merchant account)

abbrev site : Site Memory
site = record {
  tables = λ t. account ∷ [];
  cache = (λ ip. pos 0, λ j. if same j "s1" then some (opened_session, 86400) else none);
}

-- what a run at concrete values computes with
ran : ℕ
unfolding login login_user check_login open_session limit_ip store_session find_user_by_email
    record_failed_attempt update_failed_attempts reset_failed_attempts UserType-discrete
    role_permissions
ran = 0

site-own : (id : String) (x : Session) → IsStored id x site.cache → x.id ≡ id
site-own id x there = ground (arith, (eq_iff id "s1").0, there.there, there.decoded)

-- the fifth wrong password, which locks, and a right one while the account is locked
attempts_at_most_five_example :
    total step is_guess ((calm, attempt "guess" 1000) ∷ (calm, attempt "secret" 1800) ∷ []) site ≤ 5
unfolding ran
attempts_at_most_five_example =
    attempts_at_most_five "a@b.c" merchant 1000 account site
      ((calm, attempt "guess" 1000) ∷ (calm, attempt "secret" 1800) ∷ []) refl
      (
        (refl, refl, omega arith, omega arith, refl, refl),
        ((refl, refl, omega arith, omega arith, refl, refl), tt),
      )

login_validates_example :
    validate_session calm "s1" "10.0.0.1" "curl" 86499
      (later 86399 (login calm (attempt "secret" 100) site).1)
    ≡ (ok opened_session, later 86399 (login calm (attempt "secret" 100) site).1)
unfolding ran
login_validates_example =
    login_validates calm (attempt "secret" 100) site (login calm (attempt "secret" 100) site).1
      opened_session calm 86399 refl refl (omega arith)

-- another address ends the session
ended_stays_ended_example :
    (validate_session calm "s1" "10.0.0.1" "curl" 202 (
      run_calls
        (totp calm "s1" "123" "123" 201 ∷ leave calm "s2" ∷ [])
        (run_call (validate calm "s1" "10.0.0.2" "curl" 200) site).1)).0
    ≡ err session_not_found
unfolding run_call run_calls validate_session validate_totp_for_session load_session logout
    store_session
ended_stays_ended_example =
    ended_stays_ended (validate calm "s1" "10.0.0.2" "curl" 200)
      (totp calm "s1" "123" "123" 201 ∷ leave calm "s2" ∷ []) site calm "10.0.0.1" "curl" 202
      site-own refl refl

abbrev wrong_code : ℕ → Try
wrong_code now = record { failures = calm; secret = "123456"; code = "000000"; now = now }

tries_at_most_three_example :
    total (try_step "s1") (is_wrong_try "s1") (wrong_code 110 ∷ wrong_code 120 ∷ []) site ≤ 3
unfolding validate_totp_for_session load_session store_session
tries_at_most_three_example =
    tries_at_most_three "s1" 100 site (wrong_code 110 ∷ wrong_code 120 ∷ []) (site-own "s1")
      ((omega arith, omega arith, refl), ((omega arith, omega arith, refl), tt))
