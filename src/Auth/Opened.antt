-- ===== src/Auth/Opened.antt =====
-- A session that a login opened, and its validation.
use richpayment.Base.{ℕ, ◌+◌, ◌<◌, ◌≡◌, sym, ◌∙◌, false, Option, none, some, arith}
use mathlib.Core.Path.{subst}
use text.Mathlib.TextEquality.{eq_iff}
use richpayment.Base.Result.{ok, >>=_ok, >>=_runs}
use richpayment.Auth.Types.{User, Session, session, Failures, Cache, Crypto, Site}
use richpayment.Auth.Repo.{find_user_by_email}
use richpayment.Auth.Service.{
  LoginRequest, hash_user_agent, give_back, new_session, store_session, open_session, check_login,
  login_user, login_found, login_known, login, limit_ip,
}
use richpayment.Auth.Session.{load_session, check_session, validate_session}

module _ {R : Type 0} ⦃cache : Cache R⦄ ⦃crypto : Crypto⦄ where
  open_session-ok :
      (f : Failures) (q : LoginRequest) (user : User) (s s' : Site R) (x : Session) (n : ℕ)
      → n < 86400
      → open_session f q user s ≡ (ok x, s')
      → (x ≡ new_session q user)
        × (cache.get (session x.id) (cache.wait n s'.cache) ≡ some (cache.encode x))
  unfolding open_session store_session
  open_session-ok f q user s s' x n soon h = ground (
    arith,
    cache.get_wait_set q.session_id q.session_id (cache.encode (new_session q user)) 86400 n
        (give_back f q.client_ip s).1.cache,
    (eq_iff q.session_id q.session_id).1,
  )

  login_user-ok :
      (f : Failures) (q : LoginRequest) (user : User) (s s' : Site R) (x : Session) (n : ℕ)
      → n < 86400
      → login_user f q user s ≡ (ok x, s')
      → (x ≡ new_session q user)
        × (cache.get (session x.id) (cache.wait n s'.cache) ≡ some (cache.encode x))
  unfolding login_user
  login_user-ok f q user s s' x n soon h =
      let (_, middle, _, rest) =
        >>=_ok (check_login f q user) (λ _. open_session f q user) s s' x h in
      open_session-ok f q user middle s' x n soon rest

  login_found-ok :
      (f : Failures) (q : LoginRequest) (found : Option User) (s s' : Site R) (x : Session) (n : ℕ)
      → n < 86400
      → login_found f q found s ≡ (ok x, s')
      → (user : User) × (x ≡ new_session q user)
        × (cache.get (session x.id) (cache.wait n s'.cache) ≡ some (cache.encode x))
  login_found-ok f q none s s' x n soon h = absurd (ground arith)
  login_found-ok f q (some user) s s' x n soon h =
      let (is, there) = login_user-ok f q user s s' x n soon h in (user, is, there)

  login-ok :
      (f : Failures) (q : LoginRequest) (s s' : Site R) (x : Session) (n : ℕ)
      → n < 86400
      → login f q s ≡ (ok x, s')
      → (user : User) × (x ≡ new_session q user)
        × (cache.get (session x.id) (cache.wait n s'.cache) ≡ some (cache.encode x))
  unfolding login
  login-ok f q s s' x n soon h =
      let (_, counted, _, rest) = >>=_ok (limit_ip f q.client_ip) (λ _. login_known f q) s s' x h in
      let (found, middle, _, last) =
        >>=_ok (find_user_by_email f q.email q.user_type) (login_found f q) counted s' x rest in
      login_found-ok f q found middle s' x n soon last

  check_session-passes :
      (f : Failures) (q : LoginRequest) (user : User) (n : ℕ) (s : Site R)
      → n < 86400
      → check_session f q.session_id q.client_ip q.user_agent (q.now + n) (new_session q user) s
        ≡ (ok (new_session q user), s)
  check_session-passes f q user n s soon = ground (
    arith,
    (eq_iff q.client_ip q.client_ip).1,
    (eq_iff (hash_user_agent q.user_agent) (hash_user_agent q.user_agent)).1,
  )

  -- the service so many seconds later, if nobody calls
  abbrev pub later : ℕ → Site R → Site R
  later n s = record s { cache = cache.wait n s.cache }

  -- The session that a successful login returns is valid for 24 hours from the same address and
  -- user agent: a validation less than 86,400 seconds after the login that reaches Redis finds it
  -- there, returns it as it was opened and changes nothing. (No other call comes between them.)
  pub login_validates :
      (f : Failures) (q : LoginRequest) (s s' : Site R) (x : Session) (g : Failures) (n : ℕ)
      → login f q s ≡ (ok x, s')
      → g.get ≡ false
      → n < 86400
      → validate_session g x.id q.client_ip q.user_agent (q.now + n) (later n s')
        ≡ (ok x, later n s')
  unfolding validate_session load_session
  login_validates f q s s' x g n h up soon =
      let (user, is, there) = login-ok f q s s' x n soon h in
      let loaded : load_session g x.id (later n s') ≡ (ok x, later n s') =
        ground (arith, there, cache.decode_encode x) in
      >>=_runs (load_session g x.id) (check_session g x.id q.client_ip q.user_agent (q.now + n))
        (later n s') (later n s') x loaded
      ∙ subst
          (λ (y : Session).
            check_session g y.id q.client_ip q.user_agent (q.now + n) y (later n s')
            ≡ (ok y, later n s'))
          (sym is) (check_session-passes g q user n (later n s') soon)
