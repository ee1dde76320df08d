-- ===== src/Auth/Session.antt =====
-- `ValidateSession`, `ValidateTOTPForSession` and `Logout` of
-- services/auth/internal/service/auth.go.
use richpayment.Base.{
  ℕ, ◌+◌, String, Bool, not, ◌&&◌, none, some, List, [], ◌∷◌, ltb, leb, if◌then◌else◌,
}
use richpayment.Base.Result.{Result, ok, err, Action, pure, raise_if, drop_value, ◌>>=◌, ◌>>◌}
use richpayment.Auth.Types.{
  Session, Error, session_locked, invalid_totp, cache_failed, session_not_found, bad_session,
  session_expired, ip_mismatch, agent_mismatch, session, same, Failures, Cache, Crypto, Site,
}
use richpayment.Auth.Service.{hash_user_agent, store_session}

abbrev pub totp_locked : Session → ℕ → Bool
totp_locked x now = elim x.totp_locked_until [ none ↦ Bool.false | some until ↦ ltb now until ]

abbrev pub unset_totp : Session → Session
unset_totp x = record x { totp_failures = 0; totp_locked_until = none }

-- the third failure locks for 5 minutes
abbrev pub fail_totp : ℕ → Session → Session
fail_totp now x = record x {
  totp_failures = x.totp_failures + 1;
  totp_locked_until = if leb 3 (x.totp_failures + 1) then some (now + 300) else x.totp_locked_until;
}

-- both known and not the same
abbrev pub differ : String → String → Bool
differ stored given = not (same stored "") && not (same given "") && not (same stored given)

module _ ⦃crypto : Crypto⦄ where
  abbrev pub agent_differs : Session → String → Bool
  agent_differs x user_agent =
      not (same x.user_agent_hash "")
      && not (same user_agent "")
      && not (same x.user_agent_hash (hash_user_agent user_agent))

module _ {R : Type 0} ⦃cache : Cache R⦄ where
  -- GET and `json.Unmarshal`
  unfoldable pub load_session : Failures → String → Action Error (Site R) Session
  load_session f id s =
      let answer : Result Error Session = elim (cache.get (session id) s.cache) [
        | none ↦ err session_not_found
        | some text ↦ elim (cache.decode text) [ none ↦ err bad_session | some x ↦ ok x ]
      ] in
      (if f.get then err cache_failed else answer, s)

  -- DEL
  abbrev pub delete_session : Failures → String → Site R → Site R
  delete_session f id s = if f.del then s else record s { cache = cache.del (session id) s.cache }

  abbrev pub drop_if : Bool → Error → Failures → String → Action Error (Site R) (Unit {0})
  drop_if bad e f id s = (if bad then err e else ok tt, if bad then delete_session f id s else s)

  -- `Logout`
  unfoldable pub logout : Failures → String → Action Error (Site R) (Unit {0})
  logout f id s =
      let answer : Result Error (Unit {0}) = elim (cache.get (session id) s.cache) [
        | none ↦ err session_not_found
        | some _ ↦ ok tt
      ] in
      (if f.del then err cache_failed else answer, delete_session f id s)

module _ {R : Type 0} ⦃cache : Cache R⦄ ⦃crypto : Crypto⦄ where
  -- the checks of `ValidateSession` on the session it has read
  abbrev pub check_session :
      Failures → (id client_ip user_agent : String) → ℕ → Session → Action Error (Site R) Session
  check_session f id client_ip user_agent now x = do
    drop_if (ltb x.expires_at now) session_expired f id
    drop_if (differ x.client_ip client_ip) ip_mismatch f id
    drop_if (agent_differs x user_agent) agent_mismatch f id
    pure x

  -- `ValidateSession`
  unfoldable pub validate_session :
      Failures → (id client_ip user_agent : String) → ℕ → Action Error (Site R) Session
  validate_session f id client_ip user_agent now = do
    x ← load_session f id
    check_session f id client_ip user_agent now x

  -- `ValidateTOTPForSession` on the session it has read
  abbrev pub check_code :
      Failures → (secret code : String) → ℕ → Session → Action Error (Site R) (Unit {0})
  check_code f secret code now x = do
    raise_if (totp_locked x now) (session_locked x.totp_locked_until)
    store_session f (if crypto.totp_valid secret code now then unset_totp x else fail_totp now x)
    raise_if (not (crypto.totp_valid secret code now)) invalid_totp

  -- `ValidateTOTPForSession`
  unfoldable pub validate_totp_for_session :
      Failures → (id secret code : String) → ℕ → Action Error (Site R) (Unit {0})
  validate_totp_for_session f id secret code now = do
    x ← load_session f id
    check_code f secret code now x

-- A call about a session.
pub data Call : Type 0 where
  validate : Failures → (id client_ip user_agent : String) → (now : ℕ) → Call
  totp : Failures → (id secret code : String) → (now : ℕ) → Call
  leave : Failures → (id : String) → Call

module _ {R : Type 0} ⦃cache : Cache R⦄ ⦃crypto : Crypto⦄ where
  unfoldable pub run_call : Call → Action Error (Site R) (Unit {0})
  run_call (validate f id client_ip user_agent now) s =
      drop_value (validate_session f id client_ip user_agent now s)
  run_call (totp f id secret code now) s = validate_totp_for_session f id secret code now s
  run_call (leave f id) s = logout f id s

  -- the calls one after the other, each whatever the one before returned
  unfoldable pub run_calls : List Call → Site R → Site R
  run_calls [] s = s
  run_calls (c ∷ cs) s = run_calls cs (run_call c s).1
