-- ===== src/Auth/Ended.antt =====
-- That a session that was ended stays ended.
use richpayment.Base.{
  ℕ, ◌≡◌, sym, ap, ◌∙◌, String, Bool, true, false, not, ◌&&◌, inl, inr, none, some, List, [], ◌∷◌,
  arith, if◌then◌else◌, Bool-cases,
}
use text.Mathlib.TextEquality.{eq_iff}
use richpayment.Base.Result.{Result, ok, err, drop_value-state, >>=_runs, >>=_stops}
use richpayment.Auth.Types.{
  Session, Error, session_not_found, session, same, Failures, Cache, Crypto, Site,
}
use richpayment.Auth.Session.{
  load_session, delete_session, check_session, validate_session, logout, Call, validate, totp,
  leave, run_call, run_calls,
}
use richpayment.Auth.Effect.{
  is_end, IsStored, Effect, unchanged, deleted, stored, load_session-cases, run_call-Effect,
}

abbrev pub is_done : Result Error (Unit {0}) → Bool
is_done (ok _) = true
is_done (err _) = false

abbrev pub id_of : Call → String
id_of (validate f id ip ua now) = id
id_of (totp f id secret code now) = id
id_of (leave f id) = id

module _ {R : Type 0} ⦃cache : Cache R⦄ ⦃crypto : Crypto⦄ where
  -- Redis holds every session under its own id.
  abbrev pub IsKeyed : R → Type 0
  IsKeyed r = (id : String) (x : Session) → IsStored id x r → x.id ≡ id

  Effect-IsKeyed : (r r' : R) → Effect r r' → IsKeyed r → IsKeyed r'
  Effect-IsKeyed r r' (unchanged is) keyed = rw is keyed
  Effect-IsKeyed r r' (deleted j is) keyed = λ id x there.
      let gone : (if same id j then none else cache.get (session id) r) ≡ some there.text =
        sym (cache.get_del id j r) ∙ (rw is at there.there) in
      keyed id x (record { text = there.text; there = ground arith; decoded = there.decoded })
  Effect-IsKeyed r r' (stored j x y old keeps is) keyed = λ id z there.
      let put : (if same id y.id then some (cache.encode y) else cache.get (session id) r)
          ≡ some there.text =
        sym (cache.get_set id y.id (cache.encode y) 86400 r) ∙ (rw is at there.there) in
      elim (Bool-cases (same id y.id)) [
        | inl e ↦ ground (arith, (eq_iff id y.id).0, cache.decode_encode y)
        | inr e ↦
            keyed id z (record { text = there.text; there = rw e at put; decoded = there.decoded })
      ]

  -- A call never brings back a session that is not there.
  Effect-missing :
      (r r' : R) (id : String)
      → Effect r r'
      → IsKeyed r
      → cache.get (session id) r ≡ none
      → cache.get (session id) r' ≡ none
  Effect-missing r r' id (unchanged is) keyed missing = rw is missing
  Effect-missing r r' id (deleted j is) keyed missing = rw (is, cache.get_del id j r) (ground arith)
  Effect-missing r r' id (stored j x y old keeps is) keyed missing =
      let own = keyed j x old in
      rw (is, cache.get_set id y.id (cache.encode y) 86400 r)
        (ground (arith, (eq_iff id y.id).0, own))

  -- The call ended the session of its id, and Redis took the DEL.
  abbrev pub ends : Call → Site R → Bool
  ends (validate f id ip ua now) s = not f.del && is_end (validate_session f id ip ua now s).0
  ends (totp f id secret code now) s = false
  ends (leave f id) s = is_done (logout f id s).0

  check_session-end :
      (f : Failures) (id client_ip user_agent : String) (now : ℕ) (x : Session) (s : Site R)
      → is_end (check_session f id client_ip user_agent now x s).0 ≡ true
      → (check_session f id client_ip user_agent now x s).1 ≡ delete_session f id s
  check_session-end f id client_ip user_agent now x s h = ground arith

  ends-missing :
      (c : Call) (s : Site R)
      → ends c s ≡ true
      → cache.get (session (id_of c)) (run_call c s).1.cache ≡ none
  unfolding run_call validate_session logout
  ends-missing (validate f id ip ua now) s h = elim (load_session-cases f id s) [
    | inl (e, is, w, _) ↦
        let same_end : is_end (validate_session f id ip ua now s).0 ≡ is_end (err e) =
          ap (λ p. is_end p.0)
            (>>=_stops (load_session f id) (check_session f id ip ua now) s s e is) in
        absurd (ground arith)
    | inr (x, there, is) ↦
        let runs = >>=_runs (load_session f id) (check_session f id ip ua now) s s x is in
        let ended : is_end (check_session f id ip ua now x s).0 ≡ true =
          sym (ap (λ p. is_end p.0) runs) ∙ ground arith in
        let state =
          drop_value-state (validate_session f id ip ua now s)
          ∙ ap (λ p. p.1) runs
          ∙ check_session-end f id ip ua now x s ended in
        rw state (ground (arith, cache.get_del id id s.cache, (eq_iff id id).1))
  ]
  ends-missing (totp f id secret code now) s h = absurd (ground arith)
  ends-missing (leave f id) s h = ground (arith, cache.get_del id id s.cache, (eq_iff id id).1)

  run_calls-missing :
      (cs : List Call) (id : String) (s : Site R)
      → IsKeyed s.cache
      → cache.get (session id) s.cache ≡ none
      → cache.get (session id) (run_calls cs s).cache ≡ none
  unfolding run_calls
  run_calls-missing [] id s keyed missing = missing
  run_calls-missing (c ∷ cs) id s keyed missing =
      let e = run_call-Effect c s in
      run_calls-missing cs id (run_call c s).1 (Effect-IsKeyed _ _ e keyed)
        (Effect-missing _ _ id e keyed missing)

  validate_session-missing :
      (f : Failures) (id client_ip user_agent : String) (now : ℕ) (s : Site R)
      → f.get ≡ false
      → cache.get (session id) s.cache ≡ none
      → validate_session f id client_ip user_agent now s ≡ (err session_not_found, s)
  unfolding validate_session load_session
  validate_session-missing f id client_ip user_agent now s up missing = ground arith

  -- Once a call has ended a session, by a logout that returned nil, or by a validation that found
  -- it expired or met another address or user agent and whose deletion Redis took, no later call
  -- about any session brings it back: a validation that reaches Redis answers that there is none,
  -- from any address. Redis holds every session under its own id at the start.
  pub ended_stays_ended :
      (c : Call) (cs : List Call) (s : Site R) (f : Failures) (client_ip user_agent : String)
      (now : ℕ)
      → IsKeyed s.cache
      → ends c s ≡ true
      → f.get ≡ false
      → (validate_session f (id_of c) client_ip user_agent now (run_calls cs (run_call c s).1)).0
        ≡ err session_not_found
  ended_stays_ended c cs s f client_ip user_agent now keyed h up =
      let e = run_call-Effect c s in
      let later =
        run_calls-missing cs (id_of c) (run_call c s).1 (Effect-IsKeyed _ _ e keyed)
          (ends-missing c s h) in
      ap (λ p. p.0) (validate_session-missing f (id_of c) client_ip user_agent now _ up later)
