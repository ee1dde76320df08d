-- ===== src/Auth/Effect.antt =====
-- What a call about a session does to Redis.
use richpayment.Base.{
  ℕ, ◌≡◌, refl, ap, ◌∙◌, String, Bool, true, false, ◌⊎◌, inl, inr, some, arith, ltb, if◌then◌else◌,
  Bool-cases, Option-cases,
}
use richpayment.Base.Result.{Result, ok, err, drop_value-state, >>=_runs}
use richpayment.Auth.Types.{
  Session, Error, invalid_totp, session_expired, ip_mismatch, agent_mismatch, session_not_found,
  bad_session, cache_failed, session, Failures, Cache, Crypto, Site,
}
use richpayment.Auth.Service.{store_session}
use richpayment.Auth.Session.{
  totp_locked, unset_totp, fail_totp, differ, agent_differs, load_session, delete_session,
  check_session, validate_session, check_code, validate_totp_for_session, logout, Call, validate,
  totp, leave, run_call,
}

-- the answers after which the session is deleted
abbrev pub is_end : Result Error Session → Bool
is_end (err session_expired) = true
is_end (err ip_mismatch) = true
is_end (err agent_mismatch) = true
is_end _ = false

abbrev pub is_wrong_code : Result Error (Unit {0}) → Bool
is_wrong_code (err invalid_totp) = true
is_wrong_code _ = false

module _ {R : Type 0} ⦃cache : Cache R⦄ where
  -- A session that is read under an id.
  pub record IsStored (id : String) (x : Session) (r : R) : Type 0 where
    pub text : cache.Bytes
    pub there : cache.get (session id) r ≡ some text
    pub decoded : cache.decode text ≡ some x

  pub data Effect (r r' : R) : Type 0 where
    unchanged : r' ≡ r → Effect r r'
    deleted : (id : String) → r' ≡ cache.del (session id) r → Effect r r'
    stored :
        (id : String) (x y : Session)
        → IsStored id x r
        → y.id ≡ x.id
        → r' ≡ cache.set (session y.id) (cache.encode y) 86400 r
        → Effect r r'

  pub load_session-cases :
      (f : Failures) (id : String) (s : Site R)
      → ((e : Error) × (load_session f id s ≡ (err e, s))
          × (is_end (err e) ≡ false)
          × (is_wrong_code (err e) ≡ false))
        ⊎ (x : Session) × IsStored id x s.cache × (load_session f id s ≡ (ok x, s))
  unfolding load_session
  load_session-cases f id s = elim (Bool-cases f.get) [
    | inl e ↦ inl (cache_failed, ground arith, refl, refl)
    | inr e ↦ elim (Option-cases (cache.get (session id) s.cache)) [
      | inl o ↦ inl (session_not_found, ground arith, refl, refl)
      | inr (text, o) ↦ elim (Option-cases (cache.decode text)) [
        | inl d ↦ inl (bad_session, ground arith, refl, refl)
        | inr (x, d) ↦ inr (x, record { text = text; there = o; decoded = d }, ground arith)
      ]
    ]
  ]

module _ {R : Type 0} ⦃cache : Cache R⦄ ⦃crypto : Crypto⦄ where
  pub check_session-cache :
      (f : Failures) (id client_ip user_agent : String) (now : ℕ) (x : Session) (s : Site R)
      → ((check_session f id client_ip user_agent now x s).1 ≡ s)
        ⊎ ((check_session f id client_ip user_agent now x s).1 ≡ delete_session f id s)
  check_session-cache f id client_ip user_agent now x s = elim (Bool-cases (ltb x.expires_at now)) [
    | inl a ↦ inr (ground arith)
    | inr a ↦ elim (Bool-cases (differ x.client_ip client_ip)) [
      | inl b ↦ inr (ground arith)
      | inr b ↦ elim (Bool-cases (agent_differs x user_agent)) [
        | inl c ↦ inr (ground arith)
        | inr c ↦ inl (ground arith)
      ]
    ]
  ]

  delete_session-Effect :
      (f : Failures) (id : String) (s : Site R) → Effect s.cache (delete_session f id s).cache
  delete_session-Effect f id s = elim (Bool-cases f.del) [
    | inl e ↦ unchanged (ground arith)
    | inr e ↦ deleted id (ground arith)
  ]

  check_code-Effect :
      (f : Failures) (id secret code : String) (now : ℕ) (x : Session) (s : Site R)
      → IsStored id x s.cache
      → Effect s.cache (check_code f secret code now x s).1.cache
  unfolding store_session
  check_code-Effect f id secret code now x s there =
      let y = if crypto.totp_valid secret code now then unset_totp x else fail_totp now x in
      let keeps : y.id ≡ x.id = ground arith in
      elim (Bool-cases (totp_locked x now)) [
        | inl a ↦ unchanged (ground arith)
        | inr a ↦ elim (Bool-cases f.set) [
          | inl b ↦ unchanged (ground arith)
          | inr b ↦ stored id x y there keeps (ground arith)
        ]
      ]

  pub run_call-Effect : (c : Call) (s : Site R) → Effect s.cache (run_call c s).1.cache
  unfolding run_call validate_session validate_totp_for_session logout
  run_call-Effect (validate f id ip ua now) s = elim (load_session-cases f id s) [
    | inl (e, is, _, _) ↦ unchanged (ground arith)
    | inr (x, there, is) ↦
        let runs =
          drop_value-state (validate_session f id ip ua now s)
          ∙ ap (λ p. p.1) (>>=_runs (load_session f id) (check_session f id ip ua now) s s x is) in
        elim (check_session-cache f id ip ua now x s) [
          | inl stays ↦ unchanged (ap (λ (z : Site R). z.cache) (runs ∙ stays))
          | inr drop ↦ rw (runs ∙ drop) (delete_session-Effect f id s)
        ]
  ]
  run_call-Effect (totp f id secret code now) s = elim (load_session-cases f id s) [
    | inl (e, is, _, _) ↦ unchanged (ground arith)
    | inr (x, there, is) ↦
        rw (>>=_runs (load_session f id) (check_code f secret code now) s s x is)
          (check_code-Effect f id secret code now x s there)
  ]
  run_call-Effect (leave f id) s = elim (Bool-cases f.del) [
    | inl e ↦ unchanged (ground arith)
    | inr e ↦ deleted id (ground arith)
  ]
