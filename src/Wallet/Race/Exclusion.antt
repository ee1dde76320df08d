-- ===== src/Wallet/Race/Exclusion.antt =====
-- The lock rules out that two calls are inside at once, in every order of their turns.
use richpayment.Base.{
  ℕ, ◌≡◌, ◌≢◌, refl, sym, Bool, true, false, Option, some, List, [], ◌∷◌, arith, Option-cases,
  Bool-cases, inl, inr,
}
use mathlib.Core.Path.{subst}
use richpayment.Base.Table.{exists_row}
use richpayment.Base.Result.{Result}
use richpayment.Decimal.{Decimal, is_positive}
use richpayment.Wallet.Types.{Db, WalletService, Error, Outage}
use richpayment.Wallet.Lock.{
  Redis, acquire_lock, release_lock, acquire_wallet_lock, release_wallet_lock,
}
use richpayment.Wallet.Repo.{Column, is_reference}
use richpayment.Wallet.Race.{
  Stage, arrived, checked, locked, leaving, finished, checks, after_acquire, advance,
}
use richpayment.Wallet.Race.Pair.{
  Call, World, Side, left_moves, right_moves, is_inside, begin, turn, step, run,
}

not_inside : (positive down old : Bool) → is_inside (checks positive down old) ≡ false
not_inside false down old = refl
not_inside true true old = refl
not_inside true false true = refl
not_inside true false false = refl

module _ {R : Type 0} ⦃redis : Redis R⦄ where
  -- Who is inside owns the key.
  abbrev Owns : Stage → ℕ → ℕ → R → Type 0
  Owns stage key value r = is_inside stage ≡ true → redis.get key r ≡ some value

  -- A turn of the call that uses `value` on `key`, with Redis left at the client `client`: it owns
  -- the key if it is inside then, and it took the key from no other.
  abbrev Fair : Stage → Option R → ℕ → ℕ → R → Type 0
  Fair stage client key value r =
      (r' : R) × (client ≡ some r')
      × Owns stage key value r'
      × ((u : ℕ) → u ≢ value → redis.get key r ≡ some u → redis.get key r' ≡ some u)

  acquire-Fair :
      (outage : Outage) (key value : ℕ) (r : R)
      → let (q, client) = acquire_wallet_lock outage key value (some r) in
        Fair (after_acquire q) client key value r
  unfolding acquire_wallet_lock acquire_lock
  acquire-Fair outage key value r = elim (Bool-cases outage.set_nx) [
    | inl down ↦ rw down (r, refl, (λ inside. cc), (λ u ne h. h))
    | inr up ↦ elim (Option-cases (redis.get key r)) [
      | inr (w, taken) ↦
          rw (up, redis.set_nx_taken key value w r taken) (r, refl, (λ inside. cc), (λ u ne h. h))
      | inl free ↦
          rw (up, redis.set_nx_free key value r free)
            (
              (redis.set_nx key value r).1,
              refl,
              (λ inside. ground (arith, redis.get_set_nx key key value r free)),
              (λ u ne h. cc (h, free)),
            )
    ]
  ]

  release-Fair :
      (outage : Outage) (key value : ℕ) (r : R) (q : Result Error (Unit {0}))
      → redis.get key r ≡ some value
      → Fair (finished q) (release_wallet_lock outage key value (some r)) key value r
  unfolding release_wallet_lock
  release-Fair outage key value r q own = (
    release_lock outage.release key value r,
    refl,
    (λ inside. cc),
    (λ u ne h. absurd (ne (cc (h, own)))),
  )

module _ {D R : Type 0} ⦃d : Decimal D⦄ ⦃column : Column D⦄ ⦃redis : Redis R⦄ where
  turn-Fair :
      (c : Call D) (stage : Stage) (db : Db D) (r : R)
      → Owns stage c.request.wallet_id c.request.lock_value r
      → let (p, s) = turn c (stage, record { db = db; redis = some r }) in
        Fair p s.redis c.request.wallet_id c.request.lock_value r
  unfolding advance
  turn-Fair c arrived db r own = (
    r,
    refl,
    (λ inside. cc (
      inside,
      not_inside (is_positive c.request.amount) c.outage.exists_query
          (exists_row (is_reference c.request.reference_id) db.ledger),
    )),
    (λ u ne h. h),
  )
  turn-Fair c checked db r own = acquire-Fair c.outage c.request.wallet_id c.request.lock_value r
  turn-Fair c locked db r own = (r, refl, (λ inside. own refl), (λ u ne h. h))
  turn-Fair c (leaving q) db r own =
      release-Fair c.outage c.request.wallet_id c.request.lock_value r q (own refl)
  turn-Fair c (finished q) db r own = (r, refl, (λ inside. cc), (λ u ne h. h))

  turn-Fair_of :
      (c : Call D) (stage : Stage) (s : WalletService D R) (key : ℕ) (r : R)
      → c.request.wallet_id ≡ key
      → s.redis ≡ some r
      → Owns stage key c.request.lock_value r
      → let (p, t) = turn c (stage, s) in Fair p t.redis key c.request.lock_value r
  turn-Fair_of c stage s key r same e =
      subst
        (λ k.
          Owns stage k c.request.lock_value r
          → let (p, t) = turn c (stage, s) in Fair p t.redis k c.request.lock_value r)
        same
        (subst
          (λ client.
            Owns stage c.request.wallet_id c.request.lock_value r
            → let (p, t) = turn c (stage, record { db = s.db; redis = client }) in
              Fair p t.redis c.request.wallet_id c.request.lock_value r)
          (sym e) (turn-Fair c stage s.db r))

  -- Two calls on one wallet: Redis is in use, and who is inside owns the wallet's key.
  record Inv (key va vb : ℕ) (w : World D R) : Type 0 where
    client : R
    connected : w.service.redis ≡ some client
    left_owns : Owns w.left key va client
    right_owns : Owns w.right key vb client

module _ {D R : Type 0} ⦃d : Decimal D⦄ ⦃column : Column D⦄ ⦃redis : Redis R⦄ (a b : Call D)
    (same : b.request.wallet_id ≡ a.request.wallet_id)
    (distinct : a.request.lock_value ≢ b.request.lock_value) where
  step-Inv :
      (x : Side) (w : World D R)
      → Inv a.request.wallet_id a.request.lock_value b.request.lock_value w
      → Inv a.request.wallet_id a.request.lock_value b.request.lock_value (step a b x w)
  unfolding step
  step-Inv left_moves w i =
      let (r, e, own, keep) =
        turn-Fair_of a w.left w.service _ i.client refl i.connected i.left_owns in
      record {
        client = r;
        connected = e;
        left_owns = own;
        right_owns =
            λ inside. keep b.request.lock_value (λ p. distinct (sym p)) (i.right_owns inside);
      }
  step-Inv right_moves w i =
      let (r, e, own, keep) =
        turn-Fair_of b w.right w.service _ i.client same i.connected i.right_owns in
      record {
        client = r;
        connected = e;
        left_owns = λ inside. keep a.request.lock_value distinct (i.left_owns inside);
        right_owns = own;
      }

  run-Inv :
      (xs : List Side) (w : World D R)
      → Inv a.request.wallet_id a.request.lock_value b.request.lock_value w
      → Inv a.request.wallet_id a.request.lock_value b.request.lock_value (run a b xs w)
  unfolding run
  run-Inv [] w i = i
  run-Inv (x ∷ xs) w i = run-Inv xs (step a b x w) (step-Inv x w i)

  -- Two calls on one wallet, with distinct lock values and Redis in use, are never inside their
  -- locks at the same time, in whatever order they take their turns and whatever fails.
  pub run_exclusive :
      (xs : List Side) (s : WalletService D R) (r : R)
      → s.redis ≡ some r
      → let w = run a b xs (begin s) in ¬ ((is_inside w.left ≡ true) × (is_inside w.right ≡ true))
  run_exclusive xs s r e (l, q) =
      let i = run-Inv xs (begin s) (record {
        client = r;
        connected = e;
        left_owns = λ inside. cc;
        right_owns = λ inside. cc;
      }) in
      distinct (cc (i.left_owns l, i.right_owns q))
