-- ===== src/Wallet/Mutex.antt =====
-- The Redis lock around an operation: no operation leaves it behind, and a taken lock stops one.
use richpayment.Base.{
  ℕ, ◌≡◌, refl, Bool, true, false, Option, none, some, arith, not, Option-cases, Bool-cases, inl,
  inr,
}
use richpayment.Base.Table.{exists_row}
use richpayment.Base.Result.{ok, err, Action, pure, raise_if, ◌>>=◌, ◌>>◌}
use richpayment.Decimal.{Decimal, is_positive}
use richpayment.Wallet.Types.{
  Db, WalletService, Request, Error, invalid_amount, lock_not_acquired, unavailable, Outage,
}
use richpayment.Wallet.Lock.{
  Redis, held, acquire_lock, release_lock, release_lock_script, acquire_wallet_lock,
  release_wallet_lock,
}
use richpayment.Wallet.Repo.{Column, is_reference, ledger_entry_exists_by_ref, in_tx}
use richpayment.Wallet.Service.{
  on_db, with_wallet_lock, unless, Method, credits, debits, holds, releases, credit, debit, hold,
  release, once_locked, serve,
}

module _ {R : Type 0} ⦃redis : Redis R⦄ where
  -- What is taken by the holder is given back by it, on the key and on every other.
  pub release-acquire :
      (j k v : ℕ) (r : R)
      → redis.get k r ≡ none
      → redis.get j (release_lock_script k v (redis.set_nx k v r).1) ≡ redis.get j r
  unfolding release_lock_script
  release-acquire j k v r free = ground (
    arith,
    redis.get_set_nx k k v r free,
    redis.get_set_nx j k v r free,
    redis.get_del j k (redis.set_nx k v r).1,
  )

  acquire-busy :
      (outage : Outage) (k v w : ℕ) (r : R)
      → redis.get k r ≡ some w
      → outage.set_nx ≡ false
      → acquire_wallet_lock outage k v (some r) ≡ (err lock_not_acquired, some r)
  unfolding acquire_wallet_lock acquire_lock
  acquire-busy outage k v w r taken up = ground (arith, redis.set_nx_taken k v w r taken)

  acquire-down :
      (outage : Outage) (k v : ℕ) (r : R)
      → outage.set_nx ≡ true
      → acquire_wallet_lock outage k v (some r) ≡ (err unavailable, some r)
  unfolding acquire_wallet_lock acquire_lock
  acquire-down outage k v r down = ground arith

  acquire-free :
      (outage : Outage) (k v : ℕ) (r : R)
      → redis.get k r ≡ none
      → outage.set_nx ≡ false
      → acquire_wallet_lock outage k v (some r) ≡ (ok tt, some (redis.set_nx k v r).1)
  unfolding acquire_wallet_lock acquire_lock
  acquire-free outage k v r free up = ground (arith, redis.set_nx_free k v r free)

  release-free :
      (outage : Outage) (j k v : ℕ) (r : R)
      → outage.release ≡ false
      → redis.get k r ≡ none
      → held j (release_wallet_lock outage k v (some (redis.set_nx k v r).1)) ≡ redis.get j r
  unfolding release_wallet_lock release_lock
  release-free outage j k v r up free = rw up (release-acquire j k v r free)

locked_without_redis :
    {D : Type 0} (R : Type 0) ⦃redis : Redis R⦄ (outage : Outage) (k v j : ℕ)
    (m : Action Error (Db D) (Unit {0})) (db : Db D)
    → held {R = R} j
        (with_wallet_lock outage k v (on_db m) (record { db = db; redis = none })).1.redis
      ≡ none
unfolding with_wallet_lock acquire_wallet_lock release_wallet_lock
locked_without_redis R outage k v j m db = refl

module _ {D R : Type 0} ⦃redis : Redis R⦄ where
  -- The lock keys after a locked body that touches the tables only.
  locked_held :
      (outage : Outage) (k v j : ℕ) (m : Action Error (Db D) (Unit {0})) (db : Db D)
      (client : Option R)
      → outage.release ≡ false
      → held j (with_wallet_lock outage k v (on_db m) (record { db = db; redis = client })).1.redis
        ≡ held j client
  unfolding with_wallet_lock
  locked_held outage k v j m db none kept = locked_without_redis R outage k v j m db
  locked_held outage k v j m db (some r) kept = elim (Bool-cases outage.set_nx) [
    | inl down ↦ rw (acquire-down outage k v r down) refl
    | inr up ↦ elim (Option-cases (redis.get k r)) [
      | inr (w, taken) ↦ rw (acquire-busy outage k v w r taken up) refl
      | inl free ↦ rw (acquire-free outage k v r free up) (release-free outage j k v r kept free)
    ]
  ]

  -- A wallet whose key is taken stops a locked body before it starts.
  locked_busy :
      (outage : Outage) (k v w : ℕ) (m : Action Error (Db D) (Unit {0})) (db : Db D) (r : R)
      → outage.set_nx ≡ false
      → redis.get k r ≡ some w
      → with_wallet_lock outage k v (on_db m) (record { db = db; redis = some r })
        ≡ (err lock_not_acquired, record { db = db; redis = some r })
  unfolding with_wallet_lock
  locked_busy outage k v w m db r up taken = rw (acquire-busy outage k v w r taken up)

module _ {D R : Type 0} ⦃d : Decimal D⦄ ⦃column : Column D⦄ ⦃redis : Redis R⦄ where
  held-once_locked :
      (outage : Outage) (t : Request D) (m : Action Error (Db D) (Unit {0})) (j : ℕ)
      (s : WalletService D R)
      → outage.release ≡ false
      → held j (once_locked outage t m s).1.redis ≡ held j s.redis
  unfolding once_locked ledger_entry_exists_by_ref
  held-once_locked outage t m j s kept =
      gated (is_positive t.amount) outage.exists_query
        (exists_row (is_reference t.reference_id) s.db.ledger)
    where
      gated :
          (positive down exists : Bool)
          → held j
              ((raise_if (not positive) invalid_amount
                  >> (on_db (λ db. (raise_if down unavailable >> pure exists) db) >>= λ e.
                      unless e (
                        with_wallet_lock outage t.wallet_id t.lock_value (on_db (in_tx outage m)))))
                s).1.redis
            ≡ held j s.redis
      gated false down exists = refl
      gated true true exists = refl
      gated true false true = refl
      gated true false false =
          locked_held outage t.wallet_id t.lock_value j (in_tx outage m) s.db s.redis kept

  -- Unless the release itself does not reach Redis, an operation ends, however it ends, with every
  -- lock key as it found it: it never leaves its lock behind and never takes another's away.
  pub held-serve :
      (m : Method) (outage : Outage) (t : Request D) (j : ℕ) (s : WalletService D R)
      → outage.release ≡ false
      → held j (serve m outage t s).1.redis ≡ held j s.redis
  unfolding serve credit debit hold release
  held-serve credits outage t j s kept = held-once_locked outage t _ j s kept
  held-serve debits outage t j s kept = held-once_locked outage t _ j s kept
  held-serve holds outage t j s kept = held-once_locked outage t _ j s kept
  held-serve releases outage t j s kept = held-once_locked outage t _ j s kept

  once_locked_busy :
      (outage : Outage) (t : Request D) (m : Action Error (Db D) (Unit {0})) (w : ℕ) (db : Db D)
      (r : R)
      → is_positive t.amount ≡ true
      → outage.exists_query ≡ false
      → outage.set_nx ≡ false
      → exists_row (is_reference t.reference_id) db.ledger ≡ false
      → redis.get t.wallet_id r ≡ some w
      → once_locked outage t m (record { db = db; redis = some r })
        ≡ (err lock_not_acquired, record { db = db; redis = some r })
  unfolding once_locked ledger_entry_exists_by_ref
  once_locked_busy outage t m w db r pos up set new taken =
      ground (arith, locked_busy outage t.wallet_id t.lock_value w (in_tx outage m) db r set taken)

  -- While another holder has the wallet's key, an operation on it under a new reference returns the
  -- error ErrLockNotAcquired and changes neither tables nor keys.
  pub serve_busy :
      (m : Method) (outage : Outage) (t : Request D) (w : ℕ) (db : Db D) (r : R)
      → is_positive t.amount ≡ true
      → outage.exists_query ≡ false
      → outage.set_nx ≡ false
      → exists_row (is_reference t.reference_id) db.ledger ≡ false
      → redis.get t.wallet_id r ≡ some w
      → serve m outage t (record { db = db; redis = some r })
        ≡ (err lock_not_acquired, record { db = db; redis = some r })
  unfolding serve credit debit hold release
  serve_busy credits outage t w = once_locked_busy outage t _ w
  serve_busy debits outage t w = once_locked_busy outage t _ w
  serve_busy holds outage t w = once_locked_busy outage t _ w
  serve_busy releases outage t w = once_locked_busy outage t _ w
