-- ===== src/Wallet/Lock.antt =====
-- The lock of one wallet: `AcquireLock` and `ReleaseLock` of pkg/database/redis.go under
-- `acquireWalletLock` and `releaseWalletLock`. Redis itself is an interface with the documented
-- effect of GET, SET NX and DEL on each key. The key "wallet_lock:" + id is written as the id. The
-- expiry of a key is an event of its own (`del` by the server), not part of an operation.
use richpayment.Base.{ℕ, ◌≡◌, Bool, true, false, Option, none, some, ◌==◌, if◌then◌else◌}
use richpayment.Base.Result.{ok, err, Action}
use richpayment.Wallet.Types.{Error, lock_not_acquired, unavailable, Outage}

-- The value of a key, or none.
pub record Redis (R : Type 0) : Type 0 where
  pub get : ℕ → R → Option ℕ
  pub set_nx : ℕ → ℕ → R → Bool × R
  pub del : ℕ → R → R
  -- SET NX refuses a key that is there and changes nothing, and sets one that is not.
  pub set_nx_taken : (k v w : ℕ) (r : R) → get k r ≡ some w → set_nx k v r ≡ (false, r)
  pub set_nx_free : (k v : ℕ) (r : R) → get k r ≡ none → (set_nx k v r).0 ≡ true
  pub get_set_nx :
      (j k v : ℕ) (r : R)
      → get k r ≡ none
      → get j (set_nx k v r).1 ≡ (if j == k then some v else get j r)
  pub get_del : (j k : ℕ) (r : R) → get j (del k r) ≡ (if j == k then none else get j r)

module _ {R : Type 0} ⦃redis : Redis R⦄ where
  -- `AcquireLock`
  unfoldable pub acquire_lock : Bool → ℕ → ℕ → Action Error R (Unit {0})
  acquire_lock fails key value r =
      if fails
      then (err unavailable, r)
      else let (done, r') = redis.set_nx key value r in
        (if done then ok tt else err lock_not_acquired, r')

  -- `releaseLockScript`: DEL only if GET gives the holder's value
  unfoldable pub release_lock_script : ℕ → ℕ → R → R
  release_lock_script key value r = elim (redis.get key r) [
    | none ↦ r
    | some held ↦ if held == value then redis.del key r else r
  ]

  -- `ReleaseLock`, whose error `releaseWalletLock` only logs
  unfoldable pub release_lock : Bool → ℕ → ℕ → R → R
  unfolding release_lock_script
  release_lock fails key value r = if fails then r else release_lock_script key value r

  -- `acquireWalletLock`, on the client that the service has, if any
  unfoldable pub acquire_wallet_lock : Outage → ℕ → ℕ → Action Error (Option R) (Unit {0})
  unfolding acquire_lock
  acquire_wallet_lock outage wallet_id lock_value none = (ok tt, none)
  acquire_wallet_lock outage wallet_id lock_value (some r) =
      let (q, r') = acquire_lock outage.set_nx wallet_id lock_value r in (q, some r')

  -- `releaseWalletLock`
  unfoldable pub release_wallet_lock : Outage → ℕ → ℕ → Option R → Option R
  unfolding release_lock
  release_wallet_lock outage wallet_id lock_value none = none
  release_wallet_lock outage wallet_id lock_value (some r) =
      some (release_lock outage.release wallet_id lock_value r)

  -- The value under a wallet's lock key; without Redis there is none.
  abbrev pub held : ℕ → Option R → Option ℕ
  held key none = none
  held key (some r) = redis.get key r
