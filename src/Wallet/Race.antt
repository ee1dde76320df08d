-- ===== src/Wallet/Race.antt =====
-- Two requests at once. Between its checks and its lock, and between its lock and its transaction,
-- a call of wallet.go gives way to other calls; `advance` runs one call to the next such point.
-- Transactions on one row exclude each other (SELECT … FOR UPDATE), so each is one step.
pub mod Pair
pub mod Exclusion
pub mod Twice
use richpayment.Base.{
  ℕ, ◌≡◌, refl, Bool, true, false, Option, some, none, List, [], ◌∷◌, not, if◌then◌else◌, arith,
}
use richpayment.Base.Table.{find_row, exists_row}
use richpayment.Base.Result.{Result, ok, err, Action, pure, raise_if, ◌>>=◌, ◌>>◌}
use richpayment.Decimal.{Decimal, is_positive, less_or_equal}
use richpayment.Wallet.Types.{
  Db, WalletService, Request, Error, invalid_amount, unavailable, Outage,
}
use richpayment.Wallet.Lock.{Redis, acquire_wallet_lock, release_wallet_lock}
use richpayment.Wallet.Repo.{Column, is_reference, ledger_entry_exists_by_ref, in_tx}
use richpayment.Wallet.Service.{
  on_db, run_locked, unlock, with_wallet_lock, unless, once_locked, Method, credits, debits, holds,
  releases, credit, debit, hold, release, tx_of, serve,
}

-- Where a call stands: before its checks, past them, with its lock, with its transaction over and
-- the lock still taken, or back with a result.
pub data Stage : Type 0 where
  arrived checked locked : Stage
  leaving finished : Result Error (Unit {0}) → Stage

-- Steps 0 and 1, on the outcome of the three tests: the amount is positive, the look-up of the
-- reference is not answered, the reference is there
abbrev pub checks : Bool → Bool → Bool → Stage
checks false down old = finished (err invalid_amount)
checks true true old = finished (err unavailable)
checks true false true = finished (ok tt)
checks true false false = checked

abbrev pub after_acquire : Result Error (Unit {0}) → Stage
after_acquire (ok _) = locked
after_acquire (err e) = finished (err e)

module _ {D R : Type 0} ⦃d : Decimal D⦄ ⦃column : Column D⦄ ⦃redis : Redis R⦄
    (body : Action Error (Db D) (Unit {0})) where
  -- The call with the arguments `r` and the transaction `body`, up to its next point.
  unfoldable pub advance :
      Outage → Request D → Stage × WalletService D R → Stage × WalletService D R
  advance outage r (arrived, s) = (
    checks (is_positive r.amount) outage.exists_query
        (exists_row (is_reference r.reference_id) s.db.ledger),
    s,
  )
  advance outage r (checked, s) =
      let (q, redis') = acquire_wallet_lock outage r.wallet_id r.lock_value s.redis in
      (after_acquire q, record s { redis = redis' })
  advance outage r (locked, s) = let (q, s') = on_db (in_tx outage body) s in (leaving q, s')
  advance outage r (leaving q, s) =
      (finished q, record s { redis = release_wallet_lock outage r.wallet_id r.lock_value s.redis })
  advance outage r (finished q, s) = (finished q, s)

  -- What is left to do of a call that has passed its checks.
  advance_checked :
      (outage : Outage) (r : Request D) (s : WalletService D R)
      → let run = advance outage r in
        let (q, t) =
          with_wallet_lock outage r.wallet_id r.lock_value (on_db (in_tx outage body)) s in
        run (run (run (checked, s))) ≡ (finished q, t)
  unfolding advance with_wallet_lock
  advance_checked outage r s =
      let (q, redis') = acquire_wallet_lock outage r.wallet_id r.lock_value s.redis in go redis' q
    where
      go :
          (redis' : Option R) (q : Result Error (Unit {0}))
          → let run = advance outage r in
            let (p, t) =
              run_locked outage r.wallet_id r.lock_value
                (on_db (in_tx outage body))
                q
                (record s { redis = redis' }) in
            run (run (after_acquire q, record s { redis = redis' })) ≡ (finished p, t)
      go redis' (ok _) = refl
      go redis' (err e) = refl

  -- A call that runs alone, point by point, is the operation.
  advance-once_locked :
      (outage : Outage) (r : Request D) (s : WalletService D R)
      → let run = advance outage r in
        let (q, t) = once_locked outage r body s in
        run (run (run (run (arrived, s)))) ≡ (finished q, t)
  unfolding advance once_locked ledger_entry_exists_by_ref
  advance-once_locked outage r s =
      go (is_positive r.amount) outage.exists_query
        (exists_row (is_reference r.reference_id) s.db.ledger)
    where
      go :
          (positive down old : Bool)
          → let run = advance outage r in
            let (p, t) =
              (raise_if (not positive) invalid_amount
                  >> (on_db (λ db. (raise_if down unavailable >> pure old) db) >>= λ e. unless e (
                      with_wallet_lock outage r.wallet_id r.lock_value
                        (on_db (in_tx outage body)))))
                s in
            run (run (run (checks positive down old, s))) ≡ (finished p, t)
      go false down old = refl
      go true true old = refl
      go true false true = refl
      go true false false = advance_checked outage r s
