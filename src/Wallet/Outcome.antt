-- ===== src/Wallet/Outcome.antt =====
-- How an operation of the wallet service ends: it fails, it is skipped as already done, or its
-- transaction commits. Every property of the operations goes through this split.
use richpayment.Base.{Option, ◌≡◌, refl, Bool, true, false, if◌then◌else◌, not}
use richpayment.Base.Table.{exists_row}
use richpayment.Base.Result.{Result, ok, err, Action, pure, raise_if, ◌>>=◌, ◌>>◌}
use richpayment.Decimal.{Decimal, is_positive}
use richpayment.Wallet.Types.{
  Db, WalletService, Request, Error, invalid_amount, unavailable, Outage,
}
use richpayment.Wallet.Lock.{Redis, acquire_wallet_lock}
use richpayment.Wallet.Repo.{Column, is_reference, ledger_entry_exists_by_ref, settle, in_tx}
use richpayment.Wallet.Service.{
  on_db, run_locked, with_wallet_lock, unless, once_locked, Method, credits, debits, holds,
  releases, credit, debit, hold, release, tx_of, serve,
}

-- A transaction on the tables `db`: it fails and leaves them, or leaves what its body made.
pub data TxEnding {D A : Type 0} (body : Action Error (Db D) A) (db : Db D)
    : Result Error A × Db D → Type 0 where
  rolled_back : (e : Error) → TxEnding body db (err e, db)
  committed : (a : A) (db' : Db D) → body db ≡ (ok a, db') → TxEnding body db (ok a, db')

settle-TxEnding :
    {D A : Type 0} (outage : Outage) (body : Action Error (Db D) A) (db : Db D)
    (q : Result Error A × Db D)
    → body db ≡ q
    → TxEnding body db (settle outage db q)
settle-TxEnding outage body db (ok a, db') h = go outage.commit
  where
    go : (b : Bool) → TxEnding body db (if b then (err unavailable, db) else (ok a, db'))
    go true = rolled_back unavailable
    go false = committed a db' h
settle-TxEnding outage body db (err e, db') h = rolled_back e

pub in_tx-TxEnding :
    {D A : Type 0} (outage : Outage) (body : Action Error (Db D) A) (db : Db D)
    → TxEnding body db (in_tx outage body db)
unfolding in_tx
in_tx-TxEnding outage body db = go outage.begin
  where
    go :
        (b : Bool)
        → TxEnding body db (if b then (err unavailable, db) else settle outage db (body db))
    go true = rolled_back unavailable
    go false = settle-TxEnding outage body db (body db) refl

-- An operation with the arguments `r` on the tables `db`.
pub data Ending {D : Type 0} ⦃d : Decimal D⦄ (r : Request D) (body : Action Error (Db D) (Unit {0}))
    (db : Db D) : Result Error (Unit {0}) × Db D → Type 0 where
  failed : (e : Error) → Ending r body db (err e, db)
  skipped :
      is_positive r.amount ≡ true
      → exists_row (is_reference r.reference_id) db.ledger ≡ true
      → Ending r body db (ok tt, db)
  done :
      (db' : Db D)
      → is_positive r.amount ≡ true
      → exists_row (is_reference r.reference_id) db.ledger ≡ false
      → body db ≡ (ok tt, db')
      → Ending r body db (ok tt, db')

-- What is left of a call when the lock is put aside.
abbrev pub seen : {D R A : Type 0} → Result Error A × WalletService D R → Result Error A × Db D
seen (r, s) = (r, s.db)

module _ {D : Type 0} ⦃d : Decimal D⦄ where
  tx-Ending :
      (r : Request D) (body : Action Error (Db D) (Unit {0})) (db : Db D)
      {q : Result Error (Unit {0}) × Db D}
      → is_positive r.amount ≡ true
      → exists_row (is_reference r.reference_id) db.ledger ≡ false
      → TxEnding body db q
      → Ending r body db q
  tx-Ending r body db pos new (rolled_back e) = failed e
  tx-Ending r body db pos new (committed a db' h) = done db' pos new h

module _ {D R : Type 0} ⦃d : Decimal D⦄ ⦃redis : Redis R⦄ where
  locked-Ending :
      (outage : Outage) (r : Request D) (body : Action Error (Db D) (Unit {0}))
      (s : WalletService D R)
      → is_positive r.amount ≡ true
      → exists_row (is_reference r.reference_id) s.db.ledger ≡ false
      → Ending r body s.db
          (seen (with_wallet_lock outage r.wallet_id r.lock_value (on_db (in_tx outage body)) s))
  unfolding with_wallet_lock
  locked-Ending outage r body s pos new =
      let (q, redis') = acquire_wallet_lock outage r.wallet_id r.lock_value s.redis in go redis' q
    where
      go :
          (redis' : Option R) (q : Result Error (Unit {0}))
          → Ending r body s.db (
              seen (
                run_locked outage r.wallet_id r.lock_value
                  (on_db (in_tx outage body))
                  q
                  (record s { redis = redis' })))
      go redis' (ok _) = tx-Ending r body s.db pos new (in_tx-TxEnding outage body s.db)
      go redis' (err e) = failed e

module _ {D R : Type 0} ⦃d : Decimal D⦄ ⦃column : Column D⦄ ⦃redis : Redis R⦄ where
  once_locked-Ending :
      (outage : Outage) (r : Request D) (body : Action Error (Db D) (Unit {0}))
      (s : WalletService D R)
      → Ending r body s.db (seen (once_locked outage r body s))
  unfolding once_locked ledger_entry_exists_by_ref
  once_locked-Ending outage r body s =
      validated (is_positive r.amount) refl outage.exists_query
        (exists_row (is_reference r.reference_id) s.db.ledger) refl
    where
      validated :
          (positive : Bool)
          → is_positive r.amount ≡ positive
          → (down exists : Bool) → exists_row (is_reference r.reference_id) s.db.ledger ≡ exists
          → Ending r body s.db (
              seen (
                (raise_if (not positive) invalid_amount
                    >> (on_db (λ db. (raise_if down unavailable >> pure exists) db) >>= λ e.
                        unless e (
                          with_wallet_lock outage r.wallet_id r.lock_value
                            (on_db (in_tx outage body)))))
                  s))
      validated false p down exists x = failed invalid_amount
      validated true p true exists x = failed unavailable
      validated true p false true x = skipped p x
      validated true p false false x = locked-Ending outage r body s p x

  -- Each of the four operations ends in one of the three ways, with its own transaction.
  pub serve-Ending :
      (m : Method) (outage : Outage) (r : Request D) (s : WalletService D R)
      → Ending r (tx_of m outage r) s.db (seen (serve m outage r s))
  unfolding serve credit debit hold release
  serve-Ending credits outage r s = once_locked-Ending outage r _ s
  serve-Ending debits outage r s = once_locked-Ending outage r _ s
  serve-Ending holds outage r s = once_locked-Ending outage r _ s
  serve-Ending releases outage r s = once_locked-Ending outage r _ s
