-- ===== src/Wallet/Service.antt =====
-- services/wallet/internal/service/wallet.go. The four operations share their order of steps:
-- validate, look the reference up, take the wallet's lock, then read, write and log in one
-- transaction. The lock is released on every path after it was taken (`defer`).
use richpayment.Base.{ℕ, String, Bool, true, false}
use richpayment.Base.Result.{Result, ok, err, Action, pure, raise, raise_if, ◌>>=◌, ◌>>◌}
use richpayment.Decimal.{Decimal, less_or_equal}
use richpayment.Wallet.Types.{
  OwnerType, Wallet, LedgerEntryType, withdrawal_hold, withdrawal_release, WalletLedger, Db,
  WalletService, Request, Error, invalid_amount, wallet_not_found, insufficient_funds,
  hold_too_small, Outage,
}
use richpayment.Wallet.Lock.{Redis, acquire_wallet_lock, release_wallet_lock}
use richpayment.Wallet.Repo.{
  Column, get_by_owner, get_by_id_for_update, create, ledger_entry_exists_by_ref,
  update_balance_in_tx, create_ledger_entry_in_tx, in_tx,
}

module _ {D R A : Type 0} where
  -- a call of the repository
  abbrev pub on_db : Action Error (Db D) A → Action Error (WalletService D R) A
  on_db m s = let (r, db) = m s.db in (r, record s { db = db })

module _ {D R : Type 0} ⦃redis : Redis R⦄ where
  -- the deferred release
  abbrev pub unlock :
      Outage
      → ℕ
      → ℕ
      → Result Error (Unit {0}) × WalletService D R
      → Result Error (Unit {0}) × WalletService D R
  unlock outage wallet_id lock_value (r, s) =
      (r, record s { redis = release_wallet_lock outage wallet_id lock_value s.redis })

  abbrev pub run_locked :
      Outage
      → ℕ
      → ℕ
      → Action Error (WalletService D R) (Unit {0})
      → Result Error (Unit {0})
      → Action Error (WalletService D R) (Unit {0})
  run_locked outage wallet_id lock_value body (ok _) s = unlock outage wallet_id lock_value (body s)
  run_locked outage wallet_id lock_value body (err e) s = (err e, s)

  -- Step 2: the body runs under the lock, which is then released.
  unfoldable pub with_wallet_lock :
      Outage
      → ℕ
      → ℕ
      → Action Error (WalletService D R) (Unit {0})
      → Action Error (WalletService D R) (Unit {0})
  with_wallet_lock outage wallet_id lock_value body s =
      let (q, redis') = acquire_wallet_lock outage wallet_id lock_value s.redis in
      run_locked outage wallet_id lock_value body q (record s { redis = redis' })

module _ {D : Type 0} ⦃d : Decimal D⦄ ⦃column : Column D⦄ where
  abbrev pub entry_of : Request D → LedgerEntryType → D → D → WalletLedger D
  entry_of r entry_type amount after = record {
    wallet_id = r.wallet_id;
    entry_type = entry_type;
    reference_type = r.reference_type;
    reference_id = r.reference_id;
    amount = amount;
    balance_after = after;
    description = r.description;
    created_at = r.now;
  }

  -- Steps 4 to 7 of `Credit`
  unfoldable pub credit_tx : Outage → Request D → Action Error (Db D) (Unit {0})
  credit_tx outage r = do
    w ← get_by_id_for_update outage r.wallet_id
    let new_balance = d.add w.balance r.amount
    update_balance_in_tx outage r.wallet_id new_balance w.hold_balance w.version r.now
    create_ledger_entry_in_tx outage (entry_of r r.entry_type r.amount new_balance)

  -- Steps 4 to 7 of `Debit`
  unfoldable pub debit_tx : Outage → Request D → Action Error (Db D) (Unit {0})
  debit_tx outage r = do
    w ← get_by_id_for_update outage r.wallet_id
    raise_if (d.lt w.balance r.amount) insufficient_funds
    let new_balance = d.sub w.balance r.amount
    update_balance_in_tx outage r.wallet_id new_balance w.hold_balance w.version r.now
    create_ledger_entry_in_tx outage (entry_of r r.entry_type (d.neg r.amount) new_balance)

  -- Steps 4 to 7 of `Hold`
  unfoldable pub hold_tx : Outage → Request D → Action Error (Db D) (Unit {0})
  hold_tx outage r = do
    w ← get_by_id_for_update outage r.wallet_id
    raise_if (d.lt w.balance r.amount) insufficient_funds
    let new_balance = d.sub w.balance r.amount
    let new_hold = d.add w.hold_balance r.amount
    update_balance_in_tx outage r.wallet_id new_balance new_hold w.version r.now
    create_ledger_entry_in_tx outage (entry_of r withdrawal_hold (d.neg r.amount) new_balance)

  -- Steps 4 to 7 of `Release`
  unfoldable pub release_tx : Outage → Request D → Action Error (Db D) (Unit {0})
  release_tx outage r = do
    w ← get_by_id_for_update outage r.wallet_id
    raise_if (d.lt w.hold_balance r.amount) hold_too_small
    let new_balance = d.add w.balance r.amount
    let new_hold = d.sub w.hold_balance r.amount
    update_balance_in_tx outage r.wallet_id new_balance new_hold w.version r.now
    create_ledger_entry_in_tx outage (entry_of r withdrawal_release r.amount new_balance)

module _ {D R : Type 0} ⦃d : Decimal D⦄ ⦃column : Column D⦄ ⦃redis : Redis R⦄ where
  -- `if exists { return nil }`
  abbrev pub unless :
      Bool
      → Action Error (WalletService D R) (Unit {0})
      → Action Error (WalletService D R) (Unit {0})
  unless true body = pure tt
  unless false body = body

  -- Steps 0 to 3 and 8, the same in the four operations
  unfoldable pub once_locked :
      Outage
      → Request D
      → Action Error (Db D) (Unit {0})
      → Action Error (WalletService D R) (Unit {0})
  once_locked outage r body = do
    raise_if (less_or_equal r.amount d.zero) invalid_amount
    exists ← on_db (ledger_entry_exists_by_ref outage r.reference_id)
    unless exists (with_wallet_lock outage r.wallet_id r.lock_value (on_db (in_tx outage body)))

  -- `Credit`
  unfoldable pub credit : Outage → Request D → Action Error (WalletService D R) (Unit {0})
  credit outage r = once_locked outage r (credit_tx outage r)

  -- `Debit`
  unfoldable pub debit : Outage → Request D → Action Error (WalletService D R) (Unit {0})
  debit outage r = once_locked outage r (debit_tx outage r)

  -- `Hold`
  unfoldable pub hold : Outage → Request D → Action Error (WalletService D R) (Unit {0})
  hold outage r = once_locked outage r (hold_tx outage r)

  -- `Release`
  unfoldable pub release : Outage → Request D → Action Error (WalletService D R) (Unit {0})
  release outage r = once_locked outage r (release_tx outage r)

-- The four operations that change a balance.
pub data Method : Type 0 where
  credits debits holds releases : Method

module _ {D : Type 0} ⦃d : Decimal D⦄ ⦃column : Column D⦄ where
  -- the transaction that an operation runs
  abbrev pub tx_of : Method → Outage → Request D → Action Error (Db D) (Unit {0})
  tx_of credits = credit_tx
  tx_of debits = debit_tx
  tx_of holds = hold_tx
  tx_of releases = release_tx

module _ {D R : Type 0} ⦃d : Decimal D⦄ ⦃column : Column D⦄ ⦃redis : Redis R⦄ where
  unfoldable pub serve : Method → Outage → Request D → Action Error (WalletService D R) (Unit {0})
  serve credits = credit
  serve debits = debit
  serve holds = hold
  serve releases = release

-- `GetBalance`
unfoldable pub get_balance :
    {D R : Type 0} ⦃d : Decimal D⦄
    → Outage
    → OwnerType
    → ℕ
    → String
    → Action Error (WalletService D R) (D × D)
get_balance outage owner_type owner_id currency = do
  w ← on_db (get_by_owner outage owner_type owner_id currency)
  pure (w.balance, w.hold_balance)

module _ {D : Type 0} ⦃d : Decimal D⦄ ⦃column : Column D⦄ where
  abbrev pub new_wallet : OwnerType → ℕ → String → ℕ → ℕ → Wallet D
  new_wallet owner_type owner_id currency fresh now = record {
    id = fresh;
    owner_type = owner_type;
    owner_id = owner_id;
    currency = currency;
    balance = d.zero;
    hold_balance = d.zero;
    version = 1;
    created_at = now;
    updated_at = now;
  }

  -- what `EnsureWalletExists` does after its first look-up; the look-ups may fail apart
  unfoldable pub ensure_found :
      Outage
      → Outage
      → OwnerType
      → ℕ
      → String
      → ℕ
      → ℕ
      → Result Error (Wallet D)
      → Action Error (Db D) ℕ
  ensure_found outage again owner_type owner_id currency fresh now (ok w) = pure w.id
  ensure_found outage again owner_type owner_id currency fresh now (err wallet_not_found) = do
    create outage (new_wallet owner_type owner_id currency fresh now)
    w ← get_by_owner again owner_type owner_id currency
    pure w.id
  ensure_found outage again owner_type owner_id currency fresh now (err e) = raise e

  -- `EnsureWalletExists`, with the fresh UUID and the clock
  unfoldable pub ensure_wallet_exists :
      Outage → Outage → OwnerType → ℕ → String → ℕ → ℕ → Action Error (Db D) ℕ
  unfolding ensure_found
  ensure_wallet_exists outage again owner_type owner_id currency fresh now db =
      let (r, db') = get_by_owner outage owner_type owner_id currency db in
      ensure_found outage again owner_type owner_id currency fresh now r db'
