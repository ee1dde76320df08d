-- ===== src/Wallet/Repo.antt =====
-- The queries of services/wallet/internal/repository/postgres_wallet_repo.go on the two tables.
-- A transaction works on a copy of the tables: COMMIT installs it, anything else drops it. While it
-- holds the row (SELECT … FOR UPDATE) no other transaction is inside, so it sees one state.
use richpayment.Base.{
  ℕ, ◌+◌, ◌^◌, ◌≡◌, String, Bool, true, false, not, ◌&&◌, Option, none, some, ◌∷◌, ◌==◌, ltb,
  if◌then◌else◌,
}
use richpayment.Base.Table.{find_row, count_rows, update_rows, exists_row}
use richpayment.Base.Result.{Result, ok, err, Action, pure, raise, raise_if, ◌>>=◌, ◌>>◌}
use richpayment.Decimal.{Decimal}
use richpayment.Wallet.Types.{
  OwnerType, OwnerType-discrete, Wallet, WalletLedger, Db, Error, wallet_not_found,
  version_conflict, out_of_range, duplicate_key, unavailable, Outage,
}
use mathlib.Core.Logic.{ite}
use text.Mathlib.Text.{◌==◌ as str_eq}

-- A NUMERIC(14,2) column: it stores a value to the cent, or refuses what is too large.
pub record Column (D : Type 0) ⦃d : Decimal D⦄ : Type 0 where
  pub store : D → Option D
  pub store_round : (a b : D) → store a ≡ some b → b ≡ d.round a

-- the first value that BIGINT, and int64, cannot hold
unfoldable pub max_version : ℕ
max_version = 2 ^ 63

module _ {D : Type 0} ⦃d : Decimal D⦄ where
  abbrev pub is_id : ℕ → Wallet D → Bool
  is_id id w = w.id == id

  -- WHERE id = $3 AND version = $4
  abbrev pub is_version : ℕ → ℕ → Wallet D → Bool
  is_version id version w = w.id == id && w.version == version

  -- WHERE owner_type = $1 AND owner_id = $2 AND currency = $3
  abbrev pub is_owner : OwnerType → ℕ → String → Wallet D → Bool
  is_owner owner_type owner_id currency w =
      ite (OwnerType-discrete w.owner_type owner_type) true false
      && w.owner_id == owner_id
      && str_eq w.currency currency

  -- WHERE reference_id = $1
  abbrev pub is_reference : ℕ → WalletLedger D → Bool
  is_reference ref e = e.reference_id == ref

  abbrev pub or_raise : Option (Wallet D) → Action Error (Db D) (Wallet D)
  or_raise none = raise wallet_not_found
  or_raise (some w) = pure w

  -- `GetByOwner`
  unfoldable pub get_by_owner : Outage → OwnerType → ℕ → String → Action Error (Db D) (Wallet D)
  get_by_owner outage owner_type owner_id currency db =
      (raise_if outage.select unavailable
          >> or_raise (find_row (is_owner owner_type owner_id currency) db.wallets))
        db

  -- `GetByID` and `GetByIDForUpdate`
  unfoldable pub get_by_id_for_update : Outage → ℕ → Action Error (Db D) (Wallet D)
  get_by_id_for_update outage id db =
      (raise_if outage.select unavailable >> or_raise (find_row (is_id id) db.wallets)) db

  -- `LedgerEntryExistsByRef`
  unfoldable pub ledger_entry_exists_by_ref : Outage → ℕ → Action Error (Db D) Bool
  ledger_entry_exists_by_ref outage ref db =
      (raise_if outage.exists_query unavailable >> pure (exists_row (is_reference ref) db.ledger))
        db

module _ {D : Type 0} ⦃d : Decimal D⦄ ⦃column : Column D⦄ where
  -- SET balance = $1, hold_balance = $2, version = version + 1, updated_at = now()
  abbrev pub set_balance : D → D → ℕ → Wallet D → Wallet D
  set_balance balance hold now w = record w {
    balance = balance;
    hold_balance = hold;
    version = w.version + 1;
    updated_at = now;
  }

  -- the two assignments to NUMERIC columns, then the rows
  abbrev pub write_balance : ℕ → ℕ → ℕ → Option D → Option D → Action Error (Db D) (Unit {0})
  write_balance id version now (some balance) (some hold) db = (
    ok tt,
    record db {
      wallets = update_rows (is_version id version) (set_balance balance hold now) db.wallets;
    },
  )
  write_balance id version now (some balance) none db = (err out_of_range, db)
  write_balance id version now none hold db = (err out_of_range, db)

  -- `UpdateBalance` and `UpdateBalanceInTx`
  unfoldable pub update_balance_in_tx : Outage → ℕ → D → D → ℕ → ℕ → Action Error (Db D) (Unit {0})
  update_balance_in_tx outage id balance hold version now = do
    raise_if outage.update unavailable
    rows ← λ db. (ok (count_rows (is_version id version) db.wallets), db)
    raise_if (rows == 0) version_conflict
    raise_if (not (ltb (version + 1) max_version)) out_of_range
    write_balance id version now (column.store balance) (column.store hold)

  -- ON CONFLICT (owner_type, owner_id, currency) DO NOTHING; a taken primary key is an error
  abbrev pub insert_wallet : Wallet D → Option D → Option D → Action Error (Db D) (Unit {0})
  insert_wallet w (some balance) (some hold) db =
      if exists_row (is_owner w.owner_type w.owner_id w.currency) db.wallets
      then (ok tt, db)
      else if exists_row (is_id w.id) db.wallets
      then (err duplicate_key, db)
      else (
        ok tt,
        record db { wallets = record w { balance = balance; hold_balance = hold } ∷ db.wallets },
      )
  insert_wallet w (some balance) none db = (err out_of_range, db)
  insert_wallet w none hold db = (err out_of_range, db)

  -- `Create`
  unfoldable pub create : Outage → Wallet D → Action Error (Db D) (Unit {0})
  create outage w = do
    raise_if outage.insert unavailable
    insert_wallet w (column.store w.balance) (column.store w.hold_balance)

  abbrev pub insert_entry : WalletLedger D → Option D → Option D → Action Error (Db D) (Unit {0})
  insert_entry entry (some amount) (some after) db = (
    ok tt,
    record db { ledger = record entry { amount = amount; balance_after = after } ∷ db.ledger },
  )
  insert_entry entry (some amount) none db = (err out_of_range, db)
  insert_entry entry none after db = (err out_of_range, db)

  -- `CreateLedgerEntry` and `CreateLedgerEntryInTx`
  unfoldable pub create_ledger_entry_in_tx :
      Outage → WalletLedger D → Action Error (Db D) (Unit {0})
  create_ledger_entry_in_tx outage entry = do
    raise_if outage.insert unavailable
    insert_entry entry (column.store entry.amount) (column.store entry.balance_after)

-- `Commit`, or the deferred `Rollback`, which drops what did not commit.
abbrev pub settle : {D A : Type 0} → Outage → Db D → Result Error A × Db D → Result Error A × Db D
settle outage db (ok a, db') = if outage.commit then (err unavailable, db) else (ok a, db')
settle outage db (err e, db') = (err e, db)

-- `BeginTx`, the body on a copy of the tables, and the end of the transaction
unfoldable pub in_tx : {D A : Type 0} → Outage → Action Error (Db D) A → Action Error (Db D) A
in_tx outage body db = if outage.begin then (err unavailable, db) else settle outage db (body db)
