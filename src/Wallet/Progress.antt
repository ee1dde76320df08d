-- ===== src/Wallet/Progress.antt =====
-- What suffices for an operation to succeed, and what `EnsureWalletExists` returns.
use richpayment.Base.{
  ℕ, ◌+◌, ◌<◌, ◌≡◌, refl, String, true, false, Option, none, some, arith, Option-cases, inl, inr,
}
use richpayment.Base.Table.{find_row, exists_row}
use richpayment.Base.Result.{Result, ok, err, Action, pure, ◌>>=◌, ◌>>◌}
use richpayment.Decimal.{Decimal, is_positive}
use richpayment.Wallet.Types.{
  OwnerType, Wallet, Db, WalletService, Request, Error, wallet_not_found, Outage,
}
use richpayment.Wallet.Lock.{Redis, held, acquire_wallet_lock, acquire_lock}
use richpayment.Wallet.Repo.{
  Column, is_id, is_owner, is_reference, max_version, get_by_owner, get_by_id_for_update, create,
  ledger_entry_exists_by_ref, update_balance_in_tx, create_ledger_entry_in_tx, in_tx,
}
use richpayment.Wallet.Service.{
  Method, credits, debits, holds, releases, credit_tx, debit_tx, hold_tx, release_tx, credit, debit,
  hold, release, once_locked, with_wallet_lock, tx_of, serve, new_wallet, ensure_found,
  ensure_wallet_exists, entry_of,
}
use richpayment.Wallet.Rows.{count_rows-read}
use richpayment.Wallet.Posting.{balance_change, new_balance, new_hold, Covers, logged_type}
use richpayment.Wallet.Moves.{exact}
use richpayment.Wallet.Race.Twice.{calm}

module _ {D : Type 0} ⦃d : Decimal D⦄ ⦃column : Column D⦄ where
  -- The columns hold the three new values as they are, and the version has room.
  pub record Fits (m : Method) (r : Request D) (w : Wallet D) : Type 0 where
    pub balance_fits : column.store (new_balance m w r.amount) ≡ some (new_balance m w r.amount)
    pub hold_fits : column.store (new_hold m w r.amount) ≡ some (new_hold m w r.amount)
    pub change_fits : column.store (balance_change m r.amount) ≡ some (balance_change m r.amount)
    pub version_fits : w.version + 1 < max_version

  writes_succeed :
      (m : Method) (r : Request D) (w : Wallet D) (db : Db D)
      → find_row (is_id r.wallet_id) db.wallets ≡ some w
      → Fits m r w
      → (update_balance_in_tx calm r.wallet_id
              (new_balance m w r.amount)
              (new_hold m w r.amount)
              w.version
              r.now
            >> create_ledger_entry_in_tx calm (
                entry_of r
                  (logged_type m r)
                  (balance_change m r.amount)
                  (new_balance m w r.amount)))
          db
        ≡ (ok tt, exact m db r w)
  unfolding update_balance_in_tx create_ledger_entry_in_tx
  writes_succeed m r w db read fits = ground (arith, count_rows-read r.wallet_id w db.wallets read)

  tx_succeeds :
      (m : Method) (r : Request D) (w : Wallet D) (db : Db D)
      → find_row (is_id r.wallet_id) db.wallets ≡ some w
      → Covers m w r.amount
      → Fits m r w
      → tx_of m calm r db ≡ (ok tt, exact m db r w)
  unfolding credit_tx debit_tx hold_tx release_tx get_by_id_for_update
  tx_succeeds credits r w db read c fits = ground (arith, writes_succeed credits r w db read fits)
  tx_succeeds debits r w db read c fits = ground (arith, writes_succeed debits r w db read fits)
  tx_succeeds holds r w db read c fits = ground (arith, writes_succeed holds r w db read fits)
  tx_succeeds releases r w db read c fits = ground (arith, writes_succeed releases r w db read fits)

  commits :
      (body : Action Error (Db D) (Unit {0})) (db db' : Db D)
      → body db ≡ (ok tt, db')
      → in_tx calm body db ≡ (ok tt, db')
  unfolding in_tx
  commits body db db' ran = ground arith

module _ {R : Type 0} ⦃redis : Redis R⦄ where
  acquires :
      (key value : ℕ) (client : Option R)
      → held key client ≡ none
      → (acquire_wallet_lock calm key value client).0 ≡ ok tt
  unfolding acquire_wallet_lock acquire_lock
  acquires key value none free = refl
  acquires key value (some r) free = rw (redis.set_nx_free key value r free)

module _ {D R : Type 0} ⦃d : Decimal D⦄ ⦃column : Column D⦄ ⦃redis : Redis R⦄ where
  once_locked_succeeds :
      (r : Request D) (body : Action Error (Db D) (Unit {0})) (s : WalletService D R) (db' : Db D)
      → is_positive r.amount ≡ true
      → exists_row (is_reference r.reference_id) s.db.ledger ≡ false
      → held r.wallet_id s.redis ≡ none
      → body s.db ≡ (ok tt, db')
      → let (q, t) = once_locked calm r body s in (q ≡ ok tt) × (t.db ≡ db')
  unfolding once_locked ledger_entry_exists_by_ref with_wallet_lock
  once_locked_succeeds r body s db' pos new free ran =
      ground (arith, acquires r.wallet_id r.lock_value s.redis free, commits body s.db db' ran)

  -- An operation succeeds, with exactly the new state, if nothing fails, the wallet's key is free,
  -- the amount is positive, the reference is new, the wallet is there and covers the amount, and the
  -- columns can hold the new values.
  pub serve_succeeds :
      (m : Method) (r : Request D) (w : Wallet D) (s : WalletService D R)
      → is_positive r.amount ≡ true
      → exists_row (is_reference r.reference_id) s.db.ledger ≡ false
      → held r.wallet_id s.redis ≡ none
      → find_row (is_id r.wallet_id) s.db.wallets ≡ some w
      → Covers m w r.amount
      → Fits m r w
      → let (q, t) = serve m calm r s in (q ≡ ok tt) × (t.db ≡ exact m s.db r w)
  unfolding serve credit debit hold release
  serve_succeeds credits r w s pos new free read c fits =
      once_locked_succeeds r _ s _ pos new free (tx_succeeds credits r w s.db read c fits)
  serve_succeeds debits r w s pos new free read c fits =
      once_locked_succeeds r _ s _ pos new free (tx_succeeds debits r w s.db read c fits)
  serve_succeeds holds r w s pos new free read c fits =
      once_locked_succeeds r _ s _ pos new free (tx_succeeds holds r w s.db read c fits)
  serve_succeeds releases r w s pos new free read c fits =
      once_locked_succeeds r _ s _ pos new free (tx_succeeds releases r w s.db read c fits)

module _ {D : Type 0} ⦃d : Decimal D⦄ where
  abbrev Found : OwnerType → ℕ → String → ℕ → Db D → Type 0
  Found owner id currency wallet db =
      (w : Wallet D) × (find_row (is_owner owner id currency) db.wallets ≡ some w) × (w.id ≡ wallet)

  read-Found :
      (o : Outage) (owner : OwnerType) (id : ℕ) (currency : String) (wallet : ℕ) (db db' : Db D)
      → (get_by_owner o owner id currency >>= λ w. pure w.id) db ≡ (ok wallet, db')
      → Found owner id currency wallet db'
  unfolding get_by_owner
  read-Found o owner id currency wallet db db' h =
      elim (Option-cases (find_row (is_owner owner id currency) db.wallets)) [
        | inl e ↦ absurd (ground arith)
        | inr (w, e) ↦ (w, ground arith, ground arith)
      ]

module _ {D : Type 0} ⦃d : Decimal D⦄ ⦃column : Column D⦄ where
  ensure_found-Found :
      (o o' : Outage) (owner : OwnerType) (id : ℕ) (currency : String) (fresh now wallet : ℕ)
      (q : Result Error (Wallet D)) (db db' : Db D)
      → get_by_owner o owner id currency db ≡ (q, db)
      → ensure_found o o' owner id currency fresh now q db ≡ (ok wallet, db')
      → Found owner id currency wallet db'
  unfolding ensure_found
  ensure_found-Found o o' owner id currency fresh now wallet (ok w) db db' e h =
      read-Found o owner id currency wallet db db' (ground arith)
  ensure_found-Found o o' owner id currency fresh now wallet (err wallet_not_found) db db' e h =
      created (create o (new_wallet owner id currency fresh now) db).0 refl
    where
      created :
          (r : Result Error (Unit {0}))
          → (create o (new_wallet owner id currency fresh now) db).0 ≡ r
          → Found owner id currency wallet db'
      created (ok _) f =
          read-Found o' owner id currency wallet
            (create o (new_wallet owner id currency fresh now) db).1 db' (ground arith)
      created (err _) f = absurd (ground arith)
  ensure_found-Found o o' owner id currency fresh now wallet (err _) db db' e h = absurd (cc h)

  get_by_owner_keeps :
      (o : Outage) (owner : OwnerType) (id : ℕ) (currency : String) (db : Db D)
      → get_by_owner o owner id currency db ≡ ((get_by_owner o owner id currency db).0, db)
  unfolding get_by_owner
  get_by_owner_keeps o owner id currency db = ground arith

  Found-again :
      (p p' : Outage) (owner : OwnerType) (id : ℕ) (currency : String) (fresh now wallet : ℕ)
      (db : Db D)
      → p.select ≡ false
      → Found owner id currency wallet db
      → ensure_wallet_exists p p' owner id currency fresh now db ≡ (ok wallet, db)
  unfolding ensure_wallet_exists get_by_owner
  Found-again p p' owner id currency fresh now wallet db up (w, read, same) = ground arith

  -- Whatever fails, a success of `EnsureWalletExists` returns the id of the wallet that is then
  -- found under the owner and the currency, and a second call that reaches the database returns the
  -- same id and changes nothing.
  pub ensure_wallet_exists_idempotent :
      (o o' p p' : Outage) (owner : OwnerType) (id : ℕ) (currency : String)
      (fresh fresh' now now' wallet : ℕ) (db db' : Db D)
      → ensure_wallet_exists o o' owner id currency fresh now db ≡ (ok wallet, db')
      → p.select ≡ false
      → ensure_wallet_exists p p' owner id currency fresh' now' db' ≡ (ok wallet, db')
  unfolding ensure_wallet_exists
  ensure_wallet_exists_idempotent o o' p p' owner id currency fresh fresh' now now' wallet db db' h
        up =
      Found-again p p' owner id currency fresh' now' wallet db' up (
        ensure_found-Found o o' owner id currency fresh now wallet
          (get_by_owner o owner id currency db).0 db db' (get_by_owner_keeps o owner id currency db)
          (rw (get_by_owner_keeps o owner id currency db) at h))
