-- ===== src/Wallet/Posting.antt =====
-- What a committed transaction of the wallet service has written: the wallet that it read, with its
-- new amounts and the next version, and one row of the ledger.
use richpayment.Base.{none, ◌≡◌, false, inl, inr, ◌∷◌, some, arith, Option-cases}
use richpayment.Base.Table.{find_row, update_rows}
use richpayment.Base.Result.{ok, ◌>>◌}
use richpayment.Decimal.{Decimal}
use richpayment.Wallet.Types.{
  Wallet, Db, Request, LedgerEntryType, withdrawal_hold, withdrawal_release, Outage,
}
use richpayment.Wallet.Repo.{
  Column, is_id, is_version, get_by_id_for_update, set_balance, update_balance_in_tx,
  create_ledger_entry_in_tx,
}
use richpayment.Wallet.Service.{
  entry_of, credit_tx, debit_tx, hold_tx, release_tx, Method, credits, debits, holds, releases,
  tx_of,
}

module _ {D : Type 0} ⦃d : Decimal D⦄ where
  -- The entry type that an operation logs.
  abbrev pub logged_type : Method → Request D → LedgerEntryType
  logged_type credits r = r.entry_type
  logged_type debits r = r.entry_type
  logged_type holds r = withdrawal_hold
  logged_type releases r = withdrawal_release

  -- By how much an operation moves the available balance, and the hold.
  abbrev pub balance_change : Method → D → D
  balance_change credits x = x
  balance_change debits x = d.neg x
  balance_change holds x = d.neg x
  balance_change releases x = x

  abbrev pub new_balance : Method → Wallet D → D → D
  new_balance credits w x = d.add w.balance x
  new_balance debits w x = d.sub w.balance x
  new_balance holds w x = d.sub w.balance x
  new_balance releases w x = d.add w.balance x

  abbrev pub new_hold : Method → Wallet D → D → D
  new_hold credits w x = w.hold_balance
  new_hold debits w x = w.hold_balance
  new_hold holds w x = d.add w.hold_balance x
  new_hold releases w x = d.sub w.hold_balance x

  -- The amount that must cover an operation, where the code compares one.
  abbrev pub Covers : Method → Wallet D → D → Type 0
  Covers credits w x = Unit
  Covers debits w x = d.lt w.balance x ≡ false
  Covers holds w x = d.lt w.balance x ≡ false
  Covers releases w x = d.lt w.hold_balance x ≡ false

module _ {D : Type 0} ⦃d : Decimal D⦄ ⦃column : Column D⦄ where
  -- The tables after the two writes, with the values as the columns store them.
  abbrev pub posted : Db D → Request D → LedgerEntryType → Wallet D → D → D → D → Db D
  posted db r type w b h a = record {
    wallets = update_rows (is_version r.wallet_id w.version) (set_balance b h r.now) db.wallets;
    ledger = entry_of r type a b ∷ db.ledger;
  }

  pub record Posts (m : Method) (r : Request D) (db db' : Db D) : Type 0 where
    pub wallet : Wallet D
    pub balance : D
    pub hold : D
    pub amount : D
    pub read : find_row (is_id r.wallet_id) db.wallets ≡ some wallet
    pub covered : Covers m wallet r.amount
    pub stored_balance : column.store (new_balance m wallet r.amount) ≡ some balance
    pub stored_hold : column.store (new_hold m wallet r.amount) ≡ some hold
    pub stored_amount : column.store (balance_change m r.amount) ≡ some amount
    pub after : db' ≡ posted db r (logged_type m r) wallet balance hold amount

  -- The stored values of a successful pair of writes.
  abbrev Written :
      Outage → Request D → LedgerEntryType → Wallet D → D → D → D → Db D → Db D → Type 0
  Written outage r type w bal hol amt db db' =
      (b : D) × (h : D) × (a : D) × (column.store bal ≡ some b)
      × (column.store hol ≡ some h)
      × (column.store amt ≡ some a)
      × (db' ≡ posted db r type w b h a)

  write-Written :
      (outage : Outage) (r : Request D) (type : LedgerEntryType) (w : Wallet D) (bal hol amt : D)
      (db db' : Db D)
      → (update_balance_in_tx outage r.wallet_id bal hol w.version r.now
            >> create_ledger_entry_in_tx outage (entry_of r type amt bal))
          db
        ≡ (ok tt, db')
      → Written outage r type w bal hol amt db db'
  unfolding update_balance_in_tx create_ledger_entry_in_tx
  write-Written outage r type w bal hol amt db db' ran = elim (Option-cases (column.store bal)) [
    | inl e ↦ absurd (ground arith)
    | inr (b, e) ↦ elim (Option-cases (column.store hol)) [
      | inl f ↦ absurd (ground arith)
      | inr (h, f) ↦ elim (Option-cases (column.store amt)) [
        | inl g ↦ absurd (ground arith)
        | inr (a, g) ↦ (b, h, a, e, f, g, ground arith)
      ]
    ]
  ]

  writes-Posts :
      (m : Method) (outage : Outage) (r : Request D) (w : Wallet D) (db db' : Db D)
      → find_row (is_id r.wallet_id) db.wallets ≡ some w
      → Covers m w r.amount
      → (update_balance_in_tx outage r.wallet_id
              (new_balance m w r.amount)
              (new_hold m w r.amount)
              w.version
              r.now
            >> create_ledger_entry_in_tx outage (
                entry_of r
                  (logged_type m r)
                  (balance_change m r.amount)
                  (new_balance m w r.amount)))
          db
        ≡ (ok tt, db')
      → Posts m r db db'
  writes-Posts m outage r w db db' read covered ran =
      let (b, h, a, e, f, g, after) = write-Written outage r _ w _ _ _ db db' ran in
      record {
        wallet = w;
        balance = b;
        hold = h;
        amount = a;
        read = read;
        covered = covered;
        stored_balance = e;
        stored_hold = f;
        stored_amount = g;
        after = after;
      }

  -- A transaction that ends well has posted: it read the wallet, found it to cover the amount, and
  -- wrote both rows.
  pub tx_of-Posts :
      (m : Method) (outage : Outage) (r : Request D) (db db' : Db D)
      → tx_of m outage r db ≡ (ok tt, db')
      → Posts m r db db'
  unfolding credit_tx debit_tx hold_tx release_tx get_by_id_for_update
  tx_of-Posts m outage r db db' ran =
      elim (Option-cases (find_row (is_id r.wallet_id) db.wallets)) [
        | inl e ↦ absurd (missing m e ran)
        | inr (w, e) ↦ writes-Posts m outage r w db db' e (covers m w e ran) (writes m w e ran)
      ]
    where
      missing :
          (m : Method)
          → find_row (is_id r.wallet_id) db.wallets ≡ none
          → tx_of m outage r db ≡ (ok tt, db')
          → ⊥
      missing credits e ran = ground arith
      missing debits e ran = ground arith
      missing holds e ran = ground arith
      missing releases e ran = ground arith

      covers :
          (m : Method) (w : Wallet D)
          → find_row (is_id r.wallet_id) db.wallets ≡ some w
          → tx_of m outage r db ≡ (ok tt, db')
          → Covers m w r.amount
      covers credits w e ran = tt
      covers debits w e ran = ground arith
      covers holds w e ran = ground arith
      covers releases w e ran = ground arith

      writes :
          (m : Method) (w : Wallet D)
          → find_row (is_id r.wallet_id) db.wallets ≡ some w
          → tx_of m outage r db ≡ (ok tt, db')
          → (update_balance_in_tx outage r.wallet_id
                  (new_balance m w r.amount)
                  (new_hold m w r.amount)
                  w.version
                  r.now
                >> create_ledger_entry_in_tx outage (
                    entry_of r
                      (logged_type m r)
                      (balance_change m r.amount)
                      (new_balance m w r.amount)))
              db
            ≡ (ok tt, db')
      writes credits w e ran = ground arith
      writes debits w e ran = ground arith
      writes holds w e ran = ground arith
      writes releases w e ran = ground arith
