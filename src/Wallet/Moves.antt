-- ===== src/Wallet/Moves.antt =====
-- What a successful operation writes, what suffices for it to succeed, and what it conserves.
use richpayment.Base.{ℕ, ◌≡◌, ◌≢◌, refl, sym, ◌∙◌, false, ◌⊎◌, ◌∷◌, some, arith}
use mathlib.Core.Bool.{false≢true}
use richpayment.Base.Table.{find_row, exists_row}
use richpayment.Base.Result.{Result, ok}
use richpayment.Decimal.{Decimal, IsCents}
use richpayment.Decimal.Laws.{
  add-IsCents, sub-IsCents, neg-IsCents, sub_add_transfer, add_sub_transfer,
}
use richpayment.Wallet.Types.{Wallet, Db, WalletService, Request, Error, Outage}
use richpayment.Wallet.Lock.{Redis}
use richpayment.Wallet.Repo.{Column, is_id, is_reference, set_balance}
use richpayment.Wallet.Service.{entry_of, Method, credits, debits, holds, releases, tx_of, serve}
use richpayment.Wallet.Outcome.{Ending, failed, skipped, done, serve-Ending}
use richpayment.Wallet.Rows.{find_row-update_self, find_row-update_ne}
use richpayment.Wallet.Posting.{
  logged_type, balance_change, new_balance, new_hold, Covers, Posts, posted, tx_of-Posts,
}

module _ {D : Type 0} ⦃d : Decimal D⦄ ⦃column : Column D⦄ where
  pub store_cents : (a b : D) → column.store a ≡ some b → IsCents a → b ≡ a
  store_cents a b e h = column.store_round a b e ∙ h

  pub balance_change-IsCents : (m : Method) (x : D) → IsCents x → IsCents (balance_change m x)
  balance_change-IsCents credits x h = h
  balance_change-IsCents debits x h = neg-IsCents x h
  balance_change-IsCents holds x h = neg-IsCents x h
  balance_change-IsCents releases x h = h

  pub new_balance-IsCents :
      (m : Method) (w : Wallet D) (x : D)
      → IsCents w.balance
      → IsCents x
      → IsCents (new_balance m w x)
  new_balance-IsCents credits w x b h = add-IsCents w.balance x b h
  new_balance-IsCents debits w x b h = sub-IsCents w.balance x b h
  new_balance-IsCents holds w x b h = sub-IsCents w.balance x b h
  new_balance-IsCents releases w x b h = add-IsCents w.balance x b h

  pub new_hold-IsCents :
      (m : Method) (w : Wallet D) (x : D)
      → IsCents w.hold_balance
      → IsCents x
      → IsCents (new_hold m w x)
  new_hold-IsCents credits w x b h = b
  new_hold-IsCents debits w x b h = b
  new_hold-IsCents holds w x b h = add-IsCents w.hold_balance x b h
  new_hold-IsCents releases w x b h = sub-IsCents w.hold_balance x b h

  -- The tables after an operation on the wallet `w`, amounts exact.
  pub record Moved (m : Method) (r : Request D) (w : Wallet D) (db db' : Db D) : Type 0 where
    pub covered : Covers m w r.amount
    pub target :
        find_row (is_id r.wallet_id) db'.wallets
        ≡ some (set_balance (new_balance m w r.amount) (new_hold m w r.amount) r.now w)
    pub others :
        (j : ℕ) → j ≢ r.wallet_id → find_row (is_id j) db'.wallets ≡ find_row (is_id j) db.wallets
    pub logged :
        db'.ledger
        ≡ entry_of r (logged_type m r) (balance_change m r.amount) (new_balance m w r.amount)
          ∷ db.ledger

  -- The tables after an exact posting.
  abbrev pub exact : Method → Db D → Request D → Wallet D → Db D
  exact m db r w =
      posted db r (logged_type m r) w (new_balance m w r.amount) (new_hold m w r.amount)
        (balance_change m r.amount)

  -- With whole cents the columns change no value.
  pub Posts-exact :
      (m : Method) (r : Request D) (w : Wallet D) (db db' : Db D)
      → find_row (is_id r.wallet_id) db.wallets ≡ some w
      → IsCents w.balance
      → IsCents w.hold_balance
      → IsCents r.amount
      → Posts m r db db'
      → Covers m w r.amount × (db' ≡ exact m db r w)
  Posts-exact m r w db db' read bc hc xc p =
      let same : p.wallet ≡ w = cc in
      let b : p.balance ≡ new_balance m w r.amount =
        store_cents _ _ (rw same at p.stored_balance) (new_balance-IsCents m w r.amount bc xc) in
      let h : p.hold ≡ new_hold m w r.amount =
        store_cents _ _ (rw same at p.stored_hold) (new_hold-IsCents m w r.amount hc xc) in
      let a : p.amount ≡ balance_change m r.amount =
        store_cents _ _ p.stored_amount (balance_change-IsCents m r.amount xc) in
      (rw same at p.covered, p.after ∙ rw (same, b, h, a) refl)

  exact-Moved :
      (m : Method) (r : Request D) (w : Wallet D) (db : Db D)
      → find_row (is_id r.wallet_id) db.wallets ≡ some w
      → Covers m w r.amount
      → Moved m r w db (exact m db r w)
  exact-Moved m r w db read c = record {
    covered = c;
    target = find_row-update_self r.wallet_id _ _ r.now w db.wallets read;
    others = λ j ne. find_row-update_ne j r.wallet_id w.version _ _ r.now db.wallets ne;
    logged = refl;
  }

  Posts-Moved :
      (m : Method) (r : Request D) (w : Wallet D) (db db' : Db D)
      → find_row (is_id r.wallet_id) db.wallets ≡ some w
      → IsCents w.balance
      → IsCents w.hold_balance
      → IsCents r.amount
      → Posts m r db db'
      → Moved m r w db db'
  Posts-Moved m r w db db' read bc hc xc p =
      let (c, e) = Posts-exact m r w db db' read bc hc xc p in rw e (exact-Moved m r w db read c)

  Ending-Moved :
      (m : Method) (outage : Outage) (r : Request D) (w : Wallet D) (db : Db D)
      {q : Result Error (Unit {0}) × Db D}
      → Ending r (tx_of m outage r) db q
      → find_row (is_id r.wallet_id) db.wallets ≡ some w
      → IsCents w.balance
      → IsCents w.hold_balance
      → IsCents r.amount
      → exists_row (is_reference r.reference_id) db.ledger ≡ false
      → q.0 ≡ ok tt
      → Moved m r w db q.1
  Ending-Moved m outage r w db (failed e) read bc hc xc new h = cc
  Ending-Moved m outage r w db (skipped _ old) read bc hc xc new h =
      absurd (false≢true (sym new ∙ old))
  Ending-Moved m outage r w db (done db' _ _ ran) read bc hc xc new h =
      Posts-Moved m r w db db' read bc hc xc (tx_of-Posts m outage r db db' ran)

module _ {D R : Type 0} ⦃d : Decimal D⦄ ⦃column : Column D⦄ ⦃redis : Redis R⦄ where
  -- If the wallet and the amount are in whole cents and the reference is new, an operation that
  -- returns nil found the amount covered (a balance for a debit or a hold, a hold for a release),
  -- gave the wallet exactly the new balance, the new hold and the next version, left every other
  -- wallet alone, and logged one row with the signed amount and the new balance.
  pub serve-Moved :
      (m : Method) (outage : Outage) (r : Request D) (w : Wallet D) (s : WalletService D R)
      → find_row (is_id r.wallet_id) s.db.wallets ≡ some w
      → IsCents w.balance
      → IsCents w.hold_balance
      → IsCents r.amount
      → exists_row (is_reference r.reference_id) s.db.ledger ≡ false
      → (serve m outage r s).0 ≡ ok tt
      → Moved m r w s.db (serve m outage r s).1.db
  serve-Moved m outage r w s = Ending-Moved m outage r w s.db (serve-Ending m outage r s)

  -- If the wallet and the amount are in whole cents and the reference is new, a hold or a release
  -- that returns nil keeps the sum of the wallet's balance and hold.
  pub holds_releases_conserve :
      (m : Method) (outage : Outage) (r : Request D) (w : Wallet D) (s : WalletService D R)
      → (m ≡ holds) ⊎ (m ≡ releases)
      → find_row (is_id r.wallet_id) s.db.wallets ≡ some w
      → IsCents w.balance
      → IsCents w.hold_balance
      → IsCents r.amount
      → exists_row (is_reference r.reference_id) s.db.ledger ≡ false
      → (serve m outage r s).0 ≡ ok tt
      → (w' : Wallet D) × (find_row (is_id r.wallet_id) (serve m outage r s).1.db.wallets ≡ some w')
        × (d.add w'.balance w'.hold_balance ≡ d.add w.balance w.hold_balance)
  holds_releases_conserve m outage r w s which read bc hc xc new h =
      (_, (serve-Moved m outage r w s read bc hc xc new h).target, total m which)
    where
      total :
          (m : Method)
          → (m ≡ holds) ⊎ (m ≡ releases)
          → d.add (new_balance m w r.amount) (new_hold m w r.amount)
            ≡ d.add w.balance w.hold_balance
      total holds _ = sub_add_transfer w.balance w.hold_balance r.amount
      total releases _ = add_sub_transfer w.balance w.hold_balance r.amount
      total credits which = absurd (ground arith)
      total debits which = absurd (ground arith)
