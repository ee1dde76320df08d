-- ===== src/Wallet/Effect.antt =====
-- The effect of the four operations on the tables, on every path.
use richpayment.Base.{◌≡◌, refl, true, false, List, [], ◌∷◌, some}
use richpayment.Base.Result.{Result, err}
use richpayment.Decimal.{Decimal, is_positive, is_negative}
use richpayment.Decimal.Laws.{sub_nonneg, add_nonneg, round_nonneg, nonneg_of_positive}
use richpayment.Wallet.Types.{Wallet, Db, WalletService, Request, Error, Outage}
use richpayment.Wallet.Lock.{Redis}
use richpayment.Wallet.Repo.{Column}
use richpayment.Wallet.Service.{Method, credits, debits, holds, releases, tx_of, serve}
use richpayment.Wallet.Outcome.{Ending, failed, skipped, done, serve-Ending}
use richpayment.Wallet.Rows.{Solvent, Solvent-find_row, Solvent-update}
use richpayment.Wallet.Posting.{new_balance, new_hold, Covers, Posts, tx_of-Posts}

module _ {D : Type 0} ⦃d : Decimal D⦄ ⦃column : Column D⦄ where
  error_unchanged :
      (m : Method) (outage : Outage) (r : Request D) (db : Db D) {e : Error}
      {q : Result Error (Unit {0}) × Db D}
      → Ending r (tx_of m outage r) db q
      → q.0 ≡ err e
      → q.1 ≡ db
  error_unchanged m outage r db (failed _) h = refl
  error_unchanged m outage r db (skipped _ _) h = refl
  error_unchanged m outage r db (done _ _ _ _) h = cc

  covered_nonneg :
      (m : Method) (w : Wallet D) (x : D)
      → is_positive x ≡ true
      → Covers m w x
      → is_negative w.balance ≡ false
      → is_negative w.hold_balance ≡ false
      → (is_negative (new_balance m w x) ≡ false) × (is_negative (new_hold m w x) ≡ false)
  covered_nonneg credits w x pos c p q = (add_nonneg w.balance x p (nonneg_of_positive x pos), q)
  covered_nonneg debits w x pos c p q = (sub_nonneg w.balance x c, q)
  covered_nonneg holds w x pos c p q =
      (sub_nonneg w.balance x c, add_nonneg w.hold_balance x q (nonneg_of_positive x pos))
  covered_nonneg releases w x pos c p q =
      (add_nonneg w.balance x p (nonneg_of_positive x pos), sub_nonneg w.hold_balance x c)

  store_nonneg : (a b : D) → column.store a ≡ some b → is_negative a ≡ false → is_negative b ≡ false
  store_nonneg a b e h = rw (column.store_round a b e) (round_nonneg a h)

  Posts-Solvent :
      (m : Method) (r : Request D) (db db' : Db D)
      → is_positive r.amount ≡ true
      → Posts m r db db'
      → Solvent db.wallets
      → Solvent db'.wallets
  Posts-Solvent m r db db' pos p solvent =
      let (b, h) = Solvent-find_row r.wallet_id p.wallet db.wallets solvent p.read in
      let (b', h') = covered_nonneg m p.wallet r.amount pos p.covered b h in
      rw p.after (
        Solvent-update r.wallet_id p.wallet.version p.balance p.hold r.now db.wallets
          (store_nonneg _ _ p.stored_balance b') (store_nonneg _ _ p.stored_hold h') solvent)

  Ending-Solvent :
      (m : Method) (outage : Outage) (r : Request D) (db : Db D)
      {q : Result Error (Unit {0}) × Db D}
      → Ending r (tx_of m outage r) db q
      → Solvent db.wallets
      → Solvent q.1.wallets
  Ending-Solvent m outage r db (failed _) h = h
  Ending-Solvent m outage r db (skipped _ _) h = h
  Ending-Solvent m outage r db (done db' pos _ ran) h =
      Posts-Solvent m r db db' pos (tx_of-Posts m outage r db db' ran) h

module _ {D R : Type 0} ⦃d : Decimal D⦄ ⦃column : Column D⦄ ⦃redis : Redis R⦄ where
  -- If an operation returns an error, whatever failed and wherever, the tables are as they were.
  pub serve_error_unchanged :
      (m : Method) (outage : Outage) (r : Request D) (s : WalletService D R) (e : Error)
      → (serve m outage r s).0 ≡ err e
      → (serve m outage r s).1.db ≡ s.db
  serve_error_unchanged m outage r s e h =
      error_unchanged m outage r s.db (serve-Ending m outage r s) h

  -- One after the other, each with what fails during it; the results are dropped.
  abbrev pub serve_all : List (Method × Outage × Request D) → WalletService D R → WalletService D R
  serve_all [] s = s
  serve_all ((m, outage, r) ∷ calls) s = serve_all calls (serve m outage r s).1

  -- If no wallet has a negative balance or a negative hold, then none has after any sequence of
  -- credits, debits, holds and releases, also where calls fail.
  pub serve_all-Solvent :
      (calls : List (Method × Outage × Request D)) (s : WalletService D R)
      → Solvent s.db.wallets
      → Solvent (serve_all calls s).db.wallets
  serve_all-Solvent [] s h = h
  serve_all-Solvent ((m, outage, r) ∷ calls) s h =
      serve_all-Solvent calls (serve m outage r s).1
        (Ending-Solvent m outage r s.db (serve-Ending m outage r s) h)
