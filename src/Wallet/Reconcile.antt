-- ===== src/Wallet/Reconcile.antt =====
-- The ledger as the source of the balances: each wallet's balance is the sum of its ledger rows.
use richpayment.Base.{
  ℕ, ◌≡◌, ◌≢◌, refl, sym, ◌∙◌, List, [], ◌∷◌, some, arith, ◌==◌, if◌then◌else◌, Bool-cases, ==_iff,
  inl, inr,
}
use mathlib.Core.Path.{subst}
use richpayment.Base.Table.{find_row}
use richpayment.Base.Result.{Result}
use richpayment.Decimal.{Decimal, IsCents}
use richpayment.Wallet.Types.{Wallet, WalletLedger, Db, WalletService, Request, Error, Outage}
use richpayment.Wallet.Lock.{Redis}
use richpayment.Wallet.Repo.{Column, is_id, set_balance}
use richpayment.Wallet.Service.{Method, credits, debits, holds, releases, tx_of, serve}
use richpayment.Wallet.Outcome.{Ending, failed, skipped, done, serve-Ending}
use richpayment.Wallet.Rows.{find_row-update_self, find_row-update_ne}
use richpayment.Wallet.Posting.{balance_change, new_balance, new_hold, tx_of-Posts}
use richpayment.Wallet.Moves.{exact, Posts-exact, new_balance-IsCents, new_hold-IsCents}
use richpayment.Wallet.Effect.{serve_all}

module _ {D : Type 0} ⦃d : Decimal D⦄ where
  -- SELECT SUM(amount) FROM wallet_ledger WHERE wallet_id = id
  abbrev pub ledger_sum : ℕ → List (WalletLedger D) → D
  ledger_sum id [] = d.zero
  ledger_sum id (e ∷ es) =
      if e.wallet_id == id then d.add (ledger_sum id es) e.amount else ledger_sum id es

  -- A wallet in whole cents whose balance is the sum of its rows.
  abbrev pub IsAccounted : Db D → Wallet D → Type 0
  IsAccounted db w =
      IsCents w.balance × IsCents w.hold_balance × (ledger_sum w.id db.ledger ≡ w.balance)

  abbrev pub Reconciled : Db D → Type 0
  Reconciled db =
      (id : ℕ) (w : Wallet D) → find_row (is_id id) db.wallets ≡ some w → IsAccounted db w

  pub find_row-is_id :
      (id : ℕ) (w : Wallet D) (ws : List (Wallet D)) → find_row (is_id id) ws ≡ some w → w.id ≡ id
  find_row-is_id id w [] e = cc
  find_row-is_id id w (x ∷ ws) e = ground (arith, find_row-is_id id w ws)

  -- What an operation adds to the ledger is what it adds to the balance.
  new_balance-change :
      (m : Method) (w : Wallet D) (x : D) → new_balance m w x ≡ d.add w.balance (balance_change m x)
  new_balance-change credits w x = refl
  new_balance-change debits w x = d.sub_eq w.balance x
  new_balance-change holds w x = d.sub_eq w.balance x
  new_balance-change releases w x = refl

module _ {D : Type 0} ⦃d : Decimal D⦄ ⦃column : Column D⦄ where
  exact-target :
      (m : Method) (r : Request D) (w : Wallet D) (db : Db D)
      → w.id ≡ r.wallet_id
      → IsCents r.amount
      → IsAccounted db w
      → IsAccounted
          (exact m db r w)
          (set_balance (new_balance m w r.amount) (new_hold m w r.amount) r.now w)
  exact-target m r w db same xc (bc, hc, sum) = (
    new_balance-IsCents m w r.amount bc xc,
    new_hold-IsCents m w r.amount hc xc,
    ground (arith, new_balance-change m w r.amount),
  )

  exact-other :
      (m : Method) (r : Request D) (w v : Wallet D) (db : Db D)
      → v.id ≢ r.wallet_id
      → IsAccounted db v
      → IsAccounted (exact m db r w) v
  exact-other m r w v db ne (bc, hc, sum) = (bc, hc, ground arith)

  exact-Reconciled :
      (m : Method) (r : Request D) (w : Wallet D) (db : Db D)
      → find_row (is_id r.wallet_id) db.wallets ≡ some w
      → IsCents r.amount
      → Reconciled db
      → Reconciled (exact m db r w)
  exact-Reconciled m r w db read xc h id v e = elim (Bool-cases (id == r.wallet_id)) [
    | inl same ↦
        let p : id ≡ r.wallet_id = (==_iff id r.wallet_id).0 same in
        let written : find_row (is_id r.wallet_id) (exact m db r w).wallets ≡ some v = rw p at e in
        let target =
          find_row-update_self r.wallet_id (new_balance m w r.amount) (new_hold m w r.amount) r.now
            w db.wallets read in
        let is : v ≡ set_balance (new_balance m w r.amount) (new_hold m w r.amount) r.now w =
          cc (written, target) in
        subst (IsAccounted (exact m db r w)) (sym is) (
          exact-target m r w db (find_row-is_id r.wallet_id w db.wallets read) xc
            (h r.wallet_id w read))
    | inr ne ↦
        let p : id ≢ r.wallet_id = ground arith in
        let kept : find_row (is_id id) db.wallets ≡ some v =
          sym (find_row-update_ne id r.wallet_id w.version _ _ r.now db.wallets p) ∙ e in
        let q : v.id ≢ r.wallet_id = rw (find_row-is_id id v db.wallets kept) p in
        exact-other m r w v db q (h id v kept)
  ]

  Ending-Reconciled :
      (m : Method) (outage : Outage) (r : Request D) (db : Db D)
      {q : Result Error (Unit {0}) × Db D}
      → Ending r (tx_of m outage r) db q
      → IsCents r.amount
      → Reconciled db
      → Reconciled q.1
  Ending-Reconciled m outage r db (failed _) xc h = h
  Ending-Reconciled m outage r db (skipped _ _) xc h = h
  Ending-Reconciled m outage r db (done db' _ _ ran) xc h =
      let p = tx_of-Posts m outage r db db' ran in
      let (bc, hc, _) = h r.wallet_id p.wallet p.read in
      let (_, e) = Posts-exact m r p.wallet db db' p.read bc hc xc p in
      rw e (exact-Reconciled m r p.wallet db p.read xc h)

-- Every amount of the calls is in whole cents.
abbrev pub AllCents : {D : Type 0} ⦃d : Decimal D⦄ → List (Method × Outage × Request D) → Type 0
AllCents [] = Unit
AllCents ((m, outage, r) ∷ calls) = IsCents r.amount × AllCents calls

module _ {D R : Type 0} ⦃d : Decimal D⦄ ⦃column : Column D⦄ ⦃redis : Redis R⦄ where
  -- If every wallet's balance is the sum of its ledger rows, in whole cents, then it is so after any
  -- sequence of operations on amounts in whole cents, whatever fails during them.
  pub serve_all-Reconciled :
      (calls : List (Method × Outage × Request D)) (s : WalletService D R)
      → AllCents calls
      → Reconciled s.db
      → Reconciled (serve_all calls s).db
  serve_all-Reconciled [] s xs h = h
  serve_all-Reconciled ((m, outage, r) ∷ calls) s xs h =
      serve_all-Reconciled calls (serve m outage r s).1 xs.1
        (Ending-Reconciled m outage r s.db (serve-Ending m outage r s) xs.0 h)
