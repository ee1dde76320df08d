-- ===== src/Commission/Credits.antt =====
-- What a credit of `CreditWallet` writes.
use richpayment.Base.{
  ℕ, ◌≡◌, ◌≢◌, refl, sym, ◌∙◌, ap, String, some, List, [], ◌∷◌, arith, ◌==◌, Bool-cases,
  Option-cases, ==_iff, inl, inr,
}
use mathlib.Core.Path.{subst}
use richpayment.Base.Table.{find_row, update_rows}
use richpayment.Base.Result.{ok}
use richpayment.Decimal.{Decimal, IsCents}
use richpayment.Decimal.Laws.{add-IsCents}
use richpayment.Wallet.Types.{Wallet, WalletLedger, LedgerEntryType, Db}
use richpayment.Wallet.Repo.{Column, is_id}
use richpayment.Wallet.Reconcile.{IsAccounted, Reconciled, find_row-is_id}
use richpayment.Commission.Types.{Books}
use richpayment.Commission.Recorder.{Failures, wallet_row, credit_wallet}

module _ {D : Type 0} ⦃d : Decimal D⦄ where
  abbrev pub raised : D → ℕ → Wallet D → Wallet D
  raised after now w = record w { balance = after; updated_at = now }

  abbrev pub credit_row : ℕ → LedgerEntryType → ℕ → D → D → String → ℕ → WalletLedger D
  credit_row id entry_type ref amount after description now = record {
    wallet_id = id;
    entry_type = entry_type;
    reference_type = "commission";
    reference_id = ref;
    amount = amount;
    balance_after = after;
    description = description;
    created_at = now;
  }

  -- the tables after a credit to the wallet `w`
  abbrev pub credited : ℕ → LedgerEntryType → ℕ → D → String → ℕ → Wallet D → Db D → Db D
  credited id entry_type ref amount description now w db =
      let after = d.add w.balance amount in
      record db {
        wallets = update_rows (is_id id) (raised after now) db.wallets;
        ledger = credit_row id entry_type ref amount after description now ∷ db.ledger;
      }

  find_row-raised :
      (id : ℕ) (after : D) (now : ℕ) (w : Wallet D) (ws : List (Wallet D))
      → find_row (is_id id) ws ≡ some w
      → find_row (is_id id) (update_rows (is_id id) (raised after now) ws)
        ≡ some (raised after now w)
  find_row-raised id after now w [] e = cc
  find_row-raised id after now w (x ∷ ws) e = ground (arith, find_row-raised id after now w ws)

  find_row-raised_ne :
      (j id : ℕ) (after : D) (now : ℕ) (ws : List (Wallet D))
      → j ≢ id
      → find_row (is_id j) (update_rows (is_id id) (raised after now) ws) ≡ find_row (is_id j) ws
  find_row-raised_ne j id after now [] ne = refl
  find_row-raised_ne j id after now (x ∷ ws) ne =
      ground (arith, find_row-raised_ne j id after now ws)

  pub credited-Reconciled :
      (id : ℕ) (t : LedgerEntryType) (ref : ℕ) (amount : D) (description : String) (now : ℕ)
      (w : Wallet D) (db : Db D)
      → find_row (is_id id) db.wallets ≡ some w
      → IsCents amount
      → Reconciled db
      → Reconciled (credited id t ref amount description now w db)
  credited-Reconciled id t ref amount description now w db read xc h j v e =
      let after = d.add w.balance amount in
      let (bc, hc, sum) = h id w read in
      let is_w : w.id ≡ id = find_row-is_id id w db.wallets read in
      elim (Bool-cases (j == id)) [
        | inl same ↦
            let p : j ≡ id = (==_iff j id).0 same in
            let written : find_row (is_id id) (update_rows (is_id id) (raised after now) db.wallets)
                ≡ some v =
              rw p at e in
            let is : v ≡ raised after now w =
              cc (written, find_row-raised id after now w db.wallets read) in
            subst (IsAccounted (credited id t ref amount description now w db)) (sym is)
              (add-IsCents w.balance amount bc xc, hc, ground arith)
        | inr ne ↦
            let p : j ≢ id = ground arith in
            let kept : find_row (is_id j) db.wallets ≡ some v =
              sym (find_row-raised_ne j id after now db.wallets p) ∙ e in
            let (vc, vh, vsum) = h j v kept in
            let is_v : v.id ≡ j = find_row-is_id j v db.wallets kept in (vc, vh, ground arith)
      ]

module _ {D : Type 0} ⦃d : Decimal D⦄ ⦃column : Column D⦄ where
  -- A credit that returns nil has found the wallet and written exactly one row for it.
  pub credit_wallet_lem :
      (f : Failures) (id : ℕ) (amount : D) (t : LedgerEntryType) (ref : ℕ) (description : String)
      (now : ℕ) (s s' : Books D)
      → credit_wallet f id amount t ref description now s ≡ (ok tt, s')
      → IsCents amount
      → Reconciled s.db
      → (w : Wallet D) × (wallet_row id s ≡ some w)
        × (s' ≡ record s { db = credited id t ref amount description now w s.db })
  unfolding credit_wallet
  credit_wallet_lem f id amount t ref description now s s' run xc h =
      elim (Option-cases (wallet_row id s)) [
        | inl e ↦ absurd (ground arith)
        | inr (w, read) ↦ elim (Option-cases (column.store (d.add w.balance amount))) [
          | inl e ↦ absurd (ground arith)
          | inr (after, fits) ↦
              let (bc, _, _) = h id w read in
              let is : after ≡ d.add w.balance amount =
                column.store_round _ _ fits ∙ add-IsCents w.balance amount bc xc in
              let next : find_row (is_id id)
                    (update_rows (is_id id) (raised after now) s.db.wallets)
                  ≡ some (raised after now w) =
                find_row-raised id after now w s.db.wallets read in
              elim (Option-cases (column.store amount)) [
                | inl e ↦ absurd (ground arith)
                | inr (stored, change) ↦ elim (Option-cases (column.store after)) [
                  | inl e ↦ absurd (ground arith)
                  | inr (again, fits_again) ↦
                      let stored_is : stored ≡ amount = column.store_round _ _ change ∙ xc in
                      let again_is : again ≡ after =
                        column.store_round _ _ fits_again
                        ∙ ap d.round is
                        ∙ add-IsCents w.balance amount bc xc
                        ∙ sym is in
                      (
                        w,
                        read,
                        ground
                            (arith, read, fits, next, change, fits_again, stored_is, again_is, is),
                      )
                ]
              ]
        ]
      ]

  -- Two credits under one reference that both return nil add the amount twice: the balance rises by
  -- it twice. The ledger is not asked whether the reference is there.
  pub credit_wallet_repeats :
      (f g : Failures) (id : ℕ) (amount : D) (t : LedgerEntryType) (ref : ℕ) (description : String)
      (now later : ℕ) (w : Wallet D) (s s' s'' : Books D)
      → Reconciled s.db
      → IsCents amount
      → wallet_row id s ≡ some w
      → credit_wallet f id amount t ref description now s ≡ (ok tt, s')
      → credit_wallet g id amount t ref description later s' ≡ (ok tt, s'')
      → wallet_row id s'' ≡ some (raised (d.add (d.add w.balance amount) amount) later w)
  credit_wallet_repeats f g id amount t ref description now later w s s' s'' h xc read once twice =
      let (v, found, is) = credit_wallet_lem f id amount t ref description now s s' once xc h in
      let same : v ≡ w = cc (found, read) in
      let first : wallet_row id s' ≡ some (raised (d.add v.balance amount) now v) =
        rw is (find_row-raised id (d.add v.balance amount) now v s.db.wallets found) in
      let kept : Reconciled s'.db =
        rw is (credited-Reconciled id t ref amount description now v s.db found xc h) in
      let (u, found', is') =
        credit_wallet_lem g id amount t ref description later s' s'' twice xc kept in
      let next : u ≡ raised (d.add v.balance amount) now v = cc (found', first) in
      let second : wallet_row id s'' ≡ some (raised (d.add u.balance amount) later u) =
        rw is' (find_row-raised id (d.add u.balance amount) later u s'.db.wallets found') in
      ground (arith, second, next, same)
