-- ===== src/Wallet/Rows.antt =====
-- The wallets table under an update of one wallet at the version that was read.
use richpayment.Base.{ℕ, ◌<◌, ◌≡◌, ◌≢◌, refl, false, List, [], ◌∷◌, some, arith}
use richpayment.Base.Table.{find_row, update_rows, count_rows}
use richpayment.Decimal.{Decimal, is_negative}
use richpayment.Wallet.Types.{Wallet}
use richpayment.Wallet.Repo.{Column, is_id, is_version, set_balance}

module _ {D : Type 0} ⦃d : Decimal D⦄ where
  -- No wallet has a negative balance or a negative hold.
  abbrev pub Solvent : List (Wallet D) → Type 0
  Solvent [] = Unit
  Solvent (w ∷ ws) =
      (is_negative w.balance ≡ false) × (is_negative w.hold_balance ≡ false) × Solvent ws

  pub Solvent-find_row :
      (id : ℕ) (w : Wallet D) (ws : List (Wallet D))
      → Solvent ws
      → find_row (is_id id) ws ≡ some w
      → (is_negative w.balance ≡ false) × (is_negative w.hold_balance ≡ false)
  Solvent-find_row id w [] a e = cc
  Solvent-find_row id w (x ∷ ws) a e = ground (arith, Solvent-find_row id w ws)

  -- The row that was read is still there at its version.
  pub count_rows-read :
      (id : ℕ) (w : Wallet D) (ws : List (Wallet D))
      → find_row (is_id id) ws ≡ some w
      → 0 < count_rows (is_version id w.version) ws
  count_rows-read id w [] e = cc
  count_rows-read id w (x ∷ ws) e = ground (arith, count_rows-read id w ws)

module _ {D : Type 0} ⦃d : Decimal D⦄ ⦃column : Column D⦄ where
  pub find_row-update_self :
      (id : ℕ) (b h : D) (now : ℕ) (w : Wallet D) (ws : List (Wallet D))
      → find_row (is_id id) ws ≡ some w
      → find_row (is_id id) (update_rows (is_version id w.version) (set_balance b h now) ws)
        ≡ some (set_balance b h now w)
  find_row-update_self id b h now w [] e = cc
  find_row-update_self id b h now w (x ∷ ws) e =
      ground (arith, find_row-update_self id b h now w ws)

  pub find_row-update_ne :
      (j id version : ℕ) (b h : D) (now : ℕ) (ws : List (Wallet D))
      → j ≢ id
      → find_row (is_id j) (update_rows (is_version id version) (set_balance b h now) ws)
        ≡ find_row (is_id j) ws
  find_row-update_ne j id version b h now [] ne = refl
  find_row-update_ne j id version b h now (x ∷ ws) ne =
      ground (arith, find_row-update_ne j id version b h now ws)

  pub Solvent-update :
      (id version : ℕ) (b h : D) (now : ℕ) (ws : List (Wallet D))
      → is_negative b ≡ false
      → is_negative h ≡ false
      → Solvent ws
      → Solvent (update_rows (is_version id version) (set_balance b h now) ws)
  Solvent-update id version b h now [] p q a = tt
  Solvent-update id version b h now (x ∷ ws) p q a =
      ground (arith, Solvent-update id version b h now ws)
