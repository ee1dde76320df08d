-- ===== src/Commission/Recorder.antt =====
-- `RecordCommission` of services/commission/internal/service/calculator.go over `InsertCommission`
-- and `CreditWallet` of services/commission/internal/repository/commission_repo.go. Each statement
-- commits on its own: what came before an error stays written.
use richpayment.Base.{ℕ, ◌≡◌, String, Bool, Option, none, some, ◌∷◌, ◌==◌, ◌&&◌, if◌then◌else◌}
use richpayment.Base.Table.{find_row, update_rows, exists_row}
use richpayment.Base.Result.{ok, err, Action, pure, raise, raise_if, ◌>>=◌, ◌>>◌}
use richpayment.Decimal.{Decimal, is_positive}
use richpayment.Wallet.Types.{Wallet, LedgerEntryType, commission_credit}
use richpayment.Wallet.Repo.{Column, is_id}
use richpayment.Commission.Types.{Commission, Books, Error, refused, unavailable}

-- The columns of `commissions`: NUMERIC(12,2) for a share, NUMERIC(5,4) for a rate.
pub record CommissionColumns (D : Type 0) ⦃d : Decimal D⦄ : Type 0 where
  pub store_share : D → Option D
  pub store_rate : D → Option D
  pub store_share_round : (a b : D) → store_share a ≡ some b → b ≡ d.round a

-- Which statements the database does not answer.
pub record Failures : Type 0 where
  pub insert_commission : Bool
  pub update_wallet : Bool
  pub insert_ledger : Bool

module _ {D : Type 0} ⦃d : Decimal D⦄ ⦃columns : CommissionColumns D⦄ where
  abbrev pub or_refuse : Option D → Action Error (Books D) D
  or_refuse none = raise refused
  or_refuse (some a) = pure a

  -- PRIMARY KEY (id, created_at)
  abbrev pub is_commission : Commission D → Commission D → Bool
  is_commission c x = x.id == c.id && x.created_at == c.created_at

  -- `InsertCommission`
  unfoldable pub insert_commission : Failures → Commission D → Action Error (Books D) (Unit {0})
  insert_commission failures c = do
    raise_if failures.insert_commission unavailable
    total ← or_refuse (columns.store_share c.total_fee_amount)
    system ← or_refuse (columns.store_share c.system_amount)
    agent ← or_refuse (columns.store_share c.agent_amount)
    partner ← or_refuse (columns.store_share c.partner_amount)
    merchant_rate ← or_refuse (columns.store_rate c.merchant_fee_pct)
    agent_rate ← or_refuse (columns.store_rate c.agent_pct)
    partner_rate ← or_refuse (columns.store_rate c.partner_pct)
    taken ← λ s. (ok (exists_row (is_commission c) s.commissions), s)
    raise_if taken refused
    λ s. (
      ok tt,
      record s {
        commissions =
            record c {
              total_fee_amount = total;
              system_amount = system;
              agent_amount = agent;
              partner_amount = partner;
              merchant_fee_pct = merchant_rate;
              agent_pct = agent_rate;
              partner_pct = partner_rate;
            }
            ∷ s.commissions;
      },
    )

module _ {D : Type 0} ⦃d : Decimal D⦄ ⦃column : Column D⦄ where
  -- SET balance = balance + $1, updated_at = NOW() WHERE id = $2; the id is the primary key
  abbrev pub add_balance : ℕ → D → ℕ → Option (Wallet D) → Action Error (Books D) (Unit {0})
  add_balance id amount now none s = (ok tt, s)
  add_balance id amount now (some w) s = elim (column.store (d.add w.balance amount)) [
    | none ↦ (err refused, s)
    | some after ↦ (
      ok tt,
      record s {
        db = record s.db {
          wallets =
              update_rows (is_id id) (λ x. record x { balance = after; updated_at = now })
                s.db.wallets;
        };
      },
    )
  ]

  -- the ledger row; without a wallet `balance_after` is NULL, which the column refuses
  abbrev pub log_credit :
      ℕ
      → LedgerEntryType
      → ℕ
      → D
      → String
      → ℕ
      → Option (Wallet D)
      → Action Error (Books D) (Unit {0})
  log_credit id entry_type ref amount description now none s = (err refused, s)
  log_credit id entry_type ref amount description now (some w) s = elim (column.store amount) [
    | none ↦ (err refused, s)
    | some stored ↦ elim (column.store w.balance) [
      | none ↦ (err refused, s)
      | some after ↦ (
        ok tt,
        record s {
          db = record s.db {
            ledger =
                record {
                  wallet_id = id;
                  entry_type = entry_type;
                  reference_type = "commission";
                  reference_id = ref;
                  amount = stored;
                  balance_after = after;
                  description = description;
                  created_at = now;
                }
                ∷ s.db.ledger;
          };
        },
      )
    ]
  ]

  abbrev pub wallet_row : ℕ → Books D → Option (Wallet D)
  wallet_row id s = find_row (is_id id) s.db.wallets

  -- `CreditWallet`
  unfoldable pub credit_wallet :
      Failures → ℕ → D → LedgerEntryType → ℕ → String → ℕ → Action Error (Books D) (Unit {0})
  credit_wallet failures id amount entry_type ref description now = do
    raise_if failures.update_wallet unavailable
    λ s. add_balance id amount now (wallet_row id s) s
    raise_if failures.insert_ledger unavailable
    λ s. log_credit id entry_type ref amount description now (wallet_row id s) s

  -- Steps 2 and 3: `if comm.AgentID != nil && comm.AgentAmount.IsPositive()`. The recipient's own
  -- id is passed as the wallet's id.
  unfoldable pub credit_share :
      Failures → Option ℕ → D → ℕ → String → ℕ → Action Error (Books D) (Unit {0})
  credit_share failures none amount ref description now s = (ok tt, s)
  credit_share failures (some owner) amount ref description now s =
      if is_positive amount
      then credit_wallet failures owner amount commission_credit ref description now s
      else (ok tt, s)

module _ {D : Type 0} ⦃d : Decimal D⦄ ⦃column : Column D⦄ ⦃columns : CommissionColumns D⦄ where
  -- `RecordCommission`; each of the three calls may fail in its own way
  unfoldable pub record_commission :
      Failures → Failures → Failures → Commission D → String → ℕ → Action Error (Books D) (Unit {0})
  record_commission first second third c description now = do
    insert_commission first c
    credit_share second c.agent_id c.agent_amount c.id description now
    credit_share third c.partner_id c.partner_amount c.id description now
