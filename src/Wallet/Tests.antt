-- ===== src/Wallet/Tests.antt =====
-- The theorems on the wallet service at concrete inputs: amounts in units of 0.0001, a column that
-- rounds to the cent, and Redis as a function from keys to values.
use richpayment.Base.{
  ℕ, ◌≡◌, refl, true, Option, none, some, List, [], ◌∷◌, arith, ◌==◌, inl, inr, Bool-cases,
}
use mathlib.Core.Path.{subst}
use richpayment.Base.Table.{count_rows, find_row}
use richpayment.Base.Result.{ok, err}
use richpayment.Decimal.{IsCents}
use richpayment.Decimal.Fixed.{ℤ, pos, fixed, round_cents, ◌+ℤ◌, negate}
use richpayment.Wallet.Types.{
  merchant, OwnerType-discrete, Wallet, deposit_credit, withdrawal_debit, Db, WalletService,
  Request, lock_not_acquired, insufficient_funds, Outage,
}
use richpayment.Wallet.Lock.{
  held, acquire_wallet_lock, acquire_lock, release_wallet_lock, release_lock, release_lock_script,
}
use richpayment.Wallet.Repo.{
  is_reference, is_id, max_version, ledger_entry_exists_by_ref, in_tx, get_by_id_for_update,
  get_by_owner, update_balance_in_tx, create_ledger_entry_in_tx, create,
}
use richpayment.Wallet.Service.{
  Method, credits, debits, holds, releases, serve, credit_tx, debit_tx, hold_tx, release_tx, credit,
  debit, hold, release, once_locked, with_wallet_lock, ensure_wallet_exists, ensure_found,
}
use richpayment.Wallet.Sample.{Keys, wide, keys}
use richpayment.Wallet.Rows.{Solvent}
use richpayment.Wallet.Effect.{serve_all, serve_error_unchanged, serve_all-Solvent}
use richpayment.Wallet.Moves.{Moved, exact, serve-Moved, holds_releases_conserve}
use richpayment.Wallet.Reconcile.{ledger_sum, Reconciled, serve_all-Reconciled}
use richpayment.Wallet.Once.{serve_once}
use richpayment.Wallet.Mutex.{held-serve, serve_busy}
use richpayment.Wallet.Race.{finished, advance}
use richpayment.Wallet.Race.Pair.{Call, is_inside, begin, step, run}
use richpayment.Wallet.Race.Exclusion.{run_exclusive}
use richpayment.Wallet.Race.Twice.{calm, crediting, late_lock, late_lock_runs_both}
use richpayment.Wallet.Progress.{serve_succeeds, ensure_wallet_exists_idempotent}

-- 100.00 available and 20.00 held
abbrev shop : Wallet ℤ
shop = record {
  id = 7;
  owner_type = merchant;
  owner_id = 70;
  currency = "THB";
  balance = pos 1000000;
  hold_balance = pos 200000;
  version = 3;
  created_at = 0;
  updated_at = 0;
}

abbrev shop_db : Db ℤ
shop_db = record {
  wallets = shop ∷ [];
  ledger =
      record {
        wallet_id = 7;
        entry_type = deposit_credit;
        reference_type = "deposit_order";
        reference_id = 900;
        amount = pos 1000000;
        balance_after = pos 1000000;
        description = "opening";
        created_at = 0;
      }
      ∷ [];
}

abbrev service : WalletService ℤ Keys
service = record { db = shop_db; redis = some (λ _. none) }

-- 30.00 under the reference `ref`
abbrev thirty : ℕ → Request ℤ
thirty ref = record {
  wallet_id = 7;
  amount = pos 300000;
  entry_type = withdrawal_debit;
  reference_type = "withdrawal";
  reference_id = ref;
  description = "thirty";
  lock_value = 55;
  now = 10;
}

-- what a run at concrete values computes with
opened : ℕ
unfolding serve credit debit hold release once_locked with_wallet_lock ledger_entry_exists_by_ref
    acquire_wallet_lock acquire_lock release_wallet_lock release_lock release_lock_script in_tx
    credit_tx debit_tx hold_tx release_tx get_by_id_for_update update_balance_in_tx
    create_ledger_entry_in_tx max_version round_cents ◌+ℤ◌ negate
opened = 0

-- the fields after an operation: balance, hold, version and the newest ledger amount
abbrev view : WalletService ℤ Keys → Option (ℤ × ℤ × ℕ)
view s = elim (find_row (is_id 7) s.db.wallets) [
  | none ↦ none
  | some w ↦ some (w.balance, w.hold_balance, w.version)
]

hold_runs : view (serve holds calm (thirty 1) service).1 ≡ some (pos 700000, pos 500000, 4)
unfolding opened
hold_runs = refl

release_runs :
    view (serve releases calm (record (thirty 1) { amount = pos 100000 }) service).1
    ≡ some (pos 1100000, pos 100000, 4)
unfolding opened
release_runs = refl

overdraft_refused :
    (serve debits calm (record (thirty 1) { amount = pos 1000001 }) service).0
    ≡ err insufficient_funds
unfolding opened
overdraft_refused = refl

serve_error_unchanged_example :
    (serve holds calm (record (thirty 1) { amount = pos 1000001 }) service).1.db ≡ shop_db
unfolding opened
serve_error_unchanged_example =
    serve_error_unchanged holds calm (record (thirty 1) { amount = pos 1000001 }) service
      insufficient_funds refl

abbrev calls : List (Method × Outage × Request ℤ)
calls =
    (holds, calm, thirty 1)
    ∷ (debits, calm, thirty 2)
    ∷ (releases, calm, thirty 3)
    ∷ (debits, calm, record (thirty 4) { amount = pos 9000000 })
    ∷ []

service_Solvent : Solvent service.db.wallets
service_Solvent = ground arith

serve_all-Solvent_example : Solvent (serve_all calls service).db.wallets
serve_all-Solvent_example = serve_all-Solvent calls service service_Solvent

serve-Moved_example : Moved holds (thirty 1) shop shop_db (serve holds calm (thirty 1) service).1.db
unfolding opened
serve-Moved_example = serve-Moved holds calm (thirty 1) shop service refl refl refl refl refl refl

holds_releases_conserve_example :
    (w' : Wallet ℤ) × (find_row (is_id 7) (serve holds calm (thirty 1) service).1.db.wallets
      ≡ some w')
    × (w'.balance +ℤ w'.hold_balance ≡ pos 1200000)
unfolding opened
holds_releases_conserve_example =
    holds_releases_conserve holds calm (thirty 1) shop service (inl refl) refl refl refl refl refl
      refl

shop_db-Reconciled : Reconciled shop_db
unfolding opened
shop_db-Reconciled id w e = elim (Bool-cases (7 == id)) [
  | inl same ↦
      let is : shop ≡ w = ground arith in
      subst
        (λ x.
          IsCents x.balance × IsCents x.hold_balance × (ledger_sum x.id shop_db.ledger ≡ x.balance))
        is (refl, refl, refl)
  | inr ne ↦ absurd (ground arith)
]

serve_all-Reconciled_example : Reconciled (serve_all calls service).db
unfolding opened
serve_all-Reconciled_example =
    serve_all-Reconciled calls service (refl, (refl, (refl, (refl, tt)))) shop_db-Reconciled

serve_once_example :
    let s = (serve holds calm (thirty 1) service).1 in
    serve releases calm (record (thirty 1) { amount = pos 100000 }) s ≡ (ok tt, s)
unfolding opened
serve_once_example =
    serve_once holds releases calm calm (thirty 1) (record (thirty 1) { amount = pos 100000 })
      service refl refl refl refl

held-serve_example : held 7 (serve debits calm (thirty 1) service).1.redis ≡ none
held-serve_example = held-serve debits calm (thirty 1) 7 service refl

serve_busy_example :
    serve {R = Keys} credits calm (thirty 1) (record { db = shop_db; redis = some (λ _. some 4) })
    ≡ (err lock_not_acquired, record { db = shop_db; redis = some (λ _. some 4) })
serve_busy_example =
    serve_busy credits calm (thirty 1) 4 shop_db (λ _. some 4) refl refl refl refl refl

abbrev first : Call ℤ
first = record { outage = calm; request = thirty 1; body = credit_tx calm (thirty 1) }

-- the same request once more, by another holder
abbrev retry : Call ℤ
retry = record first { request = record (thirty 1) { lock_value = 56 } }

run_exclusive_example :
    let w = run first retry late_lock (begin service) in
    ¬ ((is_inside w.left ≡ true) × (is_inside w.right ≡ true))
run_exclusive_example =
    run_exclusive first retry refl (omega arith) late_lock service (λ _. none) refl

-- One request of 30.00 that is sent twice credits 60.00.
late_lock_runs_both_example :
    let w =
      run {R = Keys}
        (crediting (thirty 1))
        (crediting (record (thirty 1) { lock_value = 56 }))
        late_lock
        (begin (record { db = shop_db; redis = some (λ _. none) })) in
    (w.left ≡ finished (ok tt))
    × (w.right ≡ finished (ok tt))
    × (count_rows (is_reference (thirty 1).reference_id) w.service.db.ledger ≡ 2)
unfolding opened
late_lock_runs_both_example =
    late_lock_runs_both (thirty 1) (record (thirty 1) { lock_value = 56 }) shop_db
      (credit_tx calm (thirty 1) shop_db).1
      (credit_tx calm (thirty 1) (credit_tx calm (thirty 1) shop_db).1).1 (λ _. none) refl refl refl
      refl refl refl refl refl

double_credit :
    view (run first retry late_lock (begin (record service { redis = none }))).service
    ≡ some (pos 1600000, pos 200000, 5)
unfolding opened run step advance
double_credit = refl

serve_succeeds_example :
    let (q, t) = serve holds calm (thirty 1) service in
    (q ≡ ok tt) × (t.db ≡ exact holds shop_db (thirty 1) shop)
unfolding opened
serve_succeeds_example =
    serve_succeeds holds (thirty 1) shop service refl refl refl refl refl (record {
      balance_fits = refl;
      hold_fits = refl;
      change_fits = refl;
      version_fits = omega arith;
    })

ensure_wallet_exists_idempotent_example :
    ensure_wallet_exists calm calm merchant 71 "THB" 9 20
      (ensure_wallet_exists calm calm merchant 71 "THB" 8 10 shop_db).1
    ≡ (ok 8, (ensure_wallet_exists calm calm merchant 71 "THB" 8 10 shop_db).1)
unfolding opened ensure_wallet_exists ensure_found get_by_owner create OwnerType-discrete
ensure_wallet_exists_idempotent_example =
    ensure_wallet_exists_idempotent calm calm calm calm merchant 71 "THB" 8 9 10 20 8 shop_db _ refl
      refl
