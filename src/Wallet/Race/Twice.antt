-- ===== src/Wallet/Race/Twice.antt =====
-- The look-up of the reference stands before the lock, so it does not serialise two calls.
use richpayment.Base.{
  suc, ◌≡◌, refl, sym, ap, ◌∙◌, Bool, ==_iff, some, false, true, false, none, List, [], ◌∷◌, arith,
}
use richpayment.Base.Table.{exists_row, count_rows}
use richpayment.Base.Result.{ok}
use richpayment.Decimal.{Decimal, is_positive}
use richpayment.Wallet.Types.{Db, Request, Outage}
use richpayment.Wallet.Lock.{
  Redis, acquire_wallet_lock, release_wallet_lock, acquire_lock, release_lock, release_lock_script,
}
use richpayment.Wallet.Repo.{Column, is_reference, in_tx}
use richpayment.Wallet.Service.{credit_tx, credits}
use richpayment.Wallet.Posting.{tx_of-Posts}
use richpayment.Wallet.Mutex.{release-acquire}
use richpayment.Wallet.Race.{finished, advance}
use richpayment.Wallet.Race.Pair.{Call, Side, left_moves, right_moves, begin, step, run}

-- Nothing fails.
abbrev pub calm : Outage
calm = record {
  exists_query = false;
  set_nx = false;
  release = false;
  begin = false;
  select = false;
  update = false;
  insert = false;
  commit = false;
}

-- Both look their reference up, then the left call runs to its end, then the right one.
abbrev pub late_lock : List Side
late_lock =
    left_moves ∷ right_moves ∷ left_moves ∷ left_moves ∷ left_moves ∷ right_moves ∷ right_moves
    ∷ right_moves ∷ []

exists_row-count_rows :
    {A : Type 0} (test : A → Bool) (xs : List A)
    → exists_row test xs ≡ false
    → count_rows test xs ≡ 0
exists_row-count_rows test [] none_there = refl
exists_row-count_rows test (x ∷ xs) none_there = ground (arith, exists_row-count_rows test xs)

module _ {D : Type 0} ⦃d : Decimal D⦄ ⦃column : Column D⦄ where
  abbrev pub crediting : Request D → Call D
  crediting r = record { outage = calm; request = r; body = credit_tx calm r }

  -- a committed credit has put one row under its reference
  credit_tx-count_rows :
      (r : Request D) (db db' : Db D)
      → credit_tx calm r db ≡ (ok tt, db')
      → count_rows (is_reference r.reference_id) db'.ledger
        ≡ suc (count_rows (is_reference r.reference_id) db.ledger)
  credit_tx-count_rows r db db' runs =
      let posts = tx_of-Posts credits calm r db db' runs in
      ap (λ (x : Db D). count_rows (is_reference r.reference_id) x.ledger) posts.after
      ∙ ground (arith, (==_iff r.reference_id r.reference_id).1 refl)

module _ {D R : Type 0} ⦃d : Decimal D⦄ ⦃column : Column D⦄ ⦃redis : Redis R⦄ where
  late_lock-runs :
      (a b : Request D) (db db1 db2 : Db D) (u : R)
      → is_positive a.amount ≡ true
      → is_positive b.amount ≡ true
      → exists_row (is_reference a.reference_id) db.ledger ≡ false
      → exists_row (is_reference b.reference_id) db.ledger ≡ false
      → redis.get a.wallet_id u ≡ none
      → redis.get b.wallet_id u ≡ none
      → credit_tx calm a db ≡ (ok tt, db1)
      → credit_tx calm b db1 ≡ (ok tt, db2)
      → let w =
          run (crediting a) (crediting b) late_lock (begin (record { db = db; redis = some u })) in
        (w.left ≡ finished (ok tt)) × (w.right ≡ finished (ok tt)) × (w.service.db ≡ db2)
  unfolding run step advance in_tx acquire_wallet_lock release_wallet_lock acquire_lock release_lock
  late_lock-runs a b db db1 db2 u pa pb na nb ga gb ra rb =
      let u1 =
        release_lock_script a.wallet_id a.lock_value (redis.set_nx a.wallet_id a.lock_value u).1 in
      let free = release-acquire b.wallet_id a.wallet_id a.lock_value u ga ∙ gb in
      let first = redis.set_nx_free a.wallet_id a.lock_value u ga in
      let second = redis.set_nx_free b.wallet_id b.lock_value u1 free in
      (ground arith, ground arith, ground arith)

  -- Two credits under one reference that is not in the ledger both run under the schedule
  -- `late_lock`, though each holds the wallet's lock for its transaction: both return nil and the
  -- ledger ends with two rows under the reference. (Their keys are free at first, nothing fails, and
  -- each transaction, run alone on what it finds, commits.)
  pub late_lock_runs_both :
      (a b : Request D) (db db1 db2 : Db D) (u : R)
      → a.reference_id ≡ b.reference_id
      → is_positive a.amount ≡ true
      → is_positive b.amount ≡ true
      → exists_row (is_reference a.reference_id) db.ledger ≡ false
      → redis.get a.wallet_id u ≡ none
      → redis.get b.wallet_id u ≡ none
      → credit_tx calm a db ≡ (ok tt, db1)
      → credit_tx calm b db1 ≡ (ok tt, db2)
      → let w =
          run (crediting a) (crediting b) late_lock (begin (record { db = db; redis = some u })) in
        (w.left ≡ finished (ok tt))
        × (w.right ≡ finished (ok tt))
        × (count_rows (is_reference a.reference_id) w.service.db.ledger ≡ 2)
  late_lock_runs_both a b db db1 db2 u same pa pb na ga gb ra rb =
      let nb = ap (λ x. exists_row (is_reference x) db.ledger) (sym same) ∙ na in
      let (left, right, ends) = late_lock-runs a b db db1 db2 u pa pb na nb ga gb ra rb in
      let rows = λ (x : Db D). count_rows (is_reference a.reference_id) x.ledger in
      let one : rows db1 ≡ 1 =
        credit_tx-count_rows a db db1 ra
        ∙ ap suc (exists_row-count_rows (is_reference a.reference_id) db.ledger na) in
      let two : rows db2 ≡ 2 =
        ap (λ x. count_rows (is_reference x) db2.ledger) same
        ∙ credit_tx-count_rows b db1 db2 rb
        ∙ ap (λ x. suc (count_rows (is_reference x) db1.ledger)) (sym same)
        ∙ ap suc one in
      (left, right, ap rows ends ∙ two)
