-- ===== src/Order/Load.antt =====
-- The load of a bank account in the pool, which decides which account gets the next order.
use richpayment.Base.{
  ℕ, zero, suc, ◌+◌, ◌≡◌, refl, sym, ap, ◌∙◌, Bool, false, ◌&&◌, Option, none, some, List, [], ◌∷◌,
  arith, ◌==◌, if◌then◌else◌, inl, inr,
}
use mathlib.Core.Path.{subst}
use richpayment.Base.Table.{count_rows, count_rows-set_row}
use richpayment.Base.Budget.{total}
use richpayment.Base.Result.{Result, >>=_runs, >>=_stops}
use richpayment.Decimal.{Decimal}
use richpayment.Decimal.Fixed.{ℤ, pos, negsuc}
use richpayment.Order.Types.{Error, Desk}
use richpayment.Order.Redis.{succ, pred, Redis}
use richpayment.Order.Repo.{is_id, get_by_id}
use richpayment.Order.Calls.{on_rows}
use richpayment.Order.Deposit.{Forms, complete_read, complete_deposit}
use richpayment.Order.Timeout.{expire_read, expire_single_order}
use richpayment.Order.Run.{
  Command, create_one, complete_one, match_one, expire_one, run, run_all, lost_account,
}
use richpayment.Order.Effect.{
  waits_at, Effect, kept, opened, failed, closed, read-cases, complete_read-Effect,
  expire_read-Effect, match_sms_to_order-Effect,
}
use richpayment.Order.Opening.{create_deposit_order-Effect}

-- an integer raised so many times by one
abbrev pub shift : ℤ → ℕ → ℤ
shift base zero = base
shift base (suc n) = succ (shift base n)

pred-succ : (z : ℤ) → pred (succ z) ≡ z
unfolding succ pred
pred-succ (pos n) = refl
pred-succ (negsuc zero) = refl
pred-succ (negsuc (suc n)) = refl

shift-left : (base : ℤ) (w n : ℕ) → shift base (suc w + n) ≡ succ (shift base (w + n))
shift-left base w n = ap (shift base) {x = suc w + n} {y = suc (w + n)} (omega arith)

shift-right : (base : ℤ) (w n : ℕ) → shift base (w + suc n) ≡ succ (shift base (w + n))
shift-right base w n = ap (shift base) {x = w + suc n} {y = suc (w + n)} (omega arith)

-- the call writes to the pool
abbrev pub Counts : {D : Type 0} → Command D → Type 0
Counts (create_one cfg f r) = f.incr ≡ false
Counts (complete_one cfg f id by actual now) = f.incr ≡ false
Counts (match_one cfg f same account amount) = Unit
Counts (expire_one f id now) = f.incr ≡ false

abbrev pub AllCount : {D : Type 0} → List (Command D) → Type 0
AllCount [] = Unit
AllCount (c ∷ cs) = Counts c × AllCount cs

-- the account that a failed creation has raised is this one
abbrev pub is_at : (merchant_id account : ℕ) → Option (ℕ × ℕ) → Bool
is_at m a none = false
is_at m a (some (n, b)) = m == n && a == b

module _ {D P Q E : Type 0} ⦃redis : Redis D P Q E⦄ where
  abbrev load_of : (m a : ℕ) → Desk D P Q E → ℤ
  load_of m a s = redis.pools.load m a s.pools

  abbrev waiting : (m a : ℕ) → Desk D P Q E → ℕ
  waiting m a s = count_rows (waits_at m a) s.rows

  -- One call: the load goes with the orders that wait, and with a creation that fails.
  Effect-load :
      (m a n : ℕ) (base : ℤ) (lost : Option (ℕ × ℕ)) (s s' : Desk D P Q E)
      → Effect lost s s'
      → load_of m a s ≡ shift base (waiting m a s + n)
      → load_of m a s' ≡ shift base (waiting m a s' + (if is_at m a lost then suc n else n))
  Effect-load m a n base lost s s' (kept rows pools is) at = rw (rows, pools, is) at
  Effect-load m a n base lost s s' (opened o waits new rows pools is) at = rw is (
      ground (
        arith,
        ap (redis.pools.load m a) pools,
        redis.pools.load_incr m a o.merchant_id o.bank_account_id s.pools,
        ap (count_rows (waits_at m a)) rows,
        shift-left base (waiting m a s) n,
      ))
  Effect-load m a n base lost s s' (failed k b rows pools is) at = rw is (
      ground (
        arith,
        ap (redis.pools.load m a) pools,
        redis.pools.load_incr m a k b s.pools,
        ap (count_rows (waits_at m a)) rows,
        shift-right base (waiting m a s) n,
      ))
  Effect-load m a n base lost s s' (closed id o change found waits out rows pools is) at = rw is (
      ground (
        arith,
        ap (redis.pools.load m a) pools,
        redis.pools.load_decr m a o.merchant_id o.bank_account_id s.pools,
        ap (count_rows (waits_at m a)) rows,
        count_rows-set_row (waits_at m a) (is_id id) change o s.rows (out m a) found,
        shift-left base (waiting m a s') n,
        pred-succ (shift base (waiting m a s' + n)),
      ))

module _ {D P Q E : Type 0} ⦃d : Decimal D⦄ ⦃forms : Forms D⦄ ⦃redis : Redis D P Q E⦄ where
  pub run-Effect :
      (c : Command D) (s : Desk D P Q E) → Counts c → Effect (lost_account c s) s (run c s)
  unfolding run complete_deposit expire_single_order
  run-Effect (create_one cfg f r) s up = create_deposit_order-Effect cfg f r s up
  run-Effect (complete_one cfg f id by actual now) s up = elim (read-cases f id s) [
    | inl (e, is) ↦
        subst (λ (p : Result Error (Unit {0}) × Desk D P Q E). Effect none s p.1)
          (sym
            (>>=_stops (on_rows (get_by_id f id)) (complete_read cfg f id by actual now) s s e is))
          (kept refl refl refl)
    | inr (o, found, is) ↦
        subst (λ (p : Result Error (Unit {0}) × Desk D P Q E). Effect none s p.1)
          (sym
            (>>=_runs (on_rows (get_by_id f id)) (complete_read cfg f id by actual now) s s o is))
          (complete_read-Effect cfg f id by actual now o s up found)
  ]
  run-Effect (match_one cfg f same account amount) s up =
      match_sms_to_order-Effect cfg f same account amount s
  run-Effect (expire_one f id now) s up = elim (read-cases f id s) [
    | inl (e, is) ↦
        subst (λ (p : Result Error (Unit {0}) × Desk D P Q E). Effect none s p.1)
          (sym (>>=_stops (on_rows (get_by_id f id)) (expire_read f id now) s s e is))
          (kept refl refl refl)
    | inr (o, found, is) ↦
        subst (λ (p : Result Error (Unit {0}) × Desk D P Q E). Effect none s p.1)
          (sym (>>=_runs (on_rows (get_by_id f id)) (expire_read f id now) s s o is))
          (expire_read-Effect f id now o s up found)
  ]

  -- a creation that raised the load of the account and then failed
  abbrev pub is_lost : (merchant_id account : ℕ) → Command D → Desk D P Q E → Bool
  is_lost m a c s = is_at m a (lost_account c s)

  load_from :
      (m a n : ℕ) (base : ℤ) (cs : List (Command D)) (s : Desk D P Q E)
      → AllCount cs
      → redis.pools.load m a s.pools ≡ shift base (count_rows (waits_at m a) s.rows + n)
      → redis.pools.load m a (run_all cs s).pools
        ≡ shift base
            (count_rows (waits_at m a) (run_all cs s).rows + (total run (is_lost m a) cs s + n))
  unfolding run_all
  load_from m a n base [] s all at = at ∙ ap (shift base) (omega arith)
  load_from m a n base (c ∷ cs) s (up, all) at =
      let next = Effect-load m a n base (lost_account c s) s (run c s) (run-Effect c s up) at in
      let later = load_from m a (if is_lost m a c s then suc n else n) base cs (run c s) all next in
      later ∙ ap (shift base) (ground arith)

  -- If the load of a bank account in a merchant's pool is a base value raised by one for each of the
  -- merchant's orders that wait for a payment to it, then after any sequence of creations, matches,
  -- completions and expiries, whatever failed in them but the writes to the pool, the load is the
  -- base value raised by one for each order that waits then, and by one for each creation that
  -- failed after it had chosen the account.
  pub run_all-load :
      (m a : ℕ) (base : ℤ) (cs : List (Command D)) (s : Desk D P Q E)
      → AllCount cs
      → redis.pools.load m a s.pools ≡ shift base (count_rows (waits_at m a) s.rows)
      → redis.pools.load m a (run_all cs s).pools
        ≡ shift base (count_rows (waits_at m a) (run_all cs s).rows + total run (is_lost m a) cs s)
  run_all-load m a base cs s all at =
      load_from m a 0 base cs s all (at ∙ ap (shift base) (omega arith))
      ∙ ap (shift base) (omega arith)
