-- ===== src/Withdrawal/Limit.antt =====
-- The daily limit of a merchant over any sequence of calls.
use richpayment.Base.{
  ℕ, ◌≡◌, refl, sym, Bool, true, false, List, [], ◌∷◌, none, some, arith, ◌==◌, Bool-cases, inl,
  inr,
}
use mathlib.Core.Path.{subst}
use richpayment.Base.Table.{find_row}
use richpayment.Decimal.{Decimal, greater, is_positive, is_negative}
use richpayment.Decimal.Laws.{le_trans, le-add_right, add_le}
use richpayment.Withdrawal.Types.{
  WithdrawalStatus, WithdrawalStatus-discrete, rejected, failed, Withdrawal, WithdrawalRequest,
  Desk,
}
use richpayment.Withdrawal.Repo.{
  is_id, is_status, counts, day_start, sum_counted, sum_daily_withdrawals,
}
use richpayment.Withdrawal.Service.{
  WalletClient, new_withdrawal, over_limit, Command, create_one, approve_one, reject_one,
  complete_one, serve, serve_all,
}
use richpayment.Withdrawal.Outcome.{
  Step, approve, reject, complete, Ending, unchanged, added, updated, serve-Ending,
}
use richpayment.Withdrawal.Runs.{step_row, stepped}
use richpayment.Withdrawal.Rows.{step_row-IsSame}

-- A step starts at a status that counts.
Step-counts :
    {a b : WithdrawalStatus}
    → Step a b
    → (is_status a rejected ≡ false) × (is_status a failed ≡ false)
unfolding WithdrawalStatus-discrete
Step-counts approve = (refl, refl)
Step-counts reject = (refl, refl)
Step-counts complete = (refl, refl)

module _ {D : Type 0} ⦃d : Decimal D⦄ where
  abbrev pub AllNonneg : List (Withdrawal D) → Type 0
  AllNonneg [] = Unit
  AllNonneg (w ∷ rows) = (is_negative w.amount ≡ false) × AllNonneg rows

  -- No day's sum is above the limit of its merchant, and no amount is negative; a limit of zero is
  -- no limit.
  pub record IsUnder (limits : ℕ → D) (rows : List (Withdrawal D)) : Type 0 where
    pub nonneg : AllNonneg rows
    pub within :
        (merchant_id date : ℕ)
        → is_positive (limits merchant_id) ≡ true
        → greater (sum_daily_withdrawals merchant_id date rows) (limits merchant_id) ≡ false

  -- A step never makes a row count that did not.
  counts-Step :
      (m start : ℕ) (status : WithdrawalStatus) (fields : List _) (w : Withdrawal D)
      → Step w.status status
      → counts m start (step_row status fields w) ≡ true
      → counts m start w ≡ true
  counts-Step m start status fields w step h =
      ground (arith, step_row-IsSame status fields w, Step-counts step)

  sum-stepped :
      (m start id : ℕ) (status : WithdrawalStatus) (fields : List _) (w : Withdrawal D)
      (rows : List (Withdrawal D))
      → AllNonneg rows
      → find_row (is_id id) rows ≡ some w
      → Step w.status status
      → greater (sum_counted m start (stepped id status fields rows)) (sum_counted m start rows)
        ≡ false
  unfolding sum_counted
  sum-stepped m start id status fields w [] nn found step = cc
  sum-stepped m start id status fields w (x ∷ rows) nn found step =
      let rest = sum_counted m start rows in
      elim (Bool-cases (x.id == id)) [
        | inl e ↦
            let is : x ≡ w = ground arith in
            let moves : Step x.status status =
              subst (λ (y : Withdrawal D). Step y.status status) (sym is) step in
            let (same, _) = step_row-IsSame status fields x in
            elim (Bool-cases (counts m start (step_row status fields x))) [
              | inl c ↦
                  rw (e, c, counts-Step m start status fields x moves c, same.amount)
                    (d.lt_irrefl (d.add rest x.amount))
              | inr c ↦ elim (Bool-cases (counts m start x)) [
                | inl f ↦ rw (e, c, f) (le-add_right rest x.amount nn.0)
                | inr f ↦ rw (e, c, f) (d.lt_irrefl rest)
              ]
            ]
        | inr e ↦
            let found_rest : find_row (is_id id) rows ≡ some w = rw e at found in
            let below = sum-stepped m start id status fields w rows nn.1 found_rest step in
            elim (Bool-cases (counts m start x)) [
              | inl f ↦
                  rw (e, f)
                    (add_le (sum_counted m start (stepped id status fields rows)) rest x.amount
                      below)
              | inr f ↦ rw (e, f) below
            ]
      ]

  AllNonneg-stepped :
      (id : ℕ) (status : WithdrawalStatus) (fields : List _) (rows : List (Withdrawal D))
      → AllNonneg rows
      → AllNonneg (stepped id status fields rows)
  AllNonneg-stepped id status fields [] nn = tt
  AllNonneg-stepped id status fields (x ∷ rows) nn =
      ground (arith, AllNonneg-stepped id status fields rows, step_row-IsSame status fields x)

  -- A request whose two looks at the clock fall on one day, for an amount that is not negative,
  -- under the merchant's limit.
  abbrev pub IsFair : (ℕ → D) → Command D → Type 0
  IsFair limits (create_one none r) = Unit
  IsFair limits (create_one (some limit) r) =
      (limit ≡ limits r.merchant_id)
      × (is_negative r.amount ≡ false)
      × (day_start r.today ≡ day_start r.now)
  IsFair limits (approve_one _ _ _) = Unit
  IsFair limits (reject_one _ _ _ _) = Unit
  IsFair limits (complete_one _ _ _ _ _) = Unit

  sum_room :
      (m date : ℕ) (r : WithdrawalRequest D) (rows : List (Withdrawal D)) (limits : ℕ → D)
      → is_positive (limits m) ≡ true
      → counts m (day_start date) (new_withdrawal r) ≡ true
      → day_start r.today ≡ day_start r.now
      → over_limit
          (limits r.merchant_id)
          (sum_daily_withdrawals r.merchant_id r.today rows)
          r.amount
        ≡ false
      → greater (d.add (sum_counted m (day_start date) rows) r.amount) (limits m) ≡ false
  sum_room m date r rows limits pos e day under =
      let same : r.merchant_id ≡ m = ground arith in
      let today : day_start r.today ≡ day_start date = ground arith in
      let here : over_limit (limits m) (sum_counted m (day_start date) rows) r.amount ≡ false =
        rw (same, today) at under in
      ground arith

  sum-added :
      (m date : ℕ) (r : WithdrawalRequest D) (rows : List (Withdrawal D)) (limits : ℕ → D)
      → IsUnder limits rows
      → is_positive (limits m) ≡ true
      → day_start r.today ≡ day_start r.now
      → over_limit
          (limits r.merchant_id)
          (sum_daily_withdrawals r.merchant_id r.today rows)
          r.amount
        ≡ false
      → greater (sum_daily_withdrawals m date (new_withdrawal r ∷ rows)) (limits m) ≡ false
  unfolding sum_counted
  sum-added m date r rows limits u pos day under =
      elim (Bool-cases (counts m (day_start date) (new_withdrawal r))) [
        | inr e ↦ rw e (u.within m date pos)
        | inl e ↦ rw e (sum_room m date r rows limits pos e day under)
      ]

  Ending-IsUnder :
      (c : Command D) (limits : ℕ → D) (rows rows' : List (Withdrawal D)) (success : Bool)
      → Ending c rows success rows'
      → IsFair limits c
      → IsUnder limits rows
      → IsUnder limits rows'
  Ending-IsUnder c limits rows rows' success (unchanged _ is) fair u = rw is u
  Ending-IsUnder c limits rows rows' success (added limit r asked _ under _ is) fair u =
      let (same, nonneg, day) = rw asked at fair in
      rw is (record {
        nonneg = (nonneg, u.nonneg);
        within = λ m date pos. sum-added m date r rows limits u pos day (rw same at under);
      })
  Ending-IsUnder c limits rows rows' success (updated id w status fields _ read step is) fair u =
      rw is (record {
        nonneg = AllNonneg-stepped id status fields rows u.nonneg;
        within = λ m date pos.
            le_trans {D = D} _ _ _
              (sum-stepped m (day_start date) id status fields w rows u.nonneg read step)
              (u.within m date pos);
      })

-- All calls are of that form.
abbrev pub AllFair : {D : Type 0} ⦃d : Decimal D⦄ → (ℕ → D) → List (Command D) → Type 0
AllFair limits [] = Unit
AllFair limits (c ∷ cs) = IsFair limits c × AllFair limits cs

module _ {D W : Type 0} ⦃d : Decimal D⦄ ⦃client : WalletClient D W⦄ where
  -- If no day's sum of withdrawals is above its merchant's limit and no amount is negative, then so
  -- it is after any sequence of calls, each seeing the merchant's one limit, asking for an amount
  -- that is not negative, and not crossing midnight: the sum of pending, approved and completed
  -- withdrawals of a day never passes a positive limit.
  pub serve_all-IsUnder :
      (limits : ℕ → D) (cs : List (Command D)) (s : Desk D W)
      → AllFair limits cs
      → IsUnder limits s.rows
      → IsUnder limits (serve_all cs s).rows
  unfolding serve_all
  serve_all-IsUnder limits [] s fair u = u
  serve_all-IsUnder limits (c ∷ cs) s fair u =
      serve_all-IsUnder limits cs (serve c s).1 fair.1
        (Ending-IsUnder c limits s.rows (serve c s).1.rows _ (serve-Ending c s) fair.0 u)
