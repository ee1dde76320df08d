-- ===== src/Commission/Tests.antt =====
-- The theorems on the commission service at concrete inputs: amounts in units of 0.0001 and columns
-- that round to the cent.
use richpayment.Base.{
  ℕ, ◌≡◌, refl, false, none, some, List, [], ◌∷◌, arith, inl, inr, ◌==◌, Bool-cases,
}
use mathlib.Core.Path.{subst}
use richpayment.Base.Result.{ok, err}
use richpayment.Decimal.{greater, IsCents}
use richpayment.Decimal.Fixed.{ℤ, pos, fixed, round_cents, ◌+ℤ◌, negate, multiply}
use richpayment.Wallet.Types.{agent, OwnerType-discrete, Wallet, commission_credit}
use richpayment.Wallet.Reconcile.{Reconciled, ledger_sum}
use richpayment.Wallet.Sample.{stored_round, wide}
use richpayment.Commission.Types.{
  deposit, TransactionType-discrete, CommissionInput, Commission, Books, Error,
  negative_system_share,
}
use richpayment.Commission.Calculator.{commission_of, calculate_commission, combined_pct}
use richpayment.Commission.Split.{
  Splits, calculate_commission-Splits, fee_le_amount, lone_recipient_succeeds,
}
use richpayment.Commission.Aggregator.{key_of, add_to_group, add_commission, group_commissions}
use richpayment.Commission.Earned.{commission_at, earned_sum, group_commissions_earned}
use richpayment.Commission.Totals.{
  commission_sum, fee_sum, AllCalculated, VolumeIsFee, group_commissions_total,
  group_commissions-VolumeIsFee,
}
use richpayment.Commission.Recorder.{
  Failures, CommissionColumns, wallet_row, insert_commission, credit_wallet, credit_share,
  record_commission,
}
use richpayment.Commission.Credits.{raised, credit_wallet_repeats}
use richpayment.Commission.Recorded.{record_commission-Reconciled, record_commission_unpaid}

instance abbrev shares : CommissionColumns ℤ
shares = record {
  store_share = λ a. some (round_cents a);
  store_rate = λ a. some a;
  store_share_round = stored_round;
}

-- what a run at concrete values computes with
opened : ℕ
unfolding calculate_commission multiply round_cents ◌+ℤ◌ negate add_to_group add_commission
    group_commissions insert_commission credit_wallet credit_share record_commission
    OwnerType-discrete TransactionType-discrete
opened = 0

-- 1000.00 at 2%, of which 1% for the agent 40 and 0.5% for the partner 50
abbrev sale : CommissionInput ℤ
sale = record {
  transaction_type = deposit;
  transaction_id = 11;
  merchant_id = 30;
  transaction_amount = pos 10000000;
  merchant_fee_pct = pos 200;
  agent_id = some 40;
  agent_commission_pct = pos 100;
  partner_id = some 50;
  partner_commission_pct = pos 50;
  currency = "THB";
}

abbrev direct : CommissionInput ℤ
direct = record sale { partner_id = none; partner_commission_pct = pos 0 }

-- 0.50 at 2%, 1% for each of the two: each share is rounded up to the whole fee.
abbrev small_sale : CommissionInput ℤ
small_sale = record sale { transaction_amount = pos 5000; partner_commission_pct = pos 100 }

abbrev paid : Commission ℤ
paid = commission_of sale 5 10

small_sale_refused :
    (calculate_commission small_sale 5 10 ≡ err negative_system_share)
    × (greater (combined_pct small_sale) small_sale.merchant_fee_pct ≡ false)
unfolding opened
small_sale_refused = (refl, refl)

calculate_commission-Splits_example : Splits paid
unfolding opened
calculate_commission-Splits_example = calculate_commission-Splits sale 5 10 paid refl refl refl refl

fee_le_amount_example : greater paid.total_fee_amount (pos 10000000) ≡ false
unfolding opened
fee_le_amount_example = fee_le_amount sale 5 10 paid refl refl refl refl

lone_recipient_succeeds_example : calculate_commission direct 5 10 ≡ ok (commission_of direct 5 10)
unfolding opened
lone_recipient_succeeds_example = lone_recipient_succeeds direct 5 10 (inr refl) refl refl refl refl

abbrev day : List (Commission ℤ)
day = paid ∷ commission_of direct 6 12 ∷ []

day-AllCalculated : AllCalculated day
unfolding opened
day-AllCalculated =
    ((sale, 5, 10, refl, refl, refl, refl), ((direct, 6, 12, refl, refl, refl, refl), tt))

group_commissions_total_example : commission_sum (group_commissions 0 [] day) ≡ fee_sum day
group_commissions_total_example = group_commissions_total 0 day day-AllCalculated

day_fees : fee_sum day ≡ pos 400000
unfolding opened
day_fees = refl

group_commissions-VolumeIsFee_example : VolumeIsFee (group_commissions 0 [] day)
group_commissions-VolumeIsFee_example = group_commissions-VolumeIsFee 0 [] day tt

group_commissions_earned_example :
    commission_at (key_of agent 40 paid) (group_commissions 0 [] day)
    ≡ earned_sum (key_of agent 40 paid) day
group_commissions_earned_example = group_commissions_earned (key_of agent 40 paid) 0 day

agent_earned : earned_sum (key_of agent 40 paid) day ≡ pos 200000
unfolding opened
agent_earned = refl

-- The agent's wallet, under the agent's own id as `RecordCommission` asks for it.
abbrev agent_wallet : Wallet ℤ
agent_wallet = record {
  id = 40;
  owner_type = agent;
  owner_id = 40;
  currency = "THB";
  balance = pos 0;
  hold_balance = pos 0;
  version = 1;
  created_at = 0;
  updated_at = 0;
}

abbrev books : Books ℤ
books = record {
  db = record { wallets = agent_wallet ∷ []; ledger = [] };
  commissions = [];
  summaries = [];
}

abbrev no_wallets : Books ℤ
no_wallets = record books { db = record { wallets = []; ledger = [] } }

abbrev answers : Failures
answers = record { insert_commission = false; update_wallet = false; insert_ledger = false }

books-Reconciled : Reconciled books.db
unfolding opened
books-Reconciled id w e = elim (Bool-cases (40 == id)) [
  | inl same ↦
      let is : agent_wallet ≡ w = ground arith in
      subst
        (λ x.
          IsCents x.balance
          × IsCents x.hold_balance
          × (ledger_sum x.id books.db.ledger ≡ x.balance))
        is (refl, refl, refl)
  | inr ne ↦ absurd (ground arith)
]

credit_wallet_repeats_example :
    wallet_row 40
      (credit_wallet answers 40
        (pos 100000)
        commission_credit
        5
        "fee"
        20
        (credit_wallet answers 40 (pos 100000) commission_credit 5 "fee" 10 books).1).1
    ≡ some (raised (pos 200000) 20 agent_wallet)
unfolding opened
credit_wallet_repeats_example =
    credit_wallet_repeats answers answers 40 (pos 100000) commission_credit 5 "fee" 10 20
      agent_wallet books
      (credit_wallet answers 40 (pos 100000) commission_credit 5 "fee" 10 books).1
      (credit_wallet answers 40 (pos 100000) commission_credit 5 "fee" 20
        (credit_wallet answers 40 (pos 100000) commission_credit 5 "fee" 10 books).1).1
      books-Reconciled refl refl refl refl

record_commission-Reconciled_example :
    Reconciled
      (record_commission answers answers answers (commission_of direct 6 12) "fee" 20 books).1.db
unfolding opened
record_commission-Reconciled_example =
    record_commission-Reconciled answers answers answers (commission_of direct 6 12) "fee" 20 books
      (record_commission answers answers answers (commission_of direct 6 12) "fee" 20 books).1 refl
      refl refl books-Reconciled

record_commission_unpaid_example :
    (e : Error) × (record_commission answers answers answers paid "fee" 20 no_wallets
      ≡ (err e, record no_wallets { commissions = paid ∷ [] }))
unfolding opened
record_commission_unpaid_example =
    record_commission_unpaid answers answers answers paid "fee" 20 40 no_wallets
      (record no_wallets { commissions = paid ∷ [] }) refl refl refl refl
