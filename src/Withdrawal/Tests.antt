-- ===== src/Withdrawal/Tests.antt =====
-- The theorems on the withdrawal service at concrete inputs: amounts in units of 0.0001, and the
-- wallet service once as a stub that answers every call and once over HTTP.
use richpayment.Base.{ℕ, ◌≡◌, refl, true, Option, none, some, List, [], ◌∷◌, arith}
use richpayment.Base.Table.{find_row}
use richpayment.Base.Result.{ok, err}
use richpayment.Decimal.Fixed.{ℤ, pos, fixed, round_cents, ◌+ℤ◌, negate, multiply}
use richpayment.Wallet.Types.{merchant, OwnerType-discrete, Wallet, WalletService}
use richpayment.Wallet.Lock.{
  acquire_wallet_lock, acquire_lock, release_wallet_lock, release_lock, release_lock_script,
}
use richpayment.Wallet.Repo.{
  max_version, ledger_entry_exists_by_ref, in_tx, get_by_id_for_update, get_by_owner,
  update_balance_in_tx, create_ledger_entry_in_tx,
}
use richpayment.Wallet.Repo.{is_id as is_wallet}
use richpayment.Wallet.Service.{
  credit_tx, debit_tx, credit, debit, once_locked, with_wallet_lock, ensure_wallet_exists,
  ensure_found, get_balance,
}
use richpayment.Wallet.Handler.{
  Wire, ledger_entry_type, owner_type_of, check_body, handle_credit, handle_debit,
  handle_get_balance, post_debit, handle,
}
use richpayment.Wallet.Responses.{handle_error_unchanged}
use richpayment.Wallet.Race.Twice.{calm}
use richpayment.Wallet.Sample.{Keys, wide, keys}
use richpayment.Withdrawal.Types.{
  WithdrawalStatus-discrete, approved, bank, Withdrawal, WithdrawalRequest, Desk,
  daily_limit_exceeded,
}
use richpayment.Withdrawal.Repo.{is_id, sum_counted, create, get_by_id, update_status}
use richpayment.Withdrawal.Service.{
  WalletClient, new_withdrawal, create_withdrawal, approve_withdrawal, reject_withdrawal,
  complete_withdrawal, Command, create_one, approve_one, reject_one, complete_one, serve, serve_all,
}
use richpayment.Withdrawal.Lifecycle.{Kept, serve_all-Kept}
use richpayment.Withdrawal.Limit.{IsUnder, serve_all-IsUnder}
use richpayment.Withdrawal.Completion.{Settled, serve_error_rows, complete_settles}
use richpayment.Withdrawal.Client.{Exchange, body_of}
use richpayment.Withdrawal.Logged.{client_of}
use richpayment.Withdrawal.Settled.{create_withdrawal_settles}

-- `StubWalletClient`: a balance of 1,000,000 and nil from every call
instance abbrev stub : WalletClient ℤ (Unit {0})
stub = record {
  get_balance = λ _ _ s. (ok (pos 10000000000), s);
  hold_balance = λ _ _ _ _ s. (ok tt, s);
  release_hold = λ _ _ _ _ s. (ok tt, s);
  debit_hold = λ _ _ _ _ s. (ok tt, s);
}

-- what a run at concrete values computes with
opened : ℕ
unfolding serve serve_all create_withdrawal approve_withdrawal reject_withdrawal complete_withdrawal
    create get_by_id update_status sum_counted WithdrawalStatus-discrete multiply round_cents ◌+ℤ◌
    negate
opened = 0

-- 300.00 of merchant 7
abbrev request : ℕ → WithdrawalRequest ℤ
request id = record {
  id = id;
  merchant_id = 7;
  amount = pos 3000000;
  currency = "THB";
  dest_type = bank;
  dest_details = "123";
  today = 90000;
  now = 90001;
}

abbrev empty : Desk ℤ (Unit {0})
empty = record { rows = []; wallet = tt; commission_calls = [] }

-- the desk with one pending withdrawal, and with it approved
abbrev one : Desk ℤ (Unit {0})
one = record { rows = new_withdrawal (request 1) ∷ []; wallet = tt; commission_calls = [] }

abbrev limits : ℕ → ℤ
limits _ = pos 5000000

abbrev day : List (Command ℤ)
day =
    approve_one 1 90 91000
    ∷ create_one (some (pos 5000000)) (request 2)
    ∷ complete_one (some (pos 100)) 1 "ref" "url" 92000
    ∷ reject_one 1 90 "late" 93000
    ∷ []

serve_all-Kept_example : Kept 1 (new_withdrawal (request 1)) (serve_all day one).rows
serve_all-Kept_example = serve_all-Kept day 1 (new_withdrawal (request 1)) one refl

-- The second withdrawal would pass the limit, and a completed one is not rejected.
day_ends : (serve (create_one (some (pos 5000000)) (request 2)) one).0 ≡ err daily_limit_exceeded
unfolding opened
day_ends = refl

serve_all-IsUnder_example : IsUnder limits (serve_all day empty).rows
unfolding sum_counted
serve_all-IsUnder_example =
    serve_all-IsUnder limits day empty (tt, ((refl, refl, refl), (tt, (tt, tt))))
      (record { nonneg = tt; within = λ m date h. refl })

serve_error_rows_example : (serve (approve_one 5 90 91000) one).1.rows ≡ one.rows
unfolding opened
serve_error_rows_example = serve_error_rows (approve_one 5 90 91000) one refl

abbrev ready : Desk ℤ (Unit {0})
ready = record one { rows = record (new_withdrawal (request 1)) { status = approved } ∷ [] }

complete_settles_example :
    (w' : Withdrawal ℤ) × (find_row
        (is_id 1)
        (complete_withdrawal (some (pos 100)) 1 "ref" "url" 92000 ready).1.rows
      ≡ some w')
    × Settled (record (new_withdrawal (request 1)) { status = approved }) w'
unfolding opened
complete_settles_example =
    let (w', _, there, settled, _, _) =
      complete_settles (pos 100) 1 "ref" "url" 92000 ready
        (record (new_withdrawal (request 1)) { status = approved }) refl refl in
    (w', there, settled)

-- Texts, as what they were printed from.
data Text : Type 0 where
  id_text : ℕ → Text
  amount_text : ℤ → Text

abbrev parse_id : Text → Option ℕ
parse_id (id_text id) = some id
parse_id (amount_text _) = none

abbrev parse_amount : Text → Option ℤ
parse_amount (amount_text a) = some a
parse_amount (id_text _) = none

abbrev wire : Wire ℤ Text
wire = record {
  show_id = id_text;
  parse_id = parse_id;
  show_amount = amount_text;
  show_fixed = λ a. amount_text (round_cents a);
  parse_amount = parse_amount;
  parse_show_id = λ id. refl;
  parse_show_amount = λ a. refl;
  parse_show_fixed = λ a. refl;
}

-- Merchant 7 with 1000.00 in the wallet 7.
abbrev shop : Wallet ℤ
shop = record {
  id = 7;
  owner_type = merchant;
  owner_id = 7;
  currency = "THB";
  balance = pos 10000000;
  hold_balance = pos 0;
  version = 1;
  created_at = 0;
  updated_at = 0;
}

abbrev desk : Desk ℤ (WalletService ℤ Keys)
desk = record {
  rows = [];
  wallet = record { db = record { wallets = shop ∷ []; ledger = [] }; redis = some (λ _. none) };
  commission_calls = [];
}

abbrev exchange : Exchange
exchange = record {
  arrives = true;
  answers = true;
  server = record {
    outage = calm;
    again = calm;
    balance_outage = calm;
    lock_value = 55;
    fresh = 9;
    now = 90001;
  };
}

wallet_opened : ℕ
unfolding opened credit debit once_locked with_wallet_lock ledger_entry_exists_by_ref
    acquire_wallet_lock acquire_lock release_wallet_lock release_lock release_lock_script in_tx
    credit_tx debit_tx get_by_id_for_update update_balance_in_tx create_ledger_entry_in_tx
    max_version ensure_wallet_exists ensure_found get_balance get_by_owner OwnerType-discrete
    ledger_entry_type owner_type_of check_body handle_credit handle_debit handle_get_balance
wallet_opened = 0

abbrev held : Desk ℤ (WalletService ℤ Keys)
held =
    (create_withdrawal ⦃client = client_of wire exchange⦄ (some (pos 5000000)) (request 1) desk).1

create_withdrawal_settles_example :
    ((reject_withdrawal ⦃client = client_of wire exchange⦄ 1 90 "no" 91000 held).1.wallet
      ≡ held.wallet)
    × ((complete_withdrawal ⦃client = client_of wire exchange⦄
          (some (pos 100))
          1
          "ref"
          "url"
          91000
          held).1.wallet
        ≡ held.wallet)
unfolding wallet_opened
create_withdrawal_settles_example =
    create_withdrawal_settles wire exchange exchange (pos 5000000) (request 1) desk held
      (new_withdrawal (request 1)) (some (pos 100)) 90 91000 "no" "ref" "url" refl refl

abbrev balance_of : Option (Wallet ℤ) → Option ℤ
balance_of none = none
balance_of (some w) = some w.balance

-- The hold has taken the money: 700.00 are left, and the rejection does not change that.
held_balance : balance_of (find_row (is_wallet 7) held.wallet.db.wallets) ≡ some (pos 7000000)
unfolding wallet_opened
held_balance = refl

handle_error_unchanged_example :
    (handle ⦃wire = wire⦄ post_debit exchange.server
      (body_of ⦃wire = wire⦄ "withdrawal_hold" 8 (pos 10000) 1)
      desk.wallet).1.db
    ≡ desk.wallet.db
unfolding wallet_opened handle
handle_error_unchanged_example =
    handle_error_unchanged wire post_debit exchange.server
      (body_of ⦃wire = wire⦄ "withdrawal_hold" 8 (pos 10000) 1) desk.wallet (omega arith)
