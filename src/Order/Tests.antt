-- ===== src/Order/Tests.antt =====
-- The theorems on the order service at concrete inputs.
use richpayment.Base.{◌+◌, ◌≡◌, refl, true, some, List, [], ◌∷◌, arith}
use richpayment.Base.Table.{find_row, count_rows}
use richpayment.Base.Budget.{total}
use richpayment.Base.Result.{ok}
use richpayment.Decimal.Fixed.{ℤ, pos, fixed, ◌+ℤ◌}
use richpayment.Order.Types.{OrderStatus-discrete, expired, sms, DepositOrder, Desk}
use richpayment.Order.Repo.{is_id, updated_row, create}
use richpayment.Order.Deposit.{
  adjust_loop, adjust_amount_for_uniqueness, new_order, store_order, create_deposit_order,
  complete_read,
}
use richpayment.Order.Matcher.{match_by_unique_amount}
use richpayment.Order.Timeout.{expire_read}
use richpayment.Order.Run.{Command, create_one, expire_one, run, run_all}
use richpayment.Order.Effect.{waits_at}
use richpayment.Order.Load.{shift, is_lost, run_all-load}
use richpayment.Order.Matching.{create_all, match_finds_created}
use richpayment.Order.Race.{completed_row, expiry_overwrites_completion}
use richpayment.Order.Settling.{posts_of}
use richpayment.Order.Sample.{Loads, Pending, sets, forms, calm, config, request, empty}
use richpayment.Order.Qr.{
  bytes, drop_all, pad, format_account, crc16, merchant_account_info, check_sum, hex4,
  generate_prompt_pay_qr,
}
use richpayment.Order.Fields.{read_fields, field, generate_prompt_pay_qr-read}

-- the published check value of CRC-16/CCITT-FALSE
crc16_check : crc16 0xffff (bytes "123456789") ≡ 0x29b1
unfolding crc16
crc16_check = refl

format_account_phone : format_account (bytes "081-234-5678") ≡ bytes "0066812345678"
unfolding format_account drop_all pad
format_account_phone = refl

generate_prompt_pay_qr-read_example :
    (read_fields 7 (generate_prompt_pay_qr (bytes "0812345678") (bytes "300.25"))
      ≡ some (
          field (bytes "00") (bytes "01")
          ∷ field (bytes "01") (bytes "12")
          ∷ field (bytes "29") (merchant_account_info (bytes "0812345678"))
          ∷ field (bytes "53") (bytes "764")
          ∷ field (bytes "54") (bytes "300.25")
          ∷ field (bytes "58") (bytes "TH")
          ∷ field (bytes "63") (hex4 (check_sum (bytes "0812345678") (bytes "300.25")))
          ∷ []))
    × (read_fields 2 (merchant_account_info (bytes "0812345678"))
        ≡ some (
            field (bytes "00") (bytes "A000000677010111")
            ∷ field (bytes "01") (format_account (bytes "0812345678"))
            ∷ []))
unfolding format_account drop_all pad
generate_prompt_pay_qr-read_example =
    generate_prompt_pay_qr-read (bytes "0812345678") (bytes "300.25") (omega arith) (omega arith)

-- an order that is created and expires, and a creation whose QR code fails
abbrev commands : List (Command ℤ)
commands =
    create_one config calm (request 1 0)
    ∷ create_one config (record calm { qr = true }) (request 2 1)
    ∷ expire_one calm 1 1950
    ∷ []

run_all-load_example :
    (run_all commands empty).pools 7 5
    ≡ shift (pos 0) (
        count_rows (waits_at 7 5) (run_all commands empty).rows
        + total run (is_lost 7 5) commands empty)
run_all-load_example = run_all-load 7 5 (pos 0) commands empty (refl, (refl, (refl, tt))) refl

-- the order for 300.01
abbrev made : DepositOrder ℤ
made = new_order config (request 1 0) 5 (pos 3000100)

abbrev with_order : Desk ℤ Loads Pending (Unit {0})
with_order = (create_deposit_order config calm (request 1 0) empty).1

match_finds_created_example :
    (match_by_unique_amount calm 5
      (pos 3000100)
      (create_all ((config, calm, request 2 1) ∷ []) with_order)).0
    ≡ ok 1
unfolding create_deposit_order store_order create adjust_amount_for_uniqueness adjust_loop ◌+ℤ◌
match_finds_created_example =
    match_finds_created config calm calm (request 1 0) empty with_order made
      ((config, calm, request 2 1) ∷ [])
      (refl, refl, λ a. refl, refl, λ k. refl, λ a picked. (0, omega arith, refl)) (refl, refl) refl
      ((refl, refl, λ a. refl, refl, λ k. refl, λ a picked. (0, omega arith, refl)), tt)

abbrev desk : Desk ℤ Loads Pending (Unit {0})
desk = record empty { rows = made ∷ [] }

expiry_overwrites_completion_example :
    let first = complete_read config calm 1 sms (pos 3000100) 1890 made desk in
    let second = expire_read calm 1 1901 made first.1 in
    (first.0 ≡ ok tt)
    × (second.0 ≡ ok tt)
    × (find_row (is_id 1) second.1.rows
        ≡ some (updated_row expired [] 1901 (completed_row config sms (pos 3000100) 1890 made)))
    × (second.1.posts ≡ posts_of config made (pos 3000100) [])
    × (second.1.pools ≡ sets.pools.decr 7 5 (sets.pools.decr 7 5 empty.pools))
unfolding OrderStatus-discrete
expiry_overwrites_completion_example =
    expiry_overwrites_completion config calm calm 1 sms (pos 3000100) 1890 1901 made desk refl refl
      (refl, refl, refl, refl)
