-- ===== src/Order/Fields.antt =====
-- A reader of the fields of a payload: two bytes of tag, two digits of length and the value. It
-- stands for the scanner, which is not part of the repository.
use richpayment.Base.{
  ℕ, zero, suc, ◌+◌, ◌-◌, ◌*◌, ◌/◌, ◌%◌, ◌<◌, ◌≡◌, refl, sym, ap, ◌∙◌, Option, none, some, List, [],
  ◌∷◌, ◌++◌, arith,
}
use richpayment.Order.Qr.{
  bytes, length, decimal, decimal2, tlv, format_account, merchant_account_info, with_fields,
  check_sum, hex4, generate_prompt_pay_qr,
}

pub record Field : Type 0 where
  pub tag : List ℕ
  pub value : List ℕ

abbrev cons : ℕ → Option (List ℕ × List ℕ) → Option (List ℕ × List ℕ)
cons x none = none
cons x (some (front, back)) = some (x ∷ front, back)

-- the first bytes, if there are so many
abbrev pub take_exactly : ℕ → List ℕ → Option (List ℕ × List ℕ)
take_exactly zero xs = some ([], xs)
take_exactly (suc n) [] = none
take_exactly (suc n) (x ∷ xs) = cons x (take_exactly n xs)

abbrev with_tag : List ℕ → Option (List ℕ × List ℕ) → Option (Field × List ℕ)
with_tag tag none = none
with_tag tag (some (value, rest)) = some (record { tag = tag; value = value }, rest)

abbrev pub read_field : List ℕ → Option (Field × List ℕ)
read_field (t ∷ u ∷ a ∷ b ∷ rest) =
    with_tag (t ∷ u ∷ []) (take_exactly ((a - 48) * 10 + (b - 48)) rest)
read_field _ = none

abbrev put : Field → Option (List Field) → Option (List Field)
put f none = none
put f (some fs) = some (f ∷ fs)

abbrev then_read : (List ℕ → Option (List Field)) → Option (Field × List ℕ) → Option (List Field)
then_read more none = none
then_read more (some (f, rest)) = put f (more rest)

-- a text of so many fields and nothing else
abbrev pub read_fields : ℕ → List ℕ → Option (List Field)
read_fields zero [] = some []
read_fields zero (x ∷ xs) = none
read_fields (suc n) text = then_read (read_fields n) (read_field text)

abbrev pub field : List ℕ → List ℕ → Field
field tag value = record { tag = tag; value = value }

take_exactly-length : (v rest : List ℕ) → take_exactly (length v) (v ++ rest) ≡ some (v, rest)
take_exactly-length [] rest = refl
take_exactly-length (x ∷ v) rest = ap (cons x) (take_exactly-length v rest)

decimal2-digits : (n : ℕ) → n < 100 → decimal2 n ≡ (48 + n / 10) ∷ (48 + n % 10) ∷ []
unfolding decimal2 decimal
decimal2-digits n small = ground arith

two_digits : (n : ℕ) → (48 + n / 10 - 48) * 10 + (48 + n % 10 - 48) ≡ n
two_digits n = omega arith

read_field-tlv :
    (t u : ℕ) (value rest : List ℕ)
    → length value < 100
    → read_field (tlv (t ∷ u ∷ []) value ++ rest) ≡ some (field (t ∷ u ∷ []) value, rest)
unfolding tlv
read_field-tlv t u value rest small = rw (decimal2-digits (length value) small) (
    ap (with_tag (t ∷ u ∷ [])) (
      ap (λ n. take_exactly n (value ++ rest)) (two_digits (length value))
      ∙ take_exactly-length value rest))

read_fields-tlv :
    (n t u : ℕ) (value rest : List ℕ) (fields : List Field)
    → length value < 100
    → read_fields n rest ≡ some fields
    → read_fields (suc n) (tlv (t ∷ u ∷ []) value ++ rest)
      ≡ some (field (t ∷ u ∷ []) value ∷ fields)
read_fields-tlv n t u value rest fields small more =
    ap (then_read (read_fields n)) (read_field-tlv t u value rest small)
    ∙ ap (put (field (t ∷ u ∷ []) value)) more

length-++ : (xs ys : List ℕ) → length (xs ++ ys) ≡ length xs + length ys
length-++ [] ys = omega arith
length-++ (x ∷ xs) ys = omega (arith, length-++ xs ys)

append_nil : (xs : List ℕ) → xs ++ [] ≡ xs
append_nil [] = refl
append_nil (x ∷ xs) = ap (λ (ys : List ℕ). x ∷ ys) (append_nil xs)

length-tlv :
    (t u : ℕ) (value : List ℕ)
    → length value < 100
    → length (tlv (t ∷ u ∷ []) value) ≡ 4 + length value
unfolding tlv
length-tlv t u value small = rw (decimal2-digits (length value) small) (omega arith)

length-merchant_account_info :
    (account : List ℕ)
    → length (format_account account) < 76
    → length (merchant_account_info account) < 100
unfolding merchant_account_info
length-merchant_account_info account short = omega (
  arith,
  length-++ (tlv (bytes "00") (bytes "A000000677010111"))
      (tlv (bytes "01") (format_account account)),
  length-tlv b'0' b'0' (bytes "A000000677010111") (omega arith),
  length-tlv b'0' b'1' (format_account account) (omega arith),
)

read_last :
    (t u : ℕ) (value : List ℕ)
    → length value < 100
    → read_fields 1 (tlv (t ∷ u ∷ []) value) ≡ some (field (t ∷ u ∷ []) value ∷ [])
read_last t u value small =
    ap (read_fields 1) (sym (append_nil (tlv (t ∷ u ∷ []) value)))
    ∙ read_fields-tlv 0 t u value [] [] small refl

read_crc :
    (crc : ℕ) → read_fields 1 (bytes "6304" ++ hex4 crc) ≡ some (field (bytes "63") (hex4 crc) ∷ [])
read_crc crc = refl

-- The payload of a PromptPay QR code reads back as its seven fields, the merchant account with its
-- two, and nothing else, when the formatted account is shorter than 76 bytes and the amount shorter
-- than 100.
pub generate_prompt_pay_qr-read :
    (account amount : List ℕ)
    → length (format_account account) < 76
    → length amount < 100
    → (read_fields 7 (generate_prompt_pay_qr account amount)
        ≡ some (
            field (bytes "00") (bytes "01")
            ∷ field (bytes "01") (bytes "12")
            ∷ field (bytes "29") (merchant_account_info account)
            ∷ field (bytes "53") (bytes "764")
            ∷ field (bytes "54") amount
            ∷ field (bytes "58") (bytes "TH")
            ∷ field (bytes "63") (hex4 (check_sum account amount))
            ∷ []))
      × (read_fields 2 (merchant_account_info account)
          ≡ some (
              field (bytes "00") (bytes "A000000677010111")
              ∷ field (bytes "01") (format_account account)
              ∷ []))
unfolding generate_prompt_pay_qr with_fields merchant_account_info
generate_prompt_pay_qr-read account amount short few =
    let crc = hex4 (check_sum account amount) in
    let six =
      read_fields-tlv 1 _ _ (bytes "TH") (bytes "6304" ++ crc) _ (omega arith)
        (read_crc (check_sum account amount)) in
    let five = read_fields-tlv 2 _ _ amount _ _ few six in
    let four = read_fields-tlv 3 _ _ (bytes "764") _ _ (omega arith) five in
    let three =
      read_fields-tlv 4 _ _ (merchant_account_info account) _ _
        (length-merchant_account_info account short) four in
    let two = read_fields-tlv 5 _ _ (bytes "12") _ _ (omega arith) three in
    (
      read_fields-tlv 6 _ _ (bytes "01") _ _ (omega arith) two,
      read_fields-tlv 1 _ _ (bytes "A000000677010111") _ _ (omega arith)
          (read_last b'0' b'1' (format_account account) (omega arith)),
    )
