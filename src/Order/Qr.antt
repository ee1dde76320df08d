-- ===== src/Order/Qr.antt =====
-- services/order/internal/service/qr.go. A text is the list of its bytes. The picture of the code
-- and its base64 text are library code.
use Prim.Native.Nat.{bit_and, bit_xor}
use Prim.Native.Char.{code}
use Prim.Native.String.{String}
use richpayment.Base.{
  ℕ, zero, suc, ◌+◌, ◌-◌, ◌*◌, ◌/◌, ◌%◌, ◌&&◌, List, [], ◌∷◌, ◌++◌, ◌==◌, ltb, leb, if◌then◌else◌,
}

abbrev pub bytes : String → List ℕ
bytes String.[] = []
bytes (String.◌∷◌ c s) = code c ∷ bytes s

abbrev pub length : List ℕ → ℕ
length [] = 0
length (x ∷ xs) = suc (length xs)

-- `%d` of a number of at most `count` digits
unfoldable pub decimal : (count n : ℕ) → List ℕ
decimal zero n = []
decimal (suc count) n =
    let rest = decimal count (n / 10) in
    if ltb n 10 then (48 + n) ∷ [] else rest ++ ((48 + n % 10) ∷ [])

-- `%02d` of the length of a text; an int has at most 19 digits
unfoldable pub decimal2 : ℕ → List ℕ
decimal2 n = if ltb n 10 then 48 ∷ (48 + n) ∷ [] else decimal 19 n

-- `tlv`
unfoldable pub tlv : (tag value : List ℕ) → List ℕ
tlv tag value = tag ++ decimal2 (length value) ++ value

-- `strings.ReplaceAll(account, c, "")` of one byte
unfoldable pub drop_all : ℕ → List ℕ → List ℕ
drop_all c [] = []
drop_all c (x ∷ xs) = let rest = drop_all c xs in if x == c then rest else x ∷ rest

-- a local number of at most ten digits gets the country code
abbrev pub with_country : List ℕ → List ℕ
with_country [] = []
with_country (x ∷ xs) = if leb (length (x ∷ xs)) 10 && x == b'0' then bytes "0066" ++ xs else x ∷ xs

-- the loop that puts zeros before the text
unfoldable pub pad : (count : ℕ) → List ℕ → List ℕ
pad zero account = account
pad (suc count) account = b'0' ∷ pad count account

-- `formatAccount`
unfoldable pub format_account : List ℕ → List ℕ
unfolding drop_all
format_account account =
    let plain = with_country (drop_all b' ' (drop_all b'-' account)) in
    pad (13 - length plain) plain

-- one bit of the inner loop of `crc16CCITTFalse`
abbrev pub crc_bit : ℕ → ℕ
crc_bit crc =
    let shifted = crc * 2 % 65536 in
    if bit_and crc 0x8000 == 0 then shifted else bit_xor shifted 0x1021

abbrev pub crc_bits : ℕ → ℕ → ℕ
crc_bits zero crc = crc
crc_bits (suc n) crc = crc_bits n (crc_bit crc)

abbrev pub crc_byte : ℕ → ℕ → ℕ
crc_byte crc b = crc_bits 8 (bit_xor crc (b * 256 % 65536))

-- `crc16CCITTFalse`
unfoldable pub crc16 : ℕ → List ℕ → ℕ
crc16 crc [] = crc
crc16 crc (b ∷ data_bytes) = crc16 (crc_byte crc b) data_bytes

-- a digit of `%X`
abbrev pub hex_digit : ℕ → ℕ
hex_digit n = if ltb n 10 then 48 + n else 55 + n

-- `%04X` of a 16-bit number
abbrev pub hex4 : ℕ → List ℕ
hex4 n =
    hex_digit (n / 4096 % 16)
    ∷ hex_digit (n / 256 % 16)
    ∷ hex_digit (n / 16 % 16)
    ∷ hex_digit (n % 16)
    ∷ []

-- `merchantAccountInfo`
unfoldable pub merchant_account_info : List ℕ → List ℕ
merchant_account_info account =
    tlv (bytes "00") (bytes "A000000677010111") ++ tlv (bytes "01") (format_account account)

-- the first six fields, and a tail
unfoldable pub with_fields : (account amount tail : List ℕ) → List ℕ
with_fields account amount tail =
    tlv (bytes "00") (bytes "01")
    ++ (tlv (bytes "01") (bytes "12")
        ++ (tlv (bytes "29") (merchant_account_info account)
            ++ (tlv (bytes "53") (bytes "764")
                ++ (tlv (bytes "54") amount ++ (tlv (bytes "58") (bytes "TH") ++ tail)))))

-- the check sum is over the tag and the length of its own field too
abbrev pub check_sum : (account amount : List ℕ) → ℕ
check_sum account amount = crc16 0xffff (with_fields account amount (bytes "6304"))

-- the text that `GeneratePromptPayQR` returns, with the amount as `StringFixed(2)` prints it
unfoldable pub generate_prompt_pay_qr : (account amount : List ℕ) → List ℕ
unfolding with_fields
generate_prompt_pay_qr account amount =
    with_fields account amount (bytes "6304" ++ hex4 (check_sum account amount))
