-- ===== src/Decimal/Fixed.antt =====
-- One implementation of the decimal interface, for concrete inputs: integers that count units of
-- 0.0001, with the product rounded towards zero at the fourth place. It shows that the documented
-- facts can hold together; no theorem on the program is about it alone.
use richpayment.Base.{
  ℕ, suc, ◌+◌, ◌-◌, ◌*◌, ◌/◌, ◌≤◌, ◌≡◌, refl, Bool, true, false, arith, ltb, leb, if◌then◌else◌,
}
use richpayment.Decimal.{Decimal}

-- `negsuc n` is -(n + 1).
pub data ℤ : Type 0 where
  pos : ℕ → ℤ
  negsuc : ℕ → ℤ

abbrev pub pos_part : ℤ → ℕ
pos_part (pos n) = n
pos_part (negsuc n) = 0

abbrev pub neg_part : ℤ → ℕ
neg_part (pos n) = 0
neg_part (negsuc n) = suc n

-- a - b, as an integer.
abbrev pub sub_ℕ : ℕ → ℕ → ℤ
sub_ℕ a b = if leb b a then pos (a - b) else negsuc (b - a - 1)

infixl 65 ◌+ℤ◌
unfoldable pub ◌+ℤ◌ : ℤ → ℤ → ℤ
a +ℤ b = sub_ℕ (pos_part a + pos_part b) (neg_part a + neg_part b)

unfoldable pub negate : ℤ → ℤ
negate a = sub_ℕ (neg_part a) (pos_part a)

abbrev pub ltb_ℤ : ℤ → ℤ → Bool
ltb_ℤ a b = ltb (pos_part a + neg_part b) (pos_part b + neg_part a)

-- A magnitude with a sign.
abbrev signed : ℤ → ℕ → ℤ
signed (pos _) n = pos n
signed (negsuc _) n = sub_ℕ 0 n

abbrev magnitude : ℤ → ℕ
magnitude a = pos_part a + neg_part a

-- (50 + n) / 100 cents, back in units
abbrev nearest : ℕ → ℕ
nearest n = (n + 50) / 100 * 100

unfoldable pub round_cents : ℤ → ℤ
round_cents a = signed a (nearest (magnitude a))

unfoldable pub multiply : ℤ → ℤ → ℤ
multiply a b =
    sub_ℕ ((pos_part a * pos_part b) / 10000 + (neg_part a * neg_part b) / 10000)
      ((pos_part a * neg_part b) / 10000 + (neg_part a * pos_part b) / 10000)

+ℤ_parts :
    (a b : ℤ)
    → pos_part (a +ℤ b) + neg_part a + neg_part b ≡ neg_part (a +ℤ b) + pos_part a + pos_part b
unfolding ◌+ℤ◌
+ℤ_parts a b = ground arith

negate_parts : (a : ℤ) → pos_part (negate a) + pos_part a ≡ neg_part (negate a) + neg_part a
unfolding negate
negate_parts a = ground arith

eq_of_parts : (a b : ℤ) → pos_part a + neg_part b ≡ pos_part b + neg_part a → a ≡ b
eq_of_parts a b h = ground arith

ruleset int_laws = (arith, +ℤ_parts, negate_parts, eq_of_parts)

pub +ℤ_comm : (a b : ℤ) → a +ℤ b ≡ b +ℤ a
+ℤ_comm a b = omega int_laws

pub +ℤ_assoc : (a b c : ℤ) → a +ℤ b +ℤ c ≡ a +ℤ (b +ℤ c)
+ℤ_assoc a b c = omega int_laws

pub +ℤ_zero : (a : ℤ) → a +ℤ pos 0 ≡ a
+ℤ_zero a = omega int_laws

pub +ℤ_negate : (a : ℤ) → a +ℤ negate a ≡ pos 0
+ℤ_negate a = omega int_laws

pub ltb_ℤ_irrefl : (a : ℤ) → ltb_ℤ a a ≡ false
ltb_ℤ_irrefl a = ground arith

pub ltb_ℤ_trans : (a b c : ℤ) → ltb_ℤ a b ≡ true → ltb_ℤ b c ≡ true → ltb_ℤ a c ≡ true
ltb_ℤ_trans a b c h k = ground arith

pub ltb_ℤ_total : (a b : ℤ) → ltb_ℤ a b ≡ false → ltb_ℤ b a ≡ false → a ≡ b
ltb_ℤ_total a b h k = ground arith

pub +ℤ_lt : (a b c : ℤ) → ltb_ℤ a b ≡ true → ltb_ℤ (a +ℤ c) (b +ℤ c) ≡ true
+ℤ_lt a b c h = ground (arith, +ℤ_parts a c, +ℤ_parts b c)

div_mono : (n x y : ℕ) → x ≤ y → n * x / 10000 ≤ n * y / 10000
div_mono n x y h = grind arith

pub multiply_le :
    (a p q : ℤ)
    → ltb_ℤ a (pos 0) ≡ false
    → ltb_ℤ q p ≡ false
    → ltb_ℤ (multiply a q) (multiply a p) ≡ false
unfolding multiply
multiply_le a p q h k = ground (
  arith,
  div_mono (pos_part a) (pos_part p) (pos_part q),
  div_mono (pos_part a) (neg_part q) (neg_part p),
)

pub multiply_zero : (a : ℤ) → multiply a (pos 0) ≡ pos 0
unfolding multiply
multiply_zero a = ground arith

pub multiply_one : (a : ℤ) → multiply a (pos 10000) ≡ a
unfolding multiply
multiply_one a = ground arith

pub round_cents_le : (a b : ℤ) → ltb_ℤ b a ≡ false → ltb_ℤ (round_cents b) (round_cents a) ≡ false
unfolding round_cents
round_cents_le a b h = ground arith

pub round_cents_zero : round_cents (pos 0) ≡ pos 0
unfolding round_cents
round_cents_zero = refl

pub round_cents_add :
    (a b : ℤ) → round_cents (round_cents a +ℤ round_cents b) ≡ round_cents a +ℤ round_cents b
unfolding round_cents ◌+ℤ◌
round_cents_add a b = ground arith

pub round_cents-negate : (a : ℤ) → round_cents (negate a) ≡ negate (round_cents a)
unfolding round_cents negate
round_cents-negate a = ground arith

instance abbrev pub fixed : Decimal ℤ
fixed = record {
  zero = pos 0;
  one = pos 10000;
  add = ◌+ℤ◌;
  sub = λ a b. a +ℤ negate b;
  neg = negate;
  mul = multiply;
  round = round_cents;
  lt = ltb_ℤ;
  add_comm = +ℤ_comm;
  add_assoc = +ℤ_assoc;
  add_zero = +ℤ_zero;
  add_neg = +ℤ_negate;
  sub_eq = λ a b. refl;
  lt_irrefl = ltb_ℤ_irrefl;
  lt_trans = ltb_ℤ_trans;
  lt_total = ltb_ℤ_total;
  add_lt = +ℤ_lt;
  mul_le = multiply_le;
  mul_zero = multiply_zero;
  mul_one = multiply_one;
  round_le = round_cents_le;
  round_zero = round_cents_zero;
  round_add = round_cents_add;
  round_neg = round_cents-negate;
}
