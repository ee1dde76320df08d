-- ===== src/Decimal.antt =====
-- The interface of github.com/shopspring/decimal, the exact decimal numbers that hold every amount
-- and every rate. The library is not part of the repository, so its operations are the fields of a
-- record that each component takes as an instance, with the documented facts that the proofs use.
-- A value stands for a number: two spellings of one number (1.5 and 1.50) are the same value.
pub mod Laws
pub mod Fixed
use richpayment.Base.{◌≡◌, Bool, true, false, not}

pub record Decimal (D : Type 0) : Type 0 where
  pub zero : D
  pub one : D
  -- Add, Sub, Neg, Mul
  pub add : D → D → D
  pub sub : D → D → D
  pub neg : D → D
  pub mul : D → D → D
  -- Round(2): to the nearest cent, halves away from zero
  pub round : D → D
  -- LessThan
  pub lt : D → D → Bool
  pub add_comm : (a b : D) → add a b ≡ add b a
  pub add_assoc : (a b c : D) → add (add a b) c ≡ add a (add b c)
  pub add_zero : (a : D) → add a zero ≡ a
  pub add_neg : (a : D) → add a (neg a) ≡ zero
  pub sub_eq : (a b : D) → sub a b ≡ add a (neg b)
  pub lt_irrefl : (a : D) → lt a a ≡ false
  pub lt_trans : (a b c : D) → lt a b ≡ true → lt b c ≡ true → lt a c ≡ true
  pub lt_total : (a b : D) → lt a b ≡ false → lt b a ≡ false → a ≡ b
  pub add_lt : (a b c : D) → lt a b ≡ true → lt (add a c) (add b c) ≡ true
  pub mul_le : (a p q : D) → lt a zero ≡ false → lt q p ≡ false → lt (mul a q) (mul a p) ≡ false
  pub mul_zero : (a : D) → mul a zero ≡ zero
  pub mul_one : (a : D) → mul a one ≡ a
  pub round_le : (a b : D) → lt b a ≡ false → lt (round b) (round a) ≡ false
  pub round_zero : round zero ≡ zero
  pub round_add : (a b : D) → round (add (round a) (round b)) ≡ add (round a) (round b)
  pub round_neg : (a : D) → round (neg a) ≡ neg (round a)

module _ {D : Type 0} ⦃d : Decimal D⦄ where
  -- LessThanOrEqual, GreaterThan, IsPositive and IsNegative
  abbrev pub less_or_equal : D → D → Bool
  less_or_equal a b = not (d.lt b a)

  abbrev pub greater : D → D → Bool
  greater a b = d.lt b a

  abbrev pub is_positive : D → Bool
  is_positive a = d.lt d.zero a

  abbrev pub is_negative : D → Bool
  is_negative a = d.lt a d.zero

  -- A whole number of cents, which a NUMERIC(14,2) column holds as it is.
  abbrev pub IsCents : D → Type 0
  IsCents a = d.round a ≡ a
