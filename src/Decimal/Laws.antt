-- ===== src/Decimal/Laws.antt =====
-- Facts on decimals that follow from the interface, for every implementation of it.
use richpayment.Base.{◌≡◌, sym, ap, ◌∙◌, true, false, Bool-cases, inl, inr}
use mathlib.Core.Bool.{false≢true}
use richpayment.Decimal.{Decimal, IsCents}

module _ {D : Type 0} ⦃d : Decimal D⦄ where
  open d use {zero, add, sub, neg, round, lt}

  pub zero_add : (a : D) → add zero a ≡ a
  zero_add a = d.add_comm zero a ∙ d.add_zero a

  pub neg_add : (a : D) → add (neg a) a ≡ zero
  neg_add a = d.add_comm (neg a) a ∙ d.add_neg a

  pub add_sub_cancel : (a b : D) → sub (add a b) b ≡ a
  add_sub_cancel a b = rw (d.sub_eq, d.add_assoc, d.add_neg) (d.add_zero a)

  pub sub_add_cancel : (a b : D) → add (sub a b) b ≡ a
  sub_add_cancel a b = rw (d.sub_eq, d.add_assoc, neg_add) (d.add_zero a)

  -- What one side gives, the other side gains.
  pub sub_add_transfer : (a b x : D) → add (sub a x) (add b x) ≡ add a b
  sub_add_transfer a b x =
      rw (d.add_comm b x, ← d.add_assoc (sub a x) x b) (ap (λ t. add t b) (sub_add_cancel a x))

  pub add_sub_transfer : (a b x : D) → add (add a x) (sub b x) ≡ add a b
  add_sub_transfer a b x =
      rw (d.add_assoc a x (sub b x), d.add_comm x (sub b x)) (ap (add a) (sub_add_cancel b x))

  pub sub_nonneg : (a b : D) → lt a b ≡ false → lt (sub a b) zero ≡ false
  sub_nonneg a b h = elim (Bool-cases (lt (sub a b) zero)) [
    | inr e ↦ e
    | inl e ↦ absurd (false≢true (sym h ∙ below e))
  ]
    where
      below : lt (sub a b) zero ≡ true → lt a b ≡ true
      below e = rw (sub_add_cancel a b, zero_add b) at (d.add_lt (sub a b) zero b e)

  pub add_nonneg : (a b : D) → lt a zero ≡ false → lt b zero ≡ false → lt (add a b) zero ≡ false
  add_nonneg a b h k = elim (Bool-cases (lt zero a)) [
    | inr e ↦ rw (d.lt_total a zero h e, zero_add b) k
    | inl e ↦ elim (Bool-cases (lt (add a b) zero)) [
      | inr f ↦ f
      | inl f ↦ absurd (false≢true (sym k ∙ d.lt_trans b (add a b) zero (above e) f))
    ]
  ]
    where
      above : lt zero a ≡ true → lt b (add a b) ≡ true
      above e = rw (zero_add b) at (d.add_lt zero a b e)

  pub round_nonneg : (a : D) → lt a zero ≡ false → lt (round a) zero ≡ false
  round_nonneg a h = rw d.round_zero at (d.round_le zero a h)

  pub round_cents : (a : D) → IsCents (round a)
  round_cents a = rw (d.round_zero, d.add_zero (round a)) at (d.round_add a zero)

  pub add-IsCents : (a b : D) → IsCents a → IsCents b → IsCents (add a b)
  add-IsCents a b h k = rw (h, k) at (d.round_add a b)

  pub neg-IsCents : (a : D) → IsCents a → IsCents (neg a)
  neg-IsCents a h = d.round_neg a ∙ ap neg h

  pub sub-IsCents : (a b : D) → IsCents a → IsCents b → IsCents (sub a b)
  sub-IsCents a b h k = rw (d.sub_eq a b) (add-IsCents a (neg b) h (neg-IsCents b k))

  pub nonneg_of_positive : (a : D) → lt zero a ≡ true → lt a zero ≡ false
  nonneg_of_positive a h = elim (Bool-cases (lt a zero)) [
    | inr e ↦ e
    | inl e ↦ absurd (false≢true (sym (d.lt_irrefl a) ∙ d.lt_trans a zero a e h))
  ]

  pub neg_zero : neg zero ≡ zero
  neg_zero = sym (zero_add (neg zero)) ∙ d.add_neg zero

  pub sub_zero : (a : D) → sub a zero ≡ a
  sub_zero a = rw (d.sub_eq, neg_zero) (d.add_zero a)

  -- `lt b a ≡ false` says that `a` is at most `b`.
  pub le_trans : (a b c : D) → lt b a ≡ false → lt c b ≡ false → lt c a ≡ false
  le_trans a b c h k = elim (Bool-cases (lt c a)) [
    | inr e ↦ e
    | inl e ↦ elim (Bool-cases (lt a b)) [
      | inl f ↦ absurd (false≢true (sym k ∙ d.lt_trans c a b e f))
      | inr f ↦ absurd (false≢true (sym k ∙ rw (d.lt_total a b f h) at e))
    ]
  ]

  pub le-add_right : (a b : D) → lt b zero ≡ false → lt (add a b) a ≡ false
  le-add_right a b h = elim (Bool-cases (lt (add a b) a)) [
    | inr e ↦ e
    | inl e ↦ absurd (false≢true (sym h ∙ below e))
  ]
    where
      below : lt (add a b) a ≡ true → lt b zero ≡ true
      below e =
          rw (d.add_comm a b, d.add_assoc b a (neg a), d.add_neg a, d.add_zero b) at
            (d.add_lt (add a b) a (neg a) e)

  pub add_le : (a b c : D) → lt b a ≡ false → lt (add b c) (add a c) ≡ false
  add_le a b c h = elim (Bool-cases (lt (add b c) (add a c))) [
    | inr e ↦ e
    | inl e ↦ absurd (false≢true (sym h ∙ below e))
  ]
    where
      below : lt (add b c) (add a c) ≡ true → lt b a ≡ true
      below e =
          rw (d.add_assoc, d.add_neg, d.add_zero, d.add_assoc, d.add_neg, d.add_zero) at
            (d.add_lt (add b c) (add a c) (neg c) e)
