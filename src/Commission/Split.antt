-- ===== src/Commission/Split.antt =====
-- The split of a fee among system, agent and partner.
use richpayment.Base.{ℕ, ◌≡◌, refl, sym, ap, ◌∙◌, false, ◌⊎◌, inl, inr, Option, none, some, arith}
use mathlib.Core.Path.{subst}
use richpayment.Base.Result.{ok}
use richpayment.Decimal.{Decimal, greater, is_negative, IsCents}
use richpayment.Decimal.Laws.{
  sub_add_cancel, round_nonneg, round_cents, sub-IsCents, sub_nonneg, sub_zero, le_trans,
  le-add_right,
}
use richpayment.Commission.Types.{CommissionInput, Commission}
use richpayment.Commission.Calculator.{
  portion, share, total_fee, agent_share, partner_share, system_share, combined_pct, commission_of,
  calculate_commission,
}

module _ {D : Type 0} ⦃d : Decimal D⦄ where
  mul_nonneg :
      (a p : D) → is_negative a ≡ false → is_negative p ≡ false → is_negative (d.mul a p) ≡ false
  mul_nonneg a p h k = rw (d.mul_zero a) at (d.mul_le a d.zero p h k)

  pub share_nonneg :
      (o : Option ℕ) (a p : D)
      → is_negative a ≡ false
      → is_negative p ≡ false
      → is_negative (share o a p) ≡ false
  share_nonneg none a p h k = d.lt_irrefl d.zero
  share_nonneg (some _) a p h k = round_nonneg (d.mul a p) (mul_nonneg a p h k)

  share-IsCents : (o : Option ℕ) (a p : D) → IsCents (share o a p)
  share-IsCents none a p = d.round_zero
  share-IsCents (some _) a p = round_cents (d.mul a p)

  pub returned :
      (i : CommissionInput D) (fresh now : ℕ) (c : Commission D)
      → calculate_commission i fresh now ≡ ok c
      → (is_negative (system_share i) ≡ false) × (commission_of i fresh now ≡ c)
  unfolding calculate_commission
  returned i fresh now c h = ground arith

  abbrev pub Splits : Commission D → Type 0
  Splits c =
      (d.add (d.add c.system_amount c.partner_amount) c.agent_amount ≡ c.total_fee_amount)
      × IsCents c.system_amount
      × IsCents c.agent_amount
      × IsCents c.partner_amount
      × (is_negative c.system_amount ≡ false)
      × (is_negative c.agent_amount ≡ false)
      × (is_negative c.partner_amount ≡ false)

  pub shares_sum :
      (i : CommissionInput D)
      → d.add (d.add (system_share i) (partner_share i)) (agent_share i) ≡ total_fee i
  shares_sum i =
      rw (sub_add_cancel (d.sub (total_fee i) (agent_share i)) (partner_share i))
        (sub_add_cancel (total_fee i) (agent_share i))

  -- A commission that is returned splits the fee: the three shares sum to the fee exactly, whatever
  -- the rounding did, and are whole cents; none is negative if the amount and the two rates are not.
  pub calculate_commission-Splits :
      (i : CommissionInput D) (fresh now : ℕ) (c : Commission D)
      → calculate_commission i fresh now ≡ ok c
      → is_negative i.transaction_amount ≡ false
      → is_negative i.agent_commission_pct ≡ false
      → is_negative i.partner_commission_pct ≡ false
      → Splits c
  calculate_commission-Splits i fresh now c h a p q =
      let (positive, is) = returned i fresh now c h in
      let agent = share-IsCents i.agent_id i.transaction_amount i.agent_commission_pct in
      let partner = share-IsCents i.partner_id i.transaction_amount i.partner_commission_pct in
      subst Splits is (
        shares_sum i,
        sub-IsCents _ _
            (sub-IsCents _ _ (round_cents (d.mul i.transaction_amount i.merchant_fee_pct)) agent)
            partner,
        agent,
        partner,
        positive,
        share_nonneg i.agent_id i.transaction_amount i.agent_commission_pct a p,
        share_nonneg i.partner_id i.transaction_amount i.partner_commission_pct a q,
      )

  -- A fee is at most the amount, if the amount is in whole cents and not negative and the rate is at
  -- most one.
  pub fee_le_amount :
      (i : CommissionInput D) (fresh now : ℕ) (c : Commission D)
      → calculate_commission i fresh now ≡ ok c
      → is_negative i.transaction_amount ≡ false
      → IsCents i.transaction_amount
      → greater i.merchant_fee_pct d.one ≡ false
      → greater c.total_fee_amount i.transaction_amount ≡ false
  fee_le_amount i fresh now c h a cents rate =
      let (_, is) = returned i fresh now c h in
      let product =
        rw d.mul_one at (d.mul_le i.transaction_amount i.merchant_fee_pct d.one a rate) in
      let rounded =
        rw cents at (
          d.round_le (d.mul i.transaction_amount i.merchant_fee_pct) i.transaction_amount
            product) in
      subst (λ (x : Commission D). greater x.total_fee_amount i.transaction_amount ≡ false) is
        rounded

  share_le_total :
      (o : Option ℕ) (a p q : D)
      → is_negative a ≡ false
      → d.lt q p ≡ false
      → is_negative q ≡ false
      → d.lt (portion a q) (share o a p) ≡ false
  share_le_total none a p q h k l = round_nonneg (d.mul a q) (mul_nonneg a q h l)
  share_le_total (some _) a p q h k l = d.round_le (d.mul a p) (d.mul a q) (d.mul_le a p q h k)

  -- With one recipient, or none, the rounded shares never exceed the rounded fee.
  lone_share_nonneg :
      (i : CommissionInput D)
      → (i.agent_id ≡ none) ⊎ (i.partner_id ≡ none)
      → d.lt (total_fee i) (agent_share i) ≡ false
      → d.lt (total_fee i) (partner_share i) ≡ false
      → is_negative (system_share i) ≡ false
  lone_share_nonneg i (inl e) a p =
      let none_taken : d.sub (total_fee i) (agent_share i) ≡ total_fee i =
        rw e (sub_zero (total_fee i)) in
      rw (system_share, none_taken) (sub_nonneg (total_fee i) (partner_share i) p)
  lone_share_nonneg i (inr e) a p =
      let none_taken : partner_share i ≡ d.zero = rw e refl in
      let is : system_share i ≡ d.sub (total_fee i) (agent_share i) =
        ap (d.sub (d.sub (total_fee i) (agent_share i))) none_taken
        ∙ sub_zero (d.sub (total_fee i) (agent_share i)) in
      subst (λ x. is_negative x ≡ false) (sym is) (sub_nonneg (total_fee i) (agent_share i) a)

  -- If agent and partner are not both paid, the amount and the two rates are not negative, and the
  -- rates together are at most the merchant's rate, then `CalculateCommission` succeeds: the
  -- rounding to cents cannot make the system share negative.
  pub lone_recipient_succeeds :
      (i : CommissionInput D) (fresh now : ℕ)
      → (i.agent_id ≡ none) ⊎ (i.partner_id ≡ none)
      → is_negative i.transaction_amount ≡ false
      → is_negative i.agent_commission_pct ≡ false
      → is_negative i.partner_commission_pct ≡ false
      → greater (combined_pct i) i.merchant_fee_pct ≡ false
      → calculate_commission i fresh now ≡ ok (commission_of i fresh now)
  unfolding calculate_commission
  lone_recipient_succeeds i fresh now lone a p q rate =
      let agent : d.lt i.merchant_fee_pct i.agent_commission_pct ≡ false =
        le_trans {D = D} _ _ _ (le-add_right i.agent_commission_pct i.partner_commission_pct q)
          rate in
      let partner : d.lt i.merchant_fee_pct i.partner_commission_pct ≡ false =
        le_trans {D = D} _ _ _
          (rw (d.add_comm i.agent_commission_pct i.partner_commission_pct)
            (le-add_right i.partner_commission_pct i.agent_commission_pct p))
          rate in
      let fee : is_negative i.merchant_fee_pct ≡ false = le_trans {D = D} _ _ _ p agent in
      ground (
        arith,
        lone_share_nonneg i lone
            (share_le_total i.agent_id i.transaction_amount i.agent_commission_pct
              i.merchant_fee_pct a agent fee)
            (share_le_total i.partner_id i.transaction_amount i.partner_commission_pct
              i.merchant_fee_pct a partner fee),
      )
