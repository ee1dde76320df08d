-- ===== src/Commission/Totals.antt =====
-- What the groups of a day sum to.
use richpayment.Base.{
  ℕ, ◌≡◌, refl, sym, ap, ◌∙◌, false, Option, none, some, List, [], ◌∷◌, Bool-cases, inl, inr,
}
use richpayment.Base.Result.{ok}
use richpayment.Decimal.{Decimal, is_negative, is_positive}
use richpayment.Decimal.Laws.{zero_add}
use richpayment.Wallet.Types.{OwnerType, system}
use richpayment.Commission.Types.{CommissionInput, Commission, SummaryKey}
use richpayment.Commission.Calculator.{share, calculate_commission}
use richpayment.Commission.Split.{share_nonneg, shares_sum, returned}
use mathlib.Core.Path.{subst}
use richpayment.Commission.Aggregator.{
  same_key, Groups, key_of, add_to_group, add_share, add_commission, group_commissions,
}

module _ {D : Type 0} ⦃d : Decimal D⦄ where
  -- the commission of all groups together
  abbrev pub commission_sum : Groups D → D
  commission_sum [] = d.zero
  commission_sum ((_, s) ∷ groups) = d.add s.total_commission (commission_sum groups)

  -- the fees of all commissions together
  abbrev pub fee_sum : List (Commission D) → D
  fee_sum [] = d.zero
  fee_sum (c ∷ cs) = d.add c.total_fee_amount (fee_sum cs)

  -- An amount that the loop leaves out is zero.
  abbrev pub Paid : Option ℕ → D → Type 0
  Paid none amount = amount ≡ d.zero
  Paid (some _) amount = is_negative amount ≡ false

  -- The shares sum to the fee, and a share without a recipient is zero.
  abbrev pub Fair : Commission D → Type 0
  Fair c =
      (d.add (d.add c.system_amount c.partner_amount) c.agent_amount ≡ c.total_fee_amount)
      × Paid c.agent_id c.agent_amount
      × Paid c.partner_id c.partner_amount

  abbrev pub AllFair : List (Commission D) → Type 0
  AllFair [] = Unit
  AllFair (c ∷ cs) = Fair c × AllFair cs

  add_right_comm : (a b c : D) → d.add (d.add a b) c ≡ d.add (d.add a c) b
  add_right_comm a b c = rw (d.add_assoc, d.add_comm b c, ← d.add_assoc) refl

  commission_sum-add_to_group :
      (groups : Groups D) (key : SummaryKey) (date : ℕ) (volume fee commission : D)
      → commission_sum (add_to_group groups key date volume fee commission)
        ≡ d.add (commission_sum groups) commission
  unfolding add_to_group
  commission_sum-add_to_group [] key date volume fee commission =
      d.add_zero (d.add d.zero commission)
  commission_sum-add_to_group ((k, s) ∷ groups) key date volume fee commission =
      elim (Bool-cases (same_key k key)) [
        | inl e ↦ rw e (add_right_comm s.total_commission commission (commission_sum groups))
        | inr e ↦
            rw (e, commission_sum-add_to_group groups key date volume fee commission)
              (sym (d.add_assoc s.total_commission (commission_sum groups) commission))
      ]

  commission_sum-add_share :
      (owner_type : OwnerType) (o : Option ℕ) (amount : D) (date : ℕ) (c : Commission D)
      (groups : Groups D)
      → Paid o amount
      → commission_sum (add_share owner_type o amount date c groups)
        ≡ d.add (commission_sum groups) amount
  commission_sum-add_share owner_type none amount date c groups h =
      rw h (sym (d.add_zero (commission_sum groups)))
  commission_sum-add_share owner_type (some owner_id) amount date c groups h =
      elim (Bool-cases (is_positive amount)) [
        | inl e ↦ rw e (
            commission_sum-add_to_group groups (key_of owner_type owner_id c) date
              c.total_fee_amount c.total_fee_amount amount)
        | inr e ↦ rw (e, d.lt_total amount d.zero h e) (sym (d.add_zero (commission_sum groups)))
      ]

  commission_sum-add_commission :
      (date : ℕ) (groups : Groups D) (c : Commission D)
      → Fair c
      → commission_sum (add_commission date groups c)
        ≡ d.add (commission_sum groups) c.total_fee_amount
  unfolding add_commission
  commission_sum-add_commission date groups c (split, agent, partner) =
      let system_groups =
        add_to_group groups (key_of system 0 c) date c.total_fee_amount c.total_fee_amount
          c.system_amount in
      let agent_groups = add_share OwnerType.agent c.agent_id c.agent_amount date c system_groups in
      commission_sum-add_share OwnerType.partner c.partner_id c.partner_amount date c agent_groups
        partner
      ∙ ap (λ x. d.add x c.partner_amount)
          (commission_sum-add_share OwnerType.agent c.agent_id c.agent_amount date c system_groups
              agent
            ∙ ap (λ x. d.add x c.agent_amount)
                (commission_sum-add_to_group groups (key_of system 0 c) date c.total_fee_amount
                  c.total_fee_amount c.system_amount))
      ∙ add_right_comm (d.add (commission_sum groups) c.system_amount) c.agent_amount
          c.partner_amount
      ∙ ap (λ x. d.add x c.agent_amount)
          (d.add_assoc (commission_sum groups) c.system_amount c.partner_amount)
      ∙ d.add_assoc (commission_sum groups) (d.add c.system_amount c.partner_amount) c.agent_amount
      ∙ ap (d.add (commission_sum groups)) split

  commission_sum-group_commissions :
      (date : ℕ) (groups : Groups D) (cs : List (Commission D))
      → AllFair cs
      → commission_sum (group_commissions date groups cs)
        ≡ d.add (commission_sum groups) (fee_sum cs)
  unfolding group_commissions
  commission_sum-group_commissions date groups [] h = sym (d.add_zero (commission_sum groups))
  commission_sum-group_commissions date groups (c ∷ cs) (fair, rest) =
      commission_sum-group_commissions date (add_commission date groups c) cs rest
      ∙ ap (λ x. d.add x (fee_sum cs)) (commission_sum-add_commission date groups c fair)
      ∙ d.add_assoc (commission_sum groups) c.total_fee_amount (fee_sum cs)

  -- Each is a result of `CalculateCommission` on an amount and rates that are not negative.
  abbrev pub Calculated : Commission D → Type 0
  Calculated c =
      (i : CommissionInput D) × (fresh : ℕ) × (now : ℕ) × (calculate_commission i fresh now ≡ ok c)
      × (is_negative i.transaction_amount ≡ false)
      × (is_negative i.agent_commission_pct ≡ false)
      × (is_negative i.partner_commission_pct ≡ false)

  abbrev pub AllCalculated : List (Commission D) → Type 0
  AllCalculated [] = Unit
  AllCalculated (c ∷ cs) = Calculated c × AllCalculated cs

  share-Paid :
      (o : Option ℕ) (a p : D)
      → is_negative a ≡ false
      → is_negative p ≡ false
      → Paid o (share o a p)
  share-Paid none a p h k = refl
  share-Paid (some x) a p h k = share_nonneg (some x) a p h k

  Calculated-Fair : (c : Commission D) → Calculated c → Fair c
  Calculated-Fair c (i, fresh, now, is, a, p, q) = subst Fair (returned i fresh now c is).1 (
    shares_sum i,
    share-Paid i.agent_id i.transaction_amount i.agent_commission_pct a p,
    share-Paid i.partner_id i.transaction_amount i.partner_commission_pct a q,
  )

  AllCalculated-AllFair : (cs : List (Commission D)) → AllCalculated cs → AllFair cs
  AllCalculated-AllFair [] h = tt
  AllCalculated-AllFair (c ∷ cs) (h, rest) = (Calculated-Fair c h, AllCalculated-AllFair cs rest)

  -- If each commission of a day is a result of `CalculateCommission` on an amount and rates that are
  -- not negative, then the groups that the loop builds hold exactly the fees: what they give to the
  -- system, the agents and the partners sums to the total fee of the day.
  pub group_commissions_total :
      (date : ℕ) (cs : List (Commission D))
      → AllCalculated cs
      → commission_sum (group_commissions date [] cs) ≡ fee_sum cs
  group_commissions_total date cs h =
      commission_sum-group_commissions date [] cs (AllCalculated-AllFair cs h)
      ∙ zero_add (fee_sum cs)

  -- Volume and fee of every group are the same.
  abbrev pub VolumeIsFee : Groups D → Type 0
  VolumeIsFee [] = Unit
  VolumeIsFee ((_, s) ∷ groups) = (s.total_volume ≡ s.total_fee) × VolumeIsFee groups

  add_to_group-VolumeIsFee :
      (groups : Groups D) (key : SummaryKey) (date : ℕ) (fee commission : D)
      → VolumeIsFee groups
      → VolumeIsFee (add_to_group groups key date fee fee commission)
  unfolding add_to_group
  add_to_group-VolumeIsFee [] key date fee commission h = (refl, tt)
  add_to_group-VolumeIsFee ((k, s) ∷ groups) key date fee commission (same, rest) =
      elim (Bool-cases (same_key k key)) [
        | inl e ↦ rw e (ap (λ x. d.add x fee) same, rest)
        | inr e ↦ rw e (same, add_to_group-VolumeIsFee groups key date fee commission rest)
      ]

  add_share-VolumeIsFee :
      (owner_type : OwnerType) (o : Option ℕ) (amount : D) (date : ℕ) (c : Commission D)
      (groups : Groups D)
      → VolumeIsFee groups
      → VolumeIsFee (add_share owner_type o amount date c groups)
  add_share-VolumeIsFee owner_type none amount date c groups h = h
  add_share-VolumeIsFee owner_type (some owner_id) amount date c groups h =
      elim (Bool-cases (is_positive amount)) [
        | inl e ↦ rw e (
            add_to_group-VolumeIsFee groups (key_of owner_type owner_id c) date c.total_fee_amount
              amount h)
        | inr e ↦ rw e h
      ]

  -- The loop never sees the amount of a transaction: in every group that it builds from groups of
  -- this form, the total volume is the total fee.
  pub group_commissions-VolumeIsFee :
      (date : ℕ) (groups : Groups D) (cs : List (Commission D))
      → VolumeIsFee groups
      → VolumeIsFee (group_commissions date groups cs)
  unfolding group_commissions add_commission
  group_commissions-VolumeIsFee date groups [] h = h
  group_commissions-VolumeIsFee date groups (c ∷ cs) h =
      group_commissions-VolumeIsFee date (add_commission date groups c) cs (
        add_share-VolumeIsFee OwnerType.partner c.partner_id c.partner_amount date c _ (
          add_share-VolumeIsFee OwnerType.agent c.agent_id c.agent_amount date c _ (
            add_to_group-VolumeIsFee groups (key_of system 0 c) date c.total_fee_amount
              c.system_amount h)))
