-- ===== src/Commission/Earned.antt =====
-- The summary of one recipient against the list of the day's commissions.
use richpayment.Base.{
  ℕ, ◌≡◌, refl, sym, ap, ◌∙◌, Option, none, some, List, [], ◌∷◌, Bool-cases, inl, inr,
  if◌then◌else◌,
}
use richpayment.Decimal.{Decimal, is_positive}
use richpayment.Decimal.Laws.{zero_add}
use richpayment.Wallet.Types.{OwnerType, system}
use richpayment.Commission.Types.{Commission, SummaryKey}
use richpayment.Commission.Keys.{same_key_eq, same_key_differs}
use richpayment.Commission.Aggregator.{
  same_key, Groups, key_of, add_to_group, add_share, add_commission, group_commissions,
}

module _ {D : Type 0} ⦃d : Decimal D⦄ where
  -- the total commission of the group at a key, zero where there is none
  abbrev pub commission_at : SummaryKey → Groups D → D
  commission_at j [] = d.zero
  commission_at j ((k, s) ∷ groups) =
      let rest = commission_at j groups in if same_key k j then s.total_commission else rest

  abbrev pub if_same : SummaryKey → SummaryKey → D → D
  if_same key j amount = if same_key key j then amount else d.zero

  -- what a share of a commission gives to a key
  abbrev pub share_at : SummaryKey → OwnerType → Option ℕ → D → Commission D → D
  share_at j owner_type none amount c = d.zero
  share_at j owner_type (some owner_id) amount c =
      if is_positive amount then if_same (key_of owner_type owner_id c) j amount else d.zero

  -- what a commission gives to a key
  abbrev pub earned : SummaryKey → Commission D → D
  earned j c =
      d.add
        (d.add (if_same (key_of system 0 c) j c.system_amount)
          (share_at j OwnerType.agent c.agent_id c.agent_amount c))
        (share_at j OwnerType.partner c.partner_id c.partner_amount c)

  abbrev pub earned_sum : SummaryKey → List (Commission D) → D
  earned_sum j [] = d.zero
  earned_sum j (c ∷ cs) = d.add (earned j c) (earned_sum j cs)

  commission_at-add_to_group :
      (j : SummaryKey) (groups : Groups D) (key : SummaryKey) (date : ℕ) (volume fee commission : D)
      → commission_at j (add_to_group groups key date volume fee commission)
        ≡ d.add (commission_at j groups) (if_same key j commission)
  unfolding add_to_group
  commission_at-add_to_group j [] key date volume fee commission =
      elim (Bool-cases (same_key key j)) [
        | inl e ↦ rw e refl
        | inr e ↦ rw e (sym (d.add_zero d.zero))
      ]
  commission_at-add_to_group j ((k, s) ∷ groups) key date volume fee commission =
      elim (Bool-cases (same_key k key)) [
        | inl e ↦ elim (Bool-cases (same_key key j)) [
          | inl f ↦ rw (e, same_key_eq k key e, f) refl
          | inr f ↦ rw (e, same_key_eq k key e, f) (sym (d.add_zero (commission_at j groups)))
        ]
        | inr e ↦ elim (Bool-cases (same_key k j)) [
          | inl f ↦ rw (e, f, same_key_differs k key j e f) (sym (d.add_zero s.total_commission))
          | inr f ↦ rw (e, f) (commission_at-add_to_group j groups key date volume fee commission)
        ]
      ]

  commission_at-add_share :
      (j : SummaryKey) (owner_type : OwnerType) (o : Option ℕ) (amount : D) (date : ℕ)
      (c : Commission D) (groups : Groups D)
      → commission_at j (add_share owner_type o amount date c groups)
        ≡ d.add (commission_at j groups) (share_at j owner_type o amount c)
  commission_at-add_share j owner_type none amount date c groups =
      sym (d.add_zero (commission_at j groups))
  commission_at-add_share j owner_type (some owner_id) amount date c groups =
      elim (Bool-cases (is_positive amount)) [
        | inl e ↦ rw e (
            commission_at-add_to_group j groups (key_of owner_type owner_id c) date
              c.total_fee_amount c.total_fee_amount amount)
        | inr e ↦ rw e (sym (d.add_zero (commission_at j groups)))
      ]

  commission_at-add_commission :
      (j : SummaryKey) (date : ℕ) (groups : Groups D) (c : Commission D)
      → commission_at j (add_commission date groups c) ≡ d.add (commission_at j groups) (earned j c)
  unfolding add_commission
  commission_at-add_commission j date groups c =
      let first =
        add_to_group groups (key_of system 0 c) date c.total_fee_amount c.total_fee_amount
          c.system_amount in
      let second = add_share OwnerType.agent c.agent_id c.agent_amount date c first in
      let sys = if_same (key_of system 0 c) j c.system_amount in
      let agents = share_at j OwnerType.agent c.agent_id c.agent_amount c in
      let partners = share_at j OwnerType.partner c.partner_id c.partner_amount c in
      commission_at-add_share j OwnerType.partner c.partner_id c.partner_amount date c second
      ∙ ap (λ x. d.add x partners)
          (commission_at-add_share j OwnerType.agent c.agent_id c.agent_amount date c first
            ∙ ap (λ x. d.add x agents)
                (commission_at-add_to_group j groups (key_of system 0 c) date c.total_fee_amount
                  c.total_fee_amount c.system_amount)
            ∙ d.add_assoc (commission_at j groups) sys agents)
      ∙ d.add_assoc (commission_at j groups) (d.add sys agents) partners

  commission_at-group_commissions :
      (j : SummaryKey) (date : ℕ) (groups : Groups D) (cs : List (Commission D))
      → commission_at j (group_commissions date groups cs)
        ≡ d.add (commission_at j groups) (earned_sum j cs)
  unfolding group_commissions
  commission_at-group_commissions j date groups [] = sym (d.add_zero (commission_at j groups))
  commission_at-group_commissions j date groups (c ∷ cs) =
      commission_at-group_commissions j date (add_commission date groups c) cs
      ∙ ap (λ x. d.add x (earned_sum j cs)) (commission_at-add_commission j date groups c)
      ∙ d.add_assoc (commission_at j groups) (earned j c) (earned_sum j cs)

  -- For every key, the total commission of its group after the loop is the sum over the day's
  -- commissions of what each gives to that key: the system share to the system's key, and a positive
  -- share of the agent or the partner to the key of that owner. It is zero where there is no group.
  pub group_commissions_earned :
      (j : SummaryKey) (date : ℕ) (cs : List (Commission D))
      → commission_at j (group_commissions date [] cs) ≡ earned_sum j cs
  group_commissions_earned j date cs =
      commission_at-group_commissions j date [] cs ∙ zero_add (earned_sum j cs)
