-- ===== src/Commission/Calculator.antt =====
-- `CalculateCommission` of services/commission/internal/service/calculator.go.
use richpayment.Base.{ℕ, Option, none, some, if◌then◌else◌}
use richpayment.Base.Result.{Result, ok, err}
use richpayment.Decimal.{Decimal, greater, is_negative}
use richpayment.Commission.Types.{
  CommissionInput, Commission, Error, split_exceeds_fee, negative_system_share,
}

module _ {D : Type 0} ⦃d : Decimal D⦄ where
  -- `TransactionAmount.Mul(pct).Round(2)`
  abbrev pub portion : D → D → D
  portion amount pct = d.round (d.mul amount pct)

  -- a share, zero where there is no recipient
  abbrev pub share : Option ℕ → D → D → D
  share none amount pct = d.zero
  share (some _) amount pct = portion amount pct

  abbrev pub total_fee : CommissionInput D → D
  total_fee i = portion i.transaction_amount i.merchant_fee_pct

  abbrev pub agent_share : CommissionInput D → D
  agent_share i = share i.agent_id i.transaction_amount i.agent_commission_pct

  abbrev pub partner_share : CommissionInput D → D
  partner_share i = share i.partner_id i.transaction_amount i.partner_commission_pct

  -- `totalFee.Sub(agentShare).Sub(partnerShare)`
  abbrev pub system_share : CommissionInput D → D
  system_share i = d.sub (d.sub (total_fee i) (agent_share i)) (partner_share i)

  abbrev pub combined_pct : CommissionInput D → D
  combined_pct i = d.add i.agent_commission_pct i.partner_commission_pct

  abbrev pub commission_of : CommissionInput D → ℕ → ℕ → Commission D
  commission_of i fresh now = record {
    id = fresh;
    transaction_type = i.transaction_type;
    transaction_id = i.transaction_id;
    merchant_id = i.merchant_id;
    total_fee_amount = total_fee i;
    system_amount = system_share i;
    agent_id = i.agent_id;
    agent_amount = agent_share i;
    partner_id = i.partner_id;
    partner_amount = partner_share i;
    merchant_fee_pct = i.merchant_fee_pct;
    agent_pct = i.agent_commission_pct;
    partner_pct = i.partner_commission_pct;
    currency = i.currency;
    created_at = now;
  }

  -- `CalculateCommission`, with the fresh UUID and the clock
  unfoldable pub calculate_commission : CommissionInput D → ℕ → ℕ → Result Error (Commission D)
  calculate_commission i fresh now =
      if greater (combined_pct i) i.merchant_fee_pct
      then err split_exceeds_fee
      else if is_negative (system_share i)
      then err negative_system_share
      else ok (commission_of i fresh now)
