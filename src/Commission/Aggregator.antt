-- ===== src/Commission/Aggregator.antt =====
-- The grouping loop of `AggregateDaily` in services/commission/internal/service/aggregator.go. A Go
-- map is a list of keys with their values, in which a key stands once.
use richpayment.Base.{
  ℕ, ◌+◌, Bool, true, false, ◌&&◌, Option, none, some, List, [], ◌∷◌, ◌==◌, if◌then◌else◌,
}
use richpayment.Decimal.{Decimal, is_positive}
use richpayment.Wallet.Types.{OwnerType, agent, partner, system, OwnerType-discrete}
use richpayment.Commission.Types.{
  TransactionType-discrete, Commission, CommissionDailySummary, SummaryKey,
}
use mathlib.Core.Logic.{ite}
use text.Mathlib.Text.{◌==◌ as str_eq}

-- `==` of two keys
abbrev pub same_key : SummaryKey → SummaryKey → Bool
same_key j k =
    ite (OwnerType-discrete j.owner_type k.owner_type) true false
    && j.owner_id == k.owner_id
    && ite (TransactionType-discrete j.transaction_type k.transaction_type) true false
    && str_eq j.currency k.currency

abbrev pub Groups : Type 0 → Type 0
Groups D = List (SummaryKey × CommissionDailySummary D)

module _ {D : Type 0} where
  abbrev pub key_of : OwnerType → ℕ → Commission D → SummaryKey
  key_of owner_type owner_id c = record {
    owner_type = owner_type;
    owner_id = owner_id;
    transaction_type = c.transaction_type;
    currency = c.currency;
  }

module _ {D : Type 0} ⦃d : Decimal D⦄ where
  -- the summary of a group that does not exist yet
  abbrev pub new_summary : SummaryKey → ℕ → CommissionDailySummary D
  new_summary key date = record {
    summary_date = date;
    owner_type = key.owner_type;
    owner_id = key.owner_id;
    transaction_type = key.transaction_type;
    currency = key.currency;
    total_tx_count = 0;
    total_volume = d.zero;
    total_fee = d.zero;
    total_commission = d.zero;
  }

  -- "Accumulate the amounts"
  abbrev pub accumulate : D → D → D → CommissionDailySummary D → CommissionDailySummary D
  accumulate volume fee commission s = record s {
    total_tx_count = s.total_tx_count + 1;
    total_volume = d.add s.total_volume volume;
    total_fee = d.add s.total_fee fee;
    total_commission = d.add s.total_commission commission;
  }

  -- `addToGroup`
  unfoldable pub add_to_group : Groups D → SummaryKey → ℕ → D → D → D → Groups D
  add_to_group [] key date volume fee commission =
      (key, accumulate volume fee commission (new_summary key date)) ∷ []
  add_to_group ((k, s) ∷ groups) key date volume fee commission =
      let rest = add_to_group groups key date volume fee commission in
      if same_key k key then (k, accumulate volume fee commission s) ∷ groups else (k, s) ∷ rest

  -- `if c.AgentID != nil && c.AgentAmount.IsPositive()`, and the same for the partner
  abbrev pub add_share : OwnerType → Option ℕ → D → ℕ → Commission D → Groups D → Groups D
  add_share owner_type none amount date c groups = groups
  add_share owner_type (some owner_id) amount date c groups =
      if is_positive amount
      then add_to_group groups (key_of owner_type owner_id c) date c.total_fee_amount
          c.total_fee_amount amount
      else groups

  -- one turn of the loop; the system's owner id is the zero UUID
  unfoldable pub add_commission : ℕ → Groups D → Commission D → Groups D
  add_commission date groups c = add_share partner c.partner_id c.partner_amount date c (
      add_share agent c.agent_id c.agent_amount date c (
        add_to_group groups (key_of system 0 c) date c.total_fee_amount c.total_fee_amount
          c.system_amount))

  -- the loop
  unfoldable pub group_commissions : ℕ → Groups D → List (Commission D) → Groups D
  group_commissions date groups [] = groups
  group_commissions date groups (c ∷ cs) = group_commissions date (add_commission date groups c) cs
