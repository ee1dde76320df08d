-- ===== src/Order/Repo.antt =====
-- `PostgresOrderRepo` of services/order/internal/repository/postgres_order_repo.go: the table
-- deposit_orders. Its amounts are NUMERIC(12,2) columns, which round what they are given to the cent;
-- an amount that is too large for them is a failing call. The primary key is (id, created_at): an id
-- that is there is refused here whatever its created_at, since ids are new UUIDs.
use richpayment.Base.{
  ℕ, Bool, true, false, ◌&&◌, none, some, Option, List, [], ◌∷◌, ◌==◌, ltb, if◌then◌else◌,
}
use mathlib.Core.Logic.{ite}
use richpayment.Decimal.{Decimal}
use richpayment.Base.Table.{find_row, exists_row, set_row}
use richpayment.Base.Result.{ok, err, Action}
use richpayment.Order.Types.{
  OrderStatus, OrderStatus-discrete, pending, MatchedBy, DepositOrder, Error, db_failed, not_found,
  duplicate_order, Failures,
}

-- An entry of the map of fields that `UpdateStatus` takes.
pub data Field (D : Type 0) : Type 0 where
  matched_by : MatchedBy → Field D
  matched_at : ℕ → Field D
  actual_amount fee_amount net_amount : D → Field D

abbrev pub is_status : OrderStatus → OrderStatus → Bool
is_status a b = ite (OrderStatus-discrete a b) true false

module _ {D : Type 0} where
  abbrev pub is_id : ℕ → DepositOrder D → Bool
  is_id id o = o.id == id

module _ {D : Type 0} ⦃d : Decimal D⦄ where
  -- a SET clause
  abbrev pub set_field : Field D → DepositOrder D → DepositOrder D
  set_field (matched_by b) o = record o { matched_by = b }
  set_field (matched_at t) o = record o { matched_at = some t }
  set_field (actual_amount x) o = record o { actual_amount = d.round x }
  set_field (fee_amount x) o = record o { fee_amount = d.round x }
  set_field (net_amount x) o = record o { net_amount = d.round x }

  abbrev pub set_fields : List (Field D) → DepositOrder D → DepositOrder D
  set_fields [] o = o
  set_fields (f ∷ fs) o = set_fields fs (set_field f o)

  -- a row as the table holds it
  abbrev pub stored : DepositOrder D → DepositOrder D
  stored o = record o {
    requested_amount = d.round o.requested_amount;
    adjusted_amount = d.round o.adjusted_amount;
    actual_amount = d.round o.actual_amount;
    fee_amount = d.round o.fee_amount;
    net_amount = d.round o.net_amount;
  }

  -- `Create`
  unfoldable pub create :
      Failures → DepositOrder D → Action Error (List (DepositOrder D)) (Unit {0})
  create f o rows =
      let taken = exists_row (is_id o.id) rows in
      (
        if f.insert then err db_failed else if taken then err duplicate_order else ok tt,
        if f.insert then rows else if taken then rows else stored o ∷ rows,
      )

module _ {D : Type 0} where
  -- `GetByID`
  unfoldable pub get_by_id : Failures → ℕ → Action Error (List (DepositOrder D)) (DepositOrder D)
  get_by_id f id rows = (
    if f.find
        then err db_failed
        else elim (find_row (is_id id) rows) [ none ↦ err not_found | some o ↦ ok o ],
    rows,
  )

module _ {D : Type 0} ⦃d : Decimal D⦄ where
  -- the row that the UPDATE of `UpdateStatus` writes
  abbrev pub updated_row :
      OrderStatus → List (Field D) → (now : ℕ) → DepositOrder D → DepositOrder D
  updated_row status fields now o =
      set_fields fields (record o { status = status; updated_at = now })

  -- `UpdateStatus`
  unfoldable pub update_status :
      Failures
      → ℕ
      → OrderStatus
      → List (Field D)
      → (now : ℕ) → Action Error (List (DepositOrder D)) (Unit {0})
  update_status f id status fields now rows =
      let there = exists_row (is_id id) rows in
      (
        if f.update then err db_failed else if there then ok tt else err not_found,
        if f.update then rows else set_row (is_id id) (updated_row status fields now) rows,
      )

module _ {D : Type 0} where
  -- the WHERE of `FindPendingByAmount`
  abbrev pub is_pending_at : (D → D → Bool) → ℕ → D → DepositOrder D → Bool
  is_pending_at same account amount o =
      o.bank_account_id == account && same o.adjusted_amount amount && is_status o.status pending

  -- ORDER BY created_at LIMIT 1: the older of the row and the oldest of the rest
  abbrev older : DepositOrder D → Option (DepositOrder D) → Option (DepositOrder D)
  older o none = some o
  older o (some p) = if ltb p.created_at o.created_at then some p else some o

  abbrev pub oldest : (DepositOrder D → Bool) → List (DepositOrder D) → Option (DepositOrder D)
  oldest test [] = none
  oldest test (o ∷ rows) = let rest = oldest test rows in if test o then older o rest else rest

  -- `FindPendingByAmount`
  unfoldable pub find_pending_by_amount :
      Failures → (D → D → Bool) → ℕ → D → Action Error (List (DepositOrder D)) (DepositOrder D)
  find_pending_by_amount f same account amount rows = (
    if f.find then err db_failed else elim (oldest (is_pending_at same account amount) rows) [
      | none ↦ err not_found
      | some o ↦ ok o
    ],
    rows,
  )

  -- `FindExpired`, whose ORDER BY is left out
  unfoldable pub find_expired : ℕ → List (DepositOrder D) → List (DepositOrder D)
  find_expired before [] = []
  find_expired before (o ∷ rows) =
      let rest = find_expired before rows in
      if is_status o.status pending && ltb o.expires_at before then o ∷ rest else rest
