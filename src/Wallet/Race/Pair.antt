-- ===== src/Wallet/Race/Pair.antt =====
-- Two calls of the wallet service that take turns, in any order, over one database and one Redis.
use richpayment.Base.{Bool, true, false, List, [], ◌∷◌}
use richpayment.Base.Result.{Action}
use richpayment.Decimal.{Decimal}
use richpayment.Wallet.Types.{Db, WalletService, Request, Error, Outage}
use richpayment.Wallet.Lock.{Redis}
use richpayment.Wallet.Repo.{Column}
use richpayment.Wallet.Race.{Stage, arrived, checked, locked, leaving, finished, advance}

-- A call: what fails during it, its arguments and its transaction.
pub record Call (D : Type 0) : Type 0 where
  pub outage : Outage
  pub request : Request D
  pub body : Action Error (Db D) (Unit {0})

pub record World (D R : Type 0) : Type 0 where
  pub left : Stage
  pub right : Stage
  pub service : WalletService D R

pub data Side : Type 0 where
  left_moves right_moves : Side

-- The call has the lock.
abbrev pub is_inside : Stage → Bool
is_inside arrived = false
is_inside checked = false
is_inside locked = true
is_inside (leaving q) = true
is_inside (finished q) = false

abbrev pub begin : {D R : Type 0} → WalletService D R → World D R
begin s = record { left = arrived; right = arrived; service = s }

module _ {D R : Type 0} ⦃d : Decimal D⦄ ⦃column : Column D⦄ ⦃redis : Redis R⦄ where
  abbrev pub turn : Call D → Stage × WalletService D R → Stage × WalletService D R
  turn c = advance c.body c.outage c.request

  unfoldable pub step : Call D → Call D → Side → World D R → World D R
  step a b left_moves w =
      let (p, s) = turn a (w.left, w.service) in record w { left = p; service = s }
  step a b right_moves w =
      let (p, s) = turn b (w.right, w.service) in record w { right = p; service = s }

  unfoldable pub run : Call D → Call D → List Side → World D R → World D R
  run a b [] w = w
  run a b (x ∷ xs) w = run a b xs (step a b x w)
