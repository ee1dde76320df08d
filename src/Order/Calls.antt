-- ===== src/Order/Calls.antt =====
-- The calls that the methods of the order service are made of: of the repository, of the sorted
-- sets, whose failing writes go unnoticed, and of the other services.
use richpayment.Base.{ℕ, Bool, none, some, List, ◌∷◌, if◌then◌else◌}
use richpayment.Base.Result.{ok, err, Action}
use richpayment.Order.Types.{
  DepositOrder, Error, no_bank_account, bad_account, Post, Failures, Desk,
}
use richpayment.Order.Redis.{Redis}

module _ {D P Q E A : Type 0} where
  -- a call of the repository
  abbrev pub on_rows : Action Error (List (DepositOrder D)) A → Action Error (Desk D P Q E) A
  on_rows m s = let (r, rows) = m s.rows in (r, record s { rows = rows })

module _ {D P Q E : Type 0} where
  -- `if client != nil { Post }`
  abbrev pub post_if : Bool → Post D → Action Error (Desk D P Q E) (Unit {0})
  post_if has p s = (ok tt, if has then record s { posts = p ∷ s.posts } else s)

module _ {D P Q E : Type 0} ⦃redis : Redis D P Q E⦄ where
  -- Step 1 of `CreateDepositOrder`
  abbrev pub pick_account : Failures → ℕ → Action Error (Desk D P Q E) ℕ
  pick_account f merchant_id s = (
    if f.pool then err no_bank_account else elim (redis.pools.lowest merchant_id s.pools) [
      | none ↦ err no_bank_account
      | some account ↦ if f.account then err bad_account else ok account
    ],
    s,
  )

  -- ZINCRBY 1 and ZINCRBY -1, whose errors are not looked at
  abbrev pub load_account :
      Failures → (merchant_id account : ℕ) → Action Error (Desk D P Q E) (Unit {0})
  load_account f m a s =
      (ok tt, if f.incr then s else record s { pools = redis.pools.incr m a s.pools })

  abbrev pub unload_account :
      Failures → (merchant_id account : ℕ) → Action Error (Desk D P Q E) (Unit {0})
  unload_account f m a s =
      (ok tt, if f.incr then s else record s { pools = redis.pools.decr m a s.pools })

  -- ZADD and ZREM of the pending set
  abbrev pub add_pending :
      Failures → (account : ℕ) → D → (order_id : ℕ) → Action Error (Desk D P Q E) (Unit {0})
  add_pending f a amount id s = (
    ok tt,
    if f.add
        then s
        else record s { pending = redis.pending.add a (redis.pending.float amount) id s.pending },
  )

  abbrev pub remove_pending :
      Failures → (account order_id : ℕ) → Action Error (Desk D P Q E) (Unit {0})
  remove_pending f a id s =
      (ok tt, if f.remove then s else record s { pending = redis.pending.remove a id s.pending })

  abbrev pub add_expiry :
      Failures → (expires_at order_id : ℕ) → Action Error (Desk D P Q E) (Unit {0})
  add_expiry f t id s =
      (ok tt, if f.add then s else record s { expiry = redis.expiry.add t id s.expiry })

  abbrev pub remove_expiry : Failures → (order_id : ℕ) → Action Error (Desk D P Q E) (Unit {0})
  remove_expiry f id s =
      (ok tt, if f.remove then s else record s { expiry = redis.expiry.remove id s.expiry })
