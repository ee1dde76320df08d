-- ===== src/Order/Race.antt =====
-- A completion and the expiry worker on one order, when both have read it before either has written.
use richpayment.Base.{ℕ, ◌≡◌, ap, ◌∙◌, true, false, some, [], arith}
use richpayment.Base.Table.{
  find_row, exists_row, set_row, find_row-set_row, find_row-passes, exists_row-found,
}
use richpayment.Base.Result.{ok}
use richpayment.Decimal.{Decimal}
use richpayment.Order.Types.{
  pending, completed, expired, MatchedBy, DepositOrder, Failures, Desk, Config,
}
use richpayment.Order.Redis.{Redis}
use richpayment.Order.Repo.{is_status, is_id, updated_row, update_status}
use richpayment.Order.Deposit.{completion_fields, settle, complete_read}
use richpayment.Order.Settling.{posts_of, settle-fields}
use richpayment.Order.Timeout.{expire_pending, expire_read}

module _ {D : Type 0} ⦃d : Decimal D⦄ where
  -- the row after a completion
  abbrev pub completed_row : Config D → MatchedBy → D → ℕ → DepositOrder D → DepositOrder D
  completed_row cfg by actual now o =
      updated_row completed (completion_fields cfg by actual now) now o

module _ {D P Q E : Type 0} ⦃d : Decimal D⦄ ⦃redis : Redis D P Q E⦄ where
  complete_read-pending :
      (cfg : Config D) (f : Failures) (id : ℕ) (by : MatchedBy) (actual : D) (now : ℕ)
      (o : DepositOrder D) (s : Desk D P Q E)
      → is_status o.status pending ≡ true
      → exists_row (is_id id) s.rows ≡ true
      → f.update ≡ false
      → complete_read cfg f id by actual now o s
        ≡ settle cfg f o actual
            (record s { rows = set_row (is_id id) (completed_row cfg by actual now) s.rows })
  unfolding complete_read update_status
  complete_read-pending cfg f id by actual now o s waits there up = ground arith

  expire_read-outcome :
      (f : Failures) (id now : ℕ) (o : DepositOrder D) (s : Desk D P Q E)
      → is_status o.status pending ≡ true
      → exists_row (is_id id) s.rows ≡ true
      → f.update ≡ false
      → f.incr ≡ false
      → ((expire_read f id now o s).0 ≡ ok tt)
        × ((expire_read f id now o s).1.rows
            ≡ set_row (is_id id) (updated_row expired [] now) s.rows)
        × ((expire_read f id now o s).1.pools
            ≡ redis.pools.decr o.merchant_id o.bank_account_id s.pools)
        × ((expire_read f id now o s).1.posts ≡ s.posts)
  unfolding expire_read expire_pending update_status
  expire_read-outcome f id now o s waits there up count =
      (ground arith, ground arith, ground arith, ground arith)

  -- When a completion and the expiry worker have both read an order as pending and the completion
  -- writes first, both return nil: the order ends expired with the fields of the completion, the
  -- requests of the completion (the credit of the merchant's wallet among them, where the clients
  -- are there) have been sent, and the load of the account is lowered twice. The updates and the
  -- writes to the pool succeed.
  pub expiry_overwrites_completion :
      (cfg : Config D) (f g : Failures) (id : ℕ) (by : MatchedBy) (actual : D) (now later : ℕ)
      (o : DepositOrder D) (s : Desk D P Q E)
      → find_row (is_id id) s.rows ≡ some o
      → is_status o.status pending ≡ true
      → (f.update ≡ false) × (f.incr ≡ false) × (g.update ≡ false) × (g.incr ≡ false)
      → let first = complete_read cfg f id by actual now o s in
        let second = expire_read g id later o first.1 in
        (first.0 ≡ ok tt)
        × (second.0 ≡ ok tt)
        × (find_row (is_id id) second.1.rows
            ≡ some (updated_row expired [] later (completed_row cfg by actual now o)))
        × (second.1.posts ≡ posts_of cfg o actual s.posts)
        × (second.1.pools
            ≡ redis.pools.decr o.merchant_id o.bank_account_id
                (redis.pools.decr o.merchant_id o.bank_account_id s.pools))
  expiry_overwrites_completion cfg f g id by actual now later o s found waits (fu, fi, gu, gi) =
      let there = exists_row-found (is_id id) o s.rows found in
      let mid = record s { rows = set_row (is_id id) (completed_row cfg by actual now) s.rows } in
      let runs = complete_read-pending cfg f id by actual now o s waits there fu in
      let (okay, rows, pools, posts) = settle-fields cfg f o actual mid fi in
      let hit = find_row-passes (is_id id) o s.rows found in
      let after =
        find_row-set_row (is_id id) (completed_row cfg by actual now) o s.rows hit found in
      let s1 = (complete_read cfg f id by actual now o s).1 in
      let rows1 : s1.rows ≡ mid.rows = ap (λ p. p.1.rows) runs ∙ rows in
      let read = ap (find_row (is_id id)) rows1 ∙ after in
      let there1 = exists_row-found (is_id id) (completed_row cfg by actual now o) s1.rows read in
      let (expires, rows2, pools2, posts2) =
        expire_read-outcome g id later o s1 waits there1 gu gi in
      (
        ap (λ p. p.0) runs ∙ okay,
        expires,
        ap (find_row (is_id id)) rows2
            ∙ find_row-set_row (is_id id) (updated_row expired [] later)
                (completed_row cfg by actual now o) s1.rows hit read,
        posts2 ∙ ap (λ p. p.1.posts) runs ∙ posts,
        pools2
            ∙ ap (redis.pools.decr o.merchant_id o.bank_account_id)
                (ap (λ p. p.1.pools) runs ∙ pools),
      )
