-- ===== src/Order/Settling.antt =====
-- What `CompleteDeposit` does once the order is marked as completed, field by field.
use richpayment.Base.{ℕ, ◌≡◌, refl, ap, ◌∙◌, Bool, true, false, List, ◌∷◌, arith, if◌then◌else◌}
use richpayment.Base.Result.{ok}
use richpayment.Decimal.{Decimal}
use richpayment.Order.Types.{
  DepositOrder, Post, wallet_credit, commission_calculate, webhook_send, Failures, Desk, Config,
}
use richpayment.Order.Redis.{Redis}
use richpayment.Order.Calls.{post_if, remove_pending, remove_expiry, unload_account}
use richpayment.Order.Deposit.{net_of, settle}

abbrev pub add_if : {D : Type 0} → Bool → Post D → List (Post D) → List (Post D)
add_if has p posts = if has then p ∷ posts else posts

-- the requests of a completion, the last one first
abbrev pub posts_of :
    {D : Type 0} ⦃d : Decimal D⦄ → Config D → DepositOrder D → D → List (Post D) → List (Post D)
posts_of cfg o actual posts =
    add_if cfg.has_notification
      (webhook_send o.id o.merchant_id o.merchant_order_id actual (net_of cfg actual))
      (add_if cfg.has_commission (commission_calculate o.id o.merchant_id actual cfg.fee_percent)
        (add_if cfg.has_wallet (wallet_credit o.merchant_id (net_of cfg actual) o.id) posts))

module _ {D P Q E : Type 0} ⦃redis : Redis D P Q E⦄ where
  -- The fields after a post, and after the removals.
  post_if-fields :
      (has : Bool) (p : Post D) (s : Desk D P Q E)
      → ((post_if has p s).1.rows ≡ s.rows)
        × ((post_if has p s).1.pools ≡ s.pools)
        × ((post_if has p s).1.posts ≡ add_if has p s.posts)
  post_if-fields true p s = (refl, refl, refl)
  post_if-fields false p s = (refl, refl, refl)

  abbrev removed : Failures → DepositOrder D → Desk D P Q E → Desk D P Q E
  removed f o s = (remove_expiry f o.id (remove_pending f o.bank_account_id o.id s).1).1

  removed-fields :
      (f : Failures) (o : DepositOrder D) (s : Desk D P Q E)
      → ((removed f o s).rows ≡ s.rows)
        × ((removed f o s).pools ≡ s.pools)
        × ((removed f o s).posts ≡ s.posts)
  removed-fields f o s = ground arith

  unload_account-fields :
      (f : Failures) (m a : ℕ) (s : Desk D P Q E)
      → ((unload_account f m a s).1.rows ≡ s.rows)
        × ((unload_account f m a s).1.posts ≡ s.posts)
        × (f.incr ≡ false → (unload_account f m a s).1.pools ≡ redis.pools.decr m a s.pools)
  unload_account-fields f m a s = ground arith

module _ {D P Q E : Type 0} ⦃d : Decimal D⦄ ⦃redis : Redis D P Q E⦄ where
  abbrev credited : Config D → DepositOrder D → D → Desk D P Q E → Desk D P Q E
  credited cfg o actual s =
      (post_if cfg.has_wallet (wallet_credit o.merchant_id (net_of cfg actual) o.id) s).1

  abbrev shared : Config D → DepositOrder D → D → Desk D P Q E → Desk D P Q E
  shared cfg o actual s =
      (post_if cfg.has_commission (commission_calculate o.id o.merchant_id actual cfg.fee_percent)
        s).1

  abbrev notified : Config D → DepositOrder D → D → Desk D P Q E → Desk D P Q E
  notified cfg o actual s =
      (post_if cfg.has_notification
        (webhook_send o.id o.merchant_id o.merchant_order_id actual (net_of cfg actual)) s).1

  pub settle-fields :
      (cfg : Config D) (f : Failures) (o : DepositOrder D) (actual : D) (s : Desk D P Q E)
      → f.incr ≡ false
      → ((settle cfg f o actual s).0 ≡ ok tt)
        × ((settle cfg f o actual s).1.rows ≡ s.rows)
        × ((settle cfg f o actual s).1.pools
            ≡ redis.pools.decr o.merchant_id o.bank_account_id s.pools)
        × ((settle cfg f o actual s).1.posts ≡ posts_of cfg o actual s.posts)
  unfolding settle
  settle-fields cfg f o actual s up =
      let s1 = credited cfg o actual s in
      let s2 = shared cfg o actual s1 in
      let s3 = notified cfg o actual s2 in
      let s4 = removed f o s3 in
      let (r1, p1, q1) = post_if-fields cfg.has_wallet _ s in
      let (r2, p2, q2) = post_if-fields cfg.has_commission _ s1 in
      let (r3, p3, q3) = post_if-fields cfg.has_notification _ s2 in
      let (r4, p4, q4) = removed-fields f o s3 in
      let (r5, q5, p5) = unload_account-fields f o.merchant_id o.bank_account_id s4 in
      (
        refl,
        r5 ∙ r4 ∙ r3 ∙ r2 ∙ r1,
        p5 up ∙ ap (redis.pools.decr o.merchant_id o.bank_account_id) (p4 ∙ p3 ∙ p2 ∙ p1),
        q5
            ∙ q4
            ∙ q3
            ∙ ap (add_if cfg.has_notification _) (q2 ∙ ap (add_if cfg.has_commission _) q1),
      )
