-- ===== src/Order/Matching.antt =====
-- Unique amounts: an order is found again by the amount that it was given.
use richpayment.Base.{
  ℕ, ◌+◌, ◌<◌, ◌≡◌, sym, ap, ◌∙◌, true, false, none, List, [], ◌∷◌, arith, inl, inr, ◌⊎◌,
}
use mathlib.Core.Path.{subst}
use richpayment.Base.Result.{ok}
use richpayment.Decimal.{Decimal}
use richpayment.Order.Types.{DepositOrder, Failures, Desk, Config}
use richpayment.Order.Redis.{Redis, IsExact}
use richpayment.Order.Calls.{pick_account}
use richpayment.Order.Deposit.{
  Forms, DepositRequest, candidate, is_free, adjust_loop, adjust_amount_for_uniqueness,
  create_deposit_order,
}
use richpayment.Order.Matcher.{look_up_amount, match_by_unique_amount}
use richpayment.Order.Opening.{
  pick_account-cases, loaded, amount_on, create_deposit_order-runs, create_deposit_order-stops,
}
use richpayment.Order.Uniqueness.{
  adjust_loop-free, adjust_loop-IsExact, is_free-none, Finds, add-Finds, loaded-pending,
  store_order-pending, store_order-ok,
}

module _ {D P Q E : Type 0} ⦃d : Decimal D⦄ ⦃forms : Forms D⦄ ⦃redis : Redis D P Q E⦄ where
  -- A creation whose loop meets a free amount, with an id that Redis does not know.
  abbrev pub IsUnique : Config D × Failures × DepositRequest D → Desk D P Q E → Type 0
  IsUnique (cfg, f, r) s =
      (cfg.unique_amount ≡ true)
      × (f.look_up ≡ false)
      × ((account : ℕ) → redis.pending.score account r.id s.pending ≡ none)
      × (IsExact redis.pending r.amount)
      × ((k : ℕ) → IsExact redis.pending (candidate r.amount (r.draws k)))
      × ((account : ℕ)
          → pick_account f r.merchant_id s ≡ (ok account, s)
          → (k : ℕ) × (k < 100)
            × (is_free redis.pending f account (candidate r.amount (r.draws k)) s.pending ≡ true))

  abbrev pub create_step : Config D × Failures × DepositRequest D → Desk D P Q E → Desk D P Q E
  create_step (cfg, f, r) s = (create_deposit_order cfg f r s).1

  abbrev pub create_all :
      List (Config D × Failures × DepositRequest D) → Desk D P Q E → Desk D P Q E
  create_all [] s = s
  create_all (c ∷ cs) s = create_all cs (create_step c s)

  -- all creations are of that form
  abbrev pub AllUnique : List (Config D × Failures × DepositRequest D) → Desk D P Q E → Type 0
  AllUnique [] s = Unit
  AllUnique (c ∷ cs) s = IsUnique c s × AllUnique cs (create_step c s)

  amount_on-free :
      (cfg : Config D) (f : Failures) (r : DepositRequest D) (account : ℕ) (s : Desk D P Q E)
      → IsUnique (cfg, f, r) s
      → pick_account f r.merchant_id s ≡ (ok account, s)
      → let amount = amount_on cfg f r account (loaded f r.merchant_id account s) in
        (redis.pending.first account (redis.pending.float amount) s.pending ≡ none)
        × IsExact redis.pending amount
  unfolding adjust_amount_for_uniqueness
  amount_on-free cfg f r account s (unique, up, new, exact, each, some_free) picked =
      let (k, below, free) = some_free account picked in
      let found =
        adjust_loop-free redis.pending f account r.amount r.draws 100 0 k s.pending below (
          ap (λ j. is_free redis.pending f account (candidate r.amount (r.draws j)) s.pending)
            {x = 0 + k} {y = k} (omega arith)
          ∙ free) in
      let is : amount_on cfg f r account (loaded f r.merchant_id account s)
          ≡ adjust_loop redis.pending f account r.amount r.draws 100 0 s.pending =
        ground (arith, loaded-pending f r.merchant_id account s) in
      let none_at =
        is_free-none redis.pending f account
          (adjust_loop redis.pending f account r.amount r.draws 100 0 s.pending) s.pending up
          found in
      let whole =
        adjust_loop-IsExact redis.pending f account r.amount r.draws 100 0 s.pending exact each in
      (
        ap (λ x. redis.pending.first account (redis.pending.float x) s.pending) is
            ∙ ap (λ x. redis.pending.first account x s.pending) (sym whole)
            ∙ none_at,
        subst (IsExact redis.pending) (sym is) whole,
      )

  create-pending :
      (cfg : Config D) (f : Failures) (r : DepositRequest D) (s : Desk D P Q E)
      → ((create_deposit_order cfg f r s).1.pending ≡ s.pending)
        ⊎ (account : ℕ) × (pick_account f r.merchant_id s ≡ (ok account, s))
          × ((create_deposit_order cfg f r s).1.pending
              ≡ redis.pending.add account
                  (redis.pending.float
                    (amount_on cfg f r account (loaded f r.merchant_id account s)))
                  r.id
                  s.pending)
  create-pending cfg f r s = elim (pick_account-cases f r.merchant_id s) [
    | inl (e, is) ↦ inl (ap (λ p. p.1.pending) (create_deposit_order-stops cfg f r s e is))
    | inr (account, is) ↦
        let s' = loaded f r.merchant_id account s in
        let amount = amount_on cfg f r account s' in
        let runs = ap (λ p. p.1.pending) (create_deposit_order-runs cfg f r s account is) in
        elim (store_order-pending cfg f r account amount s') [
          | inl same ↦ inl (runs ∙ same ∙ loaded-pending f r.merchant_id account s)
          | inr added ↦ inr (
            account,
            is,
            runs
                ∙ added
                ∙ ap (redis.pending.add account (redis.pending.float amount) r.id)
                    (loaded-pending f r.merchant_id account s),
          )
        ]
  ]

  create_all-Finds :
      (a id : ℕ) (amount : D) (cs : List (Config D × Failures × DepositRequest D))
      (s : Desk D P Q E)
      → AllUnique cs s
      → Finds redis.pending a amount id s.pending
      → Finds redis.pending a amount id (create_all cs s).pending
  create_all-Finds a id amount [] s all finds = finds
  create_all-Finds a id amount ((cfg, f, r) ∷ cs) s (unique, all) finds =
      create_all-Finds a id amount cs (create_deposit_order cfg f r s).1 all
        (elim (create-pending cfg f r s) [
          | inl same ↦
              ap (redis.pending.first a (redis.pending.printed (redis.pending.float amount))) same
              ∙ finds
          | inr (b, picked, added) ↦
              let (_, _, new, _, _, _) = unique in
              ap (redis.pending.first a (redis.pending.printed (redis.pending.float amount))) added
              ∙ add-Finds redis.pending a b id r.id amount
                  (amount_on cfg f r b (loaded f r.merchant_id b s)) s.pending (new b)
                  (amount_on-free cfg f r b s unique picked).0 finds
        ])

  create-Finds :
      (cfg : Config D) (f : Failures) (r : DepositRequest D) (s s' : Desk D P Q E)
      (o : DepositOrder D)
      → IsUnique (cfg, f, r) s
      → f.add ≡ false
      → create_deposit_order cfg f r s ≡ (ok o, s')
      → Finds redis.pending o.bank_account_id o.adjusted_amount o.id s'.pending
  create-Finds cfg f r s s' o unique up h = elim (pick_account-cases f r.merchant_id s) [
    | inl (e, is) ↦
        let stops = sym (create_deposit_order-stops cfg f r s e is) ∙ h in absurd (ground arith)
    | inr (account, is) ↦
        let mid = loaded f r.merchant_id account s in
        let amount = amount_on cfg f r account mid in
        let (made, added) =
          store_order-ok cfg f r account amount mid s' o up
            (sym (create_deposit_order-runs cfg f r s account is) ∙ h) in
        let (_, _, new, _, _, _) = unique in
        let (free, exact) = amount_on-free cfg f r account s unique is in
        let first =
          redis.pending.first_add account account
            (redis.pending.printed (redis.pending.float amount)) (redis.pending.float amount) r.id
            s.pending (new account) free in
        let at : Finds redis.pending account amount r.id s'.pending =
          ap (redis.pending.first account (redis.pending.printed (redis.pending.float amount))) (
            added
            ∙ ap (redis.pending.add account (redis.pending.float amount) r.id)
                (loaded-pending f r.merchant_id account s))
          ∙ first
          ∙ ground (arith, exact, redis.pending.same_score_refl (redis.pending.float amount)) in
        subst
          (λ (x : DepositOrder D).
            Finds redis.pending x.bank_account_id x.adjusted_amount x.id s'.pending)
          (sym made) at
  ]

  -- An order that is created with a unique amount is the one that the matcher finds by its account
  -- and that amount, after any further creations: the loop of every creation meets a free amount
  -- in its hundred attempts, the scores of the amounts lose nothing when they are printed with %f,
  -- ids are new to Redis, and the queries and the write of the order to the pending set succeed.
  pub match_finds_created :
      (cfg : Config D) (f g : Failures) (r : DepositRequest D) (s s' : Desk D P Q E)
      (o : DepositOrder D) (later : List (Config D × Failures × DepositRequest D))
      → IsUnique (cfg, f, r) s
      → (f.add ≡ false) × (g.look_up ≡ false)
      → create_deposit_order cfg f r s ≡ (ok o, s')
      → AllUnique later s'
      → (match_by_unique_amount g o.bank_account_id o.adjusted_amount (create_all later s')).0
        ≡ ok o.id
  unfolding match_by_unique_amount look_up_amount
  match_finds_created cfg f g r s s' o later unique (up, looks) h all =
      let finds =
        create_all-Finds o.bank_account_id o.id o.adjusted_amount later s' all
          (create-Finds cfg f r s s' o unique up h) in
      ground arith
