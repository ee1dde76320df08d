-- ===== src/Order/Uniqueness.antt =====
-- The loop that looks for an amount that no pending order has, and the pending sets under a creation.
use richpayment.Base.{
  ℕ, zero, suc, ◌+◌, ◌<◌, ◌≡◌, ap, ◌∙◌, true, false, ◌&&◌, none, some, arith, ◌==◌, Bool-cases, inl,
  inr, ◌⊎◌, ==_iff,
}
use richpayment.Base.Result.{ok}
use richpayment.Base.Table.{exists_row}
use richpayment.Decimal.{Decimal}
use richpayment.Order.Types.{DepositOrder, Failures, Desk, Config}
use richpayment.Order.Redis.{PendingSets, Redis, IsExact}
use richpayment.Order.Repo.{is_id, create}
use richpayment.Order.Deposit.{
  Forms, DepositRequest, candidate, is_free, adjust_loop, new_order, store_order,
}
use richpayment.Order.Opening.{loaded}

module _ {D Q : Type 0} ⦃d : Decimal D⦄ ⦃forms : Forms D⦄ (sets : PendingSets D Q) where
  pub adjust_loop-free :
      (f : Failures) (account : ℕ) (base : D) (draws : ℕ → ℕ) (left i k : ℕ) (q : Q)
      → k < left
      → is_free sets f account (candidate base (draws (i + k))) q ≡ true
      → is_free sets f account (adjust_loop sets f account base draws left i q) q ≡ true
  unfolding adjust_loop
  adjust_loop-free f account base draws zero i k q in_loop free = absurd (omega arith)
  adjust_loop-free f account base draws (suc left) i zero q in_loop free =
      let here : is_free sets f account (candidate base (draws i)) q ≡ true =
        ap (λ j. is_free sets f account (candidate base (draws j)) q) {x = i} {y = i + 0}
          (omega arith)
        ∙ free in
      rw here here
  adjust_loop-free f account base draws (suc left) i (suc k) q in_loop free =
      let there : is_free sets f account (candidate base (draws (suc i + k))) q ≡ true =
        ap (λ j. is_free sets f account (candidate base (draws j)) q) {x = suc i + k}
          {y = i + suc k} (omega arith)
        ∙ free in
      let rest = adjust_loop-free f account base draws left (suc i) k q (omega arith) there in
      elim (Bool-cases (is_free sets f account (candidate base (draws i)) q)) [
        | inl e ↦ rw e e
        | inr e ↦ rw e rest
      ]

  pub adjust_loop-IsExact :
      (f : Failures) (account : ℕ) (base : D) (draws : ℕ → ℕ) (left i : ℕ) (q : Q)
      → IsExact sets base
      → ((k : ℕ) → IsExact sets (candidate base (draws k)))
      → IsExact sets (adjust_loop sets f account base draws left i q)
  unfolding adjust_loop
  adjust_loop-IsExact f account base draws zero i q exact each = exact
  adjust_loop-IsExact f account base draws (suc left) i q exact each =
      elim (Bool-cases (is_free sets f account (candidate base (draws i)) q)) [
        | inl e ↦ rw e (each i)
        | inr e ↦ rw e (adjust_loop-IsExact f account base draws left (suc i) q exact each)
      ]

  pub is_free-none :
      (f : Failures) (account : ℕ) (amount : D) (q : Q)
      → f.look_up ≡ false
      → is_free sets f account amount q ≡ true
      → sets.first account (sets.printed (sets.float amount)) q ≡ none
  is_free-none f account amount q up free = ground arith

module _ {D Q : Type 0} (sets : PendingSets D Q) where
  -- The amount finds the order, in a pending set.
  abbrev pub Finds : (account : ℕ) → D → (id : ℕ) → Q → Type 0
  Finds a amount id q = sets.first a (sets.printed (sets.float amount)) q ≡ some id

  -- Another unique creation does not hide the order.
  pub add-Finds :
      (a b id j : ℕ) (amount other : D) (q : Q)
      → sets.score b j q ≡ none
      → sets.first b (sets.float other) q ≡ none
      → Finds a amount id q
      → Finds a amount id (sets.add b (sets.float other) j q)
  add-Finds a b id j amount other q new free finds =
      sets.first_add a b (sets.printed (sets.float amount)) (sets.float other) j q new free
      ∙ elim (Bool-cases
          (a == b && sets.same_score (sets.printed (sets.float amount)) (sets.float other))) [
            | inr e ↦ rw e finds
            | inl e ↦ ground (
              arith,
              (==_iff a b).0,
              sets.first_same b (sets.printed (sets.float amount)) (sets.float other) q,
            )
          ]

module _ {D P Q E : Type 0} ⦃d : Decimal D⦄ ⦃forms : Forms D⦄ ⦃redis : Redis D P Q E⦄ where
  pub loaded-pending :
      (f : Failures) (m a : ℕ) (s : Desk D P Q E) → (loaded f m a s).pending ≡ s.pending
  loaded-pending f m a s = ground arith

  pub store_order-pending :
      (cfg : Config D) (f : Failures) (r : DepositRequest D) (account : ℕ) (amount : D)
      (s : Desk D P Q E)
      → ((store_order cfg f r account amount s).1.pending ≡ s.pending)
        ⊎ ((store_order cfg f r account amount s).1.pending
            ≡ redis.pending.add account (redis.pending.float amount) r.id s.pending)
  unfolding store_order create
  store_order-pending cfg f r account amount s = elim (Bool-cases f.qr) [
    | inl a ↦ inl (ground arith)
    | inr a ↦ elim (Bool-cases f.insert) [
      | inl b ↦ inl (ground arith)
      | inr b ↦ elim (Bool-cases (exists_row (is_id r.id) s.rows)) [
        | inl c ↦ inl (ground arith)
        | inr c ↦ elim (Bool-cases f.add) [
          | inl e ↦ inl (ground arith)
          | inr e ↦ inr (ground arith)
        ]
      ]
    ]
  ]

  pub store_order-ok :
      (cfg : Config D) (f : Failures) (r : DepositRequest D) (account : ℕ) (amount : D)
      (s s' : Desk D P Q E) (o : DepositOrder D)
      → f.add ≡ false
      → store_order cfg f r account amount s ≡ (ok o, s')
      → (o ≡ new_order cfg r account amount)
        × (s'.pending ≡ redis.pending.add account (redis.pending.float amount) r.id s.pending)
  unfolding store_order create
  store_order-ok cfg f r account amount s s' o up h = ground arith
