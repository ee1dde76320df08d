-- ===== src/Commission/Recorded.antt =====
-- The ledger after `RecordCommission`, and what it leaves when the agent has no wallet.
use richpayment.Base.{
  ℕ, ◌≡◌, true, sym, ◌∙◌, String, Option, none, some, arith, Bool-cases, inl, inr,
}
use mathlib.Core.Path.{subst}
use richpayment.Base.Result.{ok, err, Action, ◌>>◌, >>=_ok, >>=_runs, >>=_stops}
use richpayment.Decimal.{Decimal, IsCents, is_positive}
use richpayment.Wallet.Types.{commission_credit}
use richpayment.Wallet.Repo.{Column}
use richpayment.Wallet.Reconcile.{Reconciled}
use richpayment.Commission.Types.{Commission, Books, Error, refused, unavailable}
use richpayment.Commission.Recorder.{
  Failures, CommissionColumns, wallet_row, insert_commission, credit_wallet, credit_share,
  record_commission,
}
use richpayment.Commission.Credits.{credited-Reconciled, credit_wallet_lem}

module _ {D : Type 0} ⦃d : Decimal D⦄ ⦃column : Column D⦄ where
  credit_share-Reconciled :
      (f : Failures) (o : Option ℕ) (amount : D) (ref : ℕ) (description : String) (now : ℕ)
      (s s' : Books D)
      → credit_share f o amount ref description now s ≡ (ok tt, s')
      → IsCents amount
      → Reconciled s.db
      → Reconciled s'.db
  unfolding credit_share
  credit_share-Reconciled f none amount ref description now s s' run xc h =
      let is : s ≡ s' = ground arith in subst (λ (x : Books D). Reconciled x.db) is h
  credit_share-Reconciled f (some owner) amount ref description now s s' run xc h =
      elim (Bool-cases (is_positive amount)) [
        | inl e ↦
            let paid = rw e at run in
            let (w, read, is) =
              credit_wallet_lem f owner amount commission_credit ref description now s s' paid xc
                h in
            subst (λ (x : Books D). Reconciled x.db) (sym is)
              (credited-Reconciled owner commission_credit ref amount description now w s.db read xc
                h)
        | inr e ↦ let is : s ≡ s' = ground arith in subst (λ (x : Books D). Reconciled x.db) is h
      ]

  -- A recipient without a wallet of that id is an error that changes nothing.
  credit_share_unpaid :
      (f : Failures) (owner : ℕ) (amount : D) (ref : ℕ) (description : String) (now : ℕ)
      (s : Books D)
      → is_positive amount ≡ true
      → wallet_row owner s ≡ none
      → (e : Error) × (credit_share f (some owner) amount ref description now s ≡ (err e, s))
  unfolding credit_share credit_wallet
  credit_share_unpaid f owner amount ref description now s p none_found =
      elim (Bool-cases f.update_wallet) [
        | inl a ↦ (unavailable, ground (arith, a))
        | inr a ↦ elim (Bool-cases f.insert_ledger) [
          | inl b ↦ (unavailable, ground (arith, a, b))
          | inr b ↦ (refused, ground (arith, a, b))
        ]
      ]

module _ {D : Type 0} ⦃d : Decimal D⦄ ⦃column : Column D⦄ ⦃columns : CommissionColumns D⦄ where
  -- what `RecordCommission` does after the first statement
  abbrev pay :
      Failures → Failures → Commission D → String → ℕ → Unit {0} → Action Error (Books D) (Unit {0})
  pay g h c description now _ =
      credit_share g c.agent_id c.agent_amount c.id description now
      >> credit_share h c.partner_id c.partner_amount c.id description now

  abbrev pay_partner :
      Failures → Commission D → String → ℕ → Unit {0} → Action Error (Books D) (Unit {0})
  pay_partner h c description now _ =
      credit_share h c.partner_id c.partner_amount c.id description now

  insert_commission_db :
      (f : Failures) (c : Commission D) (s s' : Books D)
      → insert_commission f c s ≡ (ok tt, s')
      → s'.db ≡ s.db
  unfolding insert_commission
  insert_commission_db f c s s' run = ground arith

  -- If every wallet's balance is the sum of its ledger rows, in whole cents, then it is so after a
  -- `RecordCommission` of shares in whole cents that returns nil.
  pub record_commission-Reconciled :
      (f g h : Failures) (c : Commission D) (description : String) (now : ℕ) (s s' : Books D)
      → record_commission f g h c description now s ≡ (ok tt, s')
      → IsCents c.agent_amount
      → IsCents c.partner_amount
      → Reconciled s.db
      → Reconciled s'.db
  unfolding record_commission
  record_commission-Reconciled f g h c description now s s' run ac pc r =
      let (_, s1, inserted, rest) =
        >>=_ok (insert_commission f c) (pay g h c description now) s s' tt run in
      let (_, s2, agent, partner) =
        >>=_ok (credit_share g c.agent_id c.agent_amount c.id description now)
          (pay_partner h c description now) s1 s' tt rest in
      credit_share-Reconciled h c.partner_id c.partner_amount c.id description now s2 s' partner pc
        (credit_share-Reconciled g c.agent_id c.agent_amount c.id description now s1 s2 agent ac
          (rw (insert_commission_db f c s s1 inserted) r))

  -- If the agent's share is positive and no wallet has the agent's own id, then a `RecordCommission`
  -- whose first statement succeeds returns an error and leaves the books as after that statement: the
  -- commission stays recorded, and neither agent nor partner is paid.
  pub record_commission_unpaid :
      (f g h : Failures) (c : Commission D) (description : String) (now owner : ℕ) (s s' : Books D)
      → insert_commission f c s ≡ (ok tt, s')
      → c.agent_id ≡ some owner
      → is_positive c.agent_amount ≡ true
      → wallet_row owner s ≡ none
      → (e : Error) × (record_commission f g h c description now s ≡ (err e, s'))
  unfolding record_commission
  record_commission_unpaid f g h c description now owner s s' run agent p none_found =
      let none_left : wallet_row owner s' ≡ none =
        rw (insert_commission_db f c s s' run) none_found in
      let (e, stops) =
        credit_share_unpaid g owner c.agent_amount c.id description now s' p none_left in
      let paid_first : credit_share g c.agent_id c.agent_amount c.id description now s'
          ≡ (err e, s') =
        rw agent stops in
      (
        e,
        >>=_runs (insert_commission f c) (pay g h c description now) s s' tt run
            ∙ >>=_stops (credit_share g c.agent_id c.agent_amount c.id description now)
                (pay_partner h c description now) s' s' e paid_first,
      )
