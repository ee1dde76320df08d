-- ===== src/Withdrawal/Lifecycle.antt =====
-- The life of a withdrawal: its status moves along the steps of the service, and nothing else of it
-- that was agreed changes.
use richpayment.Base.{
  ℕ, ◌≡◌, sym, Bool, false, List, [], ◌∷◌, none, some, arith, ◌==◌, if◌then◌else◌, Bool-cases,
  ==_iff, inl, inr,
}
use mathlib.Core.Path.{subst}
use richpayment.Base.Table.{find_row, exists_row, find_row-absent}
use richpayment.Decimal.{Decimal}
use richpayment.Withdrawal.Types.{WithdrawalStatus, Withdrawal, Desk}
use richpayment.Withdrawal.Repo.{is_id}
use richpayment.Withdrawal.Service.{WalletClient, new_withdrawal, Command, serve, serve_all}
use richpayment.Withdrawal.Outcome.{Step, Ending, unchanged, added, updated, serve-Ending}
use richpayment.Withdrawal.Runs.{step_row}
use richpayment.Withdrawal.Rows.{IsSame, step_row-IsSame, find_row-stepped}

-- Any number of steps.
pub data Reach (a : WithdrawalStatus) : WithdrawalStatus → Type 0 where
  here : Reach a a
  next : {b c : WithdrawalStatus} → Reach a b → Step b c → Reach a c

Reach-trans : {a b c : WithdrawalStatus} → Reach a b → Reach b c → Reach a c
Reach-trans r here = r
Reach-trans r (next q s) = next (Reach-trans r q) s

module _ {D : Type 0} ⦃d : Decimal D⦄ where
  -- What a withdrawal became.
  pub record Became (w w' : Withdrawal D) : Type 0 where
    pub same : IsSame w w'
    pub reach : Reach w.status w'.status

  abbrev pub Kept : ℕ → Withdrawal D → List (Withdrawal D) → Type 0
  Kept id w rows = (w' : Withdrawal D) × (find_row (is_id id) rows ≡ some w') × Became w w'

  Became-refl : (w : Withdrawal D) → Became w w
  Became-refl w = record { same = ground arith; reach = here }

  Became-trans : (u v w : Withdrawal D) → Became u v → Became v w → Became u w
  Became-trans u v w p q = record {
    same = ground (arith, p.same, q.same);
    reach = Reach-trans p.reach q.reach;
  }

  Became-Step :
      (status : WithdrawalStatus) (fields : List _) (w : Withdrawal D)
      → Step w.status status
      → Became w (step_row status fields w)
  Became-Step status fields w step =
      let (same, is) = step_row-IsSame status fields w in
      record { same = same; reach = next here (subst (Step w.status) (sym is) step) }

  find_row-added :
      (id : ℕ) (w v : Withdrawal D) (rows : List (Withdrawal D))
      → find_row (is_id id) rows ≡ some w
      → exists_row (is_id v.id) rows ≡ false
      → find_row (is_id id) (v ∷ rows) ≡ some w
  find_row-added id w v rows found new = elim (Bool-cases (v.id == id)) [
    | inl e ↦
        let missing : find_row (is_id id) rows ≡ none =
          rw ((==_iff v.id id).0 e) at (find_row-absent (is_id v.id) rows new) in
        absurd (ground arith)
    | inr e ↦ rw e found
  ]

  Ending-Kept :
      (c : Command D) (id : ℕ) (w : Withdrawal D) (rows rows' : List (Withdrawal D))
      (success : Bool)
      → Ending c rows success rows'
      → find_row (is_id id) rows ≡ some w
      → Kept id w rows'
  Ending-Kept c id w rows rows' success (unchanged _ is) found = (w, rw is found, Became-refl w)
  Ending-Kept c id w rows rows' success (added limit r _ _ _ new is) found =
      (w, rw is (find_row-added id w (new_withdrawal r) rows found new), Became-refl w)
  Ending-Kept c id w rows rows' success (updated j v status fields _ read step is) found =
      let there : find_row (is_id id) rows'
          ≡ some (if id == j then step_row status fields w else w) =
        rw is (find_row-stepped id j status fields w rows found) in
      elim (Bool-cases (id == j)) [
        | inl e ↦
            let same : v ≡ w = cc (read, found, (==_iff id j).0 e) in
            (
              step_row status fields w,
              rw e at there,
              Became-Step status fields w
                  (subst (λ (x : Withdrawal D). Step x.status status) same step),
            )
        | inr e ↦ (w, rw e at there, Became-refl w)
      ]

module _ {D W : Type 0} ⦃d : Decimal D⦄ ⦃client : WalletClient D W⦄ where
  -- A withdrawal stays in the repository over any sequence of calls, with its merchant, amount,
  -- currency, destination and time of creation, and its status moves only from pending to approved,
  -- from pending to rejected, and from approved to completed.
  pub serve_all-Kept :
      (cs : List (Command D)) (id : ℕ) (w : Withdrawal D) (s : Desk D W)
      → find_row (is_id id) s.rows ≡ some w
      → Kept id w (serve_all cs s).rows
  unfolding serve_all
  serve_all-Kept [] id w s found = (w, found, Became-refl w)
  serve_all-Kept (c ∷ cs) id w s found =
      let (v, read, p) = Ending-Kept c id w s.rows (serve c s).1.rows _ (serve-Ending c s) found in
      let (u, last, q) = serve_all-Kept cs id v (serve c s).1 read in
      (u, last, Became-trans w v u p q)
