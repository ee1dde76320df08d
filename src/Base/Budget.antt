-- ===== src/Base/Budget.antt =====
-- A bound on how often something happens along a run of steps.
use richpayment.Base.Tests.{if◌then◌else◌}
use Prim.Native.Nat.{ℕ, suc, ◌+◌, ◌≤◌}
use native.Mathlib.Omega.{arith}
use mathlib.Core.Bool.{Bool}
use mathlib.Core.List.{List, [], ◌∷◌}

module _ {C S : Type 0} (step : C → S → S) (counts : C → S → Bool) where
  -- how many steps of the run count
  abbrev pub total : List C → S → ℕ
  total [] s = 0
  total (c ∷ cs) s = let rest = total cs (step c s) in if counts c s then suc rest else rest

  -- every step of the run is of a kind
  abbrev pub Along : (C → S → Type 0) → List C → S → Type 0
  Along Good [] s = Unit
  Along Good (c ∷ cs) s = Good c s × Along Good cs (step c s)

  -- An invariant that knows how many steps have counted, and no more than the limit.
  pub total_bounded :
      (Good : C → S → Type 0) (Inv : ℕ → S → Type 0) (limit : ℕ)
      → ((n : ℕ) (s : S) → Inv n s → n ≤ limit)
      → ((c : C) (n : ℕ) (s : S)
          → Good c s
          → Inv n s
          → Inv (if counts c s then suc n else n) (step c s))
      → (cs : List C) (n : ℕ) (s : S) → Along Good cs s
      → Inv n s
      → total cs s + n ≤ limit
  total_bounded Good Inv limit within keeps [] n s good inv = omega (arith, within n s inv)
  total_bounded Good Inv limit within keeps (c ∷ cs) n s (now, later) inv = ground (
    arith,
    total_bounded Good Inv limit within keeps cs (if counts c s then suc n else n) (step c s) later
        (keeps c n s now inv),
  )
