-- ===== src/Base/Result.antt =====
-- Calls that return an error: Go's `(value, error)` pairs over an explicit state. What was written
-- before an error stays written; a transaction or a clean-up undoes it where the code says so.
use mathlib.Core.Path.{◌≡◌, refl, sym, ap, ◌∙◌}
use mathlib.Core.Bool.{Bool}
use native.Mathlib.Omega.{arith}
use richpayment.Base.Tests.{if◌then◌else◌}

pub data Result (E A : Type 0) : Type 0 where
  ok : A → Result E A
  err : E → Result E A

abbrev pub Action : Type 0 → Type 0 → Type 0 → Type 0
Action E S A = S → Result E A × S

module _ {E S A : Type 0} where
  abbrev pub pure : A → Action E S A
  pure a s = (ok a, s)

  abbrev pub raise : E → Action E S A
  raise e s = (err e, s)

infixl 5 ◌>>=◌ ◌>>◌
abbrev pub ◌>>=◌ : {E S A B : Type 0} → Action E S A → (A → Action E S B) → Action E S B
◌>>=◌ m f s = let (r, s') = m s in elim r [ ok a ↦ f a s' | err e ↦ (err e, s') ]

abbrev pub ◌>>◌ : {E S A B : Type 0} → Action E S A → Action E S B → Action E S B
m >> k = m >>= λ _. k

-- `if bad { return err }`
abbrev pub raise_if : {E S : Type 0} → Bool → E → Action E S (Unit {0})
raise_if bad e s = (if bad then err e else ok tt, s)

-- the outcome without the value
abbrev pub drop_value : {E A S : Type 0} → Result E A × S → Result E (Unit {0}) × S
drop_value (ok _, s) = (ok tt, s)
drop_value (err e, s) = (err e, s)

module _ {E S A B : Type 0} where
  abbrev pub continue : (A → Action E S B) → Result E A × S → Result E B × S
  continue f q = elim q.0 [ ok a ↦ f a q.1 | err e ↦ (err e, q.1) ]

  pub >>=_runs :
      (m : Action E S A) (f : A → Action E S B) (s middle : S) (a : A)
      → m s ≡ (ok a, middle)
      → (m >>= f) s ≡ f a middle
  >>=_runs m f s middle a h = ap (continue f) h

  pub >>=_stops :
      (m : Action E S A) (f : A → Action E S B) (s s' : S) (e : E)
      → m s ≡ (err e, s')
      → (m >>= f) s ≡ (err e, s')
  >>=_stops m f s s' e h = ap (continue f) h

  -- The value and the state between two calls that both succeed.
  pub >>=_ok :
      (m : Action E S A) (f : A → Action E S B) (s s' : S) (b : B)
      → (m >>= f) s ≡ (ok b, s')
      → (a : A) × (middle : S) × (m s ≡ (ok a, middle)) × (f a middle ≡ (ok b, s'))
  >>=_ok m f s s' b h = go (m s) refl
    where
      go :
          (q : Result E A × S)
          → m s ≡ q
          → (a : A) × (middle : S) × (m s ≡ (ok a, middle)) × (f a middle ≡ (ok b, s'))
      go (ok a, middle) e = (a, middle, e, sym (>>=_runs m f s middle a e) ∙ h)
      go (err x, middle) e = ground (arith, sym (>>=_stops m f s middle x e) ∙ h)

pub drop_value-state : {E A S : Type 0} (p : Result E A × S) → (drop_value p).1 ≡ p.1
drop_value-state (ok a, s) = refl
drop_value-state (err e, s) = refl
