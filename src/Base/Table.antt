-- ===== src/Base/Table.antt =====
-- Rows of a database table as a list: the meaning of the SELECT and UPDATE texts of the
-- repositories, for any test on rows.
use Prim.Native.Nat.{ℕ, suc}
use mathlib.Core.Path.{◌≡◌, refl}
use native.Mathlib.Omega.{arith}
use mathlib.Core.Bool.{Bool, true, false}
use mathlib.Core.Option.{Option, none, some}
use mathlib.Core.List.{List, [], ◌∷◌}
use richpayment.Base.Tests.{if◌then◌else◌}

module _ {A : Type 0} where
  -- SELECT … WHERE test: the first row
  abbrev pub find_row : (A → Bool) → List A → Option A
  find_row test [] = none
  find_row test (x ∷ xs) = if test x then some x else find_row test xs

  -- SELECT COUNT(*) … WHERE test
  abbrev pub count_rows : (A → Bool) → List A → ℕ
  count_rows test [] = 0
  count_rows test (x ∷ xs) = let rest = count_rows test xs in if test x then suc rest else rest

  -- UPDATE … SET change WHERE test
  abbrev pub update_rows : (A → Bool) → (A → A) → List A → List A
  update_rows test change [] = []
  update_rows test change (x ∷ xs) = (if test x then change x else x) ∷ update_rows test change xs

  -- The first row that passes the test: an UPDATE by primary key, or a write through the pointer
  -- that a map holds under a key.
  abbrev pub set_row : (A → Bool) → (A → A) → List A → List A
  set_row test change [] = []
  set_row test change (x ∷ xs) =
      let rest = set_row test change xs in if test x then change x ∷ xs else x ∷ rest

  -- SELECT EXISTS(… WHERE test)
  abbrev pub exists_row : (A → Bool) → List A → Bool
  exists_row test [] = false
  exists_row test (x ∷ xs) = if test x then true else exists_row test xs

  pub find_row-absent :
      (test : A → Bool) (xs : List A) → exists_row test xs ≡ false → find_row test xs ≡ none
  find_row-absent test [] h = refl
  find_row-absent test (x ∷ xs) h = ground (arith, find_row-absent test xs)

  -- An update of a column that a search does not read.
  pub find_row-update_rows :
      (test hit : A → Bool) (change : A → A) (a : A) (xs : List A)
      → ((x : A) → test (change x) ≡ test x)
      → find_row test xs ≡ some a
      → hit a ≡ true
      → find_row test (update_rows hit change xs) ≡ some (change a)
  find_row-update_rows test hit change a [] keeps found is = absurd (ground arith)
  find_row-update_rows test hit change a (x ∷ xs) keeps found is =
      ground (arith, keeps x, find_row-update_rows test hit change a xs keeps)

  -- An update that takes a row out of a count, or whose row was not in it.
  pub count_rows-set_row :
      (test hit : A → Bool) (change : A → A) (a : A) (xs : List A)
      → ((x : A) → test (change x) ≡ false)
      → find_row hit xs ≡ some a
      → count_rows test xs ≡ (
          if test a
          then suc (count_rows test (set_row hit change xs))
          else count_rows test (set_row hit change xs))
  count_rows-set_row test hit change a [] out found = absurd (ground arith)
  count_rows-set_row test hit change a (x ∷ xs) out found =
      ground (arith, out x, count_rows-set_row test hit change a xs out)

  pub exists_row-found :
      (test : A → Bool) (a : A) (xs : List A)
      → find_row test xs ≡ some a
      → exists_row test xs ≡ true
  exists_row-found test a [] found = absurd (ground arith)
  exists_row-found test a (x ∷ xs) found = ground (arith, exists_row-found test a xs)

  pub find_row-set_row :
      (hit : A → Bool) (change : A → A) (a : A) (xs : List A)
      → hit (change a) ≡ true
      → find_row hit xs ≡ some a
      → find_row hit (set_row hit change xs) ≡ some (change a)
  find_row-set_row hit change a [] is found = absurd (ground arith)
  find_row-set_row hit change a (x ∷ xs) is found =
      ground (arith, find_row-set_row hit change a xs is)

  pub find_row-passes :
      (test : A → Bool) (a : A) (xs : List A) → find_row test xs ≡ some a → test a ≡ true
  find_row-passes test a [] found = absurd (ground arith)
  find_row-passes test a (x ∷ xs) found = ground (arith, find_row-passes test a xs)
