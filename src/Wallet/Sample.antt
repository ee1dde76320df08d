-- ===== src/Wallet/Sample.antt =====
-- Interfaces at concrete values, for the tests: a column that rounds to the cent, and Redis as a
-- function from keys to values.
use richpayment.Base.{ℕ, ◌≡◌, refl, Bool, true, false, Option, none, some, ◌==◌, if◌then◌else◌}
use richpayment.Decimal.Fixed.{ℤ, fixed, round_cents}
use richpayment.Wallet.Lock.{Redis}
use richpayment.Wallet.Repo.{Column}

-- A column that holds everything, to the cent.
pub stored_round : (a b : ℤ) → some (round_cents a) ≡ some b → b ≡ round_cents a
stored_round a b e = cc

instance abbrev pub wide : Column ℤ
wide = record { store = λ a. some (round_cents a); store_round = stored_round }

abbrev pub Keys : Type 0
Keys = ℕ → Option ℕ

abbrev pub keys_set_nx : ℕ → ℕ → Keys → Bool × Keys
keys_set_nx k v r = elim (r k) [
  | none ↦ (true, λ j. if j == k then some v else r j)
  | some _ ↦ (false, r)
]

instance abbrev pub keys : Redis Keys
keys = record {
  get = λ k r. r k;
  set_nx = keys_set_nx;
  del = λ k r j. if j == k then none else r j;
  set_nx_taken = λ k v w r h. rw (h, keys_set_nx);
  set_nx_free = λ k v r h. rw (h, keys_set_nx);
  get_set_nx = λ j k v r h. rw (h, keys_set_nx);
  get_del = λ j k r. refl;
}
