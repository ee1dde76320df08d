-- ===== src/Commission/Keys.antt =====
-- Keys of groups: `==` on them decides equality.
use richpayment.Base.{
  ite_yes, yes_ite, ◌≡◌, true, false, arith, Bool-cases, inl, inr, sym, ◌∙◌, refl, ◌==◌,
}
use mathlib.Core.Path.{subst}
use mathlib.Core.Logic.{ite}
use mathlib.Core.Bool.{false≢true}
use text.Mathlib.Text.{◌==◌ as str_eq}
use text.Mathlib.TextEquality.{eq_iff}
use richpayment.Wallet.Types.{OwnerType-discrete}
use richpayment.Commission.Types.{TransactionType-discrete, SummaryKey}
use richpayment.Commission.Aggregator.{same_key}

pub same_key_eq : (j k : SummaryKey) → same_key j k ≡ true → j ≡ k
same_key_eq j k h =
    let a : ite (OwnerType-discrete j.owner_type k.owner_type) true false ≡ true = ground arith in
    let b : j.owner_id ≡ k.owner_id = ground arith in
    let c : ite (TransactionType-discrete j.transaction_type k.transaction_type) true false ≡ true =
      ground arith in
    let e : str_eq j.currency k.currency ≡ true = ground arith in
    cc (
      ite_yes (OwnerType-discrete j.owner_type k.owner_type) a,
      b,
      ite_yes (TransactionType-discrete j.transaction_type k.transaction_type) c,
      (eq_iff j.currency k.currency).0 e,
    )

pub same_key_refl : (k : SummaryKey) → same_key k k ≡ true
same_key_refl k =
    let a = yes_ite (OwnerType-discrete k.owner_type k.owner_type) refl in
    let b : k.owner_id == k.owner_id ≡ true = ground arith in
    let c = yes_ite (TransactionType-discrete k.transaction_type k.transaction_type) refl in
    let e = (eq_iff k.currency k.currency).1 refl in rw (a, b, c, e) refl

pub same_key_differs :
    (i j k : SummaryKey) → same_key i j ≡ false → same_key i k ≡ true → same_key j k ≡ false
same_key_differs i j k h e = elim (Bool-cases (same_key j k)) [
  | inr f ↦ f
  | inl f ↦
      let same : i ≡ j = same_key_eq i k e ∙ sym (same_key_eq j k f) in
      absurd (false≢true (sym h ∙ subst (λ x. same_key i x ≡ true) same (same_key_refl i)))
]
