-- ===== src/Order/Sample.antt =====
-- The interfaces of the order service at concrete values, for the tests: sorted sets as functions and
-- lists, amounts in units of 0.0001, and one bank account, 5.
use richpayment.Base.{
  ℕ, ◌*◌, ◌≡◌, refl, ap, Bool, true, false, ◌&&◌, Option, none, some, List, [], ◌∷◌, arith, ◌==◌,
  if◌then◌else◌, ==_iff,
}
use richpayment.Decimal.Fixed.{ℤ, pos, negsuc, fixed}
use richpayment.Order.Qr.{bytes}
use richpayment.Order.Types.{Failures, Desk, Config}
use richpayment.Order.Redis.{succ, pred, Pools, PendingSets, Redis}
use richpayment.Order.Deposit.{Forms, DepositRequest}

abbrev pub Loads : Type 0
Loads = ℕ → ℕ → ℤ

abbrev pub Pending : Type 0
Pending = List (ℕ × ℤ × ℕ)

abbrev pub same_ℤ : ℤ → ℤ → Bool
same_ℤ (pos a) (pos b) = a == b
same_ℤ (negsuc a) (negsuc b) = a == b
same_ℤ (pos a) (negsuc b) = false
same_ℤ (negsuc a) (pos b) = false

pub same_ℤ-eq : (a b : ℤ) → same_ℤ a b ≡ true → a ≡ b
same_ℤ-eq (pos a) (pos b) h = ap pos ((==_iff a b).0 h)
same_ℤ-eq (negsuc a) (negsuc b) h = ap negsuc ((==_iff a b).0 h)
same_ℤ-eq (pos a) (negsuc b) h = absurd (ground arith)
same_ℤ-eq (negsuc a) (pos b) h = absurd (ground arith)

pub same_ℤ-refl : (a : ℤ) → same_ℤ a a ≡ true
same_ℤ-refl (pos a) = (==_iff a a).1 refl
same_ℤ-refl (negsuc a) = (==_iff a a).1 refl

abbrev pub first_in : ℕ → ℤ → Pending → Option ℕ
first_in a f [] = none
first_in a f ((b, g, id) ∷ q) = if same_ℤ f g && a == b then some id else first_in a f q

abbrev pub score_in : ℕ → ℕ → Pending → Option ℤ
score_in a id [] = none
score_in a id ((b, g, j) ∷ q) = if id == j && a == b then some g else score_in a id q

abbrev pub without : ℕ → ℕ → Pending → Pending
without a id [] = []
without a id ((b, g, j) ∷ q) =
    let rest = without a id q in if id == j && a == b then rest else (b, g, j) ∷ rest

pub pools_incr-load :
    (m a n b : ℕ) (p : Loads)
    → (if m == n && a == b then succ (p n b) else p m a)
      ≡ (if m == n && a == b then succ (p m a) else p m a)
pools_incr-load m a n b p = ground (arith, (==_iff m n).0, (==_iff a b).0)

pub pools_decr-load :
    (m a n b : ℕ) (p : Loads)
    → (if m == n && a == b then pred (p n b) else p m a)
      ≡ (if m == n && a == b then pred (p m a) else p m a)
pools_decr-load m a n b p = ground (arith, (==_iff m n).0, (==_iff a b).0)

pub first_in-add :
    (a b : ℕ) (f g : ℤ) (id : ℕ) (q : Pending)
    → first_in a f ((b, g, id) ∷ q) ≡ (if a == b && same_ℤ f g then some id else first_in a f q)
first_in-add a b f g id q = ground arith

abbrev pub pools : Pools Loads
pools = record {
  lowest = λ m p. some 5;
  incr = λ n b p m a. if m == n && a == b then succ (p n b) else p m a;
  decr = λ n b p m a. if m == n && a == b then pred (p n b) else p m a;
  load = λ m a p. p m a;
  load_incr = pools_incr-load;
  load_decr = pools_decr-load;
}

abbrev pub pending_sets : PendingSets ℤ Pending
pending_sets = record {
  Score = ℤ;
  float = λ a. a;
  printed = λ f. f;
  same_score = same_ℤ;
  first = first_in;
  score = score_in;
  add = λ a f id q. (a, f, id) ∷ q;
  remove = without;
  same_score_refl = same_ℤ-refl;
  first_same = λ a f g q h. ap (λ x. first_in a x q) (same_ℤ-eq f g h);
  first_add = λ a b f g id q new free. first_in-add a b f g id q;
}

instance abbrev pub sets : Redis ℤ Loads Pending (Unit {0})
sets = record {
  pools = pools;
  pending = pending_sets;
  expiry = record { up_to = λ now e. []; add = λ t id e. e; remove = λ id e. e };
}

instance abbrev pub forms : Forms ℤ
forms = record {
  cents = λ n. pos (n * 100);
  fixed = λ amount. bytes "300.01";
  uuid_text = λ id. bytes "0812345678";
}

abbrev pub calm : Failures
calm = record {
  pool = false;
  account = false;
  incr = false;
  look_up = false;
  qr = false;
  insert = false;
  find = false;
  update = false;
  add = false;
  remove = false;
}

abbrev pub config : Config ℤ
config = record {
  order_expiry = 900;
  fee_percent = pos 200;
  unique_amount = true;
  has_wallet = true;
  has_commission = true;
  has_notification = true;
}

-- 300.00 of merchant 7; every draw adds so many cents and one
abbrev pub request : (id draw : ℕ) → DepositRequest ℤ
request id draw = record {
  merchant_id = 7;
  merchant_order_id = "A-1";
  amount = pos 3000000;
  customer_name = "S";
  customer_bank = "KBANK";
  id = id;
  now = 1000;
  draws = λ i. draw;
}

abbrev pub empty : Desk ℤ Loads Pending (Unit {0})
empty = record { rows = []; pools = λ m a. pos 0; pending = []; expiry = tt; posts = [] }
