-- ===== src/Order/Redis.antt =====
-- The sorted sets of the order service in Redis, each with the documented effect of its commands.
use richpayment.Base.{ℕ, ◌≡◌, Bool, true, ◌&&◌, Option, none, some, List, ◌==◌, if◌then◌else◌}
use richpayment.Decimal.Fixed.{ℤ, pos, negsuc}

unfoldable pub succ : ℤ → ℤ
succ (pos n) = pos (ℕ.suc n)
succ (negsuc ℕ.zero) = pos 0
succ (negsuc (ℕ.suc n)) = negsuc n

unfoldable pub pred : ℤ → ℤ
pred (pos ℕ.zero) = negsuc 0
pred (pos (ℕ.suc n)) = pos n
pred (negsuc n) = negsuc (ℕ.suc n)

-- account_pool:<merchant>: the accounts of a merchant by their load
pub record Pools (P : Type 0) : Type 0 where
  -- ZRANGEBYSCORE -inf +inf LIMIT 0 1
  pub lowest : (merchant_id : ℕ) → P → Option ℕ
  -- ZINCRBY 1 and ZINCRBY -1
  pub incr : (merchant_id account : ℕ) → P → P
  pub decr : (merchant_id account : ℕ) → P → P
  pub load : (merchant_id account : ℕ) → P → ℤ
  pub load_incr :
      (m a n b : ℕ) (p : P)
      → load m a (incr n b p) ≡ (if m == n && a == b then succ (load m a p) else load m a p)
  pub load_decr :
      (m a n b : ℕ) (p : P)
      → load m a (decr n b p) ≡ (if m == n && a == b then pred (load m a p) else load m a p)

-- pending_orders:<account>: orders by their amount, which `Float64` makes a score. ZADD sends a score
-- in full; a bound of a query is a score that `Sprintf` has printed with %f.
pub record PendingSets (D Q : Type 0) : Type 1 where
  pub Score : Type 0
  pub float : D → Score
  -- a score that was printed with %f, as Redis reads the text
  pub printed : Score → Score
  pub same_score : Score → Score → Bool
  -- ZRANGEBYSCORE with equal bounds and one result
  pub first : (account : ℕ) → Score → Q → Option ℕ
  pub score : (account order_id : ℕ) → Q → Option Score
  pub add : (account : ℕ) → Score → (order_id : ℕ) → Q → Q
  pub remove : (account order_id : ℕ) → Q → Q
  pub same_score_refl : (f : Score) → same_score f f ≡ true
  pub first_same : (a : ℕ) (f g : Score) (q : Q) → same_score f g ≡ true → first a f q ≡ first a g q
  -- ZADD of a new member at a score that no member has
  pub first_add :
      (a b : ℕ) (f g : Score) (id : ℕ) (q : Q)
      → score b id q ≡ none
      → first b g q ≡ none
      → first a f (add b g id q) ≡ (if a == b && same_score f g then some id else first a f q)

-- expiry_orders: orders by the time when they expire
pub record ExpirySet (E : Type 0) : Type 0 where
  -- ZRANGEBYSCORE -inf now
  pub up_to : (now : ℕ) → E → List ℕ
  pub add : (expires_at order_id : ℕ) → E → E
  pub remove : (order_id : ℕ) → E → E

pub record Redis (D P Q E : Type 0) : Type 1 where
  pub pools : Pools P
  pub pending : PendingSets D Q
  pub expiry : ExpirySet E

-- An amount whose score loses nothing when it is printed with %f.
abbrev pub IsExact : {D Q : Type 0} → PendingSets D Q → D → Type 0
IsExact sets amount = sets.printed (sets.float amount) ≡ sets.float amount
