-- ===== src/Auth/Types.antt =====
-- services/auth/internal/model/types.go, and what auth.go takes from outside: Redis, JSON, bcrypt,
-- TOTP and SHA-256 are interfaces. A time is in Unix seconds, an id a number.
use richpayment.Base.{ltb, ℕ, ◌≡◌, String, Bool, Option, some, none, List, if◌then◌else◌}
use richpayment.Decimal.Fixed.{ℤ}
use text.Mathlib.Text
use richpayment.Auth.Permissions.{Role}

-- The fourth one stands for every other string.
pub data UserType : Type 0 where
  admin merchant agent unknown : UserType

unfoldable pub UserType-discrete : Discrete UserType
UserType-discrete = hlevel

pub record User : Type 0 where
  pub id : ℕ
  pub email : String
  pub password_hash : String
  pub totp_secret : String
  pub totp_enabled : Bool
  pub role : Role
  pub role_mask : ℕ
  pub failed_attempts : ℕ
  pub locked_until : Option ℕ
  pub is_active : Bool
  pub created_at : ℕ
  pub updated_at : ℕ

pub record Session : Type 0 where
  pub id : String
  pub user_id : ℕ
  pub email : String
  pub user_type : UserType
  pub role : Role
  pub role_mask : ℕ
  pub created_at : ℕ
  pub expires_at : ℕ
  pub client_ip : String
  pub user_agent_hash : String
  pub totp_failures : ℕ
  pub totp_locked_until : Option ℕ

pub data Error : Type 0 where
  too_many_attempts : (retry_after : ℤ) → Error
  account_locked : (until : Option ℕ) → Error
  session_locked : (until : Option ℕ) → Error
  db_failed unknown_user_type invalid_credentials account_disabled totp_required : Error
  invalid_totp cache_failed session_not_found bad_session session_expired : Error
  ip_mismatch agent_mismatch : Error

-- A row of one of the tables admins, merchants and agents; only admins has a role_mask.
pub record Account : Type 0 where
  pub id : ℕ
  pub email : String
  pub password_hash : String
  pub totp_secret_enc : Option (List ℕ)
  pub role_mask : ℕ
  pub is_active : Bool
  pub locked_until : Option ℕ
  pub failed_attempts : ℕ
  pub created_at : ℕ
  pub updated_at : ℕ

-- The two prefixes of the keys in Redis.
pub data Key : Type 0 where
  session login_ratelimit : String → Key

abbrev pub same : String → String → Bool
same a b = Text.◌==◌ a b

-- Which calls of the database and of Redis fail.
pub record Failures : Type 0 where
  pub find : Bool
  pub update : Bool
  pub reset : Bool
  pub incr : Bool
  pub expire : Bool
  pub ttl : Bool
  pub decr : Bool
  pub get : Bool
  pub set : Bool
  pub del : Bool

-- Redis: counters under the rate-limit keys, values under the session keys. A key expires as time
-- passes, which is `wait`; the calls themselves take no time.
pub record Cache (R : Type 0) : Type 1 where
  -- what a session key holds, with `json.Marshal` and `json.Unmarshal` of a session
  pub Bytes : Type 0
  pub encode : Session → Bytes
  pub decode : Bytes → Option Session
  pub decode_encode : (s : Session) → decode (encode s) ≡ some s
  pub incr : Key → R → ℤ × R
  pub decr : Key → R → R
  pub expire : Key → (seconds : ℕ) → R → R
  pub ttl : Key → R → ℤ
  pub get : Key → R → Option Bytes
  pub set : Key → Bytes → (seconds : ℕ) → R → R
  pub del : Key → R → R
  pub get_set :
      (a b : String) (v : Bytes) (seconds : ℕ) (r : R)
      → get (session a) (set (session b) v seconds r)
        ≡ (if same a b then some v else get (session a) r)
  -- so many seconds pass without a call
  pub wait : (seconds : ℕ) → R → R
  -- a value is there until the seconds of its SET have passed
  pub get_wait_set :
      (a b : String) (v : Bytes) (seconds n : ℕ) (r : R)
      → get (session a) (wait n (set (session b) v seconds r)) ≡ (
          if same a b then (if ltb n seconds then some v else none) else get (session a) (wait n r))
  pub get_del :
      (a b : String) (r : R)
      → get (session a) (del (session b) r) ≡ (if same a b then none else get (session a) r)

pub record Crypto : Type 0 where
  -- `bcrypt.CompareHashAndPassword` gives no error
  pub password_matches : (hash password : String) → Bool
  -- `totp.ValidateCustom` at a time
  pub totp_valid : (secret code : String) → ℕ → Bool
  pub sha256 : String → List ℕ
  pub hex_encode : List ℕ → String

-- The database and Redis.
pub record Site (R : Type 0) : Type 0 where
  pub tables : UserType → List Account
  pub cache : R
