-- ===== src/Auth/Repo.antt =====
-- `PostgresAuthRepo` of services/auth/internal/repository/postgres.go: one table for each type of
-- user. `now()` of a statement is the time of the call.
use richpayment.Base.{ℕ, String, Bool, true, false, Option, none, some, List, ◌==◌, if◌then◌else◌}
use mathlib.Core.Logic.{ite}
use richpayment.Base.Table.{find_row, update_rows}
use richpayment.Base.Result.{ok, err, Action}
use richpayment.Auth.Types.{
  UserType, UserType-discrete, admin, merchant, agent, unknown, User, Account, Error, db_failed,
  unknown_user_type, same, Failures, Crypto, Site,
}
use richpayment.Auth.Permissions.{Role}

-- `model.Role(userType)`
abbrev pub role_of : UserType → Role
role_of admin = Role.admin
role_of merchant = Role.other "merchant"
role_of agent = Role.other "agent"
role_of unknown = Role.other ""

abbrev pub is_unknown : UserType → Bool
is_unknown unknown = true
is_unknown _ = false

-- the WHERE of the three statements
abbrev pub has_email : String → Account → Bool
has_email email a = same a.email email

abbrev pub is_account : ℕ → Account → Bool
is_account id a = a.id == id

module _ {R : Type 0} where
  abbrev pub set_table : UserType → List Account → Site R → Site R
  set_table t rows s = record s { tables = λ u. ite (UserType-discrete u t) rows (s.tables u) }

  -- `UpdateFailedAttempts`
  unfoldable pub update_failed_attempts :
      Failures → ℕ → UserType → ℕ → Option ℕ → ℕ → Action Error (Site R) (Unit {0})
  update_failed_attempts f id t count locked_until now s =
      if is_unknown t
      then (err unknown_user_type, s)
      else if f.update
      then (err db_failed, s)
      else (
        ok tt,
        set_table t
            (update_rows (is_account id)
              (λ a. record a {
                failed_attempts = count;
                locked_until = locked_until;
                updated_at = now;
              })
              (s.tables t))
            s,
      )

  -- `ResetFailedAttempts`
  unfoldable pub reset_failed_attempts :
      Failures → ℕ → UserType → ℕ → Action Error (Site R) (Unit {0})
  reset_failed_attempts f id t now s =
      if is_unknown t then (err unknown_user_type, s) else if f.reset then (err db_failed, s) else (
        ok tt,
        set_table t
            (update_rows (is_account id)
              (λ a. record a { failed_attempts = 0; locked_until = none; updated_at = now })
              (s.tables t))
            s,
      )

module _ ⦃crypto : Crypto⦄ where
  -- what `FindUserByEmail` makes of a row
  abbrev pub user_of : UserType → Account → User
  user_of t a = record {
    id = a.id;
    email = a.email;
    password_hash = a.password_hash;
    totp_secret = elim a.totp_secret_enc [ none ↦ "" | some raw ↦ crypto.hex_encode raw ];
    totp_enabled = elim a.totp_secret_enc [ none ↦ false | some _ ↦ true ];
    role = role_of t;
    role_mask = elim t [ admin ↦ a.role_mask | _ ↦ 0 ];
    failed_attempts = a.failed_attempts;
    locked_until = a.locked_until;
    is_active = a.is_active;
    created_at = a.created_at;
    updated_at = a.updated_at;
  }

  -- `FindUserByEmail`
  unfoldable pub find_user_by_email :
      {R : Type 0} → Failures → String → UserType → Action Error (Site R) (Option User)
  find_user_by_email f email t s =
      if is_unknown t then (err unknown_user_type, s) else if f.find then (err db_failed, s) else (
        elim (find_row (has_email email) (s.tables t)) [
          | none ↦ ok none
          | some a ↦ ok (some (user_of t a))
        ],
        s,
      )
