-- ===== src/Auth/Permissions.antt =====
-- The permission masks of services/auth/internal/service/rbac.go.
use Prim.Native.Nat.{bit_and, bit_or}
use richpayment.Base.{ℕ, ◌-◌, ◌^◌, String, Bool, true, false, List, [], ◌∷◌, ◌==◌, if◌then◌else◌}

-- The constants in their order; each is one bit.
pub data Permission : Type 0 where
  view_merchants create_merchants edit_merchants view_agents create_agents : Permission
  edit_agents view_orders manage_orders approve_withdrawals manage_bank_accounts : Permission
  view_wallets manage_wallets view_audit_logs manage_admins manage_roles : Permission
  emergency_freeze view_reports manage_settings manage_commissions view_partners : Permission
  manage_partners : Permission

-- `iota`
abbrev pub index : Permission → ℕ
index Permission.view_merchants = 0
index Permission.create_merchants = 1
index Permission.edit_merchants = 2
index Permission.view_agents = 3
index Permission.create_agents = 4
index Permission.edit_agents = 5
index Permission.view_orders = 6
index Permission.manage_orders = 7
index Permission.approve_withdrawals = 8
index Permission.manage_bank_accounts = 9
index Permission.view_wallets = 10
index Permission.manage_wallets = 11
index Permission.view_audit_logs = 12
index Permission.manage_admins = 13
index Permission.manage_roles = 14
index Permission.emergency_freeze = 15
index Permission.view_reports = 16
index Permission.manage_settings = 17
index Permission.manage_commissions = 18
index Permission.view_partners = 19
index Permission.manage_partners = 20

-- `1 << iota`
abbrev pub bit : Permission → ℕ
bit p = 2 ^ index p

-- `allPermissions`
abbrev pub all_permissions : ℕ
all_permissions = 2 ^ 21 - 1

-- `CombinePermissions`
unfoldable pub combine_permissions : List ℕ → ℕ → ℕ
combine_permissions [] combined = combined
combine_permissions (p ∷ perms) combined = combine_permissions perms (bit_or combined p)

-- `HasPermission`
unfoldable pub has_permission : ℕ → ℕ → Bool
has_permission role_mask perm = bit_and role_mask perm == perm

-- `HasAnyPermission`
unfoldable pub has_any_permission : ℕ → List ℕ → Bool
unfolding has_permission
has_any_permission role_mask [] = false
has_any_permission role_mask (p ∷ perms) =
    if bit_and role_mask p == p then true else has_any_permission role_mask perms

-- the `|` of an entry of `DefaultRoles`
abbrev pub mask_of : List Permission → ℕ
mask_of [] = 0
mask_of (p ∷ ps) = bit_or (bit p) (mask_of ps)

-- `model.Role`, whose other strings are no key of `DefaultRoles`
pub data Role : Type 0 where
  super_admin admin operator finance viewer : Role
  other : String → Role

-- `DefaultRoles` and `RolePermissions`
unfoldable pub role_permissions : Role → ℕ
role_permissions Role.super_admin = all_permissions
role_permissions Role.admin = mask_of (
    Permission.view_merchants ∷ Permission.create_merchants ∷ Permission.edit_merchants
    ∷ Permission.view_agents ∷ Permission.create_agents ∷ Permission.edit_agents
    ∷ Permission.view_orders ∷ Permission.manage_orders ∷ Permission.approve_withdrawals
    ∷ Permission.manage_bank_accounts ∷ Permission.view_wallets ∷ Permission.manage_wallets
    ∷ Permission.view_audit_logs ∷ Permission.manage_admins ∷ Permission.view_reports
    ∷ Permission.manage_settings ∷ Permission.manage_commissions ∷ Permission.view_partners
    ∷ Permission.manage_partners ∷ [])
role_permissions Role.operator = mask_of (
    Permission.view_merchants ∷ Permission.view_agents ∷ Permission.view_orders
    ∷ Permission.manage_orders ∷ Permission.approve_withdrawals ∷ Permission.manage_bank_accounts
    ∷ Permission.view_wallets ∷ Permission.view_reports ∷ [])
role_permissions Role.finance = mask_of (
    Permission.view_merchants ∷ Permission.view_agents ∷ Permission.view_orders
    ∷ Permission.approve_withdrawals ∷ Permission.view_wallets ∷ Permission.manage_wallets
    ∷ Permission.view_reports ∷ Permission.manage_commissions ∷ [])
role_permissions Role.viewer = mask_of (
    Permission.view_merchants ∷ Permission.view_agents ∷ Permission.view_orders
    ∷ Permission.view_wallets ∷ Permission.view_audit_logs ∷ Permission.view_reports
    ∷ Permission.view_partners ∷ [])
role_permissions (Role.other _) = 0
