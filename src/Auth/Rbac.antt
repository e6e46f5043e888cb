-- ===== src/Auth/Rbac.antt =====
-- server/rbac.py: the permission matrix and the two checks that stand before the handlers.
use Prim.Native.String.{◌++◌ as ◌+++◌}
use pathwiseai.Prelude.{
  ℕ, String, ◌≡◌, refl, Bool, true, not, Option, none, some, List, [], ◌∷◌, any, ◌⊎◌, inl, inr,
  str_eq, if◌then◌else◌,
}
use pathwiseai.Prelude.Dict.{Dict, lookup}
use pathwiseai.Auth.Defs.{User, HttpError, Result, ok, raise, valid_roles}

abbrev pub permissions : Dict (List String)
permissions =
    (
      "NETWORK_ADMIN",
      "telemetry" ∷ "predictions" ∷ "steering" ∷ "routing" ∷ "sandbox" ∷ "policies" ∷ "ibn"
          ∷ "admin" ∷ "audit" ∷ "reports" ∷ "alerts" ∷ "users" ∷ [],
    )
    ∷ (
      "IT_MANAGER",
      "telemetry" ∷ "predictions" ∷ "steering" ∷ "routing" ∷ "sandbox" ∷ "policies" ∷ "ibn"
          ∷ "audit" ∷ "reports" ∷ "alerts" ∷ [],
    )
    ∷ (
      "MSP_TECH",
      "telemetry" ∷ "predictions" ∷ "steering" ∷ "routing" ∷ "sandbox" ∷ "policies" ∷ "ibn"
          ∷ "reports" ∷ [],
    )
    ∷ ("IT_STAFF", "telemetry" ∷ "predictions" ∷ "sandbox" ∷ "reports" ∷ [])
    ∷ ("END_USER", "telemetry" ∷ "predictions" ∷ [])
    ∷ []

abbrev pub not_authenticated : HttpError
not_authenticated = record { status = 401; detail = "Not authenticated" }

-- `', '.join(names)`
abbrev join : List String → String
join [] = ""
join (x ∷ []) = x
join (x ∷ y ∷ ys) = x +++ (", " +++ join (y ∷ ys))

abbrev pub wrong_role : List String → HttpError
wrong_role allowed_roles = record {
  status = 403;
  detail = "Insufficient permissions. Required: " +++ join allowed_roles;
}

abbrev pub forbidden : String → String → HttpError
forbidden role category = record {
  status = 403;
  detail = "Role '" +++ (role +++ ("' does not have '" +++ (category +++ "' permission")));
}

abbrev pub contains : String → List String → Bool
contains x = any (λ y. str_eq y x)

unfoldable pub require_role : List String → Option User → Result User
require_role allowed_roles none = raise not_authenticated
require_role allowed_roles (some u) =
    if not (contains u.role allowed_roles) then raise (wrong_role allowed_roles) else ok u

-- `PERMISSIONS.get(role, set())`
unfoldable pub allowed : String → List String
unfolding lookup
allowed role = elim (lookup role permissions) [ none ↦ [] | some categories ↦ categories ]

unfoldable pub require_permission : String → Option User → Result User
require_permission category none = raise not_authenticated
require_permission category (some u) =
    if not (contains category (allowed u.role)) then raise (forbidden u.role category) else ok u

-- The enumeration `Role`.
pub data Role : Type 0 where
  network_admin it_manager msp_tech it_staff end_user : Role

abbrev pub role_name : Role → String
role_name network_admin = "NETWORK_ADMIN"
role_name it_manager = "IT_MANAGER"
role_name msp_tech = "MSP_TECH"
role_name it_staff = "IT_STAFF"
role_name end_user = "END_USER"

abbrev pub rank : Role → ℕ
rank network_admin = 4
rank it_manager = 3
rank msp_tech = 2
rank it_staff = 1
rank end_user = 0

-- A user whose role is SUPER_ADMIN or BUSINESS_OWNER, both of them roles that a registration
-- accepts, is refused with 403 whatever the category.
pub require_permission_outside :
    (category : String) (u : User)
    → (u.role ≡ "SUPER_ADMIN") ⊎ (u.role ≡ "BUSINESS_OWNER")
    → (contains u.role valid_roles ≡ true)
      × (require_permission category (some u) ≡ raise (forbidden u.role category))
unfolding require_permission allowed
require_permission_outside category u (inl e) =
    (rw e refl, rw (e, require_permission, allowed) refl)
require_permission_outside category u (inr e) =
    (rw e refl, rw (e, require_permission, allowed) refl)
