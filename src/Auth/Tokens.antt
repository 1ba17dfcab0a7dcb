-- ===== src/Auth/Tokens.antt =====
-- internal/auth/service/auth_service.go: the issue of a pair of tokens.
use saas_forge.Base.{
  ℕ, ◌+◌, String, Bool, List, [], ◌∷◌, ◌++◌, ◌==◌, nat_eq, string_eq, not, if◌then◌else◌, Option,
  some, ltb, length,
}
use saas_forge.Errors.{Err, Result, err, suspended, membership_revoked, not_tenant_member}
use saas_forge.Effects.{
  Db, ◌>>=◌, ◌>>◌, return, refuse_if, need, given, given_with, ignoring, ask, ask_with, write,
  write_with,
}
use saas_forge.Tenant.Roles.{valid_role}
use saas_forge.Auth.Store.{
  Store, UserMembership, EventType, user_status_by_id, store_refresh_token, membership_role,
  roles_for_user,
}

pub record LoginInput : Type 0 where
  pub email : String
  pub password : String

pub record TenantOption : Type 0 where
  pub slug : String
  pub name : String
  pub role : String

-- `expires_in` and `token_type` are left out: the one is the signer's, the other a constant.
pub record TokenResponse : Type 0 where
  pub access_token : String
  pub refresh_token : String
  pub user_id : ℕ
  pub tenant_id : String
  pub available_tenants : List TenantOption

-- What `IssueAccessToken` is given.
pub record AccessClaims : Type 0 where
  pub user_id : ℕ
  pub roles : List String
  pub tenant_id : String
  pub tenant_role : String

-- The code that the service calls: the validator, the address's normal form and blind index, the
-- password hash, the signer at an instant, the random source by the number of calls made, the
-- digest of a refresh token, the clock by the number of calls made, the database's collation.
pub record Ports : Type 0 where
  pub is_valid_input : LoginInput → Bool
  pub normalize_email : String → String
  pub index : String → Result String
  pub verifies : String → String → Bool
  pub sign : AccessClaims → ℕ → Result String
  pub draw : ℕ → Result String
  pub digest : String → String
  pub clock : ℕ → ℕ
  pub refresh_ttl : ℕ
  pub before : String → String → Bool

abbrev pub internal_code : String
internal_code = "INTERNAL_ERROR"

-- the code that a refused issue is recorded with
abbrev pub login_code : Err → String
login_code suspended = "USER_SUSPENDED"
login_code _ = internal_code

abbrev pub refresh_code : Err → String
refresh_code suspended = "USER_SUSPENDED"
refresh_code membership_revoked = "AUTH_TENANT_MEMBERSHIP_REVOKED"
refresh_code _ = internal_code

abbrev pub switch_code : Err → String
switch_code suspended = "USER_SUSPENDED"
switch_code membership_revoked = "AUTH_NOT_TENANT_MEMBER"
switch_code _ = internal_code

-- A revoked membership is another error for who asks to switch.
abbrev pub switch_error : Err → Err
switch_error membership_revoked = not_tenant_member
switch_error e = e

abbrev pub first_slug : List UserMembership → String
first_slug [] = ""
first_slug (m ∷ ms) = m.slug

abbrev pub status_active : String
status_active = "active"

abbrev options : List UserMembership → List TenantOption
options [] = []
options (m ∷ ms) = record { slug = m.slug; name = m.name; role = m.role } ∷ options ms

-- Who has more than one tenant is told of all.
abbrev pub with_options : List UserMembership → TokenResponse → TokenResponse
with_options ms t = if ltb 1 (length ms) then record t { available_tenants = options ms } else t

module _ (p : Ports) (fails : ℕ → Bool) where
  -- `record`, whose error is dropped
  unfoldable pub record_event : EventType → Option ℕ → Option String → Db Store (Unit {0})
  record_event event user code = ignoring (
      write fails (λ s. record s {
        audit_log =
            s.audit_log ++ (record { event_type = event; user_id = user; error_code = code } ∷ []);
      }))

  unfoldable pub report : {A : Type 0} → EventType → Option ℕ → String → Err → Db Store A
  unfolding record_event
  report event user code e = do record_event event user (some code); given (err e)

  -- the tenant role that a token carries, looked up when it is issued
  unfoldable pub live_role : ℕ → String → Db Store String
  unfolding membership_role
  live_role user slug = if slug == "" then return "" else (do
    found ← ask fails (membership_role user slug)
    role ← need found membership_revoked
    refuse_if (not (valid_role role)) Err.internal
    return role)

  abbrev pub signed : AccessClaims → Db Store String
  signed claims = given_with (λ n. p.sign claims (p.clock n))

  abbrev pub stored : ℕ → String → String → String → Db Store TokenResponse
  stored user slug access fresh = do
    write_with fails
        (λ n. store_refresh_token user (p.digest fresh) (p.clock n + p.refresh_ttl) slug)
    return (record {
      access_token = access;
      refresh_token = fresh;
      user_id = user;
      tenant_id = slug;
      available_tenants = [];
    })

  -- the refresh token that goes with an access token
  unfoldable pub hand_out : ℕ → String → String → Db Store TokenResponse
  unfolding store_refresh_token
  hand_out user slug access = given_with p.draw >>= stored user slug access

  unfoldable pub issue_tokens : ℕ → String → Db Store TokenResponse
  unfolding live_role user_status_by_id roles_for_user hand_out
  issue_tokens user slug = do
    found ← ask fails (user_status_by_id user)
    status ← need found Err.internal
    refuse_if (not (status == status_active)) suspended
    roles ← ask_with fails (λ n. roles_for_user user (p.clock n))
    role ← live_role user slug
    access ← signed (record { user_id = user; roles = roles; tenant_id = slug; tenant_role = role })
    hand_out user slug access
