-- ===== src/Tenant/Tables.antt =====
-- The tables that internal/tenant/repository reads and writes, as lists of rows, and the meaning of
-- its SQL statements on them. Ids, hashes and instants are numbers; a nullable column is an
-- `Option`.
use saas_forge.Base.{
  ℕ, String, Bool, false, List, [], ◌∷◌, ◌||◌, ◌&&◌, ◌==◌, string_eq, nat_eq, contains, not,
  if◌then◌else◌, Option, some, none, count,
}
use saas_forge.Tenant.Roles.{owner, admin}

pub record Tenant : Type 0 where
  pub id : ℕ
  pub slug : String
  pub name : String
  pub plan : String
  pub created_at : ℕ

pub record Membership : Type 0 where
  pub user_id : ℕ
  pub tenant_id : ℕ
  pub role : String
  pub created_at : ℕ

-- `domain.Invite`
pub record Invite : Type 0 where
  pub id : ℕ
  pub tenant_id : ℕ
  pub email_lookup_hash : ℕ
  pub email_encrypted : String
  pub email_encrypted_nonce : String
  pub role : String
  pub token_hash : String
  pub invited_by : ℕ
  pub created_at : ℕ
  pub expires_at : ℕ
  pub accepted_at : Option ℕ
  pub accepted_by : Option ℕ
  pub revoked_at : Option ℕ
  pub revoked_by : Option ℕ

-- The columns of `users` that the tenant module's queries read.
pub record User : Type 0 where
  pub id : ℕ
  pub email_lookup_hash : ℕ
  pub status : String

pub record Store : Type 0 where
  pub tenants : List Tenant
  pub memberships : List Membership
  pub invites : List Invite
  pub users : List User
  pub plans : List String

-- `WHERE tenant_id = t AND user_id = u`
abbrev pub is_member : ℕ → ℕ → Membership → Bool
is_member t u m = m.tenant_id == t && m.user_id == u

abbrev pub is_owner_of : ℕ → Membership → Bool
is_owner_of t m = m.tenant_id == t && m.role == owner

abbrev pub find_member : ℕ → ℕ → List Membership → Option Membership
find_member t u [] = none
find_member t u (m ∷ ms) = if is_member t u m then some m else find_member t u ms

-- `SELECT … WHERE tenant_id = t AND role = 'owner'`, counted
unfoldable pub owner_count : ℕ → List Membership → ℕ
owner_count t ms = count (is_owner_of t) ms

-- `UPDATE memberships SET role = r WHERE tenant_id = t AND user_id = u`
abbrev pub set_role : ℕ → ℕ → String → List Membership → List Membership
set_role t u r [] = []
set_role t u r (m ∷ ms) = (if is_member t u m then record m { role = r } else m) ∷ set_role t u r ms

-- `DELETE FROM memberships WHERE tenant_id = t AND user_id = u`
abbrev pub delete_member : ℕ → ℕ → List Membership → List Membership
delete_member t u [] = []
delete_member t u (m ∷ ms) =
    let rest = delete_member t u ms in if is_member t u m then rest else m ∷ rest

abbrev pub tenant_by_slug : String → List Tenant → Option Tenant
tenant_by_slug slug [] = none
tenant_by_slug slug (t ∷ ts) = if t.slug == slug then some t else tenant_by_slug slug ts

abbrev pub tenant_by_id : ℕ → List Tenant → Option Tenant
tenant_by_id id [] = none
tenant_by_id id (t ∷ ts) = if t.id == id then some t else tenant_by_id id ts

-- `JOIN tenants t ON t.id = id … WHERE t.slug = slug`
abbrev pub has_slug : ℕ → String → List Tenant → Bool
has_slug id slug [] = false
has_slug id slug (t ∷ ts) = t.id == id && t.slug == slug || has_slug id slug ts

-- the query of `MembershipRole`
abbrev pub role_in_slug : List Tenant → ℕ → String → List Membership → Option String
role_in_slug ts u slug [] = none
role_in_slug ts u slug (m ∷ ms) =
    if m.user_id == u && has_slug m.tenant_id slug ts
    then some m.role
    else role_in_slug ts u slug ms

abbrev pub invite_by_token : String → List Invite → Option Invite
invite_by_token hash [] = none
invite_by_token hash (i ∷ is) = if i.token_hash == hash then some i else invite_by_token hash is

abbrev pub invite_by_id : ℕ → ℕ → List Invite → Option Invite
invite_by_id id t [] = none
invite_by_id id t (i ∷ is) = if i.id == id && i.tenant_id == t then some i else invite_by_id id t is

-- `u.id = id AND u.status <> 'deleted'`
abbrev pub live_user : ℕ → List User → Option User
live_user id [] = none
live_user id (u ∷ us) =
    if u.id == id && not (u.status == "deleted") then some u else live_user id us

-- `EXISTS (… im.role IN ('owner', 'admin'))`
abbrev pub is_manager : ℕ → ℕ → List Membership → Bool
is_manager t u [] = false
is_manager t u (m ∷ ms) =
    is_member t u m && contains (owner ∷ admin ∷ []) m.role || is_manager t u ms

-- `UPDATE tenant_invites SET accepted_at = now, accepted_by = u WHERE id = id`
abbrev pub mark_accepted : ℕ → ℕ → ℕ → List Invite → List Invite
mark_accepted id now u [] = []
mark_accepted id now u (i ∷ is) =
    (if i.id == id then record i { accepted_at = some now; accepted_by = some u } else i)
    ∷ mark_accepted id now u is

abbrev pub mark_revoked : ℕ → ℕ → ℕ → List Invite → List Invite
mark_revoked id now u [] = []
mark_revoked id now u (i ∷ is) =
    (if i.id == id then record i { revoked_at = some now; revoked_by = some u } else i)
    ∷ mark_revoked id now u is

-- the constraints `UNIQUE (token_hash)` and `PRIMARY KEY (id)` of `tenant_invites`
abbrev pub invite_clashes : ℕ → String → List Invite → Bool
invite_clashes id hash [] = false
invite_clashes id hash (i ∷ is) = i.id == id || i.token_hash == hash || invite_clashes id hash is

-- the constraints `UNIQUE (slug)` and `PRIMARY KEY (id)` of `tenants`
abbrev pub tenant_clashes : ℕ → String → List Tenant → Bool
tenant_clashes id slug [] = false
tenant_clashes id slug (t ∷ ts) = t.id == id || t.slug == slug || tenant_clashes id slug ts

abbrev pub set_plan : String → String → List Tenant → List Tenant
set_plan slug plan [] = []
set_plan slug plan (t ∷ ts) =
    (if t.slug == slug then record t { plan = plan } else t) ∷ set_plan slug plan ts
