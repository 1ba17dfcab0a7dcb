-- ===== src/Auth/Store.antt =====
-- internal/auth/repository/credential_repository.go: the tables that sign-in reads and writes. Instants
-- are seconds.
use saas_forge.Base.{
  true, ℕ, String, Bool, List, [], ◌∷◌, ◌++◌, ◌&&◌, ◌||◌, ◌==◌, nat_eq, string_eq, not,
  if◌then◌else◌, Option, some, none, is_some, ltb,
}

pub record User : Type 0 where
  pub id : ℕ
  pub email_lookup_hash : String
  pub status : String

pub record Credential : Type 0 where
  pub user_id : ℕ
  pub password_hash : String
  pub last_login : Option ℕ

-- An empty `tenant_id` is NULL.
pub record RefreshToken : Type 0 where
  pub user_id : ℕ
  pub token_hash : String
  pub expires_at : ℕ
  pub tenant_id : String
  pub revoked_at : Option ℕ

-- A row of `memberships` with its tenant: `UserMembership`.
pub record UserMembership : Type 0 where
  pub user_id : ℕ
  pub slug : String
  pub name : String
  pub role : String
  pub created_at : ℕ

-- A row of `user_roles` with its role.
pub record UserRole : Type 0 where
  pub user_id : ℕ
  pub name : String
  pub expires_at : Option ℕ

pub data EventType : Type 0 where
  login refresh logout tenant_switch : EventType

-- `audit.Entry`; no error code is a success.
pub record AuditEntry : Type 0 where
  pub event_type : EventType
  pub user_id : Option ℕ
  pub error_code : Option String

pub record Store : Type 0 where
  pub users : List User
  pub credentials : List Credential
  pub refresh_tokens : List RefreshToken
  pub memberships : List UserMembership
  pub user_roles : List UserRole
  pub audit_log : List AuditEntry

abbrev user_id_where : String → List User → Option ℕ
user_id_where lookup [] = none
user_id_where lookup (u ∷ us) =
    if u.email_lookup_hash == lookup && not (u.status == "deleted")
    then some u.id
    else user_id_where lookup us

unfoldable pub user_id_by_email_lookup : String → Store → Option ℕ
user_id_by_email_lookup lookup s = user_id_where lookup s.users

abbrev password_where : ℕ → List Credential → Option String
password_where id [] = none
password_where id (c ∷ cs) = if c.user_id == id then some c.password_hash else password_where id cs

unfoldable pub get_password_hash : ℕ → Store → Option String
get_password_hash id s = password_where id s.credentials

abbrev seen : ℕ → ℕ → List Credential → List Credential
seen id now [] = []
seen id now (c ∷ cs) =
    (if c.user_id == id then record c { last_login = some now } else c) ∷ seen id now cs

unfoldable pub update_last_login : ℕ → ℕ → Store → Store
update_last_login id now s = record s { credentials = seen id now s.credentials }

abbrev status_where : ℕ → List User → Option String
status_where id [] = none
status_where id (u ∷ us) = if u.id == id then some u.status else status_where id us

unfoldable pub user_status_by_id : ℕ → Store → Option String
user_status_by_id id s = status_where id s.users

unfoldable pub store_refresh_token : ℕ → String → ℕ → String → Store → Store
store_refresh_token id hash expires_at slug s = record s {
  refresh_tokens =
      s.refresh_tokens
      ++ (record {
        user_id = id;
        token_hash = hash;
        expires_at = expires_at;
        tenant_id = slug;
        revoked_at = none;
      }
          ∷ []);
}

-- `UPDATE … SET revoked_at = now WHERE … AND revoked_at IS NULL`
unfoldable pub revoke_where : (RefreshToken → Bool) → ℕ → List RefreshToken → List RefreshToken
revoke_where test now [] = []
revoke_where test now (t ∷ ts) =
    (if test t && not (is_some t.revoked_at) then record t { revoked_at = some now } else t)
    ∷ revoke_where test now ts

unfoldable pub revoke_refresh_token : String → ℕ → Store → Store
unfolding revoke_where
revoke_refresh_token hash now s = record s {
  refresh_tokens = revoke_where (λ t. t.token_hash == hash) now s.refresh_tokens;
}

unfoldable pub revoke_all_for_user : ℕ → ℕ → Store → Store
unfolding revoke_where
revoke_all_for_user id now s = record s {
  refresh_tokens = revoke_where (λ t. t.user_id == id) now s.refresh_tokens;
}

unfoldable pub revoke_all_for_user_in_tenant : ℕ → String → ℕ → Store → Store
unfolding revoke_where
revoke_all_for_user_in_tenant id slug now s = record s {
  refresh_tokens =
      revoke_where (λ t. t.user_id == id && not (t.tenant_id == "") && t.tenant_id == slug) now
        s.refresh_tokens;
}

unfoldable pub valid_where : String → ℕ → List RefreshToken → Option (ℕ × String)
valid_where hash now [] = none
valid_where hash now (t ∷ ts) =
    if t.token_hash == hash && not (is_some t.revoked_at) && ltb now t.expires_at
    then some (t.user_id, t.tenant_id)
    else valid_where hash now ts

unfoldable pub find_valid_refresh : String → ℕ → Store → Option (ℕ × String)
unfolding valid_where
find_valid_refresh hash now s = valid_where hash now s.refresh_tokens

abbrev role_where : ℕ → String → List UserMembership → Option String
role_where id slug [] = none
role_where id slug (m ∷ ms) =
    if m.user_id == id && m.slug == slug then some m.role else role_where id slug ms

unfoldable pub membership_role : ℕ → String → Store → Option String
membership_role id slug s = role_where id slug s.memberships

-- `ORDER BY created_at, slug`; `before` is the collation of the database.
abbrev insert_by_age :
    (String → String → Bool) → UserMembership → List UserMembership → List UserMembership
insert_by_age before m [] = m ∷ []
insert_by_age before m (x ∷ ms) =
    let later = insert_by_age before m ms in
    if ltb m.created_at x.created_at || m.created_at == x.created_at && before m.slug x.slug
    then m ∷ x ∷ ms
    else x ∷ later

abbrev memberships_where : (String → String → Bool) → ℕ → List UserMembership → List UserMembership
memberships_where before id [] = []
memberships_where before id (m ∷ ms) =
    let rest = memberships_where before id ms in
    if m.user_id == id then insert_by_age before m rest else rest

unfoldable pub memberships_for_user : (String → String → Bool) → ℕ → Store → List UserMembership
memberships_for_user before id s = memberships_where before id s.memberships

abbrev lasts : ℕ → Option ℕ → Bool
lasts now none = true
lasts now (some t) = ltb now t

abbrev names_where : ℕ → ℕ → List UserRole → List String
names_where id now [] = []
names_where id now (x ∷ xs) =
    let rest = names_where id now xs in
    if x.user_id == id && lasts now x.expires_at then x.name ∷ rest else rest

unfoldable pub roles_for_user : ℕ → ℕ → Store → List String
roles_for_user id now s = names_where id now s.user_roles
