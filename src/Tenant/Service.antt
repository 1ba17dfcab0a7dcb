-- ===== src/Tenant/Service.antt =====
-- internal/tenant/service/tenant_service.go: each use case as one action on the tables.
pub mod Requests
pub mod Owned
pub mod Atomic
pub mod Guards
use saas_forge.Base.{
  ℕ, ◌+◌, String, Bool, true, false, List, [], ◌∷◌, ◌++◌, ◌||◌, ◌&&◌, ◌==◌, string_eq, nat_eq, not,
  if◌then◌else◌, Option, some, none, contains,
}
use saas_forge.Errors.{Err, Result, ok, err}
use saas_forge.Authn.{Subject}
use saas_forge.Authz.Action.{
  Input, tenant_invite_create, tenant_invite_accept, tenant_invite_revoke, tenant_member_update,
  tenant_member_remove,
}
use saas_forge.Tenant.Roles.{owner, admin, valid_role, invitable_role}
use saas_forge.Tenant.Tables.{Tenant, Invite, Store}
use saas_forge.Tenant.Db.{World, Db, ◌>>=◌, ◌>>◌, pure, raise, lift, raise_if, or_raise}
use saas_forge.Tenant.Repository.{
  Member, AcceptedInvite, membership_role, find_tenant, create_invite, accept_invite,
  update_member_role, remove_member, revoke_invite,
}

-- What the service is built from, and what it draws from outside in one request: the authorizer,
-- the blind index, the cipher, the validator's address test, the random token, its hash, the new
-- id, the address of a user, and whether the eviction of refresh tokens fails.
pub record Ports : Type 0 where
  pub authorize : Option Subject → Input → Result (Unit {0})
  pub index : String → Result ℕ
  pub encrypt : String → Result (String × String)
  pub normalize_email : String → String
  pub is_email : String → Bool
  pub new_token : Result String
  pub hash_token : String → String
  pub new_id : ℕ
  pub email_by_id : ℕ → Result String

pub record CreateInviteInput : Type 0 where
  pub email : String
  pub role : String

pub record InviteDto : Type 0 where
  pub id : ℕ
  pub tenant_slug : String
  pub role : String
  pub token : String
  pub expires_at : ℕ

pub record MemberDto : Type 0 where
  pub user_id : ℕ
  pub email : String
  pub role : String
  pub joined_at : ℕ

-- 7 * 24 * time.Hour, in seconds
abbrev pub invite_ttl : ℕ
invite_ttl = 604800

abbrev pub tenant_request : String → String → Input
tenant_request action id = record {
  action = action;
  resource = record { kind = "tenant"; id = id };
}

-- `RevokeAllForUserInTenant`, whose error is dropped
abbrev pub evict_tokens : ℕ → String → Db (Unit {0})
evict_tokens user_id slug w = (ok tt, record w { evictions = (user_id, slug) ∷ w.evictions })

-- `if errors.Is(err, ErrNotFound) { return ErrForbidden }`
abbrev forbid_missing : {A : Type 0} → Result A × World → Result A × World
forbid_missing (err Err.not_found, w) = (err Err.forbidden, w)
forbid_missing (r, w) = (r, w)

abbrev pub forbidding : {A : Type 0} → Db A → Db A
forbidding m w = forbid_missing (m w)

module _ (p : Ports) (fails : ℕ → Bool) (now : ℕ) (ctx : Option Subject) where
  unfoldable pub active_tenant : Db Subject
  active_tenant = do
    sub ← or_raise ctx Err.unauthorized
    raise_if (sub.tenant_id == "") Err.tenant_no_active
    pure sub

  unfoldable pub require_live_owner_or_admin : Subject → Db String
  require_live_owner_or_admin sub = do
    live_role ← forbidding (membership_role fails now sub.user_id sub.tenant_id)
    raise_if (not (live_role == owner) && not (live_role == admin)) Err.forbidden
    pure live_role

  unfoldable pub create_invite_for : CreateInviteInput → Db InviteDto
  unfolding active_tenant require_live_owner_or_admin
  create_invite_for input = do
    sub ← active_tenant
    lift (p.authorize ctx (tenant_request tenant_invite_create sub.tenant_id))
    require_live_owner_or_admin sub
    raise_if (input.email == "" || not (p.is_email input.email) || input.role == "")
        Err.validation_failed
    raise_if (not (invitable_role input.role)) Err.invite_role_invalid
    let email = p.normalize_email input.email
    email_hash ← lift (p.index email)
    sealed ← lift (p.encrypt email)
    tenant ← find_tenant fails now sub.tenant_id
    raw_token ← lift p.new_token
    create_invite fails now (record {
      id = p.new_id;
      tenant_id = tenant.id;
      email_lookup_hash = email_hash;
      email_encrypted = sealed.0;
      email_encrypted_nonce = sealed.1;
      role = input.role;
      token_hash = p.hash_token raw_token;
      invited_by = sub.user_id;
      created_at = now;
      expires_at = now + invite_ttl;
      accepted_at = none;
      accepted_by = none;
      revoked_at = none;
      revoked_by = none;
    })
    pure (record {
      id = p.new_id;
      tenant_slug = tenant.slug;
      role = input.role;
      token = raw_token;
      expires_at = now + invite_ttl;
    })

  unfoldable pub accept_invite_token : String → Db AcceptedInvite
  accept_invite_token token = do
    sub ← or_raise ctx Err.unauthorized
    lift (p.authorize ctx (tenant_request tenant_invite_accept "invite"))
    raise_if (token == "") Err.validation_failed
    accept_invite fails now (p.hash_token token) sub.user_id

  -- the check that only an owner moves the owner role
  unfoldable pub guard_owner_role : Subject → String → ℕ → Bool → Db (Unit {0})
  guard_owner_role sub live_role target to_owner =
      if live_role == admin
      then (do
        current ← membership_role fails now target sub.tenant_id
        raise_if (to_owner || current == owner) Err.cannot_assign_owner)
      else pure tt

  unfoldable pub change_member_role : ℕ → String → Db MemberDto
  unfolding active_tenant require_live_owner_or_admin guard_owner_role
  change_member_role target role = do
    sub ← active_tenant
    lift (p.authorize ctx (tenant_request tenant_member_update sub.tenant_id))
    live_role ← require_live_owner_or_admin sub
    raise_if (role == "") Err.validation_failed
    raise_if (not (valid_role role)) Err.role_invalid
    raise_if (target == sub.user_id) Err.self_role_change
    guard_owner_role sub live_role target (role == owner)
    tenant ← find_tenant fails now sub.tenant_id
    m ← update_member_role fails now tenant.id target role
    email ← lift (p.email_by_id m.user_id)
    pure (record { user_id = m.user_id; email = email; role = m.role; joined_at = m.joined_at })

  unfoldable pub evict_member : ℕ → Db (Unit {0})
  unfolding active_tenant require_live_owner_or_admin guard_owner_role
  evict_member target = do
    sub ← active_tenant
    lift (p.authorize ctx (tenant_request tenant_member_remove sub.tenant_id))
    live_role ← require_live_owner_or_admin sub
    raise_if (target == sub.user_id) Err.self_remove
    guard_owner_role sub live_role target false
    tenant ← find_tenant fails now sub.tenant_id
    remove_member fails now tenant.id target
    evict_tokens target sub.tenant_id

  unfoldable pub cancel_invite : ℕ → Db (Unit {0})
  unfolding active_tenant require_live_owner_or_admin
  cancel_invite invite_id = do
    sub ← active_tenant
    lift (p.authorize ctx (tenant_request tenant_invite_revoke sub.tenant_id))
    require_live_owner_or_admin sub
    tenant ← find_tenant fails now sub.tenant_id
    revoke_invite fails now tenant.id invite_id sub.user_id
