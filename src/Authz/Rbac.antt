-- ===== src/Authz/Rbac.antt =====
-- internal/pkg/authz/rbac_authorizer.go: the role-based authorizer.
pub mod Matrix
pub mod Planes
use saas_forge.Base.{
  ℕ, String, Bool, true, false, Option, none, some, List, [], ◌∷◌, ◌||◌, ◌&&◌, not, ◌==◌, nat_eq,
  string_eq, contains, starts_with, if◌then◌else◌,
}
use saas_forge.Errors.{Result, ok, err, unauthorized, forbidden, permit_if, ◌>>◌, ◌>>=◌}
use saas_forge.Authn.{Subject, has_role}
use saas_forge.Authz.Action.{
  Input, Resource, user_list, user_read, user_update, user_delete, user_preferences_update,
  iam_role_read, iam_role_assign, iam_role_revoke, notification_read, notification_create,
  notification_mark_read, platform_app_list, platform_app_create, platform_app_update,
  platform_tenant_plan_set, content_list, content_read, content_create, content_update,
  content_delete, content_publish, content_schema_write, content_schema_plan,
  content_schema_propose, content_schema_amend, content_activity_read, content_review_list,
  tenant_invite_create, tenant_invite_accept, tenant_invite_list, tenant_invite_revoke,
  tenant_member_list, tenant_member_update, tenant_member_remove, agent_credential_issue,
  agent_credential_list, agent_credential_revoke,
}
use saas_forge.Authz.AgentGate.{refuse_unlisted_agent_action}

-- A `switch` on a string with several values in one `case` is a membership test.
unfoldable pub is_iam_action : String → Bool
is_iam_action action = contains (iam_role_read ∷ iam_role_assign ∷ iam_role_revoke ∷ []) action

unfoldable pub is_platform_action : String → Bool
is_platform_action action =
    contains
      (platform_app_list ∷ platform_app_create ∷ platform_app_update ∷ platform_tenant_plan_set
        ∷ [])
      action

unfoldable pub is_tenant_plane_action : String → Bool
is_tenant_plane_action action =
    starts_with action "content:"
    || starts_with action "tenant:invite:"
    || starts_with action "tenant:member:"
    || starts_with action "agent:"

unfoldable pub is_content_action : String → Bool
is_content_action action =
    contains
      (content_list ∷ content_read ∷ content_create ∷ content_update ∷ content_delete
        ∷ content_publish ∷ content_schema_write ∷ content_schema_plan ∷ content_schema_propose
        ∷ content_schema_amend ∷ content_activity_read ∷ content_review_list ∷ [])
      action

abbrev is_owner_or_admin : String → Bool
is_owner_or_admin role = contains ("owner" ∷ "admin" ∷ []) role

unfoldable pub allow_content_by_tenant_role : String → String → Result (Unit {0})
allow_content_by_tenant_role tenant_role action =
    if content_schema_write == action
    then permit_if (is_owner_or_admin tenant_role)
    else if contains ("owner" ∷ "admin" ∷ "editor" ∷ []) tenant_role
    then ok tt
    else if "viewer" == tenant_role
    then permit_if (content_list == action || content_read == action)
    else err forbidden

-- `if sub.TenantID == "" { return ErrForbidden }`, then the role test
abbrev in_active_tenant : Subject → Bool → Result (Unit {0})
in_active_tenant sub test = if "" == sub.tenant_id then err forbidden else permit_if test

-- the branch of `Allow` under `isTenantPlaneAction`
unfoldable pub allow_tenant_plane : Subject → String → String → Result (Unit {0})
unfolding is_content_action allow_content_by_tenant_role
allow_tenant_plane sub action resource_id =
    if is_content_action action
    then (if "" == sub.tenant_id
        then err forbidden
        else allow_content_by_tenant_role sub.tenant_role action)
    else if tenant_invite_create == action
    then (if "" == sub.tenant_id || not (resource_id == sub.tenant_id)
        then err forbidden
        else permit_if (is_owner_or_admin sub.tenant_role))
    else if tenant_invite_accept == action
    then ok tt
    else if contains (tenant_invite_list ∷ tenant_invite_revoke ∷ []) action
    then in_active_tenant sub (is_owner_or_admin sub.tenant_role)
    else if tenant_member_list == action
    then in_active_tenant sub
        (contains ("owner" ∷ "admin" ∷ "editor" ∷ "viewer" ∷ []) sub.tenant_role)
    else if contains (tenant_member_update ∷ tenant_member_remove ∷ []) action
    then in_active_tenant sub (is_owner_or_admin sub.tenant_role)
    else if contains (agent_credential_issue ∷ agent_credential_list ∷ agent_credential_revoke ∷ [])
        action
    then in_active_tenant sub (is_owner_or_admin sub.tenant_role)
    else err forbidden

-- the last `switch` of `Allow`, on the parsed id of the resource
unfoldable pub allow_own_resource : Subject → String → ℕ → Result (Unit {0})
allow_own_resource sub action resource_id =
    if contains (notification_read ∷ notification_create ∷ notification_mark_read ∷ []) action
    then permit_if (sub.user_id == resource_id)
    else if contains (user_read ∷ user_update ∷ user_preferences_update ∷ []) action
    then permit_if (sub.user_id == resource_id)
    else err forbidden

-- `uuid.Parse` is a library's.
module _ (parse_uuid : String → Option ℕ) where
  -- the rest of `Allow`, behind the tenant plane
  unfoldable pub allow_platform_plane : Subject → Input → Result (Unit {0})
  unfolding has_role is_iam_action is_platform_action allow_own_resource
  allow_platform_plane sub input =
      if has_role sub "admin"
      then ok tt
      else if is_iam_action input.action || is_platform_action input.action
      then err forbidden
      else elim (parse_uuid input.resource.id) [
        | none ↦ err forbidden
        | some resource_id ↦ allow_own_resource sub input.action resource_id
      ]

  -- `Allow`; `none` is a context that carries no subject.
  unfoldable pub allow : Option Subject → Input → Result (Unit {0})
  allow none input = err unauthorized
  allow (some sub) input =
      refuse_unlisted_agent_action sub input.action
      >> (if is_tenant_plane_action input.action
          then allow_tenant_plane sub input.action input.resource.id
          else allow_platform_plane sub input)
