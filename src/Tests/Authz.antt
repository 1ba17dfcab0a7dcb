-- ===== src/Tests/Authz.antt =====
-- The authorizer for an editor, an agent and a platform administrator.
use saas_forge.Base.{
  ◌||◌, if◌then◌else◌, ℕ, String, ◌≡◌, refl, true, false, [], ◌∷◌, ◌&&◌, not, Option, some, none,
  ◌==◌, string_eq,
}
use saas_forge.Errors.{ok, permit_if}
use saas_forge.Authn.{Subject, human, agent, is_agent}
use saas_forge.Authz.Action.{user_read, Input, content_create, content_publish}
use saas_forge.Authz.AgentGate.{is_listed_agent_action}
use saas_forge.Authz.Rbac.{allow, allow_tenant_plane, is_tenant_plane_action, is_content_action}
use saas_forge.Authz.Rbac.Matrix.{allow_tenant_plane-matrix, is_granted, as_role}
use saas_forge.Authz.Rbac.Planes.{
  allow-tenant_plane, tenant_plane-ignores_roles, platform_plane-ignores_membership,
}
use saas_forge.Tenant.Roles.{can_mint_agent_role, mintable_agent_roles}
use saas_forge.Tenant.Roles.Mint.{mint-allow_tenant_plane}

abbrev an_editor : Subject
an_editor = record {
  user_id = 7;
  roles = [];
  tenant_id = "acme";
  tenant_role = "editor";
  region = "eu";
  mfa_verified = true;
  public_delivery = false;
  preview_entry_id = none;
  kind = human;
  agent_id = none;
  principal_id = none;
  allowed_types = none;
  credential_id = none;
}

abbrev an_admin : Subject
an_admin = as_role an_editor "admin"

abbrev an_agent : Subject
an_agent = record an_editor { kind = agent }

abbrev a_publish : Input
a_publish = record { action = content_publish; resource = record { kind = "content"; id = "post" } }

abbrev a_user_read : Input
a_user_read = record { action = user_read; resource = record { kind = "user"; id = "7" } }

abbrev as_number : String → Option ℕ
as_number s = if s == "7" then some 7 else none

allow_tenant_plane-matrix_example :
    allow_tenant_plane an_editor content_create "post"
    ≡ permit_if (is_granted an_editor content_create "post")
allow_tenant_plane-matrix_example = allow_tenant_plane-matrix an_editor "post" content_create

allow-tenant_plane_example :
    allow as_number (some an_agent) a_publish
    ≡ permit_if (
        (not (is_agent an_agent) || is_listed_agent_action content_publish)
        && is_granted an_agent content_publish "post")
unfolding is_tenant_plane_action is_content_action
allow-tenant_plane_example = allow-tenant_plane as_number an_agent a_publish refl

tenant_plane-ignores_roles_example :
    allow as_number (some (record an_editor { roles = "admin" ∷ []; user_id = 1 })) a_publish
    ≡ allow as_number (some an_editor) a_publish
unfolding is_tenant_plane_action is_content_action
tenant_plane-ignores_roles_example =
    tenant_plane-ignores_roles as_number an_editor a_publish ("admin" ∷ []) 1 refl

platform_plane-ignores_membership_example :
    allow as_number
      (some (record an_editor { tenant_id = "acme"; tenant_role = "owner" }))
      a_user_read
    ≡ allow as_number (some an_editor) a_user_read
unfolding is_tenant_plane_action is_content_action
platform_plane-ignores_membership_example =
    platform_plane-ignores_membership as_number an_editor a_user_read "acme" "owner" refl

mint-allow_tenant_plane_example : allow_tenant_plane an_admin content_create "post" ≡ ok tt
unfolding can_mint_agent_role mintable_agent_roles allow_tenant_plane
mint-allow_tenant_plane_example =
    mint-allow_tenant_plane an_admin "editor" content_create "post" refl refl
