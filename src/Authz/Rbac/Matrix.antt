-- ===== src/Authz/Rbac/Matrix.antt =====
-- The tenant plane of the role-based authorizer against a capability table: for each membership
-- role, the actions that it carries.
use saas_forge.Base.{
  by_text, String, ◌≡◌, Bool, false, List, [], ◌∷◌, ◌++◌, ◌||◌, ◌&&◌, not, ◌==◌, string_eq,
  contains, if◌then◌else◌, All, arith,
}
use saas_forge.Errors.{err, forbidden, permit_if}
use saas_forge.Authn.{Subject}
use saas_forge.Authz.Action.{
  content_list, content_read, content_create, content_update, content_delete, content_publish,
  content_schema_write, content_schema_plan, content_schema_propose, content_schema_amend,
  content_activity_read, content_review_list, tenant_invite_create, tenant_invite_accept,
  tenant_invite_list, tenant_invite_revoke, tenant_member_list, tenant_member_update,
  tenant_member_remove, agent_credential_issue, agent_credential_list, agent_credential_revoke,
}
use saas_forge.Authz.Rbac.{allow_tenant_plane}

abbrev pub reader_actions : List String
reader_actions = content_list ∷ content_read ∷ tenant_member_list ∷ []

abbrev pub writer_actions : List String
writer_actions =
    content_create ∷ content_update ∷ content_delete ∷ content_publish ∷ content_schema_plan
    ∷ content_schema_propose ∷ content_schema_amend ∷ content_activity_read ∷ content_review_list
    ∷ []

abbrev pub manager_actions : List String
manager_actions =
    content_schema_write ∷ tenant_invite_create ∷ tenant_invite_list ∷ tenant_invite_revoke
    ∷ tenant_member_update ∷ tenant_member_remove ∷ agent_credential_issue ∷ agent_credential_list
    ∷ agent_credential_revoke ∷ []

abbrev all_actions : List String
all_actions = tenant_invite_accept ∷ reader_actions ++ (writer_actions ++ manager_actions)

-- The table: a viewer reads, an editor writes too, an owner or admin manages too.
unfoldable pub capabilities : String → List String
capabilities role =
    if contains ("owner" ∷ "admin" ∷ []) role
    then reader_actions ++ (writer_actions ++ manager_actions)
    else if "editor" == role
    then reader_actions ++ writer_actions
    else if "viewer" == role
    then reader_actions
    else []

-- Accepting an invite needs no tenant; all else needs an active one and the role's capability, and
-- an invite is minted for the active tenant alone.
unfoldable pub is_granted : Subject → String → String → Bool
unfolding capabilities
is_granted sub action resource_id =
    tenant_invite_accept == action
    || (not ("" == sub.tenant_id)
        && (contains (capabilities sub.tenant_role) action
            && (not (tenant_invite_create == action) || resource_id == sub.tenant_id)))

abbrev Agrees : Subject → String → String → Type 0
Agrees sub resource_id action =
    allow_tenant_plane sub action resource_id ≡ permit_if (is_granted sub action resource_id)

-- The subject with this role in its tenant.
abbrev pub as_role : Subject → String → Subject
as_role sub role = record sub { tenant_role = role }

abbrev AgreesOnAll : Subject → String → String → Type 0
AgreesOnAll sub resource_id role = All (Agrees (as_role sub role) resource_id) all_actions

module _ (sub : Subject) (resource_id : String) where
  agrees_owner : AgreesOnAll sub resource_id "owner"
  unfolding allow_tenant_plane is_granted
  agrees_owner = ground arith

  agrees_admin : AgreesOnAll sub resource_id "admin"
  unfolding allow_tenant_plane is_granted
  agrees_admin = ground arith

  agrees_editor : AgreesOnAll sub resource_id "editor"
  unfolding allow_tenant_plane is_granted
  agrees_editor = ground arith

  agrees_viewer : AgreesOnAll sub resource_id "viewer"
  unfolding allow_tenant_plane is_granted
  agrees_viewer = ground arith

  agrees_other :
      (role : String)
      → All (λ x. (x == role) ≡ false) ("owner" ∷ "admin" ∷ "editor" ∷ "viewer" ∷ [])
      → AgreesOnAll sub resource_id role
  unfolding allow_tenant_plane is_granted
  agrees_other role other = ground arith

  agrees_known : AgreesOnAll sub resource_id sub.tenant_role
  agrees_known =
      by_text (AgreesOnAll sub resource_id) ("owner" ∷ "admin" ∷ "editor" ∷ "viewer" ∷ [])
        sub.tenant_role (agrees_owner, (agrees_admin, (agrees_editor, (agrees_viewer, tt))))
        (agrees_other sub.tenant_role)

  unknown_forbidden :
      (action : String)
      → All (λ x. (x == action) ≡ false) all_actions
      → allow_tenant_plane sub action resource_id ≡ err forbidden
  unfolding allow_tenant_plane
  unknown_forbidden action other = cc

  unknown_not_granted :
      (action : String)
      → All (λ x. (x == action) ≡ false) all_actions
      → is_granted sub action resource_id ≡ false
  unfolding is_granted
  unknown_not_granted action other = ground arith

  -- On the tenant plane the authorizer's nested branches decide exactly as the capability table
  -- does, for every subject, action and resource id.
  pub allow_tenant_plane-matrix :
      (action : String)
      → allow_tenant_plane sub action resource_id ≡ permit_if (is_granted sub action resource_id)
  allow_tenant_plane-matrix action =
      by_text (Agrees sub resource_id) all_actions action agrees_known
        (λ other. rw (unknown_not_granted action other) (unknown_forbidden action other))
