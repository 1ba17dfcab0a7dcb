-- ===== src/Authz/Rbac/Planes.antt =====
-- What `Allow` answers on each of its two planes, for people and for agents.
use saas_forge.Base.{
  String, ℕ, ◌≡◌, refl, Bool, true, false, Option, some, ◌&&◌, ◌||◌, not, arith, List,
}
use saas_forge.Errors.{permit_if, ◌>>◌}
use saas_forge.Authn.{Subject, is_agent, ActorKind}
use saas_forge.Authz.Action.{Input}
use saas_forge.Authz.AgentGate.{refuse_unlisted_agent_action, is_listed_agent_action}
use saas_forge.Authz.Rbac.{is_tenant_plane_action, allow_tenant_plane, allow_platform_plane, allow}
use saas_forge.Authz.Rbac.Matrix.{is_granted, allow_tenant_plane-matrix}

permit_if-then : (a b : Bool) → (permit_if a >> permit_if b) ≡ permit_if (a && b)
permit_if-then true b = refl
permit_if-then false b = refl

pub gate-permit_if :
    (sub : Subject) (action : String)
    → refuse_unlisted_agent_action sub action
      ≡ permit_if (not (is_agent sub) || is_listed_agent_action action)
unfolding refuse_unlisted_agent_action
gate-permit_if sub action = ground arith

module _ (parse_uuid : String → Option ℕ) where
  -- On the tenant plane a subject is let through exactly when the capability table of its
  -- membership role grants the action and, for an agent credential, the action is listed for
  -- agents.
  pub allow-tenant_plane :
      (sub : Subject) (input : Input)
      → is_tenant_plane_action input.action ≡ true
      → allow parse_uuid (some sub) input
        ≡ permit_if (
            (not (is_agent sub) || is_listed_agent_action input.action)
            && is_granted sub input.action input.resource.id)
  unfolding allow
  allow-tenant_plane sub input plane =
      rw
        (
          plane,
          gate-permit_if sub input.action,
          allow_tenant_plane-matrix sub input.resource.id input.action,
        )
        (permit_if-then _ _)

  -- Platform roles carry no power over tenant data: on the tenant plane the answer is the same
  -- for any platform roles and any user id, the platform administrator's included.
  pub tenant_plane-ignores_roles :
      (sub : Subject) (input : Input) (roles : List String) (user_id : ℕ)
      → is_tenant_plane_action input.action ≡ true
      → allow parse_uuid (some (record sub { roles = roles; user_id = user_id })) input
        ≡ allow parse_uuid (some sub) input
  unfolding allow refuse_unlisted_agent_action allow_tenant_plane
  tenant_plane-ignores_roles sub input roles user_id plane = rw plane refl

  -- Membership carries no power over the platform: off the tenant plane the answer is the same for
  -- any active tenant and membership role.
  pub platform_plane-ignores_membership :
      (sub : Subject) (input : Input) (tenant_id tenant_role : String)
      → is_tenant_plane_action input.action ≡ false
      → allow parse_uuid
          (some (record sub { tenant_id = tenant_id; tenant_role = tenant_role }))
          input
        ≡ allow parse_uuid (some sub) input
  unfolding allow refuse_unlisted_agent_action allow_platform_plane
  platform_plane-ignores_membership sub input tenant_id tenant_role other = rw other refl

  -- An agent credential is let through exactly where its action is listed for agents and a person
  -- with the same claims would be let through.
  pub agent-allow :
      (sub : Subject) (input : Input)
      → allow parse_uuid (some (record sub { kind = ActorKind.agent })) input ≡ (
          permit_if (is_listed_agent_action input.action)
          >> allow parse_uuid (some (record sub { kind = ActorKind.human })) input)
  unfolding allow refuse_unlisted_agent_action allow_tenant_plane allow_platform_plane
  agent-allow sub input = refl
