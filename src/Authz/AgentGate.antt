-- ===== src/Authz/AgentGate.antt =====
-- internal/pkg/authz/agent_gate.go: which actions an agent credential may exercise at all.
use saas_forge.Base.{String, Bool, string_eq, if◌then◌else◌, ◌∷◌, [], contains}
use saas_forge.Errors.{Result, ok, permit_if}
use saas_forge.Authn.{Subject, is_agent}
use saas_forge.Authz.Action.{
  content_list, content_read, content_create, content_update, content_schema_plan,
  content_schema_propose,
}

-- the `case` of the switch
unfoldable pub is_listed_agent_action : String → Bool
is_listed_agent_action action =
    contains
      (content_list ∷ content_read ∷ content_create ∷ content_update ∷ content_schema_plan
        ∷ content_schema_propose ∷ [])
      action

unfoldable pub refuse_unlisted_agent_action : Subject → String → Result (Unit {0})
unfolding is_agent is_listed_agent_action
refuse_unlisted_agent_action sub action =
    if is_agent sub then permit_if (is_listed_agent_action action) else ok tt
