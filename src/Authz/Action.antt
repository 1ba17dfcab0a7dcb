-- ===== src/Authz/Action.antt =====
-- internal/pkg/authz/authorizer.go: the action names, the resource and the request.
use saas_forge.Base.{String}

pub record Resource : Type 0 where
  pub kind : String  -- the source's field `Type`
  pub id : String

pub record Input : Type 0 where
  pub action : String
  pub resource : Resource

abbrev pub user_list : String
user_list = "user:list"

abbrev pub user_read : String
user_read = "user:read"

abbrev pub user_update : String
user_update = "user:update"

abbrev pub user_delete : String
user_delete = "user:delete"

abbrev pub user_preferences_update : String
user_preferences_update = "user:preferences:update"

abbrev pub iam_role_read : String
iam_role_read = "iam:role:read"

abbrev pub iam_role_assign : String
iam_role_assign = "iam:role:assign"

abbrev pub iam_role_revoke : String
iam_role_revoke = "iam:role:revoke"

abbrev pub notification_read : String
notification_read = "notification:read"

abbrev pub notification_create : String
notification_create = "notification:create"

abbrev pub notification_mark_read : String
notification_mark_read = "notification:mark_read"

abbrev pub platform_app_list : String
platform_app_list = "platform:app:list"

abbrev pub platform_app_create : String
platform_app_create = "platform:app:create"

abbrev pub platform_app_update : String
platform_app_update = "platform:app:update"

abbrev pub platform_tenant_plan_set : String
platform_tenant_plan_set = "platform:tenant:plan:update"

abbrev pub content_list : String
content_list = "content:list"

abbrev pub content_read : String
content_read = "content:read"

abbrev pub content_create : String
content_create = "content:create"

abbrev pub content_update : String
content_update = "content:update"

abbrev pub content_delete : String
content_delete = "content:delete"

abbrev pub content_publish : String
content_publish = "content:publish"

abbrev pub content_schema_write : String
content_schema_write = "content:schema:write"

abbrev pub content_schema_plan : String
content_schema_plan = "content:schema:plan"

abbrev pub content_schema_propose : String
content_schema_propose = "content:schema:propose"

abbrev pub content_schema_amend : String
content_schema_amend = "content:schema:amend"

abbrev pub content_activity_read : String
content_activity_read = "content:activity:read"

abbrev pub content_review_list : String
content_review_list = "content:review:list"

abbrev pub tenant_invite_create : String
tenant_invite_create = "tenant:invite:create"

abbrev pub tenant_invite_accept : String
tenant_invite_accept = "tenant:invite:accept"

abbrev pub tenant_invite_list : String
tenant_invite_list = "tenant:invite:list"

abbrev pub tenant_invite_revoke : String
tenant_invite_revoke = "tenant:invite:revoke"

abbrev pub tenant_member_list : String
tenant_member_list = "tenant:member:list"

abbrev pub tenant_member_update : String
tenant_member_update = "tenant:member:update"

abbrev pub tenant_member_remove : String
tenant_member_remove = "tenant:member:remove"

abbrev pub agent_credential_issue : String
agent_credential_issue = "agent:credential:issue"

abbrev pub agent_credential_list : String
agent_credential_list = "agent:credential:list"

abbrev pub agent_credential_revoke : String
agent_credential_revoke = "agent:credential:revoke"
