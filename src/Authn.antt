-- ===== src/Authn.antt =====
-- internal/pkg/authn/subject.go: the verified identity that every request carries.
use saas_forge.Base.{
  ℕ, String, Bool, true, false, Option, none, some, List, not, ◌==◌, contains, string_eq,
  if◌then◌else◌,
}

-- `ActorKind`: the zero value "" is a kind of its own, and constrains nothing.
pub data ActorKind : Type 0 where
  unset human agent service : ActorKind

-- User, agent and credential ids are only compared, so they are numbers; 0 is `uuid.Nil`.
pub record Subject : Type 0 where
  pub user_id : ℕ
  pub roles : List String
  pub tenant_id : String
  pub tenant_role : String
  pub region : String
  pub mfa_verified : Bool
  pub public_delivery : Bool
  pub preview_entry_id : Option ℕ
  pub kind : ActorKind
  pub agent_id : Option String
  pub principal_id : Option ℕ
  -- `none` is Go's nil, which differs from an empty list only in meaning
  pub allowed_types : Option (List String)
  pub credential_id : Option ℕ

abbrev is_agent_kind : ActorKind → Bool
is_agent_kind agent = true
is_agent_kind _ = false

unfoldable pub is_agent : Subject → Bool
is_agent s = is_agent_kind s.kind

unfoldable pub allows_content_type : Subject → String → Bool
unfolding is_agent
allows_content_type s content_type = if not (is_agent s) then true else elim s.allowed_types [
  | none ↦ false
  | some types ↦ if content_type == "" then false else contains types content_type
]

unfoldable pub responsible_user_id : Subject → ℕ
unfolding is_agent
responsible_user_id s =
    if is_agent s then (elim s.principal_id [ none ↦ 0 | some id ↦ id ]) else s.user_id

unfoldable pub has_role : Subject → String → Bool
has_role s role = contains s.roles role
