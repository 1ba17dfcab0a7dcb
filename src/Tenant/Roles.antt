-- ===== src/Tenant/Roles.antt =====
-- internal/tenant/domain/tenant.go: the membership roles, and who may grant which.
pub mod Mint
use saas_forge.Base.{String, Bool, List, [], ◌∷◌, ◌==◌, string_eq, contains, if◌then◌else◌}

abbrev pub owner : String
owner = "owner"

abbrev pub admin : String
admin = "admin"

abbrev pub editor : String
editor = "editor"

abbrev pub viewer : String
viewer = "viewer"

unfoldable pub valid_role : String → Bool
valid_role role = contains (owner ∷ admin ∷ editor ∷ viewer ∷ []) role

unfoldable pub invitable_role : String → Bool
invitable_role role = contains (admin ∷ editor ∷ viewer ∷ []) role

-- The table `mintableAgentRoles`; a missing key reads as the empty slice.
unfoldable pub mintable_agent_roles : String → List String
mintable_agent_roles minter_role =
    if owner == minter_role
    then admin ∷ editor ∷ viewer ∷ []
    else if admin == minter_role
    then editor ∷ viewer ∷ []
    else []

unfoldable pub can_mint_agent_role : String → String → Bool
unfolding mintable_agent_roles
can_mint_agent_role minter_role target = contains (mintable_agent_roles minter_role) target
