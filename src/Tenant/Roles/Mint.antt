-- ===== src/Tenant/Roles/Mint.antt =====
-- An agent that is minted is never mightier than its minter.
use saas_forge.Base.{
  ap, sym, ◌∙◌, refl, Bool-cases, inl, inr, by_text, String, ◌≡◌, Bool, true, false, List, [], ◌∷◌,
  ◌++◌, ◌||◌, ◌&&◌, not, ◌==◌, string_eq, contains, All, arith,
}
use mathlib.Core.Path.{subst}
use saas_forge.Errors.{ok, permit_if}
use saas_forge.Authz.Action.{tenant_invite_accept, tenant_invite_create}
use saas_forge.Authn.{Subject}
use saas_forge.Authz.Rbac.{allow_tenant_plane}
use saas_forge.Authz.Rbac.Matrix.{
  reader_actions, writer_actions, manager_actions, as_role, is_granted, capabilities,
  allow_tenant_plane-matrix,
}
use saas_forge.Tenant.Roles.{
  owner, admin, editor, viewer, valid_role, can_mint_agent_role, mintable_agent_roles,
}

abbrev IsValidTarget : String → String → Type 0
IsValidTarget minter target =
    (valid_role target ≡ true) × (((target == minter) ≡ false) × ((target == owner) ≡ false))

abbrev IsValidMint : String → String → Type 0
IsValidMint target minter = can_mint_agent_role minter target ≡ true → IsValidTarget minter target

-- What the target carries, the minter carries.
abbrev IsBelow : String → String → Type 0
IsBelow minter target =
    (action : String)
    → (contains (capabilities target) action && not (contains (capabilities minter) action)) ≡ false

below-append :
    (xs ys : List String) (action : String)
    → (contains xs action && not (contains (xs ++ ys) action)) ≡ false
below-append [] ys action = refl
below-append (x ∷ xs) ys action = ground (arith, below-append xs ys action)

IsBelow-owner : All (IsBelow owner) (admin ∷ editor ∷ viewer ∷ [])
unfolding capabilities
IsBelow-owner = (
  below-append (reader_actions ++ (writer_actions ++ manager_actions)) [],
  (
    below-append (reader_actions ++ writer_actions) manager_actions,
    (below-append reader_actions (writer_actions ++ manager_actions), tt),
  ),
)

IsBelow-admin : All (IsBelow admin) (editor ∷ viewer ∷ [])
unfolding capabilities
IsBelow-admin = (IsBelow-owner.1.0, IsBelow-owner.1.1)

listed : (P : String → Type 0) (l : List String) (a : String) → All P l → contains l a ≡ true → P a
listed P [] a h c = ground arith
listed P (x ∷ l) a h c = elim (Bool-cases (x == a)) [
  | inl same ↦ subst P ((string_eq.equal_iff x a).0 same) h.0
  | inr differs ↦ listed P l a h.1 (ground arith)
]

mintable-IsBelow :
    (minter target : String) → can_mint_agent_role minter target ≡ true → IsBelow minter target
unfolding can_mint_agent_role mintable_agent_roles
mintable-IsBelow minter target =
    by_text (λ minter. can_mint_agent_role minter target ≡ true → IsBelow minter target)
      (owner ∷ admin ∷ []) minter
      (
        listed (IsBelow owner) (admin ∷ editor ∷ viewer ∷ []) target IsBelow-owner,
        (listed (IsBelow admin) (editor ∷ viewer ∷ []) target IsBelow-admin, tt),
      )
      (λ other h action. ground arith)

widen :
    (accepts active carried carried' scoped : Bool)
    → (carried && not carried') ≡ false
    → (accepts || (active && (carried && scoped))) ≡ true
    → (accepts || (active && (carried' && scoped))) ≡ true
widen accepts active carried carried' scoped below h = ground arith

granted_below :
    (sub : Subject) (target action resource_id : String)
    → can_mint_agent_role sub.tenant_role target ≡ true
    → is_granted (as_role sub target) action resource_id ≡ true
    → is_granted sub action resource_id ≡ true
unfolding is_granted
granted_below sub target action resource_id mints granted =
    widen (tenant_invite_accept == action) (not ("" == sub.tenant_id))
      (contains (capabilities target) action) (contains (capabilities sub.tenant_role) action)
      (not (tenant_invite_create == action) || resource_id == sub.tenant_id)
      (mintable-IsBelow sub.tenant_role target mints action) granted

permit_if-true : (b : Bool) → permit_if b ≡ ok tt → b ≡ true
permit_if-true b h = ground arith

-- What the authorizer lets an agent do in its tenant under a role that the minter may give it, it
-- lets the minter do under its own role.
pub mint-allow_tenant_plane :
    (sub : Subject) (target action resource_id : String)
    → can_mint_agent_role sub.tenant_role target ≡ true
    → allow_tenant_plane (as_role sub target) action resource_id ≡ ok tt
    → allow_tenant_plane sub action resource_id ≡ ok tt
mint-allow_tenant_plane sub target action resource_id mints allowed =
    allow_tenant_plane-matrix sub resource_id action
    ∙ ap permit_if (
        granted_below sub target action resource_id mints (
          permit_if-true (is_granted (as_role sub target) action resource_id)
            (sym (allow_tenant_plane-matrix (as_role sub target) resource_id action) ∙ allowed)))

-- A role that may be given is a valid role, neither the minter's own nor the owner's.
pub can_mint_agent_role-valid :
    (minter target : String)
    → can_mint_agent_role minter target ≡ true
    → (valid_role target ≡ true) × (((target == minter) ≡ false) × ((target == owner) ≡ false))
unfolding can_mint_agent_role mintable_agent_roles valid_role
can_mint_agent_role-valid minter target =
    by_text (IsValidMint target) (owner ∷ admin ∷ []) minter
      (
        listed (IsValidTarget owner) (admin ∷ editor ∷ viewer ∷ []) target
            ((refl, (refl, refl)), ((refl, (refl, refl)), ((refl, (refl, refl)), tt))),
        (
          listed (IsValidTarget admin) (editor ∷ viewer ∷ []) target
              ((refl, (refl, refl)), ((refl, (refl, refl)), tt)),
          tt,
        ),
      )
      (λ other h. ground arith)
