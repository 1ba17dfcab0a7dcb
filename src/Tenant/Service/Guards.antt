-- ===== src/Tenant/Service/Guards.antt =====
-- Who is refused: an admin who touches an owner, and a caller who manages nothing.
use saas_forge.Base.{
  sym, ◌⊎◌, inl, inr, ◌==◌, string_eq, ℕ, String, ◌≡◌, ◌≢◌, Bool, some, arith, false, true, none,
  ◌||◌,
}
use mathlib.Core.Path.{subst}
use saas_forge.Errors.{ok}
use saas_forge.Authn.{Subject}
use saas_forge.Tenant.Roles.{owner, admin}
use saas_forge.Tenant.Tables.{role_in_slug, Store}
use saas_forge.Tenant.Db.{World}
use saas_forge.Tenant.Repository.{membership_role}
use saas_forge.Tenant.Service.Requests.{Request}
use saas_forge.Tenant.Service.{
  MemberDto, change_member_role, Ports, evict_member, active_tenant, require_live_owner_or_admin,
  guard_owner_role,
}

module _ (p : Ports) (fails : ℕ → Bool) (now : ℕ) (sub : Subject) (target : ℕ) where
  -- A caller whose live role is admin never succeeds in removing an owner, whatever its claims say
  -- and whatever calls fail.
  pub evict_member-owner :
      (w : World)
      → role_in_slug w.store.tenants sub.user_id sub.tenant_id w.store.memberships ≡ some admin
      → role_in_slug w.store.tenants target sub.tenant_id w.store.memberships ≡ some owner
      → (evict_member p fails now (some sub) target w).0 ≢ ok tt
  unfolding evict_member active_tenant require_live_owner_or_admin guard_owner_role membership_role
  evict_member-owner w mine theirs = ground arith

  change_member_role_promote :
      (out : MemberDto) (w : World)
      → role_in_slug w.store.tenants sub.user_id sub.tenant_id w.store.memberships ≡ some admin
      → (change_member_role p fails now (some sub) target owner w).0 ≢ ok out
  unfolding change_member_role active_tenant require_live_owner_or_admin guard_owner_role
      membership_role
  change_member_role_promote out w mine = ground arith

  -- A caller whose live role is admin never succeeds in changing the role of an owner, or in making
  -- anyone an owner, whatever its claims say and whatever calls fail.
  pub change_member_role-owner :
      (role : String) (out : MemberDto) (w : World)
      → role_in_slug w.store.tenants sub.user_id sub.tenant_id w.store.memberships ≡ some admin
      → (role_in_slug w.store.tenants target sub.tenant_id w.store.memberships ≡ some owner)
        ⊎ (role ≡ owner)
      → (change_member_role p fails now (some sub) target role w).0 ≢ ok out
  unfolding change_member_role active_tenant require_live_owner_or_admin guard_owner_role
      membership_role
  change_member_role-owner role out w mine (inl theirs) = ground arith
  change_member_role-owner role out w mine (inr promoted) =
      subst (λ r. (change_member_role p fails now (some sub) target r w).0 ≢ ok out) (sym promoted)
        (change_member_role_promote out w mine)

-- The caller's live role in its active tenant is owner or admin.
unfoldable pub manages : Subject → Store → Bool
manages sub s = elim (role_in_slug s.tenants sub.user_id sub.tenant_id s.memberships) [
  | none ↦ false
  | some role ↦ role == owner || role == admin
]

abbrev pub is_accept : Request → Bool
is_accept (Request.accept _) = true
is_accept _ = false
