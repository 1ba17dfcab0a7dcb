-- ===== src/Tenant/Service/Owned.antt =====
-- Every use case, in any order and with any failures, leaves each tenant that had an owner with
-- one.
use saas_forge.Tenant.Service.Requests.{Setting, Request, serve, serve_all}
use saas_forge.Base.{[], ◌∷◌, List, ℕ, String, ◌≡◌, Bool, Option, arith}
use saas_forge.Errors.{Result}
use saas_forge.Authn.{Subject}
use saas_forge.Tenant.Tables.{Invite}
use saas_forge.Tenant.Db.{World, Db}
use saas_forge.Tenant.Db.Keeps.{Keeps-if, Keeps, keeps_rules}
use saas_forge.Tenant.Owners.{IsOwned}
use saas_forge.Tenant.Repository.{
  update_member_role, remove_member, accept_invite, create_invite, revoke_invite, membership_role,
  find_tenant,
}
use saas_forge.Tenant.Repository.Owned.{
  update_member_role-IsOwned, remove_member-IsOwned, accept_invite-IsOwned, revoke_invite-IsOwned,
  create_invite-IsOwned,
}
use saas_forge.Tenant.Service.{
  forbidding, forbid_missing, Ports, accept_invite_token, change_member_role, evict_member,
  cancel_invite, create_invite_for, CreateInviteInput, active_tenant, require_live_owner_or_admin,
  guard_owner_role,
}

module _ (p : Ports) (fails : ℕ → Bool) (now : ℕ) (ctx : Option Subject) (t : ℕ) where
  membership_role-Keeps :
      (u : ℕ) (slug : String) → Keeps (IsOwned t) (membership_role fails now u slug)
  unfolding membership_role
  membership_role-Keeps u slug = search keeps_rules

  accept_invite-Keeps : (h : String) (u : ℕ) → Keeps (IsOwned t) (accept_invite fails now h u)
  accept_invite-Keeps h u = record { at = accept_invite-IsOwned fails now t h u }

  accept_invite_token-Keeps :
      (token : String) → Keeps (IsOwned t) (accept_invite_token p fails now ctx token)
  unfolding accept_invite_token
  accept_invite_token-Keeps token = search (keeps_rules, accept_invite-Keeps)

  find_tenant-Keeps : (slug : String) → Keeps (IsOwned t) (find_tenant fails now slug)
  unfolding find_tenant
  find_tenant-Keeps slug = search keeps_rules

  create_invite-Keeps : (inv : Invite) → Keeps (IsOwned t) (create_invite fails now inv)
  create_invite-Keeps inv = record { at = create_invite-IsOwned fails now t inv }

  update_member_role-Keeps :
      (tenant_id target : ℕ) (role : String)
      → Keeps (IsOwned t) (update_member_role fails now tenant_id target role)
  update_member_role-Keeps tenant_id target role = record {
    at = update_member_role-IsOwned fails now t tenant_id target role;
  }

  remove_member-Keeps :
      (tenant_id target : ℕ) → Keeps (IsOwned t) (remove_member fails now tenant_id target)
  remove_member-Keeps tenant_id target = record {
    at = remove_member-IsOwned fails now t tenant_id target;
  }

  revoke_invite-Keeps :
      (tenant_id invite_id by : ℕ)
      → Keeps (IsOwned t) (revoke_invite fails now tenant_id invite_id by)
  revoke_invite-Keeps tenant_id invite_id by = record {
    at = revoke_invite-IsOwned fails now t tenant_id invite_id by;
  }

  active_tenant-Keeps : Keeps (IsOwned t) (active_tenant p fails now ctx)
  unfolding active_tenant
  active_tenant-Keeps = search keeps_rules

  forbid_missing-store :
      {A : Type 0} (x : Result A × World) → (forbid_missing x).1.store ≡ x.1.store
  forbid_missing-store x = ground arith

  Keeps-forbidding :
      {A : Type 0} (m : Db A) → Keeps (IsOwned t) m → Keeps (IsOwned t) (forbidding m)
  Keeps-forbidding m k = record { at = λ w h. rw (forbid_missing-store (m w)) (k.at w h) }

  require_live_owner_or_admin-Keeps :
      (sub : Subject) → Keeps (IsOwned t) (require_live_owner_or_admin p fails now ctx sub)
  unfolding require_live_owner_or_admin
  require_live_owner_or_admin-Keeps sub =
      search (keeps_rules, Keeps-forbidding, membership_role-Keeps) depth 8

  guard_owner_role-Keeps :
      (sub : Subject) (live_role : String) (target : ℕ) (to_owner : Bool)
      → Keeps (IsOwned t) (guard_owner_role p fails now ctx sub live_role target to_owner)
  unfolding guard_owner_role
  guard_owner_role-Keeps sub live_role target to_owner =
      search (keeps_rules, Keeps-if, membership_role-Keeps)

  ruleset owned_rules = (
    keeps_rules, find_tenant-Keeps, create_invite-Keeps, accept_invite-Keeps,
    update_member_role-Keeps, remove_member-Keeps, revoke_invite-Keeps, active_tenant-Keeps,
    require_live_owner_or_admin-Keeps, guard_owner_role-Keeps,
  )

  create_invite_for-Keeps :
      (input : CreateInviteInput) → Keeps (IsOwned t) (create_invite_for p fails now ctx input)
  unfolding create_invite_for
  create_invite_for-Keeps input = search owned_rules depth 20

  change_member_role-Keeps :
      (target : ℕ) (role : String)
      → Keeps (IsOwned t) (change_member_role p fails now ctx target role)
  unfolding change_member_role
  change_member_role-Keeps target role = search owned_rules depth 20

  cancel_invite-Keeps : (id : ℕ) → Keeps (IsOwned t) (cancel_invite p fails now ctx id)
  unfolding cancel_invite
  cancel_invite-Keeps id = search owned_rules depth 20

  evict_member-Keeps : (target : ℕ) → Keeps (IsOwned t) (evict_member p fails now ctx target)
  unfolding evict_member
  evict_member-Keeps target = search owned_rules depth 20

serve-IsOwned :
    (t : ℕ) (e : Setting) (r : Request) (w : World)
    → IsOwned t w.store
    → IsOwned t (serve e r w).store
unfolding serve
serve-IsOwned t e (Request.invite input) w h =
    (create_invite_for-Keeps e.ports e.fails e.now e.ctx t input).at w h
serve-IsOwned t e (Request.accept token) w h =
    (accept_invite_token-Keeps e.ports e.fails e.now e.ctx t token).at w h
serve-IsOwned t e (Request.change_role target role) w h =
    (change_member_role-Keeps e.ports e.fails e.now e.ctx t target role).at w h
serve-IsOwned t e (Request.evict target) w h =
    (evict_member-Keeps e.ports e.fails e.now e.ctx t target).at w h
serve-IsOwned t e (Request.cancel id) w h =
    (cancel_invite-Keeps e.ports e.fails e.now e.ctx t id).at w h

-- Whatever requests the service is sent, by whom, in what order and with whatever database calls
-- failing, a tenant that has an owner and keyed membership rows still has both.
pub serve_all-IsOwned :
    (t : ℕ) (requests : List (Setting × Request)) (w : World)
    → IsOwned t w.store
    → IsOwned t (serve_all requests w).store
unfolding serve_all
serve_all-IsOwned t [] w h = h
serve_all-IsOwned t ((e, r) ∷ rest) w h =
    serve_all-IsOwned t rest (serve e r w) (serve-IsOwned t e r w h)
