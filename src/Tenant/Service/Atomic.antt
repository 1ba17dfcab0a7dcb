-- ===== src/Tenant/Service/Atomic.antt =====
-- A use case that answers with an error has changed no table, with one exception.
use saas_forge.Base.{refl, some, false, ◌≡◌, ℕ, String, Bool, Option, arith}
use saas_forge.Authn.{Subject}
use saas_forge.Tenant.Tables.{Invite}
use saas_forge.Tenant.Db.{World, Db}
use saas_forge.Tenant.Db.Reads.{Alike, Alike-Reads, Alike-bind, Reads, reads_rules}
use saas_forge.Tenant.Db.Atomic.{
  Atomic, Succeeds, Atomic-bind, Atomic-then, Succeeds-pure, Atomic-in_tx,
}
use saas_forge.Tenant.Repository.{
  remove_member, accept_invite, create_invite, revoke_invite, membership_role, find_tenant,
}
use saas_forge.Tenant.Service.Requests.{Setting, Request, serve, answer, is_change_role, error_of}
use saas_forge.Tenant.Service.{
  err, ok, Result, Err, change_member_role, Ports, accept_invite_token, evict_member, cancel_invite,
  create_invite_for, CreateInviteInput, active_tenant, require_live_owner_or_admin,
  guard_owner_role, forbidding, evict_tokens,
}

Reads-forbidding : {A : Type 0} (m : Db A) → Reads m → Reads (forbidding m)
Reads-forbidding m r = record { same = λ w. ground (arith, r.same w) }

module _ (p : Ports) (fails : ℕ → Bool) (now : ℕ) (ctx : Option Subject) where
  active_tenant-Reads : Reads (active_tenant p fails now ctx)
  unfolding active_tenant
  active_tenant-Reads = search reads_rules

  membership_role-Reads : (u : ℕ) (slug : String) → Reads (membership_role fails now u slug)
  unfolding membership_role
  membership_role-Reads u slug = search reads_rules

  find_tenant-Reads : (slug : String) → Reads (find_tenant fails now slug)
  unfolding find_tenant
  find_tenant-Reads slug = search reads_rules

  require_live_owner_or_admin-Reads :
      (sub : Subject) → Reads (require_live_owner_or_admin p fails now ctx sub)
  unfolding require_live_owner_or_admin
  require_live_owner_or_admin-Reads sub =
      search (reads_rules, Reads-forbidding, membership_role-Reads) depth 8

  guard_owner_role-Reads :
      (sub : Subject) (live_role : String) (target : ℕ) (to_owner : Bool)
      → Reads (guard_owner_role p fails now ctx sub live_role target to_owner)
  unfolding guard_owner_role
  guard_owner_role-Reads sub live_role target to_owner =
      search (reads_rules, membership_role-Reads) depth 8

  ruleset service_reads = (
    reads_rules, active_tenant-Reads, find_tenant-Reads, require_live_owner_or_admin-Reads,
    guard_owner_role-Reads,
  )

  create_invite-Atomic : (inv : Invite) → Atomic (create_invite fails now inv)
  unfolding create_invite
  create_invite-Atomic inv = record { undone = λ w e h. ground arith }

  accept_invite-Atomic : (h : String) (u : ℕ) → Atomic (accept_invite fails now h u)
  unfolding accept_invite
  accept_invite-Atomic h u = Atomic-in_tx fails _

  remove_member-Atomic : (t u : ℕ) → Atomic (remove_member fails now t u)
  unfolding remove_member
  remove_member-Atomic t u = Atomic-in_tx fails _

  revoke_invite-Atomic : (t i u : ℕ) → Atomic (revoke_invite fails now t i u)
  unfolding revoke_invite
  revoke_invite-Atomic t i u = Atomic-in_tx fails _

  evict_tokens-Succeeds : (u : ℕ) (slug : String) → Succeeds (evict_tokens u slug)
  evict_tokens-Succeeds u slug = record { returns = λ w e h. cc }

  accept_invite_token-Atomic : (token : String) → Atomic (accept_invite_token p fails now ctx token)
  unfolding accept_invite_token
  accept_invite_token-Atomic token =
      search (Atomic-bind, service_reads, accept_invite-Atomic) depth 12

  cancel_invite-Atomic : (id : ℕ) → Atomic (cancel_invite p fails now ctx id)
  unfolding cancel_invite
  cancel_invite-Atomic id = search (Atomic-bind, service_reads, revoke_invite-Atomic) depth 12

  evict_member-Atomic : (target : ℕ) → Atomic (evict_member p fails now ctx target)
  unfolding evict_member
  evict_member-Atomic target =
      search (Atomic-bind, Atomic-then, service_reads, remove_member-Atomic, evict_tokens-Succeeds)
        depth 12

  create_invite_for-Atomic :
      (input : CreateInviteInput) → Atomic (create_invite_for p fails now ctx input)
  unfolding create_invite_for
  create_invite_for-Atomic input =
      search (Atomic-bind, Atomic-then, service_reads, create_invite-Atomic, Succeeds-pure) depth 16

unanswered :
    {A : Type 0} (m : Db A) (w : World) (x : Err)
    → Atomic m
    → error_of (m w).0 ≡ some x
    → (m w).1.store ≡ w.store
unanswered {A = A} m w x k failed = go (m w).0 refl failed
  where
    go : (r : Result A) → (m w).0 ≡ r → error_of r ≡ some x → (m w).1.store ≡ w.store
    go (ok a) e h = cc
    go (err y) e h = k.undone w y e

-- Every request but a change of role that is answered with an error has changed no table.
pub serve-error_unchanged :
    (e : Setting) (r : Request) (w : World) (x : Err)
    → is_change_role r ≡ false
    → answer e r w ≡ some x
    → (serve e r w).store ≡ w.store
unfolding serve answer
serve-error_unchanged e (Request.invite input) w x other failed =
    unanswered _ w x (create_invite_for-Atomic e.ports e.fails e.now e.ctx input) failed
serve-error_unchanged e (Request.accept token) w x other failed =
    unanswered _ w x (accept_invite_token-Atomic e.ports e.fails e.now e.ctx token) failed
serve-error_unchanged e (Request.change_role target role) w x other failed = cc
serve-error_unchanged e (Request.evict target) w x other failed =
    unanswered _ w x (evict_member-Atomic e.ports e.fails e.now e.ctx target) failed
serve-error_unchanged e (Request.cancel id) w x other failed =
    unanswered _ w x (cancel_invite-Atomic e.ports e.fails e.now e.ctx id) failed

change_member_role-Alike :
    (p : Ports) (fails : ℕ → Bool) (now : ℕ) (ctx : Option Subject) (target : ℕ) (role : String)
    (lookup : ℕ → Result String)
    → Alike
        (change_member_role (record p { email_by_id = lookup }) fails now ctx target role)
        (change_member_role p fails now ctx target role)
unfolding change_member_role active_tenant require_live_owner_or_admin guard_owner_role
change_member_role-Alike p fails now ctx target role lookup =
    search (Alike-bind, Alike-Reads, reads_rules) depth 14

-- A change of role leaves the same tables whatever the lookup of the member's address answers,
-- which comes after the change and whose failure is the caller's error.
pub change_member_role-lookup_too_late :
    (p : Ports) (fails : ℕ → Bool) (now : ℕ) (ctx : Option Subject) (target : ℕ) (role : String)
    (lookup : ℕ → Result String) (w : World)
    → (change_member_role (record p { email_by_id = lookup }) fails now ctx target role w).1.store
      ≡ (change_member_role p fails now ctx target role w).1.store
change_member_role-lookup_too_late p fails now ctx target role lookup w =
    (change_member_role-Alike p fails now ctx target role lookup).tables w
