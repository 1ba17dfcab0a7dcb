-- ===== src/Tests/Tenant.antt =====
-- A tenant with an owner, an admin and an editor, and an invite that waits to be accepted.
use saas_forge.Base.{
  inl, ◌+◌, ℕ, zero, suc, String, ◌≡◌, ◌≢◌, refl, Bool, true, false, List, [], ◌∷◌, some, none,
  ◌==◌, nat_eq, string_eq, if◌then◌else◌, arith,
}
use saas_forge.Errors.{Err, Result, ok, err}
use saas_forge.Authn.{Subject, human}
use saas_forge.Tenant.Roles.{valid_role}
use saas_forge.Tenant.Tables.{Store, Membership, Invite, User, owner_count}
use saas_forge.Tenant.Db.{Db, World, in_tx}
use saas_forge.Tenant.Owners.{IsOwned}
use saas_forge.Tenant.Repository.{
  membership_role, InviteRow, AcceptedInvite, select_invite, accept_invite, provision_owner,
}
use saas_forge.Tenant.Repository.Owned.{in_tx_rollback}
use saas_forge.Tenant.Repository.Accept.{
  IsOpen, after_accept, accept_invite-ok, accept_invite_open, accept_invite_once,
}
use saas_forge.Tenant.Repository.Provision.{IsProvisioned, provision_owner-IsProvisioned}
use saas_forge.Tenant.Service.{
  Ports, active_tenant, require_live_owner_or_admin, guard_owner_role, change_member_role,
  evict_member,
}
use saas_forge.Tenant.Service.Requests.{Setting, Request, serve, serve_all, answer}
use saas_forge.Tenant.Service.Guards.{evict_member-owner, change_member_role-owner}
use saas_forge.Tenant.Service.Owned.{serve_all-IsOwned}
use saas_forge.Tenant.Service.Atomic.{serve-error_unchanged, change_member_role-lookup_too_late}

abbrev member : ℕ → String → Membership
member user_id role = record { user_id = user_id; tenant_id = 1; role = role; created_at = 10 }

abbrev an_invite : Invite
an_invite = record {
  id = 50;
  tenant_id = 1;
  email_lookup_hash = 900;
  email_encrypted = "e";
  email_encrypted_nonce = "n";
  role = "viewer";
  token_hash = "hash";
  invited_by = 2;
  created_at = 10;
  expires_at = 1000;
  accepted_at = none;
  accepted_by = none;
  revoked_at = none;
  revoked_by = none;
}

abbrev user : ℕ → ℕ → User
user id hash = record { id = id; email_lookup_hash = hash; status = "active" }

abbrev a_store : Store
a_store = record {
  tenants = record { id = 1; slug = "acme"; name = "Acme"; plan = "free"; created_at = 5 } ∷ [];
  memberships = member 1 "owner" ∷ member 2 "admin" ∷ member 3 "editor" ∷ [];
  invites = an_invite ∷ [];
  users = user 1 901 ∷ user 2 902 ∷ user 3 903 ∷ user 4 900 ∷ [];
  plans = "free" ∷ "pro" ∷ [];
}

abbrev a_world : World
a_world = record { store = a_store; calls = 0; evictions = [] }

abbrev never : ℕ → Bool
never n = false

abbrev caller : ℕ → String → Subject
caller id role = record {
  user_id = id;
  roles = [];
  tenant_id = "acme";
  tenant_role = role;
  region = "eu";
  mfa_verified = true;
  public_delivery = false;
  preview_entry_id = none;
  kind = human;
  agent_id = none;
  principal_id = none;
  allowed_types = none;
  credential_id = none;
}

abbrev some_ports : Ports
some_ports = record {
  authorize = λ ctx input. ok tt;
  index = λ s. ok 900;
  encrypt = λ s. ok ("e", "n");
  normalize_email = λ s. s;
  is_email = λ s. true;
  new_token = ok "token";
  hash_token = λ s. if s == "token" then "hash" else "other";
  new_id = 51;
  email_by_id = λ u. ok "a@example.test";
}

abbrev by : ℕ → String → Setting
by id role = record { ports = some_ports; fails = never; now = 20; ctx = some (caller id role) }

a_store-IsOwned : IsOwned 1 a_store
unfolding owner_count
a_store-IsOwned = record { keyed = (refl, (refl, (refl, tt))); owned = omega arith }

abbrev some_requests : List (Setting × Request)
some_requests =
    (by 2 "admin", Request.evict 1)
    ∷ (by 1 "owner", Request.change_role 2 "owner")
    ∷ (by 2 "owner", Request.evict 1)
    ∷ (by 4 "", Request.accept "token")
    ∷ []

serve_all-IsOwned_example : IsOwned 1 (serve_all some_requests a_world).store
serve_all-IsOwned_example = serve_all-IsOwned 1 some_requests a_world a_store-IsOwned

-- writes, and then refuses
abbrev refused : Db (Unit {0})
refused w = (
  err Err.last_owner,
  record w { store = record w.store { memberships = [] }; calls = w.calls + 1 },
)

in_tx_rollback_example : (in_tx never refused a_world).1.store ≡ a_store
unfolding in_tx
in_tx_rollback_example = in_tx_rollback never 20 refused a_world refl

abbrev accepted : AcceptedInvite
accepted = record { tenant_slug = "acme"; tenant_name = "Acme"; role = "viewer" }

accept_invite-ok_example :
    (row : InviteRow) × (select_invite "hash" 4 a_store ≡ some row)
    × IsOpen 20 4 a_store row
    × (accepted.role ≡ row.invite.role)
    × ((accept_invite never 20 "hash" 4 a_world).1.store ≡ after_accept 20 4 row a_store)
unfolding accept_invite in_tx valid_role
accept_invite-ok_example = accept_invite-ok never 20 "hash" 4 a_world accepted refl

abbrev a_row : InviteRow
a_row = record {
  invite = an_invite;
  tenant = record { id = 1; slug = "acme"; name = "Acme"; plan = "free"; created_at = 5 };
  email_match = true;
  inviter_ok = true;
}

a_row-IsOpen : IsOpen 20 4 a_store a_row
a_row-IsOpen = record {
  not_accepted = refl;
  not_revoked = refl;
  in_time = omega arith;
  inviter_ok = refl;
  email_match = refl;
  new_member = refl;
}

accept_invite_open_example : (accept_invite (λ _. false) 20 "hash" 4 a_world).0 ≡ ok accepted
unfolding valid_role
accept_invite_open_example = accept_invite_open 20 "hash" 4 a_world a_row refl refl a_row-IsOpen

accept_invite_once_example :
    (accept_invite never 30 "hash" 4 (accept_invite never 20 "hash" 4 a_world).1).0 ≢ ok accepted
unfolding accept_invite in_tx valid_role
accept_invite_once_example =
    accept_invite_once never never 20 30 "hash" 4 4 a_world
      (accept_invite never 20 "hash" 4 a_world).1 accepted accepted refl refl

abbrev slugs : ℕ → Result String
slugs n = elim n [ zero ↦ ok "acme" | suc _ ↦ ok "acme-2" ]

provision_owner-IsProvisioned_example :
    IsProvisioned never 20 slugs
      (λ n. suc (suc n))
      4
      a_store
      (provision_owner never 20 slugs (λ n. suc (suc n)) 4 a_world)
provision_owner-IsProvisioned_example =
    provision_owner-IsProvisioned never 20 slugs (λ n. suc (suc n)) 4 a_world

serve-error_unchanged_example : (serve (by 2 "admin") (Request.evict 1) a_world).store ≡ a_store
unfolding membership_role answer evict_member active_tenant require_live_owner_or_admin
    guard_owner_role
serve-error_unchanged_example =
    serve-error_unchanged (by 2 "admin") (Request.evict 1) a_world Err.cannot_assign_owner refl refl

change_member_role-lookup_too_late_example :
    (change_member_role
      (record some_ports { email_by_id = λ u. err Err.internal })
      never
      20
      (some (caller 1 "owner"))
      3
      "viewer"
      a_world).1.store
    ≡ (change_member_role some_ports never 20 (some (caller 1 "owner")) 3 "viewer" a_world).1.store
change_member_role-lookup_too_late_example =
    change_member_role-lookup_too_late some_ports never 20 (some (caller 1 "owner")) 3 "viewer"
      (λ u. err Err.internal) a_world

evict_member-owner_example :
    (evict_member some_ports never 20 (some (caller 2 "admin")) 1 a_world).0 ≢ ok tt
evict_member-owner_example =
    evict_member-owner some_ports never 20 (caller 2 "admin") 1 a_world refl refl

change_member_role-owner_example :
    (change_member_role some_ports never 20 (some (caller 2 "admin")) 1 "editor" a_world).0
    ≢ ok (record { user_id = 1; email = "a@example.test"; role = "editor"; joined_at = 10 })
change_member_role-owner_example =
    change_member_role-owner some_ports never 20 (caller 2 "admin") 1 "editor"
      (record { user_id = 1; email = "a@example.test"; role = "editor"; joined_at = 10 }) a_world
      refl (inl refl)
