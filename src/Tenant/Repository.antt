-- ===== src/Tenant/Repository.antt =====
-- internal/tenant/repository/postgres_repository.go: each method as one database action.
pub mod Owned
pub mod Accept
pub mod Provision
use saas_forge.Base.{
  zero, suc, ℕ, String, Bool, [], ◌∷◌, ◌++◌, ◌||◌, ◌&&◌, ◌==◌, string_eq, nat_eq, not,
  if◌then◌else◌, Option, some, none, leb, ltb, is_some, contains,
}
use saas_forge.Errors.{err, Result, Err, ok}
use saas_forge.Tenant.Roles.{owner, valid_role, invitable_role}
use saas_forge.Tenant.Tables.{
  tenant_clashes, Tenant, Membership, Invite, Store, find_member, owner_count, set_role,
  delete_member, tenant_by_slug, tenant_by_id, role_in_slug, invite_by_token, invite_by_id,
  live_user, is_manager, mark_accepted, mark_revoked, invite_clashes, set_plan,
}
use saas_forge.Tenant.Db.{Db, ◌>>=◌, ◌>>◌, pure, raise_if, or_raise, call, query, exec, in_tx}

-- `domain.Member`, before the service adds the address
pub record Member : Type 0 where
  pub user_id : ℕ
  pub role : String
  pub joined_at : ℕ

pub record AcceptedInvite : Type 0 where
  pub tenant_slug : String
  pub tenant_name : String
  pub role : String

abbrev pub slug_attempts : ℕ
slug_attempts = 5

-- a row of the query of `AcceptInvite`
pub record InviteRow : Type 0 where
  pub invite : Invite
  pub tenant : Tenant
  pub email_match : Bool
  pub inviter_ok : Bool

abbrev pub select_invite : String → ℕ → Store → Option InviteRow
select_invite token_hash user_id s = elim (invite_by_token token_hash s.invites) [
  | none ↦ none
  | some i ↦ elim (tenant_by_id i.tenant_id s.tenants) [
    | none ↦ none
    | some t ↦ elim (live_user user_id s.users) [
      | none ↦ none
      | some u ↦ some (record {
        invite = i;
        tenant = t;
        email_match = i.email_lookup_hash == u.email_lookup_hash;
        inviter_ok = is_manager i.tenant_id i.invited_by s.memberships;
      })
    ]
  ]
]

abbrev pub add_membership : Membership → Store → Store
add_membership m s = record s { memberships = s.memberships ++ (m ∷ []) }

-- `fails` is the database's, `now` the clock that both Go and the database read in a request.
module _ (fails : ℕ → Bool) (now : ℕ) where
  unfoldable pub membership_role : ℕ → String → Db String
  membership_role user_id slug = do
    found ← query fails (λ s. role_in_slug s.tenants user_id slug s.memberships)
    or_raise found Err.not_found

  unfoldable pub find_tenant : String → Db Tenant
  find_tenant slug = do
    found ← query fails (λ s. tenant_by_slug slug s.tenants)
    or_raise found Err.not_found

  unfoldable pub create_invite : Invite → Db (Unit {0})
  create_invite inv = do
    clash ←
        query fails
          (λ s. invite_clashes inv.id inv.token_hash s.invites || not (invitable_role inv.role))
    raise_if clash Err.internal
    λ w. (ok tt, record w { store = record w.store { invites = w.store.invites ++ (inv ∷ []) } })

  accept_body : String → ℕ → Db AcceptedInvite
  accept_body token_hash user_id = do
    found ← query fails (select_invite token_hash user_id)
    row ← or_raise found Err.invite_not_found
    raise_if (is_some row.invite.accepted_at) Err.invite_used
    raise_if (is_some row.invite.revoked_at) Err.invite_revoked
    raise_if (ltb row.invite.expires_at now) Err.invite_expired
    raise_if (not row.inviter_ok) Err.invite_inviter_revoked
    raise_if (not row.email_match) Err.invite_email_mismatch
    present ← query fails (λ s. is_some (find_member row.invite.tenant_id user_id s.memberships))
    raise_if (not (valid_role row.invite.role)) Err.internal
    raise_if present Err.already_member
    λ w. (
      ok tt,
      record w {
        store =
            add_membership
              (record {
                user_id = user_id;
                tenant_id = row.invite.tenant_id;
                role = row.invite.role;
                created_at = now;
              })
              w.store;
      },
    )
    exec fails (λ s. record s { invites = mark_accepted row.invite.id now user_id s.invites })
    pure (record {
      tenant_slug = row.tenant.slug;
      tenant_name = row.tenant.name;
      role = row.invite.role;
    })

  unfoldable pub accept_invite : String → ℕ → Db AcceptedInvite
  unfolding accept_body in_tx
  accept_invite token_hash user_id = in_tx fails (accept_body token_hash user_id)

  lock_owners_ordered : ℕ → Db ℕ
  lock_owners_ordered tenant_id = query fails (λ s. owner_count tenant_id s.memberships)

  update_body : ℕ → ℕ → String → Db Member
  unfolding lock_owners_ordered
  update_body tenant_id target new_role = do
    owners ← lock_owners_ordered tenant_id
    found ← query fails (λ s. find_member tenant_id target s.memberships)
    current ← or_raise found Err.not_found
    raise_if (current.role == owner && not (new_role == owner) && leb owners 1) Err.last_owner
    call fails
    raise_if (not (valid_role new_role)) Err.internal
    λ w. (
      ok tt,
      record w {
        store = record w.store {
          memberships = set_role tenant_id target new_role w.store.memberships;
        };
      },
    )
    pure (record { user_id = target; role = new_role; joined_at = current.created_at })

  unfoldable pub update_member_role : ℕ → ℕ → String → Db Member
  unfolding update_body in_tx
  update_member_role tenant_id target new_role = in_tx fails (update_body tenant_id target new_role)

  remove_body : ℕ → ℕ → Db (Unit {0})
  unfolding lock_owners_ordered
  remove_body tenant_id target = do
    owners ← lock_owners_ordered tenant_id
    found ← query fails (λ s. find_member tenant_id target s.memberships)
    current ← or_raise found Err.not_found
    raise_if (current.role == owner && leb owners 1) Err.last_owner
    exec fails (λ s. record s { memberships = delete_member tenant_id target s.memberships })

  unfoldable pub remove_member : ℕ → ℕ → Db (Unit {0})
  unfolding remove_body in_tx
  remove_member tenant_id target = in_tx fails (remove_body tenant_id target)

  revoke_body : ℕ → ℕ → ℕ → Db (Unit {0})
  revoke_body tenant_id invite_id revoked_by = do
    found ← query fails (λ s. invite_by_id invite_id tenant_id s.invites)
    invite ← or_raise found Err.invite_not_found
    raise_if (is_some invite.accepted_at) Err.invite_used
    if is_some invite.revoked_at
        then pure tt
        else exec fails
            (λ s. record s { invites = mark_revoked invite_id now revoked_by s.invites })

  unfoldable pub revoke_invite : ℕ → ℕ → ℕ → Db (Unit {0})
  unfolding revoke_body in_tx
  revoke_invite tenant_id invite_id revoked_by =
      in_tx fails (revoke_body tenant_id invite_id revoked_by)

  unfoldable pub set_tenant_plan : String → String → Db (Unit {0})
  set_tenant_plan slug plan = do
    known ← query fails (λ s. contains s.plans plan)
    raise_if (not known) Err.plan_unknown
    found ← query fails (λ s. tenant_by_slug slug s.tenants)
    raise_if (not (is_some found)) Err.not_found
    λ w. (
      ok tt,
      record w { store = record w.store { tenants = set_plan slug plan w.store.tenants } },
    )

  -- the savepoint of one attempt of `ProvisionOwnerTx`; `id` is the key that the database draws
  provision_body : String → ℕ → ℕ → Db String
  provision_body slug id user_id = do
    clash ← query fails (λ s. tenant_clashes id slug s.tenants)
    raise_if clash Err.slug_taken
    λ w. (
      ok tt,
      record w {
        store = record w.store {
          tenants =
              w.store.tenants
              ++ (record { id = id; slug = slug; name = ""; plan = "free"; created_at = now } ∷ []);
        };
      },
    )
    exec fails (
        add_membership
          (record { user_id = user_id; tenant_id = id; role = owner; created_at = now }))
    pure slug

  abbrev retry : Result String → Db String → Db String
  retry (ok slug) next w = (ok slug, w)
  retry (err Err.slug_taken) next w = next w
  retry (err e) next w = (err e, w)

  -- `slug_fn` is the slug generator, `fresh` the database's key generator, by attempt.
  module _ (slug_fn : ℕ → Result String) (fresh : ℕ → ℕ) where
    -- the loop, on the attempts left and the number of the attempt
    provision_loop : ℕ → ℕ → ℕ → Db String
    unfolding provision_body in_tx
    provision_loop zero attempt user_id w = (err Err.internal, w)
    provision_loop (suc left) attempt user_id w = elim (slug_fn attempt) [
      | err e ↦ (err Err.internal, w)
      | ok slug ↦
          let (r, w') = in_tx fails (provision_body slug (fresh attempt) user_id) w in
          retry r (provision_loop left (suc attempt) user_id) w'
    ]

    unfoldable pub provision_owner : ℕ → Db String
    unfolding provision_loop
    provision_owner user_id = provision_loop slug_attempts 0 user_id
