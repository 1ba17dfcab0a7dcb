-- ===== src/Tenant/Repository/Owned.antt =====
-- The repository's transactions against the owners of a tenant.
use saas_forge.Base.{ℕ, String, ◌≡◌, Bool, arith, Option-cases, inl, inr}
use saas_forge.Errors.{Err, err}
use saas_forge.Tenant.Tables.{find_member}
use saas_forge.Tenant.Db.{World, Db, in_tx}
use saas_forge.Tenant.Owners.{
  add_membership-IsOwned, IsOwned, set_role-IsOwned, delete_member-IsOwned,
}
use saas_forge.Tenant.Repository.{
  Invite, select_invite, create_invite, revoke_invite, accept_invite, update_member_role,
  remove_member,
}

module _ (fails : ℕ → Bool) (now : ℕ) where
  -- A transaction that returns an error leaves the tables as they were.
  pub in_tx_rollback :
      {A : Type 0} (m : Db A) (w : World) {e : Err}
      → (in_tx fails m w).0 ≡ err e
      → (in_tx fails m w).1.store ≡ w.store
  unfolding in_tx
  in_tx_rollback m w failed = ground arith

  -- Whatever fails and whatever role is asked for, changing a member's role keeps the key of the
  -- memberships and leaves every tenant that had an owner with one.
  pub update_member_role-IsOwned :
      (t tenant_id target : ℕ) (new_role : String) (w : World)
      → IsOwned t w.store
      → IsOwned t (update_member_role fails now tenant_id target new_role w).1.store
  unfolding update_member_role
  update_member_role-IsOwned t tenant_id target new_role w h =
      elim (Option-cases (find_member tenant_id target w.store.memberships)) [
        | inl absent ↦ ground arith
        | inr (m, found) ↦
            ground (arith, set_role-IsOwned t tenant_id target new_role w.store m h found)
      ]

  -- Whatever fails, removing a member keeps the key of the memberships and leaves every tenant that
  -- had an owner with one.
  pub remove_member-IsOwned :
      (t tenant_id target : ℕ) (w : World)
      → IsOwned t w.store
      → IsOwned t (remove_member fails now tenant_id target w).1.store
  unfolding remove_member
  remove_member-IsOwned t tenant_id target w h =
      elim (Option-cases (find_member tenant_id target w.store.memberships)) [
        | inl absent ↦ ground arith
        | inr (m, found) ↦
            ground (arith, delete_member-IsOwned t tenant_id target w.store m h found)
      ]

  pub accept_invite-IsOwned :
      (t : ℕ) (token_hash : String) (user_id : ℕ) (w : World)
      → IsOwned t w.store
      → IsOwned t (accept_invite fails now token_hash user_id w).1.store
  unfolding accept_invite
  accept_invite-IsOwned t token_hash user_id w h =
      elim (Option-cases (select_invite token_hash user_id w.store)) [
        | inl absent ↦ ground arith
        | inr (row, found) ↦ ground (
          arith,
          add_membership-IsOwned t w.store
              (record {
                user_id = user_id;
                tenant_id = row.invite.tenant_id;
                role = row.invite.role;
                created_at = now;
              })
              h,
        )
      ]

  pub revoke_invite-IsOwned :
      (t tenant_id invite_id revoked_by : ℕ) (w : World)
      → IsOwned t w.store
      → IsOwned t (revoke_invite fails now tenant_id invite_id revoked_by w).1.store
  unfolding revoke_invite
  revoke_invite-IsOwned t tenant_id invite_id revoked_by w h = ground arith

  pub create_invite-IsOwned :
      (t : ℕ) (inv : Invite) (w : World)
      → IsOwned t w.store
      → IsOwned t (create_invite fails now inv w).1.store
  unfolding create_invite
  create_invite-IsOwned t inv w h = ground arith
