-- ===== src/Tenant/Repository/Accept.antt =====
-- Accepting an invite: when it succeeds, what it writes, and that it succeeds once.
use saas_forge.Base.{
  [], ◌∷◌, ◌∷◌, ◌∙◌, false, ap, List, ◌≢◌, ℕ, ◌≤◌, String, ◌≡◌, Bool, true, some, none, arith,
  Option-cases, inl, inr,
}
use saas_forge.Errors.{ok}
use saas_forge.Tenant.Tables.{Store, Membership, find_member, mark_accepted}
use saas_forge.Tenant.Db.{World}
use saas_forge.Tenant.Repository.{
  Invite, invite_by_token, valid_role, AcceptedInvite, InviteRow, select_invite, add_membership,
  accept_invite,
}

-- The membership that an accepted invite grants.
abbrev pub granted_membership : ℕ → ℕ → InviteRow → Membership
granted_membership now user_id row = record {
  user_id = user_id;
  tenant_id = row.invite.tenant_id;
  role = row.invite.role;
  created_at = now;
}

-- The tables after the invite has been accepted.
abbrev pub after_accept : ℕ → ℕ → InviteRow → Store → Store
after_accept now user_id row s = record (add_membership (granted_membership now user_id row) s) {
  invites = mark_accepted row.invite.id now user_id s.invites;
}

-- The invite of the row may be accepted by the user: it is open and in time, its inviter is still
-- an owner or admin, it was sent to the user's address, and the user is no member yet.
pub record IsOpen (now user_id : ℕ) (s : Store) (row : InviteRow) : Type 0 where
  pub not_accepted : row.invite.accepted_at ≡ none
  pub not_revoked : row.invite.revoked_at ≡ none
  pub in_time : now ≤ row.invite.expires_at
  pub inviter_ok : row.inviter_ok ≡ true
  pub email_match : row.email_match ≡ true
  pub new_member : find_member row.invite.tenant_id user_id s.memberships ≡ none

module _ (fails : ℕ → Bool) (now : ℕ) (token_hash : String) (user_id : ℕ) (w : World) where
  -- An accept that succeeds found an open invite for the token, answers with its role, and has
  -- added exactly the membership that it grants and marked it accepted.
  pub accept_invite-ok :
      (out : AcceptedInvite)
      → (accept_invite fails now token_hash user_id w).0 ≡ ok out
      → (row : InviteRow) × (select_invite token_hash user_id w.store ≡ some row)
        × IsOpen now user_id w.store row
        × (out.role ≡ row.invite.role)
        × ((accept_invite fails now token_hash user_id w).1.store
            ≡ after_accept now user_id row w.store)
  unfolding accept_invite
  accept_invite-ok out h = elim (Option-cases (select_invite token_hash user_id w.store)) [
    | inl absent ↦ absurd (ground arith)
    | inr (row, found) ↦ (row, found, ground arith, ground arith, ground arith)
  ]

-- An invite that is open for the user, of a valid role, is accepted if the database answers every
-- call: the guards refuse nothing else.
pub accept_invite_open :
    (now : ℕ) (token_hash : String) (user_id : ℕ) (w : World) (row : InviteRow)
    → select_invite token_hash user_id w.store ≡ some row
    → valid_role row.invite.role ≡ true
    → IsOpen now user_id w.store row
    → (accept_invite (λ _. false) now token_hash user_id w).0
      ≡ ok (record {
        tenant_slug = row.tenant.slug;
        tenant_name = row.tenant.name;
        role = row.invite.role;
      })
unfolding accept_invite
accept_invite_open now token_hash user_id w row found valid o = ground arith

invite_by_token-mark_accepted :
    (h : String) (now u : ℕ) (is : List Invite) (i : Invite)
    → invite_by_token h is ≡ some i
    → invite_by_token h (mark_accepted i.id now u is)
      ≡ some (record i { accepted_at = some now; accepted_by = some u })
invite_by_token-mark_accepted h now u [] i found = cc
invite_by_token-mark_accepted h now u (x ∷ is) i found =
    ground (arith, invite_by_token-mark_accepted h now u is i)

select_invite-token :
    (h : String) (u : ℕ) (s : Store) (row : InviteRow)
    → select_invite h u s ≡ some row
    → invite_by_token h s.invites ≡ some row.invite
select_invite-token h u s row found = ground arith

-- A token is used once: on the tables that a successful accept has left, no user's accept of the
-- same token succeeds, whatever the clock says then and whatever calls fail.
pub accept_invite_once :
    (fails fails' : ℕ → Bool) (now later : ℕ) (token_hash : String) (user_id user' : ℕ)
    (w w' : World) (out out' : AcceptedInvite)
    → (accept_invite fails now token_hash user_id w).0 ≡ ok out
    → w'.store ≡ (accept_invite fails now token_hash user_id w).1.store
    → (accept_invite fails' later token_hash user' w').0 ≢ ok out'
accept_invite_once fails fails' now later token_hash user_id user' w w' out out' first same second =
    let (row, found, _, _, wrote) = accept_invite-ok fails now token_hash user_id w out first in
    let (row', found', open', _, _) =
      accept_invite-ok fails' later token_hash user' w' out' second in
    let marked =
      invite_by_token-mark_accepted token_hash now user_id w.store.invites row.invite
        (select_invite-token token_hash user_id w.store row found) in
    let again = select_invite-token token_hash user' w'.store row' found' in
    ground (arith, marked, again, open'.not_accepted, ap (λ (s : Store). s.invites) (same ∙ wrote))
