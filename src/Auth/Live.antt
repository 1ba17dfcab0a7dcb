-- ===== src/Auth/Live.antt =====
-- What tokens are issued for: an active user, with the tenant role of the moment.
use saas_forge.Base.{
  ◌+◌, ℕ, String, Bool, true, ◌≡◌, refl, sym, ◌∙◌, ap, ◌==◌, not, some, arith, string_eq,
  Bool-cases, inl, inr, if◌then◌else◌,
}
use mathlib.Core.Path.{subst}
use saas_forge.Errors.{Err, Result, ok, membership_revoked, suspended}
use saas_forge.Effects.{
  Run, ◌>>=◌, ◌>>◌, return, refuse_if, need, given_with, ask, ask_with, write_with,
}
use saas_forge.Effects.Answers.{bind-ok, then-ok, find-ok, refuse_if-ok, return-ok, ask-ok}
use saas_forge.Tenant.Roles.{valid_role}
use saas_forge.Auth.Store.{
  Store, user_status_by_id, membership_role, roles_for_user, store_refresh_token,
}
use saas_forge.Auth.Tokens.{
  Ports, AccessClaims, TokenResponse, issue_tokens, hand_out, stored, signed, live_role,
  status_active,
}

-- The role of the user in the tenant, a valid one; none without a tenant.
abbrev pub IsLiveRole : ℕ → String → String → Store → Type 0
IsLiveRole user slug role s =
    if slug == ""
    then role ≡ ""
    else (membership_role user slug s ≡ some role) × (valid_role role ≡ true)

-- The user is active, and the access token is signed for it and the role of the moment.
pub record IsLive (p : Ports) (s : Store) (t : TokenResponse) : Type 0 where
  pub active : user_status_by_id t.user_id s ≡ some status_active
  pub claims : AccessClaims
  -- the instants of the signature and of the look-up of the roles
  pub now : ℕ
  pub looked_up : ℕ
  pub signed_for : p.sign claims now ≡ ok t.access_token
  pub same_user : claims.user_id ≡ t.user_id
  pub same_tenant : claims.tenant_id ≡ t.tenant_id
  pub live_roles : claims.roles ≡ roles_for_user t.user_id looked_up s
  pub live_tenant_role : IsLiveRole t.user_id t.tenant_id claims.tenant_role s

-- the tables that tokens are issued by
abbrev pub IsSameDirectory : Store → Store → Type 0
IsSameDirectory s s' =
    (s.users ≡ s'.users) × (s.memberships ≡ s'.memberships) × (s.user_roles ≡ s'.user_roles)

module _ (p : Ports) where
  -- the same user, tenant and access token
  pub IsLive-same :
      (s s' : Store) (t : TokenResponse) → IsSameDirectory s s' → IsLive p s t → IsLive p s' t
  unfolding user_status_by_id membership_role roles_for_user
  IsLive-same s s' t (users, memberships, roles) live = record {
    active =
        subst (λ us. user_status_by_id t.user_id (record s { users = us }) ≡ some status_active)
          users live.active;
    claims = live.claims;
    now = live.now;
    looked_up = live.looked_up;
    signed_for = live.signed_for;
    same_user = live.same_user;
    same_tenant = live.same_tenant;
    live_roles =
        subst
          (λ rs.
            live.claims.roles
            ≡ roles_for_user t.user_id live.looked_up (record s { user_roles = rs }))
          roles live.live_roles;
    live_tenant_role =
        subst
          (λ ms.
            IsLiveRole t.user_id t.tenant_id live.claims.tenant_role
              (record s { memberships = ms }))
          memberships live.live_tenant_role;
  }

  module _ (fails : ℕ → Bool) where
    live_role-ok :
        (user : ℕ) (slug : String) (r : Run Store) (role : String) (end : Run Store)
        → live_role p fails user slug r ≡ (ok role, end)
        → IsLiveRole user slug role r.store
    unfolding live_role
    live_role-ok user slug r role end h = elim (Bool-cases (slug == "")) [
      | inl none_active ↦ rw none_active (return-ok "" r role end (sym (rw none_active refl) ∙ h)).0
      | inr active ↦
          let check =
            λ (found : String). refuse_if (not (valid_role found)) Err.internal >> return found in
          let opened : live_role p fails user slug r
              ≡ (ask fails (membership_role user slug) >>= λ o. need o membership_revoked >>= check)
                  r =
            rw active refl in
          let (found, r1, is_found, same, rest) =
            find-ok fails (membership_role user slug) membership_revoked check r role end
              (sym opened ∙ h) in
          let (u, r2, checked, last) =
            then-ok (refuse_if (not (valid_role found)) Err.internal) (return found) r1 role end
              rest in
          let (valid, _) = refuse_if-ok (not (valid_role found)) Err.internal r1 u r2 checked in
          let (is_role, _) = return-ok found r2 role end last in
          rw active (is_found ∙ ap some (sym is_role), rw is_role (ground (arith, valid)))
    ]

    hand_out-ok :
        (user : ℕ) (slug access : String) (r : Run Store) (t : TokenResponse) (end : Run Store)
        → hand_out p fails user slug access r ≡ (ok t, end)
        → (access ≡ t.access_token) × (user ≡ t.user_id) × (slug ≡ t.tenant_id)
    unfolding hand_out
    hand_out-ok user slug access r t end h =
        let (fresh, r1, drawn, rest) =
          bind-ok (given_with p.draw) (stored p fails user slug access) r t end h in
        let (u, r2, written, last) =
          then-ok
            (write_with fails
              (λ n. store_refresh_token user (p.digest fresh) (p.clock n + p.refresh_ttl) slug))
            _ r1 t end rest in
        let (is_t, _) = return-ok _ r2 t end last in
        (
          ap (λ (x : TokenResponse). x.access_token) (sym is_t),
          ap (λ (x : TokenResponse). x.user_id) (sym is_t),
          ap (λ (x : TokenResponse). x.tenant_id) (sym is_t),
        )

    -- once the status is known
    active-IsLive :
        (user : ℕ) (slug : String) (s : Store) (r : Run Store) (t : TokenResponse) (end : Run Store)
        → user_status_by_id user s ≡ some status_active
        → r.store ≡ s
        → (do
          roles ← ask_with fails (λ n. roles_for_user user (p.clock n))
          role ← live_role p fails user slug
          access ←
              signed p fails
                (record { user_id = user; roles = roles; tenant_id = slug; tenant_role = role })
          hand_out p fails user slug access)
            r
          ≡ (ok t, end)
        → IsLive p s t
    active-IsLive user slug s r t end active same h =
        let (roles, r1, asked, h1) =
          bind-ok (ask_with fails (λ n. roles_for_user user (p.clock n))) _ r t end h in
        let (role, r2, looked, h2) = bind-ok (live_role p fails user slug) _ r1 t end h1 in
        let claims : AccessClaims = record {
          user_id = user;
          roles = roles;
          tenant_id = slug;
          tenant_role = role;
        } in
        let (access, r3, signed_now, h3) =
          bind-ok (signed p fails claims) (hand_out p fails user slug) r2 t end h2 in
        let (is_roles, same1) =
          ask-ok fails (roles_for_user user (p.clock r.calls)) r roles r1 asked in
        let live = live_role-ok user slug r1 role r2 looked in
        let (is_access, is_user, is_tenant) = hand_out-ok user slug access r3 t end h3 in
        let live_here = subst (IsLiveRole user slug role) (same1 ∙ same) live in
        record {
          active = subst (λ id. user_status_by_id id s ≡ some status_active) is_user active;
          claims = claims;
          now = p.clock r2.calls;
          looked_up = p.clock r.calls;
          signed_for = ap (λ (out : Result String × Run Store). out.0) signed_now ∙ ap ok is_access;
          same_user = is_user;
          same_tenant = is_tenant;
          live_roles =
              subst (λ id. roles ≡ roles_for_user id (p.clock r.calls) s) is_user
                (is_roles ∙ ap (roles_for_user user (p.clock r.calls)) same);
          live_tenant_role =
              subst (λ id. IsLiveRole id t.tenant_id role s) is_user
                (subst (λ tenant. IsLiveRole user tenant role s) is_tenant live_here);
        }

    pub issue_tokens-IsLive :
        (user : ℕ) (slug : String) (r : Run Store) (t : TokenResponse) (end : Run Store)
        → issue_tokens p fails user slug r ≡ (ok t, end)
        → IsLive p r.store t
    unfolding issue_tokens
    issue_tokens-IsLive user slug r t end h =
        let (status, r1, is_status, same, h1) =
          find-ok fails (user_status_by_id user) Err.internal _ r t end h in
        let (u, r2, checked, h2) =
          then-ok (refuse_if (not (status == status_active)) suspended) _ r1 t end h1 in
        let (is_active, same2) =
          refuse_if-ok (not (status == status_active)) suspended r1 u r2 checked in
        let active : status ≡ status_active =
          (string_eq.equal_iff status status_active).0 (ground (arith, is_active)) in
        active-IsLive user slug r.store r2 t end (is_status ∙ ap some active)
          (ap (λ (q : Run Store). q.store) same2 ∙ same) h2
