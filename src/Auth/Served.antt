-- ===== src/Auth/Served.antt =====
-- Every answer of the service that carries tokens.
use saas_forge.Base.{string_eq, ℕ, String, Bool, ◌≡◌, refl, sym, ◌==◌, Option, some, none, arith}
use mathlib.Core.Path.{subst}
use saas_forge.Errors.{Err, ok}
use saas_forge.Effects.{ask_with, Run, Db, ◌>>=◌, return, or_else, ask, write_with, ignoring}
use saas_forge.Effects.Leaves.{
  Leaves-ask_with, Leaves-ignoring, Leaves, Leaves-write, Leaves-write_with, leaves_rules,
}
use saas_forge.Effects.Answers.{bind-ok, then-ok, return-ok}
use saas_forge.Auth.Store.{
  find_valid_refresh, memberships_for_user, Store, EventType, login, refresh, tenant_switch,
  update_last_login, revoke_refresh_token,
}
use saas_forge.Auth.Tokens.{
  internal_code, switch_error, login_code, first_slug, switch_code, refresh_code, Ports,
  TokenResponse, LoginInput, record_event, report, with_options,
}
use saas_forge.Auth.Service.{
  log_out, sign_in, enter, deny, password_checked, found_or_deny, refresh_tokens, refreshed_slug,
  rotate, rotate_found, switch_tenant,
}
use saas_forge.Auth.Requests.{
  to_revoke_in_tenant, to_revoke_all, to_log_out, to_switch, to_refresh, to_sign_in, Request, serve,
}
use saas_forge.Auth.Live.{IsLive}
use saas_forge.Auth.Issues.{
  directory, Issues, Issues-bind, Issues-then, Issues-if, with_options-IsLive, Issues-report,
  Issues-recorded,
}

some_injective : {A : Type 0} (a b : A) → some a ≡ some b → a ≡ b
some_injective a b h = cc

module _ (p : Ports) (fails : ℕ → Bool) where
  event-Leaves :
      (event : EventType) (user : Option ℕ) (code : Option String)
      → Leaves directory (record_event p fails event user code)
  unfolding record_event
  event-Leaves event user code = search (leaves_rules, Leaves-write)

  report-Leaves :
      {A : Type 0} (event : EventType) (user : Option ℕ) (code : String) (e : Err)
      → Leaves directory (report p fails {A = A} event user code e)
  unfolding report
  report-Leaves event user code e = search (leaves_rules, event-Leaves)

  found-Leaves : {A : Type 0} (o : Option A) → Leaves directory (found_or_deny p fails o)
  unfolding deny
  found-Leaves none = search (report-Leaves)
  found-Leaves (some a) = search leaves_rules

  checked-Leaves : (matches : Bool) → Leaves directory (password_checked p fails matches)
  unfolding password_checked deny
  checked-Leaves matches = search (leaves_rules, report-Leaves)

  seen-Leaves :
      (user : ℕ) → Leaves directory (write_with fails (λ n. update_last_login user (p.clock n)))
  unfolding update_last_login
  seen-Leaves user = Leaves-write_with fails _ (λ n s. refl)

  revoke-Leaves :
      (hash : String)
      → Leaves directory (write_with fails (λ n. revoke_refresh_token hash (p.clock n)))
  unfolding revoke_refresh_token
  revoke-Leaves hash = Leaves-write_with fails _ (λ n s. refl)

  slug-Leaves : (user : ℕ) (slug : String) → Leaves directory (refreshed_slug p fails user slug)
  unfolding refreshed_slug
  slug-Leaves user slug = search (leaves_rules, report-Leaves) depth 12

  members-Leaves :
      (user : ℕ) (event : EventType) (code : String)
      → Leaves directory (
          or_else
            (ask fails (memberships_for_user p.before user))
            (report p fails event (some user) code))
  members-Leaves user event code = search (leaves_rules, report-Leaves)

  enter-Issues : (user : ℕ) → Issues p (enter p fails user)
  unfolding enter
  enter-Issues user =
      Issues-then p (ignoring (write_with fails (λ n. update_last_login user (p.clock n)))) _
        (Leaves-ignoring _ (seen-Leaves user))
        (Issues-bind p _ _ (members-Leaves user login internal_code) (λ ms.
          Issues-recorded p fails user (first_slug ms) login (some user) (with_options ms)
            login_code (λ e. e) (with_options-IsLive p ms)))

  sign_in-Issues : (input : LoginInput) → Issues p (sign_in p fails input)
  unfolding sign_in
  sign_in-Issues input =
      search
        (Issues-then p, Issues-bind p, enter-Issues, leaves_rules, found-Leaves, checked-Leaves)
        depth 24

  rotate-Issues : (hash : String) (row : ℕ × String) → Issues p (rotate p fails hash row)
  unfolding rotate
  rotate-Issues hash (user, bound) = Issues-bind p _ _ (slug-Leaves user bound) (λ slug.
      Issues-then p (ignoring (write_with fails (λ n. revoke_refresh_token hash (p.clock n)))) _
        (Leaves-ignoring _ (revoke-Leaves hash))
        (Issues-recorded p fails user slug refresh (some user) (λ t. t) refresh_code (λ e. e)
          (λ s t live. live)))

  rotate_found-Issues :
      (hash : String) (found : Option (ℕ × String)) → Issues p (rotate_found p fails hash found)
  rotate_found-Issues hash none =
      Issues-report p fails refresh none "AUTH_REFRESH_REVOKED" Err.refresh_revoked
  rotate_found-Issues hash (some row) = rotate-Issues hash row

  refresh-Issues : (token : String) → Issues p (refresh_tokens p fails token)
  unfolding refresh_tokens
  refresh-Issues token =
      let look = λ (n : ℕ). find_valid_refresh (p.digest token) (p.clock n) in
      Issues-if p (token == "") _ _
        (Issues-report p fails refresh none "AUTH_INVALID_TOKEN" Err.invalid_token)
        (Issues-bind p (ask_with fails look) _ (Leaves-ask_with fails look)
          (rotate_found-Issues (p.digest token)))

  switch-Issues : (user : ℕ) (slug : String) → Issues p (switch_tenant p fails user slug)
  unfolding switch_tenant
  switch-Issues user slug =
      Issues-if p (slug == "") _ _ (record { live = λ r t end h. cc })
        (Issues-recorded p fails user slug tenant_switch (some user) (λ t. t) switch_code
          switch_error (λ s t live. live))

  some-IsLive :
      (m : Db Store TokenResponse)
      → Issues p m
      → (r : Run Store) (t : TokenResponse) (end : Run Store)
      → (m >>= λ tokens. return (some tokens)) r ≡ (ok (some t), end)
      → IsLive p r.store t
  some-IsLive m issues r t end h =
      let (tokens, between, issued, last) = bind-ok m _ r (some t) end h in
      let (is_t, _) = return-ok (some tokens) between (some t) end last in
      subst (IsLive p r.store) (some_injective _ _ (sym is_t)) (issues.live r tokens between issued)

  -- Whatever calls fail, a request that is answered with tokens comes from a user whose status is
  -- active at the time; the access token is signed for this user, the tenant of the answer, the
  -- platform roles of the user, and the role of the user in the tenant, which is a valid one.
  pub serve-IsLive :
      (q : Request) (r : Run Store) (t : TokenResponse) (end : Run Store)
      → serve p fails q r ≡ (ok (some t), end)
      → IsLive p r.store t
  unfolding serve
  serve-IsLive (to_sign_in input) r t end h = some-IsLive _ (sign_in-Issues input) r t end h
  serve-IsLive (to_refresh token) r t end h = some-IsLive _ (refresh-Issues token) r t end h
  serve-IsLive (to_switch user slug) r t end h = some-IsLive _ (switch-Issues user slug) r t end h
  serve-IsLive (to_log_out token) r t end h =
      ground (arith, then-ok (log_out p fails token) (return none) r (some t) end h)
  serve-IsLive (to_revoke_all user) r t end h = ground arith
  serve-IsLive (to_revoke_in_tenant user slug) r t end h = ground arith
