-- ===== src/Auth/Service.antt =====
-- internal/auth/service/auth_service.go: Login, Refresh, SwitchTenant and Logout.
use saas_forge.Base.{
  ℕ, String, Bool, ◌==◌, nat_eq, string_eq, not, if◌then◌else◌, Option, some, none,
}
use saas_forge.Errors.{err, invalid_credentials, invalid_token, refresh_revoked, validation_failed}
use saas_forge.Effects.{
  Db, ◌>>=◌, ◌>>◌, return, refuse_if, given, or_else, ignoring, ask, ask_with, write_with,
}
use saas_forge.Auth.Store.{
  Store, login, refresh, logout, tenant_switch, user_id_by_email_lookup, get_password_hash,
  update_last_login, revoke_refresh_token, find_valid_refresh, memberships_for_user,
}
use saas_forge.Auth.Tokens.{
  LoginInput, TokenResponse, Ports, login_code, refresh_code, switch_code, switch_error, first_slug,
  with_options, internal_code, record_event, report, issue_tokens,
}

module _ (p : Ports) (fails : ℕ → Bool) where
  -- no row, or a password that does not match
  unfoldable pub deny : {A : Type 0} → Db Store A
  unfolding report
  deny = report p fails login none "AUTH_INVALID_CREDENTIALS" invalid_credentials

  abbrev pub found_or_deny : {A : Type 0} → Option A → Db Store A
  found_or_deny none = deny
  found_or_deny (some a) = return a

  unfoldable pub password_checked : Bool → Db Store (Unit {0})
  unfolding deny
  password_checked matches = if matches then return tt else deny

  -- the end of `Login`, once the password is known to match
  unfoldable pub enter : ℕ → Db Store TokenResponse
  unfolding issue_tokens record_event report update_last_login memberships_for_user
  enter user = do
    ignoring (write_with fails (λ n. update_last_login user (p.clock n)))
    memberships ←
        or_else (ask fails (memberships_for_user p.before user))
          (report p fails login (some user) internal_code)
    tokens ←
        or_else (issue_tokens p fails user (first_slug memberships))
          (λ e. report p fails login (some user) (login_code e) e)
    record_event p fails login (some user) none
    return (with_options memberships tokens)

  -- `Login`
  unfoldable pub sign_in : LoginInput → Db Store TokenResponse
  unfolding enter password_checked deny user_id_by_email_lookup get_password_hash
  sign_in input = do
    refuse_if (not (p.is_valid_input input)) validation_failed
    lookup ← given (p.index (p.normalize_email input.email))
    found ← ask fails (user_id_by_email_lookup lookup)
    user ← found_or_deny found
    stored ← ask fails (get_password_hash user)
    hash ← found_or_deny stored
    password_checked (p.verifies hash input.password)
    enter user

  -- the tenant of a refresh token, the oldest membership if it names none
  unfoldable pub refreshed_slug : ℕ → String → Db Store String
  unfolding report memberships_for_user
  refreshed_slug user slug = if not (slug == "") then return slug else (do
    memberships ←
        or_else (ask fails (memberships_for_user p.before user))
          (report p fails refresh (some user) internal_code)
    return (first_slug memberships))

  unfoldable pub rotate : String → ℕ × String → Db Store TokenResponse
  unfolding refreshed_slug revoke_refresh_token issue_tokens report record_event
  rotate hash (user, bound) = do
    slug ← refreshed_slug user bound
    ignoring (write_with fails (λ n. revoke_refresh_token hash (p.clock n)))
    tokens ←
        or_else (issue_tokens p fails user slug)
          (λ e. report p fails refresh (some user) (refresh_code e) e)
    record_event p fails refresh (some user) none
    return tokens

  abbrev pub rotate_found : String → Option (ℕ × String) → Db Store TokenResponse
  rotate_found hash none = report p fails refresh none "AUTH_REFRESH_REVOKED" refresh_revoked
  rotate_found hash (some row) = rotate hash row

  -- `Refresh`
  unfoldable pub refresh_tokens : String → Db Store TokenResponse
  unfolding rotate report find_valid_refresh
  refresh_tokens token =
      if token == "" then report p fails refresh none "AUTH_INVALID_TOKEN" invalid_token else (do
        found ← ask_with fails (λ n. find_valid_refresh (p.digest token) (p.clock n))
        rotate_found (p.digest token) found)

  unfoldable pub switch_tenant : ℕ → String → Db Store TokenResponse
  unfolding issue_tokens report record_event
  switch_tenant user slug = if slug == "" then given (err validation_failed) else (do
    tokens ←
        or_else (issue_tokens p fails user slug)
          (λ e. report p fails tenant_switch (some user) (switch_code e) (switch_error e))
    record_event p fails tenant_switch (some user) none
    return tokens)

  unfoldable pub log_out : String → Db Store (Unit {0})
  unfolding revoke_refresh_token report record_event
  log_out token = if token == "" then return tt else (do
    or_else (write_with fails (λ n. revoke_refresh_token (p.digest token) (p.clock n)))
        (report p fails logout none internal_code)
    record_event p fails logout none none)
