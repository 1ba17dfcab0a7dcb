-- ===== src/Auth/Revoked.antt =====
-- A refresh token that was revoked stays of no use.
use saas_forge.Base.{
  nat_eq, ℕ, String, Bool, false, ◌≡◌, refl, ◌==◌, ◌&&◌, ◌||◌, not, Option, some, none, arith, List,
  [], ◌∷◌, ◌++◌, string_eq, is_some,
}
use saas_forge.Errors.{Err, ok}
use saas_forge.Effects.{Run, Db, write_with}
use saas_forge.Effects.Keeps.{
  Keeps, Keeps-write, Keeps-write_with, Keeps-drawn, Keeps-then, Keeps-return, keeps_rules,
}
use saas_forge.Auth.Store.{
  Store, RefreshToken, EventType, revoke_where, store_refresh_token, revoke_refresh_token,
  revoke_all_for_user, revoke_all_for_user_in_tenant, valid_where, update_last_login,
}
use saas_forge.Auth.Tokens.{Ports, issue_tokens, hand_out, stored, live_role, record_event, report}
use saas_forge.Auth.Service.{
  sign_in, enter, deny, password_checked, found_or_deny, refresh_tokens, refreshed_slug, rotate,
  rotate_found, switch_tenant, log_out,
}
use saas_forge.Auth.Requests.{
  to_revoke_in_tenant, to_revoke_all, to_log_out, to_switch, to_refresh, to_sign_in, Request, serve,
  serve_all,
}

-- Some row of the digest is not revoked.
abbrev pub is_open : String → List RefreshToken → Bool
is_open hash [] = false
is_open hash (t ∷ ts) = t.token_hash == hash && not (is_some t.revoked_at) || is_open hash ts

abbrev pub IsRevoked : String → Store → Type 0
IsRevoked hash s = is_open hash s.refresh_tokens ≡ false

is_open-revoke :
    (hash : String) (test : RefreshToken → Bool) (now : ℕ) (ts : List RefreshToken)
    → is_open hash ts ≡ false
    → is_open hash (revoke_where test now ts) ≡ false
unfolding revoke_where
is_open-revoke hash test now [] h = refl
is_open-revoke hash test now (t ∷ ts) h = ground (arith, is_open-revoke hash test now ts)

pub is_open-revoked :
    (hash : String) (now : ℕ) (ts : List RefreshToken)
    → is_open hash (revoke_where (λ t. t.token_hash == hash) now ts) ≡ false
unfolding revoke_where
is_open-revoked hash now [] = refl
is_open-revoked hash now (t ∷ ts) = ground (arith, is_open-revoked hash now ts)

is_open-append :
    (hash : String) (ts : List RefreshToken) (t : RefreshToken)
    → is_open hash ts ≡ false
    → (t.token_hash == hash) ≡ false
    → is_open hash (ts ++ (t ∷ [])) ≡ false
is_open-append hash [] t h other = ground arith
is_open-append hash (x ∷ ts) t h other = ground (arith, is_open-append hash ts t)

pub valid_where-open :
    (hash : String) (now : ℕ) (ts : List RefreshToken)
    → is_open hash ts ≡ false
    → valid_where hash now ts ≡ none
unfolding valid_where
valid_where-open hash now [] h = refl
valid_where-open hash now (t ∷ ts) h = ground (arith, valid_where-open hash now ts)

-- The random source draws no token with this digest.
module _ (p : Ports) (fails : ℕ → Bool) (hash : String)
    (unlike : (n : ℕ) (drawn : String)
      → p.draw n ≡ ok drawn
      → (p.digest drawn == hash) ≡ false) where
  abbrev pub Stays : {A : Type 0} → Db Store A → Type 0
  Stays m = Keeps (IsRevoked hash) m

  pub event-Keeps :
      (event : EventType) (user : Option ℕ) (code : Option String)
      → Stays (record_event p fails event user code)
  unfolding record_event
  event-Keeps event user code = search (keeps_rules, Keeps-write)

  pub report-Keeps :
      {A : Type 0} (event : EventType) (user : Option ℕ) (code : String) (e : Err)
      → Stays (report p fails {A = A} event user code e)
  unfolding report
  report-Keeps event user code e = search (keeps_rules, event-Keeps)

  role-Keeps : (user : ℕ) (slug : String) → Stays (live_role p fails user slug)
  unfolding live_role
  role-Keeps user slug = search keeps_rules depth 10

  hand_out-Keeps : (user : ℕ) (slug access : String) → Stays (hand_out p fails user slug access)
  unfolding hand_out store_refresh_token
  hand_out-Keeps user slug access =
      Keeps-drawn p.draw (stored p fails user slug access) (λ n drawn is_drawn.
        Keeps-then _ _
          (Keeps-write_with fails _
            (λ m s h. is_open-append hash s.refresh_tokens _ h (unlike n drawn is_drawn)))
          (Keeps-return _))

  issue-Keeps : (user : ℕ) (slug : String) → Stays (issue_tokens p fails user slug)
  unfolding issue_tokens
  issue-Keeps user slug = search (keeps_rules, role-Keeps, hand_out-Keeps) depth 20

  revoke-Keeps :
      (test : RefreshToken → Bool) (g : ℕ → Store → Store)
      → ((n : ℕ) (s : Store)
          → (g n s).refresh_tokens ≡ revoke_where test (p.clock n) s.refresh_tokens)
      → Stays (write_with fails g)
  revoke-Keeps test g is_revoke =
      Keeps-write_with fails g
        (λ n s h. rw (is_revoke n s) (is_open-revoke hash test (p.clock n) s.refresh_tokens h))

  seen-Keeps : (user : ℕ) → Stays (write_with fails (λ n. update_last_login user (p.clock n)))
  unfolding update_last_login
  seen-Keeps user = Keeps-write_with fails _ (λ n s h. h)

  deny-Keeps : {A : Type 0} → Stays (deny p fails {A = A})
  unfolding deny
  deny-Keeps = search (report-Keeps)

  found-Keeps : {A : Type 0} (o : Option A) → Stays (found_or_deny p fails o)
  found-Keeps none = deny-Keeps
  found-Keeps (some a) = search keeps_rules

  enter-Keeps : (user : ℕ) → Stays (enter p fails user)
  unfolding enter
  enter-Keeps user =
      search (keeps_rules, seen-Keeps, issue-Keeps, report-Keeps, event-Keeps) depth 20

  checked-Keeps : (matches : Bool) → Stays (password_checked p fails matches)
  unfolding password_checked
  checked-Keeps matches = search (keeps_rules, deny-Keeps)

  sign_in-Keeps : (input : _) → Stays (sign_in p fails input)
  unfolding sign_in
  sign_in-Keeps input = search (keeps_rules, found-Keeps, checked-Keeps, enter-Keeps) depth 24

  slug-Keeps : (user : ℕ) (slug : String) → Stays (refreshed_slug p fails user slug)
  unfolding refreshed_slug
  slug-Keeps user slug = search (keeps_rules, report-Keeps) depth 12

  revoke_token-Keeps :
      (other : String) → Stays (write_with fails (λ n. revoke_refresh_token other (p.clock n)))
  unfolding revoke_refresh_token
  revoke_token-Keeps other = revoke-Keeps (λ t. t.token_hash == other) _ (λ n s. refl)

  rotate-Keeps : (other : String) (row : ℕ × String) → Stays (rotate p fails other row)
  unfolding rotate
  rotate-Keeps other (user, bound) =
      search (keeps_rules, slug-Keeps, revoke_token-Keeps, issue-Keeps, report-Keeps, event-Keeps)
        depth 20

  rotate_found-Keeps :
      (other : String) (found : Option (ℕ × String)) → Stays (rotate_found p fails other found)
  rotate_found-Keeps other none = search (report-Keeps)
  rotate_found-Keeps other (some row) = rotate-Keeps other row

  refresh-Keeps : (token : String) → Stays (refresh_tokens p fails token)
  unfolding refresh_tokens
  refresh-Keeps token = search (keeps_rules, report-Keeps, rotate_found-Keeps) depth 12

  switch-Keeps : (user : ℕ) (slug : String) → Stays (switch_tenant p fails user slug)
  unfolding switch_tenant
  switch-Keeps user slug = search (keeps_rules, issue-Keeps, report-Keeps, event-Keeps) depth 14

  log_out-Keeps : (token : String) → Stays (log_out p fails token)
  unfolding log_out
  log_out-Keeps token = search (keeps_rules, revoke_token-Keeps, report-Keeps, event-Keeps) depth 14

  serve-Keeps : (q : Request) → Stays (serve p fails q)
  unfolding serve revoke_all_for_user revoke_all_for_user_in_tenant
  serve-Keeps (to_sign_in input) = search (keeps_rules, sign_in-Keeps)
  serve-Keeps (to_refresh token) = search (keeps_rules, refresh-Keeps)
  serve-Keeps (to_switch user slug) = search (keeps_rules, switch-Keeps)
  serve-Keeps (to_log_out token) = search (keeps_rules, log_out-Keeps)
  serve-Keeps (to_revoke_all user) =
      Keeps-then _ _ (revoke-Keeps (λ t. t.user_id == user) _ (λ n s. refl)) (Keeps-return none)
  serve-Keeps (to_revoke_in_tenant user slug) =
      Keeps-then _ _
        (revoke-Keeps (λ t. t.user_id == user && not (t.tenant_id == "") && t.tenant_id == slug) _
          (λ n s. refl))
        (Keeps-return none)

  pub serve_all-Keeps :
      (qs : List Request) (r : Run Store)
      → IsRevoked hash r.store
      → IsRevoked hash (serve_all p fails qs r).store
  unfolding serve_all
  serve_all-Keeps [] r h = h
  serve_all-Keeps (q ∷ qs) r h = serve_all-Keeps qs (serve p fails q r).1 ((serve-Keeps q).kept r h)
