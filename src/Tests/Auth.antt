-- ===== src/Tests/Auth.antt =====
-- One user with one tenant, who signs in, signs out and comes back with the old token.
use saas_forge.Base.{
  ℕ, ◌+◌, String, Bool, ◌≡◌, ◌≢◌, refl, true, false, [], ◌∷◌, ◌==◌, string_eq, none,
}
use saas_forge.Errors.{ok}
use saas_forge.Effects.{Run}
use saas_forge.Tenant.Roles.{valid_role}
use saas_forge.Auth.Store.{Store}
use saas_forge.Auth.Tokens.{Ports, TokenResponse, LoginInput}
use saas_forge.Auth.Service.{log_out, refresh_tokens}
use saas_forge.Auth.Requests.{to_sign_in, serve, serve_all}
use saas_forge.Auth.Live.{IsLive}
use saas_forge.Auth.LogOut.{log_out-refresh_tokens}
use saas_forge.Auth.Served.{serve-IsLive}

abbrev ports : Ports
ports = record {
  is_valid_input = λ input. true;
  normalize_email = λ email. email;
  index = λ email. ok email;
  verifies = λ stored given. stored == given;
  sign = λ claims now. ok claims.tenant_role;
  draw = λ n. ok "drawn";
  digest = λ token. token;
  clock = λ n. 100 + n;
  refresh_ttl = 3600;
  before = λ a b. true;
}

abbrev never : ℕ → Bool
never n = false

abbrev signed_in : Run Store
signed_in = record {
  store = record {
    users = record { id = 7; email_lookup_hash = "ann"; status = "active" } ∷ [];
    credentials = record { user_id = 7; password_hash = "secret"; last_login = none } ∷ [];
    refresh_tokens =
        record {
          user_id = 7;
          token_hash = "old";
          expires_at = 500;
          tenant_id = "acme";
          revoked_at = none;
        }
        ∷ [];
    memberships =
        record { user_id = 7; slug = "acme"; name = "Acme"; role = "editor"; created_at = 1 } ∷ [];
    user_roles = [];
    audit_log = [];
  };
  calls = 0;
}

abbrev the_input : LoginInput
the_input = record { email = "ann"; password = "secret" }

abbrev the_tokens : TokenResponse
the_tokens = record {
  access_token = "editor";
  refresh_token = "drawn";
  user_id = 7;
  tenant_id = "acme";
  available_tenants = [];
}

-- The token is good for a pair before the logout.
refresh_test : (refresh_tokens ports never "old" signed_in).0 ≡ ok the_tokens
unfolding refresh_tokens valid_role
refresh_test = refl

serve-IsLive_example : IsLive ports signed_in.store the_tokens
unfolding serve valid_role
serve-IsLive_example =
    serve-IsLive ports never (to_sign_in the_input) signed_in the_tokens
      (serve ports never (to_sign_in the_input) signed_in).1 refl

drawn_is : (drawn : String) → ok "drawn" ≡ ok drawn → drawn ≡ "drawn"
drawn_is drawn h = cc

drawn_differs : (drawn : String) → ok "drawn" ≡ ok drawn → (drawn == "old") ≡ false
drawn_differs drawn is_drawn = rw (drawn_is drawn is_drawn) refl

log_out-refresh_tokens_example :
    refresh_tokens ports never "old"
      (serve_all ports never (to_sign_in the_input ∷ []) (log_out ports never "old" signed_in).1)
    ≢ (ok the_tokens, signed_in)
unfolding log_out
log_out-refresh_tokens_example =
    log_out-refresh_tokens ports never "old" (to_sign_in the_input ∷ []) signed_in
      (log_out ports never "old" signed_in).1 tt the_tokens signed_in
      (λ n drawn is_drawn. drawn_differs drawn is_drawn) refl
