-- ===== src/Auth/Requests.antt =====
-- internal/auth: the requests that the tables of sign-in are changed by.
use saas_forge.Base.{ℕ, String, Bool, List, [], ◌∷◌, nat_eq, string_eq, Option, some, none}
use saas_forge.Effects.{Run, Db, ◌>>=◌, ◌>>◌, return, write_with}
use saas_forge.Auth.Store.{revoke_all_for_user_in_tenant, revoke_all_for_user, Store}
use saas_forge.Auth.Tokens.{LoginInput, TokenResponse, Ports}
use saas_forge.Auth.Service.{sign_in, refresh_tokens, switch_tenant, log_out}

-- A request to the service, or a revocation that another service orders.
pub data Request : Type 0 where
  to_sign_in : LoginInput → Request
  to_refresh : String → Request
  to_switch : ℕ → String → Request
  to_log_out : String → Request
  to_revoke_all : ℕ → Request
  to_revoke_in_tenant : ℕ → String → Request

module _ (p : Ports) (fails : ℕ → Bool) where
  -- The tokens of the answer, if it carries any.
  unfoldable pub serve : Request → Db Store (Option TokenResponse)
  unfolding sign_in refresh_tokens switch_tenant log_out revoke_all_for_user
      revoke_all_for_user_in_tenant
  serve (to_sign_in input) = do tokens ← sign_in p fails input; return (some tokens)
  serve (to_refresh token) = do tokens ← refresh_tokens p fails token; return (some tokens)
  serve (to_switch user slug) = do tokens ← switch_tenant p fails user slug; return (some tokens)
  serve (to_log_out token) = do log_out p fails token; return none
  serve (to_revoke_all user) = do
    write_with fails (λ n. revoke_all_for_user user (p.clock n))
    return none
  serve (to_revoke_in_tenant user slug) = do
    write_with fails (λ n. revoke_all_for_user_in_tenant user slug (p.clock n))
    return none

  unfoldable pub serve_all : List Request → Run Store → Run Store
  unfolding serve
  serve_all [] r = r
  serve_all (q ∷ qs) r = serve_all qs (serve q r).1
