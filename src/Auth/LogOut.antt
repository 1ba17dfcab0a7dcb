-- ===== src/Auth/LogOut.antt =====
-- A refresh token after its logout.
use saas_forge.Base.{
  ℕ, String, Bool, false, ◌≡◌, ◌≢◌, refl, sym, ◌∙◌, ap, ◌==◌, Option, none, List, string_eq,
  Bool-cases, inl, inr,
}
use mathlib.Core.Path.{subst}
use saas_forge.Errors.{Err, Result, ok, err}
use saas_forge.Effects.{◌>>=◌, ◌>>◌, Run, Db, caught, or_else, write_with, ask_with}
use saas_forge.Effects.Answers.{bind-ok, then-ok, write-ok, ask-ok}
use saas_forge.Auth.Store.{
  Store, EventType, refresh, logout, revoke_refresh_token, find_valid_refresh,
}
use saas_forge.Auth.Tokens.{Ports, TokenResponse, record_event, report, internal_code}
use saas_forge.Auth.Service.{log_out, refresh_tokens, rotate_found}
use saas_forge.Auth.Requests.{Request, serve_all}
use saas_forge.Auth.Revoked.{
  IsRevoked, is_open-revoked, valid_where-open, event-Keeps, serve_all-Keeps,
}

module _ (p : Ports) (fails : ℕ → Bool) where
  -- a report is an error
  pub report-fails :
      {A : Type 0} (event : EventType) (user : Option ℕ) (code : String) (e : Err) (r : Run Store)
      (a : A) (end : Run Store)
      → report p fails event user code e r ≢ (ok a, end)
  unfolding report record_event
  report-fails event user code e r a end h = cc

  or_report-ok :
      {A : Type 0} (m : Db Store A) (event : EventType) (user : Option ℕ) (code : String)
      (r : Run Store) (a : A) (end : Run Store)
      → or_else m (report p fails event user code) r ≡ (ok a, end)
      → m r ≡ (ok a, end)
  or_report-ok {A} m event user code r a end h = go (m r) h
    where
      go :
          (out : Result A × Run Store)
          → caught out (report p fails event user code) ≡ (ok a, end)
          → out ≡ (ok a, end)
      go (ok b, between) h = h
      go (err e, between) h = absurd (report-fails event user code e between a end h)

  -- The random source draws no token with the digest of this one.
  module _ (token : String)
      (unlike : (n : ℕ) (drawn : String)
        → p.draw n ≡ ok drawn
        → (p.digest drawn == p.digest token) ≡ false) where
    abbrev revoke : Db Store (Unit {0})
    revoke = write_with fails (λ n. revoke_refresh_token (p.digest token) (p.clock n))

    revoke-IsRevoked :
        (r : Run Store) (u : Unit {0}) (end : Run Store)
        → revoke r ≡ (ok u, end)
        → IsRevoked (p.digest token) end.store
    unfolding revoke_refresh_token
    revoke-IsRevoked r u end h =
        rw (write-ok fails (revoke_refresh_token (p.digest token) (p.clock r.calls)) r u end h)
          (is_open-revoked (p.digest token) (p.clock r.calls) r.store.refresh_tokens)

    log_out-IsRevoked :
        (r : Run Store) (u : Unit {0}) (end : Run Store)
        → (token == "") ≡ false
        → log_out p fails token r ≡ (ok u, end)
        → IsRevoked (p.digest token) end.store
    unfolding log_out
    log_out-IsRevoked r u end named h =
        let opened : log_out p fails token r
            ≡ (or_else revoke (report p fails logout none internal_code)
                  >> record_event p fails logout none none)
                r =
          rw named refl in
        let (v, between, revoked, recorded) =
          then-ok (or_else revoke (report p fails logout none internal_code))
            (record_event p fails logout none none) r u end (sym opened ∙ h) in
        let is_revoked =
          revoke-IsRevoked r v between
            (or_report-ok revoke logout none internal_code r v between revoked) in
        subst (IsRevoked (p.digest token))
          (ap (λ (out : Result (Unit {0}) × Run Store). out.1.store) recorded)
          ((event-Keeps p fails (p.digest token) unlike logout none none).kept between is_revoked)

    revoked-refresh_tokens :
        (r : Run Store) (t : TokenResponse) (end : Run Store)
        → IsRevoked (p.digest token) r.store
        → refresh_tokens p fails token r ≢ (ok t, end)
    unfolding refresh_tokens find_valid_refresh
    revoked-refresh_tokens r t end is_revoked h = elim (Bool-cases (token == "")) [
      | inl unnamed ↦
          report-fails refresh none "AUTH_INVALID_TOKEN" Err.invalid_token r t end
            (sym (rw unnamed refl) ∙ h)
      | inr named ↦
          let look = λ (n : ℕ). find_valid_refresh (p.digest token) (p.clock n) in
          let opened : refresh_tokens p fails token r
              ≡ (ask_with fails look >>= rotate_found p fails (p.digest token)) r =
            rw named refl in
          let (found, between, asked, rest) =
            bind-ok (ask_with fails look) (rotate_found p fails (p.digest token)) r t end
              (sym opened ∙ h) in
          let (is_found, _) = ask-ok fails (look r.calls) r found between asked in
          let gone =
            is_found
            ∙ valid_where-open (p.digest token) (p.clock r.calls) r.store.refresh_tokens
                is_revoked in
          report-fails refresh none "AUTH_REFRESH_REVOKED" Err.refresh_revoked between t end (
            ap (λ (o : Option (ℕ × String)). rotate_found p fails (p.digest token) o between)
              (sym gone)
            ∙ rest)
    ]

-- After a logout that succeeds, whatever requests and revocations follow and whatever calls fail,
-- the refresh token gets no new tokens; if the random source never draws a token of its digest.
pub log_out-refresh_tokens :
    (p : Ports) (fails : ℕ → Bool) (token : String) (qs : List Request) (r between : Run Store)
    (u : Unit {0}) (t : TokenResponse) (end : Run Store)
    → ((n : ℕ) (drawn : String) → p.draw n ≡ ok drawn → (p.digest drawn == p.digest token) ≡ false)
    → log_out p fails token r ≡ (ok u, between)
    → refresh_tokens p fails token (serve_all p fails qs between) ≢ (ok t, end)
unfolding refresh_tokens
log_out-refresh_tokens p fails token qs r between u t end unlike logged_out =
    elim (Bool-cases (token == "")) [
      | inl unnamed ↦ λ h.
          report-fails p fails refresh none "AUTH_INVALID_TOKEN" Err.invalid_token
            (serve_all p fails qs between) t end (sym (rw unnamed refl) ∙ h)
      | inr named ↦
          revoked-refresh_tokens p fails token unlike (serve_all p fails qs between) t end (
            serve_all-Keeps p fails (p.digest token) unlike qs between
              (log_out-IsRevoked p fails token unlike r u between named logged_out))
    ]
