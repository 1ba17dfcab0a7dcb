-- ===== src/Auth/Issues.antt =====
-- The programs that answer with live tokens: one rule for each way to build one.
use saas_forge.Base.{
  string_eq, inr, inl, ltb, ◌≢◌, Bool-cases, ℕ, String, Bool, true, false, ◌≡◌, ap, Option, none,
  List, if◌then◌else◌, length,
}
use saas_forge.Errors.{Err, Result, ok, err}
use saas_forge.Effects.{Run, Db, ◌>>=◌, ◌>>◌, return, or_else, caught}
use saas_forge.Effects.Leaves.{Leaves, left}
use saas_forge.Effects.Answers.{bind-ok, then-ok, return-ok}
use saas_forge.Auth.Store.{Store, User, UserMembership, UserRole, EventType}
use saas_forge.Auth.Tokens.{Ports, TokenResponse, issue_tokens, record_event, report, with_options}
use saas_forge.Auth.LogOut.{report-fails}
use saas_forge.Auth.Live.{IsLive, IsLive-same, issue_tokens-IsLive}

abbrev pub directory : Store → List User × (List UserMembership × List UserRole)
directory s = (s.users, (s.memberships, s.user_roles))

module _ (p : Ports) where
  pub record Issues (m : Db Store TokenResponse) : Type 0 where
    pub live :
        (r : Run Store) (t : TokenResponse) (end : Run Store)
        → m r ≡ (ok t, end)
        → IsLive p r.store t

  IsLive-left :
      {A : Type 0} (m : Db Store A)
      → Leaves directory m
      → (r : Run Store) (a : A) (end : Run Store) (t : TokenResponse) → m r ≡ (ok a, end)
      → IsLive p end.store t
      → IsLive p r.store t
  IsLive-left {A} m leaves r a end t h live =
      let same = left m leaves r a end h in
      IsLive-same p end.store r.store t
        (
          ap (λ (d : List User × (List UserMembership × List UserRole)). d.0) same,
          ap (λ (d : List User × (List UserMembership × List UserRole)). d.1.0) same,
          ap (λ (d : List User × (List UserMembership × List UserRole)). d.1.1) same,
        )
        live

  pub Issues-bind :
      {A : Type 0} (m : Db Store A) (rest : A → Db Store TokenResponse)
      → Leaves directory m
      → ((a : A) → Issues (rest a))
      → Issues (m >>= rest)
  Issues-bind m rest leaves issues = record {
    live = λ r t end h.
        let (a, between, did, last) = bind-ok m rest r t end h in
        IsLive-left m leaves r a between t did ((issues a).live between t end last);
  }

  pub Issues-then :
      {A : Type 0} (m : Db Store A) (rest : Db Store TokenResponse)
      → Leaves directory m
      → Issues rest
      → Issues (m >> rest)
  Issues-then m rest leaves issues = record {
    live = λ r t end h.
        let (a, between, did, last) = then-ok m rest r t end h in
        IsLive-left m leaves r a between t did (issues.live between t end last);
  }

  pub Issues-if :
      (b : Bool) (m n : Db Store TokenResponse) → Issues m → Issues n → Issues (if b then m else n)
  Issues-if true m n hm hn = hm
  Issues-if false m n hm hn = hn

  pub with_options-IsLive :
      (ms : List UserMembership) (s : Store) (t : TokenResponse)
      → IsLive p s t
      → IsLive p s (with_options ms t)
  with_options-IsLive ms s t live = elim (Bool-cases (ltb 1 (length ms))) [
    | inl several ↦ rw several (record {
      active = live.active;
      claims = live.claims;
      now = live.now;
      looked_up = live.looked_up;
      signed_for = live.signed_for;
      same_user = live.same_user;
      same_tenant = live.same_tenant;
      live_roles = live.live_roles;
      live_tenant_role = live.live_tenant_role;
    })
    | inr single ↦ rw single live
  ]

  module _ (fails : ℕ → Bool) where
    -- a report never answers with tokens
    pub Issues-report :
        (event : EventType) (user : Option ℕ) (code : String) (e : Err)
        → Issues (report p fails event user code e)
    Issues-report event user code e = record {
      live = λ r t end h. absurd (report-fails p fails event user code e r t end h);
    }

    Issues-or_report :
        (m : Db Store TokenResponse) (handler : Err → Db Store TokenResponse)
        → Issues m
        → ((e : Err) (r : Run Store) (t : TokenResponse) (end : Run Store)
            → handler e r ≢ (ok t, end))
        → Issues (or_else m handler)
    Issues-or_report m handler issues fails_too = record {
      live = λ r t end h. issues.live r t end (go (m r) h);
    }
      where
        go :
            {t : TokenResponse} {end : Run Store} (out : Result TokenResponse × Run Store)
            → caught out handler ≡ (ok t, end)
            → out ≡ (ok t, end)
        go (ok b, between) h = h
        go {t} {end} (err e, between) h = absurd (fails_too e between t end h)

    -- the event is recorded, and the tokens answered, perhaps with the list of tenants
    Issues-last :
        (m : Db Store TokenResponse) (event : EventType) (user : Option ℕ)
        (told : TokenResponse → TokenResponse)
        → Issues m
        → ((s : Store) (t : TokenResponse) → IsLive p s t → IsLive p s (told t))
        → Issues (m >>= λ tokens. record_event p fails event user none >> return (told tokens))
    Issues-last m event user told issues keeps = record {
      live = λ r t end h.
          let (tokens, between, issued, rest) = bind-ok m _ r t end h in
          let (u, r2, recorded, last) =
            then-ok (record_event p fails event user none) (return (told tokens)) between t end
              rest in
          let (is_t, _) = return-ok (told tokens) r2 t end last in
          rw is_t (keeps r.store tokens (issues.live r tokens between issued));
    }

    Issues-tokens : (user : ℕ) (slug : String) → Issues (issue_tokens p fails user slug)
    Issues-tokens user slug = record {
      live = λ r t end h. issue_tokens-IsLive p fails user slug r t end h;
    }

    -- tokens are issued, or the refusal is recorded
    pub Issues-recorded :
        (user : ℕ) (slug : String) (event : EventType) (who : Option ℕ)
        (told : TokenResponse → TokenResponse) (code : Err → String) (error : Err → Err)
        → ((s : Store) (t : TokenResponse) → IsLive p s t → IsLive p s (told t))
        → Issues (
            or_else
              (issue_tokens p fails user slug)
              (λ e. report p fails event who (code e) (error e))
            >>= λ tokens. record_event p fails event who none >> return (told tokens))
    Issues-recorded user slug event who told code error keeps =
        Issues-last _ event who told
          (Issues-or_report _ _ (Issues-tokens user slug)
            (λ e r t end. report-fails p fails event who (code e) (error e) r t end))
          keeps
