-- ===== src/Tenant/Repository/Provision.antt =====
-- Provisioning: a new tenant comes with its owner, or nothing is written.
use saas_forge.Base.{
  refl, zero, suc, ◌≢◌, ℕ, String, ◌≡◌, Bool, false, [], ◌∷◌, ◌++◌, arith, nat_eq,
}
use mathlib.Core.Path.{subst}
use saas_forge.Errors.{Err, Result, ok, err}
use saas_forge.Tenant.Roles.{owner}
use saas_forge.Tenant.Tables.{Store, tenant_clashes}
use saas_forge.Tenant.Db.{World, in_tx}
use saas_forge.Tenant.Repository.{
  slug_attempts, provision_owner, retry, provision_loop, provision_body,
}

-- The tables with one more tenant and its owner.
abbrev pub with_tenant : ℕ → String → ℕ → ℕ → Store → Store
with_tenant now slug id user_id s = record s {
  tenants =
      s.tenants
      ++ (record { id = id; slug = slug; name = ""; plan = "free"; created_at = now } ∷ []);
  memberships =
      s.memberships
      ++ (record { user_id = user_id; tenant_id = id; role = owner; created_at = now } ∷ []);
}

-- What an attempt has done, by how it ended.
abbrev Provisioned : ℕ → String → ℕ → ℕ → Store → Result String × World → Type 0
Provisioned now slug id user_id s (ok out, w) =
    (out ≡ slug)
    × (tenant_clashes id slug s.tenants ≡ false)
    × (w.store ≡ with_tenant now slug id user_id s)
Provisioned now slug id user_id s (err e, w) = w.store ≡ s

module _ (fails : ℕ → Bool) (now : ℕ) where
  attempt-Provisioned :
      (slug : String) (id user_id : ℕ) (w : World)
      → Provisioned now slug id user_id w.store
          (in_tx fails (provision_body fails now slug id user_id) w)
  unfolding provision_body in_tx
  attempt-Provisioned slug id user_id w = ground arith

  module _ (slug_fn : ℕ → Result String) (fresh : ℕ → ℕ) where
    -- How the attempts end: with the tenant of one of them, or with nothing written.
    abbrev pub IsProvisioned : ℕ → Store → Result String × World → Type 0
    IsProvisioned user_id s (ok slug, w) =
        (k : ℕ) × (slug_fn k ≡ ok slug)
        × (tenant_clashes (fresh k) slug s.tenants ≡ false)
        × (w.store ≡ with_tenant now slug (fresh k) user_id s)
    IsProvisioned user_id s (err e, w) = (w.store ≡ s) × (e ≢ Err.slug_taken)

    retry-IsProvisioned :
        (k user_id : ℕ) (slug : String) (s : Store) (r : Result String) (w : World)
        (next : World → Result String × World)
        → slug_fn k ≡ ok slug
        → Provisioned now slug (fresh k) user_id s (r, w)
        → ((w' : World) → w'.store ≡ s → IsProvisioned user_id s (next w'))
        → IsProvisioned user_id s (retry fails now r next w)
    retry-IsProvisioned k user_id slug s (ok out) w next drawn h rest =
        (k, rw h.0 drawn, rw h.0 h.1, rw h.0 h.2)
    retry-IsProvisioned k user_id slug s (err Err.slug_taken) w next drawn h rest = rest w h
    retry-IsProvisioned k user_id slug s (err _) w next drawn h rest = (h, ground arith)

    loop-IsProvisioned :
        (left attempt user_id : ℕ) (s : Store) (w : World)
        → w.store ≡ s
        → IsProvisioned user_id s (provision_loop fails now slug_fn fresh left attempt user_id w)
    unfolding provision_loop
    loop-IsProvisioned zero attempt user_id s w same = (same, ground arith)
    loop-IsProvisioned (suc left) attempt user_id s w same =
        go (slug_fn attempt) refl (loop-IsProvisioned left (suc attempt) user_id s)
      where
        go :
            (drawn : Result String)
            → slug_fn attempt ≡ drawn
            → ((w' : World)
                → w'.store ≡ s
                → IsProvisioned user_id s
                    (provision_loop fails now slug_fn fresh left (suc attempt) user_id w'))
            → IsProvisioned user_id s
                (provision_loop fails now slug_fn fresh (suc left) attempt user_id w)
        go (err e) h rest = rw (h, provision_loop) (same, ground arith)
        go (ok slug) h rest =
            rw (h, provision_loop)
              (retry-IsProvisioned attempt user_id slug s _ _ _ h
                (subst
                  (λ s'.
                    Provisioned now slug (fresh attempt) user_id s'
                      (in_tx fails (provision_body fails now slug (fresh attempt) user_id) w))
                  same (attempt-Provisioned slug (fresh attempt) user_id w))
                rest)

    -- Registration provisions a tenant under a slug that was drawn and was free, with the user as
    -- its owner, or fails and writes nothing; a slug collision is never what it fails with.
    pub provision_owner-IsProvisioned :
        (user_id : ℕ) (w : World)
        → IsProvisioned user_id w.store (provision_owner fails now slug_fn fresh user_id w)
    unfolding provision_owner
    provision_owner-IsProvisioned user_id w =
        loop-IsProvisioned slug_attempts 0 user_id w.store w refl
