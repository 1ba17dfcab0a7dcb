-- ===== src/Content/Permission/Writes.antt =====
-- Which writes the permission lists of a schema let through.
use saas_forge.Base.{
  string_eq, String, ◌≡◌, refl, Bool, true, false, List, [], ◌∷◌, ◌||◌, ◌&&◌, contains, Option,
  some, none, All, ◌↔◌, arith, Bool-cases, Option-cases, inl, inr, eq_iff,
}
use saas_forge.Errors.{ok}
use saas_forge.Authn.{Subject}
use saas_forge.Content.Permission.{Field, ContentType, is_empty, field_by_key}
use saas_forge.Content.Permission.Guards.{
  Doc, keep_listed, can_write_type, effective_type_write_roles, can_write_field, any_restricted,
  check_keys, payload_keys, guard_writable_keys,
}

contains-keep_listed :
    (readable : List String) (r : String) (roles : List String)
    → contains (keep_listed readable roles) r ≡ (contains readable r && contains roles r)
contains-keep_listed readable r [] = ground arith
contains-keep_listed readable r (x ∷ roles) = elim (Bool-cases (contains readable x)) [
  | inl kept ↦ ground (arith, contains-keep_listed readable r roles, eq_iff x r)
  | inr dropped ↦ ground (arith, contains-keep_listed readable r roles, eq_iff x r)
]

-- Outside public delivery, a role may write entries of a type exactly when the type declares
-- neither list, or the role is among the effective write roles that a refusal reports.
pub can_write_type-effective :
    (ct : ContentType) (sub : Subject)
    → sub.public_delivery ≡ false
    → can_write_type ct sub ≡ (
        is_empty ct.read_roles && is_empty ct.write_roles
        || contains (effective_type_write_roles ct) sub.tenant_role)
unfolding can_write_type effective_type_write_roles
can_write_type-effective ct sub private =
    ground (arith, contains-keep_listed ct.read_roles sub.tenant_role ct.write_roles)

-- Where no field is restricted, every field may be written.
unrestricted_writable :
    (fields : List Field) (sub : Subject) (k : String) (f : Field)
    → any_restricted fields ≡ false
    → field_by_key fields k ≡ some f
    → can_write_field f sub ≡ true
unfolding any_restricted can_write_field
unrestricted_writable [] sub k f free found = ground arith
unrestricted_writable (g ∷ fields) sub k f free found =
    ground (arith, unrestricted_writable fields sub k f)

-- A key is writable if it names no field, or one that the caller may write.
unfoldable pub may_write : List Field → Subject → String → Bool
may_write fields sub k = elim (field_by_key fields k) [
  | none ↦ true
  | some f ↦ can_write_field f sub
]

check_keys-ok :
    (fields : List Field) (sub : Subject) (ks : List String)
    → (check_keys fields sub ks ≡ ok tt) ↔ All (λ k. may_write fields sub k ≡ true) ks
unfolding check_keys may_write
check_keys-ok fields sub [] = (λ _. tt, λ _. refl)
check_keys-ok fields sub (k ∷ ks) = ground (arith, check_keys-ok fields sub ks)

unrestricted-check_keys :
    (fields : List Field) (sub : Subject) (ks : List String)
    → any_restricted fields ≡ false
    → check_keys fields sub ks ≡ ok tt
unfolding check_keys
unrestricted-check_keys fields sub [] free = refl
unrestricted-check_keys fields sub (k ∷ ks) free = elim (Option-cases (field_by_key fields k)) [
  | inl absent ↦ rw (absent, check_keys) (unrestricted-check_keys fields sub ks free)
  | inr (f, found) ↦ ground (
    arith,
    unrestricted_writable fields sub k f free found,
    unrestricted-check_keys fields sub ks free,
  )
]

module _ (unmarshal : String → Option Doc) (marshal : Doc → Option String)
    (sort_strings : List String → List String) where
  -- A payload that decodes passes the field guard exactly when each of its keys names no field or
  -- one that the caller may write; skipping the check on an unrestricted type changes nothing.
  pub guard_writable_keys-ok :
      (ct : ContentType) (sub : Subject) (payload : String) (ks : List String)
      → payload_keys unmarshal marshal sort_strings payload ≡ ok ks
      → (guard_writable_keys unmarshal marshal sort_strings ct sub payload ≡ ok tt)
        ↔ All (λ k. may_write ct.fields sub k ≡ true) ks
  unfolding guard_writable_keys
  guard_writable_keys-ok ct sub payload ks decoded = elim (Bool-cases (any_restricted ct.fields)) [
    | inl some_restricted ↦ rw (some_restricted, decoded) (check_keys-ok ct.fields sub ks)
    | inr free ↦ rw free (
      λ _. (check_keys-ok ct.fields sub ks).0 (unrestricted-check_keys ct.fields sub ks free),
      λ _. refl,
    )
  ]
