-- ===== src/Errors.antt =====
-- internal/pkg/errors/errors.go, internal/tenant/domain/errors.go, internal/auth/service/errors.go and the content service's error
-- constructors: the errors of the modelled parts, and the status that each is answered with.
use saas_forge.Base.{List, String, ℕ, Bool, true, false}

pub data Err : Type 0 where
  -- framework sentinels
  not_found unauthorized forbidden : Err
  -- `VALIDATION_FAILED`, which several handlers build in place
  validation_failed : Err
  -- tenant service
  tenant_no_active invite_role_invalid : Err
  -- tenant/domain/errors.go
  invite_not_found invite_expired invite_used invite_email_mismatch already_member : Err
  plan_unknown invite_inviter_revoked invite_revoked : Err
  last_owner self_role_change self_remove cannot_assign_owner role_invalid : Err
  -- cms/content/service: the details name the object and the roles that would have been allowed
  type_read_forbidden type_write_forbidden : String → List String → Err
  field_write_forbidden field_required_not_writable : String → List String → Err
  -- a role outside the set, a repeated role: the details name the field or type, and the role
  role_unknown role_duplicate : String → String → Err
  preview_scope_exceeded payload_invalid : Err
  schedule_exists : Err
  -- the unique violation that `ProvisionOwnerTx` retries on; it never leaves the repository
  slug_taken : Err
  -- any error that is no AppError: the database's, the random source's, the cipher's
  internal : Err
  -- cms/content
  version_conflict value_taken cursor_invalid : Err
  -- auth/service/errors.go, and `USER_SUSPENDED`
  invalid_credentials invalid_token refresh_revoked membership_revoked : Err
  not_tenant_member suspended : Err

-- The HTTP status an error is declared with; what is no AppError is answered with 500.
unfoldable pub http_status : Err → ℕ
http_status not_found = 404
http_status unauthorized = 401
http_status forbidden = 403
http_status validation_failed = 400
http_status tenant_no_active = 403
http_status invite_role_invalid = 422
http_status invite_not_found = 404
http_status invite_expired = 410
http_status invite_used = 410
http_status invite_email_mismatch = 403
http_status already_member = 409
http_status plan_unknown = 422
http_status invite_inviter_revoked = 410
http_status invite_revoked = 410
http_status last_owner = 409
http_status self_role_change = 409
http_status self_remove = 409
http_status cannot_assign_owner = 403
http_status role_invalid = 422
http_status (type_read_forbidden _ _) = 403
http_status (type_write_forbidden _ _) = 403
http_status (field_write_forbidden _ _) = 403
http_status (field_required_not_writable _ _) = 403
http_status (role_unknown _ _) = 422
http_status (role_duplicate _ _) = 422
http_status preview_scope_exceeded = 403
http_status payload_invalid = 400
http_status schedule_exists = 409
http_status slug_taken = 500
http_status internal = 500
http_status version_conflict = 409
http_status value_taken = 409
http_status cursor_invalid = 400
http_status invalid_credentials = 401
http_status invalid_token = 401
http_status refresh_revoked = 401
http_status membership_revoked = 401
http_status not_tenant_member = 403
http_status suspended = 403

-- Go's `(value, error)`: one of the two is meant.
pub data Result {ℓ} (T : Type ℓ) : Type ℓ where
  err : Err → Result T
  ok : T → Result T

-- `if err != nil { return err }`, and what follows it.
infixl 5 ◌>>=◌
abbrev pub ◌>>=◌ {ℓ ℓ'} : {T : Type ℓ} {U : Type ℓ'} → Result T → (T → Result U) → Result U
err e >>= next = err e
ok t >>= next = next t

infixl 5 ◌>>◌
abbrev pub ◌>>◌ {ℓ} : {U : Type ℓ} → Result (Unit {0}) → Result U → Result U
err e >> next = err e
ok _ >> next = next

-- `if cond { return nil }; return ErrForbidden`.
abbrev pub permit_if : Bool → Result (Unit {0})
permit_if true = ok tt
permit_if false = err forbidden
