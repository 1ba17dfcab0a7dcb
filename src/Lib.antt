-- ===== src/Lib.antt =====
-- saas-forge: the parts of the Go backend that decide who may do what, and that keep its tables.
--
-- A user signs in for a pair of tokens (Auth). Every request carries a verified subject
-- (Authn). The authorizer (Authz) decides on an action by the subject's kind, membership role
-- and platform roles. The tenant service (Tenant) asks the authorizer, checks the caller's
-- live role, and runs one database transaction. The content service guards each read and write
-- by the permission lists of a schema, checks a payload against the schema's fields, and grades a
-- change of the schema by what it does to the stored payloads (Content). Writes leave events in an outbox table, which
-- a worker delivers (Outbox). An entry's publication may be filed for later as a schedule
-- (Schedule), which a second worker carries out on the tables of the content plane (Entry).
--
--   Base      Boolean tests, lists counted by native numbers, splits on computed values.
--   Errors    internal/pkg/errors/errors.go, internal/tenant/domain/errors.go,
--             internal/auth/service/errors.go: the error values that the modelled code returns, and Go's `(value, error)`.
--   Auth      internal/auth: Store is repository/credential_repository.go with the reads of the
--             tenant and IAM repositories that sign-in makes, Tokens and Service are
--             service/auth_service.go (Login is `sign_in`, Refresh is `refresh_tokens`,
--             SwitchTenant is `switch_tenant`, Logout is `log_out`, issueTokens is
--             `issue_tokens`), Requests is a run of requests. Live and Revoked are what is
--             relied on of a pair of tokens.
--   Authn     internal/pkg/authn/subject.go: Subject and its methods.
--   Authz     internal/pkg/authz: Action is authorizer.go, AgentGate is agent_gate.go, and Rbac is
--             rbac_authorizer.go, with `Allow` as `allow` and its two halves as
--             `allow_tenant_plane` and `allow_platform_plane`. Rbac/Matrix holds a capability
--             table, the specification of the tenant plane.
--   Tenant    internal/tenant: Roles is domain/tenant.go, Tables holds the rows and the meaning of
--             the SQL statements, Repository is repository/postgres_repository.go, Service is
--             service/tenant_service.go, each method under its own name or a close one
--             (UpdateMemberRole is `update_member_role` in the repository and
--             `change_member_role` in the service). Db is the monad of database calls: `fails`
--             says which of a run's calls the database refuses, so that a theorem for all `fails`
--             covers every failure.
--   Content   internal/cms/content/domain/type_permission.go and field_permission.go, with the
--             guards of service/type_permission.go and field_permission.go. Constraints is
--             domain/field_constraints.go, over any ordered numbers in place of float64, and Cursor
--             is service/cursor.go, over any bytes and tokens. Json is a decoded document, Field
--             the fields of domain/content.go with their sub-fields, RichText is
--             domain/richtext.go, Payload is service/validate.go (validatePayload is
--             `validate_payload`, over the structure of the fields). Schema is
--             domain/artifact_diff.go with domain/artifact_component.go (DiffSchemas is
--             `diff_schemas`): Change holds the documents and the changes, Fields and Components
--             their differences, Resolve the sub-fields that repository/postgres_repository.go
--             and postgres_components.go load, and Additive what additive changes keep.
--   RateLimit internal/pkg/ratelimit/ip_limiter.go: `Allow` is `allow`, at an instant that is an
--             argument. Windows holds a window of one key, the specification of the limiter.
--   Schedule  internal/cms/content: Table is domain/schedule.go with the statements of
--             repository/schedule_repository.go, and Steps is their step relation.
--   Effects   database programs over any store: a run that counts its calls, of which `fails`
--             refuses some, `>>=` for `if err != nil`, and transactions with their rollback.
--             Leaves, Keeps and Answers are its rules of proof.
--   Entry     internal/cms/content: Store holds the tables, Repository and Publish are
--             repository/postgres_repository.go (SetEntryPublishState is
--             `set_entry_publish_state`, UpdateEntry is `update_entry`) with the statements of
--             publish_revision_repository.go, revision_repository.go and webhook_repository.go
--             that they run, and Scheduler is scheduler/worker.go, with `Tick` as `tick`.
--             Scheduler/Outcomes says what one execution may do, Scheduler/Works what one tick may.
--   Outbox    internal/pkg/outbox: Table is postgres_repository.go, Worker is worker.go, with
--             `processBatch` as `process_batch` and one turn of `Run` as `tick`.
--   Tests     concrete data, and each theorem at a concrete input.
--
-- Numbers stand for UUIDs, which are only compared, and for instants, in seconds. Counters are
-- uint64 and wrap. Row locks make transactions on the same rows run one after another, so a run is
-- a sequence of requests. The only loop with a bound is the retry on a slug collision, whose five
-- attempts are the source's own.
--
-- The error text of a schedule is a list of bytes, since the scheduler cuts it by bytes. That
-- PostgreSQL refuses a text which is cut inside a character is one of the calls that fail.
--
-- Code outside the repository is a parameter: uuid.Parse, JSON, base64, sorting and trimming,
-- the hash, the cipher, the signer, the random source, the HTTP clients downstream. Not
-- modelled: HTTP handlers, wiring, configuration, generated code, agent credentials, and of the
-- content service all but its permissions, constraints, cursors, payload check and schema diff.
-- An id that the content plane draws at random is not stored, except the outbox row's, which is
-- a parameter.
pub mod Base
pub mod Errors
pub mod Effects
pub mod Auth
pub mod Authn
pub mod Authz
pub mod Tenant
pub mod Content
pub mod RateLimit
pub mod Outbox
pub mod Schedule
pub mod Entry
pub mod Tests
