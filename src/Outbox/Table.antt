-- ===== src/Outbox/Table.antt =====
-- internal/pkg/outbox/postgres_repository.go: the statements on `integration_outbox`, as functions
-- on its rows. Instants are seconds.
pub mod Rows
pub mod Keys
use saas_forge.Base.{
  ℕ, zero, suc, ◌+◌, String, Bool, true, false, List, [], ◌∷◌, ◌++◌, ◌&&◌, ◌||◌, ◌==◌, nat_eq,
  string_eq, not, if◌then◌else◌, Option, some, none, ltb, leb, contains, count,
}

-- `outbox_status`
pub data Status : Type 0 where
  pending processing done failed : Status

pub record Row : Type 0 where
  pub id : ℕ
  pub aggregate_id : ℕ
  pub event_type : String
  pub payload : String
  pub status : Status
  pub retry_count : ℕ
  pub idempotency_key : String
  pub last_error : Option String
  pub created_at : ℕ
  pub claimed_at : Option ℕ
  pub processed_at : Option ℕ

abbrev pub is_pending : Row → Bool
is_pending r = elim r.status [ pending ↦ true | _ ↦ false ]

abbrev pub is_processing : Row → Bool
is_processing r = elim r.status [ processing ↦ true | _ ↦ false ]

abbrev pub has_key : String → List Row → Bool
has_key key [] = false
has_key key (r ∷ rows) = r.idempotency_key == key || has_key key rows

-- `EnqueueTx`: `ON CONFLICT (idempotency_key) DO NOTHING`. The new row's key and instant are the
-- database's.
unfoldable pub enqueue : ℕ → ℕ → ℕ → String → String → String → List Row → List Row
enqueue id now aggregate_id event_type payload key rows =
    if has_key key rows
    then rows
    else rows
      ++ (record {
        id = id;
        aggregate_id = aggregate_id;
        event_type = event_type;
        payload = payload;
        status = pending;
        retry_count = 0;
        idempotency_key = key;
        last_error = none;
        created_at = now;
        claimed_at = none;
        processed_at = none;
      }
          ∷ [])

-- `ORDER BY created_at`
abbrev pub insert_by_age : Row → List Row → List Row
insert_by_age r [] = r ∷ []
insert_by_age r (x ∷ rows) =
    let later = insert_by_age r rows in
    if leb r.created_at x.created_at then r ∷ x ∷ rows else x ∷ later

abbrev pub sort_by_age : List Row → List Row
sort_by_age [] = []
sort_by_age (r ∷ rows) = insert_by_age r (sort_by_age rows)

-- `LIMIT`
abbrev pub take_ids : ℕ → List Row → List ℕ
take_ids zero rows = []
take_ids (suc n) [] = []
take_ids (suc n) (r ∷ rows) = r.id ∷ take_ids n rows

-- pending, and not locked by another worker's claim (`SKIP LOCKED`)
abbrev pub claimable : (ℕ → Bool) → List Row → List Row
claimable locked [] = []
claimable locked (r ∷ rows) =
    let rest = claimable locked rows in if is_pending r && not (locked r.id) then r ∷ rest else rest

unfoldable pub claim_ids : (ℕ → Bool) → ℕ → List Row → List ℕ
claim_ids locked limit rows = take_ids limit (sort_by_age (claimable locked rows))

abbrev pub claim : ℕ → Row → Row
claim now r = record r { status = processing; claimed_at = some now }

-- the `UPDATE` of `ClaimPending`, and what it returns
unfoldable pub claim_rows : ℕ → List ℕ → List Row → List Row
claim_rows now ids [] = []
claim_rows now ids (r ∷ rows) =
    (if contains ids r.id then claim now r else r) ∷ claim_rows now ids rows

unfoldable pub claimed_rows : ℕ → List ℕ → List Row → List Row
claimed_rows now ids [] = []
claimed_rows now ids (r ∷ rows) =
    let rest = claimed_rows now ids rows in if contains ids r.id then claim now r ∷ rest else rest

-- `MarkDone`
unfoldable pub mark_done : ℕ → ℕ → List Row → List Row
mark_done now id [] = []
mark_done now id (r ∷ rows) =
    (if r.id == id
      then record r { status = done; processed_at = some now; last_error = none }
      else r)
    ∷ mark_done now id rows

-- the `UPDATE` of `MarkFailedWithRetry` on one row
abbrev pub fail_row : String → ℕ → Row → Row
fail_row message max_retries r = record r {
  retry_count = r.retry_count + 1;
  last_error = some message;
  status = if leb max_retries (r.retry_count + 1) then failed else pending;
}

unfoldable pub mark_failed : ℕ → String → ℕ → List Row → List Row
mark_failed id message max_retries [] = []
mark_failed id message max_retries (r ∷ rows) =
    (if r.id == id then fail_row message max_retries r else r)
    ∷ mark_failed id message max_retries rows

-- its `RETURNING (status = 'failed')`; `none` is no row
unfoldable pub failed_dead : ℕ → ℕ → List Row → Option Bool
failed_dead id max_retries [] = none
failed_dead id max_retries (r ∷ rows) =
    if r.id == id
    then some (leb max_retries (r.retry_count + 1))
    else failed_dead id max_retries rows

-- `claimed_at IS NOT NULL AND claimed_at < now() - older_than`
abbrev pub is_stale : ℕ → ℕ → Row → Bool
is_stale now older_than r =
    is_processing r && elim r.claimed_at [ none ↦ false | some t ↦ ltb (t + older_than) now ]

abbrev pub reclaim : Row → Row
reclaim r = record r {
  status = pending;
  claimed_at = none;
  last_error = some "reclaimed: stale processing";
}

-- `ReclaimStale`
unfoldable pub reclaim_stale : ℕ → ℕ → List Row → List Row
reclaim_stale now older_than [] = []
reclaim_stale now older_than (r ∷ rows) =
    (if is_stale now older_than r then reclaim r else r) ∷ reclaim_stale now older_than rows

-- `CountPending`
unfoldable pub count_pending : List Row → ℕ
count_pending rows = count is_pending rows
