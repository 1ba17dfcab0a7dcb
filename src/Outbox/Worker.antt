-- ===== src/Outbox/Worker.antt =====
-- internal/pkg/outbox/worker.go and content_event.go: the worker that delivers what is claimed.
pub mod Batch
pub mod Settles
pub mod Delivery
pub mod Counters
use saas_forge.Base.{
  ℕ, ◌+◌, ◌%◌, String, Bool, true, false, List, [], ◌∷◌, ◌++◌, ◌&&◌, ◌||◌, ◌==◌, nat_eq, string_eq,
  not, if◌then◌else◌, Option, some, none, contains, starts_with, is_some,
}
use saas_forge.Outbox.Table.{
  Row, claim_ids, claim_rows, claimed_rows, mark_done, mark_failed, failed_dead, reclaim_stale,
}

abbrev pub user_events : List String
user_events = "user.created" ∷ "user.updated" ∷ "user.deleted" ∷ []

unfoldable pub is_content_event : String → Bool
is_content_event event_type = starts_with event_type "content."

pub record UserPayload : Type 0 where
  pub user_id : String
  pub status : String
  pub status_version : ℕ

pub record UpsertRequest : Type 0 where
  pub user_id : ℕ
  pub status : String
  pub status_version : ℕ
  pub idempotency_key : String
  pub event_type : String

pub record ContentEventPayload : Type 0 where
  pub tenant_id : String
  pub entry_id : String
  pub content_type : String
  pub locale : String

pub record WebhookEndpoint : Type 0 where
  pub id : ℕ
  pub url : String
  pub secret : String

-- One attempt to hand an event over.
pub data Sent : Type 0 where
  upsert : UpsertRequest → Sent
  post : WebhookEndpoint → String → ℕ → String → Sent

-- Go's `error`, by its message.
abbrev pub Outcome : Type 0
Outcome = Option String

-- What the worker is wired to. `send` answers the n-th attempt of a run.
pub record Downstream : Type 0 where
  pub decode_user : String → Option UserPayload
  pub decode_content : String → Option ContentEventPayload
  pub parse_uuid : String → Option ℕ
  -- whether `WithContentWebhooks` and `WithNotifier` were called
  pub webhooks_wired : Bool
  pub notifier_wired : Bool
  pub endpoints : String → Option (List WebhookEndpoint)
  pub send : ℕ → Sent → Outcome

-- The counters of the metrics registry are uint64.
pub record Metrics : Type 0 where
  pub delivered : ℕ
  pub failed : ℕ
  pub retried : ℕ
  pub dead : ℕ

abbrev pub u64_mod : ℕ
u64_mod = 18446744073709551616

abbrev pub bump : ℕ → ℕ
bump n = (n + 1) % u64_mod

pub record World : Type 0 where
  pub rows : List Row
  -- database calls made so far
  pub calls : ℕ
  -- attempts made, the latest last, and their number
  pub sent : List Sent
  pub attempts : ℕ
  -- tenants whose owners and admins were told of a dead letter
  pub notices : List String
  pub metrics : Metrics

-- `ParseContentPayload`
unfoldable pub parse_content_payload : Downstream → String → Option ContentEventPayload
parse_content_payload d raw = elim (d.decode_content raw) [
  | none ↦ none
  | some p ↦ if p.tenant_id == "" then none else some p
]

abbrev pub attempt : Downstream → Sent → World → Outcome × World
attempt d s w =
    (d.send w.attempts s, record w { sent = w.sent ++ (s ∷ []); attempts = w.attempts + 1 })

-- the loop over the endpoints: the first failure ends it
unfoldable pub send_all :
    Downstream → String → ℕ → String → List WebhookEndpoint → World → Outcome × World
send_all d event_type id payload [] w = (none, w)
send_all d event_type id payload (ep ∷ rest) w =
    let (outcome, w') = attempt d (post ep event_type id payload) w in
    let later = send_all d event_type id payload rest w' in
    if is_some outcome then (outcome, w') else later

unfoldable pub deliver_content : Downstream → Row → World → Outcome × World
unfolding parse_content_payload send_all
deliver_content d row w =
    if not d.webhooks_wired
    then (some "no webhook delivery is wired", w)
    else elim (parse_content_payload d row.payload) [
      | none ↦ (some "parse content payload", w)
      | some p ↦ elim (d.endpoints p.tenant_id) [
        | none ↦ (some "list webhooks", w)
        | some endpoints ↦ send_all d row.event_type row.id row.payload endpoints w
      ]
    ]

unfoldable pub deliver_user : Downstream → Row → World → Outcome × World
deliver_user d row w = elim (d.decode_user row.payload) [
  | none ↦ (some "parse payload", w)
  | some p ↦ elim (d.parse_uuid p.user_id) [
    | none ↦ (some "invalid UUID", w)
    | some uid ↦
        attempt d
          (upsert (record {
            user_id = uid;
            status = p.status;
            status_version = p.status_version;
            idempotency_key = row.idempotency_key;
            event_type = row.event_type;
          }))
          w
  ]
]

unfoldable pub deliver : Downstream → Row → World → Outcome × World
unfolding deliver_user deliver_content is_content_event
deliver d row w =
    if contains user_events row.event_type
    then deliver_user d row w
    else if is_content_event row.event_type
    then deliver_content d row w
    else (some "no delivery handler for event type", w)

unfoldable pub notify_dead_letter : Downstream → Row → World → World
unfolding is_content_event parse_content_payload
notify_dead_letter d row w =
    if not d.notifier_wired || not (is_content_event row.event_type)
    then w
    else elim (parse_content_payload d row.payload) [
      | none ↦ w
      | some p ↦ record w { notices = w.notices ++ (p.tenant_id ∷ []) }
    ]

-- `NewWorker`'s fields; an argument that is not positive gets the default.
pub record Worker : Type 0 where
  pub limit : ℕ
  pub max_retries : ℕ
  pub stale_threshold : ℕ

abbrev or_default : ℕ → ℕ → ℕ
or_default n default = if n == 0 then default else n

unfoldable pub new_worker : ℕ → ℕ → ℕ → Worker
new_worker batch_size max_retries stale_threshold = record {
  limit = or_default batch_size 10;
  max_retries = or_default max_retries 5;
  stale_threshold = or_default stale_threshold 60;
}

module _ (d : Downstream) (wk : Worker) (fails : ℕ → Bool) (now : ℕ) where
  abbrev count_failed : World → World
  count_failed w = record w { metrics = record w.metrics { failed = bump w.metrics.failed } }

  abbrev count_dead : World → World
  count_dead w = record w { metrics = record w.metrics { dead = bump w.metrics.dead } }

  abbrev count_retried : World → World
  count_retried w = record w { metrics = record w.metrics { retried = bump w.metrics.retried } }

  abbrev count_delivered : World → World
  count_delivered w = record w {
    metrics = record w.metrics { delivered = bump w.metrics.delivered };
  }

  -- `MarkFailedWithRetry`: the new world, and `some dead` if it answered
  unfoldable pub mark_failed_with_retry : ℕ → String → World → Option Bool × World
  mark_failed_with_retry id message w =
      if fails w.calls then (none, record w { calls = w.calls + 1 }) else (
        failed_dead id wk.max_retries w.rows,
        record w { rows = mark_failed id message wk.max_retries w.rows; calls = w.calls + 1 },
      )

  -- what is counted, and told, of the answer
  unfoldable pub row_marked : Row → Option Bool → World → World
  unfolding notify_dead_letter
  row_marked row none w = count_failed (count_retried w)
  row_marked row (some true) w = count_failed (notify_dead_letter d row (count_dead w))
  row_marked row (some false) w = count_failed (count_retried w)

  -- the branch of the loop for a row whose delivery failed
  unfoldable pub row_failed : Row → String → World → World
  unfolding mark_failed_with_retry row_marked
  row_failed row message w =
      let (marked, w') = mark_failed_with_retry row.id message w in row_marked row marked w'

  -- the branch for a row that was delivered
  unfoldable pub row_delivered : Row → World → World
  row_delivered row w =
      if fails w.calls
      then record w { calls = w.calls + 1 }
      else count_delivered (record w { rows = mark_done now row.id w.rows; calls = w.calls + 1 })

  unfoldable pub row_attempted : Row → Outcome → World → World
  unfolding row_failed row_delivered
  row_attempted row none w = row_delivered row w
  row_attempted row (some message) w = row_failed row message w

  unfoldable pub process_row : Row → World → World
  unfolding deliver row_attempted
  process_row row w = let (outcome, w') = deliver d row w in row_attempted row outcome w'

  unfoldable pub process_rows : List Row → World → World
  process_rows [] w = w
  process_rows (row ∷ rows) w = process_rows rows (process_row row w)

  -- `processBatch`; `locked` are the rows that another worker's claim holds.
  unfoldable pub process_batch : (ℕ → Bool) → World → World
  process_batch locked w =
      let ids = claim_ids locked wk.limit w.rows in
      if fails w.calls
      then record w { calls = w.calls + 1 }
      else process_rows (claimed_rows now ids w.rows)
          (record w { rows = claim_rows now ids w.rows; calls = w.calls + 1 })

  -- One turn of `Run`: what is stale is reclaimed, and a batch is processed; what either fails with
  -- is logged. `PendingStats` only reads.
  unfoldable pub tick : (ℕ → Bool) → World → World
  tick locked w = process_batch locked (record w {
    rows = if fails w.calls then w.rows else reclaim_stale now wk.stale_threshold w.rows;
    calls = w.calls + 1;
  })
