-- ===== src/Outbox/Worker/Counters.antt =====
-- The counters of the worker.
use saas_forge.Base.{
  ℕ, ◌+◌, ◌%◌, String, ◌≡◌, refl, sym, Bool, true, false, List, [], ◌∷◌, some, none, arith,
  if◌then◌else◌, Option, Option-cases, inl, inr,
}
use mathlib.Core.Path.{subst}
use saas_forge.Outbox.Table.{Row, claim_ids, claim_rows, claimed_rows, reclaim_stale}
use saas_forge.Outbox.Worker.{
  count_dead, Downstream, Worker, World, Metrics, Outcome, post, WebhookEndpoint, u64_mod,
  count_dead, attempt, send_all, parse_content_payload, deliver, deliver_user, deliver_content,
  process_row, process_rows, process_batch, tick, mark_failed_with_retry, row_marked, row_failed,
  row_delivered, row_attempted, notify_dead_letter,
}
use saas_forge.Outbox.Worker.Batch.{if-keeps}

-- Every failed attempt is counted as retried or as dead, never both.
unfoldable pub IsBalanced : Metrics → Type 0
IsBalanced m = m.failed ≡ (m.retried + m.dead) % u64_mod

module _ (d : Downstream) where
  send_all-metrics :
      (event_type : String) (id : ℕ) (payload : String) (eps : List WebhookEndpoint) (w : World)
      → (send_all d event_type id payload eps w).1.metrics ≡ w.metrics
  unfolding send_all
  send_all-metrics event_type id payload [] w = refl
  send_all-metrics event_type id payload (ep ∷ eps) w = ground (
    arith,
    send_all-metrics event_type id payload eps (attempt d (post ep event_type id payload) w).1,
  )

  deliver_content-metrics :
      (row : Row) (w : World) → (deliver_content d row w).1.metrics ≡ w.metrics
  unfolding deliver_content
  deliver_content-metrics row w = elim (Option-cases (parse_content_payload d row.payload)) [
    | inl none' ↦ ground arith
    | inr (p, parsed) ↦ elim (Option-cases (d.endpoints p.tenant_id)) [
      | inl none' ↦ ground arith
      | inr (eps, listed) ↦ ground (arith, send_all-metrics row.event_type row.id row.payload eps w)
    ]
  ]

  deliver_user-metrics : (row : Row) (w : World) → (deliver_user d row w).1.metrics ≡ w.metrics
  unfolding deliver_user
  deliver_user-metrics row w = ground arith

  deliver-metrics : (row : Row) (w : World) → (deliver d row w).1.metrics ≡ w.metrics
  unfolding deliver
  deliver-metrics row w = ground (arith, deliver_user-metrics row w, deliver_content-metrics row w)

  notify_dead_letter-metrics :
      (row : Row) (w : World) → (notify_dead_letter d row w).metrics ≡ w.metrics
  unfolding notify_dead_letter
  notify_dead_letter-metrics row w = ground arith

  module _ (wk : Worker) (fails : ℕ → Bool) (now : ℕ) where
    row_marked-IsBalanced :
        (row : Row) (marked : Option Bool) (w : World)
        → IsBalanced w.metrics
        → IsBalanced (row_marked d wk fails now row marked w).metrics
    unfolding IsBalanced row_marked
    row_marked-IsBalanced row none w h = omega arith
    row_marked-IsBalanced row (some true) w h =
        rw (notify_dead_letter-metrics row (count_dead d wk fails now w)) (omega arith)
    row_marked-IsBalanced row (some false) w h = omega arith

    row_delivered-IsBalanced :
        (row : Row) (w : World)
        → IsBalanced w.metrics
        → IsBalanced (row_delivered d wk fails now row w).metrics
    unfolding IsBalanced row_delivered
    row_delivered-IsBalanced row w h = ground arith

    mark_failed_with_retry-metrics :
        (id : ℕ) (message : String) (w : World)
        → (mark_failed_with_retry d wk fails now id message w).1.metrics ≡ w.metrics
    unfolding mark_failed_with_retry
    mark_failed_with_retry-metrics id message w = ground arith

    row_attempted-IsBalanced :
        (row : Row) (outcome : Outcome) (w : World)
        → IsBalanced w.metrics
        → IsBalanced (row_attempted d wk fails now row outcome w).metrics
    unfolding row_attempted row_failed
    row_attempted-IsBalanced row none w h = row_delivered-IsBalanced row w h
    row_attempted-IsBalanced row (some message) w h =
        let (marked, w') = mark_failed_with_retry d wk fails now row.id message w in
        row_marked-IsBalanced row marked w'
          (subst IsBalanced (sym (mark_failed_with_retry-metrics row.id message w)) h)

    process_rows-IsBalanced :
        (rows : List Row) (w : World)
        → IsBalanced w.metrics
        → IsBalanced (process_rows d wk fails now rows w).metrics
    unfolding process_rows process_row
    process_rows-IsBalanced [] w h = h
    process_rows-IsBalanced (row ∷ rows) w h =
        process_rows-IsBalanced rows (process_row d wk fails now row w) (
          row_attempted-IsBalanced row (deliver d row w).0 (deliver d row w).1
            (subst IsBalanced (sym (deliver-metrics row w)) h))

    -- A turn keeps the counters in balance: modulo 2 ^ 64, the failed attempts are those retried
    -- and those given up.
    pub tick-IsBalanced :
        (locked : ℕ → Bool) (w : World)
        → IsBalanced w.metrics
        → IsBalanced (tick d wk fails now locked w).metrics
    unfolding tick process_batch
    tick-IsBalanced locked w h =
        let rows = if fails w.calls then w.rows else reclaim_stale now wk.stale_threshold w.rows in
        let ids = claim_ids locked wk.limit rows in
        if-keeps {A = World} (λ w'. IsBalanced w'.metrics) (fails (w.calls + 1)) h
          (process_rows-IsBalanced (claimed_rows now ids rows)
            (record w { rows = claim_rows now ids rows; calls = w.calls + 1 + 1 }) h)
