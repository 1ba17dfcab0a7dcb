-- ===== src/Outbox/Worker/Batch.antt =====
-- What a turn of the worker keeps of the table.
use saas_forge.Base.{
  ap, Option, if◌then◌else◌, Option, if◌then◌else◌, ℕ, ◌+◌, String, ◌≡◌, refl, sym, ◌∙◌, Bool, true,
  false, List, [], ◌∷◌, some, none, arith, Option-cases, inl, inr,
}
use mathlib.Core.Path.{subst}
use saas_forge.Outbox.Table.{
  claimed_rows, Row, claim_ids, claim_rows, mark_done, mark_failed, reclaim_stale,
}
use saas_forge.Outbox.Table.Rows.{
  IsTable, events, claim_rows-IsTable, mark_done-IsTable, mark_failed-IsTable,
  reclaim_stale-IsTable, events-claim_rows, events-mark_done, events-mark_failed,
  events-reclaim_stale,
}
use saas_forge.Outbox.Worker.{
  Outcome, row_attempted, count_dead, row_marked, post, attempt, parse_content_payload,
  mark_failed_with_retry, Downstream, Worker, World, WebhookEndpoint, send_all, deliver,
  deliver_user, deliver_content, notify_dead_letter, row_failed, row_delivered, process_row,
  process_rows, process_batch, tick,
}

-- The row with this id after an attempt with this outcome.
unfoldable pub settled : ℕ → ℕ → ℕ → Outcome → List Row → List Row
settled now max_retries id none rows = mark_done now id rows
settled now max_retries id (some message) rows = mark_failed id message max_retries rows

settled-IsTable :
    (now max_retries id : ℕ) (outcome : Outcome) (rows : List Row)
    → IsTable max_retries rows
    → IsTable max_retries (settled now max_retries id outcome rows)
unfolding settled
settled-IsTable now max_retries id none rows h = mark_done-IsTable max_retries rows h now id
settled-IsTable now max_retries id (some message) rows h =
    mark_failed-IsTable max_retries rows h id message

events-settled :
    (now max_retries id : ℕ) (outcome : Outcome) (rows : List Row)
    → events (settled now max_retries id outcome rows) ≡ events rows
unfolding settled
events-settled now max_retries id none rows = events-mark_done now id rows
events-settled now max_retries id (some message) rows =
    events-mark_failed id message max_retries rows

pub if-keeps {ℓ} :
    {A : Type ℓ} (P : A → Type 0) (b : Bool) {x y : A} → P x → P y → P (if b then x else y)
if-keeps P true hx hy = hx
if-keeps P false hx hy = hy

module _ (d : Downstream) where
  send_all-rows :
      (event_type : String) (id : ℕ) (payload : String) (eps : List WebhookEndpoint) (w : World)
      → (send_all d event_type id payload eps w).1.rows ≡ w.rows
  unfolding send_all
  send_all-rows event_type id payload [] w = refl
  send_all-rows event_type id payload (ep ∷ eps) w = ground (
    arith,
    send_all-rows event_type id payload eps (attempt d (post ep event_type id payload) w).1,
  )

  deliver_user-rows : (row : Row) (w : World) → (deliver_user d row w).1.rows ≡ w.rows
  unfolding deliver_user
  deliver_user-rows row w = ground arith

  deliver_content-rows : (row : Row) (w : World) → (deliver_content d row w).1.rows ≡ w.rows
  unfolding deliver_content
  deliver_content-rows row w = elim (Option-cases (parse_content_payload d row.payload)) [
    | inl none' ↦ ground arith
    | inr (p, parsed) ↦ elim (Option-cases (d.endpoints p.tenant_id)) [
      | inl none' ↦ ground arith
      | inr (eps, listed) ↦ ground (arith, send_all-rows row.event_type row.id row.payload eps w)
    ]
  ]

  pub deliver-rows : (row : Row) (w : World) → (deliver d row w).1.rows ≡ w.rows
  unfolding deliver
  deliver-rows row w = ground (arith, deliver_user-rows row w, deliver_content-rows row w)

  pub notify_dead_letter-rows : (row : Row) (w : World) → (notify_dead_letter d row w).rows ≡ w.rows
  unfolding notify_dead_letter
  notify_dead_letter-rows row w = ground arith

  module _ (wk : Worker) (fails : ℕ → Bool) (now : ℕ) where
    row_marked-rows :
        (row : Row) (marked : Option Bool) (w : World)
        → (row_marked d wk fails now row marked w).rows ≡ w.rows
    unfolding row_marked
    row_marked-rows row none w = refl
    row_marked-rows row (some true) w = notify_dead_letter-rows row (count_dead d wk fails now w)
    row_marked-rows row (some false) w = refl

    mark_failed_with_retry-rows :
        (id : ℕ) (message : String) (w : World)
        → (mark_failed_with_retry d wk fails now id message w).1.rows
          ≡ (if fails w.calls then w.rows else mark_failed id message wk.max_retries w.rows)
    unfolding mark_failed_with_retry
    mark_failed_with_retry-rows id message w = ground arith

    row_failed-rows :
        (row : Row) (message : String) (w : World)
        → (row_failed d wk fails now row message w).rows
          ≡ (if fails w.calls then w.rows else mark_failed row.id message wk.max_retries w.rows)
    unfolding row_failed
    row_failed-rows row message w =
        let (marked, w') = mark_failed_with_retry d wk fails now row.id message w in
        row_marked-rows row marked w' ∙ mark_failed_with_retry-rows row.id message w

    row_delivered-rows :
        (row : Row) (w : World)
        → (row_delivered d wk fails now row w).rows
          ≡ (if fails w.calls then w.rows else mark_done now row.id w.rows)
    unfolding row_delivered
    row_delivered-rows row w = ground arith

    row_attempted-rows :
        (row : Row) (outcome : Outcome) (w : World)
        → (row_attempted d wk fails now row outcome w).rows
          ≡ (if fails w.calls then w.rows else settled now wk.max_retries row.id outcome w.rows)
    unfolding row_attempted settled
    row_attempted-rows row none w = row_delivered-rows row w
    row_attempted-rows row (some message) w = row_failed-rows row message w

    -- A row's turn settles it, unless the database does not answer.
    pub process_row-rows :
        (row : Row) (w : World)
        → (process_row d wk fails now row w).rows ≡ (
            if fails (deliver d row w).1.calls
            then w.rows
            else settled now wk.max_retries row.id (deliver d row w).0 w.rows)
    unfolding process_row
    process_row-rows row w =
        row_attempted-rows row (deliver d row w).0 (deliver d row w).1
        ∙ ap
            (λ rows.
              if fails (deliver d row w).1.calls
              then rows
              else settled now wk.max_retries row.id (deliver d row w).0 rows)
            (deliver-rows row w)

    module _ (P : List Row → Type 0)
        (claims : (locked : ℕ → Bool) (rows : List Row)
          → P rows
          → P (claim_rows now (claim_ids locked wk.limit rows) rows))
        (settles : (id : ℕ) (outcome : Outcome) (rows : List Row)
          → P rows
          → P (settled now wk.max_retries id outcome rows))
        (reclaims : (rows : List Row)
          → P rows
          → P (reclaim_stale now wk.stale_threshold rows)) where
      process_rows-keeps :
          (rows : List Row) (w : World) → P w.rows → P (process_rows d wk fails now rows w).rows
      unfolding process_rows
      process_rows-keeps [] w h = h
      process_rows-keeps (row ∷ rows) w h =
          process_rows-keeps rows (process_row d wk fails now row w) (
            subst P (sym (process_row-rows row w)) (
              if-keeps P (fails (deliver d row w).1.calls) h
                (settles row.id (deliver d row w).0 w.rows h)))

      process_batch-keeps :
          (locked : ℕ → Bool) (w : World)
          → P w.rows
          → P (process_batch d wk fails now locked w).rows
      unfolding process_batch
      process_batch-keeps locked w h =
          if-keeps {A = World} (λ w'. P w'.rows) (fails w.calls) h
            (process_rows-keeps (claimed_rows now (claim_ids locked wk.limit w.rows) w.rows)
              (record w {
                rows = claim_rows now (claim_ids locked wk.limit w.rows) w.rows;
                calls = w.calls + 1;
              })
              (claims locked w.rows h))

      -- What the statements keep, a turn keeps.
      pub tick-keeps :
          (locked : ℕ → Bool) (w : World) → P w.rows → P (tick d wk fails now locked w).rows
      unfolding tick
      tick-keeps locked w h =
          process_batch-keeps locked
            (record w {
              rows = if fails w.calls then w.rows else reclaim_stale now wk.stale_threshold w.rows;
              calls = w.calls + 1;
            })
            (if-keeps P (fails w.calls) h (reclaims w.rows h))

    -- A turn keeps the primary key of the table, and that its rows that may still be attempted have
    -- attempts left and its failed rows have none.
    pub tick-IsTable :
        (locked : ℕ → Bool) (w : World)
        → IsTable wk.max_retries w.rows
        → IsTable wk.max_retries (tick d wk fails now locked w).rows
    tick-IsTable =
        tick-keeps (IsTable wk.max_retries)
          (λ locked rows h. claim_rows-IsTable wk.max_retries rows h locked now wk.limit)
          (λ id outcome rows h. settled-IsTable now wk.max_retries id outcome rows h)
          (λ rows h. reclaim_stale-IsTable wk.max_retries rows h now wk.stale_threshold)

    -- A turn loses no row, adds none, and changes nothing of the event that a row carries.
    pub tick-events :
        (locked : ℕ → Bool) (w : World) → events (tick d wk fails now locked w).rows ≡ events w.rows
    tick-events locked w =
        tick-keeps (λ rows. events rows ≡ events w.rows)
          (λ locked rows h. events-claim_rows now (claim_ids locked wk.limit rows) rows ∙ h)
          (λ id outcome rows h. events-settled now wk.max_retries id outcome rows ∙ h)
          (λ rows h. events-reclaim_stale now wk.stale_threshold rows ∙ h) locked w refl
