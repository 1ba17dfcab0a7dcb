-- ===== src/Outbox/Table/Rows.antt =====
-- What the statements on `integration_outbox` keep of its rows.
use saas_forge.Base.{
  zero, suc, ℕ, ◌≤◌, ◌<◌, String, ◌≡◌, refl, sym, ◌∙◌, Bool, true, false, List, [], ◌∷◌, ◌||◌, ◌&&◌,
  All, arith, ◌==◌, string_eq, nat_eq, contains,
}
use mathlib.Core.Path.{subst}
use saas_forge.Outbox.Table.{
  Row, done, failed, claim_ids, claim_rows, mark_done, mark_failed, reclaim_stale, is_pending,
  insert_by_age, sort_by_age, take_ids, claimable,
}

-- A row that may still be attempted has attempts left; one that has failed has none.
abbrev pub IsSound : ℕ → Row → Type 0
IsSound max_retries r = elim r.status [
  | done ↦ Unit
  | failed ↦ max_retries ≤ r.retry_count
  | _ ↦ r.retry_count < max_retries
]

abbrev pub has_id : ℕ → List Row → Bool
has_id i [] = false
has_id i (r ∷ rows) = r.id == i || has_id i rows

abbrev has_pending : ℕ → List Row → Bool
has_pending i [] = false
has_pending i (r ∷ rows) = r.id == i && is_pending r || has_pending i rows

-- The primary key.
abbrev pub IsKeyed : List Row → Type 0
IsKeyed [] = Unit
IsKeyed (r ∷ rows) = (has_id r.id rows ≡ false) × IsKeyed rows

has_id-insert_by_age :
    (i : ℕ) (r : Row) (rows : List Row)
    → has_id i (insert_by_age r rows) ≡ (r.id == i || has_id i rows)
has_id-insert_by_age i r [] = refl
has_id-insert_by_age i r (x ∷ rows) = ground (arith, has_id-insert_by_age i r rows)

has_id-sort_by_age : (i : ℕ) (rows : List Row) → has_id i (sort_by_age rows) ≡ has_id i rows
has_id-sort_by_age i [] = refl
has_id-sort_by_age i (r ∷ rows) =
    ground (arith, has_id-insert_by_age i r (sort_by_age rows), has_id-sort_by_age i rows)

has_id-claimable :
    (locked : ℕ → Bool) (i : ℕ) (rows : List Row)
    → has_id i (claimable locked rows) ≡ true
    → has_pending i rows ≡ true
has_id-claimable locked i [] h = ground arith
has_id-claimable locked i (r ∷ rows) h = ground (arith, has_id-claimable locked i rows)

contains-take_ids :
    (n : ℕ) (i : ℕ) (rows : List Row) → contains (take_ids n rows) i ≡ true → has_id i rows ≡ true
contains-take_ids zero i rows h = ground arith
contains-take_ids (suc n) i [] h = ground arith
contains-take_ids (suc n) i (r ∷ rows) h = ground (arith, contains-take_ids n i rows)

pub contains-claim_ids :
    (locked : ℕ → Bool) (limit i : ℕ) (rows : List Row)
    → contains (claim_ids locked limit rows) i ≡ true
    → has_pending i rows ≡ true
unfolding claim_ids
contains-claim_ids locked limit i rows h = ground (
  arith,
  contains-take_ids limit i (sort_by_age (claimable locked rows)) h,
  has_id-sort_by_age i (claimable locked rows),
  has_id-claimable locked i rows,
)

has_pending-has_id : (i : ℕ) (rows : List Row) → has_pending i rows ≡ true → has_id i rows ≡ true
has_pending-has_id i [] h = ground arith
has_pending-has_id i (r ∷ rows) h = ground (arith, has_pending-has_id i rows)

-- The columns that no statement updates.
pub record Event : Type 0 where
  pub id : ℕ
  pub aggregate_id : ℕ
  pub event_type : String
  pub payload : String
  pub idempotency_key : String
  pub created_at : ℕ

abbrev pub event_of : Row → Event
event_of r = record {
  id = r.id;
  aggregate_id = r.aggregate_id;
  event_type = r.event_type;
  payload = r.payload;
  idempotency_key = r.idempotency_key;
  created_at = r.created_at;
}

abbrev pub events : List Row → List Event
events [] = []
events (r ∷ rows) = event_of r ∷ events rows

pub events-claim_rows :
    (now : ℕ) (ids : List ℕ) (rows : List Row) → events (claim_rows now ids rows) ≡ events rows
unfolding claim_rows
events-claim_rows now ids [] = refl
events-claim_rows now ids (r ∷ rows) = ground (arith, events-claim_rows now ids rows)

pub events-mark_done : (now id : ℕ) (rows : List Row) → events (mark_done now id rows) ≡ events rows
unfolding mark_done
events-mark_done now id [] = refl
events-mark_done now id (r ∷ rows) = ground (arith, events-mark_done now id rows)

pub events-mark_failed :
    (id : ℕ) (message : String) (max_retries : ℕ) (rows : List Row)
    → events (mark_failed id message max_retries rows) ≡ events rows
unfolding mark_failed
events-mark_failed id message max_retries [] = refl
events-mark_failed id message max_retries (r ∷ rows) =
    ground (arith, events-mark_failed id message max_retries rows)

pub events-reclaim_stale :
    (now older_than : ℕ) (rows : List Row)
    → events (reclaim_stale now older_than rows) ≡ events rows
unfolding reclaim_stale
events-reclaim_stale now older_than [] = refl
events-reclaim_stale now older_than (r ∷ rows) =
    ground (arith, events-reclaim_stale now older_than rows)

abbrev has_event : ℕ → List Event → Bool
has_event i [] = false
has_event i (e ∷ es) = e.id == i || has_event i es

has_id-events : (i : ℕ) (rows : List Row) → has_id i rows ≡ has_event i (events rows)
has_id-events i [] = refl
has_id-events i (r ∷ rows) = ground (arith, has_id-events i rows)

abbrev IsKeyedEvents : List Event → Type 0
IsKeyedEvents [] = Unit
IsKeyedEvents (e ∷ es) = (has_event e.id es ≡ false) × IsKeyedEvents es

IsKeyed-events : (rows : List Row) → IsKeyed rows → IsKeyedEvents (events rows)
IsKeyed-events [] k = tt
IsKeyed-events (r ∷ rows) k = (sym (has_id-events r.id rows) ∙ k.0, IsKeyed-events rows k.1)

events-IsKeyed : (rows : List Row) → IsKeyedEvents (events rows) → IsKeyed rows
events-IsKeyed [] k = tt
events-IsKeyed (r ∷ rows) k = (has_id-events r.id rows ∙ k.0, events-IsKeyed rows k.1)

-- The key rests on columns that no statement updates.
pub IsKeyed-same :
    (rows rows' : List Row) → events rows' ≡ events rows → IsKeyed rows → IsKeyed rows'
IsKeyed-same rows rows' same k =
    events-IsKeyed rows' (subst IsKeyedEvents (sym same) (IsKeyed-events rows k))

module _ (max_retries : ℕ) where
  claim_rows-IsSound :
      (now : ℕ) (ids : List ℕ) (rows : List Row)
      → ((i : ℕ) → contains ids i ≡ true → has_id i rows ≡ true → has_pending i rows ≡ true)
      → IsKeyed rows
      → All (IsSound max_retries) rows
      → All (IsSound max_retries) (claim_rows now ids rows)
  unfolding claim_rows
  claim_rows-IsSound now ids [] p k h = tt
  claim_rows-IsSound now ids (r ∷ rows) p k h = ground (
    arith,
    claim_rows-IsSound now ids rows (λ i c m. ground (arith, p i c, has_pending-has_id i rows)) k.1
        h.1,
    p r.id,
    has_pending-has_id r.id rows,
  )

  mark_done-IsSound :
      (now id : ℕ) (rows : List Row)
      → All (IsSound max_retries) rows
      → All (IsSound max_retries) (mark_done now id rows)
  unfolding mark_done
  mark_done-IsSound now id [] h = tt
  mark_done-IsSound now id (r ∷ rows) h = ground (arith, mark_done-IsSound now id rows h.1)

  mark_failed-IsSound :
      (id : ℕ) (message : String) (rows : List Row)
      → All (IsSound max_retries) rows
      → All (IsSound max_retries) (mark_failed id message max_retries rows)
  unfolding mark_failed
  mark_failed-IsSound id message [] h = tt
  mark_failed-IsSound id message (r ∷ rows) h =
      ground (arith, mark_failed-IsSound id message rows h.1)

  reclaim_stale-IsSound :
      (now older_than : ℕ) (rows : List Row)
      → All (IsSound max_retries) rows
      → All (IsSound max_retries) (reclaim_stale now older_than rows)
  unfolding reclaim_stale
  reclaim_stale-IsSound now older_than [] h = tt
  reclaim_stale-IsSound now older_than (r ∷ rows) h =
      ground (arith, reclaim_stale-IsSound now older_than rows h.1)

-- The table that a worker with this bound on retries leaves and finds.
pub record IsTable (max_retries : ℕ) (rows : List Row) : Type 0 where
  pub keyed : IsKeyed rows
  pub sound : All (IsSound max_retries) rows

module _ (max_retries : ℕ) (rows : List Row) (h : IsTable max_retries rows) where
  pub claim_rows-IsTable :
      (locked : ℕ → Bool) (now limit : ℕ)
      → IsTable max_retries (claim_rows now (claim_ids locked limit rows) rows)
  claim_rows-IsTable locked now limit = record {
    keyed =
        IsKeyed-same rows (claim_rows now (claim_ids locked limit rows) rows)
          (events-claim_rows now (claim_ids locked limit rows) rows) h.keyed;
    sound =
        claim_rows-IsSound max_retries now (claim_ids locked limit rows) rows
          (λ i c m. contains-claim_ids locked limit i rows c) h.keyed h.sound;
  }

  pub mark_done-IsTable : (now id : ℕ) → IsTable max_retries (mark_done now id rows)
  mark_done-IsTable now id = record {
    keyed = IsKeyed-same rows (mark_done now id rows) (events-mark_done now id rows) h.keyed;
    sound = mark_done-IsSound max_retries now id rows h.sound;
  }

  pub mark_failed-IsTable :
      (id : ℕ) (message : String) → IsTable max_retries (mark_failed id message max_retries rows)
  mark_failed-IsTable id message = record {
    keyed =
        IsKeyed-same rows (mark_failed id message max_retries rows)
          (events-mark_failed id message max_retries rows) h.keyed;
    sound = mark_failed-IsSound max_retries id message rows h.sound;
  }

  pub reclaim_stale-IsTable :
      (now older_than : ℕ) → IsTable max_retries (reclaim_stale now older_than rows)
  reclaim_stale-IsTable now older_than = record {
    keyed =
        IsKeyed-same rows (reclaim_stale now older_than rows)
          (events-reclaim_stale now older_than rows) h.keyed;
    sound = reclaim_stale-IsSound max_retries now older_than rows h.sound;
  }
