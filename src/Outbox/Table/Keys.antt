-- ===== src/Outbox/Table/Keys.antt =====
-- The idempotency keys of the outbox.
use saas_forge.Base.{
  equal_refl, equal_sym, ◌∙◌, ℕ, String, ◌≡◌, refl, true, false, List, [], ◌∷◌, ◌++◌, ◌||◌, ◌==◌,
  string_eq, nat_eq, arith, Bool-cases, inl, inr,
}
use saas_forge.Outbox.Table.{Row, has_key, enqueue}

-- `UNIQUE (idempotency_key)`
abbrev pub IsUnique : List Row → Type 0
IsUnique [] = Unit
IsUnique (r ∷ rows) = (has_key r.idempotency_key rows ≡ false) × IsUnique rows

has_key-append :
    (key : String) (rows : List Row) (r : Row)
    → has_key key (rows ++ (r ∷ [])) ≡ (has_key key rows || r.idempotency_key == key)
has_key-append key [] r = ground arith
has_key-append key (x ∷ rows) r = ground (arith, has_key-append key rows r)

append-IsUnique :
    (rows : List Row) (r : Row)
    → IsUnique rows
    → has_key r.idempotency_key rows ≡ false
    → IsUnique (rows ++ (r ∷ []))
append-IsUnique [] r h new = ground arith
append-IsUnique (x ∷ rows) r h new = ground (
  arith,
  append-IsUnique rows r h.1,
  has_key-append x.idempotency_key rows r,
  equal_sym r.idempotency_key x.idempotency_key,
)

-- Enqueueing an event keeps the idempotency keys of the table unique.
pub enqueue-IsUnique :
    (id now aggregate_id : ℕ) (event_type payload key : String) (rows : List Row)
    → IsUnique rows
    → IsUnique (enqueue id now aggregate_id event_type payload key rows)
unfolding enqueue
enqueue-IsUnique id now aggregate_id event_type payload key rows h =
    elim (Bool-cases (has_key key rows)) [
      | inl there ↦ rw there h
      | inr new ↦ rw new (append-IsUnique rows _ h new)
    ]

enqueue-has_key :
    (id now aggregate_id : ℕ) (event_type payload key : String) (rows : List Row)
    → has_key key (enqueue id now aggregate_id event_type payload key rows) ≡ true
unfolding enqueue
enqueue-has_key id now aggregate_id event_type payload key rows =
    elim (Bool-cases (has_key key rows)) [
      | inl there ↦ rw there there
      | inr new ↦ rw new (has_key-append key rows _ ∙ ground (arith, equal_refl key))
    ]

enqueue_present :
    (id now aggregate_id : ℕ) (event_type payload key : String) (rows : List Row)
    → has_key key rows ≡ true
    → enqueue id now aggregate_id event_type payload key rows ≡ rows
unfolding enqueue
enqueue_present id now aggregate_id event_type payload key rows there = rw there refl

-- Enqueueing again under the same key, whatever else the second event says, changes nothing.
pub enqueue_twice :
    (id id' now now' aggregate_id aggregate_id' : ℕ)
    (event_type event_type' payload payload' key : String) (rows : List Row)
    → enqueue id' now' aggregate_id' event_type' payload' key
        (enqueue id now aggregate_id event_type payload key rows)
      ≡ enqueue id now aggregate_id event_type payload key rows
enqueue_twice id id' now now' aggregate_id aggregate_id' event_type event_type' payload payload' key
      rows =
    enqueue_present id' now' aggregate_id' event_type' payload' key
      (enqueue id now aggregate_id event_type payload key rows)
      (enqueue-has_key id now aggregate_id event_type payload key rows)
