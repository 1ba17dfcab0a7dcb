-- ===== src/Entry/Repository.antt =====
-- internal/cms/content/repository: the statements that move an entry, each as one database action.
-- They run inside a transaction, which their callers open.
use saas_forge.Base.{
  ℕ, ◌+◌, String, Bool, true, false, List, [], ◌∷◌, ◌++◌, ◌&&◌, ◌||◌, ◌==◌, nat_eq, string_eq, not,
  if◌then◌else◌, Option, some, none, leb, ltb, contains,
}
use saas_forge.Errors.{Err}
use saas_forge.Effects.{Db, ◌>>=◌, ◌>>◌, return, refuse_if, need, ask, write, write_with}
use saas_forge.Outbox.Table.{enqueue}
use saas_forge.Entry.Store.{
  Status, draft, published, Entry, UniqueField, Reservation, Held, Link, Origin, PublishRevision,
  Store, find_type,
}

abbrev pub is_published : Status → Bool
is_published status = elim status [ published ↦ true | draft ↦ false ]

-- What the statements take from outside: whether an outbox is wired, the id of a new outbox row,
-- `payload ->> key`, the JSON of a `ContentEventPayload`, and the text of an idempotency key (the
-- entry, what happened to it, its version).
pub record Ports : Type 0 where
  pub outbox_wired : Bool
  pub new_row_id : ℕ → ℕ
  pub text_at : String → String → Option String
  pub event_payload : String → ℕ → String → String → String
  pub event_key : ℕ → String → ℕ → String

-- `WHERE x.value IS NOT NULL AND x.value <> ''`
abbrev some_text : Option String → List String
some_text none = []
some_text (some v) = if v == "" then [] else v ∷ []

-- `SELECT DISTINCT`, of two
abbrev distinct : List String → List String → List String
distinct xs [] = xs
distinct xs (y ∷ ys) = let rest = distinct xs ys in if contains xs y then rest else y ∷ rest

abbrev reserve : UniqueField → Entry → List String → List Reservation
reserve f e [] = []
reserve f e (v ∷ vs) = record { field_id = f.id; locale = e.locale; value = v } ∷ reserve f e vs

abbrev same_reservation : Reservation → Reservation → Bool
same_reservation a b = a.field_id == b.field_id && a.locale == b.locale && a.value == b.value

-- another entry holds the value
abbrev is_taken : ℕ → Reservation → List Held → Bool
is_taken id v [] = false
is_taken id v (h ∷ hs) =
    (same_reservation h.reservation v && not (h.entry_id == id)) || is_taken id v hs

abbrev any_taken : ℕ → List Reservation → List Held → Bool
any_taken id [] hs = false
any_taken id (v ∷ vs) hs = is_taken id v hs || any_taken id vs hs

abbrev release : String → ℕ → List Held → List Held
release t id [] = []
release t id (h ∷ hs) =
    let rest = release t id hs in if h.tenant_id == t && h.entry_id == id then rest else h ∷ rest

abbrev hold : String → ℕ → List Reservation → List Held
hold t id [] = []
hold t id (v ∷ vs) = record { entry_id = id; tenant_id = t; reservation = v } ∷ hold t id vs

-- `WHERE tenant_id = t AND id = id`
abbrev pub entry_by_id : String → ℕ → List Entry → Option Entry
entry_by_id t id [] = none
entry_by_id t id (e ∷ es) = if e.tenant_id == t && e.id == id then some e else entry_by_id t id es

-- `DELETE` what the published copy held, then copy the working links
abbrev pub links_of : String → ℕ → List Link → List Link
links_of t id [] = []
links_of t id (l ∷ ls) =
    let rest = links_of t id ls in if l.tenant_id == t && l.entry_id == id then l ∷ rest else rest

abbrev pub drop_links : String → ℕ → List Link → List Link
drop_links t id [] = []
drop_links t id (l ∷ ls) =
    let rest = drop_links t id ls in if l.tenant_id == t && l.entry_id == id then rest else l ∷ rest

abbrev pub max_publish_revisions : ℕ
max_publish_revisions = 20

-- `MAX(revision_no)` of an entry, 0 if there is none
abbrev max_revision : String → ℕ → List PublishRevision → ℕ
max_revision t id [] = 0
max_revision t id (r ∷ rs) =
    let rest = max_revision t id rs in
    if r.tenant_id == t && r.entry_id == id && ltb rest r.revision_no then r.revision_no else rest

-- `revision_no <= MAX - 20`, which no revision is while the maximum is below 20
abbrev trim_revisions : String → ℕ → ℕ → List PublishRevision → List PublishRevision
trim_revisions t id newest [] = []
trim_revisions t id newest (r ∷ rs) =
    let rest = trim_revisions t id newest rs in
    if r.tenant_id == t && r.entry_id == id && leb (r.revision_no + max_publish_revisions) newest
    then rest
    else r ∷ rest

-- the `INSERT` of `recordPublishRevision`, and the trim after it
unfoldable pub insert_publish_revision : String → ℕ → Origin → Store → Store
insert_publish_revision t id origin s = elim (entry_by_id t id s.entries) [
  | none ↦ s
  | some e ↦ elim e.published_payload [
    | none ↦ s
    | some payload ↦ record s {
      publish_revisions =
          s.publish_revisions
          ++ (record {
            tenant_id = t;
            entry_id = id;
            revision_no = max_revision t id s.publish_revisions + 1;
            payload = payload;
            version = e.published_version;
            published_at = e.updated_at;
            published_by = e.published_by;
            origin = origin;
          }
              ∷ []);
    }
  ]
]

unfoldable pub trim_publish_revisions : String → ℕ → Store → Store
trim_publish_revisions t id s = record s {
  publish_revisions =
      trim_revisions t id (max_revision t id s.publish_revisions) s.publish_revisions;
}

unfoldable pub record_entry_revision : String → ℕ → Store → Store
record_entry_revision t id s = elim (entry_by_id t id s.entries) [
  | none ↦ s
  | some e ↦ record s {
    entry_revisions =
        s.entry_revisions
        ++ (record { tenant_id = t; entry_id = id; version = e.version; payload = e.payload } ∷ []);
  }
]

module _ (p : Ports) where
  -- `reservationsSQL`: what an entry holds of the unique fields of its type
  unfoldable pub reservations : Entry → List UniqueField → List Reservation
  reservations e [] = []
  reservations e (f ∷ fs) =
      let rest = reservations e fs in
      if f.content_type_id == e.content_type_id
      then reserve f e (
          distinct (some_text (p.text_at e.payload f.key))
            (some_text (if is_published e.status then snapshot e f.key else none)))
        ++ rest
      else rest
    where
      snapshot : Entry → String → Option String
      snapshot e key = elim e.published_payload [ none ↦ none | some s ↦ p.text_at s key ]

  held_by : String → ℕ → Store → List Reservation
  unfolding reservations
  held_by t id s = elim (entry_by_id t id s.entries) [
    | none ↦ []
    | some e ↦ reservations e s.unique_fields
  ]

  -- The pre-check, the `DELETE` and the `INSERT`.
  unfoldable pub refresh_entry_unique_values : (ℕ → Bool) → String → ℕ → Db Store (Unit {0})
  unfolding held_by
  refresh_entry_unique_values fails t id = do
    taken ← ask fails (λ s. any_taken id (held_by t id s) s.unique_values)
    refuse_if taken Err.value_taken
    write fails (λ s. record s { unique_values = release t id s.unique_values })
    write fails (λ s. record s { unique_values = s.unique_values ++ hold t id (held_by t id s) })

  unfoldable pub emit_entry_event : (ℕ → Bool) → ℕ → String → Entry → String → Db Store (Unit {0})
  unfolding enqueue
  emit_entry_event fails now event_type e key = if not p.outbox_wired then return tt else (do
    found ← ask fails (λ s. find_type e.tenant_id e.content_type_id s.types)
    ct ← need found Err.internal
    write_with fails (λ n s. record s {
      outbox =
          enqueue (p.new_row_id n) now e.id event_type
            (p.event_payload e.tenant_id e.id ct.name e.locale) key s.outbox;
    }))
