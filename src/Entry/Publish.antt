-- ===== src/Entry/Publish.antt =====
-- internal/cms/content/repository/postgres_repository.go: SetEntryPublishState and UpdateEntry.
pub mod Tables
pub mod Entries
pub mod Schedules
pub mod Copies
use saas_forge.Base.{
  ℕ, ◌+◌, String, Bool, true, false, List, [], ◌∷◌, ◌++◌, ◌&&◌, ◌==◌, if◌then◌else◌, Option, some,
  none, is_some, ltb,
}
use saas_forge.Errors.{Err, Result, ok, err}
use saas_forge.Effects.{Run, Db, ◌>>=◌, ◌>>◌, return, refuse_if, need, given, ask, write, attempt}
use saas_forge.Schedule.Table.{
  EntrySchedule, is_pending_for, pins_version, mark_schedules_stale, mark_schedules_superseded,
}
use saas_forge.Entry.Store.{
  Status, draft, published, Entry, TypeRow, Link, Origin, by_hand, Activity, entry_schedule_stale,
  Store, find_type, find_entry, update_entry_at, entry_at,
}
use saas_forge.Entry.Repository.{
  Ports, is_published, links_of, drop_links, insert_publish_revision, trim_publish_revisions,
  record_entry_revision, refresh_entry_unique_values, emit_entry_event,
}

-- What the `UPDATE` of `SetEntryPublishState` sets. `e` is the caller's copy of the entry.
unfoldable pub set_publication : Entry → Status → Option ℕ → Entry → Entry
set_publication e status published_at row = record row {
  status = status;
  published_at = published_at;
  updated_at = e.updated_at;
  updated_by = e.updated_by;
  updated_by_kind = e.updated_by_kind;
  updated_by_agent = e.updated_by_agent;
  published_payload = if is_published status then some row.payload else row.published_payload;
  published_search_text =
      if is_published status then some row.search_text else row.published_search_text;
  published_version = if is_published status then some (row.version + 1) else row.published_version;
  published_by = if is_published status then e.published_by else row.published_by;
  version = row.version + 1;
}

-- the `UPDATE` of `UpdateEntry`
unfoldable pub set_payload : Entry → Entry → Entry
set_payload e row = record row {
  payload = e.payload;
  search_text = e.search_text;
  updated_at = e.updated_at;
  updated_by = e.updated_by;
  updated_by_kind = e.updated_by_kind;
  updated_by_agent = e.updated_by_agent;
  version = row.version + 1;
}

-- An update under the optimistic lock: the row as it now stands, if the version still matched.
abbrev pub update_locked : Entry → (Entry → Entry) → Store → Result (Option Entry × Store)
update_locked e set s = elim (entry_at e.tenant_id e.content_type_id e.id e.version s.entries) [
  | none ↦ ok (none, s)
  | some row ↦ ok (
    some (set row),
    record s {
      entries = update_entry_at e.tenant_id e.content_type_id e.id e.version set s.entries;
    },
  )
]

-- the activity lines of the schedules that an edit overtakes
unfoldable pub stale_lines : Entry → String → List EntrySchedule → List Activity
unfolding pins_version
stale_lines e name [] = []
stale_lines e name (s ∷ rows) =
    let rest = stale_lines e name rows in
    if is_pending_for e.tenant_id e.id s && pins_version s && ltb s.pinned_version e.version
    then record {
      tenant_id = e.tenant_id;
      occurred_at = e.updated_at;
      actor_user_id = e.updated_by;
      action = entry_schedule_stale;
      target_type = name;
      target_entry_id = e.id;
      origin = by_hand;
      details = some (s.id, (s.pinned_version, e.version));
    }
      ∷ rest
    else rest

-- `COALESCE(ct.name, '')`
abbrev type_name : Entry → List TypeRow → String
type_name e types = elim (find_type e.tenant_id e.content_type_id types) [
  | none ↦ ""
  | some ct ↦ ct.name
]

module _ (p : Ports) (fails : ℕ → Bool) (now : ℕ) where
  -- No row matched: the entry is gone, or its version has moved on.
  unfoldable pub or_conflict : Entry → Option Entry → Db Store Entry
  or_conflict e (some row) = return row
  or_conflict e none = do
    present ← ask fails (λ s. is_some (find_entry e.tenant_id e.content_type_id e.id s.entries))
    refuse_if present Err.version_conflict
    given (err Err.not_found)

  -- the published references follow the snapshot
  unfoldable pub republish_links : Entry → Db Store (Unit {0})
  republish_links e = do
    write fails (λ s. record s { media_published = drop_links e.tenant_id e.id s.media_published })
    write fails
        (λ s. record s { media_published = s.media_published ++ links_of e.tenant_id e.id s.media })
    write fails
        (λ s. record s { relations_published = drop_links e.tenant_id e.id s.relations_published })
    write fails (λ s. record s {
      relations_published = s.relations_published ++ links_of e.tenant_id e.id s.relations;
    })

  unfoldable pub record_publish_revision : Entry → Origin → Db Store (Unit {0})
  unfolding insert_publish_revision trim_publish_revisions
  record_publish_revision e origin = do
    write fails (insert_publish_revision e.tenant_id e.id origin)
    write fails (trim_publish_revisions e.tenant_id e.id)

  -- the rest of the transaction, once the row is updated
  unfoldable pub after_publication : Entry → Status → Origin → Entry → Db Store Entry
  unfolding republish_links record_publish_revision
  after_publication e status origin row = do
    refresh_entry_unique_values p fails e.tenant_id e.id
    write fails
        (λ s. record s { schedules = mark_schedules_superseded e.tenant_id e.id s.schedules })
    (if is_published status then republish_links e else return tt)
    (if is_published status then record_publish_revision e origin else return tt)
    emit_entry_event p fails now
        (if is_published status then "content.entry.published" else "content.entry.unpublished") e
        (p.event_key e.id (if is_published status then "published" else "draft") row.version)
    return row

  unfoldable pub set_entry_publish_state : Entry → Status → Option ℕ → Origin → Db Store Entry
  unfolding set_publication or_conflict after_publication
  set_entry_publish_state e status published_at origin = do
    matched ← attempt fails (update_locked e (set_publication e status published_at))
    row ← or_conflict e matched
    after_publication e status origin row

  -- `markSchedulesStale`, for the entry as it stands after the write
  unfoldable pub overtake_schedules : Entry → Store → Store
  unfolding stale_lines
  overtake_schedules e s = record s {
    schedules = mark_schedules_stale e.tenant_id e.id e.version s.schedules;
    activity = s.activity ++ stale_lines e (type_name e s.types) s.schedules;
  }

  unfoldable pub after_edit : Entry → Entry → Db Store Entry
  unfolding overtake_schedules
  after_edit e row = do
    refresh_entry_unique_values p fails e.tenant_id e.id
    write fails (record_entry_revision e.tenant_id e.id)
    write fails (overtake_schedules (record e { version = row.version }))
    emit_entry_event p fails now "content.entry.updated" e (p.event_key e.id "updated" row.version)
    return row

  unfoldable pub update_entry : Entry → Db Store Entry
  unfolding set_payload or_conflict after_edit
  update_entry e = do
    matched ← attempt fails (update_locked e (set_payload e))
    row ← or_conflict e matched
    after_edit e row
