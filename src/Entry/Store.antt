-- ===== src/Entry/Store.antt =====
-- The tables of the content plane that the publication of an entry reads and writes. Ids and
-- instants are numbers, a payload is its JSON text.
use saas_forge.Base.{
  ℕ, String, Bool, List, [], ◌∷◌, ◌&&◌, ◌==◌, nat_eq, string_eq, if◌then◌else◌, Option, some, none,
}
use saas_forge.Outbox.Table.{Row as OutboxRow}
use saas_forge.Schedule.Table.{EntrySchedule}

-- `Status*`
pub data Status : Type 0 where
  draft published : Status

-- `ActorKind*`, of the columns that name who wrote
pub data WriterKind : Type 0 where
  human agent : WriterKind

pub record Entry : Type 0 where
  pub id : ℕ
  pub tenant_id : String
  pub content_type_id : ℕ
  pub payload : String
  pub search_text : String
  pub published_search_text : Option String
  pub version : ℕ
  pub status : Status
  pub published_payload : Option String
  pub published_version : Option ℕ
  pub published_at : Option ℕ
  pub locale : String
  pub updated_by : Option ℕ
  pub published_by : Option ℕ
  pub updated_by_kind : Option WriterKind
  pub updated_by_agent : Option String
  pub updated_at : ℕ

-- What a row of `content_types` is read for here.
pub record TypeRow : Type 0 where
  pub id : ℕ
  pub tenant_id : String
  pub name : String

-- A row of `content_type_fields` with `is_unique`.
pub record UniqueField : Type 0 where
  pub id : ℕ
  pub content_type_id : ℕ
  pub key : String

-- A value of a unique field, as the ledger holds it.
pub record Reservation : Type 0 where
  pub field_id : ℕ
  pub locale : String
  pub value : String

pub record Held : Type 0 where
  pub entry_id : ℕ
  pub tenant_id : String
  pub reservation : Reservation

-- A row of `entry_media`, `entry_relations` or their published copies: what an entry refers to, by
-- the path of the field (empty for media).
pub record Link : Type 0 where
  pub entry_id : ℕ
  pub tenant_id : String
  pub path : String
  pub target : ℕ

-- `PublishOrigin`: by hand, or by a schedule
pub data Origin : Type 0 where
  by_hand : Origin
  by_schedule : ℕ → Origin

-- `EntryPublishRevision`
pub record PublishRevision : Type 0 where
  pub tenant_id : String
  pub entry_id : ℕ
  pub revision_no : ℕ
  pub payload : String
  pub version : Option ℕ
  pub published_at : ℕ
  pub published_by : Option ℕ
  pub origin : Origin

-- `EntryRevision`
pub record EntryRevision : Type 0 where
  pub tenant_id : String
  pub entry_id : ℕ
  pub version : ℕ
  pub payload : String

pub data ActivityAction : Type 0 where
  entry_publish entry_unpublish entry_schedule_stale : ActivityAction

-- `Activity`, as the worker and the statements here write it
pub record Activity : Type 0 where
  pub tenant_id : String
  pub occurred_at : ℕ
  pub actor_user_id : Option ℕ
  pub action : ActivityAction
  pub target_type : String
  pub target_entry_id : ℕ
  pub origin : Origin
  -- `ScheduleStaleDetails`: the schedule, its pinned version, the entry's version
  pub details : Option (ℕ × (ℕ × ℕ))

pub record Store : Type 0 where
  pub types : List TypeRow
  pub unique_fields : List UniqueField
  pub entries : List Entry
  pub schedules : List EntrySchedule
  pub unique_values : List Held
  pub media : List Link
  pub media_published : List Link
  pub relations : List Link
  pub relations_published : List Link
  pub publish_revisions : List PublishRevision
  pub entry_revisions : List EntryRevision
  pub activity : List Activity
  pub outbox : List OutboxRow

-- `WHERE tenant_id = t AND content_type_id = ct AND id = id`
abbrev pub is_entry : String → ℕ → ℕ → Entry → Bool
is_entry t ct id e = e.tenant_id == t && e.content_type_id == ct && e.id == id

abbrev pub find_entry : String → ℕ → ℕ → List Entry → Option Entry
find_entry t ct id [] = none
find_entry t ct id (e ∷ es) = if is_entry t ct id e then some e else find_entry t ct id es

abbrev pub find_type : String → ℕ → List TypeRow → Option TypeRow
find_type t id [] = none
find_type t id (ct ∷ cts) = if ct.tenant_id == t && ct.id == id then some ct else find_type t id cts

-- `UPDATE entries … WHERE … AND version = v`, with what it sets
abbrev pub update_entry_at : String → ℕ → ℕ → ℕ → (Entry → Entry) → List Entry → List Entry
update_entry_at t ct id v set [] = []
update_entry_at t ct id v set (e ∷ es) =
    (if is_entry t ct id e && e.version == v then set e else e) ∷ update_entry_at t ct id v set es

-- the row that it matches
abbrev pub entry_at : String → ℕ → ℕ → ℕ → List Entry → Option Entry
entry_at t ct id v [] = none
entry_at t ct id v (e ∷ es) =
    if is_entry t ct id e && e.version == v then some e else entry_at t ct id v es
