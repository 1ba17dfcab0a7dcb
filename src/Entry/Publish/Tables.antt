-- ===== src/Entry/Publish/Tables.antt =====
-- The statements that follow an update of an entry, by the tables that they write.
use saas_forge.Base.{ℕ, String, Bool, ◌≡◌, arith, List}
use saas_forge.Effects.Leaves.{Leaves, Leaves-write, Leaves-write_with, leaves_rules}
use saas_forge.Outbox.Table.{Row as OutboxRow}
use saas_forge.Entry.Store.{Entry, Origin, Store, Held, Link, PublishRevision}
use saas_forge.Entry.Repository.{
  Ports, refresh_entry_unique_values, emit_entry_event, insert_publish_revision,
  trim_publish_revisions,
}
use saas_forge.Entry.Publish.{republish_links, record_publish_revision}

-- A part of the store that is none of these tables.
pub record IsApart {V : Type 0} (f : Store → V) : Type 0 where
  pub unique_values : (s : Store) (x : List Held) → f (record s { unique_values = x }) ≡ f s
  pub media : (s : Store) (x : List Link) → f (record s { media_published = x }) ≡ f s
  pub relations : (s : Store) (x : List Link) → f (record s { relations_published = x }) ≡ f s
  pub revisions :
      (s : Store) (x : List PublishRevision) → f (record s { publish_revisions = x }) ≡ f s
  pub outbox : (s : Store) (x : List OutboxRow) → f (record s { outbox = x }) ≡ f s

module _ {V : Type 0} {f : Store → V} (apart : IsApart f) (p : Ports) (fails : ℕ → Bool)
    (now : ℕ) where
  pub refresh-Leaves : (t : String) (id : ℕ) → Leaves f (refresh_entry_unique_values p fails t id)
  unfolding refresh_entry_unique_values
  refresh-Leaves t id = search (leaves_rules, Leaves-write, apart.unique_values)

  pub emit-Leaves :
      (kind : String) (e : Entry) (key : String)
      → Leaves f (emit_entry_event p fails now kind e key)
  unfolding emit_entry_event
  emit-Leaves kind e key = search (leaves_rules, Leaves-write_with, apart.outbox) depth 8

  pub republish-Leaves : (e : Entry) → Leaves f (republish_links p fails now e)
  unfolding republish_links
  republish-Leaves e = search (leaves_rules, Leaves-write, apart.media, apart.relations)

  insert_same :
      (t : String) (id : ℕ) (o : Origin) (s : Store) → f (insert_publish_revision t id o s) ≡ f s
  unfolding insert_publish_revision
  insert_same t id o s = grind (arith, apart.revisions)

  pub revision-Leaves :
      (e : Entry) (o : Origin) → Leaves f (record_publish_revision p fails now e o)
  unfolding record_publish_revision trim_publish_revisions
  revision-Leaves e o = search (leaves_rules, Leaves-write, insert_same, apart.revisions)

pub ruleset tables_rules = (refresh-Leaves, emit-Leaves, republish-Leaves, revision-Leaves)
