-- ===== src/Entry/Publish/Schedules.antt =====
-- What SetEntryPublishState leaves of the schedules: the entry's pending ones are superseded.
use saas_forge.Base.{ℕ, Bool, ◌≡◌, refl, ◌∙◌, Option, some, none, arith, ap, List}
use saas_forge.Errors.{ok}
use saas_forge.Effects.{Run, Db, ◌>>◌, write, attempt}
use saas_forge.Effects.Leaves.{Leaves, left, Leaves-write, leaves_rules}
use saas_forge.Entry.Publish.Tables.{IsApart, tables_rules, refresh-Leaves}
use saas_forge.Effects.Answers.{bind-ok, then-ok, write-ok, attempt-ok}
use saas_forge.Schedule.Table.{EntrySchedule, mark_schedules_superseded}
use saas_forge.Entry.Store.{Status, Entry, Origin, Store}
use saas_forge.Entry.Repository.{Ports, refresh_entry_unique_values}
use saas_forge.Entry.Publish.{
  set_publication, update_locked, set_entry_publish_state, or_conflict, after_publication,
}

abbrev schedules_of : Store → List EntrySchedule
schedules_of s = s.schedules

schedules-IsApart : IsApart schedules_of
schedules-IsApart = record {
  unique_values = λ s x. refl;
  media = λ s x. refl;
  relations = λ s x. refl;
  revisions = λ s x. refl;
  outbox = λ s x. refl;
}

module _ (p : Ports) (fails : ℕ → Bool) (now : ℕ) where
  update_locked_same :
      (e : Entry) (set : Entry → Entry) (s s' : Store) (out : Option Entry)
      → update_locked e set s ≡ ok (out, s')
      → s'.schedules ≡ s.schedules
  update_locked_same e set s s' out h = ground arith

  or_conflict_same :
      (e : Entry) (matched : Option Entry) → Leaves schedules_of (or_conflict p fails now e matched)
  unfolding or_conflict
  or_conflict_same e none = search leaves_rules
  or_conflict_same e (some row) = search leaves_rules

  abbrev supersede : Entry → Store → Store
  supersede e s = record s { schedules = mark_schedules_superseded e.tenant_id e.id s.schedules }

  supersede_then :
      (e : Entry) (rest : Db Store Entry) (r : Run Store) (out : Entry) (end : Run Store)
      → (write fails (supersede e) >> rest) r ≡ (ok out, end)
      → Leaves schedules_of rest
      → end.store.schedules ≡ mark_schedules_superseded e.tenant_id e.id r.store.schedules
  supersede_then e rest r out end h leaves =
      let (u, r1, superseded, h1) = then-ok (write fails (supersede e)) rest r out end h in
      left rest leaves r1 out end h1
      ∙ ap (λ (s : Store). s.schedules) (write-ok fails (supersede e) r u r1 superseded)

  after_publication_supersedes :
      (e : Entry) (status : Status) (o : Origin) (row : Entry) (r : Run Store) (out : Entry)
      (end : Run Store)
      → after_publication p fails now e status o row r ≡ (ok out, end)
      → end.store.schedules ≡ mark_schedules_superseded e.tenant_id e.id r.store.schedules
  unfolding after_publication
  after_publication_supersedes e status o row r out end h =
      let (_, r1, refreshed, h1) =
        then-ok (refresh_entry_unique_values p fails e.tenant_id e.id) _ r out end h in
      supersede_then e _ r1 out end h1
        (search (leaves_rules, tables_rules, Leaves-write, schedules-IsApart) depth 14)
      ∙ ap (mark_schedules_superseded e.tenant_id e.id)
          (left _ (refresh-Leaves schedules-IsApart p fails now e.tenant_id e.id) r _ r1 refreshed)

  pub set_entry_publish_state-schedules :
      (e : Entry) (status : Status) (published_at : Option ℕ) (o : Origin) (r : Run Store)
      (row : Entry) (end : Run Store)
      → set_entry_publish_state p fails now e status published_at o r ≡ (ok row, end)
      → end.store.schedules ≡ mark_schedules_superseded e.tenant_id e.id r.store.schedules
  unfolding set_entry_publish_state
  set_entry_publish_state-schedules e status published_at o r row end h =
      let update = update_locked e (set_publication e status published_at) in
      let (matched, r1, updated, h1) = bind-ok (attempt fails update) _ r row end h in
      let (found, r2, same, h2) = bind-ok (or_conflict p fails now e matched) _ r1 row end h1 in
      let unchanged =
        update_locked_same e (set_publication e status published_at) r.store r1.store matched
          (attempt-ok fails update r matched r1 updated) in
      after_publication_supersedes e status o found r2 row end h2
      ∙ ap (mark_schedules_superseded e.tenant_id e.id) (
          left (or_conflict p fails now e matched) (or_conflict_same e matched) r1 found r2 same
          ∙ unchanged)
