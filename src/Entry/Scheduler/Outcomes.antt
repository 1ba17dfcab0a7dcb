-- ===== src/Entry/Scheduler/Outcomes.antt =====
-- What one execution of a schedule may do to the tables.
use saas_forge.Base.{[], ℕ, Bool, ◌≡◌, ◌≢◌, Option, some, none, List}
use saas_forge.Errors.{Err, Result, ok, err}
use saas_forge.Schedule.Table.{
  EntrySchedule, publish, done, stale, claim_due_entry_schedule, finish_entry_schedule,
  mark_schedules_superseded,
}
use saas_forge.Entry.Store.{Entry, Store, find_entry}
use saas_forge.Entry.Publish.{set_publication}
use saas_forge.Entry.Publish.Entries.{IsLockedUpdate}
use saas_forge.Entry.Scheduler.{
  Notice, went_stale, succeeded, schedule_target_status, stamp, release_instant,
}

abbrev pub target : EntrySchedule → Store → Option Entry
target s before = find_entry s.tenant_id s.content_type_id s.entry_id before.entries

-- How a release leaves the row that it updates.
abbrev pub release : ℕ → EntrySchedule → Entry → Entry → Entry
release at s e =
    set_publication (stamp at s e) (schedule_target_status s.action)
      (release_instant at (schedule_target_status s.action) e)

module _ (locked : ℕ → Bool) (at : ℕ) where
  abbrev pub claimed : EntrySchedule → Store → Option EntrySchedule
  claimed s before = claim_due_entry_schedule locked s.tenant_id s.id at before.schedules

  -- What one execution may do: nothing; skip a schedule whose version has moved on, which stays
  -- unpublished; or release the version that was approved.
  pub data Executed (s : EntrySchedule) (before after_it : Store)
      : Result (Option Notice) → Type 0 where
    refused : (e : Err) → after_it ≡ before → Executed s before after_it (err e)
    not_claimed : claimed s before ≡ none → after_it ≡ before → Executed s before after_it (ok none)
    skipped :
        (c : EntrySchedule) (e : Entry)
        → claimed s before ≡ some c
        → target c before ≡ some e
        → c.action ≡ publish
        → e.version ≢ c.pinned_version
        → after_it.entries ≡ before.entries
        → finish_entry_schedule c.tenant_id c.id stale none [] before.schedules
          ≡ ok after_it.schedules
        → Executed s before after_it (ok (some (record { kind = went_stale; entry_id = e.id })))
    released :
        (c : EntrySchedule) (e : Entry) (rows : List EntrySchedule)
        → claimed s before ≡ some c
        → target c before ≡ some e
        → (c.action ≡ publish → e.version ≡ c.pinned_version)
        → IsLockedUpdate (stamp at c e) (release at c e) before.entries after_it.entries
        → finish_entry_schedule c.tenant_id c.id done (some at) [] before.schedules ≡ ok rows
        → after_it.schedules ≡ mark_schedules_superseded e.tenant_id e.id rows
        → Executed s before after_it (ok (some (record { kind = succeeded; entry_id = e.id })))
