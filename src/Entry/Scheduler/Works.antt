-- ===== src/Entry/Scheduler/Works.antt =====
-- What a tick does with the schedules that are due, one after the other.
use saas_forge.Base.{
  ℕ, ◌+◌, true, false, ◌≡◌, ◌≤◌, Option, none, some, List, [], ◌∷◌, ◌++◌, if◌then◌else◌,
}
use saas_forge.Errors.{Err, Result, ok, err}
use saas_forge.Effects.{Run}
use saas_forge.Schedule.Table.{
  EntrySchedule, failed, finish_entry_schedule, list_due_entry_schedules,
}
use saas_forge.Entry.Store.{Store}
use saas_forge.Entry.Scheduler.{clip, run_failed, Notice, Scheduler, World, execute}
use saas_forge.Entry.Scheduler.Outcomes.{Executed}

module _ (w : Scheduler) (at : ℕ) where
  -- the notices once the requester of the schedule is told, if there is anything to tell
  abbrev pub told : EntrySchedule → Option Notice → List (ℕ × Notice) → List (ℕ × Notice)
  told s none notices = notices
  told s (some n) notices =
      if w.notifier_wired then notices ++ ((s.requested_by, n) ∷ []) else notices

  -- The failure of a schedule as it is to be written.
  abbrev pub with_failure :
      EntrySchedule → Err → ℕ → List EntrySchedule → Result (List EntrySchedule)
  with_failure s cause now rows =
      finish_entry_schedule s.tenant_id s.id failed (some (w.clock now)) (clip (w.message cause))
        rows

  -- Why a failure is not written, after `now` database calls.
  pub data Hindered (s : EntrySchedule) (cause : Err) (now : ℕ) (st : Store) : Type 0 where
    stopping : w.cancelled now ≡ true → Hindered s cause now st
    call_refused : (n : ℕ) → now ≤ n → n ≤ now + 2 → w.fails n ≡ true → Hindered s cause now st
    cannot_finish :
        (e : Err) → with_failure s cause now st.schedules ≡ err e → Hindered s cause now st

  -- What becomes of one due schedule.
  pub data Turn (s : EntrySchedule) (world after_it : World) : Type 0 where
    carried_out :
        (n : Option Notice)
        → Executed (w.locks world.run.calls) at s world.run.store after_it.run.store (ok n)
        → after_it.notices ≡ told s n world.notices
        → Turn s world after_it
    given_up :
        (cause : Err) (r : Run Store) (rows : List EntrySchedule)
        → execute w.ports w.fails (w.locks world.run.calls) at s world.run ≡ (err cause, r)
        → with_failure s cause r.calls world.run.store.schedules ≡ ok rows
        → after_it.run.store ≡ record world.run.store { schedules = rows }
        → after_it.notices
          ≡ told s (some (record { kind = run_failed; entry_id = s.entry_id })) world.notices
        → Turn s world after_it
    unrecorded :
        (cause : Err) (r : Run Store)
        → execute w.ports w.fails (w.locks world.run.calls) at s world.run ≡ (err cause, r)
        → Hindered s cause r.calls world.run.store
        → after_it.run.store ≡ world.run.store
        → after_it.notices ≡ world.notices
        → Turn s world after_it

  pub data Worked : List EntrySchedule → World → World → Type 0 where
    ended : {world : World} → Worked [] world world
    stopped :
        {due : List EntrySchedule} {world : World}
        → w.cancelled world.run.calls ≡ true
        → Worked due world world
    next :
        {s : EntrySchedule} {due : List EntrySchedule} {world between after_it : World}
        → w.cancelled world.run.calls ≡ false
        → Turn s world between
        → Worked due between after_it
        → Worked (s ∷ due) world after_it

-- What one tick may do.
pub data Ticked (w : Scheduler) (world after_it : World) : Type 0 where
  unlisted :
      w.fails world.run.calls ≡ true
      → after_it.run.store ≡ world.run.store
      → after_it.notices ≡ world.notices
      → Ticked w world after_it
  worked_off :
      Worked w
        (w.clock world.run.calls)
        (list_due_entry_schedules (w.clock world.run.calls) w.batch world.run.store.schedules)
        (record world { run = record world.run { calls = world.run.calls + 1 } })
        after_it
      → Ticked w world after_it
