-- ===== src/Entry/Scheduler/Ticks.antt =====
-- What finishing and superseding schedules keeps, the worker's loop keeps.
use saas_forge.Base.{
  ℕ, String, Bool, false, ◌≡◌, refl, sym, Option, Bool-cases, inl, inr, List, [], ◌∷◌,
}
use mathlib.Core.Path.{subst}
use saas_forge.Errors.{Err, Result, ok, err}
use saas_forge.Effects.{Run}
use saas_forge.Effects.Answers.{transaction-ok, transaction-err}
use saas_forge.Schedule.Table.{
  EntrySchedule, failed, finish_entry_schedule, mark_schedules_superseded,
}
use saas_forge.Schedule.Claims.{is_waiting}
use saas_forge.Entry.Store.{Store}
use saas_forge.Entry.Scheduler.{
  Bytes, give_up, failure, State, Notice, Scheduler, World, execute, executed, mark_failed,
  failure_recorded, run_due,
}
use saas_forge.Entry.Scheduler.Outcomes.{Executed, refused, not_claimed, skipped, released}
use saas_forge.Entry.Scheduler.Releases.{execute-Executed, finish_schedule-ok}

abbrev pub rows_of : World → List EntrySchedule
rows_of world = world.run.store.schedules

module _ (w : Scheduler) (at : ℕ) where
  pub failure_recorded-rows :
      (s : EntrySchedule) (out : Result (Unit {0})) (end : Run Store) (notices : List (ℕ × Notice))
      → rows_of (failure_recorded w at s (out, end) notices) ≡ end.store.schedules
  failure_recorded-rows s (ok u) end notices = refl
  failure_recorded-rows s (err e) end notices = refl

-- What finishing and superseding schedules keeps, a tick keeps.
module _ (Q : List EntrySchedule → Type 0)
    (finishes : (t : String) (id : ℕ) (state : State) (at : Option ℕ) (error : Bytes)
        (rows rows' : List EntrySchedule)
      → is_waiting state ≡ false
      → finish_entry_schedule t id state at error rows ≡ ok rows'
      → Q rows
      → Q rows')
    (supersedes : (t : String) (e : ℕ) (rows : List EntrySchedule)
      → Q rows
      → Q (mark_schedules_superseded t e rows)) where
  Executed-keeps :
      (locked : ℕ → Bool) (at : ℕ) (s : EntrySchedule) (before after_it : Store)
      (out : Result (Option Notice))
      → Executed locked at s before after_it out
      → Q before.schedules
      → Q after_it.schedules
  Executed-keeps locked at s before after_it out (refused e same) h =
      subst (λ (st : Store). Q st.schedules) (sym same) h
  Executed-keeps locked at s before after_it out (not_claimed is_none same) h =
      subst (λ (st : Store). Q st.schedules) (sym same) h
  Executed-keeps locked at s before after_it out
        (skipped c e is_claimed found pinned moved kept finished) h =
      finishes _ _ _ _ _ _ _ refl finished h
  Executed-keeps locked at s before after_it out
        (released c e rows is_claimed found pinned updated finished superseded) h =
      subst Q (sym superseded)
        (supersedes e.tenant_id e.id rows (finishes _ _ _ _ _ _ _ refl finished h))

  module _ (w : Scheduler) (at : ℕ) where
    pub failure-keeps :
        (s : EntrySchedule) (cause : Err) (now : ℕ) (r : Run Store) (out : Result (Unit {0}))
        (end : Run Store)
        → failure w at s cause now r ≡ (out, end)
        → Q r.store.schedules
        → Q end.store.schedules
    unfolding failure
    failure-keeps s cause now r (err e) end h kept =
        subst (λ (st : Store). Q st.schedules)
          (sym (transaction-err w.fails (give_up w at s cause now) r e end h)) kept
    failure-keeps s cause now r (ok u) end h kept =
        let (last, finished, same) = transaction-ok w.fails (give_up w at s cause now) r u end h in
        let (rows, _) =
          finish_schedule-ok w.ports w.fails (w.locks now) at s failed _ _ _ u last finished in
        subst (λ (st : Store). Q st.schedules) (sym same) (finishes _ _ _ _ _ _ _ refl rows kept)

    mark_failed-keeps :
        (s : EntrySchedule) (cause : Err) (world : World)
        → Q (rows_of world)
        → Q (rows_of (mark_failed w at s cause world))
    unfolding mark_failed
    mark_failed-keeps s cause world h =
        let (out, end) = failure w at s cause world.run.calls world.run in
        elim (Bool-cases (w.cancelled world.run.calls)) [
          | inl stopping ↦ rw stopping h
          | inr running ↦ rw running (
              subst Q (sym (failure_recorded-rows w at s out end world.notices))
                (failure-keeps s cause world.run.calls world.run out end refl h))
        ]

    executed-keeps :
        (s : EntrySchedule) (world : World) (out : Result (Option Notice)) (end : Run Store)
        → Executed (w.locks world.run.calls) at s world.run.store end.store out
        → Q (rows_of world)
        → Q (rows_of (executed w at s (out, end) world.notices))
    executed-keeps s world (ok n) end did h =
        Executed-keeps _ at s world.run.store end.store (ok n) did h
    executed-keeps s world (err e) end did h =
        mark_failed-keeps s e _ (Executed-keeps _ at s world.run.store end.store (err e) did h)

    pub run_due-keeps :
        (due : List EntrySchedule) (world : World)
        → Q (rows_of world)
        → Q (rows_of (run_due w at due world))
    unfolding run_due
    run_due-keeps [] world h = h
    run_due-keeps (s ∷ due) world h =
        let (out, end) = execute w.ports w.fails (w.locks world.run.calls) at s world.run in
        elim (Bool-cases (w.cancelled world.run.calls)) [
          | inl stopping ↦ rw stopping h
          | inr running ↦ rw running (
              run_due-keeps due _ (
                executed-keeps s world out end
                  (execute-Executed w.ports w.fails (w.locks world.run.calls) at s world.run) h))
        ]
