-- ===== src/Entry/Scheduler/Progress.antt =====
-- A tick that nothing disturbs leaves none of its schedules to be carried out.
use saas_forge.Base.{
  length, ltb, not, leb, Option-cases, ◌&&◌, ℕ, ◌+◌, String, Bool, false, ◌≡◌, refl, sym, ◌∙◌, ap,
  Option, some, none, arith, Bool-cases, inl, inr, List, [], ◌∷◌, All, string_eq, nat_eq,
}
use mathlib.Core.Path.{subst}
use saas_forge.Content.Permission.{is_empty}
use saas_forge.Errors.{Err, Result, ok}
use saas_forge.Effects.{Run, transaction}
use saas_forge.Schedule.Table.{
  meets_checks, EntrySchedule, State, failed, finish_entry_schedule, mark_schedules_superseded,
  update_where, list_due_entry_schedules, claim_due_entry_schedule, first_where, is_pending,
  is_pending_id, is_pending_for, finish,
}
use saas_forge.Schedule.Claims.{is_waiting, claim-finish}
use saas_forge.Schedule.Steps.{finish_entry_schedule-ok}
use saas_forge.Entry.Store.{Store}
use saas_forge.Entry.Scheduler.{
  clip, Bytes, Notice, Scheduler, World, finish_schedule, execute, executed, mark_failed, run_due,
  tick, failure,
}
use saas_forge.Entry.Scheduler.Outcomes.{Executed, refused, not_claimed, skipped, released}
use saas_forge.Entry.Scheduler.Releases.{execute-Executed}
use saas_forge.Entry.Scheduler.Ticks.{failure-keeps, failure_recorded-rows, run_due-keeps, rows_of}

abbrev pub unlocked : ℕ → Bool
unlocked id = false

-- No claim of the schedule would succeed, were no row of it held.
abbrev pub IsSettled : ℕ → EntrySchedule → List EntrySchedule → Type 0
IsSettled at s rows = claim_due_entry_schedule unlocked s.tenant_id s.id at rows ≡ none

module _ (at : ℕ) (s : EntrySchedule) where
  IsSettled-update :
      (test : EntrySchedule → Bool) (set : EntrySchedule → EntrySchedule)
      (rows : List EntrySchedule)
      → ((x : EntrySchedule) → is_pending (set x) ≡ false)
      → IsSettled at s rows
      → IsSettled at s (update_where test set rows)
  unfolding claim_due_entry_schedule first_where update_where
  IsSettled-update test set [] ends h = refl
  IsSettled-update test set (x ∷ rows) ends h =
      ground (arith, IsSettled-update test set rows ends, ends x)

  waiting-pending : (x : EntrySchedule) → is_waiting x.state ≡ false → is_pending x ≡ false
  waiting-pending x h = ground arith

  IsSettled-finish :
      (t : String) (id : ℕ) (state : State) (now : Option ℕ) (error : Bytes)
      (rows rows' : List EntrySchedule)
      → is_waiting state ≡ false
      → finish_entry_schedule t id state now error rows ≡ ok rows'
      → IsSettled at s rows
      → IsSettled at s rows'
  IsSettled-finish t id state now error rows rows' ends finished h =
      subst (IsSettled at s) (finish_entry_schedule-ok t id state now error rows rows' finished) (
        IsSettled-update (is_pending_id t id) (finish state now error) rows
          (λ x. waiting-pending (finish state now error x) ends) h)

  IsSettled-supersede :
      (t : String) (e : ℕ) (rows : List EntrySchedule)
      → IsSettled at s rows
      → IsSettled at s (mark_schedules_superseded t e rows)
  unfolding mark_schedules_superseded
  IsSettled-supersede t e rows h =
      IsSettled-update (is_pending_for t e) (λ x. record x { state = State.superseded }) rows
        (λ x. refl) h

  -- a claimed row is one that can be finished
  claim-pending :
      (rows : List EntrySchedule)
      → first_where (is_pending_id s.tenant_id s.id) rows ≡ none
      → IsSettled at s rows
  unfolding claim_due_entry_schedule first_where
  claim-pending [] h = refl
  claim-pending (x ∷ rows) h = ground (arith, claim-pending rows)

  claim_ids :
      (rows : List EntrySchedule) (c : EntrySchedule)
      → claim_due_entry_schedule unlocked s.tenant_id s.id at rows ≡ some c
      → (c.tenant_id ≡ s.tenant_id) × (c.id ≡ s.id)
  unfolding claim_due_entry_schedule first_where
  claim_ids [] c h = ground arith
  claim_ids (x ∷ rows) c h =
      elim (Bool-cases
        (is_pending_id s.tenant_id s.id x && leb x.run_at at && not (unlocked x.id))) [
          | inl hit ↦ (
            ground (arith, string_eq.equal_iff x.tenant_id s.tenant_id),
            ground (arith, nat_eq.equal_iff x.id s.id),
          )
          | inr miss ↦ claim_ids rows c (ground arith)
        ]

  finished_settles :
      (c : EntrySchedule) (state : State) (now : Option ℕ) (error : Bytes)
      (rows rows' : List EntrySchedule)
      → claim_due_entry_schedule unlocked s.tenant_id s.id at rows ≡ some c
      → is_waiting state ≡ false
      → finish_entry_schedule c.tenant_id c.id state now error rows ≡ ok rows'
      → IsSettled at s rows'
  finished_settles c state now error rows rows' is_claimed ends finished =
      let (same_tenant, same_id) = claim_ids rows c is_claimed in
      claim-finish unlocked s.tenant_id s.id at state now error rows rows' ends (
        ap (λ (t : String). finish_entry_schedule t s.id state now error rows) (sym same_tenant)
        ∙ ap (λ (id : ℕ). finish_entry_schedule c.tenant_id id state now error rows) (sym same_id)
        ∙ finished)

-- Nothing disturbs the worker: the database answers, no other worker is at work, the process is not
-- stopping; and an error has a text.
pub record IsSmooth (w : Scheduler) : Type 0 where
  pub answers : (n : ℕ) → w.fails n ≡ false
  pub alone : (n : ℕ) → w.locks n ≡ unlocked
  pub runs : (n : ℕ) → w.cancelled n ≡ false
  pub says : (e : Err) → is_empty (w.message e) ≡ false

is_empty-clip : (msg : Bytes) → is_empty msg ≡ false → is_empty (clip msg) ≡ false
unfolding clip
is_empty-clip [] h = h
is_empty-clip (b ∷ msg) h = elim (Bool-cases (ltb 500 (length (b ∷ msg)))) [
  | inl long ↦ ground arith
  | inr short ↦ ground arith
]

module _ (w : Scheduler) (smooth : IsSmooth w) (at : ℕ) (s : EntrySchedule) where
  failure-finishes :
      (cause : Err) (now : ℕ) (r : Run Store) (row : EntrySchedule)
      → first_where (is_pending_id s.tenant_id s.id) r.store.schedules ≡ some row
      → finish_entry_schedule s.tenant_id s.id failed
          (some (w.clock now))
          (clip (w.message cause))
          r.store.schedules
        ≡ ok (failure w at s cause now r).1.store.schedules
  unfolding failure transaction finish_schedule finish_entry_schedule meets_checks
  failure-finishes cause now r row h = ground (
    arith,
    smooth.answers r.calls,
    smooth.answers (r.calls + 1),
    smooth.answers (r.calls + 1 + 1),
    is_empty-clip (w.message cause) (smooth.says cause),
  )

  failure-settles :
      (cause : Err) (now : ℕ) (r : Run Store)
      → IsSettled at s (failure w at s cause now r).1.store.schedules
  failure-settles cause now r =
      elim (Option-cases (first_where (is_pending_id s.tenant_id s.id) r.store.schedules)) [
        | inl gone ↦
            failure-keeps (IsSettled at s) (IsSettled-finish at s) (IsSettled-supersede at s) w at s
              cause now r _ _ refl (claim-pending at s r.store.schedules gone)
        | inr (row, there) ↦
            claim-finish unlocked s.tenant_id s.id at failed _ _ r.store.schedules _ refl
              (failure-finishes cause now r row there)
      ]

  mark_failed-settles :
      (cause : Err) (world : World) → IsSettled at s (rows_of (mark_failed w at s cause world))
  unfolding mark_failed
  mark_failed-settles cause world =
      let (out, end) = failure w at s cause world.run.calls world.run in
      rw (smooth.runs world.run.calls) (
        subst (IsSettled at s) (sym (failure_recorded-rows w at s out end world.notices))
          (failure-settles cause world.run.calls world.run))

  executed-settles :
      (world : World) (out : Result (Option Notice)) (end : Run Store)
      → Executed unlocked at s world.run.store end.store out
      → IsSettled at s (rows_of (executed w at s (out, end) world.notices))
  executed-settles world out end (refused e same) =
      mark_failed-settles e (record { run = end; notices = world.notices })
  executed-settles world out end (not_claimed is_none same) =
      subst (λ (st : Store). IsSettled at s st.schedules) (sym same) is_none
  executed-settles world out end (skipped c e is_claimed found pinned moved kept finished) =
      finished_settles at s c _ _ _ world.run.store.schedules end.store.schedules is_claimed refl
        finished
  executed-settles world out end
        (released c e rows is_claimed found pinned updated finished superseded) =
      subst (IsSettled at s) (sym superseded) (
        IsSettled-supersede at s e.tenant_id e.id rows
          (finished_settles at s c _ _ _ world.run.store.schedules rows is_claimed refl finished))

  IsSettled-executed :
      (world : World)
      → IsSettled at s (
          rows_of (
            executed w at s
              (execute w.ports w.fails (w.locks world.run.calls) at s world.run)
              world.notices))
  IsSettled-executed world =
      let (out, end) = execute w.ports w.fails (w.locks world.run.calls) at s world.run in
      executed-settles world out end (
        subst (λ locked. Executed locked at s world.run.store end.store out)
          (smooth.alone world.run.calls)
          (execute-Executed w.ports w.fails (w.locks world.run.calls) at s world.run))

run_due_step :
    (w : Scheduler)
    → IsSmooth w
    → (at : ℕ) (s : EntrySchedule) (due : List EntrySchedule) (world : World)
    → run_due w at (s ∷ due) world
      ≡ run_due w at due (
          executed w at s
            (execute w.ports w.fails (w.locks world.run.calls) at s world.run)
            world.notices)
unfolding run_due
run_due_step w smooth at s due world = rw (smooth.runs world.run.calls) refl

run_due-settles :
    (w : Scheduler)
    → IsSmooth w
    → (at : ℕ) (due : List EntrySchedule) (world : World)
    → All (λ s. IsSettled at s (rows_of (run_due w at due world))) due
unfolding run_due
run_due-settles w smooth at [] world = tt
run_due-settles w smooth at (s ∷ due) world =
    let next =
      executed w at s (execute w.ports w.fails (w.locks world.run.calls) at s world.run)
        world.notices in
    let is_settled =
      run_due-keeps (IsSettled at s) (IsSettled-finish at s) (IsSettled-supersede at s) w at due
        next (IsSettled-executed w smooth at s world) in
    subst (λ (ended : World). All (λ s. IsSettled at s (rows_of ended)) (s ∷ due))
      (sym (run_due_step w smooth at s due world))
      (is_settled, run_due-settles w smooth at due next)

-- If the database answers, no other worker is at work, the process is not stopping and every error
-- has a text, then after a tick no schedule of its batch can be claimed at that instant: each has
-- been carried out, found stale, or recorded as failed, or was withdrawn before.
pub tick-settles :
    (w : Scheduler)
    → IsSmooth w
    → (world : World)
    → All
        (λ s.
          claim_due_entry_schedule unlocked s.tenant_id s.id
            (w.clock world.run.calls)
            (rows_of (tick w world))
          ≡ none)
        (list_due_entry_schedules (w.clock world.run.calls) w.batch (rows_of world))
unfolding tick
tick-settles w smooth world = rw (smooth.answers world.run.calls) (
    run_due-settles w smooth (w.clock world.run.calls)
      (list_due_entry_schedules (w.clock world.run.calls) w.batch (rows_of world)) _)
