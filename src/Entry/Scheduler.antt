-- ===== src/Entry/Scheduler.antt =====
-- internal/cms/content/scheduler/worker.go: the worker that carries out due schedules.
pub mod Outcomes
pub mod Releases
pub mod Ticks
pub mod Works
pub mod Progress
use saas_forge.Base.{
  ℕ, ◌+◌, String, Bool, true, false, List, [], ◌∷◌, ◌++◌, ◌&&◌, ◌==◌, nat_eq, not, if◌then◌else◌,
  Option, some, none, ltb, length, take,
}
use saas_forge.Errors.{Err, Result, ok, err}
use saas_forge.Effects.{Run, Db, ◌>>=◌, ◌>>◌, return, need, ask, write, attempt, transaction}
use saas_forge.Schedule.Table.{
  Bytes, EntrySchedule, State, Action, publish, unpublish, pending, done, stale, failed,
  pins_version, claim_due_entry_schedule, finish_entry_schedule, list_due_entry_schedules,
}
use saas_forge.Entry.Store.{
  Status, draft, published, Entry, TypeRow, Origin, by_hand, by_schedule, human, Activity,
  ActivityAction, entry_publish, entry_unpublish, entry_schedule_stale, Store, find_entry,
  find_type,
}
use saas_forge.Entry.Repository.{Ports, is_published}
use saas_forge.Entry.Publish.{set_entry_publish_state}

-- `scheduleNotice`: what the requester of a schedule is told, by its kind.
pub data NoticeKind : Type 0 where
  succeeded went_stale run_failed : NoticeKind

pub record Notice : Type 0 where
  pub kind : NoticeKind
  pub entry_id : ℕ

-- `ScheduleTargetStatus`
unfoldable pub schedule_target_status : Action → Status
schedule_target_status publish = published
schedule_target_status unpublish = draft

abbrev pub put : Store → Result (List EntrySchedule) → Result (Unit {0} × Store)
put st (ok rows) = ok (tt, record st { schedules = rows })
put st (err e) = err e

abbrev pub add_line : Activity → Store → Store
add_line line s = record s { activity = s.activity ++ (line ∷ []) }

module _ (at : ℕ) where
  -- the fields that the worker sets before it publishes: the requester answers for the release
  unfoldable pub stamp : EntrySchedule → Entry → Entry
  stamp s e = record e {
    updated_at = at;
    updated_by = some s.requested_by;
    updated_by_kind = some human;
    updated_by_agent = none;
    published_by = some s.requested_by;
  }

  -- the first release keeps its instant
  unfoldable pub release_instant : Status → Entry → Option ℕ
  release_instant published e = elim e.published_at [ none ↦ some at | some t ↦ some t ]
  release_instant draft e = none

  abbrev line_of : EntrySchedule → TypeRow → Entry → Activity
  line_of s ct e = record {
    tenant_id = s.tenant_id;
    occurred_at = at;
    actor_user_id = some s.requested_by;
    action = elim s.action [ publish ↦ entry_publish | unpublish ↦ entry_unpublish ];
    target_type = ct.name;
    target_entry_id = e.id;
    origin = by_schedule s.id;
    details = none;
  }

  -- `recordStale`'s
  abbrev stale_line : EntrySchedule → TypeRow → Entry → Activity
  stale_line s ct e = record {
    tenant_id = s.tenant_id;
    occurred_at = at;
    actor_user_id = some s.requested_by;
    action = entry_schedule_stale;
    target_type = ct.name;
    target_entry_id = e.id;
    origin = by_hand;
    details = some (s.id, (s.pinned_version, e.version));
  }

-- `locked`: rows that another worker's transaction holds. `at` is the instant of the tick.
module _ (p : Ports) (fails : ℕ → Bool) (locked : ℕ → Bool) (at : ℕ) where
  -- `FinishEntrySchedule`
  unfoldable pub finish_schedule : EntrySchedule → State → Option ℕ → Bytes → Db Store (Unit {0})
  unfolding finish_entry_schedule
  finish_schedule s state executed_at error =
      attempt fails
        (λ st. put st (finish_entry_schedule s.tenant_id s.id state executed_at error st.schedules))

  abbrev record_activity : Activity → Db Store (Unit {0})
  record_activity line = write fails (add_line line)

  -- the version has moved past the approval
  unfoldable pub skip_stale : EntrySchedule → TypeRow → Entry → Db Store (Option Notice)
  unfolding finish_schedule
  skip_stale s ct e = do
    finish_schedule s stale none []
    record_activity (stale_line at s ct e)
    return (some (record { kind = went_stale; entry_id = e.id }))

  unfoldable pub carry_out : EntrySchedule → TypeRow → Entry → Db Store (Option Notice)
  unfolding finish_schedule stamp release_instant schedule_target_status
  carry_out s ct e = do
    finish_schedule s done (some at) []
    set_entry_publish_state p fails at (stamp at s e) (schedule_target_status s.action)
        (release_instant at (schedule_target_status s.action) e) (by_schedule s.id)
    record_activity (line_of at s ct e)
    return (some (record { kind = succeeded; entry_id = e.id }))

  -- the body of the transaction, on the claimed row
  unfoldable pub execute_claimed : EntrySchedule → Db Store (Option Notice)
  unfolding skip_stale carry_out pins_version
  execute_claimed s = do
    found_type ← ask fails (λ st. find_type s.tenant_id s.content_type_id st.types)
    ct ← need found_type Err.not_found
    -- `loadFields`, for the title of the activity line
    ask fails (λ st. st.unique_fields)
    found ← ask fails (λ st. find_entry s.tenant_id s.content_type_id s.entry_id st.entries)
    e ← need found Err.not_found
    if pins_version s && not (e.version == s.pinned_version)
        then skip_stale s ct e
        else carry_out s ct e

  -- another replica has claimed it, or it is no longer pending
  abbrev pub execute_if : Option EntrySchedule → Db Store (Option Notice)
  execute_if none = return none
  execute_if (some c) = execute_claimed c

  unfoldable pub execute_body : EntrySchedule → Db Store (Option Notice)
  unfolding execute_claimed claim_due_entry_schedule
  execute_body s = do
    claimed ← ask fails (λ st. claim_due_entry_schedule locked s.tenant_id s.id at st.schedules)
    execute_if claimed

  unfoldable pub execute : EntrySchedule → Db Store (Option Notice)
  unfolding execute_body transaction
  execute s = transaction fails (execute_body s)

-- The worker's loop. `locks`, `cancelled` and `clock` are by the number of database calls made:
-- the rows held elsewhere, whether the process is stopping, the time. `message` is `err.Error()`.
-- PostgreSQL's refusal of a text that is cut inside a character is a call that fails.
pub record Scheduler : Type 0 where
  pub ports : Ports
  pub fails : ℕ → Bool
  pub locks : ℕ → ℕ → Bool
  pub cancelled : ℕ → Bool
  pub clock : ℕ → ℕ
  pub message : Err → Bytes
  pub notifier_wired : Bool
  pub batch : ℕ

pub record World : Type 0 where
  pub run : Run Store
  -- each with the user that it went to
  pub notices : List (ℕ × Notice)

-- `msg[:500]`, if it is longer
unfoldable pub clip : Bytes → Bytes
clip msg = if ltb 500 (length msg) then take 500 msg else msg

module _ (w : Scheduler) (at : ℕ) where
  abbrev pub notify : EntrySchedule → Option Notice → List (ℕ × Notice) → List (ℕ × Notice)
  notify s none notices = notices
  notify s (some n) notices =
      if w.notifier_wired then notices ++ ((s.requested_by, n) ∷ []) else notices

  -- the outcome of recording a failure
  abbrev pub failure_recorded :
      EntrySchedule → Result (Unit {0}) × Run Store → List (ℕ × Notice) → World
  failure_recorded s (err e, r) notices = record { run = r; notices = notices }
  failure_recorded s (ok _, r) notices = record {
    run = r;
    notices = notify s (some (record { kind = run_failed; entry_id = s.entry_id })) notices;
  }

  abbrev pub give_up : EntrySchedule → Err → ℕ → Db Store (Unit {0})
  give_up s cause now =
      finish_schedule w.ports w.fails (w.locks now) at s failed (some (w.clock now))
        (clip (w.message cause))

  -- a transaction of its own
  unfoldable pub failure : EntrySchedule → Err → ℕ → Db Store (Unit {0})
  unfolding transaction
  failure s cause now = transaction w.fails (give_up s cause now)

  unfoldable pub mark_failed : EntrySchedule → Err → World → World
  unfolding failure
  mark_failed s cause world =
      if w.cancelled world.run.calls
      then world
      else failure_recorded s (failure s cause world.run.calls world.run) world.notices

  abbrev pub executed :
      EntrySchedule → Result (Option Notice) × Run Store → List (ℕ × Notice) → World
  executed s (ok n, r) notices = record { run = r; notices = notify s n notices }
  executed s (err e, r) notices = mark_failed s e (record { run = r; notices = notices })

  unfoldable pub run_due : List EntrySchedule → World → World
  unfolding execute mark_failed
  run_due [] world = world
  run_due (s ∷ due) world =
      let next = run_due due (
        executed s (execute w.ports w.fails (w.locks world.run.calls) at s world.run)
          world.notices) in
      if w.cancelled world.run.calls then world else next

-- `Tick`
unfoldable pub tick : Scheduler → World → World
unfolding run_due list_due_entry_schedules
tick w world =
    let at = w.clock world.run.calls in
    let due = list_due_entry_schedules at w.batch world.run.store.schedules in
    let asked = record world { run = record world.run { calls = world.run.calls + 1 } } in
    if w.fails world.run.calls then asked else run_due w at due asked
