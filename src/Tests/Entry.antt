-- ===== src/Tests/Entry.antt =====
-- A post at version 3, with a schedule that publishes it, and the same after an edit.
use saas_forge.Base.{
  Bool, ℕ, ◌+◌, ◌≡◌, refl, true, false, [], ◌∷◌, nat_eq, string_eq, All, map, some, none,
}
use saas_forge.Errors.{ok}
use saas_forge.Effects.{Run, transaction}
use saas_forge.Schedule.Table.{
  EntrySchedule, publish, pending, claim_due_entry_schedule, finish_entry_schedule,
  list_due_entry_schedules, first_where, update_where,
}
use saas_forge.Entry.Store.{Entry, Store, draft, published, by_hand}
use saas_forge.Entry.Repository.{Ports, refresh_entry_unique_values, emit_entry_event}
use saas_forge.Entry.Publish.{set_entry_publish_state, update_entry}
use saas_forge.Entry.Publish.Copies.{working, delivered, update_entry-set_entry_publish_state}
use saas_forge.Entry.Scheduler.{succeeded, went_stale, Scheduler, World, execute, tick}
use saas_forge.Entry.Scheduler.Outcomes.{Executed}
use saas_forge.Entry.Scheduler.Releases.{execute-Executed}
use saas_forge.Entry.Scheduler.Ticks.{rows_of}
use saas_forge.Entry.Scheduler.Progress.{unlocked, IsSmooth, tick-settles}

abbrev a_post : Entry
a_post = record {
  id = 9;
  tenant_id = "acme";
  content_type_id = 4;
  payload = "{title: Hello}";
  search_text = "Hello";
  published_search_text = none;
  version = 3;
  status = draft;
  published_payload = none;
  published_version = none;
  published_at = none;
  locale = "en";
  updated_by = some 7;
  published_by = none;
  updated_by_kind = none;
  updated_by_agent = none;
  updated_at = 50;
}

abbrev a_schedule : ℕ → ℕ → EntrySchedule
a_schedule id pinned = record {
  id = id;
  tenant_id = "acme";
  entry_id = 9;
  content_type_id = 4;
  action = publish;
  run_at = 100;
  pinned_version = pinned;
  state = pending;
  requested_by = 7;
  created_at = 10;
  executed_at = none;
  error = [];
}

abbrev with_schedule : EntrySchedule → Run Store
with_schedule s = record {
  store = record {
    types = record { id = 4; tenant_id = "acme"; name = "post" } ∷ [];
    unique_fields = [];
    entries = a_post ∷ [];
    schedules = s ∷ [];
    unique_values = [];
    media = record { entry_id = 9; tenant_id = "acme"; path = ""; target = 31 } ∷ [];
    media_published = [];
    relations = [];
    relations_published = [];
    publish_revisions = [];
    entry_revisions = [];
    activity = [];
    outbox = [];
  };
  calls = 0;
}

abbrev ports : Ports
ports = record {
  outbox_wired = true;
  new_row_id = λ n. n;
  text_at = λ payload key. none;
  event_payload = λ t e kind locale. kind;
  event_key = λ id what version. what;
}

abbrev never : ℕ → Bool
never n = false

-- The approved version is released.
released_test :
    (execute ports never unlocked 120 (a_schedule 2 3) (with_schedule (a_schedule 2 3))).0
    ≡ ok (some (record { kind = succeeded; entry_id = 9 }))
unfolding execute transaction claim_due_entry_schedule finish_entry_schedule first_where
    update_where set_entry_publish_state refresh_entry_unique_values emit_entry_event
released_test = refl

-- A version that is not the approved one is not.
stale_test :
    (execute ports never unlocked 120 (a_schedule 2 1) (with_schedule (a_schedule 2 1))).0
    ≡ ok (some (record { kind = went_stale; entry_id = 9 }))
unfolding execute transaction claim_due_entry_schedule finish_entry_schedule first_where
    update_where
stale_test = refl

execute-Executed_example :
    Executed unlocked 120
      (a_schedule 2 3)
      (with_schedule (a_schedule 2 3)).store
      (execute ports never unlocked 120 (a_schedule 2 3) (with_schedule (a_schedule 2 3))).1.store
      (execute ports never unlocked 120 (a_schedule 2 3) (with_schedule (a_schedule 2 3))).0
execute-Executed_example =
    execute-Executed ports never unlocked 120 (a_schedule 2 3) (with_schedule (a_schedule 2 3))

abbrev a_worker : Scheduler
a_worker = record {
  ports = ports;
  fails = never;
  locks = λ n. unlocked;
  cancelled = never;
  clock = λ n. 120 + n;
  message = λ e. b'n' ∷ b'o' ∷ [];
  notifier_wired = true;
  batch = 10;
}

abbrev the_world : World
the_world = record { run = with_schedule (a_schedule 2 3); notices = [] }

abbrev a_worker-IsSmooth : IsSmooth a_worker
a_worker-IsSmooth = record {
  answers = λ n. refl;
  alone = λ n. refl;
  runs = λ n. refl;
  says = λ e. refl;
}

tick-settles_example :
    All
      (λ s.
        claim_due_entry_schedule unlocked s.tenant_id s.id 120 (rows_of (tick a_worker the_world))
        ≡ none)
      (list_due_entry_schedules 120 10 (rows_of the_world))
tick-settles_example = tick-settles a_worker a_worker-IsSmooth the_world

update_entry-set_entry_publish_state_example :
    (map working
        (set_entry_publish_state ports never 120 a_post published
          (some 120)
          by_hand
          (with_schedule (a_schedule 2 3))).1.store.entries
      ≡ map working (a_post ∷ []))
    × (map delivered
          (update_entry ports never 120 a_post (with_schedule (a_schedule 2 3))).1.store.entries
        ≡ map delivered (a_post ∷ []))
update_entry-set_entry_publish_state_example =
    update_entry-set_entry_publish_state ports never 120 a_post published (some 120) by_hand
      (with_schedule (a_schedule 2 3))
