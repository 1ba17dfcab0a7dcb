-- ===== src/Tests/Schedule.antt =====
-- An entry with one waiting schedule and one that was withdrawn.
use saas_forge.Base.{
  ℕ, ◌≡◌, ◌≤◌, refl, true, false, List, [], ◌∷◌, ◌&&◌, All, count, length, leb, some, none, arith,
  nat_eq, string_eq,
}
use saas_forge.Schedule.Table.{
  EntrySchedule, State, publish, pending, cancelled, done, is_pending, is_pending_of, update_where,
  first_where, meets_checks, create_entry_schedule, finish_entry_schedule, claim_due_entry_schedule,
  list_due_entry_schedules, mark_schedules_stale,
}
use saas_forge.Schedule.Steps.{
  Step, Steps, stay, more, find_schedule, find_schedule-Steps, count-Steps,
}
use saas_forge.Schedule.Claims.{claim-finish, list_due_entry_schedules-due}

abbrev schedule : ℕ → State → EntrySchedule
schedule id at = record {
  id = id;
  tenant_id = "acme";
  entry_id = 9;
  content_type_id = 4;
  action = publish;
  run_at = 100;
  pinned_version = 3;
  state = at;
  requested_by = 7;
  created_at = 10;
  executed_at = none;
  error = [];
}

abbrev withdrawn : EntrySchedule
withdrawn = schedule 1 cancelled

abbrev waiting : EntrySchedule
waiting = schedule 2 pending

-- The waiting schedule is filed, and overtaken by an edit.
filed : Steps (withdrawn ∷ []) (mark_schedules_stale "acme" 9 4 (withdrawn ∷ waiting ∷ []))
unfolding create_entry_schedule meets_checks
filed = more (Step.create waiting refl) (more (Step.overtake "acme" 9 4) stay)

find_schedule-Steps_example :
    find_schedule 1 (mark_schedules_stale "acme" 9 4 (withdrawn ∷ waiting ∷ [])) ≡ some withdrawn
unfolding find_schedule
find_schedule-Steps_example =
    find_schedule-Steps (withdrawn ∷ [])
      (mark_schedules_stale "acme" 9 4 (withdrawn ∷ waiting ∷ [])) 1 withdrawn filed refl refl

count-Steps_example :
    count (is_pending_of 9) (mark_schedules_stale "acme" 9 4 (withdrawn ∷ waiting ∷ [])) ≤ 1
count-Steps_example =
    count-Steps (withdrawn ∷ []) (mark_schedules_stale "acme" 9 4 (withdrawn ∷ waiting ∷ [])) 9
      filed (omega arith)

abbrev carried_out : List EntrySchedule
carried_out = withdrawn ∷ record waiting { state = done; executed_at = some 120 } ∷ []

claim-finish_example : claim_due_entry_schedule (λ _. false) "acme" 2 130 carried_out ≡ none
unfolding finish_entry_schedule first_where update_where meets_checks
claim-finish_example =
    claim-finish (λ _. false) "acme" 2 130 done (some 120) [] (withdrawn ∷ waiting ∷ []) carried_out
      refl refl

list_due_entry_schedules-due_example :
    (length (list_due_entry_schedules 120 1000 (withdrawn ∷ waiting ∷ [])) ≤ 500)
    × All
        (λ s. (is_pending s && leb s.run_at 120) ≡ true)
        (list_due_entry_schedules 120 1000 (withdrawn ∷ waiting ∷ []))
list_due_entry_schedules-due_example =
    list_due_entry_schedules-due 120 1000 (withdrawn ∷ waiting ∷ [])
