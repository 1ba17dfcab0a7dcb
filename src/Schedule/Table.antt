-- ===== src/Schedule/Table.antt =====
-- internal/cms/content/domain/schedule.go and repository/schedule_repository.go: the rows of
-- `content_entry_schedules` and the statements on them. Instants are seconds; an error text that is
-- empty is no error.
use saas_forge.Base.{
  ℕ, zero, suc, String, Bool, true, false, List, [], ◌∷◌, ◌++◌, ◌&&◌, ◌||◌, ◌==◌, nat_eq, string_eq,
  not, if◌then◌else◌, Option, some, none, leb, ltb, is_some,
}
use saas_forge.Content.Permission.{is_empty}
use saas_forge.Errors.{Err, Result, ok, err}

pub data Action : Type 0 where
  publish unpublish : Action

pub data State : Type 0 where
  pending done stale cancelled superseded failed : State

-- A Go string that is cut by its bytes.
abbrev pub Bytes : Type 0
Bytes = List ℕ

pub record EntrySchedule : Type 0 where
  pub id : ℕ
  pub tenant_id : String
  pub entry_id : ℕ
  pub content_type_id : ℕ
  pub action : Action
  pub run_at : ℕ
  pub pinned_version : ℕ
  pub state : State
  pub requested_by : ℕ
  pub created_at : ℕ
  pub executed_at : Option ℕ
  pub error : Bytes

abbrev pub is_pending : EntrySchedule → Bool
is_pending s = elim s.state [ pending ↦ true | _ ↦ false ]

-- `PinsVersion`
unfoldable pub pins_version : EntrySchedule → Bool
pins_version s = elim s.action [ publish ↦ true | unpublish ↦ false ]

-- the predicate of the unique index
abbrev pub is_pending_of : ℕ → EntrySchedule → Bool
is_pending_of e s = s.entry_id == e && is_pending s

-- The row violates the primary key or the unique index on the pending schedule of an entry.
abbrev pub clashes : EntrySchedule → List EntrySchedule → Bool
clashes s [] = false
clashes s (x ∷ rows) = x.id == s.id || is_pending s && is_pending_of s.entry_id x || clashes s rows

abbrev is_executed : State → Bool
is_executed state = elim state [ done ↦ true | failed ↦ true | _ ↦ false ]

abbrev is_failure : State → Bool
is_failure state = elim state [ failed ↦ true | _ ↦ false ]

abbrev iff : Bool → Bool → Bool
iff a b = if a then b else not b

-- The checks on the columns `state`, `executed_at` and `error`.
unfoldable pub meets_checks : State → Option ℕ → Bytes → Bool
meets_checks state executed_at error =
    iff (is_executed state) (is_some executed_at) && iff (is_failure state) (not (is_empty error))

unfoldable pub create_entry_schedule :
    EntrySchedule → List EntrySchedule → Result (List EntrySchedule)
unfolding meets_checks
create_entry_schedule s rows =
    if not (meets_checks s.state s.executed_at s.error && ltb 0 s.pinned_version)
    then err Err.internal
    else if clashes s rows
    then err Err.schedule_exists
    else ok (rows ++ (s ∷ []))

-- `UPDATE … SET … WHERE …`
unfoldable pub update_where :
    (EntrySchedule → Bool)
    → (EntrySchedule → EntrySchedule)
    → List EntrySchedule
    → List EntrySchedule
update_where test set [] = []
update_where test set (s ∷ rows) = (if test s then set s else s) ∷ update_where test set rows

unfoldable pub first_where : (EntrySchedule → Bool) → List EntrySchedule → Option EntrySchedule
first_where test [] = none
first_where test (s ∷ rows) = if test s then some s else first_where test rows

-- `tenant_id = t AND entry_id = e AND state = 'pending'`
abbrev pub is_pending_for : String → ℕ → EntrySchedule → Bool
is_pending_for t e s = s.tenant_id == t && is_pending_of e s

unfoldable pub get_pending_entry_schedule : String → ℕ → List EntrySchedule → Option EntrySchedule
unfolding first_where
get_pending_entry_schedule t e rows = first_where (is_pending_for t e) rows

abbrev pub cancel : EntrySchedule → EntrySchedule
cancel s = record s { state = cancelled }

-- The row as it now stands, and the rows.
unfoldable pub cancel_entry_schedule :
    String → ℕ → List EntrySchedule → Result (EntrySchedule × List EntrySchedule)
unfolding first_where update_where
cancel_entry_schedule t e rows = elim (first_where (is_pending_for t e) rows) [
  | none ↦ err Err.not_found
  | some s ↦ ok (cancel s, update_where (is_pending_for t e) cancel rows)
]

abbrev pub is_due : ℕ → EntrySchedule → Bool
is_due now s = is_pending s && leb s.run_at now

-- `ORDER BY run_at`
abbrev pub insert_by_run_at : EntrySchedule → List EntrySchedule → List EntrySchedule
insert_by_run_at s [] = s ∷ []
insert_by_run_at s (x ∷ rows) =
    let later = insert_by_run_at s rows in if leb s.run_at x.run_at then s ∷ x ∷ rows else x ∷ later

abbrev pub due_by_run_at : ℕ → List EntrySchedule → List EntrySchedule
due_by_run_at now [] = []
due_by_run_at now (s ∷ rows) =
    let rest = due_by_run_at now rows in if is_due now s then insert_by_run_at s rest else rest

abbrev pub take : ℕ → List EntrySchedule → List EntrySchedule
take zero rows = []
take (suc n) [] = []
take (suc n) (s ∷ rows) = s ∷ take n rows

abbrev schedule_batch_default : ℕ
schedule_batch_default = 50

abbrev pub schedule_batch_max : ℕ
schedule_batch_max = 500

-- A limit that is not positive is 0 here.
unfoldable pub clamp_limit : ℕ → ℕ
clamp_limit limit =
    if limit == 0
    then schedule_batch_default
    else if ltb schedule_batch_max limit
    then schedule_batch_max
    else limit

unfoldable pub list_due_entry_schedules : ℕ → ℕ → List EntrySchedule → List EntrySchedule
unfolding clamp_limit
list_due_entry_schedules now limit rows = take (clamp_limit limit) (due_by_run_at now rows)

-- `tenant_id = t AND id = id AND state = 'pending'`
abbrev pub is_pending_id : String → ℕ → EntrySchedule → Bool
is_pending_id t id s = s.tenant_id == t && s.id == id && is_pending s

-- `locked`: another worker's transaction holds the row.
unfoldable pub claim_due_entry_schedule :
    (ℕ → Bool) → String → ℕ → ℕ → List EntrySchedule → Option EntrySchedule
unfolding first_where
claim_due_entry_schedule locked t id now rows =
    first_where (λ s. is_pending_id t id s && leb s.run_at now && not (locked s.id)) rows

abbrev pub finish : State → Option ℕ → Bytes → EntrySchedule → EntrySchedule
finish state executed_at error s = record s {
  state = state;
  executed_at = executed_at;
  error = error;
}

unfoldable pub finish_entry_schedule :
    String → ℕ → State → Option ℕ → Bytes → List EntrySchedule → Result (List EntrySchedule)
unfolding first_where update_where meets_checks
finish_entry_schedule t id state executed_at error rows =
    if not (is_some (first_where (is_pending_id t id) rows))
    then err Err.not_found
    else if not (meets_checks state executed_at error)
    then err Err.internal
    else ok (update_where (is_pending_id t id) (finish state executed_at error) rows)

-- the `UPDATE` of `markSchedulesStale`, for an entry that is now at this version
unfoldable pub mark_schedules_stale : String → ℕ → ℕ → List EntrySchedule → List EntrySchedule
unfolding update_where pins_version
mark_schedules_stale t e version rows =
    update_where (λ s. is_pending_for t e s && pins_version s && ltb s.pinned_version version)
      (λ s. record s { state = stale }) rows

unfoldable pub mark_schedules_superseded : String → ℕ → List EntrySchedule → List EntrySchedule
unfolding update_where
mark_schedules_superseded t e rows =
    update_where (is_pending_for t e) (λ s. record s { state = superseded }) rows
