-- ===== src/Schedule/Claims.antt =====
-- A schedule is carried out once: what a finished one answers to later claims.
use saas_forge.Base.{
  All, length, zero, suc, ℕ, String, Bool, true, false, List, [], ◌∷◌, ◌&&◌, ◌≡◌, ◌≤◌, refl, none,
  Option, arith, nat_eq, string_eq, Bool-cases, inl, inr, leb,
}
use mathlib.Core.Path.{subst}
use saas_forge.Errors.{ok}
use saas_forge.Schedule.Table.{
  Bytes, EntrySchedule, State, is_pending, is_pending_id, update_where, finish_entry_schedule,
  finish, first_where, claim_due_entry_schedule, list_due_entry_schedules, clamp_limit, take,
  is_due, insert_by_run_at, due_by_run_at,
}
use saas_forge.Schedule.Steps.{finish_entry_schedule-ok}

abbrev pub is_waiting : State → Bool
is_waiting State.pending = true
is_waiting _ = false

finished-is_none :
    (locked : ℕ → Bool) (t : String) (id now : ℕ) (target : State) (at : Option ℕ) (error : Bytes)
    (rows : List EntrySchedule)
    → is_waiting target ≡ false
    → claim_due_entry_schedule locked t id now
        (update_where (is_pending_id t id) (finish target at error) rows)
      ≡ none
unfolding claim_due_entry_schedule update_where first_where
finished-is_none locked t id now target at error [] ended = refl
finished-is_none locked t id now target at error (s ∷ rows) ended =
    ground (arith, finished-is_none locked t id now target at error rows ended)

-- Once a schedule has been moved to a state other than pending, no claim of it succeeds, whatever
-- the clock and the locks.
pub claim-finish :
    (locked : ℕ → Bool) (t : String) (id now : ℕ) (target : State) (at : Option ℕ) (error : Bytes)
    (rows rows' : List EntrySchedule)
    → is_waiting target ≡ false
    → finish_entry_schedule t id target at error rows ≡ ok rows'
    → claim_due_entry_schedule locked t id now rows' ≡ none
claim-finish locked t id now target at error rows rows' ended made =
    subst (λ r. claim_due_entry_schedule locked t id now r ≡ none)
      (finish_entry_schedule-ok t id target at error rows rows' made)
      (finished-is_none locked t id now target at error rows ended)

abbrev AllDue : ℕ → List EntrySchedule → Type 0
AllDue now rows = All (λ s. is_due now s ≡ true) rows

insert-AllDue :
    (now : ℕ) (s : EntrySchedule) (rows : List EntrySchedule)
    → is_due now s ≡ true
    → AllDue now rows
    → AllDue now (insert_by_run_at s rows)
insert-AllDue now s [] due h = (due, tt)
insert-AllDue now s (x ∷ rows) due h = ground (arith, insert-AllDue now s rows due h.1)

due_by_run_at-AllDue : (now : ℕ) (rows : List EntrySchedule) → AllDue now (due_by_run_at now rows)
due_by_run_at-AllDue now [] = tt
due_by_run_at-AllDue now (s ∷ rows) = elim (Bool-cases (is_due now s)) [
  | inl due ↦
      rw due (insert-AllDue now s (due_by_run_at now rows) due (due_by_run_at-AllDue now rows))
  | inr early ↦ rw early (due_by_run_at-AllDue now rows)
]

take-AllDue : (now n : ℕ) (rows : List EntrySchedule) → AllDue now rows → AllDue now (take n rows)
take-AllDue now zero rows h = tt
take-AllDue now (suc n) [] h = tt
take-AllDue now (suc n) (s ∷ rows) h = (h.0, take-AllDue now n rows h.1)

length-take : (n : ℕ) (rows : List EntrySchedule) → length (take n rows) ≤ n
length-take zero rows = omega arith
length-take (suc n) [] = omega arith
length-take (suc n) (s ∷ rows) = omega (arith, length-take n rows)

clamp_limit_max : (limit : ℕ) → clamp_limit limit ≤ 500
unfolding clamp_limit
clamp_limit_max limit = ground arith

-- A scan answers with at most 500 schedules whatever limit it is asked for, each of them pending
-- and due.
pub list_due_entry_schedules-due :
    (now limit : ℕ) (rows : List EntrySchedule)
    → (length (list_due_entry_schedules now limit rows) ≤ 500)
      × All
          (λ s. (is_pending s && leb s.run_at now) ≡ true)
          (list_due_entry_schedules now limit rows)
unfolding list_due_entry_schedules
list_due_entry_schedules-due now limit rows = (
  omega (arith, length-take (clamp_limit limit) (due_by_run_at now rows), clamp_limit_max limit),
  take-AllDue now (clamp_limit limit) (due_by_run_at now rows) (due_by_run_at-AllDue now rows),
)
