-- ===== src/Schedule/Steps.antt =====
-- The life of a schedule: the statements of the repository as steps of its table. Deleting an
-- entry, which takes its rows along, is no step.
use saas_forge.Base.{
  ℕ, String, Bool, true, false, List, [], ◌∷◌, ◌++◌, ◌&&◌, ◌==◌, ◌≡◌, ◌≤◌, refl, some, none, Option,
  arith, count, count-append, if◌then◌else◌, nat_eq, string_eq, Bool-cases, inl, inr, ltb,
}
use mathlib.Core.Path.{subst}
use saas_forge.Errors.{ok}
use saas_forge.Schedule.Table.{
  Bytes, EntrySchedule, State, is_pending, is_pending_of, is_pending_for, is_pending_id, clashes,
  create_entry_schedule, update_where, cancel_entry_schedule, finish_entry_schedule, finish, cancel,
  mark_schedules_stale, mark_schedules_superseded, pins_version, stale, superseded,
}

pub data Step : List EntrySchedule → List EntrySchedule → Type 0 where
  create :
      {rows rows' : List EntrySchedule} (s : EntrySchedule)
      → create_entry_schedule s rows ≡ ok rows'
      → Step rows rows'
  withdraw :
      {rows rows' : List EntrySchedule} (t : String) (e : ℕ) (s : EntrySchedule)
      → cancel_entry_schedule t e rows ≡ ok (s, rows')
      → Step rows rows'
  end :
      {rows rows' : List EntrySchedule} (t : String) (id : ℕ) (state : State) (at : Option ℕ)
      (error : Bytes)
      → finish_entry_schedule t id state at error rows ≡ ok rows'
      → Step rows rows'
  overtake :
      {rows : List EntrySchedule} (t : String) (e version : ℕ)
      → Step rows (mark_schedules_stale t e version rows)
  supersede :
      {rows : List EntrySchedule} (t : String) (e : ℕ)
      → Step rows (mark_schedules_superseded t e rows)

pub data Steps : List EntrySchedule → List EntrySchedule → Type 0 where
  stay : {rows : List EntrySchedule} → Steps rows rows
  more :
      {rows rows' rows'' : List EntrySchedule}
      → Step rows rows'
      → Steps rows' rows''
      → Steps rows rows''

unfoldable pub find_schedule : ℕ → List EntrySchedule → Option EntrySchedule
find_schedule id [] = none
find_schedule id (s ∷ rows) = if s.id == id then some s else find_schedule id rows

-- An update touches pending rows only, and leaves their ids as they are.
record IsModest (test : EntrySchedule → Bool) (set : EntrySchedule → EntrySchedule) : Type 0 where
  pending : (s : EntrySchedule) → test s ≡ true → is_pending s ≡ true
  same_id : (s : EntrySchedule) → (set s).id ≡ s.id
  same_entry : (s : EntrySchedule) → (set s).entry_id ≡ s.entry_id

module _ (test : EntrySchedule → Bool) (set : EntrySchedule → EntrySchedule)
    (m : IsModest test set) where
  find_schedule-update_where :
      (id : ℕ) (s : EntrySchedule) (rows : List EntrySchedule)
      → is_pending s ≡ false
      → find_schedule id rows ≡ some s
      → find_schedule id (update_where test set rows) ≡ some s
  unfolding find_schedule update_where
  find_schedule-update_where id s [] ended found = ground arith
  find_schedule-update_where id s (x ∷ rows) ended found = elim (Bool-cases (test x)) [
    | inl hit ↦
        ground (arith, find_schedule-update_where id s rows ended, m.pending x hit, m.same_id x)
    | inr miss ↦ ground (arith, find_schedule-update_where id s rows ended)
  ]

  count-update_where :
      (e : ℕ) (rows : List EntrySchedule)
      → count (is_pending_of e) (update_where test set rows) ≤ count (is_pending_of e) rows
  unfolding update_where
  count-update_where e [] = omega arith
  count-update_where e (x ∷ rows) = elim (Bool-cases (test x)) [
    | inl hit ↦ ground (arith, count-update_where e rows, m.pending x hit, m.same_entry x)
    | inr miss ↦ ground (arith, count-update_where e rows)
  ]

pending_for-IsModest :
    (t : String) (e : ℕ) (state : State)
    → IsModest (is_pending_for t e) (λ s. record s { state = state })
pending_for-IsModest t e target = record {
  pending = λ s h. ground arith;
  same_id = λ s. refl;
  same_entry = λ s. refl;
}

finish-IsModest :
    (t : String) (id : ℕ) (state : State) (at : Option ℕ) (error : Bytes)
    → IsModest (is_pending_id t id) (finish state at error)
finish-IsModest t id target at error = record {
  pending = λ s h. ground arith;
  same_id = λ s. refl;
  same_entry = λ s. refl;
}

overtaken-IsModest :
    (t : String) (e version : ℕ)
    → IsModest
        (λ s. is_pending_for t e s && pins_version s && ltb s.pinned_version version)
        (λ s. record s { state = stale })
overtaken-IsModest t e version = record {
  pending = λ s h. ground arith;
  same_id = λ s. refl;
  same_entry = λ s. refl;
}

find_schedule-append :
    (id : ℕ) (s x : EntrySchedule) (rows : List EntrySchedule)
    → find_schedule id rows ≡ some s
    → find_schedule id (rows ++ (x ∷ [])) ≡ some s
unfolding find_schedule
find_schedule-append id s x [] found = ground arith
find_schedule-append id s x (y ∷ rows) found = ground (arith, find_schedule-append id s x rows)

create_entry_schedule-ok :
    (s : EntrySchedule) (rows rows' : List EntrySchedule)
    → create_entry_schedule s rows ≡ ok rows'
    → (clashes s rows ≡ false) × (rows ++ (s ∷ []) ≡ rows')
unfolding create_entry_schedule
create_entry_schedule-ok s rows rows' h = ground arith

cancel_entry_schedule-ok :
    (t : String) (e : ℕ) (s : EntrySchedule) (rows rows' : List EntrySchedule)
    → cancel_entry_schedule t e rows ≡ ok (s, rows')
    → update_where (is_pending_for t e) cancel rows ≡ rows'
unfolding cancel_entry_schedule
cancel_entry_schedule-ok t e s rows rows' h = ground arith

pub finish_entry_schedule-ok :
    (t : String) (id : ℕ) (target : State) (at : Option ℕ) (error : Bytes)
    (rows rows' : List EntrySchedule)
    → finish_entry_schedule t id target at error rows ≡ ok rows'
    → update_where (is_pending_id t id) (finish target at error) rows ≡ rows'
unfolding finish_entry_schedule
finish_entry_schedule-ok t id target at error rows rows' h = ground arith

-- What holds of a table after an append that does not clash and after every modest update holds
-- after every step.
module _ (P : List EntrySchedule → Type 0)
    (appends : (s : EntrySchedule) (rows : List EntrySchedule)
      → clashes s rows ≡ false
      → P rows
      → P (rows ++ (s ∷ [])))
    (updates : (test : EntrySchedule → Bool) (set : EntrySchedule → EntrySchedule)
        (rows : List EntrySchedule)
      → IsModest test set
      → P rows
      → P (update_where test set rows)) where
  Step-keeps : {rows rows' : List EntrySchedule} → Step rows rows' → P rows → P rows'
  unfolding mark_schedules_stale mark_schedules_superseded
  Step-keeps {rows} {rows'} (create s made) h =
      let (free, same) = create_entry_schedule-ok s rows rows' made in
      subst P same (appends s rows free h)
  Step-keeps {rows} {rows'} (withdraw t e s made) h =
      subst P (cancel_entry_schedule-ok t e s rows rows' made)
        (updates _ _ rows (pending_for-IsModest t e State.cancelled) h)
  Step-keeps {rows} {rows'} (end t id target at error made) h =
      subst P (finish_entry_schedule-ok t id target at error rows rows' made)
        (updates _ _ rows (finish-IsModest t id target at error) h)
  Step-keeps {rows} (overtake t e version) h = updates _ _ rows (overtaken-IsModest t e version) h
  Step-keeps {rows} (supersede t e) h = updates _ _ rows (pending_for-IsModest t e superseded) h

  Steps-keeps : {rows rows' : List EntrySchedule} → Steps rows rows' → P rows → P rows'
  Steps-keeps stay h = h
  Steps-keeps (more step steps) h = Steps-keeps steps (Step-keeps step h)

-- A schedule that is no longer pending is never changed again, whatever sequence of the
-- repository's statements follows.
pub find_schedule-Steps :
    (rows rows' : List EntrySchedule) (id : ℕ) (s : EntrySchedule)
    → Steps rows rows'
    → is_pending s ≡ false
    → find_schedule id rows ≡ some s
    → find_schedule id rows' ≡ some s
find_schedule-Steps rows rows' id s steps ended found =
    Steps-keeps (λ r. find_schedule id r ≡ some s) (λ x r free h. find_schedule-append id s x r h)
      (λ test set r m h. find_schedule-update_where test set m id s r ended h) steps found

clashes-count :
    (s : EntrySchedule) (rows : List EntrySchedule)
    → clashes s rows ≡ false
    → is_pending s ≡ true
    → count (is_pending_of s.entry_id) rows ≡ 0
clashes-count s [] free waits = refl
clashes-count s (x ∷ rows) free waits = ground (arith, clashes-count s rows)

IsSingle-append :
    (e : ℕ) (s : EntrySchedule) (rows : List EntrySchedule)
    → clashes s rows ≡ false
    → count (is_pending_of e) rows ≤ 1
    → count (is_pending_of e) (rows ++ (s ∷ [])) ≤ 1
IsSingle-append e s rows free h =
    ground (arith, count-append (is_pending_of e) rows (s ∷ []), clashes-count s rows free)

-- An entry that has at most one pending schedule has at most one after any sequence of the
-- repository's statements.
pub count-Steps :
    (rows rows' : List EntrySchedule) (e : ℕ)
    → Steps rows rows'
    → count (is_pending_of e) rows ≤ 1
    → count (is_pending_of e) rows' ≤ 1
count-Steps rows rows' e steps h =
    Steps-keeps (λ r. count (is_pending_of e) r ≤ 1) (λ s r free h. IsSingle-append e s r free h)
      (λ test set r m h. omega (arith, count-update_where test set m e r)) steps h
