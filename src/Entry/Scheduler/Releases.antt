-- ===== src/Entry/Scheduler/Releases.antt =====
-- Each part of an execution that answers, and what the whole may do.
use saas_forge.Base.{
  [], ◌+◌, nat_eq, ◌&&◌, ℕ, Bool, ◌≡◌, refl, sym, ◌∙◌, ◌==◌, not, Option, some, none, arith,
  Bool-cases, inl, inr, if◌then◌else◌, List, ap,
}
use saas_forge.Errors.{Err, Result, ok, err}
use saas_forge.Effects.{Run, ◌>>◌, return, ask, write}
use saas_forge.Effects.Answers.{
  find-ok, bind-ok, then-ok, return-ok, attempt-ok, ask-ok, write-ok, transaction-ok,
  transaction-err,
}
use saas_forge.Schedule.Table.{
  EntrySchedule, State, done, stale, pins_version, finish_entry_schedule, mark_schedules_superseded,
}
use saas_forge.Entry.Store.{UniqueField, Entry, Store, TypeRow}
use saas_forge.Entry.Repository.{Ports}
use saas_forge.Entry.Publish.{set_entry_publish_state}
use saas_forge.Entry.Publish.Schedules.{set_entry_publish_state-schedules}
use saas_forge.Entry.Publish.Entries.{
  IsLockedUpdate-same, IsLockedUpdate, set_entry_publish_state-ok,
}
use saas_forge.Entry.Scheduler.{
  Bytes, execute_if, find_type, line_of, stale_line, by_schedule, add_line, Activity, put, Notice,
  went_stale, succeeded, schedule_target_status, finish_schedule, stamp, release_instant,
  skip_stale, carry_out, execute_claimed, execute_body, execute,
}
use saas_forge.Entry.Scheduler.Outcomes.{
  claimed, target, release, Executed, refused, not_claimed, skipped, released,
}

module _ (p : Ports) (fails : ℕ → Bool) (locked : ℕ → Bool) (at : ℕ) where
  put-ok :
      (st : Store) (out : Result (List EntrySchedule)) (u : Unit {0}) (st' : Store)
      → put st out ≡ ok (u, st')
      → (out ≡ ok st'.schedules) × (st'.entries ≡ st.entries)
  put-ok st (ok rows) u st' h = (cc, cc)
  put-ok st (err e) u st' h = cc

  pub finish_schedule-ok :
      (s : EntrySchedule) (state : State) (executed_at : Option ℕ) (error : Bytes) (r : Run Store)
      (u : Unit {0}) (end : Run Store)
      → finish_schedule p fails locked at s state executed_at error r ≡ (ok u, end)
      → (finish_entry_schedule s.tenant_id s.id state executed_at error r.store.schedules
          ≡ ok end.store.schedules)
        × (end.store.entries ≡ r.store.entries)
  unfolding finish_schedule
  finish_schedule-ok s state executed_at error r u end h = put-ok r.store _ u end.store (
      attempt-ok fails
        (λ st. put st (finish_entry_schedule s.tenant_id s.id state executed_at error st.schedules))
        r u end h)

  -- the line, and the answer
  recorded-ok :
      (line : Activity) (n : Option Notice) (r : Run Store) (out : Option Notice) (end : Run Store)
      → (write fails (add_line line) >> return n) r ≡ (ok out, end)
      → (out ≡ n)
        × (end.store.schedules ≡ r.store.schedules)
        × (end.store.entries ≡ r.store.entries)
  recorded-ok line n r out end h =
      let (u, r1, written, h1) = then-ok (write fails (add_line line)) (return n) r out end h in
      let (same_out, same_run) = return-ok n r1 out end h1 in
      let added = write-ok fails (add_line line) r u r1 written in
      (
        same_out,
        ap (λ (q : Run Store). q.store.schedules) same_run ∙ ap (λ (s : Store). s.schedules) added,
        ap (λ (q : Run Store). q.store.entries) same_run ∙ ap (λ (s : Store). s.entries) added,
      )

  skip_stale-ok :
      (c : EntrySchedule) (ct : TypeRow) (e : Entry) (r : Run Store) (n : Option Notice)
      (end : Run Store)
      → skip_stale p fails locked at c ct e r ≡ (ok n, end)
      → (n ≡ some (record { kind = went_stale; entry_id = e.id }))
        × (end.store.entries ≡ r.store.entries)
        × (finish_entry_schedule c.tenant_id c.id stale none [] r.store.schedules
            ≡ ok end.store.schedules)
  unfolding skip_stale
  skip_stale-ok c ct e r n end h =
      let (u, r1, finished, h1) =
        then-ok (finish_schedule p fails locked at c stale none []) _ r n end h in
      let (rows, entries) = finish_schedule-ok c stale none [] r u r1 finished in
      let (told, rows_kept, entries_kept) = recorded-ok (stale_line at c ct e) _ r1 n end h1 in
      (told, entries_kept ∙ entries, rows ∙ ap ok (sym rows_kept))

  carry_out-ok :
      (c : EntrySchedule) (ct : TypeRow) (e : Entry) (r : Run Store) (n : Option Notice)
      (end : Run Store)
      → carry_out p fails locked at c ct e r ≡ (ok n, end)
      → (n ≡ some (record { kind = succeeded; entry_id = e.id }))
        × IsLockedUpdate (stamp at c e) (release at c e) r.store.entries end.store.entries
        × ((rows : List EntrySchedule) × (finish_entry_schedule c.tenant_id c.id done
                (some at)
                []
                r.store.schedules
              ≡ ok rows)
            × (end.store.schedules ≡ mark_schedules_superseded e.tenant_id e.id rows))
  unfolding carry_out
  carry_out-ok c ct e r n end h =
      let (u, r1, finished, h1) =
        then-ok (finish_schedule p fails locked at c done (some at) []) _ r n end h in
      let (rows, entries) = finish_schedule-ok c done (some at) [] r u r1 finished in
      let (row, r2, set, h2) =
        then-ok
          (set_entry_publish_state p fails at (stamp at c e) (schedule_target_status c.action)
            (release_instant at (schedule_target_status c.action) e) (by_schedule c.id))
          _ r1 n end h1 in
      let updated =
        set_entry_publish_state-ok p fails at (stamp at c e) (schedule_target_status c.action)
          (release_instant at (schedule_target_status c.action) e) (by_schedule c.id) r1 row r2
          set in
      let superseded =
        set_entry_publish_state-schedules p fails at (stamp at c e)
          (schedule_target_status c.action) (release_instant at (schedule_target_status c.action) e)
          (by_schedule c.id) r1 row r2 set in
      let (told, rows_kept, entries_kept) = recorded-ok (line_of at c ct e) _ r2 n end h2 in
      (
        told,
        IsLockedUpdate-same (stamp at c e) (release at c e) _ _ _ _ updated entries entries_kept,
        (r1.store.schedules, rows, rows_kept ∙ superseded),
      )

  -- the end of the transaction's body
  decide :
      (s c : EntrySchedule) (ct : TypeRow) (e : Entry) (before : Store) (r : Run Store)
      (n : Option Notice) (end : Run Store)
      → claimed locked at s before ≡ some c
      → target c before ≡ some e
      → r.store ≡ before
      → (if pins_version c && not (e.version == c.pinned_version)
            then skip_stale p fails locked at c ct e
            else carry_out p fails locked at c ct e)
          r
        ≡ (ok n, end)
      → Executed locked at s before end.store (ok n)
  unfolding pins_version
  decide s c ct e before r n end is_claimed found same h =
      elim (Bool-cases (pins_version c && not (e.version == c.pinned_version))) [
        | inl moved ↦
            let (told, entries, rows) = skip_stale-ok c ct e r n end (ground arith) in
            rw told (
              skipped c e is_claimed found (ground arith) (ground arith)
                (entries ∙ ap (λ (st : Store). st.entries) same)
                (ap
                    (λ (st : Store).
                      finish_entry_schedule c.tenant_id c.id stale none [] st.schedules)
                    (sym same)
                  ∙ rows))
        | inr approved ↦
            let (told, updated, (rows, finished, superseded)) =
              carry_out-ok c ct e r n end (ground arith) in
            rw told (
              released c e rows is_claimed found (λ is_publish. ground arith)
                (IsLockedUpdate-same (stamp at c e) (release at c e) _ _ _ _ updated
                  (ap (λ (st : Store). st.entries) same) refl)
                (ap
                    (λ (st : Store).
                      finish_entry_schedule c.tenant_id c.id done (some at) [] st.schedules)
                    (sym same)
                  ∙ finished)
                superseded)
      ]

  abbrev fields_read : Store → List UniqueField
  fields_read st = st.unique_fields

  execute_claimed-Executed :
      (s c : EntrySchedule) (before : Store) (r : Run Store) (n : Option Notice) (end : Run Store)
      → claimed locked at s before ≡ some c
      → r.store ≡ before
      → execute_claimed p fails locked at c r ≡ (ok n, end)
      → Executed locked at s before end.store (ok n)
  unfolding execute_claimed
  execute_claimed-Executed s c before r n end is_claimed same h =
      let (ct, r1, is_type, same1, h1) =
        find-ok fails (λ st. find_type c.tenant_id c.content_type_id st.types) Err.not_found _ r n
          end h in
      let (fields, r2, asked, h2) = then-ok (ask fails fields_read) _ r1 n end h1 in
      let (is_fields, same2) = ask-ok fails fields_read r1 fields r2 asked in
      let (e, r3, is_found, same3, h3) = find-ok fails (target c) Err.not_found _ r2 n end h2 in
      let read_only : r2.store ≡ before = same2 ∙ same1 ∙ same in
      decide s c ct e before r3 n end is_claimed (ap (target c) (sym read_only) ∙ is_found)
        (same3 ∙ read_only) h3

  execute_body-Executed :
      (s : EntrySchedule) (r : Run Store) (n : Option Notice) (end : Run Store)
      → execute_body p fails locked at s r ≡ (ok n, end)
      → Executed locked at s r.store end.store (ok n)
  unfolding execute_body
  execute_body-Executed s r n end h =
      let (claim, r1, asked, h1) = bind-ok (ask fails (claimed locked at s)) _ r n end h in
      let (is_claim, same) = ask-ok fails (claimed locked at s) r claim r1 asked in
      go claim r1 is_claim same h1
    where
      go :
          (claim : Option EntrySchedule) (r1 : Run Store)
          → claim ≡ claimed locked at s r.store
          → r1.store ≡ r.store
          → execute_if p fails locked at claim r1 ≡ (ok n, end)
          → Executed locked at s r.store end.store (ok n)
      go none r1 is_claim same h1 =
          let (no_notice, last) = return-ok none r1 n end h1 in
          rw no_notice (not_claimed (sym is_claim) (ap (λ (q : Run Store). q.store) last ∙ same))
      go (some c) r1 is_claim same h1 =
          execute_claimed-Executed s c r.store r1 n end (sym is_claim) same h1

  executed_result :
      (s : EntrySchedule) (r : Run Store) (out : Result (Option Notice) × Run Store)
      → execute p fails locked at s r ≡ out
      → Executed locked at s r.store out.1.store out.0
  unfolding execute
  executed_result s r (err e, end) h =
      refused e (transaction-err fails (execute_body p fails locked at s) r e end h)
  executed_result s r (ok n, end) h =
      let (last, body, committed) =
        transaction-ok fails (execute_body p fails locked at s) r n end h in
      rw committed (execute_body-Executed s (record r { calls = r.calls + 1 }) n last body)

  -- Whatever fails, one execution of a schedule leaves all tables as they were and answers an error
  -- or, if the schedule cannot be claimed, nothing; or it skips a publish schedule whose entry is
  -- no longer at the pinned version: the entries stay as they were and the schedule is stale; or it
  -- updates the one row of the entry, for a publish schedule at the pinned version, with the
  -- schedule done and the other pending schedules of the entry superseded.
  pub execute-Executed :
      (s : EntrySchedule) (r : Run Store)
      → Executed locked at s r.store
          (execute p fails locked at s r).1.store
          (execute p fails locked at s r).0
  execute-Executed s r = executed_result s r (execute p fails locked at s r) refl
