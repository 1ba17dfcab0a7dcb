-- ===== src/Entry/Publish/Entries.antt =====
-- What SetEntryPublishState and UpdateEntry leave of the entries.
use saas_forge.Base.{
  Option-cases, ℕ, String, Bool, ◌≡◌, refl, sym, ◌∙◌, Option, some, none, arith, inl, inr, List, ap,
}
use saas_forge.Errors.{Result, ok}
use saas_forge.Effects.{Run, Db, ◌>>=◌, attempt}
use saas_forge.Effects.Leaves.{Leaves, Leaves-write, leaves_rules}
use saas_forge.Entry.Publish.Tables.{IsApart, tables_rules}
use saas_forge.Effects.Answers.{bind-ok, attempt-ok}
use saas_forge.Entry.Store.{Status, Entry, Origin, Store, entry_at, update_entry_at}
use saas_forge.Entry.Repository.{Ports, record_entry_revision}
use saas_forge.Entry.Publish.{
  after_edit, after_publication, set_publication, set_payload, update_locked,
  set_entry_publish_state, update_entry, or_conflict, overtake_schedules,
}

abbrev pub entries_of : Store → List Entry
entries_of s = s.entries

-- A row of the caller's version was there, and it alone is what changed.
abbrev pub IsLockedUpdate : Entry → (Entry → Entry) → List Entry → List Entry → Type 0
IsLockedUpdate e set before after_it =
    (row : Entry) × (entry_at e.tenant_id e.content_type_id e.id e.version before ≡ some row)
    × (after_it ≡ update_entry_at e.tenant_id e.content_type_id e.id e.version set before)

pub IsLockedUpdate-same :
    (e : Entry) (set : Entry → Entry) (before after_it before' after' : List Entry)
    → IsLockedUpdate e set before after_it
    → before ≡ before'
    → after' ≡ after_it
    → IsLockedUpdate e set before' after'
IsLockedUpdate-same e set before after_it before' after' (row, there, changed) same_before
      same_after =
    (row, cc, cc)

update_locked-some :
    (e : Entry) (set : Entry → Entry) (s s' : Store) (row : Entry)
    → update_locked e set s ≡ ok (some row, s')
    → IsLockedUpdate e set s.entries s'.entries
update_locked-some e set s s' row h =
    elim (Option-cases (entry_at e.tenant_id e.content_type_id e.id e.version s.entries)) [
      | inl none_there ↦ ground arith
      | inr (found, there) ↦ (found, there, ground arith)
    ]

entries-IsApart : IsApart entries_of
entries-IsApart = record {
  unique_values = λ s x. refl;
  media = λ s x. refl;
  relations = λ s x. refl;
  revisions = λ s x. refl;
  outbox = λ s x. refl;
}

module _ (p : Ports) (fails : ℕ → Bool) (now : ℕ) where
  record_revision_same :
      (t : String) (id : ℕ) (s : Store) → (record_entry_revision t id s).entries ≡ s.entries
  unfolding record_entry_revision
  record_revision_same t id s = ground arith

  edit_same : (e : Entry) (s : Store) → (overtake_schedules p fails now e s).entries ≡ s.entries
  unfolding overtake_schedules
  edit_same e s = refl

  after_publication-Leaves :
      (e : Entry) (status : Status) (o : Origin) (row : Entry)
      → Leaves entries_of (after_publication p fails now e status o row)
  unfolding after_publication
  after_publication-Leaves e status o row =
      search (leaves_rules, tables_rules, Leaves-write, entries-IsApart) depth 14

  after_edit-Leaves : (e row : Entry) → Leaves entries_of (after_edit p fails now e row)
  unfolding after_edit
  after_edit-Leaves e row =
      search
        (leaves_rules, tables_rules, Leaves-write, entries-IsApart, edit_same, record_revision_same)
        depth 14

  or_conflict-ok :
      (e : Entry) (matched : Option Entry) (r : Run Store) (row : Entry) (end : Run Store)
      → or_conflict p fails now e matched r ≡ (ok row, end)
      → (matched ≡ some row) × (end ≡ r)
  unfolding or_conflict
  or_conflict-ok e none r row end h = ground arith
  or_conflict-ok e (some found) r row end h = (cc, cc)

  locked_update :
      (e : Entry) (set : Entry → Entry) (rest : Entry → Db Store Entry)
      → ((row : Entry) → Leaves entries_of (rest row))
      → (r : Run Store) (row : Entry) (end : Run Store)
      → (do
        matched ← attempt fails (update_locked e set)
        found ← or_conflict p fails now e matched
        rest found)
          r
        ≡ (ok row, end)
      → IsLockedUpdate e set r.store.entries end.store.entries
  locked_update e set rest leaves r row end h =
      let (matched, r1, updated, h1) =
        bind-ok (attempt fails (update_locked e set)) _ r row end h in
      let (found, r2, same, h2) = bind-ok (or_conflict p fails now e matched) rest r1 row end h1 in
      let (is_matched, same_run) = or_conflict-ok e matched r1 found r2 same in
      let matched_store = attempt-ok fails (update_locked e set) r matched r1 updated in
      let (row0, there, changed) =
        update_locked-some e set r.store r1.store found (rw (sym is_matched) matched_store) in
      (
        row0,
        there,
        ap (λ (out : Result Entry × Run Store). out.1.store.entries) (sym h2)
            ∙ (leaves found).same r2
            ∙ ap (λ (q : Run Store). q.store.entries) same_run
            ∙ changed,
      )

  pub set_entry_publish_state-ok :
      (e : Entry) (status : Status) (published_at : Option ℕ) (o : Origin) (r : Run Store)
      (row : Entry) (end : Run Store)
      → set_entry_publish_state p fails now e status published_at o r ≡ (ok row, end)
      → IsLockedUpdate e (set_publication e status published_at) r.store.entries end.store.entries
  unfolding set_entry_publish_state
  set_entry_publish_state-ok e status published_at o r row end h =
      locked_update e _ _ (after_publication-Leaves e status o) r row end h

  pub update_entry-ok :
      (e : Entry) (r : Run Store) (row : Entry) (end : Run Store)
      → update_entry p fails now e r ≡ (ok row, end)
      → IsLockedUpdate e (set_payload e) r.store.entries end.store.entries
  unfolding update_entry
  update_entry-ok e r row end h = locked_update e _ _ (after_edit-Leaves e) r row end h
