-- ===== src/Entry/Publish/Copies.antt =====
-- The working copy and the published copy of the entries.
use saas_forge.Base.{ℕ, String, Bool, ◌≡◌, refl, Option, some, none, arith, List, [], ◌∷◌, map}
use saas_forge.Errors.{ok}
use saas_forge.Effects.{◌>>=◌, Run, Db, attempt}
use saas_forge.Effects.Leaves.{Leaves-bind, Leaves, Leaves-write, Leaves-attempt, leaves_rules}
use saas_forge.Entry.Store.{Status, Entry, Origin, Store, update_entry_at}
use saas_forge.Entry.Repository.{Ports, record_entry_revision}
use saas_forge.Entry.Publish.{
  set_publication, set_payload, update_locked, set_entry_publish_state, update_entry, or_conflict,
  after_publication, after_edit, overtake_schedules,
}
use saas_forge.Entry.Publish.Tables.{IsApart, tables_rules}

-- what an editor works on
abbrev pub working : Entry → ℕ × (String × String)
working e = (e.id, (e.payload, e.search_text))

-- what is delivered
abbrev pub delivered :
    Entry → Status × (Option String × (Option String × (Option ℕ × (Option ℕ × Option ℕ))))
delivered e = (
  e.status,
  (
    e.published_payload,
    (e.published_search_text, (e.published_version, (e.published_at, e.published_by))),
  ),
)

module _ {V : Type 0} (view : Entry → V) where
  abbrev pub of_entries : Store → List V
  of_entries s = map view s.entries

  update_same :
      (t : String) (ct id v : ℕ) (set : Entry → Entry) (es : List Entry)
      → ((e : Entry) → view (set e) ≡ view e)
      → map view (update_entry_at t ct id v set es) ≡ map view es
  update_same t ct id v set [] h = refl
  update_same t ct id v set (e ∷ es) h = ground (arith, update_same t ct id v set es h, h e)

  update_locked_same :
      (e : Entry) (set : Entry → Entry) (s : Store) (out : Option Entry) (s' : Store)
      → ((e : Entry) → view (set e) ≡ view e)
      → update_locked e set s ≡ ok (out, s')
      → of_entries s' ≡ of_entries s
  update_locked_same e set s out s' h done =
      ground (arith, update_same e.tenant_id e.content_type_id e.id e.version set s.entries h)

  apart : IsApart of_entries
  apart = record {
    unique_values = λ s x. refl;
    media = λ s x. refl;
    relations = λ s x. refl;
    revisions = λ s x. refl;
    outbox = λ s x. refl;
  }

  module _ (p : Ports) (fails : ℕ → Bool) (now : ℕ) where
    or_conflict-Leaves :
        (e : Entry) (matched : Option Entry) → Leaves of_entries (or_conflict p fails now e matched)
    unfolding or_conflict
    or_conflict-Leaves e none = search leaves_rules
    or_conflict-Leaves e (some row) = search leaves_rules

    after_publication-Leaves :
        (e : Entry) (status : Status) (o : Origin) (row : Entry)
        → Leaves of_entries (after_publication p fails now e status o row)
    unfolding after_publication
    after_publication-Leaves e status o row =
        search (leaves_rules, tables_rules, Leaves-write, apart) depth 14

    record_revision_same :
        (t : String) (id : ℕ) (s : Store) → of_entries (record_entry_revision t id s) ≡ of_entries s
    unfolding record_entry_revision
    record_revision_same t id s = ground arith

    overtake_same :
        (e : Entry) (s : Store) → of_entries (overtake_schedules p fails now e s) ≡ of_entries s
    unfolding overtake_schedules
    overtake_same e s = refl

    after_edit-Leaves : (e row : Entry) → Leaves of_entries (after_edit p fails now e row)
    unfolding after_edit
    after_edit-Leaves e row =
        search
          (leaves_rules, tables_rules, Leaves-write, apart, record_revision_same, overtake_same)
          depth 14

    locked-Leaves :
        (e : Entry) (set : Entry → Entry) (rest : Entry → Db Store Entry)
        → ((row : Entry) → view (set row) ≡ view row)
        → ((row : Entry) → Leaves of_entries (rest row))
        → Leaves of_entries (
            attempt fails (update_locked e set) >>= λ matched.
            or_conflict p fails now e matched >>= rest)
    locked-Leaves e set rest h leaves =
        Leaves-bind _ _
          (Leaves-attempt fails (update_locked e set)
            (λ s out s' done. update_locked_same e set s out s' h done))
          (λ matched. Leaves-bind _ rest (or_conflict-Leaves e matched) leaves)

module _ (p : Ports) (fails : ℕ → Bool) (now : ℕ) where
  publication-Leaves :
      (e : Entry) (status : Status) (published_at : Option ℕ) (o : Origin)
      → Leaves (of_entries working) (set_entry_publish_state p fails now e status published_at o)
  unfolding set_entry_publish_state set_publication
  publication-Leaves e status published_at o =
      locked-Leaves working p fails now e _ _ (λ row. refl)
        (after_publication-Leaves working p fails now e status o)

  edit-Leaves : (e : Entry) → Leaves (of_entries delivered) (update_entry p fails now e)
  unfolding update_entry set_payload
  edit-Leaves e =
      locked-Leaves delivered p fails now e _ _ (λ row. refl)
        (after_edit-Leaves delivered p fails now e)

  -- Whatever calls fail: publishing or unpublishing an entry changes no entry's working payload and
  -- search text, and an edit changes no entry's status, published payload, published search text,
  -- published version, time of publication and publisher.
  pub update_entry-set_entry_publish_state :
      (e : Entry) (status : Status) (published_at : Option ℕ) (o : Origin) (r : Run Store)
      → (map working (set_entry_publish_state p fails now e status published_at o r).1.store.entries
          ≡ map working r.store.entries)
        × (map delivered (update_entry p fails now e r).1.store.entries
            ≡ map delivered r.store.entries)
  update_entry-set_entry_publish_state e status published_at o r =
      ((publication-Leaves e status published_at o).same r, (edit-Leaves e).same r)
