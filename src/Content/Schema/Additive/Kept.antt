-- ===== src/Content/Schema/Additive/Kept.antt =====
-- Components and types whose changes are all additive keep each of their fields.
use mathlib.Core.Path.{subst}
use saas_forge.Base.{
  All-imp, ◌++◌, All-append, is_some, String, Bool, true, false, List, [], ◌∷◌, Option, some, none,
  ◌==◌, string_eq, not, if◌then◌else◌, ◌≡◌, refl, All, sym, contains,
}
use saas_forge.Content.Constraints.{Library, validate_field_constraints}
use saas_forge.Content.Constraints.Tightens.{IsEquality, IsOrdered}
use saas_forge.Content.Json.{Json, Object}
use saas_forge.Content.Field.{Props, field, Fields, no_fields, Zones, no_zones, prefixed, path_of}
use saas_forge.Content.RichText.Spans.{Packages}
use saas_forge.Content.Payload.{validate_payload, validate_value, validate_in_zone, value_check}
use saas_forge.Content.Payload.Scalars.{Times}
use saas_forge.Content.Payload.Kept.{Keeps, IsWidened, value_check_kept}
use saas_forge.Content.Schema.Change.{
  deleted, update_component_field, update_component, additive, guarded, refused,
  add_component_field, add_field, change, ArtifactField, ArtifactComponent, SchemaChange,
  is_additive,
}
use saas_forge.Content.Schema.Fields.{refusal, index_fields, add_field_change, diff_field}
use saas_forge.Content.Schema.Components.{
  sub_field_deletion, diff_sub_fields, diff_component, diff_sub_field, add_component_field_change,
  check_component_sub_field, each_of_component,
}
use saas_forge.Content.Schema.Resolve.{load_component_fields, props_of, zone_names, no_names}
use saas_forge.Content.Schema.Additive.Grades.{
  unrefused, unguarded_change, unrefused_change, AllAdditive, All-last_with, not_deleted,
  each-additive,
}
use saas_forge.Content.Schema.Additive.Maps.{last_with-key}
use saas_forge.Content.Schema.Additive.Documents.{FieldKept, payload_kept}
use saas_forge.Content.Schema.Additive.Widens.{diff_field-IsWidened}

-- The constraints of a field may be stored.
abbrev pub IsStorable : {F : Type 0} → Library F → ArtifactField F → Type 0
IsStorable lib f = validate_field_constraints lib f.type f.multiple f.constraints ≡ none

abbrev pub HasStorable : {F : Type 0} → Library F → List (ArtifactField F) → Type 0
HasStorable lib fs = All (IsStorable lib) fs

module _ {F : Type 0} (lib : Library F) where
  -- A field that is added by an additive change is not required.
  pub add_field_change-optional :
      (name : String) (f : ArtifactField F) (declared : String → Bool)
      → is_additive (add_field_change lib name f declared) ≡ true
      → f.required ≡ false
  unfolding add_field_change
  add_field_change-optional name f declared h =
      let guarded_field = record (change add_field name f.key guarded) {
        code = "CONTENT_FIELD_REQUIRED_BACKFILL";
      } in
      let added = change add_field name f.key additive in
      unguarded_change f.required guarded_field added refl (
        unrefused_change (refusal lib declared f)
          (λ code. record (change add_field name f.key refused) { code = code })
          (if f.required then guarded_field else added) (λ code. refl) h)

  add_component_field_change-optional :
      (name : String) (f : ArtifactField F)
      → is_additive (add_component_field_change lib name f) ≡ true
      → f.required ≡ false
  unfolding add_component_field_change
  add_component_field_change-optional name f h =
      add_field_change-optional "" f (λ n. false)
        (unrefused_change (check_component_sub_field f)
          (λ code. record (change add_component_field "" f.key refused) {
            component = name;
            code = code;
          })
          (record (add_field_change lib "" f (λ n. false)) {
            op = add_component_field;
            component = name;
          })
          (λ code. refl) h)

each_of_component-additive :
    {F : Type 0} (name : String) (l : List (SchemaChange F))
    → AllAdditive (each_of_component name l)
    → AllAdditive l
each_of_component-additive name [] h = h
each_of_component-additive name (c ∷ l) h = (h.0, each_of_component-additive name l h.1)

module _ {F : Type 0} (lib : Library F) (go : Packages) (times : Times) (o : IsOrdered lib) where
  pub field_value_kept :
      (old new : Props F) (subs subs' : Fields F) (zones zones' : Zones F)
      → IsWidened lib old new
      → ((prefix : String) (item : Object F)
          → Keeps
              (validate_payload lib go times prefix subs item)
              (validate_payload lib go times prefix subs' item))
      → ((prefix n : String) (body : Object F)
          → contains old.zone_components n ≡ true
          → Keeps
              (validate_in_zone lib go times prefix zones n body)
              (validate_in_zone lib go times prefix zones' n body))
      → (prefix : String) (v : Json F)
      → Keeps
          (validate_value lib go times prefix (field old subs zones) v)
          (validate_value lib go times prefix (field new subs' zones') v)
  unfolding validate_value validate_payload
  field_value_kept old new subs subs' zones zones' w p q prefix v h =
      subst
        (λ key.
          value_check lib go times (path_of prefix key) new
            (validate_payload lib go times (prefixed prefix key) subs')
            (validate_in_zone lib go times (prefixed prefix key) zones') v
          ≡ none)
        (sym w.same_key)
        (value_check_kept lib go times o old new (path_of prefix old.key) _ _ _ _ v w
          (p (prefixed prefix old.key)) (q (prefixed prefix old.key)) h)

  -- the loaded fields of a component: none has sub-fields
  abbrev SubFieldKept : Option (ArtifactField F) → ArtifactField F → Type 0
  SubFieldKept =
      FieldKept lib go times no_names (λ f. no_fields) (λ f. no_zones) (λ f. no_fields)
        (λ f. no_zones)

  unlisted_zones :
      (g f : ArtifactField F)
      → IsWidened lib (props_of zone_names g) (props_of zone_names f)
      → IsWidened lib (props_of no_names g) (props_of no_names f)
  unlisted_zones g f w = record {
    same_key = w.same_key;
    same_type = w.same_type;
    same_multiple = w.same_multiple;
    no_requirement = w.no_requirement;
    enum_kept = w.enum_kept;
    zone_kept = λ n c. c;
    storable = w.storable;
    loosened = w.loosened;
  }

  module _ (e : IsEquality lib) where
    diff_sub_field-kept :
        (name : String) (old : Option (ArtifactField F)) (f : ArtifactField F)
        → ((g : ArtifactField F) → old ≡ some g → (g.key ≡ f.key) × IsStorable lib g)
        → AllAdditive (diff_sub_field lib name old f)
        → SubFieldKept old f
    unfolding diff_sub_field
    diff_sub_field-kept name none f stored h = add_component_field_change-optional lib name f h.0
    diff_sub_field-kept name (some g) f stored h =
        let (same_key, storable) = stored g refl in
        let (w, _) = diff_field-IsWidened lib e "" g f same_key storable (
          each_of_component-additive name (diff_field lib "" g f) (
            unrefused (check_component_sub_field f)
              (λ code. record (change update_component_field "" f.key refused) {
                component = name;
                code = code;
              })
              (each_of_component name (diff_field lib "" g f)) (λ code. refl) h)) in
        (
          w.no_requirement,
          field_value_kept (props_of no_names g) (props_of no_names f) no_fields no_fields no_zones
              no_zones (unlisted_zones g f w) (λ prefix item p. p) (λ prefix n body c p. p),
        )

    -- Where the changes of a component are additive, it accepts every item that it did.
    pub diff_component-Keeps :
        (c c' : ArtifactComponent F) (prefix : String) (item : Object F)
        → HasStorable lib c.fields
        → AllAdditive (diff_component lib c c')
        → Keeps
            (validate_payload lib go times prefix (load_component_fields c) item)
            (validate_payload lib go times prefix (load_component_fields c') item)
    unfolding diff_component
    diff_component-Keeps c c' prefix item storable h =
        let P = λ (x : SchemaChange F). is_additive x ≡ true in
        let label =
          if not (c.label == c'.label)
          then record (change update_component "" "" additive) { component = c'.name } ∷ []
          else [] in
        let fields = diff_sub_fields lib c'.name c.fields c'.fields in
        let deletions =
          deleted (λ f. f.key) (sub_field_deletion c.name)
            (λ key. is_some (index_fields c'.fields key)) c.fields in
        let (kept, gone) =
          All-append P fields deletions (All-append P label (fields ++ deletions) h).1 in
        payload_kept lib go times no_names (λ f. no_fields) (λ f. no_fields) (λ f. no_zones)
          (λ f. no_zones) c.fields prefix item c'.fields
          (not_deleted (λ f. f.key) (sub_field_deletion c.name)
            (λ key. is_some (index_fields c'.fields key)) (λ f. refl) c.fields gone)
          (All-imp _ _ c'.fields
            (λ f. diff_sub_field-kept c'.name (index_fields c.fields f.key) f (λ g is_g. (
              last_with-key (λ f. f.key) f.key c.fields g is_g,
              All-last_with (IsStorable lib) (λ f. f.key) f.key c.fields g storable is_g,
            )))
            (each-additive (λ f. diff_sub_field lib c'.name (index_fields c.fields f.key) f)
              c'.fields kept))
