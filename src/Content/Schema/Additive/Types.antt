-- ===== src/Content/Schema/Additive/Types.antt =====
-- Types whose changes are all additive, where the components keep what they accept.
use saas_forge.Base.{
  All-imp, All-append, String, Bool, true, false, List, [], ◌∷◌, Option, some, none, ◌==◌,
  string_eq, not, if◌then◌else◌, ◌≡◌, refl, arith, All, sym, ap, ◌∙◌, contains, is_some,
  Option-cases, Bool-cases, inl, inr, ◌&&◌, ◌++◌,
}
use saas_forge.Content.Constraints.{Library}
use saas_forge.Content.Constraints.Tightens.{IsEquality, IsOrdered}
use saas_forge.Content.Json.{Object}
use saas_forge.Content.Field.{no_fields, type_dynamic_zone}
use saas_forge.Content.RichText.Spans.{Packages}
use saas_forge.Content.Payload.{validate_payload, validate_in_zone}
use saas_forge.Content.Payload.Scalars.{Times}
use saas_forge.Content.Payload.Kept.{Keeps, IsWidened, Keeps}
use saas_forge.Content.Schema.Change.{
  ArtifactField, ArtifactComponent, ArtifactType, SchemaChange, is_additive,
}
use saas_forge.Content.Schema.{
  deleted, additive, update_type, change, diff_one_field, diff_type, diff_fields, diff_roles,
  diff_own_only, field_deletion,
}
use saas_forge.Content.Schema.Fields.{index_fields}
use saas_forge.Content.Schema.Components.{index_components}
use saas_forge.Content.Schema.Resolve.{
  props_of, zone_names, load_fields, load_component_fields, component_fields, zone_fields,
  attach_zone_fields, fields_of_component,
}
use saas_forge.Content.Schema.Additive.Grades.{
  AllAdditive, All-last_with, not_deleted, each-additive,
}
use saas_forge.Content.Schema.Additive.Maps.{last_with-key}
use saas_forge.Content.Schema.Additive.Documents.{FieldKept, payload_kept}
use saas_forge.Content.Schema.Additive.Widens.{diff_field-IsWidened}
use saas_forge.Content.Schema.Additive.Kept.{
  IsStorable, field_value_kept, add_field_change-optional,
}

pub impossible : {A : Type 0} {o : Option A} → is_some o ≡ true → o ≡ none → ⊥
impossible there absent = elim (nothing (sym (ap is_some absent) ∙ there)) [ ]
  where
    nothing : false ≡ true → ⊥
    nothing e = cc

is_declared :
    {A : Type 0} (b : Bool) (o : Option A)
    → (not b && not (is_some o)) ≡ false
    → b ≡ false
    → is_some o ≡ true
is_declared true o h n = cc
is_declared false none h n = cc
is_declared false (some c) h n = refl

after_roles :
    {F : Type 0} (label read write own fields deletions : List (SchemaChange F))
    → AllAdditive (label ++ (read ++ (write ++ (own ++ (fields ++ deletions)))))
    → AllAdditive fields × AllAdditive deletions
after_roles {F} label read write own fields deletions h =
    let P = λ (c : SchemaChange F). is_additive c ≡ true in
    let h = (All-append P label _ h).1 in
    let h = (All-append P read _ h).1 in
    let h = (All-append P write _ h).1 in All-append P fields deletions (All-append P own _ h).1

-- A field as the service stores it: its constraints may be stored and the components it names exist.
pub record IsField {F : Type 0} (lib : Library F) (comps : List (ArtifactComponent F))
    (f : ArtifactField F) : Type 0 where
  pub storable : IsStorable lib f
  pub component_declared :
      (not (f.component == "") && not (is_some (index_components comps f.component))) ≡ false
  pub zone_declared :
      (n : String) → contains f.components n ≡ true → is_some (index_components comps n) ≡ true

module _ {F : Type 0} (lib : Library F) (go : Packages) (times : Times) where
  -- Every component of the first list is in the second, and accepts there what it did.
  abbrev pub ComponentsKept : List (ArtifactComponent F) → List (ArtifactComponent F) → Type 0
  ComponentsKept comps comps' =
      (name : String) (c : ArtifactComponent F)
      → index_components comps name ≡ some c
      → (c' : ArtifactComponent F) × (index_components comps' name ≡ some c')
        × ((prefix : String) (item : Object F)
            → Keeps (validate_payload lib go times prefix (load_component_fields c) item)
                (validate_payload lib go times prefix (load_component_fields c') item))

  -- The body of an item of a zone is checked against the component that it names.
  validate_in_zone-attach :
      (prefix : String) (comps : List (ArtifactComponent F)) (names : List String) (n : String)
      (body : Object F) (c : ArtifactComponent F)
      → index_components comps n ≡ some c
      → contains names n ≡ true
      → validate_in_zone lib go times prefix (attach_zone_fields comps names) n body
        ≡ validate_payload lib go times prefix (load_component_fields c) body
  unfolding validate_in_zone validate_payload
  validate_in_zone-attach prefix comps [] n body c e h = cc
  validate_in_zone-attach prefix comps (m ∷ names) n body c e h = elim (Bool-cases (m == n)) [
    | inl same ↦
        let is_n = (string_eq.equal_iff m n).0 same in
        let found : index_components comps m ≡ some c = rw is_n e in rw found (rw same refl)
    | inr other ↦ elim (Option-cases (index_components comps m)) [
      | inl absent ↦
          rw absent (validate_in_zone-attach prefix comps names n body c e (ground arith))
      | inr (d, found) ↦
          rw found (rw other (validate_in_zone-attach prefix comps names n body c e (ground arith)))
    ]
  ]

  zones_kept :
      (comps comps' : List (ArtifactComponent F)) (names names' : List String)
      → ComponentsKept comps comps'
      → ((n : String) → contains names n ≡ true → is_some (index_components comps n) ≡ true)
      → ((n : String) → contains names n ≡ true → contains names' n ≡ true)
      → (prefix n : String) (body : Object F) → contains names n ≡ true
      → Keeps
          (validate_in_zone lib go times prefix (attach_zone_fields comps names) n body)
          (validate_in_zone lib go times prefix (attach_zone_fields comps' names') n body)
  zones_kept comps comps' names names' k declared widened prefix n body allowed h =
      elim (Option-cases (index_components comps n)) [
        | inl absent ↦ elim (impossible (declared n allowed) absent) [ ]
        | inr (c, found) ↦
            let (c', found', keeps) = k n c found in
            validate_in_zone-attach prefix comps' names' n body c' found' (widened n allowed)
            ∙ keeps prefix body
                (sym (validate_in_zone-attach prefix comps names n body c found allowed) ∙ h)
      ]

  component_kept :
      (comps comps' : List (ArtifactComponent F)) (name : String)
      → ComponentsKept comps comps'
      → (not (name == "") && not (is_some (index_components comps name))) ≡ false
      → (prefix : String) (item : Object F)
      → Keeps
          (validate_payload lib go times prefix
            (if name == "" then no_fields else fields_of_component (index_components comps name))
            item)
          (validate_payload lib go times prefix
            (if name == "" then no_fields else fields_of_component (index_components comps' name))
            item)
  component_kept comps comps' name k declared prefix item = elim (Bool-cases (name == "")) [
    | inl empty ↦ rw empty (λ h. h)
    | inr named ↦ elim (Option-cases (index_components comps name)) [
      | inl absent ↦ elim (impossible (is_declared _ _ declared named) absent) [ ]
      | inr (c, found) ↦
          let (c', found', keeps) = k name c found in
          rw named (rw (found, found') (keeps prefix item))
    ]
  ]

  module _ (o : IsOrdered lib) (e : IsEquality lib) (comps comps' : List (ArtifactComponent F))
      (k : ComponentsKept comps comps') where
    abbrev TopFieldKept : Option (ArtifactField F) → ArtifactField F → Type 0
    TopFieldKept =
        FieldKept lib go times zone_names (component_fields comps) (zone_fields comps)
          (component_fields comps') (zone_fields comps')

    zone_fields_kept :
        (g f : ArtifactField F)
        → IsField lib comps g
        → IsWidened lib (props_of zone_names g) (props_of zone_names f)
        → (prefix n : String) (body : Object F) → contains g.components n ≡ true
        → Keeps
            (validate_in_zone lib go times prefix (zone_fields comps g) n body)
            (validate_in_zone lib go times prefix (zone_fields comps' f) n body)
    zone_fields_kept g f stored w prefix n body allowed =
        elim (Bool-cases (g.type == type_dynamic_zone)) [
          | inl zone ↦
              rw (w.same_type, zone)
                (zones_kept comps comps' g.components f.components k stored.zone_declared
                  w.zone_kept prefix n body allowed)
          | inr other ↦ rw (w.same_type, other) (λ h. h)
        ]

    diff_one_field-kept :
        (name : String) (declared : String → Bool) (old : Option (ArtifactField F))
        (f : ArtifactField F)
        → ((g : ArtifactField F) → old ≡ some g → (g.key ≡ f.key) × IsField lib comps g)
        → AllAdditive (diff_one_field lib name declared old f)
        → TopFieldKept old f
    unfolding diff_one_field
    diff_one_field-kept name declared none f stored h =
        add_field_change-optional lib name f declared h.0
    diff_one_field-kept name declared (some g) f stored h =
        let (same_key, is_field) = stored g refl in
        let (w, same_component) =
          diff_field-IsWidened lib e name g f same_key is_field.storable h in
        (
          w.no_requirement,
          field_value_kept lib go times o (props_of zone_names g) (props_of zone_names f)
              (component_fields comps g) (component_fields comps' f) (zone_fields comps g)
              (zone_fields comps' f) w
              (λ prefix item.
                rw⁻¹ same_component (
                  component_kept comps comps' g.component k is_field.component_declared prefix
                    item))
              (zone_fields_kept g f is_field w),
        )

    -- Where the changes of a type are additive, it accepts every document that it did.
    pub diff_type-Keeps :
        (t t' : ArtifactType F) (declared : String → Bool) (doc : Object F)
        → All (IsField lib comps) t.fields
        → AllAdditive (diff_type lib t t' declared)
        → Keeps
            (validate_payload lib go times "" (load_fields comps t.fields) doc)
            (validate_payload lib go times "" (load_fields comps' t'.fields) doc)
    unfolding diff_type load_fields
    diff_type-Keeps t t' declared doc stored h =
        let label =
          if not (t.label == t'.label) then change update_type t'.name "" additive ∷ [] else [] in
        let fields = diff_fields lib t'.name declared t.fields t'.fields in
        let deletions =
          deleted (λ f. f.key) (field_deletion t.name) (λ key. is_some (index_fields t'.fields key))
            t.fields in
        let (kept, gone) =
          after_roles label (diff_roles t'.name t.read_roles t'.read_roles)
            (diff_roles t'.name t.write_roles t'.write_roles)
            (diff_own_only t'.name t.own_only_roles t'.own_only_roles) fields deletions h in
        payload_kept lib go times zone_names (component_fields comps) (component_fields comps')
          (zone_fields comps) (zone_fields comps') t.fields "" doc t'.fields
          (not_deleted (λ f. f.key) (field_deletion t.name)
            (λ key. is_some (index_fields t'.fields key)) (λ f. refl) t.fields gone)
          (All-imp _ _ t'.fields
            (λ f. diff_one_field-kept t'.name declared (index_fields t.fields f.key) f (λ g is_g. (
              last_with-key (λ f. f.key) f.key t.fields g is_g,
              All-last_with (IsField lib comps) (λ f. f.key) f.key t.fields g stored is_g,
            )))
            (each-additive
              (λ f. diff_one_field lib t'.name declared (index_fields t.fields f.key) f) t'.fields
              kept))
