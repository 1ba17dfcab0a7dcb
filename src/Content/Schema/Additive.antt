-- ===== src/Content/Schema/Additive.antt =====
-- What an additive difference of schemas means for the documents.
pub mod Maps
pub mod Grades
pub mod Documents
pub mod Widens
pub mod Kept
pub mod Types
use mathlib.Core.Path.{subst}
use saas_forge.Base.{
  String, Bool, true, false, List, [], ◌∷◌, Option, some, none, ◌≡◌, refl, All, ap, sym, ◌∙◌,
  is_some, Option-cases, inl, inr, if◌then◌else◌, map, ◌++◌, All-append, All-imp,
}
use saas_forge.Content.Constraints.{Library}
use saas_forge.Content.Constraints.Tightens.{IsEquality, IsOrdered}
use saas_forge.Content.Json.{Object}
use saas_forge.Content.RichText.Spans.{Packages}
use saas_forge.Content.Payload.{validate_payload}
use saas_forge.Content.Payload.Scalars.{Times}
use saas_forge.Content.Schema.{
  diff_schemas, changes_between, diff_one_component, diff_one_type, diff_components, diff_types,
  index_types, type_deletion, component_deletion, diff_type,
}
use saas_forge.Content.Schema.Hints.{with_rename_hints, with_hint}
use saas_forge.Content.Schema.Change.{
  Artifact, ArtifactComponent, ArtifactType, SchemaChange, is_additive, rename, deleted,
}
use saas_forge.Content.Schema.Components.{index_components, diff_component}
use saas_forge.Content.Schema.Resolve.{load_fields}
use saas_forge.Content.Schema.Additive.Grades.{
  AllAdditive, All-last_with, not_deleted, each-additive,
}
use saas_forge.Content.Schema.Additive.Maps.{last_with-key}
use saas_forge.Content.Schema.Additive.Kept.{HasStorable, diff_component-Keeps}
use saas_forge.Content.Schema.Additive.Types.{IsField, ComponentsKept, diff_type-Keeps, impossible}

-- A schema as the service stores it: the constraints of every field may be stored, and the
-- components that a field of a type names are there.
pub record IsStored {F : Type 0} (lib : Library F) (a : Artifact F) : Type 0 where
  pub types_stored : All (λ t. All (IsField lib a.components) t.fields) a.types
  pub components_stored : All (λ c. HasStorable lib c.fields) a.components

some_element : {A : Type 0} (o : Option A) → is_some o ≡ true → (x : A) × (o ≡ some x)
some_element {A} none h = elim (impossible {A = A} h refl) [ ]
some_element {A} (some x) h = (x, refl)

module _ {F : Type 0} where
  hinted :
      (b : Bool) (c : SchemaChange F)
      → is_additive (if b then record c { hint = some rename } else c) ≡ true
      → is_additive c ≡ true
  hinted true c h = h
  hinted false c h = h

  -- A hint changes no grade.
  with_hint-additive :
      (all l : List (SchemaChange F)) → AllAdditive (map (with_hint all) l) → AllAdditive l
  with_hint-additive all [] h = tt
  with_hint-additive all (c ∷ l) h = (hinted _ c h.0, with_hint-additive all l h.1)

module _ {F : Type 0} (lib : Library F) (go : Packages) (times : Times) (o : IsOrdered lib)
    (e : IsEquality lib) (valid_field_key : String → Bool) where
  components_kept :
      (comps comps' : List (ArtifactComponent F))
      → All (λ c. HasStorable lib c.fields) comps
      → AllAdditive (diff_components lib valid_field_key comps comps')
      → AllAdditive (
          deleted
            (λ c. c.name)
            component_deletion
            (λ name. is_some (index_components comps' name))
            comps)
      → ComponentsKept lib go times comps comps'
  unfolding diff_one_component
  components_kept comps comps' stored kept gone name c found =
      let there =
        not_deleted (λ c. c.name) component_deletion
          (λ name. is_some (index_components comps' name)) (λ c. refl) comps gone name
          (ap is_some found) in
      let (c', found') = some_element (index_components comps' name) there in
      let changes =
        All-last_with
          (λ c.
            AllAdditive (diff_one_component lib valid_field_key (index_components comps c.name) c))
          (λ c. c.name) name comps' c'
          (each-additive
            (λ c. diff_one_component lib valid_field_key (index_components comps c.name) c) comps'
            kept)
          found' in
      let same_name = last_with-key (λ c. c.name) name comps' c' found' in
      let additive =
        subst (λ old. AllAdditive (diff_one_component lib valid_field_key old c'))
          (ap (index_components comps) same_name ∙ found) changes in
      (
        c',
        found',
        λ prefix item.
            diff_component-Keeps lib go times o e c c' prefix item
              (All-last_with (λ c. HasStorable lib c.fields) (λ c. c.name) name comps c stored
                found)
              additive,
      )

  -- If every change between two schemas is additive, then each type of the first, which is stored,
  -- is in the second, and every payload that its fields accept is accepted by its fields there.
  pub diff_schemas-additive :
      (from to : Artifact F)
      → IsStored lib from
      → AllAdditive (diff_schemas lib valid_field_key from to)
      → (name : String) (t : ArtifactType F) → index_types from.types name ≡ some t
      → (t' : ArtifactType F) × (index_types to.types name ≡ some t')
        × ((doc : Object F)
            → validate_payload lib go times "" (load_fields from.components t.fields) doc ≡ none
            → validate_payload lib go times "" (load_fields to.components t'.fields) doc ≡ none)
  unfolding diff_schemas changes_between with_rename_hints diff_one_type
  diff_schemas-additive from to stored h name t found =
      let P = λ (c : SchemaChange F). is_additive c ≡ true in
      let declared = λ (n : String). is_some (index_components to.components n) in
      let components = diff_components lib valid_field_key from.components to.components in
      let types = diff_types lib declared from.types to.types in
      let gone_types =
        deleted (λ t. t.name) type_deletion (λ n. is_some (index_types to.types n)) from.types in
      let gone_components = deleted (λ c. c.name) component_deletion declared from.components in
      let all =
        with_hint-additive (changes_between lib valid_field_key from to)
          (changes_between lib valid_field_key from to) h in
      let (of_components, rest) =
        All-append P components (types ++ (gone_types ++ gone_components)) all in
      let (of_types, rest) = All-append P types (gone_types ++ gone_components) rest in
      let (no_type, no_component) = All-append P gone_types gone_components rest in
      let there =
        not_deleted (λ t. t.name) type_deletion (λ n. is_some (index_types to.types n)) (λ t. refl)
          from.types no_type name (ap is_some found) in
      let (t', found') = some_element (index_types to.types name) there in
      let same_name = last_with-key (λ t. t.name) name to.types t' found' in
      let changes =
        All-last_with
          (λ t. AllAdditive (diff_one_type lib declared (index_types from.types t.name) t))
          (λ t. t.name) name to.types t'
          (each-additive (λ t. diff_one_type lib declared (index_types from.types t.name) t)
            to.types of_types)
          found' in
      let additive =
        subst (λ old. AllAdditive (diff_one_type lib declared old t'))
          (ap (index_types from.types) same_name ∙ found) changes in
      (
        t',
        found',
        λ doc.
            diff_type-Keeps lib go times o e from.components to.components
              (components_kept from.components to.components stored.components_stored of_components
                no_component)
              t t' declared doc
              (All-last_with (λ t. All (IsField lib from.components) t.fields) (λ t. t.name) name
                from.types t stored.types_stored found)
              additive,
      )
