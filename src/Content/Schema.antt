-- ===== src/Content/Schema.antt =====
-- internal/cms/content/domain/artifact.go and artifact_diff.go: a schema as a document, and what it
-- would take to turn one into another.
pub mod Change
pub mod Hints
pub mod Fields
pub mod Components
pub mod Resolve
pub mod Additive
pub mod Unchanged
use saas_forge.Base.{
  String, Bool, true, false, List, [], ◌∷◌, Option, some, none, ◌==◌, string_eq, not, if◌then◌else◌,
  ◌&&◌, ◌||◌, ◌++◌, is_some, contains, map,
}
use saas_forge.Content.Permission.{is_empty}
use saas_forge.Content.Constraints.{Library}
use saas_forge.Content.Schema.Change.{
  deleted, changes_of_each, Artifact, ArtifactType, ArtifactField, ArtifactComponent, SchemaChange,
  ChangeOp, ChangeGrade, additive, guarded, refused, create_type, update_type, delete_type,
  delete_field, delete_component, add_field, add_component_field, delete_component_field, rename,
  change, same_order, missing_from, is_refused, last_with,
}
use saas_forge.Content.Schema.Hints.{with_rename_hints}
use saas_forge.Content.Schema.Fields.{index_fields, add_field_change, diff_field}
use saas_forge.Content.Schema.Components.{
  index_components, create_component_changes, diff_component,
}

module _ {F : Type 0} where
  abbrev pub index_types : List (ArtifactType F) → String → Option (ArtifactType F)
  index_types ts name = last_with (λ t. t.name) name ts

  -- the change of a list of roles, unless it stays the same
  abbrev pub diff_roles : String → List String → List String → List (SchemaChange F)
  diff_roles name from to =
      if same_order from to then [] else change update_type name "" additive ∷ []

  -- the change of `own_only_roles`
  abbrev pub diff_own_only : String → List String → List String → List (SchemaChange F)
  diff_own_only name from to =
      if same_order from to
      then []
      else if not (is_empty (missing_from to from))
      then record (change update_type name "" guarded) { code = "CONTENT_ENTRY_AUTHOR_MISSING" }
        ∷ []
      else change update_type name "" additive ∷ []

abbrev pub field_deletion : {F : Type 0} → String → ArtifactField F → SchemaChange F
field_deletion name f = record (change delete_field name f.key guarded) {
  code = "CONTENT_FIELD_HAS_DATA";
}

abbrev pub type_deletion : {F : Type 0} → ArtifactType F → SchemaChange F
type_deletion t = record (change delete_type t.name "" guarded) {
  code = "CONTENT_TYPE_HAS_ENTRIES|CONTENT_TYPE_REFERENCED";
}

abbrev pub component_deletion : {F : Type 0} → ArtifactComponent F → SchemaChange F
component_deletion c = record (change delete_component "" "" guarded) {
  component = c.name;
  code = "CONTENT_COMPONENT_IN_USE";
}

module _ {F : Type 0} (lib : Library F) where
  -- one turn of the loop over the fields of `to`, by the field of `from` with the key
  unfoldable pub diff_one_field :
      String → (String → Bool) → Option (ArtifactField F) → ArtifactField F → List (SchemaChange F)
  unfolding add_field_change diff_field
  diff_one_field name declared none f = add_field_change lib name f declared ∷ []
  diff_one_field name declared (some prev) f = diff_field lib name prev f

  abbrev pub diff_fields :
      String
      → (String → Bool)
      → List (ArtifactField F)
      → List (ArtifactField F)
      → List (SchemaChange F)
  diff_fields name declared from to =
      changes_of_each (λ f. diff_one_field name declared (index_fields from f.key) f) to

  unfoldable pub diff_type :
      ArtifactType F → ArtifactType F → (String → Bool) → List (SchemaChange F)
  unfolding diff_one_field
  diff_type from to declared =
      (if not (from.label == to.label) then change update_type to.name "" additive ∷ [] else [])
      ++ (diff_roles to.name from.read_roles to.read_roles
          ++ (diff_roles to.name from.write_roles to.write_roles
              ++ (diff_own_only to.name from.own_only_roles to.own_only_roles
                  ++ (diff_fields to.name declared from.fields to.fields
                      ++ deleted (λ f. f.key) (field_deletion from.name)
                          (λ key. is_some (index_fields to.fields key)) from.fields))))

  abbrev refused_fields : String → (String → Bool) → List (ArtifactField F) → List (SchemaChange F)
  refused_fields name declared fs =
      changes_of_each
        (λ f.
          if is_refused (add_field_change lib name f declared)
          then add_field_change lib name f declared ∷ []
          else [])
        fs

  -- one turn of the loop over the types of `to`, by the type of `from` with the name
  unfoldable pub diff_one_type :
      (String → Bool) → Option (ArtifactType F) → ArtifactType F → List (SchemaChange F)
  unfolding add_field_change diff_type
  diff_one_type declared none t =
      change create_type t.name "" additive ∷ refused_fields t.name declared t.fields
  diff_one_type declared (some prev) t = diff_type prev t declared

  abbrev pub diff_types :
      (String → Bool) → List (ArtifactType F) → List (ArtifactType F) → List (SchemaChange F)
  diff_types declared from to =
      changes_of_each (λ t. diff_one_type declared (index_types from t.name) t) to

  -- `valid_field_key` is the match of the pattern of an identifier.
  module _ (valid_field_key : String → Bool) where
    -- one turn of the loop over the components of `to`
    unfoldable pub diff_one_component :
        Option (ArtifactComponent F) → ArtifactComponent F → List (SchemaChange F)
    unfolding create_component_changes diff_component
    diff_one_component none c = create_component_changes lib valid_field_key c
    diff_one_component (some prev) c = diff_component lib prev c

    abbrev pub diff_components :
        List (ArtifactComponent F) → List (ArtifactComponent F) → List (SchemaChange F)
    diff_components from to =
        changes_of_each (λ c. diff_one_component (index_components from c.name) c) to

    -- `DiffSchemas` before the hints
    unfoldable pub changes_between : Artifact F → Artifact F → List (SchemaChange F)
    unfolding diff_one_component diff_one_type
    changes_between from to =
        diff_components from.components to.components
        ++ (diff_types (λ name. is_some (index_components to.components name)) from.types to.types
            ++ (deleted (λ t. t.name) type_deletion (λ name. is_some (index_types to.types name))
                  from.types
                ++ deleted (λ c. c.name) component_deletion
                    (λ name. is_some (index_components to.components name)) from.components))

    unfoldable pub diff_schemas : Artifact F → Artifact F → List (SchemaChange F)
    unfolding changes_between with_rename_hints
    diff_schemas from to = with_rename_hints (changes_between from to)
