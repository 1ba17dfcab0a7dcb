-- ===== src/Content/Schema/Fields.antt =====
-- internal/cms/content/domain/artifact_diff.go: the changes of a field.
use saas_forge.Base.{
  String, Bool, true, false, List, [], ◌∷◌, Option, some, none, ◌==◌, string_eq, not, if◌then◌else◌,
  ◌&&◌, ◌++◌,
}
use saas_forge.Content.Permission.{is_empty}
use saas_forge.Content.Constraints.{
  Library, FieldConstraints, DefinitionError, not_applicable, unique_multiple, format_unknown,
  pattern_invalid, range_invalid, validate_field_constraints, equal_constraints, tightens,
}
use saas_forge.Content.Field.{
  valid_field_type, multiple_allowed_for, type_component, type_dynamic_zone,
}
use saas_forge.Content.Schema.Change.{
  ArtifactField, SchemaChange, ChangeGrade, additive, guarded, refused, add_field, update_field,
  reshape, change, same_order, missing_from, first_duplicate_name, last_with,
}

-- `ConstraintDefinitionError.Code`
abbrev pub error_code : DefinitionError → String
error_code (not_applicable attr) = "CONTENT_FIELD_CONSTRAINT_NOT_APPLICABLE"
error_code unique_multiple = "CONTENT_FIELD_UNIQUE_MULTIPLE"
error_code format_unknown = "CONTENT_FIELD_FORMAT_UNKNOWN"
error_code pattern_invalid = "CONTENT_FIELD_PATTERN_INVALID"
error_code (range_invalid attr) = "CONTENT_FIELD_RANGE_INVALID"

abbrev all_declared : (String → Bool) → List String → Bool
all_declared declared [] = true
all_declared declared (n ∷ names) = declared n && all_declared declared names

module _ {F : Type 0} where
  abbrev pub index_fields : List (ArtifactField F) → String → Option (ArtifactField F)
  index_fields fs key = last_with (λ f. f.key) key fs

  -- the two switches of `addFieldChange`: the code they refuse the field with, if any
  abbrev refused_component : (String → Bool) → ArtifactField F → Option String
  refused_component declared f =
      if f.type == type_component
      then (if f.component == ""
          then some "CONTENT_COMPONENT_REQUIRED"
          else if not (declared f.component)
          then some "CONTENT_COMPONENT_NOT_FOUND"
          else none)
      else if not (f.component == "")
      then some "CONTENT_COMPONENT_NOT_APPLICABLE"
      else none

  abbrev refused_zone : (String → Bool) → ArtifactField F → Option String
  refused_zone declared f =
      if f.type == type_dynamic_zone
      then (if is_empty f.components
          then some "CONTENT_ZONE_COMPONENTS_REQUIRED"
          else if not (first_duplicate_name f.components == "")
          then some "CONTENT_ZONE_COMPONENT_DUPLICATE"
          else if not (all_declared declared f.components)
          then some "CONTENT_COMPONENT_NOT_FOUND"
          else none)
      else if not (is_empty f.components)
      then some "CONTENT_ZONE_COMPONENTS_NOT_APPLICABLE"
      else none

module _ {F : Type 0} (lib : Library F) where
  abbrev pub refusal : (String → Bool) → ArtifactField F → Option String
  refusal declared f =
      if not (valid_field_type f.type)
      then some "CONTENT_FIELD_TYPE_UNSUPPORTED"
      else elim (refused_component declared f) [
        | some code ↦ some code
        | none ↦ elim (refused_zone declared f) [
          | some code ↦ some code
          | none ↦
              if f.multiple && not (multiple_allowed_for f.type)
              then some "CONTENT_FIELD_MULTIPLE_UNSUPPORTED"
              else elim (validate_field_constraints lib f.type f.multiple f.constraints) [
                | some e ↦ some (error_code e)
                | none ↦ none
              ]
        ]
      ]

  -- `declared` is the test of the map `comps` for a name.
  unfoldable pub add_field_change : String → ArtifactField F → (String → Bool) → SchemaChange F
  unfolding valid_field_type multiple_allowed_for first_duplicate_name validate_field_constraints
  add_field_change type_name f declared = elim (refusal declared f) [
    | some code ↦ record (change add_field type_name f.key refused) { code = code }
    | none ↦
        if f.required
        then record (change add_field type_name f.key guarded) {
          code = "CONTENT_FIELD_REQUIRED_BACKFILL";
        }
        else change add_field type_name f.key additive
  ]

  abbrev pub update : String → String → ChangeGrade → String → SchemaChange F
  update type_name key grade code = record (change update_field type_name key grade) { code = code }

  abbrev pub when : Bool → SchemaChange F → List (SchemaChange F)
  when b c = if b then c ∷ [] else []

  abbrev pub without_unique : FieldConstraints F → FieldConstraints F
  without_unique c = record c { unique = false }

  abbrev pub diff_unique : String → ArtifactField F → ArtifactField F → List (SchemaChange F)
  diff_unique type_name from to =
      if not from.constraints.unique && to.constraints.unique
      then record (update type_name to.key guarded "CONTENT_FIELD_UNIQUE_DUPLICATES") {
        constraints = some to.constraints;
      }
        ∷ []
      else when (from.constraints.unique && not to.constraints.unique)
          (update type_name to.key additive "")

  abbrev pub diff_rules : String → ArtifactField F → ArtifactField F → List (SchemaChange F)
  diff_rules type_name from to =
      if equal_constraints lib (without_unique from.constraints) (without_unique to.constraints)
      then []
      else if tightens lib (without_unique to.constraints) (without_unique from.constraints)
      then record (update type_name to.key guarded "CONTENT_FIELD_CONSTRAINT_BACKFILL") {
        constraints = some to.constraints;
      }
        ∷ []
      else update type_name to.key additive "" ∷ []

  unfoldable pub diff_constraints :
      String → ArtifactField F → ArtifactField F → List (SchemaChange F)
  unfolding validate_field_constraints equal_constraints tightens
  diff_constraints type_name from to =
      elim (validate_field_constraints lib to.type to.multiple to.constraints) [
        | some e ↦ update type_name to.key refused (error_code e) ∷ []
        | none ↦ diff_unique type_name from to ++ diff_rules type_name from to
      ]

  -- `refuse` in `diffField`
  abbrev pub refuse : String → ArtifactField F → String → SchemaChange F
  refuse type_name to code = record (update type_name to.key refused code) { hint = some reshape }

  abbrev pub diff_immutable : String → ArtifactField F → ArtifactField F → List (SchemaChange F)
  diff_immutable type_name from to =
      when (not (from.type == to.type)) (refuse type_name to "CONTENT_FIELD_TYPE_IMMUTABLE")
      ++ (when (not (if from.multiple then to.multiple else not to.multiple))
            (refuse type_name to "CONTENT_FIELD_MULTIPLE_IMMUTABLE")
          ++ (when (not (from.relation_entity == to.relation_entity))
                (refuse type_name to "CONTENT_FIELD_RELATION_IMMUTABLE")
              ++ when (not (from.component == to.component))
                  (refuse type_name to "CONTENT_FIELD_COMPONENT_IMMUTABLE")))

  abbrev pub diff_required : String → ArtifactField F → ArtifactField F → List (SchemaChange F)
  diff_required type_name from to =
      if not from.required && to.required
      then update type_name to.key guarded "CONTENT_FIELD_REQUIRED_BACKFILL" ∷ []
      else when (from.required && not to.required) (update type_name to.key additive "")

  abbrev pub diff_enum : String → ArtifactField F → ArtifactField F → List (SchemaChange F)
  diff_enum type_name from to =
      if not (is_empty (missing_from from.enum_values to.enum_values))
      then record (update type_name to.key guarded "CONTENT_ENUM_VALUE_IN_USE") {
        removed_values = missing_from from.enum_values to.enum_values;
      }
        ∷ []
      else when (not (same_order from.enum_values to.enum_values))
          (update type_name to.key additive "")

  abbrev pub diff_zone : String → ArtifactField F → ArtifactField F → List (SchemaChange F)
  diff_zone type_name from to =
      if not (is_empty (missing_from from.components to.components))
      then record (update type_name to.key guarded "CONTENT_ZONE_COMPONENT_IN_USE") {
        removed_components = missing_from from.components to.components;
      }
        ∷ []
      else when (not (same_order from.components to.components))
          (update type_name to.key additive "")

  -- the part of `diffField` that a field of the same shape comes to
  abbrev pub diff_mutable : String → ArtifactField F → ArtifactField F → List (SchemaChange F)
  diff_mutable type_name from to =
      when (not (from.label == to.label)) (update type_name to.key additive "")
      ++ (when (not (from.description == to.description)) (update type_name to.key additive "")
          ++ (diff_required type_name from to
              ++ (when (not (same_order from.read_roles to.read_roles))
                    (update type_name to.key additive "")
                  ++ (when (not (same_order from.write_roles to.write_roles))
                        (update type_name to.key additive "")
                      ++ (diff_enum type_name from to
                          ++ (diff_zone type_name from to
                              ++ diff_constraints type_name from to))))))

  unfoldable pub diff_field : String → ArtifactField F → ArtifactField F → List (SchemaChange F)
  unfolding diff_constraints
  diff_field type_name from to =
      if not (is_empty (diff_immutable type_name from to))
      then diff_immutable type_name from to
      else diff_mutable type_name from to
