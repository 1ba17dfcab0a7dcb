-- ===== src/Content/Schema/Components.antt =====
-- internal/cms/content/domain/artifact_component.go and component.go: the changes of a component.
use saas_forge.Base.{
  String, Bool, List, [], ◌∷◌, Option, some, none, ◌==◌, string_eq, not, if◌then◌else◌, ◌||◌, ◌++◌,
  is_some,
}
use saas_forge.Content.Permission.{is_empty}
use saas_forge.Content.Constraints.{Library}
use saas_forge.Content.Field.{type_component, type_dynamic_zone}
use saas_forge.Content.Schema.Change.{
  deleted, changes_of_each, ArtifactField, ArtifactComponent, SchemaChange, additive, guarded,
  refused, create_component, update_component, add_component_field, update_component_field,
  delete_component_field, change, is_refused, last_with,
}
use saas_forge.Content.Schema.Fields.{index_fields, add_field_change, diff_field}

module _ {F : Type 0} where
  abbrev pub index_components : List (ArtifactComponent F) → String → Option (ArtifactComponent F)
  index_components cs name = last_with (λ c. c.name) name cs

  -- `CheckComponentSubField` of `subFieldOf`: the code of the violation
  unfoldable pub check_component_sub_field : ArtifactField F → Option String
  check_component_sub_field f =
      if f.type == type_component || f.type == type_dynamic_zone
      then some "CONTENT_COMPONENT_NESTING_UNSUPPORTED"
      else if f.constraints.unique || not (is_empty f.read_roles) || not (is_empty f.write_roles)
      then some "CONTENT_COMPONENT_FIELD_ATTRIBUTE_UNSUPPORTED"
      else none

  abbrev pub of_component : String → SchemaChange F → SchemaChange F
  of_component component c = record c { op = update_component_field; component = component }

  abbrev pub each_of_component : String → List (SchemaChange F) → List (SchemaChange F)
  each_of_component component [] = []
  each_of_component component (c ∷ cs) = of_component component c ∷ each_of_component component cs

  abbrev pub sub_field_deletion : String → ArtifactField F → SchemaChange F
  sub_field_deletion component f = record (change delete_component_field "" f.key guarded) {
    component = component;
    code = "CONTENT_FIELD_HAS_DATA";
  }

module _ {F : Type 0} (lib : Library F) where
  unfoldable pub add_component_field_change : String → ArtifactField F → SchemaChange F
  unfolding check_component_sub_field add_field_change
  add_component_field_change component f = elim (check_component_sub_field f) [
    | some code ↦ record (change add_component_field "" f.key refused) {
      component = component;
      code = code;
    }
    | none ↦ record (add_field_change lib "" f (λ name. Bool.false)) {
      op = add_component_field;
      component = component;
    }
  ]

  abbrev refused_sub_fields : String → List (ArtifactField F) → List (SchemaChange F)
  refused_sub_fields component fs =
      changes_of_each
        (λ f.
          if is_refused (add_component_field_change component f)
          then add_component_field_change component f ∷ []
          else [])
        fs

  abbrev created : (String → Bool) → ArtifactComponent F → SchemaChange F
  created valid_field_key c =
      if not (valid_field_key c.name)
      then record (change create_component "" "" refused) {
        component = c.name;
        code = "CONTENT_COMPONENT_NAME_INVALID";
      }
      else if is_empty c.fields
      then record (change create_component "" "" refused) {
        component = c.name;
        code = "CONTENT_COMPONENT_NO_FIELDS";
      }
      else record (change create_component "" "" additive) { component = c.name }

  -- `valid_field_key` is the match of the pattern of an identifier.
  unfoldable pub create_component_changes :
      (String → Bool) → ArtifactComponent F → List (SchemaChange F)
  unfolding add_component_field_change
  create_component_changes valid_field_key c =
      created valid_field_key c ∷ refused_sub_fields c.name c.fields

  -- one turn of the loop over the sub-fields of `to`, by the sub-field of `from` with the key
  unfoldable pub diff_sub_field :
      String → Option (ArtifactField F) → ArtifactField F → List (SchemaChange F)
  unfolding add_component_field_change check_component_sub_field diff_field
  diff_sub_field component none f = add_component_field_change component f ∷ []
  diff_sub_field component (some prev) f = elim (check_component_sub_field f) [
    | some code ↦
        record (change update_component_field "" f.key refused) {
          component = component;
          code = code;
        }
        ∷ []
    | none ↦ each_of_component component (diff_field lib "" prev f)
  ]

  abbrev pub diff_sub_fields :
      String → List (ArtifactField F) → List (ArtifactField F) → List (SchemaChange F)
  diff_sub_fields component from to =
      changes_of_each (λ f. diff_sub_field component (index_fields from f.key) f) to

  unfoldable pub diff_component : ArtifactComponent F → ArtifactComponent F → List (SchemaChange F)
  unfolding diff_sub_field
  diff_component from to =
      (if not (from.label == to.label)
        then record (change update_component "" "" additive) { component = to.name } ∷ []
        else [])
      ++ (diff_sub_fields to.name from.fields to.fields
          ++ deleted (λ f. f.key) (sub_field_deletion from.name)
              (λ key. is_some (index_fields to.fields key)) from.fields)
