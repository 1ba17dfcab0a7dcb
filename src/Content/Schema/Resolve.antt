-- ===== src/Content/Schema/Resolve.antt =====
-- internal/cms/content/repository/postgres_repository.go: the fields of a type as they are loaded,
-- with the sub-fields of the components they name. A sub-field is loaded with none of its own.
use saas_forge.Base.{String, List, [], ◌∷◌, Option, some, none, ◌==◌, string_eq, if◌then◌else◌}
use saas_forge.Content.Field.{
  Props, field, Fields, no_fields, field_then, Zones, no_zones, zone_then, type_dynamic_zone,
}
use saas_forge.Content.Schema.Change.{ArtifactField, ArtifactComponent}
use saas_forge.Content.Schema.Components.{index_components}

module _ {F : Type 0} where
  -- The components that the row of a type's field lists; the query of a component's sub-fields does
  -- not read that column.
  abbrev pub zone_names : ArtifactField F → List String
  zone_names f = f.components

  abbrev pub no_names : ArtifactField F → List String
  no_names f = []

  -- The inverse of `artifactFieldOf`, as far as the value check reads it.
  abbrev pub props_of : (ArtifactField F → List String) → ArtifactField F → Props F
  props_of names f = record {
    key = f.key;
    type = f.type;
    required = f.required;
    multiple = f.multiple;
    enum_values = f.enum_values;
    zone_components = names f;
    constraints = f.constraints;
  }

  -- the fields of a list, by what each of them has for sub-fields
  abbrev pub load_each :
      (ArtifactField F → List String)
      → (ArtifactField F → Fields F)
      → (ArtifactField F → Zones F)
      → List (ArtifactField F)
      → Fields F
  load_each names subs zones [] = no_fields
  load_each names subs zones (f ∷ fs) =
      field_then (field (props_of names f) (subs f) (zones f)) (load_each names subs zones fs)

  -- `loadComponentFields`
  abbrev pub load_component_fields : ArtifactComponent F → Fields F
  load_component_fields c = load_each no_names (λ f. no_fields) (λ f. no_zones) c.fields

  abbrev pub fields_of_component : Option (ArtifactComponent F) → Fields F
  fields_of_component none = no_fields
  fields_of_component (some c) = load_component_fields c

  -- A name with no component is left out.
  abbrev pub attach_zone : String → Option (ArtifactComponent F) → Zones F → Zones F
  attach_zone n none rest = rest
  attach_zone n (some c) rest = zone_then n (load_component_fields c) rest

  -- `attachZoneFields`
  abbrev pub attach_zone_fields : List (ArtifactComponent F) → List String → Zones F
  attach_zone_fields comps [] = no_zones
  attach_zone_fields comps (n ∷ names) =
      attach_zone n (index_components comps n) (attach_zone_fields comps names)

  abbrev pub component_fields : List (ArtifactComponent F) → ArtifactField F → Fields F
  component_fields comps f =
      if f.component == ""
      then no_fields
      else fields_of_component (index_components comps f.component)

  abbrev pub zone_fields : List (ArtifactComponent F) → ArtifactField F → Zones F
  zone_fields comps f =
      if f.type == type_dynamic_zone then attach_zone_fields comps f.components else no_zones

  -- `loadFieldsByType`
  unfoldable pub load_fields : List (ArtifactComponent F) → List (ArtifactField F) → Fields F
  load_fields comps fs = load_each zone_names (component_fields comps) (zone_fields comps) fs
