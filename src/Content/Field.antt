-- ===== src/Content/Field.antt =====
-- internal/cms/content/domain/content.go: the types that a field may have, and what the value check
-- reads of a field.
use Prim.Native.String.{◌++◌ as append}
use saas_forge.Base.{false, String, Bool, List, [], ◌∷◌, contains, string_eq, ℕ, ◌==◌, ◌||◌}
use saas_forge.Content.Constraints.{
  FieldConstraints, type_string, type_text, type_number, type_date, type_datetime,
}

abbrev pub type_rich_text : String
type_rich_text = "richtext"

abbrev pub type_boolean : String
type_boolean = "boolean"

abbrev pub type_enum : String
type_enum = "enum"

abbrev pub type_file : String
type_file = "file"

abbrev pub type_relation : String
type_relation = "relation"

abbrev pub type_component : String
type_component = "component"

abbrev pub type_dynamic_zone : String
type_dynamic_zone = "dynamiczone"

-- the key under which an item of a dynamic zone names its component
abbrev pub zone_discriminator : String
zone_discriminator = "__component"

abbrev pub max_multiple_elements : ℕ
max_multiple_elements = 100

abbrev allowed_field_types : List String
allowed_field_types =
    type_string ∷ type_text ∷ type_rich_text ∷ type_number ∷ type_boolean ∷ type_enum ∷ type_date
    ∷ type_datetime ∷ type_file ∷ type_relation ∷ type_component ∷ type_dynamic_zone ∷ []

abbrev allowed_multiple_types : List String
allowed_multiple_types = type_string ∷ type_enum ∷ type_relation ∷ type_number ∷ type_component ∷ []

unfoldable pub valid_field_type : String → Bool
valid_field_type t = contains allowed_field_types t

unfoldable pub multiple_allowed_for : String → Bool
multiple_allowed_for t = contains allowed_multiple_types t

-- The members of a `Field` that the value check reads, its sub-fields aside.
pub record Props (F : Type 0) : Type 0 where
  pub key : String
  pub type : String
  pub required : Bool
  pub multiple : Bool
  pub enum_values : List String
  pub zone_components : List String
  pub constraints : FieldConstraints F

-- A `Field` with its `ComponentFields` and its `ZoneFields`, a map from component names.
mutual
  pub data Field (F : Type 0) : Type 0 where
    field : Props F → Fields F → Zones F → Field F

  pub data Fields (F : Type 0) : Type 0 where
    no_fields : Fields F
    field_then : Field F → Fields F → Fields F

  pub data Zones (F : Type 0) : Type 0 where
    no_zones : Zones F
    zone_then : String → Fields F → Zones F → Zones F

module _ {F : Type 0} where
  abbrev pub props : Field F → Props F
  props (field p _ _) = p

  abbrev pub fields_of : List (Field F) → Fields F
  fields_of [] = no_fields
  fields_of (f ∷ fs) = field_then f (fields_of fs)

  -- the test of the map `defined` for a key
  abbrev pub is_defined : Fields F → String → Bool
  is_defined no_fields k = false
  is_defined (field_then f fs) k = (props f).key == k || is_defined fs k

  unfoldable pub zone_allows : Props F → String → Bool
  zone_allows f name = contains f.zone_components name

  unfoldable pub in_enum : Props F → String → Bool
  in_enum f v = contains f.enum_values v

-- `prefixed`: the text before the keys of the sub-fields of the field `key`, in whose errors they
-- stand under their path. The source puts it before the keys of the fields and of the item alike,
-- so that it decides no lookup; here only the errors carry it.
abbrev pub prefixed : String → String → String
prefixed prefix key = append prefix (append key ".")

-- The key of a field as an error names it.
abbrev pub path_of : String → String → String
path_of prefix key = append prefix key
