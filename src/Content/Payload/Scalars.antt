-- ===== src/Content/Payload/Scalars.antt =====
-- internal/cms/content/service/validate.go and errors.go: what a payload is refused for, and the
-- check of one value against the type and the constraints of a field.
use saas_forge.Base.{
  String, Bool, true, false, Option, some, none, ◌==◌, string_eq, List, not, ℕ, if◌then◌else◌, ◌||◌,
}
use saas_forge.Content.Constraints as Constraints
use saas_forge.Content.Constraints.{
  Library, Value, check_value, type_string, type_text, type_number, type_date, type_datetime,
}
use saas_forge.Content.Json.{Json, string, float64, bool, as_string}
use saas_forge.Content.Field.{
  Props, in_enum, type_file, type_boolean, type_enum, type_relation, type_rich_text,
}
use saas_forge.Content.RichText.{validate_rich_text}
use saas_forge.Content.RichText.Spans as Spans
use saas_forge.Content.RichText.Spans.{Packages}

-- `time.Parse` by the layouts "2006-01-02" and RFC 3339, as far as it answers an error
pub record Times : Type 0 where
  pub is_date : String → Bool
  pub is_datetime : String → Bool

-- The errors of errors.go that the check answers, by their code, with the path and the details that
-- tell them apart. A value that is no key of a Go map is a panic of the runtime.
pub data ValueError : Type 0 where
  field_unknown field_required zone_component_missing : String → ValueError
  type_mismatch : String → String → ValueError
  enum_invalid : String → List String → ValueError
  constraint_violated : String → Constraints.Violation → ValueError
  rich_text_invalid : String → Spans.Violation → ValueError
  too_many_values duplicate_value : String → ℕ → ValueError
  zone_component_not_allowed : String → String → List String → ValueError
  at_index at_item : ℕ → ValueError → ValueError
  unhashable : ValueError

abbrev pub violates : String → Option Constraints.Violation → Option ValueError
violates path none = none
violates path (some v) = some (constraint_violated path v)

abbrev pub check_rich_text : String → Option Spans.Violation → Option ValueError
check_rich_text path none = none
check_rich_text path (some v) = some (rich_text_invalid path v)

module _ {F : Type 0} where
  -- a JSON value, as the constraints look at it
  abbrev pub as_value : Json F → Value F
  as_value (string s) = Constraints.text s
  as_value (float64 f) = Constraints.number f
  as_value _ = Constraints.other

  abbrev pub is_number : Json F → Bool
  is_number (float64 f) = true
  is_number _ = false

  abbrev pub is_bool : Json F → Bool
  is_bool (bool b) = true
  is_bool _ = false

  abbrev pub is_string : Json F → Bool
  is_string (string s) = true
  is_string _ = false

  abbrev pub check_constrained : Library F → String → Props F → Bool → Json F → Option ValueError
  check_constrained lib path f has_shape v =
      if not has_shape
      then some (type_mismatch path f.type)
      else violates path (check_value lib f.constraints f.type (as_value v))

  abbrev pub check_string :
      String → Props F → (String → Bool) → ValueError → Json F → Option ValueError
  check_string path f accepts e v = elim (as_string v) [
    | none ↦ some (type_mismatch path f.type)
    | some s ↦ if not (accepts s) then some e else none
  ]

module _ {F : Type 0} (lib : Library F) (go : Packages) (times : Times) where
  unfoldable pub validate_scalar : String → Props F → Json F → Option ValueError
  unfolding check_value in_enum validate_rich_text
  validate_scalar path f v =
      if f.type == type_string || f.type == type_text || f.type == type_file
      then check_constrained lib path f (is_string v) v
      else if f.type == type_number
      then check_constrained lib path f (is_number v) v
      else if f.type == type_boolean
      then (if not (is_bool v) then some (type_mismatch path f.type) else none)
      else if f.type == type_enum
      then check_string path f (in_enum f) (enum_invalid path f.enum_values) v
      else if f.type == type_date
      then check_string path f times.is_date (type_mismatch path f.type) v
      else if f.type == type_datetime
      then check_string path f times.is_datetime (type_mismatch path f.type) v
      else if f.type == type_relation
      then check_string path f (λ s. true) (type_mismatch path f.type) v
      else if f.type == type_rich_text
      then check_rich_text path (validate_rich_text lib go v)
      else some (type_mismatch path f.type)
