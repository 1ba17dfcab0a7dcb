-- ===== src/Content/Constraints.antt =====
-- internal/cms/content/domain/field_constraints.go: what a field's constraint set may be, and which
-- values it lets through.
pub mod Tightens
use saas_forge.Base.{
  ℕ, String, Bool, true, false, List, [], ◌∷◌, ◌&&◌, ◌||◌, ◌==◌, string_eq, not, if◌then◌else◌,
  Option, some, none, is_some, contains, ltb,
}

pub record FieldConstraints (F : Type 0) : Type 0 where
  pub unique : Bool
  pub format : String
  pub pattern : String
  pub min : Option F
  pub max : Option F

-- `FieldType*`
abbrev pub type_string : String
type_string = "string"

abbrev pub type_text : String
type_text = "text"

abbrev pub type_number : String
type_number = "number"

abbrev pub type_date : String
type_date = "date"

abbrev pub type_datetime : String
type_datetime = "datetime"

abbrev pub field_format_slug : String
field_format_slug = "slug"

abbrev max_pattern_length : ℕ
max_pattern_length = 512

unfoldable pub unique_allowed_for : String → Bool
unique_allowed_for t = contains (type_string ∷ type_number ∷ type_date ∷ type_datetime ∷ []) t

unfoldable pub format_allowed_for : String → Bool
format_allowed_for t = t == type_string

unfoldable pub pattern_allowed_for : String → Bool
pattern_allowed_for t = t == type_string || t == type_text

unfoldable pub range_allowed_for : String → Bool
range_allowed_for t = t == type_string || t == type_text || t == type_number

-- `ConstraintDefinitionError`, by its code, with the attribute
pub data DefinitionError : Type 0 where
  not_applicable : String → DefinitionError
  unique_multiple format_unknown pattern_invalid : DefinitionError
  range_invalid : String → DefinitionError

-- `ConstraintViolation`, by its attribute
pub data Violation : Type 0 where
  format_failed pattern_failed min_failed max_failed : Violation

-- A decoded JSON scalar.
pub data Value (F : Type 0) : Type 0 where
  text : String → Value F
  number : F → Value F
  other : Value F

-- float64, and the packages math, utf8 and regexp. `compile` answers the match of the anchored
-- pattern, or that it does not compile.
pub record Library (F : Type 0) : Type 0 where
  pub less : F → F → Bool
  pub same : F → F → Bool
  pub is_finite : F → Bool
  pub is_whole : F → Bool
  pub zero : F
  pub of_count : ℕ → F
  pub rune_count : String → ℕ
  pub is_slug : String → Bool
  pub compile : String → Option (String → Bool)

abbrev pub first_error {ℓ} : {A : Type ℓ} → Option A → Option A → Option A
first_error (some e) next = some e
first_error none next = next

abbrev pub raise_if {ℓ} : {A : Type ℓ} → Bool → A → Option A
raise_if b e = if b then some e else none

module _ {F : Type 0} (lib : Library F) where
  abbrev pub bound_equal : Option F → Option F → Bool
  bound_equal none none = true
  bound_equal (some a) (some b) = lib.same a b
  bound_equal _ _ = false

  unfoldable pub is_zero : FieldConstraints F → Bool
  is_zero c =
      not c.unique
      && c.format == ""
      && c.pattern == ""
      && not (is_some c.min)
      && not (is_some c.max)

  -- `Equal`
  unfoldable pub equal_constraints : FieldConstraints F → FieldConstraints F → Bool
  equal_constraints c o =
      (if c.unique then o.unique else not o.unique)
      && c.format == o.format
      && c.pattern == o.pattern
      && bound_equal c.min o.min
      && bound_equal c.max o.max

  check_unique : String → Bool → FieldConstraints F → Option DefinitionError
  unfolding unique_allowed_for
  check_unique t multiple c =
      if not c.unique
      then none
      else if not (unique_allowed_for t)
      then some (not_applicable "unique")
      else raise_if multiple unique_multiple

  check_format : String → FieldConstraints F → Option DefinitionError
  unfolding format_allowed_for
  check_format t c =
      if c.format == ""
      then none
      else if not (format_allowed_for t)
      then some (not_applicable "format")
      else raise_if (not (c.format == field_format_slug)) format_unknown

  check_pattern : String → FieldConstraints F → Option DefinitionError
  unfolding pattern_allowed_for
  check_pattern t c =
      if c.pattern == ""
      then none
      else if not (pattern_allowed_for t)
      then some (not_applicable "pattern")
      else if ltb max_pattern_length (lib.rune_count c.pattern)
      then some pattern_invalid
      else raise_if (not (is_some (lib.compile c.pattern))) pattern_invalid

  -- one turn of the loop over the two bounds
  unfoldable pub check_bound : String → String → Option F → Option DefinitionError
  check_bound t attr none = none
  check_bound t attr (some b) =
      if not (lib.is_finite b)
      then some (range_invalid attr)
      else raise_if (not (t == type_number) && (lib.less b lib.zero || not (lib.is_whole b)))
          (range_invalid attr)

  abbrev check_order : Option F → Option F → Option DefinitionError
  check_order (some lo) (some hi) = raise_if (lib.less hi lo) (range_invalid "min")
  check_order _ _ = none

  unfoldable pub check_range : String → FieldConstraints F → Option DefinitionError
  unfolding range_allowed_for check_bound
  check_range t c =
      if not (is_some c.min) && not (is_some c.max)
      then none
      else if not (range_allowed_for t)
      then some (not_applicable (if is_some c.min then "min" else "max"))
      else first_error (check_bound t "min" c.min)
          (first_error (check_bound t "max" c.max) (check_order c.min c.max))

  unfoldable pub validate_field_constraints :
      String → Bool → FieldConstraints F → Option DefinitionError
  unfolding check_unique check_format check_pattern check_range
  validate_field_constraints t multiple c =
      first_error (check_unique t multiple c)
        (first_error (check_format t c) (first_error (check_pattern t c) (check_range t c)))

  abbrev pub below : F → Option F → Bool
  below v none = false
  below v (some lo) = lib.less v lo

  abbrev pub above : F → Option F → Bool
  above v none = false
  above v (some hi) = lib.less hi v

  -- the bounds on a length or a number
  unfoldable pub check_size : FieldConstraints F → F → Option Violation
  check_size c n = if below n c.min then some min_failed else raise_if (above n c.max) max_failed

  abbrev pub pattern_rejects : String → String → Bool
  pattern_rejects pattern s =
      not (pattern == "")
      && elim (lib.compile pattern) [ none ↦ true | some matches ↦ not (matches s) ]

  unfoldable pub check_text : FieldConstraints F → String → Option Violation
  unfolding check_size
  check_text c s =
      if c.format == field_format_slug && not (lib.is_slug s)
      then some format_failed
      else if pattern_rejects c.pattern s
      then some pattern_failed
      else check_size c (lib.of_count (lib.rune_count s))

  unfoldable pub check_value : FieldConstraints F → String → Value F → Option Violation
  unfolding check_text check_size
  check_value c t (text s) = if t == type_string || t == type_text then check_text c s else none
  check_value c t (number f) = if t == type_number then check_size c f else none
  check_value c t other = none

  abbrev pub raises : Option F → Option F → Bool
  raises none old = false
  raises (some lo) none = true
  raises (some lo) (some old) = lib.less old lo

  abbrev pub lowers : Option F → Option F → Bool
  lowers none old = false
  lowers (some hi) none = true
  lowers (some hi) (some old) = lib.less hi old

  unfoldable pub tightens : FieldConstraints F → FieldConstraints F → Bool
  tightens c from =
      (not (c.format == "") && not (c.format == from.format))
      || (not (c.pattern == "") && not (c.pattern == from.pattern))
      || raises c.min from.min
      || lowers c.max from.max
