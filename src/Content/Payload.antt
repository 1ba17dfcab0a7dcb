-- ===== src/Content/Payload.antt =====
-- internal/cms/content/service/validate.go: the check of an entry's payload against the fields of
-- its content type, the values of components and dynamic zones included.
pub mod Scalars
pub mod Kept
use saas_forge.Base.{
  String, Bool, true, false, List, [], ◌∷◌, Option, some, none, ◌==◌, string_eq, nat_eq, contains,
  not, ltb, ℕ, ◌+◌, length, if◌then◌else◌, ◌&&◌, ◌||◌,
}
use saas_forge.Content.Constraints.{Library, first_error, raise_if}
use saas_forge.Content.Json.{
  Json, Object, null, string, float64, bool, array, object, as_array, as_object, lookup, text_under,
}
use saas_forge.Content.Field.{
  Props, Field, field, Fields, no_fields, field_then, Zones, no_zones, zone_then, props, is_defined,
  zone_allows, prefixed, path_of, type_component, type_dynamic_zone, type_rich_text,
  max_multiple_elements, zone_discriminator,
}
use saas_forge.Content.RichText.Spans.{Packages}
use saas_forge.Content.Payload.Scalars.{
  Times, ValueError, field_unknown, field_required, type_mismatch, too_many_values, duplicate_value,
  zone_component_missing, zone_component_not_allowed, at_index, at_item, unhashable,
  validate_scalar,
}

abbrev pub with_index : ℕ → Option ValueError → Option ValueError
with_index i none = none
with_index i (some e) = some (at_index i e)

module _ {F : Type 0} where
  abbrev pub is_hashable : Json F → Bool
  is_hashable (array xs) = false
  is_hashable (object ms) = false
  is_hashable _ = true

  abbrev pub is_empty_array : Json F → Bool
  is_empty_array v = elim (as_array v) [ none ↦ false | some xs ↦ length xs == 0 ]

  -- the loop over the keys of the payload
  unfoldable pub check_known : String → Fields F → Object F → Option ValueError
  check_known prefix fs [] = none
  check_known prefix fs ((k, v) ∷ rest) =
      if not (is_defined fs k)
      then some (field_unknown (path_of prefix k))
      else check_known prefix fs rest

  -- `zoneItemBody`
  abbrev pub zone_item_body : Object F → Object F
  zone_item_body [] = []
  zone_item_body ((k, v) ∷ rest) =
      if k == zone_discriminator then zone_item_body rest else (k, v) ∷ zone_item_body rest

  -- `withItem`
  abbrev pub with_item : Props F → ℕ → Option ValueError → Option ValueError
  with_item f i none = none
  with_item f i (some e) =
      if not f.multiple && not (f.type == type_dynamic_zone) then some e else some (at_item i e)

  -- The cardinality of an array: what it is refused for, or the check of its elements.
  abbrev pub check_cardinality :
      String → Props F → List (Json F) → Option ValueError → Option ValueError
  check_cardinality path f xs rest =
      if f.required && length xs == 0
      then some (field_required path)
      else if ltb max_multiple_elements (length xs)
      then some (too_many_values path (length xs))
      else rest

  abbrev pub check_item :
      String → (Object F → Option ValueError) → Option (Object F) → Option ValueError
  check_item path check none = some (type_mismatch path "object")
  check_item path check (some item) = check item

  -- the loop over the items of an array of objects, from the index `i` on
  unfoldable pub check_items :
      String → Props F → (Object F → Option ValueError) → ℕ → List (Json F) → Option ValueError
  check_items path f check i [] = none
  check_items path f check i (x ∷ xs) =
      first_error (with_item f i (check_item path check (as_object x)))
        (check_items path f check (i + 1) xs)

  -- an array of objects, each of them passed to `check`
  abbrev pub check_objects :
      String → Props F → (Object F → Option ValueError) → Json F → Option ValueError
  check_objects path f check v = elim (as_array v) [
    | none ↦ some (type_mismatch path "array of objects")
    | some xs ↦ check_cardinality path f xs (check_items path f check 0 xs)
  ]

  -- `validateComponentValue`, with the check of an object against the component's sub-fields
  unfoldable pub validate_component_value :
      String → Props F → (Object F → Option ValueError) → Json F → Option ValueError
  unfolding check_items
  validate_component_value path f check v =
      if not f.multiple then check_item path check (as_object v) else check_objects path f check v

  -- one item of a zone, with the check of a body against the sub-fields of the named component
  unfoldable pub validate_zone_item :
      String → Props F → (String → Object F → Option ValueError) → Object F → Option ValueError
  unfolding zone_allows
  validate_zone_item path f check item =
      if text_under zone_discriminator item == ""
      then some (zone_component_missing path)
      else if not (zone_allows f (text_under zone_discriminator item))
      then some
          (zone_component_not_allowed path (text_under zone_discriminator item) f.zone_components)
      else check (text_under zone_discriminator item) (zone_item_body item)

  -- `validateZoneValue`
  unfoldable pub validate_zone_value :
      String → Props F → (String → Object F → Option ValueError) → Json F → Option ValueError
  unfolding check_items validate_zone_item
  validate_zone_value path f check v = check_objects path f (validate_zone_item path f check) v

  -- the value that a payload has for a field, if it has one, or its absence
  unfoldable pub check_present :
      String → Bool → (Json F → Option ValueError) → Option (Json F) → Option ValueError
  check_present path required check none = raise_if required (field_required path)
  check_present path required check (some null) = raise_if required (field_required path)
  check_present path required check (some v) = check v

module _ {F : Type 0} (lib : Library F) where
  -- The key under which Go's map `seen` holds a value; an array or an object cannot be one.
  abbrev same_value : Json F → Json F → Bool
  same_value null null = true
  same_value (bool b) (bool c) = if b then c else not c
  same_value (string s) (string t) = s == t
  same_value (float64 a) (float64 b) = lib.same a b
  same_value _ _ = false

  abbrev pub seen_before : List (Json F) → Json F → Bool
  seen_before [] v = false
  seen_before (x ∷ seen) v = same_value x v || seen_before seen v

module _ {F : Type 0} (lib : Library F) (go : Packages) (times : Times) where
  -- the loop over the elements of an array, from the index `i` on, with the values seen before
  unfoldable pub check_elements :
      String → Props F → ℕ → List (Json F) → List (Json F) → Option ValueError
  unfolding validate_scalar
  check_elements path f i seen [] = none
  check_elements path f i seen (x ∷ xs) =
      first_error (with_index i (validate_scalar lib go times path f x)) (
        first_error (raise_if (not (is_hashable x)) unhashable) (
          first_error (raise_if (seen_before lib seen x) (duplicate_value path i))
            (check_elements path f (i + 1) (x ∷ seen) xs)))

  -- the rest of `validateValue`, where the field holds no components
  unfoldable pub validate_plain_value : String → Props F → Json F → Option ValueError
  unfolding check_elements validate_scalar
  validate_plain_value path f v =
      if not f.multiple
      then (if f.type == type_rich_text && f.required && is_empty_array v
          then some (field_required path)
          else validate_scalar lib go times path f v)
      else elim (as_array v) [
        | none ↦ some (type_mismatch path f.type)
        | some xs ↦ check_cardinality path f xs (check_elements path f 0 [] xs)
      ]

  -- A value, with the checks of an object against the sub-fields of the component, and against
  -- those of a named component of the zone.
  unfoldable pub value_check :
      String
      → Props F
      → (Object F → Option ValueError)
      → (String → Object F → Option ValueError)
      → Json F
      → Option ValueError
  unfolding validate_component_value validate_zone_value validate_plain_value
  value_check path f component zone v =
      if f.type == type_component
      then validate_component_value path f component v
      else if f.type == type_dynamic_zone
      then validate_zone_value path f zone v
      else validate_plain_value path f v

  -- `validatePayload` of the sub-fields stands written out where they are recursed into.
  unfoldable mutual
    unfolding check_known value_check check_present

    -- the loop of `validatePayload` over the fields
    pub validate_fields : String → Fields F → Object F → Option ValueError
    validate_fields prefix no_fields doc = none
    validate_fields prefix (field_then f fs) doc =
        first_error
          (check_present (path_of prefix (props f).key) (props f).required (validate_value prefix f)
            (lookup (props f).key doc))
          (validate_fields prefix fs doc)

    pub validate_value : String → Field F → Json F → Option ValueError
    validate_value prefix (field f subs zones) v =
        value_check (path_of prefix f.key) f
          (λ item.
            first_error (check_known (prefixed prefix f.key) subs item)
              (validate_fields (prefixed prefix f.key) subs item))
          (validate_in_zone (prefixed prefix f.key) zones) v

    -- the check of a body against `f.ZoneFields[name]`, no fields at all if the map has none
    pub validate_in_zone : String → Zones F → String → Object F → Option ValueError
    validate_in_zone prefix no_zones name body = check_known prefix no_fields body
    validate_in_zone prefix (zone_then n subs zones) name body =
        if n == name
        then first_error (check_known prefix subs body) (validate_fields prefix subs body)
        else validate_in_zone prefix zones name body

  unfoldable pub validate_payload : String → Fields F → Object F → Option ValueError
  unfolding check_known validate_fields
  validate_payload prefix fs doc =
      first_error (check_known prefix fs doc) (validate_fields prefix fs doc)
