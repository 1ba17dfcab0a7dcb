-- ===== src/Content/Payload/Kept.antt =====
-- When a value that one field accepts is accepted by another.
use saas_forge.Base.{
  String, Bool, true, false, List, [], ◌∷◌, Option, some, none, ◌==◌, string_eq, nat_eq, contains,
  not, ltb, ℕ, ◌+◌, length, if◌then◌else◌, ◌&&◌, ◌||◌, ◌≡◌, refl, arith, Bool-cases, inl, inr, ap,
}
use saas_forge.Content.Constraints.{
  type_datetime, type_date, type_number, type_text, type_string, Violation, Library, first_error,
  raise_if, tightens, validate_field_constraints,
}
use saas_forge.Content.Constraints.Tightens.{IsOrdered, check_value_loosened}
use saas_forge.Content.Json.{
  Json, Object, null, string, float64, bool, array, object, as_array, as_object, text_under,
}
use saas_forge.Content.Field.{
  max_multiple_elements, type_rich_text, type_dynamic_zone, zone_discriminator, type_relation,
  type_component, type_enum, type_boolean, type_file, Props, zone_allows, in_enum,
}
use saas_forge.Content.RichText.{validate_rich_text}
use saas_forge.Content.RichText.Spans.{Packages}
use saas_forge.Content.Payload.{
  duplicate_value, seen_before, field_required, zone_component_not_allowed, unhashable,
  too_many_values, is_hashable, zone_component_missing, is_empty_array, type_mismatch,
  zone_item_body, with_item, check_objects, check_cardinality, with_index, check_items, check_item,
  validate_scalar, check_elements, value_check, validate_component_value, validate_zone_value,
  validate_zone_item, validate_plain_value,
}
use saas_forge.Content.Payload.Scalars.{
  check_rich_text, enum_invalid, is_bool, is_number, is_string, as_value, check_string, violates,
  check_constrained, Times, ValueError, validate_scalar,
}

-- The second field accepts at least what the first does.
pub record IsWidened {F : Type 0} (lib : Library F) (old new : Props F) : Type 0 where
  pub same_key : new.key ≡ old.key
  pub same_type : new.type ≡ old.type
  pub same_multiple : new.multiple ≡ old.multiple
  pub no_requirement : (not old.required && new.required) ≡ false
  pub enum_kept :
      (v : String) → contains old.enum_values v ≡ true → contains new.enum_values v ≡ true
  pub zone_kept :
      (n : String) → contains old.zone_components n ≡ true → contains new.zone_components n ≡ true
  pub storable : validate_field_constraints lib old.type old.multiple old.constraints ≡ none
  pub loosened : tightens lib new.constraints old.constraints ≡ false

module _ {ℓ} {A : Type ℓ} where
  -- The second answers nothing where the first does.
  abbrev pub Keeps : Option A → Option A → Type ℓ
  Keeps old new = old ≡ none → new ≡ none

  pub if_kept :
      (b b' : Bool) (x y x' y' : Option A)
      → b' ≡ b
      → Keeps x x'
      → Keeps y y'
      → Keeps (if b then x else y) (if b' then x' else y')
  if_kept true b' x y x' y' e p q h = rw e (p h)
  if_kept false b' x y x' y' e p q h = rw e (q h)

  some_kept : (e : A) (x : Option A) → Keeps (some e) x
  some_kept e x h = cc

  pub first_error_kept :
      (x y x' y' : Option A) → Keeps x x' → Keeps y y' → Keeps (first_error x y) (first_error x' y')
  first_error_kept none y x' y' p q h = rw (p refl) (q h)
  first_error_kept (some e) y x' y' p q h = cc

  -- A guard that turned no further case away.
  pub guard_kept :
      (b b' : Bool) (e e' : A) (x x' : Option A)
      → (not b && b') ≡ false
      → Keeps x x'
      → Keeps (if b then some e else x) (if b' then some e' else x')
  guard_kept true b' e e' x x' g p h = cc
  guard_kept false true e e' x x' g p h = cc
  guard_kept false false e e' x x' g p h = p h

shape_kept :
    {A : Type 0} (shape : Bool) (e e' : A)
    → Keeps (if not shape then some e else none) (if not shape then some e' else none)
shape_kept true e e' h = refl
shape_kept false e e' h = cc

still_required :
    (old new a a' b : Bool)
    → (not old && new) ≡ false
    → a' ≡ a
    → (not (a && old && b) && (a' && new && b)) ≡ false
still_required true new true a' b h e = ground arith
still_required true new false a' b h e = ground arith
still_required false new a a' b h e = ground arith

-- A guard by a membership that was not lost.
allowed_kept :
    {A : Type 0} (b b' : Bool) (e e' : A) (x x' : Option A)
    → (b ≡ true → b' ≡ true)
    → (b ≡ true → Keeps x x')
    → Keeps (if not b then some e else x) (if not b' then some e' else x')
allowed_kept true b' e e' x x' k p h = rw (k refl) (p refl h)
allowed_kept false b' e e' x x' k p h = cc

index_kept :
    (i : ℕ) (x x' : Option ValueError) → Keeps x x' → Keeps (with_index i x) (with_index i x')
index_kept i none x' p h = rw (p refl) refl
index_kept i (some e) x' p h = cc

module _ {F : Type 0} where
  with_item_kept :
      (old new : Props F) (i : ℕ) (x x' : Option ValueError)
      → Keeps x x'
      → Keeps (with_item old i x) (with_item new i x')
  with_item_kept old new i none x' p h = rw (p refl) refl
  with_item_kept old new i (some e) x' p h =
      elim (Bool-cases (not old.multiple && not (old.type == type_dynamic_zone))) [
        | inl y ↦ ground arith
        | inr n ↦ ground arith
      ]

  item_kept :
      (path : String) (check check' : Object F → Option ValueError) (o : Option (Object F))
      → ((item : Object F) → Keeps (check item) (check' item))
      → Keeps (check_item path check o) (check_item path check' o)
  item_kept path check check' none p = some_kept _ _
  item_kept path check check' (some item) p = p item

module _ {F : Type 0} (lib : Library F) (go : Packages) (times : Times) (o : IsOrdered lib) where
  violates_kept :
      (path : String) (x x' : Option Violation)
      → Keeps x x'
      → Keeps (violates path x) (violates path x')
  violates_kept path none x' p h = rw (p refl) refl
  violates_kept path (some e) x' p h = cc

  constrained_kept :
      (old new : Props F) (path : String) (shape : Bool) (v : Json F)
      → IsWidened lib old new
      → Keeps (check_constrained lib path old shape v) (check_constrained lib path new shape v)
  constrained_kept old new path false v w h = cc
  constrained_kept old new path true v w h =
      violates_kept path _ _
        (λ fine. rw w.same_type (
          check_value_loosened lib o old.constraints new.constraints old.type old.multiple
            (as_value v) w.storable w.loosened fine))
        h

  string_kept :
      (old new : Props F) (path : String) (accepts accepts' : String → Bool) (e e' : ValueError)
      (v : Json F)
      → ((s : String) → accepts s ≡ true → accepts' s ≡ true)
      → Keeps (check_string path old accepts e v) (check_string path new accepts' e' v)
  string_kept old new path accepts accepts' e e' (string s) k h = ground (arith, k s)
  string_kept old new path accepts accepts' e e' null k h = cc
  string_kept old new path accepts accepts' e e' (bool b) k h = cc
  string_kept old new path accepts accepts' e e' (float64 b) k h = cc
  string_kept old new path accepts accepts' e e' (array b) k h = cc
  string_kept old new path accepts accepts' e e' (object b) k h = cc

  same_test :
      (old new : Props F) (test : String → Bool)
      → IsWidened lib old new
      → test new.type ≡ test old.type
  same_test old new test w = ap test w.same_type

  scalar_kept :
      (old new : Props F) (path : String) (v : Json F)
      → IsWidened lib old new
      → Keeps (validate_scalar lib go times path old v) (validate_scalar lib go times path new v)
  unfolding validate_scalar in_enum
  scalar_kept old new path v w =
      let test = same_test old new in
      let e = type_mismatch path old.type in
      let e' = type_mismatch path new.type in
      if_kept _ _ _ _ _ _ (test (λ t. t == type_string || t == type_text || t == type_file) w)
        (constrained_kept old new path (is_string v) v w)
        (if_kept _ _ _ _ _ _ (test (λ t. t == type_number) w)
          (constrained_kept old new path (is_number v) v w)
          (if_kept _ _ _ _ _ _ (test (λ t. t == type_boolean) w) (shape_kept (is_bool v) e e') (
            if_kept _ _ _ _ _ _ (test (λ t. t == type_enum) w)
              (string_kept old new path (in_enum old) (in_enum new)
                (enum_invalid path old.enum_values) (enum_invalid path new.enum_values) v
                w.enum_kept)
              (if_kept _ _ _ _ _ _ (test (λ t. t == type_date) w)
                (string_kept old new path times.is_date times.is_date e e' v (λ s h. h))
                (if_kept _ _ _ _ _ _ (test (λ t. t == type_datetime) w)
                  (string_kept old new path times.is_datetime times.is_datetime e e' v (λ s h. h))
                  (if_kept _ _ _ _ _ _ (test (λ t. t == type_relation) w)
                    (string_kept old new path (λ s. true) (λ s. true) e e' v (λ s h. h))
                    (if_kept _ _ _ _ _ _ (test (λ t. t == type_rich_text) w)
                      (λ (h : check_rich_text path (validate_rich_text lib go v) ≡ none). h)
                      (some_kept e (some e')))))))))

  cardinality_kept :
      (old new : Props F) (path : String) (xs : List (Json F)) (rest rest' : Option ValueError)
      → IsWidened lib old new
      → Keeps rest rest'
      → Keeps (check_cardinality path old xs rest) (check_cardinality path new xs rest')
  cardinality_kept old new path xs rest rest' w p =
      let empty = length xs == 0 in
      let many = some (too_many_values path (length xs)) in
      guard_kept (old.required && empty) (new.required && empty) (field_required path)
        (field_required path) _ _
        (still_required old.required new.required true true empty w.no_requirement refl)
        (if_kept (ltb max_multiple_elements (length xs)) _ many rest many rest' refl (λ h. h) p)

  elements_kept :
      (old new : Props F) (path : String) (i : ℕ) (seen xs : List (Json F))
      → IsWidened lib old new
      → Keeps
          (check_elements lib go times path old i seen xs)
          (check_elements lib go times path new i seen xs)
  unfolding check_elements
  elements_kept old new path i seen [] w = λ h. refl
  elements_kept old new path i seen (x ∷ xs) w =
      first_error_kept _ _ _ _ (index_kept i _ _ (scalar_kept old new path x w)) (
        first_error_kept (raise_if (not (is_hashable x)) unhashable) _
          (raise_if (not (is_hashable x)) unhashable) _ (λ h. h)
          (first_error_kept (raise_if (seen_before lib seen x) (duplicate_value path i)) _
            (raise_if (seen_before lib seen x) (duplicate_value path i)) _ (λ h. h)
            (elements_kept old new path (i + 1) (x ∷ seen) xs w)))

  items_kept :
      (old new : Props F) (path : String) (check check' : Object F → Option ValueError) (i : ℕ)
      (xs : List (Json F))
      → ((item : Object F) → Keeps (check item) (check' item))
      → Keeps (check_items path old check i xs) (check_items path new check' i xs)
  unfolding check_items
  items_kept old new path check check' i [] p = λ h. refl
  items_kept old new path check check' i (x ∷ xs) p =
      first_error_kept _ _ _ _ (with_item_kept old new i _ _ (item_kept path check check' _ p))
        (items_kept old new path check check' (i + 1) xs p)

  array_kept :
      (o : Option (List (Json F))) (e e' : ValueError) (f f' : List (Json F) → Option ValueError)
      → ((xs : List (Json F)) → Keeps (f xs) (f' xs))
      → Keeps
          (elim o [ none ↦ some e | some xs ↦ f xs ])
          (elim o [ none ↦ some e' | some xs ↦ f' xs ])
  array_kept none e e' f f' p = some_kept _ _
  array_kept (some xs) e e' f f' p = p xs

  objects_kept :
      (old new : Props F) (path : String) (check check' : Object F → Option ValueError) (v : Json F)
      → IsWidened lib old new
      → ((item : Object F) → Keeps (check item) (check' item))
      → Keeps (check_objects path old check v) (check_objects path new check' v)
  objects_kept old new path check check' v w p =
      array_kept (as_array v) (type_mismatch path "array of objects")
        (type_mismatch path "array of objects")
        (λ xs. check_cardinality path old xs (check_items path old check 0 xs))
        (λ xs. check_cardinality path new xs (check_items path new check' 0 xs))
        (λ xs. cardinality_kept old new path xs _ _ w (items_kept old new path check check' 0 xs p))

  component_kept :
      (old new : Props F) (path : String) (check check' : Object F → Option ValueError) (v : Json F)
      → IsWidened lib old new
      → ((item : Object F) → Keeps (check item) (check' item))
      → Keeps
          (validate_component_value path old check v)
          (validate_component_value path new check' v)
  unfolding validate_component_value
  component_kept old new path check check' v w p =
      if_kept _ _ _ _ _ _ (ap not w.same_multiple) (item_kept path check check' (as_object v) p)
        (objects_kept old new path check check' v w p)

  zone_item_kept :
      (old new : Props F) (path : String) (check check' : String → Object F → Option ValueError)
      (item : Object F)
      → IsWidened lib old new
      → ((n : String) (body : Object F)
          → contains old.zone_components n ≡ true
          → Keeps (check n body) (check' n body))
      → Keeps (validate_zone_item path old check item) (validate_zone_item path new check' item)
  unfolding validate_zone_item zone_allows
  zone_item_kept old new path check check' item w p =
      let name = text_under zone_discriminator item in
      let missing = some (zone_component_missing path) in
      if_kept (name == "") _ missing _ missing _ refl (λ h. h)
        (allowed_kept (zone_allows old name) (zone_allows new name)
          (zone_component_not_allowed path name old.zone_components)
          (zone_component_not_allowed path name new.zone_components) _ _ (w.zone_kept name)
          (p name (zone_item_body item)))

  plain_kept :
      (old new : Props F) (path : String) (v : Json F)
      → IsWidened lib old new
      → Keeps
          (validate_plain_value lib go times path old v)
          (validate_plain_value lib go times path new v)
  unfolding validate_plain_value
  plain_kept old new path v w =
      let rich = same_test old new (λ t. t == type_rich_text) w in
      if_kept _ _ _ _ _ _ (ap not w.same_multiple)
        (guard_kept (old.type == type_rich_text && old.required && is_empty_array v)
          (new.type == type_rich_text && new.required && is_empty_array v) (field_required path)
          (field_required path) _ _
          (still_required old.required new.required (old.type == type_rich_text)
            (new.type == type_rich_text) (is_empty_array v) w.no_requirement rich)
          (scalar_kept old new path v w))
        (array_kept (as_array v) (type_mismatch path old.type) (type_mismatch path new.type)
          (λ xs. check_cardinality path old xs (check_elements lib go times path old 0 [] xs))
          (λ xs. check_cardinality path new xs (check_elements lib go times path new 0 [] xs))
          (λ xs. cardinality_kept old new path xs _ _ w (elements_kept old new path 0 [] xs w)))

  -- A value that a field accepts is accepted by a field that accepts as much, where the sub-fields
  -- do.
  pub value_check_kept :
      (old new : Props F) (path : String) (component component' : Object F → Option ValueError)
      (zone zone' : String → Object F → Option ValueError) (v : Json F)
      → IsWidened lib old new
      → ((item : Object F) → Keeps (component item) (component' item))
      → ((n : String) (body : Object F)
          → contains old.zone_components n ≡ true
          → Keeps (zone n body) (zone' n body))
      → Keeps
          (value_check lib go times path old component zone v)
          (value_check lib go times path new component' zone' v)
  unfolding value_check validate_zone_value
  value_check_kept old new path component component' zone zone' v w p q =
      if_kept _ _ _ _ _ _ (same_test old new (λ t. t == type_component) w)
        (component_kept old new path component component' v w p)
        (if_kept _ _ _ _ _ _ (same_test old new (λ t. t == type_dynamic_zone) w)
          (objects_kept old new path _ _ v w
            (λ item. zone_item_kept old new path zone zone' item w q))
          (plain_kept old new path v w))
