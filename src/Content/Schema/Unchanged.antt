-- ===== src/Content/Schema/Unchanged.antt =====
-- The difference of a schema with itself.
use saas_forge.Base.{
  All-both, All-imp, String, Bool, true, false, List, [], ◌∷◌, Option, some, none, string_eq, not,
  if◌then◌else◌, ◌&&◌, ◌++◌, ◌≡◌, refl, arith, All, ap, ◌∙◌, contains, is_some, equal_refl,
}
use saas_forge.Content.Constraints.{
  Library, FieldConstraints, validate_field_constraints, equal_constraints, bound_equal,
  check_bound,
}
use saas_forge.Content.Constraints.Tightens.{IsEquality, check_range-bounds, validate-bounds}
use saas_forge.Content.Schema.Change.{
  update_component_field, Artifact, ArtifactField, ArtifactComponent, ArtifactType, SchemaChange,
  same_order, missing_from, last_with, changes_of_each, deleted,
}
use saas_forge.Content.Schema.Fields.{
  diff_rules, diff_unique, error_code, update, diff_field, diff_constraints, without_unique,
}
use saas_forge.Content.Schema.Components.{
  each_of_component, index_components, diff_component, diff_sub_field, check_component_sub_field,
  sub_field_deletion,
}
use saas_forge.Content.Schema.{
  refused, change, diff_schemas, changes_between, diff_one_component, diff_one_type, diff_one_field,
  diff_type, type_deletion, component_deletion, field_deletion,
}
use saas_forge.Content.Schema.Hints.{with_rename_hints}
use saas_forge.Content.Schema.Additive.Kept.{IsStorable}

same_order_self : (l : List String) → same_order l l ≡ true
same_order_self [] = refl
same_order_self (x ∷ l) = rw (equal_refl x) (same_order_self l)

missing_none :
    (old next : List String)
    → ((v : String) → contains old v ≡ true → contains next v ≡ true)
    → missing_from old next ≡ []
missing_none [] next k = refl
missing_none (x ∷ old) next k =
    rw (k x (rw (equal_refl x) refl)) (missing_none old next (λ v h. k v (ground (arith, h))))

missing_from_self : (l : List String) → missing_from l l ≡ []
missing_from_self l = missing_none l l (λ v h. h)

same_flag : (b : Bool) → (if b then b else not b) ≡ true
same_flag true = refl
same_flag false = refl

no_turn : (b : Bool) → (not b && b) ≡ false
no_turn true = refl
no_turn false = refl

no_turn_back : (b : Bool) → (b && not b) ≡ false
no_turn_back true = refl
no_turn_back false = refl

at_none :
    {A F : Type 0} (refusal : Option A) (c : A → SchemaChange F) (l : List (SchemaChange F))
    → refusal ≡ none
    → elim refusal [ some d ↦ c d ∷ [] | none ↦ l ] ≡ l
at_none none c l h = refl
at_none (some d) c l h = cc

module _ {A F : Type 0} where
  changes_of_each-none :
      (changes : A → List (SchemaChange F)) (l : List A)
      → All (λ x. changes x ≡ []) l
      → changes_of_each changes l ≡ []
  changes_of_each-none changes [] h = refl
  changes_of_each-none changes (x ∷ l) h = rw (h.0) (changes_of_each-none changes l h.1)

module _ {F : Type 0} (lib : Library F) (e : IsEquality lib) where
  bound_equal_self :
      (t attr : String) (b : Option F)
      → check_bound lib t attr b ≡ none
      → bound_equal lib b b ≡ true
  unfolding check_bound
  bound_equal_self t attr none h = refl
  bound_equal_self t attr (some b) h = e.reflexive b (ground arith)

  equal_constraints_self :
      (t : String) (multiple : Bool) (c : FieldConstraints F)
      → validate_field_constraints lib t multiple c ≡ none
      → equal_constraints lib (without_unique lib c) (without_unique lib c) ≡ true
  unfolding equal_constraints
  equal_constraints_self t multiple c h =
      let (lo, hi) = check_range-bounds lib t c (validate-bounds lib t multiple c h) in
      rw
        (
          equal_refl c.format,
          equal_refl c.pattern,
          bound_equal_self t "min" c.min lo,
          bound_equal_self t "max" c.max hi,
        )
        refl

  diff_constraints_self :
      (name : String) (f : ArtifactField F) → IsStorable lib f → diff_constraints lib name f f ≡ []
  unfolding diff_constraints
  diff_constraints_self name f h =
      at_none (validate_field_constraints lib f.type f.multiple f.constraints)
        (λ d. update lib name f.key refused (error_code d))
        (diff_unique lib name f f ++ diff_rules lib name f f) h
      ∙ rw
          (
            no_turn f.constraints.unique,
            no_turn_back f.constraints.unique,
            equal_constraints_self f.type f.multiple f.constraints h,
          )
          refl

  diff_field_self :
      (name : String) (f : ArtifactField F) → IsStorable lib f → diff_field lib name f f ≡ []
  unfolding diff_field
  diff_field_self name f h =
      rw
        (
          equal_refl f.type,
          same_flag f.multiple,
          equal_refl f.relation_entity,
          equal_refl f.component,
          equal_refl f.label,
          equal_refl f.description,
          no_turn f.required,
          no_turn_back f.required,
          same_order_self f.read_roles,
          same_order_self f.write_roles,
          missing_from_self f.enum_values,
          same_order_self f.enum_values,
          missing_from_self f.components,
          same_order_self f.components,
        )
        (diff_constraints_self name f h)

-- Each element of a list is the one that the map of the list has for its key.
abbrev pub IsKeyed : {A : Type 0} → (A → String) → List A → Type 0
IsKeyed key_of l = All (λ x. last_with key_of (key_of x) l ≡ some x) l

-- The fields of a schema as the service stores it: their keys differ and their constraints may be
-- stored. A sub-field passes the check of sub-fields.
pub record HasFields {F : Type 0} (lib : Library F) (fs : List (ArtifactField F)) : Type 0 where
  pub keyed : IsKeyed (λ f. f.key) fs
  pub storable : All (IsStorable lib) fs

pub record IsSchema {F : Type 0} (lib : Library F) (a : Artifact F) : Type 0 where
  pub types_keyed : IsKeyed (λ t. t.name) a.types
  pub components_keyed : IsKeyed (λ c. c.name) a.components
  pub type_fields : All (λ t. HasFields lib t.fields) a.types
  pub component_fields : All (λ c. HasFields lib c.fields) a.components
  pub sub_fields : All (λ c. All (λ f. check_component_sub_field f ≡ none) c.fields) a.components

module _ {A F : Type 0} where
  deleted-none :
      (key_of : A → String) (deletion : A → SchemaChange F) (kept : String → Bool) (l : List A)
      → All (λ x. kept (key_of x) ≡ true) l
      → deleted key_of deletion kept l ≡ []
  deleted-none key_of deletion kept [] h = refl
  deleted-none key_of deletion kept (x ∷ l) h = rw (h.0) (deleted-none key_of deletion kept l h.1)

  deleted_self :
      (key_of : A → String) (deletion : A → SchemaChange F) (l : List A)
      → IsKeyed key_of l
      → deleted key_of deletion (λ key. is_some (last_with key_of key l)) l ≡ []
  deleted_self key_of deletion l h =
      deleted-none key_of deletion (λ key. is_some (last_with key_of key l)) l
        (All-imp _ _ l (λ x e. ap is_some e) h)

  -- The changes of each element, by the element of the same list under its key.
  turns_self :
      (key_of : A → String) (turn : Option A → A → List (SchemaChange F)) (l : List A)
      → IsKeyed key_of l
      → All (λ x. turn (some x) x ≡ []) l
      → changes_of_each (λ x. turn (last_with key_of (key_of x) l) x) l ≡ []
  turns_self key_of turn l keyed h =
      changes_of_each-none (λ x. turn (last_with key_of (key_of x) l) x) l
        (All-both (λ x. last_with key_of (key_of x) l ≡ some x) (λ x. turn (some x) x ≡ [])
          (λ x. turn (last_with key_of (key_of x) l) x ≡ [])
          (λ x found none. ap (λ o. turn o x) found ∙ none) l keyed h)

module _ {F : Type 0} (lib : Library F) (e : IsEquality lib) where
  diff_sub_field_self :
      (component : String) (f : ArtifactField F)
      → check_component_sub_field f ≡ none
      → IsStorable lib f
      → diff_sub_field lib component (some f) f ≡ []
  unfolding diff_sub_field
  diff_sub_field_self component f sub h =
      at_none (check_component_sub_field f)
        (λ code. record (change update_component_field "" f.key refused) {
          component = component;
          code = code;
        })
        (each_of_component component (diff_field lib "" f f)) sub
      ∙ ap (each_of_component component) (diff_field_self lib e "" f h)

  diff_component_self :
      (c : ArtifactComponent F)
      → HasFields lib c.fields
      → All (λ f. check_component_sub_field f ≡ none) c.fields
      → diff_component lib c c ≡ []
  unfolding diff_component
  diff_component_self c h sub = rw (equal_refl c.label) (
      rw
        (
          turns_self (λ f. f.key) (diff_sub_field lib c.name) c.fields h.keyed
              (All-both (λ f. check_component_sub_field f ≡ none) (IsStorable lib)
                (λ f. diff_sub_field lib c.name (some f) f ≡ []) (diff_sub_field_self c.name)
                c.fields sub h.storable),
          deleted_self (λ f. f.key) (sub_field_deletion c.name) c.fields h.keyed,
        )
        refl)

  diff_type_self :
      (t : ArtifactType F) (declared : String → Bool)
      → HasFields lib t.fields
      → diff_type lib t t declared ≡ []
  unfolding diff_type diff_one_field
  diff_type_self t declared h =
      rw
        (
          equal_refl t.label,
          same_order_self t.read_roles,
          same_order_self t.write_roles,
          same_order_self t.own_only_roles,
        )
        (rw
          (
            turns_self (λ f. f.key) (diff_one_field lib t.name declared) t.fields h.keyed
                (All-imp _ _ t.fields (diff_field_self lib e t.name) h.storable),
            deleted_self (λ f. f.key) (field_deletion t.name) t.fields h.keyed,
          )
          refl)

  -- The difference of a stored schema with itself is empty.
  pub diff_schemas_self :
      (valid_field_key : String → Bool) (a : Artifact F)
      → IsSchema lib a
      → diff_schemas lib valid_field_key a a ≡ []
  unfolding diff_schemas changes_between with_rename_hints diff_one_component diff_one_type
  diff_schemas_self valid_field_key a h =
      let declared = λ (n : String). is_some (index_components a.components n) in
      rw
        (
          turns_self (λ c. c.name) (diff_one_component lib valid_field_key) a.components
              h.components_keyed
              (All-both (λ c. HasFields lib c.fields)
                (λ c. All (λ f. check_component_sub_field f ≡ none) c.fields)
                (λ c. diff_component lib c c ≡ []) diff_component_self a.components
                h.component_fields h.sub_fields),
          turns_self (λ t. t.name) (diff_one_type lib declared) a.types h.types_keyed
              (All-imp _ _ a.types (λ t fields. diff_type_self t declared fields) h.type_fields),
          deleted_self (λ t. t.name) type_deletion a.types h.types_keyed,
          deleted_self (λ c. c.name) component_deletion a.components h.components_keyed,
        )
        refl
