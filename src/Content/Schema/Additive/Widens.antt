-- ===== src/Content/Schema/Additive/Widens.antt =====
-- A field whose changes are all additive accepts at least what it did.
use saas_forge.Base.{
  equal_refl, String, Bool, true, false, List, [], ◌∷◌, Option, some, none, ◌==◌, string_eq, not,
  if◌then◌else◌, ◌&&◌, ◌++◌, ◌≡◌, refl, arith, Bool-cases, inl, inr, All-append, sym,
}
use saas_forge.Content.Permission.{is_empty}
use saas_forge.Content.Constraints.{
  lowers, raises, bound_equal, Library, FieldConstraints, validate_field_constraints,
  equal_constraints, tightens,
}
use saas_forge.Content.Constraints.Tightens.{IsEquality}
use saas_forge.Content.Payload.Kept.{IsWidened}
use saas_forge.Content.Schema.Change.{
  same_order, guarded, additive, refused, ArtifactField, SchemaChange, is_additive, missing_from,
}
use saas_forge.Content.Schema.Fields.{
  when, error_code, update, refuse, without_unique, diff_field, diff_immutable, diff_mutable,
  diff_constraints, diff_rules, diff_unique, diff_required, diff_enum, diff_zone,
}
use saas_forge.Content.Schema.Resolve.{props_of, zone_names}
use saas_forge.Content.Schema.Additive.Grades.{
  unrefused, un_not, AllAdditive, not_made, otherwise, first_or_rest, none_missing,
}

all_equal :
    (u f p lo hi : Bool)
    → (u && f && p && lo && hi) ≡ true
    → (f ≡ true) × (p ≡ true) × (lo ≡ true) × (hi ≡ true)
all_equal u f p lo hi h = ground arith

same_bool : (a b : Bool) → not (if a then b else not b) ≡ false → b ≡ a
same_bool true b h = ground arith
same_bool false b h = ground arith

parts_of_field :
    {F : Type 0}
    (label description required read write enum zone constraints : List (SchemaChange F))
    → AllAdditive (
        label
        ++ (description ++ (required ++ (read ++ (write ++ (enum ++ (zone ++ constraints)))))))
    → AllAdditive required × AllAdditive enum × AllAdditive zone × AllAdditive constraints
parts_of_field {F} label description required read write enum zone constraints h =
    let P = λ (c : SchemaChange F). is_additive c ≡ true in
    let h = (All-append P label _ h).1 in
    let h = (All-append P description _ h).1 in
    let (r, h) = All-append P required _ h in
    let h = (All-append P read _ h).1 in
    let h = (All-append P write _ h).1 in
    let (e, h) = All-append P enum _ h in
    let (z, c) = All-append P zone constraints h in (r, e, z, c)

none_of_four :
    {F : Type 0} (a b c d : Bool) (ca cb cc' cd : SchemaChange F)
    → is_additive ca ≡ false
    → is_additive cb ≡ false
    → is_additive cc' ≡ false
    → is_additive cd ≡ false
    → AllAdditive (
        (if a then ca ∷ [] else [])
        ++ ((if b then cb ∷ [] else [])
            ++ ((if c then cc' ∷ [] else []) ++ (if d then cd ∷ [] else []))))
    → (a ≡ false) × (b ≡ false) × (c ≡ false) × (d ≡ false)
none_of_four {F} a b c d ca cb cc' cd na nb nc nd h =
    let P = λ (x : SchemaChange F). is_additive x ≡ true in
    let (ha, h) = All-append P (if a then ca ∷ [] else []) _ h in
    let (hb, h) = All-append P (if b then cb ∷ [] else []) _ h in
    let (hc, hd) = All-append P (if c then cc' ∷ [] else []) _ h in
    (
      not_made a ca [] na ha,
      not_made b cb [] nb hb,
      not_made c cc' [] nc hc,
      not_made d cd [] nd hd,
    )

module _ {F : Type 0} (lib : Library F) (e : IsEquality lib) where
  raises-equal : (new old : Option F) → bound_equal lib old new ≡ true → raises lib new old ≡ false
  raises-equal none old h = refl
  raises-equal (some a) none h = cc
  raises-equal (some a) (some b) h = (e.not_less b a h).0

  lowers-equal : (new old : Option F) → bound_equal lib old new ≡ true → lowers lib new old ≡ false
  lowers-equal none old h = refl
  lowers-equal (some a) none h = cc
  lowers-equal (some a) (some b) h = (e.not_less b a h).1

  -- Equal constraints are no tighter.
  pub equal-tightens :
      (c d : FieldConstraints F) → equal_constraints lib d c ≡ true → tightens lib c d ≡ false
  unfolding equal_constraints tightens
  equal-tightens c d h =
      let (f, p, lo, hi) = all_equal _ _ _ _ _ h in
      rw
        (
          (string_eq.equal_iff d.format c.format).0 f,
          (string_eq.equal_iff d.pattern c.pattern).0 p,
          equal_refl c.format,
          equal_refl c.pattern,
          raises-equal c.min d.min lo,
          lowers-equal c.max d.max hi,
        )
        (ground arith)

  diff_rules-tightens :
      (name : String) (from to : ArtifactField F)
      → AllAdditive (diff_rules lib name from to)
      → tightens lib to.constraints from.constraints ≡ false
  unfolding tightens
  diff_rules-tightens name from to h =
      let old = without_unique lib from.constraints in
      let new = without_unique lib to.constraints in
      elim (Bool-cases (equal_constraints lib old new)) [
        | inl same ↦ equal-tightens new old same
        | inr differ ↦
            not_made (tightens lib new old)
              (record (update lib name to.key guarded "CONTENT_FIELD_CONSTRAINT_BACKFILL") {
                constraints = some to.constraints;
              })
              (update lib name to.key additive "" ∷ []) refl
              (otherwise (equal_constraints lib old new) [] _ differ h)
      ]

  diff_constraints-tightens :
      (name : String) (from to : ArtifactField F)
      → AllAdditive (diff_constraints lib name from to)
      → tightens lib to.constraints from.constraints ≡ false
  unfolding diff_constraints
  diff_constraints-tightens name from to h =
      diff_rules-tightens name from to
        (All-append (λ c. is_additive c ≡ true) (diff_unique lib name from to)
          (diff_rules lib name from to)
          (unrefused (validate_field_constraints lib to.type to.multiple to.constraints)
            (λ d. update lib name to.key refused (error_code d))
            (diff_unique lib name from to ++ diff_rules lib name from to) (λ d. refl) h)).1

  diff_immutable-same :
      (name : String) (from to : ArtifactField F)
      → AllAdditive (diff_immutable lib name from to)
      → (not (from.type == to.type) ≡ false)
        × (not (if from.multiple then to.multiple else not to.multiple) ≡ false)
        × (not (from.relation_entity == to.relation_entity) ≡ false)
        × (not (from.component == to.component) ≡ false)
  diff_immutable-same name from to h =
      let code = λ (c : String). refuse lib name to c in
      none_of_four (not (from.type == to.type))
        (not (if from.multiple then to.multiple else not to.multiple))
        (not (from.relation_entity == to.relation_entity)) (not (from.component == to.component))
        (code "CONTENT_FIELD_TYPE_IMMUTABLE") (code "CONTENT_FIELD_MULTIPLE_IMMUTABLE")
        (code "CONTENT_FIELD_RELATION_IMMUTABLE") (code "CONTENT_FIELD_COMPONENT_IMMUTABLE") refl
        refl refl refl h

  pub diff_field-IsWidened :
      (name : String) (from to : ArtifactField F)
      → from.key ≡ to.key
      → validate_field_constraints lib from.type from.multiple from.constraints ≡ none
      → AllAdditive (diff_field lib name from to)
      → IsWidened lib (props_of zone_names from) (props_of zone_names to)
        × (from.component ≡ to.component)
  unfolding diff_field
  diff_field-IsWidened name from to same storable h =
      let P = λ (c : SchemaChange F). is_additive c ≡ true in
      let (immutable, mutable) =
        first_or_rest (diff_immutable lib name from to) (diff_mutable lib name from to) h in
      let (same_type, same_multiple, same_relation, same_component) =
        diff_immutable-same name from to immutable in
      let changes = mutable (rw (same_type, same_multiple, same_relation, same_component) refl) in
      let same_update = update lib name to.key additive "" in
      let (required, enum, zone, constraints) =
        parts_of_field (when lib (not (from.label == to.label)) same_update)
          (when lib (not (from.description == to.description)) same_update)
          (diff_required lib name from to)
          (when lib (not (same_order from.read_roles to.read_roles)) same_update)
          (when lib (not (same_order from.write_roles to.write_roles)) same_update)
          (diff_enum lib name from to) (diff_zone lib name from to)
          (diff_constraints lib name from to) changes in
      (
        record {
          same_key = sym same;
          same_type = sym ((string_eq.equal_iff from.type to.type).0 (un_not _ same_type));
          same_multiple = same_bool from.multiple to.multiple same_multiple;
          no_requirement =
              not_made (not from.required && to.required)
                (update lib name to.key guarded "CONTENT_FIELD_REQUIRED_BACKFILL")
                (when lib (from.required && not to.required) same_update) refl required;
          enum_kept = λ v. none_missing from.enum_values to.enum_values v (
              un_not _ (
                not_made (not (is_empty (missing_from from.enum_values to.enum_values)))
                  (record (update lib name to.key guarded "CONTENT_ENUM_VALUE_IN_USE") {
                    removed_values = missing_from from.enum_values to.enum_values;
                  })
                  (when lib (not (same_order from.enum_values to.enum_values)) same_update) refl
                  enum));
          zone_kept = λ v. none_missing from.components to.components v (
              un_not _ (
                not_made (not (is_empty (missing_from from.components to.components)))
                  (record (update lib name to.key guarded "CONTENT_ZONE_COMPONENT_IN_USE") {
                    removed_components = missing_from from.components to.components;
                  })
                  (when lib (not (same_order from.components to.components)) same_update) refl
                  zone));
          storable = storable;
          loosened = diff_constraints-tightens name from to constraints;
        },
        (string_eq.equal_iff from.component to.component).0 (un_not _ same_component),
      )
