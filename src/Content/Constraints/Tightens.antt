-- ===== src/Content/Constraints/Tightens.antt =====
-- A change of constraints that does not tighten keeps every value.
use saas_forge.Base.{
  if◌then◌else◌, sym, String, Bool, true, false, ◌≡◌, refl, not, Option, some, none, arith, ◌==◌,
  string_eq, ◌&&◌, ◌||◌, Option-cases, Bool-cases, inl, inr,
}
use mathlib.Core.Path.{subst}
use saas_forge.Content.Constraints.{
  Violation, format_failed, pattern_failed, field_format_slug, FieldConstraints, Value, text,
  number, other, Library, check_bound, check_range, validate_field_constraints, check_size,
  check_text, check_value, tightens, below, above, raises, lowers, pattern_rejects,
}

-- What the code relies on of float64: `<` is the order of the numbers, of which a finite one is
-- neither NaN nor infinite. The first says that a value not below a finite bound is not below what
-- is not above the bound, the second is its mirror image.
pub record IsOrdered {F : Type 0} (lib : Library F) : Type 0 where
  pub not_below :
      (v a b : F)
      → lib.is_finite a ≡ true
      → lib.less v a ≡ false
      → lib.less a b ≡ false
      → lib.less v b ≡ false
  pub not_above :
      (v a b : F)
      → lib.is_finite a ≡ true
      → lib.less a v ≡ false
      → lib.less b a ≡ false
      → lib.less b v ≡ false

-- What the code relies on of `==` on float64: equal numbers are in no order, and a finite number, which
-- is no NaN, equals itself.
pub record IsEquality {F : Type 0} (lib : Library F) : Type 0 where
  pub not_less : (a b : F) → lib.same a b ≡ true → (lib.less a b ≡ false) × (lib.less b a ≡ false)
  pub reflexive : (a : F) → lib.is_finite a ≡ true → lib.same a a ≡ true

-- A rule that is not tightened is gone or the same.
loosened :
    (P : String → Type 0) (new old : String)
    → (not (new == "") && not (new == old)) ≡ false
    → P ""
    → P old
    → P new
loosened P new old h gone same = elim (Bool-cases (new == "")) [
  | inl none_left ↦ subst P (sym ((string_eq.equal_iff new "").0 none_left)) gone
  | inr some_left ↦ subst P (sym ((string_eq.equal_iff new old).0 (ground arith))) same
]

passes :
    (slug_fails pattern_fails : Bool) (size : Option Violation)
    → (if slug_fails
        then some format_failed
        else if pattern_fails
        then some pattern_failed
        else size)
      ≡ none
    → (slug_fails ≡ false) × (pattern_fails ≡ false) × (size ≡ none)
passes slug_fails pattern_fails size h = ground arith

neither :
    (a b c d : Bool)
    → (a || b || c || d) ≡ false
    → (a ≡ false) × (b ≡ false) × (c ≡ false) × (d ≡ false)
neither a b c d h = ground arith

module _ {F : Type 0} (lib : Library F) where
  -- Constraints that may be stored have bounds that may be.
  pub check_range-bounds :
      (t : String) (c : FieldConstraints F)
      → check_range lib t c ≡ none
      → (check_bound lib t "min" c.min ≡ none) × (check_bound lib t "max" c.max ≡ none)
  unfolding check_range check_bound
  check_range-bounds t c h = elim (Option-cases c.min) [
    | inl no_min ↦ elim (Option-cases c.max) [
      | inl no_max ↦ rw (no_min, no_max) (refl, refl)
      | inr (hi, has_max) ↦ ground arith
    ]
    | inr (lo, has_min) ↦ ground arith
  ]

  pub validate-bounds :
      (t : String) (multiple : Bool) (c : FieldConstraints F)
      → validate_field_constraints lib t multiple c ≡ none
      → check_range lib t c ≡ none
  unfolding validate_field_constraints
  validate-bounds t multiple c h = ground arith

module _ {F : Type 0} (lib : Library F) (o : IsOrdered lib) where
  below_kept :
      (v : F) (old new : Option F) (t attr : String)
      → check_bound lib t attr old ≡ none
      → raises lib new old ≡ false
      → below lib v old ≡ false
      → below lib v new ≡ false
  unfolding check_bound
  below_kept v none none t attr fine r h = refl
  below_kept v none (some b) t attr fine r h = ground arith
  below_kept v (some a) none t attr fine r h = refl
  below_kept v (some a) (some b) t attr fine r h = ground (arith, o.not_below v a b)

  above_kept :
      (v : F) (old new : Option F) (t attr : String)
      → check_bound lib t attr old ≡ none
      → lowers lib new old ≡ false
      → above lib v old ≡ false
      → above lib v new ≡ false
  unfolding check_bound
  above_kept v none none t attr fine r h = refl
  above_kept v none (some b) t attr fine r h = ground arith
  above_kept v (some a) none t attr fine r h = refl
  above_kept v (some a) (some b) t attr fine r h = ground (arith, o.not_above v a b)

  check_size_kept :
      (from c : FieldConstraints F) (t : String) (n : F)
      → check_range lib t from ≡ none
      → raises lib c.min from.min ≡ false
      → lowers lib c.max from.max ≡ false
      → check_size lib from n ≡ none
      → check_size lib c n ≡ none
  unfolding check_size
  check_size_kept from c t n fine r l h =
      let (fine_min, fine_max) = check_range-bounds lib t from fine in
      ground (
        arith,
        below_kept n from.min c.min t "min" fine_min r,
        above_kept n from.max c.max t "max" fine_max l,
      )

  tightens_parts :
      (c from : FieldConstraints F)
      → tightens lib c from ≡ false
      → ((not (c.format == "") && not (c.format == from.format)) ≡ false)
        × ((not (c.pattern == "") && not (c.pattern == from.pattern)) ≡ false)
        × (raises lib c.min from.min ≡ false)
        × (lowers lib c.max from.max ≡ false)
  unfolding tightens
  tightens_parts c from loose = neither _ _ _ _ loose

  check_text_kept :
      (from c : FieldConstraints F) (t s : String)
      → check_range lib t from ≡ none
      → tightens lib c from ≡ false
      → check_text lib from s ≡ none
      → check_text lib c s ≡ none
  unfolding check_text tightens
  check_text_kept from c t s fine loose h =
      let (slug_ok, pattern_ok, size_ok) = passes _ _ _ h in
      let (format_loose, pattern_loose, min_loose, max_loose) = tightens_parts c from loose in
      let slug_kept =
        loosened (λ r. (r == field_format_slug && not (lib.is_slug s)) ≡ false) c.format from.format
          format_loose refl slug_ok in
      let pattern_kept =
        loosened (λ r. pattern_rejects lib r s ≡ false) c.pattern from.pattern pattern_loose refl
          pattern_ok in
      rw (slug_kept, pattern_kept)
        (check_size_kept from c t (lib.of_count (lib.rune_count s)) fine min_loose max_loose
          size_ok)

  -- A value that a storable constraint set accepts is accepted by any set that does not tighten it.
  pub check_value_loosened :
      (from c : FieldConstraints F) (t : String) (multiple : Bool) (v : Value F)
      → validate_field_constraints lib t multiple from ≡ none
      → tightens lib c from ≡ false
      → check_value lib from t v ≡ none
      → check_value lib c t v ≡ none
  unfolding check_value tightens
  check_value_loosened from c t multiple (text s) fine loose h =
      ground (arith, check_text_kept from c t s (validate-bounds lib t multiple from fine) loose)
  check_value_loosened from c t multiple (number n) fine loose h =
      let (_, _, min_loose, max_loose) = tightens_parts c from loose in
      ground (
        arith,
        check_size_kept from c t n (validate-bounds lib t multiple from fine) min_loose max_loose,
      )
  check_value_loosened from c t multiple other fine loose h = refl
