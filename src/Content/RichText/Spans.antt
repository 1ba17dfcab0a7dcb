-- ===== src/Content/RichText/Spans.antt =====
-- internal/cms/content/domain/richtext.go: violations, the spans of a block with their marks and
-- links, and the check for unknown keys.
use Prim.Native.String.{len}
use saas_forge.Base.{
  true, false, String, Bool, List, [], ◌∷◌, Option, some, none, ◌==◌, string_eq, contains, not, ltb,
  ℕ, ◌+◌, if◌then◌else◌, ◌||◌, ◌++◌, starts_with,
}
use saas_forge.Content.Constraints.{first_error, raise_if}
use saas_forge.Content.Json.{Json, Object, as_array, as_object, as_string, lookup}

-- `uuid.Parse`, `strings.ContainsAny(s, " \t\n")` and `strings.ToLower`
pub record Packages : Type 0 where
  pub parse_uuid : String → Option ℕ
  pub has_space : String → Bool
  pub to_lower : String → String

-- The locator of a violation, "[3].children[0]", by its steps.
pub data Step : Type 0 where
  at_index : ℕ → Step
  at_key : String → Step

abbrev pub Locator : Type 0
Locator = List Step

-- `RichTextViolation`: `Reason` by its kind
pub data Reason : Type 0 where
  not_an_array too_many_blocks not_an_object too_many_images unknown_key bad_level : Reason
  no_children no_code bad_language bad_style no_items not_spans no_media_id bad_alt : Reason
  unknown_block not_a_span no_text bad_marks unknown_mark duplicate_mark bad_href : Reason

pub data Violation : Type 0 where
  violation : Locator → Reason → Violation

abbrev max_href_len : ℕ
max_href_len = 2048

abbrev legal_marks : List String
legal_marks = "strong" ∷ "em" ∷ "underline" ∷ "strike" ∷ "code" ∷ []

abbrev legal_mark : String → Bool
legal_mark s = contains legal_marks s

module _ (go : Packages) where
  unfoldable pub legal_href : String → Bool
  legal_href s =
      if s == "" || ltb max_href_len (len s)
      then false
      else starts_with s "/"
        || starts_with s "#"
        || starts_with (go.to_lower s) "http://"
        || starts_with (go.to_lower s) "https://"
        || starts_with (go.to_lower s) "mailto:"

-- A key of the block that is not among `keys`; the source puts "type" among the legal ones itself.
unfoldable pub unknown_keys : {F : Type 0} → Locator → List String → Object F → Option Violation
unknown_keys path keys [] = none
unknown_keys path keys ((k, v) ∷ rest) =
    if not (contains keys k)
    then some (violation (path ++ (at_key k ∷ [])) unknown_key)
    else unknown_keys path keys rest

-- the loop over the marks, from the index `i` on, with the marks seen before
unfoldable pub check_marks :
    {F : Type 0} → Locator → ℕ → List String → List (Json F) → Option Violation
check_marks path i seen [] = none
check_marks path i seen (m ∷ marks) = elim (as_string m) [
  | none ↦ some (violation (path ++ (at_key "marks" ∷ at_index i ∷ [])) unknown_mark)
  | some s ↦
      if not (legal_mark s)
      then some (violation (path ++ (at_key "marks" ∷ at_index i ∷ [])) unknown_mark)
      else if contains seen s
      then some (violation (path ++ (at_key "marks" ∷ at_index i ∷ [])) duplicate_mark)
      else check_marks path (i + 1) (s ∷ seen) marks
]

module _ {F : Type 0} (go : Packages) where
  abbrev has_text : Option (Json F) → Bool
  has_text none = false
  has_text (some v) = elim (as_string v) [ none ↦ false | some s ↦ true ]

  abbrev check_span_marks : Locator → Option (Json F) → Option Violation
  check_span_marks path none = none
  check_span_marks path (some v) = elim (as_array v) [
    | none ↦ some (violation (path ++ (at_key "marks" ∷ [])) bad_marks)
    | some marks ↦ check_marks path 0 [] marks
  ]

  abbrev has_legal_href : Option (Json F) → Bool
  has_legal_href none = true
  has_legal_href (some v) = elim (as_string v) [ none ↦ false | some s ↦ legal_href go s ]

  unfoldable pub validate_span : Locator → Json F → Option Violation
  unfolding check_marks legal_href unknown_keys
  validate_span path v = elim (as_object v) [
    | none ↦ some (violation path not_a_span)
    | some span ↦
        if not (has_text (lookup "text" span))
        then some (violation (path ++ (at_key "text" ∷ [])) no_text)
        else first_error (check_span_marks path (lookup "marks" span)) (
            first_error
              (raise_if (not (has_legal_href (lookup "href" span)))
                (violation (path ++ (at_key "href" ∷ [])) bad_href))
              (unknown_keys path ("text" ∷ "marks" ∷ "href" ∷ []) span))
  ]

  -- the loop over spans, from the index `i` on
  unfoldable pub validate_spans : Locator → ℕ → List (Json F) → Option Violation
  unfolding validate_span
  validate_spans path i [] = none
  validate_spans path i (sp ∷ spans) =
      first_error (validate_span (path ++ (at_index i ∷ [])) sp) (validate_spans path (i + 1) spans)
