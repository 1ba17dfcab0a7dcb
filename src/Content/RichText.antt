-- ===== src/Content/RichText.antt =====
-- internal/cms/content/domain/richtext.go: the block grammar of a rich text value, and the media
-- that its image blocks name.
pub mod Spans
pub mod Images
use Prim.Native.String.{len}
use saas_forge.Base.{
  true, false, String, Bool, List, [], ◌∷◌, Option, some, none, ◌==◌, string_eq, nat_eq, contains,
  not, ltb, ℕ, ◌+◌, length, if◌then◌else◌, ◌&&◌, ◌||◌, ◌++◌,
}
use saas_forge.Content.Constraints.{Library, first_error, raise_if}
use saas_forge.Content.Json.{
  Json, Object, as_array, as_object, as_string, lookup, text_under, float64,
}
use saas_forge.Content.RichText.Spans.{
  Packages, Violation, Locator, at_index, at_key, not_an_array, too_many_blocks, not_an_object,
  too_many_images, unknown_key, bad_level, no_children, no_code, bad_language, bad_style, no_items,
  not_spans, no_media_id, bad_alt, unknown_block, violation, validate_spans, unknown_keys,
}

abbrev block_paragraph : String
block_paragraph = "paragraph"

abbrev block_heading : String
block_heading = "heading"

abbrev block_quote : String
block_quote = "quote"

abbrev block_code : String
block_code = "code"

abbrev block_list : String
block_list = "list"

abbrev pub block_image : String
block_image = "image"

abbrev block_divider : String
block_divider = "divider"

abbrev pub max_blocks : ℕ
max_blocks = 500

abbrev pub max_image_blocks : ℕ
max_image_blocks = 50

abbrev max_heading_level : ℕ
max_heading_level = 6

abbrev max_code_language_len : ℕ
max_code_language_len = 40

abbrev max_alt_text_len : ℕ
max_alt_text_len = 1000

abbrev pub is_parsed : Option ℕ → Bool
is_parsed none = false
is_parsed (some id) = true

-- the ids that a block adds to those seen before it
abbrev pub new_media : List ℕ → Option ℕ → List ℕ
new_media seen none = []
new_media seen (some id) = if contains seen id then [] else id ∷ []

module _ {F : Type 0} (lib : Library F) (go : Packages) where
  -- A JSON number is finite, so it equals its integer part exactly when it is whole.
  abbrev legal_level : Option (Json F) → Bool
  legal_level (some (float64 level)) =
      lib.is_whole level
      && not (lib.less level (lib.of_count 1))
      && not (lib.less (lib.of_count max_heading_level) level)
  legal_level _ = false

  abbrev legal_language : Option (Json F) → Bool
  legal_language none = true
  legal_language (some v) = elim (as_string v) [
    | none ↦ false
    | some s ↦ not (s == "" || ltb max_code_language_len (len s) || go.has_space s)
  ]

  abbrev legal_alt : Option (Json F) → Bool
  legal_alt none = true
  legal_alt (some v) = elim (as_string v) [
    | none ↦ false
    | some s ↦ not (ltb max_alt_text_len (len s))
  ]

  abbrev array_under : String → Object F → Option (List (Json F))
  array_under key doc = elim (lookup key doc) [ none ↦ none | some v ↦ as_array v ]

  abbrev validate_item : Locator → ℕ → Option (List (Json F)) → Option Violation
  validate_item path j none =
      some (violation (path ++ (at_key "items" ∷ at_index j ∷ [])) not_spans)
  validate_item path j (some spans) =
      validate_spans go (path ++ (at_key "items" ∷ at_index j ∷ [])) 0 spans

  -- the loop over the items of a list block, from the index `j` on
  unfoldable validate_items : Locator → ℕ → List (Json F) → Option Violation
  unfolding validate_spans
  validate_items path j [] = none
  validate_items path j (it ∷ items) =
      first_error (validate_item path j (as_array it)) (validate_items path (j + 1) items)

  abbrev validate_children : Locator → Object F → Option Violation
  validate_children path block = elim (array_under "children" block) [
    | none ↦ some (violation (path ++ (at_key "children" ∷ [])) no_children)
    | some children ↦ validate_spans go (path ++ (at_key "children" ∷ [])) 0 children
  ]

  abbrev validate_list : Locator → Object F → Option Violation
  validate_list path block =
      if not (text_under "style" block == "bullet") && not (text_under "style" block == "ordered")
      then some (violation (path ++ (at_key "style" ∷ [])) bad_style)
      else elim (array_under "items" block) [
        | none ↦ some (violation (path ++ (at_key "items" ∷ [])) no_items)
        | some items ↦
            first_error (validate_items path 0 items)
              (unknown_keys path ("type" ∷ "style" ∷ "items" ∷ []) block)
      ]

  abbrev validate_code : Locator → Object F → Option Violation
  validate_code path block = elim (lookup "code" block) [
    | none ↦ some (violation (path ++ (at_key "code" ∷ [])) no_code)
    | some v ↦ elim (as_string v) [
      | none ↦ some (violation (path ++ (at_key "code" ∷ [])) no_code)
      | some code ↦
          first_error
            (raise_if (not (legal_language (lookup "language" block)))
              (violation (path ++ (at_key "language" ∷ [])) bad_language))
            (unknown_keys path ("type" ∷ "code" ∷ "language" ∷ []) block)
    ]
  ]

  abbrev pub validate_image : Locator → Object F → Option Violation
  validate_image path block =
      if not (is_parsed (go.parse_uuid (text_under "media_id" block)))
      then some (violation (path ++ (at_key "media_id" ∷ [])) no_media_id)
      else first_error
          (raise_if (not (legal_alt (lookup "alt" block)))
            (violation (path ++ (at_key "alt" ∷ [])) bad_alt))
          (unknown_keys path ("type" ∷ "media_id" ∷ "alt" ∷ []) block)

  unfoldable pub validate_block : Locator → String → Object F → Option Violation
  unfolding validate_items validate_spans
  validate_block path typ block =
      if typ == block_paragraph || typ == block_quote
      then first_error (validate_children path block)
          (unknown_keys path ("type" ∷ "children" ∷ []) block)
      else if typ == block_heading
      then (if not (legal_level (lookup "level" block))
          then some (violation (path ++ (at_key "level" ∷ [])) bad_level)
          else first_error (validate_children path block)
              (unknown_keys path ("type" ∷ "level" ∷ "children" ∷ []) block))
      else if typ == block_code
      then validate_code path block
      else if typ == block_list
      then validate_list path block
      else if typ == block_image
      then validate_image path block
      else if typ == block_divider
      then unknown_keys path ("type" ∷ []) block
      else some (violation (path ++ (at_key "type" ∷ [])) unknown_block)

  -- the loop over the blocks, from the index `i` on, with `images` image blocks met before
  unfoldable pub validate_blocks : ℕ → ℕ → List (Json F) → Option Violation
  unfolding validate_block
  validate_blocks i images [] = none
  validate_blocks i images (b ∷ blocks) = elim (as_object b) [
    | none ↦ some (violation (at_index i ∷ []) not_an_object)
    | some block ↦
        let typ = text_under "type" block in
        let images = images + (if typ == block_image then 1 else 0) in
        if typ == block_image && ltb max_image_blocks images
        then some (violation (at_index i ∷ []) too_many_images)
        else first_error (validate_block (at_index i ∷ []) typ block)
            (validate_blocks (i + 1) images blocks)
  ]

  unfoldable pub validate_rich_text : Json F → Option Violation
  unfolding validate_blocks
  validate_rich_text v = elim (as_array v) [
    | none ↦ some (violation [] not_an_array)
    | some blocks ↦
        if ltb max_blocks (length blocks)
        then some (violation [] too_many_blocks)
        else validate_blocks 0 0 blocks
  ]

module _ {F : Type 0} (go : Packages) where
  -- the media id that a block adds, if it is an image block with one
  abbrev pub media_of : Json F → Option ℕ
  media_of b = elim (as_object b) [
    | none ↦ none
    | some block ↦
        if not (text_under "type" block == block_image)
        then none
        else go.parse_uuid (text_under "media_id" block)
  ]

  -- the loop over the blocks, with the ids seen before
  unfoldable pub collect_media : List ℕ → List (Json F) → List ℕ
  collect_media seen [] = []
  collect_media seen (b ∷ blocks) =
      new_media seen (media_of b) ++ collect_media (new_media seen (media_of b) ++ seen) blocks

  unfoldable pub collect_rich_text_media_ids : Json F → List ℕ
  unfolding collect_media
  collect_rich_text_media_ids v = elim (as_array v) [
    | none ↦ []
    | some blocks ↦ collect_media [] blocks
  ]
