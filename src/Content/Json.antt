-- ===== src/Content/Json.antt =====
-- A decoded JSON document, as encoding/json gives it to internal/cms/content: float64 is a type F.
use saas_forge.Base.{
  String, Bool, List, [], ◌∷◌, Option, some, none, ◌==◌, string_eq, if◌then◌else◌,
}

mutual
  pub data Json (F : Type 0) : Type 0 where
    null : Json F
    bool : Bool → Json F
    string : String → Json F
    float64 : F → Json F
    array : Items F → Json F
    object : Members F → Json F

  pub data Items (F : Type 0) : Type 0 where
    no_items : Items F
    item_then : Json F → Items F → Items F

  pub data Members (F : Type 0) : Type 0 where
    no_members : Members F
    member_then : String → Json F → Members F → Members F

-- A `map[string]any`. Where the code ranges over a map, the model goes through this list.
abbrev pub Object : Type 0 → Type 0
Object F = List (String × Json F)

module _ {F : Type 0} where
  abbrev pub elements : Items F → List (Json F)
  elements no_items = []
  elements (item_then v rest) = v ∷ elements rest

  abbrev pub entries : Members F → Object F
  entries no_members = []
  entries (member_then k v rest) = (k, v) ∷ entries rest

  -- `doc[key]`, present or not
  abbrev pub lookup : String → Object F → Option (Json F)
  lookup key [] = none
  lookup key ((k, v) ∷ rest) = if k == key then some v else lookup key rest

  -- `v.(string)`, `v.([]any)` and `v.(map[string]any)`
  abbrev pub as_string : Json F → Option String
  as_string (string s) = some s
  as_string _ = none

  abbrev pub as_array : Json F → Option (List (Json F))
  as_array (array xs) = some (elements xs)
  as_array _ = none

  abbrev pub as_object : Json F → Option (Object F)
  as_object (object ms) = some (entries ms)
  as_object _ = none

  abbrev string_or_empty : Option (Json F) → String
  string_or_empty (some (string s)) = s
  string_or_empty _ = ""

  -- `name, _ := doc[key].(string)`
  abbrev pub text_under : String → Object F → String
  text_under key doc = string_or_empty (lookup key doc)
