-- ===== src/Content/Cursor.antt =====
-- internal/cms/content/service/cursor.go: the position after which a list of entries goes on.
pub mod Positions
use saas_forge.Base.{
  nat_eq, ℕ, String, Bool, true, false, ◌&&◌, ◌==◌, string_eq, not, if◌then◌else◌, Option, some,
  none,
}
use saas_forge.Errors.{Err, Result, ok, err, ◌>>=◌, ◌>>◌}

pub record TimeCursor : Type 0 where
  pub t : String
  pub i : String

pub record SortCursor : Type 0 where
  pub k : String
  pub d : String
  pub v : Option String
  pub i : String

-- what a token is decoded to; a key that is absent is the empty text
pub record CursorPayload : Type 0 where
  pub t : String
  pub i : String
  pub k : String
  pub d : String
  pub v : Option String

pub record SortSpec : Type 0 where
  pub key : String
  pub desc : Bool

-- `EntryCursor`; `created_at` is the zero time in a sorted one.
pub record EntryCursor : Type 0 where
  pub created_at : Option ℕ
  pub id : ℕ
  pub sort_value : Option String

-- The fields of an entry that a cursor is made of. An empty payload is none.
pub record Last : Type 0 where
  pub id : ℕ
  pub created_at : ℕ
  pub payload : String
  pub published_payload : String

-- A decoded JSON value, `raw` with its trimmed text.
pub data Json : Type 0 where
  null : Json
  text digits raw : String → Json
  boolean : Bool → Json

-- encoding/json, encoding/base64, the uuid package and the package time. Only they read the bytes
-- of an object and the text of a token; `is_empty` is `raw == ""`.
pub record Codec (Bytes Token : Type 0) : Type 0 where
  pub marshal_time : TimeCursor → Option Bytes
  pub marshal_sort : SortCursor → Option Bytes
  pub unmarshal : Bytes → Option CursorPayload
  pub encode_base64 : Bytes → Token
  pub decode_base64 : Token → Option Bytes
  pub empty : Token
  pub is_empty : Token → Bool
  pub uuid_text : ℕ → String
  pub parse_uuid : String → Option ℕ
  pub format_time : ℕ → String
  pub parse_time : String → Option ℕ
  -- the value of a key of a document, if it decodes and has the key
  pub value_of : String → String → Option Json

abbrev pub direction : SortSpec → String
direction s = if s.desc then "desc" else "asc"

-- `sortDir`
abbrev pub sort_dir : Option SortSpec → String
sort_dir none = ""
sort_dir (some s) = direction s

abbrev pub sort_key : Option SortSpec → String
sort_key none = ""
sort_key (some s) = s.key

abbrev json_text : Json → Option String
json_text null = none
json_text (text s) = some s
json_text (digits s) = some s
json_text (boolean true) = some "true"
json_text (boolean false) = some "false"
json_text (raw s) = some s

abbrev invalid_if_none {ℓ} : {A : Type ℓ} → Option A → Result A
invalid_if_none none = err Err.cursor_invalid
invalid_if_none (some a) = ok a

module _ {Bytes Token : Type 0} (c : Codec Bytes Token) where
  unfoldable pub sort_value_text : String → String → Option String
  sort_value_text payload key =
      if payload == ""
      then none
      else elim (c.value_of payload key) [ none ↦ none | some v ↦ json_text v ]

  abbrev pub sorted_by : SortSpec → Bool → Last → SortCursor
  sorted_by s match_published last = record {
    k = s.key;
    d = direction s;
    v = sort_value_text (if match_published then last.published_payload else last.payload) s.key;
    i = c.uuid_text last.id;
  }

  abbrev pub marshalled : Option SortSpec → Bool → Last → Option Bytes
  marshalled none match_published last =
      c.marshal_time (record { t = c.format_time last.created_at; i = c.uuid_text last.id })
  marshalled (some s) match_published last = c.marshal_sort (sorted_by s match_published last)

  -- what cannot be marshalled is no next page
  abbrev pub encoded : Option Bytes → Token
  encoded none = c.empty
  encoded (some object) = c.encode_base64 object

  unfoldable pub encode_cursor : Last → Option SortSpec → Bool → Token
  unfolding sort_value_text
  encode_cursor last sort match_published = encoded (marshalled sort match_published last)

  -- the position that a payload of the right order names
  abbrev pub position : Option SortSpec → CursorPayload → ℕ → Result (Option EntryCursor)
  position (some s) p id = ok (some (record { created_at = none; id = id; sort_value = p.v }))
  position none p id = invalid_if_none (c.parse_time p.t) >>= λ t.
      ok (some (record { created_at = some t; id = id; sort_value = none }))

  unfoldable pub decode_payload : CursorPayload → Option SortSpec → Result (Option EntryCursor)
  decode_payload p sort = invalid_if_none (c.parse_uuid p.i) >>= λ id.
      if p.k == sort_key sort && p.d == sort_dir sort
      then position sort p id
      else err Err.cursor_invalid

  -- `decodeCursor`; no token is no cursor
  unfoldable pub decode_cursor : Token → Option SortSpec → Result (Option EntryCursor)
  unfolding decode_payload
  decode_cursor token sort =
      if c.is_empty token
      then ok none
      else (invalid_if_none (c.decode_base64 token) >>= λ bytes.
          invalid_if_none (c.unmarshal bytes) >>= λ p. decode_payload p sort)
