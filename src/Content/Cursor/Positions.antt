-- ===== src/Content/Cursor/Positions.antt =====
-- A cursor names the position that it was minted at, and no position in another order.
use saas_forge.Base.{
  nat_eq, ap, inr, inl, Bool-cases, ◌∙◌, ℕ, String, Bool, false, ◌≡◌, refl, ◌&&◌, ◌==◌, string_eq,
  if◌then◌else◌, Option, some, none, arith,
}
use saas_forge.Errors.{Err, ok, err}
use saas_forge.Content.Cursor.{
  TimeCursor, SortCursor, SortSpec, EntryCursor, Last, Codec, direction, sort_dir, sort_key,
  sort_value_text, sorted_by, encode_cursor, encoded, decode_payload, decode_cursor,
}

-- What the packages promise of texts, which are Unicode: each decoder reads what its encoder wrote, and an object that was
-- written is not the empty text.
pub record IsCodec {Bytes Token : Type 0} (c : Codec Bytes Token) : Type 0 where
  pub time_bytes : TimeCursor → Bytes
  pub sort_bytes : SortCursor → Bytes
  pub marshals_time : (x : TimeCursor) → c.marshal_time x ≡ some (time_bytes x)
  pub marshals_sort : (x : SortCursor) → c.marshal_sort x ≡ some (sort_bytes x)
  pub reads_time :
      (x : TimeCursor)
      → c.unmarshal (time_bytes x) ≡ some (record { t = x.t; i = x.i; k = ""; d = ""; v = none })
  pub reads_sort :
      (x : SortCursor)
      → c.unmarshal (sort_bytes x) ≡ some (record { t = ""; i = x.i; k = x.k; d = x.d; v = x.v })
  pub base64 : (b : Bytes) → c.decode_base64 (c.encode_base64 b) ≡ some b
  pub time_written : (x : TimeCursor) → c.is_empty (c.encode_base64 (time_bytes x)) ≡ false
  pub sort_written : (x : SortCursor) → c.is_empty (c.encode_base64 (sort_bytes x)) ≡ false
  pub uuid : (id : ℕ) → c.parse_uuid (c.uuid_text id) ≡ some id
  pub time : (t : ℕ) → c.parse_time (c.format_time t) ≡ some t

-- Where the list goes on: after the creation time, or after the sorted value.
abbrev pub position_of :
    {Bytes Token : Type 0} → Codec Bytes Token → Last → Option SortSpec → Bool → EntryCursor
position_of c last none match_published = record {
  created_at = some last.created_at;
  id = last.id;
  sort_value = none;
}
position_of c last (some s) match_published = record {
  created_at = none;
  id = last.id;
  sort_value =
      sort_value_text c (if match_published then last.published_payload else last.payload) s.key;
}

-- two orders are the same to a cursor
abbrev pub is_same_order : Option SortSpec → Option SortSpec → Bool
is_same_order a b = sort_key a == sort_key b && sort_dir a == sort_dir b

written_direction : (s : SortSpec) → (("" == direction s) ≡ false) × ((direction s == "") ≡ false)
written_direction s = elim (Bool-cases s.desc) [
  | inl down ↦ rw down (refl, refl)
  | inr up ↦ rw up (refl, refl)
]

module _ {Bytes Token : Type 0} (c : Codec Bytes Token) (laws : IsCodec c) where
  decode-time :
      (x : TimeCursor) (sort : Option SortSpec)
      → decode_cursor c (c.encode_base64 (laws.time_bytes x)) sort
        ≡ decode_payload c (record { t = x.t; i = x.i; k = ""; d = ""; v = none }) sort
  unfolding decode_cursor
  decode-time x sort =
      rw (laws.time_written x, laws.base64 (laws.time_bytes x), laws.reads_time x) refl

  decode-sort :
      (x : SortCursor) (sort : Option SortSpec)
      → decode_cursor c (c.encode_base64 (laws.sort_bytes x)) sort
        ≡ decode_payload c (record { t = ""; i = x.i; k = x.k; d = x.d; v = x.v }) sort
  unfolding decode_cursor
  decode-sort x sort =
      rw (laws.sort_written x, laws.base64 (laws.sort_bytes x), laws.reads_sort x) refl

  read-time :
      (last : Last) (sort : Option SortSpec)
      → decode_payload c
          (record {
            t = c.format_time last.created_at;
            i = c.uuid_text last.id;
            k = "";
            d = "";
            v = none;
          })
          sort
        ≡ (if is_same_order none sort
            then ok (some (position_of c last none false))
            else err Err.cursor_invalid)
  unfolding decode_payload
  read-time last none = rw (laws.uuid last.id, laws.time last.created_at) refl
  read-time last (some s) =
      rw (laws.uuid last.id) (ground (arith, (written_direction s).0, (written_direction s).1))

  read-sort :
      (last : Last) (s : SortSpec) (value : Option String) (sort : Option SortSpec)
      → decode_payload c
          (record { t = ""; i = c.uuid_text last.id; k = s.key; d = direction s; v = value })
          sort
        ≡ (if is_same_order (some s) sort
            then ok (some (record { created_at = none; id = last.id; sort_value = value }))
            else err Err.cursor_invalid)
  unfolding decode_payload
  read-sort last s value none =
      rw (laws.uuid last.id) (ground (arith, (written_direction s).0, (written_direction s).1))
  read-sort last s value (some s') = rw (laws.uuid last.id) refl

  -- The cursor of a page's last entry decodes, under an order of the same key and direction, to that
  -- entry's id with its creation time, or with its value of the sort key in the copy that the list
  -- reads; under any other order it is refused.
  pub decode_cursor-encode_cursor :
      (last : Last) (minted asked : Option SortSpec) (match_published : Bool)
      → decode_cursor c (encode_cursor c last minted match_published) asked ≡ (
          if is_same_order minted asked
          then ok (some (position_of c last minted match_published))
          else err Err.cursor_invalid)
  unfolding encode_cursor
  decode_cursor-encode_cursor last none asked match_published =
      let x : TimeCursor = record { t = c.format_time last.created_at; i = c.uuid_text last.id } in
      ap (λ (token : Token). decode_cursor c token asked) (ap (encoded c) (laws.marshals_time x))
      ∙ decode-time x asked
      ∙ read-time last asked
  decode_cursor-encode_cursor last (some s) asked match_published =
      let x : SortCursor = sorted_by c s match_published last in
      ap (λ (token : Token). decode_cursor c token asked) (ap (encoded c) (laws.marshals_sort x))
      ∙ decode-sort x asked
      ∙ read-sort last s x.v asked
