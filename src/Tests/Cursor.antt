-- ===== src/Tests/Cursor.antt =====
-- Packages that keep an object as it is, and write a number in unary.
use saas_forge.Base.{
  ℕ, zero, suc, String, ◌≡◌, refl, true, Option, some, none, ap, string_eq, is_some, not,
}
use saas_forge.Errors.{ok}
use saas_forge.Content.Cursor.{
  TimeCursor, SortCursor, CursorPayload, SortSpec, Last, Codec, Json, sort_value_text,
  encode_cursor, decode_cursor,
}
use saas_forge.Content.Cursor.Positions.{IsCodec, decode_cursor-encode_cursor}

in_unary : ℕ → String
in_unary zero = ""
in_unary (suc n) = String.◌∷◌ "1" (in_unary n)

units : String → ℕ
units String.[] = zero
units (String.◌∷◌ c s) = suc (units s)

units-in_unary : (n : ℕ) → units (in_unary n) ≡ n
unfolding in_unary units
units-in_unary zero = refl
units-in_unary (suc n) = ap (λ (m : ℕ). suc m) (units-in_unary n)

abbrev of_time : TimeCursor → CursorPayload
of_time x = record { t = x.t; i = x.i; k = ""; d = ""; v = none }

abbrev of_sort : SortCursor → CursorPayload
of_sort x = record { t = ""; i = x.i; k = x.k; d = x.d; v = x.v }

abbrev plain : Codec CursorPayload (Option CursorPayload)
plain = record {
  marshal_time = λ x. some (of_time x);
  marshal_sort = λ x. some (of_sort x);
  unmarshal = λ b. some b;
  encode_base64 = λ b. some b;
  decode_base64 = λ token. token;
  empty = none;
  is_empty = λ token. not (is_some token);
  uuid_text = in_unary;
  parse_uuid = λ s. some (units s);
  format_time = in_unary;
  parse_time = λ s. some (units s);
  value_of = λ payload key. some (Json.digits payload);
}

plain-IsCodec : IsCodec plain
plain-IsCodec = record {
  time_bytes = of_time;
  sort_bytes = of_sort;
  marshals_time = λ x. refl;
  marshals_sort = λ x. refl;
  reads_time = λ x. refl;
  reads_sort = λ x. refl;
  base64 = λ b. refl;
  time_written = λ x. refl;
  sort_written = λ x. refl;
  uuid = λ id. ap (λ (n : ℕ). some n) (units-in_unary id);
  time = λ t. ap (λ (n : ℕ). some n) (units-in_unary t);
}

abbrev the_last : Last
the_last = record { id = 3; created_at = 5; payload = "9"; published_payload = "8" }

abbrev by_price : SortSpec
by_price = record { key = "price"; desc = true }

decode_cursor-encode_cursor_example :
    decode_cursor plain (encode_cursor plain the_last (some by_price) true) (some by_price)
    ≡ ok (some (record { created_at = none; id = 3; sort_value = some "8" }))
unfolding sort_value_text
decode_cursor-encode_cursor_example =
    decode_cursor-encode_cursor plain plain-IsCodec the_last (some by_price) (some by_price) true
