-- ===== src/Tests/Protocol.antt =====
-- Schemas as the registry normalises them.
use goffy_os.Prelude.{◌≡◌, refl, false}
use goffy_os.Prelude.Result.{ok}
use goffy_os.Protocol.Values.{Json, bool, text, object, Fields, end, field}
use goffy_os.Protocol.Schema.{
  normalize_json_schema, enforce_schema_root, normalize, sort_keys, insert_field, field_get,
  field_put, json_schema_dialect,
}
use goffy_os.Protocol.Schema.Roots.{normalize-enforce}

-- A schema as pydantic writes it, with a title and a property named `title`.
abbrev pub raw_fields : Fields
raw_fields = field "title" (text "Input") (
    field "type" (text "object") (
      field "additionalProperties" (bool false) (
        field "properties"
          (object (
            field "title" (object (field "title" (text "Title") (field "type" (text "string") end)))
              end))
          end)))

abbrev pub normal_schema : Json
normal_schema = object (
    field "$schema" (text json_schema_dialect) (
      field "additionalProperties" (bool false) (
        field "properties" (object (field "title" (object (field "type" (text "string") end)) end))
          (field "type" (text "object") end))))

pub normalize_run : normalize_json_schema (object raw_fields) ≡ ok normal_schema
unfolding normalize_json_schema normalize sort_keys insert_field field_get field_put
normalize_run = refl

normalize-enforce_example :
    (normalized : Json) × (normalize_json_schema (object raw_fields) ≡ ok normalized)
    × (enforce_schema_root normalized ≡ ok tt)
unfolding field_get
normalize-enforce_example = normalize-enforce raw_fields refl refl refl
