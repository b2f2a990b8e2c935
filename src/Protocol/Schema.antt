-- ===== src/Protocol/Schema.antt =====
-- The JSON Schema normalisation of protocol/python/goffy_protocol/models.py, and the checks that
-- `ToolCapability` makes of a schema.
pub mod Titles
pub mod Roots
use goffy_os.Prelude.{
  ℕ, String, ◌≡◌, refl, Bool, true, false, not, ◌&&◌, ◌||◌, Option, none, some, List, [], ◌∷◌,
  arith, length, contains, ◌==◌, ◌!=◌, string_eq, if◌then◌else◌,
}
use goffy_os.Prelude.Result.{Result, ok, raise, ◌>>=◌, ◌>>◌, guard}
use goffy_os.Prelude.Sorting.{str_le}
use goffy_os.Protocol.Values.{
  Json, null, bool, nat, number, text, array, object, Items, nil, cons, Fields, end, field,
}

abbrev pub json_schema_dialect : String
json_schema_dialect = "https://json-schema.org/draft/2020-12/schema"

-- schema.get(key)
unfoldable pub field_get : Fields → String → Option Json
field_get end k = none
field_get (field j v fs) k = if j == k then some v else field_get fs k

-- schema[key] = value
unfoldable pub field_put : Fields → String → Json → Fields
field_put end k v = field k v end
field_put (field j w fs) k v = if j == k then field k v fs else field j w (field_put fs k v)

unfoldable pub field_keys : Fields → List String
field_keys end = []
field_keys (field k v fs) = k ∷ field_keys fs

-- `_contains_json_schema_title(value, property_map=…)`
unfoldable mutual
  pub contains_title : Bool → Json → Bool
  contains_title property_map (object fs) = contains_title_fields property_map fs
  contains_title property_map (array xs) = contains_title_items xs
  contains_title property_map _ = false

  pub contains_title_items : Items → Bool
  contains_title_items nil = false
  contains_title_items (cons x xs) = contains_title false x || contains_title_items xs

  pub contains_title_fields : Bool → Fields → Bool
  contains_title_fields property_map end = false
  contains_title_fields true (field k v fs) =
      contains_title false v || contains_title_fields true fs
  contains_title_fields false (field k v fs) =
      k == "title" || contains_title (k == "properties") v || contains_title_fields false fs

-- `_normalize_json_schema_value(value, property_map=…)`
unfoldable mutual
  pub normalize : Bool → Json → Json
  normalize property_map (object fs) = object (normalize_fields property_map fs)
  normalize property_map (array xs) = array (normalize_items xs)
  normalize property_map null = null
  normalize property_map (bool b) = bool b
  normalize property_map (nat n) = nat n
  normalize property_map (number s) = number s
  normalize property_map (text s) = text s

  pub normalize_items : Items → Items
  normalize_items nil = nil
  normalize_items (cons x xs) = cons (normalize false x) (normalize_items xs)

  pub normalize_fields : Bool → Fields → Fields
  normalize_fields property_map end = end
  normalize_fields true (field k v fs) = field k (normalize false v) (normalize_fields true fs)
  normalize_fields false (field k v fs) =
      let rest = normalize_fields false fs in
      if k == "title" then rest else field k (normalize (k == "properties") v) rest

unfoldable pub insert_field : String → Json → Fields → Fields
insert_field k v end = field k v end
insert_field k v (field j w fs) =
    if str_le k j then field k v (field j w fs) else field j w (insert_field k v fs)

-- `_sort_json_keys`
unfoldable mutual
  unfolding insert_field

  pub sort_keys : Json → Json
  sort_keys (object fs) = object (sort_fields fs)
  sort_keys (array xs) = array (sort_items xs)
  sort_keys null = null
  sort_keys (bool b) = bool b
  sort_keys (nat n) = nat n
  sort_keys (number s) = number s
  sort_keys (text s) = text s

  pub sort_items : Items → Items
  sort_items nil = nil
  sort_items (cons x xs) = cons (sort_keys x) (sort_items xs)

  pub sort_fields : Fields → Fields
  sort_fields end = end
  sort_fields (field k v fs) = insert_field k (sort_keys v) (sort_fields fs)

-- `value == "…"` and `value is False` of a field that may be missing
abbrev pub is_text : Option Json → String → Bool
is_text (some (text s)) t = s == t
is_text _ t = false

abbrev pub is_false : Option Json → Bool
is_false (some (bool false)) = true
is_false _ = false

abbrev pub is_object : Option Json → Bool
is_object (some (object fs)) = true
is_object _ = false

finish_schema : Fields → Result String Json
finish_schema fs = do
  guard (is_text (field_get fs "type") "object") "tool schemas must use an object root"
  ok (object (sort_fields fs))

-- `normalize_json_schema`; a `ValueError` is raised with its message
unfoldable pub normalize_json_schema : Json → Result String Json
unfolding finish_schema
normalize_json_schema (object fs) =
    finish_schema (field_put (normalize_fields false fs) "$schema" (text json_schema_dialect))
normalize_json_schema _ = raise "tool schemas must serialize to JSON objects"

-- The checks of `enforce_schema_roots` for one schema.
unfoldable pub enforce_schema_root : Json → Result String (Unit {0})
enforce_schema_root (object fs) = do
  guard (is_text (field_get fs "$schema") json_schema_dialect) "must declare JSON Schema 2020-12"
  guard (is_text (field_get fs "type") "object") "must use an object root"
  guard (is_false (field_get fs "additionalProperties")) "must reject additional properties"
  guard (is_object (field_get fs "properties")) "must declare object properties"
  guard (not (contains_title false (object fs))) "must not contain generated titles"
enforce_schema_root _ = raise "must declare JSON Schema 2020-12"
