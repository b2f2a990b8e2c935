-- ===== src/Protocol/Schema/Roots.antt =====
-- `normalize_json_schema` of models.py beside `ToolCapability.enforce_schema_roots`.
use mathlib.Core.Option
use goffy_os.Prelude.{
  String, ◌≡◌, refl, ap, Bool, true, false, Option, none, some, arith, ◌==◌, string_eq, eq_iff,
  if◌then◌else◌, Bool-cases, inl, inr, ==_to_eq, ==_refl,
}
use goffy_os.Prelude.Result.{ok}
use goffy_os.Prelude.Sorting.{str_le, str_le_refl}
use goffy_os.Protocol.Values.{Json, null, bool, text, object, Fields, end, field}
use goffy_os.Protocol.Schema.{
  field_get, field_put, contains_title, contains_title_fields, normalize, normalize_fields,
  insert_field, sort_keys, sort_fields, is_false, is_object, is_text, normalize_json_schema,
  enforce_schema_root, json_schema_dialect,
}
use goffy_os.Protocol.Schema.Titles.{
  contains_title-normalize, contains_title-sort, contains_title-field_put,
}

get-field_put :
    (fs : Fields) (k j : String) (v : Json)
    → field_get (field_put fs k v) j ≡ (if k == j then some v else field_get fs j)
unfolding field_get field_put
get-field_put end k j v = refl
get-field_put (field i w fs) k j v =
    ground (arith, eq_iff i k, eq_iff k j, eq_iff i j, get-field_put fs k j v)

str_le-false : (k i : String) → str_le k i ≡ false → (i == k) ≡ false
str_le-false k i h = elim (Bool-cases (i == k)) [
  | inl same ↦ cc (str_le_refl k, ap (str_le k) (==_to_eq i k same))
  | inr other ↦ other
]

get-insert_field :
    (fs : Fields) (k j : String) (v : Json)
    → field_get (insert_field k v fs) j ≡ (if k == j then some v else field_get fs j)
unfolding field_get insert_field
get-insert_field end k j v = refl
get-insert_field (field i w fs) k j v = elim (Bool-cases (str_le k i)) [
  | inl before ↦ rw before
  | inr after ↦ rw after (
      ground (
        arith,
        str_le-false k i after,
        eq_iff i k,
        eq_iff k j,
        eq_iff i j,
        get-insert_field fs k j v,
      ))
]

sort_fields-field :
    (k : String) (v : Json) (fs : Fields)
    → sort_fields (field k v fs) ≡ insert_field k (sort_keys v) (sort_fields fs)
unfolding sort_fields
sort_fields-field k v fs = refl

get-sort_fields :
    (fs : Fields) (j : String)
    → field_get (sort_fields fs) j ≡ Option.map sort_keys (field_get fs j)
unfolding field_get
get-sort_fields end j = unfold sort_fields in refl
get-sort_fields (field k v fs) j =
    rw (sort_fields-field, get-insert_field) (ground (arith, get-sort_fields fs j))

normalize_fields-field :
    (k : String) (v : Json) (fs : Fields)
    → normalize_fields false (field k v fs) ≡ (
        if k == "title"
        then normalize_fields false fs
        else field k (normalize (k == "properties") v) (normalize_fields false fs))
unfolding normalize_fields
normalize_fields-field k v fs = refl

get-normalize_fields :
    (fs : Fields) (j : String)
    → (j == "title") ≡ false
    → field_get (normalize_fields false fs) j
      ≡ Option.map (normalize (j == "properties")) (field_get fs j)
unfolding field_get
get-normalize_fields end j h = unfold normalize_fields in refl
get-normalize_fields (field k v fs) j h = elim (Bool-cases (k == j)) [
  | inl same ↦ rw (normalize_fields-field, ==_to_eq k j same, h) (rw (==_refl {A = String} j) refl)
  | inr other ↦ rw normalize_fields-field (ground (arith, get-normalize_fields fs j h))
]

is_text-sort : (o : Option Json) (t : String) → is_text (Option.map sort_keys o) t ≡ is_text o t
unfolding sort_keys
is_text-sort none t = refl
is_text-sort (some null) t = refl
is_text-sort (some _) t = refl

is_text-normalize :
    (b : Bool) (o : Option Json) (t : String) → is_text (Option.map (normalize b) o) t ≡ is_text o t
unfolding normalize
is_text-normalize b none t = refl
is_text-normalize b (some null) t = refl
is_text-normalize b (some _) t = refl

is_false-sort : (o : Option Json) → is_false (Option.map sort_keys o) ≡ is_false o
unfolding sort_keys
is_false-sort none = refl
is_false-sort (some null) = refl
is_false-sort (some (bool b)) = refl
is_false-sort (some _) = refl

is_false-normalize :
    (b : Bool) (o : Option Json) → is_false (Option.map (normalize b) o) ≡ is_false o
unfolding normalize
is_false-normalize b none = refl
is_false-normalize b (some null) = refl
is_false-normalize b (some _) = refl

is_object-sort : (o : Option Json) → is_object (Option.map sort_keys o) ≡ is_object o
unfolding sort_keys
is_object-sort none = refl
is_object-sort (some null) = refl
is_object-sort (some _) = refl

is_object-normalize :
    (b : Bool) (o : Option Json) → is_object (Option.map (normalize b) o) ≡ is_object o
unfolding normalize
is_object-normalize b none = refl
is_object-normalize b (some null) = refl
is_object-normalize b (some _) = refl

-- The fields of the schema before it is sorted.
abbrev prepared : Fields → Fields
prepared fs = field_put (normalize_fields false fs) "$schema" (text json_schema_dialect)

title_free : (fs : Fields) → contains_title_fields false (sort_fields (prepared fs)) ≡ false
title_free fs = rw contains_title-sort (
    contains_title-field_put (normalize_fields false fs) "$schema" json_schema_dialect refl
      (contains_title-normalize fs))

get-prepared :
    (fs : Fields) (k : String)
    → (k == "title") ≡ false
    → ("$schema" == k) ≡ false
    → field_get (sort_fields (prepared fs)) k
      ≡ Option.map sort_keys (Option.map (normalize (k == "properties")) (field_get fs k))
get-prepared fs k h ne = rw (get-sort_fields, get-field_put, ne, get-normalize_fields fs k h)

get-dialect :
    (fs : Fields)
    → is_text (field_get (sort_fields (prepared fs)) "$schema") json_schema_dialect ≡ true
get-dialect fs = rw (get-sort_fields, get-field_put) (rw is_text-sort refl)

type_kept :
    (fs : Fields)
    → is_text (field_get (prepared fs) "type") "object" ≡ is_text (field_get fs "type") "object"
type_kept fs = rw (get-field_put, get-normalize_fields fs "type" refl) (is_text-normalize _ _ _)

-- Whatever schema goes in, what comes out carries no generated title, at any depth.
pub normalize_title_free :
    (schema normalized : Json)
    → normalize_json_schema schema ≡ ok normalized
    → contains_title false normalized ≡ false
unfolding normalize_json_schema
normalize_title_free (object fs) normalized h =
    let same : normalized ≡ object (sort_fields (prepared fs)) = ground arith in
    rw same (unfold contains_title in title_free fs)
normalize_title_free null normalized h = cc
normalize_title_free _ normalized h = cc

-- A schema with an object root that declares its properties and rejects others is normalised to
-- one that passes every check of `enforce_schema_roots`.
pub normalize-enforce :
    (fs : Fields)
    → is_text (field_get fs "type") "object" ≡ true
    → is_false (field_get fs "additionalProperties") ≡ true
    → is_object (field_get fs "properties") ≡ true
    → (normalized : Json) × (normalize_json_schema (object fs) ≡ ok normalized)
      × (enforce_schema_root normalized ≡ ok tt)
unfolding normalize_json_schema enforce_schema_root
normalize-enforce fs t a p =
    let type_is : is_text (field_get (sort_fields (prepared fs)) "type") "object" ≡ true =
      rw (get-prepared fs "type" refl refl, is_text-sort, is_text-normalize) t in
    let closed : is_false (field_get (sort_fields (prepared fs)) "additionalProperties") ≡ true =
      rw (get-prepared fs "additionalProperties" refl refl, is_false-sort, is_false-normalize) a in
    let declared : is_object (field_get (sort_fields (prepared fs)) "properties") ≡ true =
      rw (get-prepared fs "properties" refl refl, is_object-sort, is_object-normalize) p in
    (
      object (sort_fields (prepared fs)),
      rw (type_kept, t),
      rw (get-dialect fs, type_is, closed, declared) (unfold contains_title in rw (title_free fs)),
    )
