-- ===== src/Protocol/Schema/Titles.antt =====
-- Generated titles in the schemas of models.py, through `_normalize_json_schema_value` and
-- `_sort_json_keys`.
use goffy_os.Prelude.{
  String, ◌≡◌, refl, Bool, true, false, ◌||◌, arith, ◌==◌, string_eq, Bool-cases, inl, inr,
}
use goffy_os.Prelude.Sorting.{str_le}
use goffy_os.Protocol.Values.{
  Json, null, bool, nat, number, text, array, object, Items, nil, cons, Fields, end, field,
}
use goffy_os.Protocol.Schema.{
  field_put, contains_title, contains_title_items, contains_title_fields, normalize,
  normalize_items, normalize_fields, insert_field, sort_keys, sort_items, sort_fields,
}

mutual
  unfolding contains_title contains_title_items contains_title_fields normalize normalize_items
      normalize_fields

  contains_title-normalize_any : (b : Bool) (v : Json) → contains_title b (normalize b v) ≡ false
  contains_title-normalize_any b (object fs) = contains_title-normalize_fields b fs
  contains_title-normalize_any b (array xs) = contains_title-normalize_items xs
  contains_title-normalize_any b null = refl
  contains_title-normalize_any b (bool x) = refl
  contains_title-normalize_any b (nat n) = refl
  contains_title-normalize_any b (number s) = refl
  contains_title-normalize_any b (text s) = refl

  contains_title-normalize_items : (xs : Items) → contains_title_items (normalize_items xs) ≡ false
  contains_title-normalize_items nil = refl
  contains_title-normalize_items (cons x xs) =
      ground (arith, contains_title-normalize_any false x, contains_title-normalize_items xs)

  contains_title-normalize_fields :
      (b : Bool) (fs : Fields) → contains_title_fields b (normalize_fields b fs) ≡ false
  contains_title-normalize_fields b end = refl
  contains_title-normalize_fields true (field k v fs) =
      ground (arith, contains_title-normalize_any false v, contains_title-normalize_fields true fs)
  contains_title-normalize_fields false (field k v fs) = ground (
    arith,
    contains_title-normalize_any (k == "properties") v,
    contains_title-normalize_fields false fs,
  )

pub contains_title-normalize :
    (fs : Fields) → contains_title_fields false (normalize_fields false fs) ≡ false
contains_title-normalize fs = contains_title-normalize_fields false fs

-- Whether an entry of an object that is no property map carries a title.
carries : String → Json → Bool
carries k v = k == "title" || contains_title (k == "properties") v

or_left_comm : (a b c : Bool) → (a || (b || c)) ≡ (b || (a || c))
or_left_comm a b c = ground arith

contains_title-field :
    (k : String) (v : Json) (fs : Fields)
    → contains_title_fields false (field k v fs) ≡ (carries k v || contains_title_fields false fs)
unfolding contains_title_fields carries
contains_title-field k v fs = refl

contains_title-insert_field :
    (k : String) (v : Json) (fs : Fields)
    → contains_title_fields false (insert_field k v fs) ≡ contains_title_fields false (field k v fs)
unfolding insert_field
contains_title-insert_field k v end = refl
contains_title-insert_field k v (field j w fs) = elim (Bool-cases (str_le k j)) [
  | inl before ↦ rw before
  | inr after ↦ rw after (
      simp (contains_title-field, contains_title-insert_field k v fs)
        (or_left_comm (carries j w) (carries k v) (contains_title_fields false fs)))
]

contains_title-property :
    (k : String) (v : Json) (fs : Fields)
    → contains_title_fields true (field k v fs)
      ≡ (contains_title false v || contains_title_fields true fs)
unfolding contains_title_fields
contains_title-property k v fs = refl

contains_title-insert_property :
    (k : String) (v : Json) (fs : Fields)
    → contains_title_fields true (insert_field k v fs) ≡ contains_title_fields true (field k v fs)
unfolding insert_field
contains_title-insert_property k v end = refl
contains_title-insert_property k v (field j w fs) = elim (Bool-cases (str_le k j)) [
  | inl before ↦ rw before
  | inr after ↦ rw after (
      simp (contains_title-property, contains_title-insert_property k v fs)
        (or_left_comm (contains_title false w) (contains_title false v)
          (contains_title_fields true fs)))
]

mutual
  unfolding contains_title contains_title_items contains_title_fields sort_keys sort_items
      sort_fields

  contains_title-sort_any :
      (b : Bool) (v : Json) → contains_title b (sort_keys v) ≡ contains_title b v
  contains_title-sort_any b (object fs) = contains_title-sort_fields b fs
  contains_title-sort_any b (array xs) = contains_title-sort_items xs
  contains_title-sort_any b null = refl
  contains_title-sort_any b (bool x) = refl
  contains_title-sort_any b (nat n) = refl
  contains_title-sort_any b (number s) = refl
  contains_title-sort_any b (text s) = refl

  contains_title-sort_items :
      (xs : Items) → contains_title_items (sort_items xs) ≡ contains_title_items xs
  contains_title-sort_items nil = refl
  contains_title-sort_items (cons x xs) =
      ground (arith, contains_title-sort_any false x, contains_title-sort_items xs)

  contains_title-sort_fields :
      (b : Bool) (fs : Fields)
      → contains_title_fields b (sort_fields fs) ≡ contains_title_fields b fs
  contains_title-sort_fields b end = refl
  contains_title-sort_fields true (field k v fs) = ground (
    arith,
    contains_title-insert_property k (sort_keys v) (sort_fields fs),
    contains_title-sort_any false v,
    contains_title-sort_fields true fs,
  )
  contains_title-sort_fields false (field k v fs) = ground (
    arith,
    contains_title-insert_field k (sort_keys v) (sort_fields fs),
    contains_title-sort_any (k == "properties") v,
    contains_title-sort_fields false fs,
  )

pub contains_title-sort :
    (fs : Fields) → contains_title_fields false (sort_fields fs) ≡ contains_title_fields false fs
contains_title-sort fs = contains_title-sort_fields false fs

carries-text : (k s : String) → (k == "title") ≡ false → carries k (text s) ≡ false
unfolding carries contains_title
carries-text k s h = rw h

or_false : (a b : Bool) → (a || b) ≡ false → b ≡ false
or_false a b h = ground arith

-- Setting a key that is not `title` to a plain text brings no title.
pub contains_title-field_put :
    (fs : Fields) (k s : String)
    → (k == "title") ≡ false
    → contains_title_fields false fs ≡ false
    → contains_title_fields false (field_put fs k (text s)) ≡ false
unfolding field_put
contains_title-field_put end k s h free = rw (contains_title-field, carries-text k s h) free
contains_title-field_put (field j w fs) k s h free = elim (Bool-cases (j == k)) [
  | inl hit ↦
      rw (hit, contains_title-field, carries-text k s h)
        (or_false (carries j w) _ (rw (← contains_title-field) free))
  | inr miss ↦
      rw (miss, contains_title-field)
        (ground (
          arith,
          contains_title-field j w fs,
          contains_title-field_put fs k s h
              (or_false (carries j w) _ (rw (← contains_title-field) free)),
        ))
]
