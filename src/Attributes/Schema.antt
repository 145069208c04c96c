-- ===== src/Attributes/Schema.antt =====
-- The schema of the attributes of rust/fcb_core/src/writer/attribute.rs: `guess_type` and
-- `add_attributes`, and the codec with the columns of a schema that was made with them.
use flatcitybuf.Prelude.{
  ℕ, suc, ◌+◌, ◌%◌, ◌^◌, ◌≤◌, ◌<◌, ◌≡◌, refl, sym, ap, ◌∙◌, arith, Bool, true, false, not, ◌&&◌,
  List, [], ◌∷◌, ◌++◌, Option, none, some, length, length-append, le→leb, if◌then◌else◌, Bool-cases,
  inl, inr, All,
}
use mathlib.Core.Bool.{false≢true}
use mathlib.Core.Path.{subst}
use flatcitybuf.Error.{ok}
use flatcitybuf.Attributes.{
  ColumnType, Json, Column, same_name, sort_columns, insert_by_index, find_value,
  encode_attributes_with_schema, decode_attributes,
}
use flatcitybuf.Attributes.Value.{JsonLaws}
use flatcitybuf.Attributes.RoundTrip.{IsIndexed, Fits, stored, decode_attributes-encode_columns}

-- `HashMap::contains_key`
unfoldable pub has_column : List ℕ → List Column → Bool
has_column name [] = false
has_column name (c ∷ columns) = if same_name c.name name then true else has_column name columns

-- `HashMap::insert`: a column of that name is replaced.
unfoldable pub insert_column : Column → List Column → List Column
insert_column column [] = column ∷ []
insert_column column (c ∷ columns) =
    if same_name c.name column.name then column ∷ columns else c ∷ insert_column column columns

-- The name "json".
abbrev pub json_name : List ℕ
json_name = 106 ∷ 115 ∷ 111 ∷ 110 ∷ []

module _ {V : Type 0} ⦃js : Json V⦄ where
  abbrev pub number_type : V → ColumnType
  number_type v =
      if js.is_f64 v
      then ColumnType.double
      else if js.is_u64 v
      then ColumnType.ulong
      else if js.is_i64 v
      then ColumnType.long
      else ColumnType.ulong

  abbrev pub composite_type : V → Option ColumnType
  composite_type v =
      if js.is_array v
      then some ColumnType.json
      else elim (js.as_object v) [ none ↦ none | some attrs ↦ some ColumnType.json ]

  abbrev pub string_type : V → Option ColumnType
  string_type v = elim (js.as_str v) [
    | none ↦ composite_type v
    | some s ↦ some (if js.is_rfc3339 s then ColumnType.date_time else ColumnType.string)
  ]

  unfoldable pub guess_type : V → Option ColumnType
  guess_type v = elim (js.as_bool v) [
    | none ↦ if js.is_number v then some (number_type v) else string_type v
    | some b ↦ some ColumnType.bool
  ]

  -- One member of the object; the index is `self.len() as u16`.
  unfoldable pub add_attribute : List ℕ → V → List Column → List Column
  unfolding insert_column has_column guess_type
  add_attribute name v schema =
      if not (has_column name schema) && not (js.is_null v)
      then elim (guess_type v) [
        | none ↦ schema
        | some t ↦
            insert_column (record { name = name; index = length schema % 2 ^ 16; column_type = t })
              schema
      ]
      else schema

  abbrev pub add_members : List (List ℕ × V) → List Column → List Column
  add_members [] schema = schema
  add_members ((name, v) ∷ attrs) schema = add_members attrs (add_attribute name v schema)

  unfoldable pub add_attributes : V → List Column → List Column
  unfolding add_attribute
  add_attributes v schema = elim (js.as_object v) [
    | none ↦
        insert_column
          (record {
            name = json_name;
            index = length schema % 2 ^ 16;
            column_type = ColumnType.json;
          })
          schema
    | some attrs ↦ add_members attrs schema
  ]

-- A new column comes behind the others.
insert_column-new :
    (column : Column) (schema : List Column)
    → has_column column.name schema ≡ false
    → insert_column column schema ≡ schema ++ (column ∷ [])
unfolding insert_column has_column
insert_column-new column [] h = refl
insert_column-new column (c ∷ columns) h = elim (Bool-cases (same_name c.name column.name)) [
  | inl same ↦ absurd (false≢true (sym (rw same at h)))
  | inr differ ↦
      rw differ
        (ap (λ (t : List Column). c ∷ t) (insert_column-new column columns (rw differ at h)))
]

IsIndexed-last :
    (id : ℕ) (schema : List Column) (column : Column)
    → IsIndexed id schema
    → column.index ≡ id + length schema
    → IsIndexed id (schema ++ (column ∷ []))
IsIndexed-last id [] column h e = (omega arith, tt)
IsIndexed-last id (c ∷ schema) column (here, h) e =
    (here, IsIndexed-last (suc id) schema column h (omega arith))

insert_by_index-first :
    (id : ℕ) (column : Column) (columns : List Column)
    → column.index ≡ id
    → IsIndexed (suc id) columns
    → insert_by_index column columns ≡ column ∷ columns
unfolding insert_by_index
insert_by_index-first id column [] e h = refl
insert_by_index-first id column (c ∷ columns) e (here, h) =
    rw (le→leb column.index c.index (omega arith)) refl

-- Columns in the order of their indices are sorted.
sort_columns-IsIndexed :
    (id : ℕ) (columns : List Column) → IsIndexed id columns → sort_columns columns ≡ columns
unfolding sort_columns
sort_columns-IsIndexed id [] h = refl
sort_columns-IsIndexed id (column ∷ columns) (here, h) =
    ap (insert_by_index column) (sort_columns-IsIndexed (suc id) columns h)
    ∙ insert_by_index-first id column columns here h

-- A schema whose columns have their places as indices, and a bound on their number.
abbrev pub IsSchema : ℕ → List Column → Type 0
IsSchema n schema = IsIndexed 0 schema × (length schema ≤ n)

module _ {V : Type 0} ⦃js : Json V⦄ where
  stored_nothing : (columns : List Column) → stored {V = V} columns [] [] ≡ []
  unfolding stored find_value
  stored_nothing [] = refl
  stored_nothing (column ∷ columns) = stored_nothing columns

  guessed :
      (name : List ℕ) (v : V) (schema : List Column) (n : ℕ) (o : Option ColumnType)
      → n < 2 ^ 16
      → has_column name schema ≡ false
      → IsSchema n schema
      → IsSchema (suc n) (elim o [
        | none ↦ schema
        | some t ↦
            insert_column
              (record { name = name; index = length schema % 2 ^ 16; column_type = t })
              schema
      ])
  guessed name v schema n none few new (indexed, size) = (indexed, omega arith)
  guessed name v schema n (some t) few new (indexed, size) =
      let column : Column = record {
        name = name;
        index = length schema % 2 ^ 16;
        column_type = t;
      } in
      rw (insert_column-new column schema new) (
        IsIndexed-last 0 schema column indexed (omega arith),
        omega (arith, length-append schema (column ∷ [])),
      )

  add_attribute-IsSchema :
      (name : List ℕ) (v : V) (schema : List Column) (n : ℕ)
      → n < 2 ^ 16
      → IsSchema n schema
      → IsSchema (suc n) (add_attribute name v schema)
  unfolding add_attribute
  add_attribute-IsSchema name v schema n few (indexed, size) =
      elim (Bool-cases (has_column name schema)) [
        | inl known ↦ rw known (indexed, omega arith)
        | inr new ↦ elim (Bool-cases (js.is_null v)) [
          | inl null ↦ rw (new, null) (indexed, omega arith)
          | inr value ↦
              rw (new, value) (guessed name v schema n (guess_type v) few new (indexed, size))
        ]
      ]

  add_members-IsSchema :
      (attrs : List (List ℕ × V)) (schema : List Column) (n : ℕ)
      → n + length attrs < 2 ^ 16
      → IsSchema n schema
      → IsSchema (n + length attrs) (add_members attrs schema)
  add_members-IsSchema [] schema n few (indexed, size) = (indexed, omega arith)
  add_members-IsSchema ((name, v) ∷ attrs) schema n few known =
      let next : suc n + length attrs ≡ n + suc (length attrs) = omega arith in
      subst (λ x. IsSchema x (add_members attrs (add_attribute name v schema))) next
        (add_members-IsSchema attrs (add_attribute name v schema) (suc n) (omega arith)
          (add_attribute-IsSchema name v schema n (omega arith) known))

  -- The members of an object are added to a schema whose columns have their places as indices, with
  -- fewer than 2 ^ 16 columns and members: the columns have their places as indices again, and there
  -- is at most one more for each member.
  pub add_attributes-IsSchema :
      (v : V) (attrs : List (List ℕ × V)) (schema : List Column)
      → js.as_object v ≡ some attrs
      → length schema + length attrs < 2 ^ 16
      → IsIndexed 0 schema
      → IsSchema (length schema + length attrs) (add_attributes v schema)
  unfolding add_attributes
  add_attributes-IsSchema v attrs schema object few indexed =
      rw (add_attributes, object)
        (add_members-IsSchema attrs schema (length schema) few (indexed, omega arith))

  -- For values with the laws `JsonLaws` of serde_json: the attributes of an object are written with
  -- a schema whose columns have their places as indices, fewer than 2 ^ 16, and are none of the
  -- types Byte, UByte and Binary when they have a value that is not null, which they then hold
  -- without loss (a number in the range of the type, UTF-8 text of less than 2 ^ 32 bytes); they are
  -- read back from the bytes with these columns: the values in columns that are not null, and no
  -- other.
  pub decode_attributes-encode_attributes_with_schema :
      (laws : JsonLaws js) (schema : List Column) (attr : V) (attrs : List (List ℕ × V))
      → js.as_object attr ≡ some attrs
      → length schema < 2 ^ 16
      → IsIndexed 0 schema
      → All (Fits attrs) schema
      → (bytes : List ℕ) × (encode_attributes_with_schema attr schema ≡ ok bytes)
        × (decode_attributes (length bytes) schema bytes [] ≡ ok (stored schema attrs []))
  unfolding encode_attributes_with_schema decode_attributes
  decode_attributes-encode_attributes_with_schema laws schema attr [] object few indexed fits =
      ([], rw (encode_attributes_with_schema, object) refl, ap ok (sym (stored_nothing schema)))
  decode_attributes-encode_attributes_with_schema laws schema attr (a ∷ attrs) object few indexed
        fits =
      let (bytes, encoded, decoded) =
        decode_attributes-encode_columns laws schema few (a ∷ attrs) indexed fits in
      (
        bytes,
        rw (encode_attributes_with_schema, object, sort_columns-IsIndexed 0 schema indexed) encoded,
        decoded,
      )
