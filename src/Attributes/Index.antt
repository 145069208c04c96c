-- ===== src/Attributes/Index.antt =====
-- `attribute_to_index_entries` of rust/fcb_core/src/writer/attribute.rs: the keys of the attribute
-- indices. The dates of the crate chrono are a parameter.
use flatcitybuf.Prelude.{
  ℕ, ◌%◌, ◌^◌, ◌≡◌, refl, sym, ap, arith, Bool, false, List, [], ◌∷◌, Option, none, some,
  if◌then◌else◌, All,
}
use flatcitybuf.Attributes.{
  ColumnType, Json, Column, unwrap_or, same_name, sign_extend, find_value, no_attributes,
}
use flatcitybuf.Attributes.Value.{JsonLaws, Holds, sign_extend_32, sign_extend_32-word}

-- The variants that are made; a date is a `D`.
pub data AttributeIndexEntry (D : Type 0) : Type 0 where
  bool_entry : ℕ → Bool → AttributeIndexEntry D
  int_entry : ℕ → ℕ → AttributeIndexEntry D
  uint_entry : ℕ → ℕ → AttributeIndexEntry D
  long_entry : ℕ → ℕ → AttributeIndexEntry D
  ulong_entry : ℕ → ℕ → AttributeIndexEntry D
  float_entry : ℕ → ℕ → AttributeIndexEntry D
  double_entry : ℕ → ℕ → AttributeIndexEntry D
  string_entry : ℕ → List ℕ → AttributeIndexEntry D
  date_time_entry : ℕ → D → AttributeIndexEntry D

-- A variant, the index of a column and a key.
abbrev pub EntryKey : Type 0 → Type 0
EntryKey V = ColumnType × ℕ × Option V

-- `HashMap::get`
unfoldable pub get_column : List ℕ → List Column → Option Column
get_column name [] = none
get_column name (c ∷ columns) = if same_name c.name name then some c else get_column name columns

module _ {V : Type 0} ⦃js : Json V⦄ {D : Type 0} (parse_from_rfc3339 : List ℕ → Option D)
    (epoch : D) where
  -- The `match` on the type of a column.
  unfoldable pub index_entry : ColumnType → ℕ → V → Option (AttributeIndexEntry D)
  index_entry ColumnType.bool i v = some (bool_entry i (unwrap_or false (js.as_bool v)))
  index_entry ColumnType.int i v = some (int_entry i (unwrap_or 0 (js.as_i64 v) % 2 ^ 32))
  index_entry ColumnType.uint i v = some (uint_entry i (unwrap_or 0 (js.as_u64 v) % 2 ^ 32))
  index_entry ColumnType.long i v = some (long_entry i (unwrap_or 0 (js.as_i64 v)))
  index_entry ColumnType.ulong i v = some (ulong_entry i (unwrap_or 0 (js.as_u64 v)))
  index_entry ColumnType.float i v =
      some (float_entry i (js.f64_as_f32 (unwrap_or 0 (js.as_f64 v))))
  index_entry ColumnType.double i v = some (double_entry i (unwrap_or 0 (js.as_f64 v)))
  index_entry ColumnType.string i v = some (string_entry i (unwrap_or [] (js.as_str v)))
  index_entry ColumnType.date_time i v =
      some (date_time_entry i (unwrap_or epoch (parse_from_rfc3339 (unwrap_or [] (js.as_str v)))))
  index_entry ColumnType.byte i v = none
  index_entry ColumnType.ubyte i v = none
  index_entry ColumnType.short i v = none
  index_entry ColumnType.ushort i v = none
  index_entry ColumnType.json i v = none
  index_entry ColumnType.binary i v = none

  -- The body of the loop, for one name.
  unfoldable pub entry_for :
      List (List ℕ × V) → List Column → List ℕ → Option (AttributeIndexEntry D)
  unfolding index_entry get_column find_value
  entry_for map schema name = elim (find_value name map) [
    | none ↦ none
    | some v ↦ elim (get_column name schema) [
      | none ↦ none
      | some column ↦ index_entry column.column_type column.index v
    ]
  ]

  unfoldable pub index_entries :
      List (List ℕ × V) → List Column → List (List ℕ) → List (AttributeIndexEntry D)
  unfolding entry_for
  index_entries map schema [] = []
  index_entries map schema (name ∷ names) = elim (entry_for map schema name) [
    | none ↦ index_entries map schema names
    | some entry ↦ entry ∷ index_entries map schema names
  ]

  -- A value that is not an object gives no entries.
  unfoldable pub attribute_to_index_entries :
      V → List Column → List (List ℕ) → List (AttributeIndexEntry D)
  unfolding index_entries
  attribute_to_index_entries attr schema indexing_attr = elim (js.as_object attr) [
    | none ↦ []
    | some map ↦ if no_attributes map then [] else index_entries map schema indexing_attr
  ]

  -- The variant, the index of the column and the key as a JSON value; a date is not turned back.
  abbrev pub key_of : AttributeIndexEntry D → EntryKey V
  key_of (bool_entry i b) = (ColumnType.bool, i, some (js.from_bool b))
  key_of (int_entry i x) = (ColumnType.int, i, some (js.from_i64 (sign_extend 32 x)))
  key_of (uint_entry i x) = (ColumnType.uint, i, some (js.from_u64 x))
  key_of (long_entry i x) = (ColumnType.long, i, some (js.from_i64 x))
  key_of (ulong_entry i x) = (ColumnType.ulong, i, some (js.from_u64 x))
  key_of (float_entry i x) = (ColumnType.float, i, js.from_f64 (js.f32_as_f64 x))
  key_of (double_entry i x) = (ColumnType.double, i, js.from_f64 x)
  key_of (string_entry i s) = (ColumnType.string, i, some (js.from_string s))
  key_of (date_time_entry i d) = (ColumnType.date_time, i, none)

  abbrev pub keys_of : List (AttributeIndexEntry D) → List (EntryKey V)
  keys_of [] = []
  keys_of (e ∷ entries) = key_of e ∷ keys_of entries

  abbrev pub option_key : Option (AttributeIndexEntry D) → Option (EntryKey V)
  option_key none = none
  option_key (some e) = some (key_of e)

-- What the index of a column has for a value.
abbrev pub value_key : {V : Type 0} → ColumnType → ℕ → V → Option (EntryKey V)
value_key ColumnType.bool i v = some (ColumnType.bool, i, some v)
value_key ColumnType.int i v = some (ColumnType.int, i, some v)
value_key ColumnType.uint i v = some (ColumnType.uint, i, some v)
value_key ColumnType.long i v = some (ColumnType.long, i, some v)
value_key ColumnType.ulong i v = some (ColumnType.ulong, i, some v)
value_key ColumnType.float i v = some (ColumnType.float, i, some v)
value_key ColumnType.double i v = some (ColumnType.double, i, some v)
value_key ColumnType.string i v = some (ColumnType.string, i, some v)
value_key ColumnType.date_time i v = some (ColumnType.date_time, i, none)
value_key ColumnType.byte i v = none
value_key ColumnType.ubyte i v = none
value_key ColumnType.short i v = none
value_key ColumnType.ushort i v = none
value_key ColumnType.json i v = none
value_key ColumnType.binary i v = none

-- The key of the value of an attribute, if it has a value, and a column of a type with an index.
abbrev pub key_for :
    {V : Type 0} ⦃js : Json V⦄ → List (List ℕ × V) → List Column → List ℕ → Option (EntryKey V)
key_for map schema name = elim (find_value name map) [
  | none ↦ none
  | some v ↦ elim (get_column name schema) [
    | none ↦ none
    | some column ↦ value_key column.column_type column.index v
  ]
]

-- The keys of a list of attributes, in its order.
abbrev pub attribute_keys :
    {V : Type 0} ⦃js : Json V⦄ → List (List ℕ × V) → List Column → List (List ℕ) → List (EntryKey V)
attribute_keys map schema [] = []
attribute_keys map schema (name ∷ names) = elim (key_for map schema name) [
  | none ↦ attribute_keys map schema names
  | some key ↦ key ∷ attribute_keys map schema names
]

-- A column of a type with an index, but for dates, holds the value without loss.
abbrev pub HoldsKey : {V : Type 0} ⦃js : Json V⦄ → ColumnType → V → Type 0
HoldsKey ColumnType.bool v = Holds ColumnType.bool v
HoldsKey ColumnType.int v = Holds ColumnType.int v
HoldsKey ColumnType.uint v = Holds ColumnType.uint v
HoldsKey ColumnType.long v = Holds ColumnType.long v
HoldsKey ColumnType.ulong v = Holds ColumnType.ulong v
HoldsKey ColumnType.float v = Holds ColumnType.float v
HoldsKey ColumnType.double v = Holds ColumnType.double v
HoldsKey ColumnType.string v = Holds ColumnType.string v
HoldsKey c v = Unit {0}

-- The value of an attribute can be held by its column, if the column is to be indexed.
abbrev pub FitsColumn :
    {V : Type 0} ⦃js : Json V⦄ → List (List ℕ × V) → List Column → List ℕ → Type 0
FitsColumn {V = V} map schema name =
    (v : V) (column : Column)
    → find_value name map ≡ some v
    → get_column name schema ≡ some column
    → HoldsKey column.column_type v

no_keys :
    {V : Type 0} ⦃js : Json V⦄ (schema : List Column) (names : List (List ℕ))
    → attribute_keys {V = V} [] schema names ≡ []
unfolding find_value
no_keys schema [] = refl
no_keys schema (name ∷ names) = no_keys schema names

module _ {V : Type 0} ⦃js : Json V⦄ {D : Type 0} (parse_from_rfc3339 : List ℕ → Option D)
    (epoch : D) (laws : JsonLaws js) where
  index_entry_lem :
      (c : ColumnType) (i : ℕ) (v : V)
      → HoldsKey c v
      → option_key parse_from_rfc3339 epoch (index_entry parse_from_rfc3339 epoch c i v)
        ≡ value_key c i v
  unfolding index_entry
  index_entry_lem ColumnType.bool i v (b, e) = rw (e, laws.of_bool b) refl
  index_entry_lem ColumnType.int i v (x, h, e) =
      rw (e, laws.of_i64 (sign_extend 32 x) (sign_extend_32-word x h), sign_extend_32 x h) refl
  index_entry_lem ColumnType.uint i v (x, h, e) =
      let whole : x % 2 ^ 32 ≡ x = omega arith in rw (e, laws.of_u64 x (omega arith), whole) refl
  index_entry_lem ColumnType.long i v (x, h, e) = rw (e, laws.of_i64 x (omega arith)) refl
  index_entry_lem ColumnType.ulong i v (x, h, e) = rw (e, laws.of_u64 x (omega arith)) refl
  index_entry_lem ColumnType.float i v (x, h, e) =
      rw (laws.of_f64 (js.f32_as_f64 x) v e, laws.of_f32 x v h e, e) refl
  index_entry_lem ColumnType.double i v (x, h, e) = rw (laws.of_f64 x v e, e) refl
  index_entry_lem ColumnType.string i v (s, u, h, e) = rw (e, laws.of_string s u) refl
  index_entry_lem ColumnType.date_time i v h = refl
  index_entry_lem ColumnType.short i v h = refl
  index_entry_lem ColumnType.ushort i v h = refl
  index_entry_lem ColumnType.json i v h = refl
  index_entry_lem ColumnType.byte i v h = refl
  index_entry_lem ColumnType.ubyte i v h = refl
  index_entry_lem ColumnType.binary i v h = refl

  entry_for_lem :
      (map : List (List ℕ × V)) (schema : List Column) (name : List ℕ)
      → FitsColumn map schema name
      → option_key parse_from_rfc3339 epoch (entry_for parse_from_rfc3339 epoch map schema name)
        ≡ key_for map schema name
  unfolding entry_for
  entry_for_lem map schema name fits = cases (find_value name map) (get_column name schema) fits
    where
      cases :
          (o : Option V) (c : Option Column)
          → ((v : V) (column : Column)
              → o ≡ some v
              → c ≡ some column
              → HoldsKey column.column_type v)
          → option_key parse_from_rfc3339 epoch (elim o [
            | none ↦ none
            | some v ↦ elim c [
              | none ↦ none
              | some column ↦ index_entry parse_from_rfc3339 epoch column.column_type column.index v
            ]
          ])
            ≡ elim o [
              | none ↦ none
              | some v ↦ elim c [
                | none ↦ none
                | some column ↦ value_key column.column_type column.index v
              ]
            ]
      cases none c fits = refl
      cases (some v) none fits = refl
      cases (some v) (some column) fits =
          index_entry_lem column.column_type column.index v (fits v column refl refl)

  entries_step :
      (map : List (List ℕ × V)) (schema : List Column) (name : List ℕ) (names : List (List ℕ))
      (o : Option (AttributeIndexEntry D)) (k : Option (EntryKey V))
      → option_key parse_from_rfc3339 epoch o ≡ k
      → keys_of parse_from_rfc3339 epoch (index_entries parse_from_rfc3339 epoch map schema names)
        ≡ attribute_keys map schema names
      → keys_of parse_from_rfc3339 epoch (elim o [
        | none ↦ index_entries parse_from_rfc3339 epoch map schema names
        | some e ↦ e ∷ index_entries parse_from_rfc3339 epoch map schema names
      ])
        ≡ elim k [
          | none ↦ attribute_keys map schema names
          | some key ↦ key ∷ attribute_keys map schema names
        ]
  entries_step map schema name names none k e rest = rw (sym e) rest
  entries_step map schema name names (some entry) k e rest =
      rw (sym e) (ap (λ (t : List (EntryKey V)). key_of parse_from_rfc3339 epoch entry ∷ t) rest)

  index_entries_lem :
      (map : List (List ℕ × V)) (schema : List Column) (names : List (List ℕ))
      → All (FitsColumn map schema) names
      → keys_of parse_from_rfc3339 epoch (index_entries parse_from_rfc3339 epoch map schema names)
        ≡ attribute_keys map schema names
  unfolding index_entries
  index_entries_lem map schema [] fits = refl
  index_entries_lem map schema (name ∷ names) (fit, fits) =
      entries_step map schema name names (entry_for parse_from_rfc3339 epoch map schema name)
        (key_for map schema name) (entry_for_lem map schema name fit)
        (index_entries_lem map schema names fits)

  -- For values with the laws `JsonLaws` of serde_json: when the columns of the types with an index
  -- can hold the values of the attributes of an object that are to be indexed without loss, dates
  -- excepted, the entries made for it are, in the order in which the attributes are named, one for
  -- each that has a value and a column of a type with an index; each is of the variant of the type,
  -- has the index of the column and, unless it is a date, a key that stands for the value.
  pub attribute_to_index_entries_lem :
      (attr : V) (map : List (List ℕ × V)) (schema : List Column) (names : List (List ℕ))
      → js.as_object attr ≡ some map
      → All (FitsColumn map schema) names
      → keys_of parse_from_rfc3339 epoch
          (attribute_to_index_entries parse_from_rfc3339 epoch attr schema names)
        ≡ attribute_keys map schema names
  unfolding attribute_to_index_entries
  attribute_to_index_entries_lem attr [] schema names object fits =
      rw (attribute_to_index_entries, object) (sym (no_keys schema names))
  attribute_to_index_entries_lem attr (a ∷ map) schema names object fits =
      rw (attribute_to_index_entries, object) (index_entries_lem (a ∷ map) schema names fits)
