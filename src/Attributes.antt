-- ===== src/Attributes.antt =====
-- The codec of attribute values: `attr_size` and `encode_attributes_with_schema` of
-- rust/fcb_core/src/writer/attribute.rs, `decode_attributes` of
-- rust/fcb_core/src/reader/deserializer.rs. The values of the crate serde_json, and the casts
-- between floating-point numbers, are parameters. A signed number and a floating-point number are
-- their 64-bit words, a string is its bytes.
pub mod Value
pub mod RoundTrip
pub mod Schema
pub mod Index
mod Tests
use flatcitybuf.Prelude.{
  ℕ, zero, suc, ◌+◌, ◌-◌, ◌*◌, ◌%◌, ◌^◌, Bool, true, false, not, ◌&&◌, List, [], ◌∷◌, ◌++◌, Option,
  none, some, length, take, drop, replicate, ltb, leb, ◌==◌, if◌then◌else◌,
}
use flatcitybuf.Error.{Result, ok, err, panic, out_of_fuel, ◌>>=◌}
use flatcitybuf.Bytes.{write_le, read_le}

pub data ColumnType : Type 0 where
  byte : ColumnType
  ubyte : ColumnType
  bool : ColumnType
  short : ColumnType
  ushort : ColumnType
  int : ColumnType
  uint : ColumnType
  long : ColumnType
  ulong : ColumnType
  float : ColumnType
  double : ColumnType
  string : ColumnType
  json : ColumnType
  date_time : ColumnType
  binary : ColumnType

-- `serde_json::Value` and `Number`; `to_json` is `serde_json::to_string`, `parse` is `from_str`,
-- `is_utf8` tells whether `String::from_utf8` accepts, `is_rfc3339` whether chrono parses a date.
pub record Json (V : Type 0) : Type 0 where
  pub is_null : V → Bool
  pub as_object : V → Option (List (List ℕ × V))
  pub as_bool : V → Option Bool
  pub as_i64 : V → Option ℕ
  pub as_u64 : V → Option ℕ
  pub as_f64 : V → Option ℕ
  pub as_str : V → Option (List ℕ)
  pub to_json : V → Option (List ℕ)
  pub parse : List ℕ → Option V
  pub from_bool : Bool → V
  pub from_i64 : ℕ → V
  pub from_u64 : ℕ → V
  pub from_f64 : ℕ → Option V
  pub from_string : List ℕ → V
  pub is_utf8 : List ℕ → Bool
  pub is_number : V → Bool
  pub is_f64 : V → Bool
  pub is_u64 : V → Bool
  pub is_i64 : V → Bool
  pub is_array : V → Bool
  pub is_rfc3339 : List ℕ → Bool
  pub f64_as_f32 : ℕ → ℕ
  pub f32_as_f64 : ℕ → ℕ

-- A column of the schema: the name, the index and the type.
pub record Column : Type 0 where
  pub name : List ℕ
  pub index : ℕ
  pub column_type : ColumnType

abbrev pub unwrap_or {ℓ} : {A : Type ℓ} → A → Option A → A
unwrap_or d none = d
unwrap_or d (some a) = a

abbrev pub unwrap {ℓ} : {A : Type ℓ} → Option A → Result A
unwrap none = panic
unwrap (some a) = ok a

-- A slice out of range panics.
abbrev pub or_panic {ℓ} : {A : Type ℓ} → Result A → Result A
or_panic (ok a) = ok a
or_panic (err e) = panic
or_panic panic = panic
or_panic out_of_fuel = out_of_fuel

abbrev pub same_name : List ℕ → List ℕ → Bool
same_name [] [] = true
same_name [] (y ∷ ys) = false
same_name (x ∷ xs) [] = false
same_name (x ∷ xs) (y ∷ ys) = (x == y) && same_name xs ys

-- A signed number of `width` bits as an `i64`.
abbrev pub sign_extend : ℕ → ℕ → ℕ
sign_extend width x =
    if ltb x (2 ^ (width - 1)) then x else x + (0x1_0000_0000_0000_0000 - 2 ^ width)

abbrev pub bool_as_u8 : Bool → ℕ
bool_as_u8 b = if b then 1 else 0

-- A length of 32 bits and the bytes.
abbrev pub counted : List ℕ → List ℕ
counted s = write_le 4 (length s % 0x1_0000_0000) ++ s

-- `sort_by_key` on the index, for the columns of a schema in some order.
unfoldable pub insert_by_index : Column → List Column → List Column
insert_by_index column [] = column ∷ []
insert_by_index column (c ∷ columns) =
    if leb column.index c.index then column ∷ c ∷ columns else c ∷ insert_by_index column columns

unfoldable pub sort_columns : List Column → List Column
unfolding insert_by_index
sort_columns [] = []
sort_columns (column ∷ columns) = insert_by_index column (sort_columns columns)

-- `columns.iter().find(|c| c.index() == col_index)`
unfoldable pub find_column : ℕ → List Column → Option Column
find_column i [] = none
find_column i (column ∷ columns) = if column.index == i then some column else find_column i columns

-- A string of `len` bytes behind its length; bytes that are not UTF-8 give the empty string.
unfoldable pub decode_string : (List ℕ → Bool) → List ℕ → Result (List ℕ × List ℕ)
decode_string is_utf8 bytes = do
  (len, bytes) ← or_panic (read_le 4 bytes)
  (if leb len (length bytes)
      then ok (if is_utf8 (take len bytes) then take len bytes else [], drop len bytes)
      else panic)

module _ {V : Type 0} ⦃js : Json V⦄ where
  unfoldable pub attr_size : ColumnType → V → Result ℕ
  attr_size byte v = ok 1
  attr_size ubyte v = ok 1
  attr_size bool v = ok 1
  attr_size short v = ok 2
  attr_size ushort v = ok 2
  attr_size int v = ok 4
  attr_size uint v = ok 4
  attr_size long v = ok 8
  attr_size ulong v = ok 8
  attr_size float v = ok 4
  attr_size double v = ok 8
  attr_size string v = do s ← unwrap (js.as_str v); ok (4 + length s)
  attr_size date_time v = do s ← unwrap (js.as_str v); ok (4 + length s)
  attr_size json v = ok (4 + length (unwrap_or [] (js.to_json v)))
  attr_size binary v = do s ← unwrap (js.as_str v); ok (4 + length s)

  -- The bytes that the `match` writes for a value.
  unfoldable pub encode_value : ColumnType → V → List ℕ
  encode_value bool v = bool_as_u8 (unwrap_or false (js.as_bool v)) ∷ []
  encode_value int v = write_le 4 (unwrap_or 0 (js.as_i64 v) % 2 ^ 32)
  encode_value uint v = write_le 4 (unwrap_or 0 (js.as_u64 v) % 2 ^ 32)
  encode_value byte v = unwrap_or 0 (js.as_i64 v) % 2 ^ 8 ∷ []
  encode_value ubyte v = unwrap_or 0 (js.as_u64 v) % 2 ^ 8 ∷ []
  encode_value short v = write_le 2 (unwrap_or 0 (js.as_i64 v) % 2 ^ 16)
  encode_value ushort v = write_le 2 (unwrap_or 0 (js.as_u64 v) % 2 ^ 16)
  encode_value long v = write_le 8 (unwrap_or 0 (js.as_i64 v))
  encode_value ulong v = write_le 8 (unwrap_or 0 (js.as_u64 v))
  encode_value float v = write_le 4 (js.f64_as_f32 (unwrap_or 0 (js.as_f64 v)))
  encode_value double v = write_le 8 (unwrap_or 0 (js.as_f64 v))
  encode_value string v = counted (unwrap_or [] (js.as_str v))
  encode_value date_time v = counted (unwrap_or [] (js.as_str v))
  encode_value json v = counted (unwrap_or [] (js.to_json v))
  encode_value binary v = counted (unwrap_or [] (js.as_str v))

  -- The index and the room that `attr_size` reserves, with the value written to its front. A value
  -- longer than that would be a slice out of range.
  unfoldable pub encode_attribute : Column → V → Result (List ℕ)
  encode_attribute column v = do
    size ← attr_size column.column_type v
    let value = encode_value column.column_type v
    (if leb (length value) size
        then ok (write_le 2 column.index ++ (value ++ replicate (size - length value) 0))
        else panic)

  unfoldable pub find_value : List ℕ → List (List ℕ × V) → Option V
  find_value name [] = none
  find_value name ((k, v) ∷ attrs) = if same_name k name then some v else find_value name attrs

  -- The loop over the columns in the order of their indices.
  unfoldable pub encode_columns : List Column → List (List ℕ × V) → Result (List ℕ)
  unfolding encode_attribute find_value
  encode_columns [] attrs = ok []
  encode_columns (column ∷ columns) attrs = elim (find_value column.name attrs) [
    | none ↦ encode_columns columns attrs
    | some v ↦ (do
      here ← if js.is_null v then ok [] else encode_attribute column v
      rest ← encode_columns columns attrs
      ok (here ++ rest))
  ]

  abbrev pub decode_word : ℕ → (ℕ → Option V) → List ℕ → Result (Option V × List ℕ)
  decode_word width f bytes = do (x, bytes) ← or_panic (read_le width bytes); ok (f x, bytes)

  abbrev pub decode_text : (List ℕ → Result V) → List ℕ → Result (Option V × List ℕ)
  decode_text f bytes = do (s, bytes) ← decode_string js.is_utf8 bytes; v ← f s; ok (some v, bytes)

  abbrev pub no_attributes : List (List ℕ × V) → Bool
  no_attributes [] = true
  no_attributes (a ∷ attrs) = false

  -- A value that is not an object, or has no members, gives no bytes.
  unfoldable pub encode_attributes_with_schema : V → List Column → Result (List ℕ)
  encode_attributes_with_schema attr schema = elim (js.as_object attr) [
    | none ↦ ok []
    | some attrs ↦ if no_attributes attrs then ok [] else encode_columns (sort_columns schema) attrs
  ]

  -- The value of one column, if there is one, and what follows. The types that the `match` leaves
  -- out are `unreachable!()`.
  unfoldable pub decode_value : ColumnType → List ℕ → Result (Option V × List ℕ)
  unfolding decode_string
  decode_value int = decode_word 4 λ x. some (js.from_i64 (sign_extend 32 x))
  decode_value uint = decode_word 4 λ x. some (js.from_u64 x)
  decode_value bool = decode_word 1 λ x. some (js.from_bool (not (x == 0)))
  decode_value short = decode_word 2 λ x. some (js.from_i64 (sign_extend 16 x))
  decode_value ushort = decode_word 2 λ x. some (js.from_u64 x)
  decode_value long = decode_word 8 λ x. some (js.from_i64 x)
  decode_value ulong = decode_word 8 λ x. some (js.from_u64 x)
  decode_value float = decode_word 4 λ x. js.from_f64 (js.f32_as_f64 x)
  decode_value double = decode_word 8 js.from_f64
  decode_value string = decode_text λ s. ok (js.from_string s)
  decode_value date_time = decode_text λ s. ok (js.from_string s)
  decode_value json = decode_text λ s. unwrap (js.parse s)
  decode_value byte = λ bytes. panic
  decode_value ubyte = λ bytes. panic
  decode_value binary = λ bytes. panic

  abbrev pub insert_value : List ℕ → Option V → List (List ℕ × V) → List (List ℕ × V)
  insert_value name none map = map
  insert_value name (some v) map = (name, v) ∷ map

  -- The loop over the bytes; the map holds what was inserted, the newest first. A round takes the
  -- two bytes of an index at least.
  unfoldable pub decode_attributes :
      ℕ → List Column → List ℕ → List (List ℕ × V) → Result (List (List ℕ × V))
  unfolding decode_value find_column
  decode_attributes fuel columns [] map = ok map
  decode_attributes zero columns (b ∷ bytes) map = out_of_fuel
  decode_attributes (suc fuel) columns (b ∷ bytes) map = do
    (i, rest) ← or_panic (read_le 2 (b ∷ bytes))
    column ← if leb (length columns % 2 ^ 16) i then panic else unwrap (find_column i columns)
    (v, rest) ← decode_value column.column_type rest
    decode_attributes fuel columns rest (insert_value column.name v map)
