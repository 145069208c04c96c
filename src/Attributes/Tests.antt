-- ===== src/Attributes/Tests.antt =====
-- Runs of the attribute codec on a small type of JSON values, and its theorem at a concrete input.
use flatcitybuf.Prelude.{
  ℕ, ◌≡◌, refl, sym, ap, ◌∙◌, arith, Bool, true, false, List, [], ◌∷◌, Option, none, some, length,
  All,
}
use mathlib.Core.Bool.{false≢true}
use mathlib.Core.Path.{subst}
use flatcitybuf.Error.{ok, panic, ◌>>=◌}
use flatcitybuf.Attributes.{
  ColumnType, Json, Column, unwrap, find_value, encode_columns, encode_attributes_with_schema,
  decode_attributes,
}
use flatcitybuf.Attributes.Value.{JsonLaws}
use flatcitybuf.Attributes.RoundTrip.{Fits, stored}
use flatcitybuf.Attributes.Schema.{
  IsSchema, json_name, add_attributes, add_attributes-IsSchema,
  decode_attributes-encode_attributes_with_schema,
}
use flatcitybuf.Attributes.Index.{
  AttributeIndexEntry, get_column, attribute_to_index_entries, keys_of, attribute_keys, FitsColumn,
  HoldsKey, attribute_to_index_entries_lem,
}

data Value : Type 0 where
  null : Value
  boolean : Bool → Value
  signed : ℕ → Value
  unsigned : ℕ → Value
  floating : ℕ → Value
  text : List ℕ → Value
  sample : Value

abbrev is_null : Value → Bool
is_null null = true
is_null (boolean b) = false
is_null (signed x) = false
is_null (unsigned x) = false
is_null (floating x) = false
is_null (text s) = false
is_null sample = false

abbrev as_bool : Value → Option Bool
as_bool (boolean b) = some b
as_bool _ = none

abbrev as_i64 : Value → Option ℕ
as_i64 (signed x) = some x
as_i64 _ = none

abbrev as_u64 : Value → Option ℕ
as_u64 (unsigned x) = some x
as_u64 _ = none

abbrev as_f64 : Value → Option ℕ
as_f64 (floating x) = some x
as_f64 _ = none

abbrev as_str : Value → Option (List ℕ)
as_str (text s) = some s
as_str _ = none

-- -1, a string and a null.
abbrev attrs : List (List ℕ × Value)
attrs =
    (2 ∷ [], text (104 ∷ 105 ∷ [])) ∷ (1 ∷ [], signed 0xffff_ffff_ffff_ffff) ∷ (3 ∷ [], null) ∷ []

-- The object with these members.
abbrev as_object : Value → Option (List (List ℕ × Value))
as_object sample = some attrs
as_object _ = none

instance abbrev simple : Json Value
simple = record {
  is_null = is_null;
  as_object = as_object;
  is_number = λ v. false;
  is_f64 = λ v. false;
  is_u64 = λ v. false;
  is_i64 = λ v. false;
  is_array = λ v. false;
  is_rfc3339 = λ s. false;
  as_bool = as_bool;
  as_i64 = as_i64;
  as_u64 = as_u64;
  as_f64 = as_f64;
  as_str = as_str;
  to_json = as_str;
  parse = λ s. some (text s);
  from_bool = boolean;
  from_i64 = signed;
  from_u64 = unsigned;
  from_f64 = λ x. some (floating x);
  from_string = text;
  is_utf8 = λ s. true;
  f64_as_f32 = λ x. x;
  f32_as_f64 = λ x. x;
}

some_inj : {A : Type 0} (a b : A) → some a ≡ some b → a ≡ b
some_inj a b h = cc

simple-JsonLaws : JsonLaws simple
simple-JsonLaws = record {
  of_bool = λ b. refl;
  of_i64 = λ x h. refl;
  of_u64 = λ x h. refl;
  of_f64 = λ x v e. subst (λ w. as_f64 w ≡ some x) (some_inj (floating x) v e) refl;
  of_string = λ s h. refl;
  of_f32 = λ x v h e. refl;
}

abbrev columns : List Column
columns =
    record { name = 1 ∷ []; index = 0; column_type = ColumnType.int }
    ∷ record { name = 2 ∷ []; index = 1; column_type = ColumnType.string }
    ∷ record { name = 3 ∷ []; index = 2; column_type = ColumnType.bool }
    ∷ []

abbrev encoded : List ℕ
encoded = 0 ∷ 0 ∷ 255 ∷ 255 ∷ 255 ∷ 255 ∷ 1 ∷ 0 ∷ 2 ∷ 0 ∷ 0 ∷ 0 ∷ 104 ∷ 105 ∷ []

encode_columns-attrs : encode_columns columns attrs ≡ ok encoded
unfolding encode_columns flatcitybuf.Attributes.encode_attribute flatcitybuf.Attributes.encode_value
    flatcitybuf.Attributes.attr_size flatcitybuf.Bytes.write_le find_value
encode_columns-attrs = refl

decode_attributes-encoded :
    decode_attributes 20 columns encoded []
    ≡ ok ((2 ∷ [], text (104 ∷ 105 ∷ [])) ∷ (1 ∷ [], signed 0xffff_ffff_ffff_ffff) ∷ [])
unfolding decode_attributes flatcitybuf.Bytes.read_le
decode_attributes-encoded = refl

-- A column of an unsigned byte is written, but not read.
abbrev one_byte : List Column
one_byte = record { name = 1 ∷ []; index = 0; column_type = ColumnType.ubyte } ∷ []

decode_attributes_ubyte :
    (encode_columns one_byte ((1 ∷ [], unsigned 7) ∷ []) >>= λ bytes.
    decode_attributes {V = Value} (length bytes) one_byte bytes [])
    ≡ panic
unfolding encode_columns flatcitybuf.Attributes.encode_attribute flatcitybuf.Attributes.encode_value
    flatcitybuf.Attributes.attr_size flatcitybuf.Bytes.write_le find_value decode_attributes
    flatcitybuf.Bytes.read_le
decode_attributes_ubyte = refl

attrs-Fits : All (Fits attrs) columns
unfolding find_value
attrs-Fits = (
  λ v e kept. (0xffff_ffff, omega arith, sym (some_inj (signed 0xffff_ffff_ffff_ffff) v e)),
  (
    λ v e kept. (104 ∷ 105 ∷ [], refl, omega arith, sym (some_inj (text (104 ∷ 105 ∷ [])) v e)),
    (λ v e kept. absurd (false≢true (sym kept ∙ ap is_null (sym (some_inj null v e)))), tt),
  ),
)

decode_attributes-encode_attributes_with_schema_example :
    (bytes : List ℕ) × (encode_attributes_with_schema sample columns ≡ ok bytes)
    × (decode_attributes (length bytes) columns bytes [] ≡ ok (stored columns attrs []))
decode_attributes-encode_attributes_with_schema_example =
    decode_attributes-encode_attributes_with_schema simple-JsonLaws columns sample attrs refl
      (omega arith) (refl, (refl, (refl, tt))) attrs-Fits

add_attributes-IsSchema_example : IsSchema 3 (add_attributes sample [])
add_attributes-IsSchema_example = add_attributes-IsSchema sample attrs [] refl (omega arith) tt

-- A second value that is not an object replaces the column, with an index that is out of range.
add_attributes_twice :
    add_attributes (boolean true) (add_attributes (boolean true) [])
    ≡ record { name = json_name; index = 1; column_type = ColumnType.json } ∷ []
unfolding add_attributes
add_attributes_twice = refl

abbrev no_date : List ℕ → Option ℕ
no_date s = none

-- A null is indexed like a value, although it is not written.
attribute_to_index_entries_null :
    attribute_to_index_entries no_date 0 sample columns ((3 ∷ []) ∷ [])
    ≡ AttributeIndexEntry.bool_entry 2 false ∷ []
unfolding attribute_to_index_entries
attribute_to_index_entries_null = refl

encode_columns_null : encode_columns columns ((3 ∷ [], null) ∷ []) ≡ ok []
unfolding encode_columns find_value
encode_columns_null = refl

-- A string, -1, and a name without a value.
abbrev names : List (List ℕ)
names = (2 ∷ []) ∷ (1 ∷ []) ∷ (9 ∷ []) ∷ []

abbrev column_1 : Column
column_1 = record { name = 1 ∷ []; index = 0; column_type = ColumnType.int }

abbrev column_2 : Column
column_2 = record { name = 2 ∷ []; index = 1; column_type = ColumnType.string }

none_not_some : {A : Type 0} (a : A) → none ≡ some a → ⊥
none_not_some a h = cc

names-FitsColumn : All (FitsColumn attrs columns) names
unfolding find_value get_column
names-FitsColumn = (
  λ v column e known.
      subst (λ c. HoldsKey c.column_type v) (some_inj column_2 column known)
        (104 ∷ 105 ∷ [], refl, omega arith, sym (some_inj (text (104 ∷ 105 ∷ [])) v e)),
  (
    λ v column e known.
        subst (λ c. HoldsKey c.column_type v) (some_inj column_1 column known)
          (0xffff_ffff, omega arith, sym (some_inj (signed 0xffff_ffff_ffff_ffff) v e)),
    (λ v column e known. absurd (none_not_some v e), tt),
  ),
)

attribute_to_index_entries_lem_example :
    keys_of no_date 0 (attribute_to_index_entries no_date 0 sample columns names)
    ≡ attribute_keys attrs columns names
attribute_to_index_entries_lem_example =
    attribute_to_index_entries_lem no_date 0 simple-JsonLaws sample attrs columns names refl
      names-FitsColumn
