-- ===== src/Attributes/Value.antt =====
-- One value of an attribute, written by attribute.rs and read back by deserializer.rs.
use flatcitybuf.Prelude.{
  ℕ, ◌+◌, ◌-◌, ◌%◌, ◌^◌, ◌<◌, ◌≡◌, refl, sym, ap, ◌∙◌, arith, Bool, true, false, List, ◌++◌, Option,
  some, length, length-append, append_assoc, append-nil, take-append_length, drop-append_length,
  le→leb,
}
use flatcitybuf.Error.{ok}
use flatcitybuf.Bytes.{write_le, read_le}
use flatcitybuf.Bytes.RoundTrip.{length-write_le, read_le-write_le}
use flatcitybuf.Attributes.{
  ColumnType, Json, Column, unwrap_or, sign_extend, counted, attr_size, encode_value,
  encode_attribute, decode_string, decode_value, decode_word,
}

-- What the documentation of serde_json says of the values that it makes from words of 64 bits and
-- from strings, and of a number that is widened to an `f64`.
pub record JsonLaws {V : Type 0} (js : Json V) : Type 0 where
  pub of_bool : (b : Bool) → js.as_bool (js.from_bool b) ≡ some b
  pub of_i64 : (x : ℕ) → x < 2 ^ 64 → js.as_i64 (js.from_i64 x) ≡ some x
  pub of_u64 : (x : ℕ) → x < 2 ^ 64 → js.as_u64 (js.from_u64 x) ≡ some x
  pub of_f64 : (x : ℕ) (v : V) → js.from_f64 x ≡ some v → js.as_f64 v ≡ some x
  pub of_string : (s : List ℕ) → js.is_utf8 s ≡ true → js.as_str (js.from_string s) ≡ some s
  pub of_f32 :
      (x : ℕ) (v : V)
      → x < 2 ^ 32
      → js.from_f64 (js.f32_as_f64 x) ≡ some v
      → js.f64_as_f32 (js.f32_as_f64 x) ≡ x

pub sign_extend_32-word : (x : ℕ) → x < 2 ^ 32 → sign_extend 32 x < 2 ^ 64
sign_extend_32-word x h = ground arith

sign_extend_16-word : (x : ℕ) → x < 2 ^ 16 → sign_extend 16 x < 2 ^ 64
sign_extend_16-word x h = ground arith

pub sign_extend_32 : (x : ℕ) → x < 2 ^ 32 → sign_extend 32 x % 2 ^ 32 ≡ x
sign_extend_32 x h = ground arith

sign_extend_16 : (x : ℕ) → x < 2 ^ 16 → sign_extend 16 x % 2 ^ 16 ≡ x
sign_extend_16 x h = ground arith

length-counted : (s : List ℕ) → length (counted s) ≡ 4 + length s
length-counted s =
    omega (
      arith,
      length-append (write_le 4 (length s % 2 ^ 32)) s,
      length-write_le 4 (length s % 2 ^ 32),
    )

-- A string of less than 2 ^ 32 bytes that are UTF-8 is read back.
decode_string-counted :
    (is_utf8 : List ℕ → Bool) (s rest : List ℕ)
    → is_utf8 s ≡ true
    → length s < 2 ^ 32
    → decode_string is_utf8 (counted s ++ rest) ≡ ok (s, rest)
unfolding decode_string
decode_string-counted is_utf8 s rest valid h =
    let whole : length s % 2 ^ 32 ≡ length s = omega arith in
    let read = read_le-write_le 4 (length s) (s ++ rest) (omega arith) in
    rw
      (
        whole,
        append_assoc (write_le 4 (length s)) s rest,
        read,
        le→leb (length s) (length (s ++ rest)) (omega (arith, length-append s rest)),
        take-append_length s rest,
        drop-append_length s rest,
        valid,
      )
      refl

decode_word-write_le :
    {V : Type 0} ⦃js : Json V⦄ (width : ℕ) (f : ℕ → Option V) (x : ℕ) (rest : List ℕ)
    → x < 256 ^ width
    → decode_word width f (write_le width x ++ rest) ≡ ok (f x, rest)
decode_word-write_le width f x rest h = rw (read_le-write_le width x rest h) refl

module _ {V : Type 0} ⦃js : Json V⦄ where
  -- A value that a column of the type holds without loss. Columns of the other three types cannot
  -- be read back.
  abbrev pub Holds : ColumnType → V → Type 0
  Holds ColumnType.bool v = (b : Bool) × (v ≡ js.from_bool b)
  Holds ColumnType.int v = (x : ℕ) × (x < 2 ^ 32) × (v ≡ js.from_i64 (sign_extend 32 x))
  Holds ColumnType.uint v = (x : ℕ) × (x < 2 ^ 32) × (v ≡ js.from_u64 x)
  Holds ColumnType.short v = (x : ℕ) × (x < 2 ^ 16) × (v ≡ js.from_i64 (sign_extend 16 x))
  Holds ColumnType.ushort v = (x : ℕ) × (x < 2 ^ 16) × (v ≡ js.from_u64 x)
  Holds ColumnType.long v = (x : ℕ) × (x < 2 ^ 64) × (v ≡ js.from_i64 x)
  Holds ColumnType.ulong v = (x : ℕ) × (x < 2 ^ 64) × (v ≡ js.from_u64 x)
  Holds ColumnType.float v = (x : ℕ) × (x < 2 ^ 32) × (js.from_f64 (js.f32_as_f64 x) ≡ some v)
  Holds ColumnType.double v = (x : ℕ) × (x < 2 ^ 64) × (js.from_f64 x ≡ some v)
  Holds ColumnType.string v =
      (s : List ℕ) × (js.is_utf8 s ≡ true) × (length s < 2 ^ 32) × (v ≡ js.from_string s)
  Holds ColumnType.date_time v =
      (s : List ℕ) × (js.is_utf8 s ≡ true) × (length s < 2 ^ 32) × (v ≡ js.from_string s)
  Holds ColumnType.json v =
      (s : List ℕ) × (js.is_utf8 s ≡ true)
      × (length s < 2 ^ 32)
      × (js.to_json v ≡ some s)
      × (js.parse s ≡ some v)
  Holds ColumnType.byte v = ⊥
  Holds ColumnType.ubyte v = ⊥
  Holds ColumnType.binary v = ⊥

  module _ (laws : JsonLaws js) where
    pub decode_value-encode_value :
        (c : ColumnType) (v : V) (rest : List ℕ)
        → Holds c v
        → decode_value c (encode_value c v ++ rest) ≡ ok (some v, rest)
    unfolding decode_value encode_value read_le
    decode_value-encode_value ColumnType.bool v rest (true, e) = rw (e, laws.of_bool true) refl
    decode_value-encode_value ColumnType.bool v rest (false, e) = rw (e, laws.of_bool false) refl
    decode_value-encode_value ColumnType.int v rest (x, h, e) =
        rw (e, laws.of_i64 (sign_extend 32 x) (sign_extend_32-word x h), sign_extend_32 x h)
          (decode_word-write_le 4 _ x rest (omega arith))
    decode_value-encode_value ColumnType.uint v rest (x, h, e) =
        let whole : x % 2 ^ 32 ≡ x = omega arith in
        rw (e, laws.of_u64 x (omega arith), whole) (decode_word-write_le 4 _ x rest (omega arith))
    decode_value-encode_value ColumnType.short v rest (x, h, e) =
        rw (e, laws.of_i64 (sign_extend 16 x) (sign_extend_16-word x h), sign_extend_16 x h)
          (decode_word-write_le 2 _ x rest (omega arith))
    decode_value-encode_value ColumnType.ushort v rest (x, h, e) =
        let whole : x % 2 ^ 16 ≡ x = omega arith in
        rw (e, laws.of_u64 x (omega arith), whole) (decode_word-write_le 2 _ x rest (omega arith))
    decode_value-encode_value ColumnType.long v rest (x, h, e) =
        rw (e, laws.of_i64 x (omega arith)) (decode_word-write_le 8 _ x rest (omega arith))
    decode_value-encode_value ColumnType.ulong v rest (x, h, e) =
        rw (e, laws.of_u64 x (omega arith)) (decode_word-write_le 8 _ x rest (omega arith))
    decode_value-encode_value ColumnType.float v rest (x, h, e) =
        rw (laws.of_f64 (js.f32_as_f64 x) v e, laws.of_f32 x v h e)
          (decode_word-write_le 4 _ x rest (omega arith) ∙ ap (λ (o : Option V). ok (o, rest)) e)
    decode_value-encode_value ColumnType.double v rest (x, h, e) =
        rw (laws.of_f64 x v e)
          (decode_word-write_le 8 _ x rest (omega arith) ∙ ap (λ (o : Option V). ok (o, rest)) e)
    decode_value-encode_value ColumnType.string v rest (s, valid, h, e) =
        rw (e, laws.of_string s valid, decode_string-counted js.is_utf8 s rest valid h) refl
    decode_value-encode_value ColumnType.date_time v rest (s, valid, h, e) =
        rw (e, laws.of_string s valid, decode_string-counted js.is_utf8 s rest valid h) refl
    decode_value-encode_value ColumnType.json v rest (s, valid, h, e, back) =
        rw (e, decode_string-counted js.is_utf8 s rest valid h, back) refl
    decode_value-encode_value ColumnType.byte v rest h = absurd h
    decode_value-encode_value ColumnType.ubyte v rest h = absurd h
    decode_value-encode_value ColumnType.binary v rest h = absurd h

    -- `attr_size` is the number of the bytes that are written.
    pub attr_size-encode_value :
        (c : ColumnType) (v : V) → Holds c v → attr_size c v ≡ ok (length (encode_value c v))
    unfolding attr_size encode_value
    attr_size-encode_value ColumnType.bool v h = refl
    attr_size-encode_value ColumnType.int v h =
        rw (length-write_le 4 (unwrap_or 0 (js.as_i64 v) % 2 ^ 32)) refl
    attr_size-encode_value ColumnType.uint v h =
        rw (length-write_le 4 (unwrap_or 0 (js.as_u64 v) % 2 ^ 32)) refl
    attr_size-encode_value ColumnType.short v h =
        rw (length-write_le 2 (unwrap_or 0 (js.as_i64 v) % 2 ^ 16)) refl
    attr_size-encode_value ColumnType.ushort v h =
        rw (length-write_le 2 (unwrap_or 0 (js.as_u64 v) % 2 ^ 16)) refl
    attr_size-encode_value ColumnType.long v h =
        rw (length-write_le 8 (unwrap_or 0 (js.as_i64 v))) refl
    attr_size-encode_value ColumnType.ulong v h =
        rw (length-write_le 8 (unwrap_or 0 (js.as_u64 v))) refl
    attr_size-encode_value ColumnType.float v h =
        rw (length-write_le 4 (js.f64_as_f32 (unwrap_or 0 (js.as_f64 v)))) refl
    attr_size-encode_value ColumnType.double v h =
        rw (length-write_le 8 (unwrap_or 0 (js.as_f64 v))) refl
    attr_size-encode_value ColumnType.string v (s, valid, h, e) =
        rw (e, laws.of_string s valid) (ap ok (sym (length-counted s)))
    attr_size-encode_value ColumnType.date_time v (s, valid, h, e) =
        rw (e, laws.of_string s valid) (ap ok (sym (length-counted s)))
    attr_size-encode_value ColumnType.json v (s, valid, h, e, back) =
        rw e (ap ok (sym (length-counted s)))
    attr_size-encode_value ColumnType.byte v h = absurd h
    attr_size-encode_value ColumnType.ubyte v h = absurd h
    attr_size-encode_value ColumnType.binary v h = absurd h

    -- Nothing is padded.
    pub encode_attribute_lem :
        (column : Column) (v : V)
        → Holds column.column_type v
        → encode_attribute column v
          ≡ ok (write_le 2 column.index ++ encode_value column.column_type v)
    unfolding encode_attribute
    encode_attribute_lem column v h =
        let value = encode_value column.column_type v in
        let none_left : length value - length value ≡ 0 = omega arith in
        rw
          (
            attr_size-encode_value column.column_type v h,
            le→leb (length value) (length value) (omega arith),
            none_left,
            append-nil value,
          )
          refl
