-- ===== src/Attributes/RoundTrip.antt =====
-- All attributes of an object, written by attribute.rs and read back by deserializer.rs.
use flatcitybuf.Prelude.{
  ℕ, zero, suc, ◌+◌, ◌%◌, ◌^◌, ◌≤◌, ◌<◌, ◌≡◌, ◌≢◌, refl, sym, ap, ◌∙◌, arith, false, List, [], ◌∷◌,
  ◌++◌, Option, none, some, length, length-append, append_assoc, leb, ==_refl, ==_false,
  if◌then◌else◌, Bool-cases, inl, inr, ◌⊎◌, All,
}
use mathlib.Core.Path.{subst}
use flatcitybuf.Error.{ok, panic, ◌>>=◌}
use flatcitybuf.Bytes.{write_le, read_le}
use flatcitybuf.Bytes.RoundTrip.{length-write_le, read_le-write_le}
use flatcitybuf.Attributes.{
  Json, Column, unwrap, or_panic, insert_value, find_column, find_value, encode_value,
  encode_attribute, encode_columns, decode_value, decode_attributes,
}
use flatcitybuf.Attributes.Value.{JsonLaws, Holds, decode_value-encode_value, encode_attribute_lem}

-- The columns have the indices from `id` on, in their order.
abbrev pub IsIndexed : ℕ → List Column → Type 0
IsIndexed id [] = Unit {0}
IsIndexed id (column ∷ columns) = (column.index ≡ id) × IsIndexed (suc id) columns

-- A column is found by its index.
abbrev IsColumn : List Column → Column → Type 0
IsColumn columns column =
    (find_column column.index columns ≡ some column) × (column.index < length columns)

find_column-behind :
    (id : ℕ) (before columns : List Column) (column : Column)
    → find_column column.index columns ≡ some column
    → IsIndexed id before
    → ((i : ℕ) → i < length before → column.index ≢ id + i)
    → find_column column.index (before ++ columns) ≡ some column
unfolding find_column
find_column-behind id [] columns column h indexed other = h
find_column-behind id (b ∷ before) columns column h (e, indexed) other =
    let differ : b.index ≢ column.index = λ same. other 0 (omega arith) (omega arith) in
    rw (==_false b.index column.index differ) (
      find_column-behind (suc id) before columns column h indexed
        (λ i lt same. other (suc i) (omega arith) (omega arith)))

IsIndexed-append :
    (id : ℕ) (before columns : List Column)
    → IsIndexed id (before ++ columns)
    → IsIndexed id before × IsIndexed (id + length before) columns
IsIndexed-append id [] columns h = (tt, subst (λ x. IsIndexed x columns) (omega arith) h)
IsIndexed-append id (b ∷ before) columns (e, h) =
    let (front, back) = IsIndexed-append (suc id) before columns h in
    ((e, front), subst (λ x. IsIndexed x columns) (omega arith) back)

-- Every column is found by its index.
columns_found :
    (before columns : List Column)
    → IsIndexed 0 (before ++ columns)
    → All (IsColumn (before ++ columns)) columns
unfolding find_column
columns_found before [] h = tt
columns_found before (column ∷ columns) h =
    let (front, (place, back)) = IsIndexed-append 0 before (column ∷ columns) h in
    let first : find_column column.index (column ∷ columns) ≡ some column =
      rw (==_refl column.index) refl in
    (
      (
        find_column-behind 0 before (column ∷ columns) column first front
            (λ i lt same. absurd (omega arith)),
        omega (arith, length-append before (column ∷ columns)),
      ),
      subst (λ x. All (IsColumn x) columns) (append_assoc before (column ∷ []) columns)
          (columns_found (before ++ (column ∷ [])) columns
            (subst (IsIndexed 0) (sym (append_assoc before (column ∷ []) columns)) h)),
    )

module _ {V : Type 0} ⦃js : Json V⦄ where
  find_none_or_some :
      (name : List ℕ) (attrs : List (List ℕ × V))
      → (find_value name attrs ≡ none) ⊎ ((v : V) × (find_value name attrs ≡ some v))
  find_none_or_some name attrs = cases (find_value name attrs) refl
    where
      cases :
          (o : Option V)
          → find_value name attrs ≡ o
          → (find_value name attrs ≡ none) ⊎ ((v : V) × (find_value name attrs ≡ some v))
      cases none e = inl e
      cases (some v) e = inr (v, e)

  -- What is kept of the attributes: the values in columns that are not null, the last one first.
  unfoldable pub stored : List Column → List (List ℕ × V) → List (List ℕ × V) → List (List ℕ × V)
  stored [] attrs map = map
  stored (column ∷ columns) attrs map = elim (find_value column.name attrs) [
    | none ↦ stored columns attrs map
    | some v ↦ stored columns attrs (if js.is_null v then map else (column.name, v) ∷ map)
  ]

  -- A value in a column that is not null can be held by the column.
  abbrev pub Fits : List (List ℕ × V) → Column → Type 0
  Fits attrs column =
      (v : V)
      → find_value column.name attrs ≡ some v
      → js.is_null v ≡ false
      → Holds column.column_type v

  decode_round :
      (fuel : ℕ) (columns : List Column) (bytes : List ℕ) (map : List (List ℕ × V))
      → 0 < length bytes
      → decode_attributes (suc fuel) columns bytes map ≡ (do
        (i, rest) ← or_panic (read_le 2 bytes)
        column ← if leb (length columns % 2 ^ 16) i then panic else unwrap (find_column i columns)
        (v, rest) ← decode_value column.column_type rest
        decode_attributes fuel columns rest (insert_value column.name v map))
  unfolding decode_attributes
  decode_round fuel columns [] map h = absurd (omega arith)
  decode_round fuel columns (b ∷ bytes) map h = refl

  decode_nil :
      (fuel : ℕ) (columns : List Column) (map : List (List ℕ × V))
      → decode_attributes fuel columns [] map ≡ ok map
  unfolding decode_attributes
  decode_nil zero columns map = refl
  decode_nil (suc fuel) columns map = refl

  module _ (column : Column) (todo : List Column) (attrs : List (List ℕ × V)) where
    encode_missing :
        find_value column.name attrs ≡ none
        → encode_columns (column ∷ todo) attrs ≡ encode_columns todo attrs
    unfolding encode_columns
    encode_missing h = rw (encode_columns, h) refl

    encode_present :
        (v : V)
        → find_value column.name attrs ≡ some v
        → encode_columns (column ∷ todo) attrs ≡ (do
          here ← if js.is_null v then ok [] else encode_attribute column v
          rest ← encode_columns todo attrs
          ok (here ++ rest))
    unfolding encode_columns
    encode_present v h = rw (encode_columns, h) refl

    stored_missing :
        (map : List (List ℕ × V))
        → find_value column.name attrs ≡ none
        → stored (column ∷ todo) attrs map ≡ stored todo attrs map
    unfolding stored
    stored_missing map h = rw (stored, h) refl

    stored_present :
        (map : List (List ℕ × V)) (v : V)
        → find_value column.name attrs ≡ some v
        → stored (column ∷ todo) attrs map
          ≡ stored todo attrs (if js.is_null v then map else (column.name, v) ∷ map)
    unfolding stored
    stored_present map v h = rw (stored, h) refl

  module _ (laws : JsonLaws js) (columns : List Column) (few : length columns < 2 ^ 16)
      (attrs : List (List ℕ × V)) where
    decode_step :
        (fuel : ℕ) (column : Column) (v : V) (rest : List ℕ) (map : List (List ℕ × V))
        → IsColumn columns column
        → Holds column.column_type v
        → decode_attributes
            (suc fuel)
            columns
            ((write_le 2 column.index ++ encode_value column.column_type v) ++ rest)
            map
          ≡ decode_attributes fuel columns rest ((column.name, v) ∷ map)
    decode_step fuel column v rest map (found, inside) holds =
        let value = encode_value column.column_type v in
        let whole = append_assoc (write_le 2 column.index) value rest in
        let read = read_le-write_le 2 column.index (value ++ rest) (omega arith) in
        let in_range : leb (length columns % 2 ^ 16) column.index ≡ false = ground arith in
        let back = decode_value-encode_value laws column.column_type v rest holds in
        ap (λ (x : List ℕ). decode_attributes (suc fuel) columns x map) whole
        ∙ decode_round fuel columns (write_le 2 column.index ++ (value ++ rest)) map (
            omega (
              arith,
              length-append (write_le 2 column.index) (value ++ rest),
              length-write_le 2 column.index,
            ))
        ∙ rw (read, in_range, found, back) refl

    abbrev Decodes : List Column → List ℕ → Type 0
    Decodes todo bytes =
        (fuel : ℕ) (map : List (List ℕ × V))
        → length bytes ≤ fuel
        → decode_attributes fuel columns bytes map ≡ ok (stored todo attrs map)

    Decodes-value :
        (column : Column) (todo : List Column) (v : V) (bytes : List ℕ)
        → IsColumn columns column
        → Holds column.column_type v
        → find_value column.name attrs ≡ some v
        → js.is_null v ≡ false
        → Decodes todo bytes
        → Decodes
            (column ∷ todo)
            ((write_le 2 column.index ++ encode_value column.column_type v) ++ bytes)
    Decodes-value column todo v bytes here holds found value decoded zero map h = absurd (
        omega (
          arith,
          length-append (write_le 2 column.index ++ encode_value column.column_type v) bytes,
          length-append (write_le 2 column.index) (encode_value column.column_type v),
          length-write_le 2 column.index,
        ))
    Decodes-value column todo v bytes here holds found value decoded (suc fuel) map h =
        decode_step fuel column v bytes map here holds
        ∙ decoded fuel ((column.name, v) ∷ map) (
            omega (
              arith,
              length-append (write_le 2 column.index ++ encode_value column.column_type v) bytes,
              length-append (write_le 2 column.index) (encode_value column.column_type v),
              length-write_le 2 column.index,
            ))
        ∙ ap ok (sym (stored_present column todo attrs map v found ∙ rw value refl))

    decode-encode_columns :
        (todo : List Column)
        → All (IsColumn columns) todo
        → All (Fits attrs) todo
        → (bytes : List ℕ) × (encode_columns todo attrs ≡ ok bytes) × Decodes todo bytes
    unfolding encode_columns stored
    decode-encode_columns [] known fits = ([], refl, λ fuel map h. decode_nil fuel columns map)
    decode-encode_columns (column ∷ todo) (here, known) (fit, fits) =
        let (bytes, encoded, decoded) = decode-encode_columns todo known fits in
        elim (find_none_or_some column.name attrs) [
          | inl missing ↦ (
            bytes,
            encode_missing column todo attrs missing ∙ encoded,
            λ fuel map h.
                decoded fuel map h ∙ ap ok (sym (stored_missing column todo attrs map missing)),
          )
          | inr (v, found) ↦ elim (Bool-cases (js.is_null v)) [
            | inl null ↦ (
              bytes,
              encode_present column todo attrs v found ∙ rw (null, encoded) refl,
              λ fuel map h.
                  decoded fuel map h
                  ∙ ap ok (sym (stored_present column todo attrs map v found ∙ rw null refl)),
            )
            | inr value ↦
                let holds = fit v found value in
                (
                  (write_le 2 column.index ++ encode_value column.column_type v) ++ bytes,
                  encode_present column todo attrs v found
                      ∙ rw (value, encode_attribute_lem laws column v holds, encoded) refl,
                  Decodes-value column todo v bytes here holds found value decoded,
                )
          ]
        ]

    -- The attributes of an object are written, whatever columns it has no value for, and read back
    -- from the bytes as they were: the values in the columns that are not null.
    pub decode_attributes-encode_columns :
        IsIndexed 0 columns
        → All (Fits attrs) columns
        → (bytes : List ℕ) × (encode_columns columns attrs ≡ ok bytes)
          × (decode_attributes (length bytes) columns bytes [] ≡ ok (stored columns attrs []))
    decode_attributes-encode_columns indexed fits =
        let (bytes, encoded, decoded) =
          decode-encode_columns columns (columns_found [] columns indexed) fits in
        (bytes, encoded, decoded (length bytes) [] (omega arith))
