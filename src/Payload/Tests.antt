-- ===== src/Payload/Tests.antt =====
-- Runs of payload.rs, and the theorems at concrete entries.
use flatcitybuf.Prelude.{ℕ, some, ◌+◌, ◌≡◌, refl, arith, [], ◌∷◌, ◌++◌, length}
use flatcitybuf.Error.{Result, ok, err, io_error, not_implemented}
use flatcitybuf.Bytes.{write_le}
use flatcitybuf.Payload.{PayloadEntry, add_offset, serialize, deserialize}
use flatcitybuf.Payload.Cache.{empty_cache, update, read_payload_entry}
use flatcitybuf.Payload.Cache.Lookup.{read_payload_entry-update, read_payload_entry-short}
use flatcitybuf.Payload.RoundTrip.{IsValid, add_offset-IsValid, deserialize-serialize}

abbrev two_offsets : PayloadEntry
two_offsets = record { count = 2; offsets = 500 ∷ 258 ∷ [] }

serialize_two :
    serialize two_offsets
    ≡ 2 ∷ 0 ∷ 0 ∷ 0 ∷ 244 ∷ 1 ∷ 0 ∷ 0 ∷ 0 ∷ 0 ∷ 0 ∷ 0 ∷ 2 ∷ 1 ∷ 0 ∷ 0 ∷ 0 ∷ 0 ∷ 0 ∷ 0 ∷ []
unfolding serialize write_le
serialize_two = refl

two_offsets-IsValid : IsValid two_offsets
two_offsets-IsValid = omega arith

add_offset-IsValid_example : IsValid (add_offset two_offsets 7)
add_offset-IsValid_example =
    add_offset-IsValid two_offsets 7 two_offsets-IsValid (omega arith) (omega arith)

deserialize-serialize_example :
    (deserialize (serialize two_offsets ++ (9 ∷ [])) ≡ ok ((two_offsets, 16), 9 ∷ []))
    × (length (serialize two_offsets) ≡ 16 + 4)
deserialize-serialize_example = deserialize-serialize two_offsets (9 ∷ []) two_offsets-IsValid

-- A cache of the section from offset 1000 on, with one byte before the entry.
abbrev nothing_fetched : ℕ → Result PayloadEntry
nothing_fetched offset = err not_implemented

read_payload_entry-update_example :
    read_payload_entry nothing_fetched 1001
      (some (update empty_cache 1000 ((9 ∷ []) ++ (serialize two_offsets ++ (7 ∷ [])))))
    ≡ ok two_offsets
read_payload_entry-update_example =
    read_payload_entry-update empty_cache nothing_fetched 1000 (9 ∷ []) two_offsets (7 ∷ [])
      two_offsets-IsValid

read_payload_entry-short_example :
    read_payload_entry nothing_fetched 1001
      (some (update empty_cache 1000 ((9 ∷ []) ++ (2 ∷ 0 ∷ []))))
    ≡ err io_error
read_payload_entry-short_example =
    read_payload_entry-short empty_cache nothing_fetched 1000 (9 ∷ []) (2 ∷ 0 ∷ []) (omega arith)
      (omega arith)
