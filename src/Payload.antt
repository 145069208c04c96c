-- ===== src/Payload.antt =====
-- `PayloadEntry` of rust/fcb_core/src/static_btree/payload.rs: the offsets of one duplicated key.
pub mod RoundTrip
pub mod Cache
mod Tests
use flatcitybuf.Prelude.{ℕ, zero, suc, ◌+◌, ◌*◌, ◌%◌, List, [], ◌∷◌, ◌++◌}
use flatcitybuf.Error.{Result, ok, ◌>>=◌}
use flatcitybuf.Bytes.{write_le, read_le}

pub record PayloadEntry : Type 0 where
  pub count : ℕ
  pub offsets : List ℕ

unfoldable pub new : PayloadEntry
new = record { count = 0; offsets = [] }

-- The counter is a `u32`; the wrap-around is that of a release build.
unfoldable pub add_offset : PayloadEntry → ℕ → PayloadEntry
add_offset entry offset = record entry {
  offsets = entry.offsets ++ (offset ∷ []);
  count = (entry.count + 1) % 0x1_0000_0000;
}

unfoldable pub serialized_size : PayloadEntry → ℕ
serialized_size entry = 4 + entry.count * 8

pub write_offsets : List ℕ → List ℕ
write_offsets [] = []
write_offsets (o ∷ os) = write_le 8 o ++ write_offsets os

unfoldable pub serialize : PayloadEntry → List ℕ
unfolding write_offsets
serialize entry = write_le 4 entry.count ++ write_offsets entry.offsets

pub read_offsets : ℕ → List ℕ → Result (List ℕ × List ℕ)
read_offsets zero bytes = ok ([], bytes)
read_offsets (suc n) bytes = do
  (o, rest) ← read_le 8 bytes
  (os, rest') ← read_offsets n rest
  ok (o ∷ os, rest')

-- The entry with the number of bytes that the source reports, and the reader behind it.
unfoldable pub deserialize : List ℕ → Result ((PayloadEntry × ℕ) × List ℕ)
unfolding read_offsets
deserialize bytes = do
  (count, rest) ← read_le 4 bytes
  (offsets, rest') ← read_offsets count rest
  ok ((record { count = count; offsets = offsets }, count * 8), rest')
