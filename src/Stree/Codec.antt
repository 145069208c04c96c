-- ===== src/Stree/Codec.antt =====
-- Reading and writing of a tree in rust/fcb_core/src/static_btree/stree.rs and of its entries in
-- rust/fcb_core/src/static_btree/entry.rs, with the codec of the trait `Key` and the macros
-- `impl_key_for_int` and `impl_key_for_byte` of rust/fcb_core/src/static_btree/key.rs for the
-- unsigned integers.
pub mod RoundTrip
mod Tests
use flatcitybuf.Prelude.{
  ℕ, zero, suc, Bool, true, false, not, ◌&&◌, List, [], ◌∷◌, ◌++◌, if◌then◌else◌,
}
use flatcitybuf.Error.{Result, ok, ◌>>=◌}
use flatcitybuf.Array.{first}
use flatcitybuf.Bytes.{write_le, read_le}
use flatcitybuf.Stree.{Entry, Stree, generate_level_bounds, clamp_factor}

-- `Key::write_to` and `Key::read_from`.
pub record KeyCodec (K : Type 0) : Type 0 where
  pub write_to : K → List ℕ
  pub read_from : List ℕ → Result (K × List ℕ)

-- The unsigned integers of `width` bytes.
abbrev pub int_codec : ℕ → KeyCodec ℕ
int_codec width = record { write_to = write_le width; read_from = read_le width }

-- `Vec::is_empty`
abbrev pub no_bytes : List ℕ → Bool
no_bytes [] = true
no_bytes (b ∷ bytes) = false

module _ {K : Type 0} ⦃codec : KeyCodec K⦄ where
  pub write_entry : Entry K → List ℕ
  write_entry e = codec.write_to e.key ++ write_le 8 e.offset

  pub read_entry : List ℕ → Result (Entry K × List ℕ)
  read_entry bytes = do
    (key, bytes) ← codec.read_from bytes
    (offset, bytes) ← read_le 8 bytes
    ok (record { key = key; offset = offset }, bytes)

  pub read_entries : ℕ → List ℕ → Result (List (Entry K) × List ℕ)
  read_entries zero bytes = ok ([], bytes)
  read_entries (suc n) bytes = do
    (e, bytes) ← read_entry bytes
    (es, bytes) ← read_entries n bytes
    ok (e ∷ es, bytes)

  pub write_entries : List (Entry K) → List ℕ
  write_entries [] = []
  write_entries (e ∷ es) = write_entry e ++ write_entries es

  unfoldable pub stream_write : Stree K → List ℕ
  unfolding write_entries write_entry
  stream_write t =
      write_entries t.node_items
      ++ (if t.payload_initialized && not (no_bytes t.payload_data) then t.payload_data else [])

  -- All bytes behind the items are the payload section.
  unfoldable pub from_buf : List ℕ → ℕ → ℕ → Result (Stree K)
  unfolding read_entries read_entry first
  from_buf bytes num_items branching_factor = do
    level_bounds ← generate_level_bounds num_items (clamp_factor branching_factor)
    leaves ← first level_bounds
    (items, payload) ← read_entries leaves.end bytes
    ok (record {
      node_items = items;
      num_leaf_nodes = num_items;
      branching_factor = clamp_factor branching_factor;
      level_bounds = level_bounds;
      payload_data = payload;
      payload_initialized = not (no_bytes payload);
    })
