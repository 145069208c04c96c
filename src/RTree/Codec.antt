-- ===== src/RTree/Codec.antt =====
-- Reading and writing of a tree in rust/fcb_core/src/packed_rtree/mod.rs: `NodeItem::write` and
-- `from_reader`, `read_node_vec`, `read_data`, `stream_write` and `from_buf`. The bits of an `f64`
-- are a parameter.
pub mod RoundTrip
mod Tests
use flatcitybuf.Prelude.{ℕ, zero, suc, List, [], ◌∷◌, ◌++◌, ltb, if◌then◌else◌}
use flatcitybuf.Error.{Result, ok, ◌>>=◌}
use flatcitybuf.Array.{first}
use flatcitybuf.Bytes.{write_le, read_le}
use flatcitybuf.RTree.{Float, NodeItem, PackedRTree, create, expand_all, generate_level_bounds}

-- `f64::to_bits` and `f64::from_bits`.
pub record FloatBits (F : Type 0) : Type 0 where
  pub to_bits : F → ℕ
  pub from_bits : ℕ → F

-- `clamp(2, 65535)` of a node size.
abbrev pub clamp_size : ℕ → ℕ
clamp_size n = if ltb n 2 then 2 else if ltb 65535 n then 65535 else n

module _ {F : Type 0} ⦃float_bits : FloatBits F⦄ where
  abbrev pub write_f64 : F → List ℕ
  write_f64 x = write_le 8 (float_bits.to_bits x)

  abbrev pub read_f64 : List ℕ → Result (F × List ℕ)
  read_f64 bytes = do (bits, rest) ← read_le 8 bytes; ok (float_bits.from_bits bits, rest)

  unfoldable pub write : NodeItem F → List ℕ
  write item =
      write_f64 item.min_x
      ++ (write_f64 item.min_y
          ++ (write_f64 item.max_x ++ (write_f64 item.max_y ++ write_le 8 item.offset)))

  -- The item and the reader behind it.
  unfoldable pub from_reader : List ℕ → Result (NodeItem F × List ℕ)
  from_reader bytes = do
    (min_x, bytes) ← read_f64 bytes
    (min_y, bytes) ← read_f64 bytes
    (max_x, bytes) ← read_f64 bytes
    (max_y, bytes) ← read_f64 bytes
    (offset, bytes) ← read_le 8 bytes
    ok (
      record { min_x = min_x; min_y = min_y; max_x = max_x; max_y = max_y; offset = offset },
      bytes,
    )

  -- As many items as the vector was made for.
  pub read_node_vec : ℕ → List ℕ → Result (List (NodeItem F) × List ℕ)
  read_node_vec zero bytes = ok ([], bytes)
  read_node_vec (suc n) bytes = do
    (item, bytes) ← from_reader bytes
    (items, bytes) ← read_node_vec n bytes
    ok (item ∷ items, bytes)

  pub write_items : List (NodeItem F) → List ℕ
  write_items [] = []
  write_items (item ∷ items) = write item ++ write_items items

  unfoldable pub stream_write : PackedRTree F → List ℕ
  unfolding write_items write
  stream_write t = write_items t.node_items

  -- `from_buf`, whose `read_data` also grows the extent over all items.
  unfoldable pub from_buf : ⦃float : Float F⦄ → List ℕ → ℕ → ℕ → Result (PackedRTree F)
  unfolding read_node_vec from_reader first
  from_buf bytes num_items node_size = do
    level_bounds ← generate_level_bounds num_items (clamp_size node_size)
    leaves ← first level_bounds
    (items, rest) ← read_node_vec leaves.end bytes
    ok (record {
      extent = expand_all (create 0) items;
      node_items = items;
      num_leaf_nodes = num_items;
      branching_factor = clamp_size node_size;
      level_bounds = level_bounds;
    })
