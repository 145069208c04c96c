-- ===== src/RTree/Codec/RoundTrip.antt =====
-- `from_buf` after `stream_write`, in mod.rs.
use flatcitybuf.Prelude.{
  ℕ, ◌≤◌, ◌<◌, ◌^◌, ◌≡◌, refl, ap, ◌∙◌, arith, List, [], ◌∷◌, ◌++◌, append_assoc, length, All,
}
use flatcitybuf.Error.{ok}
use flatcitybuf.Array.{first}
use flatcitybuf.Bytes.{write_le}
use flatcitybuf.Bytes.RoundTrip.{read_le-write_le}
use flatcitybuf.Levels.{Range}
use flatcitybuf.RTree.{Float, NodeItem, PackedRTree, create, expand_all, generate_level_bounds}
use flatcitybuf.RTree.Codec.{
  FloatBits, write_f64, read_f64, write, from_reader, read_node_vec, write_items, stream_write,
  from_buf, clamp_size,
}

-- The documented behaviour of `to_bits` and `from_bits`: 64 bits, and the same value back.
pub record IsFaithful {F : Type 0} (float_bits : FloatBits F) : Type 0 where
  pub small : (x : F) → float_bits.to_bits x < 256 ^ 8
  pub back : (x : F) → float_bits.from_bits (float_bits.to_bits x) ≡ x

module _ {F : Type 0} ⦃float_bits : FloatBits F⦄ (faithful : IsFaithful float_bits) where
  read_f64-write_f64 : (x : F) (rest : List ℕ) → read_f64 (write_f64 x ++ rest) ≡ ok (x, rest)
  read_f64-write_f64 x rest =
      rw (read_le-write_le 8 (float_bits.to_bits x) rest (faithful.small x), faithful.back x) refl

  -- The offset of an item fits its 64 bits.
  abbrev pub HasU64 : NodeItem F → Type 0
  HasU64 item = item.offset < 256 ^ 8

  spread :
      (a b c d e rest : List ℕ)
      → (a ++ (b ++ (c ++ (d ++ e)))) ++ rest ≡ a ++ (b ++ (c ++ (d ++ (e ++ rest))))
  spread a b c d e rest =
      append_assoc a (b ++ (c ++ (d ++ e))) rest
      ∙ ap (λ (t : List ℕ). a ++ t)
          (append_assoc b (c ++ (d ++ e)) rest
            ∙ ap (λ (t : List ℕ). b ++ t)
                (append_assoc c (d ++ e) rest
                  ∙ ap (λ (t : List ℕ). c ++ t) (append_assoc d e rest)))

  from_reader-write :
      (item : NodeItem F) (rest : List ℕ)
      → HasU64 item
      → from_reader (write item ++ rest) ≡ ok (item, rest)
  unfolding from_reader write
  from_reader-write item rest h =
      ap from_reader (
        spread (write_f64 item.min_x) (write_f64 item.min_y) (write_f64 item.max_x)
          (write_f64 item.max_y) (write_le 8 item.offset) rest)
      ∙ rw
          (
            read_f64-write_f64 item.min_x,
            read_f64-write_f64 item.min_y,
            read_f64-write_f64 item.max_x,
            read_f64-write_f64 item.max_y,
            read_le-write_le 8 item.offset rest h,
          )
          refl

  read_node_vec-write_items :
      (items : List (NodeItem F)) (rest : List ℕ)
      → All HasU64 items
      → read_node_vec (length items) (write_items items ++ rest) ≡ ok (items, rest)
  unfolding read_node_vec write_items
  read_node_vec-write_items [] rest hs = refl
  read_node_vec-write_items (item ∷ items) rest (h, hs) =
      rw
        (
          append_assoc (write item) (write_items items) rest,
          from_reader-write item (write_items items ++ rest) h,
          read_node_vec-write_items items rest hs,
        )
        refl

  -- A tree whose levels are those of its leaf count and its branching factor, with an item for each
  -- place of the levels and offsets of 64 bits, is read back from the bytes that `stream_write`
  -- writes and whatever follows them, up to the extent, which is that of all its items.
  pub from_buf-stream_write :
      ⦃float : Float F⦄ (t : PackedRTree F) (leaves : Range) (rest : List ℕ)
      → 2 ≤ t.branching_factor
      → t.branching_factor ≤ 65535
      → generate_level_bounds t.num_leaf_nodes t.branching_factor ≡ ok t.level_bounds
      → first t.level_bounds ≡ ok leaves
      → leaves.end ≡ length t.node_items
      → All HasU64 t.node_items
      → from_buf (stream_write t ++ rest) t.num_leaf_nodes t.branching_factor
        ≡ ok (record t { extent = expand_all (create 0) t.node_items })
  unfolding from_buf stream_write
  from_buf-stream_write t leaves rest wide narrow bounds start end words =
      let same : clamp_size t.branching_factor ≡ t.branching_factor = ground arith in
      rw (same, bounds, start, end, read_node_vec-write_items t.node_items rest words) refl
