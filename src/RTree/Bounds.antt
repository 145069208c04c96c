-- ===== src/RTree/Bounds.antt =====
-- The levels of the R-tree of mod.rs and the size of its index.
use flatcitybuf.Prelude.{ℕ, ◌*◌, ◌≤◌, ◌≡◌, arith, List, ◌∷◌, false, ◌==◌, leb, if◌then◌else◌}
use flatcitybuf.Error.{ok, panic}
use flatcitybuf.Levels.{Range, sum, usize_max}
use flatcitybuf.Levels.Count.{Above, Above-sum}
use flatcitybuf.Levels.Bounds.{
  Accepted, Tiles, checked-product, generate_level_bounds_by-num_nodes_by,
}
use flatcitybuf.RTree.{generate_level_bounds, index_size, node_item_size}

pub two_or_more : (m : ℕ) → 1 ≤ m → (m == 1) ≡ false → 2 ≤ m
two_or_more m p h = ground arith

-- On inputs that the assertions let pass `generate_level_bounds` returns ranges that tile the
-- array of nodes from the leaves at its end to the root at 0, each level a `b`-th of the one below
-- it, rounded up. The array has at most three times as many nodes as items, and `index_size` is 40
-- bytes for each of its nodes, or overflows when that is not a `usize`.
pub generate_level_bounds-index_size :
    (num_items b : ℕ)
    → Accepted num_items b
    → (ms : List ℕ) × (bounds : List Range) × (generate_level_bounds num_items b ≡ ok bounds)
      × Above (λ m. m == 1) b num_items ms
      × Tiles (sum (num_items ∷ ms)) (num_items ∷ ms) bounds
      × (sum (num_items ∷ ms) ≤ 3 * num_items)
      × (index_size num_items b ≡ (
          if leb (sum (num_items ∷ ms) * node_item_size) usize_max
          then ok (sum (num_items ∷ ms) * node_item_size)
          else panic))
unfolding generate_level_bounds index_size
generate_level_bounds-index_size num_items b (wide, some_items, small) =
    let (ms, bounds, found, above, tiles, count) =
      generate_level_bounds_by-num_nodes_by (λ m. m == 1) two_or_more num_items b
        (wide, some_items, small) in
    (
      ms,
      bounds,
      found,
      above,
      tiles,
      omega (arith, Above-sum (λ m. m == 1) two_or_more b wide num_items ms some_items above),
      rw count (checked-product (sum (num_items ∷ ms)) node_item_size (omega arith)),
    )
