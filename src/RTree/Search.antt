-- ===== src/RTree/Search.antt =====
-- `search` of rust/fcb_core/src/packed_rtree/mod.rs for the bounding-box and the point query: one
-- breadth-first loop, with the query's test on a node item as a parameter.
pub mod Window
pub mod Scan
pub mod Complete
use flatcitybuf.Prelude.{
  ℕ, zero, suc, ◌+◌, ◌-◌, ◌^◌, Bool, true, false, List, [], ◌∷◌, ◌++◌, length, leb, ◌==◌,
  if◌then◌else◌, min,
}
use flatcitybuf.Error.{Result, ok, panic, out_of_fuel, ◌>>=◌}
use flatcitybuf.Levels.{Range}
use flatcitybuf.Array.{at, first}
use flatcitybuf.RTree.{
  Float, NodeItem, PackedRTree, SearchResultItem, bounds, intersects, contains_point,
}

pub data Query (F : Type 0) : Type 0 where
  bbox : F → F → F → F → Query F
  point_intersects : F → F → Query F

module _ {F : Type 0} ⦃float : Float F⦄ where
  -- The test of the two query kinds on a node item.
  unfoldable pub hit : Query F → NodeItem F → Bool
  hit (bbox min_x min_y max_x max_y) item = intersects (bounds min_x min_y max_x max_y) item
  hit (point_intersects x y) item = contains_point item x y

module _ {F : Type 0} (test : NodeItem F → Bool) (t : PackedRTree F) (leaf_nodes_offset : ℕ) where
  -- What one node item that passes the test adds to the pairs queued and the items found.
  -- `level - 1` overflows at a level 0 that is taken for an internal one.
  pub keep :
      Bool
      → ℕ
      → ℕ
      → NodeItem F
      → List (ℕ × ℕ) × List SearchResultItem
      → Result (List (ℕ × ℕ) × List SearchResultItem)
  keep true level pos item (queued, items) =
      ok (queued, record { offset = item.offset; index = pos - leaf_nodes_offset } ∷ items)
  keep false zero pos item later = panic
  keep false (suc level) pos item (queued, items) = ok ((item.offset, level) ∷ queued, items)

  -- `for pos in node_index..end`
  pub scan : Bool → ℕ → ℕ → ℕ → Result (List (ℕ × ℕ) × List SearchResultItem)
  scan is_leaf_node level pos zero = ok ([], [])
  scan is_leaf_node level pos (suc n) = do
    node_item ← at t.node_items pos
    later ← scan is_leaf_node level (pos + 1) n
    if test node_item then keep is_leaf_node level pos node_item later else ok later

  -- The body of the `while let` loop.
  pub visit : ℕ → ℕ → Result (List (ℕ × ℕ) × List SearchResultItem)
  visit node_index level = do
    level_bound ← at t.level_bounds level
    scan (leb (length t.node_items - t.num_leaf_nodes) node_index) level node_index
        (min (node_index + t.branching_factor) level_bound.end - node_index)

  pub search_loop : ℕ → List (ℕ × ℕ) → List SearchResultItem → Result (List SearchResultItem)
  search_loop zero queue results = out_of_fuel
  search_loop (suc fuel) [] results = ok results
  search_loop (suc fuel) ((node_index, level) ∷ queue) results = do
    (queued, items) ← visit node_index level
    search_loop fuel (queue ++ queued) (results ++ items)

-- A node of level l has at most `branching_factor` children of level l - 1, so that
-- (branching_factor + 1) ^ level rounds serve it and all below it.
unfoldable pub search :
    {F : Type 0} ⦃float : Float F⦄ → PackedRTree F → Query F → Result (List SearchResultItem)
unfolding search_loop visit scan keep hit
search t query = do
  leaves ← first t.level_bounds
  let top = length t.level_bounds - 1
  search_loop (hit query) t leaves.start ((t.branching_factor + 1) ^ top + 1) ((0, top) ∷ []) []
