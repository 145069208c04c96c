-- ===== src/RTree/Tests.antt =====
-- Trees over natural coordinates, and the witnesses of the theorems on the packed R-tree.
use flatcitybuf.Prelude.{
  ℕ, ◌+◌, ◌*◌, ◌≤◌, ◌≡◌, ◌↔◌, true, ◌==◌, ◌<◌, refl, arith, List, [], ◌∷◌, All, ltb, leb,
  if◌then◌else◌,
}
use flatcitybuf.Error.{ok, panic}
use flatcitybuf.Levels.Count.{Above}
use flatcitybuf.Levels.Bounds.{Tiles}
use flatcitybuf.Levels.{Range, sum, usize_max}
use flatcitybuf.RTree.{
  Float, IsOrdered, NodeItem, PackedRTree, SearchResultItem, intersects, contains_point,
  calc_extent, generate_level_bounds, index_size, node_item_size,
}
use flatcitybuf.RTree.Bounds.{generate_level_bounds-index_size}
use flatcitybuf.RTree.Overlap.{intersects_iff}
use flatcitybuf.RTree.Box.{Contains, calc_extent-Contains}
use flatcitybuf.RTree.Search.{bbox, point_intersects, hit, search}
use flatcitybuf.RTree.Search.Window.{count_index}
use flatcitybuf.RTree.Build.{build}
use flatcitybuf.RTree.Build.Level.{node_at}
use flatcitybuf.RTree.Build.Tree.{Built, IsResult, build-Built, search-build}

instance abbrev grid : Float ℕ
grid = record { lt = ltb; le = leb; infinity = 1000; neg_infinity = 0 }

grid-IsOrdered : IsOrdered grid
grid-IsOrdered = record {
  irrefl = λ a. ground arith;
  trans = λ a b c h k. ground arith;
  cotrans = λ a b c h k. ground arith;
  le_not_lt = λ a b. ground arith;
}

abbrev cell : ℕ → ℕ → ℕ → NodeItem ℕ
cell x y offset = record { min_x = x; min_y = y; max_x = x + 1; max_y = y + 1; offset = offset }

abbrev cells : List (NodeItem ℕ)
cells = cell 0 0 0 ∷ cell 3 0 50 ∷ cell 3 3 90 ∷ []

abbrev extent : NodeItem ℕ
extent = record { min_x = 0; min_y = 0; max_x = 4; max_y = 4; offset = 0 }

extent_of_cells : calc_extent cells ≡ extent
unfolding calc_extent flatcitybuf.RTree.expand_all flatcitybuf.RTree.expand flatcitybuf.RTree.create
extent_of_cells = refl

abbrev item : ℕ → ℕ → SearchResultItem
item offset index = record { offset = offset; index = index }

abbrev tree : PackedRTree ℕ
tree = record {
  extent = extent;
  node_items =
      record { min_x = 0; min_y = 0; max_x = 4; max_y = 4; offset = 1 }
      ∷ record { min_x = 0; min_y = 0; max_x = 4; max_y = 1; offset = 3 }
      ∷ record { min_x = 3; min_y = 3; max_x = 4; max_y = 4; offset = 5 }
      ∷ cells;
  num_leaf_nodes = 3;
  branching_factor = 2;
  level_bounds =
      record { start = 3; end = 6 }
      ∷ record { start = 1; end = 3 }
      ∷ record { start = 0; end = 1 }
      ∷ [];
}

build-cells : build cells extent 2 ≡ ok tree
unfolding build flatcitybuf.Levels.generate_level_bounds_by
build-cells = refl

search_right : search tree (bbox 2 0 4 4) ≡ ok (item 50 1 ∷ item 90 2 ∷ [])
unfolding search flatcitybuf.Array.first flatcitybuf.Array.at flatcitybuf.RTree.intersects
    flatcitybuf.RTree.contains_point
search_right = refl

search_point : search tree (point_intersects 4 4) ≡ ok (item 90 2 ∷ [])
unfolding search flatcitybuf.Array.first flatcitybuf.Array.at flatcitybuf.RTree.intersects
    flatcitybuf.RTree.contains_point
search_point = refl

search-build_example :
    (t : PackedRTree ℕ) × (rs : List SearchResultItem) × (build cells extent 2 ≡ ok t)
    × (search t (bbox 2 0 4 4) ≡ ok rs)
    × ((p : ℕ)
        → p < 3
        → count_index p rs ≡ (if hit (bbox 2 0 4 4) (node_at grid-IsOrdered cells p) then 1 else 0))
    × All (IsResult grid-IsOrdered cells extent 2 (bbox 2 0 4 4)) rs
search-build_example =
    search-build grid-IsOrdered cells extent 2 (bbox 2 0 4 4)
      (omega arith, omega arith, omega arith)

build-Built_example :
    (t : PackedRTree ℕ) × (build cells extent 2 ≡ ok t) × Built grid-IsOrdered cells extent 2 t
build-Built_example =
    build-Built grid-IsOrdered cells extent 2 (omega arith, omega arith, omega arith)

calc_extent-Contains_example : All (Contains (calc_extent cells)) cells
calc_extent-Contains_example = calc_extent-Contains grid-IsOrdered cells

index_size_example :
    (ms : List ℕ) × (bounds : List Range) × (generate_level_bounds 19 4 ≡ ok bounds)
    × Above (λ m. m == 1) 4 19 ms
    × Tiles (sum (19 ∷ ms)) (19 ∷ ms) bounds
    × (sum (19 ∷ ms) ≤ 3 * 19)
    × (index_size 19 4 ≡ (
        if leb (sum (19 ∷ ms) * node_item_size) usize_max
        then ok (sum (19 ∷ ms) * node_item_size)
        else panic))
index_size_example = generate_level_bounds-index_size 19 4 (omega arith, omega arith, omega arith)

intersects_iff_example : (intersects (cell 0 0 0) (cell 1 1 5) ≡ true) ↔ (
    (x : ℕ) × (y : ℕ) × (contains_point (cell 0 0 0) x y ≡ true)
    × (contains_point (cell 1 1 5) x y ≡ true))
intersects_iff_example =
    intersects_iff grid-IsOrdered (cell 0 0 0) (cell 1 1 5) (record { wide = refl; high = refl })
      (record { wide = refl; high = refl })
