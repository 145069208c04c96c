-- ===== src/RTree.antt =====
-- The packed Hilbert R-tree of rust/fcb_core/src/packed_rtree/mod.rs: `NodeItem`,
-- `generate_level_bounds`, `generate_nodes`, `build`, the bounding-box and point queries of
-- `search`, `index_size`. Coordinates are `f64`, taken as a type with its comparisons.
pub mod Build
pub mod Bounds
pub mod Search
pub mod Box
pub mod Overlap
pub mod Codec
pub mod Packed
pub mod Hilbert
mod Tests
use flatcitybuf.Prelude.{
  ℕ, ◌+◌, ◌-◌, ◌*◌, ◌≡◌, Bool, true, false, not, ◌&&◌, List, [], ◌∷◌, ==_refl, ◌==◌, if◌then◌else◌,
}
use flatcitybuf.Error.{Result, ok, panic, map_ok, ◌>>=◌}
use flatcitybuf.Levels.{Range, generate_level_bounds_by, num_nodes_by, checked}

-- `f64`: the comparisons `<` and `<=`, and the two infinities.
pub record Float (F : Type 0) : Type 0 where
  pub lt : F → F → Bool
  pub le : F → F → Bool
  pub infinity : F
  pub neg_infinity : F

-- The IEEE 754 comparisons on values that are not NaN: `<` is a strict total order below `<=`.
pub record IsOrdered {F : Type 0} (float : Float F) : Type 0 where
  pub irrefl : (a : F) → float.lt a a ≡ false
  pub trans : (a b c : F) → float.lt a b ≡ true → float.lt b c ≡ true → float.lt a c ≡ true
  pub cotrans : (a b c : F) → float.lt a b ≡ false → float.lt b c ≡ false → float.lt a c ≡ false
  pub le_not_lt : (a b : F) → float.le a b ≡ not (float.lt b a)

pub record NodeItem (F : Type 0) : Type 0 where
  pub min_x : F
  pub min_y : F
  pub max_x : F
  pub max_y : F
  pub offset : ℕ

-- `NodeItem::bounds`
abbrev pub bounds : {F : Type 0} → F → F → F → F → NodeItem F
bounds min_x min_y max_x max_y = record {
  min_x = min_x;
  min_y = min_y;
  max_x = max_x;
  max_y = max_y;
  offset = 0;
}

module _ {F : Type 0} ⦃float : Float F⦄ where
  -- `NodeItem::create`: the empty box.
  pub create : ℕ → NodeItem F
  create offset = record {
    min_x = float.infinity;
    min_y = float.infinity;
    max_x = float.neg_infinity;
    max_y = float.neg_infinity;
    offset = offset;
  }

  pub expand : NodeItem F → NodeItem F → NodeItem F
  expand self r = record self {
    min_x = if float.lt r.min_x self.min_x then r.min_x else self.min_x;
    min_y = if float.lt r.min_y self.min_y then r.min_y else self.min_y;
    max_x = if float.lt self.max_x r.max_x then r.max_x else self.max_x;
    max_y = if float.lt self.max_y r.max_y then r.max_y else self.max_y;
  }

  pub intersects : NodeItem F → NodeItem F → Bool
  intersects self r =
      if float.lt self.max_x r.min_x
      then false
      else if float.lt self.max_y r.min_y
      then false
      else if float.lt r.max_x self.min_x
      then false
      else if float.lt r.max_y self.min_y
      then false
      else true

  pub contains_point : NodeItem F → F → F → Bool
  contains_point self x y =
      float.le self.min_x x
      && (float.le x self.max_x && (float.le self.min_y y && float.le y self.max_y))

  -- `calc_extent`
  pub expand_all : NodeItem F → List (NodeItem F) → NodeItem F
  expand_all a [] = a
  expand_all a (b ∷ bs) = expand_all (expand a b) bs

  unfoldable pub calc_extent : List (NodeItem F) → NodeItem F
  unfolding expand_all expand
  calc_extent nodes = expand_all (create 0) nodes

pub record PackedRTree (F : Type 0) : Type 0 where
  pub extent : NodeItem F
  pub node_items : List (NodeItem F)
  pub num_leaf_nodes : ℕ
  pub branching_factor : ℕ
  pub level_bounds : List Range

pub record SearchResultItem : Type 0 where
  pub offset : ℕ
  pub index : ℕ

-- The loop ends at a level of one node.
unfoldable pub generate_level_bounds : ℕ → ℕ → Result (List Range)
generate_level_bounds num_items b = generate_level_bounds_by (λ n. n == 1) num_items b

-- `size_of::<NodeItem>()`
abbrev pub node_item_size : ℕ
node_item_size = 40

-- A sum of some levels that overflows is part of a count that does.
unfoldable pub index_size : ℕ → ℕ → Result ℕ
index_size num_items b = do
  num_nodes ← num_nodes_by (λ n. n == 1) num_items b
  num_nodes ← checked num_nodes
  checked (num_nodes * node_item_size)
