-- ===== src/RTree/Build.antt =====
-- `init`, `generate_nodes` and `build` of rust/fcb_core/src/packed_rtree/mod.rs.
pub mod Level
pub mod Levels
pub mod Tree
use flatcitybuf.Prelude.{
  ℕ, zero, suc, ◌+◌, ◌-◌, ◌&&◌, not, Bool, List, [], ◌∷◌, length, replicate, ltb, leb,
  if◌then◌else◌,
}
use flatcitybuf.Error.{Result, ok, panic, out_of_fuel, ◌>>=◌}
use flatcitybuf.Array.{at, put, first}
use flatcitybuf.Levels.{Range}
use flatcitybuf.RTree.{Float, NodeItem, PackedRTree, create, expand, generate_level_bounds}

module _ {F : Type 0} ⦃float : Float F⦄ where
  -- `for _j in 0..branching_factor`: the box of the children, and the child index behind them.
  pub expand_children : List (NodeItem F) → ℕ → ℕ → NodeItem F → ℕ → Result (NodeItem F × ℕ)
  expand_children nodes end zero parent_node child_idx = ok (parent_node, child_idx)
  expand_children nodes end (suc n) parent_node child_idx =
      let next =
        (at nodes child_idx >>= λ child.
        expand_children nodes end n (expand parent_node child) (child_idx + 1)) in
      if leb end child_idx then ok (parent_node, child_idx) else next

  -- `while child_idx < children_level.end`; each round takes a child at least.
  pub gen_level : ℕ → ℕ → ℕ → ℕ → ℕ → List (NodeItem F) → Result (List (NodeItem F))
  gen_level zero b end parent_idx child_idx nodes = out_of_fuel
  gen_level (suc fuel) b end parent_idx child_idx nodes =
      let body : Result (List (NodeItem F)) = (do
        (parent_node, child_idx') ← expand_children nodes end b (create child_idx) child_idx
        nodes' ← put nodes parent_idx parent_node
        gen_level fuel b end (parent_idx + 1) child_idx' nodes') in
      if ltb child_idx end then body else ok nodes

  pub gen_levels : ℕ → List Range → List (NodeItem F) → Result (List (NodeItem F))
  gen_levels b [] nodes = ok nodes
  gen_levels b (children_level ∷ []) nodes = ok nodes
  gen_levels b (children_level ∷ parent_level ∷ bounds) nodes = do
    nodes' ←
        gen_level (children_level.end - children_level.start + 1) b children_level.end
          parent_level.start children_level.start nodes
    gen_levels b (parent_level ∷ bounds) nodes'

  unfoldable pub generate_nodes : PackedRTree F → Result (PackedRTree F)
  unfolding gen_levels gen_level expand_children create expand at put
  generate_nodes t = do
    nodes ← gen_levels t.branching_factor t.level_bounds t.node_items
    ok (record t { node_items = nodes })

  -- `tree.node_items[i] = node` for each leaf in turn.
  pub place : List (NodeItem F) → ℕ → List (NodeItem F) → Result (List (NodeItem F))
  place nodes i [] = ok nodes
  place nodes i (leaf ∷ leaves) = do nodes' ← put nodes i leaf; place nodes' (i + 1) leaves

  -- A node size is a `u16`, at most 65535, so that `clamp` changes none that passes the assertion.
  unfoldable pub init : ℕ → PackedRTree F → Result (PackedRTree F)
  unfolding first generate_level_bounds create
  init node_size t = do
    level_bounds ← generate_level_bounds t.num_leaf_nodes node_size
    leaves ← first level_bounds
    ok (record t {
      branching_factor = node_size;
      level_bounds = level_bounds;
      node_items = replicate leaves.end (create 0);
    })

  unfoldable pub build : List (NodeItem F) → NodeItem F → ℕ → Result (PackedRTree F)
  unfolding init place generate_nodes
  build nodes extent node_size = do
    tree ← init node_size (record {
      extent = extent;
      node_items = [];
      num_leaf_nodes = length nodes;
      branching_factor = 0;
      level_bounds = [];
    })
    node_items ← place tree.node_items (length tree.node_items - tree.num_leaf_nodes) nodes
    generate_nodes (record tree { node_items = node_items })
