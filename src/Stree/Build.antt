-- ===== src/Stree/Build.antt =====
-- Building the tree of rust/fcb_core/src/static_btree/stree.rs: `init`, `generate_nodes`, `build`.
pub mod Sort
pub mod Collect
pub mod Group
pub mod Round
pub mod Level
pub mod Levels
pub mod Nodes
pub mod Tree
use flatcitybuf.Prelude.{
  ℕ, zero, suc, ◌+◌, ◌-◌, ◌*◌, ◌%◌, true, ◌&&◌, not, List, [], ◌∷◌, ◌++◌, Option, none, some,
  length, replicate, ltb, leb, ◌==◌, if◌then◌else◌,
}
use flatcitybuf.Error.{Result, ok, panic, out_of_fuel, ◌>>=◌}
use flatcitybuf.Levels.{Range}
use flatcitybuf.Array.{at, put, first}
use flatcitybuf.Key.{Key, key_le, key_eq}
use flatcitybuf.Payload
use flatcitybuf.Payload.{PayloadEntry, add_offset, serialize}
use flatcitybuf.Stree.{Entry, Stree, generate_level_bounds, tag, clamp_factor}

module _ {K : Type 0} ⦃key : Key K⦄ where
  pub create : ℕ → Entry K
  create offset = record { key = key.default; offset = offset }

  pub key_min : K → K → K
  key_min a b = if key_le a b then a else b

  -- The map `parent_min_key`, newest first.
  pub get_min : List (ℕ × K) → ℕ → Option K
  get_min [] i = none
  get_min ((j, k) ∷ m) i = if j == i then some k else get_min m i

  pub expect : Option K → Result K
  expect none = panic
  expect (some k) = ok k

  pub unwrap_or_max : Option K → K
  unwrap_or_max none = key.max_value
  unwrap_or_max (some k) = k

-- The variables of `generate_nodes`.
pub record Gen (K : Type 0) : Type 0 where
  pub nodes : List (Entry K)
  pub parent_min_key : List (ℕ × K)
  pub parent_idx : ℕ
  pub child_idx : ℕ

module _ {K : Type 0} ⦃key : Key K⦄ where
  -- The common end of the three branches that write a parent item.
  pub write_parent : ℕ → K → K → Gen K → Result (Gen K)
  write_parent node_size parent_key own_min s = do
    nodes ← put s.nodes s.parent_idx (record { key = parent_key; offset = s.child_idx })
    ok (record {
      nodes = nodes;
      parent_min_key = (s.parent_idx, own_min) ∷ s.parent_min_key;
      parent_idx = s.parent_idx + 1;
      child_idx = s.child_idx + node_size;
    })

  -- `!has_next_node`: the separator of the last node is the greatest key.
  pub last_parent : ℕ → Gen K → Result (Gen K)
  last_parent node_size s = do
    own ← at s.nodes s.child_idx
    write_parent node_size key.max_value
        (key_min own.key (unwrap_or_max (get_min s.parent_min_key s.child_idx))) s

  -- The separator is the first key of the next leaf node.
  pub leaf_parent : ℕ → Gen K → Result (Gen K)
  leaf_parent node_size s = do
    right ← at s.nodes (s.child_idx + node_size)
    own ← at s.nodes s.child_idx
    write_parent node_size right.key own.key s

  -- The separator is the least key below the next node.
  pub inner_parent : ℕ → Gen K → Result (Gen K)
  inner_parent node_size s = do
    parent_key ← expect (get_min s.parent_min_key (s.child_idx + node_size))
    own_min ← expect (get_min s.parent_min_key s.child_idx)
    write_parent node_size parent_key own_min s

  -- One round of the `while` loop over the nodes of a level.
  pub gen_round : ℕ → ℕ → Range → Gen K → Result (Gen K)
  gen_round b first_leaf children s =
      let node_size = b - 1 in
      let r = (s.child_idx - children.start) % (b * node_size) in
      if leb (node_size * node_size) r && ltb r (b * b)
      then ok (record s { child_idx = s.child_idx + node_size })
      else if not (ltb (s.child_idx + node_size) children.end)
      then last_parent node_size s
      else if leb first_leaf s.child_idx
      then leaf_parent node_size s
      else inner_parent node_size s

  -- Each round moves on by a node, so as many rounds as items are enough.
  pub gen_level : ℕ → ℕ → ℕ → Range → Range → Gen K → Result (Gen K)
  gen_level zero b first_leaf children parents s = out_of_fuel
  gen_level (suc fuel) b first_leaf children parents s =
      let next =
        (gen_round b first_leaf children s >>= gen_level fuel b first_leaf children parents) in
      if not (ltb s.child_idx children.end)
      then ok s
      else if leb parents.end s.parent_idx
      then ok s
      else next

  -- The loop over the levels. The nodes and the map live through all of them.
  pub gen_levels : ℕ → ℕ → List Range → List (Entry K) → List (ℕ × K) → Result (List (Entry K))
  gen_levels b first_leaf [] nodes mins = ok nodes
  gen_levels b first_leaf (children ∷ []) nodes mins = ok nodes
  gen_levels b first_leaf (children ∷ parents ∷ bounds) nodes mins = do
    s ← gen_level (children.end - children.start + 1) b first_leaf children parents (record {
      nodes = nodes;
      parent_min_key = mins;
      parent_idx = parents.start;
      child_idx = children.start;
    })
    gen_levels b first_leaf (parents ∷ bounds) s.nodes s.parent_min_key

  unfoldable pub generate_nodes : Stree K → Result (Stree K)
  unfolding gen_levels gen_level gen_round last_parent leaf_parent inner_parent write_parent at put
      expect unwrap_or_max key_min get_min
  generate_nodes t = do
    nodes ←
        gen_levels t.branching_factor (length t.node_items - t.num_leaf_nodes) t.level_bounds
          t.node_items []
    ok (record t { node_items = nodes })

  -- `init`, with the two assertions that `generate_level_bounds` makes again.
  unfoldable pub init : ℕ → Stree K → Result (Stree K)
  unfolding create first generate_level_bounds
  init b t = do
    bounds ← generate_level_bounds t.num_leaf_nodes b
    leaves ← first bounds
    ok (record t {
      branching_factor = b;
      level_bounds = bounds;
      node_items = replicate leaves.end (create 0);
    })

  -- `sort_by_key`, which is stable.
  unfoldable pub insert_sorted : Entry K → List (Entry K) → List (Entry K)
  insert_sorted e [] = e ∷ []
  insert_sorted e (x ∷ xs) = if key_le e.key x.key then e ∷ x ∷ xs else x ∷ insert_sorted e xs

  unfoldable pub sort_by_key : List (Entry K) → List (Entry K)
  unfolding insert_sorted
  sort_by_key [] = []
  sort_by_key (e ∷ es) = insert_sorted e (sort_by_key es)

  -- The inner loop of the grouping: the offsets of the entries with key `k`, and what follows.
  pub collect : K → PayloadEntry → List (Entry K) → PayloadEntry × List (Entry K)
  collect k payload [] = (payload, [])
  collect k payload (e ∷ es) =
      let rest = collect k (add_offset payload e.offset) es in
      if key_eq e.key k then rest else (payload, e ∷ es)

  -- A single offset is kept in the leaf; several go to the payload section behind a tagged pointer.
  pub leaf_for : K → PayloadEntry → List ℕ → Result (Entry K × List ℕ)
  leaf_for k payload payload_data =
      if payload.count == 1
      then at payload.offsets 0 >>= (λ o. ok (record { key = k; offset = o }, payload_data))
      else ok (
        record { key = k; offset = tag (length payload_data) },
        payload_data ++ serialize payload,
      )

  -- The outer loop of the grouping; every round takes an entry at least.
  pub group : ℕ → List (Entry K) → List ℕ → Result (List (Entry K) × List ℕ)
  group fuel [] payload_data = ok ([], payload_data)
  group zero (e ∷ es) payload_data = out_of_fuel
  group (suc fuel) (e ∷ es) payload_data =
      let (payload, rest) = collect e.key (add_offset Payload.new e.offset) es in
      do
        (leaf, payload_data') ← leaf_for e.key payload payload_data
        (leaves, payload_data'') ← group fuel rest payload_data'
        ok (leaf ∷ leaves, payload_data'')

  -- `tree.node_items[i + k] = node` for each leaf in turn.
  pub place : List (Entry K) → ℕ → List (Entry K) → Result (List (Entry K))
  place nodes i [] = ok nodes
  place nodes i (e ∷ es) = do nodes' ← put nodes i e; place nodes' (i + 1) es

  unfoldable pub build : List (Entry K) → ℕ → Result (Stree K)
  unfolding sort_by_key group collect leaf_for place init generate_nodes
  build entries branching_factor = do
    let b = clamp_factor branching_factor
    (leaves, payload_data) ← group (length entries) (sort_by_key entries) []
    tree ← init b (record {
      node_items = [];
      num_leaf_nodes = length leaves;
      branching_factor = b;
      level_bounds = [];
      payload_data = payload_data;
      payload_initialized = true;
    })
    nodes ← place tree.node_items (length tree.node_items - tree.num_leaf_nodes) leaves
    generate_nodes (record tree { node_items = nodes })
