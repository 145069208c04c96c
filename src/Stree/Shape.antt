-- ===== src/Stree/Shape.antt =====
-- The shape of a B+tree of rust/fcb_core/src/static_btree/stree.rs that the searches rely on.
use flatcitybuf.Prelude.{
  ℕ, zero, suc, ◌+◌, ◌-◌, ◌*◌, ◌/◌, ◌≤◌, ◌<◌, ◌≡◌, arith, true, length, get_or, ltb, if◌then◌else◌,
}
use flatcitybuf.Levels.{Range, div_ceil}
use flatcitybuf.Levels.Shape.{no_range}
use flatcitybuf.Key.{Key, key_lt}
use flatcitybuf.Stree.{Entry, Stree}

-- With `s` items to a node there are `s + 1` children: the nodes of the leaf level below one node
-- of level `l`.
abbrev pub power : ℕ → ℕ → ℕ
power s zero = 1
power s (suc l) = power s l * (s + 1)

-- The number of leaves below one node of level `l`.
abbrev pub unit : ℕ → ℕ → ℕ
unit s l = power s l * s

-- The node on the left of separator `i` of a level, counted from the start of the level below:
-- a node of `s` separators has one child more.
abbrev pub child : ℕ → ℕ → ℕ
child s i = i + i / s

pub regroup : (x p s : ℕ) → x * (p * (s + 1)) ≡ x * (s + 1) * p
regroup x p s = grind arith

pub div_ceil_iff :
    (s x m : ℕ)
    → ((x < div_ceil m (s + 1)) → x * (s + 1) < m) × (x * (s + 1) < m → x < div_ceil m (s + 1))
div_ceil_iff s x m = (λ h. grind arith, λ h. grind arith)

module _ {K : Type 0} ⦃key : Key K⦄ where
  abbrev pub no_entry : Entry K
  no_entry = record { key = key.default; offset = 0 }

  module _ (t : Stree K) where
    abbrev pub item : ℕ → Entry K
    item pos = get_or t.node_items pos no_entry

    abbrev pub level : ℕ → Range
    level l = get_or t.level_bounds l no_range

    abbrev pub leaf : ℕ → Entry K
    leaf p = item ((level 0).start + p)

    -- The key of leaf `p`, behind the last leaf the greatest of all.
    abbrev pub boundary : ℕ → K
    boundary p = if ltb p t.num_leaf_nodes then (leaf p).key else key.max_value

    -- A tree with nodes of `s` items whose top level is `top`.
    pub record IsTree (s top : ℕ) : Type 0 where
      pub wide : 1 ≤ s
      pub factor : t.branching_factor ≡ s + 1
      pub num_levels : length t.level_bounds ≡ suc top
      -- The levels tile the array, the leaves at its end, each level a (s + 1)-th of the one below.
      pub leaves_end : (level 0).end ≡ length t.node_items
      pub leaves_size : (level 0).start + t.num_leaf_nodes ≡ (level 0).end
      pub some_leaf : 1 ≤ t.num_leaf_nodes
      pub above : (l : ℕ) → l < top → (level (suc l)).end ≡ (level l).start
      pub sizes :
          (l : ℕ)
          → l < top
          → (level (suc l)).start + div_ceil ((level l).end - (level l).start) (s + 1)
            ≡ (level (suc l)).end
      -- The top level is one node.
      pub root_start : (level top).start ≡ 0
      pub root_end : (level top).end ≤ s
      -- The leaves have their keys in strictly ascending order.
      pub ascending :
          (p q : ℕ) → p < q → q < t.num_leaf_nodes → key_lt (leaf p).key (leaf q).key ≡ true
      -- Separator `i` points to the node on its left and has the least key of the node on its
      -- right.
      pub offsets :
          (l i : ℕ)
          → l < top
          → (level (suc l)).start + i < (level (suc l)).end
          → (item ((level (suc l)).start + i)).offset ≡ (level l).start + child s i * s
      pub keys :
          (l i : ℕ)
          → l < top
          → (level (suc l)).start + i < (level (suc l)).end
          → (item ((level (suc l)).start + i)).key ≡ boundary (suc (child s i) * unit s l)

    module _ {s top : ℕ} (tree : IsTree s top) where
      abbrev pub size : ℕ → ℕ
      size l = (level l).end - (level l).start

      size-suc : (l : ℕ) → l < top → size (suc l) ≡ div_ceil (size l) (s + 1)
      size-suc l h = omega (arith, tree.sizes l h)

      -- Item x of level l stands over leaf x * power s l.
      pub size_iff :
          (l x : ℕ)
          → l ≤ top
          → (x < size l → x * power s l < t.num_leaf_nodes)
            × (x * power s l < t.num_leaf_nodes → x < size l)
      size_iff zero x h =
          (λ k. omega (arith, tree.leaves_size), λ k. omega (arith, tree.leaves_size))
      size_iff (suc l) x h =
          let (down, up) = size_iff l (x * (s + 1)) (omega arith) in
          let (down', up') = div_ceil_iff s x (size l) in
          (
            λ k. omega (arith, regroup x (power s l) s, down (down' (omega (arith, size-suc l h)))),
            λ k. omega (arith, size-suc l h, up' (up (omega (arith, regroup x (power s l) s)))),
          )

      pub level-le :
          (l : ℕ)
          → l ≤ top
          → ((level l).start ≤ (level l).end) × ((level l).end ≤ length t.node_items)
      level-le zero h = (omega (arith, tree.leaves_size), omega (arith, tree.leaves_end))
      level-le (suc l) h =
          let (a, b) = level-le l (omega arith) in
          (omega (arith, tree.sizes l h), omega (arith, tree.above l h))
