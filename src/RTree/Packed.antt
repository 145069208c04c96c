-- ===== src/RTree/Packed.antt =====
-- The shape of a packed tree of mod.rs: tiled levels, child offsets and boxes.
use flatcitybuf.Prelude.{ℕ, zero, suc, ◌+◌, ◌-◌, ◌*◌, ◌/◌, ◌≤◌, ◌<◌, ◌≡◌, arith, length}
use flatcitybuf.Error.{ok}
use flatcitybuf.Array.{at, first}
use flatcitybuf.Levels.{Range, div_ceil}
use flatcitybuf.RTree.{Float, IsOrdered, NodeItem, PackedRTree}
use flatcitybuf.RTree.Box.{Contains, Contains-refl, Contains-trans}

module _ {F : Type 0} ⦃float : Float F⦄ where
  -- `level` and `node` are the contents of the two arrays, `top` is the level of the root.
  pub record IsPacked (t : PackedRTree F) (level : ℕ → Range) (node : ℕ → NodeItem F) (top : ℕ)
      : Type 0 where
    pub wide : 1 ≤ t.branching_factor
    pub num_levels : length t.level_bounds ≡ suc top
    pub levels : (l : ℕ) → l ≤ top → at t.level_bounds l ≡ ok (level l)
    pub leaves : first t.level_bounds ≡ ok (level 0)
    pub items : (pos : ℕ) → pos < length t.node_items → at t.node_items pos ≡ ok (node pos)
    -- The levels tile the array: the leaves at its end, each level before the one below it, and
    -- the root at 0.
    pub leaves_end : (level 0).end ≡ length t.node_items
    pub leaves_size : (level 0).start + t.num_leaf_nodes ≡ (level 0).end
    pub some_leaf : 1 ≤ t.num_leaf_nodes
    pub above : (l : ℕ) → l < top → (level (suc l)).end ≡ (level l).start
    pub sizes :
        (l : ℕ)
        → l < top
        → (level (suc l)).start + div_ceil ((level l).end - (level l).start) t.branching_factor
          ≡ (level (suc l)).end
    pub root : ((level top).start ≡ 0) × ((level top).end ≡ 1)
    -- Item i of a level points to the children from i * branching_factor on, and its box contains
    -- the box of each.
    pub children :
        (l i : ℕ)
        → l < top
        → (level (suc l)).start + i < (level (suc l)).end
        → (node ((level (suc l)).start + i)).offset ≡ (level l).start + i * t.branching_factor
    pub boxes :
        (l i : ℕ)
        → l < top
        → (level l).start + i < (level l).end
        → Contains
            (node ((level (suc l)).start + i / t.branching_factor))
            (node ((level l).start + i))

  module _ (ord : IsOrdered float) {t : PackedRTree F} {level : ℕ → Range} {node : ℕ → NodeItem F}
      {top : ℕ} (packed : IsPacked t level node top) where
    -- The place of the ancestor of leaf p in level l.
    abbrev pub place_of : ℕ → ℕ → ℕ
    place_of p zero = p
    place_of p (suc l) = place_of p l / t.branching_factor

    pub div_ceil-above : (b x n : ℕ) → 1 ≤ b → x < n → x / b < div_ceil n b
    div_ceil-above b x n h k = grind arith

    pub place_of-lt :
        (p l : ℕ) → p < t.num_leaf_nodes → l ≤ top → (level l).start + place_of p l < (level l).end
    place_of-lt p zero h k = omega (arith, packed.leaves_size)
    place_of-lt p (suc l) h k = omega (
      arith,
      packed.sizes l k,
      div_ceil-above t.branching_factor (place_of p l) ((level l).end - (level l).start) packed.wide
          (omega (arith, place_of-lt p l h (omega arith))),
    )

    pub ancestor_Contains :
        (p l : ℕ)
        → p < t.num_leaf_nodes
        → l ≤ top
        → Contains (node ((level l).start + place_of p l)) (node ((level 0).start + p))
    ancestor_Contains p zero h k = Contains-refl ord _
    ancestor_Contains p (suc l) h k =
        Contains-trans ord _ _ _ (packed.boxes l (place_of p l) k (place_of-lt p l h (omega arith)))
          (ancestor_Contains p l h (omega arith))

    pub level-le : (l : ℕ) → l ≤ top → (level l).end ≤ length t.node_items
    level-le zero k = omega (arith, packed.leaves_end)
    level-le (suc l) k =
        omega (arith, packed.above l k, start-le-end l (omega arith), level-le l (omega arith))
      where
        start-le-end : (l : ℕ) → l ≤ top → (level l).start ≤ (level l).end
        start-le-end zero k = omega (arith, packed.leaves_size)
        start-le-end (suc l) k = omega (arith, packed.sizes l k)

    -- An internal level ends where the leaves start or before.
    pub inner-le-leaves : (l : ℕ) → suc l ≤ top → (level (suc l)).end ≤ (level 0).start
    inner-le-leaves zero k = omega (arith, packed.above 0 k)
    inner-le-leaves (suc l) k = omega (
      arith,
      packed.above (suc l) k,
      packed.sizes l (omega arith),
      inner-le-leaves l (omega arith),
    )
