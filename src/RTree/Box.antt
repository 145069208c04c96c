-- ===== src/RTree/Box.antt =====
-- Boxes of mod.rs that contain one another, and the tests of the two queries.
use flatcitybuf.Prelude.{ℕ, refl, ◌≡◌, arith, true, false, List, [], ◌∷◌, All}
use flatcitybuf.RTree.{
  Float, IsOrdered, NodeItem, expand, expand_all, create, calc_extent, intersects, contains_point,
}
use flatcitybuf.RTree.Search.{Query, bbox, point_intersects, hit}

module _ {F : Type 0} ⦃float : Float F⦄ where
  -- No side of `small` lies outside `big`.
  pub record Contains (big small : NodeItem F) : Type 0 where
    pub left : float.lt small.min_x big.min_x ≡ false
    pub bottom : float.lt small.min_y big.min_y ≡ false
    pub right : float.lt big.max_x small.max_x ≡ false
    pub top : float.lt big.max_y small.max_y ≡ false

  module _ (ord : IsOrdered float) where
    pub Contains-refl : (a : NodeItem F) → Contains a a
    Contains-refl a = record {
      left = ord.irrefl a.min_x;
      bottom = ord.irrefl a.min_y;
      right = ord.irrefl a.max_x;
      top = ord.irrefl a.max_y;
    }

    pub Contains-trans : (a b c : NodeItem F) → Contains a b → Contains b c → Contains a c
    Contains-trans a b c h k = record {
      left = ord.cotrans c.min_x b.min_x a.min_x k.left h.left;
      bottom = ord.cotrans c.min_y b.min_y a.min_y k.bottom h.bottom;
      right = ord.cotrans a.max_x b.max_x c.max_x h.right k.right;
      top = ord.cotrans a.max_y b.max_y c.max_y h.top k.top;
    }

    not_both : (a b : F) → float.lt a b ≡ true → float.lt b a ≡ false
    not_both a b h = ground (arith, ord.trans a b a, ord.irrefl a)

    -- `expand` contains the box that it grew from and the one that it took in.
    pub expand-Contains : (a b : NodeItem F) → Contains (expand a b) a × Contains (expand a b) b
    unfolding expand
    expand-Contains a b = (
      record {
        left = ground (arith, ord.irrefl a.min_x, not_both b.min_x a.min_x);
        bottom = ground (arith, ord.irrefl a.min_y, not_both b.min_y a.min_y);
        right = ground (arith, ord.irrefl a.max_x, not_both a.max_x b.max_x);
        top = ground (arith, ord.irrefl a.max_y, not_both a.max_y b.max_y);
      },
      record {
        left = ground (arith, ord.irrefl b.min_x);
        bottom = ground (arith, ord.irrefl b.min_y);
        right = ground (arith, ord.irrefl b.max_x);
        top = ground (arith, ord.irrefl b.max_y);
      },
    )

    expand_all-Contains :
        (a : NodeItem F) (bs : List (NodeItem F))
        → Contains (expand_all a bs) a × All (Contains (expand_all a bs)) bs
    unfolding expand_all
    expand_all-Contains a [] = (Contains-refl a, tt)
    expand_all-Contains a (b ∷ bs) =
        let (grown, rest) = expand_all-Contains (expand a b) bs in
        let (old, new) = expand-Contains a b in
        (Contains-trans _ _ _ grown old, (Contains-trans _ _ _ grown new, rest))

    -- When the coordinates are ordered as IEEE 754 values that are not NaN, the extent that
    -- `calc_extent` computes contains every box of the list.
    pub calc_extent-Contains :
        (nodes : List (NodeItem F)) → All (Contains (calc_extent nodes)) nodes
    unfolding calc_extent
    calc_extent-Contains nodes = (expand_all-Contains (create 0) nodes).1

    -- What a query hits inside a box it hits the box for.
    pub hit-Contains :
        (q : Query F) (big small : NodeItem F)
        → Contains big small
        → hit q small ≡ true
        → hit q big ≡ true
    unfolding hit intersects contains_point
    hit-Contains (bbox x y x' y') big small c h = ground (
      arith,
      ord.cotrans x' small.min_x big.min_x,
      ord.cotrans y' small.min_y big.min_y,
      ord.cotrans big.max_x small.max_x x,
      ord.cotrans big.max_y small.max_y y,
    )
    hit-Contains (point_intersects x y) big small c h = ground (
      arith,
      ord.le_not_lt small.min_x x,
      ord.le_not_lt small.min_y y,
      ord.le_not_lt x small.max_x,
      ord.le_not_lt y small.max_y,
      ord.le_not_lt big.min_x x,
      ord.le_not_lt big.min_y y,
      ord.le_not_lt x big.max_x,
      ord.le_not_lt y big.max_y,
      ord.cotrans x small.min_x big.min_x,
      ord.cotrans y small.min_y big.min_y,
      ord.cotrans big.max_x small.max_x x,
      ord.cotrans big.max_y small.max_y y,
    )

-- Where a box points to does not matter to a query.
pub hit-offset :
    {F : Type 0} ⦃float : Float F⦄ (q : Query F) (a : NodeItem F) (o : ℕ)
    → hit q (record a { offset = o }) ≡ hit q a
unfolding hit intersects contains_point
hit-offset (bbox min_x min_y max_x max_y) a o = refl
hit-offset (point_intersects x y) a o = refl
