-- ===== src/RTree/Overlap.antt =====
-- The tests `intersects` and `contains_point` of mod.rs.
use flatcitybuf.Prelude.{◌≡◌, ◌↔◌, refl, arith, true, false, Bool-cases, inl, inr}
use flatcitybuf.RTree.{Float, IsOrdered, NodeItem, intersects, contains_point}

module _ {F : Type 0} ⦃float : Float F⦄ (ord : IsOrdered float) where
  -- The sides of the box are in order, so that it has a point.
  pub record IsBox (a : NodeItem F) : Type 0 where
    pub wide : float.lt a.max_x a.min_x ≡ false
    pub high : float.lt a.max_y a.min_y ≡ false

  le_true : (a b : F) → float.lt b a ≡ false → float.le a b ≡ true
  le_true a b h = rw (ord.le_not_lt a b, h) refl

  lt_false : (a b : F) → float.le a b ≡ true → float.lt b a ≡ false
  lt_false a b h = ground (arith, ord.le_not_lt a b)

  lt_asym : (a b : F) → float.lt a b ≡ true → float.lt b a ≡ false
  lt_asym a b h = ground (arith, ord.trans a b a, ord.irrefl a)

  -- Two intervals of which neither is behind the other share the greater of their left ends.
  common_value :
      (l r l' r' : F)
      → float.lt r l ≡ false
      → float.lt r' l' ≡ false
      → float.lt r l' ≡ false
      → float.lt r' l ≡ false
      → (x : F) × (float.le l x ≡ true)
        × (float.le x r ≡ true)
        × (float.le l' x ≡ true)
        × (float.le x r' ≡ true)
  common_value l r l' r' a b c d = elim (Bool-cases (float.lt l l')) [
    | inl e ↦ (
      l',
      le_true l l' (lt_asym l l' e),
      le_true l' r c,
      le_true l' l' (ord.irrefl l'),
      le_true l' r' b,
    )
    | inr e ↦ (l, le_true l l (ord.irrefl l), le_true l r a, le_true l' l e, le_true l r' d)
  ]

  not_behind : (x r l : F) → float.le x r ≡ true → float.le l x ≡ true → float.lt r l ≡ false
  not_behind x r l h k = ord.cotrans r x l (lt_false x r h) (lt_false l x k)

  -- Two boxes that have points intersect exactly if they share a point, sides and corners included.
  pub intersects_iff :
      (a b : NodeItem F)
      → IsBox a
      → IsBox b
      → (intersects a b ≡ true)
        ↔ ((x : F) × (y : F) × (contains_point a x y ≡ true) × (contains_point b x y ≡ true))
  unfolding intersects contains_point
  intersects_iff a b box_a box_b = (
    λ h.
        let (x, p, q, r, s) =
          common_value a.min_x a.max_x b.min_x b.max_x box_a.wide box_b.wide (ground (arith, h))
            (ground (arith, h)) in
        let (y, p', q', r', s') =
          common_value a.min_y a.max_y b.min_y b.max_y box_a.high box_b.high (ground (arith, h))
            (ground (arith, h)) in
        (x, y, rw (p, q, p', q') refl, rw (r, s, r', s') refl),
    λ (x, y, h, k). ground (
      arith,
      not_behind x a.max_x b.min_x,
      not_behind y a.max_y b.min_y,
      not_behind x b.max_x a.min_x,
      not_behind y b.max_y a.min_y,
    ),
  )
