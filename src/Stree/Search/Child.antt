-- ===== src/Stree/Search/Child.antt =====
-- The child that `find_exact` of stree.rs goes to, `exact_child`, and the node that it reads.
use flatcitybuf.Prelude.{
  ℕ, zero, suc, ◌+◌, ◌-◌, ◌*◌, ◌≤◌, ◌<◌, ◌≡◌, refl, sym, ap, ◌∙◌, arith, true, List, length, get_or,
  ltb, ◌==◌, Bool-cases, inl, inr, ltb→lt, ltb→le, min, ==_iff, ==_false,
}
use mathlib.Core.Path.{subst}
use flatcitybuf.Error.{Result, ok, map_ok}
use flatcitybuf.Array.{at, slice_range}
use flatcitybuf.Array.Reads.{at-get_or}
use flatcitybuf.Array.Slices.{IsSlice, slice_range-IsSlice}
use flatcitybuf.Key.{Key, key_lt}
use flatcitybuf.Key.Order.{IsLinear}
use flatcitybuf.Stree.{Entry, Stree, Found, found, missing}
use flatcitybuf.Levels.Shape.{no_range}
use flatcitybuf.Stree.Shape.{unit, no_entry, level, IsTree, size, level-le}
use flatcitybuf.Stree.Search.{exact_child, node_slice}
use flatcitybuf.Stree.Search.Binary.{Located}
use flatcitybuf.Stree.Search.Step.{
  AtNode, IsNode, boundary-lt, left-exists, right-exists, AtNode-found, lower, upper,
}

step_over : (start x s : ℕ) → start + x * s + s ≡ start + suc x * s
step_over start x s = grind arith

module _ {K : Type 0} ⦃key : Key K⦄ (node_size : ℕ) (items : List (Entry K)) (i : ℕ) where
  exact_child_last :
      suc i ≡ length items
      → exact_child node_size items (missing (suc i))
        ≡ map_ok (λ e. e.offset + node_size) (at items i)
  unfolding exact_child
  exact_child_last h =
      let found_last : (suc i == length items) ≡ true = (==_iff (suc i) (length items)).1 h in
      let place : length items - 1 ≡ i = omega arith in
      rw (==_false (suc i) 0 (λ e. omega arith), found_last, place) refl

  exact_child_middle :
      suc i < length items
      → exact_child node_size items (missing (suc i)) ≡ map_ok (λ e. e.offset) (at items (suc i))
  unfolding exact_child
  exact_child_middle h =
      rw (==_false (suc i) 0 (λ e. omega arith), ==_false (suc i) (length items) (λ e. omega arith))
        refl

module _ {K : Type 0} ⦃key : Key K⦄ (linear : IsLinear key) {t : Stree K} {s top : ℕ}
    (tree : IsTree t s top) where
  -- A node that exists is read in full.
  pub node_slice_lem :
      (l c : ℕ)
      → l ≤ top
      → c * s < size t tree l
      → (ys : List (Entry K)) × (node_slice t ((level t l).start + c * s) l ≡ ok ys)
        × IsSlice t.node_items
            ((level t l).start + c * s)
            (min (c * s + s) (size t tree l) - c * s)
            no_entry
            ys
  unfolding node_slice
  node_slice_lem l c h inside =
      let (low_end, high_end) = level-le t tree l h in
      let items_of_node : t.branching_factor - 1 ≡ s = omega (arith, tree.factor) in
      let bounds : at t.level_bounds l ≡ ok (level t l) =
        at-get_or t.level_bounds l no_range (omega (arith, tree.num_levels)) in
      let stop = min ((level t l).start + c * s + s) (level t l).end in
      let (ys, read, slice) =
        slice_range-IsSlice t.node_items ((level t l).start + c * s) stop no_entry (omega arith)
          (omega arith) in
      let amount : stop - ((level t l).start + c * s) ≡ min (c * s + s) (size t tree l) - c * s =
        omega arith in
      let reads : node_slice t ((level t l).start + c * s) l
          ≡ slice_range t.node_items ((level t l).start + c * s) stop =
        rw (node_slice, bounds, items_of_node) refl in
      (ys, reads ∙ read, (slice.0 ∙ amount, λ i lt. slice.1 i (omega arith)))

  module _ (k : K) (low : key_lt k key.max_value ≡ true) (l c : ℕ) (items : List (Entry K))
      (inner : l < top) (here : AtNode linear tree k low (suc l) c)
      (node : IsNode linear tree k low l c items) where
    -- The result is the start of a node of the level below that has the leaf.
    abbrev pub Chosen : Result ℕ → Type 0
    Chosen r = (c' : ℕ) × (r ≡ ok ((level t l).start + c' * s)) × AtNode linear tree k low l c'

    some_item : 0 < length items
    some_item = omega (arith, node.0, here.0, tree.wide)

    choose_left :
        (i : ℕ)
        → i < length items
        → Located items k (missing i)
        → Chosen (map_ok (λ e. e.offset) (at items i))
    choose_left i h (a, greater, before) = (
      c * (s + 1) + i,
      rw (at-get_or items i no_entry h) (ap ok ((node.1 i h).0)),
      (
        left-exists linear tree k low l c items inner here node i h,
        λ p hp same. (
          lower linear tree k low l c items inner here node i a before p hp same,
          upper linear tree k low l c items inner here node i a greater p hp same,
        ),
      ),
    )

    right_value :
        (i : ℕ)
        → i < length items
        → (get_or items i no_entry).offset + s ≡ (level t l).start + suc (c * (s + 1) + i) * s
    right_value i h =
        ap (λ (x : ℕ). x + s) ((node.1 i h).0) ∙ step_over (level t l).start (c * (s + 1) + i) s

    choose_right :
        (i : ℕ)
        → suc i ≡ length items
        → Located items k (missing (suc i))
        → Chosen (map_ok (λ e. e.offset + s) (at items i))
    choose_right i h (a, greater, before) = (
      suc (c * (s + 1) + i),
      rw (at-get_or items i no_entry (omega arith)) (ap ok (right_value i (omega arith))),
      (
        right-exists linear tree k low l c items inner here node i behind,
        λ p hp same. rw next (
          lower linear tree k low l c items inner here node (suc i) a before p hp same,
          upper linear tree k low l c items inner here node (suc i) a greater p hp same,
        ),
      ),
    )
      where
        behind : suc (c * (s + 1) + i) * unit s l < t.num_leaf_nodes
        behind =
            (boundary-lt linear tree k low (suc (c * (s + 1) + i) * unit s l)
              (rw ((node.1 i (omega arith)).1) at (before i (omega arith)))).0

        next : suc (c * (s + 1) + i) ≡ c * (s + 1) + suc i
        next = omega arith

    choose_found :
        (i : ℕ) → Located items k (found i) → Chosen (map_ok (λ e. e.offset + s) (at items i))
    choose_found i (a, same, before) = (
      suc (c * (s + 1) + i),
      rw (at-get_or items i no_entry a) (ap ok (right_value i a)),
      AtNode-found linear tree k low l c items inner here node i a same,
    )

    pub exact_child_lem : (f : Found) → Located items k f → Chosen (exact_child s items f)
    unfolding exact_child
    exact_child_lem (found i) h = choose_found i h
    exact_child_lem (missing zero) h = choose_left 0 some_item h
    exact_child_lem (missing (suc i)) h = elim (Bool-cases (ltb (suc i) (length items))) [
      | inl e ↦
          let inside : suc i < length items = ltb→lt _ _ e in
          subst Chosen (sym (exact_child_middle s items i inside)) (choose_left (suc i) inside h)
      | inr e ↦
          let last : suc i ≡ length items = omega (arith, h.0, ltb→le _ _ e) in
          subst Chosen (sym (exact_child_last s items i last)) (choose_right i last h)
    ]
