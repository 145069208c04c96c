-- ===== src/Stree/Search/Visit.antt =====
-- What one round of the loop of `find_exact` of stree.rs does on a tree of the right shape.
use flatcitybuf.Prelude.{
  ℕ, suc, ◌+◌, ◌-◌, ◌*◌, ◌≤◌, ◌<◌, ◌≡◌, ◌≢◌, refl, sym, ap, ◌∙◌, arith, true, List, [], ◌∷◌, length,
  get_or, min, ==_false, ltb, Bool-cases, inl, inr, ltb→lt, ltb→le,
}
use flatcitybuf.Error.{Result, ok, map_ok}
use flatcitybuf.Array.Reads.{at-get_or}
use flatcitybuf.Array.Slices.{IsSlice}
use flatcitybuf.Key.{Key, key_lt}
use flatcitybuf.Key.Order.{IsLinear, lt-ne}
use flatcitybuf.Stree.{Entry, Stree, SearchResultItem, Found, found, missing, binary_search}
use flatcitybuf.Stree.Shape.{no_entry, item, level, leaf, IsTree, size}
use flatcitybuf.Stree.Search.{resolve, leaf_results, visit_items, visit, exact_child}
use flatcitybuf.Stree.Search.Binary.{Located, binary_search-Located}
use flatcitybuf.Stree.Search.Step.{AtNode, IsNode, child-node, leaf_lt, leaf_inj}
use flatcitybuf.Stree.Search.Child.{node_slice_lem, exact_child_lem}

module _ {K : Type 0} ⦃key : Key K⦄ (t : Stree K) (leaf_start : ℕ) (k : K) (node_index : ℕ)
    (items : List (Entry K)) where
  visit_items_inner :
      (l x : ℕ)
      → 0 < length items
      → exact_child (t.branching_factor - 1) items (binary_search items k) ≡ ok x
      → visit_items t leaf_start k node_index (suc l) items ≡ ok ((x, l) ∷ [], [])
  unfolding visit_items
  visit_items_inner l x h chosen =
      let below : suc l - 1 ≡ l = omega arith in
      rw
        (
          ==_false (length items) 0 (λ e. omega arith),
          ==_false (suc l) 0 (λ e. omega arith),
          chosen,
          below,
        )
        refl

  visit_items_leaf :
      0 < length items
      → visit_items t leaf_start k node_index 0 items
        ≡ map_ok
            (λ rs. ([], rs))
            (leaf_results t leaf_start node_index items (binary_search items k))
  unfolding visit_items
  visit_items_leaf h = rw (==_false (length items) 0 (λ e. omega arith)) refl

module _ {K : Type 0} ⦃key : Key K⦄ (linear : IsLinear key) {t : Stree K} {s top : ℕ}
    (tree : IsTree t s top) (k : K) (low : key_lt k key.max_value ≡ true) where
  -- The answer for the key: nothing when no leaf has it, else what its leaf stands for.
  abbrev pub IsAnswer : Result (List SearchResultItem) → Type 0
  IsAnswer r =
      ((p : ℕ) → p < t.num_leaf_nodes → (leaf t p).key ≡ k → r ≡ resolve t (leaf t p).offset p)
      × (((p : ℕ) → p < t.num_leaf_nodes → (leaf t p).key ≢ k) → r ≡ ok [])

  -- The items of a node as `IsTree` describes them.
  slice-IsNode :
      (l c : ℕ) (items : List (Entry K))
      → l < top
      → IsSlice t.node_items
          ((level t (suc l)).start + c * s)
          (min (c * s + s) (size t tree (suc l)) - c * s)
          no_entry
          items
      → IsNode linear tree k low l c items
  slice-IsNode l c items h (amount, same) = (
    amount,
    λ i lt.
        let stored = same i (omega arith) in
        let place : (level t (suc l)).start + c * s + i ≡ (level t (suc l)).start + (c * s + i) =
          omega arith in
        let below = child-node s c i (omega (arith, amount)) in
        let inside : (level t (suc l)).start + (c * s + i) < (level t (suc l)).end =
          omega (arith, amount) in
        (
          rw (stored, place, tree.offsets l (c * s + i) h inside, below) refl,
          rw (stored, place, tree.keys l (c * s + i) h inside, below) refl,
        ),
  )

  -- An internal node queues one child, below which the leaf lies.
  pub visit_inner :
      (l c : ℕ)
      → l < top
      → AtNode linear tree k low (suc l) c
      → (c' : ℕ) × (visit t (level t 0).start k ((level t (suc l)).start + c * s) (suc l)
          ≡ ok (((level t l).start + c' * s, l) ∷ [], []))
        × AtNode linear tree k low l c'
  unfolding visit visit_items
  visit_inner l c h here =
      let (items, reads, slice) = node_slice_lem linear tree (suc l) c (omega arith) here.0 in
      let node = slice-IsNode l c items h slice in
      let (c', chosen, there) =
        exact_child_lem linear tree k low l c items h here node (binary_search items k)
          (binary_search-Located linear items k) in
      let node_size : t.branching_factor - 1 ≡ s = omega (arith, tree.factor) in
      (
        c',
        rw reads (
            visit_items_inner t (level t 0).start k _ items l _
              (omega (arith, node.0, here.0, tree.wide)) (rw node_size chosen)),
        there,
      )

  -- The items of a leaf node.
  abbrev pub IsLeafNode : ℕ → List (Entry K) → Type 0
  IsLeafNode c items =
      (length items ≡ min (c * s + s) (size t tree 0) - c * s)
      × ((i : ℕ) → i < length items → get_or items i no_entry ≡ leaf t (c * s + i))

  leaf_found :
      (c : ℕ) (items : List (Entry K)) (i : ℕ)
      → IsLeafNode c items
      → Located items k (found i)
      → IsAnswer (leaf_results t (level t 0).start ((level t 0).start + c * s) items (found i))
  unfolding leaf_results
  leaf_found c items i (amount, same) (inside, key_i, before) =
      let stored = same i inside in
      let here : c * s + i < t.num_leaf_nodes = omega (arith, amount, tree.leaves_size) in
      let key_here : (leaf t (c * s + i)).key ≡ k = rw stored at key_i in
      let place : (level t 0).start + c * s + i - (level t 0).start ≡ c * s + i = omega arith in
      let result : leaf_results t (level t 0).start ((level t 0).start + c * s) items (found i)
          ≡ resolve t (leaf t (c * s + i)).offset (c * s + i) =
        rw (at-get_or items i no_entry inside, place, stored) refl in
      (
        λ p hp key_p.
            let only : c * s + i ≡ p =
              leaf_inj linear tree (c * s + i) p here hp (key_here ∙ sym key_p) in
            result ∙ ap (λ (x : ℕ). resolve t (leaf t x).offset x) only,
        λ none_has. absurd (none_has (c * s + i) here key_here),
      )

  leaf_missing :
      (c : ℕ) (items : List (Entry K)) (i : ℕ)
      → AtNode linear tree k low 0 c
      → IsLeafNode c items
      → Located items k (missing i)
      → (p : ℕ) → p < t.num_leaf_nodes
      → (leaf t p).key ≢ k
  leaf_missing c items i here (amount, same) (bound, greater, before) p hp key_p =
      let (low_end, high_end) = here.1 p hp key_p in
      let inside : p - c * s < length items = omega (arith, amount, tree.leaves_size) in
      let place : c * s + (p - c * s) ≡ p = omega arith in
      let key_j : (get_or items (p - c * s) no_entry).key ≡ k =
        rw (same (p - c * s) inside, place) key_p in
      elim (Bool-cases (ltb (p - c * s) i)) [
        | inl e ↦ lt-ne linear _ _ (before (p - c * s) (ltb→lt _ _ e)) key_j
        | inr e ↦
            let behind : i ≤ p - c * s = ltb→le _ _ e in
            let less = greater (omega arith) in
            let after = rw (same i (omega arith)) at less in
            let order : p < c * s + i =
              leaf_lt linear tree p (c * s + i) hp (omega (arith, amount, tree.leaves_size))
                (rw key_p after) in
            omega arith
      ]

  leaf_results-IsAnswer :
      (c : ℕ) (items : List (Entry K)) (f : Found)
      → AtNode linear tree k low 0 c
      → IsLeafNode c items
      → Located items k f
      → IsAnswer (leaf_results t (level t 0).start ((level t 0).start + c * s) items f)
  unfolding leaf_results
  leaf_results-IsAnswer c items (found i) here node h = leaf_found c items i node h
  leaf_results-IsAnswer c items (missing i) here node h =
      let nowhere = leaf_missing c items i here node h in
      (λ p hp key_p. absurd (nowhere p hp key_p), λ h. refl)

  -- A leaf node gives the answer.
  pub visit_leaf :
      (c : ℕ)
      → AtNode linear tree k low 0 c
      → (r : Result (List SearchResultItem)) × (visit t
            (level t 0).start
            k
            ((level t 0).start + c * s)
            0
          ≡ map_ok (λ rs. ([], rs)) r)
        × IsAnswer r
  unfolding visit visit_items leaf_results
  visit_leaf c here =
      let (items, reads, slice) = node_slice_lem linear tree 0 c (omega arith) here.0 in
      let node : IsLeafNode c items = (
        slice.0,
        λ i lt.
            let place : (level t 0).start + c * s + i ≡ (level t 0).start + (c * s + i) =
              omega arith in
            slice.1 i (omega (arith, slice.0)) ∙ ap (item t) place,
      ) in
      (
        leaf_results t (level t 0).start ((level t 0).start + c * s) items (binary_search items k),
        rw reads (
            visit_items_leaf t (level t 0).start k _ items
              (omega (arith, slice.0, here.0, tree.wide))),
        leaf_results-IsAnswer c items (binary_search items k) here node
            (binary_search-Located linear items k),
      )
