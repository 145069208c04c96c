-- ===== src/Stree/Search.antt =====
-- The queries of rust/fcb_core/src/static_btree/stree.rs on a tree in memory.
pub mod Binary
pub mod Step
pub mod Child
pub mod Visit
pub mod Exact
use flatcitybuf.Prelude.{
  ℕ, zero, suc, ◌+◌, ◌-◌, ◌&&◌, List, [], ◌∷◌, ◌++◌, length, ltb, leb, ◌==◌, if◌then◌else◌, min,
  max,
}
use flatcitybuf.Error.{Result, ok, out_of_fuel, map_ok, ◌>>=◌}
use flatcitybuf.Array.{at, slice_range, first}
use flatcitybuf.Key.{Key, key_lt, key_le, key_eq}
use flatcitybuf.Payload.{deserialize}
use flatcitybuf.Stree.{
  Entry, Stree, SearchResultItem, is_tagged, untag, Found, found, missing, binary_search,
}

unfoldable pub with_index : ℕ → List ℕ → List SearchResultItem
with_index i [] = []
with_index i (o ∷ os) = record { offset = o; index = i } ∷ with_index i os

module _ {K : Type 0} ⦃key : Key K⦄ where
  -- The items for one leaf: its offset, or the offsets of the payload that it points to.
  unfoldable pub resolve : Stree K → ℕ → ℕ → Result (List SearchResultItem)
  unfolding with_index slice_range
  resolve t off index =
      if t.payload_initialized && is_tagged off
      then (do
        bytes ← slice_range t.payload_data (untag off) (length t.payload_data)
        ((entry, n), rest) ← deserialize bytes
        ok (with_index index entry.offsets))
      else ok (record { offset = off; index = index } ∷ [])

  -- Where `find_exact` goes from an internal node with the items `items`.
  pub exact_child : ℕ → List (Entry K) → Found → Result ℕ
  exact_child node_size items (found i) = map_ok (λ e. e.offset + node_size) (at items i)
  exact_child node_size items (missing i) =
      if i == 0
      then map_ok (λ e. e.offset) (at items 0)
      else if i == length items
      then map_ok (λ e. e.offset + node_size) (at items (length items - 1))
      else map_ok (λ e. e.offset) (at items i)

  -- What a leaf node adds to the results.
  pub leaf_results : Stree K → ℕ → ℕ → List (Entry K) → Found → Result (List SearchResultItem)
  leaf_results t leaf_start node_index items (missing i) = ok []
  leaf_results t leaf_start node_index items (found i) = do
    e ← at items i
    resolve t e.offset (node_index + i - leaf_start)

  pub node_slice : Stree K → ℕ → ℕ → Result (List (Entry K))
  node_slice t node_index level = do
    bounds ← at t.level_bounds level
    slice_range t.node_items node_index (min (node_index + (t.branching_factor - 1)) bounds.end)

  -- The body of the loop of `find_exact`: the nodes that it queues and the items that it finds.
  pub visit_items :
      Stree K → ℕ → K → ℕ → ℕ → List (Entry K) → Result (List (ℕ × ℕ) × List SearchResultItem)
  visit_items t leaf_start k node_index level items =
      if length items == 0
      then ok ([], [])
      else if level == 0
      then map_ok (λ rs. ([], rs))
          (leaf_results t leaf_start node_index items (binary_search items k))
      else map_ok (λ child. ((child, level - 1) ∷ [], []))
          (exact_child (t.branching_factor - 1) items (binary_search items k))

  pub visit : Stree K → ℕ → K → ℕ → ℕ → Result (List (ℕ × ℕ) × List SearchResultItem)
  visit t leaf_start k node_index level = do
    items ← node_slice t node_index level
    visit_items t leaf_start k node_index level items

  -- The `while let` loop over the queue of (node index, level).
  pub exact_loop :
      ℕ → Stree K → ℕ → K → List (ℕ × ℕ) → List SearchResultItem → Result (List SearchResultItem)
  exact_loop zero t leaf_start k queue results = out_of_fuel
  exact_loop (suc fuel) t leaf_start k [] results = ok results
  exact_loop (suc fuel) t leaf_start k ((node_index, level) ∷ queue) results = do
    (children, items) ← visit t leaf_start k node_index level
    exact_loop fuel t leaf_start k (queue ++ children) (results ++ items)

  -- A visit queues at most one node, one level down, so the levels and one round are enough.
  unfoldable pub find_exact : Stree K → K → Result (List SearchResultItem)
  unfolding exact_loop visit visit_items leaf_results exact_child node_slice resolve first at
      slice_range binary_search
  find_exact t k = do
    leaves ← first t.level_bounds
    exact_loop (length t.level_bounds + 1) t leaves.start k ((0, length t.level_bounds - 1) ∷ []) []

  -- Where `find_partition` goes: left of an equal separator, unlike `find_exact`.
  pub partition_child : ℕ → List (Entry K) → Found → Result ℕ
  partition_child node_size items (found i) = map_ok (λ e. e.offset) (at items i)
  partition_child node_size items (missing i) =
      if i == 0
      then map_ok (λ e. e.offset) (at items 0)
      else if leb (length items) i
      then map_ok (λ e. e.offset + node_size) (at items (length items - 1))
      else map_ok (λ e. e.offset) (at items i)

  -- A node with no item is passed over.
  pub partition_step : Stree K → ℕ → K → List (Entry K) → Result ℕ
  partition_step t node_index k items =
      if length items == 0
      then ok node_index
      else partition_child (t.branching_factor - 1) items (binary_search items k)

  -- `for level in (1..len).rev()`; the number is the level still to be read.
  pub partition_loop : Stree K → K → ℕ → ℕ → Result ℕ
  partition_loop t k zero node_index = ok node_index
  partition_loop t k (suc level) node_index = do
    items ← node_slice t node_index (suc level)
    child ← partition_step t node_index k items
    partition_loop t k level child

  unfoldable pub find_partition : Stree K → K → Result ℕ
  unfolding partition_loop partition_step partition_child node_slice slice_range at binary_search
  find_partition t k = partition_loop t k (length t.level_bounds - 1) 0

  -- The items of one leaf node that the range takes; `index` counts the leaves.
  pub scan_items : Stree K → K → K → ℕ → List (Entry K) → Result (List SearchResultItem)
  scan_items t lower upper index [] = ok []
  scan_items t lower upper index (e ∷ es) = do
    here ← if key_le lower e.key && key_le e.key upper then resolve t e.offset index else ok []
    rest ← scan_items t lower upper (index + 1) es
    ok (here ++ rest)

  -- `while current_idx < end_idx`; every round moves on by an item at least.
  pub range_loop : ℕ → Stree K → K → K → ℕ → ℕ → ℕ → Result (List SearchResultItem)
  range_loop zero t lower upper leaf_start current_idx end_idx = out_of_fuel
  range_loop (suc fuel) t lower upper leaf_start current_idx end_idx =
      let node_end = min (current_idx + (t.branching_factor - 1)) end_idx in
      let body : Result (List SearchResultItem) = (do
        items ← slice_range t.node_items current_idx node_end
        here ← scan_items t lower upper (current_idx - leaf_start) items
        rest ← range_loop fuel t lower upper leaf_start node_end end_idx
        ok (here ++ rest)) in
      if ltb current_idx end_idx then body else ok []

  unfoldable pub find_range : Stree K → K → K → Result (List SearchResultItem)
  unfolding range_loop scan_items resolve find_partition find_exact
  find_range t lower upper = do
    leaves ← first t.level_bounds
    (if key_lt upper lower then ok [] else if key_eq lower upper then find_exact t lower else (do
      lower_idx ← find_partition t lower
      upper_idx ← find_partition t upper
      let start_idx = max lower_idx leaves.start
      let end_idx = min (upper_idx + (t.branching_factor - 1)) leaves.end
      range_loop (end_idx - start_idx + 1) t lower upper leaves.start start_idx end_idx))
