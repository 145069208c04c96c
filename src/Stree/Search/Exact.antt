-- ===== src/Stree/Search/Exact.antt =====
-- `find_exact` of stree.rs finds every leaf of a tree of the right shape, and nothing else.
use flatcitybuf.Prelude.{
  ℕ, zero, suc, ◌+◌, ◌-◌, ◌*◌, ◌≤◌, ◌<◌, ◌≡◌, refl, sym, arith, true, List, [], ◌∷◌, length, ltb,
  Bool-cases, inl, inr, ltb→lt, ltb→le,
}
use mathlib.Core.Path.{subst}
use flatcitybuf.Error.{Result, ok, err, panic, out_of_fuel, map_ok}
use flatcitybuf.Array.{first}
use flatcitybuf.Array.Reads.{first-get_or}
use flatcitybuf.Key.{Key, key_lt}
use flatcitybuf.Key.Order.{IsLinear}
use flatcitybuf.Stree.{Stree, SearchResultItem}
use flatcitybuf.Levels.Shape.{no_range}
use flatcitybuf.Stree.Shape.{unit, power, level, IsTree, size, size_iff}
use flatcitybuf.Stree.Search.{visit, exact_loop, find_exact}
use flatcitybuf.Stree.Search.Step.{AtNode}
use flatcitybuf.Stree.Search.Visit.{IsAnswer, visit_inner, visit_leaf}

module _ {K : Type 0} ⦃key : Key K⦄ (linear : IsLinear key) {t : Stree K} {s top : ℕ}
    (tree : IsTree t s top) (k : K) (low : key_lt k key.max_value ≡ true) where
  -- The loop ends one round after a leaf node.
  exact_loop_leaf :
      (pos : ℕ) (r : Result (List SearchResultItem))
      → visit t (level t 0).start k pos 0 ≡ map_ok (λ rs. ([], rs)) r
      → exact_loop 2 t (level t 0).start k ((pos, 0) ∷ []) [] ≡ r
  unfolding exact_loop
  exact_loop_leaf pos (ok rs) h = rw h refl
  exact_loop_leaf pos (err e) h = rw h refl
  exact_loop_leaf pos panic h = rw h refl
  exact_loop_leaf pos out_of_fuel h = rw h refl

  exact_loop_inner :
      (fuel pos l child : ℕ)
      → visit t (level t 0).start k pos (suc l) ≡ ok ((child, l) ∷ [], [])
      → exact_loop (suc fuel) t (level t 0).start k ((pos, suc l) ∷ []) []
        ≡ exact_loop fuel t (level t 0).start k ((child, l) ∷ []) []
  unfolding exact_loop
  exact_loop_inner fuel pos l child h = rw h refl

  exact_loop-IsAnswer :
      (l c : ℕ)
      → l ≤ top
      → AtNode linear tree k low l c
      → IsAnswer linear tree k low
          (exact_loop (suc (suc l)) t (level t 0).start k (((level t l).start + c * s, l) ∷ []) [])
  exact_loop-IsAnswer zero c h here =
      let (r, visited, answer) = visit_leaf linear tree k low c here in
      subst (IsAnswer linear tree k low) (sym (exact_loop_leaf _ r visited)) answer
  exact_loop-IsAnswer (suc l) c h here =
      let (c', visited, there) = visit_inner linear tree k low l c (omega arith) here in
      subst (IsAnswer linear tree k low) (sym (exact_loop_inner (suc (suc l)) _ l _ visited))
        (exact_loop-IsAnswer l c' (omega arith) there)

  -- The search starts at the one node of the top level.
  root-AtNode : AtNode linear tree k low top 0
  root-AtNode =
      let some_item : 0 * s < size t tree top =
        (size_iff t tree top (0 * s) (omega arith)).1 (omega (arith, tree.some_leaf)) in
      let all_below : t.num_leaf_nodes ≤ unit s top =
        elim (Bool-cases (ltb (s * power s top) t.num_leaf_nodes)) [
          | inl e ↦
              let over : s < size t tree top =
                (size_iff t tree top s (omega arith)).1 (ltb→lt _ _ e) in
              absurd (omega (arith, tree.root_end))
          | inr e ↦ omega (arith, ltb→le _ _ e)
        ] in
      (some_item, λ p hp key_p. (omega arith, omega arith))

  pub find_exact_lem : IsAnswer linear tree k low (find_exact t k)
  unfolding find_exact
  find_exact_lem =
      let leaves : first t.level_bounds ≡ ok (level t 0) =
        first-get_or t.level_bounds no_range (omega (arith, tree.num_levels)) in
      let fuel : length t.level_bounds + 1 ≡ suc (suc top) = omega (arith, tree.num_levels) in
      let start : length t.level_bounds - 1 ≡ top = omega (arith, tree.num_levels) in
      let root : (level t top).start + 0 * s ≡ 0 = omega (arith, tree.root_start) in
      let found = rw root at (exact_loop-IsAnswer top 0 (omega arith) root-AtNode) in
      rw (leaves, fuel, start) found
