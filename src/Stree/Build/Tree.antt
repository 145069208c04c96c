-- ===== src/Stree/Build/Tree.antt =====
-- The tree that `build` of stree.rs makes of its leaves has the shape that the searches rely on.
use flatcitybuf.Prelude.{
  ℕ, zero, suc, ◌+◌, ◌-◌, ◌*◌, ◌≤◌, ◌<◌, ◌≡◌, refl, sym, ap, ◌∙◌, arith, true, List, [], ◌∷◌,
  length, get_or, ltb, ==_refl, ==_false, Bool-cases, inl, inr, ltb→lt, le→leb, replicate,
  length-replicate,
}
use mathlib.Core.Bool.{false≢true}
use flatcitybuf.Error.{ok, ◌>>=◌}
use flatcitybuf.Levels.{Range}
use flatcitybuf.Levels.Shape.{Shape, no_range, Shape-link, Shape-root}
use flatcitybuf.Array.Reads.{put-Written}
use flatcitybuf.Key.{Key, key_lt, key_le}
use flatcitybuf.Key.Order.{IsLinear}
use flatcitybuf.Stree.{Entry, Stree}
use flatcitybuf.Stree.Shape.{no_entry, child, power, unit, boundary, IsTree}
use flatcitybuf.Stree.Build.{
  create, place, generate_nodes, gen_levels, get_min, key_min, unwrap_or_max,
}
use flatcitybuf.Stree.Build.Levels.{Over, Ready, bound}
use flatcitybuf.Stree.Build.Nodes.{IsTop, Made, ParentsOf, AllParents-at, gen_levels-Made}

module _ {K : Type 0} ⦃key : Key K⦄ where
  -- The leaves in place from `i` on, and what stands before them as it was.
  pub place_lem :
      (leaves nodes : List (Entry K)) (i : ℕ)
      → i + length leaves ≤ length nodes
      → (nodes' : List (Entry K)) × (place nodes i leaves ≡ ok nodes')
        × (length nodes' ≡ length nodes)
        × ((j : ℕ) → j < i → get_or nodes' j no_entry ≡ get_or nodes j no_entry)
        × ((x : ℕ) → x < length leaves → get_or nodes' (i + x) no_entry ≡ get_or leaves x no_entry)
  unfolding place
  place_lem [] nodes i h = (nodes, refl, refl, λ j k. refl, λ x k. absurd (omega arith))
  place_lem (e ∷ es) nodes i h =
      let (nodes', written, (size, read)) = put-Written nodes i e no_entry (omega arith) in
      let (nodes'', placed, size', before, rest) = place_lem es nodes' (i + 1) (omega arith) in
      (
        nodes'',
        rw (written, placed) refl,
        size' ∙ size,
        λ j k. before j (omega arith) ∙ read j ∙ rw (==_false j i (λ e. absurd (omega arith))) refl,
        each nodes' nodes'' (before i (omega arith) ∙ read i ∙ rw (==_refl i) refl) rest,
      )
    where
      each :
          (nodes' nodes'' : List (Entry K))
          → get_or nodes'' i no_entry ≡ e
          → ((x : ℕ) → x < length es → get_or nodes'' (i + 1 + x) no_entry ≡ get_or es x no_entry)
          → (x : ℕ) → x < suc (length es)
          → get_or nodes'' (i + x) no_entry ≡ get_or (e ∷ es) x no_entry
      each nodes' nodes'' here later zero k =
          ap (λ (j : ℕ). get_or nodes'' j no_entry) (omega arith) ∙ here
      each nodes' nodes'' here later (suc x) k =
          ap (λ (j : ℕ). get_or nodes'' j no_entry) (omega arith) ∙ later x (omega arith)

module _ {K : Type 0} ⦃key : Key K⦄ (linear : IsLinear key) (s : ℕ) (wide : 1 ≤ s)
    (leaves : List (Entry K)) (some_leaf : 1 ≤ length leaves)
    (ascending : (p q : ℕ)
      → p < q
      → q < length leaves
      → key_lt (get_or leaves p no_entry).key (get_or leaves q no_entry).key ≡ true)
    (capped : (p : ℕ)
      → p < length leaves
      → key_le (get_or leaves p no_entry).key key.max_value ≡ true) where
  abbrev leaf_key : ℕ → K
  leaf_key p = (get_or leaves p no_entry).key

  module _ (r : Range) (rs : List Range) (shape : Shape (IsTop s) (s + 1) (r ∷ rs))
      (leaves_size : r.start + length leaves ≡ r.end) where
    one_leaf_each : Over linear s (length leaves) wide leaf_key ascending capped 1 r
    one_leaf_each x = (λ h. omega arith, λ h. omega arith)

    leaves_read :
        (nodes : List (Entry K))
        → r.end ≡ length nodes
        → ((x : ℕ)
            → x < length leaves
            → get_or nodes (r.start + x) no_entry ≡ get_or leaves x no_entry)
        → Ready linear s (length leaves) wide leaf_key ascending capped r.start 1 r true nodes []
    unfolding get_min unwrap_or_max key_min
    leaves_read nodes room stored k h =
        let here = stored (k * s) (omega arith) in
        let one : leaf_key (k * s) ≡ leaf_key (k * (1 * s)) = ap leaf_key (omega arith) in
        (
          omega arith,
          rw (here, capped (k * s) (omega arith)) one,
          λ leaf. rw here one,
          λ inner. absurd (false≢true (sym inner)),
        )

    -- The tree with these leaves and levels.
    abbrev pub tree_of : List (Entry K) → List ℕ → Stree K
    tree_of items bytes = record {
      node_items = items;
      num_leaf_nodes = length leaves;
      branching_factor = s + 1;
      level_bounds = r ∷ rs;
      payload_data = bytes;
      payload_initialized = true;
    }

    module _ (items : List (Entry K)) (bytes : List ℕ) (leaves_end : r.end ≡ length items)
        (stored : (x : ℕ)
          → x < length leaves
          → get_or items (r.start + x) no_entry ≡ get_or leaves x no_entry)
        (made : Made linear s (length leaves) wide leaf_key ascending capped 1 (r ∷ rs) items) where
      boundary-bound :
          (q : ℕ)
          → bound linear s (length leaves) wide leaf_key ascending capped q
            ≡ boundary (tree_of items bytes) q
      boundary-bound q = elim (Bool-cases (ltb q (length leaves))) [
        | inl e ↦ rw (e, stored q (ltb→lt _ _ e)) refl
        | inr e ↦ rw e refl
      ]

      parents_of :
          (l : ℕ)
          → l < length rs
          → ParentsOf linear s
              (length leaves)
              wide
              leaf_key
              ascending
              capped
              (1 * power s l)
              (get_or (r ∷ rs) l no_range)
              (get_or (r ∷ rs) (suc l) no_range)
              items
      parents_of l h =
          AllParents-at linear s (length leaves) wide leaf_key ascending capped 1 (r ∷ rs) items l
            made (omega arith)

      made-IsTree : IsTree (tree_of items bytes) s (length rs)
      made-IsTree = record {
        wide = wide;
        factor = refl;
        num_levels = refl;
        leaves_end = leaves_end;
        leaves_size = leaves_size;
        some_leaf = some_leaf;
        above = λ l h. (Shape-link (IsTop s) (s + 1) (r ∷ rs) l shape (omega arith)).0;
        sizes = λ l h. (Shape-link (IsTop s) (s + 1) (r ∷ rs) l shape (omega arith)).1;
        root_start = (Shape-root (IsTop s) (s + 1) (r ∷ rs) (length rs) shape refl).0;
        root_end = (Shape-root (IsTop s) (s + 1) (r ∷ rs) (length rs) shape refl).1;
        ascending = λ p q less inside.
            rw (stored p (omega arith), stored q inside) (ascending p q less inside);
        offsets = λ l i h inside. ap (λ (e : Entry K). e.offset) (parents_of l h i inside);
        keys = λ l i h inside.
            ap (λ (e : Entry K). e.key) (parents_of l h i inside)
            ∙ ap
                (λ (x : ℕ).
                  bound linear s (length leaves) wide leaf_key ascending capped
                    (suc (child s i) * x))
                (omega arith)
            ∙ boundary-bound (suc (child s i) * unit s l);
      }

    -- The array of items that `init` makes.
    abbrev pub blank : List (Entry K)
    blank = replicate r.end (create 0)

    generate_nodes_lem :
        (placed items : List (Entry K)) (bytes : List ℕ)
        → gen_levels (s + 1) (length placed - length leaves) (r ∷ rs) placed [] ≡ ok items
        → generate_nodes (tree_of placed bytes) ≡ ok (tree_of items bytes)
    unfolding generate_nodes
    generate_nodes_lem placed items bytes h = rw h refl

    -- The end of `build`: the leaves are placed and the levels above them made.
    pub build_levels :
        (bytes : List ℕ)
        → (items : List (Entry K)) × ((do
          nodes ← place blank (length blank - length leaves) leaves
          generate_nodes (tree_of nodes bytes))
            ≡ ok (tree_of items bytes))
          × IsTree (tree_of items bytes) s (length rs)
          × ((x : ℕ)
              → x < length leaves
              → get_or items (r.start + x) no_entry ≡ get_or leaves x no_entry)
    build_levels bytes =
        let blank_size : length blank ≡ r.end = length-replicate r.end (create 0) in
        let (placed, put_all, placed_size, before, stored) =
          place_lem leaves blank (length blank - length leaves) (omega arith) in
        let at_start : length blank - length leaves ≡ r.start = omega arith in
        let here : (x : ℕ)
            → x < length leaves
            → get_or placed (r.start + x) no_entry ≡ get_or leaves x no_entry =
          λ x h. ap (λ (j : ℕ). get_or placed (j + x) no_entry) (sym at_start) ∙ stored x h in
        let first_leaf : length placed - length leaves ≡ r.start = omega arith in
        let (items, made, size, kept, parents) =
          gen_levels-Made linear s (length leaves) wide leaf_key ascending capped r.start 1 r rs
            placed [] true one_leaf_each (omega arith) shape (omega arith) (omega arith)
            (omega arith) (λ pos a b. le→leb r.start pos a)
            (leaves_read placed (omega arith) here) in
        let stored' : (x : ℕ)
            → x < length leaves
            → get_or items (r.start + x) no_entry ≡ get_or leaves x no_entry =
          λ x h. kept (r.start + x) (omega arith) ∙ here x h in
        (
          items,
          rw put_all (
              generate_nodes_lem placed items bytes
                (ap (λ (x : ℕ). gen_levels (s + 1) x (r ∷ rs) placed []) first_leaf ∙ made)),
          made-IsTree items bytes (omega arith) stored' parents,
          stored',
        )
