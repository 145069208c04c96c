-- ===== src/Stree/Lookup/FindExact.antt =====
-- `build` followed by `find_exact` of stree.rs, from the entries to the offsets that are found.
use flatcitybuf.Prelude.{
  ℕ, ◌+◌, ◌-◌, ◌*◌, ◌/◌, ◌≤◌, ◌<◌, ◌≡◌, refl, sym, ap, ◌∙◌, arith, true, List, [], ◌∷◌, map, length,
  get_or, inl, inr, All, replicate, ltb,
}
use flatcitybuf.Error.{ok}
use flatcitybuf.Levels.{Range, sum, usize_max}
use flatcitybuf.Levels.Count.{Above}
use flatcitybuf.Levels.Bounds.{Tiles}
use flatcitybuf.Levels.Shape.{Tiles-Shape}
use flatcitybuf.Array.{first}
use flatcitybuf.Key.{Key, key_lt, key_le}
use flatcitybuf.Key.Order.{IsLinear}
use flatcitybuf.Stree.{Entry, Stree, SearchResultItem, generate_level_bounds, clamp_factor}
use flatcitybuf.Stree.Bounds.{index_size-generate_level_bounds}
use flatcitybuf.Stree.Shape.{no_entry, leaf, IsTree}
use flatcitybuf.Stree.Build.{create, init, build, group, sort_by_key}
use flatcitybuf.Stree.Build.Sort.{Ascending, sort_by_key-All, length-sort_by_key}
use flatcitybuf.Stree.Build.Collect.{IsPlain}
use flatcitybuf.Stree.Build.Group.{entries_of, group_sorted}
use flatcitybuf.Stree.Build.Nodes.{IsTop}
use flatcitybuf.Stree.Build.Tree.{build_levels}
use flatcitybuf.Stree.Search.{find_exact, resolve}
use flatcitybuf.Stree.Search.Exact.{find_exact_lem}
use flatcitybuf.Stree.Lookup.{offsets_of}
use flatcitybuf.Stree.Lookup.Offsets.{offsets_of-sort_by_key}
use flatcitybuf.Stree.Lookup.Answer.{
  All-get_or, Ascending-at, leaf_or_none, offsets_of-none, offsets_of-leaf,
}

small_top : (s m : ℕ) → ltb m (s + 1) ≡ true → m ≤ s
small_top s m h = ground arith

clamped : (b : ℕ) → (s : ℕ) × (1 ≤ s) × (s ≤ 65534) × (clamp_factor b ≡ s + 1)
clamped b = (clamp_factor b - 1, ground arith, ground arith, ground arith)

few_enough : (n s : ℕ) → n < 0x1_0000_0000 → n ≤ usize_max - n / (s + 1) * 2
few_enough n s h = let fewer : n / (s + 1) ≤ n = grind arith in omega arith

module _ {K : Type 0} ⦃key : Key K⦄ (linear : IsLinear key) where
  -- A tree of the right shape whose leaves are `leaves`.
  abbrev IsTreeOf : List (Entry K) → List ℕ → Stree K → Type 0
  IsTreeOf leaves bytes t =
      (s : ℕ) × (top : ℕ) × IsTree t s top
      × (t.num_leaf_nodes ≡ length leaves)
      × (t.payload_initialized ≡ true)
      × (t.payload_data ≡ bytes)
      × ((x : ℕ) → x < length leaves → leaf t x ≡ get_or leaves x no_entry)

  module _ (entries leaves : List (Entry K)) (bytes : List ℕ) (branching_factor : ℕ)
      (grouped : group (length entries) (sort_by_key entries) [] ≡ ok (leaves, bytes))
      (ascending : Ascending leaves) (some_leaf : 1 ≤ length leaves)
      (few : length leaves < 0x1_0000_0000)
      (capped : All (λ (e : Entry K). key_le e.key key.max_value ≡ true) leaves) where
    init_ok :
        (s : ℕ) (r : Range) (rs : List Range) (t : Stree K)
        → generate_level_bounds t.num_leaf_nodes (s + 1) ≡ ok (r ∷ rs)
        → init (s + 1) t
          ≡ ok (record t {
            branching_factor = s + 1;
            level_bounds = r ∷ rs;
            node_items = replicate r.end (create 0);
          })
    unfolding init first
    init_ok s r rs t e = rw e refl

    bounds-IsTreeOf :
        (s : ℕ) (bounds : List Range) (ms : List ℕ)
        → 1 ≤ s
        → clamp_factor branching_factor ≡ s + 1
        → generate_level_bounds (length leaves) (s + 1) ≡ ok bounds
        → Above (λ m. ltb m (s + 1)) (s + 1) (length leaves) ms
        → Tiles (sum (length leaves ∷ ms)) (length leaves ∷ ms) bounds
        → (t : Stree K) × (build entries branching_factor ≡ ok t) × IsTreeOf leaves bytes t
    unfolding build
    bounds-IsTreeOf s [] ms wide factor found above tiles = absurd tiles
    bounds-IsTreeOf s (r ∷ rs) ms wide factor found above tiles =
        let shape =
          Tiles-Shape (λ m. ltb m (s + 1)) (IsTop s) (small_top s) (s + 1) (length leaves)
            (sum (length leaves ∷ ms)) ms r rs above tiles in
        let size : r.start + length leaves ≡ r.end = omega (arith, tiles.0, tiles.1) in
        let (items, chain, tree, stored) =
          build_levels linear s wide leaves some_leaf (Ascending-at linear leaves ascending)
            (λ p h. All-get_or (λ k. key_le k key.max_value ≡ true) leaves p capped h) r rs shape
            size bytes in
        (
          _,
          rw
              (
                grouped,
                factor,
                init_ok s r rs
                    (record {
                      node_items = [];
                      num_leaf_nodes = length leaves;
                      branching_factor = s + 1;
                      level_bounds = [];
                      payload_data = bytes;
                      payload_initialized = true;
                    })
                    found,
              )
              chain,
          (s, length rs, tree, refl, refl, refl, stored),
        )

    build-IsTreeOf :
        (t : Stree K) × (build entries branching_factor ≡ ok t) × IsTreeOf leaves bytes t
    build-IsTreeOf =
        let (s, wide, narrow, factor) = clamped branching_factor in
        let (ms, bounds, found, above, tiles, few_nodes, size) =
          index_size-generate_level_bounds 1 (length leaves) (s + 1) 0 (omega arith)
            (omega arith, some_leaf, few_enough (length leaves) s few) in
        bounds-IsTreeOf s bounds ms wide factor found above tiles

  -- Entries that the index can hold: one or more, fewer than 2 ^ 32, with plain offsets and keys
  -- that are not behind the greatest value of their type.
  abbrev pub Fits : List (Entry K) → Type 0
  Fits entries =
      (1 ≤ length entries)
      × (length entries < 0x1_0000_0000)
      × All IsPlain entries
      × All (λ (e : Entry K). key_le e.key key.max_value ≡ true) entries

  pub build-Leaves :
      (entries : List (Entry K)) (branching_factor : ℕ)
      → Fits entries
      → (leaves : List (Entry K)) × (bytes : List ℕ) × (t : Stree K) × (build entries
            branching_factor
          ≡ ok t)
        × IsTreeOf leaves bytes t
        × Ascending leaves
        × (entries_of t 0 leaves ≡ ok (sort_by_key entries))
  build-Leaves entries branching_factor (some_entry, few, plain, capped) =
      let (leaves, bytes, grouped, ascending, back, (keys, fewer, some_leaf)) =
        group_sorted linear.consistent linear.exact entries few plain in
      let size = length-sort_by_key entries in
      let capped' =
        keys (λ k. key_le k key.max_value ≡ true)
          (sort_by_key-All (λ (e : Entry K). key_le e.key key.max_value ≡ true) entries capped) in
      let (t, made, tree) =
        build-IsTreeOf entries leaves bytes branching_factor grouped ascending
          (some_leaf (omega arith)) (omega arith) capped' in
      (leaves, bytes, t, made, tree, ascending, back t tree.4 tree.5)

  -- `build` makes a tree of any entries that fit, whatever the branching factor, and `find_exact`
  -- returns on it for every key before the greatest value of its type: it finds the offsets of the
  -- entries with that key, all of them and nothing else, in the order in which they were given.
  pub find_exact-build :
      (entries : List (Entry K)) (branching_factor : ℕ) (k : K)
      → Fits entries
      → key_lt k key.max_value ≡ true
      → (t : Stree K) × (items : List SearchResultItem) × (build entries branching_factor ≡ ok t)
        × (find_exact t k ≡ ok items)
        × (map (λ (r : SearchResultItem). r.offset) items ≡ offsets_of k entries)
  find_exact-build entries branching_factor k fits low =
      let (leaves, bytes, t, made, (s, top, tree, num, on, stored, same), ascending, back) =
        build-Leaves entries branching_factor fits in
      let (present, absent) = find_exact_lem linear tree k low in
      elim (leaf_or_none linear k leaves) [
        | inl (p, h, key_p) ↦
            let (items, resolved, all) =
              offsets_of-leaf linear k t 0 leaves _ back ascending p h key_p in
            (
              t,
              items,
              made,
              present p (omega arith) (ap (λ (e : Entry K). e.key) (same p h) ∙ key_p)
                  ∙ ap (λ (e : Entry K). resolve t e.offset p) (same p h)
                  ∙ ap (resolve t (get_or leaves p no_entry).offset) (omega arith)
                  ∙ resolved,
              all ∙ offsets_of-sort_by_key linear k entries,
            )
        | inr none ↦ (
          t,
          [],
          made,
          absent (λ p h key_p.
              none p (omega arith)
                (sym (ap (λ (e : Entry K). e.key) (same p (omega arith))) ∙ key_p)),
          sym (offsets_of-none linear k t 0 leaves _ back none)
              ∙ offsets_of-sort_by_key linear k entries,
        )
      ]
