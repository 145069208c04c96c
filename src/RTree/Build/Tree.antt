-- ===== src/RTree/Build/Tree.antt =====
-- The whole of `build` of mod.rs, and `search` on the tree that it makes.
use flatcitybuf.Prelude.{
  ℕ, zero, suc, ◌+◌, ◌-◌, ◌≤◌, ◌<◌, ◌≡◌, refl, ap, ◌∙◌, arith, List, [], ◌∷◌, length, get_or, ◌==◌,
  ==_refl, ==_false, true, replicate, length-replicate, if◌then◌else◌, All, All-map,
}
use flatcitybuf.Error.{ok}
use flatcitybuf.Array.{first}
use flatcitybuf.Array.Reads.{at-get_or, put-Written}
use flatcitybuf.Levels.{Range, sum}
use flatcitybuf.Levels.Count.{Above}
use flatcitybuf.Levels.Bounds.{Accepted, Tiles, generate_level_bounds_by-Tiles}
use flatcitybuf.Levels.Shape.{Shape, Tiles-Shape, no_range, Shape-link, Shape-root}
use flatcitybuf.RTree.{
  Float, IsOrdered, NodeItem, PackedRTree, SearchResultItem, create, generate_level_bounds,
}
use flatcitybuf.RTree.Bounds.{two_or_more}
use flatcitybuf.RTree.Packed.{IsPacked}
use flatcitybuf.RTree.Search.{Query, hit, search}
use flatcitybuf.RTree.Search.Window.{count_index}
use flatcitybuf.RTree.Search.Complete.{search_complete}
use flatcitybuf.RTree.Build.{place, init, build, generate_nodes}
use flatcitybuf.RTree.Build.Level.{node_at}
use flatcitybuf.RTree.Build.Levels.{
  IsRoot, one_node, AllParents, AllParents-at, gen_levels-AllParents,
}

module _ {F : Type 0} ⦃float : Float F⦄ (ord : IsOrdered float) where
  -- The leaves in place from `i` on, and what stands before them as it was.
  place_lem :
      (leaves nodes : List (NodeItem F)) (i : ℕ)
      → i + length leaves ≤ length nodes
      → (nodes' : List (NodeItem F)) × (place nodes i leaves ≡ ok nodes')
        × (length nodes' ≡ length nodes)
        × ((j : ℕ) → j < i → node_at ord nodes' j ≡ node_at ord nodes j)
        × ((x : ℕ) → x < length leaves → node_at ord nodes' (i + x) ≡ node_at ord leaves x)
  unfolding place
  place_lem [] nodes i h = (nodes, refl, refl, λ j k. refl, λ x k. absurd (omega arith))
  place_lem (leaf ∷ leaves) nodes i h =
      let (nodes', written, (size, read)) = put-Written nodes i leaf (create 0) (omega arith) in
      let (nodes'', placed, size', before, rest) = place_lem leaves nodes' (i + 1) (omega arith) in
      (
        nodes'',
        rw (written, placed) refl,
        size' ∙ size,
        λ j k. before j (omega arith) ∙ read j ∙ rw (==_false j i (λ e. absurd (omega arith))) refl,
        each nodes' nodes'' (before i (omega arith) ∙ read i ∙ rw (==_refl i) refl) rest,
      )
    where
      each :
          (nodes' nodes'' : List (NodeItem F))
          → node_at ord nodes'' i ≡ leaf
          → ((x : ℕ) → x < length leaves → node_at ord nodes'' (i + 1 + x) ≡ node_at ord leaves x)
          → (x : ℕ) → x < suc (length leaves)
          → node_at ord nodes'' (i + x) ≡ node_at ord (leaf ∷ leaves) x
      each nodes' nodes'' here later zero k = ap (node_at ord nodes'') (omega arith) ∙ here
      each nodes' nodes'' here later (suc x) k =
          ap (node_at ord nodes'') (omega arith) ∙ later x (omega arith)

  -- The tree of leaves with all levels of parents made is packed.
  AllParents-IsPacked :
      (extent : NodeItem F) (items : List (NodeItem F)) (n b top : ℕ) (r : Range) (rs : List Range)
      → 1 ≤ b
      → 1 ≤ n
      → length rs ≡ top
      → r.end ≡ length items
      → r.start + n ≡ r.end
      → Shape IsRoot b (r ∷ rs)
      → AllParents ord b (r ∷ rs) items
      → IsPacked
          (record {
            extent = extent;
            node_items = items;
            num_leaf_nodes = n;
            branching_factor = b;
            level_bounds = r ∷ rs;
          })
          (λ l. get_or (r ∷ rs) l no_range)
          (node_at ord items)
          top
  unfolding first
  AllParents-IsPacked extent items n b top r rs h some_leaf num leaves_end leaves_size shape
        parents =
      record {
        wide = h;
        num_levels = ap suc num;
        levels = λ l k. at-get_or (r ∷ rs) l no_range (omega arith);
        leaves = refl;
        items = λ pos k. at-get_or items pos (create 0) k;
        leaves_end = leaves_end;
        leaves_size = leaves_size;
        some_leaf = some_leaf;
        above = λ l k. (Shape-link IsRoot b (r ∷ rs) l shape (omega arith)).0;
        sizes = λ l k. (Shape-link IsRoot b (r ∷ rs) l shape (omega arith)).1;
        root = Shape-root IsRoot b (r ∷ rs) top shape (ap suc num);
        children = λ l i k. (AllParents-at ord b (r ∷ rs) items l parents (omega arith)).0 i;
        boxes = λ l i k. (AllParents-at ord b (r ∷ rs) items l parents (omega arith)).1 i;
      }

  module _ (nodes : List (NodeItem F)) (extent : NodeItem F) (b : ℕ) where
    -- The tree that `build` makes: packed, with the leaves that it was given in their order.
    abbrev pub Built : PackedRTree F → Type 0
    Built t =
        (top : ℕ) × IsPacked t (λ l. get_or t.level_bounds l no_range) (node_at ord t.node_items)
          top
        × (t.num_leaf_nodes ≡ length nodes)
        × (t.extent ≡ extent)
        × ((x : ℕ)
            → x < length nodes
            → node_at ord t.node_items ((get_or t.level_bounds 0 no_range).start + x)
              ≡ node_at ord nodes x)

    init_ok :
        (r : Range) (rs : List Range) (t : PackedRTree F)
        → generate_level_bounds t.num_leaf_nodes b ≡ ok (r ∷ rs)
        → init b t
          ≡ ok (record t {
            branching_factor = b;
            level_bounds = r ∷ rs;
            node_items = replicate r.end (create 0);
          })
    unfolding init first
    init_ok r rs t e = rw e refl

    -- The same from the bounds that the assertions and the loop left.
    bounds-Built :
        (r : Range) (rs : List Range) (ms : List ℕ)
        → 2 ≤ b
        → 1 ≤ length nodes
        → generate_level_bounds (length nodes) b ≡ ok (r ∷ rs)
        → Shape IsRoot b (r ∷ rs)
        → r.start + length nodes ≡ r.end
        → (t : PackedRTree F) × (build nodes extent b ≡ ok t) × Built t
    unfolding build generate_nodes
    bounds-Built r rs ms wide some_leaf found shape size =
        let empty : PackedRTree F = record {
          extent = extent;
          node_items = [];
          num_leaf_nodes = length nodes;
          branching_factor = 0;
          level_bounds = [];
        } in
        let blank : List (NodeItem F) = replicate r.end (create 0) in
        let blank_size : length blank ≡ r.end = length-replicate r.end (create 0) in
        let (placed, put_all, placed_size, before, leaves) =
          place_lem nodes blank (length blank - length nodes) (omega arith) in
        let (items, made, items_size, kept, parents) =
          gen_levels-AllParents ord b r rs placed (omega arith) shape (omega arith) (omega arith) in
        (
          record {
            extent = extent;
            node_items = items;
            num_leaf_nodes = length nodes;
            branching_factor = b;
            level_bounds = r ∷ rs;
          },
          rw (init_ok r rs empty found, put_all, made) refl,
          (
            length rs,
            AllParents-IsPacked extent items (length nodes) b (length rs) r rs (omega arith)
                some_leaf refl (omega arith) size shape parents,
            refl,
            refl,
            λ x k.
                kept (r.start + x) (omega arith)
                ∙ ap (node_at ord placed) (omega arith)
                ∙ leaves x k,
          ),
        )

    Tiles-Built :
        (bounds : List Range) (ms : List ℕ)
        → 2 ≤ b
        → 1 ≤ length nodes
        → generate_level_bounds (length nodes) b ≡ ok bounds
        → Above (λ m. m == 1) b (length nodes) ms
        → Tiles (sum (length nodes ∷ ms)) (length nodes ∷ ms) bounds
        → (t : PackedRTree F) × (build nodes extent b ≡ ok t) × Built t
    Tiles-Built [] ms wide some_leaf found above tiles = absurd tiles
    Tiles-Built (r ∷ rs) ms wide some_leaf found above tiles =
        bounds-Built r rs ms wide some_leaf found
          (Tiles-Shape (λ m. m == 1) IsRoot one_node b (length nodes) (sum (length nodes ∷ ms)) ms r
            rs above tiles)
          (omega (arith, tiles.0, tiles.1))

    -- When the coordinates are ordered as IEEE 754 values that are not NaN, `build` returns on every
    -- input that its assertions let pass, and the tree that it makes is packed, has the given extent
    -- and holds the given leaves in their order.
    pub build-Built :
        Accepted (length nodes) b → (t : PackedRTree F) × (build nodes extent b ≡ ok t) × Built t
    unfolding generate_level_bounds
    build-Built (wide, some_leaf, small) =
        let (ms, bounds, found, above, tiles) =
          generate_level_bounds_by-Tiles (λ m. m == 1) two_or_more (length nodes) b
            (wide, some_leaf, small) in
        Tiles-Built bounds ms wide some_leaf found above tiles

    -- A result of a query is one of the leaves that were given, which the query hits.
    abbrev pub IsResult : Query F → SearchResultItem → Type 0
    IsResult q r =
        (r.index < length nodes)
        × (r.offset ≡ (node_at ord nodes r.index).offset)
        × (hit q (node_at ord nodes r.index) ≡ true)

    -- `build` followed by `search`: both return on every accepted input, for every query, and the
    -- results are the leaves that the query hits, each once with its offset, and nothing else.
    pub search-build :
        (q : Query F)
        → Accepted (length nodes) b
        → (t : PackedRTree F) × (rs : List SearchResultItem) × (build nodes extent b ≡ ok t)
          × (search t q ≡ ok rs)
          × ((p : ℕ)
              → p < length nodes
              → count_index p rs ≡ (if hit q (node_at ord nodes p) then 1 else 0))
          × All (IsResult q) rs
    search-build q accepted =
        let (t, made, (top, packed, num, same, leaves)) = build-Built accepted in
        let (rs, found, once, results) = search_complete ord q packed in
        (
          t,
          rs,
          made,
          found,
          λ p k. once p (omega arith) ∙ rw (leaves p k) refl,
          All-map _ _
              (λ r (small, offset, is).
                let k : r.index < length nodes = omega arith in
                (
                  k,
                  offset ∙ ap (λ (a : NodeItem F). a.offset) (leaves r.index k),
                  rw (← leaves r.index k) is,
                ))
              rs results,
        )
