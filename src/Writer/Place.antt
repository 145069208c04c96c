-- ===== src/Writer/Place.antt =====
-- Where the features stand in the file of `FcbWriter::write` of writer/mod.rs, and what a search of
-- its spatial index finds there.
use mathlib.Core.List.{Perm}
use flatcitybuf.Prelude.{
  ℕ, zero, suc, ◌+◌, ◌≤◌, ◌<◌, ◌≡◌, refl, sym, ap, ◌∙◌, arith, le→ltb, ltb, Bool-cases, false, Bool,
  List, [], ◌∷◌, ◌++◌, Option, none, some, map, length, length-append, append_assoc, get_or,
  if◌then◌else◌, inl, inr, ◌⊎◌, All, All-map, lt→ltb,
}
use mathlib.Core.Path.{subst}
use flatcitybuf.Error.{ok}
use flatcitybuf.Levels.Bounds.{Accepted}
use flatcitybuf.RTree
use flatcitybuf.RTree.{Float, IsOrdered, NodeItem, PackedRTree, SearchResultItem}
use flatcitybuf.RTree.Box.{hit-offset}
use flatcitybuf.RTree.Hilbert.{Arith}
use flatcitybuf.RTree.Search.{Query, bbox, hit, search}
use flatcitybuf.RTree.Search.Window.{count_index}
use flatcitybuf.RTree.Build
use flatcitybuf.RTree.Build.Tree.{search-build, IsResult}
use flatcitybuf.Writer.{
  AttributeFeatureOffset, Finished, FcbWriter, Transform, Sections, read_at, actual_bbox, new,
  add_features, copy_features, sorted_nodes, spatial_index, write_sections,
}
use flatcitybuf.Writer.Store.{
  Numbered, Numbered-map, no_feature, feature, IsStore, nodes_from, read_at-append, read_at_end,
  add_features-new, add_features-transform,
}
use flatcitybuf.Writer.Layout.{
  Known, concat, IsPlaced, copy_features_lem, leaves_from, index_nodes_lem,
}
use flatcitybuf.Writer.Order.{
  IsNodeOf, written, file_nodes, sorted_nodes-All, sorted_nodes-Has, sorted_nodes-Perm,
  length-sorted_nodes,
}

get_or-map :
    {A B : Type 0} (f : A → B) (xs : List A) (i : ℕ) (d : A) (d' : B)
    → i < length xs
    → get_or (map f xs) i d' ≡ f (get_or xs i d)
get_or-map f [] i d d' h = absurd (omega arith)
get_or-map f (x ∷ xs) zero d d' h = refl
get_or-map f (x ∷ xs) (suc i) d d' h = get_or-map f xs i d d' (omega arith)

length-map : {A B : Type 0} (f : A → B) (xs : List A) → length (map f xs) ≡ length xs
length-map f [] = refl
length-map f (x ∷ xs) = ap suc (length-map f xs)

All-get_or :
    {A : Type 0} (P : A → Type 0) (xs : List A) (i : ℕ) (d : A)
    → All P xs
    → i < length xs
    → P (get_or xs i d)
All-get_or P [] i d h lt = absurd (omega arith)
All-get_or P (x ∷ xs) zero d (here, h) lt = here
All-get_or P (x ∷ xs) (suc i) d (here, h) lt = All-get_or P xs i d h (omega arith)

-- The steps of `write` put together.
write_sections_lem :
    {F E : Type 0} ⦃float : Float F⦄ ⦃ops : Arith F⦄ (self : FcbWriter F E) (index_node_size : ℕ)
    (nodes : List (NodeItem F)) (tree : Option (PackedRTree F)) (features : List ℕ)
    (entries : List (ℕ × AttributeFeatureOffset E))
    → sorted_nodes index_node_size self.feat_nodes ≡ nodes
    → spatial_index self index_node_size nodes ≡ ok tree
    → copy_features self nodes self.attribute_index_entries [] ≡ ok (features, entries)
    → write_sections self index_node_size
      ≡ ok (record { tree = tree; features = features; entries = entries })
unfolding write_sections
write_sections_lem self index_node_size nodes tree features entries order indexed copied =
    rw (order, indexed, copied) refl

module _ {F E : Type 0} ⦃float : Float F⦄ ⦃ops : Arith F⦄ (transform : Transform F)
    (fs : List (Finished F E)) where
  abbrev writer : FcbWriter F E
  writer = add_features fs (new transform)

  store : IsStore fs writer
  store = add_features-new transform fs

  nodes_lem : writer.feat_nodes ≡ nodes_from transform 0 fs
  nodes_lem =
      store.nodes
      ∙ ap (λ (t : Transform F). nodes_from t 0 fs) (add_features-transform fs (new transform))

  abbrev leaves : ℕ → List (NodeItem F) → List (NodeItem F)
  leaves offset nodes = leaves_from fs writer store offset nodes

  length-leaves :
      (nodes : List (NodeItem F)) (offset : ℕ) → length (leaves offset nodes) ≡ length nodes
  length-leaves [] offset = refl
  length-leaves (node ∷ nodes) offset =
      ap suc (length-leaves nodes (offset + length (feature fs node.offset).buf))

  -- The leaf in the place of a node has its box, and the bytes of its feature are where it points.
  leaf_lem :
      (q : Query F) (nodes : List (NodeItem F)) (before : List ℕ) (p : ℕ) (d : NodeItem F)
      → p < length nodes
      → (hit q (get_or (leaves (length before) nodes) p d) ≡ hit q (get_or nodes p d))
        × (read_at
              (before ++ concat fs nodes)
              (get_or (leaves (length before) nodes) p d).offset
              (length (feature fs (get_or nodes p d).offset).buf)
            ≡ ok (feature fs (get_or nodes p d).offset).buf)
  leaf_lem q [] before p d h = absurd (omega arith)
  leaf_lem q (node ∷ nodes) before zero d h =
      let b = (feature fs node.offset).buf in
      (
        hit-offset q node (length before),
        subst (λ x. read_at x (length before) (length b) ≡ ok b)
            (append_assoc before b (concat fs nodes))
            (read_at-append (before ++ b) (concat fs nodes) (length before) (length b) b
              (read_at_end before b)),
      )
  leaf_lem q (node ∷ nodes) before (suc p) d h =
      let b = (feature fs node.offset).buf in
      let (same, read) = leaf_lem q nodes (before ++ b) p d (omega arith) in
      let size = length-append before b in
      (rw (← size) same, rw (← size, ← append_assoc before b (concat fs nodes)) read)

  -- What the attribute indices get of feature `j`: its entries, its size and a place with its bytes.
  abbrev pub IsStored : List ℕ → ℕ → AttributeFeatureOffset E → Type 0
  IsStored features j a =
      (a.index_entries ≡ (feature fs j).index_entries)
      × (a.size ≡ length (feature fs j).buf)
      × (read_at features a.offset (length (feature fs j).buf) ≡ ok (feature fs j).buf)

  module _ (index_node_size : ℕ) where
    abbrev nodes : List (NodeItem F)
    nodes = file_nodes transform fs index_node_size

    nodes-Known : All (Known fs) nodes
    nodes-Known =
        All-map (IsNodeOf transform fs) (Known fs) (λ node h. h.0) nodes
          (sorted_nodes-All transform fs index_node_size)

    size : length nodes ≡ length fs
    size = length-sorted_nodes transform fs index_node_size

    IsPlaced-IsStored :
        (features : List ℕ) (j : ℕ) (a : AttributeFeatureOffset E)
        → IsPlaced fs [] features j a
        → IsStored features j a
    IsPlaced-IsStored features j a (same, inl (amount, read)) = (same, amount, read)
    IsPlaced-IsStored features j a (same, inr missing) = absurd missing

    copied :
        (entries : List (ℕ × AttributeFeatureOffset E)) × (copy_features writer nodes
            writer.attribute_index_entries []
          ≡ ok (concat fs nodes, entries))
        × Numbered (IsStored (concat fs nodes)) (length fs) entries
    copied =
        let start =
          Numbered-map (length fs) writer.attribute_index_entries
            (λ j a lt same. (same, inr (sorted_nodes-Has transform fs index_node_size j lt)))
            store.entries in
        let (entries, made, placed) =
          copy_features_lem fs writer store nodes writer.attribute_index_entries [] nodes-Known
            start in
        (
          entries,
          made,
          Numbered-map (length fs) entries (λ j a lt. IsPlaced-IsStored (concat fs nodes) j a)
              placed,
        )

    sections_lem :
        (tree : Option (PackedRTree F))
        → spatial_index writer index_node_size nodes ≡ ok tree
        → (entries : List (ℕ × AttributeFeatureOffset E)) × (write_sections writer index_node_size
            ≡ ok (record { tree = tree; features = concat fs nodes; entries = entries }))
          × Numbered (IsStored (concat fs nodes)) (length fs) entries
    sections_lem tree h =
        let (entries, made, stored) = copied in
        (
          entries,
          write_sections_lem writer index_node_size nodes tree _ _
              (ap (sorted_nodes index_node_size) nodes_lem) h made,
          stored,
        )

    spatial_index_lem :
        (tree : PackedRTree F)
        → 1 ≤ index_node_size
        → 1 ≤ length fs
        → RTree.Build.build (leaves 0 nodes) (RTree.calc_extent writer.feat_nodes) index_node_size
          ≡ ok tree
        → spatial_index writer index_node_size nodes ≡ ok (some tree)
    unfolding spatial_index
    spatial_index_lem tree on some_feature built =
        rw
          (
            lt→ltb 0 index_node_size on,
            lt→ltb 0 (length nodes) (omega (arith, size)),
            index_nodes_lem fs writer store nodes 0 nodes-Known,
            built,
          )
          refl

    -- Features with a size of node that the R-tree takes, or no features, or no spatial index.
    abbrev pub Writable : Type 0
    Writable = Accepted (length fs) index_node_size ⊎ ((length fs ≡ 0) ⊎ (index_node_size ≡ 0))

    abbrev extent : NodeItem F
    extent = RTree.calc_extent writer.feat_nodes

    leaves-Accepted :
        Accepted (length fs) index_node_size → Accepted (length (leaves 0 nodes)) index_node_size
    leaves-Accepted accepted =
        subst (λ n. Accepted n index_node_size) (sym (length-leaves nodes 0 ∙ size)) accepted

    no_index : index_node_size ≡ 0 → spatial_index writer index_node_size nodes ≡ ok none
    unfolding spatial_index
    no_index off = rw (le→ltb 0 index_node_size (omega arith)) refl

    no_features : length fs ≡ 0 → spatial_index writer index_node_size nodes ≡ ok none
    unfolding spatial_index
    no_features e =
        let empty : ltb 0 (length nodes) ≡ false = le→ltb 0 (length nodes) (omega (arith, size)) in
        elim (Bool-cases (ltb 0 index_node_size)) [
          | inl on ↦ rw (on, empty) refl
          | inr off ↦ rw off refl
        ]

    -- When the coordinates are ordered as IEEE 754 values that are not NaN: adding the features to a
    -- new writer and writing them returns, if the size of node is one that the R-tree takes for their
    -- number, or there are no features, or there is no spatial index. The places noted for the
    -- attribute indices are one for each feature, with its entries, its size and an offset at which
    -- its bytes stand in the features section.
    pub write_sections-entries :
        IsOrdered float
        → Writable
        → (sections : Sections F E) × (write_sections writer index_node_size ≡ ok sections)
          × Numbered (IsStored sections.features) (length fs) sections.entries
    write_sections-entries ord writable = elim writable [
      | inl accepted ↦
          let (tree, rs, made, found, once, results) =
            search-build ord (leaves 0 nodes) extent index_node_size
              (bbox float.infinity float.infinity float.infinity float.infinity)
              (leaves-Accepted accepted) in
          let (entries, written, stored) =
            sections_lem (some tree)
              (spatial_index_lem tree (omega (arith, accepted.0)) accepted.1 made) in
          (_, written, stored)
      | inr (inl none_added) ↦
          let (entries, written, stored) = sections_lem none (no_features none_added) in
          (_, written, stored)
      | inr (inr off) ↦
          let (entries, written, stored) = sections_lem none (no_index off) in (_, written, stored)
    ]

    module _ (ord : IsOrdered float) (q : Query F) where
      abbrev order : List (Finished F E)
      order = written transform fs nodes

      count : length order ≡ length nodes
      count = length-map (λ (node : NodeItem F). feature fs node.offset) nodes

      at_place :
          (p : ℕ)
          → p < length nodes
          → get_or order p no_feature ≡ feature fs (get_or nodes p (RTree.create 0)).offset
      at_place p h =
          get_or-map (λ (node : NodeItem F). feature fs node.offset) nodes p (RTree.create 0)
            no_feature h

      hit_lem :
          (p : ℕ)
          → p < length nodes
          → hit q (get_or (leaves 0 nodes) p (RTree.create 0))
            ≡ hit q (actual_bbox transform (get_or order p no_feature).bbox)
      hit_lem p h =
          let node = get_or nodes p (RTree.create 0) in
          let (inside, box) =
            All-get_or (IsNodeOf transform fs) nodes p (RTree.create 0)
              (sorted_nodes-All transform fs index_node_size) h in
          (leaf_lem q nodes [] p (RTree.create 0) h).0
          ∙ ap (hit q) box
          ∙ hit-offset q (actual_bbox transform (feature fs node.offset).bbox) node.offset
          ∙ ap (λ (f : Finished F E). hit q (actual_bbox transform f.bbox)) (sym (at_place p h))

      stored_lem :
          (p offset : ℕ)
          → p < length nodes
          → offset ≡ (get_or (leaves 0 nodes) p (RTree.create 0)).offset
          → (p < length order)
            × (read_at (concat fs nodes) offset (length (get_or order p no_feature).buf)
                ≡ ok (get_or order p no_feature).buf)
      stored_lem p offset h same = (
        omega (arith, count),
        rw (same, at_place p h) ((leaf_lem q nodes [] p (RTree.create 0) h).1),
      )

      -- When the coordinates are ordered as IEEE 754 values that are not NaN: adding one or more
      -- features to a new writer and writing them with a size of node that the R-tree takes returns.
      -- The leaves of the spatial index stand for the features, each once; a search of the index
      -- returns and finds each feature whose transformed box the query hits once, and no other; and
      -- at each offset that it finds stand the bytes of that feature.
      pub write_sections-search :
          Accepted (length fs) index_node_size
          → (sections : Sections F E) × (tree : PackedRTree F) × (order : List (Finished F E))
            × (rs : List SearchResultItem) × (write_sections writer index_node_size ≡ ok sections)
            × (sections.tree ≡ some tree)
            × Perm order fs
            × (search tree q ≡ ok rs)
            × ((p : ℕ)
                → p < length order
                → count_index p rs ≡ (
                    if hit q (actual_bbox transform (get_or order p no_feature).bbox)
                    then 1
                    else 0))
            × All
                (λ (r : SearchResultItem).
                  (r.index < length order)
                  × (read_at sections.features r.offset
                        (length (get_or order r.index no_feature).buf)
                      ≡ ok (get_or order r.index no_feature).buf))
                rs
      write_sections-search accepted =
          let (tree, rs, made, found, once, results) =
            search-build ord (leaves 0 nodes) extent index_node_size q (leaves-Accepted accepted) in
          let (entries, written, stored) =
            sections_lem (some tree)
              (spatial_index_lem tree (omega (arith, accepted.0)) accepted.1 made) in
          (
            _,
            tree,
            order,
            rs,
            written,
            refl,
            sorted_nodes-Perm transform fs index_node_size,
            found,
            λ p h.
                once p (omega (arith, count, length-leaves nodes 0))
                ∙ ap (λ (b : Bool). if b then 1 else 0) (hit_lem p (omega (arith, count))),
            All-map (IsResult ord (leaves 0 nodes) extent index_node_size q) _
                (λ r (inside, offset, is).
                  stored_lem r.index r.offset (omega (arith, length-leaves nodes 0)) offset)
                rs results,
          )
