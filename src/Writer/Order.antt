-- ===== src/Writer/Order.antt =====
-- The order of the nodes in `FcbWriter::write` of writer/mod.rs: one for each feature.
use mathlib.Core.List.{Perm}
use mathlib.Core.List.Perm
use flatcitybuf.Prelude.{
  ℕ, zero, suc, ◌+◌, ◌<◌, ◌≡◌, refl, sym, ap, ◌∙◌, arith, ◌&&◌, List, [], ◌∷◌, map, length, get_or,
  ltb, leb, Bool-cases, inl, inr, All,
}
use mathlib.Core.Path.{subst, ap₂}
use flatcitybuf.RTree
use flatcitybuf.RTree.{Float, IsOrdered, NodeItem, PackedRTree, SearchResultItem}
use flatcitybuf.RTree.Hilbert.{
  Arith, hilbert_sort, insert_item, hilbert_bbox, hilbert_max, hilbert_sort-Perm,
  length-hilbert_sort,
}
use flatcitybuf.Writer.{Finished, Transform, actual_bbox, sorted_nodes}
use flatcitybuf.Writer.Store.{no_feature, feature, nodes_from}
use flatcitybuf.Writer.Layout.{Has}

module _ {F : Type 0} ⦃ops : Arith F⦄ where
  -- The sort keeps what holds of all nodes, and every number.
  module _ (P : NodeItem F → Type 0) (extent : NodeItem F) where
    insert_item-All :
        (e : NodeItem F) (es : List (NodeItem F)) → P e → All P es → All P (insert_item extent e es)
    unfolding insert_item
    insert_item-All e [] h hs = (h, tt)
    insert_item-All e (x ∷ xs) h (h', hs) =
        elim (Bool-cases
          (leb (hilbert_bbox x hilbert_max extent) (hilbert_bbox e hilbert_max extent))) [
            | inl le ↦ rw le (h, (h', hs))
            | inr more ↦ rw more (h', insert_item-All e xs h hs)
          ]

    hilbert_sort-All : (es : List (NodeItem F)) → All P es → All P (hilbert_sort extent es)
    unfolding hilbert_sort
    hilbert_sort-All [] hs = tt
    hilbert_sort-All (e ∷ es) (h, hs) =
        insert_item-All e (hilbert_sort extent es) h (hilbert_sort-All es hs)

module _ {F E : Type 0} ⦃float : Float F⦄ ⦃ops : Arith F⦄ where
  module _ (transform : Transform F) (fs : List (Finished F E)) where
    swap-Has :
        (j : ℕ) (e x : NodeItem F) (xs ys : List (NodeItem F))
        → (Has fs j (e ∷ xs) → Has fs j ys)
        → Has fs j (e ∷ x ∷ xs)
        → Has fs j (x ∷ ys)
    swap-Has j e x xs ys keep (inl here) = inr (keep (inl here))
    swap-Has j e x xs ys keep (inr (inl next)) = inl next
    swap-Has j e x xs ys keep (inr (inr later)) = inr (keep (inr later))

    insert_item-Has :
        (extent : NodeItem F) (j : ℕ) (e : NodeItem F) (es : List (NodeItem F))
        → Has fs j (e ∷ es)
        → Has fs j (insert_item extent e es)
    unfolding insert_item
    insert_item-Has extent j e [] h = h
    insert_item-Has extent j e (x ∷ xs) h =
        elim (Bool-cases
          (leb (hilbert_bbox x hilbert_max extent) (hilbert_bbox e hilbert_max extent))) [
            | inl le ↦ rw le h
            | inr more ↦
                rw more
                  (swap-Has j e x xs (insert_item extent e xs) (insert_item-Has extent j e xs) h)
          ]

    hilbert_sort-Has :
        (extent : NodeItem F) (j : ℕ) (es : List (NodeItem F))
        → Has fs j es
        → Has fs j (hilbert_sort extent es)
    unfolding hilbert_sort
    hilbert_sort-Has extent j [] h = h
    hilbert_sort-Has extent j (e ∷ es) (inl here) =
        insert_item-Has extent j e (hilbert_sort extent es) (inl here)
    hilbert_sort-Has extent j (e ∷ es) (inr later) =
        insert_item-Has extent j e (hilbert_sort extent es)
          (inr (hilbert_sort-Has extent j es later))

    -- The node of a feature.
    abbrev pub node_of : ℕ → NodeItem F
    node_of i = record (actual_bbox transform (feature fs i).bbox) { offset = i }

    abbrev pub IsNodeOf : NodeItem F → Type 0
    IsNodeOf node = (node.offset < length fs) × (node ≡ node_of node.offset)

    module _ (id : ℕ) (gs : List (Finished F E)) where
      -- `gs` are the features from number `id` on.
      abbrev Behind : Type 0
      Behind =
          (i : ℕ)
          → i < length gs
          → (id + i < length fs) × (get_or gs i no_feature ≡ feature fs (id + i))

    Behind-tail :
        (id : ℕ) (g : Finished F E) (gs : List (Finished F E))
        → Behind id (g ∷ gs)
        → Behind (suc id) gs
    Behind-tail id g gs behind i h =
        let next : id + suc i ≡ suc id + i = omega arith in
        let (inside, same) = behind (suc i) (omega arith) in
        (omega arith, same ∙ ap (feature fs) next)

    Behind-head :
        (id : ℕ) (g : Finished F E) (gs : List (Finished F E))
        → Behind id (g ∷ gs)
        → g ≡ feature fs id
    Behind-head id g gs behind = (behind 0 (omega arith)).1 ∙ ap (feature fs) (omega arith)

    nodes_from-All :
        (id : ℕ) (gs : List (Finished F E))
        → Behind id gs
        → All IsNodeOf (nodes_from transform id gs)
    nodes_from-All id [] behind = tt
    nodes_from-All id (g ∷ gs) behind = (
      (
        omega (arith, (behind 0 (omega arith)).0),
        ap (λ (x : Finished F E). record (actual_bbox transform x.bbox) { offset = id })
            (Behind-head id g gs behind),
      ),
      nodes_from-All (suc id) gs (Behind-tail id g gs behind),
    )

    nodes_from-Has :
        (id : ℕ) (gs : List (Finished F E)) (i : ℕ)
        → i < length gs
        → Has fs (id + i) (nodes_from transform id gs)
    nodes_from-Has id [] i h = absurd (omega arith)
    nodes_from-Has id (g ∷ gs) zero h = inl (omega arith)
    nodes_from-Has id (g ∷ gs) (suc i) h = inr (
        subst (λ x. Has fs x (nodes_from transform (suc id) gs)) (omega arith)
          (nodes_from-Has (suc id) gs i (omega arith)))

    abbrev pub written : List (NodeItem F) → List (Finished F E)
    written nodes = map (λ (node : NodeItem F). feature fs node.offset) nodes

    written-nodes_from :
        (id : ℕ) (gs : List (Finished F E))
        → Behind id gs
        → written (nodes_from transform id gs) ≡ gs
    written-nodes_from id [] behind = refl
    written-nodes_from id (g ∷ gs) behind =
        ap₂ (λ (x : Finished F E) (xs : List (Finished F E)). x ∷ xs)
          (sym (Behind-head id g gs behind))
          (written-nodes_from (suc id) gs (Behind-tail id g gs behind))

    all_behind : Behind 0 fs
    all_behind i h = (omega arith, ap (feature fs) (omega arith))

    -- The nodes in the order of the file: one for each feature.
    module _ (index_node_size : ℕ) where
      abbrev pub file_nodes : List (NodeItem F)
      file_nodes = sorted_nodes index_node_size (nodes_from transform 0 fs)

      pub sorted_nodes-All : All IsNodeOf file_nodes
      unfolding sorted_nodes
      sorted_nodes-All =
          elim (Bool-cases (ltb 0 index_node_size && ltb 0 (length (nodes_from transform 0 fs)))) [
            | inl e ↦ rw e (hilbert_sort-All IsNodeOf _ _ (nodes_from-All 0 fs all_behind))
            | inr e ↦ rw e (nodes_from-All 0 fs all_behind)
          ]

      pub sorted_nodes-Has : (j : ℕ) → j < length fs → Has fs j file_nodes
      unfolding sorted_nodes
      sorted_nodes-Has j h =
          let found =
            subst (λ x. Has fs x (nodes_from transform 0 fs)) (omega arith)
              (nodes_from-Has 0 fs j h) in
          elim (Bool-cases (ltb 0 index_node_size && ltb 0 (length (nodes_from transform 0 fs)))) [
            | inl e ↦ rw e (hilbert_sort-Has _ j _ found)
            | inr e ↦ rw e found
          ]

      pub sorted_nodes-Perm : Perm (written file_nodes) fs
      unfolding sorted_nodes
      sorted_nodes-Perm =
          let all = written-nodes_from 0 fs all_behind in
          let moved =
            Perm.map (λ (node : NodeItem F). feature fs node.offset)
              (hilbert_sort-Perm (RTree.calc_extent (nodes_from transform 0 fs))
                (nodes_from transform 0 fs)) in
          elim (Bool-cases (ltb 0 index_node_size && ltb 0 (length (nodes_from transform 0 fs)))) [
            | inl e ↦ rw e (
                subst
                  (Perm (
                    written (
                      hilbert_sort (RTree.calc_extent (nodes_from transform 0 fs))
                        (nodes_from transform 0 fs))))
                  all moved)
            | inr e ↦ rw (e, all) (Perm.refl fs)
          ]

      length-nodes_from :
          (id : ℕ) (gs : List (Finished F E)) → length (nodes_from transform id gs) ≡ length gs
      length-nodes_from id [] = refl
      length-nodes_from id (g ∷ gs) = ap suc (length-nodes_from (suc id) gs)

      pub length-sorted_nodes : length file_nodes ≡ length fs
      unfolding sorted_nodes
      length-sorted_nodes =
          elim (Bool-cases (ltb 0 index_node_size && ltb 0 (length (nodes_from transform 0 fs)))) [
            | inl e ↦
                rw e (length-hilbert_sort _ (nodes_from transform 0 fs)) ∙ length-nodes_from 0 fs
            | inr e ↦ rw e (length-nodes_from 0 fs)
          ]
