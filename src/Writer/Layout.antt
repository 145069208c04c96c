-- ===== src/Writer/Layout.antt =====
-- The order of the features in the file that `FcbWriter::write` of writer/mod.rs makes.
use flatcitybuf.Prelude.{
  ℕ, zero, suc, ◌+◌, ◌<◌, ◌≡◌, ◌≢◌, refl, sym, ap, ◌∙◌, arith, false, List, [], ◌∷◌, ◌++◌, length,
  append-nil, append_assoc, get_or, ◌==◌, ==_iff, Bool-cases, inl, inr, ◌⊎◌, All,
}
use mathlib.Core.Bool.{false≢true}
use mathlib.Core.Path.{subst}
use flatcitybuf.Error.{ok}
use flatcitybuf.Array.{at}
use flatcitybuf.Array.Reads.{at-get_or}
use flatcitybuf.RTree.{Float, NodeItem}
use flatcitybuf.RTree.Hilbert.{Arith}
use flatcitybuf.Writer.{
  AttributeFeatureOffset, Finished, FcbWriter, read_at, set_place, copy_features, index_nodes,
}
use flatcitybuf.Writer.Store.{
  Numbered, Numbered-map, no_slot, feature, IsStore, read_at-append, read_at_end,
}

-- A change under one number leaves the others.
set_place-Numbered :
    {E : Type 0} {P Q : ℕ → AttributeFeatureOffset E → Type 0} (id offset size n : ℕ)
    (m : List (ℕ × AttributeFeatureOffset E))
    → ((j : ℕ) (a : AttributeFeatureOffset E) → j ≢ id → P j a → Q j a)
    → ((a : AttributeFeatureOffset E) → P id a → Q id (record a { offset = offset; size = size }))
    → Numbered P n m
    → Numbered Q n (set_place id offset size m)
unfolding set_place
set_place-Numbered id offset size zero [] other here h = tt
set_place-Numbered id offset size zero (x ∷ m) other here h = absurd h
set_place-Numbered id offset size (suc n) [] other here h = absurd h
set_place-Numbered {P = P} {Q = Q} id offset size (suc n) ((j, a) ∷ m) other here (e, p, h) =
    elim (Bool-cases (j == id)) [
      | inl same ↦
          let number : n ≡ id = sym e ∙ (==_iff j id).0 same in
          rw same (
            e,
            subst (λ x. Q x (record a { offset = offset; size = size })) (sym number)
                (here a (subst (λ x. P x a) number p)),
            Numbered-map n m (λ k b lt. other k b (λ found. absurd (omega arith))) h,
          )
      | inr differ ↦ rw differ (
        e,
        other n a (λ found. differ_ne differ (e ∙ found)) p,
        set_place-Numbered id offset size n m other here h,
      )
    ]
  where
    differ_ne : (j == id) ≡ false → j ≡ id → ⊥
    differ_ne differ same = false≢true (sym differ ∙ (==_iff j id).1 same)

module _ {F E : Type 0} ⦃float : Float F⦄ ⦃ops : Arith F⦄ (fs : List (Finished F E)) where
  -- A node stands for one of the features.
  abbrev pub Known : NodeItem F → Type 0
  Known node = node.offset < length fs

  -- The number of a feature is that of a node.
  abbrev pub Has : ℕ → List (NodeItem F) → Type 0
  Has j [] = ⊥
  Has j (node ∷ nodes) = (node.offset ≡ j) ⊎ Has j nodes

  -- The bytes of the features of the nodes.
  abbrev pub concat : List (NodeItem F) → List ℕ
  concat [] = []
  concat (node ∷ nodes) = (feature fs node.offset).buf ++ concat nodes

  -- The place noted for feature `j` has its bytes, unless the feature is still to be copied.
  abbrev pub IsPlaced : List (NodeItem F) → List ℕ → ℕ → AttributeFeatureOffset E → Type 0
  IsPlaced todo buf j a =
      (a.index_entries ≡ (feature fs j).index_entries)
      × (((a.size ≡ length (feature fs j).buf)
            × (read_at buf a.offset (length (feature fs j).buf) ≡ ok (feature fs j).buf))
          ⊎ Has j todo)

  module _ (w : FcbWriter F E) (store : IsStore fs w) where
    copy_features_step :
        (node : NodeItem F) (nodes : List (NodeItem F))
        (entries : List (ℕ × AttributeFeatureOffset E)) (buf : List ℕ)
        → Known node
        → copy_features w (node ∷ nodes) entries buf
          ≡ copy_features w nodes
              (set_place node.offset (length buf) (length (feature fs node.offset).buf) entries)
              (buf ++ (feature fs node.offset).buf)
    unfolding copy_features
    copy_features_step node nodes entries buf here =
        let slot = get_or w.feat_offsets node.offset no_slot in
        let (id, size, read) = store.slots node.offset here in
        let found : at w.feat_offsets node.offset ≡ ok slot =
          at-get_or w.feat_offsets node.offset no_slot (omega (arith, store.count)) in
        rw (found, id, size, read) refl

    copied_here :
        (node : NodeItem F) (nodes : List (NodeItem F)) (buf : List ℕ) (j : ℕ)
        (a : AttributeFeatureOffset E)
        → j ≢ node.offset
        → IsPlaced (node ∷ nodes) buf j a
        → IsPlaced nodes (buf ++ (feature fs node.offset).buf) j a
    copied_here node nodes buf j a other (same, inl (size, read)) =
        (same, inl (size, read_at-append buf _ a.offset _ _ read))
    copied_here node nodes buf j a other (same, inr (inl here)) = absurd (other (sym here))
    copied_here node nodes buf j a other (same, inr (inr later)) = (same, inr later)

    pub copy_features_lem :
        (nodes : List (NodeItem F)) (entries : List (ℕ × AttributeFeatureOffset E)) (buf : List ℕ)
        → All Known nodes
        → Numbered (IsPlaced nodes buf) (length fs) entries
        → (entries' : List (ℕ × AttributeFeatureOffset E)) × (copy_features w nodes entries buf
            ≡ ok (buf ++ concat nodes, entries'))
          × Numbered (IsPlaced [] (buf ++ concat nodes)) (length fs) entries'
    unfolding copy_features
    copy_features_lem [] entries buf known placed =
        (entries, rw (append-nil buf) refl, rw (append-nil buf) placed)
    copy_features_lem (node ∷ nodes) entries buf (here, known) placed =
        let bytes = (feature fs node.offset).buf in
        let placed' : Numbered (IsPlaced nodes (buf ++ bytes)) (length fs)
            (set_place node.offset (length buf) (length bytes) entries) =
          set_place-Numbered node.offset (length buf) (length bytes) (length fs) entries
            (copied_here node nodes buf)
            (λ a (same, where_is). (same, inl (refl, read_at_end buf bytes))) placed in
        let (entries', rest, all) = copy_features_lem nodes _ (buf ++ bytes) known placed' in
        let whole = append_assoc buf bytes (concat nodes) in
        (
          entries',
          copy_features_step node nodes entries buf here
              ∙ rest
              ∙ ap (λ (x : List ℕ). ok (x, entries')) whole,
          subst (λ x. Numbered (IsPlaced [] x) (length fs) entries') whole all,
        )

    -- The leaves of the spatial index: the nodes with the places of their features.
    abbrev pub leaves_from : ℕ → List (NodeItem F) → List (NodeItem F)
    leaves_from offset [] = []
    leaves_from offset (node ∷ nodes) =
        record node { offset = offset }
        ∷ leaves_from (offset + length (feature fs node.offset).buf) nodes

    pub index_nodes_lem :
        (nodes : List (NodeItem F)) (offset : ℕ)
        → All Known nodes
        → index_nodes w.feat_offsets offset nodes ≡ ok (leaves_from offset nodes)
    unfolding index_nodes
    index_nodes_lem [] offset known = refl
    index_nodes_lem (node ∷ nodes) offset (here, known) =
        let slot = get_or w.feat_offsets node.offset no_slot in
        let (id, size, read) = store.slots node.offset here in
        let found : at w.feat_offsets node.offset ≡ ok slot =
          at-get_or w.feat_offsets node.offset no_slot (omega (arith, store.count)) in
        rw (found, size, index_nodes_lem nodes (offset + length (feature fs node.offset).buf) known)
          refl
