-- ===== src/Writer/Attribute.antt =====
-- The index of one attribute that `build_index_generic` of writer/attr_index.rs makes of the places
-- of `FcbWriter::write`: what `find_exact` finds on it are the places of the right features.
use flatcitybuf.Prelude.{
  ℕ, zero, suc, ◌≤◌, ◌<◌, ◌≡◌, refl, sym, ap, ◌∙◌, arith, true, false, List, [], ◌∷◌, ◌++◌, Option,
  none, some, map, length, ltb, ltb→lt, ltb→le, Bool-cases, inl, inr, ◌⊎◌, All, All-map,
}
use mathlib.Core.Bool.{false≢true}
use mathlib.Core.Path.{subst}
use flatcitybuf.Error.{ok}
use flatcitybuf.Key.{Key, key_lt, key_eq}
use flatcitybuf.Key.Order.{IsLinear}
use flatcitybuf.RTree.{Float}
use flatcitybuf.RTree.Hilbert.{Arith}
use flatcitybuf.Stree.{Stree, SearchResultItem}
use flatcitybuf.Stree.Build.{build}
use flatcitybuf.Stree.Search.{find_exact}
use flatcitybuf.Stree.Lookup.{offsets_of}
use flatcitybuf.Stree.Lookup.Offsets.{offsets_of-append, key_eq_refl}
use flatcitybuf.Stree.Lookup.FindExact.{Fits, find_exact-build}
use flatcitybuf.Writer.{
  AttributeFeatureOffset, Finished, Transform, read_at, values, feature_entries, attribute_entries,
}
use flatcitybuf.Writer.Store.{Numbered, feature}
use flatcitybuf.Writer.Place.{IsStored}

-- An offset is one of the list.
abbrev pub In : ℕ → List ℕ → Type 0
In o [] = ⊥
In o (x ∷ xs) = (x ≡ o) ⊎ In o xs

In-append_left : (o : ℕ) (xs ys : List ℕ) → In o xs → In o (xs ++ ys)
In-append_left o [] ys h = absurd h
In-append_left o (x ∷ xs) ys (inl here) = inl here
In-append_left o (x ∷ xs) ys (inr later) = inr (In-append_left o xs ys later)

In-append_right : (o : ℕ) (xs ys : List ℕ) → In o ys → In o (xs ++ ys)
In-append_right o [] ys h = h
In-append_right o (x ∷ xs) ys h = inr (In-append_right o xs ys h)

All-append : (P : ℕ → Type 0) (xs ys : List ℕ) → All P xs → All P ys → All P (xs ++ ys)
All-append P [] ys h k = k
All-append P (x ∷ xs) ys (here, h) k = (here, All-append P xs ys h k)

none_or_some : {K : Type 0} (o : Option K) → (o ≡ none) ⊎ ((k : K) × (o ≡ some k))
none_or_some none = inl refl
none_or_some (some k) = inr (k, refl)

some_inj : {K : Type 0} {b : K} (a : K) → some a ≡ some b → a ≡ b
some_inj a h = cc

module _ {E K : Type 0} ⦃key : Key K⦄ (linear : IsLinear key) (extract : E → Option K) (k : K) where
  -- A feature has the key.
  abbrev pub HasKey : List E → Type 0
  HasKey [] = ⊥
  HasKey (e ∷ es) = (extract e ≡ some k) ⊎ HasKey es

  module _ (offset : ℕ) (e : E) (es : List E) where
    entries_none :
        extract e ≡ none
        → feature_entries extract offset (e ∷ es) ≡ feature_entries extract offset es
    unfolding feature_entries
    entries_none h = rw (feature_entries, h) refl

    entries_some :
        (k' : K)
        → extract e ≡ some k'
        → feature_entries extract offset (e ∷ es)
          ≡ record { key = k'; offset = offset } ∷ feature_entries extract offset es
    unfolding feature_entries
    entries_some k' h = rw (feature_entries, h) refl

    other_added :
        (k' : K)
        → extract e ≡ some k'
        → key_eq k' k ≡ false
        → offsets_of k (feature_entries extract offset (e ∷ es))
          ≡ offsets_of k (feature_entries extract offset es)
    unfolding offsets_of
    other_added k' h differ = ap (offsets_of k) (entries_some k' h) ∙ rw differ refl

    same_added :
        extract e ≡ some k
        → offsets_of k (feature_entries extract offset (e ∷ es))
          ≡ offset ∷ offsets_of k (feature_entries extract offset es)
    unfolding offsets_of
    same_added h = ap (offsets_of k) (entries_some k h) ∙ rw (key_eq_refl linear k) refl

    -- An entry has the key, or it adds nothing.
    added :
        (extract e ≡ some k)
        ⊎ ((¬ (extract e ≡ some k))
            × (offsets_of k (feature_entries extract offset (e ∷ es))
                ≡ offsets_of k (feature_entries extract offset es)))
    added = elim (none_or_some (extract e)) [
      | inl h ↦ inr (λ same. none≢some (sym h ∙ same), ap (offsets_of k) (entries_none h))
      | inr (k', h) ↦ elim (Bool-cases (key_eq k' k)) [
        | inl same ↦ inl (h ∙ ap some (linear.exact k' k same))
        | inr differ ↦ inr (λ same. other_key k' differ (sym h ∙ same), other_added k' h differ)
      ]
    ]
      where
        none≢some : none ≡ some k → ⊥
        none≢some h = cc

        other_key : (k' : K) → key_eq k' k ≡ false → some k' ≡ some k → ⊥
        other_key k' differ same = false≢true (
            sym differ
            ∙ subst (λ x. key_eq x k ≡ true) (sym (some_inj k' same)) (key_eq_refl linear k))

  -- The offsets found in the entries of one feature.
  feature_sound :
      (offset : ℕ) (es : List E)
      → All (λ o. (o ≡ offset) × HasKey es) (offsets_of k (feature_entries extract offset es))
  unfolding feature_entries offsets_of
  feature_sound offset [] = tt
  feature_sound offset (e ∷ es) =
      let later =
        All-map (λ (o : ℕ). (o ≡ offset) × HasKey es) (λ o. (o ≡ offset) × HasKey (e ∷ es))
          (λ o (same, has). (same, inr has)) _ (feature_sound offset es) in
      elim (added offset e es) [
        | inl here ↦ rw (same_added offset e es here) ((refl, inl here), later)
        | inr (other, nothing) ↦ rw nothing later
      ]

  feature_complete :
      (offset : ℕ) (es : List E)
      → HasKey es
      → In offset (offsets_of k (feature_entries extract offset es))
  feature_complete offset [] h = absurd h
  feature_complete offset (e ∷ es) (inl here) = rw (same_added offset e es here) (inl refl)
  feature_complete offset (e ∷ es) (inr later) =
      let rest = feature_complete offset es later in
      elim (added offset e es) [
        | inl here ↦ rw (same_added offset e es here) (inl refl)
        | inr (other, nothing) ↦ rw nothing rest
      ]

  module _ {F : Type 0} ⦃float : Float F⦄ ⦃ops : Arith F⦄ (transform : Transform F)
      (fs : List (Finished F E)) (features : List ℕ) where
    -- At an offset of the features section stand the bytes of a feature with the key.
    abbrev pub IsHit : ℕ → Type 0
    IsHit o =
        (j : ℕ) × (j < length fs)
        × HasKey (feature fs j).index_entries
        × (read_at features o (length (feature fs j).buf) ≡ ok (feature fs j).buf)

    -- A feature is found at one of the offsets.
    abbrev pub IsFound : List ℕ → ℕ → Type 0
    IsFound os j =
        (o : ℕ) × In o os × (read_at features o (length (feature fs j).buf) ≡ ok (feature fs j).buf)

    entries_sound :
        (n : ℕ) (m : List (ℕ × AttributeFeatureOffset E))
        → n ≤ length fs
        → Numbered (IsStored transform fs features) n m
        → All IsHit (offsets_of k (attribute_entries extract (values m)))
    unfolding attribute_entries offsets_of
    entries_sound zero [] h stored = tt
    entries_sound zero (x ∷ m) h stored = absurd stored
    entries_sound (suc n) [] h stored = absurd stored
    entries_sound (suc n) ((j, a) ∷ m) h (e, (same, size, read), stored) =
        let mine = feature_sound a.offset a.index_entries in
        let hits =
          All-map (λ (o : ℕ). (o ≡ a.offset) × HasKey a.index_entries) IsHit
            (λ o (at, has). (n, omega arith, subst HasKey same has, rw at read)) _ mine in
        rw
          (offsets_of-append k (feature_entries extract a.offset a.index_entries)
            (attribute_entries extract (values m)))
          (All-append IsHit _ _ hits (entries_sound n m (omega arith) stored))

    entries_complete :
        (n : ℕ) (m : List (ℕ × AttributeFeatureOffset E))
        → Numbered (IsStored transform fs features) n m
        → (j : ℕ) → j < n
        → HasKey (feature fs j).index_entries
        → IsFound (offsets_of k (attribute_entries extract (values m))) j
    unfolding attribute_entries
    entries_complete zero m stored j h has = absurd (omega arith)
    entries_complete (suc n) [] stored j h has = absurd stored
    entries_complete (suc n) ((i, a) ∷ m) (e, (same, size, read), stored) j h has =
        let split =
          offsets_of-append k (feature_entries extract a.offset a.index_entries)
            (attribute_entries extract (values m)) in
        elim (Bool-cases (ltb j n)) [
          | inl before ↦
              let (o, found, bytes) = entries_complete n m stored j (ltb→lt j n before) has in
              (o, rw split (In-append_right o _ _ found), bytes)
          | inr here ↦
              let number : n ≡ j = omega (arith, ltb→le j n here) in
              let mine =
                subst HasKey (sym (same ∙ ap (λ (x : ℕ). (feature fs x).index_entries) number))
                  has in
              (
                a.offset,
                rw split
                    (In-append_left a.offset _ _ (feature_complete a.offset a.index_entries mine)),
                subst
                    (λ x.
                      read_at features a.offset (length (feature fs x).buf) ≡ ok (feature fs x).buf)
                    number read,
              )
        ]

    -- With places that hold the features, the index of an attribute is built and `find_exact`
    -- returns for every key before the greatest value: each offset that it finds is a place of a
    -- feature with the key, and every feature with the key is found.
    pub find_exact-attribute_entries :
        (entries : List (ℕ × AttributeFeatureOffset E)) (branching_factor : ℕ)
        → Numbered (IsStored transform fs features) (length fs) entries
        → Fits linear (attribute_entries extract (values entries))
        → key_lt k key.max_value ≡ true
        → (t : Stree K) × (items : List SearchResultItem) × (build
              (attribute_entries extract (values entries))
              branching_factor
            ≡ ok t)
          × (find_exact t k ≡ ok items)
          × All IsHit (map (λ (r : SearchResultItem). r.offset) items)
          × ((j : ℕ)
              → j < length fs
              → HasKey (feature fs j).index_entries
              → IsFound (map (λ (r : SearchResultItem). r.offset) items) j)
    find_exact-attribute_entries entries branching_factor stored fits low =
        let (t, items, built, found, all) =
          find_exact-build linear (attribute_entries extract (values entries)) branching_factor k
            fits low in
        (
          t,
          items,
          built,
          found,
          subst (All IsHit) (sym all) (entries_sound (length fs) entries (omega arith) stored),
          λ j h has.
              subst (λ os. IsFound os j) (sym all)
                (entries_complete (length fs) entries stored j h has),
        )
