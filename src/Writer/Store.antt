-- ===== src/Writer/Store.antt =====
-- What the temporary file and the lists of `FcbWriter` of writer/mod.rs hold after features were
-- added.
use flatcitybuf.Prelude.{
  ℕ, zero, suc, ◌+◌, ◌≤◌, ◌<◌, ◌≡◌, refl, sym, ap, ◌∙◌, arith, List, [], ◌∷◌, ◌++◌, length,
  length-append, append-nil, append_assoc, take, drop, get_or, leb, le→leb, leb→le, ltb, Bool-cases,
  inl, inr, ltb→lt, ltb→le,
}
use mathlib.Core.Path.{subst}
use flatcitybuf.Error.{Error, ok, io_error, err, ok_inj}
use flatcitybuf.Array.Slices.{length-drop}
use flatcitybuf.RTree.{Float, NodeItem}
use flatcitybuf.RTree.Hilbert.{Arith}
use flatcitybuf.Writer.{
  FeatureOffset, Transform, Finished, FcbWriter, read_at, next_offset, actual_bbox, write_feature,
  add_features, new,
}

module _ {ℓ} {A : Type ℓ} where
  pub get_or-append :
      (xs ys : List A) (i : ℕ) (d : A) → i < length xs → get_or (xs ++ ys) i d ≡ get_or xs i d
  get_or-append [] ys i d h = absurd (omega arith)
  get_or-append (x ∷ xs) ys zero d h = refl
  get_or-append (x ∷ xs) ys (suc i) d h = get_or-append xs ys i d (omega arith)

  pub get_or-append_length :
      (xs : List A) (y : A) (ys : List A) (d : A) → get_or (xs ++ (y ∷ ys)) (length xs) d ≡ y
  get_or-append_length [] y ys d = refl
  get_or-append_length (x ∷ xs) y ys d = get_or-append_length xs y ys d

  take-append : (n : ℕ) (xs ys : List A) → n ≤ length xs → take n (xs ++ ys) ≡ take n xs
  take-append zero xs ys h = refl
  take-append (suc n) [] ys h = absurd (omega arith)
  take-append (suc n) (x ∷ xs) ys h = ap (λ (t : List A). x ∷ t) (take-append n xs ys (omega arith))

  drop-append : (n : ℕ) (xs ys : List A) → n ≤ length xs → drop n (xs ++ ys) ≡ drop n xs ++ ys
  drop-append zero xs ys h = refl
  drop-append (suc n) [] ys h = absurd (omega arith)
  drop-append (suc n) (x ∷ xs) ys h = drop-append n xs ys (omega arith)

  take_all : (xs : List A) → take (length xs) xs ≡ xs
  take_all [] = refl
  take_all (x ∷ xs) = ap (λ (t : List A). x ∷ t) (take_all xs)

  drop_all : (xs ys : List A) → drop (length xs) (xs ++ ys) ≡ ys
  drop_all [] ys = refl
  drop_all (x ∷ xs) ys = drop_all xs ys

err≢ok : {A : Type 0} {e : Error} {a : A} → err e ≡ ok a → ⊥
err≢ok h = cc

-- What could be read can be read when more follows.
pub read_at-append :
    (bytes more : List ℕ) (offset size : ℕ) (b : List ℕ)
    → read_at bytes offset size ≡ ok b
    → read_at (bytes ++ more) offset size ≡ ok b
unfolding read_at
read_at-append bytes more offset size b h = elim (Bool-cases (leb (offset + size) (length bytes))) [
  | inl e ↦
      let whole : take size (drop offset bytes) ≡ b = ok_inj (rw e at h) in
      let inside : offset + size ≤ length bytes = leb→le (offset + size) (length bytes) e in
      rw
        (
          le→leb (offset + size) (length (bytes ++ more)) (omega (arith, length-append bytes more)),
          drop-append offset bytes more (omega arith),
          take-append size (drop offset bytes) more (omega (arith, length-drop bytes offset)),
        )
        (ap ok whole)
  | inr e ↦ let short : err io_error ≡ ok b = rw e at h in absurd (err≢ok short)
]

-- The last bytes of a file can be read.
pub read_at_end :
    (bytes more : List ℕ) → read_at (bytes ++ more) (length bytes) (length more) ≡ ok more
unfolding read_at
read_at_end bytes more =
    rw
      (
        le→leb (length bytes + length more) (length (bytes ++ more))
            (omega (arith, length-append bytes more)),
        drop_all bytes more,
        take_all more,
      )
      refl

next_offset-append :
    (xs : List FeatureOffset) (x : FeatureOffset) → next_offset (xs ++ (x ∷ [])) ≡ x.offset + x.size
unfolding next_offset
next_offset-append [] x = refl
next_offset-append (y ∷ []) x = refl
next_offset-append (y ∷ y' ∷ ys) x = next_offset-append (y' ∷ ys) x

-- The numbers `n - 1`, ..., `0` with `P` of each and what is stored for it.
abbrev pub Numbered : {A : Type 0} → (ℕ → A → Type 0) → ℕ → List (ℕ × A) → Type 0
Numbered P zero [] = Unit {0}
Numbered P zero (x ∷ m) = ⊥
Numbered P (suc n) [] = ⊥
Numbered P (suc n) ((j, a) ∷ m) = (j ≡ n) × P n a × Numbered P n m

-- What is said of the numbers below `n` may be said in other words.
pub Numbered-map :
    {A : Type 0} {P Q : ℕ → A → Type 0} (n : ℕ) (m : List (ℕ × A))
    → ((j : ℕ) (a : A) → j < n → P j a → Q j a)
    → Numbered P n m
    → Numbered Q n m
Numbered-map zero [] f h = tt
Numbered-map zero (x ∷ m) f h = h
Numbered-map (suc n) [] f h = h
Numbered-map (suc n) ((j, a) ∷ m) f (e, p, h) =
    (e, f n a (omega arith) p, Numbered-map n m (λ j a lt. f j a (omega arith)) h)

abbrev pub no_slot : FeatureOffset
no_slot = record { temp_feature_id = 0; offset = 0; size = 0 }

module _ {F E : Type 0} ⦃float : Float F⦄ ⦃ops : Arith F⦄ where
  -- No feature, for a lookup out of range.
  abbrev pub no_feature : Finished F E
  no_feature = record { buf = []; bbox = flatcitybuf.RTree.create 0; index_entries = [] }

  -- The nodes of the features, each with its number.
  abbrev pub nodes_from : Transform F → ℕ → List (Finished F E) → List (NodeItem F)
  nodes_from transform id [] = []
  nodes_from transform id (f ∷ fs) =
      record (actual_bbox transform f.bbox) { offset = id } ∷ nodes_from transform (suc id) fs

  -- The place of a feature in the temporary file.
  abbrev pub IsSlot : List ℕ → ℕ → FeatureOffset → Finished F E → Type 0
  IsSlot bytes i slot f =
      (slot.temp_feature_id ≡ i)
      × (slot.size ≡ length f.buf)
      × (read_at bytes slot.offset (length f.buf) ≡ ok f.buf)

  module _ (fs : List (Finished F E)) where
    abbrev pub feature : ℕ → Finished F E
    feature i = get_or fs i no_feature

    -- The temporary file has the features one behind the other, the lists their places.
    pub record IsStore (w : FcbWriter F E) : Type 0 where
      pub count : length w.feat_offsets ≡ length fs
      pub slots :
          (i : ℕ) → i < length fs → IsSlot w.tmpout i (get_or w.feat_offsets i no_slot) (feature i)
      pub next : next_offset w.feat_offsets ≡ length w.tmpout
      pub nodes : w.feat_nodes ≡ nodes_from w.transform 0 fs
      pub entries :
          Numbered
            (λ j a. a.index_entries ≡ (feature j).index_entries)
            (length fs)
            w.attribute_index_entries

  nodes_from-append :
      (transform : Transform F) (id : ℕ) (fs : List (Finished F E)) (f : Finished F E)
      → nodes_from transform id (fs ++ (f ∷ []))
        ≡ nodes_from transform id fs
          ++ (record (actual_bbox transform f.bbox) { offset = id + length fs } ∷ [])
  nodes_from-append transform id [] f =
      ap (λ (x : ℕ). record (actual_bbox transform f.bbox) { offset = x } ∷ []) (omega arith)
  nodes_from-append transform id (g ∷ fs) f =
      let shifted : suc id + length fs ≡ id + suc (length fs) = omega arith in
      ap (λ (t : List (NodeItem F)). record (actual_bbox transform g.bbox) { offset = id } ∷ t)
        (nodes_from-append transform (suc id) fs f
          ∙ ap
              (λ (x : ℕ).
                nodes_from transform (suc id) fs
                ++ (record (actual_bbox transform f.bbox) { offset = x } ∷ []))
              shifted)

  write_feature-IsStore :
      (fs : List (Finished F E)) (f : Finished F E) (w : FcbWriter F E)
      → IsStore fs w
      → IsStore (fs ++ (f ∷ [])) (write_feature f w)
  unfolding write_feature
  write_feature-IsStore fs f w store = record {
    count =
        omega
          (arith, length-append w.feat_offsets (slot ∷ []), length-append fs (f ∷ []), store.count);
    slots = λ i h. elim (Bool-cases (ltb i (length fs))) [
      | inl e ↦ old_slot i (ltb→lt _ _ e)
      | inr e ↦ new_slot i (omega (arith, length-append fs (f ∷ []), ltb→le _ _ e))
    ];
    next =
        next_offset-append w.feat_offsets slot
        ∙ omega (arith, length-append w.tmpout f.buf, store.next);
    nodes =
        ap (λ (t : List (NodeItem F)). t ++ (node (length w.feat_offsets) ∷ [])) store.nodes
        ∙ ap (λ (x : ℕ). nodes_from w.transform 0 fs ++ (node x ∷ [])) (omega (arith, store.count))
        ∙ sym (nodes_from-append w.transform 0 fs f);
    entries =
        subst
          (λ (n : ℕ).
            Numbered (λ j a. a.index_entries ≡ (feature (fs ++ (f ∷ [])) j).index_entries) n
              (write_feature f w).attribute_index_entries)
          (sym size)
          (
            store.count,
            sym (
                ap (λ (x : Finished F E). x.index_entries)
                  (get_or-append_length fs f [] no_feature)),
            Numbered-map (length fs) w.attribute_index_entries
                (λ j a lt same.
                  same
                  ∙ sym (
                      ap (λ (x : Finished F E). x.index_entries)
                        (get_or-append fs (f ∷ []) j no_feature lt)))
                store.entries,
          );
  }
    where
      size : length (fs ++ (f ∷ [])) ≡ suc (length fs)
      size = omega (arith, length-append fs (f ∷ []))

      slot : FeatureOffset
      slot = record {
        temp_feature_id = length w.feat_offsets;
        offset = next_offset w.feat_offsets;
        size = length f.buf;
      }

      node : ℕ → NodeItem F
      node id = record (actual_bbox w.transform f.bbox) { offset = id }

      old_slot :
          (i : ℕ)
          → i < length fs
          → IsSlot
              (w.tmpout ++ f.buf)
              i
              (get_or (w.feat_offsets ++ (slot ∷ [])) i no_slot)
              (feature (fs ++ (f ∷ [])) i)
      old_slot i h =
          let (id, size, read) = store.slots i h in
          rw
            (
              get_or-append w.feat_offsets (slot ∷ []) i no_slot (omega (arith, store.count)),
              get_or-append fs (f ∷ []) i no_feature h,
            )
            (id, size, read_at-append w.tmpout f.buf _ _ _ read)

      new_slot :
          (i : ℕ)
          → i ≡ length fs
          → IsSlot
              (w.tmpout ++ f.buf)
              i
              (get_or (w.feat_offsets ++ (slot ∷ [])) i no_slot)
              (feature (fs ++ (f ∷ [])) i)
      new_slot i h =
          let last : get_or (w.feat_offsets ++ (slot ∷ [])) i no_slot ≡ slot =
            ap (λ (x : ℕ). get_or (w.feat_offsets ++ (slot ∷ [])) x no_slot) (h ∙ sym store.count)
            ∙ get_or-append_length w.feat_offsets slot [] no_slot in
          let mine : feature (fs ++ (f ∷ [])) i ≡ f =
            ap (λ (x : ℕ). feature (fs ++ (f ∷ [])) x) h
            ∙ get_or-append_length fs f [] no_feature in
          rw (last, mine)
            (
              store.count ∙ sym h,
              refl,
              ap (λ (x : ℕ). read_at (w.tmpout ++ f.buf) x (length f.buf)) store.next
                  ∙ read_at_end w.tmpout f.buf,
            )

  add_features-IsStore :
      (fs gs : List (Finished F E)) (w : FcbWriter F E)
      → IsStore fs w
      → IsStore (fs ++ gs) (add_features gs w)
  unfolding add_features
  add_features-IsStore fs [] w store = rw (append-nil fs) store
  add_features-IsStore fs (g ∷ gs) w store =
      subst (λ (x : List (Finished F E)). IsStore x (add_features gs (write_feature g w)))
        (append_assoc fs (g ∷ []) gs)
        (add_features-IsStore (fs ++ (g ∷ [])) gs (write_feature g w)
          (write_feature-IsStore fs g w store))

  -- After any features were added to a new writer, the temporary file has their bytes one behind
  -- the other; the list of places has for each its number, its size and where its bytes can be
  -- read; the nodes have their numbers and transformed boxes; and the entries to be indexed stand
  -- under their numbers.
  pub add_features-new :
      (transform : Transform F) (fs : List (Finished F E))
      → IsStore fs (add_features fs (new transform))
  unfolding next_offset
  add_features-new transform fs = add_features-IsStore [] fs (new transform) (record {
    count = refl;
    slots = λ i h. absurd (omega arith);
    next = refl;
    nodes = refl;
    entries = tt;
  })

  pub add_features-transform :
      (fs : List (Finished F E)) (w : FcbWriter F E) → (add_features fs w).transform ≡ w.transform
  unfolding add_features write_feature
  add_features-transform [] w = refl
  add_features-transform (f ∷ fs) w = add_features-transform fs (write_feature f w)
