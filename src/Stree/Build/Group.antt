-- ===== src/Stree/Build/Group.antt =====
-- The grouping of equal keys in `build` of rust/fcb_core/src/static_btree/stree.rs: what the
-- leaves and the payload section hold.
use flatcitybuf.Prelude.{
  ℕ, zero, suc, ◌+◌, ◌*◌, ◌≤◌, ◌<◌, ◌≡◌, refl, sym, ap, ◌∙◌, arith, true, List, [], ◌∷◌, ◌++◌, map,
  length, length-append, append-nil, append_assoc, Bool-cases, inl, inr, All, ◌==◌, ==_iff,
}
use mathlib.Core.Path.{subst, ap₂}
use flatcitybuf.Error.{Result, ok, ◌>>=◌}
use flatcitybuf.Array.{at}
use flatcitybuf.Key.{Key, IsConsistent, key_eq, key_lt}
use flatcitybuf.Payload
use flatcitybuf.Payload.{PayloadEntry, add_offset, serialize, serialized_size}
use flatcitybuf.Payload.RoundTrip.{IsValid, length-serialize}
use flatcitybuf.Stree.{Entry, Stree, SearchResultItem, payload_tag, tag}
use mathlib.Core.List.{Perm}
use flatcitybuf.Stree.Build.{leaf_for, group, sort_by_key}
use flatcitybuf.Stree.Build.Sort.{
  Sorted, StrictFrom, AscendingFrom, Ascending, sort_by_key-Perm, sort_by_key-Sorted,
  sort_by_key-All, length-sort_by_key,
}
use flatcitybuf.Stree.Build.Collect.{
  keyed, length-keyed, IsPlain, collect_lem, one_offset, one_count, one_offsets,
}
use flatcitybuf.Stree.Search.{with_index, resolve}
use flatcitybuf.Stree.Pointer.{resolve-small, resolve-tag}

count-add_offset : (p : PayloadEntry) (o : ℕ) → (add_offset p o).count ≤ p.count + 1
unfolding add_offset
count-add_offset p o = grind arith

All-behind {ℓ ℓ'} : {A : Type ℓ} (P : A → Type ℓ') (xs ys : List A) → All P (xs ++ ys) → All P ys
All-behind P [] ys h = h
All-behind P (x ∷ xs) ys (here, h) = All-behind P xs ys h

-- The payload section as it grows: a leaf's payload, then those of the leaves behind it.
grow :
    (bytes added suffix tail : List ℕ)
    → (bytes ++ (added ++ suffix)) ++ tail ≡ (bytes ++ added) ++ (suffix ++ tail)
grow bytes added suffix tail =
    ap (λ (t : List ℕ). t ++ tail) (sym (append_assoc bytes added suffix))
    ∙ append_assoc (bytes ++ added) suffix tail

serialized : (q : PayloadEntry) → serialized_size q ≡ 4 + q.count * 8
unfolding serialized_size
serialized q = refl

module _ {K : Type 0} ⦃key : Key K⦄ where
  -- The entries that the leaves stand for, one for each offset that a leaf resolves to.
  abbrev pub entries_of : Stree K → ℕ → List (Entry K) → Result (List (Entry K))
  entries_of t i [] = ok []
  entries_of t i (leaf ∷ leaves) = do
    items ← resolve t leaf.offset i
    rest ← entries_of t (i + 1) leaves
    ok (
        map (λ (item : SearchResultItem). record { key = leaf.key; offset = item.offset }) items
        ++ rest)

  map-with_index :
      (k : K) (i : ℕ) (os : List ℕ)
      → map
          (λ (item : SearchResultItem). record { key = k; offset = item.offset })
          (with_index i os)
        ≡ keyed k os
  unfolding with_index
  map-with_index k i [] = refl
  map-with_index k i (o ∷ os) =
      ap (λ (t : List (Entry K)). record { key = k; offset = o } ∷ t) (map-with_index k i os)

  -- A leaf for one or more offsets leads back to all of them, whatever follows in the payload
  -- section.
  leaf_for_lem :
      (k : K) (q : PayloadEntry) (o : ℕ) (os bytes : List ℕ)
      → IsValid q
      → q.offsets ≡ o ∷ os
      → o < payload_tag
      → length bytes < payload_tag
      → (leaf : Entry K) × (added : List ℕ) × (leaf_for k q bytes ≡ ok (leaf, bytes ++ added))
        × (leaf.key ≡ k)
        × (length added ≤ 12 * q.count)
        × ((t : Stree K) (i : ℕ) (tail : List ℕ)
            → t.payload_initialized ≡ true
            → t.payload_data ≡ (bytes ++ added) ++ tail
            → resolve t leaf.offset i ≡ ok (with_index i q.offsets))
  unfolding leaf_for at with_index
  leaf_for_lem k q o os bytes valid offsets small room = elim (Bool-cases (q.count == 1)) [
    | inl one ↦
        let counted : length (o ∷ os) ≡ 1 =
          ap length (sym offsets) ∙ sym valid.counted ∙ (==_iff q.count 1).0 one in
        let single : q.offsets ≡ o ∷ [] =
          offsets ∙ ap (λ (t : List ℕ). o ∷ t) (no_more os (omega arith)) in
        (
          record { key = k; offset = o },
          [],
          rw (one, single, append-nil bytes) refl,
          refl,
          omega arith,
          λ t i tail on stored. resolve-small t i o small ∙ rw single refl,
        )
    | inr more ↦ (
      record { key = k; offset = tag (length bytes) },
      serialize q,
      rw more refl,
      refl,
      omega (arith, length-serialize q valid, serialized q, ap length offsets, valid.counted),
      λ t i tail on stored.
          resolve-tag t i q bytes tail on (stored ∙ append_assoc bytes (serialize q) tail) room
            valid,
    )
  ]
    where
      no_more : (os : List ℕ) → length os ≡ 0 → os ≡ []
      no_more [] h = refl
      no_more (o ∷ os) h = absurd (omega arith)

  entries_of_step :
      (t : Stree K) (i : ℕ) (leaf : Entry K) (leaves es : List (Entry K)) (os : List ℕ)
      → resolve t leaf.offset i ≡ ok (with_index i os)
      → entries_of t (i + 1) leaves ≡ ok es
      → entries_of t i (leaf ∷ leaves) ≡ ok (keyed leaf.key os ++ es)
  entries_of_step t i leaf leaves es os h k =
      rw (h, k) (ap (λ (x : List (Entry K)). ok (x ++ es)) (map-with_index leaf.key i os))

  -- The leaves have keys of the entries, one or more of them when there is an entry.
  abbrev pub FromKeys : List (Entry K) → List (Entry K) → Type 1
  FromKeys es leaves =
      ((P : K → Type 0) → All (λ (e : Entry K). P e.key) es → All (λ (e : Entry K). P e.key) leaves)
      × (length leaves ≤ length es)
      × (1 ≤ length es → 1 ≤ length leaves)

  module _ (law : IsConsistent key) (exact : (a b : K) → key_eq a b ≡ true → a ≡ b) where
    -- With a round for each entry the grouping ends, and its leaves stand for the entries in
    -- their order, in a tree with the payload section that it made and whatever follows.
    pub group_lem :
        (fuel : ℕ) (es : List (Entry K)) (bytes : List ℕ)
        → length es ≤ fuel
        → length es < 0x1_0000_0000
        → All IsPlain es
        → length bytes + 12 * length es < payload_tag
        → (leaves : List (Entry K)) × (suffix : List ℕ) × (group fuel es bytes
            ≡ ok (leaves, bytes ++ suffix))
          × ((k : K) → StrictFrom k es → AscendingFrom k leaves)
          × (Sorted es → Ascending leaves)
          × ((t : Stree K) (i : ℕ) (tail : List ℕ)
              → t.payload_initialized ≡ true
              → t.payload_data ≡ (bytes ++ suffix) ++ tail
              → entries_of t i leaves ≡ ok es)
          × FromKeys es leaves
    unfolding group
    group_lem fuel [] bytes enough few plain room = (
      [],
      [],
      rw (append-nil bytes) refl,
      λ k s. tt,
      λ s. tt,
      λ t i tail on stored. refl,
      (λ P h. tt, omega arith, λ h. absurd (omega arith)),
    )
    group_lem zero (e ∷ es) bytes enough few plain room = absurd (omega arith)
    group_lem (suc fuel) (e ∷ es) bytes enough few (small, plain) room =
        let (q, rest, os, run, split, offsets, valid, plain_rest, strict) =
          collect_lem law exact e.key (add_offset Payload.new e.offset) es
            (one_offset e.offset (omega arith)) (omega (arith, one_count e.offset)) plain in
        let size : length es ≡ length os + length rest =
          omega
            (arith, ap length split, length-append (keyed e.key os) rest, length-keyed e.key os) in
        let mine : q.offsets ≡ e.offset ∷ os = offsets ∙ one_offsets e.offset os in
        let count : q.count ≡ suc (length os) = valid.counted ∙ ap length mine in
        let (leaf, added, made, same, short, back) =
          leaf_for_lem e.key q e.offset os bytes valid mine small (omega arith) in
        let (leaves, suffix, grouped, ascending, sorted, backs, (keys, fewer, some_leaf)) =
          group_lem fuel rest (bytes ++ added) (omega arith) (omega arith) plain_rest
            (omega (arith, length-append bytes added)) in
        (
          leaf ∷ leaves,
          added ++ suffix,
          rw (run, made, grouped, append_assoc bytes added suffix) refl,
          λ k (first, s). (
            subst (λ x. key_lt k x ≡ true) (sym same) first,
            subst (λ x. AscendingFrom x leaves) (sym same) (ascending e.key (strict s)),
          ),
          λ s. subst (λ x. AscendingFrom x leaves) (sym same) (ascending e.key (strict s)),
          λ t i tail on stored.
              entries_of_step t i leaf leaves rest q.offsets
                (back t i (suffix ++ tail) on (stored ∙ grow bytes added suffix tail))
                (backs t (i + 1) tail on
                  (stored ∙ ap (λ (x : List ℕ). x ++ tail) (sym (append_assoc bytes added suffix))))
              ∙ ap ok (
                  ap₂ (λ (k : K) (x : List ℕ). keyed k x ++ rest) same mine
                  ∙ ap (λ (x : List (Entry K)). e ∷ x) (sym split)),
          (
            λ P (mine, others). (
              subst P (sym same) mine,
              keys P (
                  All-behind (λ (x : Entry K). P x.key) (keyed e.key os) rest
                    (subst (All (λ (x : Entry K). P x.key)) split others)),
            ),
            omega arith,
            λ h. omega arith,
          ),
        )

    -- The same for the sorted entries and an empty payload section.
    pub group_sorted :
        (entries : List (Entry K))
        → length entries < 0x1_0000_0000
        → All IsPlain entries
        → (leaves : List (Entry K)) × (bytes : List ℕ) × (group
              (length entries)
              (sort_by_key entries)
              []
            ≡ ok (leaves, bytes))
          × Ascending leaves
          × ((t : Stree K)
              → t.payload_initialized ≡ true
              → t.payload_data ≡ bytes
              → entries_of t 0 leaves ≡ ok (sort_by_key entries))
          × FromKeys (sort_by_key entries) leaves
    group_sorted entries few plain =
        let size = length-sort_by_key entries in
        let (leaves, suffix, grouped, ascending, sorted, back, from) =
          group_lem (length entries) (sort_by_key entries) [] (omega arith) (omega arith)
            (sort_by_key-All IsPlain entries plain) (omega arith) in
        (
          leaves,
          suffix,
          grouped,
          sorted (sort_by_key-Sorted law entries),
          λ t on stored. back t 0 [] on (stored ∙ sym (append-nil suffix)),
          from,
        )

    -- For keys whose comparison is the opposite in the other direction (`IsConsistent`), and which are
    -- identical when they compare as equal (unlike 0.0 and -0.0 of `OrderedFloat`): sorting and
    -- grouping fewer than 2 ^ 32 entries with plain offsets returns leaves in strictly ascending
    -- order of their keys. In a tree with these leaves and the payload section made with them, the
    -- leaves stand for the entries in the sorted order, which is a permutation of the entries.
    pub group-sort_by_key :
        (entries : List (Entry K))
        → length entries < 0x1_0000_0000
        → All IsPlain entries
        → (leaves : List (Entry K)) × (bytes : List ℕ) × (group
              (length entries)
              (sort_by_key entries)
              []
            ≡ ok (leaves, bytes))
          × Ascending leaves
          × Perm (sort_by_key entries) entries
          × ((t : Stree K)
              → t.payload_initialized ≡ true
              → t.payload_data ≡ bytes
              → entries_of t 0 leaves ≡ ok (sort_by_key entries))
    group-sort_by_key entries few plain =
        let (leaves, bytes, grouped, ascending, back, from) = group_sorted entries few plain in
        (leaves, bytes, grouped, ascending, sort_by_key-Perm entries, back)
