-- ===== src/Stree/Lookup/Answer.antt =====
-- What a leaf of the tree of stree.rs stands for, by the key.
use flatcitybuf.Prelude.{
  ℕ, zero, suc, ◌+◌, ◌<◌, ◌≡◌, ◌≢◌, sym, ap, ◌∙◌, arith, true, false, List, [], ◌∷◌, ◌++◌, map,
  length, get_or, Bool-cases, inl, inr, ◌⊎◌, append-nil, All,
}
use mathlib.Core.Bool.{false≢true}
use mathlib.Core.Path.{subst, ap₂}
use flatcitybuf.Error.{ok, ok_of_bind, ok_inj}
use flatcitybuf.Key.{Key, key_eq, key_lt}
use flatcitybuf.Key.Order.{IsLinear, lt-ne}
use flatcitybuf.Stree.{Entry, Stree, SearchResultItem}
use flatcitybuf.Stree.Shape.{no_entry}
use flatcitybuf.Stree.Search.{resolve}
use flatcitybuf.Stree.Build.Sort.{Ascending, AscendingFrom}
use flatcitybuf.Stree.Build.Group.{entries_of}
use flatcitybuf.Stree.Lookup.{offsets_of}
use flatcitybuf.Stree.Lookup.Offsets.{
  offsets_of-append, entries_for, offsets_of-same, offsets_of-other, key_eq_refl,
}

module _ {K : Type 0} ⦃key : Key K⦄ where
  pub All-get_or :
      (P : K → Type 0) (es : List (Entry K)) (p : ℕ)
      → All (λ (e : Entry K). P e.key) es
      → p < length es
      → P (get_or es p no_entry).key
  All-get_or P [] p h lt = absurd (omega arith)
  All-get_or P (e ∷ es) zero (here, h) lt = here
  All-get_or P (e ∷ es) (suc p) (here, h) lt = All-get_or P es p h (omega arith)

  -- The leaf behind the first, taken apart.
  entries_of-cons :
      (t : Stree K) (i : ℕ) (leaf : Entry K) (leaves es : List (Entry K))
      → entries_of t i (leaf ∷ leaves) ≡ ok es
      → (items : List SearchResultItem) × (rest : List (Entry K)) × (resolve t leaf.offset i
          ≡ ok items)
        × (entries_of t (i + 1) leaves ≡ ok rest)
        × (entries_for leaf.key items ++ rest ≡ es)
  entries_of-cons t i leaf leaves es h =
      let (items, found, h') = ok_of_bind (resolve t leaf.offset i) h in
      let (rest, others, h'') = ok_of_bind (entries_of t (i + 1) leaves) h' in
      (items, rest, found, others, ok_inj h'')

  module _ (linear : IsLinear key) where
    AscendingFrom-at :
        (k : K) (es : List (Entry K))
        → AscendingFrom k es
        → (p : ℕ) → p < length es
        → key_lt k (get_or es p no_entry).key ≡ true
    AscendingFrom-at k [] s p h = absurd (omega arith)
    AscendingFrom-at k (e ∷ es) (first, s) zero h = first
    AscendingFrom-at k (e ∷ es) (first, s) (suc p) h =
        linear.trans k e.key _ first (AscendingFrom-at e.key es s p (omega arith))

    Ascending-tail : (k : K) (es : List (Entry K)) → AscendingFrom k es → Ascending es
    Ascending-tail k [] s = tt
    Ascending-tail k (e ∷ es) (first, s) = s

    pub Ascending-at :
        (es : List (Entry K))
        → Ascending es
        → (p q : ℕ) → p < q
        → q < length es
        → key_lt (get_or es p no_entry).key (get_or es q no_entry).key ≡ true
    Ascending-at [] s p q h k = absurd (omega arith)
    Ascending-at (e ∷ es) s zero zero h k = absurd (omega arith)
    Ascending-at (e ∷ es) s zero (suc q) h k = AscendingFrom-at e.key es s q (omega arith)
    Ascending-at (e ∷ es) s (suc p) zero h k = absurd (omega arith)
    Ascending-at (e ∷ es) s (suc p) (suc q) h k =
        Ascending-at es (Ascending-tail e.key es s) p q (omega arith) (omega arith)

    -- A key is that of a leaf or of none.
    pub leaf_or_none :
        (k : K) (es : List (Entry K))
        → ((p : ℕ) × (p < length es) × ((get_or es p no_entry).key ≡ k))
          ⊎ ((p : ℕ) → p < length es → (get_or es p no_entry).key ≢ k)
    leaf_or_none k [] = inr (λ p h. absurd (omega arith))
    leaf_or_none k (e ∷ es) = elim (Bool-cases (key_eq e.key k)) [
      | inl same ↦ inl (0, omega arith, linear.exact e.key k same)
      | inr differ ↦ elim (leaf_or_none k es) [
        | inl (p, h, same) ↦ inl (suc p, omega arith, same)
        | inr none ↦ inr (no_leaf differ none)
      ]
    ]
      where
        no_leaf :
            key_eq e.key k ≡ false
            → ((p : ℕ) → p < length es → (get_or es p no_entry).key ≢ k)
            → (p : ℕ) → p < suc (length es)
            → (get_or (e ∷ es) p no_entry).key ≢ k
        no_leaf differ none zero h same =
            false≢true
              (sym differ ∙ subst (λ x. key_eq e.key x ≡ true) same (key_eq_refl linear e.key))
        no_leaf differ none (suc p) h same = none p (omega arith) same

    key_eq-other : (a b : K) → a ≢ b → key_eq a b ≡ false
    key_eq-other a b h = elim (Bool-cases (key_eq a b)) [
      | inl e ↦ absurd (h (linear.exact a b e))
      | inr e ↦ e
    ]

    -- No leaf with the key, no entry with it.
    pub offsets_of-none :
        (k : K) (t : Stree K) (i : ℕ) (leaves es : List (Entry K))
        → entries_of t i leaves ≡ ok es
        → ((p : ℕ) → p < length leaves → (get_or leaves p no_entry).key ≢ k)
        → offsets_of k es ≡ []
    unfolding offsets_of
    offsets_of-none k t i [] es h none = ap (offsets_of k) (sym (ok_inj h))
    offsets_of-none k t i (leaf ∷ leaves) es h none =
        let (items, rest, found, others, split) = entries_of-cons t i leaf leaves es h in
        let here = key_eq-other leaf.key k (none 0 (omega arith)) in
        let there =
          offsets_of-none k t (i + 1) leaves rest others (λ p lt. none (suc p) (omega arith)) in
        ap (offsets_of k) (sym split)
        ∙ offsets_of-append k (entries_for leaf.key items) rest
        ∙ ap₂ (λ (x y : List ℕ). x ++ y) (offsets_of-other k leaf.key items here) there

    -- The leaf with the key resolves to all offsets of the entries with it.
    pub offsets_of-leaf :
        (k : K) (t : Stree K) (i : ℕ) (leaves es : List (Entry K))
        → entries_of t i leaves ≡ ok es
        → Ascending leaves
        → (p : ℕ) → p < length leaves
        → (get_or leaves p no_entry).key ≡ k
        → (items : List SearchResultItem) × (resolve t (get_or leaves p no_entry).offset (i + p)
            ≡ ok items)
          × (map (λ (r : SearchResultItem). r.offset) items ≡ offsets_of k es)
    offsets_of-leaf k t i [] es h s p lt same = absurd (omega arith)
    offsets_of-leaf k t i (leaf ∷ leaves) es h s zero lt same =
        let (items, rest, found, others, split) = entries_of-cons t i leaf leaves es h in
        let here = subst (λ x. key_eq leaf.key x ≡ true) same (key_eq_refl linear leaf.key) in
        let behind : (p : ℕ) → p < length leaves → (get_or leaves p no_entry).key ≢ k =
          λ p lt same'.
            lt-ne linear _ _ (AscendingFrom-at leaf.key leaves s p lt) (same ∙ sym same') in
        (
          items,
          ap (resolve t leaf.offset) (omega arith) ∙ found,
          sym (
              ap (offsets_of k) (sym split)
              ∙ offsets_of-append k (entries_for leaf.key items) rest
              ∙ ap₂ (λ (x y : List ℕ). x ++ y) (offsets_of-same k leaf.key items here)
                  (offsets_of-none k t (i + 1) leaves rest others behind)
              ∙ append-nil _),
        )
    offsets_of-leaf k t i (leaf ∷ leaves) es h s (suc p) lt same =
        let (items, rest, found, others, split) = entries_of-cons t i leaf leaves es h in
        let differ : key_eq leaf.key k ≡ false = key_eq-other leaf.key k (λ e.
          lt-ne linear _ _ (AscendingFrom-at leaf.key leaves s p (omega arith)) (e ∙ sym same)) in
        let (items', resolved, all) =
          offsets_of-leaf k t (i + 1) leaves rest others (Ascending-tail leaf.key leaves s) p
            (omega arith) same in
        (
          items',
          ap (resolve t (get_or leaves p no_entry).offset) (omega arith) ∙ resolved,
          all
              ∙ sym (
                  ap (offsets_of k) (sym split)
                  ∙ offsets_of-append k (entries_for leaf.key items) rest
                  ∙ ap (λ (x : List ℕ). x ++ offsets_of k rest)
                      (offsets_of-other k leaf.key items differ)),
        )
