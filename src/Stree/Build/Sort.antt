-- ===== src/Stree/Build/Sort.antt =====
-- The sort of the entries by key in `build` of rust/fcb_core/src/static_btree/stree.rs.
use flatcitybuf.Prelude.{
  ◌≡◌, refl, ap, ◌∙◌, true, List, [], ◌∷◌, length, Bool-cases, inl, inr, All, suc,
}
use mathlib.Core.List.{Perm}
use mathlib.Core.List.Perm
use flatcitybuf.Key.{Key, IsConsistent, key_le, key_lt, key_le_total}
use flatcitybuf.Stree.{Entry}
use flatcitybuf.Stree.Build.{insert_sorted, sort_by_key}

module _ {K : Type 0} ⦃key : Key K⦄ where
  -- No entry is before `k`, nor before the entry in front of it.
  abbrev pub SortedFrom : K → List (Entry K) → Type 0
  SortedFrom k [] = Unit {0}
  SortedFrom k (e ∷ es) = (key_le k e.key ≡ true) × SortedFrom e.key es

  abbrev pub Sorted : List (Entry K) → Type 0
  Sorted [] = Unit {0}
  Sorted (e ∷ es) = SortedFrom e.key es

  -- The first entry is behind `k`, the others in order.
  abbrev pub StrictFrom : K → List (Entry K) → Type 0
  StrictFrom k [] = Unit {0}
  StrictFrom k (e ∷ es) = (key_lt k e.key ≡ true) × SortedFrom e.key es

  -- Each entry is behind the one in front of it, the first behind `k`.
  abbrev pub AscendingFrom : K → List (Entry K) → Type 0
  AscendingFrom k [] = Unit {0}
  AscendingFrom k (e ∷ es) = (key_lt k e.key ≡ true) × AscendingFrom e.key es

  abbrev pub Ascending : List (Entry K) → Type 0
  Ascending [] = Unit {0}
  Ascending (e ∷ es) = AscendingFrom e.key es

  insert_sorted-Perm : (e : Entry K) (es : List (Entry K)) → Perm (insert_sorted e es) (e ∷ es)
  unfolding insert_sorted
  insert_sorted-Perm e [] = Perm.refl _
  insert_sorted-Perm e (x ∷ xs) = elim (Bool-cases (key_le e.key x.key)) [
    | inl le ↦ rw le (Perm.refl _)
    | inr more ↦ rw more (Perm.trans (Perm.cons x (insert_sorted-Perm e xs)) (Perm.swap e x xs))
  ]

  pub sort_by_key-Perm : (es : List (Entry K)) → Perm (sort_by_key es) es
  unfolding sort_by_key
  sort_by_key-Perm [] = Perm.refl _
  sort_by_key-Perm (e ∷ es) =
      Perm.trans (insert_sorted-Perm e (sort_by_key es)) (Perm.cons e (sort_by_key-Perm es))

  module _ (law : IsConsistent key) where
    insert_sorted-SortedFrom :
        (k : K) (e : Entry K) (es : List (Entry K))
        → key_le k e.key ≡ true
        → SortedFrom k es
        → SortedFrom k (insert_sorted e es)
    unfolding insert_sorted
    insert_sorted-SortedFrom k e [] h s = (h, tt)
    insert_sorted-SortedFrom k e (x ∷ xs) h (first, s) = elim (Bool-cases (key_le e.key x.key)) [
      | inl le ↦ rw le (h, (le, s))
      | inr more ↦
          rw more (first, insert_sorted-SortedFrom x.key e xs (key_le_total law e.key x.key more) s)
    ]

    insert_sorted-Sorted :
        (e : Entry K) (es : List (Entry K)) → Sorted es → Sorted (insert_sorted e es)
    unfolding insert_sorted
    insert_sorted-Sorted e [] s = tt
    insert_sorted-Sorted e (x ∷ xs) s = elim (Bool-cases (key_le e.key x.key)) [
      | inl le ↦ rw le (le, s)
      | inr more ↦
          rw more (insert_sorted-SortedFrom x.key e xs (key_le_total law e.key x.key more) s)
    ]

    pub sort_by_key-Sorted : (es : List (Entry K)) → Sorted (sort_by_key es)
    unfolding sort_by_key
    sort_by_key-Sorted [] = tt
    sort_by_key-Sorted (e ∷ es) = insert_sorted-Sorted e (sort_by_key es) (sort_by_key-Sorted es)

  module _ (P : Entry K → Type 0) where
    insert_sorted-All :
        (e : Entry K) (es : List (Entry K)) → P e → All P es → All P (insert_sorted e es)
    unfolding insert_sorted
    insert_sorted-All e [] h hs = (h, tt)
    insert_sorted-All e (x ∷ xs) h (h', hs) = elim (Bool-cases (key_le e.key x.key)) [
      | inl le ↦ rw le (h, (h', hs))
      | inr more ↦ rw more (h', insert_sorted-All e xs h hs)
    ]

    pub sort_by_key-All : (es : List (Entry K)) → All P es → All P (sort_by_key es)
    unfolding sort_by_key
    sort_by_key-All [] hs = tt
    sort_by_key-All (e ∷ es) (h, hs) =
        insert_sorted-All e (sort_by_key es) h (sort_by_key-All es hs)

  length-insert_sorted :
      (e : Entry K) (es : List (Entry K)) → length (insert_sorted e es) ≡ suc (length es)
  unfolding insert_sorted
  length-insert_sorted e [] = refl
  length-insert_sorted e (x ∷ xs) = elim (Bool-cases (key_le e.key x.key)) [
    | inl le ↦ rw le refl
    | inr more ↦ rw more (ap suc (length-insert_sorted e xs))
  ]

  pub length-sort_by_key : (es : List (Entry K)) → length (sort_by_key es) ≡ length es
  unfolding sort_by_key
  length-sort_by_key [] = refl
  length-sort_by_key (e ∷ es) =
      length-insert_sorted e (sort_by_key es) ∙ ap suc (length-sort_by_key es)
