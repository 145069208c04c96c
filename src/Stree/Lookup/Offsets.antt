-- ===== src/Stree/Lookup/Offsets.antt =====
-- The offsets under a key, through the sort of `build` of stree.rs.
use Prim.Native.Nat.{Ordering}
use flatcitybuf.Prelude.{
  ℕ, ◌≡◌, refl, ap, ◌∙◌, true, false, List, [], ◌∷◌, ◌++◌, map, Bool-cases, inl, inr, if◌then◌else◌,
}
use mathlib.Core.Path.{subst}
use flatcitybuf.Key.{Key, key_eq, key_le, opposite}
use flatcitybuf.Key.Order.{IsLinear, cmp_refl}
use flatcitybuf.Stree.{Entry, SearchResultItem}
use flatcitybuf.Stree.Build.{insert_sorted, sort_by_key}
use flatcitybuf.Stree.Lookup.{offsets_of}

module _ {K : Type 0} ⦃key : Key K⦄ where
  pub offsets_of-append :
      (k : K) (xs ys : List (Entry K))
      → offsets_of k (xs ++ ys) ≡ offsets_of k xs ++ offsets_of k ys
  unfolding offsets_of
  offsets_of-append k [] ys = refl
  offsets_of-append k (x ∷ xs) ys = elim (Bool-cases (key_eq x.key k)) [
    | inl e ↦ rw e (ap (λ (t : List ℕ). x.offset ∷ t) (offsets_of-append k xs ys))
    | inr e ↦ rw e (offsets_of-append k xs ys)
  ]

  -- The entries that a leaf with the key `key` stands for.
  abbrev pub entries_for : K → List SearchResultItem → List (Entry K)
  entries_for k items =
      map (λ (item : SearchResultItem). record { key = k; offset = item.offset }) items

  pub offsets_of-same :
      (k k' : K) (items : List SearchResultItem)
      → key_eq k' k ≡ true
      → offsets_of k (entries_for k' items) ≡ map (λ (r : SearchResultItem). r.offset) items
  unfolding offsets_of
  offsets_of-same k k' [] h = refl
  offsets_of-same k k' (r ∷ rs) h =
      rw h (ap (λ (t : List ℕ). r.offset ∷ t) (offsets_of-same k k' rs h))

  pub offsets_of-other :
      (k k' : K) (items : List SearchResultItem)
      → key_eq k' k ≡ false
      → offsets_of k (entries_for k' items) ≡ []
  unfolding offsets_of
  offsets_of-other k k' [] h = refl
  offsets_of-other k k' (r ∷ rs) h = rw h (offsets_of-other k k' rs h)

  module _ (linear : IsLinear key) where
    pub key_eq_refl : (k : K) → key_eq k k ≡ true
    key_eq_refl k = rw (key_eq, cmp_refl linear k) refl

    -- Equal keys are not passed by the insertion.
    passed : (a b : K) → key_le a b ≡ false → key_eq b a ≡ false
    passed a b h = rw (key_eq, linear.consistent.flip a b) (strict (key.cmp a b) h)
      where
        strict :
            (c : Ordering)
            → (elim c [ Ordering.gt ↦ false | _ ↦ true ]) ≡ false
            → (elim (opposite c) [ Ordering.eq ↦ true | _ ↦ false ]) ≡ false
        strict Ordering.lt h = refl
        strict Ordering.eq h = h
        strict Ordering.gt h = refl

    offsets_of-insert_sorted :
        (k : K) (e : Entry K) (es : List (Entry K))
        → offsets_of k (insert_sorted e es) ≡ offsets_of k (e ∷ es)
    unfolding offsets_of insert_sorted
    offsets_of-insert_sorted k e [] = refl
    offsets_of-insert_sorted k e (x ∷ xs) = elim (Bool-cases (key_le e.key x.key)) [
      | inl le ↦ rw le refl
      | inr more ↦
          let rest = offsets_of-insert_sorted k e xs in
          elim (Bool-cases (key_eq e.key k)) [
            | inl mine ↦
                let same = linear.exact e.key k mine in
                let behind : key_eq x.key k ≡ false =
                  subst (λ a. key_eq x.key a ≡ false) same (passed e.key x.key more) in
                rw (more, rest, behind, mine) refl
            | inr other ↦ rw (more, rest, other) refl
          ]
    ]

    -- The stable sort keeps the order of the entries with one key.
    pub offsets_of-sort_by_key :
        (k : K) (es : List (Entry K)) → offsets_of k (sort_by_key es) ≡ offsets_of k es
    unfolding offsets_of sort_by_key
    offsets_of-sort_by_key k [] = refl
    offsets_of-sort_by_key k (e ∷ es) =
        offsets_of-insert_sorted k e (sort_by_key es)
        ∙ ap (λ (t : List ℕ). if key_eq e.key k then e.offset ∷ t else t)
            (offsets_of-sort_by_key k es)
