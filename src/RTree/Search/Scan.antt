-- ===== src/RTree/Search/Scan.antt =====
-- One run of items scanned by `search` of mod.rs, on a packed tree.
use flatcitybuf.Prelude.{
  ℕ, zero, suc, ◌+◌, ◌-◌, ◌*◌, ◌^◌, ◌≤◌, ◌<◌, ◌≡◌, refl, sym, ap, ◌∙◌, arith, Bool, true, false,
  List, [], ◌∷◌, All, ◌==◌, if◌then◌else◌, Bool-cases, inl, inr, min,
}
use flatcitybuf.Error.{ok}
use flatcitybuf.Array.{at}
use flatcitybuf.Levels.{Range}
use flatcitybuf.RTree.{Float, IsOrdered, NodeItem, PackedRTree, SearchResultItem}
use flatcitybuf.RTree.Box.{hit-Contains}
use flatcitybuf.RTree.Search.{Query, hit, keep, scan}
use flatcitybuf.RTree.Packed.{IsPacked, place_of, place_of-lt, ancestor_Contains, level-le}
use mathlib.Core.Path.{subst}
use mathlib.Core.Bool.{false≢true}
use flatcitybuf.RTree.Search.Window.{
  window, window_ne, window-suc, window_zero, count_index, child_window, mul-lt_of_lt_div_ceil,
  counted, counted_add, counted_skip,
}

module _ {F : Type 0} (test : NodeItem F → Bool) (t : PackedRTree F) (leaf_start : ℕ) where
  pub scan_zero :
      (is_leaf : Bool) (l pos : ℕ) → scan test t leaf_start is_leaf l pos 0 ≡ ok ([], [])
  unfolding scan
  scan_zero is_leaf l pos = refl

  pub keep_leaf :
      (l pos : ℕ) (item : NodeItem F) (queued : List (ℕ × ℕ)) (items : List SearchResultItem)
      → keep test t leaf_start true l pos item (queued, items)
        ≡ ok (queued, record { offset = item.offset; index = pos - leaf_start } ∷ items)
  unfolding keep
  keep_leaf l pos item queued items = refl

  pub keep_inner :
      (l pos : ℕ) (item : NodeItem F) (queued : List (ℕ × ℕ)) (items : List SearchResultItem)
      → keep test t leaf_start false (suc l) pos item (queued, items)
        ≡ ok ((item.offset, l) ∷ queued, items)
  unfolding keep
  keep_inner l pos item queued items = refl

  pub scan_hit :
      (is_leaf : Bool) (l pos n : ℕ) {item : NodeItem F}
      {later out : List (ℕ × ℕ) × List SearchResultItem}
      → at t.node_items pos ≡ ok item
      → scan test t leaf_start is_leaf l (pos + 1) n ≡ ok later
      → test item ≡ true
      → keep test t leaf_start is_leaf l pos item later ≡ ok out
      → scan test t leaf_start is_leaf l pos (suc n) ≡ ok out
  unfolding scan
  scan_hit is_leaf l pos n a b c d = rw (a, b, c) d

  pub scan_miss :
      (is_leaf : Bool) (l pos n : ℕ) {item : NodeItem F}
      {later : List (ℕ × ℕ) × List SearchResultItem}
      → at t.node_items pos ≡ ok item
      → scan test t leaf_start is_leaf l (pos + 1) n ≡ ok later
      → test item ≡ false
      → scan test t leaf_start is_leaf l pos (suc n) ≡ ok later
  unfolding scan
  scan_miss is_leaf l pos n a b c = rw (a, b, c) refl

module _ {F : Type 0} ⦃float : Float F⦄ (ord : IsOrdered float) (q : Query F) {t : PackedRTree F}
    {level : ℕ → Range} {node : ℕ → NodeItem F} {top : ℕ} (packed : IsPacked t level node top) where
  -- A queued pair is the first item of a run of children.
  abbrev pub Queued : ℕ × ℕ → Type 0
  Queued (n, l) = (l ≤ top) × ((level l).start ≤ n) × (n < (level l).end)

  -- A result is a leaf that is hit, with its offset.
  abbrev pub IsLeaf : SearchResultItem → Type 0
  IsLeaf r =
      (r.index < t.num_leaf_nodes)
      × (r.offset ≡ (node ((level 0).start + r.index)).offset)
      × (hit q (node ((level 0).start + r.index)) ≡ true)

  -- The rounds that a queue takes at most.
  abbrev pub weight : List (ℕ × ℕ) → ℕ
  weight [] = 0
  weight ((n, l) ∷ queue) = (t.branching_factor + 1) ^ l + weight queue

  pub child_offset :
      (l pos : ℕ)
      → l < top
      → (level (suc l)).start ≤ pos
      → pos < (level (suc l)).end
      → (node pos).offset ≡ (level l).start + (pos - (level (suc l)).start) * t.branching_factor
  child_offset l pos h a b =
      ap (λ (x : ℕ). (node x).offset) (omega arith)
      ∙ packed.children l (pos - (level (suc l)).start) h (omega arith)

  pub child_Queued :
      (l pos : ℕ)
      → l < top
      → (level (suc l)).start ≤ pos
      → pos < (level (suc l)).end
      → Queued ((node pos).offset, l)
  child_Queued l pos h a b = rw (child_offset l pos h a b) (
    omega arith,
    omega arith,
    omega (
      arith,
      packed.sizes l h,
      mul-lt_of_lt_div_ceil t.branching_factor (pos - (level (suc l)).start)
          ((level l).end - (level l).start) packed.wide (omega (arith, packed.sizes l h)),
    ),
  )

  module _ (p : ℕ) (leaf : p < t.num_leaf_nodes) where
    abbrev pub is_hit : Bool
    is_hit = hit q (node ((level 0).start + p))

    -- The ancestor of leaf p in level l.
    abbrev pub ancestor : ℕ → ℕ
    ancestor l = (level l).start + place_of ord packed p l

    -- How many runs of the queue hold an ancestor of leaf p.
    abbrev pub runs : List (ℕ × ℕ) → ℕ
    runs [] = 0
    runs ((n, l) ∷ queue) =
        window n (min (n + t.branching_factor) (level l).end - n) (ancestor l) + runs queue

    pub ancestor-hit : (l : ℕ) → l ≤ top → is_hit ≡ true → hit q (node (ancestor l)) ≡ true
    ancestor-hit l h e = hit-Contains ord q _ _ (ancestor_Contains ord packed p l leaf h) e

    -- An item that is not hit holds no leaf that is.
    pub miss_window :
        (l pos : ℕ)
        → l ≤ top
        → hit q (node pos) ≡ false
        → counted is_hit (window pos 1 (ancestor l)) ≡ 0
    miss_window l pos h e = elim (Bool-cases is_hit) [
      | inl yes_hit ↦ rw yes_hit (
          window_ne pos (ancestor l) λ same.
            false≢true (sym e ∙ subst (λ x. hit q (node x) ≡ true) same (ancestor-hit l h yes_hit)))
      | inr no_hit ↦ rw no_hit refl
    ]

    -- The scan of a run of leaves finds leaf p if it is there and hit.
    pub scan-IsLeaf :
        (l pos n : ℕ)
        → (level 0).start ≤ pos
        → pos + n ≤ (level 0).end
        → (items : List SearchResultItem) × (scan (hit q) t (level 0).start true l pos n
            ≡ ok ([], items))
          × (counted is_hit (count_index p items) ≡ counted is_hit (window pos n (ancestor 0)))
          × All IsLeaf items
    scan-IsLeaf l pos zero a b =
        ([], scan_zero (hit q) t _ true l pos, ap (counted is_hit) (sym (window_zero pos _)), tt)
    scan-IsLeaf l pos (suc n) a b =
        let (items, scanned, total, leaves) =
          scan-IsLeaf l (pos + 1) n (omega arith) (omega arith) in
        let read : at t.node_items pos ≡ ok (node pos) =
          packed.items pos (omega (arith, packed.leaves_end)) in
        elim (Bool-cases (hit q (node pos))) [
          | inl is ↦ (
            leaf_item pos ∷ items,
            scan_hit (hit q) t _ true l pos n read scanned is
                (keep_leaf (hit q) t _ l pos (node pos) [] items),
            counted_add is_hit (count_index p items) (window (pos + 1) n (ancestor 0))
                (leaf_count pos a) total (window-suc pos n (ancestor 0)),
            (leaf_item-IsLeaf pos a (omega arith) is, leaves),
          )
          | inr not ↦ (
            items,
            scan_miss (hit q) t _ true l pos n read scanned not,
            counted_skip is_hit (window pos 1 (ancestor 0)) (count_index p items)
                (window (pos + 1) n (ancestor 0)) (miss_window 0 pos (omega arith) not) total
                (window-suc pos n (ancestor 0)),
            leaves,
          )
        ]
      where
        leaf_item : ℕ → SearchResultItem
        leaf_item pos = record { offset = (node pos).offset; index = pos - (level 0).start }

        leaf_count :
            (pos : ℕ)
            → (level 0).start ≤ pos
            → (if pos - (level 0).start == p then 1 else 0) ≡ window pos 1 ((level 0).start + p)
        leaf_count pos h = ground arith

        leaf_item-IsLeaf :
            (pos : ℕ)
            → (level 0).start ≤ pos
            → pos < (level 0).end
            → hit q (node pos) ≡ true
            → IsLeaf (leaf_item pos)
        leaf_item-IsLeaf pos h k is = (
          omega (arith, packed.leaves_size),
          ap (λ (x : ℕ). (node x).offset) (omega arith),
          ap (λ (x : ℕ). hit q (node x)) (omega arith) ∙ is,
        )

    pub child_run :
        (l pos : ℕ)
        → l < top
        → (level (suc l)).start ≤ pos
        → pos < (level (suc l)).end
        → window
            (node pos).offset
            (min ((node pos).offset + t.branching_factor) (level l).end - (node pos).offset)
            (ancestor l)
          ≡ window pos 1 (ancestor (suc l))
    child_run l pos h a b = rw (child_offset l pos h a b) (
        child_window t.branching_factor (place_of ord packed p l) (pos - (level (suc l)).start)
          (level l).start (level l).end (level (suc l)).start packed.wide
          (place_of-lt ord packed p l leaf (omega arith))
        ∙ ap (λ (x : ℕ). window x 1 (ancestor (suc l))) (omega arith))

    -- The scan of a run of internal items queues the run that holds the ancestor of leaf p, if
    -- the item above it is hit.
    pub scan-inner :
        (l pos n : ℕ)
        → l < top
        → (level (suc l)).start ≤ pos
        → pos + n ≤ (level (suc l)).end
        → (queued : List (ℕ × ℕ)) × (scan (hit q) t (level 0).start false (suc l) pos n
            ≡ ok (queued, []))
          × (counted is_hit (runs queued) ≡ counted is_hit (window pos n (ancestor (suc l))))
          × All Queued queued
          × (weight queued ≤ n * (t.branching_factor + 1) ^ l)
    scan-inner l pos zero h a b = (
      [],
      scan_zero (hit q) t _ false (suc l) pos,
      ap (counted is_hit) (sym (window_zero pos _)),
      tt,
      omega arith,
    )
    scan-inner l pos (suc n) h a b =
        let (queued, scanned, total, runs_ok, light) =
          scan-inner l (pos + 1) n h (omega arith) (omega arith) in
        let read : at t.node_items pos ≡ ok (node pos) =
          packed.items pos (omega (arith, level-le ord packed (suc l) h)) in
        elim (Bool-cases (hit q (node pos))) [
          | inl is ↦ (
            ((node pos).offset, l) ∷ queued,
            scan_hit (hit q) t _ false (suc l) pos n read scanned is
                (keep_inner (hit q) t _ l pos (node pos) queued []),
            counted_add is_hit (runs queued) (window (pos + 1) n (ancestor (suc l)))
                (child_run l pos h a (omega arith)) total (window-suc pos n (ancestor (suc l))),
            (child_Queued l pos h a (omega arith), runs_ok),
            omega arith,
          )
          | inr not ↦ (
            queued,
            scan_miss (hit q) t _ false (suc l) pos n read scanned not,
            counted_skip is_hit (window pos 1 (ancestor (suc l))) (runs queued)
                (window (pos + 1) n (ancestor (suc l))) (miss_window (suc l) pos h not) total
                (window-suc pos n (ancestor (suc l))),
            runs_ok,
            omega arith,
          )
        ]
