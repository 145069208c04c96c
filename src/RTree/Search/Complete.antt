-- ===== src/RTree/Search/Complete.antt =====
-- The whole of `search` of mod.rs on a packed tree.
use flatcitybuf.Prelude.{
  ℕ, zero, suc, ◌+◌, ◌-◌, ◌*◌, ◌^◌, ◌≤◌, ◌<◌, ◌≡◌, refl, sym, ap, ◌∙◌, arith, Bool, true, false,
  List, [], ◌∷◌, ◌++◌, length, All, leb, ◌==◌, if◌then◌else◌, Bool-cases, ==_iff, inl, inr, min,
}
use flatcitybuf.Error.{ok}
use flatcitybuf.Levels.{Range}
use flatcitybuf.RTree.{Float, IsOrdered, NodeItem, PackedRTree, SearchResultItem}
use flatcitybuf.RTree.Search.{Query, hit, scan, visit, search_loop, search}
use flatcitybuf.RTree.Packed.{IsPacked, place_of-lt, inner-le-leaves}
use mathlib.Core.Path.{subst}
use mathlib.Core.Bool.{false≢true}
use flatcitybuf.RTree.Search.Window.{count_index, count_index-append, counted}
use mathlib.Core.Path.{ap₂}
use flatcitybuf.RTree.Search.Scan.{Queued, IsLeaf, weight, is_hit, runs, scan-IsLeaf, scan-inner}
use native.Mathlib.Nat.{one-le-pow, pow-succ', mul-le-mul_right}

counted_zero : (h : Bool) (a : ℕ) → counted h a ≡ counted h (a + 0)
counted_zero true a = omega arith
counted_zero false a = refl

counted_ends :
    (h : Bool) (a b : ℕ) → counted h a ≡ counted h b → counted h (a + 0) ≡ counted h (b + 0)
counted_ends true a b e = omega arith
counted_ends false a b e = refl

counted_starts :
    (h : Bool) (a b : ℕ) → counted h a ≡ counted h b → counted h (0 + a) ≡ counted h (b + 0)
counted_starts true a b e = omega arith
counted_starts false a b e = refl

-- The counts of one round and of the rest of the loop.
counted_round :
    (h : Bool) (items queued run rest before all : ℕ)
    → counted h (items + queued) ≡ counted h (run + 0)
    → counted h all ≡ counted h (before + items + (rest + queued))
    → counted h all ≡ counted h (before + (run + rest))
counted_round true items queued run rest before all p q = omega arith
counted_round false items queued run rest before all p q = refl

All-append {ℓ ℓ'} :
    {A : Type ℓ} (P : A → Type ℓ') (xs ys : List A) → All P xs → All P ys → All P (xs ++ ys)
All-append P [] ys hs ks = ks
All-append P (x ∷ xs) ys (h, hs) ks = (h, All-append P xs ys hs ks)

module _ {F : Type 0} ⦃float : Float F⦄ (ord : IsOrdered float) (q : Query F) {t : PackedRTree F}
    {level : ℕ → Range} {node : ℕ → NodeItem F} {top : ℕ} (packed : IsPacked t level node top)
    (p : ℕ) (leaf : p < t.num_leaf_nodes) where
  -- What one round of the loop does with the run of items (n, l).
  abbrev Visited : ℕ → ℕ → Type 0
  Visited n l =
      (queued : List (ℕ × ℕ)) × (items : List SearchResultItem) × (visit (hit q) t (level 0).start n
          l
        ≡ ok (queued, items))
      × (counted (is_hit ord q packed p leaf)
            (count_index p items + runs ord q packed p leaf queued)
          ≡ counted (is_hit ord q packed p leaf) (runs ord q packed p leaf ((n, l) ∷ [])))
      × All (Queued ord q packed) queued
      × All (IsLeaf ord q packed) items
      × (weight ord q packed queued < weight ord q packed ((n, l) ∷ []))

  visit_step :
      (n l : ℕ) (leafy : Bool)
      → l ≤ top
      → leb (length t.node_items - t.num_leaf_nodes) n ≡ leafy
      → visit (hit q) t (level 0).start n l
        ≡ scan (hit q) t (level 0).start leafy l n (min (n + t.branching_factor) (level l).end - n)
  unfolding visit
  visit_step n l leafy h e = rw (packed.levels l h, e) refl

  children-lt : (b w queued n : ℕ) → queued ≤ n * w → n ≤ b → 1 ≤ w → queued < (b + 1) * w + 0
  children-lt b w queued n h k one = omega (arith, mul-le-mul_right w k)

  visit-Visited : (n l : ℕ) → Queued ord q packed (n, l) → Visited n l
  visit-Visited n zero (h, a, b) =
      let (items, scanned, total, leaves) =
        scan-IsLeaf ord q packed p leaf zero n (min (n + t.branching_factor) (level 0).end - n) a
          (omega arith) in
      (
        [],
        items,
        visit_step n zero true h (ground (arith, packed.leaves_end, packed.leaves_size)) ∙ scanned,
        counted_ends _ (count_index p items) _ total,
        tt,
        leaves,
        omega (arith, one-le-pow 0 (t.branching_factor + 1) (omega arith)),
      )
  visit-Visited n (suc l) (h, a, b) =
      let (queued, scanned, total, runs_ok, light) =
        scan-inner ord q packed p leaf l n (min (n + t.branching_factor) (level (suc l)).end - n) h
          a (omega arith) in
      (
        queued,
        [],
        visit_step n (suc l) false h (
              ground (arith, packed.leaves_end, packed.leaves_size, inner-le-leaves ord packed l h))
            ∙ scanned,
        counted_starts _ (runs ord q packed p leaf queued) _ total,
        runs_ok,
        tt,
        rw (pow-succ' (t.branching_factor + 1) l) (
            children-lt t.branching_factor _ _ _ light (omega arith)
              (one-le-pow l (t.branching_factor + 1) (omega arith))),
      )

  runs-append :
      (xs ys : List (ℕ × ℕ))
      → runs ord q packed p leaf (xs ++ ys)
        ≡ runs ord q packed p leaf xs + runs ord q packed p leaf ys
  runs-append [] ys = omega arith
  runs-append ((n, l) ∷ xs) ys = omega (arith, runs-append xs ys)

  weight-append :
      (xs ys : List (ℕ × ℕ))
      → weight ord q packed (xs ++ ys) ≡ weight ord q packed xs + weight ord q packed ys
  weight-append [] ys = omega arith
  weight-append ((n, l) ∷ xs) ys = omega (arith, weight-append xs ys)

  -- The loop from any queue of runs and any results so far.
  abbrev Searched : Bool → ℕ → List (ℕ × ℕ) → List SearchResultItem → Type 0
  Searched h fuel queue results =
      (rs : List SearchResultItem) × (search_loop (hit q) t (level 0).start fuel queue results
        ≡ ok rs)
      × (counted h (count_index p rs)
          ≡ counted h (count_index p results + runs ord q packed p leaf queue))
      × All (IsLeaf ord q packed) rs

  search_loop_step :
      (fuel n l : ℕ) (queue queued : List (ℕ × ℕ)) (items results : List SearchResultItem)
      → visit (hit q) t (level 0).start n l ≡ ok (queued, items)
      → search_loop (hit q) t (level 0).start (suc fuel) ((n, l) ∷ queue) results
        ≡ search_loop (hit q) t (level 0).start fuel (queue ++ queued) (results ++ items)
  unfolding search_loop
  search_loop_step fuel n l queue queued items results e = rw e refl

  search_loop_end :
      (fuel : ℕ) (results : List SearchResultItem)
      → search_loop (hit q) t (level 0).start (suc fuel) [] results ≡ ok results
  unfolding search_loop
  search_loop_end fuel results = refl

  search_loop-Searched :
      (fuel : ℕ) (queue : List (ℕ × ℕ)) (results : List SearchResultItem)
      → weight ord q packed queue < fuel
      → All (Queued ord q packed) queue
      → All (IsLeaf ord q packed) results
      → Searched (is_hit ord q packed p leaf) fuel queue results
  search_loop-Searched zero queue results w runs_ok leaves = absurd (omega arith)
  search_loop-Searched (suc fuel) [] results w runs_ok leaves =
      (results, search_loop_end fuel results, counted_zero _ (count_index p results), leaves)
  search_loop-Searched (suc fuel) ((n, l) ∷ queue) results w (run_ok, runs_ok) leaves =
      let (queued, items, visited, total, queued_ok, found, light) = visit-Visited n l run_ok in
      let (rs, looped, all, rs_ok) =
        search_loop-Searched fuel (queue ++ queued) (results ++ items)
          (omega (arith, weight-append queue queued))
          (All-append (Queued ord q packed) queue queued runs_ok queued_ok)
          (All-append (IsLeaf ord q packed) results items leaves found) in
      (
        rs,
        search_loop_step fuel n l queue queued items results visited ∙ looped,
        counted_round _ (count_index p items) (runs ord q packed p leaf queued) _
            (runs ord q packed p leaf queue) (count_index p results) (count_index p rs) total
            (all
              ∙ ap (counted _)
                  (ap₂ ◌+◌ (count_index-append p results items) (runs-append queue queued))),
        rs_ok,
      )

  root_window : runs ord q packed p leaf ((0, top) ∷ []) ≡ 1
  root_window = ground (
    arith,
    packed.root.0,
    packed.root.1,
    packed.wide,
    place_of-lt ord packed p top leaf (omega arith),
  )

  root_count : count_index p [] + runs ord q packed p leaf ((0, top) ∷ []) ≡ 1
  root_count = omega (arith, root_window)

  last_level : length t.level_bounds - 1 ≡ top
  last_level = omega (arith, packed.num_levels)

  search_start :
      search t q
      ≡ search_loop
          (hit q)
          t
          (level 0).start
          ((t.branching_factor + 1) ^ top + 1)
          ((0, top) ∷ [])
          []
  unfolding search
  search_start = rw (packed.leaves, last_level) refl

  -- The whole search: leaf p is found once if it is hit.
  search-Searched :
      (rs : List SearchResultItem) × (search t q ≡ ok rs)
      × (counted (is_hit ord q packed p leaf) (count_index p rs)
          ≡ counted (is_hit ord q packed p leaf) 1)
      × All (IsLeaf ord q packed) rs
  search-Searched =
      let (rs, looped, total, rs_ok) =
        search_loop-Searched ((t.branching_factor + 1) ^ top + 1) ((0, top) ∷ []) [] (omega arith)
          ((omega arith, omega (arith, packed.root.0), omega (arith, packed.root.1)), tt) tt in
      (rs, search_start ∙ looped, total ∙ ap (counted _) root_count, rs_ok)

module _ {F : Type 0} ⦃float : Float F⦄ (ord : IsOrdered float) (q : Query F) {t : PackedRTree F}
    {level : ℕ → Range} {node : ℕ → NodeItem F} {top : ℕ} (packed : IsPacked t level node top) where
  -- The number of times that a list of leaves that are hit shows leaf p, which is not.
  count_index-miss :
      (p : ℕ) (rs : List SearchResultItem)
      → hit q (node ((level 0).start + p)) ≡ false
      → All (IsLeaf ord q packed) rs
      → count_index p rs ≡ 0
  count_index-miss p [] h leaves = refl
  count_index-miss p (r ∷ rs) h ((small, same, is), leaves) = elim (Bool-cases (r.index == p)) [
    | inl e ↦ absurd (
        false≢true
          (sym h ∙ subst (λ x. hit q (node ((level 0).start + x)) ≡ true) ((==_iff _ _).0 e) is))
    | inr e ↦ rw (e, count_index-miss p rs h leaves) refl
  ]

  exactly_once :
      (p : ℕ) (rs : List SearchResultItem)
      → counted (hit q (node ((level 0).start + p))) (count_index p rs)
        ≡ counted (hit q (node ((level 0).start + p))) 1
      → All (IsLeaf ord q packed) rs
      → count_index p rs ≡ (if hit q (node ((level 0).start + p)) then 1 else 0)
  exactly_once p rs h leaves = elim (Bool-cases (hit q (node ((level 0).start + p)))) [
    | inl is ↦ rw is (rw is at h)
    | inr not ↦ rw not (count_index-miss p rs not leaves)
  ]

  ok-injective : (rs ss : List SearchResultItem) → ok rs ≡ ok ss → rs ≡ ss
  ok-injective rs ss e = cc

  -- On a packed tree `search` returns, for a bounding-box query and for a point query: each leaf
  -- that the query hits is found exactly once, no other leaf is found, and every result has the
  -- index and the offset of a leaf.
  pub search_complete :
      (rs : List SearchResultItem) × (search t q ≡ ok rs)
      × ((p : ℕ)
          → p < t.num_leaf_nodes
          → count_index p rs ≡ (if hit q (node ((level 0).start + p)) then 1 else 0))
      × All (IsLeaf ord q packed) rs
  search_complete =
      let (rs, found, total, leaves) = search-Searched ord q packed 0 packed.some_leaf in
      (
        rs,
        found,
        λ p leaf.
            let (ss, found', total', leaves') = search-Searched ord q packed p leaf in
            rw (ok-injective rs ss (sym found ∙ found')) (exactly_once p ss total' leaves'),
        leaves,
      )
