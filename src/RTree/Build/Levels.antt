-- ===== src/RTree/Build/Levels.antt =====
-- All levels of parents made by `generate_nodes` of mod.rs.
use flatcitybuf.Prelude.{
  ℕ, zero, suc, ◌+◌, ◌-◌, ◌*◌, ◌/◌, ◌≤◌, ◌<◌, ◌≡◌, refl, ◌∙◌, arith, List, [], ◌∷◌, length, get_or,
  ◌==◌, true,
}
use flatcitybuf.Error.{ok}
use flatcitybuf.Levels.{Range, div_ceil}
use flatcitybuf.Levels.Shape.{Shape, no_range}
use flatcitybuf.RTree.{Float, IsOrdered, NodeItem}
use flatcitybuf.RTree.Box.{Contains}
use flatcitybuf.RTree.Build.{gen_levels}
use flatcitybuf.RTree.Build.Level.{Level, gen_level-Level, node_at}

-- The last level is the root, one node.
abbrev pub IsRoot : ℕ → Type 0
IsRoot m = m ≡ 1

pub one_node : (m : ℕ) → (m == 1) ≡ true → m ≡ 1
one_node m h = ground arith

module _ {F : Type 0} ⦃float : Float F⦄ (ord : IsOrdered float) where
  -- The parents of the items of level `r` stand in level `p`.
  abbrev pub Parents : ℕ → Range → Range → List (NodeItem F) → Type 0
  Parents b r p nodes =
      ((i : ℕ) → p.start + i < p.end → (node_at ord nodes (p.start + i)).offset ≡ r.start + i * b)
      × ((x : ℕ)
          → r.start + x < r.end
          → Contains (node_at ord nodes (p.start + x / b)) (node_at ord nodes (r.start + x)))

  abbrev pub AllParents : ℕ → List Range → List (NodeItem F) → Type 0
  AllParents b [] nodes = Unit {0}
  AllParents b (r ∷ []) nodes = Unit {0}
  AllParents b (r ∷ p ∷ rs) nodes = Parents b r p nodes × AllParents b (p ∷ rs) nodes

  pub AllParents-at :
      (b : ℕ) (rs : List Range) (nodes : List (NodeItem F)) (l : ℕ)
      → AllParents b rs nodes
      → suc l < length rs
      → Parents b (get_or rs l no_range) (get_or rs (suc l) no_range) nodes
  AllParents-at b [] nodes l a h = absurd (omega arith)
  AllParents-at b (r ∷ []) nodes l a h = absurd (omega arith)
  AllParents-at b (r ∷ p ∷ rs) nodes zero (a, rest) h = a
  AllParents-at b (r ∷ p ∷ rs) nodes (suc l) (a, rest) h =
      AllParents-at b (p ∷ rs) nodes l rest (omega arith)

  -- The parents of a level stay in place when what stands before them changes.
  Parents-kept :
      (b : ℕ) (r p : Range) (nodes nodes' nodes'' : List (NodeItem F))
      → 1 ≤ b
      → p.end ≡ r.start
      → p.start + div_ceil (r.end - r.start) b ≡ p.end
      → Level ord b r.end p.start r.start nodes nodes'
      → ((j : ℕ) → p.start ≤ j → node_at ord nodes'' j ≡ node_at ord nodes' j)
      → Parents b r p nodes''
  Parents-kept b r p nodes nodes' nodes'' h e s (size, before, behind, offsets, boxes) kept = (
    λ i lt. rw (kept (p.start + i) (omega arith)) (offsets i (omega arith)),
    λ x lt.
        rw
          (
            kept (p.start + x / b) (omega arith),
            kept (r.start + x) (omega arith),
            behind (r.start + x) (omega arith),
          )
          (boxes x lt),
  )

  -- `generate_nodes` fills all levels above the leaves and leaves the leaves as they are.
  pub gen_levels-AllParents :
      (b : ℕ) (r : Range) (rs : List Range) (nodes : List (NodeItem F))
      → 1 ≤ b
      → Shape IsRoot b (r ∷ rs)
      → r.start ≤ r.end
      → r.end ≤ length nodes
      → (nodes' : List (NodeItem F)) × (gen_levels b (r ∷ rs) nodes ≡ ok nodes')
        × (length nodes' ≡ length nodes)
        × ((j : ℕ) → r.start ≤ j → node_at ord nodes' j ≡ node_at ord nodes j)
        × AllParents b (r ∷ rs) nodes'
  unfolding gen_levels
  gen_levels-AllParents b r [] nodes h s le room = (nodes, refl, refl, λ j k. refl, tt)
  gen_levels-AllParents b r (p ∷ rs) nodes h (e, s, shape) le room =
      let (nodes', made, level) =
        gen_level-Level ord (r.end - r.start + 1) b r.end p.start r.start nodes h room (omega arith)
          le (omega arith) in
      let (size, before, behind, offsets, boxes) = level in
      let (nodes'', done, size', kept, rest) =
        gen_levels-AllParents b p rs nodes' h shape (omega arith) (omega arith) in
      (
        nodes'',
        rw (made, done) refl,
        size' ∙ size,
        λ j k. kept j (omega arith) ∙ behind j (omega arith),
        (Parents-kept b r p nodes nodes' nodes'' h e s level kept, rest),
      )
