-- ===== src/Stree/Build/Nodes.antt =====
-- `gen_levels` of stree.rs from the leaves to the top level.
use flatcitybuf.Prelude.{
  ℕ, zero, suc, ◌+◌, ◌-◌, ◌*◌, ◌≤◌, ◌<◌, ◌≡◌, refl, ◌∙◌, arith, Bool, true, false, List, [], ◌∷◌,
  length, get_or, leb,
}
use mathlib.Core.Path.{subst}
use flatcitybuf.Error.{ok}
use flatcitybuf.Levels.{Range, div_ceil}
use flatcitybuf.Levels.Shape.{Shape, no_range}
use flatcitybuf.Key.{Key, key_lt, key_le}
use flatcitybuf.Key.Order.{IsLinear}
use flatcitybuf.Stree.{Entry}
use flatcitybuf.Stree.Shape.{no_entry, power}
use flatcitybuf.Stree.Build.{Gen, gen_level, gen_levels}
use flatcitybuf.Stree.Build.Round.{not_leb}
use flatcitybuf.Stree.Build.Level.{Inv, gen_level-Inv}
use flatcitybuf.Stree.Build.Levels.{
  Parents, AllParents, Over, Ready, Inv-Parents, Inv-Ready, above_level,
}

-- Few enough items for one node.
abbrev pub IsTop : ℕ → ℕ → Type 0
IsTop s m = m ≤ s

module _ {K : Type 0} ⦃key : Key K⦄ (linear : IsLinear key) (s n : ℕ) (wide : 1 ≤ s)
    (leaf_key : ℕ → K)
    (ascending : (p q : ℕ) → p < q → q < n → key_lt (leaf_key p) (leaf_key q) ≡ true)
    (capped : (p : ℕ) → p < n → key_le (leaf_key p) key.max_value ≡ true) where
  abbrev pub Made : ℕ → List Range → List (Entry K) → Type 0
  Made w rs nodes = AllParents linear s n wide leaf_key ascending capped w rs nodes

  abbrev pub ParentsOf : ℕ → Range → Range → List (Entry K) → Type 0
  ParentsOf w r p nodes = Parents linear s n wide leaf_key ascending capped w r p nodes

  pub AllParents-at :
      (w : ℕ) (rs : List Range) (nodes : List (Entry K)) (l : ℕ)
      → Made w rs nodes
      → suc l < length rs
      → ParentsOf (w * power s l) (get_or rs l no_range) (get_or rs (suc l) no_range) nodes
  AllParents-at w [] nodes l made h = absurd (omega arith)
  AllParents-at w (r ∷ []) nodes l made h = absurd (omega arith)
  AllParents-at w (r ∷ p ∷ rs) nodes zero (a, rest) h =
      subst (λ (x : ℕ). ParentsOf x r p nodes) (omega arith) a
  AllParents-at w (r ∷ p ∷ rs) nodes (suc l) (a, rest) h =
      let weight : w * (s + 1) * power s l ≡ w * power s (suc l) = grind arith in
      subst
        (λ (x : ℕ).
          ParentsOf x (get_or (p ∷ rs) l no_range) (get_or (p ∷ rs) (suc l) no_range) nodes)
        weight (AllParents-at (w * (s + 1)) (p ∷ rs) nodes l rest (omega arith))

  module _ (first_leaf : ℕ) where
    -- The loop over one level.
    level_made :
        (w : ℕ) (r p : Range) (nodes : List (Entry K)) (mins : List (ℕ × K)) (leaves : Bool)
        → Over linear s n wide leaf_key ascending capped w r
        → 1 ≤ w
        → p.end ≡ r.start
        → p.start + div_ceil (r.end - r.start) (s + 1) ≡ p.end
        → r.start ≤ r.end
        → r.end ≤ length nodes
        → ((pos : ℕ) → r.start ≤ pos → pos < r.end → leb first_leaf pos ≡ leaves)
        → Ready linear s n wide leaf_key ascending capped first_leaf w r leaves nodes mins
        → (g : Gen K) × (m : ℕ) × (gen_level (r.end - r.start + 1) (s + 1) first_leaf r p (record {
          nodes = nodes;
          parent_min_key = mins;
          parent_idx = p.start;
          child_idx = r.start;
        })
            ≡ ok g)
          × (p.end ≤ p.start + m)
          × Inv s r p nodes mins (λ k. leaf_key (k * (w * s))) m g
    level_made w r p nodes mins leaves over some_leaf above sizes fits room side ready =
        gen_level-Inv s r p nodes mins (λ k. leaf_key (k * (w * s))) above fits room first_leaf
          leaves wide sizes side ready (r.end - r.start + 1) 0 0
          (record {
            nodes = nodes;
            parent_min_key = mins;
            parent_idx = p.start;
            child_idx = r.start;
          })
          (omega arith) (omega arith)
          (record {
            size = refl;
            next = omega arith;
            kept = λ j h. refl;
            kept_min = λ j h. refl;
            items = λ i h. absurd (omega arith);
            mins = λ i h. absurd (omega arith);
          })
          (omega arith)

    pub gen_levels-Made :
        (w : ℕ) (r : Range) (rs : List Range) (nodes : List (Entry K)) (mins : List (ℕ × K))
        (leaves : Bool)
        → Over linear s n wide leaf_key ascending capped w r
        → 1 ≤ w
        → Shape (IsTop s) (s + 1) (r ∷ rs)
        → r.start ≤ r.end
        → r.end ≤ length nodes
        → r.start ≤ first_leaf
        → ((pos : ℕ) → r.start ≤ pos → pos < r.end → leb first_leaf pos ≡ leaves)
        → Ready linear s n wide leaf_key ascending capped first_leaf w r leaves nodes mins
        → (nodes' : List (Entry K)) × (gen_levels (s + 1) first_leaf (r ∷ rs) nodes mins
            ≡ ok nodes')
          × (length nodes' ≡ length nodes)
          × ((j : ℕ) → r.start ≤ j → get_or nodes' j no_entry ≡ get_or nodes j no_entry)
          × Made w (r ∷ rs) nodes'
    unfolding gen_levels
    gen_levels-Made w r [] nodes mins leaves over some_leaf shape fits room low side ready =
        (nodes, refl, refl, λ j h. refl, tt)
    gen_levels-Made w r (p ∷ rs) nodes mins leaves over some_leaf (above, sizes, shape) fits room
          low side ready =
        let (g, m, made, filled, inv) =
          level_made w r p nodes mins leaves over some_leaf above sizes fits room side ready in
        let (nodes', done, size, kept, rest) =
          gen_levels-Made (w * (s + 1)) p rs g.nodes g.parent_min_key false
            (above_level linear s n wide leaf_key ascending capped first_leaf w r p nodes mins over
              some_leaf above sizes fits)
            (grind arith) shape (omega (arith, sizes)) (omega (arith, inv.size)) (omega arith)
            (λ pos a b. not_leb first_leaf pos (omega arith))
            (Inv-Ready linear s n wide leaf_key ascending capped first_leaf w r p nodes mins over
              some_leaf above sizes fits m g filled (omega arith) inv) in
        (
          nodes',
          rw (made, done) refl,
          size ∙ inv.size,
          λ j h. kept j (omega arith) ∙ inv.kept j h,
          (
            λ i h.
                kept (p.start + i) (omega arith)
                ∙ Inv-Parents linear s n wide leaf_key ascending capped first_leaf w r p nodes mins
                    over some_leaf above sizes fits m g filled inv i h,
            rest,
          ),
        )
