-- ===== src/Stree/Build/Level.antt =====
-- The loop of `generate_nodes` of stree.rs over the nodes of one level.
use flatcitybuf.Prelude.{
  ℕ, zero, suc, ◌+◌, ◌-◌, ◌*◌, ◌≤◌, ◌<◌, ◌≡◌, refl, sym, ap, ◌∙◌, arith, Bool, List, ◌∷◌, some,
  length, get_or, ltb, leb, leb→le, leb→lt, if◌then◌else◌, Bool-cases, inl, inr, ltb→lt, ltb→le,
  ==_refl, ==_false,
}
use mathlib.Core.Path.{subst}
use flatcitybuf.Error.{ok}
use flatcitybuf.Levels.{Range, div_ceil}
use flatcitybuf.Array.Reads.{put-Written}
use flatcitybuf.Key.{Key}
use flatcitybuf.Stree.{Entry}
use flatcitybuf.Stree.Shape.{no_entry, child}
use flatcitybuf.Stree.Build.{Gen, get_min, write_parent, gen_round, gen_level}
use flatcitybuf.Stree.Build.Round.{Reads, gen_round_skip, gen_round_write}
use flatcitybuf.Stree.Search.Step.{child-node}

-- What holds for all numbers below `w` and for `w` holds for all below `w + 1`.
up_to {ℓ} : {P : ℕ → Type ℓ} → (w : ℕ) → ((i : ℕ) → i < w → P i) → P w → (i : ℕ) → i < suc w → P i
up_to {P = P} w below here i h = elim (Bool-cases (ltb i w)) [
  | inl e ↦ below i (ltb→lt i w e)
  | inr e ↦ let same : w ≡ i = omega (arith, ltb→le i w e) in subst P same here
]

div_ceil_le : (n x s : ℕ) → n ≤ x * (s + 1) → div_ceil n (s + 1) ≤ x
div_ceil_le n x s h = grind arith

ceil_le : (n q r s : ℕ) → n ≤ (q * (s + 1) + r) * s → div_ceil n (s + 1) ≤ q * s + r
ceil_le n q r s h =
    let apart : (q * (s + 1) + r) * s + r ≡ (q * s + r) * (s + 1) = grind arith in
    div_ceil_le n (q * s + r) s (omega arith)

next_node : (q r s : ℕ) → (q * (s + 1) + r) * s + s ≡ (q * (s + 1) + suc r) * s
next_node q r s = grind arith

next_run : (q s : ℕ) → (q * (s + 1) + s) * s + s ≡ (suc q * (s + 1) + 0) * s
next_run q s = grind arith

get_min-other :
    {K : Type 0} ⦃key : Key K⦄ (i j : ℕ) (v : K) (m : List (ℕ × K))
    → ¬ (i ≡ j)
    → get_min ((i, v) ∷ m) j ≡ get_min m j
unfolding get_min
get_min-other i j v m h = rw (==_false i j h) refl

module _ {K : Type 0} ⦃key : Key K⦄ (s : ℕ) (children parents : Range) (nodes0 : List (Entry K))
    (mins0 : List (ℕ × K)) (least : ℕ → K) where
  -- The parent item of node `k`, when `least` gives the least key below each node.
  abbrev pub parent_item : ℕ → Entry K
  parent_item k = record {
    key = if ltb (children.start + k * s + s) children.end then least (suc k) else key.max_value;
    offset = children.start + k * s;
  }

  -- `w` parent items are written, and the level below is as it was.
  pub record Inv (w : ℕ) (g : Gen K) : Type 0 where
    pub size : length g.nodes ≡ length nodes0
    pub next : g.parent_idx ≡ parents.start + w
    pub kept : (j : ℕ) → children.start ≤ j → get_or g.nodes j no_entry ≡ get_or nodes0 j no_entry
    pub kept_min : (j : ℕ) → children.start ≤ j → get_min g.parent_min_key j ≡ get_min mins0 j
    pub items :
        (i : ℕ) → i < w → get_or g.nodes (parents.start + i) no_entry ≡ parent_item (child s i)
    pub mins :
        (i : ℕ) → i < w → get_min g.parent_min_key (parents.start + i) ≡ some (least (child s i))

  Inv-moved : (w : ℕ) (g : Gen K) (pos : ℕ) → Inv w g → Inv w (record g { child_idx = pos })
  Inv-moved w g pos inv = record {
    size = inv.size;
    next = inv.next;
    kept = inv.kept;
    kept_min = inv.kept_min;
    items = inv.items;
    mins = inv.mins;
  }

  module _ (above : parents.end ≡ children.start) (fits : children.start ≤ children.end)
      (room : children.end ≤ length nodes0) where
    write_parent-Inv :
        (w k : ℕ) (g : Gen K)
        → Inv w g
        → child s w ≡ k
        → g.child_idx ≡ children.start + k * s
        → parents.start + w < parents.end
        → (g' : Gen K) × (write_parent s (parent_item k).key (least k) g ≡ ok g')
          × (g'.child_idx ≡ g.child_idx + s)
          × Inv (suc w) g'
    unfolding write_parent get_min
    write_parent-Inv w k g inv number place free =
        let (nodes, written, (size, read)) =
          put-Written g.nodes g.parent_idx
            (record { key = (parent_item k).key; offset = g.child_idx }) no_entry
            (omega (arith, inv.size, inv.next)) in
        let g' : Gen K = record {
          nodes = nodes;
          parent_min_key = (g.parent_idx, least k) ∷ g.parent_min_key;
          parent_idx = g.parent_idx + 1;
          child_idx = g.child_idx + s;
        } in
        (
          g',
          rw written refl,
          refl,
          record {
            size = size ∙ inv.size;
            next = omega (arith, inv.next);
            kept = λ j h.
                read j ∙ rw (==_false j g.parent_idx (λ e. omega (arith, inv.next))) (inv.kept j h);
            kept_min = λ j h.
                get_min-other g.parent_idx j (least k) g.parent_min_key
                  (λ e. omega (arith, inv.next))
                ∙ inv.kept_min j h;
            items =
                up_to w
                  (λ i h.
                    read (parents.start + i)
                    ∙ rw (==_false (parents.start + i) g.parent_idx (λ e. omega (arith, inv.next)))
                        (inv.items i h))
                  (read (parents.start + w)
                    ∙ rw (sym inv.next, ==_refl g.parent_idx, number, place) refl);
            mins =
                up_to w
                  (λ i h.
                    get_min-other g.parent_idx (parents.start + i) (least k) g.parent_min_key
                      (λ e. omega (arith, inv.next))
                    ∙ inv.mins i h)
                  (rw (sym inv.next, ==_refl g.parent_idx, number) refl);
          },
        )

    module _ (first_leaf : ℕ) (leaves : Bool) (wide : 1 ≤ s)
        (sizes : parents.start + div_ceil (children.end - children.start) (s + 1) ≡ parents.end)
        (side : (pos : ℕ) → children.start ≤ pos → pos < children.end → leb first_leaf pos ≡ leaves)
        (reads : (k : ℕ)
          → children.start + k * s < children.end
          → Reads s first_leaf children leaves nodes0 mins0
              (children.start + k * s)
              (least k)) where
      Reads-kept :
          (w k : ℕ) (g : Gen K) (pos : ℕ)
          → Inv w g
          → pos ≡ children.start + k * s
          → pos < children.end
          → Reads s first_leaf children leaves g.nodes g.parent_min_key pos (least k)
      Reads-kept w k g pos inv place inside =
          let same = inv.kept pos (omega arith) in
          let same_min = inv.kept_min pos (omega arith) in
          let (a, b, c, d) = reads k (omega arith) in
          (
            omega (arith, inv.size),
            rw (same, same_min, place) b,
            λ h. rw (same, place) (c h),
            λ h. rw (same_min, place) (d h),
          )

      -- A round on a node that is not the last child of its parent node.
      round_write :
          (q r : ℕ) (g : Gen K)
          → r < s
          → Inv (q * s + r) g
          → g.child_idx ≡ children.start + (q * (s + 1) + r) * s
          → g.child_idx < children.end
          → g.parent_idx < parents.end
          → (g' : Gen K) × (gen_round (s + 1) first_leaf children g ≡ ok g')
            × (g'.child_idx ≡ g.child_idx + s)
            × Inv (suc (q * s + r)) g'
      round_write q r g other inv place inside free =
          let k = q * (s + 1) + r in
          let (g', written, moved, inv') =
            write_parent-Inv (q * s + r) k g inv (child-node s q r other) place
              (omega (arith, inv.next)) in
          let step : (children.start + k * s + s) ≡ children.start + suc k * s = grind arith in
          let round =
            gen_round_write s first_leaf children leaves g q r place wide (omega arith) (least k)
              (least (suc k)) other (side g.child_idx (omega arith) inside)
              (Reads-kept (q * s + r) k g g.child_idx inv place inside)
              (λ more. Reads-kept (q * s + r) (suc k) g (g.child_idx + s) inv (omega arith) more) in
          let separator =
            ap
              (λ (x : ℕ).
                write_parent s (if ltb (x + s) children.end then least (suc k) else key.max_value)
                  (least k) g)
              place in
          (g', round ∙ separator ∙ written, moved, inv')

      -- At the end of the level all parent items are written.
      all_written :
          (q r : ℕ)
          → r ≤ s
          → children.end ≤ children.start + (q * (s + 1) + r) * s
          → parents.end ≤ parents.start + (q * s + r)
      all_written q r bound end =
          let enough : div_ceil (children.end - children.start) (s + 1) ≤ q * s + r =
            ceil_le (children.end - children.start) q r s (omega arith) in
          omega (arith, sizes)

      pub gen_level-Inv :
          (fuel q r : ℕ) (g : Gen K)
          → r ≤ s
          → children.end - g.child_idx < fuel
          → Inv (q * s + r) g
          → g.child_idx ≡ children.start + (q * (s + 1) + r) * s
          → (g' : Gen K) × (w : ℕ) × (gen_level fuel (s + 1) first_leaf children parents g ≡ ok g')
            × (parents.end ≤ parents.start + w)
            × Inv w g'
      unfolding gen_level
      gen_level-Inv zero q r g bound enough inv place = absurd (omega arith)
      gen_level-Inv (suc fuel) q r g bound enough inv place =
          elim (Bool-cases (ltb g.child_idx children.end)) [
            | inr end ↦ (
              g,
              q * s + r,
              rw end refl,
              all_written q r bound (omega (arith, ltb→le _ _ end)),
              inv,
            )
            | inl inside ↦ elim (Bool-cases (leb parents.end g.parent_idx)) [
              | inl full ↦ (
                g,
                q * s + r,
                rw (inside, full) refl,
                omega (arith, inv.next, leb→le parents.end g.parent_idx full),
                inv,
              )
              | inr free ↦ elim (Bool-cases (ltb r s)) [
                | inl other ↦
                    let (g1, round, moved, inv1) =
                      round_write q r g (ltb→lt _ _ other) inv place (ltb→lt _ _ inside)
                        (omega (arith, leb→lt _ _ free)) in
                    let (g', w, done, filled, inv') =
                      gen_level-Inv fuel q (suc r) g1 (omega (arith, ltb→lt _ _ other))
                        (omega (arith, ltb→lt _ _ inside))
                        (subst (λ x. Inv x g1) (omega arith) inv1)
                        (omega (arith, moved, next_node q r s)) in
                    (g', w, rw (inside, free, round) done, filled, inv')
                | inr last ↦
                    let all : r ≡ s = omega (arith, ltb→le _ _ last) in
                    let g1 : Gen K = record g { child_idx = g.child_idx + s } in
                    let round =
                      gen_round_skip s first_leaf children leaves g q r place wide bound all in
                    let place1 : g.child_idx + s ≡ children.start + (suc q * (s + 1) + 0) * s =
                      omega (arith, next_run q s, ap (λ (x : ℕ). (q * (s + 1) + x) * s) all) in
                    let count : q * s + r ≡ suc q * s + 0 = grind arith in
                    let (g', w, done, filled, inv') =
                      gen_level-Inv fuel (suc q) 0 g1 (omega arith)
                        (omega (arith, ltb→lt _ _ inside))
                        (subst (λ x. Inv x g1) count
                          (Inv-moved (q * s + r) g (g.child_idx + s) inv))
                        place1 in
                    (g', w, rw (inside, free, round) done, filled, inv')
              ]
            ]
          ]
