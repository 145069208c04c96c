-- ===== src/RTree/Build/Level.antt =====
-- One level of parents made by `generate_nodes` of mod.rs.
use flatcitybuf.Prelude.{
  ℕ, zero, suc, ◌+◌, ◌-◌, ◌*◌, ◌/◌, ◌≤◌, ◌<◌, ◌≡◌, refl, sym, ap, ◌∙◌, arith, List, length, get_or,
  ltb, leb, Bool-cases, inl, inr, min, leb→le, leb→lt, ltb→lt, ltb→le, ==_refl, ==_false, ◌≢◌,
}
use mathlib.Core.Path.{subst}
use flatcitybuf.Error.{ok}
use flatcitybuf.Array.Reads.{at-get_or, Written, put-Written}
use flatcitybuf.Levels.{div_ceil}
use flatcitybuf.RTree.{Float, IsOrdered, NodeItem, create, expand}
use flatcitybuf.RTree.Box.{Contains, Contains-refl, Contains-trans, expand-Contains}
use flatcitybuf.RTree.Build.{expand_children, gen_level}

first_or_later :
    (P : ℕ → Type 0) (child m : ℕ)
    → P child
    → ((x : ℕ) → x < m → P (child + 1 + x))
    → (x : ℕ) → x < suc m
    → P (child + x)
first_or_later P child m h k zero lt = subst P (omega arith) h
first_or_later P child m h k (suc x) lt = subst P (omega arith) (k x (omega arith))

div_step : (b x : ℕ) → 1 ≤ b → b ≤ x → x / b ≡ suc ((x - b) / b)
div_step b x h k = grind arith

div_small : (b x : ℕ) → x < b → x / b ≡ 0
div_small b x h = grind arith

div_ceil_zero : (b : ℕ) → 1 ≤ b → div_ceil 0 b ≡ 0
div_ceil_zero b h = grind arith

-- Taking the children of one parent away takes one parent away.
div_ceil_step : (b m : ℕ) → 1 ≤ b → 1 ≤ m → div_ceil m b ≡ suc (div_ceil (m - min b m) b)
div_ceil_step b m h k = elim (Bool-cases (leb b m)) [
  | inl e ↦
      let le : b ≤ m = leb→le b m e in
      div_step b (m + b - 1) h (omega arith) ∙ ap (λ (t : ℕ). suc (t / b)) (omega arith)
  | inr e ↦
      let lt : m < b = leb→lt b m e in
      div_step b (m + b - 1) h (omega arith)
      ∙ ap suc (
          div_small b (m + b - 1 - b) (omega arith)
          ∙ sym (div_small b (m - min b m + b - 1) (omega arith)))
]

-- A parent that is not the last has all its children.
step_full : (b m : ℕ) → 1 ≤ b → 0 < div_ceil (m - min b m) b → min b m ≡ b
step_full b m h k = elim (Bool-cases (leb b m)) [
  | inl e ↦ omega (arith, leb→le b m e)
  | inr e ↦
      let none : m - min b m ≡ 0 = omega (arith, leb→lt b m e) in
      absurd (omega (arith, ap (λ (t : ℕ). div_ceil t b) none, div_ceil_zero b h))
]

-- The first children of the parents, from that of the first parent and those of the others.
first_children :
    (b parent child step D : ℕ) (offset : ℕ → ℕ)
    → offset parent ≡ child
    → (0 < D → step ≡ b)
    → ((i : ℕ) → i < D → offset (parent + 1 + i) ≡ child + step + i * b)
    → (i : ℕ) → i < suc D
    → offset (parent + i) ≡ child + i * b
first_children b parent child step D offset own full later zero lt =
    ap offset (omega arith) ∙ own ∙ omega arith
first_children b parent child step D offset own full later (suc i) lt =
    ap offset (omega arith) ∙ later i (omega arith) ∙ omega (arith, full (omega arith))

-- What holds of each child and its parent, from the children of the first parent and the others.
each_child :
    (P : ℕ → ℕ → Type 0) (b end parent child : ℕ)
    → 1 ≤ b
    → ((x : ℕ) → x < min b (end - child) → P parent (child + x))
    → ((x : ℕ)
        → child + min b (end - child) + x < end
        → P (parent + 1 + x / b) (child + min b (end - child) + x))
    → (x : ℕ) → child + x < end
    → P (parent + x / b) (child + x)
each_child P b end parent child h mine others x lt = elim (Bool-cases (leb b x)) [
  | inl e ↦
      let le : b ≤ x = leb→le b x e in
      let at_parent : parent + 1 + (x - b) / b ≡ parent + x / b =
        omega (arith, div_step b x h le) in
      let at_child : child + min b (end - child) + (x - b) ≡ child + x = omega arith in
      subst (λ i. P i (child + x)) at_parent
        (subst (λ i. P (parent + 1 + (x - b) / b) i) at_child (others (x - b) (omega arith)))
  | inr e ↦
      let small : x < b = leb→lt b x e in
      subst (λ i. P i (child + x)) (omega (arith, div_small b x small)) (mine x (omega arith))
]

module _ {F : Type 0} ⦃float : Float F⦄ (ord : IsOrdered float) where
  abbrev pub node_at : List (NodeItem F) → ℕ → NodeItem F
  node_at nodes i = get_or nodes i (create 0)

  offset-expand : (a b : NodeItem F) → (expand a b).offset ≡ a.offset
  unfolding expand
  offset-expand a b = refl

  offset-create : (n : ℕ) → (create {F = F} n).offset ≡ n
  unfolding create
  offset-create n = refl

  -- A box grown over the children from `child` on, at most `n` and none at `end` or behind.
  expand_children-Contains :
      (nodes : List (NodeItem F)) (end n : ℕ) (parent : NodeItem F) (child : ℕ)
      → end ≤ length nodes
      → child ≤ end
      → (box : NodeItem F) × (expand_children nodes end n parent child
          ≡ ok (box, child + min n (end - child)))
        × (box.offset ≡ parent.offset)
        × Contains box parent
        × ((x : ℕ) → x < min n (end - child) → Contains box (node_at nodes (child + x)))
  unfolding expand_children
  expand_children-Contains nodes end zero parent child h k = (
    parent,
    ap (λ (m : ℕ). ok (parent, m)) (omega arith),
    refl,
    Contains-refl ord parent,
    λ x lt. absurd (omega arith),
  )
  expand_children-Contains nodes end (suc n) parent child h k = elim (Bool-cases (leb end child)) [
    | inl e ↦
        let stop : end ≤ child = leb→le end child e in
        (
          parent,
          rw e (ap (λ (m : ℕ). ok (parent, m)) (omega arith)),
          refl,
          Contains-refl ord parent,
          λ x lt. absurd (omega arith),
        )
    | inr e ↦
        let more : child < end = leb→lt end child e in
        let c = node_at nodes child in
        let (box, grown, same, old, new) =
          expand_children-Contains nodes end n (expand parent c) (child + 1) h (omega arith) in
        let (keeps, takes) = expand-Contains ord parent c in
        (
          box,
          rw (e, at-get_or nodes child (create 0) (omega arith), grown)
              (ap (λ (m : ℕ). ok (box, m)) (omega arith)),
          same ∙ offset-expand parent c,
          Contains-trans ord _ _ _ old keeps,
          λ x lt.
              first_or_later (λ i. Contains box (node_at nodes i)) child (min n (end - (child + 1)))
                (Contains-trans ord _ _ _ old takes) new x (omega arith),
        )
  ]

  -- A level of parents, from the next parent and the next child on: each parent in place, with
  -- the first of its children and a box around all of them, and all else as it was.
  abbrev pub Level : ℕ → ℕ → ℕ → ℕ → List (NodeItem F) → List (NodeItem F) → Type 0
  Level b end parent child nodes nodes' =
      (length nodes' ≡ length nodes)
      × ((j : ℕ) → j < parent → node_at nodes' j ≡ node_at nodes j)
      × ((j : ℕ) → parent + div_ceil (end - child) b ≤ j → node_at nodes' j ≡ node_at nodes j)
      × ((i : ℕ)
          → i < div_ceil (end - child) b
          → (node_at nodes' (parent + i)).offset ≡ child + i * b)
      × ((x : ℕ)
          → child + x < end
          → Contains (node_at nodes' (parent + x / b)) (node_at nodes (child + x)))

  -- One parent `box` at place `parent` over the children from `child` on, then the other parents.
  Level-cons :
      (b end parent child : ℕ) (nodes nodes' nodes'' : List (NodeItem F)) (box : NodeItem F)
      → 1 ≤ b
      → child < end
      → parent + div_ceil (end - child) b ≤ child
      → box.offset ≡ child
      → ((x : ℕ) → x < min b (end - child) → Contains box (node_at nodes (child + x)))
      → Written nodes parent box (create 0) nodes'
      → Level b end (parent + 1) (child + min b (end - child)) nodes' nodes''
      → Level b end parent child nodes nodes''
  Level-cons b end parent child nodes nodes' nodes'' box h lt apart own around (size, read)
        (size', before, behind, offsets, boxes) =
      let D = div_ceil (end - (child + min b (end - child))) b in
      let count : div_ceil (end - child) b ≡ suc D =
        div_ceil_step b (end - child) h (omega arith)
        ∙ ap (λ (t : ℕ). suc (div_ceil t b)) (omega arith) in
      let mine : node_at nodes'' parent ≡ box =
        before parent (omega arith) ∙ read parent ∙ rw (==_refl parent) refl in
      let others : (j : ℕ) → j ≢ parent → node_at nodes' j ≡ node_at nodes j =
        λ j ne. read j ∙ rw (==_false j parent ne) refl in
      (
        size' ∙ size,
        λ j k. before j (omega arith) ∙ others j (omega arith),
        λ j k. behind j (omega arith) ∙ others j (omega arith),
        λ i k.
            first_children b parent child (min b (end - child)) D (λ i. (node_at nodes'' i).offset)
              (ap (λ (a : NodeItem F). a.offset) mine ∙ own)
              (λ more.
                step_full b (end - child) h (subst (λ m. 0 < div_ceil m b) (omega arith) more))
              offsets i (omega arith),
        each_child (λ i c. Contains (node_at nodes'' i) (node_at nodes c)) b end parent child h
            (λ x k. rw mine (around x k))
            (λ x k.
              rw (← others (child + min b (end - child) + x) (λ same. absurd (omega arith)))
                (boxes x k)),
      )

  Level-nil :
      (b end parent child : ℕ) (nodes : List (NodeItem F))
      → 1 ≤ b
      → end ≤ child
      → Level b end parent child nodes nodes
  Level-nil b end parent child nodes h k =
      let none : div_ceil (end - child) b ≡ 0 =
        ap (λ (m : ℕ). div_ceil m b) (omega arith) ∙ div_ceil_zero b h in
      (refl, λ j l. refl, λ j l. refl, λ i l. absurd (omega arith), λ x l. absurd (omega arith))

  -- `while child_idx < children_level.end` ends with the level of parents complete.
  pub gen_level-Level :
      (fuel b end parent child : ℕ) (nodes : List (NodeItem F))
      → 1 ≤ b
      → end ≤ length nodes
      → end < child + fuel
      → child ≤ end
      → parent + div_ceil (end - child) b ≤ child
      → (nodes' : List (NodeItem F)) × (gen_level fuel b end parent child nodes ≡ ok nodes')
        × Level b end parent child nodes nodes'
  unfolding gen_level
  gen_level-Level zero b end parent child nodes h room fuel_ok c apart = absurd (omega arith)
  gen_level-Level (suc fuel) b end parent child nodes h room fuel_ok c apart =
      elim (Bool-cases (ltb child end)) [
        | inl e ↦
            let lt : child < end = ltb→lt child end e in
            let count = div_ceil_step b (end - child) h (omega arith) in
            let (box, grown, own, old, around) =
              expand_children-Contains nodes end b (create child) child room (omega arith) in
            let (nodes', written, (size, read)) =
              put-Written nodes parent box (create 0) (omega arith) in
            let rest : end - (child + min b (end - child)) ≡ end - child - min b (end - child) =
              omega arith in
            let (nodes'', done, level) =
              gen_level-Level fuel b end (parent + 1) (child + min b (end - child)) nodes' h
                (omega arith) (omega arith) (omega arith)
                (omega (arith, ap (λ (m : ℕ). div_ceil m b) rest)) in
            (
              nodes'',
              rw (e, grown, written, done) refl,
              Level-cons b end parent child nodes nodes' nodes'' box h lt apart
                  (own ∙ offset-create child) around (size, read) level,
            )
        | inr e ↦ (nodes, rw e refl, Level-nil b end parent child nodes h (ltb→le child end e))
      ]
