-- ===== src/Stree/Search/Step.antt =====
-- One level of the descent of `find_exact` of stree.rs, on a tree of the right shape.
use flatcitybuf.Prelude.{
  ℕ, zero, suc, ◌+◌, ◌-◌, ◌*◌, ◌≤◌, ◌<◌, ◌≡◌, sym, ap, ◌∙◌, arith, true, List, length, get_or, ltb,
  Bool-cases, inl, inr, ltb→lt, ltb→le, min,
}
use mathlib.Core.Path.{subst}
use flatcitybuf.Key.{Key, key_lt}
use flatcitybuf.Key.Order.{IsLinear, lt_asym, lt-ne}
use flatcitybuf.Stree.{Entry, Stree}
use flatcitybuf.Stree.Shape.{
  power, unit, child, no_entry, level, leaf, boundary, IsTree, size, size_iff, div_ceil_iff,
}
use flatcitybuf.Stree.Search.Binary.{Before}

pub child-node : (s c i : ℕ) → i < s → child s (c * s + i) ≡ c * (s + 1) + i
child-node s c i h = grind arith

child-mul-le : (s i : ℕ) → 1 ≤ s → child s i * s ≤ i * (s + 1)
child-mul-le s i h = grind arith

-- A node with `m` separators whose level ends with it has its leaves below the child behind the
-- last separator.
last_child :
    (c m e p : ℕ)
    → (c * (m + e) + m) * (p * (m + e + 1)) ≤ suc (c * (m + e + 1) + m) * (p * (m + e))
last_child c m e p =
    let exact : (c * (m + e) + m) * (p * (m + e + 1)) + e * p
        ≡ suc (c * (m + e + 1) + m) * (p * (m + e)) =
      grind arith in
    omega arith

last_child_lem :
    (c m s p : ℕ) → m ≤ s → (c * s + m) * (p * (s + 1)) ≤ suc (c * (s + 1) + m) * (p * s)
last_child_lem c m s p h =
    let whole : m + (s - m) ≡ s = omega arith in
    subst (λ (x : ℕ). (c * x + m) * (p * (x + 1)) ≤ suc (c * (x + 1) + m) * (p * x)) whole
      (last_child c m (s - m) p)

full_child : (c s p : ℕ) → suc c * (p * (s + 1) * s) ≡ suc (c * (s + 1) + s) * (p * s)
full_child c s p = grind arith

pub regroup_unit : (c s p : ℕ) → c * (p * (s + 1) * s) ≡ c * (s + 1) * (p * s)
regroup_unit c s p = grind arith

pub regroup_mul : (c s p : ℕ) → c * (p * s) ≡ c * s * p
regroup_mul c s p = grind arith

pub unit_pos : (s l : ℕ) → 1 ≤ s → 1 ≤ unit s l
unit_pos s zero h = omega arith
unit_pos s (suc l) h =
    let grown : power s l * (s + 1) * s ≡ unit s l * s + unit s l = grind arith in
    omega (arith, unit_pos s l h)

module _ {K : Type 0} ⦃key : Key K⦄ (linear : IsLinear key) {t : Stree K} {s top : ℕ}
    (tree : IsTree t s top) where
  -- Leaves are in the order of their keys.
  pub leaf_lt :
      (p q : ℕ)
      → p < t.num_leaf_nodes
      → q < t.num_leaf_nodes
      → key_lt (leaf t p).key (leaf t q).key ≡ true
      → p < q
  leaf_lt p q hp hq h = elim (Bool-cases (ltb p q)) [
    | inl e ↦ ltb→lt p q e
    | inr e ↦ elim (Bool-cases (ltb q p)) [
      | inl e' ↦ absurd (lt_asym linear _ _ h (tree.ascending q p (ltb→lt q p e') hp))
      | inr e' ↦
          let same : p ≡ q = omega (arith, ltb→le p q e, ltb→le q p e') in
          absurd (lt-ne linear _ _ h (ap (λ (x : ℕ). (leaf t x).key) same))
    ]
  ]

  pub leaf_inj :
      (p q : ℕ)
      → p < t.num_leaf_nodes
      → q < t.num_leaf_nodes
      → (leaf t p).key ≡ (leaf t q).key
      → p ≡ q
  leaf_inj p q hp hq same = elim (Bool-cases (ltb p q)) [
    | inl e ↦ absurd (lt-ne linear _ _ (tree.ascending p q (ltb→lt p q e) hq) same)
    | inr e ↦ elim (Bool-cases (ltb q p)) [
      | inl e' ↦ absurd (lt-ne linear _ _ (tree.ascending q p (ltb→lt q p e') hp) (sym same))
      | inr e' ↦ omega (arith, ltb→le p q e, ltb→le q p e')
    ]
  ]

  module _ (k : K) (low : key_lt k key.max_value ≡ true) where
    pub boundary-lt :
        (q : ℕ)
        → key_lt (boundary t q) k ≡ true
        → (q < t.num_leaf_nodes) × ((p : ℕ) → p < t.num_leaf_nodes → (leaf t p).key ≡ k → q < p)
    boundary-lt q h = elim (Bool-cases (ltb q t.num_leaf_nodes)) [
      | inl e ↦
          let here : q < t.num_leaf_nodes = ltb→lt _ _ e in
          (here, λ p hp same. leaf_lt q p here hp (rw same (rw e at h)))
      | inr e ↦ absurd (lt_asym linear _ _ low (rw e at h))
    ]

    boundary-eq :
        (q : ℕ)
        → boundary t q ≡ k
        → (q < t.num_leaf_nodes) × ((p : ℕ) → p < t.num_leaf_nodes → (leaf t p).key ≡ k → p ≡ q)
    boundary-eq q h = elim (Bool-cases (ltb q t.num_leaf_nodes)) [
      | inl e ↦
          let here : q < t.num_leaf_nodes = ltb→lt _ _ e in
          (here, λ p hp same. leaf_inj p q hp here (same ∙ sym (rw e at h)))
      | inr e ↦ absurd (lt-ne linear _ _ low (sym (rw e at h)))
    ]

    boundary-gt :
        (q : ℕ)
        → key_lt k (boundary t q) ≡ true
        → (p : ℕ) → p < t.num_leaf_nodes
        → (leaf t p).key ≡ k
        → p < q
    boundary-gt q h p hp same = elim (Bool-cases (ltb q t.num_leaf_nodes)) [
      | inl e ↦ leaf_lt p q hp (ltb→lt _ _ e) (rw same (rw e at h))
      | inr e ↦ omega (arith, ltb→le _ _ e)
    ]

    -- Node `c` of a level exists, and a leaf with the key, if there is one, lies below it.
    abbrev pub AtNode : ℕ → ℕ → Type 0
    AtNode l c =
        (c * s < size t tree l)
        × ((p : ℕ)
            → p < t.num_leaf_nodes
            → (leaf t p).key ≡ k
            → (c * unit s l ≤ p) × (p < suc c * unit s l))

    -- The separators of node `c` of level `l + 1`.
    abbrev pub IsNode : ℕ → ℕ → List (Entry K) → Type 0
    IsNode l c items =
        (length items ≡ min (c * s + s) (size t tree (suc l)) - c * s)
        × ((i : ℕ)
            → i < length items
            → ((get_or items i no_entry).offset ≡ (level t l).start + (c * (s + 1) + i) * s)
              × ((get_or items i no_entry).key ≡ boundary t (suc (c * (s + 1) + i) * unit s l)))

    module _ (l c : ℕ) (items : List (Entry K)) (inner : l < top) (here : AtNode (suc l) c)
        (node : IsNode l c items) where
      -- The node on the left of a separator exists.
      pub left-exists : (i : ℕ) → i < length items → (c * (s + 1) + i) * s < size t tree l
      left-exists i h =
          let below : (c * s + i) * (s + 1) < size t tree l =
            (div_ceil_iff s (c * s + i) (size t tree l)).0
              (omega (arith, tree.sizes l inner, node.0)) in
          omega (
            arith,
            child-mul-le s (c * s + i) tree.wide,
            ap (λ (x : ℕ). x * s) (child-node s c i (omega (arith, node.0))),
          )

      -- So does the node on the right of a separator that is not the greatest key.
      pub right-exists :
          (i : ℕ)
          → suc (c * (s + 1) + i) * unit s l < t.num_leaf_nodes
          → suc (c * (s + 1) + i) * s < size t tree l
      right-exists i h =
          (size_iff t tree l (suc (c * (s + 1) + i) * s) (omega arith)).1
            (omega (arith, regroup_mul (suc (c * (s + 1) + i)) s (power s l)))

      pub AtNode-found :
          (i : ℕ)
          → i < length items
          → (get_or items i no_entry).key ≡ k
          → AtNode l (suc (c * (s + 1) + i))
      AtNode-found i h same =
          let (inside, only) =
            boundary-eq (suc (c * (s + 1) + i) * unit s l) (sym ((node.1 i h).1) ∙ same) in
          (
            right-exists i inside,
            λ p hp key_p.
                let e = only p hp key_p in (omega arith, omega (arith, unit_pos s l tree.wide)),
          )

      -- A leaf with the key lies behind the separators before it.
      pub lower :
          (i : ℕ)
          → i ≤ length items
          → Before items k i
          → (p : ℕ) → p < t.num_leaf_nodes
          → (leaf t p).key ≡ k
          → (c * (s + 1) + i) * unit s l ≤ p
      lower zero h before p hp key_p =
          omega (arith, (here.1 p hp key_p).0, regroup_unit c s (power s l))
      lower (suc i) h before p hp key_p =
          let less = rw ((node.1 i h).1) at (before i (omega arith)) in
          let q : suc (c * (s + 1) + i) ≡ c * (s + 1) + suc i = omega arith in
          let behind = (boundary-lt (suc (c * (s + 1) + i) * unit s l) less).1 p hp key_p in
          omega (arith, ap (λ (x : ℕ). x * unit s l) q)

      -- The leaves of the node end with its last child.
      behind_last :
          (i : ℕ)
          → i ≡ length items
          → (p : ℕ) → p < t.num_leaf_nodes
          → (leaf t p).key ≡ k
          → p < suc (c * (s + 1) + i) * unit s l
      behind_last i h p hp key_p = elim (Bool-cases (ltb i s)) [
        | inl e ↦
            let short : i < s = ltb→lt i s e in
            let full : ¬ (c * s + i < size t tree (suc l)) = λ lt. omega (arith, node.0) in
            let beyond : t.num_leaf_nodes ≤ (c * s + i) * power s (suc l) =
              elim (Bool-cases (ltb ((c * s + i) * power s (suc l)) t.num_leaf_nodes)) [
                | inl e' ↦
                    absurd
                      (full ((size_iff t tree (suc l) (c * s + i) (omega arith)).1 (ltb→lt _ _ e')))
                | inr e' ↦ ltb→le _ _ e'
              ] in
            omega (arith, last_child_lem c i s (power s l) (omega arith))
        | inr e ↦
            let full : i ≡ s = omega (arith, node.0, ltb→le i s e) in
            subst (λ (x : ℕ). p < suc (c * (s + 1) + x) * unit s l) (sym full)
              (omega (arith, full_child c s (power s l), (here.1 p hp key_p).1))
      ]

      -- And before the separator that is greater, or below the last child.
      pub upper :
          (i : ℕ)
          → i ≤ length items
          → (i < length items → key_lt k (get_or items i no_entry).key ≡ true)
          → (p : ℕ) → p < t.num_leaf_nodes
          → (leaf t p).key ≡ k
          → p < suc (c * (s + 1) + i) * unit s l
      upper i h greater p hp key_p = elim (Bool-cases (ltb i (length items))) [
        | inl e ↦
            let inside : i < length items = ltb→lt _ _ e in
            boundary-gt (suc (c * (s + 1) + i) * unit s l)
              (rw ((node.1 i inside).1) at (greater inside)) p hp key_p
        | inr e ↦ behind_last i (omega (arith, ltb→le i (length items) e)) p hp key_p
      ]
