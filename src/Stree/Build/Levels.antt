-- ===== src/Stree/Build/Levels.antt =====
-- All levels of separators made by `generate_nodes` of stree.rs.
use Prim.Native.Nat.{Ordering}
use flatcitybuf.Prelude.{
  ℕ, suc, ◌+◌, ◌-◌, ◌*◌, ◌≤◌, ◌<◌, ◌≡◌, refl, sym, ap, ◌∙◌, arith, Bool, true, false, List, [], ◌∷◌,
  length, get_or, ltb, if◌then◌else◌, Bool-cases, inl, inr, ltb→lt,
}
use mathlib.Core.Bool.{false≢true}
use flatcitybuf.Levels.{Range, div_ceil}
use flatcitybuf.Key.{Key, key_lt, key_le}
use flatcitybuf.Key.Order.{IsLinear, cmp-eq}
use flatcitybuf.Stree.{Entry}
use flatcitybuf.Stree.Shape.{no_entry, child, div_ceil_iff, regroup}
use flatcitybuf.Stree.Search.Step.{child-node, regroup_mul}
use flatcitybuf.Stree.Build.{Gen, key_min, unwrap_or_max}
use flatcitybuf.Stree.Build.Round.{Reads}
use flatcitybuf.Stree.Build.Level.{Inv}

ltb_same : (a b c d : ℕ) → (a < b → c < d) → (c < d → a < b) → ltb a b ≡ ltb c d
ltb_same a b c d f g = ground arith

module _ {K : Type 0} ⦃key : Key K⦄ where
  lt-le : (a b : K) → key_lt a b ≡ true → key_le a b ≡ true
  lt-le a b h = le_of (key.cmp a b) h
    where
      le_of :
          (c : Ordering)
          → (elim c [ Ordering.lt ↦ true | _ ↦ false ]) ≡ true
          → (elim c [ Ordering.gt ↦ false | _ ↦ true ]) ≡ true
      le_of Ordering.lt h = refl
      le_of Ordering.eq h = refl
      le_of Ordering.gt h = h

module _ {K : Type 0} ⦃key : Key K⦄ (linear : IsLinear key) where
  -- The lesser of two keys in order.
  key_min_lem : (a b : K) → key_le b a ≡ true → key_min a b ≡ b
  unfolding key_min
  key_min_lem a b h = min_of (key.cmp b a) refl
    where
      min_of : (c : Ordering) → key.cmp b a ≡ c → key_min a b ≡ b
      min_of Ordering.lt e = rw (key_le, linear.consistent.flip b a, e) refl
      min_of Ordering.eq e = rw (key_le, linear.consistent.flip b a, e) (sym (cmp-eq linear b a e))
      min_of Ordering.gt e = absurd (false≢true (rw (key_le, e) at h))

module _ {K : Type 0} ⦃key : Key K⦄ (linear : IsLinear key) (s n : ℕ) (wide : 1 ≤ s)
    (leaf_key : ℕ → K)
    (ascending : (p q : ℕ) → p < q → q < n → key_lt (leaf_key p) (leaf_key q) ≡ true)
    (capped : (p : ℕ) → p < n → key_le (leaf_key p) key.max_value ≡ true) where
  -- The key of leaf `p`, behind the last leaf the greatest of all.
  abbrev pub bound : ℕ → K
  bound p = if ltb p n then leaf_key p else key.max_value

  -- The parent items of level `r` stand in level `p`, when a node of `r` is over `w * s` leaves.
  abbrev pub Parents : ℕ → Range → Range → List (Entry K) → Type 0
  Parents w r p nodes =
      (i : ℕ)
      → p.start + i < p.end
      → get_or nodes (p.start + i) no_entry
        ≡ record { key = bound (suc (child s i) * (w * s)); offset = r.start + child s i * s }

  abbrev pub AllParents : ℕ → List Range → List (Entry K) → Type 0
  AllParents w [] nodes = Unit {0}
  AllParents w (r ∷ []) nodes = Unit {0}
  AllParents w (r ∷ p ∷ rs) nodes = Parents w r p nodes × AllParents (w * (s + 1)) (p ∷ rs) nodes

  -- Item `x` of the level stands over leaf `x * w`.
  abbrev pub Over : ℕ → Range → Type 0
  Over w r = (x : ℕ) → ((x < r.end - r.start) → x * w < n) × (x * w < n → x < r.end - r.start)

  module _ (first_leaf : ℕ) where
    -- The least keys below the nodes of the level can be read.
    abbrev pub Ready : ℕ → Range → Bool → List (Entry K) → List (ℕ × K) → Type 0
    Ready w r leaves nodes mins =
        (k : ℕ)
        → r.start + k * s < r.end
        → Reads s first_leaf r leaves nodes mins (r.start + k * s) (leaf_key (k * (w * s)))

    module _ (w : ℕ) (r p : Range) (nodes : List (Entry K)) (mins : List (ℕ × K)) (over : Over w r)
        (some_leaf : 1 ≤ w) (above : p.end ≡ r.start)
        (sizes : p.start + div_ceil (r.end - r.start) (s + 1) ≡ p.end)
        (fits : r.start ≤ r.end) where
      abbrev pub least : ℕ → K
      least k = leaf_key (k * (w * s))

      separator :
          (k : ℕ)
          → (if ltb (r.start + k * s + s) r.end then least (suc k) else key.max_value)
            ≡ bound (suc k * (w * s))
      separator k =
          let (down, up) = over (suc k * s) in
          let next : r.start + k * s + s ≡ r.start + suc k * s = grind arith in
          let leaves_below : suc k * s * w ≡ suc k * (w * s) = grind arith in
          let same =
            ltb_same (r.start + k * s + s) r.end (suc k * (w * s)) n
              (λ h. omega (arith, down (omega arith))) (λ h. omega (arith, up (omega arith))) in
          ap (λ (c : Bool). if c then least (suc k) else key.max_value) same

      least_le_separator :
          (k : ℕ) → k * (w * s) < n → key_le (least k) (bound (suc k * (w * s))) ≡ true
      least_le_separator k inside = elim (Bool-cases (ltb (suc k * (w * s)) n)) [
        | inl e ↦
            let one_leaf : 1 ≤ w * s = grind arith in
            let grown : suc k * (w * s) ≡ k * (w * s) + w * s = grind arith in
            rw e (
              lt-le (least k) (leaf_key (suc k * (w * s)))
                (ascending (k * (w * s)) (suc k * (w * s)) (omega arith) (ltb→lt _ _ e)))
        | inr e ↦ rw e (capped (k * (w * s)) inside)
      ]

      pub above_level : Over (w * (s + 1)) p
      above_level x =
          let (down, up) = over (x * (s + 1)) in
          let (down', up') = div_ceil_iff s x (r.end - r.start) in
          (
            λ h. omega (arith, regroup x w s, down (down' (omega arith))),
            λ h. omega (arith, up' (up (omega (arith, regroup x w s)))),
          )

      -- What the loop over the level leaves.
      pub Inv-Parents :
          (m : ℕ) (g : Gen K)
          → p.end ≤ p.start + m
          → Inv s r p nodes mins least m g
          → Parents w r p g.nodes
      Inv-Parents m g filled inv i h =
          inv.items i (omega arith)
          ∙ ap (λ (x : K). record { key = x; offset = r.start + child s i * s })
              (separator (child s i))

      pub Inv-Ready :
          (m : ℕ) (g : Gen K)
          → p.end ≤ p.start + m
          → p.end ≤ length nodes
          → Inv s r p nodes mins least m g
          → Ready (w * (s + 1)) p false g.nodes g.parent_min_key
      unfolding unwrap_or_max
      Inv-Ready m g filled room inv k h =
          let c = k * (s + 1) in
          let item : child s (k * s) ≡ c =
            ap (child s) (omega arith) ∙ child-node s k 0 (omega arith) ∙ omega arith in
          let below : c * (w * s) ≡ k * (w * (s + 1) * s) = grind arith in
          let in_range : c * (w * s) < n =
            omega (arith, regroup_mul k s (w * (s + 1)), (above_level (k * s)).0 (omega arith)) in
          let key_here = ap (λ (e : Entry K). e.key) (Inv-Parents m g filled inv (k * s) h) in
          let min_here = inv.mins (k * s) (omega arith) in
          (
            omega (arith, inv.size),
            rw (key_here, min_here, item)
                (key_min_lem linear _ _ (least_le_separator c in_range) ∙ ap leaf_key below),
            λ leaf. absurd (false≢true leaf),
            λ inner. rw (min_here, item, below) refl,
          )
