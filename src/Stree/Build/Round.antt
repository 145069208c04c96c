-- ===== src/Stree/Build/Round.antt =====
-- One round of the loop of `generate_nodes` of stree.rs: the node that has no separator of its own
-- is passed over, every other node gets a parent item.
use flatcitybuf.Prelude.{
  ℕ, ◌+◌, ◌-◌, ◌*◌, ◌%◌, ◌≤◌, ◌<◌, ◌≡◌, refl, ap, ◌∙◌, arith, Bool, true, false, ◌&&◌, List, some,
  length, get_or, ltb, leb, if◌then◌else◌, Bool-cases, inl, inr, ltb→lt, lt→ltb, le→leb,
}
use native.Mathlib.Nat.{mul-add-mod_self_right, mod-eq_of_lt}
use flatcitybuf.Error.{ok}
use flatcitybuf.Levels.{Range}
use flatcitybuf.Array.Reads.{at-get_or}
use flatcitybuf.Key.{Key}
use flatcitybuf.Stree.{Entry}
use flatcitybuf.Stree.Shape.{no_entry}
use flatcitybuf.Stree.Build.{
  Gen, key_min, get_min, expect, unwrap_or_max, write_parent, last_parent, leaf_parent,
  inner_parent, gen_round,
}

pub not_leb : (a b : ℕ) → b < a → leb a b ≡ false
not_leb a b h = ground arith

-- Node `q * (s + 1) + r` of a level stands `r * s` items behind a run of `s + 1` nodes.
node_rest : (q r s : ℕ) → r ≤ s → 1 ≤ s → (q * (s + 1) + r) * s % ((s + 1) * s) ≡ r * s
node_rest q r s h k =
    let run : (q * (s + 1) + r) * s ≡ q * ((s + 1) * s) + r * s = grind arith in
    let short : r * s < (s + 1) * s = grind arith in
    ap (λ (x : ℕ). x % ((s + 1) * s)) run
    ∙ mul-add-mod_self_right q ((s + 1) * s) (r * s)
    ∙ mod-eq_of_lt short

-- The test of the source for a node that is the last child of its parent node.
abbrev skip_test : ℕ → ℕ → Bool
skip_test s r = leb (s * s) (r * s) && ltb (r * s) ((s + 1) * (s + 1))

skip_test_last : (s : ℕ) → skip_test s s ≡ true
skip_test_last s =
    rw (le→leb (s * s) (s * s) (omega arith), lt→ltb (s * s) ((s + 1) * (s + 1)) (grind arith)) refl

skip_test_other : (s r : ℕ) → r < s → skip_test s r ≡ false
skip_test_other s r h = rw (not_leb (s * s) (r * s) (grind arith)) refl

module _ {K : Type 0} ⦃key : Key K⦄ (s first_leaf : ℕ) (children : Range) (leaves : Bool) where
  -- What a round reads of the node at `pos` when `v` is the least key below it.
  abbrev pub Reads : List (Entry K) → List (ℕ × K) → ℕ → K → Type 0
  Reads nodes mins pos v =
      (pos < length nodes)
      × (key_min (get_or nodes pos no_entry).key (unwrap_or_max (get_min mins pos)) ≡ v)
      × (leaves ≡ true → (get_or nodes pos no_entry).key ≡ v)
      × (leaves ≡ false → get_min mins pos ≡ some v)

  module _ (g : Gen K) (v : K) (own : Reads g.nodes g.parent_min_key g.child_idx v) where
    last_parent_lem : last_parent s g ≡ write_parent s key.max_value v g
    unfolding last_parent
    last_parent_lem = rw (at-get_or g.nodes g.child_idx no_entry own.0, own.1) refl

    module _ (v' : K) (right : Reads g.nodes g.parent_min_key (g.child_idx + s) v') where
      leaf_parent_lem : leaves ≡ true → leaf_parent s g ≡ write_parent s v' v g
      unfolding leaf_parent
      leaf_parent_lem leaf =
          rw
            (
              at-get_or g.nodes g.child_idx no_entry own.0,
              at-get_or g.nodes (g.child_idx + s) no_entry right.0,
              own.2 leaf,
              right.2 leaf,
            )
            refl

      inner_parent_lem : leaves ≡ false → inner_parent s g ≡ write_parent s v' v g
      unfolding inner_parent expect
      inner_parent_lem inner = rw (own.3 inner, right.3 inner) refl

  module _ (g : Gen K) (q r : ℕ) (place : g.child_idx ≡ children.start + (q * (s + 1) + r) * s)
      (wide : 1 ≤ s) (bound : r ≤ s) where
    rest : (g.child_idx - children.start) % ((s + 1) * s) ≡ r * s
    rest =
        let behind : g.child_idx - children.start ≡ (q * (s + 1) + r) * s = omega arith in
        ap (λ (x : ℕ). x % ((s + 1) * s)) behind ∙ node_rest q r s bound wide

    pub gen_round_skip :
        r ≡ s
        → gen_round (s + 1) first_leaf children g ≡ ok (record g { child_idx = g.child_idx + s })
    unfolding gen_round
    gen_round_skip last =
        let node_size : s + 1 - 1 ≡ s = omega arith in
        rw (node_size, rest, last, skip_test_last s) refl

    pub gen_round_write :
        (v v' : K)
        → r < s
        → leb first_leaf g.child_idx ≡ leaves
        → Reads g.nodes g.parent_min_key g.child_idx v
        → (g.child_idx + s < children.end → Reads g.nodes g.parent_min_key (g.child_idx + s) v')
        → gen_round (s + 1) first_leaf children g
          ≡ write_parent s (if ltb (g.child_idx + s) children.end then v' else key.max_value) v g
    unfolding gen_round
    gen_round_write v v' other side own right =
        elim (Bool-cases (ltb (g.child_idx + s) children.end)) [
          | inl next ↦ elim (Bool-cases leaves) [
            | inl leaf ↦
                rw (node_size, rest, skip_test_other s r other, next, side, leaf)
                  (leaf_parent_lem g v own v' (right (ltb→lt _ _ next)) leaf)
            | inr inner ↦
                rw (node_size, rest, skip_test_other s r other, next, side, inner)
                  (inner_parent_lem g v own v' (right (ltb→lt _ _ next)) inner)
          ]
          | inr end ↦ rw (node_size, rest, skip_test_other s r other, end) (last_parent_lem g v own)
        ]
      where
        node_size : s + 1 - 1 ≡ s
        node_size = omega arith
