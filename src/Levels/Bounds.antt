-- ===== src/Levels/Bounds.antt =====
-- `generate_level_bounds` and `index_size` with either test that ends their loop.
use flatcitybuf.Prelude.{
  Bool-cases, inl, inr, leb, ℕ, zero, suc, ◌+◌, ◌-◌, ◌*◌, ◌/◌, ◌≤◌, ◌≡◌, refl, arith, Bool, false,
  List, [], ◌∷◌,
}
use flatcitybuf.Error.{ok, ◌>>=◌}
use flatcitybuf.Levels.{
  Range, usize_max, checked, sum, level_num_nodes, bounds_from, generate_level_bounds_by,
  num_nodes_by,
}
use flatcitybuf.Levels.Count.{Above, upper_counts-Above}

-- Ranges that tile [0, n) from its end down, one for each size.
abbrev pub Tiles : ℕ → List ℕ → List Range → Type 0
Tiles n [] [] = n ≡ 0
Tiles n [] (r ∷ rs) = ⊥
Tiles n (size ∷ sizes) [] = ⊥
Tiles n (size ∷ sizes) (r ∷ rs) = (r.end ≡ n) × (r.start + size ≡ n) × Tiles r.start sizes rs

bounds_from-Tiles : (n : ℕ) (sizes : List ℕ) → n ≡ sum sizes → Tiles n sizes (bounds_from n sizes)
unfolding bounds_from
bounds_from-Tiles n [] h = h
bounds_from-Tiles n (size ∷ sizes) h =
    (omega arith, omega arith, bounds_from-Tiles (n - size) sizes (omega arith))

-- The inputs that the assertions of `generate_level_bounds` let pass.
abbrev pub Accepted : ℕ → ℕ → Type 0
Accepted num_items b = (2 ≤ b) × (1 ≤ num_items) × (num_items ≤ usize_max - num_items / b * 2)

module _ (stop : ℕ → Bool) (stops : (m : ℕ) → 1 ≤ m → stop m ≡ false → 2 ≤ m)
    (num_items b : ℕ) where
  level_num_nodes-Above :
      2 ≤ b
      → 1 ≤ num_items
      → (ms : List ℕ) × (level_num_nodes stop b num_items ≡ ok (num_items ∷ ms))
        × Above stop b num_items ms
  unfolding level_num_nodes
  level_num_nodes-Above wide some_items =
      let (ms, found, above) =
        upper_counts-Above stop stops b wide (num_items + 1) num_items some_items (omega arith) in
      (ms, rw found refl, above)

  -- On accepted inputs the loop ends, and the ranges that come back tile [0, number of nodes)
  -- from the leaves at its end to the top level at 0, the sizes being those of the levels.
  pub generate_level_bounds_by-Tiles :
      Accepted num_items b
      → (ms : List ℕ) × (bounds : List Range) × (generate_level_bounds_by stop num_items b
          ≡ ok bounds)
        × Above stop b num_items ms
        × Tiles (sum (num_items ∷ ms)) (num_items ∷ ms) bounds
  unfolding generate_level_bounds_by
  generate_level_bounds_by-Tiles (wide, some_items, small) =
      let (ms, found, above) = level_num_nodes-Above wide some_items in
      let sizes = num_items ∷ ms in
      (
        ms,
        bounds_from (sum sizes) sizes,
        ground (arith, found),
        above,
        bounds_from-Tiles (sum sizes) sizes refl,
      )

  -- The number of nodes that `index_size` counts is the sum of the same sizes.
  pub num_nodes_by-sum :
      2 ≤ b
      → 1 ≤ num_items
      → (ms : List ℕ) × (num_nodes_by stop num_items b ≡ ok (sum (num_items ∷ ms)))
        × Above stop b num_items ms
  unfolding num_nodes_by
  num_nodes_by-sum wide some_items =
      let (ms, found, above) = level_num_nodes-Above wide some_items in
      (ms, ground (arith, found), above)

  -- Both at once: the number of nodes that `index_size` counts is the end of the tiled array.
  pub generate_level_bounds_by-num_nodes_by :
      Accepted num_items b
      → (ms : List ℕ) × (bounds : List Range) × (generate_level_bounds_by stop num_items b
          ≡ ok bounds)
        × Above stop b num_items ms
        × Tiles (sum (num_items ∷ ms)) (num_items ∷ ms) bounds
        × (num_nodes_by stop num_items b ≡ ok (sum (num_items ∷ ms)))
  unfolding generate_level_bounds_by num_nodes_by
  generate_level_bounds_by-num_nodes_by (wide, some_items, small) =
      let (ms, found, above) = level_num_nodes-Above wide some_items in
      let sizes = num_items ∷ ms in
      (
        ms,
        bounds_from (sum sizes) sizes,
        ground (arith, found),
        above,
        bounds_from-Tiles (sum sizes) sizes refl,
        ground (arith, found),
      )

product_ge : (n : ℕ) (size : ℕ) → 1 ≤ size → n ≤ n * size
product_ge n zero h = absurd (omega arith)
product_ge n (suc size) h = let split : n * suc size ≡ n + n * size = grind arith in omega arith

-- A count that overflows has a product that does.
pub checked-product :
    (n size : ℕ) → 1 ≤ size → (checked n >>= λ n. checked (n * size)) ≡ checked (n * size)
checked-product n size h =
    let more = product_ge n size h in
    elim (Bool-cases (leb n usize_max)) [
      | inl small ↦ rw small refl
      | inr large ↦
          let too_large : leb (n * size) usize_max ≡ false = ground arith in
          rw (large, too_large) refl
    ]

pub checked-size :
    (n size rest : ℕ)
    → 1 ≤ size
    → (checked n >>= λ n. checked (n * size) >>= λ product. checked (product + rest))
      ≡ checked (n * size + rest)
checked-size n size rest h =
    let more = product_ge n size h in
    elim (Bool-cases (leb n usize_max)) [
      | inl small ↦ elim (Bool-cases (leb (n * size) usize_max)) [
        | inl fits ↦ rw (small, fits) refl
        | inr large ↦
            let too_large : leb (n * size + rest) usize_max ≡ false = ground arith in
            rw (small, large, too_large) refl
      ]
      | inr large ↦
          let too_large : leb (n * size + rest) usize_max ≡ false = ground arith in
          rw (large, too_large) refl
    ]
