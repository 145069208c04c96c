-- ===== src/Stree/Bounds.antt =====
-- The levels of the B+tree of rust/fcb_core/src/static_btree/stree.rs and the size of its index.
use flatcitybuf.Prelude.{ℕ, ◌+◌, ◌*◌, ◌≤◌, ◌≡◌, arith, List, ◌∷◌, false, ltb, leb, if◌then◌else◌}
use flatcitybuf.Error.{ok, panic}
use flatcitybuf.Levels.{Range, sum, usize_max}
use flatcitybuf.Levels.Count.{Above, Above-sum}
use flatcitybuf.Levels.Bounds.{Accepted, Tiles, generate_level_bounds_by-num_nodes_by, checked-size}
use flatcitybuf.Stree.{generate_level_bounds, index_size}

two_or_more : (b : ℕ) → 2 ≤ b → (m : ℕ) → 1 ≤ m → ltb m b ≡ false → 2 ≤ m
two_or_more b wide m p h = ground arith

-- On inputs that the assertions let pass `generate_level_bounds` returns ranges that tile the
-- array of items from the leaves at its end to the top level at 0, which is the first with fewer
-- than `b` items; each level has a `b`-th of the items below it, rounded up. The array has at most
-- three times as many items as there are leaves, and for items of one or more bytes `index_size` is
-- the size of all items and of the payload section, or overflows when that is not a `usize`.
pub index_size-generate_level_bounds :
    (entry_size num_items b payload_size : ℕ)
    → 1 ≤ entry_size
    → Accepted num_items b
    → (ms : List ℕ) × (bounds : List Range) × (generate_level_bounds num_items b ≡ ok bounds)
      × Above (λ m. ltb m b) b num_items ms
      × Tiles (sum (num_items ∷ ms)) (num_items ∷ ms) bounds
      × (sum (num_items ∷ ms) ≤ 3 * num_items)
      × (index_size entry_size num_items b payload_size ≡ (
          if leb (sum (num_items ∷ ms) * entry_size + payload_size) usize_max
          then ok (sum (num_items ∷ ms) * entry_size + payload_size)
          else panic))
unfolding generate_level_bounds index_size
index_size-generate_level_bounds entry_size num_items b payload_size some_bytes
      (wide, some_items, small) =
    let (ms, bounds, found, above, tiles, count) =
      generate_level_bounds_by-num_nodes_by (λ m. ltb m b) (two_or_more b wide) num_items b
        (wide, some_items, small) in
    (
      ms,
      bounds,
      found,
      above,
      tiles,
      omega (
        arith,
        Above-sum (λ m. ltb m b) (two_or_more b wide) b wide num_items ms some_items above,
      ),
      rw count (checked-size (sum (num_items ∷ ms)) entry_size payload_size some_bytes),
    )
