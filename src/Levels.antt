-- ===== src/Levels.antt =====
-- The level arithmetic that the two packed trees share: the counting loops and the offsets of
-- `generate_level_bounds` and `index_size`, in rust/fcb_core/src/packed_rtree/mod.rs and
-- rust/fcb_core/src/static_btree/stree.rs. The loops differ only in the test that ends them.
pub mod Bounds
pub mod Count
pub mod Shape
use flatcitybuf.Prelude.{
  ℕ, zero, suc, ◌+◌, ◌-◌, ◌*◌, ◌/◌, ◌≤◌, Bool, true, false, ◌&&◌, List, [], ◌∷◌, ltb, leb, ◌==◌,
  if◌then◌else◌,
}
use flatcitybuf.Error.{Result, ok, panic, out_of_fuel, map_ok, ◌>>=◌}

pub record Range : Type 0 where
  pub start : ℕ
  pub end : ℕ

-- `usize::MAX` on a 64-bit machine.
abbrev pub usize_max : ℕ
usize_max = 0xffff_ffff_ffff_ffff

-- A `usize` result: an overflow panics, as in a build with overflow checks.
abbrev pub checked : ℕ → Result ℕ
checked n = if leb n usize_max then ok n else panic

-- `n.div_ceil(d)` for a divisor that is not 0.
abbrev pub div_ceil : ℕ → ℕ → ℕ
div_ceil n d = (n + d - 1) / d

abbrev pub sum : List ℕ → ℕ
sum [] = 0
sum (x ∷ xs) = x + sum xs

-- The levels above one of `n` nodes, bottom-up: the `loop` that divides by the branching factor.
unfoldable pub upper_counts : (ℕ → Bool) → ℕ → ℕ → ℕ → Result (List ℕ)
upper_counts stop zero b n = out_of_fuel
upper_counts stop (suc fuel) b n =
    let n' = div_ceil n b in
    let rest = upper_counts stop fuel b n' in
    if stop n' then ok (n' ∷ []) else map_ok (λ ns. n' ∷ ns) rest

-- `level_num_nodes`. A level above shrinks unless the loop ends, so `n + 1` rounds are enough.
unfoldable pub level_num_nodes : (ℕ → Bool) → ℕ → ℕ → Result (List ℕ)
unfolding upper_counts
level_num_nodes stop b n = map_ok (λ ns. n ∷ ns) (upper_counts stop (n + 1) b n)

-- `level_offsets` and `level_bounds` in one pass, from the node count that is left.
unfoldable pub bounds_from : ℕ → List ℕ → List Range
bounds_from n [] = []
bounds_from n (size ∷ sizes) =
    record { start = n - size; end = n - size + size } ∷ bounds_from (n - size) sizes

-- The three assertions, the loop and the bounds of `generate_level_bounds`.
unfoldable pub generate_level_bounds_by : (ℕ → Bool) → ℕ → ℕ → Result (List Range)
unfolding level_num_nodes bounds_from
generate_level_bounds_by stop num_items b =
    if leb 2 b && (ltb 0 num_items && leb num_items (usize_max - num_items / b * 2))
    then map_ok (λ sizes. bounds_from (sum sizes) sizes) (level_num_nodes stop b num_items)
    else panic

-- The count of `index_size`: every level, the leaves included.
unfoldable pub num_nodes_by : (ℕ → Bool) → ℕ → ℕ → Result ℕ
unfolding level_num_nodes
num_nodes_by stop num_items b =
    if leb 2 b && ltb 0 num_items then map_ok sum (level_num_nodes stop b num_items) else panic
