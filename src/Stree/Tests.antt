-- ===== src/Stree/Tests.antt =====
-- Runs of stree.rs on `u8` keys, and the theorems at concrete inputs.
use flatcitybuf.Prelude.{
  ℕ, zero, suc, ◌+◌, ◌*◌, ◌^◌, ◌≡◌, refl, arith, true, List, [], ◌∷◌, map, ltb, leb, ◌≤◌,
  if◌then◌else◌,
}
use mathlib.Core.List.{Perm}
use flatcitybuf.Error.{Result, ok, panic, map_ok, ◌>>=◌}
use flatcitybuf.Levels.{Range, sum, usize_max}
use flatcitybuf.Levels.Count.{Above}
use flatcitybuf.Levels.Bounds.{Tiles}
use flatcitybuf.Key.Byte.{byte_key, byte_key-IsConsistent, byte_key-exact, byte_key-IsLinear}
use flatcitybuf.Stree.{Entry, Stree, SearchResultItem, generate_level_bounds, index_size}
use flatcitybuf.Stree.Bounds.{index_size-generate_level_bounds}
use flatcitybuf.Stree.Build.{build, group, sort_by_key}
use flatcitybuf.Stree.Build.Sort.{Ascending}
use flatcitybuf.Stree.Build.Group.{entries_of, group-sort_by_key}
use flatcitybuf.Stree.Search.{find_exact, find_range}
use flatcitybuf.Stree.Lookup.{offsets_of}
use flatcitybuf.Stree.Lookup.FindExact.{Fits, find_exact-build}

abbrev entry : ℕ → ℕ → Entry ℕ
entry key offset = record { key = key; offset = offset }

-- `n` entries with the keys from `k` on.
abbrev entries_from : ℕ → ℕ → List (Entry ℕ)
entries_from zero k = []
entries_from (suc n) k = entry k (k * 10) ∷ entries_from n (k + 1)

abbrev keys_of : Result (Stree ℕ) → Result (List ℕ)
keys_of t = map_ok (λ (x : Stree ℕ). map (λ (e : Entry ℕ). e.key) x.node_items) t

abbrev found_of : Result (List SearchResultItem) → Result (List ℕ)
found_of rs = map_ok (map λ (r : SearchResultItem). r.offset) rs

-- The tree of the test `tree_generate_nodes`.
build_19 :
    keys_of (build (entries_from 19 0) 4)
    ≡ ok (
        12 ∷ 255 ∷ 3 ∷ 6 ∷ 9 ∷ 15 ∷ 18 ∷ 0 ∷ 1 ∷ 2 ∷ 3 ∷ 4 ∷ 5 ∷ 6 ∷ 7 ∷ 8 ∷ 9 ∷ 10 ∷ 11 ∷ 12 ∷ 13
        ∷ 14 ∷ 15 ∷ 16 ∷ 17 ∷ 18 ∷ [])
unfolding build flatcitybuf.Payload.add_offset flatcitybuf.Payload.new
    flatcitybuf.Levels.generate_level_bounds_by
build_19 = refl

-- A range whose upper key is a separator misses that key.
find_range_1_3 :
    found_of (build (entries_from 19 0) 4 >>= λ t. find_range t 1 3) ≡ ok (10 ∷ 20 ∷ [])
unfolding build flatcitybuf.Payload.add_offset flatcitybuf.Payload.new
    flatcitybuf.Levels.generate_level_bounds_by find_range
find_range_1_3 = refl

-- The greatest key of the type leads behind the only leaf node of a small tree.
find_exact_max : found_of (build (entries_from 2 254) 4 >>= λ t. find_exact t 255) ≡ panic
unfolding build flatcitybuf.Payload.add_offset flatcitybuf.Payload.new
    flatcitybuf.Levels.generate_level_bounds_by find_exact
find_exact_max = refl

-- 2 ^ 60 items of 40 bytes pass the assertions, and their size overflows.
index_size_overflow : index_size 40 (2 ^ 60) 16 0 ≡ panic
unfolding index_size flatcitybuf.Levels.num_nodes_by
index_size_overflow = refl

abbrev with_duplicates : List (Entry ℕ)
with_duplicates = entry 7 500 ∷ entry 3 20 ∷ entry 7 30 ∷ []

find_exact_7 : found_of (build with_duplicates 4 >>= λ t. find_exact t 7) ≡ ok (500 ∷ 30 ∷ [])
unfolding build flatcitybuf.Payload.add_offset flatcitybuf.Payload.new
    flatcitybuf.Levels.generate_level_bounds_by find_exact flatcitybuf.Payload.serialize
    flatcitybuf.Bytes.write_le flatcitybuf.Payload.deserialize flatcitybuf.Bytes.read_le
find_exact_7 = refl

group-sort_by_key_example :
    (leaves : List (Entry ℕ)) × (bytes : List ℕ) × (group 3 (sort_by_key with_duplicates) []
      ≡ ok (leaves, bytes))
    × Ascending leaves
    × Perm (sort_by_key with_duplicates) with_duplicates
    × ((t : Stree ℕ)
        → t.payload_initialized ≡ true
        → t.payload_data ≡ bytes
        → entries_of t 0 leaves ≡ ok (sort_by_key with_duplicates))
group-sort_by_key_example =
    group-sort_by_key byte_key-IsConsistent byte_key-exact with_duplicates (omega arith)
      (omega arith, (omega arith, (omega arith, tt)))

index_size-generate_level_bounds_example :
    (ms : List ℕ) × (bounds : List Range) × (generate_level_bounds 19 4 ≡ ok bounds)
    × Above (λ m. ltb m 4) 4 19 ms
    × Tiles (sum (19 ∷ ms)) (19 ∷ ms) bounds
    × (sum (19 ∷ ms) ≤ 3 * 19)
    × (index_size 16 19 4 100 ≡ (
        if leb (sum (19 ∷ ms) * 16 + 100) usize_max then ok (sum (19 ∷ ms) * 16 + 100) else panic))
index_size-generate_level_bounds_example =
    index_size-generate_level_bounds 16 19 4 100 (omega arith)
      (omega arith, omega arith, omega arith)

with_duplicates-Fits : Fits byte_key-IsLinear with_duplicates
with_duplicates-Fits = (
  omega arith,
  omega arith,
  (omega arith, (omega arith, (omega arith, tt))),
  (refl, (refl, (refl, tt))),
)

find_exact-build_example :
    (t : Stree ℕ) × (items : List SearchResultItem) × (build with_duplicates 4 ≡ ok t)
    × (find_exact t 7 ≡ ok items)
    × (map (λ (r : SearchResultItem). r.offset) items ≡ offsets_of 7 with_duplicates)
find_exact-build_example =
    find_exact-build byte_key-IsLinear with_duplicates 4 7 with_duplicates-Fits refl
