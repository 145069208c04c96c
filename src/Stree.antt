-- ===== src/Stree.antt =====
-- The static B+tree of rust/fcb_core/src/static_btree/stree.rs over an abstract key type: `init`,
-- `generate_level_bounds`, `generate_nodes`, `build`, `find_exact`, `find_partition`, `find_range`.
-- A node is a run of `branching_factor - 1` items of the array; internal items hold a separator
-- key and the index of the child on its left.
pub mod Build
pub mod Bounds
pub mod Search
pub mod Pointer
pub mod Codec
pub mod Shape
pub mod Lookup
mod Tests
use Prim.Native.Nat.{Ordering}
use flatcitybuf.Prelude.{
  ℕ, zero, suc, ◌+◌, ◌-◌, ◌*◌, ◌%◌, ◌≤◌, Bool, true, false, ◌&&◌, not, List, [], ◌∷◌, ◌++◌, Option,
  none, some, length, get_elem?, set, take, drop, replicate, ltb, leb, ◌==◌, if◌then◌else◌, min,
}
use flatcitybuf.Error.{Result, ok, err, panic, out_of_fuel, map_ok, ◌>>=◌}
use flatcitybuf.Levels.{Range, generate_level_bounds_by, num_nodes_by, checked}
use flatcitybuf.Key.{Key, key_lt, key_le, key_eq}
use flatcitybuf.Payload
use flatcitybuf.Payload.{PayloadEntry, add_offset, serialize, deserialize}

-- `PAYLOAD_TAG`, the top bit of an offset.
abbrev pub payload_tag : ℕ
payload_tag = 0x8000_0000_0000_0000

-- `off & PAYLOAD_TAG != 0`, `off & PAYLOAD_MASK` and `TAG_MASK | rel`, on 64-bit words.
abbrev pub is_tagged : ℕ → Bool
is_tagged off = leb payload_tag (off % 0x1_0000_0000_0000_0000)

abbrev pub untag : ℕ → ℕ
untag off = off % payload_tag

abbrev pub tag : ℕ → ℕ
tag rel = payload_tag + rel % payload_tag

pub record Entry (K : Type 0) : Type 0 where
  pub key : K
  pub offset : ℕ

pub record SearchResultItem : Type 0 where
  pub offset : ℕ
  pub index : ℕ

pub record Stree (K : Type 0) : Type 0 where
  pub node_items : List (Entry K)
  pub num_leaf_nodes : ℕ
  pub branching_factor : ℕ
  pub level_bounds : List Range
  pub payload_data : List ℕ
  pub payload_initialized : Bool

-- The loop ends at a level that fits one node.
unfoldable pub generate_level_bounds : ℕ → ℕ → Result (List Range)
generate_level_bounds num_items b = generate_level_bounds_by (λ n. ltb n b) num_items b

-- The bytes of the index, for items of `entry_size` bytes. A sum of some levels that overflows is
-- part of a count that does.
unfoldable pub index_size : ℕ → ℕ → ℕ → ℕ → Result ℕ
index_size entry_size num_items b payload_size = do
  num_nodes ← num_nodes_by (λ n. ltb n b) num_items b
  num_nodes ← checked num_nodes
  size ← checked (num_nodes * entry_size)
  checked (size + payload_size)

-- What `binary_search_by` returns on a slice in strictly ascending order.
pub data Found : Type 0 where
  found : ℕ → Found
  missing : ℕ → Found

abbrev pub later : Found → Found
later (found i) = found (suc i)
later (missing i) = missing (suc i)

module _ {K : Type 0} ⦃key : Key K⦄ where
  unfoldable pub binary_search : List (Entry K) → K → Found
  binary_search [] k = missing 0
  binary_search (e ∷ es) k =
      let rest = later (binary_search es k) in
      elim (key.cmp e.key k) [
        | Ordering.lt ↦ rest
        | Ordering.eq ↦ found 0
        | Ordering.gt ↦ missing 0
      ]

-- `clamp(2, 65535)` of a `u16`.
abbrev pub clamp_factor : ℕ → ℕ
clamp_factor b = if ltb b 2 then 2 else if ltb 65535 b then 65535 else b
