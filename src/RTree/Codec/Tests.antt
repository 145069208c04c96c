-- ===== src/RTree/Codec/Tests.antt =====
-- The theorem on reading back a tree at a concrete tree, over coordinates of two values.
use flatcitybuf.Prelude.{
  ℕ, ◌<◌, ◌^◌, ◌≡◌, refl, arith, Bool, true, false, not, ◌&&◌, ◌||◌, ◌==◌, [], ◌∷◌, ◌++◌,
}
use flatcitybuf.Error.{ok}
use flatcitybuf.Levels.{Range}
use flatcitybuf.RTree.{Float, NodeItem, PackedRTree, create, expand_all, generate_level_bounds}
use flatcitybuf.RTree.Codec.{FloatBits, stream_write, from_buf}
use flatcitybuf.RTree.Codec.RoundTrip.{IsFaithful, from_buf-stream_write}

instance abbrev two_values : Float Bool
two_values = record {
  lt = λ a b. not a && b;
  le = λ a b. not a || b;
  infinity = true;
  neg_infinity = false;
}

instance abbrev bit : FloatBits Bool
bit = record { to_bits = bit_of; from_bits = λ n. n == 1 }
  where
    bit_of : Bool → ℕ
    bit_of true = 1
    bit_of false = 0

bit-IsFaithful : IsFaithful bit
bit-IsFaithful = record { small = small; back = back }
  where
    small : (x : Bool) → bit.to_bits x < 256 ^ 8
    small true = omega arith
    small false = omega arith

    back : (x : Bool) → bit.from_bits (bit.to_bits x) ≡ x
    back true = refl
    back false = refl

abbrev item : ℕ → NodeItem Bool
item offset = record { min_x = false; min_y = false; max_x = true; max_y = true; offset = offset }

abbrev leaves : Range
leaves = record { start = 1; end = 2 }

abbrev tree : PackedRTree Bool
tree = record {
  extent = item 0;
  node_items = item 1 ∷ item 700 ∷ [];
  num_leaf_nodes = 1;
  branching_factor = 2;
  level_bounds = leaves ∷ record { start = 0; end = 1 } ∷ [];
}

tree_bounds : generate_level_bounds 1 2 ≡ ok tree.level_bounds
unfolding generate_level_bounds flatcitybuf.Levels.generate_level_bounds_by
tree_bounds = refl

from_buf-stream_write_example :
    from_buf (stream_write tree ++ (7 ∷ [])) 1 2
    ≡ ok (record tree { extent = expand_all (create 0) tree.node_items })
unfolding flatcitybuf.Array.first
from_buf-stream_write_example =
    from_buf-stream_write bit-IsFaithful tree leaves (7 ∷ []) (omega arith) (omega arith)
      tree_bounds refl refl (omega arith, (omega arith, tt))
