-- ===== src/Stree/Codec/Tests.antt =====
-- The theorem on reading back a tree at a concrete tree of `u8` keys.
use flatcitybuf.Prelude.{ℕ, ◌+◌, ◌≡◌, refl, arith, true, [], ◌∷◌}
use flatcitybuf.Error.{ok}
use flatcitybuf.Levels.{Range}
use flatcitybuf.Stree.{Entry, Stree, generate_level_bounds, payload_tag}
use flatcitybuf.Stree.Codec.{KeyCodec, int_codec, stream_write, from_buf}
use flatcitybuf.Stree.Codec.RoundTrip.{int_codec-IsCodec, from_buf-stream_write-payload}

instance abbrev byte_codec : KeyCodec ℕ
byte_codec = int_codec 1

abbrev entry : ℕ → ℕ → Entry ℕ
entry key offset = record { key = key; offset = offset }

abbrev leaves : Range
leaves = record { start = 1; end = 3 }

abbrev tree : Stree ℕ
tree = record {
  node_items = entry 255 1 ∷ entry 10 (payload_tag + 0) ∷ entry 20 100 ∷ [];
  num_leaf_nodes = 2;
  branching_factor = 4;
  level_bounds = leaves ∷ record { start = 0; end = 1 } ∷ [];
  payload_data = 1 ∷ 0 ∷ 0 ∷ 0 ∷ 5 ∷ 0 ∷ 0 ∷ 0 ∷ 0 ∷ 0 ∷ 0 ∷ 0 ∷ [];
  payload_initialized = true;
}

tree_bounds : generate_level_bounds 2 4 ≡ ok tree.level_bounds
unfolding generate_level_bounds flatcitybuf.Levels.generate_level_bounds_by
tree_bounds = refl

from_buf-stream_write-payload_example : from_buf (stream_write tree) 2 4 ≡ ok tree
unfolding flatcitybuf.Array.first
from_buf-stream_write-payload_example =
    from_buf-stream_write-payload (int_codec-IsCodec 1) tree leaves refl (omega arith) (omega arith)
      tree_bounds refl refl
      ((omega arith, omega arith), ((omega arith, omega arith), ((omega arith, omega arith), tt)))
