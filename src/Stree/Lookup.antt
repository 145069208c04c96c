-- ===== src/Stree/Lookup.antt =====
-- `build` followed by `find_exact` of rust/fcb_core/src/static_btree/stree.rs: the index as its
-- users see it, a map from a key to the offsets that were entered under it.
pub mod Offsets
pub mod Answer
pub mod FindExact
use flatcitybuf.Prelude.{ℕ, List, [], ◌∷◌, if◌then◌else◌}
use flatcitybuf.Key.{Key, key_eq}
use flatcitybuf.Stree.{Entry}

module _ {K : Type 0} ⦃key : Key K⦄ where
  -- The offsets of the entries with key `k`, in the order of the entries.
  unfoldable pub offsets_of : K → List (Entry K) → List ℕ
  offsets_of k [] = []
  offsets_of k (e ∷ es) =
      let rest = offsets_of k es in if key_eq e.key k then e.offset ∷ rest else rest
