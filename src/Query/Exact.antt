-- ===== src/Query/Exact.antt =====
-- A `query` of rust/fcb_core/src/static_btree/query/memory.rs with equality conditions, on indices
-- that `MemoryIndex::build` made.
use flatcitybuf.Prelude.{ℕ, ◌≡◌, true, List, Option, some}
use flatcitybuf.Error.{ok}
use flatcitybuf.Key.{Key, key_lt}
use flatcitybuf.Key.Order.{IsLinear}
use flatcitybuf.Stree.{Entry, Stree}
use flatcitybuf.Stree.Lookup.{offsets_of}
use flatcitybuf.Stree.Lookup.FindExact.{Fits}
use flatcitybuf.Query.{
  Operator, QueryCondition, MemoryIndex, MemoryMultiIndex, build, get, execute_query_condition,
}

module _ {K : Type 0} ⦃key : Key K⦄ (linear : IsLinear key) where
  module _ {V : Type 0} (extract : V → Option K) (self : MemoryMultiIndex V)
      (table : List ℕ → List (Entry K)) (factor : List ℕ → ℕ) (key_of : QueryCondition V → K) where
    -- A condition asks for the entries of its field with a key before the greatest value, and the
    -- index of the field was built from the entries that the table has for it.
    pub record IsExact (c : QueryCondition V) : Type 0 where
      pub operator : c.operator ≡ Operator.eq
      pub extracted : extract c.key ≡ some (key_of c)
      pub low : key_lt (key_of c) key.max_value ≡ true
      pub fits : Fits linear (table c.field)
      pub index : MemoryIndex K
      pub built : build (table c.field) (factor c.field) ≡ ok index
      pub added : get self.indices c.field ≡ some (execute_query_condition extract index)

    -- The offsets of the entries that a condition asks for.
    abbrev pub exact : QueryCondition V → List ℕ
    exact c = offsets_of (key_of c) (table c.field)
