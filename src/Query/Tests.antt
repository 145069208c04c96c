-- ===== src/Query/Tests.antt =====
-- Queries run on small indices, and the witnesses of the theorems on queries.
use flatcitybuf.Prelude.{ℕ, ◌+◌, ◌≡◌, refl, true, List, [], ◌∷◌, some}
use flatcitybuf.Error.{ok, err, query_error}
use flatcitybuf.Key.Byte.{byte_key}
use flatcitybuf.Stree.{Entry, payload_tag}
use flatcitybuf.Query.{
  Operator, contains, QueryCondition, MemoryIndex, MemoryMultiIndex, find_exact, find_range,
  execute_operator, execute_query_condition, new, add_index, execute, query,
}
use flatcitybuf.Query.Conjunction.{query_lem, query-err}

abbrev entry : ℕ → ℕ → Entry ℕ
entry key offset = record { key = key; offset = offset }

-- Two objects of one feature, at offset 100, have the values 10 and 20.
abbrev entries : List (Entry ℕ)
entries = entry 20 100 ∷ entry 10 100 ∷ entry 30 200 ∷ entry 10 300 ∷ []

abbrev index : MemoryIndex ℕ
index = record {
  stree = record {
    node_items = entry 255 1 ∷ entry 10 (payload_tag + 0) ∷ entry 20 100 ∷ entry 30 200 ∷ [];
    num_leaf_nodes = 3;
    branching_factor = 4;
    level_bounds = record { start = 1; end = 4 } ∷ record { start = 0; end = 1 } ∷ [];
    payload_data =
        2 ∷ 0 ∷ 0 ∷ 0 ∷ 100 ∷ 0 ∷ 0 ∷ 0 ∷ 0 ∷ 0 ∷ 0 ∷ 0 ∷ 44 ∷ 1 ∷ 0 ∷ 0 ∷ 0 ∷ 0 ∷ 0 ∷ 0 ∷ [];
    payload_initialized = true;
  };
}

-- The object with the value 20 is above 10, but its feature also has one with the value 10.
execute_gt : execute_operator index Operator.gt 10 ≡ ok (200 ∷ [])
unfolding execute_operator find_exact find_range flatcitybuf.Stree.Search.find_range
    flatcitybuf.Payload.deserialize flatcitybuf.Bytes.read_le flatcitybuf.Stree.Search.find_exact
execute_gt = refl

abbrev condition : List ℕ → Operator → ℕ → QueryCondition ℕ
condition field operator key = record { field = field; operator = operator; key = key }

abbrev self : MemoryMultiIndex ℕ
self = add_index some new (104 ∷ []) index

abbrev from_condition : QueryCondition ℕ
from_condition = condition (104 ∷ []) Operator.ge 10

abbrev above_condition : QueryCondition ℕ
above_condition = condition (104 ∷ []) Operator.gt 10

abbrev unknown_condition : QueryCondition ℕ
unknown_condition = condition (105 ∷ []) Operator.gt 10

abbrev answers : QueryCondition ℕ → List ℕ
answers c = elim c.operator [ Operator.ge ↦ 100 ∷ 300 ∷ 100 ∷ 200 ∷ [] | _ ↦ 200 ∷ [] ]

answers_from : execute self from_condition ≡ ok (answers from_condition)
unfolding execute add_index execute_query_condition find_exact find_range
    flatcitybuf.Stree.Search.find_range flatcitybuf.Payload.deserialize flatcitybuf.Bytes.read_le
    flatcitybuf.Stree.Search.find_exact new
answers_from = refl

answers_above : execute self above_condition ≡ ok (answers above_condition)
unfolding execute add_index execute_query_condition find_exact find_range
    flatcitybuf.Stree.Search.find_range flatcitybuf.Payload.deserialize flatcitybuf.Bytes.read_le
    flatcitybuf.Stree.Search.find_exact new
answers_above = refl

fails_unknown : execute self unknown_condition ≡ err query_error
unfolding execute add_index new
fails_unknown = refl

query_lem_example : query self (from_condition ∷ above_condition ∷ []) ≡ ok (200 ∷ [])
query_lem_example =
    query_lem self answers from_condition (above_condition ∷ []) answers_from (answers_above, tt)

query-err_example :
    query self (from_condition ∷ above_condition ∷ unknown_condition ∷ []) ≡ err query_error
query-err_example =
    query-err self answers unknown_condition [] query_error fails_unknown from_condition
      (above_condition ∷ []) answers_from (answers_above, tt)

abbrev equals : ℕ → QueryCondition ℕ
equals k = condition (104 ∷ []) Operator.eq k
