-- ===== src/Query.antt =====
-- The queries on attribute indices of rust/fcb_core/src/static_btree/query/types.rs and
-- rust/fcb_core/src/static_btree/query/memory.rs: `MemoryIndex`, the macro
-- `impl_typed_search_index` and `MemoryMultiIndex`. The macro's key type and enum variant are
-- parameters: an order on the keys, and the extraction of a key from a `KeyType`.
pub mod Exact
pub mod Conjunction
mod Tests
use flatcitybuf.Prelude.{
  ℕ, Bool, true, false, not, ◌&&◌, ◌||◌, List, [], ◌∷◌, Option, none, some, map, ◌==◌,
  if◌then◌else◌,
}
use flatcitybuf.Error.{Result, ok, err, query_error, map_ok, ◌>>=◌}
use flatcitybuf.Key.{Key}
use flatcitybuf.Stree
use flatcitybuf.Stree.{Entry, Stree, SearchResultItem}
use flatcitybuf.Stree.Build
use flatcitybuf.Stree.Search

pub data Operator : Type 0 where
  eq : Operator
  ne : Operator
  gt : Operator
  lt : Operator
  ge : Operator
  le : Operator

-- A field name is its bytes; `V` is `KeyType`.
pub record QueryCondition (V : Type 0) : Type 0 where
  pub field : List ℕ
  pub operator : Operator
  pub key : V

-- `Vec::contains`
abbrev pub contains : List ℕ → ℕ → Bool
contains [] o = false
contains (x ∷ xs) o = (x == o) || contains xs o

-- `Vec::retain`
abbrev pub retain : (ℕ → Bool) → List ℕ → List ℕ
retain p [] = []
retain p (x ∷ xs) = if p x then x ∷ retain p xs else retain p xs

abbrev pub is_empty : List ℕ → Bool
is_empty [] = true
is_empty (x ∷ xs) = false

pub record MemoryIndex (K : Type 0) : Type 0 where
  pub stree : Stree K

abbrev pub offsets : Result (List SearchResultItem) → Result (List ℕ)
offsets results = map_ok (map λ item. item.offset) results

-- The items that are no exact match.
abbrev pub without : Result (List ℕ) → Result (List ℕ) → Result (List ℕ)
without range exact = do
  results ← range
  exact_matches ← exact
  ok (retain (λ item. not (contains exact_matches item)) results)

module _ {K : Type 0} ⦃key : Key K⦄ where
  unfoldable pub build : List (Entry K) → ℕ → Result (MemoryIndex K)
  build entries branching_factor =
      map_ok (λ t. record { stree = t }) (Stree.Build.build entries branching_factor)

  unfoldable pub find_exact : MemoryIndex K → K → Result (List ℕ)
  find_exact index k = offsets (Stree.Search.find_exact index.stree k)

  unfoldable pub find_range : MemoryIndex K → Option K → Option K → Result (List ℕ)
  find_range index (some start) (some end) = offsets (Stree.Search.find_range index.stree start end)
  find_range index (some start) none =
      offsets (Stree.Search.find_range index.stree start key.max_value)
  find_range index none (some end) = offsets (Stree.Search.find_range index.stree key.min_value end)
  find_range index none none = err query_error

  -- The `match` on the operator.
  pub execute_operator : MemoryIndex K → Operator → K → Result (List ℕ)
  execute_operator index Operator.eq k = find_exact index k
  execute_operator index Operator.ne k =
      without (find_range index (some key.min_value) (some key.max_value)) (find_exact index k)
  execute_operator index Operator.gt k =
      without (find_range index (some k) none) (find_exact index k)
  execute_operator index Operator.lt k =
      without (find_range index none (some k)) (find_exact index k)
  execute_operator index Operator.ge k = find_range index (some k) none
  execute_operator index Operator.le k = find_range index none (some k)

  unfoldable pub execute_query_condition :
      {V : Type 0} → (V → Option K) → MemoryIndex K → QueryCondition V → Result (List ℕ)
  unfolding execute_operator
  execute_query_condition extract index condition = elim (extract condition.key) [
    | none ↦ err query_error
    | some k ↦ execute_operator index condition.operator k
  ]

-- A boxed `TypedSearchIndex` is its one method.
abbrev pub TypedSearchIndex : Type 0 → Type 0
TypedSearchIndex V = QueryCondition V → Result (List ℕ)

-- Equality of field names.
abbrev pub same_field : List ℕ → List ℕ → Bool
same_field [] [] = true
same_field [] (b ∷ ys) = false
same_field (a ∷ xs) [] = false
same_field (a ∷ xs) (b ∷ ys) = (a == b) && same_field xs ys

-- The `HashMap` is an association list, one pair for each field.
pub record MemoryMultiIndex (V : Type 0) : Type 0 where
  pub indices : List (List ℕ × TypedSearchIndex V)

module _ {V : Type 0} where
  pub new : MemoryMultiIndex V
  new = record { indices = [] }

  pub insert :
      List (List ℕ × TypedSearchIndex V)
      → List ℕ
      → TypedSearchIndex V
      → List (List ℕ × TypedSearchIndex V)
  insert [] field index = (field, index) ∷ []
  insert ((f, i) ∷ rest) field index =
      if same_field f field then (field, index) ∷ rest else (f, i) ∷ insert rest field index

  -- `add_index`; the methods `add_i32_index` and so on are the same for one key type each.
  unfoldable pub add_index :
      {K : Type 0} ⦃key : Key K⦄
      → (V → Option K)
      → MemoryMultiIndex V
      → List ℕ
      → MemoryIndex K
      → MemoryMultiIndex V
  unfolding insert
  add_index extract self field index = record {
    indices = insert self.indices field (execute_query_condition extract index);
  }

  pub get : List (List ℕ × TypedSearchIndex V) → List ℕ → Option (TypedSearchIndex V)
  get [] field = none
  get ((f, i) ∷ rest) field = if same_field f field then some i else get rest field

  -- The condition on the index of its field; a field without index is an error.
  unfoldable pub execute : MemoryMultiIndex V → QueryCondition V → Result (List ℕ)
  unfolding get
  execute self condition = elim (get self.indices condition.field) [
    | none ↦ err query_error
    | some index ↦ index condition
  ]

  -- `for condition in &conditions[1..]`
  unfoldable pub intersect : MemoryMultiIndex V → List (QueryCondition V) → List ℕ → Result (List ℕ)
  intersect self [] result_set = ok result_set
  intersect self (condition ∷ conditions) result_set = do
    condition_results ← execute self condition
    let rest = intersect self conditions (retain (contains condition_results) result_set)
    if is_empty (retain (contains condition_results) result_set) then ok [] else rest

  unfoldable pub query : MemoryMultiIndex V → List (QueryCondition V) → Result (List ℕ)
  unfolding intersect execute
  query self [] = err query_error
  query self (condition ∷ conditions) = do
    result_set ← execute self condition
    let rest = intersect self conditions result_set
    if is_empty result_set then ok [] else rest
