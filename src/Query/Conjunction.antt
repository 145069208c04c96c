-- ===== src/Query/Conjunction.antt =====
-- `MemoryMultiIndex::query` of rust/fcb_core/src/static_btree/query/memory.rs.
use flatcitybuf.Prelude.{
  ℕ, ◌≡◌, refl, sym, ap, ◌∙◌, arith, Bool, true, false, ◌&&◌, List, [], ◌∷◌, ◌++◌, All, Bool-cases,
  inl, inr, if◌then◌else◌,
}
use mathlib.Core.Bool.{false≢true}
use flatcitybuf.Error.{ok, err, Error}
use flatcitybuf.Query.{
  QueryCondition, MemoryMultiIndex, contains, retain, is_empty, execute, intersect, query,
}

retain-true : (xs : List ℕ) → retain (λ x. true) xs ≡ xs
retain-true [] = refl
retain-true (x ∷ xs) = ap (λ (t : List ℕ). x ∷ t) (retain-true xs)

retain-retain :
    (p q : ℕ → Bool) (xs : List ℕ) → retain q (retain p xs) ≡ retain (λ x. p x && q x) xs
retain-retain p q [] = refl
retain-retain p q (x ∷ xs) = ground (arith, retain-retain p q xs)

retain-empty : (q : ℕ → Bool) (xs : List ℕ) → is_empty xs ≡ true → retain q xs ≡ []
retain-empty q [] h = refl
retain-empty q (x ∷ xs) h = absurd (false≢true h)

module _ {V : Type 0} (self : MemoryMultiIndex V) (answers : QueryCondition V → List ℕ) where
  abbrev pub Answered : QueryCondition V → Type 0
  Answered c = execute self c ≡ ok (answers c)

  -- The offset is in the answer to each condition.
  abbrev pub in_all : List (QueryCondition V) → ℕ → Bool
  in_all [] o = true
  in_all (c ∷ cs) o = contains (answers c) o && in_all cs o

  intersect_lem :
      (cs : List (QueryCondition V)) (rs : List ℕ)
      → All Answered cs
      → intersect self cs rs ≡ ok (retain (in_all cs) rs)
  unfolding intersect
  intersect_lem [] rs hs = ap ok (sym (retain-true rs))
  intersect_lem (c ∷ cs) rs (h, hs) =
      let kept = retain (contains (answers c)) rs in
      elim (Bool-cases (is_empty kept)) [
        | inl e ↦
            rw (h, e)
              (ap ok (
                sym (
                  sym (retain-retain (contains (answers c)) (in_all cs) rs)
                  ∙ retain-empty (in_all cs) kept e)))
        | inr e ↦
            rw (h, e)
              (intersect_lem cs kept hs
                ∙ ap ok (retain-retain (contains (answers c)) (in_all cs) rs))
      ]

  -- When the index of each condition answers, the query answers too: with the offsets of the
  -- first condition's answer, in their order, that are in the answers to all others.
  pub query_lem :
      (c : QueryCondition V) (cs : List (QueryCondition V))
      → Answered c
      → All Answered cs
      → query self (c ∷ cs) ≡ ok (retain (in_all cs) (answers c))
  unfolding query
  query_lem c cs h hs = elim (Bool-cases (is_empty (answers c))) [
    | inl e ↦ rw (h, e) (ap ok (sym (retain-empty (in_all cs) (answers c) e)))
    | inr e ↦ rw (h, e) (intersect_lem cs (answers c) hs)
  ]

  module _ (d : QueryCondition V) (ds : List (QueryCondition V)) (e : Error)
      (fails : execute self d ≡ err e) where
    intersect-err :
        (cs : List (QueryCondition V)) (rs : List ℕ)
        → All Answered cs
        → is_empty rs ≡ false
        → intersect self (cs ++ (d ∷ ds)) rs
          ≡ (if is_empty (retain (in_all cs) rs) then ok [] else err e)
    unfolding intersect
    intersect-err [] rs hs some_left = rw (fails, retain-true rs, some_left) refl
    intersect-err (c ∷ cs) rs (h, hs) some_left =
        let kept = retain (contains (answers c)) rs in
        let both = retain-retain (contains (answers c)) (in_all cs) rs in
        elim (Bool-cases (is_empty kept)) [
          | inl none_left ↦
              let nothing : retain (λ x. contains (answers c) x && in_all cs x) rs ≡ [] =
                sym both ∙ retain-empty (in_all cs) kept none_left in
              rw (h, none_left, nothing) refl
          | inr left ↦
              rw (h, left)
                (intersect-err cs kept hs left
                  ∙ ap (λ (t : List ℕ). if is_empty t then ok [] else err e) both)
        ]

    -- When the first condition without an answer fails, so does the query, unless the conditions
    -- before it leave no offset: then it returns no results.
    pub query-err :
        (c : QueryCondition V) (cs : List (QueryCondition V))
        → Answered c
        → All Answered cs
        → query self (c ∷ (cs ++ (d ∷ ds)))
          ≡ (if is_empty (retain (in_all cs) (answers c)) then ok [] else err e)
    unfolding query
    query-err c cs h hs = elim (Bool-cases (is_empty (answers c))) [
      | inl none_left ↦ rw (h, none_left, retain-empty (in_all cs) (answers c) none_left) refl
      | inr left ↦ rw (h, left) (intersect-err cs (answers c) hs left)
    ]
