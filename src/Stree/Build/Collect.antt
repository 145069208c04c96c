-- ===== src/Stree/Build/Collect.antt =====
-- The inner loop of the grouping in `build` of rust/fcb_core/src/static_btree/stree.rs.
use flatcitybuf.Prelude.{
  ℕ, suc, ◌+◌, ◌≤◌, ◌<◌, ◌≡◌, refl, sym, ap, ◌∙◌, arith, true, List, [], ◌∷◌, ◌++◌, length,
  append-nil, append_assoc, Bool-cases, inl, inr, All,
}
use mathlib.Core.Path.{subst, ap₂}
use flatcitybuf.Key.{Key, IsConsistent, key_eq, key_lt_of_le}
use flatcitybuf.Payload
use flatcitybuf.Payload.{PayloadEntry, add_offset, serialize, serialized_size}
use flatcitybuf.Payload.RoundTrip.{IsValid, IsU64, new-IsValid, add_offset-IsValid}
use flatcitybuf.Stree.{Entry, payload_tag}
use flatcitybuf.Stree.Build.{collect}
use flatcitybuf.Stree.Build.Sort.{SortedFrom, StrictFrom}

count-add_offset : (p : PayloadEntry) (o : ℕ) → (add_offset p o).count ≤ p.count + 1
unfolding add_offset
count-add_offset p o = grind arith

pub one_offset : (o : ℕ) → IsU64 o → IsValid (add_offset Payload.new o)
unfolding Payload.new
one_offset o h = add_offset-IsValid Payload.new o new-IsValid h (omega arith)

pub one_count : (o : ℕ) → (add_offset Payload.new o).count ≡ 1
unfolding Payload.new add_offset
one_count o = refl

pub one_offsets : (o : ℕ) (os : List ℕ) → (add_offset Payload.new o).offsets ++ os ≡ o ∷ os
unfolding Payload.new add_offset
one_offsets o os = refl

module _ {K : Type 0} ⦃key : Key K⦄ where
  abbrev pub keyed : K → List ℕ → List (Entry K)
  keyed k [] = []
  keyed k (o ∷ os) = record { key = k; offset = o } ∷ keyed k os

  pub length-keyed : (k : K) (os : List ℕ) → length (keyed k os) ≡ length os
  length-keyed k [] = refl
  length-keyed k (o ∷ os) = ap suc (length-keyed k os)

  -- An offset that has no tag bit, as the position of a feature in a file.
  abbrev pub IsPlain : Entry K → Type 0
  IsPlain e = e.offset < payload_tag

  -- The order of the keys tells apart what is not equal.
  module _ (law : IsConsistent key) (exact : (a b : K) → key_eq a b ≡ true → a ≡ b) where
    -- The inner loop takes the entries of the same key from the front, in their order.
    pub collect_lem :
        (k : K) (p : PayloadEntry) (es : List (Entry K))
        → IsValid p
        → p.count + length es < 0x1_0000_0000
        → All IsPlain es
        → (q : PayloadEntry) × (rest : List (Entry K)) × (os : List ℕ) × (collect k p es
            ≡ (q, rest))
          × (es ≡ keyed k os ++ rest)
          × (q.offsets ≡ p.offsets ++ os)
          × IsValid q
          × All IsPlain rest
          × (SortedFrom k es → StrictFrom k rest)
    unfolding collect add_offset
    collect_lem k p [] valid h plain =
        (p, [], [], refl, refl, sym (append-nil p.offsets), valid, tt, λ s. tt)
    collect_lem k p (e ∷ es) valid h (small, plain) = elim (Bool-cases (key_eq e.key k)) [
      | inr ne ↦ (
        p,
        e ∷ es,
        [],
        rw ne refl,
        refl,
        sym (append-nil p.offsets),
        valid,
        (small, plain),
        λ (first, s). (key_lt_of_le law k e.key first ne, s),
      )
      | inl eq ↦
          let (q, rest, os, run, split, offsets, ok_q, plain_rest, strict) =
            collect_lem k (add_offset p e.offset) es
              (add_offset-IsValid p e.offset valid (omega arith) (omega arith))
              (omega (arith, count-add_offset p e.offset)) plain in
          (
            q,
            rest,
            e.offset ∷ os,
            rw (eq, run) refl,
            ap₂ (λ (x : Entry K) (t : List (Entry K)). x ∷ t)
                (λ i. record { key = exact e.key k eq i; offset = e.offset }) split,
            offsets ∙ append_assoc p.offsets (e.offset ∷ []) os,
            ok_q,
            plain_rest,
            λ (first, s). strict (subst (λ x. SortedFrom x es) (exact e.key k eq) s),
          )
    ]
